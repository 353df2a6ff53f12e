-- ===== src/App/Health.antt =====
-- src/smokejumper/app.py: when the container counts as healthy, and what an unset secret means.
use smokejumper.Prelude.{
  ℕ, ◌≡◌, ◌↔◌, refl, Bool, true, Option, none, some, Text, lit, text_eq, ok, arith, ◌&&◌,
  if◌then◌else◌,
}
use smokejumper.Receiver.Delivery.{Task, Store, running, cancelled, returned, raised, status}
use smokejumper.Receiver.Verification.{verify_shared_token}
use smokejumper.Receiver.Routes.{Libraries, Request, Outside, unverified, datadog_webhook}
use smokejumper.App.{
  Vitals, WebhookSettings, probe, checks, healthz, configured_router, reveal, task_status,
}

probe-ok : (error : Option Text) → (text_eq (probe error) (lit "ok") ≡ true) ↔ (error ≡ none)
unfolding probe text_eq
probe-ok none = (λ e. refl, λ h. refl)
probe-ok (some error) = (λ e. cc e, λ h. cc h)

task-ok :
    (task : Option Task) → (text_eq (task_status task) (lit "ok") ≡ true) ↔ (task ≡ some running)
unfolding status text_eq
task-ok none = (λ e. cc e, λ h. cc h)
task-ok (some running) = (λ e. refl, λ h. refl)
task-ok (some cancelled) = (λ e. cc e, λ h. cc h)
task-ok (some returned) = (λ e. cc e, λ h. cc h)
task-ok (some (raised name)) = (λ e. cc e, λ h. cc h)

abbrev code_of : Bool → ℕ
code_of healthy = if healthy then 200 else 503

answered :
    (a b c d e : Bool)
    → (code_of (a && (b && (c && (d && (e && true))))) ≡ 200)
      ↔ ((a ≡ true) × (b ≡ true) × (c ≡ true) × (d ≡ true) × (e ≡ true))
answered a b c d e = ground arith

-- The health endpoint answers 200 exactly where Postgres, its schema and Redis answer their checks
-- and both background tasks are running; neither write failures of the recorder nor the backlogs
-- change the code.
pub healthz_iff :
    (v : Vitals)
    → ((healthz v).status_code ≡ 200) ↔ (
        (v.postgres ≡ none)
        × (v.schema ≡ none)
        × (v.redis ≡ none)
        × (v.worker ≡ some running)
        × (v.outbox ≡ some running))
unfolding healthz checks
healthz_iff v =
    let passes =
      answered (text_eq (probe v.postgres) (lit "ok")) (text_eq (probe v.schema) (lit "ok"))
        (text_eq (probe v.redis) (lit "ok")) (text_eq (task_status v.worker) (lit "ok"))
        (text_eq (task_status v.outbox) (lit "ok")) in
    (
      λ e.
          let (postgres, schema, redis, worker, outbox) = passes.0 e in
          (
            (probe-ok v.postgres).0 postgres,
            (probe-ok v.schema).0 schema,
            (probe-ok v.redis).0 redis,
            (task-ok v.worker).0 worker,
            (task-ok v.outbox).0 outbox,
          ),
      λ (postgres, schema, redis, worker, outbox). passes.1 (
        (probe-ok v.postgres).1 postgres,
        (probe-ok v.schema).1 schema,
        (probe-ok v.redis).1 redis,
        (task-ok v.worker).1 worker,
        (task-ok v.outbox).1 outbox,
      ),
    )

-- A deployment without a Datadog secret answers every Datadog request with 401 and changes nothing,
-- whatever the request holds.
datadog_webhook-unset :
    {Address Network : Type 0} (lib : Libraries Address Network)
    (webhooks : WebhookSettings Network) (out : Outside) (reason : Text) (request : Request)
    (s : Store)
    → webhooks.datadog_secret ≡ none
    → datadog_webhook lib (configured_router webhooks) out reason request s ≡ (ok unverified, s)
unfolding datadog_webhook configured_router reveal verify_shared_token
datadog_webhook-unset lib webhooks out reason request s unset = rw unset refl
