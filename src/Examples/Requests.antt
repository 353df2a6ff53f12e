-- ===== src/Examples/Requests.antt =====
-- The theorems on verification and on the routes at small requests.
use mathlib.Core.List.{Memᴰ}
use smokejumper.Prelude.{
  ℕ, ◌≡◌, ◌≢◌, ◌⊎◌, ◌↔◌, ◌+◌, refl, true, Option, none, some, [], ◌∷◌, ◌++◌, arith, Text, lit,
  text_eq, split, strip, starts_with, remove_prefix, ok,
}
use smokejumper.Contracts.Json.{obj}
use smokejumper.Contracts.Events.{EventSource, grafana}
use smokejumper.Persistence.{Database}
use smokejumper.Receiver.Repository.{is_open, is_recent, admit, dedupe_window, opened, new_row}
use smokejumper.Receiver.Verification.{
  Headers, is_ascii, header, verify_shared_token, verify_hmac_signature, verify_pagerduty_signature,
}
use smokejumper.Receiver.Verification.Schemes.{
  verify_shared_token_iff, verify_hmac_signature_iff, verify_pagerduty_signature_sound,
}
use smokejumper.Receiver.Routes.{
  Libraries, Router, Request, Outside, datadog_webhook, handler, admit_and_publish_one,
}
use smokejumper.Receiver.Routes.Invariants.{IsOrderly, handler-IsOrderly}
use smokejumper.Receiver.Routes.Answers.{
  HasToken, HasCredential, IsRefused, IsReported, IsOffered, handler_refuses,
  admit_and_publish_one_answers,
}
use smokejumper.Receiver.Delivery.{dispatch_event}
use smokejumper.Receiver.Delivery.Receipts.{IsReceipted}
use smokejumper.Examples.{
  render, int_of, fromtimestamp, fromisoformat, datadog_payload, constant_digest, event_at,
  one_event, acknowledging, one_store,
}

abbrev digest : Text → Text → Text
digest secret body = lit "00ff"

abbrev pub lib : Libraries ℕ ℕ
lib = record {
  sha256_hex = constant_digest;
  hmac_sha256 = digest;
  ip_address = λ host. some 1;
  contains = λ network peer. true;
  loads = λ body. ok (obj (datadog_payload (lit "host:db-1")));
  render = render;
  int_of = int_of;
  fromtimestamp = fromtimestamp;
  fromisoformat = fromisoformat;
}

abbrev pub router : Router ℕ
router = record {
  datadog_secret = lit "token";
  source_secrets = λ source. lit "token";
  alertmanager_allowlist = 1 ∷ [];
}

abbrev pub signed : Request
signed = record {
  headers = (lit "x-smokejumper-token", lit "token") ∷ [];
  client_host = some (lit "10.0.0.1");
  body = lit "{}";
}

abbrev unsigned : Request
unsigned = record { headers = []; client_host = none; body = lit "{}" }

abbrev pub outside : Outside
outside = record {
  now = 2000;
  db_up = λ n. true;
  xadd = acknowledging;
  fresh = λ n. 2 + n;
  fresh_resolved = λ n. 20 + n;
  fresh_quarantined = 40;
}

pub one_store-IsOrderly : IsOrderly one_store
one_store-IsOrderly = (
  record {
    each = (
      record {
        no_payload = refl;
        no_fingerprint = refl;
        reason = refl;
        receipt = refl;
        counted = omega arith;
      },
      tt,
    );
    keys = (tt, tt);
  },
  (tt, tt),
)

handler-IsOrderly_example :
    IsOrderly (handler lib router outside grafana (lit "reason") signed one_store).1
handler-IsOrderly_example =
    handler-IsOrderly lib router outside (lit "reason") signed one_store one_store-IsOrderly grafana

handler_refuses_example :
    (HasToken unsigned.headers router.datadog_secret
      ⊎ IsRefused (datadog_webhook lib router outside (lit "reason") unsigned one_store) one_store)
    × ((source : EventSource)
        → HasCredential lib router source unsigned
          ⊎ IsRefused
              (handler lib router outside source (lit "reason") unsigned one_store)
              one_store)
handler_refuses_example = handler_refuses lib router outside (lit "reason") unsigned one_store

abbrev with_third : Database
with_third = record one_event {
  events = one_event.events ++ new_row (event_at 3 900000001000) ∷ [];
}

third_opens :
    admit dedupe_window (event_at 3 900000001000) one_event
    ≡ ok (opened (event_at 3 900000001000), with_third)
unfolding admit is_open text_eq is_recent
third_opens = refl

admit_and_publish_one_answers_example :
    let (answer, final) =
      admit_and_publish_one lib
        (λ n. true)
        acknowledging
        2000
        (event_at 3 900000001000)
        one_store in
    let committed = record one_store { db = with_third } in
    (message_id : Option Text) × IsReported
      (event_at 3 900000001000)
      (opened (event_at 3 900000001000))
      message_id
      answer
    × IsOffered lib true
        (dispatch_event constant_digest acknowledging 3 2000 committed)
        committed
        message_id
        final
    × IsReceipted 3 message_id final.db.events
admit_and_publish_one_answers_example =
    admit_and_publish_one_answers lib (λ n. true) acknowledging 2000 (event_at 3 900000001000)
      one_store refl third_opens

verify_shared_token_iff_example : (verify_shared_token signed.headers (lit "token") ≡ ok true) ↔ (
    (lit "token" ≢ []) × (header signed.headers (lit "X-Smokejumper-Token") ≡ some (lit "token")))
unfolding is_ascii
verify_shared_token_iff_example = verify_shared_token_iff signed.headers (lit "token") refl

abbrev signature_headers : Headers
signature_headers =
    (lit "X-Smokejumper-Signature", lit "sha256=00ff")
    ∷ (lit "X-PagerDuty-Signature", lit "v1=11, v1=00ff")
    ∷ []

verify_hmac_signature_iff_example :
    (verify_hmac_signature digest (lit "{}") signature_headers (lit "s") ≡ ok true) ↔ (
      (lit "s" ≢ [])
      × (header signature_headers (lit "X-Smokejumper-Signature")
          ≡ some (lit "sha256=" ++ digest (lit "s") (lit "{}"))))
unfolding is_ascii
verify_hmac_signature_iff_example =
    verify_hmac_signature_iff digest (λ secret body. refl) (lit "{}") signature_headers (lit "s")

pagerduty_passes :
    verify_pagerduty_signature digest (lit "{}") signature_headers (lit "s") ≡ ok true
unfolding verify_pagerduty_signature text_eq split starts_with strip is_ascii remove_prefix
pagerduty_passes = refl

verify_pagerduty_signature_sound_example :
    (lit "s" ≢ [])
    × ((presented part : Text) × (header signature_headers (lit "X-PagerDuty-Signature")
          ≡ some presented)
        × Memᴰ part (split b',' presented)
        × (strip part ≡ lit "v1=" ++ digest (lit "s") (lit "{}")))
verify_pagerduty_signature_sound_example =
    verify_pagerduty_signature_sound digest (lit "{}") signature_headers (lit "s") pagerduty_passes
