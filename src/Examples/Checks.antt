-- ===== src/Examples/Checks.antt =====
-- The port check, the fixture tracker and the application's pages at small inputs.
use mathlib.Core.List.{Memᴰ}
use smokejumper.Prelude.{
  ℕ, ◌≡◌, ◌≤◌, ◌↔◌, ◌⊎◌, ◌==◌, refl, Bool, true, false, not, Option, none, some, [], ◌∷◌, Text, lit,
  text_eq, one_of, All, ok,
}
use smokejumper.Contracts.Json.{decimal, decimal_from}
use smokejumper.Persistence.{RunRow}
use smokejumper.Receiver.Delivery.{running}
use smokejumper.HostPorts.{
  PublishedPort, main, core_profile, profile_names, selectable_profiles, inventory,
}
use smokejumper.HostPorts.Exit.{main_iff}
use smokejumper.Stubs.{TicketDraft, Tracker, create, close, find_open_by_fingerprint, next_id}
use smokejumper.Stubs.Tickets.{IsOnlyUnder, create-close}
use smokejumper.App.{Vitals, healthz, run_for, answer_of, joined_ticket}
use smokejumper.App.Health.{healthz_iff}
use smokejumper.App.Newest.{run_for-newest}
use smokejumper.Examples.{one_event}

-- Prometheus' port is taken.
abbrev is_free : ℕ → Bool
is_free port = not (port == 9090)

abbrev lsof : ℕ → Option Text
lsof port = some (lit "p411\ncprometheus\n")

main_iff_example : ((main is_free lsof (lit "lab,obs")).code ≡ 0) ↔ (
    All (λ name. one_of name selectable_profiles ≡ true) (profile_names (lit "lab,obs"))
    × All
        (λ (port : PublishedPort).
          one_of port.profile (core_profile ∷ profile_names (lit "lab,obs")) ≡ true
          → is_free port.host_port ≡ true)
        inventory)
main_iff_example = main_iff is_free lsof (lit "lab,obs")

abbrev draft : TicketDraft
draft = record { fingerprint = lit "b"; run_id = 1; title = lit "disk full"; body_md = [] }

abbrev one_ticket : Tracker
one_ticket = (lit "a", record { id = lit "FIXTURE-1"; closed = false; updates = [] }) ∷ []

ids_apart : All (IsOnlyUnder (next_id one_ticket) draft.fingerprint) one_ticket
unfolding next_id decimal decimal_from text_eq
ids_apart = ((λ same. cc same), tt)

a_apart : text_eq (lit "b") (lit "a") ≡ false
unfolding text_eq
a_apart = refl

create-close_example :
    (find_open_by_fingerprint draft.fingerprint (create draft one_ticket).1
      ≡ some (create draft one_ticket).0)
    × ((after : Tracker) × (close (create draft one_ticket).0 (create draft one_ticket).1
          ≡ ok after)
        × (find_open_by_fingerprint draft.fingerprint after ≡ none)
        × (find_open_by_fingerprint (lit "a") after
            ≡ find_open_by_fingerprint (lit "a") one_ticket))
create-close_example = create-close draft (lit "a") one_ticket ids_apart a_apart

abbrev vitals : Vitals
vitals = record {
  postgres = none;
  schema = none;
  redis = some (lit "TimeoutError");
  worker = some running;
  outbox = none;
  recorder_write_failures = 2;
  queue = ok (record { lag = 1; pending = 0 });
  outbox_pending = ok 3;
}

healthz_iff_example : ((healthz vitals).status_code ≡ 200) ↔ (
    (vitals.postgres ≡ none)
    × (vitals.schema ≡ none)
    × (vitals.redis ≡ none)
    × (vitals.worker ≡ some running)
    × (vitals.outbox ≡ some running))
healthz_iff_example = healthz_iff vitals

run_for-newest_example :
    ((run_for (lit "a") one_event ≡ none)
      × All (λ (r : RunRow). text_eq r.fingerprint (lit "a") ≡ false) one_event.runs)
    ⊎ ((r : RunRow) × (run_for (lit "a") one_event ≡ some (answer_of r (joined_ticket r one_event)))
        × Memᴰ r one_event.runs
        × (text_eq r.fingerprint (lit "a") ≡ true)
        × All
            (λ (q : RunRow). text_eq q.fingerprint (lit "a") ≡ true → q.started_at ≤ r.started_at)
            one_event.runs)
run_for-newest_example = run_for-newest (lit "a") one_event
