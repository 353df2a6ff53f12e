-- ===== src/Swimlane/Scenarios/S2.antt =====
-- architecture/_gen/scenarios.py, diagram S2.
use smokejumper.Prelude.{none, some, List, [], ◌∷◌, ◌++◌, Text, lit}
use smokejumper.Swimlane.{Step, Edge, Diagram, step, edge}
use smokejumper.Swimlane.Scenarios.{lanes, legend, columns}

abbrev s2_steps_a : List Step
s2_steps_a =
    step 0 0 (lit "quiet baseline")
      (lit "RPS flat · 5xx 0.1%" ∷ lit "no leading indicator — that is the point" ∷ [])
      (lit "signal") none
    ∷ step 0 1 (lit "deploy / config marker")
        (lit "CI deploy #412 · observed_generation ↑"
          ∷ lit "or config edit with no code deploy"
          ∷ lit "(Cloudflare 2025: permission → doubled file)"
          ∷ [])
        (lit "signal") (some (lit "T0"))
    ∷ step 0 2 (lit "step-change in errors")
        (lit "5xx within 1–15 min of marker"
          ∷ lit "CPU pinned (2019) or panic/crash-loop (2025)"
          ∷ lit "errors segregate by version label"
          ∷ [])
        (lit "signal") none
    ∷ step 1 3 (lit "synthetic check pages")
        (lit "Cloudflare 2019: PagerDuty at T0+3m"
          ∷ lit "GitHub Aug-24: impact detected at +3m"
          ∷ lit "→ webhook → Smokejumper"
          ∷ [])
        (lit "port") (some (lit "B1"))
    ∷ step 2 4 (lit "hypotheses seeded")
        (lit "H1 the change at T0"
          ∷ lit "H2 attack / traffic surge (red herring ×3)"
          ∷ lit "H3 dependency outage (S4)"
          ∷ lit "H4 artifact drift · H5 rollback didn't take"
          ∷ [])
        (lit "core") (some (lit "board"))
    ∷ step 5 4 (lit "sees root card")
        (lit "impact 3.1% (n=42k) · SEV2" ∷ lit "owner: team-payments" ∷ []) (lit "human") none
    ∷ step 3 5 (lit "witness reads (∥)")
        (lit "change.list: deploy #412 at T0−4m (E1)"
          ∷ lit "5xx by version: new 9.8% · old 0.1% (E2)"
          ∷ lit "RPS flat, unique IPs flat (E3)"
          ∷ lit "dependency p99 unchanged (E4)"
          ∷ [])
        (lit "audit") (some (lit "E1–E4"))
    ∷ step 2 5 (lit "board updates")
        (lit "H1 ✓ (E1+E2 segregation)"
          ∷ lit "H2 ✗ flat traffic (E3) — red herring named"
          ∷ lit "H3 ✗ (E4) · H4 open until artifact hash read"
          ∷ [])
        (lit "ok") none
    ∷ step 3 6 (lit "disproof attempted")
        (lit "errors on old version too? no (E2)"
          ∷ lit "onset before marker? no (E1 order)"
          ∷ lit "canary vs baseline confirms"
          ∷ [])
        (lit "audit") (some (lit "verify"))
    ∷ []

abbrev s2_steps_b : List Step
s2_steps_b =
    step 2 6 (lit "B6 root_caused 0.91")
      (lit "cause: deploy #412 · commit abc123"
        ∷ lit "proposed: rollback (reversible)"
        ∷ lit "Source chips [1][2][3]"
        ∷ [])
      (lit "ok") (some (lit "B6"))
    ∷ step 4 7 (lit "ladder")
        (lit "1 kill switch / flag off (CF 2019: 2 min)"
          ∷ lit "2 roll back artifact/config to known-good"
          ∷ lit "3 roll back code · VERIFY fleet version"
          ∷ lit "4 restart to flush state · 5 forward-fix last"
          ∷ [])
        (lit "gate") (some (lit "proposed"))
    ∷ step 5 7 (lit "approves rollback") (lit "one button · B5 token consumed once" ∷ [])
        (lit "human") (some (lit "B5"))
    ∷ step 3 7 (lit "mitigation-verifier")
        (lit "fleet version = old? (incident.io: pipeline re-deployed it)"
          ∷ lit "5xx 3.1% → 0.2% in 90 s"
          ∷ [])
        (lit "audit") none
    ∷ step 0 8 (lit "recovery confirmed") (lit "error rate baseline · queues drained" ∷ [])
        (lit "signal") none
    ∷ step 4 8 (lit "ticket + prevent")
        (lit "ticket: mitigated → resolved"
          ∷ lit "action: pipeline must not re-apply revert"
          ∷ lit "episode saved for precedent-researcher"
          ∷ [])
        (lit "gate") none
    ∷ []

abbrev s2_edges : List Edge
s2_edges =
    edge 0 1 none
    ∷ edge 1 2 none
    ∷ edge 2 3 none
    ∷ edge 3 4 none
    ∷ edge 4 5 none
    ∷ edge 4 6 none
    ∷ edge 6 7 none
    ∷ edge 7 8 none
    ∷ edge 8 9 none
    ∷ edge 9 10 none
    ∷ edge 10 11 none
    ∷ edge 11 12 none
    ∷ edge 12 13 none
    ∷ edge 13 14 none
    ∷ []

abbrev s2_footer : List Text
s2_footer =
    lit
      "Discriminating queries: deploy list / kubectl rollout history / flag audit ‖ PromQL: sum by(version)(rate(5xx)) / sum by(version)(rate(all)) · changes(kube_deployment_status_observed_generation[30m]) · increase(container_restarts[10m]) · sum(rate(http_requests_total[1m])) flat ⇒ not attack ‖ logs: panic|unwrap|FATAL."
    ∷ lit
        "Grounding (all READ): Cloudflare 2019-07-02 WAF regex — 13:42 deploy · 13:45 page · 14:07 kill · 14:09 recovered; attack suspected first · Cloudflare 2025-11-18 Bot Mgmt file — 126 min to identify, DDoS red herring · GitHub 2024-08-14 config revert 36 min · GitHub 2024-03-15 framework upgrade rollback 42 min · incident.io 2024-07-09 pipeline re-deployed the reverted change."
    ∷ lit
        "Why it matters to Smokejumper: change-correlator is the highest-yield question in the public record (config + deploy ≈ 65 of ~200 danluu postmortems); the verifier must check the fleet version AFTER rollback, not the rollback command's exit code."
    ∷ []

abbrev pub s2 : Diagram
s2 = record {
  title = lit "S2 — Bad deploy or config change → error spike → rollback";
  subtitle =
      lit
        "The most common cause in public postmortems and the fastest to fix when a discrete change exists. Timelines: Cloudflare 2019 (detect→mitigate 22 min, mitigate→recover 2 min), GitHub Aug-2024 (36 min), incident.io Jul-2024 (rollback re-deployed by pipeline).";
  lanes = lanes;
  columns = columns;
  steps = s2_steps_a ++ s2_steps_b;
  edges = s2_edges;
  footer = s2_footer;
  legend = legend;
  lane_w = 170;
  col_w = 262;
  card_w = 248;
  line_h = 14;
  pad = 60;
}
