-- ===== src/Swimlane/Scenarios/S4.antt =====
-- architecture/_gen/scenarios.py, diagram S4.
use smokejumper.Prelude.{none, some, List, [], ◌∷◌, ◌++◌, Text, lit}
use smokejumper.Swimlane.{Step, Edge, Diagram, step, edge}
use smokejumper.Swimlane.Scenarios.{lanes, legend, columns}

abbrev s4_steps_a : List Step
s4_steps_a =
    step 0 0 (lit "expiry approaching")
      (lit "cert notAfter in 30 d (blackbox probe)"
        ∷ lit "or nothing — vendor change is invisible"
        ∷ [])
      (lit "signal") (some (lit "leading?"))
    ∷ step 0 1 (lit "vendor change at T0")
        (lit "cert expires · DNS removed · prefix withdrawn"
          ∷ lit "ZERO internal deploy markers"
          ∷ lit "(AWS: DNS Enactor race removed all IPs)"
          ∷ [])
        (lit "signal") (some (lit "T0"))
    ∷ step 0 2 (lit "new connections fail")
        (lit "keep-alives survive → errors RAMP, not step"
          ∷ lit "x509 expired · ENOTFOUND · connect timeout"
          ∷ lit "all callers of that host fail at once"
          ∷ lit "retries amplify (Epic launcher surge)"
          ∷ [])
        (lit "signal") none
    ∷ step 1 3 (lit "outbound error alert")
        (lit "DependencyErrorRate payments-processor"
          ∷ lit "vendor status page lags 20–40 min"
          ∷ lit "→ webhook → Smokejumper"
          ∷ [])
        (lit "port") (some (lit "B1"))
    ∷ step 2 4 (lit "hypotheses seeded")
        (lit "H1 vendor endpoint down / unresolvable"
          ∷ lit "H2 cert expired (theirs or ours)"
          ∷ lit "H3 our egress / resolver / SG"
          ∷ lit "H4 our own deploy (S2) · H5 vendor rate limit"
          ∷ [])
        (lit "core") (some (lit "board"))
    ∷ step 5 4 (lit "sees root card")
        (lit "impact: 100% of card auths (n=9.4k/min)" ∷ lit "SEV1 · owner: payments" ∷ [])
        (lit "human") none
    ∷ step 3 5 (lit "witness reads (∥)")
        (lit "change.list: zero deploys/flags (E1)"
          ∷ lit "dig from 2 resolvers: NXDOMAIN (E2)"
          ∷ lit "openssl s_client: n/a — no resolution (E3)"
          ∷ lit "vendor status page ‘investigating’ (E4)"
          ∷ lit "errors from all AZs, not one (E5)"
          ∷ [])
        (lit "audit") (some (lit "E1–E5"))
    ∷ step 2 5 (lit "board updates")
        (lit "H1 ✓ (E2+E5) · H2 blocked (E3) · H3 ✗ (E5)"
          ∷ lit "H4 ✗ (E1) · H5 ✗ (connect errors, not 429)"
          ∷ lit "red herring named: BGP hijack / DDoS"
          ∷ [])
        (lit "ok") none
    ∷ step 3 6 (lit "disproof attempted")
        (lit "resolves from external vantage? no"
          ∷ lit "did anything of ours change? no (E1)"
          ∷ lit "→ verdict: theirs"
          ∷ [])
        (lit "audit") (some (lit "verify"))
    ∷ []

abbrev s4_steps_b : List Step
s4_steps_b =
    step 2 6 (lit "B6 not_actionable · 0.88")
      (lit "cause: vendor DNS for api.processor.example"
        ∷ lit "nothing to fix here; mitigate impact only"
        ∷ lit "Source chips [1][2][4][5]"
        ∷ [])
      (lit "ok") (some (lit "B6"))
    ∷ step 4 7 (lit "ladder")
        (lit "1 fail open: flag off dependent feature"
          ∷ lit "2 route around: 2nd processor · pinned IP"
          ∷ lit "3 renew cert if OURS (Epic 37 min) — n/a"
          ∷ lit "4 widen timeouts · retry budgets"
          ∷ lit "5 wait on vendor; freeze autoscaling"
          ∷ [])
        (lit "gate") (some (lit "proposed"))
    ∷ step 5 7 (lit "approves 1 + 4")
        (lit "flag off · retry budget" ∷ lit "posts status-page draft (C3) after review" ∷ [])
        (lit "human") (some (lit "B5"))
    ∷ step 3 7 (lit "mitigation-verifier")
        (lit "auth failures 100% → 0% via fallback path"
          ∷ lit "vendor still down — impact mitigated only"
          ∷ [])
        (lit "audit") none
    ∷ step 0 8 (lit "vendor recovers")
        (lit "dig resolves · handshake ok" ∷ lit "pools recycle · error rate → 0" ∷ [])
        (lit "signal") none
    ∷ step 4 8 (lit "ticket + prevent")
        (lit "ticket: not_actionable · mitigated"
          ∷ lit "stakeholder-notifier: contract SLA clock"
          ∷ lit "expiry-forecaster: alert on cert < 30 d"
          ∷ [])
        (lit "gate") none
    ∷ []

abbrev s4_edges : List Edge
s4_edges =
    edge 0 1 none
    ∷ edge 1 2 none
    ∷ edge 2 3 none
    ∷ edge 3 4 none
    ∷ edge 4 5 none
    ∷ edge 4 6 none
    ∷ edge 6 7 none
    ∷ edge 7 8 none
    ∷ edge 8 9 none
    ∷ edge 9 10 none
    ∷ edge 10 11 none
    ∷ edge 11 12 none
    ∷ edge 12 13 none
    ∷ edge 13 14 none
    ∷ []

abbrev s4_footer : List Text
s4_footer =
    lit
      "Discriminating queries: dig +short host @1.1.1.1 / @8.8.8.8 · openssl s_client … | x509 -noout -dates · curl -sv from ≥2 regions ‖ PromQL: probe_ssl_earliest_cert_expiry − time() · probe_success · sum by(host)(rate(http_client_requests{status=~\"5..|0\"})) · dns_lookup_failures ‖ logs: x509|certificate has expired|ENOTFOUND|EAI_AGAIN ‖ change events: confirm ZERO."
    ∷ lit
        "Grounding: AWS us-east-1 2025-10-19 DynamoDB DNS — 23:48 onset · 00:38 root cause · 02:25 DNS restored (READ) · Cloudflare 1.1.1.1 2025-07-14 — 21:48 withdraw · 22:01 alert · 22:20 revert · 22:54 restored; BGP hijack unrelated (READ) · Google Voice 2021 cert 4 h 22 min, new SIP only (READ via report) · Epic 2021 wildcard cert 37 min (INFERRED) · incident.io 2025-10-20 hit via transitive vendors (READ via summary)."
    ∷ lit
        "Why it matters to Smokejumper: this is the only scenario whose correct verdict is NOT root_caused — `not_actionable` must exist in B6 (it does not today; see reference-architecture-analysis §4). The unit of failure is the transitive dependency, not the named vendor."
    ∷ []

abbrev pub s4 : Diagram
s4 = record {
  title = lit "S4 — Upstream dependency, certificate or DNS expiry (vendor fault)";
  subtitle =
      lit
        "Tests ‘ours or theirs’ and the not_actionable verdict. AWS us-east-1 Oct-2025 (50 min to root cause), Cloudflare 1.1.1.1 Jul-2025 (9-min detection gap, BGP hijack red herring), Google Voice 2021 cert (only NEW connections failed).";
  lanes = lanes;
  columns = columns;
  steps = s4_steps_a ++ s4_steps_b;
  edges = s4_edges;
  footer = s4_footer;
  legend = legend;
  lane_w = 170;
  col_w = 262;
  card_w = 248;
  line_h = 14;
  pad = 60;
}
