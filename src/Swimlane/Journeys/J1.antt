-- ===== src/Swimlane/Journeys/J1.antt =====
-- architecture/_gen/journeys.py, diagram J1.
use smokejumper.Prelude.{none, some, List, [], ◌∷◌, ◌++◌, Text, lit}
use smokejumper.Swimlane.{Step, Edge, Diagram, step, edge}

abbrev j1_steps_a : List Step
j1_steps_a =
    step 3 0 (lit "Alertmanager fires")
      (lit "HighErrorRate api p99 5xx" ∷ lit "posts webhook v4 batch" ∷ []) (lit "signal") none
    ∷ step 2 1 (lit "admit · dedupe · enqueue")
        (lit "verify token · normalize B2"
          ∷ lit "fingerprint → run_id"
          ∷ lit "202 to Alertmanager"
          ∷ [])
        (lit "core") (some (lit "B8 event"))
    ∷ step 1 1 (lit "root card created")
        (lit "“Investigating: HighErrorRate api”"
          ∷ lit "scope: high → ≤8 agents · $ cap"
          ∷ lit "checklist: triage ▸ investigate ▸ verify"
          ∷ [])
        (lit "port") none
    ∷ step 2 2 (lit "triage agents ∥")
        (lit "impact: 3.1% of req/min (n=42k)"
          ∷ lit "severity: SEV2 by rubric"
          ∷ lit "owner: team-payments on call"
          ∷ [])
        (lit "core") (some (lit "B11"))
    ∷ step 1 2 (lit "card edited in place")
        (lit "impact + SEV + owner lines appear" ∷ lit "no new posts — checklist ticks" ∷ [])
        (lit "port") none
    ∷ step 2 3 (lit "investigate agents ∥")
        (lit "change-correlator · saturation-finder"
          ∷ lit "error-signature-summarizer"
          ∷ lit "precedent-researcher"
          ∷ [])
        (lit "core") (some (lit "B4 → MCP"))
    ∷ step 3 3 (lit "witness reads")
        (lit "mcp-grafana: query_prometheus"
          ∷ lit "github-mcp: deployments"
          ∷ lit "k8s-mcp: events (read-only)"
          ∷ [])
        (lit "port") (some (lit "EvidenceRecord"))
    ∷ step 4 3 (lit "evidence snapshots")
        (lit "E1 deploy #412 t−4m"
          ∷ lit "E2 pool_wait p99 ↑"
          ∷ lit "E3 signature first seen svc/api"
          ∷ [])
        (lit "audit") none
    ∷ step 2 4 (lit "verify gate")
        (lit "adversarial-verifier: disproof tried"
          ∷ lit "temporal-order: cause < effect ✓"
          ∷ lit "H1 validated · H2 invalidated"
          ∷ [])
        (lit "core") (some (lit "hypothesis"))
    ∷ step 1 4 (lit "thread reply: findings")
        (lit "H1 ✓ deploy #412 4m before onset [E1][E3]"
          ∷ lit "H2 ✗ no saturation [E2]"
          ∷ lit "14 tool calls · 3 sources · View steps"
          ∷ [])
        (lit "port") none
    ∷ []

abbrev j1_steps_b : List Step
j1_steps_b =
    step 2 5 (lit "synthesize B6")
      (lit "verdict: root_caused · confidence 0.86"
        ∷ lit "proposed: rollback #412 (reversible)"
        ∷ lit "tokens 41k · $0.31"
        ∷ [])
      (lit "core") (some (lit "B6"))
    ∷ step 4 5 (lit "ticket opened")
        (lit "Linear PAY-1187 via MCP"
          ∷ lit "B6 summary + Source chips"
          ∷ lit "run closed · byte range"
          ∷ [])
        (lit "store") (some (lit "B8 action"))
    ∷ step 1 5 (lit "conclusion reply")
        (lit "verdict + top hypothesis + citations"
          ∷ lit "buttons: Approve rollback · Deny · Ask"
          ∷ [])
        (lit "port") none
    ∷ step 0 6 (lit "reads, decides")
        (lit "opens Source 1 and Source 3" ∷ lit "clicks Approve rollback" ∷ []) (lit "human") none
    ∷ step 2 6 (lit "approval consumed once")
        (lit "B5 token bound to tool call sha"
          ∷ lit "double-click → one consumption"
          ∷ lit "graph resumes from interrupt"
          ∷ [])
        (lit "gate") (some (lit "B5"))
    ∷ step 2 7 (lit "rollback-executor (ACT)")
        (lit "privileged tier · serialized"
          ∷ lit "argocd rollback (change source)"
          ∷ lit "mitigation-verifier pre/post"
          ∷ [])
        (lit "gate") (some (lit "act"))
    ∷ step 3 7 (lit "post-action reads")
        (lit "5xx rate 3.1% → 0.2% in 90s" ∷ lit "pool_wait back to baseline" ∷ []) (lit "port")
        none
    ∷ step 1 7 (lit "thread reply: mitigated")
        (lit "“rollback applied · verified ✓ [E4]”" ∷ lit "status: mitigated (verified)" ∷ [])
        (lit "port") none
    ∷ step 2 8 (lit "recovery-confirmer")
        (lit "queues drained · retries settled" ∷ lit "AM resolved → window closed" ∷ [])
        (lit "core") none
    ∷ step 4 8 (lit "ticket updated")
        (lit "PAY-1187: mitigated · resolved" ∷ lit "(fingerprint, run_id) idempotent" ∷ [])
        (lit "store") none
    ∷ step 0 8 (lit "reads resolution")
        (lit "“Was this the cause?” → Yes" ∷ lit "human verdict recorded" ∷ []) (lit "human")
        (some (lit "feedback"))
    ∷ []

abbrev j1_steps_c : List Step
j1_steps_c =
    step 2 9 (lit "learn agents (scheduled)")
      (lit "postmortem-drafter · factors"
        ∷ lit "action-item-gate on follow-ups"
        ∷ lit "case → episode (post-v1)"
        ∷ [])
      (lit "core") none
    ∷ step 4 9 (lit "replay proves it")
        (lit "smokejumper replay <run_id>" ∷ lit "same B6 from snapshots offline" ∷ [])
        (lit "audit") none
    ∷ []

abbrev j1_edges : List Edge
j1_edges =
    edge 0 1 (some (lit "B1"))
    ∷ edge 1 2 none
    ∷ edge 1 3 none
    ∷ edge 3 4 none
    ∷ edge 3 5 none
    ∷ edge 5 6 none
    ∷ edge 6 7 none
    ∷ edge 5 8 none
    ∷ edge 8 9 none
    ∷ edge 8 10 none
    ∷ edge 10 11 none
    ∷ edge 10 12 none
    ∷ edge 12 13 none
    ∷ edge 13 14 (some (lit "approve"))
    ∷ edge 14 15 none
    ∷ edge 15 16 none
    ∷ edge 16 17 none
    ∷ edge 15 18 none
    ∷ edge 18 19 none
    ∷ edge 18 20 none
    ∷ edge 18 21 none
    ∷ edge 21 22 none
    ∷ []

abbrev j1_footer : List Text
j1_footer =
    lit
      "What the responder never does: open Grafana, grep logs, find the deploy, or write the ticket. What the responder always does: read three citations and press one button."
    ∷ lit
        "Every card in lanes 3–5 is one or more B8 lines; ‘View steps’ opens the full ledger (see system/c3-components.svg, step ledger). Cards in lane 2 are the ONLY Slack posts — one root card edited in place plus four thread replies."
    ∷ lit
        "Design targets, not measurements: t+3m to a cited conclusion on a high-severity alert; t+6m mitigated when a reversible action exists and a human approves."
    ∷ []

abbrev pub j1 : Diagram
j1 = record {
  title = lit "J1 — On-call responder: from page to closed ticket without leaving Slack";
  subtitle =
      lit
        "One incident, one Slack thread. The responder reads, decides, approves. Smokejumper witnesses, reasons, files, and proves. Times are the design target for a high-severity alert.";
  lanes =
      lit "Responder\n(on-call)"
      ∷ lit "Slack thread\n(root card + replies)"
      ∷ lit "Smokejumper\n(agents · workflows)"
      ∷ lit "Witnesses\n(MCP servers)"
      ∷ lit "Ticket &\nFlight Recorder"
      ∷ [];
  columns =
      lit "t+0 · alert"
      ∷ lit "t+5s · admitted"
      ∷ lit "t+10s · triage"
      ∷ lit "t+1m · investigate"
      ∷ lit "t+2m · verify"
      ∷ lit "t+3m · conclude"
      ∷ lit "t+4m · decide"
      ∷ lit "t+6m · mitigate"
      ∷ lit "t+15m · resolve"
      ∷ lit "later · learn"
      ∷ [];
  steps = j1_steps_a ++ (j1_steps_b ++ j1_steps_c);
  edges = j1_edges;
  footer = j1_footer;
  legend =
      (lit "human", lit "person")
      ∷ (lit "port", lit "chat surface")
      ∷ (lit "core", lit "Smokejumper")
      ∷ (lit "audit", lit "audit / evidence")
      ∷ (lit "gate", lit "approval-gated")
      ∷ (lit "store", lit "ticket / record")
      ∷ (lit "signal", lit "system signal")
      ∷ [];
  lane_w = 170;
  col_w = 214;
  card_w = 202;
  line_h = 14;
  pad = 60;
}
