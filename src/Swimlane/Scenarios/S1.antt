-- ===== src/Swimlane/Scenarios/S1.antt =====
-- architecture/_gen/scenarios.py, diagram S1.
use smokejumper.Prelude.{none, some, List, [], ◌∷◌, ◌++◌, Text, lit}
use smokejumper.Swimlane.{Step, Edge, Diagram, step, edge}
use smokejumper.Swimlane.Scenarios.{lanes, legend, columns}

abbrev s1_steps_a : List Step
s1_steps_a =
    step 0 0 (lit "BurstBalance declining")
      (lit "EBSIOBalance% / EBSByteBalance% ↓ 10–12 h"
        ∷ lit "nobody alerts on a leading indicator"
        ∷ lit "(Chen 2025: dropped for 10–12 h before)"
        ∷ [])
      (lit "signal") (some (lit "leading"))
    ∷ step 0 1 (lit "IOPS hits ceiling")
        (lit "ReadIOPS+WriteIOPS flat at 3×GiB (min 100)"
          ∷ lit "BurstBalance → 0"
          ∷ lit "DiskQueueDepth rises"
          ∷ [])
        (lit "signal") (some (lit "T0"))
    ∷ step 0 2 (lit "latency → pool → 5xx")
        (lit "ReadLatency ms → 100s ms"
          ∷ lit "pg wait_event IO:DataFileRead"
          ∷ lit "DatabaseConnections → cap · pool wait ↑"
          ∷ lit "504 (LB) · 503 (health) · 500 (driver)"
          ∷ [])
        (lit "signal") none
    ∷ step 1 3 (lit "HighErrorRate api")
        (lit "synthetic / SLO alert, not the cause metric"
          ∷ lit "Honeycomb: SLO burn dismissed overnight"
          ∷ lit "→ webhook v4 → Smokejumper"
          ∷ [])
        (lit "port") (some (lit "B1"))
    ∷ step 2 4 (lit "hypotheses seeded")
        (lit "H1 storage credit exhaustion"
          ∷ lit "H2 single bad query / plan flip"
          ∷ lit "H3 lock queue · H4 connection storm"
          ∷ lit "H5 T-class CPU credits"
          ∷ [])
        (lit "core") (some (lit "board"))
    ∷ step 5 4 (lit "sees root card")
        (lit "impact 4.2% of req (n=61k) · SEV2"
          ∷ lit "owner: platform-db"
          ∷ lit "checklist ticking"
          ∷ [])
        (lit "human") none
    ∷ step 3 5 (lit "witness reads (∥)")
        (lit "CW: BurstBalance=0 · IOPS flat · latency ×40"
          ∷ lit "pg_stat_statements: uniform, no single query"
          ∷ lit "pg_locks not granted = 0"
          ∷ lit "change.list: no deploy in window"
          ∷ [])
        (lit "audit") (some (lit "E1–E4"))
    ∷ step 2 5 (lit "board updates")
        (lit "H1 ✓ validated (E1 all three conditions)"
          ∷ lit "H2 ✗ (E2 uniform) · H3 ✗ (E3)"
          ∷ lit "H4 ✗ ordering: IO first · H5 n/a class"
          ∷ [])
        (lit "ok") none
    ∷ []

abbrev s1_steps_b : List Step
s1_steps_b =
    step 3 6 (lit "disproof attempted")
      (lit "is IO latency up with balance > 20%? no"
        ∷ lit "connections before IO? no (E4 order)"
        ∷ lit "order: balance→IOPS→latency→conns→5xx ✓"
        ∷ [])
      (lit "audit") (some (lit "verify"))
    ∷ step 2 6 (lit "B6 root_caused 0.84")
        (lit "cause: gp2 credits exhausted on db-main"
          ∷ lit "red herring named: CPU looked hot (Chen)"
          ∷ lit "Source chips [1][2][3][4]"
          ∷ [])
        (lit "ok") (some (lit "B6"))
    ∷ step 4 7 (lit "ladder (reversible first)")
        (lit "1 shed load / circuit-break (Honeycomb)"
          ∷ lit "2 cancel worst statements · ANALYZE"
          ∷ lit "3 failover to replica"
          ∷ lit "4 gp2 → gp3 3,000 IOPS (one-way, online)"
          ∷ lit "5 scale class (restart)"
          ∷ [])
        (lit "gate") (some (lit "proposed"))
    ∷ step 5 7 (lit "approves 1 then 4")
        (lit "reads E1 chart · approves shed" ∷ lit "approves storage change (B5)" ∷ [])
        (lit "human") (some (lit "B5"))
    ∷ step 3 7 (lit "mitigation-verifier")
        (lit "DiskQueueDepth ↓ · latency ↓ in 4 min" ∷ lit "5xx 4.2% → 0.3%" ∷ []) (lit "audit")
        none
    ∷ step 0 8 (lit "recovery confirmed")
        (lit "pool drained · retries settled" ∷ lit "AM resolved → window closed" ∷ [])
        (lit "signal") none
    ∷ step 4 8 (lit "ticket + prevent")
        (lit "Linear DB-… mitigated · resolved"
          ∷ lit "expiry-forecaster: BurstBalance < 30% alert"
          ∷ lit "postmortem: indicator visible for 10 h"
          ∷ [])
        (lit "gate") none
    ∷ []

abbrev s1_edges : List Edge
s1_edges =
    edge 0 1 none
    ∷ edge 1 2 none
    ∷ edge 2 3 none
    ∷ edge 3 4 none
    ∷ edge 4 5 none
    ∷ edge 4 6 none
    ∷ edge 6 7 none
    ∷ edge 7 8 none
    ∷ edge 8 9 none
    ∷ edge 9 10 none
    ∷ edge 10 11 none
    ∷ edge 11 12 none
    ∷ edge 12 13 none
    ∷ edge 13 14 none
    ∷ []

abbrev s1_footer : List Text
s1_footer =
    lit
      "Discriminating queries: CloudWatch BurstBalance · EBSIOBalance% · ReadIOPS/WriteIOPS · ReadLatency · DiskQueueDepth · DatabaseConnections · CPUCreditBalance ‖ SQL: pg_stat_activity wait_event grouping · pg_stat_statements by total_exec_time · pg_locks NOT granted ‖ PromQL: 5xx ratio · p99 · hikaricp_connections_pending."
    ∷ lit
        "Grounding: AWS RDS metric reference (READ) · Honeycomb ‘RDS clogs & cache-refresh crash loops’ 2023, 68 min (READ) · GitLab INC 2026-08-27 plan flip → 500s, fixed by ANALYZE (READ) · Grafana Labs unbounded join, 28 min human vs 8 min assistant (READ) · Chen RDS gp2 burst post 2025 (INFERRED, page blocked)."
    ∷ lit
        "Open: no first-party postmortem names BurstBalance with a minute timeline — next probe is GitLab gl-infra ‘disk util|iops’ and SRE Weekly ‘burst balance’. Why it matters to Smokejumper: none of the four surveyed products publishes an IOPS example; the leading indicator is the open lane."
    ∷ []

abbrev pub s1 : Diagram
s1 = record {
  title = lit "S1 — API 5xx from database I/O saturation (gp2 burst-balance / IOPS ceiling)";
  subtitle =
      lit
        "The slow-burn cause hidden behind an application symptom. Mechanism from AWS RDS metric definitions (READ); timeline shape from Honeycomb 2023, GitLab 2026, Grafana Labs — no first-party postmortem names BurstBalance with minutes; say so.";
  lanes = lanes;
  columns = columns;
  steps = s1_steps_a ++ s1_steps_b;
  edges = s1_edges;
  footer = s1_footer;
  legend = legend;
  lane_w = 170;
  col_w = 262;
  card_w = 248;
  line_h = 14;
  pad = 60;
}
