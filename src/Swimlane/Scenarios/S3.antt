-- ===== src/Swimlane/Scenarios/S3.antt =====
-- architecture/_gen/scenarios.py, diagram S3.
use smokejumper.Prelude.{none, some, List, [], ◌∷◌, ◌++◌, Text, lit}
use smokejumper.Swimlane.{Step, Edge, Diagram, step, edge}
use smokejumper.Swimlane.Scenarios.{lanes, legend, columns}

abbrev s3_steps_a : List Step
s3_steps_a =
    step 0 0 (lit "trigger accumulates")
      (lit "cache flush (Slack 22) · migration lock (Heroku)"
        ∷ lit "N+1 join (incident.io) · pool shrink (CircleCI)"
        ∷ lit "or plain traffic surge"
        ∷ [])
      (lit "signal") (some (lit "varies"))
    ∷ step 0 1 (lit "per-request hold time ↑")
        (lit "pg_locks not granted (locks) or"
          ∷ lit "queries/request ×N (N+1) or"
          ∷ lit "slow IO (→ S1)"
          ∷ [])
        (lit "signal") (some (lit "T0"))
    ∷ step 0 2 (lit "pool → cap → 5xx")
        (lit "pool in-use = max · pool wait appears"
          ∷ lit "pgbouncer cl_waiting ↑ · FATAL too many conns"
          ∷ lit "threads block → health fails → 502/503/504"
          ∷ lit "‘context canceled’ in logs"
          ∷ [])
        (lit "signal") none
    ∷ step 1 3 (lit "customer report / Sentry")
        (lit "incident.io 2023: customer + Sentry flurry"
          ∷ lit "GitLab 2023: Apdex SLO + DB saturation"
          ∷ lit "Slack 2020: DB alert → 503s hours later"
          ∷ [])
        (lit "port") (some (lit "B1"))
    ∷ step 2 4 (lit "hypotheses seeded")
        (lit "H1 lock queue · H2 slow query / bad plan"
          ∷ lit "H3 many small holds · N+1 · needless txn"
          ∷ lit "H4 pool config regression"
          ∷ lit "H5 downstream / IO slow (→ S1/S4)"
          ∷ [])
        (lit "core") (some (lit "board"))
    ∷ step 5 4 (lit "sees root card")
        (lit "impact: 12% of API req (n=88k) · SEV2" ∷ lit "owner: core-api" ∷ []) (lit "human")
        none
    ∷ step 3 5 (lit "witness reads (∥)")
        (lit "pg_locks not granted: 0 (E1)"
          ∷ lit "pg_stat_statements: all fast, ×7 per req (E2)"
          ∷ lit "traces: 7 DB spans/req since #390 (E3)"
          ∷ lit "pool pending p99 18 s (E4) · DB CPU 30% (E5)"
          ∷ [])
        (lit "audit") (some (lit "E1–E5"))
    ∷ step 2 5 (lit "board updates")
        (lit "H1 ✗ (E1) · H2 ✗ (E2 fast) · H5 ✗ (E5 idle DB)"
          ∷ lit "H3 ✓ N+1 introduced by #390 (E2+E3)"
          ∷ lit "H4 open: pool cap unchanged? read config"
          ∷ [])
        (lit "ok") none
    ∷ step 3 6 (lit "disproof attempted")
        (lit "wait high while DB idle? yes (E4+E5) → not DB"
          ∷ lit "did span count rise at #390? yes (E3)"
          ∷ lit "red herring named: ‘scale up’ (Slack 2020)"
          ∷ [])
        (lit "audit") (some (lit "verify"))
    ∷ []

abbrev s3_steps_b : List Step
s3_steps_b =
    step 2 6 (lit "B6 root_caused 0.79")
      (lit "cause: N+1 from #390 holding connections"
        ∷ lit "note: pool wait is the metric to alert on"
        ∷ lit "Source chips [2][3][4]"
        ∷ [])
      (lit "ok") (some (lit "B6"))
    ∷ step 4 7 (lit "ladder")
        (lit "1 throttle / shed inbound (Slack boot throttle)"
          ∷ lit "2 cancel blocker pid (locks) — n/a here"
          ∷ lit "3 disable flag / job class (GitLab)"
          ∷ lit "4 rollback #390 · 5 rolling restart"
          ∷ lit "6 raise pool caps — usually worsens; last"
          ∷ [])
        (lit "gate") (some (lit "proposed"))
    ∷ step 5 7 (lit "approves 1 + 4")
        (lit "shed first, then rollback" ∷ lit "declines ‘raise max_connections’" ∷ [])
        (lit "human") (some (lit "B5"))
    ∷ step 3 7 (lit "mitigation-verifier")
        (lit "pending p99 18 s → 40 ms" ∷ lit "5xx 12% → 0.4% · DB conns 200 → 60" ∷ [])
        (lit "audit") none
    ∷ step 0 8 (lit "recovery confirmed")
        (lit "pool drained · no idle-in-transaction"
          ∷ lit "retries settled (metastable loop broken)"
          ∷ [])
        (lit "signal") none
    ∷ step 4 8 (lit "ticket + prevent")
        (lit "ticket mitigated → resolved"
          ∷ lit "action: instrument pool wait; alert on it"
          ∷ lit "runbook: no pool-cap raise before diagnosis"
          ∷ [])
        (lit "gate") none
    ∷ []

abbrev s3_edges : List Edge
s3_edges =
    edge 0 1 none
    ∷ edge 1 2 none
    ∷ edge 2 3 none
    ∷ edge 3 4 none
    ∷ edge 4 5 none
    ∷ edge 4 6 none
    ∷ edge 6 7 none
    ∷ edge 7 8 none
    ∷ edge 8 9 none
    ∷ edge 9 10 none
    ∷ edge 10 11 none
    ∷ edge 11 12 none
    ∷ edge 12 13 none
    ∷ edge 13 14 none
    ∷ []

abbrev s3_footer : List Text
s3_footer =
    lit
      "Discriminating queries: SQL pg_stat_activity by wait_event · blocked/blocking pg_locks join · pgbouncer SHOW POOLS (cl_waiting, maxwait) ‖ PromQL: hikaricp_connections_pending · go_sql_wait_duration_seconds_total · pgbouncer_pools_client_waiting_connections · idle-in-transaction count · per-trace DB span count."
    ∷ lit
        "Grounding (all READ): incident.io 2023 ‘database-performance’ — 2 weeks, 24 deploys, cause = needless transaction on Slack modal · incident.io 2023 ‘clouds, caches, connections’ — N+1 → anetd CPU · Slack 2020-05-12 HAProxy slots, scale-up ‘didn’t help at all’ · Slack 2022-02-22 Vitess scatter, metastable · Heroku lock-queue gist 25 min · GitLab 2023-10-30 48 min · CircleCI JVM pool shrink · incident.io PGAudit restart."
    ∷ lit
        "Why it matters to Smokejumper: the verifier must separate ‘DB is slow’ from ‘DB is idle but the app holds connections’ — E4+E5 together. Resolve and Cleric both centre ‘pool at 9x%’ as the clincher; the pool WAIT metric is sharper and rarer."
    ∷ []

abbrev pub s3 : Diagram
s3 = record {
  title =
      lit
        "S3 — Connection / thread-pool exhaustion (traffic surge, slow downstream, N+1, lock queue)";
  subtitle =
      lit
        "Tests saturation-finder vs change-correlator disambiguation. The discriminating metric — pool WAIT time — was uninstrumented in almost every postmortem read (incident.io found a 20 s wait only by monkey-patching database/sql).";
  lanes = lanes;
  columns = columns;
  steps = s3_steps_a ++ s3_steps_b;
  edges = s3_edges;
  footer = s3_footer;
  legend = legend;
  lane_w = 170;
  col_w = 262;
  card_w = 248;
  line_h = 14;
  pad = 60;
}
