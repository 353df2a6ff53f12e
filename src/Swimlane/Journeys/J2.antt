-- ===== src/Swimlane/Journeys/J2.antt =====
-- architecture/_gen/journeys.py, diagram J2.
use smokejumper.Prelude.{none, some, List, [], ◌∷◌, ◌++◌, Text, lit}
use smokejumper.Swimlane.{Step, Edge, Diagram, step, edge}

abbrev j2_steps_a : List Step
j2_steps_a =
    step 0 0 (lit "clone · cp .env.example .env") (lit "fill nothing yet" ∷ lit "uv sync" ∷ [])
      (lit "human") none
    ∷ step 1 0 (lit "docker compose up -d --build")
        (lit "postgres+pgvector · redis · app" ∷ lit "alembic upgrade head at boot" ∷ [])
        (lit "core") none
    ∷ step 1 1 (lit "curl /healthz → 200")
        (lit "postgres ok · schema head · redis ok" ∷ lit "worker ok · outbox ok" ∷ []) (lit "core")
        (some (lit "proof"))
    ∷ step 0 1 (lit "smokejumper check-config")
        (lit "local env · stubs allowed" ∷ lit "prod refuses stubs — by design" ∷ []) (lit "human")
        none
    ∷ step 2 2 (lit "Slack app from manifest.json")
        (lit "scopes: app_mentions:read chat:write"
          ∷ lit "channels:history reactions:write"
          ∷ lit "Socket Mode + Interactivity ON"
          ∷ [])
        (lit "port") (some (lit "8 steps"))
    ∷ step 2 3 (lit "two tokens → .env")
        (lit "xapp-… app token (connections:write)"
          ∷ lit "xoxb-… bot token after install"
          ∷ lit "no public URL · no ngrok"
          ∷ [])
        (lit "port") (some (lit "2 creds"))
    ∷ step 0 3 (lit "invite bot to #incidents")
        (lit "/invite @smokejumper" ∷ lit "SLACK_CHANNEL_ID → .env" ∷ []) (lit "human") none
    ∷ step 3 4 (lit "point the alert source at us")
        (lit "Alertmanager receiver → /webhooks/alertmanager"
          ∷ lit "  peer CIDR allowlist (no credential)"
          ∷ lit "Datadog: webhook + X-Smokejumper-Token"
          ∷ [])
        (lit "signal") (some (lit "1 secret"))
    ∷ step 4 4 (lit "witness credentials")
        (lit "GRAFANA_SERVICE_ACCOUNT_TOKEN"
          ∷ lit "(optional) Datadog api/app keys"
          ∷ lit "k8s-mcp --read-only via kubeconfig"
          ∷ [])
        (lit "port") (some (lit "1–2 creds"))
    ∷ step 1 5 (lit "compose up --profile witness")
        (lit "mcp-grafana sidecar · k8s-mcp sidecar"
          ∷ lit "manifest.yaml: every tool tiered"
          ∷ lit "boot fails on untiered tool"
          ∷ [])
        (lit "core") none
    ∷ step 1 6 (lit "fixtures replay --source alertmanager")
        (lit "202 · one run · one fixture ticket" ∷ lit "GET /runs/{fp} → B6 + audit range" ∷ [])
        (lit "core") (some (lit "proof"))
    ∷ []

abbrev j2_steps_b : List Step
j2_steps_b =
    step 2 6 (lit "first thread appears")
      (lit "root card + triage lines" ∷ lit "reply with citations" ∷ []) (lit "port") none
    ∷ step 0 6 (lit "operator reads the thread")
        (lit "@smokejumper what did you rule out?" ∷ lit "→ hypothesis board reply" ∷ [])
        (lit "human") none
    ∷ []

abbrev j2_edges : List Edge
j2_edges =
    edge 0 1 none
    ∷ edge 1 2 none
    ∷ edge 2 3 none
    ∷ edge 3 4 none
    ∷ edge 4 5 none
    ∷ edge 5 6 none
    ∷ edge 6 7 none
    ∷ edge 7 8 none
    ∷ edge 8 9 none
    ∷ edge 9 10 none
    ∷ edge 10 11 none
    ∷ edge 11 12 none
    ∷ []

abbrev j2_footer : List Text
j2_footer =
    lit
      "Credential count for the minimum path (Slack + Alertmanager + Grafana): 4 — xapp, xoxb, Grafana service-account token, and the Alertmanager peer CIDR (not a secret). Datadog adds one webhook token; Linear MCP adds one API key or OAuth."
    ∷ lit
        "Three proofs on the way, each a command with a checkable output: /healthz 200 · check-config exit 0 · fixtures replay → GET /runs/{fp}. Nothing here is ‘it should work’."
    ∷ lit
        "Facts behind the counts: Slack Socket Mode quickstart (docs.slack.dev), mcp-grafana README, kubernetes-mcp-server README — see docs/plans/2026-08-29-reference-architecture-analysis.md §5."
    ∷ []

abbrev pub j2 : Diagram
j2 = record {
  title = lit "J2 — Operator setup: from clone to first investigated alert in about 30 minutes";
  subtitle =
      lit
        "The whole point of adopting official SDKs and existing MCP servers: five credentials, no public URL, no tunnel. Counted against the vendor docs read on 2026-08-29.";
  lanes =
      lit "Operator"
      ∷ lit "Terminal /\ncompose"
      ∷ lit "Slack app\n(manifest)"
      ∷ lit "Alert source\n(Alertmanager / Datadog)"
      ∷ lit "MCP servers\n(witnesses)"
      ∷ [];
  columns =
      lit "0–3 min"
      ∷ lit "3–6 min"
      ∷ lit "6–12 min"
      ∷ lit "12–18 min"
      ∷ lit "18–24 min"
      ∷ lit "24–30 min"
      ∷ lit "verify"
      ∷ [];
  steps = j2_steps_a ++ j2_steps_b;
  edges = j2_edges;
  footer = j2_footer;
  legend =
      (lit "human", lit "person")
      ∷ (lit "port", lit "chat surface")
      ∷ (lit "core", lit "Smokejumper")
      ∷ (lit "audit", lit "audit / evidence")
      ∷ (lit "gate", lit "approval-gated")
      ∷ (lit "store", lit "ticket / record")
      ∷ (lit "signal", lit "system signal")
      ∷ [];
  lane_w = 170;
  col_w = 236;
  card_w = 222;
  line_h = 14;
  pad = 60;
}
