-- ===== src/Config/Boot.antt =====
-- src/smokejumper/config.py: `Settings` and the rules that a configuration must pass to boot.
use smokejumper.Prelude.{
  ℕ, Bool, true, false, not, ◌||◌, Option, none, some, List, [], ◌∷◌, ◌++◌, map, Text, lit, select,
  text_eq, text_lt, is_empty, strip, upper, join, if◌then◌else◌, ◌⊎◌, inl, inr,
}
use smokejumper.Prelude.Sorted.{sorted}
use smokejumper.Config.{
  Environment, local, prod, env_name, ComposeProfile, lab, profile_name, Profiles, PortSelection,
  Port, stub_selections, port_name, model_port, channel_port, ticketing_port, selection, stubbed,
  unimplemented,
}

-- `if not items`
abbrev pub is_nil : {A : Type 0} → List A → Bool
is_nil [] = true
is_nil (_ ∷ _) = false

pub record ModelSettings : Type 0 where
  pub worker : Option Text
  pub synthesis : Option Text
  pub api_key : Option Text

-- A USD amount: its digits, and how many of them stand behind the point.
pub record Decimal : Type 0 where
  pub digits : ℕ
  pub places : ℕ

pub record SlackSettings : Type 0 where
  pub bot_token : Option Text
  pub app_token : Option Text
  pub channel_id : Option Text

pub record TicketingSettings : Type 0 where
  pub api_key : Option Text
  pub team_id : Option Text
  pub project_id : Option Text

-- The sections that the gate reads.
pub record Settings : Type 0 where
  pub env : Environment
  pub compose_profiles : Profiles
  pub ports : PortSelection
  pub model : ModelSettings
  pub max_usd_per_run : Option Decimal
  pub slack : SlackSettings
  pub ticketing : TicketingSettings

-- The attribute paths of `CREDENTIALS_FOR`.
pub data CredentialPath : Type 0 where
  model_worker model_synthesis model_api_key : CredentialPath
  slack_bot_token slack_app_token slack_channel_id : CredentialPath
  ticketing_api_key ticketing_team_id : CredentialPath

-- `_at`
unfoldable pub value_at : Settings → CredentialPath → Option Text
value_at s model_worker = s.model.worker
value_at s model_synthesis = s.model.synthesis
value_at s model_api_key = s.model.api_key
value_at s slack_bot_token = s.slack.bot_token
value_at s slack_app_token = s.slack.app_token
value_at s slack_channel_id = s.slack.channel_id
value_at s ticketing_api_key = s.ticketing.api_key
value_at s ticketing_team_id = s.ticketing.team_id

-- A row of `CREDENTIALS_FOR`: a port's selection, and what its adapter needs.
pub record CredentialRule : Type 0 where
  pub port : Port
  pub value : Text
  pub credentials : List (CredentialPath × Text)

abbrev pub model_rule : CredentialRule
model_rule = record {
  port = model_port;
  value = lit "DirectProvider";
  credentials =
      (model_worker, lit "SMOKEJUMPER__MODEL__WORKER")
      ∷ (model_synthesis, lit "SMOKEJUMPER__MODEL__SYNTHESIS")
      ∷ (model_api_key, lit "SMOKEJUMPER__MODEL__API_KEY")
      ∷ [];
}

abbrev pub channel_rule : CredentialRule
channel_rule = record {
  port = channel_port;
  value = lit "Slack";
  credentials =
      (slack_bot_token, lit "SLACK_BOT_TOKEN")
      ∷ (slack_app_token, lit "SLACK_APP_TOKEN")
      ∷ (slack_channel_id, lit "SMOKEJUMPER__SLACK__CHANNEL_ID")
      ∷ [];
}

abbrev pub ticketing_rule : CredentialRule
ticketing_rule = record {
  port = ticketing_port;
  value = lit "Linear";
  credentials =
      (ticketing_api_key, lit "LINEAR_API_KEY")
      ∷ (ticketing_team_id, lit "SMOKEJUMPER__TICKETING__TEAM_ID")
      ∷ [];
}

-- `CREDENTIALS_FOR`
abbrev pub credentials_for : List CredentialRule
credentials_for = model_rule ∷ channel_rule ∷ ticketing_rule ∷ []

-- `_present`
unfoldable pub present : Option Text → Bool
unfolding strip
present none = false
present (some value) = not (is_empty (strip value))

abbrev comma : Text
comma = lit ", "

abbrev variable_of : Port → Text
variable_of port = lit "SMOKEJUMPER__PORTS__" ++ upper (port_name port)

abbrev selected : PortSelection → Port → Text
selected ports port = port_name port ++ lit "=" ++ selection ports port

unfoldable pub stub_problems : PortSelection → List Text
stub_problems ports =
    let stubs = stubbed ports in
    if is_nil stubs
    then []
    else (lit "prod refuses to boot with stub ports (SPEC 5.10): "
        ++ join comma (map (selected ports) stubs)
        ++ lit ". Set "
        ++ join comma (map variable_of stubs)
        ++ lit " to a real implementation, or run with SMOKEJUMPER_ENV=local.")
      ∷ []

unfoldable pub budget_problems : Option Decimal → List Text
budget_problems (some _) = []
budget_problems none =
    (lit "prod requires an explicit spend ceiling (SPEC 2d): set "
      ++ lit "SMOKEJUMPER__BUDGET__MAX_USD_PER_RUN to a positive USD amount. "
      ++ lit "Boot fails rather than defaulting to unlimited.")
    ∷ []

abbrev planned_detail : Port × Text × Text → Text
planned_detail (port, value, when) =
    port_name port ++ lit "=" ++ value ++ lit " (arrives with " ++ when ++ lit ")"

unfoldable pub unimplemented_problems : PortSelection → List Text
unimplemented_problems ports =
    let planned = unimplemented ports in
    if is_nil planned
    then []
    else (lit "these port selections have no implementation yet: "
        ++ join comma (map planned_detail planned)
        ++ lit ". Set "
        ++ join comma (map (λ (entry : Port × Text × Text). variable_of entry.0) planned)
        ++ lit " to a substitute, or wait for the milestone that builds it. "
        ++ lit "Boot fails here rather than reporting a usable configuration.")
      ∷ []

-- `LOCAL_ONLY_PROFILES`
abbrev pub local_only_profiles : List ComposeProfile
local_only_profiles = lab ∷ []

abbrev is_local : Environment → Bool
is_local local = true
is_local _ = false

unfoldable pub profile_problems : Environment → Profiles → List Text
profile_problems env profiles =
    let local_only = sorted text_lt (map profile_name (select profiles local_only_profiles)) in
    if is_nil local_only || is_local env
    then []
    else (lit "compose profiles "
        ++ join comma local_only
        ++ lit " are local-only (SPEC 2c) but SMOKEJUMPER_ENV="
        ++ env_name env
        ++ lit ". Remove them from COMPOSE_PROFILES, or run with SMOKEJUMPER_ENV=local.")
      ∷ []

abbrev missing_under : Settings → List (CredentialPath × Text) → List Text
missing_under s credentials =
    map (λ (entry : CredentialPath × Text). entry.1)
      (select (λ (entry : CredentialPath × Text). not (present (value_at s entry.0))) credentials)

abbrev stub_of : Port → List (Port × Text) → Text
stub_of port [] = []
stub_of port ((p, stub) ∷ rest) =
    if text_eq (port_name port) (port_name p) then stub else stub_of port rest

unfoldable pub credential_problems_of : Settings → CredentialRule → List Text
credential_problems_of s rule =
    let missing = sorted text_lt (missing_under s rule.credentials) in
    if not (text_eq (selection s.ports rule.port) rule.value) || is_nil missing
    then []
    else (port_name rule.port
        ++ lit "="
        ++ rule.value
        ++ lit " is enabled but unset: "
        ++ join comma missing
        ++ lit ". Supply them, or select "
        ++ stub_of rule.port stub_selections
        ++ lit " via "
        ++ variable_of rule.port
        ++ lit ".")
      ∷ []

-- The loop over `CREDENTIALS_FOR`.
unfoldable pub credential_problems : Settings → List CredentialRule → List Text
credential_problems s [] = []
credential_problems s (rule ∷ rules) = credential_problems_of s rule ++ credential_problems s rules

unfoldable pub prod_problems : Settings → List Text
prod_problems s = elim s.env [
  | prod ↦ stub_problems s.ports ++ budget_problems s.max_usd_per_run
  | _ ↦ []
]

unfoldable pub problems : Settings → List Text
problems s =
    prod_problems s
    ++ (unimplemented_problems s.ports
        ++ (profile_problems s.env s.compose_profiles ++ credential_problems s credentials_for))

-- `_fail_closed`: the text of its `ValueError`, or the settings.
unfoldable pub fail_closed : Settings → Text ⊎ Settings
fail_closed s =
    let found = problems s in if is_nil found then inr s else inl (join (lit "\n  ") found)
