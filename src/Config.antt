-- ===== src/Config.antt =====
-- src/smokejumper/config.py: the settings object, and the gate that a configuration passes at boot.
pub mod Boot
pub mod Gate
pub mod Layers
pub mod Overrides
pub mod Blank
use smokejumper.Prelude.{
  Bool, if◌then◌else◌, Option, none, some, List, [], ◌∷◌, Text, lit, map, select, lookup, text_eq,
}

pub data Environment : Type 0 where
  local dev prod : Environment

unfoldable pub env_name : Environment → Text
env_name local = lit "local"
env_name dev = lit "dev"
env_name prod = lit "prod"

pub data ComposeProfile : Type 0 where
  lab obs : ComposeProfile

unfoldable pub profile_name : ComposeProfile → Text
profile_name lab = lit "lab"
profile_name obs = lit "obs"

-- A `frozenset` of profiles, by its membership test.
abbrev pub Profiles : Type 0
Profiles = ComposeProfile → Bool

pub data AuthChoice : Type 0 where
  allow_all host_verifier : AuthChoice

pub data GovernanceChoice : Type 0 where
  noop_governance host_policy : GovernanceChoice

pub data TenancyChoice : Type 0 where
  single_tenant : TenancyChoice

pub data ModelChoice : Type 0 where
  recorded_model direct_provider : ModelChoice

pub data PlatformChoice : Type 0 where
  fixture_platform host_platform : PlatformChoice

pub data ChannelChoice : Type 0 where
  fake_channel slack_channel : ChannelChoice

pub data TicketingChoice : Type 0 where
  fixture_ticketing linear_ticketing : TicketingChoice

pub data MemoryChoice : Type 0 where
  in_memory_store postgres_store : MemoryChoice

pub record PortSelection : Type 0 where
  pub auth : AuthChoice
  pub governance : GovernanceChoice
  pub tenancy : TenancyChoice
  pub model : ModelChoice
  pub platform : PlatformChoice
  pub channel : ChannelChoice
  pub ticketing : TicketingChoice
  pub memory : MemoryChoice

-- The defaults of `PortSelection`.
abbrev pub substitutes : PortSelection
substitutes = record {
  auth = allow_all;
  governance = noop_governance;
  tenancy = single_tenant;
  model = recorded_model;
  platform = fixture_platform;
  channel = fake_channel;
  ticketing = fixture_ticketing;
  memory = in_memory_store;
}

pub data Port : Type 0 where
  auth_port governance_port tenancy_port model_port : Port
  platform_port channel_port ticketing_port memory_port : Port

unfoldable pub port_name : Port → Text
port_name auth_port = lit "auth"
port_name governance_port = lit "governance"
port_name tenancy_port = lit "tenancy"
port_name model_port = lit "model"
port_name platform_port = lit "platform"
port_name channel_port = lit "channel"
port_name ticketing_port = lit "ticketing"
port_name memory_port = lit "memory"

-- `PortSelection.model_fields`
abbrev pub model_fields : List Port
model_fields =
    auth_port ∷ governance_port ∷ tenancy_port ∷ model_port ∷ platform_port ∷ channel_port
    ∷ ticketing_port ∷ memory_port ∷ []

abbrev auth_value : AuthChoice → Text
auth_value allow_all = lit "AllowAll"
auth_value host_verifier = lit "HostVerifier"

abbrev governance_value : GovernanceChoice → Text
governance_value noop_governance = lit "NoopGovernance"
governance_value host_policy = lit "HostPolicy"

abbrev tenancy_value : TenancyChoice → Text
tenancy_value single_tenant = lit "SingleTenant"

abbrev model_value : ModelChoice → Text
model_value recorded_model = lit "RecordedModel"
model_value direct_provider = lit "DirectProvider"

abbrev platform_value : PlatformChoice → Text
platform_value fixture_platform = lit "FixturePlatform"
platform_value host_platform = lit "HostPlatform"

abbrev channel_value : ChannelChoice → Text
channel_value fake_channel = lit "FakeChannel"
channel_value slack_channel = lit "Slack"

abbrev ticketing_value : TicketingChoice → Text
ticketing_value fixture_ticketing = lit "FixtureTicketing"
ticketing_value linear_ticketing = lit "Linear"

abbrev memory_value : MemoryChoice → Text
memory_value in_memory_store = lit "InMemoryStore"
memory_value postgres_store = lit "Postgres"

-- `getattr(ports, port)`
unfoldable pub selection : PortSelection → Port → Text
selection p auth_port = auth_value p.auth
selection p governance_port = governance_value p.governance
selection p tenancy_port = tenancy_value p.tenancy
selection p model_port = model_value p.model
selection p platform_port = platform_value p.platform
selection p channel_port = channel_value p.channel
selection p ticketing_port = ticketing_value p.ticketing
selection p memory_port = memory_value p.memory

abbrev pub stub_selections : List (Port × Text)
stub_selections =
    (auth_port, lit "AllowAll")
    ∷ (governance_port, lit "NoopGovernance")
    ∷ (model_port, lit "RecordedModel")
    ∷ (platform_port, lit "FixturePlatform")
    ∷ (channel_port, lit "FakeChannel")
    ∷ (ticketing_port, lit "FixtureTicketing")
    ∷ (memory_port, lit "InMemoryStore")
    ∷ []

abbrev host_supplied : Text
host_supplied = lit "a host-supplied adapter (SPEC 11.5.2)"

abbrev pub planned_selections : List (Text × Text)
planned_selections =
    (lit "HostVerifier", host_supplied)
    ∷ (lit "HostPolicy", host_supplied)
    ∷ (lit "HostPlatform", host_supplied)
    ∷ (lit "DirectProvider", lit "M2")
    ∷ (lit "Slack", lit "M2")
    ∷ (lit "Linear", lit "M2")
    ∷ (lit "Postgres", lit "M3")
    ∷ []

unfoldable pub planned_in : PortSelection → Port → Option (Port × Text × Text)
unfolding selection
planned_in p port = elim (lookup (selection p port) planned_selections) [
  | none ↦ none
  | some when ↦ some (port, selection p port, when)
]

-- A comprehension over ports with a walrus in its test.
unfoldable pub unimplemented_among : PortSelection → List Port → List (Port × Text × Text)
unfolding planned_in
unimplemented_among p [] = []
unimplemented_among p (port ∷ ports) =
    let rest = unimplemented_among p ports in
    elim (planned_in p port) [ none ↦ rest | some entry ↦ entry ∷ rest ]

unfoldable pub unimplemented : PortSelection → List (Port × Text × Text)
unfolding unimplemented_among
unimplemented p = unimplemented_among p model_fields

unfoldable pub stubbed : PortSelection → List Port
unfolding selection
stubbed p =
    map (λ (entry : Port × Text). entry.0)
      (select (λ (entry : Port × Text). text_eq (selection p entry.0) entry.1) stub_selections)
