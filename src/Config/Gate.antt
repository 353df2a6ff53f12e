-- ===== src/Config/Gate.antt =====
-- src/smokejumper/config.py: which configurations `_fail_closed` lets boot.
use smokejumper.Prelude.{
  if◌then◌else◌, ◌≡◌, ◌≢◌, refl, ◌⊎◌, inl, inr, ◌↔◌, false, none, List, [], ◌∷◌, ◌++◌, Text,
  text_eq, All, Bool-cases, Option-cases,
}
use smokejumper.Prelude.Sorted.{sorted, place}
use smokejumper.Config.{
  Environment, local, dev, prod, lab, Profiles, AuthChoice, allow_all, host_verifier,
  GovernanceChoice, noop_governance, host_policy, TenancyChoice, single_tenant, ModelChoice,
  recorded_model, direct_provider, PlatformChoice, fixture_platform, host_platform, ChannelChoice,
  fake_channel, slack_channel, TicketingChoice, fixture_ticketing, linear_ticketing, MemoryChoice,
  in_memory_store, postgres_store, PortSelection, substitutes, Port, auth_port, governance_port,
  model_port, platform_port, channel_port, ticketing_port, memory_port, model_fields,
  unimplemented_among, unimplemented, stubbed, planned_in, selection,
}
use smokejumper.Config.Boot.{
  Settings, stub_problems, prod_problems, unimplemented_problems, profile_problems,
  credential_problems, credential_problems_of, credentials_for, CredentialRule, problems,
  fail_closed, is_nil, model_rule, channel_rule, ticketing_rule,
}

append-eq-nil : {A : Type 0} (xs ys : List A) → xs ++ ys ≡ [] → (xs ≡ []) × (ys ≡ [])
append-eq-nil [] ys e = (refl, e)
append-eq-nil (x ∷ xs) ys e = cc e

-- No selected value is planned.
abbrev IsBuilt : PortSelection → Port → Type 0
IsBuilt p port = planned_in p port ≡ none

among-All-IsBuilt :
    (p : PortSelection) (ports : List Port)
    → unimplemented_among p ports ≡ []
    → All (IsBuilt p) ports
unfolding unimplemented_among
among-All-IsBuilt p [] e = tt
among-All-IsBuilt p (port ∷ ports) e = elim (Option-cases (planned_in p port)) [
  | inl unplanned ↦
      (unplanned, among-All-IsBuilt p ports (rw (unplanned, unimplemented_among) at e))
  | inr (entry, planned) ↦ cc (rw (planned, unimplemented_among) at e)
]

auth_built : (a : AuthChoice) → IsBuilt (record substitutes { auth = a }) auth_port → a ≡ allow_all
unfolding planned_in selection text_eq
auth_built allow_all h = refl
auth_built host_verifier h = cc

governance_built :
    (g : GovernanceChoice)
    → IsBuilt (record substitutes { governance = g }) governance_port
    → g ≡ noop_governance
unfolding planned_in selection text_eq
governance_built noop_governance h = refl
governance_built host_policy h = cc

tenancy_built : (t : TenancyChoice) → t ≡ single_tenant
tenancy_built single_tenant = refl

model_built :
    (m : ModelChoice) → IsBuilt (record substitutes { model = m }) model_port → m ≡ recorded_model
unfolding planned_in selection text_eq
model_built recorded_model h = refl
model_built direct_provider h = cc

platform_built :
    (f : PlatformChoice)
    → IsBuilt (record substitutes { platform = f }) platform_port
    → f ≡ fixture_platform
unfolding planned_in selection text_eq
platform_built fixture_platform h = refl
platform_built host_platform h = cc

channel_built :
    (c : ChannelChoice)
    → IsBuilt (record substitutes { channel = c }) channel_port
    → c ≡ fake_channel
unfolding planned_in selection text_eq
channel_built fake_channel h = refl
channel_built slack_channel h = cc

ticketing_built :
    (t : TicketingChoice)
    → IsBuilt (record substitutes { ticketing = t }) ticketing_port
    → t ≡ fixture_ticketing
unfolding planned_in selection text_eq
ticketing_built fixture_ticketing h = refl
ticketing_built linear_ticketing h = cc

memory_built :
    (m : MemoryChoice)
    → IsBuilt (record substitutes { memory = m }) memory_port
    → m ≡ in_memory_store
unfolding planned_in selection text_eq
memory_built in_memory_store h = refl
memory_built postgres_store h = cc

-- Only the substitutes have code behind them.
pub unimplemented-eq-nil : (p : PortSelection) → unimplemented p ≡ [] → p ≡ substitutes
unfolding unimplemented planned_in selection
unimplemented-eq-nil p e =
    let built = among-All-IsBuilt p model_fields e in
    λ i. record {
      auth = auth_built p.auth built.0 i;
      governance = governance_built p.governance built.1.0 i;
      tenancy = tenancy_built p.tenancy i;
      model = model_built p.model built.1.1.1.0 i;
      platform = platform_built p.platform built.1.1.1.1.0 i;
      channel = channel_built p.channel built.1.1.1.1.1.0 i;
      ticketing = ticketing_built p.ticketing built.1.1.1.1.1.1.0 i;
      memory = memory_built p.memory built.1.1.1.1.1.1.1.0 i;
    }

reported-eq-nil :
    {A : Type 0} (items : List A) (m : Text)
    → (if is_nil items then [] else m ∷ []) ≡ []
    → items ≡ []
reported-eq-nil [] m e = refl
reported-eq-nil (x ∷ xs) m e = cc e

unimplemented_problems-eq-nil :
    (p : PortSelection) → unimplemented_problems p ≡ [] → p ≡ substitutes
unfolding unimplemented_problems
unimplemented_problems-eq-nil p e = unimplemented-eq-nil p (reported-eq-nil (unimplemented p) _ e)

substitutes_problems : (p : PortSelection) → p ≡ substitutes → unimplemented_problems p ≡ []
unfolding unimplemented_problems unimplemented unimplemented_among planned_in selection text_eq
substitutes_problems p same = rw same refl

profile_problems-eq-nil :
    (env : Environment) (profiles : Profiles)
    → (profile_problems env profiles ≡ []) ↔ ((env ≡ local) ⊎ (profiles lab ≡ false))
unfolding profile_problems sorted place
profile_problems-eq-nil local profiles = (
  λ _. inl refl,
  λ _. elim (Bool-cases (profiles lab)) [ inl on ↦ rw on refl | inr off ↦ rw off refl ],
)
profile_problems-eq-nil dev profiles = elim (Bool-cases (profiles lab)) [
  | inl on ↦ rw on (λ e. cc e, λ h. elim h [ inl e ↦ cc e | inr e ↦ cc e ])
  | inr off ↦ rw off (λ e. inr refl, λ h. refl)
]
profile_problems-eq-nil prod profiles = elim (Bool-cases (profiles lab)) [
  | inl on ↦ rw on (λ e. cc e, λ h. elim h [ inl e ↦ cc e | inr e ↦ cc e ])
  | inr off ↦ rw off (λ e. inr refl, λ h. refl)
]

unselected_problems :
    (s : Settings) (rule : CredentialRule)
    → text_eq (selection s.ports rule.port) rule.value ≡ false
    → credential_problems_of s rule ≡ []
unfolding credential_problems_of
unselected_problems s rule other = rw other refl

-- No substitute needs a credential.
credential_problems_nil :
    (s : Settings) → s.ports ≡ substitutes → credential_problems s credentials_for ≡ []
unfolding credential_problems text_eq selection
credential_problems_nil s same =
    let other =
      λ (rule : CredentialRule) (h : text_eq (selection substitutes rule.port) rule.value ≡ false).
        unselected_problems s rule (rw same h) in
    rw (other (model_rule) refl, other channel_rule refl, other ticketing_rule refl) refl

prod_ports : (s : Settings) → s.env ≡ prod → s.ports ≡ substitutes → prod_problems s ≢ []
unfolding prod_problems stub_problems stubbed selection text_eq
prod_ports s env same e = cc (rw (env, same, prod_problems) at e)

prod_problems_nil : (s : Settings) → s.env ≢ prod → prod_problems s ≡ []
unfolding prod_problems
prod_problems_nil s apart = go s.env refl
  where
    go : (env : Environment) → s.env ≡ env → prod_problems s ≡ []
    go local e = rw (e, prod_problems) refl
    go dev e = rw (e, prod_problems) refl
    go prod e = absurd (apart e)

abbrev last_problems : Settings → List Text
last_problems s = profile_problems s.env s.compose_profiles ++ credential_problems s credentials_for

passed-eq-nil :
    {A : Type 0} (found : List Text) (m : Text) (s : A)
    → (if is_nil found then inr s else inl m) ≡ inr s
    → found ≡ []
passed-eq-nil [] m s e = refl
passed-eq-nil (x ∷ xs) m s e = cc e

-- A configuration boots exactly where three things hold: its environment is not `prod`, each
-- port has its substitute, and the lab profile is off unless the environment is `local`.
pub fail_closed_iff :
    (s : Settings)
    → (fail_closed s ≡ inr s) ↔ (
        (s.env ≢ prod)
        × (s.ports ≡ substitutes)
        × ((s.env ≡ local) ⊎ (s.compose_profiles lab ≡ false)))
unfolding fail_closed problems
fail_closed_iff s = (
  λ e.
      let (in_prod, rest) =
        append-eq-nil (prod_problems s) (unimplemented_problems s.ports ++ last_problems s)
          (passed-eq-nil (problems s) _ s e) in
      let (ports, rest') = append-eq-nil (unimplemented_problems s.ports) (last_problems s) rest in
      let (profiles, _) =
        append-eq-nil (profile_problems s.env s.compose_profiles)
          (credential_problems s credentials_for) rest' in
      let same = unimplemented_problems-eq-nil s.ports ports in
      (
        λ is_prod. prod_ports s is_prod same in_prod,
        same,
        (profile_problems-eq-nil s.env s.compose_profiles).0 profiles,
      ),
  λ (outside, same, quiet).
      rw
        (
          prod_problems_nil s outside,
          substitutes_problems s.ports same,
          (profile_problems-eq-nil s.env s.compose_profiles).1 quiet,
          credential_problems_nil s same,
        )
        refl,
)
