-- ===== src/Examples/Boots.antt =====
-- Configurations at which the theorems on src/smokejumper/config.py are applied.
use smokejumper.Prelude.{
  ◌≡◌, ◌≢◌, refl, inr, ◌⊎◌, ◌↔◌, true, false, none, some, [], ◌∷◌, lit, text_eq, lower, ends_with,
  starts_with, after_prefix, lower_char, All,
}
use smokejumper.Contracts.Json.{str, obj, Fields, end, field, get}
use smokejumper.Config.{Environment, local, prod, substitutes}
use smokejumper.Config.Boot.{Settings, fail_closed}
use smokejumper.Config.Gate.{fail_closed_iff}
use smokejumper.Config.Layers.{
  Environ, BareSecret, bare_secret_vars, is_compose_only, reconcile_shared_env,
}
use smokejumper.Config.Overrides.{IsGiven, reconcile_shared_env-IsGiven}

abbrev settings_in : Environment → Settings
settings_in env = record {
  env = env;
  compose_profiles = λ profile. true;
  ports = substitutes;
  model = record { worker = none; synthesis = none; api_key = none };
  max_usd_per_run = some (record { digits = 5; places = 0 });
  slack = record { bot_token = none; app_token = none; channel_id = none };
  ticketing = record { api_key = none; team_id = none; project_id = none };
}

fail_closed_iff_example :
    (fail_closed (settings_in prod) ≡ inr (settings_in prod))
    ↔ ((prod ≢ prod) × (substitutes ≡ substitutes) × ((prod ≡ local) ⊎ (true ≡ false)))
fail_closed_iff_example = fail_closed_iff (settings_in prod)

abbrev token_fields : Fields
token_fields =
    field (lit "slack_bot_token") (str (lit "dotenv"))
      (field (lit "slack") (obj (field (lit "bot_token") (str (lit "flag")) end)) end)

abbrev token_environ : Environ
token_environ = (lit "SLACK_BOT_TOKEN", lit "environment") ∷ []

slack_kept : is_compose_only (lit "slack") ≡ false
unfolding is_compose_only lower lower_char ends_with starts_with after_prefix
slack_kept = refl

slack_apart :
    All
      (λ (secret : BareSecret). text_eq (lit "slack") (lower secret.variable) ≡ false)
      bare_secret_vars
unfolding text_eq lower lower_char
slack_apart = (refl, (refl, (refl, tt)))

token_set : IsGiven (lit "slack") (lit "bot_token") (str (lit "flag")) token_fields
unfolding IsGiven get text_eq
token_set = (field (lit "bot_token") (str (lit "flag")) end, refl, refl)

reconcile_shared_env-IsGiven_example :
    IsGiven
      (lit "slack")
      (lit "bot_token")
      (str (lit "flag"))
      (reconcile_shared_env token_environ token_fields)
reconcile_shared_env-IsGiven_example =
    reconcile_shared_env-IsGiven token_environ (lit "slack") (lit "bot_token") (str (lit "flag"))
      token_fields slack_kept slack_apart token_set
