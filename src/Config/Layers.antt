-- ===== src/Config/Layers.antt =====
-- src/smokejumper/config.py: the layers under `Settings`, before and after pydantic has validated.
--
-- `data` is the dictionary that pydantic hands to a `before` validator, keys and values as JSON.
use smokejumper.Prelude.{
  Bool, not, Option, none, some, List, [], ◌∷◌, ◌++◌, map, Text, lit, select, text_eq, lookup,
  is_empty, is_none, strip, lower, upper, split, join, ends_with, starts_with, remove_prefix,
  if◌then◌else◌, ◌⊎◌, inl, inr,
}
use smokejumper.Contracts.Json.{Json, null, str, obj, Fields, end, field, get, truthy}

-- `os.environ`
abbrev pub Environ : Type 0
Environ = List (Text × Text)

-- `COMPOSE_ONLY_SUFFIX`
abbrev pub compose_only_suffix : Text
compose_only_suffix = lit "_host_port"

-- `BARE_SECRET_VARS`: a variable, and the section and key that it is routed to.
pub record BareSecret : Type 0 where
  pub variable : Text
  pub section : Text
  pub key : Text

abbrev pub bare_secret_vars : List BareSecret
bare_secret_vars =
    record { variable = lit "SLACK_BOT_TOKEN"; section = lit "slack"; key = lit "bot_token" }
    ∷ record { variable = lit "SLACK_APP_TOKEN"; section = lit "slack"; key = lit "app_token" }
    ∷ record { variable = lit "LINEAR_API_KEY"; section = lit "ticketing"; key = lit "api_key" }
    ∷ []

-- `a or b`, where `a` may be missing.
unfoldable pub either : Option Json → Option Json → Option Json
either none b = b
either (some v) b = if truthy v then some v else b

-- `environ.get(variable) or other`
unfoldable pub environ_or : Environ → Text → Option Json → Option Json
environ_or environ variable other = elim (lookup variable environ) [
  | none ↦ other
  | some value ↦ if is_empty value then other else some (str value)
]

-- A dict comprehension that drops keys.
unfoldable pub drop_keys : (Text → Bool) → Fields → Fields
drop_keys test end = end
drop_keys test (field k v d) =
    let rest = drop_keys test d in if test k then rest else field k v rest

unfoldable pub is_compose_only : Text → Bool
is_compose_only k = ends_with compose_only_suffix (lower k)

-- `data.pop(key, None)`, but for what it returns.
unfoldable pub pop : Text → Fields → Fields
pop key = drop_keys (λ k. text_eq k key)

-- `data[key] = value`
unfoldable pub put : Text → Json → Fields → Fields
put key value end = field key value end
put key value (field k v d) =
    let rest = put key value d in if text_eq k key then field k value d else field k v rest

-- `{key: value, **existing}`
unfoldable pub under : Text → Json → Fields → Fields
under key value existing = elim (get key existing) [
  | none ↦ field key value existing
  | some set ↦ field key set (pop key existing)
]

-- `data[section] = {…}`, unless the section holds something other than a dictionary.
unfoldable pub route : BareSecret → Json → Fields → Fields
route secret value fields = elim (get secret.section fields) [
  | none ↦ put secret.section (obj (field secret.key value end)) fields
  | some null ↦ put secret.section (obj (field secret.key value end)) fields
  | some (obj existing) ↦ put secret.section (obj (under secret.key value existing)) fields
  | some _ ↦ fields
]

-- `None` is what a missing variable leaves.
abbrev without_null : Option Json → Option Json
without_null (some null) = none
without_null v = v

-- The value that a bare secret has, from the process environment or from `.env`.
abbrev pub routed : Environ → BareSecret → Fields → Option Json
routed environ secret fields =
    without_null (environ_or environ secret.variable (get (lower secret.variable) fields))

-- One turn of the loop over `BARE_SECRET_VARS`.
unfoldable pub consume : Environ → BareSecret → Fields → Fields
consume environ secret fields =
    let popped = pop (lower secret.variable) fields in
    elim (routed environ secret fields) [ none ↦ popped | some value ↦ route secret value popped ]

unfoldable pub consume_all : Environ → List BareSecret → Fields → Fields
consume_all environ [] fields = fields
consume_all environ (secret ∷ secrets) fields =
    consume_all environ secrets (consume environ secret fields)

-- `_reconcile_shared_env` of a dictionary.
unfoldable pub reconcile_shared_env : Environ → Fields → Fields
reconcile_shared_env environ fields =
    consume_all environ bare_secret_vars (drop_keys is_compose_only fields)

-- `_split_profiles` of a `str`.
unfoldable pub split_profiles : Text → List Text
split_profiles value = select (λ item. not (is_empty item)) (map strip (split b',' value))

abbrev pub env_var : Text
env_var = lit "SMOKEJUMPER_ENV"

abbrev pub ambiguous_env_var : Text
ambiguous_env_var = lit "SMOKEJUMPER__ENV"

-- `_resolve_env`: the text of its `ConfigError`, or the name of the environment.
unfoldable pub resolve_env : Environ → Fields → Text ⊎ Text
resolve_env environ init_kwargs =
    if not (is_none (lookup ambiguous_env_var environ))
    then inl (
        ambiguous_env_var
        ++ lit " is not a supported spelling; it would select an environment without selecting its "
        ++ lit "config file. Use SMOKEJUMPER_ENV instead.")
    else elim (either (get env_var init_kwargs) (get (lit "env") init_kwargs)) [
      | some (str flag) ↦ inr flag
      | _ ↦ elim (environ_or environ env_var none) [
        | some (str name) ↦ inr name
        | _ ↦ inr (lit "local")
      ]
    ]

-- `_env_var_for` of a location that is not empty.
unfoldable pub env_var_for : Text → List Text → Text
env_var_for head rest =
    if starts_with (lit "SMOKEJUMPER") head
    then head
    else lit "SMOKEJUMPER__" ++ upper (join (lit "__") (head ∷ rest))

-- One entry of `ValidationError.errors()`.
pub record ErrorDetails : Type 0 where
  pub loc : List Text
  pub type : Text
  pub msg : Text

-- The required fields of a section: only the two URLs have no default.
abbrev pub required_keys : Text → List Text
required_keys section =
    if text_eq section (lit "database")
    then lit "url" ∷ []
    else if text_eq section (lit "redis")
    then lit "url" ∷ []
    else []

-- `_env_vars_for`
unfoldable pub env_vars_for : Text → List Text → Text → List Text
env_vars_for head (part ∷ rest) type = env_var_for head (part ∷ rest) ∷ []
env_vars_for head [] type =
    if text_eq type (lit "missing")
    then elim (required_keys head) [
      | [] ↦ env_var_for head [] ∷ []
      | names ↦ map (λ name. env_var_for head (name ∷ [])) names
    ]
    else env_var_for head [] ∷ []

abbrev described : ErrorDetails → Text
described detail =
    let message = remove_prefix (lit "Value error, ") detail.msg in
    elim detail.loc [
      | [] ↦ message
      | head ∷ rest ↦ join (lit ", ") (env_vars_for head rest detail.type) ++ lit ": " ++ message
    ]

-- `_describe`
unfoldable pub describe : List ErrorDetails → Text
describe details = lit "configuration is invalid:\n  " ++ join (lit "\n  ") (map described details)
