-- ===== src/HostPorts.antt =====
-- scripts/check_host_ports.py: the check that runs before the containers start.
pub mod Exit
use smokejumper.Prelude.{
  ℕ, ◌+◌, Bool, true, false, not, ◌||◌, Option, none, some, List, [], ◌∷◌, ◌++◌, map, Text, lit,
  length, select, text_eq, one_of, is_empty, strip, split, join, after_prefix, if◌then◌else◌, ◌⊎◌,
  inl, inr, ◌==◌, leb, ◌&&◌,
}
use smokejumper.Contracts.Json.{decimal}

pub record PublishedPort : Type 0 where
  pub profile : Text
  pub service : Text
  pub container_port : ℕ
  pub host_port : ℕ
  pub env_var : Text

abbrev app_port : PublishedPort
app_port = record {
  profile = lit "default";
  service = lit "app";
  container_port = 8000;
  host_port = 8000;
  env_var = lit "APP_HOST_PORT";
}

abbrev prometheus_port : PublishedPort
prometheus_port = record {
  profile = lit "lab";
  service = lit "prometheus";
  container_port = 9090;
  host_port = 9090;
  env_var = lit "PROMETHEUS_HOST_PORT";
}

abbrev phoenix_port : PublishedPort
phoenix_port = record {
  profile = lit "obs";
  service = lit "phoenix";
  container_port = 6006;
  host_port = 6006;
  env_var = lit "PHOENIX_HOST_PORT";
}

abbrev pub inventory : List PublishedPort
inventory = app_port ∷ prometheus_port ∷ phoenix_port ∷ []

abbrev pub override_offset : ℕ
override_offset = 10000

abbrev pub selectable_profiles : List Text
selectable_profiles = lit "lab" ∷ lit "obs" ∷ []

abbrev pub core_profile : Text
core_profile = lit "default"

-- The names of a `--profiles` value.
unfoldable pub profile_names : Text → List Text
profile_names raw = select (λ name. not (is_empty name)) (map strip (split b',' raw))

abbrev pub unknown_among : List Text → List Text
unknown_among names = select (λ name. not (one_of name selectable_profiles)) names

-- `parse_profiles`: the text of its `ValueError`, or the names.
unfoldable pub parse_profiles : Text → Text ⊎ List Text
parse_profiles raw = elim (unknown_among (profile_names raw)) [
  | [] ↦ inr (profile_names raw)
  | name ∷ names ↦ inl (
      lit "unknown profile(s): "
      ++ join (lit ", ") (name ∷ names)
      ++ lit "; choose from "
      ++ join (lit ", ") selectable_profiles)
]

unfoldable pub selected_ports : List Text → List PublishedPort
selected_ports profiles =
    select (λ (port : PublishedPort). one_of port.profile (core_profile ∷ profiles)) inventory

unfoldable pub find_collisions : List PublishedPort → (ℕ → Bool) → List PublishedPort
find_collisions ports is_free =
    select (λ (port : PublishedPort). not (is_free port.host_port)) ports

abbrev pub override_port : PublishedPort → ℕ
override_port port = port.host_port + override_offset

unfoldable pub override_hint : PublishedPort → Text
unfolding decimal
override_hint port = port.env_var ++ lit "=" ++ decimal (override_port port)

-- The line boundaries of `str.splitlines`.
unfoldable pub is_line_break : ℕ → Bool
is_line_break c = leb 10 c && leb c 13 || leb 28 c && leb c 30 || c == 133 || c == 8232 || c == 8233

abbrev on_first_line : ℕ → List Text → List Text
on_first_line c [] = (c ∷ []) ∷ []
on_first_line c (line ∷ lines) = (c ∷ line) ∷ lines

-- `str.splitlines()`; a return before a newline makes one boundary with it.
unfoldable pub splitlines : Text → List Text
unfolding is_line_break
splitlines [] = []
splitlines (c ∷ []) = if is_line_break c then [] ∷ [] else (c ∷ []) ∷ []
splitlines (c ∷ d ∷ s) =
    let rest = splitlines (d ∷ s) in
    if is_line_break c
    then (if c == 13 && d == 10 then rest else [] ∷ rest)
    else on_first_line c rest

-- `if command and pid`
abbrev holder_of : Text → Text → Option Text
holder_of command pid =
    if is_empty command || is_empty pid
    then none
    else some (command ++ lit " (pid " ++ pid ++ lit ")")

-- A field's new value, where the line begins with its letter.
abbrev after_letter : Text → Text → Text → Text
after_letter letter line before = elim (after_prefix letter line) [
  | none ↦ before
  | some value ↦ value
]

-- The loop of `describe_holder` over the fields of `lsof -F cp`, a text not met yet being empty.
unfoldable pub holder_among : Text → Text → List Text → Option Text
holder_among command pid [] = none
holder_among command pid (line ∷ lines) =
    let pid' = after_letter (lit "p") line pid in
    let command' = after_letter (lit "c") line command in
    let rest = holder_among command' pid' lines in
    elim (holder_of command' pid') [ some holder ↦ some holder | none ↦ rest ]

-- `describe_holder`: `none` where there is no `lsof`, or running it raises.
unfoldable pub describe_holder : Option Text → Option Text
unfolding splitlines holder_among
describe_holder none = none
describe_holder (some stdout) = holder_among [] [] (splitlines stdout)

abbrev described : Option Text → Text
described none = lit "an unidentified process"
described (some holder) = holder

-- The two lines that a collision prints.
abbrev pub collision_lines : (ℕ → Option Text) → PublishedPort → List Text
collision_lines lsof port =
    (lit "ERROR: host port "
      ++ decimal port.host_port
      ++ lit " for service '"
      ++ port.service
      ++ lit "' (profile "
      ++ port.profile
      ++ lit ") is held by "
      ++ described (describe_holder (lsof port.host_port)))
    ∷ (lit "       set " ++ override_hint port ++ lit " in .env, or any other free port")
    ∷ []

abbrev pub all_lines : (ℕ → Option Text) → List PublishedPort → List Text
all_lines lsof [] = []
all_lines lsof (port ∷ ports) = collision_lines lsof port ++ all_lines lsof ports

-- The exit code, and the lines that are printed.
pub record Outcome : Type 0 where
  pub code : ℕ
  pub printed : List Text

abbrev verdict : (ℕ → Option Text) → List PublishedPort → List PublishedPort → Outcome
verdict lsof ports [] = record {
  code = 0;
  printed = (lit "host ports: PASS (" ++ decimal (length ports) ++ lit " checked)") ∷ [];
}
verdict lsof ports (port ∷ collisions) = record {
  code = 1;
  printed =
      all_lines lsof (port ∷ collisions)
      ++ (lit "host ports: FAIL ("
          ++ decimal (length (port ∷ collisions))
          ++ lit " of "
          ++ decimal (length ports)
          ++ lit " checked port(s) unavailable)")
        ∷ [];
}

-- `main`, for what the loopback interface and `lsof` answer.
unfoldable pub main : (ℕ → Bool) → (ℕ → Option Text) → Text → Outcome
main is_free lsof raw = elim (parse_profiles raw) [
  | inl error ↦ record { code = 2; printed = (lit "ERROR: " ++ error) ∷ [] }
  | inr profiles ↦
      verdict lsof (selected_ports profiles) (find_collisions (selected_ports profiles) is_free)
]
