-- ===== src/HostPorts/Exit.antt =====
-- scripts/check_host_ports.py: what its exit code and its hints promise.
use smokejumper.Prelude.{
  ℕ, ◌<◌, ◌≡◌, ◌↔◌, refl, Bool, true, false, not, inl, inr, List, [], ◌∷◌, Text, All, All-imp,
  All-select, select-eq-nil, any, select, one_of, arith, Option, Bool-cases, ◌==◌,
}
use smokejumper.HostPorts.{
  PublishedPort, inventory, override_port, unknown_among, profile_names, parse_profiles,
  selected_ports, find_collisions, main, core_profile, selectable_profiles,
}

abbrev asks_for : Text → PublishedPort → Bool
asks_for raw port = one_of port.profile (core_profile ∷ profile_names raw)

-- Nothing of what passes `p` passes `q`.
select-select-eq-nil :
    {A : Type 0} (p q : A → Bool) (xs : List A)
    → (select q (select p xs) ≡ []) ↔ All (λ x. p x ≡ true → q x ≡ false) xs
select-select-eq-nil p q [] = (λ e. tt, λ h. refl)
select-select-eq-nil p q (x ∷ xs) = elim (Bool-cases (p x)) [
  | inr fails ↦ rw fails (
    λ e. ((λ passes. cc passes), (select-select-eq-nil p q xs).0 e),
    λ h. (select-select-eq-nil p q xs).1 h.1,
  )
  | inl passes ↦ rw passes (elim (Bool-cases (q x)) [
    | inl held ↦ rw held (λ e. cc e, λ h. cc (h.0 refl))
    | inr free ↦ rw free (
      λ e. ((λ _. refl), (select-select-eq-nil p q xs).0 e),
      λ h. (select-select-eq-nil p q xs).1 h.1,
    )
  ])
]

not-eq-false : (b : Bool) → (not b ≡ false) ↔ (b ≡ true)
not-eq-false true = (λ _. refl, λ _. refl)
not-eq-false false = (λ e. cc e, λ e. cc e)

module _ (is_free : ℕ → Bool) (lsof : ℕ → Option Text) (raw : Text) where
  abbrev unknown_names : List Text
  unknown_names = unknown_among (profile_names raw)

  abbrev collisions : List PublishedPort
  collisions = find_collisions (selected_ports (profile_names raw)) is_free

  main-code : ((main is_free lsof raw).code ≡ 0) ↔ ((unknown_names ≡ []) × (collisions ≡ []))
  unfolding main parse_profiles
  main-code = by_names unknown_names refl collisions refl
    where
      by_names :
          (names : List Text)
          → unknown_names ≡ names
          → (held : List PublishedPort) → collisions ≡ held
          → ((main is_free lsof raw).code ≡ 0) ↔ ((names ≡ []) × (held ≡ []))
      by_names [] e [] c = rw (e, c, main, parse_profiles) (λ _. (refl, refl), λ _. refl)
      by_names [] e (port ∷ held) c = rw (e, c, main, parse_profiles) (λ h. cc h, λ h. cc h.1)
      by_names (name ∷ names) e held c = rw (e, main, parse_profiles) (λ h. cc h, λ h. cc h.0)

  abbrev IsSelectable : Text → Type 0
  IsSelectable name = one_of name selectable_profiles ≡ true

  abbrev IsKnown : Text → Type 0
  IsKnown name = not (one_of name selectable_profiles) ≡ false

  abbrev asked_for : PublishedPort → Bool
  asked_for port = one_of port.profile (core_profile ∷ profile_names raw)

  abbrev taken : PublishedPort → Bool
  taken port = not (is_free port.host_port)

  abbrev IsFreeIfAsked : PublishedPort → Type 0
  IsFreeIfAsked port = asked_for port ≡ true → is_free port.host_port ≡ true

  abbrev IsUntakenIfAsked : PublishedPort → Type 0
  IsUntakenIfAsked port = asked_for port ≡ true → taken port ≡ false

  -- The check passes exactly where each name of the option is a profile that can be selected, and
  -- each port of the core services and of the profiles named is free.
  pub main_iff : ((main is_free lsof raw).code ≡ 0) ↔ (
      All (λ name. one_of name selectable_profiles ≡ true) (profile_names raw)
      × All
          (λ (port : PublishedPort). asked_for port ≡ true → is_free port.host_port ≡ true)
          inventory)
  unfolding find_collisions selected_ports
  main_iff = (
    λ passes.
        let (known, apart) = main-code.0 passes in
        (
          All-imp IsKnown IsSelectable (λ name. (not-eq-false (one_of name selectable_profiles)).0)
              (profile_names raw) ((select-eq-nil _ (profile_names raw)).0 known),
          All-imp IsUntakenIfAsked IsFreeIfAsked
              (λ port free asked. (not-eq-false (is_free port.host_port)).0 (free asked)) inventory
              ((select-select-eq-nil asked_for taken inventory).0 apart),
        ),
    λ (known, free). main-code.1 (
      (select-eq-nil _ (profile_names raw)).1 (
          All-imp IsSelectable IsKnown (λ name. (not-eq-false (one_of name selectable_profiles)).1)
            (profile_names raw) known),
      (select-select-eq-nil asked_for taken inventory).1 (
          All-imp IsFreeIfAsked IsUntakenIfAsked
            (λ port h asked. (not-eq-false (is_free port.host_port)).1 (h asked)) inventory free),
    ),
  )

-- Every hint names a port below 65536 that no service of the inventory publishes.
override_port_bounds :
    (profiles : List Text) (is_free : ℕ → Bool)
    → All
        (λ (port : PublishedPort).
          (override_port port < 65536)
          × (any (λ (other : PublishedPort). other.host_port == override_port port) inventory
              ≡ false))
        (find_collisions (selected_ports profiles) is_free)
unfolding find_collisions selected_ports
override_port_bounds profiles is_free =
    All-select _ (λ (port : PublishedPort). not (is_free port.host_port)) (selected_ports profiles)
      (All-select _ (λ (port : PublishedPort). one_of port.profile (core_profile ∷ profiles))
        inventory ((omega arith, refl), ((omega arith, refl), ((omega arith, refl), tt))))
