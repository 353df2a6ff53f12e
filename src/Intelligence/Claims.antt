-- ===== src/Intelligence/Claims.antt =====
-- What a conclusion of intelligence/triage.py claims.
use mathlib.Core.List.Memᴰ
use mathlib.Core.List.{Memᴰ}
use smokejumper.Prelude.{
  ℕ, ◌≡◌, ◌≢◌, refl, sym, ap, subst, Option, none, some, List, [], ◌∷◌, ◌++◌, Text, lit, All, map,
}
use smokejumper.Contracts.Conclusions.{Finding, ConclusionStatus, needs_human, inconclusive}
use smokejumper.Contracts.Events.{Severity, critical, high, medium, low, info, Entity, AgentEvent}
use smokejumper.Intelligence.{
  escalating, firing, subject, unknown_cause, findings_of, references, status_of, triage,
}

-- The status that a severity calls for.
abbrev pub IsStatusFor : Severity → ConclusionStatus → Type 0
IsStatusFor critical status = status ≡ needs_human
IsStatusFor high status = status ≡ needs_human
IsStatusFor medium status = status ≡ inconclusive
IsStatusFor low status = status ≡ inconclusive
IsStatusFor info status = status ≡ inconclusive

-- A finding cites the entity.
abbrev pub IsCited : List Finding → Entity → Type 0
IsCited findings y =
    (f : Finding) × Memᴰ f findings × Memᴰ (lit "entity:" ++ (y.type ++ (b':' ∷ y.id))) f.evidence

-- The run that a conclusion is about: the one that is named, or the one with the event's id.
abbrev pub IsRunOf : AgentEvent → Option ℕ → ℕ → Type 0
IsRunOf e none id = id ≡ e.id
IsRunOf e (some run) id = id ≡ run

module _ (uuid_text isoformat : ℕ → Text) where
  status_of-IsStatusFor :
      (e : AgentEvent) (severity : Severity)
      → e.severity ≡ severity
      → IsStatusFor severity (status_of uuid_text isoformat e)
  unfolding status_of escalating
  status_of-IsStatusFor e critical h = rw (h, status_of, escalating) refl
  status_of-IsStatusFor e high h = rw (h, status_of, escalating) refl
  status_of-IsStatusFor e medium h = rw (h, status_of, escalating) refl
  status_of-IsStatusFor e low h = rw (h, status_of, escalating) refl
  status_of-IsStatusFor e info h = rw (h, status_of, escalating) refl

  references-cites : (e : AgentEvent) → references uuid_text isoformat e ≢ []
  unfolding references
  references-cites e = λ none_cited. cc

  findings-cite :
      (e : AgentEvent) (entities : List Entity)
      → e.entities ≡ entities
      → All (λ (f : Finding). f.evidence ≢ []) (findings_of uuid_text isoformat e)
  unfolding findings_of firing subject unknown_cause
  findings-cite e [] none_tagged =
      rw (none_tagged, findings_of) (references-cites e, (λ none_cited. cc, tt))
  findings-cite e (x ∷ xs) tagged =
      rw (tagged, findings_of)
        (references-cites e, (λ none_cited. cc (none_cited, tagged), (λ none_cited. cc, tt)))

  subject_found :
      (e : AgentEvent) (x : Entity) (xs : List Entity)
      → e.entities ≡ x ∷ xs
      → Memᴰ (subject uuid_text isoformat e) (findings_of uuid_text isoformat e)
  unfolding findings_of
  subject_found e x xs tagged =
      let three =
        firing uuid_text isoformat e
        ∷ subject uuid_text isoformat e
        ∷ unknown_cause uuid_text isoformat
        ∷ [] in
      let listed : findings_of uuid_text isoformat e ≡ three =
        ap
          (λ (entities : List Entity). elim entities [
            | [] ↦ firing uuid_text isoformat e ∷ unknown_cause uuid_text isoformat ∷ []
            | y ∷ ys ↦ three
          ])
          tagged in
      subst (Memᴰ (subject uuid_text isoformat e)) (sym listed) (Memᴰ.tail (Memᴰ.head refl))

  IsCited-from :
      (all ys : List Entity) (f : Finding) (findings : List Finding)
      → Memᴰ f findings
      → f.evidence ≡ map (λ (y : Entity). lit "entity:" ++ (y.type ++ (b':' ∷ y.id))) all
      → ((y : Entity) → Memᴰ y ys → Memᴰ y all)
      → All (IsCited findings) ys
  IsCited-from all [] f findings found cites within = tt
  IsCited-from all (y ∷ ys) f findings found cites within = (
    (
      f,
      found,
      subst (Memᴰ (lit "entity:" ++ (y.type ++ (b':' ∷ y.id)))) (sym cites) (
          Memᴰ.map (λ (y : Entity). lit "entity:" ++ (y.type ++ (b':' ∷ y.id)))
            (within y (Memᴰ.head refl))),
    ),
    IsCited-from all ys f findings found cites (λ z m. within z (Memᴰ.tail m)),
  )

  entities-IsCited :
      (e : AgentEvent) (entities : List Entity)
      → e.entities ≡ entities
      → All (IsCited (findings_of uuid_text isoformat e)) entities
  unfolding subject
  entities-IsCited e [] none_tagged = tt
  entities-IsCited e (x ∷ xs) tagged =
      IsCited-from (x ∷ xs) (x ∷ xs) (subject uuid_text isoformat e) _ (subject_found e x xs tagged)
        (rw tagged refl) (λ y m. m)

  -- A human for a critical and for a high severity, no verdict for any other; the run and the
  -- fingerprint of the alert; evidence for the conclusion and for each finding; and each tagged
  -- entity cited by a finding.
  abbrev pub IsGrounded : ℕ → AgentEvent → Option ℕ → Type 0
  IsGrounded elapsed_ms e run_id =
      let c = triage uuid_text isoformat elapsed_ms e run_id in
      IsStatusFor e.severity c.status
      × IsRunOf e run_id c.run_id
      × (c.fingerprint ≡ e.fingerprint)
      × (c.evidence_refs ≢ [])
      × All (λ (f : Finding). f.evidence ≢ []) c.findings
      × All (IsCited c.findings) e.entities

  run-IsRunOf :
      (elapsed_ms : ℕ) (e : AgentEvent) (run_id : Option ℕ)
      → IsRunOf e run_id (triage uuid_text isoformat elapsed_ms e run_id).run_id
  unfolding triage
  run-IsRunOf elapsed_ms e none = refl
  run-IsRunOf elapsed_ms e (some run) = refl

  -- The conclusion of a triage needs a human exactly for a critical or a high severity and is
  -- inconclusive for every other, is about the given run, or else the one with the event's id, and
  -- has the event's fingerprint; it cites evidence for itself and for each of its findings, and each
  -- entity that the alert was tagged with is cited by a finding.
  pub triage-IsGrounded :
      (elapsed_ms : ℕ) (e : AgentEvent) (run_id : Option ℕ) → IsGrounded elapsed_ms e run_id
  unfolding triage
  triage-IsGrounded elapsed_ms e run_id = (
    status_of-IsStatusFor e e.severity refl,
    run-IsRunOf elapsed_ms e run_id,
    refl,
    references-cites e,
    findings-cite e e.entities refl,
    entities-IsCited e e.entities refl,
  )
