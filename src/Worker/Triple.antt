-- ===== src/Worker/Triple.antt =====
-- Facts of the database before and after an action of worker.py, with a rule for each way to build
-- an action.
use smokejumper.Prelude.{
  ◌≡◌, refl, sym, ap, subst, ◌∙◌, Bool, true, false, Text, ℕ, Result, ok, err, if◌then◌else◌,
}
use smokejumper.Persistence.{Database, Tx, begin}
use smokejumper.Persistence.Commit.{begin-ok, begin-err}
use smokejumper.Recorder.{Payload}
use smokejumper.Worker.{World, Env, Act, pure, continue, ◌>>=◌, transaction, record_act}

ok-injective : {A : Type 0} {a b : A} → ok a ≡ ok b → a ≡ b
ok-injective e = cc e

-- From `I` and `P`: `I` holds after the action, also where it raises, and where it returns `Q` does.
-- The action acknowledges no message.
pub record Triple {A : Type 0} (I P : Database → Type 0) (m : Act A) (Q : A → Database → Type 0)
    : Type 0 where
  pub keeps : (w : World) → I w.db → P w.db → I (m w).1.db
  pub ensures : (w : World) (a : A) → I w.db → P w.db → (m w).0 ≡ ok a → Q a (m w).1.db
  pub acks_none : (w : World) → (m w).1.acked ≡ w.acked

module _ {A : Type 0} (I P : Database → Type 0) (Q : A → Database → Type 0) where
  pub Triple-pure : (a : A) → ((db : Database) → I db → P db → Q a db) → Triple I P (pure a) Q
  Triple-pure a q = record {
    keeps = λ w i p. i;
    ensures = λ w b i p e. subst (λ x. Q x w.db) (ok-injective e) (q w.db i p);
    acks_none = λ w. refl;
  }

  pub Triple-if :
      (b : Bool) (m n : Act A)
      → (b ≡ true → Triple I P m Q)
      → (b ≡ false → Triple I P n Q)
      → Triple I P (if b then m else n) Q
  Triple-if true m n t u = t refl
  Triple-if false m n t u = u refl

  -- A transaction that raises has changed nothing.
  pub Triple-transaction :
      (up : Bool) (m : Tx A)
      → ((db : Database) (a : A) (db' : Database)
          → I db
          → P db
          → m db ≡ ok (a, db')
          → I db' × Q a db')
      → Triple I P (transaction up m) Q
  unfolding transaction
  Triple-transaction false m step = record {
    keeps = λ w i p. i;
    ensures = λ w a i p e. cc;
    acks_none = λ w. refl;
  }
  Triple-transaction true m step = record {
    keeps = λ w i p. keep w i p (m w.db) refl;
    ensures = λ w a i p e. ensure w a i p (m w.db) refl e;
    acks_none = λ w. refl;
  }
    where
      keep :
          (w : World)
          → I w.db
          → P w.db
          → (r : Result (A × Database)) → m w.db ≡ r
          → I (begin m w.db).1
      keep w i p (ok (a, db')) e =
          subst (λ (x : Result A × Database). I x.1) (sym (begin-ok m w.db e))
            (step w.db a db' i p e).0
      keep w i p (err error) e =
          subst (λ (x : Result A × Database). I x.1) (sym (begin-err m w.db e)) i

      ensure :
          (w : World) (a : A)
          → I w.db
          → P w.db
          → (r : Result (A × Database)) → m w.db ≡ r
          → (begin m w.db).0 ≡ ok a
          → Q a (begin m w.db).1
      ensure w a i p (ok (b, db')) e f =
          let same : b ≡ a =
            ok-injective (sym (ap (λ (x : Result A × Database). x.0) (begin-ok m w.db e)) ∙ f) in
          subst (λ (x : Result A × Database). Q a x.1) (sym (begin-ok m w.db e))
            (subst (λ x. Q x db') same (step w.db b db' i p e).1)
      ensure w a i p (err error) e f =
          cc (f, ap (λ (x : Result A × Database). x.0) (begin-err m w.db e))

module _ {A B : Type 0} (I P : Database → Type 0) (Q : A → Database → Type 0)
    (R : B → Database → Type 0) where
  -- The second action starts from what the first ensures.
  pub Triple-bind :
      (m : Act A) (f : A → Act B)
      → Triple I P m Q
      → ((a : A) → Triple I (Q a) (f a) R)
      → Triple I P (m >>= f) R
  Triple-bind m f t u = record {
    keeps =
        λ w i p. continue_keeps (m w).0 (m w).1 (t.keeps w i p) (λ a same. t.ensures w a i p same);
    ensures = λ w b i p e.
        continue_ensures (m w).0 (m w).1 (t.keeps w i p) (λ a same. t.ensures w a i p same) b e;
    acks_none = λ w. continue_acks_none (m w).0 (m w).1 ∙ t.acks_none w;
  }
    where
      continue_keeps :
          (r : Result A) (w : World)
          → I w.db
          → ((a : A) → r ≡ ok a → Q a w.db)
          → I (continue r f w).1.db
      continue_keeps (ok a) w i q = (u a).keeps w i (q a refl)
      continue_keeps (err error) w i q = i

      continue_acks_none : (r : Result A) (w : World) → (continue r f w).1.acked ≡ w.acked
      continue_acks_none (ok a) w = (u a).acks_none w
      continue_acks_none (err error) w = refl

      continue_ensures :
          (r : Result A) (w : World)
          → I w.db
          → ((a : A) → r ≡ ok a → Q a w.db)
          → (b : B) → (continue r f w).0 ≡ ok b
          → R b (continue r f w).1.db
      continue_ensures (ok a) w i q b e = (u a).ensures w b i (q a refl) e
      continue_ensures (err error) w i q b e = cc

pub Triple-weaken :
    {A : Type 0} (I P P' : Database → Type 0) (Q : A → Database → Type 0) (m : Act A)
    → Triple I P m Q
    → ((db : Database) → P' db → P db)
    → Triple I P' m Q
Triple-weaken I P P' Q m t weaker = record {
  keeps = λ w i p. t.keeps w i (weaker w.db p);
  ensures = λ w a i p e. t.ensures w a i (weaker w.db p) e;
  acks_none = t.acks_none;
}

-- An action may depend on the world it starts in.
pub Triple-reading :
    {A : Type 0} (I P : Database → Type 0) (Q : A → Database → Type 0) (m : World → Act A)
    → ((w : World) → Triple I P (m w) Q)
    → Triple I P (λ w. m w w) Q
Triple-reading I P Q m t = record {
  keeps = λ w i p. (t w).keeps w i p;
  ensures = λ w a i p e. (t w).ensures w a i p e;
  acks_none = λ w. (t w).acks_none w;
}

-- Writing the audit trail touches no table.
pub Triple-record_act :
    (I P : Database → Type 0) (env : Env) (now run : ℕ) (actor : Text) (payload : Payload)
    → Triple I P (record_act env now run actor payload) (λ _ db. P db)
unfolding record_act
Triple-record_act I P env now run actor payload = record {
  keeps = λ w i p. i;
  ensures = λ w a i p e. p;
  acks_none = λ w. refl;
}
