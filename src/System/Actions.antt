-- ===== src/System/Actions.antt =====
-- The state and error monad of the `async` functions: a database of tables `D`, and the tick that
-- counts the calls to the `System`. State that was written before an error stays written.
use servir.Prelude.{ℕ, suc, String, Option, none, some, Bool, true, false, Result, ok, err}
use servir.System.{System, Constraint}

pub record World (D : Type 0) : Type 0 where
  pub db : D
  pub tick : ℕ

abbrev pub Action : Type 0 → Type 0 → Type 0 → Type 0
Action D E A = World D → Result E A × World D

module _ {D E : Type 0} where
  unfoldable pub pure : {A : Type 0} → A → Action D E A
  pure a w = (ok a, w)

  -- `e?` on a `Result`
  unfoldable pub lift : {A : Type 0} → Result E A → Action D E A
  lift r w = (r, w)

  infixl 5 ◌>>=◌ ◌>>◌
  unfoldable pub ◌>>=◌ : {A B : Type 0} → Action D E A → (A → Action D E B) → Action D E B
  ◌>>=◌ m f w = let (r, w') = m w in elim r [ ok a ↦ f a w' | err e ↦ (err e, w') ]

  abbrev pub ◌>>◌ : {A B : Type 0} → Action D E A → Action D E B → Action D E B
  m >> k = m >>= λ _. k

  -- `if test { return Err(e) }`
  unfoldable pub fail_if : Bool → E → Action D E (Unit {0})
  fail_if true e w = (err e, w)
  fail_if false e w = (ok tt, w)

  -- `.ok_or_else(|| e)?`
  unfoldable pub or_fail : {A : Type 0} → Option A → E → Action D E A
  or_fail none e w = (err e, w)
  or_fail (some a) e w = (ok a, w)

  -- `.map_err(f)`
  unfoldable pub map_error : {F A : Type 0} → (E → F) → Action D E A → Action D F A
  map_error f m w = let (r, w') = m w in elim r [ ok a ↦ (ok a, w') | err e ↦ (err (f e), w') ]

  -- One call to a source that depends on the tick.
  unfoldable pub call : {A : Type 0} → (ℕ → A) → Action D E A
  call source w = (ok (source w.tick), record w { tick = suc w.tick })

-- `sqlx::Error`: whether it is a database error with `is_unique_violation()`, and its text.
pub record SqlError : Type 0 where
  pub is_unique_violation : Bool
  pub text : String

abbrev pub unique_violation : System → Constraint → SqlError
unique_violation sys c = record { is_unique_violation = true; text = sys.constraint_text c }

abbrev pub other_violation : System → Constraint → SqlError
other_violation sys c = record { is_unique_violation = false; text = sys.constraint_text c }

-- A statement maps the tables to an answer and the new tables; a failed one changes nothing.
abbrev pub Statement : Type 0 → Type 0 → Type 0
Statement D A = D → Result SqlError (A × D)

module _ {D : Type 0} where
  abbrev pub committed :
      {A : Type 0} → Result SqlError (A × D) → World D → Result SqlError A × World D
  committed (ok (a, d)) w = (ok a, record { db = d; tick = suc w.tick })
  committed (err e) w = (err e, record w { tick = suc w.tick })

  -- `.execute(&self.pool)`, `.fetch_optional(&self.pool)`: one atomic statement, or a fault.
  unfoldable pub execute : {A : Type 0} → System → Statement D A → Action D SqlError A
  execute sys statement w = elim (sys.fault w.tick) [
    | some text ↦
        (err (record { is_unique_violation = false; text = text }), record w { tick = suc w.tick })
    | none ↦ committed (statement w.db) w
  ]

-- What a test unfolds to run an action.
unfoldable pub running : Unit {0}
unfolding pure lift ◌>>=◌ fail_if or_fail map_error call execute
running = tt
