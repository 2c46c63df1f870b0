-- ===== src/System/Posts.antt =====
-- Postconditions of actions, with one rule for each way to build an action. `Q` holds of a value and
-- the world after it, `R` of an error and the world after it.
use servir.Prelude.{
  ℕ, String, Option, none, some, Bool, true, false, ◌≡◌, refl, Result, ok, err, suc, Option-cases,
  inl, inr,
}
use mathlib.Core.Path.{subst}
use servir.System.{System}
use servir.System.Actions.{
  World, Action, pure, lift, fail_if, or_fail, map_error, call, ◌>>=◌, SqlError, Statement, execute,
  committed,
}

module _ {D E A : Type 0} (Q : A → World D → Type 0) (R : E → World D → Type 0) where
  abbrev pub Outcome : Result E A → World D → Type 0
  Outcome (ok a) w = Q a w
  Outcome (err e) w = R e w

  pub record Post (out : Result E A × World D) : Type 0 where
    pub holds : Outcome out.0 out.1

module _ {D E A : Type 0} {Q : A → World D → Type 0} {R : E → World D → Type 0} where
  pub Post-pure : (a : A) (w : World D) → Q a w → Post Q R (pure a w)
  unfolding pure
  Post-pure a w q = record { holds = q }

  pub Post-weaken :
      {Q' : A → World D → Type 0} {R' : E → World D → Type 0} (out : Result E A × World D)
      → Post Q R out
      → ((a : A) (w : World D) → Q a w → Q' a w)
      → ((e : E) (w : World D) → R e w → R' e w)
      → Post Q' R' out
  Post-weaken {Q'} {R'} out h k l = record { holds = go out.0 out.1 h.holds }
    where
      go : (r : Result E A) (w : World D) → Outcome Q R r w → Outcome Q' R' r w
      go (ok a) w x = k a w x
      go (err e) w x = l e w x

module _ {D E B : Type 0} {S : B → World D → Type 0} {R : E → World D → Type 0} where
  pub Post-bind :
      {A : Type 0} (Q : A → World D → Type 0) (m : Action D E A) (f : A → Action D E B)
      (w : World D)
      → Post Q R (m w)
      → ((a : A) (w' : World D) → Q a w' → Post S R (f a w'))
      → Post S R ((m >>= f) w)
  unfolding ◌>>=◌
  Post-bind {A} Q m f w h k = record { holds = go (m w).0 (m w).1 h.holds }
    where
      go :
          (r : Result E A) (w' : World D)
          → Outcome Q R r w'
          → let out : Result E B × World D = elim r [ ok a ↦ f a w' | err e ↦ (err e, w') ] in
            Outcome S R out.0 out.1
      go (ok a) w' x = (k a w' x).holds
      go (err e) w' x = x

  -- A call to a source, and what follows it.
  pub Post-call :
      {A : Type 0} (source : ℕ → A) (f : A → Action D E B) (w : World D)
      → Post S R (f (source w.tick) (record w { tick = suc w.tick }))
      → Post S R ((call source >>= f) w)
  unfolding ◌>>=◌ call
  Post-call source f w h = h

  -- A guard, and what follows it.
  pub Post-fail_if :
      (b : Bool) (e : E) (k : Unit {0} → Action D E B) (w : World D)
      → (b ≡ false → Post S R (k tt w))
      → (b ≡ true → R e w)
      → Post S R ((fail_if b e >>= k) w)
  unfolding ◌>>=◌ fail_if
  Post-fail_if true e k w h l = record { holds = l refl }
  Post-fail_if false e k w h l = h refl

  pub Post-or_fail :
      {A : Type 0} (o : Option A) (e : E) (f : A → Action D E B) (w : World D)
      → ((a : A) → o ≡ some a → Post S R (f a w))
      → (o ≡ none → R e w)
      → Post S R ((or_fail o e >>= f) w)
  unfolding ◌>>=◌ or_fail
  Post-or_fail none e f w h l = record { holds = l refl }
  Post-or_fail (some a) e f w h l = h a refl

  pub Post-lift :
      {A : Type 0} (r : Result E A) (f : A → Action D E B) (w : World D)
      → ((a : A) → r ≡ ok a → Post S R (f a w))
      → ((e : E) → r ≡ err e → R e w)
      → Post S R ((lift r >>= f) w)
  unfolding ◌>>=◌ lift
  Post-lift (ok a) f w h l = h a refl
  Post-lift (err e) f w h l = record { holds = l e refl }

module _ {D E A : Type 0} {Q : A → World D → Type 0} {R : E → World D → Type 0} where
  -- A result that stands last.
  pub Post-result :
      (r : Result E A) (w : World D)
      → ((a : A) → r ≡ ok a → Q a w)
      → ((e : E) → r ≡ err e → R e w)
      → Post Q R (lift r w)
  unfolding lift
  Post-result (ok a) w h l = record { holds = h a refl }
  Post-result (err e) w h l = record { holds = l e refl }

module _ {D E F A : Type 0} {Q : A → World D → Type 0} {R : F → World D → Type 0} where
  pub Post-map_error :
      (f : E → F) (m : Action D E A) (w : World D)
      → Post Q (λ e. R (f e)) (m w)
      → Post Q R (map_error f m w)
  unfolding map_error
  Post-map_error f m w h = record { holds = go (m w).0 (m w).1 h.holds }
    where
      go :
          (r : Result E A) (w' : World D)
          → Outcome Q (λ e. R (f e)) r w'
          → let out : Result F A × World D = elim r [
            | ok a ↦ (ok a, w')
            | err e ↦ (err (f e), w')
          ] in
            Outcome Q R out.0 out.1
      go (ok a) w' x = x
      go (err e) w' x = x

module _ {D A : Type 0} {Q : A → World D → Type 0} {R : SqlError → World D → Type 0} where
  -- A statement either commits at the next tick or leaves the tables.
  pub Post-execute :
      (sys : System) (s : Statement D A) (w : World D)
      → ((a : A) (d : D) → s w.db ≡ ok (a, d) → Q a (record { db = d; tick = suc w.tick }))
      → ((e : SqlError) → R e (record w { tick = suc w.tick }))
      → Post Q R (execute sys s w)
  unfolding execute
  Post-execute sys s w h k = elim (Option-cases (sys.fault w.tick)) [
    | inr (text, e) ↦ rw (e, execute) (record { holds = k _ })
    | inl e ↦ rw (e, execute) (go (s w.db) refl)
  ]
    where
      go : (r : Result SqlError (A × D)) → s w.db ≡ r → Post Q R (committed r w)
      go (ok (a, d)) e = record { holds = h a d e }
      go (err x) e = record { holds = k x }

module _ {D E A : Type 0} {Q : A → World D → Type 0} {R : E → World D → Type 0} where
  -- What a postcondition says of an outcome that is known.
  pub Post-ok : (out : Result E A × World D) (a : A) → Post Q R out → out.0 ≡ ok a → Q a out.1
  Post-ok out a p e = go out.0 out.1 p.holds e
    where
      go : (r : Result E A) (w : World D) → Outcome Q R r w → r ≡ ok a → Q a w
      go (ok b) w q same = subst (λ x. Q x w) (cc) q
      go (err x) w q same = absurd (cc)

module _ {D A : Type 0} {Q : A → World D → Type 0} {R : SqlError → World D → Type 0} where
  -- Where the database meets no fault, a statement that the tables allow commits.
  pub Post-commits :
      (sys : System) (s : Statement D A) (w : World D) (a : A) (d : D)
      → sys.fault w.tick ≡ none
      → s w.db ≡ ok (a, d)
      → Q a (record { db = d; tick = suc w.tick })
      → Post Q R (execute sys s w)
  unfolding execute
  Post-commits sys s w a d e f q = rw (e, execute) (rw (f, committed) (record { holds = q }))

module _ {D E A : Type 0} {R : E → World D → Type 0} where
  -- An action with no value to answer fails.
  pub Post-err :
      (out : Result E A × World D) → Post (λ a w. ⊥) R out → (e : E) × (out.0 ≡ err e) × R e out.1
  Post-err out p = go out.0 out.1 p.holds
    where
      go : (r : Result E A) (w : World D) → Outcome (λ a w. ⊥) R r w → (e : E) × (r ≡ err e) × R e w
      go (ok a) w h = absurd h
      go (err e) w h = (e, refl, h)

module _ {D A : Type 0} {Q : A → World D → Type 0} {R : SqlError → World D → Type 0} where
  -- A statement that fails meets a fault, or a constraint of the tables.
  pub Post-executes :
      (sys : System) (s : Statement D A) (w : World D)
      → ((a : A) (d : D) → s w.db ≡ ok (a, d) → Q a (record { db = d; tick = suc w.tick }))
      → ((text : String)
          → sys.fault w.tick ≡ some text
          → R
              (record { is_unique_violation = false; text = text })
              (record w { tick = suc w.tick }))
      → ((e : SqlError) → s w.db ≡ err e → R e (record w { tick = suc w.tick }))
      → Post Q R (execute sys s w)
  unfolding execute
  Post-executes sys s w h k l = elim (Option-cases (sys.fault w.tick)) [
    | inr (text, e) ↦ rw (e, execute) (record { holds = k text e })
    | inl e ↦ rw (e, execute) (go (s w.db) refl)
  ]
    where
      go : (r : Result SqlError (A × D)) → s w.db ≡ r → Post Q R (committed r w)
      go (ok (a, d)) e = record { holds = h a d e }
      go (err x) e = record { holds = l x e }

module _ {D E A : Type 0} {Q Q' : A → World D → Type 0} {R R' : E → World D → Type 0} where
  -- Two postconditions of one outcome.
  pub Post-both :
      (out : Result E A × World D)
      → Post Q R out
      → Post Q' R' out
      → Post (λ a w. Q a w × Q' a w) (λ e w. R e w × R' e w) out
  Post-both out p q = record { holds = go out.0 out.1 p.holds q.holds }
    where
      go :
          (r : Result E A) (w : World D)
          → Outcome Q R r w
          → Outcome Q' R' r w
          → Outcome (λ a w. Q a w × Q' a w) (λ e w. R e w × R' e w) r w
      go (ok a) w x y = (x, y)
      go (err e) w x y = (x, y)
