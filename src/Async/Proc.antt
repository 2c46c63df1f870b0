-- ===== src/Async/Proc.antt =====
-- An `async fn` between its calls: either it has its result, or it makes one call, which is atomic,
-- and goes on. What it makes of the call may depend on the world, and other requests may change the
-- world between two calls.
use servir.Prelude.{ℕ, Option, none, some, Bool, true, false, Result, ok, err}
use servir.System.{System}
use servir.System.Actions.{World, Action, SqlError, Statement}
use servir.System.Actions

pub data Proc (D R : Type 0) : Type 0 where
  done : (result : R) → Proc D R
  step : (next : World D → World D) (rest : World D → Proc D R) → Proc D R

-- The end of a request: what is made of its result.
unfoldable pub finish : {D R S : Type 0} → (R → S) → Proc D R → Proc D S
finish f (done r) = done (f r)
finish f (step next rest) = step next (λ w. finish f (rest w))

abbrev pub Async : Type 0 → Type 0 → Type 0 → Type 0
Async D E A = Proc D (Result E A)

module _ {D E : Type 0} where
  -- One action as one call.
  abbrev pub atom : {A : Type 0} → Action D E A → Async D E A
  atom m = step (λ w. (m w).1) (λ w. done (m w).0)

  unfoldable pub pure : {A : Type 0} → A → Async D E A
  pure a = done (ok a)

  unfoldable pub lift : {A : Type 0} → Result E A → Async D E A
  lift r = done r

  infixl 5 ◌>>=◌ ◌>>◌
  unfoldable pub ◌>>=◌ : {A B : Type 0} → Async D E A → (A → Async D E B) → Async D E B
  done (ok a) >>= f = f a
  done (err e) >>= f = done (err e)
  step next rest >>= f = step next (λ w. rest w >>= f)

  abbrev pub ◌>>◌ : {A B : Type 0} → Async D E A → Async D E B → Async D E B
  m >> k = m >>= λ _. k

  unfoldable pub fail_if : Bool → E → Async D E (Unit {0})
  fail_if true e = done (err e)
  fail_if false e = done (ok tt)

  unfoldable pub or_fail : {A : Type 0} → Option A → E → Async D E A
  or_fail none e = done (err e)
  or_fail (some a) e = done (ok a)

  unfoldable pub call : {A : Type 0} → (ℕ → A) → Async D E A
  call source = atom (Actions.call source)

  -- `.map_err(f)` behind a statement
  unfoldable pub query : {A : Type 0} → System → (SqlError → E) → Statement D A → Async D E A
  query sys f s = atom (Actions.map_error f (Actions.execute sys s))
