-- ===== src/Prelude/Results.antt =====
-- Rust's `Result`, its `?` as a bind, and the combinators `map_err` and `ok_or_else`.
use mathlib.Core.Path.{◌≡◌, refl, subst}
use mathlib.Core.Logic.{◌⊎◌, inl, inr}
use mathlib.Core.Option
use mathlib.Core.Option.{Option, none, some}

pub data Result {ℓ κ} (E : Type κ) (A : Type ℓ) : Type (ℓ ⊔ κ) where
  ok : A → Result E A
  err : E → Result E A

module _ {ℓ κ} {E : Type κ} {A : Type ℓ} where
  abbrev pub map_err {μ} : {F : Type μ} → (E → F) → Result E A → Result F A
  map_err f (ok a) = ok a
  map_err f (err e) = err (f e)

  abbrev pub ok_or : Option A → E → Result E A
  ok_or none e = err e
  ok_or (some a) e = ok a

  pub Result-cases : (r : Result E A) → ((a : A) × (r ≡ ok a)) ⊎ ((e : E) × (r ≡ err e))
  Result-cases (ok a) = inl (a, refl)
  Result-cases (err e) = inr (e, refl)

module _ {ℓ κ μ} {E : Type κ} {A : Type ℓ} {B : Type μ} where
  abbrev pub and_then : Result E A → (A → Result E B) → Result E B
  and_then (ok a) f = f a
  and_then (err e) f = err e

  infixl 5 ◌>>=◌
  abbrev pub ◌>>=◌ : Result E A → (A → Result E B) → Result E B
  r >>= f = and_then r f

  abbrev pub map_ok : (A → B) → Result E A → Result E B
  map_ok f (ok a) = ok (f a)
  map_ok f (err e) = err e

pub map-eq-some :
    {A B : Type 0} (f : A → B) (o : Option A) (b : B)
    → Option.map f o ≡ some b
    → (a : A) × (o ≡ some a) × (b ≡ f a)
map-eq-some f none b h = cc
map-eq-some f (some a) b h = (a, refl, cc)

pub eq_of_map_err :
    {E F A : Type 0} (f : E → F) (r : Result E A) (a : A) → map_err f r ≡ ok a → r ≡ ok a
eq_of_map_err f (ok b) a h = cc
eq_of_map_err f (err e) a h = cc

pub eq_of_ok : {E A : Type 0} (a b : A) → ◌≡◌ {A = Result E A} (ok a) (ok b) → a ≡ b
eq_of_ok a b h = cc

-- The `?` of two results that succeeds.
pub and_then-ok :
    {E A B : Type 0} (r : Result E A) (f : A → Result E B) (b : B)
    → and_then r f ≡ ok b
    → (a : A) × (r ≡ ok a) × (f a ≡ ok b)
and_then-ok (ok a) f b h = (a, refl, h)
and_then-ok (err e) f b h = cc

pub and_then_ok :
    {E A B : Type 0} (r : Result E A) (f : A → Result E B) (a : A) (b : B)
    → r ≡ ok a
    → f a ≡ ok b
    → and_then r f ≡ ok b
and_then_ok (ok a') f a b h e = subst (λ x. f x ≡ ok b) (cc) e
and_then_ok (err x) f a b h e = cc

pub and_then_err :
    {E A B : Type 0} (r : Result E A) (f : A → Result E B) (e : E)
    → r ≡ err e
    → and_then r f ≡ err e
and_then_err (ok a) f e h = cc
and_then_err (err x) f e h = cc

-- The first result is there, and the second is taken.
pub and_then_next :
    {E A B : Type 0} (r : Result E A) (f : A → Result E B) (a : A) → r ≡ ok a → and_then r f ≡ f a
and_then_next (ok a') f a h = subst (λ x. f a' ≡ f x) (cc) refl
and_then_next (err x) f a h = cc

pub map_err-err :
    {E F A : Type 0} (f : E → F) (r : Result E A) (x : F)
    → map_err f r ≡ err x
    → (e : E) × (r ≡ err e) × (x ≡ f e)
map_err-err f (ok a) x h = cc
map_err-err f (err e) x h = (e, refl, cc)
