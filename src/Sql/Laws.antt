-- ===== src/Sql/Laws.antt =====
-- How the queries see a table after a DELETE, and what a DELETE keeps.
use servir.Prelude.{
  ◌≡◌, refl, Bool, true, false, none, some, List, [], ◌∷◌, arith, ltb, Bool-cases, Option-cases,
  inl, inr,
}
use servir.Sql.{select, has, delete, affected, Every, Unique}

module _ {ℓ} {A : Type ℓ} where
  pub has-delete-false :
      (q p : A → Bool) (xs : List A) → has q xs ≡ false → has q (delete p xs) ≡ false
  has-delete-false q p [] h = refl
  has-delete-false q p (x ∷ xs) h = ground (arith, has-delete-false q p xs)

  -- A row that no deleted row can be is found as before.
  pub has-delete_other :
      (q p : A → Bool) (xs : List A)
      → ((x : A) → p x ≡ true → q x ≡ false)
      → has q (delete p xs) ≡ has q xs
  has-delete_other q p [] h = refl
  has-delete_other q p (x ∷ xs) h = ground (arith, has-delete_other q p xs h, h x)

  pub select-delete_other :
      (q p : A → Bool) (xs : List A)
      → ((x : A) → p x ≡ true → q x ≡ false)
      → select q (delete p xs) ≡ select q xs
  select-delete_other q p [] h = refl
  select-delete_other q p (x ∷ xs) h = ground (arith, select-delete_other q p xs h, h x)

  -- What is deleted whole is not found any more.
  pub has-delete_all :
      (q p : A → Bool) (xs : List A)
      → ((x : A) → q x ≡ true → p x ≡ true)
      → has q (delete p xs) ≡ false
  has-delete_all q p [] h = refl
  has-delete_all q p (x ∷ xs) h = ground (arith, has-delete_all q p xs h, h x)

  pub select-has-false : (p : A → Bool) (xs : List A) → has p xs ≡ false → select p xs ≡ none
  select-has-false p [] h = refl
  select-has-false p (x ∷ xs) h = ground (arith, select-has-false p xs)

  pub select-some-has :
      (p : A → Bool) (xs : List A) (x : A) → select p xs ≡ some x → has p xs ≡ true
  select-some-has p [] x h = cc
  select-some-has p (y ∷ xs) x h = ground (arith, select-some-has p xs x)

  pub select-some-has_other :
      (p q : A → Bool) (xs : List A) (x : A) → select p xs ≡ some x → q x ≡ true → has q xs ≡ true
  select-some-has_other p q [] x h e = cc
  select-some-has_other p q (y ∷ xs) x h e = ground (arith, select-some-has_other p q xs x)

  pub has-select : (p : A → Bool) (xs : List A) → has p xs ≡ true → (x : A) × (select p xs ≡ some x)
  has-select p xs h = elim (Option-cases (select p xs)) [
    | inl missing ↦ absurd (missed xs missing h)
    | inr there ↦ there
  ]
    where
      missed : (xs : List A) → select p xs ≡ none → has p xs ≡ true → ⊥
      missed [] e h = cc
      missed (x ∷ xs) e h = ground (arith, missed xs, e, h)

  pub select-some_test : (p : A → Bool) (xs : List A) (x : A) → select p xs ≡ some x → p x ≡ true
  select-some_test p [] x h = cc
  select-some_test p (y ∷ xs) x h = ground (arith, select-some_test p xs x)

  pub affected-has : (p : A → Bool) (xs : List A) → ltb 0 (affected p xs) ≡ has p xs
  affected-has p [] = refl
  affected-has p (x ∷ xs) = ground (arith, affected-has p xs)

  pub has_weaken :
      (p q : A → Bool) (xs : List A)
      → ((x : A) → p x ≡ true → q x ≡ true)
      → has p xs ≡ true
      → has q xs ≡ true
  has_weaken p q [] h k = cc
  has_weaken p q (x ∷ xs) h k = ground (arith, has_weaken p q xs h, h x)

  pub Every-delete {κ} :
      (P : A → Type κ) (p : A → Bool) (xs : List A) → Every P xs → Every P (delete p xs)
  Every-delete P p [] h = h
  Every-delete P p (x ∷ xs) h = elim (Bool-cases (p x)) [
    | inl e ↦ rw (e, delete) (Every-delete P p xs h.1)
    | inr e ↦ rw (e, delete) (h.0, Every-delete P p xs h.1)
  ]

  pub Every-map {κ μ} :
      (P : A → Type κ) (Q : A → Type μ) (xs : List A)
      → ((x : A) → P x → Q x)
      → Every P xs
      → Every Q xs
  Every-map P Q [] f h = tt
  Every-map P Q (x ∷ xs) f h = (f x h.0, Every-map P Q xs f h.1)

  pub Unique-delete :
      (same : A → A → Bool) (p : A → Bool) (xs : List A)
      → Unique same xs
      → Unique same (delete p xs)
  Unique-delete same p [] h = h
  Unique-delete same p (x ∷ xs) h = elim (Bool-cases (p x)) [
    | inl e ↦ rw (e, delete) (Unique-delete same p xs h.1)
    | inr e ↦ rw (e, delete) (has-delete-false (same x) p xs h.0, Unique-delete same p xs h.1)
  ]

module _ {ℓ} {A : Type ℓ} where
  pub delete-has-false : (p : A → Bool) (xs : List A) → has p xs ≡ false → delete p xs ≡ xs
  delete-has-false p [] h = refl
  delete-has-false p (x ∷ xs) h = ground (arith, delete-has-false p xs)
