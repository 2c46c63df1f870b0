-- ===== src/Server/Axum/Sample/Routes.antt =====
-- The routes of the concrete router, as a list of methods and paths.
use servir.Prelude.{
  String, ◌==◌, eq_refl, eq_of_test, ◌≡◌, refl, sym, Bool, Bool-cases, true, false, ◌⊎◌, inl, inr,
  List, [], ◌∷◌, ◌++◌, if◌then◌else◌, arith,
}
use servir.Sql.{has}
use servir.Server.Axum.{Method, get, post, other}

pub record Route : Type 0 where
  pub method : Method
  pub path : String

abbrev pub same_method : Method → Method → Bool
same_method get get = true
same_method post post = true
same_method other other = true
same_method _ _ = false

pub same_method_refl : (m : Method) → same_method m m ≡ true
same_method_refl get = refl
same_method_refl post = refl
same_method_refl other = refl

eq_of_same_method : (m n : Method) → same_method m n ≡ true → n ≡ m
eq_of_same_method get get h = refl
eq_of_same_method post post h = refl
eq_of_same_method other other h = refl
eq_of_same_method get post h = cc
eq_of_same_method get other h = cc
eq_of_same_method post get h = cc
eq_of_same_method post other h = cc
eq_of_same_method other get h = cc
eq_of_same_method other post h = cc

-- The route has the method and the path.
abbrev pub is_at : Method → String → Route → Bool
is_at m p r = if same_method r.method m then r.path == p else false

pub is_at_refl : (m : Method) (p : String) → is_at m p (record { method = m; path = p }) ≡ true
is_at_refl m p = rw (same_method_refl m) (eq_refl p)

-- Whether a route of the first list is in the second.
abbrev pub overlap : List Route → List Route → Bool
overlap xs ys = has (λ x. has (is_at x.method x.path) ys) xs

pub has-head :
    (m n : Method) (p q : String) (rs : List Route)
    → has (is_at n q) (record { method = m; path = p } ∷ rs) ≡ true
    → ((n ≡ m) × (q ≡ p)) ⊎ (has (is_at n q) rs ≡ true)
has-head m n p q rs h = elim (Bool-cases (same_method m n)) [
  | inr differs ↦ inr (ground (arith, h, differs))
  | inl same ↦ elim (Bool-cases (p == q)) [
    | inr differs ↦ inr (ground (arith, h, same, differs))
    | inl path ↦ inl (eq_of_same_method m n same, sym (eq_of_test p q path))
  ]
]

pub has-tail :
    (f : Route → Bool) (x : Route) (rs : List Route) → has f rs ≡ true → has f (x ∷ rs) ≡ true
has-tail f x rs h = elim (Bool-cases (f x)) [ inl met ↦ rw met refl | inr unmet ↦ rw unmet h ]

pub has-append :
    (f : Route → Bool) (xs ys : List Route)
    → has f (xs ++ ys) ≡ true
    → (has f xs ≡ true) ⊎ (has f ys ≡ true)
has-append f [] ys h = inr h
has-append f (x ∷ xs) ys h = elim (Bool-cases (f x)) [
  | inl met ↦ inl (rw met refl)
  | inr unmet ↦ elim (has-append f xs ys (ground (arith, h, unmet))) [
    | inl left ↦ inl (rw unmet left)
    | inr right ↦ inr right
  ]
]

pub has-append_left :
    (f : Route → Bool) (xs ys : List Route) → has f xs ≡ true → has f (xs ++ ys) ≡ true
has-append_left f [] ys h = cc
has-append_left f (x ∷ xs) ys h = elim (Bool-cases (f x)) [
  | inl met ↦ rw met refl
  | inr unmet ↦ rw unmet (has-append_left f xs ys (ground (arith, h, unmet)))
]

-- Lists that share no route do not overlap.
pub overlap-apart :
    (xs ys : List Route)
    → ((m : Method) (p : String) → has (is_at m p) xs ≡ true → has (is_at m p) ys ≡ false)
    → overlap xs ys ≡ false
overlap-apart [] ys apart = refl
overlap-apart (x ∷ xs) ys apart =
    let here : has (is_at x.method x.path) ys ≡ false =
      apart x.method x.path (rw (is_at_refl x.method x.path) refl) in
    rw here (overlap-apart xs ys (λ m p h. apart m p (has-tail (is_at m p) x xs h)))

pub overlap-shared :
    (xs ys : List Route) (m : Method) (p : String)
    → has (is_at m p) xs ≡ true
    → has (is_at m p) ys ≡ true
    → overlap xs ys ≡ true
overlap-shared [] ys m p h k = cc
overlap-shared (x ∷ xs) ys m p h k = elim (has-head x.method m x.path p xs h) [
  | inl (method, path) ↦
      let here : has (is_at x.method x.path) ys ≡ true = rw (← method, ← path) k in rw here refl
  | inr later ↦
      has-tail (λ x. has (is_at x.method x.path) ys) x xs (overlap-shared xs ys m p later k)
]
