-- ===== src/Db/Contract/Queries.antt =====
-- How the queries of sessions see the tokens after a DELETE, where token IDs are unique.
use servir.Prelude.{
  String, ◌==◌, eq_of_test, ◌≡◌, refl, ap, Bool, true, false, Option, ℤ, lt_ℤ, List, [], ◌∷◌,
  Bool-cases, inl, inr, arith,
}
use mathlib.Core.Path.{subst}
use mathlib.Core.Option
use servir.Sql.{select, has, delete, Unique}
use servir.Sql.Laws.{has-delete-false, select-has-false, select-delete_other}
use servir.Db.Schema.{TokenRow, jti_is, owner_is, is_live}
use servir.Db.Contract.{Session, usable, unless_owned}

abbrev pub session_of : TokenRow → Session
session_of r = record { owner = r.user_id; expires_at = r.expires_at }

abbrev pub session_in : List TokenRow → String → Option Session
session_in rows j = Option.map session_of (select (jti_is j) rows)

-- No other row has the ID of the first.
unique_head :
    (r : TokenRow) (rows : List TokenRow) (j : String)
    → (r.jti == j) ≡ true
    → has (jti_is r.jti) rows ≡ false
    → has (jti_is j) rows ≡ false
unique_head r rows j same u = subst (λ j. has (jti_is j) rows ≡ false) (eq_of_test r.jti j same) u

no_live :
    (j : String) (now : ℤ) (rows : List TokenRow)
    → has (jti_is j) rows ≡ false
    → has (is_live j now) rows ≡ false
no_live j now [] h = refl
no_live j now (r ∷ rows) h = ground (arith, no_live j now rows)

pub has-live :
    (j : String) (now : ℤ) (rows : List TokenRow)
    → Unique (λ r. jti_is r.jti) rows
    → has (is_live j now) rows ≡ usable now (session_in rows j)
has-live j now [] u = refl
has-live j now (r ∷ rows) (u, us) = elim (Bool-cases (r.jti == j)) [
  | inl same ↦
      let none_left = no_live j now rows (unique_head r rows j same u) in
      elim (Bool-cases (lt_ℤ now r.expires_at)) [
        | inl live ↦ rw (same, live) refl
        | inr dead ↦ rw (same, dead) none_left
      ]
  | inr other ↦ rw (other, has) (has-live j now rows us)
]

-- A DELETE of another ID.
pub session-delete_other :
    (j jti : String) (now : ℤ) (rows : List TokenRow)
    → (jti == j) ≡ false
    → session_in (delete (is_live jti now) rows) j ≡ session_in rows j
session-delete_other j jti now rows other = ap (Option.map session_of) (
    select-delete_other (jti_is j) (is_live jti now) rows
      (λ r live. let same : r.jti ≡ jti = eq_of_test r.jti jti (ground arith) in rw same other))

pub delete-none :
    (p : TokenRow → Bool) (rows : List TokenRow) → has p rows ≡ false → delete p rows ≡ rows
delete-none p [] h = refl
delete-none p (r ∷ rows) h = ground (arith, delete-none p rows)

pub session-delete_owner :
    (j id : String) (rows : List TokenRow)
    → Unique (λ r. jti_is r.jti) rows
    → session_in (delete (owner_is id) rows) j ≡ unless_owned id (session_in rows j)
session-delete_owner j id [] u = refl
session-delete_owner j id (r ∷ rows) (u, us) = elim (Bool-cases (r.jti == j)) [
  | inl same ↦ elim (Bool-cases (r.user_id == id)) [
    | inl owned ↦
        rw (owned, delete, same, owned)
          (ap (Option.map session_of) (
            select-has-false (jti_is j) (delete (owner_is id) rows)
              (has-delete-false (jti_is j) (owner_is id) rows (unique_head r rows j same u))))
    | inr foreign ↦ rw (foreign, delete, same, foreign) refl
  ]
  | inr other ↦ elim (Bool-cases (r.user_id == id)) [
    | inl owned ↦ rw (owned, delete, other) (session-delete_owner j id rows us)
    | inr foreign ↦ rw (foreign, delete, other) (session-delete_owner j id rows us)
  ]
]
