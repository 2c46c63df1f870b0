-- ===== src/Db/Persistence.antt =====
-- src/db/auth.rs: what no history undoes. A user's row stays as it is, and a refresh token that is
-- gone does not come back.
use servir.Prelude.{
  ℕ, ◌≤◌, String, ◌==◌, eq_of_test, test_of_ne, ◌≡◌, sym, ◌∙◌, Bool, true, false, List, [], ◌∷◌,
  some, arith, Bool-cases, inl, inr,
}
use servir.Sql.{has, select, Every}
use servir.Sql.Laws.{has-delete-false, Every-map, Every-delete, select-some-has}
use servir.System.{System}
use servir.System.Laws.{UuidLaws}
use servir.System.Actions.{World}
use servir.Db.Schema.{Tables, UserRow, TokenRow, user_id_is, username_is, jti_is, owner_is, is_live}
use servir.Db.History.{
  Step, elapsed, user_added, token_added, token_spent, tokens_revoked, secret_added, Steps, here,
  next, Steps-tick, Drawn, Drawn-later,
}

-- A row whose test none of the rows met does not hide a row that was there.
select_cons :
    (p : UserRow → Bool) (row r : UserRow) (rows : List UserRow)
    → (p row ≡ true → has p rows ≡ false)
    → select p rows ≡ some r
    → select p (row ∷ rows) ≡ some r
select_cons p row r rows h e = ground (arith, select-some-has p rows r)

module _ (sys : System) where
  id-Step :
      {base : ℕ} {w v : World Tables} (id : String) (r : UserRow)
      → Step sys base w v
      → select (user_id_is id) w.db.users ≡ some r
      → select (user_id_is id) v.db.users ≡ some r
  id-Step {w} id r (user_added row d a b) e =
      select_cons (user_id_is id) row r w.db.users (λ same. rw (← eq_of_test row.id id same) a) e
  id-Step id r elapsed e = e
  id-Step id r (token_added row d a b) e = e
  id-Step id r (token_spent jti now) e = e
  id-Step id r (tokens_revoked i) e = e
  id-Step id r (secret_added row a) e = e

  name-Step :
      {base : ℕ} {w v : World Tables} (name : String) (r : UserRow)
      → Step sys base w v
      → select (username_is name) w.db.users ≡ some r
      → select (username_is name) v.db.users ≡ some r
  name-Step {w} name r (user_added row d a b) e =
      select_cons (username_is name) row r w.db.users
        (λ same. rw (← eq_of_test row.username name same) b) e
  name-Step name r elapsed e = e
  name-Step name r (token_added row d a b) e = e
  name-Step name r (token_spent jti now) e = e
  name-Step name r (tokens_revoked i) e = e
  name-Step name r (secret_added row a) e = e

  pub Steps-user_by_id :
      {base : ℕ} {w v : World Tables} (id : String) (r : UserRow)
      → Steps sys base w v
      → select (user_id_is id) w.db.users ≡ some r
      → select (user_id_is id) v.db.users ≡ some r
  Steps-user_by_id id r here e = e
  Steps-user_by_id id r (next h s) e = id-Step id r s (Steps-user_by_id id r h e)

  pub Steps-user_by_name :
      {base : ℕ} {w v : World Tables} (name : String) (r : UserRow)
      → Steps sys base w v
      → select (username_is name) w.db.users ≡ some r
      → select (username_is name) v.db.users ≡ some r
  Steps-user_by_name name r here e = e
  Steps-user_by_name name r (next h s) e = name-Step name r s (Steps-user_by_name name r h e)

  -- Every stored token ID was drawn by the program.
  abbrev pub IsGenuine : World Tables → Type 0
  IsGenuine w = Every (λ r. Drawn sys 0 w.tick r.jti) w.db.refresh_tokens

  older :
      {m n : ℕ} (rows : List TokenRow)
      → m ≤ n
      → Every (λ r. Drawn sys 0 m r.jti) rows
      → Every (λ r. Drawn sys 0 n r.jti) rows
  older rows h = Every-map _ _ rows (λ r. Drawn-later sys h)

  IsGenuine-Step : {base : ℕ} {w v : World Tables} → Step sys base w v → IsGenuine w → IsGenuine v
  IsGenuine-Step {w} elapsed h = older w.db.refresh_tokens (omega arith) h
  IsGenuine-Step {w} (user_added row d a b) h = older w.db.refresh_tokens (omega arith) h
  IsGenuine-Step {w} (token_added row d a b) h = (
    record { at = d.at; since = omega arith; before = omega (arith, d.before); drawn = d.drawn },
    older w.db.refresh_tokens (omega arith) h,
  )
  IsGenuine-Step {w} (token_spent j now) h =
      Every-delete _ (is_live j now) w.db.refresh_tokens (older w.db.refresh_tokens (omega arith) h)
  IsGenuine-Step {w} (tokens_revoked id) h =
      Every-delete _ (owner_is id) w.db.refresh_tokens (older w.db.refresh_tokens (omega arith) h)
  IsGenuine-Step {w} (secret_added row a) h = older w.db.refresh_tokens (omega arith) h

  pub Steps-IsGenuine :
      {base : ℕ} {w v : World Tables} → Steps sys base w v → IsGenuine w → IsGenuine v
  Steps-IsGenuine here h = h
  Steps-IsGenuine (next hist s) h = IsGenuine-Step s (Steps-IsGenuine hist h)

  -- So is one that is found among them.
  pub Drawn-of_has :
      (base : ℕ) (jti : String) (rows : List TokenRow)
      → Every (λ r. Drawn sys 0 base r.jti) rows
      → has (jti_is jti) rows ≡ true
      → Drawn sys 0 base jti
  Drawn-of_has base jti [] h e = absurd (cc)
  Drawn-of_has base jti (r ∷ rows) h e = elim (Bool-cases (r.jti == jti)) [
    | inl same ↦ rw (← eq_of_test r.jti jti same) h.0
    | inr other ↦ Drawn-of_has base jti rows h.1 (ground arith)
  ]

  -- The token was issued, and is not among the stored ones.
  pub record IsSpent (jti : String) (w : World Tables) : Type 0 where
    pub issued : Drawn sys 0 w.tick jti
    pub gone : has (jti_is jti) w.db.refresh_tokens ≡ false

  module _ (uuids : UuidLaws sys) where
    -- IDs drawn before and since a tick differ.
    pub Drawn-apart :
        {base m : ℕ} (i j : String) → Drawn sys 0 base i → Drawn sys base m j → (j == i) ≡ false
    Drawn-apart i j d e = test_of_ne j i (λ same.
        let at : d.at ≡ e.at = uuids.fresh d.at e.at (sym d.drawn ∙ sym same ∙ e.drawn) in
        omega (arith, d.before, e.since))

    gone-Step :
        {base : ℕ} {w v : World Tables} (jti : String)
        → Drawn sys 0 base jti
        → Step sys base w v
        → has (jti_is jti) w.db.refresh_tokens ≡ false
        → has (jti_is jti) v.db.refresh_tokens ≡ false
    gone-Step jti i (token_added row d a b) h = rw (Drawn-apart jti row.jti i d) h
    gone-Step {w} jti i (token_spent j now) h =
        has-delete-false (jti_is jti) (is_live j now) w.db.refresh_tokens h
    gone-Step {w} jti i (tokens_revoked id) h =
        has-delete-false (jti_is jti) (owner_is id) w.db.refresh_tokens h
    gone-Step jti i elapsed h = h
    gone-Step jti i (user_added row d a b) h = h
    gone-Step jti i (secret_added row a) h = h

    gone-Steps :
        {base : ℕ} {w v : World Tables} (jti : String)
        → Drawn sys 0 base jti
        → Steps sys base w v
        → has (jti_is jti) w.db.refresh_tokens ≡ false
        → has (jti_is jti) v.db.refresh_tokens ≡ false
    gone-Steps jti i here h = h
    gone-Steps jti i (next hist s) h = gone-Step jti i s (gone-Steps jti i hist h)

    -- Over a request that begins after the token was drawn.
    pub Steps-IsSpent :
        {w v : World Tables} (jti : String) → Steps sys w.tick w v → IsSpent jti w → IsSpent jti v
    Steps-IsSpent jti hist h = record {
      issued = Drawn-later sys (Steps-tick sys hist) h.issued;
      gone = gone-Steps jti h.issued hist h.gone;
    }
