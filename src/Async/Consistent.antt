-- ===== src/Async/Consistent.antt =====
-- The token IDs that requests have pending, beside the tables, and what a move of one request does to them.
use servir.Prelude.{ℕ, suc, ◌<◌, ◌≡◌, ◌≢◌, refl, sym, ◌∙◌, Option, none, some, ◌⊎◌, inl, inr, arith}
use mathlib.Core.Path.{subst}
use native.Mathlib.Decide.{ℕ_discrete}
use servir.Sql.{Every}
use servir.Sql.Laws.{Every-map, Every-delete}
use servir.System.{System}
use servir.System.Actions.{World}
use servir.Db.Schema.{Tables, TokenRow, owner_is, is_live}
use servir.Db.History.{Step}
use servir.Db.Validity.{IsValid, Step-IsValid}
use servir.Async.Pool.{update, update-same, update-other}
use servir.Async.Moves.{Move, waits, forgets, draws, adds_user, stores, spends, revokes}

module _ (sys : System) where
  -- A move is a step of the specification, if the pending ID was drawn before.
  pub Move-Step :
      {o o' : Option ℕ} {w v : World Tables}
      → ((t : ℕ) → o ≡ some t → t < w.tick)
      → Move sys o w v o'
      → Step sys 0 w v
  Move-Step drawn waits = Step.elapsed
  Move-Step drawn forgets = Step.elapsed
  Move-Step drawn draws = Step.elapsed
  Move-Step drawn (adds_user row d a b) = Step.user_added row d a b
  Move-Step drawn (stores t row o id a b) =
      Step.token_added row (record { at = t; since = omega arith; before = drawn t o; drawn = id })
        a b
  Move-Step drawn (spends jti now) = Step.token_spent jti now
  Move-Step drawn (revokes id) = Step.tokens_revoked id

  pub Move-tick : {o o' : Option ℕ} {w v : World Tables} → Move sys o w v o' → v.tick ≡ suc w.tick
  Move-tick waits = refl
  Move-tick forgets = refl
  Move-tick draws = refl
  Move-tick (adds_user row d a b) = refl
  Move-tick (stores t row o id a b) = refl
  Move-tick (spends jti now) = refl
  Move-tick (revokes id) = refl

  -- What is pending after a move was pending before it, or was drawn by it.
  Move-pending :
      {o o' : Option ℕ} {w v : World Tables} (t : ℕ)
      → Move sys o w v o'
      → o' ≡ some t
      → (o ≡ some t) ⊎ (t ≡ w.tick)
  Move-pending t waits e = inl e
  Move-pending t forgets e = absurd (cc)
  Move-pending t draws e = inr (cc)
  Move-pending t (adds_user row d a b) e = inl e
  Move-pending t (stores t' row o id a b) e = absurd (cc)
  Move-pending t (spends jti now) e = inl e
  Move-pending t (revokes id) e = inl e

  -- A row after a move was there before, or has the ID that was pending.
  Move-Every :
      {o o' : Option ℕ} {w v : World Tables} (P : TokenRow → Type 0)
      → Move sys o w v o'
      → Every P w.db.refresh_tokens
      → ((t : ℕ) (row : TokenRow) → o ≡ some t → row.jti ≡ sys.uuid t → o' ≡ none → P row)
      → Every P v.db.refresh_tokens
  Move-Every P waits h k = h
  Move-Every P forgets h k = h
  Move-Every P draws h k = h
  Move-Every P (adds_user row d a b) h k = h
  Move-Every P (stores t row o id a b) h k = (k t row o id refl, h)
  Move-Every {w} P (spends jti now) h k = Every-delete P (is_live jti now) w.db.refresh_tokens h
  Move-Every {w} P (revokes id) h k = Every-delete P (owner_is id) w.db.refresh_tokens h

-- No request has the ID of this tick pending.
abbrev pub IsFree : (ℕ → Option ℕ) → ℕ → Type 0
IsFree pending t = (i : ℕ) → pending i ≢ some t

-- The row's ID was drawn, and is not pending.
pub record IsSettled (sys : System) (now : ℕ) (pending : ℕ → Option ℕ) (row : TokenRow)
    : Type 0 where
  pub at : ℕ
  pub drawn : row.jti ≡ sys.uuid at
  pub before : at < now
  pub free : IsFree pending at

-- The pending IDs of all requests, and the tables.
pub record IsConsistent (sys : System) (w : World Tables) (pending : ℕ → Option ℕ) : Type 0 where
  pub drawn : (i t : ℕ) → pending i ≡ some t → t < w.tick
  pub distinct : (i j t : ℕ) → pending i ≡ some t → pending j ≡ some t → i ≡ j
  pub settled : Every (IsSettled sys w.tick pending) w.db.refresh_tokens
  pub valid : IsValid w.db

module _ (sys : System) {w v : World Tables} {pending : ℕ → Option ℕ}
    (c : IsConsistent sys w pending) (i : ℕ) {o : Option ℕ}
    (move : Move sys (pending i) w v o) where
  abbrev new : ℕ → Option ℕ
  new = update pending i o

  -- What is pending now was pending before, or was drawn by this move.
  origin : (j t : ℕ) → new j ≡ some t → (pending j ≡ some t) ⊎ ((i ≡ j) × (t ≡ w.tick))
  origin j t e = elim (ℕ_discrete i j) [
    | yes same ↦ elim (Move-pending sys t move (sym (update-same pending i o j same) ∙ e)) [
      | inl old ↦ inl (subst (λ k. pending k ≡ some t) same old)
      | inr now ↦ inr (same, now)
    ]
    | no other ↦ inl (sym (update-other pending i o j other) ∙ e)
  ]

  -- An ID that was drawn before and was free stays free.
  pub IsFree-move : (t : ℕ) → t < w.tick → IsFree pending t → IsFree new t
  IsFree-move t before free j e = elim (origin j t e) [
    | inl old ↦ free j old
    | inr (same, now) ↦ omega (arith, before, now)
  ]

  IsSettled-move :
      (row : TokenRow) → IsSettled sys w.tick pending row → IsSettled sys v.tick new row
  IsSettled-move row h = record {
    at = h.at;
    drawn = h.drawn;
    before = omega (arith, h.before, Move-tick sys move);
    free = IsFree-move h.at h.before h.free;
  }

  distinct-move : (j k t : ℕ) → new j ≡ some t → new k ≡ some t → j ≡ k
  distinct-move j k t e e' = elim (origin j t e) [
    | inl old ↦ elim (origin k t e') [
      | inl old' ↦ c.distinct j k t old old'
      | inr (same, now) ↦ absurd (omega (arith, c.drawn j t old, now))
    ]
    | inr (same, now) ↦ elim (origin k t e') [
      | inl old' ↦ absurd (omega (arith, c.drawn k t old', now))
      | inr (same', now') ↦ sym same ∙ same'
    ]
  ]

  drawn-move : (j t : ℕ) → new j ≡ some t → t < v.tick
  drawn-move j t e = elim (origin j t e) [
    | inl old ↦ omega (arith, c.drawn j t old, Move-tick sys move)
    | inr (same, now) ↦ omega (arith, now, Move-tick sys move)
  ]

  -- The ID that is stored by this move is pending no more.
  stored-IsFree : (t : ℕ) → pending i ≡ some t → o ≡ none → IsFree new t
  stored-IsFree t was gone j e = elim (ℕ_discrete i j) [
    | yes same ↦ let e' : o ≡ some t = sym (update-same pending i o j same) ∙ e in absurd (cc)
    | no other ↦ other (c.distinct i j t was (sym (update-other pending i o j other) ∙ e))
  ]

  pub IsConsistent-move : IsConsistent sys v new
  IsConsistent-move = record {
    drawn = drawn-move;
    distinct = distinct-move;
    settled =
        Move-Every sys (IsSettled sys v.tick new) move
          (Every-map _ _ w.db.refresh_tokens IsSettled-move c.settled)
          (λ t row was id gone. record {
            at = t;
            drawn = id;
            before = omega (arith, c.drawn i t was, Move-tick sys move);
            free = stored-IsFree t was gone;
          });
    valid = Step-IsValid sys (Move-Step sys (c.drawn i) move) c.valid;
  }
