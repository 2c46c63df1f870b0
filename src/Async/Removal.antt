-- ===== src/Async/Removal.antt =====
-- src/db/auth.rs: the deletion of the row of a token ID, as what refreshes race for.
use servir.Prelude.{
  ℕ, ◌<◌, String, ◌==◌, eq_of_test, ◌≡◌, sym, ◌∙◌, Bool, true, false, not, Option, List, [], ◌∷◌,
  Bool-cases, inl, inr, arith,
}
use mathlib.Core.Path.{subst}
use servir.Sql.{has, Every}
use servir.System.{System}
use servir.System.Laws.{UuidLaws}
use servir.System.Actions.{World}
use servir.Auth.Http.{token_response_serialize}
use servir.Db.Schema.{Tables, TokenRow, jti_is}
use servir.Async.Pool.{Pool}
use servir.Async.Consistent.{IsFree, IsSettled}
use servir.Async.Invariant.{IsSound, IsTurn}
use servir.Async.Prize.{Prize}
use servir.Async.Race.{Win}

-- A call that removes the last row of the ID.
abbrev pub removes : String → Win
removes jti w v = elim (has (jti_is jti) w.db.refresh_tokens) as (λ _. Bool) [
  | true ↦ not (has (jti_is jti) v.db.refresh_tokens)
  | false ↦ false
]

removes_was :
    (jti : String) (w v : World Tables)
    → removes jti w v ≡ true
    → has (jti_is jti) w.db.refresh_tokens ≡ true
removes_was jti w v h = ground arith

removes_gone :
    (jti : String) (w v : World Tables)
    → removes jti w v ≡ true
    → has (jti_is jti) v.db.refresh_tokens ≡ false
removes_gone jti w v h = ground arith

pub removes_absent :
    (jti : String) (w v : World Tables)
    → has (jti_is jti) w.db.refresh_tokens ≡ false
    → removes jti w v ≡ false
removes_absent jti w v h = ground arith

pub removes_both :
    (jti : String) (w v : World Tables)
    → has (jti_is jti) w.db.refresh_tokens ≡ true
    → has (jti_is jti) v.db.refresh_tokens ≡ false
    → removes jti w v ≡ true
removes_both jti w v h k = ground arith

module _ (sys : System) (uuids : UuidLaws sys) (jti : String) where
  -- The ID was drawn, and is neither stored nor pending.
  pub record Taken (s : Pool) (sound : IsSound sys s) : Type 0 where
    pub at : ℕ
    pub drawn : jti ≡ sys.uuid at
    pub before : at < s.world.tick
    pub free : IsFree sound.pending at
    pub gone : has (jti_is jti) s.world.db.refresh_tokens ≡ false

  settled_of_has :
      {now : ℕ} {pending : ℕ → Option ℕ} (rows : List TokenRow)
      → Every (IsSettled sys now pending) rows
      → has (jti_is jti) rows ≡ true
      → (t : ℕ) × (jti ≡ sys.uuid t) × (t < now) × IsFree pending t
  settled_of_has [] h e = absurd (cc)
  settled_of_has (r ∷ rows) (h, hs) e = elim (Bool-cases (r.jti == jti)) [
    | inl same ↦ (h.at, sym (eq_of_test r.jti jti same) ∙ h.drawn, h.before, h.free)
    | inr other ↦ settled_of_has rows hs (ground arith)
  ]

  pub prize_wins :
      (s s' : Pool) (sound : IsSound sys s) (t : IsTurn sys uuids s sound s')
      → removes jti s.world s'.world ≡ true
      → Taken s' t.sound'
  prize_wins s s' sound t won =
      let (at, drawn, before, free) =
        settled_of_has s.world.db.refresh_tokens sound.consistent.settled
          (removes_was jti s.world s'.world won) in
      record {
        at = at;
        drawn = drawn;
        before = omega (arith, before, t.later);
        free = t.free at before free;
        gone = removes_gone jti s.world s'.world won;
      }

  pub prize_stays :
      (s s' : Pool) (sound : IsSound sys s) (t : IsTurn sys uuids s sound s')
      → Taken s sound
      → Taken s' t.sound'
  prize_stays s s' sound t taken = record {
    at = taken.at;
    drawn = taken.drawn;
    before = omega (arith, taken.before, t.later);
    free = t.free taken.at taken.before taken.free;
    gone =
        subst (λ j. has (jti_is j) s'.world.db.refresh_tokens ≡ false) (sym taken.drawn)
          (t.absent taken.at taken.free
            (subst (λ j. has (jti_is j) s.world.db.refresh_tokens ≡ false) taken.drawn taken.gone));
  }

  unfoldable pub prize : Prize sys uuids
  prize = record {
    won = removes jti;
    Taken = Taken;
    wins = prize_wins;
    stays = prize_stays;
    closed = λ s sound v taken. removes_absent jti s.world v taken.gone;
  }
