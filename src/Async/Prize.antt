-- ===== src/Async/Prize.antt =====
-- What two requests race for, as a record of the calls that win it and the state in which it was won; and
-- the race.
use servir.Prelude.{ℕ, ◌≡◌, ◌≢◌, sym, ◌∙◌, true, false, Bool-cases, ◌⊎◌, inl, inr, List}
use mathlib.Core.Path.{subst}
use native.Mathlib.Decide.{ℕ_discrete}
use servir.System.{System}
use servir.System.Laws.{UuidLaws}
use servir.System.Actions.{World}
use servir.Response.{Response}
use servir.Db.Schema.{Tables}
use servir.Db.Validity.{IsValid}
use servir.Async.Proc.{Proc, done}
use servir.Async.Pool.{
  Pool, update-same, update-other, next_process, next_world, turn, interleave, interleave-keeps,
}
use servir.Async.Invariant.{IsSound, IsTurn, turn-IsTurn}
use servir.Async.Race.{Win, Needs, ends, goes}

-- What requests race for: the calls that win it, and the state in which it has been won, which every
-- turn keeps and in which no call wins it.
pub record Prize (sys : System) (uuids : UuidLaws sys) : Type 1 where
  pub won : Win
  pub Taken : (s : Pool) → IsSound sys s → Type 0
  pub wins :
      (s s' : Pool) (sound : IsSound sys s) (t : IsTurn sys uuids s sound s')
      → won s.world s'.world ≡ true
      → Taken s' t.sound'
  pub stays :
      (s s' : Pool) (sound : IsSound sys s) (t : IsTurn sys uuids s sound s')
      → Taken s sound
      → Taken s' t.sound'
  pub closed :
      (s : Pool) (sound : IsSound sys s) (v : World Tables) → Taken s sound → won s.world v ≡ false

module _ (sys : System) (uuids : UuidLaws sys) (prize : Prize sys uuids)
    (Q : Response → Type 0) where
  abbrev In : Pool → ℕ → Type 0
  In s i = Needs prize.won Q (s.requests i)

  resumed :
      (p : Proc Tables Response) (w : World Tables)
      → IsValid w.db
      → prize.won w (next_world p w) ≡ false
      → Needs prize.won Q p
      → Needs prize.won Q (next_process p w)
  resumed p w valid lost (ends r q) = ends r q
  resumed p w valid lost (goes next rest h) = h w valid lost

  other_turn : (s : Pool) (m i : ℕ) → m ≢ i → In s i → In (turn m s) i
  other_turn s m i other h =
      rw (update-other s.requests m (next_process (s.requests m) s.world) i other) h

  lost_turn :
      (s : Pool) (m i : ℕ)
      → IsValid s.world.db
      → prize.won s.world (turn m s).world ≡ false
      → In s i
      → In (turn m s) i
  lost_turn s m i valid lost h = elim (ℕ_discrete m i) [
    | yes same ↦
        rw (update-same s.requests m (next_process (s.requests m) s.world) i same)
          (resumed (s.requests m) s.world valid lost (subst (λ j. In s j) (sym same) h))
    | no other ↦ other_turn s m i other h
  ]

  -- Two requests: both are in the race, or it is over and one of them has not won it.
  record Contest (i k : ℕ) (s : Pool) : Type 0 where
    pub sound : IsSound sys s
    pub stands : (In s i × In s k) ⊎ (prize.Taken s sound × (In s i ⊎ In s k))

  module _ (i k : ℕ) (apart : i ≢ k) (m : ℕ) (s : Pool) where
    one_other : In s i → In s k → In (turn m s) i ⊎ In (turn m s) k
    one_other a b = elim (ℕ_discrete m i) [
      | yes same ↦ inr (other_turn s m k (λ e. apart (sym same ∙ e)) b)
      | no other ↦ inl (other_turn s m i other a)
    ]

    Contest-turn : Contest i k s → Contest i k (turn m s)
    Contest-turn c =
        let t = turn-IsTurn sys uuids s c.sound m in
        let valid = c.sound.consistent.valid in
        record {
          sound = t.sound';
          stands = elim c.stands [
            | inl (a, b) ↦ elim (Bool-cases (prize.won s.world (turn m s).world)) [
              | inl won ↦ inr (prize.wins s (turn m s) c.sound t won, one_other a b)
              | inr lost ↦ inl (lost_turn s m i valid lost a, lost_turn s m k valid lost b)
            ]
            | inr (taken, rest) ↦
                let lost = prize.closed s c.sound (turn m s).world taken in
                inr (
                  prize.stays s (turn m s) c.sound t taken,
                  elim rest [
                    | inl a ↦ inl (lost_turn s m i valid lost a)
                    | inr b ↦ inr (lost_turn s m k valid lost b)
                  ],
                )
          ];
        }

  result : (p : Proc Tables Response) (r : Response) → p ≡ done r → Needs prize.won Q p → Q r
  result p r e h = ended (subst (Needs prize.won Q) e h)
    where
      ended : Needs prize.won Q (done r) → Q r
      ended (ends r q) = q

  -- Of two requests that need the prize, one has not won it, however all requests interleave.
  pub one_loses :
      (i k : ℕ)
      → i ≢ k
      → (order : List ℕ) (s : Pool) → IsSound sys s
      → In s i
      → In s k
      → (r r' : Response) → (interleave order s).requests i ≡ done r
      → (interleave order s).requests k ≡ done r'
      → Q r ⊎ Q r'
  one_loses i k apart order s sound a b r r' e e' =
      let c =
        interleave-keeps (Contest i k) (Contest-turn i k apart) order s
          (record { sound = sound; stands = inl (a, b) }) in
      elim c.stands [
        | inl (x, y) ↦ inl (result _ r e x)
        | inr (taken, rest) ↦ elim rest [
          | inl x ↦ inl (result _ r e x)
          | inr y ↦ inr (result _ r' e' y)
        ]
      ]
