-- ===== src/Async/Invariant.antt =====
-- The invariant of a pool of requests: on the schema, on the IDs of stored tokens, and on those that
-- requests have drawn and not stored yet.
use servir.Prelude.{
  ℕ, ◌≤◌, ◌<◌, test_of_ne, ◌≡◌, ◌≢◌, refl, sym, ◌∙◌, ap, false, Option, none, some, ◌⊎◌, inl, inr,
  List, arith,
}
use native.Mathlib.Decide.{ℕ_discrete}
use servir.Sql.{has}
use servir.Sql.Laws.{Every-map, has-delete-false}
use servir.System.{System}
use servir.System.Laws.{UuidLaws}
use servir.System.Actions.{World}
use servir.Response.{Response}
use servir.Db.Schema.{Tables, jti_is, owner_is, is_live}
use servir.Db.History.{Step}
use servir.Db.Validity.{IsValid}
use servir.Async.Proc.{Proc, done}
use servir.Async.Pool.{
  Pool, update, update-same, update-other, next_process, next_world, turn, interleave,
  interleave-keeps, arriving,
}
use servir.Async.Safe.{serve-Safe}
use servir.Auth.Config.{AuthConfig}
use servir.Auth.Service.{Request}
use servir.Db.Persistence.{IsGenuine}
use servir.Async.Moves.{
  Move, waits, forgets, draws, adds_user, stores, spends, revokes, Safe, ends, goes,
}
use servir.Async.Consistent.{
  Move-Step, Move-tick, IsFree, IsConsistent, IsFree-move, IsConsistent-move,
}

-- The requests make moves only, with these IDs pending.
pub record IsSound (sys : System) (s : Pool) : Type 0 where
  pub pending : ℕ → Option ℕ
  pub consistent : IsConsistent sys s.world pending
  pub safe : (i : ℕ) → Safe sys (λ o m r. Unit {0}) (pending i) s.world.tick (s.requests i)

Safe-later :
    {sys : System} {R : Type 0} {o : Option ℕ} {m n : ℕ} {p : Proc Tables R}
    → m ≤ n
    → Safe sys (λ o m r. Unit {0}) o m p
    → Safe sys (λ o m r. Unit {0}) o n p
Safe-later {n} h (ends o m r q) = ends o n r tt
Safe-later {n} h (goes o m next rest after moves k) =
    goes o n next rest after (λ w late. moves w (omega (arith, h, late)))
      (λ w late. k w (omega (arith, h, late)))

module _ (sys : System) (uuids : UuidLaws sys) where
  -- An ID that was drawn, and is free and not stored, is not stored by a move.
  Move-absent :
      {o o' : Option ℕ} {w v : World Tables} (t : ℕ)
      → o ≢ some t
      → Move sys o w v o'
      → has (jti_is (sys.uuid t)) w.db.refresh_tokens ≡ false
      → has (jti_is (sys.uuid t)) v.db.refresh_tokens ≡ false
  Move-absent t free waits h = h
  Move-absent t free forgets h = h
  Move-absent t free draws h = h
  Move-absent t free (adds_user row d a b) h = h
  Move-absent t free (stores t' row o id a b) h =
      rw
        (test_of_ne row.jti (sys.uuid t)
          (λ e. let same : t' ≡ t = uuids.fresh t' t (sym id ∙ e) in free (o ∙ ap some same)))
        h
  Move-absent {w} t free (spends jti now) h =
      has-delete-false (jti_is (sys.uuid t)) (is_live jti now) w.db.refresh_tokens h
  Move-absent {w} t free (revokes id) h =
      has-delete-false (jti_is (sys.uuid t)) (owner_is id) w.db.refresh_tokens h

  -- A turn, seen from the invariant.
  pub record IsTurn (s : Pool) (sound : IsSound sys s) (s' : Pool) : Type 0 where
    pub sound' : IsSound sys s'
    pub steps : (s'.world ≡ s.world) ⊎ Step sys 0 s.world s'.world
    pub later : s.world.tick ≤ s'.world.tick
    pub free : (t : ℕ) → t < s.world.tick → IsFree sound.pending t → IsFree sound'.pending t
    pub absent :
        (t : ℕ)
        → IsFree sound.pending t
        → has (jti_is (sys.uuid t)) s.world.db.refresh_tokens ≡ false
        → has (jti_is (sys.uuid t)) s'.world.db.refresh_tokens ≡ false

  module _ (s : Pool) (sound : IsSound sys s) (i : ℕ) where
    -- Request `i`, if its process is `p`.
    abbrev resumed : Proc Tables Response → Pool
    resumed p = record {
      world = next_world p s.world;
      requests = update s.requests i (next_process p s.world);
    }

    -- All processes are safe, if that of `i` is, and the others' were before.
    all-Safe :
        (v : World Tables) (o : Option ℕ) (p : Proc Tables Response)
        → s.world.tick ≤ v.tick
        → Safe sys (λ o m r. Unit {0}) o v.tick p
        → (j : ℕ)
        → Safe sys (λ o m r. Unit {0}) (update sound.pending i o j) v.tick (update s.requests i p j)
    all-Safe v o p late h j = elim (ℕ_discrete i j) [
      | yes same ↦ rw (update-same sound.pending i o j same, update-same s.requests i p j same) h
      | no other ↦
          rw (update-other sound.pending i o j other, update-other s.requests i p j other)
            (Safe-later late (sound.safe j))
    ]

    -- A request that has ended stays as it is.
    ended :
        (r : Response) (j : ℕ)
        → Safe sys
            (λ o m r. Unit {0})
            (sound.pending j)
            s.world.tick
            (update s.requests i (done r) j)
    ended r j = elim (ℕ_discrete i j) [
      | yes same ↦ rw (update-same s.requests i (done r) j same) (ends _ _ r tt)
      | no other ↦ rw (update-other s.requests i (done r) j other) (sound.safe j)
    ]

    turned :
        (p : Proc Tables Response)
        → Safe sys (λ o m r. Unit {0}) (sound.pending i) s.world.tick p
        → IsTurn s sound (resumed p)
    turned p (ends o m r q) = record {
      sound' = record { pending = sound.pending; consistent = sound.consistent; safe = ended r };
      steps = inl refl;
      later = omega arith;
      free = λ t before free. free;
      absent = λ t free h. h;
    }
    turned p (goes o m next rest after moves k) =
        let w = s.world in
        let move = moves w (omega arith) in
        let ticks = Move-tick sys move in
        record {
          sound' = record {
            pending = update sound.pending i (after w);
            consistent = IsConsistent-move sys sound.consistent i move;
            safe =
                all-Safe (next w) (after w) (rest w) (omega (arith, ticks))
                  (rw ticks (k w (omega arith)));
          };
          steps = inr (Move-Step sys (sound.consistent.drawn i) move);
          later = omega (arith, ticks);
          free = IsFree-move sys sound.consistent i move;
          absent = λ t free. Move-absent t (free i) move;
        }

    pub turn-IsTurn : IsTurn s sound (turn i s)
    turn-IsTurn = turned (s.requests i) (sound.safe i)

module _ (sys : System) (uuids : UuidLaws sys) where
  -- Every interleaving keeps the requests sound.
  pub interleave-IsSound :
      (order : List ℕ) (s : Pool) → IsSound sys s → IsSound sys (interleave order s)
  interleave-IsSound =
      interleave-keeps (IsSound sys) (λ i s sound. (turn-IsTurn sys uuids s sound i).sound')

  -- At the start, where the stored IDs were drawn before, nothing is pending.
  pub arriving-IsSound :
      (config : AuthConfig) (requests : ℕ → Request) (w : World Tables)
      → IsValid w.db
      → IsGenuine sys w
      → IsSound sys (arriving sys config requests w)
  arriving-IsSound config requests w valid genuine = record {
    pending = λ i. none;
    consistent = record {
      drawn = λ i t e. absurd (cc);
      distinct = λ i j t e e'. absurd (cc);
      settled =
          Every-map _ _ w.db.refresh_tokens
            (λ row d. record {
              at = d.at;
              drawn = d.drawn;
              before = d.before;
              free = λ i e. absurd (cc);
            })
            genuine;
      valid = valid;
    };
    safe = λ i. serve-Safe sys config (requests i);
  }

  -- However any requests interleave at the granularity of single statements, and whatever faults the
  -- database has, the tables meet the constraints of the schema, if they did so at the start and held
  -- only token IDs that the program drew, and UUIDs are fresh.
  pub interleave-IsValid :
      (config : AuthConfig) (requests : ℕ → Request) (w : World Tables) (order : List ℕ)
      → IsValid w.db
      → IsGenuine sys w
      → IsValid (interleave order (arriving sys config requests w)).world.db
  interleave-IsValid config requests w order valid genuine =
      (interleave-IsSound order _
        (arriving-IsSound config requests w valid genuine)).consistent.valid
