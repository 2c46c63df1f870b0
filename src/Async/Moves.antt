-- ===== src/Async/Moves.antt =====
-- src/db/auth.rs: the moves that one call of a request may make in any world, with the token ID that the
-- request has drawn and not stored yet; and the rules by which a process is made of such moves.
use servir.Prelude.{
  ℕ, suc, ◌≤◌, String, ◌≡◌, refl, sym, true, false, Bool, Option, none, some, Option-cases, inl,
  inr, Result, ok, err, ℤ, arith,
}
use mathlib.Core.Path.{subst}
use servir.Sql.{has}
use servir.System.{System}
use servir.System.Actions
use servir.System.Actions.{World, Action, SqlError, Statement, committed}
use servir.Db.Schema.{Tables, UserRow, TokenRow, user_id_is, username_is, jti_is}
use servir.Db.History.{add_user, add_token, spend, revoke, later, commit, Drawn}
use servir.Async.Proc.{Proc, done, step, Async, finish, call, query, fail_if, or_fail, ◌>>=◌}

module _ (sys : System) where
  -- `pending` is the tick of the ID before the move, and the last index the one after it.
  pub data Move (pending : Option ℕ) (w : World Tables) : World Tables → Option ℕ → Type 0 where
    waits : Move pending w (later w) pending
    forgets : Move pending w (later w) none
    draws : Move pending w (later w) (some w.tick)
    adds_user :
        (row : UserRow)
        → Drawn sys 0 w.tick row.id
        → has (user_id_is row.id) w.db.users ≡ false
        → has (username_is row.username) w.db.users ≡ false
        → Move pending w (commit (add_user row w.db) w) pending
    stores :
        (t : ℕ) (row : TokenRow)
        → pending ≡ some t
        → row.jti ≡ sys.uuid t
        → has (jti_is row.jti) w.db.refresh_tokens ≡ false
        → has (user_id_is row.user_id) w.db.users ≡ true
        → Move pending w (commit (add_token row w.db) w) none
    spends : (jti : String) (now : ℤ) → Move pending w (commit (spend jti now w.db) w) pending
    revokes : (id : String) → Move pending w (commit (revoke id w.db) w) pending

  -- Whatever the worlds are that it meets, at ticks from `m` on, the process makes such moves, and ends
  -- with a pending ID, a tick and a result of which `Q` holds.
  pub data Safe {R : Type 0} (Q : Option ℕ → ℕ → R → Type 0)
      : Option ℕ → ℕ → Proc Tables R → Type 0 where
    ends : (o : Option ℕ) (m : ℕ) (r : R) → Q o m r → Safe Q o m (done r)
    goes :
        (o : Option ℕ) (m : ℕ) (next : World Tables → World Tables)
        (rest : World Tables → Proc Tables R)
        → (after : World Tables → Option ℕ)
        → ((w : World Tables) → m ≤ w.tick → Move o w (next w) (after w))
        → ((w : World Tables) → m ≤ w.tick → Safe Q (after w) (suc w.tick) (rest w))
        → Safe Q o m (step next rest)

  -- `Q` holds of a success, and nothing is said of an error.
  abbrev pub OnOk :
      {E A : Type 0} → (Option ℕ → ℕ → A → Type 0) → Option ℕ → ℕ → Result E A → Type 0
  OnOk Q o m (ok a) = Q o m a
  OnOk Q o m (err e) = Unit {0}

  -- The pending ID is `o` at the end.
  abbrev pub Keeps : {A : Type 0} → Option ℕ → Option ℕ → ℕ → A → Type 0
  Keeps o o' m a = o' ≡ o

  pub Safe-finish :
      {R S : Type 0} {Q : Option ℕ → ℕ → R → Type 0} {o : Option ℕ} {m : ℕ} (f : R → S)
      (p : Proc Tables R)
      → Safe Q o m p
      → Safe {R = S} (λ o m r. Unit {0}) o m (finish f p)
  unfolding finish
  Safe-finish f p (ends o m r q) = ends o m (f r) tt
  Safe-finish f p (goes o m next rest after moves h) =
      goes o m next _ after moves (λ w late. Safe-finish f (rest w) (h w late))

  module _ {E A B : Type 0} {Q : Option ℕ → ℕ → A → Type 0} {S : Option ℕ → ℕ → B → Type 0} where
    pub Safe-bind :
        {o : Option ℕ} {m : ℕ} (p : Async Tables E A) (f : A → Async Tables E B)
        → Safe (OnOk Q) o m p
        → ((o' : Option ℕ) (m' : ℕ) (a : A) → m ≤ m' → Q o' m' a → Safe (OnOk S) o' m' (f a))
        → Safe (OnOk S) o m (p >>= f)
    unfolding ◌>>=◌
    Safe-bind p f (ends o m (ok a) q) h = h o m a (omega arith) q
    Safe-bind p f (ends o m (err e) q) h = ends o m (err e) tt
    Safe-bind p f (goes o m next rest after moves k) h =
        goes o m next (λ w. rest w >>= f) after moves
          (λ w late.
            Safe-bind (rest w) f (k w late)
              (λ o' m' a later. h o' m' a (omega (arith, late, later))))

  module _ {E A B : Type 0} {S : Option ℕ → ℕ → B → Type 0} where
    -- After a process that keeps the pending ID.
    pub Safe-then :
        {o : Option ℕ} {m : ℕ} (p : Async Tables E A) (f : A → Async Tables E B)
        → Safe (OnOk (Keeps o)) o m p
        → ((m' : ℕ) (a : A) → m ≤ m' → Safe (OnOk S) o m' (f a))
        → Safe (OnOk S) o m (p >>= f)
    Safe-then p f h k =
        Safe-bind p f h
          (λ o' m' a late e. subst (λ o'. Safe (OnOk S) o' m' (f a)) (sym e) (k m' a late))

    -- After one call of a source.
    pub Safe-call :
        {o : Option ℕ} {m : ℕ} (source : ℕ → A) (f : A → Async Tables E B)
        → ((t : ℕ) → m ≤ t → Safe (OnOk S) o (suc t) (f (source t)))
        → Safe (OnOk S) o m (call source >>= f)
    unfolding ◌>>=◌ call Actions.call
    Safe-call {o} {m} source f h = goes o m _ _ (λ w. o) (λ w late. waits) (λ w late. h w.tick late)

  pub Safe-fail_if :
      {E : Type 0} {o : Option ℕ} {m : ℕ} (b : Bool) (e : E)
      → Safe (OnOk (Keeps o)) o m (fail_if b e)
  unfolding fail_if
  Safe-fail_if {o} {m} true e = ends o m (err e) tt
  Safe-fail_if {o} {m} false e = ends o m (ok tt) refl

  module _ {E A : Type 0} where
    pub Safe-result : {o : Option ℕ} {m : ℕ} (r : Result E A) → Safe (OnOk (Keeps o)) o m (done r)
    Safe-result {o} {m} (ok a) = ends o m (ok a) refl
    Safe-result {o} {m} (err e) = ends o m (err e) tt

    pub Safe-or_fail :
        {o : Option ℕ} {m : ℕ} (x : Option A) (e : E) → Safe (OnOk (Keeps o)) o m (or_fail x e)
    unfolding or_fail
    Safe-or_fail none e = Safe-result _
    Safe-or_fail (some a) e = Safe-result _

    -- `map_err` leaves the world as it is.
    pub map_error_world :
        {F : Type 0} (f : F → E) (m : Action Tables F A) (w : World Tables)
        → (Actions.map_error f m w).1 ≡ (m w).1
    unfolding Actions.map_error
    map_error_world f m w =
        elim (m w).0
          as (λ r.
            (elim r as (λ _. Result E A × World Tables) [
              | ok a ↦ (ok a, (m w).1)
              | err x ↦ (err (f x), (m w).1)
            ]).1
            ≡ (m w).1) [ ok a ↦ refl | err x ↦ refl ]

    query-Move :
        (o o' : Option ℕ) (f : SqlError → E) (s : Statement Tables A) (w : World Tables)
        → Move o w (later w) o'
        → ((a : A) (d : Tables) → s w.db ≡ ok (a, d) → Move o w (commit d w) o')
        → Move o w (Actions.map_error f (Actions.execute sys s) w).1 o'
    unfolding Actions.execute
    query-Move o o' f s w idle moves =
        rw (map_error_world f (Actions.execute sys s) w) (elim (Option-cases (sys.fault w.tick)) [
          | inr (text, e) ↦ rw (e, Actions.execute) idle
          | inl e ↦ rw (e, Actions.execute) (go (s w.db) refl)
        ])
      where
        go : (r : Result SqlError (A × Tables)) → s w.db ≡ r → Move o w (committed r w).1 o'
        go (ok (a, d)) e = moves a d e
        go (err x) e = idle

    -- A statement whose every success is a move to `o'`.
    pub Safe-query :
        {o : Option ℕ} {m : ℕ} (o' : Option ℕ) (f : SqlError → E) (s : Statement Tables A)
        → ((w : World Tables) → Move o w (later w) o')
        → ((w : World Tables) (a : A) (d : Tables)
            → m ≤ w.tick
            → s w.db ≡ ok (a, d)
            → Move o w (commit d w) o')
        → Safe (OnOk (Keeps o')) o m (query sys f s)
    unfolding query
    Safe-query {o} {m} o' f s idle moves =
        goes o m _ _ (λ w. o') (λ w late. query-Move o o' f s w (idle w) (λ a d. moves w a d late))
          (λ w late. Safe-result _)
