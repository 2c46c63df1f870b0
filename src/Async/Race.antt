-- ===== src/Async/Race.antt =====
-- Requests that can succeed only by a call that wins something, and the rules by which one is known to be
-- such a request.
use servir.Prelude.{
  ℕ, suc, ap, ◌≡◌, ◌≢◌, refl, sym, ◌∙◌, Bool, true, false, Result, ok, err, Option, none, some,
  arith,
}
use servir.System.{System}
use servir.System.Actions
use servir.System.Actions.{World, Action, SqlError, Statement, committed}
use servir.Error.Kinds.{ServirError}
use servir.Json.{Serialize}
use servir.Response.Laws.{status_code_ge_400}
use servir.Response.{ApiResponse, Response, respond}
use servir.Db.Schema.{Tables}
use servir.Db.History.{commit}
use servir.Db.Validity.{IsValid}
use servir.Async.Proc.{Proc, done, step, Async, finish, call, query, fail_if, or_fail, ◌>>=◌}
use servir.Async.Moves.{map_error_world}

abbrev pub Win : Type 0
Win = World Tables → World Tables → Bool

-- A process that ends with a result of which `Q` holds, unless a call wins.
pub data Needs {R : Type 0} (won : Win) (Q : R → Type 0) : Proc Tables R → Type 0 where
  ends : (r : R) → Q r → Needs won Q (done r)
  goes :
      (next : World Tables → World Tables) (rest : World Tables → Proc Tables R)
      → ((w : World Tables) → IsValid w.db → won w (next w) ≡ false → Needs won Q (rest w))
      → Needs won Q (step next rest)

abbrev pub OnOk : {E A : Type 0} → (A → Type 0) → Result E A → Type 0
OnOk Q (ok a) = Q a
OnOk Q (err e) = Unit {0}

map_error_result :
    {A E F : Type 0} (Q : A → Type 0) (f : F → E) (m : Action Tables F A) (w : World Tables)
    → OnOk Q (m w).0
    → OnOk Q (Actions.map_error f m w).0
unfolding Actions.map_error
map_error_result {A} {E} Q f m w =
    elim (m w).0
      as (λ r.
        OnOk Q r
        → OnOk Q
            (elim r as (λ _. Result E A × World Tables) [
              | ok a ↦ (ok a, (m w).1)
              | err x ↦ (err (f x), (m w).1)
            ]).0) [ ok a ↦ λ q. q | err x ↦ λ q. tt ]

module _ {won : Win} where
  pub Needs-finish :
      {R S : Type 0} {Q : R → Type 0} {Q' : S → Type 0} (f : R → S) (p : Proc Tables R)
      → ((r : R) → Q r → Q' (f r))
      → Needs won Q p
      → Needs won Q' (finish f p)
  unfolding finish
  Needs-finish f p k (ends r q) = ends (f r) (k r q)
  Needs-finish f p k (goes next rest h) =
      goes next _ (λ w valid lost. Needs-finish f (rest w) k (h w valid lost))

  module _ {E A B : Type 0} {Q : A → Type 0} {S : B → Type 0} where
    pub Needs-bind :
        (p : Async Tables E A) (f : A → Async Tables E B)
        → Needs won (OnOk Q) p
        → ((a : A) → Q a → Needs won (OnOk S) (f a))
        → Needs won (OnOk S) (p >>= f)
    unfolding ◌>>=◌
    Needs-bind p f (ends (ok a) q) k = k a q
    Needs-bind p f (ends (err e) q) k = ends (err e) tt
    Needs-bind p f (goes next rest h) k =
        goes next _ (λ w valid lost. Needs-bind (rest w) f (h w valid lost) k)

  module _ {E A : Type 0} where
    pub Needs-result :
        {Q : A → Type 0} (r : Result E A) → ((a : A) → r ≡ ok a → Q a) → Needs won (OnOk Q) (done r)
    Needs-result (ok a) h = ends (ok a) (h a refl)
    Needs-result (err e) h = ends (err e) tt

    pub Needs-or_fail : (o : Option A) (e : E) → Needs won (OnOk (λ a. o ≡ some a)) (or_fail o e)
    unfolding or_fail
    Needs-or_fail none e = ends (err e) tt
    Needs-or_fail (some a) e = ends (ok a) refl

    pub Needs-call :
        {B : Type 0} {S : B → Type 0} (source : ℕ → A) (f : A → Async Tables E B)
        → ((t : ℕ) → Needs won (OnOk S) (f (source t)))
        → Needs won (OnOk S) (call source >>= f)
    unfolding ◌>>=◌ call Actions.call
    Needs-call source f h = goes _ _ (λ w valid lost. h w.tick)

    -- A statement, of whose every success `Q` holds, if it does not win.
    pub Needs-query :
        {Q : A → Type 0} (sys : System) (f : SqlError → E) (s : Statement Tables A)
        → ((w : World Tables) (a : A) (d : Tables)
            → IsValid w.db
            → s w.db ≡ ok (a, d)
            → won w (commit d w) ≡ false
            → Q a)
        → Needs won (OnOk Q) (query sys f s)
    unfolding query Actions.execute
    Needs-query {Q} sys f s h = goes _ _ (λ w valid lost. ends _ (
        map_error_result Q f (Actions.execute sys s) w (
          executed w valid
            (sym (ap (won w) (map_error_world sys f (Actions.execute sys s) w)) ∙ lost))))
      where
        go :
            (w : World Tables) (r : Result SqlError (A × Tables))
            → IsValid w.db
            → s w.db ≡ r
            → won w (committed r w).1 ≡ false
            → OnOk Q (committed r w).0
        go w (ok (a, d)) valid e lost = h w a d valid e lost
        go w (err x) valid e lost = tt

        executed :
            (w : World Tables)
            → IsValid w.db
            → won w (Actions.execute sys s w).1 ≡ false
            → OnOk Q (Actions.execute sys s w).0
        executed w valid =
            elim (sys.fault w.tick)
              as (λ o.
                won w
                    (elim o as (λ _. Result SqlError A × World Tables) [
                      | some text ↦ (
                        err (record { is_unique_violation = false; text = text }),
                        record w { tick = suc w.tick },
                      )
                      | none ↦ committed (s w.db) w
                    ]).1
                  ≡ false
                → OnOk Q
                    (elim o as (λ _. Result SqlError A × World Tables) [
                      | some text ↦ (
                        err (record { is_unique_violation = false; text = text }),
                        record w { tick = suc w.tick },
                      )
                      | none ↦ committed (s w.db) w
                    ]).0) [ some text ↦ λ lost. tt | none ↦ go w (s w.db) valid refl ]

  pub Needs-fail_if :
      {E : Type 0} (b : Bool) (e : E) → Needs won (OnOk (λ u. b ≡ false)) (fail_if b e)
  unfolding fail_if
  Needs-fail_if true e = ends (err e) tt
  Needs-fail_if false e = ends (ok tt) refl

-- The response is not one of success.
abbrev pub IsRefused : Response → Type 0
IsRefused r = r.status ≢ 200

pub IsRefused-respond :
    {T : Type 0} ⦃s : Serialize T⦄ (r : Result ServirError (ApiResponse T))
    → OnOk (λ a. ⊥) r
    → IsRefused (respond r)
unfolding respond
IsRefused-respond (ok a) h e = h
IsRefused-respond (err x) h e = omega (arith, status_code_ge_400 x, e)
