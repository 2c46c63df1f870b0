-- ===== src/Async/Register.antt =====
-- src/auth/http.rs: registrations of one username that run at the same time.
use servir.Prelude.{
  ℕ, String, eq_refl, ◌≡◌, ◌≢◌, refl, sym, Bool, true, false, Result, ok, eq_of_map_err, eq_of_ok,
  List, ◌⊎◌, inl, inr, arith,
}
use mathlib.Core.Path.{subst}
use servir.Sql.{has}
use servir.System.{System}
use servir.System.Laws.{UuidLaws}
use servir.System.Actions.{World}
use servir.Response.{Response, respond}
use servir.Auth.Config.{AuthConfig}
use servir.Auth.Http.{RegisterRequest, token_response_serialize}
use servir.Auth.Service.{Request, post_register}
use servir.Db.Schema.{Tables, UserRow, username_is, insert_user}
use servir.Db.History.{commit, Step}
use servir.Db.Persistence.{IsGenuine}
use servir.Db.Refines.{insert_user-ok}
use servir.Db.Validity.{IsValid}
use servir.Server.AppJson.{from_request}
use servir.Async.Proc.{done, lift}
use servir.Async.Parts.{create_user, hash_password}
use servir.Async.Handlers.{register, with_body, serve}
use servir.Async.Pool.{Pool, interleave, arriving}
use servir.Async.Invariant.{IsSound, IsTurn, arriving-IsSound}
use servir.Async.Prize.{Prize, one_loses}
use servir.Async.Race.{
  Win, Needs, OnOk, Needs-bind, Needs-result, Needs-call, Needs-query, Needs-fail_if, Needs-finish,
  IsRefused, IsRefused-respond,
}

-- A call that adds the first row of the name.
abbrev adds : String → Win
adds name w v = elim (has (username_is name) w.db.users) as (λ _. Bool) [
  | true ↦ false
  | false ↦ has (username_is name) v.db.users
]

module _ (name : String) (w v : World Tables) where
  adds_is : adds name w v ≡ true → has (username_is name) v.db.users ≡ true
  adds_is h = ground arith

  adds_taken : has (username_is name) w.db.users ≡ true → adds name w v ≡ false
  adds_taken h = ground arith

  adds_both :
      has (username_is name) w.db.users ≡ false
      → has (username_is name) v.db.users ≡ true
      → adds name w v ≡ true
  adds_both h k = ground arith

-- No user is ever deleted.
user_stays :
    (sys : System) (name : String) {w v : World Tables}
    → Step sys 0 w v
    → has (username_is name) w.db.users ≡ true
    → has (username_is name) v.db.users ≡ true
user_stays sys name Step.elapsed h = h
user_stays sys name (Step.user_added row d a b) h = ground arith
user_stays sys name (Step.token_added row d a b) h = h
user_stays sys name (Step.token_spent jti now) h = h
user_stays sys name (Step.tokens_revoked id) h = h
user_stays sys name (Step.secret_added row a) h = h

module _ (sys : System) (uuids : UuidLaws sys) (name : String) where
  abbrev IsTaken : (s : Pool) → IsSound sys s → Type 0
  IsTaken s sound = has (username_is name) s.world.db.users ≡ true

  IsTaken-stays :
      (s s' : Pool) (sound : IsSound sys s) (t : IsTurn sys uuids s sound s')
      → IsTaken s sound
      → IsTaken s' t.sound'
  IsTaken-stays s s' sound t h = elim t.steps [
    | inl same ↦ rw same h
    | inr step ↦ user_stays sys name step h
  ]

  abbrev prize : Prize sys uuids
  prize = record {
    won = adds name;
    Taken = IsTaken;
    wins = λ s s' sound t won. adds_is name s.world s'.world won;
    stays = IsTaken-stays;
    closed = λ s sound v taken. adds_taken name s.world v taken;
  }

module _ (sys : System) (config : AuthConfig) where
  inserted :
      {name : String} (row : UserRow) (w : World Tables) (d : Tables) (u : Unit {0})
      → row.username ≡ name
      → insert_user sys row w.db ≡ ok (u, d)
      → adds name w (commit d w) ≢ false
  inserted {name} row w d u same e lost =
      let (added, unused_id, unused) = insert_user-ok sys row w.db d u e in
      let free : has (username_is name) w.db.users ≡ false = rw (← same) unused in
      let there : has (username_is name) d.users ≡ true =
        rw (added, same, eq_refl name, has) refl in
      let won = adds_both name w (commit d w) free there in cc

  -- It is the addition, if a user of the name is inserted.
  create_user-Needs :
      (name hash : String) → Needs (adds name) (OnOk (λ u. ⊥)) (create_user sys name hash)
  unfolding create_user
  create_user-Needs name hash = Needs-call sys.uuid _ (λ s. Needs-call sys.clock _ (λ t.
      Needs-bind {Q = λ _. ⊥} _ _
        (Needs-query sys _ _ (λ w u d valid e lost. inserted _ w d u refl e lost))
        (λ _ no. absurd (no))))

  hash_password-Needs :
      {won : Win} (password : String)
      → Needs won (OnOk (λ h. Unit {0})) (hash_password sys password)
  unfolding hash_password lift
  hash_password-Needs password = Needs-call sys.salt _ (λ t. Needs-result _ (λ h e. tt))

  register-Needs :
      (body : RegisterRequest)
      → Needs (adds body.username) (OnOk (λ a. ⊥)) (register sys config body)
  unfolding register
  register-Needs body = Needs-bind _ _ (Needs-fail_if _ _) (λ _ _.
      Needs-bind _ _ (Needs-fail_if _ _) (λ _ _.
        Needs-bind {Q = λ _. Unit {0}} _ _ (hash_password-Needs body.password) (λ hash _.
          Needs-bind {Q = λ _. ⊥} _ _ (create_user-Needs body.username hash)
            (λ user no. absurd (no)))))

  -- So does the request.
  serve-Needs :
      (body : Result String RegisterRequest) (name : String)
      → ((b : RegisterRequest) → body ≡ ok b → b.username ≡ name)
      → Needs (adds name) IsRefused (serve sys config (post_register body))
  unfolding serve with_body lift from_request
  serve-Needs body name named = Needs-finish respond _ IsRefused-respond (
      Needs-bind _ _ (Needs-result (from_request body) (λ b e. eq_of_map_err _ body b e)) (λ b e.
        subst (λ n. Needs (adds n) (OnOk (λ a. ⊥)) (register sys config b)) (named b e)
          (register-Needs b)))

-- Of two registrations of one username, at most one is answered with 200, however these and any other
-- requests interleave at the granularity of single statements, whatever faults the database has: on
-- tables that meet the schema and hold only token IDs that the program drew, where UUIDs are fresh.
pub register_once_concurrently :
    (sys : System) (config : AuthConfig)
    → UuidLaws sys
    → (requests : ℕ → Request) (w : World Tables) (order : List ℕ) → IsValid w.db
    → IsGenuine sys w
    → (i k : ℕ) (a b : RegisterRequest) → i ≢ k
    → requests i ≡ post_register (ok a)
    → requests k ≡ post_register (ok b)
    → a.username ≡ b.username
    → (r r' : Response) → (interleave order (arriving sys config requests w)).requests i ≡ done r
    → (interleave order (arriving sys config requests w)).requests k ≡ done r'
    → (r.status ≢ 200) ⊎ (r'.status ≢ 200)
register_once_concurrently sys config uuids requests w order valid genuine i k a b apart ei ek same
      r r' =
    one_loses sys uuids (prize sys uuids a.username) IsRefused i k apart order _
      (arriving-IsSound sys uuids config requests w valid genuine) (needs i a ei refl)
      (needs k b ek (sym same)) r r'
  where
    needs :
        (j : ℕ) (body : RegisterRequest)
        → requests j ≡ post_register (ok body)
        → body.username ≡ a.username
        → Needs (adds a.username) IsRefused (serve sys config (requests j))
    needs j body ej this = rw ej (
        serve-Needs sys config (ok body) a.username
          (λ b eb. subst (λ b. b.username ≡ a.username) (eq_of_ok body b eb) this))
