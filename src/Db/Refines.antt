-- ===== src/Db/Refines.antt =====
-- src/db/auth.rs: every operation of the repository takes the steps of the specification and no
-- others, whatever the database's faults; one that fails leaves the tables. Each lemma also says what
-- the operation answers. `Tokens` is the operations on refresh tokens.
pub mod Tokens
use servir.Prelude.{
  ℕ, ◌<◌, suc, String, as_i64, add_i64, ◌≡◌, refl, sym, ◌∙◌, ap, Result, Bool, true, false, ltb, ok,
  arith,
}
use mathlib.Core.Option
use servir.Sql.{select, has, affected}
use servir.System.{System}
use servir.System.Actions.{World, SqlError, Statement, map_error, execute}
use servir.System.Posts.{
  Post, Post-weaken, Post-pure, Post-call, Post-bind, Post-map_error, Post-execute,
}
use servir.Error.Kinds.{ServirError}
use servir.Db.Schema.{
  Tables, UserRow, TokenRow, user_id_is, username_is, jti_is, is_live, insert_user, insert_token,
}
use servir.Db.Repository.{
  User, from_row, create_user, find_user_by_username, find_user_by_id, store_refresh_token,
  consume_refresh_token, delete_refresh_tokens_for_user,
}
use servir.Db.History.{
  add_user, add_token, spend, revoke, later, Drawn, Drawn-here, Drawn-later, Step, Steps, History,
}

pub insert_user-ok :
    (sys : System) (row : UserRow) (t d : Tables) (a : Unit {0})
    → insert_user sys row t ≡ ok (a, d)
    → (d ≡ add_user row t)
      × (has (user_id_is row.id) t.users ≡ false)
      × (has (username_is row.username) t.users ≡ false)
unfolding insert_user
insert_user-ok sys row t d a h = ground arith

pub ok_inj :
    {A : Type 0} {a b : A} {t d : Tables}
    → ◌≡◌ {A = Result SqlError (A × Tables)} (ok (a, t)) (ok (b, d))
    → (b ≡ a) × (d ≡ t)
ok_inj h = (cc, cc)

module _ (sys : System) {w₀ : World Tables} where
  -- What keeps the tables of a world that has those of `w` keeps those of `w`.
  pub Post-kept :
      {A : Type 0} {Q : A → World Tables → Type 0} (v : World Tables) (t : Tables)
      (out : Result ServirError A × World Tables)
      → v.db ≡ t
      → Post Q (λ e w'. History sys w₀ w' × (w'.db ≡ v.db)) out
      → Post Q (λ e w'. History sys w₀ w' × (w'.db ≡ t)) out
  Post-kept v t out e p = Post-weaken out p (λ a w' q. q) (λ x w' q. (q.0, q.1 ∙ e))

module _ (sys : System) {w₀ : World Tables} (w : World Tables) (h : History sys w₀ w) where
  -- The history goes on to `w'`, and the tables are those of `w`.
  abbrev pub Kept : {A : Type 0} → A → World Tables → Type 0
  Kept a w' = History sys w₀ w' × (w'.db ≡ w.db)

  -- A user was added under an ID of this request and a name that was free.
  pub record IsCreated (username hash : String) (user : User) (w' : World Tables) : Type 0 where
    pub history : History sys w₀ w'
    pub row : UserRow
    pub same : user ≡ from_row row
    pub name : row.username ≡ username
    pub password : row.password_hash ≡ hash
    pub drawn : Drawn sys w₀.tick w'.tick row.id
    pub free_id : has (user_id_is row.id) w.db.users ≡ false
    pub free : has (username_is username) w.db.users ≡ false
    pub added : w'.db ≡ add_user row w.db

  -- `create_user` that succeeds adds one row, of an ID that it drew, the given name and hash, where
  -- neither the ID nor the name was there, and answers its user; one that fails leaves the tables.
  pub create_user_lem :
      (username hash : String)
      → Post (IsCreated username hash) Kept (create_user sys username hash w)
  unfolding create_user
  create_user_lem username hash =
      let row : UserRow = record {
        id = sys.uuid w.tick;
        username = username;
        password_hash = hash;
        created_at = as_i64 (sys.clock (suc w.tick));
      } in
      let user : User = record { id = row.id; username = username; password_hash = hash } in
      let now = later (later w) in
      let h' : History sys w₀ now = Steps.next (Steps.next h Step.elapsed) Step.elapsed in
      Post-call _ _ _ (
        Post-call _ _ _ (
          Post-bind (λ a. IsCreated username hash user) _ _ _
            (Post-map_error _ _ _ (
              Post-execute _ _ _
                (λ a d e.
                  let (added, free_id, free) = insert_user-ok sys row w.db d a e in
                  record {
                    history = rw added (
                        Steps.next h' (
                          Step.user_added row (Drawn-later sys (omega arith) (Drawn-here sys h))
                            free_id free));
                    row = row;
                    same = refl;
                    name = refl;
                    password = refl;
                    drawn = Drawn-later sys (omega arith) (Drawn-here sys h);
                    free_id = free_id;
                    free = free;
                    added = added;
                  })
                (λ e. (Steps.next h' Step.elapsed, refl))))
            (λ a w' q. Post-pure _ _ q)))

  -- A query that answers `a` leaves the tables.
  pub query_lem :
      {A : Type 0} (s : Statement Tables A) (a : A) (f : SqlError → ServirError)
      → s w.db ≡ ok (a, w.db)
      → Post (λ b w'. Kept b w' × (b ≡ a)) Kept (map_error f (execute sys s) w)
  query_lem s a f e = Post-map_error _ _ _ (
      Post-execute _ _ _
        (λ b d e'.
          let (same_answer, same) = ok_inj (sym e ∙ e') in
          ((rw same (Steps.next h Step.elapsed), same), same_answer))
        (λ x. (Steps.next h Step.elapsed, refl)))

  abbrev pub IsAnswer : {A : Type 0} → A → A → World Tables → Type 0
  IsAnswer a b w' = Kept b w' × (b ≡ a)

  -- `find_user_by_username` leaves the tables, and where the database does not fail it answers the
  -- user of the first row with the name, if there is one.
  pub find_user_by_username_lem :
      (username : String)
      → Post
          (IsAnswer (Option.map from_row (select (username_is username) w.db.users)))
          Kept
          (find_user_by_username sys username w)
  unfolding find_user_by_username
  find_user_by_username_lem username =
      Post-bind _ _ _ _ (query_lem _ (select (username_is username) w.db.users) _ refl)
        (λ row w' q. Post-pure _ _ (q.0, ap (Option.map from_row) q.1))

  -- `find_user_by_id` leaves the tables, and where the database does not fail it answers the user of
  -- the first row with the ID, if there is one.
  pub find_user_by_id_lem :
      (user_id : String)
      → Post
          (IsAnswer (Option.map from_row (select (user_id_is user_id) w.db.users)))
          Kept
          (find_user_by_id sys user_id w)
  unfolding find_user_by_id
  find_user_by_id_lem user_id =
      Post-bind _ _ _ _ (query_lem _ (select (user_id_is user_id) w.db.users) _ refl)
        (λ row w' q. Post-pure _ _ (q.0, ap (Option.map from_row) q.1))
