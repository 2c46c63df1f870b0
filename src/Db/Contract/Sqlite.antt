-- ===== src/Db/Contract/Sqlite.antt =====
-- src/db/auth.rs: `impl AuthRepository for Db`, and the registry that its tables stand for.
use servir.Prelude.{
  ℕ, String, ◌==◌, ◌≡◌, refl, sym, ◌∙◌, ap, Bool, true, false, Bool-cases, Option-cases, none, some,
  as_i64, add_i64, ℤ, List, ◌∷◌, inl, inr, if◌then◌else◌,
}
use mathlib.Core.Path.{subst}
use mathlib.Core.Option
use mathlib.Core.Option.{some_inj}
use servir.Sql.{select, has, delete, Unique}
use servir.Sql.Laws.{affected-has, select-has-false}
use servir.System.{System}
use servir.System.Actions.{World}
use servir.System.Posts.{Post, Post-both, Post-weaken, Post-call, Post-map_error, Post-execute}
use servir.Db.Schema.{
  Tables, UserRow, TokenRow, ConfigRow, username_is, user_id_is, jti_is, is_live, key_is,
}
use servir.Db.History.{Steps, History, add_user}
use servir.Db.Repository
use servir.Db.Repository.{User, from_row}
use servir.Db.Refines.{Kept, create_user_lem, find_user_by_username_lem, find_user_by_id_lem}
use servir.Db.Refines.Tokens.{
  insert_token-ok, consume_refresh_token_lem, delete_refresh_tokens_for_user_lem,
}
use servir.Db.Secret.{secret_key, IsSecret, config-Steps, load_or_generate_secret_lem}
use servir.Auth.Service.Safety.{has-spend}
use servir.Db.Validity.{IsValid}
use servir.Db.Contract.{
  AuthRepository, Registry, Promises, IsAdded, IsRefused, Untouched, SameUsers,
}
use servir.Db.Contract.Refusals.{create_user-IsRefused, refusal-taken}
use servir.Db.Contract.Queries.{
  session_in, session_of, has-live, session-delete_other, session-delete_owner, delete-none,
}

-- `impl AuthRepository for Db`
abbrev pub db_repository : System → AuthRepository Tables
db_repository sys = record {
  create_user = Repository.create_user sys;
  find_user_by_username = Repository.find_user_by_username sys;
  find_user_by_id = Repository.find_user_by_id sys;
  store_refresh_token = Repository.store_refresh_token sys;
  consume_refresh_token = Repository.consume_refresh_token sys;
  delete_refresh_tokens_for_user = Repository.delete_refresh_tokens_for_user sys;
  load_or_generate_secret = Repository.load_or_generate_secret sys;
}

abbrev pub value_of : ConfigRow → String
value_of r = r.value

abbrev pub view : Tables → Registry
view t = record {
  named = λ n. Option.map from_row (select (username_is n) t.users);
  identified = λ id. Option.map from_row (select (user_id_is id) t.users);
  session = session_in t.refresh_tokens;
  secret = Option.map value_of (select (key_is secret_key) t.auth_config);
}

added :
    (row : UserRow) (t : Tables)
    → has (user_id_is row.id) t.users ≡ false
    → has (username_is row.username) t.users ≡ false
    → IsAdded row.username row.password_hash (view t) (from_row row) (view (add_user row t))
added row t free_id free = record {
  username = refl;
  password = refl;
  free = ap (Option.map from_row) (select-has-false (username_is row.username) t.users free);
  unused = ap (Option.map from_row) (select-has-false (user_id_is row.id) t.users free_id);
  named = λ n. elim (Bool-cases (row.username == n)) [
    | inl same ↦ rw same refl
    | inr other ↦ rw other refl
  ];
  identified = λ id. elim (Bool-cases (row.id == id)) [
    | inl same ↦ rw same refl
    | inr other ↦ rw other refl
  ];
  sessions = λ j. refl;
}

stored :
    (row : TokenRow) (t : Tables) (j : String)
    → session_in (row ∷ t.refresh_tokens) j
      ≡ (if row.jti == j then some (session_of row) else session_in t.refresh_tokens j)
stored row t j = elim (Bool-cases (row.jti == j)) [
  | inl same ↦ rw same refl
  | inr other ↦ rw other refl
]

module _ (jti : String) (now : ℤ) (rows : List TokenRow)
    (unique : Unique (λ r. jti_is r.jti) rows) where
  -- The session is ended where the row was live, and else as it was.
  spent :
      (valid : Bool)
      → has (is_live jti now) rows ≡ valid
      → session_in (delete (is_live jti now) rows) jti
        ≡ (if valid then none else session_in rows jti)
  spent true live =
      ap (Option.map session_of)
        (select-has-false (jti_is jti) _ (has-spend jti now rows unique live))
  spent false none_live =
      ap (λ rows. session_in rows jti) (delete-none (is_live jti now) rows none_live)

module _ (sys : System) (w : World Tables) where
  untouched :
      {A : Type 0} (a : A) (w' : World Tables)
      → Kept sys w (Steps.here) a w'
      → Untouched sys view w a w'
  untouched a w' (h, same) = ap view same

  create_user_promised :
      (name hash : String)
      → Post
          (λ user w'. IsAdded name hash (view w.db) user (view w'.db))
          (λ e w'. Untouched sys view w e w' × IsRefused sys (view w.db) name w.tick w'.tick e)
          (Repository.create_user sys name hash w)
  create_user_promised name hash =
      Post-weaken _
        (Post-both _ (create_user_lem sys w Steps.here name hash)
          (create_user-IsRefused sys view w (λ n. refl) (λ id. refl) name hash))
        (λ user w' (q, done).
          rw (q.same, q.added, ← q.name, ← q.password)
            (added q.row w.db q.free_id
              (subst (λ n. has (username_is n) w.db.users ≡ false) (sym q.name) q.free)))
        (λ e w' (kept, why). (untouched e w' kept, why))

  -- What holds after a token was stored; the ID need not be one that was drawn.
  store_promised :
      (jti id name : String) (ttl : ℕ)
      → Post
          (λ done w'.
            ((view w.db).session jti ≡ none)
            × SameUsers (view w.db) (view w'.db)
            × ((j : String)
                → (view w'.db).session j ≡ (
                    if jti == j
                    then some (record {
                      owner = id;
                      expires_at = add_i64 (as_i64 (sys.clock w.tick)) (as_i64 ttl);
                    })
                    else (view w.db).session j)))
          (Untouched sys view w)
          (Repository.store_refresh_token sys jti id name ttl w)
  unfolding Repository.store_refresh_token
  store_promised jti id name ttl = Post-call _ _ _ (
      Post-call _ _ _ (
        Post-map_error _ _ _ (
          Post-execute _ _ _
            (λ a d e.
              let (same, unused, known) = insert_token-ok sys _ w.db d a e in
              rw same (
                ap (Option.map session_of)
                    (select-has-false (jti_is jti) w.db.refresh_tokens unused),
                (λ n. refl, λ i. refl),
                stored _ w.db,
              ))
            (λ e. refl))))

-- A secret that the tables held stays, and is the one that they hold later.
secret_kept :
    (sys : System) (w w' : World Tables) (s secret : String)
    → History sys w w'
    → IsSecret secret w'.db
    → Option.map value_of (select (key_is secret_key) w.db.auth_config) ≡ some s
    → secret ≡ s
secret_kept sys w w' s secret h (row', found, value) was =
    elim (Option-cases (select (key_is secret_key) w.db.auth_config)) [
      | inl missing ↦ absurd (cc)
      | inr (row, there) ↦
          let stays = config-Steps sys secret_key row h there in
          let same : value_of row ≡ s = some_inj.0 (ap (Option.map value_of) (sym there) ∙ was) in
          let still : row' ≡ row = some_inj.0 (sym found ∙ stays) in
          sym value ∙ ap value_of still ∙ same
    ]

-- `impl AuthRepository for Db` keeps every promise of the trait, in terms of the registry that its tables
-- stand for, on tables that meet the constraints of the schema and whatever faults the database has: what
-- each operation that succeeds answers and does to the registry, and that one that fails leaves it.
-- `create_user` fails only where the name or the drawn ID is taken, with `AlreadyExists`, or where the
-- database meets a fault, with the error of the database; where the name is taken and there are no faults,
-- it fails with `AlreadyExists`. A stored secret is answered, and never replaced.
pub db_repository-Promises : (sys : System) → Promises sys view IsValid (db_repository sys)
db_repository-Promises sys = record {
  create_user = λ name hash w valid. create_user_promised sys w name hash;
  create_user_taken = λ name hash w user valid there sound.
      refusal-taken sys (view w.db) name hash user view w.tick _ there sound
        (Post-weaken _ (create_user_promised sys w name hash) (λ u w' q. q) (λ e w' q. q.1));
  find_user_by_username = λ name w valid.
      Post-weaken _ (find_user_by_username_lem sys w Steps.here name)
        (λ found w' (kept, answer). (answer, ap view kept.1)) (untouched sys w);
  find_user_by_id = λ id w valid.
      Post-weaken _ (find_user_by_id_lem sys w Steps.here id)
        (λ found w' (kept, answer). (answer, ap view kept.1)) (untouched sys w);
  store_refresh_token = λ jti id name ttl w valid. store_promised sys w jti id name ttl;
  consume_refresh_token = λ jti w valid.
      Post-weaken _ (consume_refresh_token_lem sys w Steps.here jti)
        (λ answer w' q.
          let live = affected-has (is_live jti (as_i64 (sys.clock w.tick))) w.db.refresh_tokens in
          (
            q.tells
                ∙ live
                ∙ has-live jti (as_i64 (sys.clock w.tick)) w.db.refresh_tokens valid.jtis,
            rw q.spent (λ n. refl, λ i. refl),
            rw q.spent (
                spent jti (as_i64 (sys.clock w.tick)) w.db.refresh_tokens valid.jtis answer
                  (sym live ∙ sym q.tells)),
            λ j other. rw q.spent (session-delete_other j jti _ w.db.refresh_tokens other),
          ))
        (untouched sys w);
  delete_refresh_tokens_for_user = λ id w valid.
      Post-weaken _ (delete_refresh_tokens_for_user_lem sys w Steps.here id)
        (λ done w' (h, same).
          rw same (
            (λ n. refl, λ id. refl),
            λ j. session-delete_owner j id w.db.refresh_tokens valid.jtis,
          ))
        (untouched sys w);
  load_or_generate_secret = λ w valid.
      Post-weaken _ (load_or_generate_secret_lem sys w)
        (λ secret w' q.
          let (row, found, value) = q.stored in
          (
            ap (Option.map value_of) found ∙ ap some value,
            λ s was. secret_kept sys w w' s secret q.history q.stored was,
            (
              λ n. ap (λ us. Option.map from_row (select (username_is n) us)) q.users,
              λ i. ap (λ us. Option.map from_row (select (user_id_is i) us)) q.users,
            ),
            λ j. ap (λ ts. session_in ts j) q.refresh_tokens,
          ))
        (untouched sys w);
}
