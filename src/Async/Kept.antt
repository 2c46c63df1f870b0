-- ===== src/Async/Kept.antt =====
-- src/db/auth.rs, src/auth/core.rs: the moves of `Moves` that the functions make which the handlers call.
use servir.Prelude.{
  ℕ, suc, String, ◌≡◌, refl, sym, ◌∙◌, Option, none, some, as_i64, Result, ok, err, map_err, arith,
}
use servir.System.{System}
use servir.System.Actions.{World, SqlError, Statement}
use servir.Sql.{select, affected}
use servir.Error.Kinds.{ServirError}
use servir.Error.AuthToken
use servir.Auth.Config.{AuthConfig}
use servir.Db.Schema.{
  Tables, user_id_is, username_is, is_live, select_user_by_username, select_user_by_id,
  delete_live_token, delete_tokens_of,
}
use servir.Db.History.{spend, revoke}
use servir.Db.Refines.{insert_user-ok, ok_inj}
use servir.Db.Refines.Tokens.{insert_token-ok}
use servir.Async.Proc.{Async, pure, lift, call, query, ◌>>=◌}
use servir.Async.Moves.{
  waits, forgets, draws, adds_user, stores, spends, revokes, Safe, ends, goes, OnOk, Keeps,
  Safe-then, Safe-call, Safe-result, Safe-query,
}
use servir.Async.Parts

-- From the tick `m` on, and with the same ID pending at the end.
abbrev pub IsKept : {A : Type 0} → System → Option ℕ → ℕ → Async Tables ServirError A → Type 0
IsKept sys o m p = Safe sys (OnOk sys (Keeps sys o)) o m p

-- The `jti` of the token was drawn, and is pending.
abbrev pub IsDrawn : System → Option ℕ → ℕ → String × String → Type 0
IsDrawn sys o m x = (t : ℕ) × (o ≡ some t) × (x.1 ≡ sys.uuid t)

module _ (sys : System) {o : Option ℕ} {m : ℕ} where
  pub hash_password-Safe : (password : String) → IsKept sys o m (Parts.hash_password sys password)
  unfolding Parts.hash_password lift
  hash_password-Safe password = Safe-call sys _ _ (λ t late. Safe-result sys _)

  pub create_user-Safe :
      (username hash : String) → IsKept sys o m (Parts.create_user sys username hash)
  unfolding Parts.create_user pure
  create_user-Safe username hash = Safe-call sys _ _ (λ t late. Safe-call sys _ _ (λ t' late'.
      Safe-then sys _ _
        (Safe-query sys o _ _ (λ w. waits)
          (λ w a d late₂ e.
            let (added, unused, free) = insert_user-ok sys _ w.db d a e in
            rw added (
              adds_user _
                (record {
                  at = t;
                  since = omega arith;
                  before = omega (arith, late', late₂);
                  drawn = refl;
                })
                unused free)))
        (λ m' a late₃. Safe-result sys _)))

  -- A statement that only reads.
  pub read-Safe :
      {A : Type 0} (f : SqlError → ServirError) (s : Statement Tables A) (answer : Tables → A)
      → ((t : Tables) → s t ≡ ok (answer t, t))
      → IsKept sys o m (query sys f s)
  read-Safe f s answer reads =
      Safe-query sys o f s (λ w. waits)
        (λ w a d late e. let (_, same) = ok_inj (sym (reads w.db) ∙ e) in rw same waits)

  pub find_user_by_username-Safe :
      (username : String) → IsKept sys o m (Parts.find_user_by_username sys username)
  unfolding Parts.find_user_by_username pure select_user_by_username
  find_user_by_username-Safe username =
      Safe-then sys _ _ (read-Safe _ _ (λ t. select (username_is username) t.users) (λ t. refl))
        (λ m' a late. Safe-result sys _)

  pub find_user_by_id-Safe : (user_id : String) → IsKept sys o m (Parts.find_user_by_id sys user_id)
  unfolding Parts.find_user_by_id pure select_user_by_id
  find_user_by_id-Safe user_id =
      Safe-then sys _ _ (read-Safe _ _ (λ t. select (user_id_is user_id) t.users) (λ t. refl))
        (λ m' a late. Safe-result sys _)

  pub consume_refresh_token-Safe :
      (jti : String) → IsKept sys o m (Parts.consume_refresh_token sys jti)
  unfolding Parts.consume_refresh_token pure delete_live_token
  consume_refresh_token-Safe jti = Safe-call sys _ _ (λ t late.
      let now = as_i64 (sys.clock t) in
      Safe-then sys _ _
        (Safe-query sys o _ _ (λ w. waits)
          (λ w a d late₁ e.
            let (_, same) =
              ok_inj {a = affected (is_live jti now) w.db.refresh_tokens} {t = spend jti now w.db}
                e in
            rw same (spends jti now)))
        (λ m' a late₂. Safe-result sys _))

  pub delete_refresh_tokens_for_user-Safe :
      (user_id : String) → IsKept sys o m (Parts.delete_refresh_tokens_for_user sys user_id)
  unfolding Parts.delete_refresh_tokens_for_user delete_tokens_of
  delete_refresh_tokens_for_user-Safe user_id =
      Safe-query sys o _ _ (λ w. waits)
        (λ w a d late e.
          let (_, same) = ok_inj {a = tt} {t = revoke user_id w.db} e in rw same (revokes user_id))

  pub issue_access_token-Safe :
      (user_id username : String) (config : AuthConfig)
      → IsKept sys o m (Parts.issue_access_token sys user_id username config)
  unfolding Parts.issue_access_token lift
  issue_access_token-Safe user_id username config =
      Safe-call sys _ _ (λ t late. Safe-call sys _ _ (λ t' late'. Safe-result sys _))

  pub verify_token-Safe :
      (token : String) (config : AuthConfig) → IsKept sys o m (Parts.verify_token sys token config)
  unfolding Parts.verify_token lift
  verify_token-Safe token config = Safe-call sys _ _ (λ t late. Safe-result sys _)

  pub issue_refresh_token-Safe :
      (user_id username : String) (config : AuthConfig)
      → Safe sys
          (OnOk sys (IsDrawn sys))
          o
          m
          (Parts.issue_refresh_token sys user_id username config)
  unfolding Parts.issue_refresh_token call ◌>>=◌ lift pure servir.System.Actions.call
  issue_refresh_token-Safe user_id username config =
      goes o m _ _ (λ w. o) (λ w late. waits)
        (λ w late.
          goes o _ _ _ (λ v. some v.tick) (λ v late'. draws)
            (λ v late'. issued (sys.jwt_encode _ config.secret) v))
    where
      issued :
          (r : Result String String) (v : World Tables)
          → Safe sys
              (OnOk sys (IsDrawn sys))
              (some v.tick)
              (suc v.tick)
              (lift (map_err AuthToken.encode_failed r) >>= λ token. pure (token, sys.uuid v.tick))
      issued (ok token) v = ends _ _ (ok (token, sys.uuid v.tick)) (v.tick, refl, refl)
      issued (err e) v = ends _ _ _ tt

  -- The pending ID is stored, or forgotten.
  pub store_refresh_token-Safe :
      (jti user_id username : String) (ttl t : ℕ)
      → o ≡ some t
      → jti ≡ sys.uuid t
      → Safe sys
          (OnOk sys (Keeps sys none))
          o
          m
          (Parts.store_refresh_token sys jti user_id username ttl)
  unfolding Parts.store_refresh_token
  store_refresh_token-Safe jti user_id username ttl t pending drawn = Safe-call sys _ _ (λ t₁ late.
      Safe-call sys _ _ (λ t₂ late₁.
        Safe-query sys none _ _ (λ w. forgets)
          (λ w a d late₂ e.
            let (added, unused, known) = insert_token-ok sys _ w.db d a e in
            rw added (stores t _ pending drawn unused known))))
