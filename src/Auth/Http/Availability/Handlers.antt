-- ===== src/Auth/Http/Availability/Handlers.antt =====
-- src/auth/http.rs: `register`, `login` and `refresh` succeed when they should, where the database has
-- no faults.
use servir.Prelude.{
  ℕ, suc, ◌≤◌, String, is_empty, len, ge→ltb, eq_refl, ◌≡◌, refl, ap, ◌∙◌, true, false, some, ok,
  arith, as_i64,
}
use mathlib.Core.Option
use servir.Sql.{has, select}
use servir.Sql.Laws.{has-delete-false, affected-has, select-some-has_other}
use servir.System.{System}
use servir.System.Laws.{JwtLaws, Argon2Laws}
use servir.System.Actions.{World, pure, lift, call, ◌>>=◌}
use servir.Response.{ok_data}
use servir.Auth.Claims.{Claims, refresh as refresh_kind}
use servir.Auth.Config.{AuthConfig}
use servir.Auth.Password.{hash_password, verify_password}
use servir.Auth.Token.{verify_token}
use servir.Auth.Http.{
  RegisterRequest, LoginRequest, RefreshRequest, TokenResponse, register, login, refresh,
}
use servir.Auth.Http.Availability.{
  called, IsUp, then, passed, found, map_error_ok, execute_ok, insert_user_ok, issue_tokens_ok,
}
use servir.Db.Schema.{Tables, UserRow, user_id_is, username_is, jti_is, is_live}
use servir.Db.History.{later, add_user, spend}
use servir.Db.Repository.{
  from_row, create_user, find_user_by_username, find_user_by_id, consume_refresh_token,
}

-- The IDs that are drawn from now on are not in the tables.
pub record IsFresh (sys : System) (w : World Tables) : Type 0 where
  pub users : (t : ℕ) → w.tick ≤ t → has (user_id_is (sys.uuid t)) w.db.users ≡ false
  pub tokens : (t : ℕ) → w.tick ≤ t → has (jti_is (sys.uuid t)) w.db.refresh_tokens ≡ false

module _ (sys : System) (up : IsUp sys) where
  hash_password_ok :
      Argon2Laws sys
      → (password : String) (w : World Tables)
      → (hash : String) × (sys.argon2_hash password (sys.salt w.tick) ≡ ok hash)
        × (hash_password sys password w ≡ (ok hash, later w))
  unfolding hash_password ◌>>=◌ call lift
  hash_password_ok argon2 password w =
      let (hash, e) = argon2.hashes password (sys.salt w.tick) in (hash, e, rw e refl)

  create_user_ok :
      (username hash : String) (w : World Tables)
      → has (user_id_is (sys.uuid w.tick)) w.db.users ≡ false
      → has (username_is username) w.db.users ≡ false
      → (row : UserRow) × (w' : World Tables) × (create_user sys username hash w
          ≡ (ok (from_row row), w'))
        × (w'.db ≡ add_user row w.db)
        × (w'.tick ≡ suc (suc (suc w.tick)))
  unfolding create_user pure
  create_user_ok username hash w unused free =
      let row : UserRow = record {
        id = sys.uuid w.tick;
        username = username;
        password_hash = hash;
        created_at = as_i64 (sys.clock (suc w.tick));
      } in
      (
        row,
        record { db = add_user row w.db; tick = suc (suc (suc w.tick)) },
        called _ _ (
            called _ _ (
              then _ _ _ _
                (map_error_ok _ _
                  (execute_ok sys _ (up _) (insert_user_ok sys row w.db unused free)))
                refl)),
        refl,
        refl,
      )

  pub find_user_by_username_ok :
      (username : String) (w : World Tables)
      → find_user_by_username sys username w
        ≡ (ok (Option.map from_row (select (username_is username) w.db.users)), later w)
  unfolding find_user_by_username pure
  find_user_by_username_ok username w =
      then _ _ _ _ (map_error_ok _ _ (execute_ok sys _ (up _) refl)) refl

  find_user_by_id_ok :
      (user_id : String) (w : World Tables)
      → find_user_by_id sys user_id w
        ≡ (ok (Option.map from_row (select (user_id_is user_id) w.db.users)), later w)
  unfolding find_user_by_id pure
  find_user_by_id_ok user_id w = then _ _ _ _ (map_error_ok _ _ (execute_ok sys _ (up _) refl)) refl

  consume_refresh_token_ok :
      (jti : String) (w : World Tables)
      → has (is_live jti (as_i64 (sys.clock w.tick))) w.db.refresh_tokens ≡ true
      → consume_refresh_token sys jti w ≡ (
        ok true,
        record { db = spend jti (as_i64 (sys.clock w.tick)) w.db; tick = suc (suc w.tick) },
      )
  unfolding consume_refresh_token pure
  consume_refresh_token_ok jti w live = called _ _ (
      then _ _ _ _ (map_error_ok _ _ (execute_ok sys _ (up _) refl)) (
        rw (affected-has (is_live jti (as_i64 (sys.clock w.tick))) w.db.refresh_tokens)
          (rw live refl)))

  verify_password_ok :
      Argon2Laws sys
      → (password salt hash : String) → sys.argon2_hash password salt ≡ ok hash
      → verify_password sys password hash ≡ ok true
  unfolding verify_password
  verify_password_ok argon2 password salt hash e =
      rw (argon2.parses password salt hash e) (rw (argon2.accepts password salt hash e) refl)

  module _ (config : AuthConfig) (jwt : JwtLaws sys) (w : World Tables) where
    verify_token_ok :
        (token : String) (claims : Claims)
        → sys.jwt_decode token config.secret (sys.clock w.tick) ≡ ok claims
        → verify_token sys token config w ≡ (ok claims, later w)
    unfolding verify_token ◌>>=◌ call lift
    verify_token_ok token claims e = rw e refl

    -- A registration succeeds with a username and a password of at least 8 bytes, for a name that is
    -- free, where the database has no faults, Argon2 and the encoding of tokens do not fail, and the
    -- IDs that are drawn are not in the tables.
    pub register_succeeds :
        Argon2Laws sys
        → IsFresh sys w
        → (body : RegisterRequest) → is_empty body.username ≡ false
        → 8 ≤ len body.password
        → has (username_is body.username) w.db.users ≡ false
        → (tokens : TokenResponse) × ((register sys config body w).0 ≡ ok (ok_data tokens))
    unfolding register
    register_succeeds argon2 fresh body named strong free =
        let (hash, _, hashed) = hash_password_ok argon2 body.password w in
        let (row, w', created, added, ticks) =
          create_user_ok body.username hash (later w) (fresh.users _ (omega arith)) free in
        let known : has (user_id_is row.id) w'.db.users ≡ true =
          rw added (rw (eq_refl row.id) refl) in
        let unused : has (jti_is (sys.uuid (suc (suc (suc w'.tick))))) w'.db.refresh_tokens
            ≡ false =
          rw added (fresh.tokens _ (omega (arith, ticks))) in
        let (tokens, issued) = issue_tokens_ok sys config jwt up (from_row row) w' known unused in
        (
          tokens,
          ap (λ o. o.0)
                (passed _ _ named (
                  passed _ _ (ge→ltb _ _ strong) (then _ _ _ _ hashed (then _ _ _ _ created refl))))
              ∙ issued,
        )

    -- A login succeeds with the name of a row and the password that its hash was made of, where the
    -- database has no faults, and the IDs that are drawn are not in the tables.
    pub login_succeeds :
        Argon2Laws sys
        → IsFresh sys w
        → (body : LoginRequest) (row : UserRow) (salt : String)
        → select (username_is body.username) w.db.users ≡ some row
        → sys.argon2_hash body.password salt ≡ ok row.password_hash
        → (tokens : TokenResponse) × ((login sys config body w).0 ≡ ok (ok_data tokens))
    unfolding login lift
    login_succeeds argon2 fresh body row salt selected hashed =
        let known =
          select-some-has_other (username_is body.username) (user_id_is row.id) w.db.users row
            selected (eq_refl row.id) in
        let (tokens, issued) =
          issue_tokens_ok sys config jwt up (from_row row) (later w) known
            (fresh.tokens _ (omega arith)) in
        let verified = verify_password_ok argon2 body.password salt row.password_hash hashed in
        (
          tokens,
          ap (λ o. o.0)
                (then _ _ _ _ (find_user_by_username_ok body.username w) (
                  found _ _ (from_row row) (ap (Option.map from_row) selected) (
                    then _ _ true (later w) (ap (λ r. (r, later w)) verified)
                      (passed _ _ refl refl))))
              ∙ issued,
        )

    -- A refresh succeeds with a token that decodes to claims of a refresh token, whose row is live and
    -- whose user is there, where the database has no faults, and the IDs that are drawn are not in the
    -- tables.
    pub refresh_succeeds :
        IsFresh sys w
        → (body : RefreshRequest) (claims : Claims) (row : UserRow)
        → sys.jwt_decode body.refresh_token config.secret (sys.clock w.tick) ≡ ok claims
        → claims.kind ≡ refresh_kind
        → has (is_live claims.jti (as_i64 (sys.clock (suc w.tick)))) w.db.refresh_tokens ≡ true
        → select (user_id_is claims.sub) w.db.users ≡ some row
        → (tokens : TokenResponse) × ((refresh sys config body w).0 ≡ ok (ok_data tokens))
    unfolding refresh
    refresh_succeeds fresh body claims row decoded kind_is live selected =
        let v : World Tables = record {
          db = spend claims.jti (as_i64 (sys.clock (suc w.tick))) w.db;
          tick = suc (suc (suc (suc w.tick)));
        } in
        let known =
          select-some-has_other (user_id_is claims.sub) (user_id_is row.id) w.db.users row selected
            (eq_refl row.id) in
        let unused =
          has-delete-false (jti_is (sys.uuid (suc (suc (suc v.tick)))))
            (is_live claims.jti (as_i64 (sys.clock (suc w.tick)))) w.db.refresh_tokens
            (fresh.tokens _ (omega arith)) in
        let (tokens, issued) = issue_tokens_ok sys config jwt up (from_row row) v known unused in
        (
          tokens,
          ap (λ o. o.0)
                (then _ _ claims (later w) (verify_token_ok body.refresh_token claims decoded) (
                  passed _ _ (rw kind_is refl) (
                    then _ _ _ _ (consume_refresh_token_ok claims.jti (later w) live) (
                      passed _ _ refl (
                        then _ _ _ _ (find_user_by_id_ok claims.sub _)
                          (found _ _ (from_row row) (ap (Option.map from_row) selected) refl))))))
              ∙ issued,
        )
