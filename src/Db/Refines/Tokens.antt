-- ===== src/Db/Refines/Tokens.antt =====
-- src/db/auth.rs: the operations on refresh tokens take the steps of the specification and no others,
-- and those that fail leave the tables.
use servir.Prelude.{
  ℕ, ◌<◌, suc, String, as_i64, add_i64, ◌≡◌, refl, ap, Bool, true, false, ltb, ok, arith,
}
use servir.Sql.{has, affected}
use servir.System.{System}
use servir.System.Actions.{World}
use servir.System.Posts.{Post, Post-pure, Post-call, Post-bind, Post-map_error, Post-execute}
use servir.Db.Schema.{Tables, TokenRow, user_id_is, jti_is, is_live, insert_token}
use servir.Db.Repository.{
  store_refresh_token, consume_refresh_token, delete_refresh_tokens_for_user,
}
use servir.Db.History.{add_token, spend, revoke, later, Drawn, Drawn-later, Step, Steps, History}
use servir.Db.Refines.{Kept, ok_inj}

pub insert_token-ok :
    (sys : System) (row : TokenRow) (t d : Tables) (a : Unit {0})
    → insert_token sys row t ≡ ok (a, d)
    → (d ≡ add_token row t)
      × (has (jti_is row.jti) t.refresh_tokens ≡ false)
      × (has (user_id_is row.user_id) t.users ≡ true)
unfolding insert_token
insert_token-ok sys row t d a h = ground arith

module _ (sys : System) {w₀ : World Tables} (w : World Tables) (h : History sys w₀ w) where
  -- A token was stored for a known user, to expire `ttl` after the time of the call.
  pub record IsStored (jti user_id : String) (ttl : ℕ) (a : Unit {0}) (w' : World Tables)
      : Type 0 where
    pub history : History sys w₀ w'
    pub during : w.tick < w'.tick
    pub row : TokenRow
    pub same_jti : row.jti ≡ jti
    pub owner : row.user_id ≡ user_id
    pub expires : row.expires_at ≡ add_i64 (as_i64 (sys.clock w.tick)) (as_i64 ttl)
    pub unused : has (jti_is jti) w.db.refresh_tokens ≡ false
    pub known : has (user_id_is user_id) w.db.users ≡ true
    pub added : w'.db ≡ add_token row w.db

  -- `store_refresh_token` of an ID that the request drew: where it succeeds it adds one row, which
  -- expires the given time after the clock at its start, where the ID was unused and its user is there;
  -- where it fails it leaves the tables.
  pub store_refresh_token_lem :
      (jti user_id username : String) (ttl : ℕ)
      → Drawn sys w₀.tick w.tick jti
      → Post
          (IsStored jti user_id ttl)
          (Kept sys w h)
          (store_refresh_token sys jti user_id username ttl w)
  unfolding store_refresh_token
  store_refresh_token_lem jti user_id username ttl drawn =
      let row : TokenRow = record {
        jti = jti;
        user_id = user_id;
        expires_at = add_i64 (as_i64 (sys.clock w.tick)) (as_i64 ttl);
        created_at = as_i64 (sys.clock (suc w.tick));
      } in
      let now = later (later w) in
      let h' : History sys w₀ now = Steps.next (Steps.next h Step.elapsed) Step.elapsed in
      Post-call _ _ _ (
        Post-call _ _ _ (
          Post-map_error _ _ _ (
            Post-execute _ _ _
              (λ a d e.
                let (added, unused, known) = insert_token-ok sys row w.db d a e in
                record {
                  history = rw added (
                      Steps.next h'
                        (Step.token_added row (Drawn-later sys (omega arith) drawn) unused known));
                  during = omega arith;
                  row = row;
                  same_jti = refl;
                  owner = refl;
                  expires = refl;
                  unused = unused;
                  known = known;
                  added = added;
                })
              (λ e. (Steps.next h' Step.elapsed, refl)))))

  -- The token was deleted if it was live at the time of the call, and the answer tells.
  pub record IsConsumed (jti : String) (valid : Bool) (w' : World Tables) : Type 0 where
    pub history : History sys w₀ w'
    pub tells :
        valid ≡ ltb 0 (affected (is_live jti (as_i64 (sys.clock w.tick))) w.db.refresh_tokens)
    pub spent : w'.db ≡ spend jti (as_i64 (sys.clock w.tick)) w.db

  -- `consume_refresh_token` that succeeds deletes the rows of the ID that are live by the clock at its
  -- start, and answers whether there was one; one that fails leaves the tables.
  pub consume_refresh_token_lem :
      (jti : String) → Post (IsConsumed jti) (Kept sys w h) (consume_refresh_token sys jti w)
  unfolding consume_refresh_token
  consume_refresh_token_lem jti =
      let now = as_i64 (sys.clock w.tick) in
      let rows : ℕ = affected (is_live jti now) w.db.refresh_tokens in
      Post-call _ _ _ (
        Post-bind (λ n w'. History sys w₀ w' × (n ≡ rows) × (w'.db ≡ spend jti now w.db)) _ _ _
          (Post-map_error _ _ _ (
            Post-execute _ _ _
              (λ a d e.
                let (same_rows, same) = ok_inj {a = rows} {t = spend jti now w.db} e in
                (
                  rw same (Steps.next (Steps.next h Step.elapsed) (Step.token_spent jti now)),
                  same_rows,
                  same,
                ))
              (λ e. (Steps.next (Steps.next h Step.elapsed) Step.elapsed, refl))))
          (λ n w' q. Post-pure _ _ (record { history = q.0; tells = ap (ltb 0) q.1; spent = q.2 })))

  -- The tokens of the user were deleted.
  abbrev pub IsRevoked : String → Unit {0} → World Tables → Type 0
  IsRevoked user_id a w' = History sys w₀ w' × (w'.db ≡ revoke user_id w.db)

  -- `delete_refresh_tokens_for_user` that succeeds deletes the user's rows and no others; one that
  -- fails leaves the tables.
  pub delete_refresh_tokens_for_user_lem :
      (user_id : String)
      → Post (IsRevoked user_id) (Kept sys w h) (delete_refresh_tokens_for_user sys user_id w)
  unfolding delete_refresh_tokens_for_user
  delete_refresh_tokens_for_user_lem user_id = Post-map_error _ _ _ (
      Post-execute _ _ _
        (λ a d e.
          let (_, same) = ok_inj {a = tt} {t = revoke user_id w.db} e in
          (rw same (Steps.next h (Step.tokens_revoked user_id)), same))
        (λ e. (Steps.next h Step.elapsed, refl)))
