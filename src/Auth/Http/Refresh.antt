-- ===== src/Auth/Http/Refresh.antt =====
-- src/auth/http.rs: what `refresh` does to the tables and answers, on success and on error, for every
-- fault of the database.
use servir.Prelude.{
  map-eq-some, true_of_not, false_of_not, suc, String, ltb, ◌≡◌, sym, ◌∙◌, ap, Bool, true, false,
  some, as_i64, inl, inr, ◌⊎◌,
}
use mathlib.Core.Path.{subst}
use servir.Sql.{has, select, affected}
use servir.Sql.Laws.{affected-has, delete-has-false}
use servir.System.{System}
use servir.System.Actions.{World, ◌>>=◌, or_fail}
use servir.Error.AuthToken
use servir.System.Posts.{Post, Post-bind, Post-fail_if, Post-or_fail, Post-weaken}
use servir.Error.Kinds.{ServirError}
use servir.Response.{ApiResponse}
use servir.Auth.Claims.{Claims, refresh as refresh_kind, kind_of_not}
use servir.Auth.Config.{AuthConfig}
use servir.Auth.Refines.{verify_token_lem}
use servir.Auth.Http.{RefreshRequest, TokenResponse, issue_tokens, refresh}
use servir.Auth.Http.Sessions.{IsSession, issue_tokens_lem}
use servir.Db.Schema.{Tables, UserRow, user_id_is, is_live}
use servir.Db.Repository.{from_row, find_user_by_id}
use servir.Db.History.{spend, later, Steps, History}
use servir.Db.Refines.{find_user_by_id_lem}
use servir.Db.Refines.Tokens.{IsConsumed, consume_refresh_token_lem}
use servir.Auth.Http.Login.{IsAccepted}

module _ (sys : System) (config : AuthConfig) (w : World Tables) where
  -- The token is accepted and its row is live, by the clock at the two calls that look.
  pub record IsUsable (token : String) (claims : Claims) : Type 0 where
    pub accepted : IsAccepted sys config w refresh_kind token claims
    pub live : has (is_live claims.jti (as_i64 (sys.clock (suc w.tick)))) w.db.refresh_tokens ≡ true

  -- The tables with that row deleted.
  abbrev pub spent : Claims → Tables
  spent claims = spend claims.jti (as_i64 (sys.clock (suc w.tick))) w.db

  -- A refresh that succeeded: the token was usable, it was spent, and a session of its user was
  -- opened.
  pub record IsRefreshed (body : RefreshRequest) (r : ApiResponse TokenResponse) (w' : World Tables)
      : Type 0 where
    pub claims : Claims
    pub usable : IsUsable body.refresh_token claims
    pub row : UserRow
    pub found : select (user_id_is claims.sub) w.db.users ≡ some row
    pub session : IsSession sys config w (spent claims) (from_row row) r w'

  -- A refresh that failed: nothing changed, or a usable token was spent and no session opened.
  abbrev pub RefreshFails : RefreshRequest → ServirError → World Tables → Type 0
  RefreshFails body e w' =
      History sys w w'
      × ((w'.db ≡ w.db)
          ⊎ ((claims : Claims) × IsUsable body.refresh_token claims × (w'.db ≡ spent claims)))

  -- The rest of a refresh, once the token is spent.
  rotate :
      (body : RefreshRequest) (claims : Claims)
      → IsUsable body.refresh_token claims
      → (v : World Tables) (h : History sys w v) → v.db ≡ spent claims
      → Post (IsRefreshed body) (RefreshFails body) (
          (find_user_by_id sys claims.sub >>= λ found.
          or_fail found (AuthToken.user_not_found claims.sub) >>= issue_tokens sys config)
            v)
  rotate body claims usable v h same =
      Post-bind _ _ _ _
        (Post-weaken _ (find_user_by_id_lem sys v h claims.sub) (λ a v' q. q)
          (λ e v' q. (q.0, inr (claims, usable, q.1 ∙ same))))
        (λ found v₁ ((h₁, kept), answer).
          Post-or_fail _ _ _ _
            (λ user is_user.
              let (row, selected, same_user) = map-eq-some from_row _ user (sym answer ∙ is_user) in
              rw same_user (
                Post-weaken _ (issue_tokens_lem sys config (from_row row) v₁ h₁)
                  (λ r v₂ s. record {
                    claims = claims;
                    usable = usable;
                    row = row;
                    found = ap (λ t. select (user_id_is claims.sub) t.users) (sym same) ∙ selected;
                    session =
                        subst (λ t. IsSession sys config w t (from_row row) r v₂) (kept ∙ same) s;
                  })
                  (λ e v₂ q. (q.0, inr (claims, usable, q.1 ∙ kept ∙ same)))))
            (λ missing. (h₁, inr (claims, usable, kept ∙ same))))

  -- The consumption as seen from the start of the request, one call earlier.
  consumed_now :
      (claims : Claims) (w₁ w₂ : World Tables) (h : History sys w w₁)
      → w₁ ≡ later w
      → (valid : Bool) → IsConsumed sys w₁ h claims.jti valid w₂
      → (valid ≡ has (is_live claims.jti (as_i64 (sys.clock (suc w.tick)))) w.db.refresh_tokens)
        × (w₂.db ≡ spent claims)
  consumed_now claims w₁ w₂ h e valid c = (
    c.tells
        ∙ ap
            (λ u.
              ltb 0 (affected (is_live claims.jti (as_i64 (sys.clock u.tick))) u.db.refresh_tokens))
            e
        ∙ affected-has (is_live claims.jti (as_i64 (sys.clock (suc w.tick)))) w.db.refresh_tokens,
    c.spent ∙ ap (λ u. spend claims.jti (as_i64 (sys.clock u.tick)) u.db) e,
  )

  spent-unused :
      (claims : Claims)
      → has (is_live claims.jti (as_i64 (sys.clock (suc w.tick)))) w.db.refresh_tokens ≡ false
      → spent claims ≡ w.db
  spent-unused claims h =
      ap (λ rows. record w.db { refresh_tokens = rows })
        (delete-has-false (is_live claims.jti (as_i64 (sys.clock (suc w.tick)))) w.db.refresh_tokens
          h)

  -- A refresh that succeeds was sent a token that decodes to claims of a refresh token and whose row
  -- is live; it deletes that row and opens a session of the user that the claims name, and changes
  -- nothing else. One that fails changed nothing, or deleted only the row of a token that was usable.
  -- Both take steps of the history only, whatever the faults of the database.
  pub refresh-IsRefreshed :
      (body : RefreshRequest)
      → Post (IsRefreshed body) (RefreshFails body) (refresh sys config body w)
  unfolding refresh issue_tokens
  refresh-IsRefreshed body =
      Post-bind _ _ _ _
        (Post-weaken _ (verify_token_lem sys w Steps.here body.refresh_token config) (λ a v q. q)
          (λ e v q. (q.0, inl q.1)))
        (λ claims w₁ v.
          Post-fail_if _ _ _ _
            (λ right.
              Post-bind _ _ _ _
                (Post-weaken _ (consume_refresh_token_lem sys w₁ v.history claims.jti) (λ a v q. q)
                  (λ e v' q. (q.0, inl (q.1 ∙ ap (λ u. u.db) v.next))))
                (λ valid w₂ c.
                  let (tells, same) = consumed_now claims w₁ w₂ v.history v.next valid c in
                  Post-fail_if _ _ _ _
                    (λ is_valid.
                      rotate body claims
                        (record {
                          accepted = record {
                            decoded = v.decoded;
                            kind_is = kind_of_not claims.kind refresh_kind right;
                          };
                          live = sym tells ∙ true_of_not valid is_valid;
                        })
                        w₂ c.history same)
                    (λ invalid. (
                      c.history,
                      inl (same ∙ spent-unused claims (sym tells ∙ false_of_not valid invalid)),
                    ))))
            (λ wrong. (v.history, inl (ap (λ u. u.db) v.next))))
