-- ===== src/Async/Refresh.antt =====
-- src/auth/http.rs: refreshes that run at the same time with one token ID.
use servir.Prelude.{
  ℕ, ltb, String, ◌≡◌, ◌≢◌, refl, sym, ◌∙◌, ap, Bool, false, not, ok, err, List, ℤ, as_i64,
  Bool-cases, ◌⊎◌, inl, inr, Result, eq_of_map_err, eq_of_ok,
}
use mathlib.Core.Path.{subst}
use servir.Sql.{affected}
use servir.Sql.Laws.{has_weaken, affected-has}
use servir.System.{System}
use servir.System.Laws.{UuidLaws, JwtLaws}
use servir.System.Actions.{World}
use servir.Error.AuthToken
use servir.Response.{Response, respond}
use servir.Auth.Claims.{Claims}
use servir.Auth.Config.{AuthConfig}
use servir.Auth.Http.{RefreshRequest, token_response_serialize}
use servir.Auth.Service.{Request, post_refresh}
use servir.Auth.Service.Safety.{has-spend, is_live_jti}
use servir.Db.Schema.{Tables, jti_is, is_live, delete_live_token}
use servir.Db.History.{spend, commit}
use servir.Db.Persistence.{IsGenuine}
use servir.Db.Validity.{IsValid}
use servir.Server.AppJson.{from_request}
use servir.Async.Proc.{done, lift, pure}
use servir.Async.Parts.{verify_token, consume_refresh_token}
use servir.Async.Handlers.{refresh, with_body, serve}
use servir.Async.Pool.{interleave, arriving}
use servir.Async.Invariant.{arriving-IsSound}
use servir.Async.Prize.{one_loses}
use servir.Async.Race.{
  Needs, OnOk, Needs-bind, Needs-result, Needs-call, Needs-query, Needs-fail_if, Needs-finish,
  IsRefused, IsRefused-respond,
}
use servir.Async.Removal.{removes, removes_both, prize}

module _ (sys : System) (config : AuthConfig) (jti : String) where
  -- Where token IDs are unique, the deletion of the live row of the ID removes it.
  delete-removes :
      (now : ℤ) (w : World Tables)
      → IsValid w.db
      → removes jti w (commit (spend jti now w.db) w) ≡ false
      → ltb 0 (affected (is_live jti now) w.db.refresh_tokens) ≡ false
  delete-removes now w valid lost =
      elim (Bool-cases (ltb 0 (affected (is_live jti now) w.db.refresh_tokens))) [
        | inl some_row ↦
            let live = sym (affected-has (is_live jti now) w.db.refresh_tokens) ∙ some_row in
            let was =
              has_weaken (is_live jti now) (jti_is jti) w.db.refresh_tokens (is_live_jti jti now)
                live in
            let gone = has-spend jti now w.db.refresh_tokens valid.jtis live in
            let won = removes_both jti w (commit (spend jti now w.db) w) was gone in absurd (cc)
        | inr no_row ↦ no_row
      ]

  deleted_none :
      (now : ℤ) (w : World Tables) (n : ℕ) (d : Tables)
      → IsValid w.db
      → delete_live_token jti now w.db ≡ ok (n, d)
      → removes jti w (commit d w) ≡ false
      → ltb 0 n ≡ false
  unfolding delete_live_token
  deleted_none now w n d valid e =
      subst
        (λ r. elim r as (λ _. Type 0) [
          | ok (n, d) ↦ removes jti w (commit d w) ≡ false → ltb 0 n ≡ false
          | err e ↦ Unit {0}
        ])
        e (delete-removes now w valid)

  -- Where the row of the ID is not removed, none is consumed.
  consume-Needs : Needs (removes jti) (OnOk (λ b. b ≡ false)) (consume_refresh_token sys jti)
  unfolding consume_refresh_token pure
  consume-Needs = Needs-call sys.clock _ (λ t.
      Needs-bind {Q = λ n. ltb 0 n ≡ false} _ _
        (Needs-query sys _ _ (deleted_none (as_i64 (sys.clock t))))
        (λ rows none. Needs-result (ok (ltb 0 rows)) (λ b e.
          sym (ap (λ r. elim r as (λ _. Bool) [ ok b ↦ b | err e ↦ ltb 0 rows ]) e) ∙ none)))

  -- The token decodes to claims of this ID alone.
  abbrev pub Names : String → Type 0
  Names token = (c : Claims) (now : ℕ) → sys.jwt_decode token config.secret now ≡ ok c → c.jti ≡ jti

  refresh-Needs :
      (body : RefreshRequest)
      → Names body.refresh_token
      → Needs (removes jti) (OnOk (λ a. ⊥)) (refresh sys config body)
  unfolding refresh verify_token lift
  refresh-Needs body names = Needs-bind {Q = λ c. c.jti ≡ jti} _ _ verified (λ claims this.
      Needs-bind _ _ (Needs-fail_if _ _) (λ _ _.
        Needs-bind {Q = λ b. b ≡ false} _ _ (consumed claims this) (λ valid used.
          Needs-bind {Q = λ _. not valid ≡ false} _ _
            (Needs-fail_if (not valid) AuthToken.invalid_refresh_token)
            (λ _ usable.
              let wrong : not false ≡ false = ap not (sym used) ∙ usable in absurd (cc)))))
    where
      verified :
          Needs (removes jti) (OnOk (λ c. c.jti ≡ jti)) (verify_token sys body.refresh_token config)
      verified =
          Needs-call sys.clock _ (λ now. Needs-result _ (λ c e. names c _ (eq_of_map_err _ _ c e)))

      consumed :
          (c : Claims)
          → c.jti ≡ jti
          → Needs (removes jti) (OnOk (λ b. b ≡ false)) (consume_refresh_token sys c.jti)
      consumed c this =
          subst (λ j. Needs (removes jti) (OnOk (λ b. b ≡ false)) (consume_refresh_token sys j))
            (sym this) consume-Needs

  -- So does the request.
  serve-Needs :
      (body : Result String RefreshRequest)
      → ((b : RefreshRequest) → body ≡ ok b → Names b.refresh_token)
      → Needs (removes jti) IsRefused (serve sys config (post_refresh body))
  unfolding serve with_body lift from_request
  serve-Needs body names = Needs-finish respond _ IsRefused-respond (
      Needs-bind _ _ (Needs-result (from_request body) (λ b e. eq_of_map_err _ body b e))
        (λ b e. refresh-Needs b (names b e)))

-- Of two refreshes with tokens that decode to one token ID, at most one is answered with 200, however
-- these and any other requests interleave at the granularity of single statements, whatever faults the
-- database has: on tables that meet the schema and hold only token IDs that the program drew, where
-- UUIDs are fresh and the claims of a token do not depend on the time.
pub refresh_once_concurrently :
    (sys : System) (config : AuthConfig)
    → UuidLaws sys
    → JwtLaws sys
    → (requests : ℕ → Request) (w : World Tables) (order : List ℕ) → IsValid w.db
    → IsGenuine sys w
    → (i k : ℕ) (a b : RefreshRequest) (c d : Claims) (m n : ℕ) → i ≢ k
    → requests i ≡ post_refresh (ok a)
    → requests k ≡ post_refresh (ok b)
    → sys.jwt_decode a.refresh_token config.secret m ≡ ok c
    → sys.jwt_decode b.refresh_token config.secret n ≡ ok d
    → c.jti ≡ d.jti
    → (r r' : Response) → (interleave order (arriving sys config requests w)).requests i ≡ done r
    → (interleave order (arriving sys config requests w)).requests k ≡ done r'
    → (r.status ≢ 200) ⊎ (r'.status ≢ 200)
unfolding prize
refresh_once_concurrently sys config uuids jwt requests w order valid genuine i k a b c d m n apart
      ei ek ca db same r r' =
    one_loses sys uuids (prize sys uuids c.jti) IsRefused i k apart order _
      (arriving-IsSound sys uuids config requests w valid genuine) (needs i a c m ei ca refl)
      (needs k b d n ek db (sym same)) r r'
  where
    names :
        (body : RefreshRequest) (x : Claims) (t : ℕ)
        → sys.jwt_decode body.refresh_token config.secret t ≡ ok x
        → x.jti ≡ c.jti
        → Names sys config c.jti body.refresh_token
    names body x t e this y now e' =
        ap (λ c. c.jti) (jwt.decode_same y x config.secret body.refresh_token now t e' e) ∙ this

    needs :
        (j : ℕ) (body : RefreshRequest) (x : Claims) (t : ℕ)
        → requests j ≡ post_refresh (ok body)
        → sys.jwt_decode body.refresh_token config.secret t ≡ ok x
        → x.jti ≡ c.jti
        → Needs (removes c.jti) IsRefused (serve sys config (requests j))
    needs j body x t ej e this = rw ej (
        serve-Needs sys config c.jti (ok body) (λ b eb.
          subst (λ b. Names sys config c.jti b.refresh_token) (eq_of_ok body b eb)
            (names body x t e this)))
