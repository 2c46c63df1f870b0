-- ===== src/Async/Safe.antt =====
-- src/auth/http.rs: the moves of `Moves` that a request makes, in whatever worlds it makes its calls.
use servir.Prelude.{ℕ, String, Option, Result}
use servir.System.{System}
use servir.Error.Kinds.{ServirError}
use servir.Auth.Config.{AuthConfig}
use servir.Auth.Extractor
use servir.Auth.Http.{RegisterRequest, LoginRequest, RefreshRequest, LogoutRequest}
use servir.Auth.Service.{Request, post_register, post_login, post_refresh, post_logout, get_me}
use servir.Db.Schema.{Tables}
use servir.Db.Repository.{User}
use servir.Async.Proc.{Async, pure, lift}
use servir.Async.Moves.{
  Safe, ends, OnOk, Safe-finish, Safe-bind, Safe-then, Safe-result, Safe-fail_if, Safe-or_fail,
}
use servir.Async.Handlers
use servir.Async.Kept.{
  IsKept, hash_password-Safe, create_user-Safe, find_user_by_username-Safe, find_user_by_id-Safe,
  consume_refresh_token-Safe, delete_refresh_tokens_for_user-Safe, issue_access_token-Safe,
  verify_token-Safe, issue_refresh_token-Safe, store_refresh_token-Safe,
}

-- A request may end with whatever pending.
abbrev Anything : {A : Type 0} → Option ℕ → ℕ → A → Type 0
Anything o m a = Unit {0}

module _ (sys : System) (config : AuthConfig) {o : Option ℕ} {m : ℕ} where
  issue_tokens-Safe :
      (user : User) → Safe sys (OnOk sys Anything) o m (Handlers.issue_tokens sys config user)
  unfolding Handlers.issue_tokens pure
  issue_tokens-Safe user =
      Safe-then sys _ _ (issue_access_token-Safe sys user.id user.username config)
        (λ m₁ access late.
          Safe-bind sys _ _ (issue_refresh_token-Safe sys user.id user.username config)
            (λ o₂ m₂ x late₁ (t, pending, drawn).
              Safe-bind sys _ _
                (store_refresh_token-Safe sys x.1 user.id user.username
                  config.refresh_token_ttl_secs t pending drawn)
                (λ o₃ m₃ u late₂ e. ends o₃ m₃ _ tt)))

module _ (sys : System) (config : AuthConfig) {o : Option ℕ} {m : ℕ} where
  register-Safe :
      (body : RegisterRequest)
      → Safe sys (OnOk sys Anything) o m (Handlers.register sys config body)
  unfolding Handlers.register
  register-Safe body = Safe-then sys _ _ (Safe-fail_if sys _ _) (λ m₁ u late₁.
      Safe-then sys _ _ (Safe-fail_if sys _ _) (λ m₂ u' late₂.
        Safe-then sys _ _ (hash_password-Safe sys body.password) (λ m₃ hash late₃.
          Safe-then sys _ _ (create_user-Safe sys body.username hash)
            (λ m₄ user late₄. issue_tokens-Safe sys config user))))

  login-Safe :
      (body : LoginRequest) → Safe sys (OnOk sys Anything) o m (Handlers.login sys config body)
  unfolding Handlers.login lift
  login-Safe body =
      Safe-then sys _ _ (find_user_by_username-Safe sys body.username) (λ m₁ found late₁.
        Safe-then sys _ _ (Safe-or_fail sys _ _) (λ m₂ user late₂.
          Safe-then sys _ _ (Safe-result sys _) (λ m₃ matches late₃.
            Safe-then sys _ _ (Safe-fail_if sys _ _)
              (λ m₄ u late₄. issue_tokens-Safe sys config user))))

  refresh-Safe :
      (body : RefreshRequest) → Safe sys (OnOk sys Anything) o m (Handlers.refresh sys config body)
  unfolding Handlers.refresh
  refresh-Safe body =
      Safe-then sys _ _ (verify_token-Safe sys body.refresh_token config) (λ m₁ claims late₁.
        Safe-then sys _ _ (Safe-fail_if sys _ _) (λ m₂ u late₂.
          Safe-then sys _ _ (consume_refresh_token-Safe sys claims.jti) (λ m₃ valid late₃.
            Safe-then sys _ _ (Safe-fail_if sys _ _) (λ m₄ u' late₄.
              Safe-then sys _ _ (find_user_by_id-Safe sys claims.sub) (λ m₅ found late₅.
                Safe-then sys _ _ (Safe-or_fail sys _ _)
                  (λ m₆ user late₆. issue_tokens-Safe sys config user))))))

  logout-Safe :
      (body : LogoutRequest) → Safe sys (OnOk sys Anything) o m (Handlers.logout sys config body)
  unfolding Handlers.logout pure
  logout-Safe body =
      Safe-then sys _ _ (verify_token-Safe sys body.refresh_token config) (λ m₁ claims late₁.
        Safe-then sys _ _ (Safe-fail_if sys _ _) (λ m₂ u late₂.
          Safe-then sys _ _ (delete_refresh_tokens_for_user-Safe sys claims.sub)
            (λ m₃ u' late₃. ends _ _ _ tt)))

module _ (sys : System) {o : Option ℕ} {m : ℕ} where
  me-Safe : (parts : Extractor.Parts) → IsKept sys o m (Handlers.me sys parts)
  unfolding Handlers.me Handlers.auth_user pure
  me-Safe parts =
      Safe-then sys _ _
        (Safe-then sys _ _ (Safe-or_fail sys _ _) (λ m₁ config late₁.
          Safe-then sys _ _ (Safe-or_fail sys _ _) (λ m₂ token late₂.
            Safe-then sys _ _ (verify_token-Safe sys token config) (λ m₃ claims late₃.
              Safe-then sys _ _ (Safe-fail_if sys _ _) (λ m₄ u late₄. Safe-result sys _)))))
        (λ m₅ claims late₅. Safe-result sys _)

  with_body-Safe :
      {B A : Type 0} {Q : Option ℕ → ℕ → A → Type 0} (handler : B → Async Tables ServirError A)
      (body : Result String B)
      → ((value : B) (m' : ℕ) → Safe sys (OnOk sys Q) o m' (handler value))
      → Safe sys (OnOk sys Q) o m (Handlers.with_body handler body)
  unfolding Handlers.with_body lift
  with_body-Safe handler body h =
      Safe-then sys _ _ (Safe-result sys _) (λ m' value late. h value m')

  -- Every request makes moves only, in whatever worlds.
  pub serve-Safe :
      (config : AuthConfig) (req : Request)
      → Safe sys (λ o' m' r. Unit {0}) o m (Handlers.serve sys config req)
  unfolding Handlers.serve Extractor.call_layer
  serve-Safe config (post_register body) =
      Safe-finish sys _ _
        (with_body-Safe {Q = Anything} _ body (λ b m'. register-Safe sys config b))
  serve-Safe config (post_login body) =
      Safe-finish sys _ _ (with_body-Safe {Q = Anything} _ body (λ b m'. login-Safe sys config b))
  serve-Safe config (post_refresh body) =
      Safe-finish sys _ _ (with_body-Safe {Q = Anything} _ body (λ b m'. refresh-Safe sys config b))
  serve-Safe config (post_logout body) =
      Safe-finish sys _ _ (with_body-Safe {Q = Anything} _ body (λ b m'. logout-Safe sys config b))
  serve-Safe config (get_me parts) = Safe-finish sys _ _ (me-Safe _)
