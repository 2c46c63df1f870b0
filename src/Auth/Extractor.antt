-- ===== src/Auth/Extractor.antt =====
-- src/auth/http.rs: `AuthLayer` with its service, and the extractor `AuthUser`. `Rejections` is
-- what it lets through, and how it answers the rest.
pub mod Rejections
use servir.Prelude.{String, strip_prefix, Option, none, some, not}
use servir.System.{System}
use servir.System.Actions.{Action, pure, fail_if, or_fail, ◌>>=◌, ◌>>◌}
use servir.Auth.Claims.{Claims, same_kind, access}
use servir.Auth.Config.{AuthConfig}
use servir.Auth.Token.{verify_token}
use servir.Error.Kinds.{ServirError}
use servir.Error.AuthToken

-- A header's value: `to_str` gives its text where it is visible ASCII, and fails otherwise.
pub data HeaderValue : Type 0 where
  text : String → HeaderValue
  opaque : HeaderValue

abbrev pub to_str : HeaderValue → Option String
to_str (text s) = some s
to_str opaque = none

-- The parts of a request that the extractor reads: the `AuthConfig` among the extensions, and the
-- header `Authorization`.
pub record Parts : Type 0 where
  pub extension : Option AuthConfig
  pub authorization : Option HeaderValue

pub record AuthLayer : Type 0 where
  pub config : AuthConfig

-- `AuthService`, around what handles a request's parts.
pub record AuthService {ℓ} (F : Type ℓ) : Type ℓ where
  pub inner : Parts → F
  pub config : AuthConfig

-- `AuthLayer::new`
abbrev pub new_layer : AuthConfig → AuthLayer
new_layer config = record { config = config }

-- `Layer::layer`
abbrev pub layer {ℓ} : {F : Type ℓ} → AuthLayer → (Parts → F) → AuthService F
layer l inner = record { inner = inner; config = l.config }

-- `AuthService::call`
abbrev pub call {ℓ} : {F : Type ℓ} → AuthService F → Parts → F
call service req = service.inner (record req { extension = some service.config })

-- What the layer makes of `inner`.
unfoldable pub call_layer {ℓ} : {F : Type ℓ} → AuthLayer → (Parts → F) → Parts → F
call_layer l inner req = call (layer l inner) req

-- `Option::and_then`
abbrev and_then : {A B : Type 0} → Option A → (A → Option B) → Option B
and_then none f = none
and_then (some a) f = f a

-- `headers.get(AUTHORIZATION)`, its text, and what stands behind "Bearer ".
unfoldable pub bearer_token : Parts → Option String
bearer_token parts = and_then (and_then parts.authorization to_str) (λ s. strip_prefix s "Bearer ")

-- `AuthUser::from_request_parts`
unfoldable pub auth_user : {D : Type 0} → System → Parts → Action D ServirError Claims
auth_user sys parts = do
  config ← or_fail parts.extension AuthToken.missing_layer
  token ← or_fail (bearer_token parts) AuthToken.missing_header
  claims ← verify_token sys token config
  fail_if (not (same_kind claims.kind access)) AuthToken.wrong_kind
  pure claims
