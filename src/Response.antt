-- ===== src/Response.antt =====
-- src/response.rs: the envelope `ApiResponse`, its conversions, and `IntoResponse`; and
-- src/error.rs: `IntoResponse` for `ServirError`. An axum `Response` is its status and its JSON body.
pub mod Laws
use servir.Prelude.{String, Result, ok, err}
use servir.Json.{Json, str, obj, end, entry, Serialize, unit_serialize}
use servir.Error.Context.{ErrorContext, serialize}
use servir.Error.Kinds.{ServirError}
use servir.Error.Info.{StatusCode}
use servir.Error.Servir.{status_code, error_id, context}

pub record ErrorBody : Type 0 where
  pub status_code : StatusCode
  pub error_id : String
  pub context : ErrorContext

-- The variants `Ok { data }` and `Error { error }`.
pub data ApiResponse {ℓ} (T : Type ℓ) : Type ℓ where
  ok_data : (value : T) → ApiResponse T
  error_body : (error : ErrorBody) → ApiResponse T

-- `ApiResponse::error`
unfoldable pub from_error {ℓ} : {T : Type ℓ} → ServirError → ApiResponse T
from_error e =
    error_body (record { status_code = status_code e; error_id = error_id e; context = context e })

-- `ApiResponse::map`
unfoldable pub map {ℓ κ} : {T : Type ℓ} {U : Type κ} → (T → U) → ApiResponse T → ApiResponse U
map f (ok_data value) = ok_data (f value)
map f (error_body error) = error_body error

-- `From<Result<T, ServirError>>`
unfoldable pub from_result {ℓ} : {T : Type ℓ} → Result ServirError T → ApiResponse T
unfolding from_error
from_result (ok value) = ok_data value
from_result (err e) = from_error e

-- What goes out on the wire.
pub record Response : Type 0 where
  pub status : StatusCode
  pub body : Json

-- `Serialize` of `ErrorBody`, which skips `status_code`.
abbrev error_body_json : ErrorBody → Json
error_body_json b =
    obj (entry "error_id" (str b.error_id) (entry "context" (serialize b.context) end))

module _ {T : Type 0} ⦃s : Serialize T⦄ where
  -- `Serialize` of `ApiResponse`, tagged by `status`.
  unfoldable pub envelope : ApiResponse T → Json
  envelope (ok_data value) = obj (entry "status" (str "ok") (entry "data" (s.to_json value) end))
  envelope (error_body error) =
      obj (entry "status" (str "error") (entry "error" (error_body_json error) end))

  abbrev http_status : ApiResponse T → StatusCode
  http_status (ok_data value) = 200
  http_status (error_body error) = error.status_code

  -- `ApiResponse::into_response`
  unfoldable pub into_response : ApiResponse T → Response
  unfolding envelope
  into_response r = record { status = http_status r; body = envelope r }

-- `ServirError::into_response`
unfoldable pub error_into_response : ServirError → Response
unfolding into_response
error_into_response e = into_response {T = Unit {0}} (
    error_body (record { status_code = status_code e; error_id = error_id e; context = context e }))

-- axum's `IntoResponse` for the `Result` that a handler returns: the value, or the rejection.
unfoldable pub respond :
    {T : Type 0} ⦃s : Serialize T⦄ → Result ServirError (ApiResponse T) → Response
unfolding into_response error_into_response
respond (ok r) = into_response r
respond (err e) = error_into_response e
