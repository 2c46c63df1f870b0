-- ===== src/Response/Laws.antt =====
-- src/response.rs: the envelope and the HTTP status agree, and all ways to answer an error do.
use servir.Prelude.{String, ◌≡◌, refl, Option, none, some, Result, ok, err, map_ok, arith, ◌≤◌}
use servir.Json.{Json, str, Serialize, get}
use servir.Error.Context.{serialize}
use servir.Error.Kinds.{AuthUserError, AuthTokenError, ServirError}
use servir.Error.Servir.{status_code, error_id, context}
use servir.Response.{ok_data, map, from_result, Response, respond}

-- `json["error"][key]`
abbrev pub error_field : String → Json → Option Json
error_field key body = elim (get "error" body) [ none ↦ none | some inner ↦ get key inner ]

-- No error is answered with a status of success.
pub status_code_ge_400 : (e : ServirError) → 400 ≤ status_code e
status_code_ge_400 (ServirError.db e) = omega arith
status_code_ge_400 (ServirError.auth_user e) =
    elim e as (λ e. 400 ≤ status_code (ServirError.auth_user e)) [
      | AuthUserError.empty_username ↦ omega arith
      | AuthUserError.weak_password ↦ omega arith
      | AuthUserError.already_exists u v ↦ omega arith
      | AuthUserError.invalid_credentials u ↦ omega arith
      | AuthUserError.password_hash_failed u ↦ omega arith
    ]
status_code_ge_400 (ServirError.auth_token e) =
    elim e as (λ e. 400 ≤ status_code (ServirError.auth_token e)) [
      | AuthTokenError.missing_layer ↦ omega arith
      | AuthTokenError.encode_failed u ↦ omega arith
      | _ ↦ omega arith
    ]
status_code_ge_400 (ServirError.bad_request u) = omega arith
status_code_ge_400 ServirError.not_found = omega arith
status_code_ge_400 (ServirError.io u) = omega arith

module _ {T : Type 0} ⦃s : Serialize T⦄ where
  -- A handler that returns `Err(e)` and one that collapses its result into an `ApiResponse` send the
  -- same response, whatever the result.
  pub respond-from_result :
      (r : Result ServirError T) → respond (ok (from_result r)) ≡ respond (map_ok ok_data r)
  unfolding respond from_result
  respond-from_result (ok value) = refl
  respond-from_result (err e) = refl

  -- What a client reads from a response: data with 200 under the tag "ok", or an error with a status
  -- of at least 400 under the tag "error", with its status, its error ID and its context.
  abbrev pub Answers : Result ServirError T → Response → Type 0
  Answers (ok value) r =
      (r.status ≡ 200)
      × (get "status" r.body ≡ some (str "ok"))
      × (get "data" r.body ≡ some (s.to_json value))
  Answers (err e) r =
      (r.status ≡ status_code e)
      × (400 ≤ r.status)
      × (get "status" r.body ≡ some (str "error"))
      × (error_field "error_id" r.body ≡ some (str (error_id e)))
      × (error_field "context" r.body ≡ some (serialize (context e)))

  -- A handler that succeeds is answered with 200, the tag "ok" and its data; one that fails with the
  -- status of its error, which is at least 400, the tag "error", and the error's ID and context.
  pub respond-Answers : (r : Result ServirError T) → Answers r (respond (map_ok ok_data r))
  unfolding respond
  respond-Answers (ok value) = (refl, refl, refl)
  respond-Answers (err e) = (refl, status_code_ge_400 e, refl, refl, refl)

-- Mapping the data commutes with collapsing a result, and leaves an error as it is.
pub map-from_result {ℓ κ} :
    {T : Type ℓ} {U : Type κ} (f : T → U) (r : Result ServirError T)
    → map f (from_result r) ≡ from_result (map_ok f r)
unfolding map from_result
map-from_result f (ok value) = refl
map-from_result f (err e) = refl
