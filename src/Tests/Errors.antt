-- ===== src/Tests/Errors.antt =====
-- The theorems on errors and responses at concrete inputs.
use servir.Prelude.{◌≡◌, refl, ok, err, Result, map_ok, some}
use servir.Json.{get, opt_str}
use servir.Error.Context.{serialize}
use servir.Error.Kinds.{ServirError}
use servir.Error.AuthUser
use servir.Error.AuthToken
use servir.Error.Servir.{status_code, context}
use servir.Error.Variants.{variant}
use servir.Error.Statuses.{
  documented_status, status_code-eq-documented_status, error_id-determines_variant,
}
use servir.Error.Contexts.{Finds, serialize-context_entries}
use servir.Response.{ok_data, respond}
use servir.Response.Laws.{Answers, respond-Answers}
use servir.Auth.Http.{MeResponse, me_response_serialize}

abbrev alice : Result ServirError MeResponse
alice = ok (record { user_id = "u"; username = "alice" })

abbrev refused : Result ServirError MeResponse
refused = err (AuthUser.invalid_credentials "alice")

status_code-eq-documented_status_example :
    documented_status "INVALID_CREDENTIALS"
    ≡ some (status_code (AuthUser.invalid_credentials "alice"))
status_code-eq-documented_status_example =
    status_code-eq-documented_status (AuthUser.invalid_credentials "alice") tt

error_id-determines_variant_example :
    (variant (AuthToken.user_not_found "u") ≡ variant (AuthToken.user_not_found "v"))
    × (status_code (AuthToken.user_not_found "u") ≡ status_code (AuthToken.user_not_found "v"))
error_id-determines_variant_example =
    error_id-determines_variant (AuthToken.user_not_found "u") (AuthToken.user_not_found "v") refl

serialize-context_entries_example :
    (get "error" (serialize (context (AuthUser.invalid_credentials "alice")))
      ≡ some (opt_str (context (AuthUser.invalid_credentials "alice")).error))
    × Finds
        (serialize (context (AuthUser.invalid_credentials "alice")))
        (context (AuthUser.invalid_credentials "alice")).identifier
serialize-context_entries_example = serialize-context_entries (AuthUser.invalid_credentials "alice")

respond-Answers_example : Answers alice (respond (map_ok ok_data alice))
respond-Answers_example = respond-Answers alice
