-- ===== src/Error/Contexts.antt =====
-- src/error.rs: what the serialised context of an error lets a client read.
use servir.Prelude.{◌==◌, eq_refl, ◌≡◌, refl, Option, none, some, false}
use servir.Json.{Json, str, get, opt_str}
use servir.Error.Context.{Identifier, ErrorContext, serialize}
use servir.Error.Kinds.{DbError, AuthUserError, AuthTokenError, ServirError}
use servir.Error.Servir.{context}

-- The identifier, if there is one, stands under a key other than `error`.
abbrev IsApart : Option Identifier → Type 0
IsApart none = Unit {0}
IsApart (some id) = ("error" == id.kind) ≡ false

-- A reader of the JSON map finds the identifier under its kind.
abbrev pub Finds : Json → Option Identifier → Type 0
Finds j none = Unit {0}
Finds j (some id) = get id.kind j ≡ some (str id.value)

context-IsApart : (e : ServirError) → IsApart (context e).identifier
context-IsApart (ServirError.db (DbError.connection u v)) = refl
context-IsApart (ServirError.db (DbError.migration u)) = tt
context-IsApart (ServirError.db (DbError.user_create u v)) = refl
context-IsApart (ServirError.db (DbError.user_find_by_username u v)) = refl
context-IsApart (ServirError.db (DbError.user_find_by_id u v)) = refl
context-IsApart (ServirError.db (DbError.store_refresh_token u v)) = refl
context-IsApart (ServirError.db (DbError.delete_refresh_tokens_for_user u v)) = refl
context-IsApart (ServirError.db (DbError.consume_refresh_token u)) = tt
context-IsApart (ServirError.db (DbError.unknown u v)) = refl
context-IsApart (ServirError.auth_user AuthUserError.empty_username) = tt
context-IsApart (ServirError.auth_user AuthUserError.weak_password) = tt
context-IsApart (ServirError.auth_user (AuthUserError.already_exists u v)) = refl
context-IsApart (ServirError.auth_user (AuthUserError.invalid_credentials u)) = refl
context-IsApart (ServirError.auth_user (AuthUserError.password_hash_failed u)) = tt
context-IsApart (ServirError.auth_token AuthTokenError.expired) = tt
context-IsApart (ServirError.auth_token (AuthTokenError.invalid u)) = tt
context-IsApart (ServirError.auth_token AuthTokenError.missing_header) = tt
context-IsApart (ServirError.auth_token AuthTokenError.wrong_kind) = tt
context-IsApart (ServirError.auth_token AuthTokenError.invalid_refresh_token) = tt
context-IsApart (ServirError.auth_token (AuthTokenError.user_not_found u)) = refl
context-IsApart (ServirError.auth_token AuthTokenError.missing_layer) = tt
context-IsApart (ServirError.auth_token (AuthTokenError.encode_failed u)) = tt
context-IsApart (ServirError.bad_request u) = tt
context-IsApart ServirError.not_found = tt
context-IsApart (ServirError.io u) = tt

serialize-Finds :
    (ctx : ErrorContext) → IsApart ctx.identifier → Finds (serialize ctx) ctx.identifier
unfolding serialize
serialize-Finds ctx = go ctx.identifier
  where
    go :
        (i : Option Identifier)
        → IsApart i
        → Finds (serialize (record { error = ctx.error; identifier = i })) i
    go none h = tt
    go (some id) h = rw h (rw eq_refl refl)

-- For every error, the serialised context has an entry `error` with the error text or null, and the
-- identifier, where the error has one, is found under its kind: no kind is `error`, so neither entry
-- hides the other.
pub serialize-context_entries :
    (e : ServirError)
    → (get "error" (serialize (context e)) ≡ some (opt_str (context e).error))
      × Finds (serialize (context e)) (context e).identifier
unfolding serialize
serialize-context_entries e = (refl, serialize-Finds (context e) (context-IsApart e))
