-- ===== src/Error/Info.antt =====
-- src/error.rs: the trait `ErrorInfo`, and the `Display` that the macro `impl_err_from_info` derives
-- from it. A `StatusCode` of the http crate is its number.
use servir.Prelude.{ℕ, String, append, Option, none, some}
use servir.Error.Context.{Identifier, ErrorContext}

abbrev pub StatusCode : Type 0
StatusCode = ℕ

pub record ErrorInfo (E : Type 0) : Type 0 where
  pub status_code : E → StatusCode
  pub error_id : E → String
  pub context : E → ErrorContext

abbrev identifier_text : Option Identifier → String
identifier_text none = ""
identifier_text (some id) = append ". " (append id.kind (append ": " id.value))

abbrev error_text : Option String → String
error_text none = ""
error_text (some error) = append " (" (append error ")")

-- `Display::fmt`: what it writes, in order.
unfoldable pub display : {E : Type 0} ⦃i : ErrorInfo E⦄ → E → String
display ⦃i⦄ e =
    append (i.error_id e)
      (append (identifier_text (i.context e).identifier) (error_text (i.context e).error))
