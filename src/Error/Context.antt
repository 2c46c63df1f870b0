-- ===== src/Error/Context.antt =====
-- src/error.rs: `Identifier` and `ErrorContext`, with its `Serialize` implementation.
use servir.Prelude.{String, Option, none, some}
use servir.Json.{Json, obj, str, Fields, end, entry, opt_str}

-- The field that the source names `kind`, and its value.
pub record Identifier : Type 0 where
  pub kind : String
  pub value : String

pub record ErrorContext : Type 0 where
  pub error : Option String
  pub identifier : Option Identifier

-- `ErrorContext::new`
abbrev pub new : Option String → String → String → ErrorContext
new error kind value = record {
  error = error;
  identifier = some (record { kind = kind; value = value });
}

-- `ErrorContext::error_only`
abbrev pub error_only : String → ErrorContext
error_only error = record { error = some error; identifier = none }

-- `ErrorContext::empty`
abbrev pub empty : ErrorContext
empty = record { error = none; identifier = none }

abbrev pub identifier_entry : Option Identifier → Fields
identifier_entry none = end
identifier_entry (some id) = entry id.kind (str id.value) end

-- `ErrorContext::serialize`: the entry `error` always, then the identifier if there is one.
unfoldable pub serialize : ErrorContext → Json
serialize ctx = obj (entry "error" (opt_str ctx.error) (identifier_entry ctx.identifier))
