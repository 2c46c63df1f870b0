-- ===== src/Server/AppJson.antt =====
-- src/server.rs: `AppJson::from_request`. What `axum::Json` makes of the body is given: the value, or
-- the text of its rejection.
use servir.Prelude.{String, Result, map_err}
use servir.Error.Kinds.{ServirError}
use servir.Error.Servir

unfoldable pub from_request {ℓ} : {T : Type ℓ} → Result String T → Result ServirError T
from_request body = map_err (λ text. Servir.bad_request text) body
