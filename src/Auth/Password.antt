-- ===== src/Auth/Password.antt =====
-- src/auth/core.rs: `hash_password` and `verify_password`.
use servir.Prelude.{String, Bool, Result, ok, map_err, and_then}
use servir.System.{System}
use servir.System.Actions.{Action, lift, call, ◌>>=◌}
use servir.Error.Kinds.{ServirError}
use servir.Error.AuthUser

unfoldable pub hash_password : {D : Type 0} → System → String → Action D ServirError String
hash_password sys plaintext = do
  salt ← call sys.salt
  lift (map_err AuthUser.password_hash_failed (sys.argon2_hash plaintext salt))

unfoldable pub verify_password : System → String → String → Result ServirError Bool
verify_password sys plaintext hash =
    and_then (map_err AuthUser.password_hash_failed (sys.phc_parse hash))
      (λ parsed. ok (sys.argon2_verify plaintext parsed))
