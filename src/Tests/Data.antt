-- ===== src/Tests/Data.antt =====
-- The inputs of the tests.
use servir.Prelude.{refl, arith, ℕ, String, [], ◌∷◌, pos, List, Option, none, some, Result, ok, err}
use servir.System.{System}
use servir.System.Actions.{World}
use servir.System.Sample.{
  sample, sample_uuid, sample-UuidLaws, sample-ClockLaws, sample-JwtLaws, sample-Argon2Laws,
}
use servir.System.Laws.{UuidLaws, ClockLaws, JwtLaws, Argon2Laws}
use servir.Db.Validity.{IsValid}
use servir.Db.Persistence.{IsGenuine}
use servir.Auth.Claims.{Claims, TokenKind, access, refresh as refresh_kind}
use servir.Auth.Config.{AuthConfig}
use servir.System.Sample.Codec.{encode_claims}
use servir.Auth.Http.{RegisterRequest, LoginRequest, RefreshRequest, LogoutRequest, TokenResponse}
use servir.Response.{ApiResponse, ok_data, error_body}
use servir.Error.Kinds.{ServirError}
use servir.Db.Schema.{Tables, UserRow, TokenRow}

abbrev pub config : AuthConfig
config = record { secret = "secret"; access_token_ttl_secs = 9; refresh_token_ttl_secs = 60 }

abbrev pub no_fault : ℕ → Option String
no_fault t = none

abbrev pub empty : World Tables
empty = record { db = record { users = []; refresh_tokens = []; auth_config = [] }; tick = 0 }

abbrev pub alice_row : UserRow
alice_row = record { id = "u"; username = "alice"; password_hash = "+password"; created_at = pos 1 }

abbrev pub token_row : TokenRow
token_row = record { jti = sample_uuid 3; user_id = "u"; expires_at = pos 100; created_at = pos 4 }

-- alice is registered, and has one refresh token.
abbrev pub one_user : World Tables
one_user = record {
  db = record { users = alice_row ∷ []; refresh_tokens = token_row ∷ []; auth_config = [] };
  tick = 10;
}

abbrev pub alice_claims : TokenKind → Claims
alice_claims kind = record {
  sub = "u";
  username = "alice";
  exp = 100;
  iat = 3;
  jti = sample_uuid 3;
  kind = kind;
}

abbrev pub alice_token : String
alice_token = encode_claims (alice_claims refresh_kind) "secret"

abbrev pub access_token : String
access_token = encode_claims (alice_claims access) "secret"

abbrev pub alice : RegisterRequest
alice = record { username = "alice"; password = "password" }

abbrev pub alice_login : LoginRequest
alice_login = record { username = "alice"; password = "password" }

abbrev pub alice_refresh : RefreshRequest
alice_refresh = record { refresh_token = alice_token }

abbrev pub alice_logout : LogoutRequest
alice_logout = record { refresh_token = alice_token }

-- What a run of the handlers unfolds.
unfoldable pub program : Unit {0}
unfolding servir.Prelude.Int.add_usize servir.Prelude.Int.as_i64 servir.Prelude.Int.add_i64
    servir.Prelude.Int.lt_ℤ servir.Prelude.Text.strip_prefix servir.System.Actions.running sample
    encode_claims servir.Auth.Http.register servir.Auth.Http.login servir.Auth.Http.refresh
    servir.Auth.Http.logout servir.Auth.Http.me servir.Auth.Extractor.auth_user
    servir.Auth.Extractor.bearer_token servir.Auth.Password.hash_password
    servir.Auth.Password.verify_password servir.Db.Repository.create_user
    servir.Db.Repository.find_user_by_username servir.Db.Repository.find_user_by_id
    servir.Db.Repository.store_refresh_token servir.Db.Repository.consume_refresh_token
    servir.Db.Repository.delete_refresh_tokens_for_user servir.Auth.Token.issue_access_token
    servir.Auth.Token.issue_refresh_token servir.Auth.Token.verify_token
program = tt

abbrev no_tokens : TokenResponse
no_tokens = record { access_token = ""; refresh_token = ""; token_type = "" }

-- The tokens of an answer.
abbrev pub tokens_of : Result ServirError (ApiResponse TokenResponse) → TokenResponse
tokens_of (ok (ok_data tokens)) = tokens
tokens_of (ok (error_body e)) = no_tokens
tokens_of (err e) = no_tokens

abbrev pub uuids : UuidLaws sample
unfolding sample
uuids = sample-UuidLaws no_fault

abbrev pub clocks : ClockLaws sample
unfolding sample
clocks = sample-ClockLaws no_fault

abbrev pub jwt : JwtLaws sample
unfolding sample
jwt = sample-JwtLaws no_fault

abbrev pub argon2 : Argon2Laws sample
unfolding sample
argon2 = sample-Argon2Laws no_fault

pub one_user-IsValid : IsValid one_user.db
one_user-IsValid = record {
  ids = (refl, tt);
  usernames = (refl, tt);
  jtis = (refl, tt);
  owners = (refl, tt);
  keys = tt;
}

pub one_user-IsGenuine : IsGenuine sample one_user
unfolding sample
one_user-IsGenuine =
    (record { at = 3; since = omega arith; before = omega arith; drawn = refl }, tt)

pub empty-IsValid : IsValid empty.db
empty-IsValid = record { ids = tt; usernames = tt; jtis = tt; owners = tt; keys = tt }
