-- ===== src/Auth/Service/Sessions.antt =====
-- What a user can do with an account and with a session, over sequences of requests.
use servir.Prelude.{◌≡◌, ok, List}
use servir.System.{System}
use servir.System.Laws.{JwtLaws, Argon2Laws}
use servir.System.Actions.{World}
use servir.Response.{ApiResponse, ok_data}
use servir.Auth.Config.{AuthConfig}
use servir.Auth.Http.{RegisterRequest, TokenResponse, register, login}
use servir.Auth.Http.Availability.{IsUp}
use servir.Auth.Http.Availability.Handlers.{IsFresh, login_succeeds}
use servir.Auth.Service.{Request}
use servir.Auth.Service.Traces.{after}
use servir.Auth.Service.Credentials.{registered, registered_row}
use servir.Db.Schema.{Tables}

-- Whoever registered can log in with the same username and password after any further requests, of
-- anyone, where the database has no faults, Argon2 accepts the password that it hashed, and the IDs that
-- are drawn are not in the tables.
pub registered_login :
    (sys : System) (config : AuthConfig) (w : World Tables) (body : RegisterRequest)
    (r : ApiResponse TokenResponse)
    → (register sys config body w).0 ≡ ok r
    → IsUp sys
    → JwtLaws sys
    → Argon2Laws sys
    → (reqs : List Request) → IsFresh sys (after sys config reqs (register sys config body w).1)
    → (tokens : TokenResponse) × ((login sys config
          (record { username = body.username; password = body.password })
          (after sys config reqs (register sys config body w).1)).0
        ≡ ok (ok_data tokens))
registered_login sys config w body r e up jwt argon2 reqs fresh =
    let d = registered sys config w body r e in
    login_succeeds sys up config jwt _ argon2 fresh _ d.row d.salt
      (registered_row sys config w body r e reqs) d.hashed
