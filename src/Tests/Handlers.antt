-- ===== src/Tests/Handlers.antt =====
-- The theorems on single requests at concrete inputs.
use servir.System.Posts.{Post}
use servir.System.Sample.{sample}
use servir.Auth.Extractor.Rejections.{IsLetIn, IsRejected, bearer, auth_user-IsLetIn}
use servir.Auth.Extractor.{auth_user}
use servir.Auth.Http.{register, login, refresh, logout}
use servir.Auth.Http.Register.{IsRegistered, RegisterFails, register-IsRegistered}
use servir.Auth.Http.Login.{
  IsLoggedIn, IsLoggedOut, Unchanged, login-IsLoggedIn, logout-IsLoggedOut,
}
use servir.Auth.Http.Refresh.{IsRefreshed, RefreshFails, refresh-IsRefreshed}
use servir.Tests.Data.{
  config, empty, one_user, alice, alice_login, alice_refresh, alice_logout, access_token,
}

register-IsRegistered_example :
    Post
      (IsRegistered sample config empty alice)
      (RegisterFails sample config empty alice)
      (register sample config alice empty)
register-IsRegistered_example = register-IsRegistered sample config empty alice

login-IsLoggedIn_example :
    Post
      (IsLoggedIn sample config one_user alice_login)
      (Unchanged sample config one_user)
      (login sample config alice_login one_user)
login-IsLoggedIn_example = login-IsLoggedIn sample config one_user alice_login

refresh-IsRefreshed_example :
    Post
      (IsRefreshed sample config one_user alice_refresh)
      (RefreshFails sample config one_user alice_refresh)
      (refresh sample config alice_refresh one_user)
refresh-IsRefreshed_example = refresh-IsRefreshed sample config one_user alice_refresh

logout-IsLoggedOut_example :
    Post
      (IsLoggedOut sample config one_user alice_logout)
      (Unchanged sample config one_user)
      (logout sample config alice_logout one_user)
logout-IsLoggedOut_example = logout-IsLoggedOut sample config one_user alice_logout

auth_user-IsLetIn_example :
    Post
      (IsLetIn sample (bearer config access_token) one_user)
      (IsRejected sample (bearer config access_token) one_user)
      (auth_user sample (bearer config access_token) one_user)
auth_user-IsLetIn_example = auth_user-IsLetIn sample (bearer config access_token) one_user
