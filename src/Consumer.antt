-- ===== src/Consumer.antt =====
-- consumer/src/lib.rs and consumer/src/db/mod.rs: the example server's profiles, and its route.
-- `Profiles` proves what the operation promises, and `Visits` what the route does over a sequence of requests.
pub mod Profiles
pub mod Visits
pub mod App
pub mod Main
use servir.Prelude.{
  ℕ, String, ◌==◌, ℤ, as_i64, Bool, Option, some, none, List, ◌∷◌, ok, err, Result, map_err,
  if◌then◌else◌,
}
use servir.Json.{str, obj, entry, end, Serialize}
use servir.Sql.{has, select}
use servir.System.{System, user_profiles_id}
use servir.System.Actions.{
  Action, Statement, pure, lift, call, map_error, execute, unique_violation, ◌>>=◌, ◌>>◌,
}
use servir.Error.Kinds.{ServirError}
use servir.Error.Db
use servir.Response.{ApiResponse, ok_data}
use servir.Auth.Extractor.{Parts, auth_user}

-- The struct, and a row of `user_profiles`.
pub record UserProfile : Type 0 where
  pub id : String
  pub username : String
  pub created_at : ℤ

pub record ProfileTable : Type 0 where
  pub user_profiles : List UserProfile

abbrev pub profile_id_is : String → UserProfile → Bool
profile_id_is id r = r.id == id

-- SELECT id, username, created_at FROM user_profiles WHERE id = ?
unfoldable pub select_profile : String → Statement ProfileTable (Option UserProfile)
select_profile id t = ok (select (profile_id_is id) t.user_profiles, t)

-- INSERT INTO user_profiles
unfoldable pub insert_profile : System → UserProfile → Statement ProfileTable (Unit {0})
insert_profile sys row t =
    if has (profile_id_is row.id) t.user_profiles
    then err (unique_violation sys user_profiles_id)
    else ok (tt, record { user_profiles = row ∷ t.user_profiles })

-- A call to SQLite that leaves the rows.
abbrev no_rows : Statement ProfileTable (Unit {0})
no_rows t = ok (tt, t)

module _ (sys : System) where
  -- `Db::connect`
  unfoldable pub connect : String → Action ProfileTable ServirError (Unit {0})
  connect database_url = do
    lift (map_err (Db.connection database_url) (sys.parse_url database_url))
    map_error (λ e. Db.connection database_url e.text) (execute sys no_rows)

  -- `Db::migrate`, without the query of the version, which is for the log only. The migration makes the
  -- table where it is missing, without rows.
  unfoldable pub migrate : Action ProfileTable ServirError (Unit {0})
  migrate = map_error (λ e. Db.migration e.text) (execute sys no_rows)

  -- The rest of `find_or_create_profile`, where there is no profile.
  unfoldable pub create_profile : String → String → Action ProfileTable ServirError UserProfile
  unfolding insert_profile
  create_profile user_id username = do
    now ← call sys.clock
    let profile : UserProfile = record {
      id = user_id;
      username = username;
      created_at = as_i64 now;
    }
    map_error (λ e. Db.unknown "insert_user_profile" e.text)
        (execute sys (insert_profile sys profile))
    pure profile

  unfoldable pub find_or_create_profile :
      String → String → Action ProfileTable ServirError UserProfile
  unfolding select_profile create_profile
  find_or_create_profile user_id username = do
    row ←
        map_error (λ e. Db.unknown "find_user_profile" e.text)
          (execute sys (select_profile user_id))
    elim row [ some profile ↦ pure profile | none ↦ create_profile user_id username ]

pub record UserResponse : Type 0 where
  pub id : String
  pub username : String

instance abbrev pub user_response_serialize : Serialize UserResponse
user_response_serialize = record {
  to_json = λ r. obj (entry "id" (str r.id) (entry "username" (str r.username) end));
}

-- The extractor `AuthUser`, then the handler's body.
unfoldable pub user : System → Parts → Action ProfileTable ServirError (ApiResponse UserResponse)
user sys parts = do
  claims ← auth_user sys parts
  profile ← find_or_create_profile sys claims.sub claims.username
  pure (ok_data (record { id = profile.id; username = profile.username }))
