-- ===== src/Tests/Visits.antt =====
-- The theorems on the consumer at concrete inputs.
use servir.Prelude.{◌≡◌, refl, none, List, [], ◌∷◌}
use servir.System.Actions.{World}
use servir.System.Posts.{Post}
use servir.System.Sample.{sample}
use servir.Auth.Claims.{access}
use servir.Response.{ApiResponse, ok_data}
use servir.Auth.Extractor.{Parts}
use servir.Auth.Extractor.Rejections.{bearer}
use servir.Consumer.{ProfileTable, UserResponse, find_or_create_profile, create_profile, user}
use servir.Consumer.Visits.{IsServed, user-IsServed, profile_stays}
use servir.Tests.Data.{program, config, access_token, alice_claims}

abbrev no_profiles : World ProfileTable
no_profiles = record { db = record { user_profiles = [] }; tick = 5 }

abbrev visit : Parts
visit = bearer config access_token

user-IsServed_example :
    Post
      (IsServed sample visit no_profiles)
      (λ e w'. w'.db ≡ no_profiles.db)
      (user sample visit no_profiles)
user-IsServed_example = user-IsServed sample visit no_profiles

-- A second visit, and one without a token, between the two.
abbrev others : List Parts
others = visit ∷ (record visit { authorization = none }) ∷ []

abbrev answered : ApiResponse UserResponse
answered = ok_data (record { id = "u"; username = "alice" })

profile_stays_example : answered ≡ answered
unfolding program user find_or_create_profile create_profile
profile_stays_example =
    profile_stays sample no_profiles visit visit others (alice_claims access) (alice_claims access)
      answered answered refl refl refl refl refl
