-- ===== src/Consumer/Visits.antt =====
-- consumer/src/lib.rs: the route `GET /user` over a sequence of requests.
use servir.Prelude.{◌≡◌, refl, sym, ◌∙◌, ap, ok, err, some, List, [], ◌∷◌, Result}
use servir.Sql.{select}
use servir.System.{System}
use servir.System.Actions.{World}
use servir.System.Posts.{Post, Post-ok, Post-pure, Post-bind, Post-weaken, Outcome}
use servir.Error.Kinds.{ServirError}
use servir.Response.{ApiResponse, ok_data}
use servir.Auth.Claims.{Claims}
use servir.Auth.Extractor.{Parts, auth_user}
use servir.Auth.Extractor.Rejections.{auth_user-IsLetIn}
use servir.Consumer.{UserProfile, ProfileTable, profile_id_is, UserResponse, user}
use servir.Consumer.Profiles.{Grows, Grows-refl, Grows-trans, find_or_create_profile_lem}

module _ (sys : System) (parts : Parts) (w : World ProfileTable) where
  -- A request that was let in with `claims`, and was answered the stored profile of their user.
  pub record IsServed (r : ApiResponse UserResponse) (w' : World ProfileTable) : Type 0 where
    pub claims : Claims
    pub claimed : (auth_user sys parts w).0 ≡ ok claims
    pub profile : UserProfile
    pub stored : select (profile_id_is claims.sub) w'.db.user_profiles ≡ some profile
    pub answer : r ≡ ok_data (record { id = profile.id; username = profile.username })
    pub grows : Grows w.db w'.db

  -- The extractor leaves the table.
  let_in :
      (out : Result ServirError Claims × World ProfileTable)
      → Post (λ c w'. w'.db ≡ w.db) (λ e w'. w'.db ≡ w.db) out
      → Post (λ c w'. (out.0 ≡ ok c) × (w'.db ≡ w.db)) (λ e w'. w'.db ≡ w.db) out
  let_in out p = record { holds = go out.0 out.1 p.holds }
    where
      go :
          (r : Result ServirError Claims) (w' : World ProfileTable)
          → Outcome (λ c w'. w'.db ≡ w.db) (λ e w'. w'.db ≡ w.db) r w'
          → Outcome (λ c w'. (r ≡ ok c) × (w'.db ≡ w.db)) (λ e w'. w'.db ≡ w.db) r w'
      go (ok c) w' q = (refl, q)
      go (err e) w' q = q

  -- `GET /user` that succeeds was let in by the extractor, and answers the profile that the table then
  -- holds for the user of the claims; it loses or changes no profile. One that fails leaves the table.
  pub user-IsServed : Post IsServed (λ e w'. w'.db ≡ w.db) (user sys parts w)
  unfolding user
  user-IsServed =
      Post-bind _ _ _ _
        (let_in _
          (Post-weaken _ (auth_user-IsLetIn sys parts w) (λ c w' q. q.kept) (λ e w' q. q.1)))
        (λ claims w₁ (claimed, kept).
          Post-bind _ _ _ _
            (Post-weaken _ (find_or_create_profile_lem sys w₁ claims.sub claims.username)
              (λ p w' q. q) (λ e w' q. q ∙ kept))
            (λ profile w₂ q. Post-pure _ _ (record {
              claims = claims;
              claimed = claimed;
              profile = profile;
              stored = q.stored;
              answer = refl;
              grows = rw (← kept) q.grows;
            })))

module _ (sys : System) where
  user-Grows : (parts : Parts) (w : World ProfileTable) → Grows w.db (user sys parts w).1.db
  user-Grows parts w = go (user sys parts w) (user-IsServed sys parts w)
    where
      go :
          (out : Result ServirError (ApiResponse UserResponse) × World ProfileTable)
          → Post (IsServed sys parts w) (λ e w'. w'.db ≡ w.db) out
          → Grows w.db out.1.db
      go (ok r, w') p = p.holds.grows
      go (err e, w') p = rw p.holds (Grows-refl w.db)

  -- The world after a sequence of requests.
  abbrev pub visits : List Parts → World ProfileTable → World ProfileTable
  visits [] w = w
  visits (parts ∷ rest) w = visits rest (user sys parts w).1

  visits-Grows : (rest : List Parts) (w : World ProfileTable) → Grows w.db (visits rest w).db
  visits-Grows [] w = Grows-refl w.db
  visits-Grows (parts ∷ rest) w =
      Grows-trans _ _ _ (user-Grows parts w) (visits-Grows rest (user sys parts w).1)

  -- Whoever was answered a profile is answered the same one by every later request with a token of the
  -- same user that succeeds, after any further requests of anyone, whatever name the later token has.
  pub profile_stays :
      (w : World ProfileTable) (parts parts' : Parts) (rest : List Parts) (c c' : Claims)
      → (r r' : ApiResponse UserResponse) → (auth_user sys parts w).0 ≡ ok c
      → (user sys parts w).0 ≡ ok r
      → (auth_user sys parts' (visits rest (user sys parts w).1)).0 ≡ ok c'
      → (user sys parts' (visits rest (user sys parts w).1)).0 ≡ ok r'
      → c'.sub ≡ c.sub
      → r' ≡ r
  profile_stays w parts parts' rest c c' r r' a e a' e' same =
      let v = visits rest (user sys parts w).1 in
      let d = Post-ok _ r (user-IsServed sys parts w) e in
      let d' = Post-ok _ r' (user-IsServed sys parts' v) e' in
      let sub : d'.claims.sub ≡ d.claims.sub =
        subs d.claims d'.claims (sym d.claimed ∙ a) (sym d'.claimed ∙ a') in
      let kept =
        d'.grows.keeps d.claims.sub d.profile
          ((visits-Grows rest (user sys parts w).1).keeps d.claims.sub d.profile d.stored) in
      let found =
        ap (λ s. select (profile_id_is s) (user sys parts' v).1.db.user_profiles) (sym sub)
        ∙ d'.stored in
      d'.answer ∙ answers d.profile d'.profile (sym kept ∙ found) ∙ sym d.answer
    where
      subs :
          (x y : Claims)
          → ◌≡◌ {A = Result ServirError Claims} (ok x) (ok c)
          → ◌≡◌ {A = Result ServirError Claims} (ok y) (ok c')
          → y.sub ≡ x.sub
      subs x y h k = cc

      answers :
          (p q : UserProfile)
          → some p ≡ some q
          → ◌≡◌ {A = ApiResponse UserResponse}
              (ok_data (record { id = q.id; username = q.username }))
              (ok_data (record { id = p.id; username = p.username }))
      answers p q h = cc
