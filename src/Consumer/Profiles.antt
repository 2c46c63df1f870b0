-- ===== src/Consumer/Profiles.antt =====
-- consumer/src/db/mod.rs: the profile that a user's first access makes is the one that every later
-- access finds.
use servir.Prelude.{
  String, ◌==◌, eq_refl, eq_of_test, ◌≡◌, refl, sym, ◌∙◌, ap, Bool, true, false, ok, some, List,
  ◌∷◌, arith, Option-cases, inl, inr, as_i64,
}
use servir.Sql.{has, select}
use servir.Sql.Laws.{select-some-has}
use servir.System.{System}
use servir.System.Actions.{World}
use servir.System.Posts.{Post, Post-pure, Post-call, Post-bind, Post-map_error, Post-execute}
use servir.Error.Kinds.{ServirError}
use servir.Consumer.{
  UserProfile, ProfileTable, profile_id_is, select_profile, insert_profile, create_profile,
  find_or_create_profile,
}

-- No profile is lost or changed: what is found before is found after.
pub record Grows (t t' : ProfileTable) : Type 0 where
  pub keeps :
      (id : String) (row : UserProfile)
      → select (profile_id_is id) t.user_profiles ≡ some row
      → select (profile_id_is id) t'.user_profiles ≡ some row

pub Grows-refl : (t : ProfileTable) → Grows t t
Grows-refl t = record { keeps = λ id row h. h }

pub Grows-trans : (t t' t'' : ProfileTable) → Grows t t' → Grows t' t'' → Grows t t''
Grows-trans t t' t'' g h = record { keeps = λ id row e. h.keeps id row (g.keeps id row e) }

insert_profile-ok :
    (sys : System) (row : UserProfile) (t d : ProfileTable) (a : Unit {0})
    → insert_profile sys row t ≡ ok (a, d)
    → (d ≡ record { user_profiles = row ∷ t.user_profiles })
      × (has (profile_id_is row.id) t.user_profiles ≡ false)
unfolding insert_profile
insert_profile-ok sys row t d a h = ground arith

Grows-cons :
    (row : UserProfile) (rows : List UserProfile)
    → has (profile_id_is row.id) rows ≡ false
    → Grows (record { user_profiles = rows }) (record { user_profiles = row ∷ rows })
Grows-cons row rows free = record { keeps = λ id r e. go id r e (row.id == id) refl }
  where
    go :
        (id : String) (r : UserProfile)
        → select (profile_id_is id) rows ≡ some r
        → (b : Bool) → (row.id == id) ≡ b
        → select (profile_id_is id) (row ∷ rows) ≡ some r
    go id r e true h =
        let there = select-some-has (profile_id_is id) rows r e in
        let same = eq_of_test row.id id h in absurd (ground (arith, there, same, free))
    go id r e false h = rw h e

module _ (sys : System) (w : World ProfileTable) where
  -- The profile is the user's stored one, and no profile was lost.
  pub record IsProfile (user_id : String) (profile : UserProfile) (w' : World ProfileTable)
      : Type 0 where
    pub stored : select (profile_id_is user_id) w'.db.user_profiles ≡ some profile
    pub grows : Grows w.db w'.db

  abbrev pub Unchanged : ServirError → World ProfileTable → Type 0
  Unchanged e w' = w'.db ≡ w.db

  -- `find_or_create_profile` that succeeds answers the profile that the table then holds for the user,
  -- and loses or changes no profile; one that fails leaves the table.
  pub find_or_create_profile_lem :
      (user_id username : String)
      → Post (IsProfile user_id) Unchanged (find_or_create_profile sys user_id username w)
  unfolding find_or_create_profile create_profile select_profile
  find_or_create_profile_lem user_id username =
      Post-bind
        (λ row w'. (row ≡ select (profile_id_is user_id) w.db.user_profiles) × (w'.db ≡ w.db)) _ _ _
        (Post-map_error _ _ _ (Post-execute _ _ _ (λ a d e. (cc, cc)) (λ e. refl)))
        (λ row w₁ (found, kept). elim (Option-cases row) [
          | inl missing ↦ rw missing (
              Post-call _ _ _ (
                Post-bind
                  (λ a w'.
                    IsProfile user_id
                      (record {
                        id = user_id;
                        username = username;
                        created_at = as_i64 (sys.clock w₁.tick);
                      })
                      w')
                  _ _ _
                  (Post-map_error _ _ _ (
                    Post-execute _ _ _
                      (λ a d e.
                        let (added, free) = insert_profile-ok sys _ w₁.db d a e in
                        record {
                          stored = rw added (rw (eq_refl user_id) refl);
                          grows = rw (← kept) (rw added (Grows-cons _ _ free));
                        })
                      (λ e. kept)))
                  (λ a w' q. Post-pure _ _ q)))
          | inr (profile, there) ↦ rw there (
              Post-pure _ _ (record {
                stored =
                    ap (λ t. select (profile_id_is user_id) t.user_profiles) kept
                    ∙ sym found
                    ∙ there;
                grows = rw kept (Grows-refl w.db);
              }))
        ])
