-- ===== src/Db/Contract.antt =====
-- src/db/auth.rs: the trait `AuthRepository`, and what its documentation promises, in terms of an abstract
-- registry of users and sessions that forgets the order of rows. `Sqlite` is about `impl AuthRepository for
-- Db`, `Queries` and `Refusals` about its queries and its refusals.
pub mod Queries
pub mod Refusals
pub mod Sqlite
use servir.Prelude.{
  ℕ, ◌≤◌, ◌<◌, err, String, ◌==◌, ◌≡◌, Bool, true, false, Option, none, some, ℤ, as_i64, add_i64,
  lt_ℤ, if◌then◌else◌,
}
use servir.System.{System}
use servir.System.Actions.{World, Action}
use servir.System.Posts.{Post}
use servir.Error.Kinds.{ServirError}
use servir.Error.Db
use servir.Error.AuthUser
use servir.Db.Repository.{User}

pub record AuthRepository (D : Type 0) : Type 0 where
  pub create_user : String → String → Action D ServirError User
  pub find_user_by_username : String → Action D ServirError (Option User)
  pub find_user_by_id : String → Action D ServirError (Option User)
  pub store_refresh_token : String → String → String → ℕ → Action D ServirError (Unit {0})
  pub consume_refresh_token : String → Action D ServirError Bool
  pub delete_refresh_tokens_for_user : String → Action D ServirError (Unit {0})
  pub load_or_generate_secret : Action D ServirError String

-- A stored refresh token: whose it is, and when it expires.
pub record Session : Type 0 where
  pub owner : String
  pub expires_at : ℤ

-- The users by name and by ID, the sessions by token ID, and the secret.
pub record Registry : Type 0 where
  pub named : String → Option User
  pub identified : String → Option User
  pub session : String → Option Session
  pub secret : Option String

-- A session that exists and is not expired.
abbrev pub usable : ℤ → Option Session → Bool
usable now none = false
usable now (some s) = lt_ℤ now s.expires_at

-- The session, unless it is the user's.
abbrev pub unless_owned : String → Option Session → Option Session
unless_owned id none = none
unless_owned id (some s) = if s.owner == id then none else some s

-- The two registries have the same users.
abbrev pub SameUsers : Registry → Registry → Type 0
SameUsers r r' =
    ((n : String) → r'.named n ≡ r.named n) × ((id : String) → r'.identified id ≡ r.identified id)

abbrev pub SameSessions : Registry → Registry → Type 0
SameSessions r r' = (j : String) → r'.session j ≡ r.session j

-- A user with this name and hash was added, under a name and an ID that were free.
pub record IsAdded (name hash : String) (r : Registry) (user : User) (r' : Registry) : Type 0 where
  pub username : user.username ≡ name
  pub password : user.password_hash ≡ hash
  pub free : r.named name ≡ none
  pub unused : r.identified user.id ≡ none
  pub named : (n : String) → r'.named n ≡ (if name == n then some user else r.named n)
  pub identified :
      (id : String) → r'.identified id ≡ (if user.id == id then some user else r.identified id)
  pub sessions : SameSessions r r'

-- Why a user is not created between two ticks: the name is taken, or the ID that was drawn, or the
-- database met a fault.
pub data IsRefused (sys : System) (r : Registry) (name : String) (from to : ℕ)
    : ServirError → Type 0 where
  taken :
      (text : String) (user : User)
      → r.named name ≡ some user
      → IsRefused sys r name from to (AuthUser.already_exists name text)
  drawn_before :
      (text : String) (user : User) (n : ℕ)
      → from ≤ n
      → n < to
      → r.identified (sys.uuid n) ≡ some user
      → IsRefused sys r name from to (AuthUser.already_exists name text)
  faulted :
      (text : String) (n : ℕ)
      → from ≤ n
      → n < to
      → sys.fault n ≡ some text
      → IsRefused sys r name from to (Db.user_create name text)

module _ (sys : System) {D : Type 0} (view : D → Registry) where
  -- The registry is the one before.
  abbrev pub Untouched : {A : Type 0} → World D → A → World D → Type 0
  Untouched w a w' = view w'.db ≡ view w.db

  -- What each operation does to the registry where it succeeds; one that fails leaves it, and
  -- `create_user` tells why.
  pub record Promises (IsGood : D → Type 0) (r : AuthRepository D) : Type 0 where
    pub create_user :
        (name hash : String) (w : World D)
        → IsGood w.db
        → Post
            (λ user w'. IsAdded name hash (view w.db) user (view w'.db))
            (λ e w'. Untouched w e w' × IsRefused sys (view w.db) name w.tick w'.tick e)
            (r.create_user name hash w)
    -- "Fails with `AlreadyExists` if the username is taken."
    pub create_user_taken :
        (name hash : String) (w : World D) (user : User)
        → IsGood w.db
        → (view w.db).named name ≡ some user
        → ((n : ℕ) → sys.fault n ≡ none)
        → (text : String) × ((r.create_user name hash w).0
            ≡ err (AuthUser.already_exists name text))
    pub find_user_by_username :
        (name : String) (w : World D)
        → IsGood w.db
        → Post
            (λ found w'. (found ≡ (view w.db).named name) × Untouched w tt w')
            (Untouched w)
            (r.find_user_by_username name w)
    pub find_user_by_id :
        (id : String) (w : World D)
        → IsGood w.db
        → Post
            (λ found w'. (found ≡ (view w.db).identified id) × Untouched w tt w')
            (Untouched w)
            (r.find_user_by_id id w)
    -- The session expires the given time after the clock.
    pub store_refresh_token :
        (jti id name : String) (ttl : ℕ) (w : World D)
        → IsGood w.db
        → Post
            (λ done w'.
              ((view w.db).session jti ≡ none)
              × SameUsers (view w.db) (view w'.db)
              × ((j : String)
                  → (view w'.db).session j ≡ (
                      if jti == j
                      then some (record {
                        owner = id;
                        expires_at = add_i64 (as_i64 (sys.clock w.tick)) (as_i64 ttl);
                      })
                      else (view w.db).session j)))
            (Untouched w)
            (r.store_refresh_token jti id name ttl w)
    -- It answers whether there was a session that was not expired, which it ends.
    pub consume_refresh_token :
        (jti : String) (w : World D)
        → IsGood w.db
        → Post
            (λ valid w'.
              (valid ≡ usable (as_i64 (sys.clock w.tick)) ((view w.db).session jti))
              × SameUsers (view w.db) (view w'.db)
              × ((view w'.db).session jti ≡ (if valid then none else (view w.db).session jti))
              × ((j : String)
                  → (jti == j) ≡ false
                  → (view w'.db).session j ≡ (view w.db).session j))
            (Untouched w)
            (r.consume_refresh_token jti w)
    -- It ends the sessions of the user.
    pub delete_refresh_tokens_for_user :
        (id : String) (w : World D)
        → IsGood w.db
        → Post
            (λ done w'.
              SameUsers (view w.db) (view w'.db)
              × ((j : String) → (view w'.db).session j ≡ unless_owned id ((view w.db).session j)))
            (Untouched w)
            (r.delete_refresh_tokens_for_user id w)
    -- It answers the secret that was stored, which stays, or else one that it stores.
    pub load_or_generate_secret :
        (w : World D)
        → IsGood w.db
        → Post
            (λ secret w'.
              ((view w'.db).secret ≡ some secret)
              × ((s : String) → (view w.db).secret ≡ some s → secret ≡ s)
              × SameUsers (view w.db) (view w'.db)
              × SameSessions (view w.db) (view w'.db))
            (Untouched w)
            (r.load_or_generate_secret w)
