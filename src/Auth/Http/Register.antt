-- ===== src/Auth/Http/Register.antt =====
-- src/auth/http.rs: what `register` does to the tables and answers, on success and on error, for every
-- fault of the database.
use servir.Prelude.{
  ◌≤◌, String, is_empty, len, ltb→ge, ◌≡◌, refl, ◌∙◌, ap, false, ok, inl, inr, ◌⊎◌,
}
use servir.Sql.{has}
use servir.System.{System}
use servir.System.Actions.{World}
use servir.System.Posts.{Post, Post-bind, Post-fail_if, Post-weaken}
use servir.Error.Kinds.{ServirError}
use servir.Response.{ApiResponse}
use servir.Auth.Config.{AuthConfig}
use servir.Auth.Refines.{hash_password_lem}
use servir.Auth.Http.{RegisterRequest, TokenResponse, register}
use servir.Auth.Http.Sessions.{IsSession, issue_tokens_lem}
use servir.Db.Schema.{Tables, UserRow, username_is}
use servir.Db.Repository.{from_row}
use servir.Db.History.{add_user, Steps, History}
use servir.Db.Refines.{create_user_lem}

module _ (sys : System) (config : AuthConfig) (w : World Tables) where
  -- A registration that succeeded.
  pub record IsRegistered (body : RegisterRequest) (r : ApiResponse TokenResponse)
      (w' : World Tables) : Type 0 where
    pub named : is_empty body.username ≡ false
    pub strong : 8 ≤ len body.password
    pub row : UserRow
    pub name : row.username ≡ body.username
    pub free : has (username_is body.username) w.db.users ≡ false
    pub salt : String
    pub hashed : sys.argon2_hash body.password salt ≡ ok row.password_hash
    pub session : IsSession sys config w (add_user row w.db) (from_row row) r w'

  -- One that failed: nothing changed, or the user was added and has no session.
  abbrev pub RegisterFails : RegisterRequest → ServirError → World Tables → Type 0
  RegisterFails body e w' =
      History sys w w'
      × ((w'.db ≡ w.db)
          ⊎ ((row : UserRow) × (row.username ≡ body.username) × (w'.db ≡ add_user row w.db)))

  -- A registration that succeeds was given a username and a password of at least 8 bytes, for a name
  -- that was free; it adds one user, with the hash of the password, and opens a session of that user,
  -- and changes nothing else. One that fails changed nothing, or added only the user. Both take steps
  -- of the history only, whatever the faults of the database.
  pub register-IsRegistered :
      (body : RegisterRequest)
      → Post (IsRegistered body) (RegisterFails body) (register sys config body w)
  unfolding register
  register-IsRegistered body =
      Post-fail_if _ _ _ _
        (λ named.
          Post-fail_if _ _ _ _
            (λ strong.
              Post-bind _ _ _ _
                (Post-weaken _ (hash_password_lem sys w Steps.here body.password) (λ a w' q. q)
                  (λ e w' q. (q.0, inl q.1)))
                (λ hash w₁ ((h₁, kept), hashed).
                  Post-bind _ _ _ _
                    (Post-weaken _ (create_user_lem sys w₁ h₁ body.username hash) (λ a w' q. q)
                      (λ e w' q. (q.0, inl (q.1 ∙ kept))))
                    (λ user w₂ c.
                      let added : w₂.db ≡ add_user c.row w.db =
                        c.added ∙ ap (add_user c.row) kept in
                      rw c.same (
                        Post-weaken _ (issue_tokens_lem sys config (from_row c.row) w₂ c.history)
                          (λ r w₃ s. record {
                            named = named;
                            strong = ltb→ge _ _ strong;
                            row = c.row;
                            name = c.name;
                            free = rw (← kept) c.free;
                            salt = sys.salt w.tick;
                            hashed = rw c.password hashed;
                            session = rw added at s;
                          })
                          (λ e w₃ q. (q.0, inr (c.row, c.name, q.1 ∙ added)))))))
            (λ weak. (Steps.here, inl refl)))
        (λ empty. (Steps.here, inl refl))
