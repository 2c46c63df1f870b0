-- ===== src/Auth/Service/Traces.antt =====
-- Sequences of requests. Every request makes a history of the specification, so its invariants hold
-- after any sequence.
use servir.Prelude.{String, ◌≡◌, Result, ok, err, List, [], ◌∷◌, some}
use servir.System.{System}
use servir.System.Actions.{World, Action, lift, ◌>>=◌}
use servir.System.Posts.{
  Post, Post-pure, Post-bind, Post-fail_if, Post-or_fail, Post-weaken, Outcome,
}
use servir.Error.Kinds.{ServirError}
use servir.Auth.Config.{AuthConfig}
use servir.Auth.Extractor.{Parts, call_layer, auth_user}
use servir.Auth.Refines.{verify_token_lem}
use servir.Auth.Http.{register, login, refresh, logout, me}
use servir.Auth.Http.Register.{register-IsRegistered}
use servir.Auth.Http.Login.{login-IsLoggedIn, logout-IsLoggedOut}
use servir.Auth.Http.Refresh.{refresh-IsRefreshed}
use servir.Auth.Service.{
  Request, post_register, post_login, post_refresh, post_logout, get_me, with_body, serve,
}
use servir.Db.Schema.{Tables, UserRow, username_is, user_id_is}
use servir.Db.History.{Steps, History}
use servir.Db.Validity.{IsValid, Steps-IsValid}
use servir.Db.Persistence.{
  IsGenuine, Steps-IsGenuine, IsSpent, Steps-IsSpent, Steps-user_by_name, Steps-user_by_id,
}
use servir.Sql.{select}
use servir.System.Laws.{UuidLaws}

module _ (sys : System) (w : World Tables) where
  -- Both outcomes make a history.
  history_of :
      {A : Type 0} {Q : A → World Tables → Type 0} {R : ServirError → World Tables → Type 0}
      (out : Result ServirError A × World Tables)
      → Post Q R out
      → ((a : A) (w' : World Tables) → Q a w' → History sys w w')
      → ((e : ServirError) (w' : World Tables) → R e w' → History sys w w')
      → History sys w out.1
  history_of {A} {Q} {R} out p h k = go out.0 out.1 p.holds
    where
      go : (r : Result ServirError A) (w' : World Tables) → Outcome Q R r w' → History sys w w'
      go (ok a) w' q = h a w' q
      go (err e) w' q = k e w' q

  with_body_history :
      {B A : Type 0} (handler : B → Action Tables ServirError A) (body : Result String B)
      → ((value : B) → History sys w (handler value w).1)
      → History sys w (with_body handler body w).1
  unfolding with_body ◌>>=◌ lift
  with_body_history handler (ok value) h = h value
  with_body_history handler (err e) h = Steps.here

  abbrev Goes : {A : Type 0} → A → World Tables → Type 0
  Goes a w' = History sys w w'

  me_history : (parts : Parts) → History sys w (me sys parts w).1
  unfolding me auth_user
  me_history parts =
      history_of (me sys parts w)
        (Post-bind Goes _ _ _
          (Post-or_fail _ _ _ _
            (λ config e.
              Post-or_fail _ _ _ _
                (λ token e'.
                  Post-bind Goes _ _ _
                    (Post-weaken _ (verify_token_lem sys w Steps.here token config)
                      (λ c w' q. q.history) (λ x w' q. q.0))
                    (λ claims w' h. Post-fail_if _ _ _ _ (λ right. Post-pure _ _ h) (λ wrong. h)))
                (λ missing. Steps.here))
            (λ missing. Steps.here))
          (λ claims w' h. Post-pure _ _ h))
        (λ a w' h. h) (λ e w' h. h)

  -- Every request, whatever its outcome, makes a history.
  pub serve-History :
      (config : AuthConfig) (req : Request) → History sys w (serve sys config req w).1
  unfolding serve call_layer
  serve-History config (post_register body) = with_body_history (register sys config) body (λ b.
      history_of _ (register-IsRegistered sys config w b) (λ a w' q. q.session.history)
        (λ e w' q. q.0))
  serve-History config (post_login body) = with_body_history (login sys config) body (λ b.
      history_of _ (login-IsLoggedIn sys config w b) (λ a w' q. q.session.history) (λ e w' q. q.0))
  serve-History config (post_refresh body) = with_body_history (refresh sys config) body (λ b.
      history_of _ (refresh-IsRefreshed sys config w b) (λ a w' q. q.session.history)
        (λ e w' q. q.0))
  serve-History config (post_logout body) =
      with_body_history (logout sys config) body
        (λ b. history_of _ (logout-IsLoggedOut sys config w b) (λ a w' q. q.2) (λ e w' q. q.0))
  serve-History config (get_me parts) = me_history _

module _ (sys : System) (config : AuthConfig) where
  -- The world after a sequence of requests.
  abbrev pub after : List Request → World Tables → World Tables
  after [] w = w
  after (req ∷ reqs) w = after reqs (serve sys config req w).1

  -- After any sequence of requests, and any faults of the database, the tables meet the constraints
  -- of the schema: unique IDs, names, token IDs and keys, and an owner for every token.
  pub after-IsValid :
      (reqs : List Request) (w : World Tables) → IsValid w.db → IsValid (after reqs w).db
  after-IsValid [] w h = h
  after-IsValid (req ∷ reqs) w h =
      after-IsValid reqs _ (Steps-IsValid sys (serve-History sys w config req) h)

  -- After any sequence of requests, every stored token ID was drawn by the program.
  pub after-IsGenuine :
      (reqs : List Request) (w : World Tables) → IsGenuine sys w → IsGenuine sys (after reqs w)
  after-IsGenuine [] w h = h
  after-IsGenuine (req ∷ reqs) w h =
      after-IsGenuine reqs _ (Steps-IsGenuine sys (serve-History sys w config req) h)

  pub after-IsSpent :
      UuidLaws sys
      → (reqs : List Request) (jti : String) (w : World Tables) → IsSpent sys jti w
      → IsSpent sys jti (after reqs w)
  after-IsSpent uuids [] jti w h = h
  after-IsSpent uuids (req ∷ reqs) jti w h =
      after-IsSpent uuids reqs jti _
        (Steps-IsSpent sys uuids jti (serve-History sys w config req) h)

  pub after-user_by_name :
      (reqs : List Request) (name : String) (r : UserRow) (w : World Tables)
      → select (username_is name) w.db.users ≡ some r
      → select (username_is name) (after reqs w).db.users ≡ some r
  after-user_by_name [] name r w h = h
  after-user_by_name (req ∷ reqs) name r w h =
      after-user_by_name reqs name r _
        (Steps-user_by_name sys name r (serve-History sys w config req) h)

  pub after-user_by_id :
      (reqs : List Request) (id : String) (r : UserRow) (w : World Tables)
      → select (user_id_is id) w.db.users ≡ some r
      → select (user_id_is id) (after reqs w).db.users ≡ some r
  after-user_by_id [] id r w h = h
  after-user_by_id (req ∷ reqs) id r w h =
      after-user_by_id reqs id r _ (Steps-user_by_id sys id r (serve-History sys w config req) h)
