-- ===== src/Db/Contract/Refusals.antt =====
-- src/db/auth.rs: why `create_user` fails.
use servir.Prelude.{
  ℕ, String, ◌≡◌, refl, ap, ◌∙◌, true, some, none, ok, err, Result, ◌⊎◌, inl, inr, arith,
}
use mathlib.Core.Option
use servir.Sql.{select, has}
use servir.Sql.Laws.{has-select}
use servir.System.{System, users_id, users_username}
use servir.System.Actions.{World, SqlError, unique_violation}
use servir.System.Posts.{
  Post, Post-call, Post-bind, Post-map_error, Post-executes, Post-pure, Outcome,
}
use servir.Error.Kinds.{ServirError}
use servir.Error.AuthUser
use servir.Db.Schema.{Tables, UserRow, user_id_is, username_is, insert_user}
use servir.Db.Repository.{User, from_row, create_user}
use servir.Db.Contract.{Registry, IsAdded, IsRefused, taken, drawn_before, faulted}

insert_user-err :
    (sys : System) (row : UserRow) (t : Tables) (e : SqlError)
    → insert_user sys row t ≡ err e
    → ((e ≡ unique_violation sys users_id) × (has (user_id_is row.id) t.users ≡ true))
      ⊎ ((e ≡ unique_violation sys users_username)
          × (has (username_is row.username) t.users ≡ true))
unfolding insert_user
insert_user-err sys row t e h = ground arith

module _ (sys : System) (view : Tables → Registry) (w : World Tables)
    (named : (n : String)
      → (view w.db).named n ≡ Option.map from_row (select (username_is n) w.db.users))
    (identified : (id : String)
      → (view w.db).identified id ≡ Option.map from_row (select (user_id_is id) w.db.users))
    (name hash : String) where
  -- A `create_user` that fails found the name or the drawn ID taken, or met a fault.
  pub create_user-IsRefused :
      Post
        (λ user w'. Unit {0})
        (λ e w'. IsRefused sys (view w.db) name w.tick w'.tick e)
        (create_user sys name hash w)
  unfolding create_user
  create_user-IsRefused = Post-call _ _ _ (
      Post-call _ _ _ (
        Post-bind (λ a w'. Unit {0}) _ _ _
          (Post-map_error _ _ _ (
            Post-executes _ _ _ (λ a d e. tt)
              (λ text e. faulted text _ (omega arith) (omega arith) e)
              (λ x e. elim (insert_user-err sys _ w.db x e) [
                | inl (same, there) ↦
                    let (row, found) = has-select _ w.db.users there in
                    rw same (
                      drawn_before _ (from_row row) w.tick (omega arith) (omega arith)
                        (identified _ ∙ ap (Option.map from_row) found))
                | inr (same, there) ↦
                    let (row, found) = has-select _ w.db.users there in
                    rw same (taken _ (from_row row) (named _ ∙ ap (Option.map from_row) found))
              ])))
          (λ a w' q. Post-pure _ _ tt)))

-- Where the name is taken and the database has no faults, what fails tells that the name is taken.
pub refusal-taken :
    (sys : System) (r : Registry) (name hash : String) (user : User) {D : Type 0}
    (next : D → Registry) (tick : ℕ) (out : Result ServirError User × World D)
    → r.named name ≡ some user
    → ((n : ℕ) → sys.fault n ≡ none)
    → Post
        (λ u w'. IsAdded name hash r u (next w'.db))
        (λ e w'. IsRefused sys r name tick w'.tick e)
        out
    → (text : String) × (out.0 ≡ err (AuthUser.already_exists name text))
refusal-taken sys r name hash user next tick out there sound p = go out.0 out.1 p.holds
  where
    refused :
        (to : ℕ) (e : ServirError)
        → IsRefused sys r name tick to e
        → (text : String) × (◌≡◌ {A = Result ServirError User}
            (err e)
            (err (AuthUser.already_exists name text)))
    refused to _ (taken text u h) = (text, refl)
    refused to _ (drawn_before text u n a b h) = (text, refl)
    refused to _ (faulted text n a b h) = absurd (let fine = sound n in cc)

    go :
        (o : Result ServirError User) (w' : World _)
        → Outcome
            (λ u w'. IsAdded name hash r u (next w'.db))
            (λ e w'. IsRefused sys r name tick w'.tick e)
            o
            w'
        → (text : String) × (o ≡ err (AuthUser.already_exists name text))
    go (ok u) w' h = absurd (let free = h.free in cc)
    go (err e) w' h = refused w'.tick e h
