-- ===== src/Db/Validity.antt =====
-- src/db/migrations: the constraints of the schema as an invariant, which every history keeps.
use servir.Prelude.{◌≡◌, true, List, ◌∷◌, ℕ, Bool, arith}
use servir.Sql.{has, Every, Unique}
use servir.Sql.Laws.{Every-delete, Every-map, Unique-delete}
use servir.System.{System}
use servir.System.Actions.{World}
use servir.Db.Schema.{Tables, UserRow, user_id_is, username_is, jti_is, owner_is, key_is, is_live}
use servir.Db.History.{
  Step, elapsed, user_added, token_added, token_spent, tokens_revoked, secret_added, Steps, here,
  next,
}

-- Primary keys and the unique column; and every token belongs to a user.
pub record IsValid (t : Tables) : Type 0 where
  pub ids : Unique (λ r. user_id_is r.id) t.users
  pub usernames : Unique (λ r. username_is r.username) t.users
  pub jtis : Unique (λ r. jti_is r.jti) t.refresh_tokens
  pub owners : Every (λ r. has (user_id_is r.user_id) t.users ≡ true) t.refresh_tokens
  pub keys : Unique (λ r. key_is r.key) t.auth_config

has_cons :
    (p : UserRow → Bool) (row : UserRow) (rows : List UserRow)
    → has p rows ≡ true
    → has p (row ∷ rows) ≡ true
has_cons p row rows h = ground arith

pub Step-IsValid :
    (sys : System) {base : ℕ} {w v : World Tables} → Step sys base w v → IsValid w.db → IsValid v.db
Step-IsValid sys elapsed h = h
Step-IsValid sys {w} (user_added row d a b) h = record {
  ids = (a, h.ids);
  usernames = (b, h.usernames);
  jtis = h.jtis;
  owners =
      Every-map _ _ w.db.refresh_tokens (λ x. has_cons (user_id_is x.user_id) row w.db.users)
        h.owners;
  keys = h.keys;
}
Step-IsValid sys (token_added row d a b) h = record {
  ids = h.ids;
  usernames = h.usernames;
  jtis = (a, h.jtis);
  owners = (b, h.owners);
  keys = h.keys;
}
Step-IsValid sys {w} (token_spent jti now) h = record {
  ids = h.ids;
  usernames = h.usernames;
  jtis = Unique-delete _ (is_live jti now) w.db.refresh_tokens h.jtis;
  owners = Every-delete _ (is_live jti now) w.db.refresh_tokens h.owners;
  keys = h.keys;
}
Step-IsValid sys {w} (tokens_revoked id) h = record {
  ids = h.ids;
  usernames = h.usernames;
  jtis = Unique-delete _ (owner_is id) w.db.refresh_tokens h.jtis;
  owners = Every-delete _ (owner_is id) w.db.refresh_tokens h.owners;
  keys = h.keys;
}
Step-IsValid sys (secret_added row a) h = record {
  ids = h.ids;
  usernames = h.usernames;
  jtis = h.jtis;
  owners = h.owners;
  keys = (a, h.keys);
}

pub Steps-IsValid :
    (sys : System) {base : ℕ} {w v : World Tables}
    → Steps sys base w v
    → IsValid w.db
    → IsValid v.db
Steps-IsValid sys here h = h
Steps-IsValid sys (next hist s) h = Step-IsValid sys s (Steps-IsValid sys hist h)
