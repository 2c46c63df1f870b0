-- ===== src/Db/History.antt =====
-- The specification of the database component: the steps by which the tables may change, one for each
-- writing statement of src/db/auth.rs, and their sequences. A step is taken at one tick; the IDs that
-- it stores were drawn since the tick `base`, at which the sequence began.
use servir.Prelude.{ℕ, suc, ◌≤◌, ◌<◌, String, ◌≡◌, refl, ℤ, true, false, ◌∷◌, arith}
use servir.Sql.{has, delete}
use servir.System.{System}
use servir.System.Actions.{World}
use servir.Db.Schema.{
  Tables, UserRow, TokenRow, ConfigRow, user_id_is, username_is, jti_is, owner_is, key_is, is_live,
}

abbrev pub add_user : UserRow → Tables → Tables
add_user row t = record t { users = row ∷ t.users }

abbrev pub add_token : TokenRow → Tables → Tables
add_token row t = record t { refresh_tokens = row ∷ t.refresh_tokens }

abbrev pub spend : String → ℤ → Tables → Tables
spend jti now t = record t { refresh_tokens = delete (is_live jti now) t.refresh_tokens }

abbrev pub revoke : String → Tables → Tables
revoke id t = record t { refresh_tokens = delete (owner_is id) t.refresh_tokens }

abbrev pub add_config : ConfigRow → Tables → Tables
add_config row t = record t { auth_config = row ∷ t.auth_config }

-- The world after one call that leaves the tables, or makes them `t`.
abbrev pub later : World Tables → World Tables
later w = record w { tick = suc w.tick }

abbrev pub commit : Tables → World Tables → World Tables
commit t w = record { db = t; tick = suc w.tick }

module _ (sys : System) where
  -- `id` was drawn at or after the tick `base`, and before the tick `now`.
  pub record Drawn (base now : ℕ) (id : String) : Type 0 where
    pub at : ℕ
    pub since : base ≤ at
    pub before : at < now
    pub drawn : id ≡ sys.uuid at

  pub data Step (base : ℕ) (w : World Tables) : World Tables → Type 0 where
    elapsed : Step base w (later w)
    user_added :
        (row : UserRow)
        → Drawn base w.tick row.id
        → has (user_id_is row.id) w.db.users ≡ false
        → has (username_is row.username) w.db.users ≡ false
        → Step base w (commit (add_user row w.db) w)
    token_added :
        (row : TokenRow)
        → Drawn base w.tick row.jti
        → has (jti_is row.jti) w.db.refresh_tokens ≡ false
        → has (user_id_is row.user_id) w.db.users ≡ true
        → Step base w (commit (add_token row w.db) w)
    token_spent : (jti : String) (now : ℤ) → Step base w (commit (spend jti now w.db) w)
    tokens_revoked : (id : String) → Step base w (commit (revoke id w.db) w)
    secret_added :
        (row : ConfigRow)
        → has (key_is row.key) w.db.auth_config ≡ false
        → Step base w (commit (add_config row w.db) w)

  pub data Steps (base : ℕ) (w : World Tables) : World Tables → Type 0 where
    here : Steps base w w
    next : {u v : World Tables} → Steps base w u → Step base u v → Steps base w v

  -- What one request may do, from the world at which it begins.
  abbrev pub History : World Tables → World Tables → Type 0
  History w w' = Steps w.tick w w'

  Step-tick : {base : ℕ} {w v : World Tables} → Step base w v → v.tick ≡ suc w.tick
  Step-tick elapsed = refl
  Step-tick (user_added row d a b) = refl
  Step-tick (token_added row d a b) = refl
  Step-tick (token_spent jti now) = refl
  Step-tick (tokens_revoked id) = refl
  Step-tick (secret_added row a) = refl

  pub Steps-tick : {base : ℕ} {w v : World Tables} → Steps base w v → w.tick ≤ v.tick
  Steps-tick here = omega arith
  Steps-tick (next h s) = omega (arith, Steps-tick h, Step-tick s)

  -- An ID drawn by the call at the world `v` of a history.
  pub Drawn-here : {w v : World Tables} → History w v → Drawn w.tick (suc v.tick) (sys.uuid v.tick)
  Drawn-here {v} h = record {
    at = v.tick;
    since = Steps-tick h;
    before = omega arith;
    drawn = refl;
  }

  pub Drawn-later : {base m n : ℕ} {id : String} → m ≤ n → Drawn base m id → Drawn base n id
  Drawn-later h d = record {
    at = d.at;
    since = d.since;
    before = omega (arith, d.before);
    drawn = d.drawn;
  }
