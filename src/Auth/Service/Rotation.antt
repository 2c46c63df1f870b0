-- ===== src/Auth/Service/Rotation.antt =====
-- src/auth/http.rs, src/db/auth.rs: the refresh token that a login answers is good for a refresh.
use servir.Prelude.{
  ℕ, suc, ◌+◌, ◌≤◌, ◌<◌, ◌==◌, eq_refl, eq_of_test, ◌≡◌, refl, ◌∙◌, ap, Bool, true, some, ok, List,
  [], ◌∷◌, arith, Bool-cases, inl, inr, as_i64, as_i64-small, add_usize-small, add_i64-small, lt_ℤ,
  lt_ℤ-pos_iff, i64_max, pos,
}
use servir.Sql.{has, select, Unique}
use servir.Sql.Laws.{select-some-has_other}
use servir.System.{System}
use servir.System.Laws.{JwtLaws, ClockLaws}
use servir.System.Actions.{World}
use servir.System.Posts.{Post-ok}
use servir.Response.{ApiResponse, ok_data}
use servir.Auth.Claims.{refresh as refresh_kind}
use servir.Auth.Config.{AuthConfig}
use servir.Auth.Token.{new_claims}
use servir.Auth.Http.{LoginRequest, TokenResponse, login, refresh}
use servir.Auth.Http.Login.{login-IsLoggedIn}
use servir.Auth.Http.Availability.{IsUp}
use servir.Auth.Http.Availability.Handlers.{IsFresh, refresh_succeeds}
use servir.Db.Schema.{Tables, UserRow, TokenRow, user_id_is, is_live}
use servir.Db.Validity.{IsValid}

-- Where IDs are unique, a row that is found is found by its ID.
select_by_id :
    (p : UserRow → Bool) (rows : List UserRow) (row : UserRow)
    → Unique (λ r. user_id_is r.id) rows
    → select p rows ≡ some row
    → select (user_id_is row.id) rows ≡ some row
select_by_id p [] row u e = cc
select_by_id p (x ∷ rows) row u e = elim (Bool-cases (p x)) [
  | inl this ↦ let same : x ≡ row = ground arith in rw (same) (rw (eq_refl row.id) refl)
  | inr other ↦
      let rest : select p rows ≡ some row = ground arith in
      elim (Bool-cases (x.id == row.id)) [
        | inl same ↦
            let there =
              select-some-has_other p (user_id_is x.id) rows row rest
                (rw (eq_of_test x.id row.id same) (eq_refl row.id)) in
            absurd (ground (arith, there, u.0))
        | inr apart ↦ rw apart (select_by_id p rows row u.1 rest)
      ]
]

tokens_inj :
    {a b : TokenResponse} → ◌≡◌ {A = ApiResponse TokenResponse} (ok_data a) (ok_data b) → a ≡ b
tokens_inj h = cc

-- A row that expires later than now is live.
live_head :
    (row : TokenRow) (rows : List TokenRow) (now expiry : ℕ)
    → row.expires_at ≡ pos expiry
    → now < expiry
    → now ≤ i64_max
    → has (is_live row.jti (as_i64 now)) (row ∷ rows) ≡ true
live_head row rows now expiry e early small =
    let late : lt_ℤ (pos now) (pos expiry) ≡ true = (lt_ℤ-pos_iff now expiry).1 early in
    rw (eq_refl row.jti) (rw e (rw (as_i64-small now small) (rw late refl)))

-- After a login that succeeded, a refresh with the refresh token that it answered succeeds, as long as
-- the lifetime after the start of the login has not passed, on tables that meet the schema, where the
-- database has no faults, the clock does not run backwards, the IDs that are drawn are not in the
-- tables, and the expiry fits an `i64`.
pub login-refresh :
    (sys : System) (config : AuthConfig) (w : World Tables) (body : LoginRequest)
    (tokens : TokenResponse)
    → IsUp sys
    → JwtLaws sys
    → ClockLaws sys
    → IsValid w.db
    → IsFresh sys (login sys config body w).1
    → (login sys config body w).0 ≡ ok (ok_data tokens)
    → sys.clock (suc (login sys config body w).1.tick)
      < sys.clock w.tick + config.refresh_token_ttl_secs
    → sys.clock (suc (login sys config body w).1.tick) + config.refresh_token_ttl_secs ≤ i64_max
    → (next : TokenResponse) × ((refresh sys config
          (record { refresh_token = tokens.refresh_token })
          (login sys config body w).1).0
        ≡ ok (ok_data next))
login-refresh sys config w body tokens up jwt clocks valid fresh e early small =
    let v = (login sys config body w).1 in
    let d = Post-ok _ (ok_data tokens) (login-IsLoggedIn sys config w body) e in
    let s = d.session in
    let ttl = config.refresh_token_ttl_secs in
    let at = sys.clock s.refresh_at in
    let c = new_claims d.row.id d.row.username at ttl s.row.jti refresh_kind in
    let same = tokens_inj s.answer in
    let start = clocks.monotone w.tick s.refresh_at (omega (arith, s.since, s.refresh_since)) in
    let stored = clocks.monotone s.refresh_at s.stored_at (omega (arith, s.stored_since)) in
    let end = clocks.monotone s.stored_at (suc v.tick) (omega (arith, s.before)) in
    let now = clocks.monotone v.tick (suc v.tick) (omega arith) in
    let exp = add_usize-small at ttl (omega (arith, small, stored, end)) in
    let decoded =
      jwt.decode_valid c config.secret tokens.refresh_token (sys.clock v.tick)
        (rw (← same) at s.refresh_token) (rw exp (omega (arith, now, early, start))) in
    let expires =
      s.expires ∙ add_i64-small (sys.clock s.stored_at) ttl (omega (arith, small, end)) in
    let live =
      live_head s.row w.db.refresh_tokens (sys.clock (suc v.tick)) (sys.clock s.stored_at + ttl)
        expires (omega (arith, early, start, stored)) (omega (arith, small)) in
    refresh_succeeds sys up config jwt v fresh (record { refresh_token = tokens.refresh_token }) c
      d.row decoded refl
      (ap (λ t. has (is_live s.row.jti (as_i64 (sys.clock (suc v.tick)))) t.refresh_tokens) s.added
        ∙ live)
      (ap (λ t. select (user_id_is d.row.id) t.users) s.added
        ∙ select_by_id _ w.db.users d.row valid.ids d.found)
