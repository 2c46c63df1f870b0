-- ===== src/System/Laws.antt =====
-- The documented behaviour of the parts of the `System` that properties rely on.
use servir.Prelude.{ℕ, String, ◌+◌, ◌≤◌, ◌<◌, ◌≡◌, true, ok, err}
use servir.Auth.Claims.{Claims}
use servir.System.{System, JwtError, expired_signature}

-- `Validation::default().leeway`, in seconds.
abbrev pub leeway : ℕ
leeway = 60

-- No two UUIDs that the process generates are the same.
pub record UuidLaws (sys : System) : Type 0 where
  pub fresh : (s t : ℕ) → sys.uuid s ≡ sys.uuid t → s ≡ t

-- The clock does not run backwards.
pub record ClockLaws (sys : System) : Type 0 where
  pub monotone : (s t : ℕ) → s ≤ t → sys.clock s ≤ sys.clock t

-- Claims can be encoded; a token decodes under its secret to its claims until its expiry is further
-- back than the leeway, and is reported as expired from then on.
pub record JwtLaws (sys : System) : Type 0 where
  pub encodes : (c : Claims) (secret : String) → (t : String) × (sys.jwt_encode c secret ≡ ok t)
  pub decode_valid :
      (c : Claims) (secret t : String) (now : ℕ)
      → sys.jwt_encode c secret ≡ ok t
      → now ≤ c.exp + leeway
      → sys.jwt_decode t secret now ≡ ok c
  pub decode_expired :
      (c : Claims) (secret t : String) (now : ℕ)
      → sys.jwt_encode c secret ≡ ok t
      → c.exp + leeway < now
      → (e : JwtError) × (sys.jwt_decode t secret now ≡ err e) × (e.kind ≡ expired_signature)
  -- The claims are in the token, and do not depend on the time.
  pub decode_same :
      (c d : Claims) (secret t : String) (m n : ℕ)
      → sys.jwt_decode t secret m ≡ ok c
      → sys.jwt_decode t secret n ≡ ok d
      → c ≡ d

-- A password can be hashed; its hash parses, accepts the password and accepts no other.
pub record Argon2Laws (sys : System) : Type 0 where
  pub hashes : (p salt : String) → (h : String) × (sys.argon2_hash p salt ≡ ok h)
  pub parses : (p salt h : String) → sys.argon2_hash p salt ≡ ok h → sys.phc_parse h ≡ ok h
  pub accepts : (p salt h : String) → sys.argon2_hash p salt ≡ ok h → sys.argon2_verify p h ≡ true
  pub rejects :
      (p q salt h : String) → sys.argon2_hash p salt ≡ ok h → sys.argon2_verify q h ≡ true → q ≡ p
