-- ===== src/System/Sample.antt =====
-- A concrete `System` that has all the laws, for tests and witnesses: a token is its secret and its
-- claims written out, a hash is its password, and every call sees the clock one second later.
pub mod Codec
use Prim.Native.String.{[], ◌∷◌}
use servir.Prelude.{
  ℕ, zero, suc, ◌+◌, String, ◌==◌, eq_refl, eq_of_test, ◌≡◌, refl, ap, Option, none, some, Bool,
  true, false, Result, ok, err, ltb, if◌then◌else◌, lt→ltb, ge→ltb, arith,
}
use mathlib.Core.List
use servir.Auth.Claims.{Claims}
use servir.System.{
  System, JwtError, expired_signature, other, Constraint, users_id, users_username,
  refresh_tokens_jti, refresh_tokens_user_id, auth_config_key, user_profiles_id,
}
use servir.System.Laws.{leeway, UuidLaws, ClockLaws, JwtLaws, Argon2Laws}
use servir.System.Sample.Codec.{mark, encode_claims, decode_claims, decode-encode}

abbrev pub sample_uuid : ℕ → String
sample_uuid zero = "u"
sample_uuid (suc n) = mark ∷ sample_uuid n

abbrev sample_text : Constraint → String
sample_text users_id = "UNIQUE constraint failed: users.id"
sample_text users_username = "UNIQUE constraint failed: users.username"
sample_text refresh_tokens_jti = "UNIQUE constraint failed: refresh_tokens.jti"
sample_text refresh_tokens_user_id = "FOREIGN KEY constraint failed"
sample_text auth_config_key = "UNIQUE constraint failed: auth_config.key"
sample_text user_profiles_id = "UNIQUE constraint failed: user_profiles.id"

checked : String → ℕ → Option (String × Claims) → Result JwtError Claims
checked secret now none = err (record { kind = other; text = "InvalidToken" })
checked secret now (some (k, c)) =
    if k == secret
    then if ltb (c.exp + leeway) now
      then err (record { kind = expired_signature; text = "ExpiredSignature" })
      else ok c
    else err (record { kind = other; text = "InvalidSignature" })

-- A PHC string begins with "$" here.
abbrev sample_parse : String → Result String String
sample_parse (d ∷ p) = ok (d ∷ p)
sample_parse [] = err "password hash string missing field"

-- With the database faults that are given.
unfoldable pub sample_with : (ℕ → Option String) → System
unfolding checked encode_claims decode_claims
sample_with faults = record {
  clock = λ t. t;
  uuid = sample_uuid;
  salt = sample_uuid;
  random_bytes = λ t. List.[];
  hex_encode = λ bytes. "secret";
  fault = faults;
  parse_url = λ url. ok tt;
  constraint_text = sample_text;
  argon2_hash = λ p salt. ok (mark ∷ p);
  phc_parse = sample_parse;
  argon2_verify = λ p h. h == (mark ∷ p);
  jwt_encode = λ c secret. ok (encode_claims c secret);
  jwt_decode = λ t secret now. checked secret now (decode_claims t);
}

unfoldable pub sample : System
unfolding sample_with
sample = sample_with (λ t. none)

sample_uuid_inj : (s t : ℕ) → sample_uuid s ≡ sample_uuid t → s ≡ t
sample_uuid_inj zero zero h = refl
sample_uuid_inj zero (suc t) h = cc
sample_uuid_inj (suc s) zero h = cc
sample_uuid_inj (suc s) (suc t) h = ap suc (sample_uuid_inj s t (cc))

module _ (faults : ℕ → Option String) where
  pub sample-UuidLaws : UuidLaws (sample_with faults)
  unfolding sample_with
  sample-UuidLaws = record { fresh = sample_uuid_inj }

  pub sample-ClockLaws : ClockLaws (sample_with faults)
  unfolding sample_with
  sample-ClockLaws = record { monotone = λ s t h. h }

  decode_valid :
      (c : Claims) (secret : String) (now : ℕ)
      → ltb (c.exp + leeway) now ≡ false
      → checked secret now (decode_claims (encode_claims c secret)) ≡ ok c
  unfolding checked
  decode_valid c secret now h = rw (decode-encode, checked) (rw (eq_refl, h) refl)

  decode_expired :
      (c : Claims) (secret : String) (now : ℕ)
      → ltb (c.exp + leeway) now ≡ true
      → checked secret now (decode_claims (encode_claims c secret))
        ≡ err (record { kind = expired_signature; text = "ExpiredSignature" })
  unfolding checked
  decode_expired c secret now h = rw (decode-encode, checked) (rw (eq_refl, h) refl)

  checked_claims :
      (c : Claims) (secret : String) (o : Option (String × Claims)) (now : ℕ)
      → checked secret now o ≡ ok c
      → (k : String) × (o ≡ some (k, c))
  unfolding checked
  checked_claims c secret none now h = cc
  checked_claims c secret (some (k, d)) now h = (k, ground arith)

  decode_same :
      (c d : Claims) (secret : String) (o : Option (String × Claims)) (m n : ℕ)
      → checked secret m o ≡ ok c
      → checked secret n o ≡ ok d
      → c ≡ d
  decode_same c d secret o m n h k =
      let (k₁, e) = checked_claims c secret o m h in
      let (k₂, e') = checked_claims d secret o n k in cc

  pub sample-JwtLaws : JwtLaws (sample_with faults)
  unfolding sample_with
  sample-JwtLaws = record {
    encodes = λ c secret. (encode_claims c secret, refl);
    decode_valid = λ c secret t now h k.
        let e : encode_claims c secret ≡ t = cc in
        rw (← e) (decode_valid c secret now (ge→ltb (c.exp + leeway) now k));
    decode_expired = λ c secret t now h k.
        let e : encode_claims c secret ≡ t = cc in
        (
          record { kind = expired_signature; text = "ExpiredSignature" },
          rw (← e) (decode_expired c secret now (lt→ltb (c.exp + leeway) now k)),
          refl,
        );
    decode_same = λ c d secret t m n. decode_same c d secret (decode_claims t) m n;
  }

  sample_rejects : (p q h : String) → (h == (mark ∷ q)) ≡ true → (mark ∷ p) ≡ h → q ≡ p
  sample_rejects p q h same e = let e' : h ≡ (mark ∷ q) = eq_of_test h (mark ∷ q) same in cc

  pub sample-Argon2Laws : Argon2Laws (sample_with faults)
  unfolding sample_with
  sample-Argon2Laws = record {
    hashes = λ p salt. (mark ∷ p, refl);
    parses = λ p salt h e. let e' : (mark ∷ p) ≡ h = cc in rw (← e') refl;
    accepts = λ p salt h e. let e' : (mark ∷ p) ≡ h = cc in rw (← e') (eq_refl (mark ∷ p));
    rejects = λ p q salt h e same. sample_rejects p q h same (cc);
  }
