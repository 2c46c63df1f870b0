-- ===== src/System/Sample/Codec.antt =====
-- A text format for claims under a secret, with its round trip. Every character of a text stands
-- behind a mark, and a number is as many marks.
use Prim.Native.Char.{Char, char, code}
use Prim.Native.String.{[], ◌∷◌}
use servir.Prelude.{ℕ, zero, suc, String, ◌==◌, ◌≡◌, refl, Option, none, some, Bool, if◌then◌else◌}
use servir.Auth.Claims.{TokenKind, access, refresh, Claims}

-- The first character of a text.
abbrev first : String → Char
first (c ∷ s) = c
first [] = Prim.Native.Char.nul

abbrev stop : Char
stop = first "."

abbrev pub mark : Char
mark = first "+"

abbrev is_stop : Char → Bool
is_stop c = (c ∷ []) == "."

abbrev pub write : String → String → String
write [] rest = stop ∷ rest
write (c ∷ s) rest = mark ∷ c ∷ write s rest

abbrev push : Char → Option (String × String) → Option (String × String)
push c none = none
push c (some (s, rest)) = some (c ∷ s, rest)

abbrev pub read : String → Option (String × String)
read [] = none
read (m ∷ []) = if is_stop m then some ([], []) else none
read (m ∷ c ∷ s) = if is_stop m then some ([], c ∷ s) else push c (read s)

pub read-write : (s rest : String) → read (write s rest) ≡ some (s, rest)
read-write [] [] = refl
read-write [] (c ∷ rest) = refl
read-write (c ∷ s) rest = rw (read-write s rest)

abbrev write_number : ℕ → String → String
write_number zero rest = stop ∷ rest
write_number (suc n) rest = mark ∷ write_number n rest

abbrev up : Option (ℕ × String) → Option (ℕ × String)
up none = none
up (some (n, rest)) = some (suc n, rest)

abbrev read_number : String → Option (ℕ × String)
read_number [] = none
read_number (m ∷ s) = if is_stop m then some (0, s) else up (read_number s)

read_number-write_number :
    (n : ℕ) (rest : String) → read_number (write_number n rest) ≡ some (n, rest)
read_number-write_number zero rest = refl
read_number-write_number (suc n) rest = rw (read_number-write_number n rest)

abbrev write_kind : TokenKind → String
write_kind access = "a"
write_kind refresh = "r"

abbrev read_kind : String → TokenKind
read_kind s = if s == "a" then access else refresh

read_kind-write_kind : (k : TokenKind) → read_kind (write_kind k) ≡ k
read_kind-write_kind access = refl
read_kind-write_kind refresh = refl

unfoldable pub encode_claims : Claims → String → String
encode_claims c secret = write secret (
    write c.sub (
      write c.username (write_number c.exp (write_number c.iat (write c.jti (write_kind c.kind))))))

infixl 5 ◌>>=◌
abbrev ◌>>=◌ : {A B : Type 0} → Option A → (A → Option B) → Option B
none >>= f = none
some a >>= f = f a

-- The secret and the claims.
unfoldable pub decode_claims : String → Option (String × Claims)
decode_claims t = do
  (secret, t₁) ← read t
  (sub, t₂) ← read t₁
  (username, t₃) ← read t₂
  (exp, t₄) ← read_number t₃
  (iat, t₅) ← read_number t₄
  (jti, t₆) ← read t₅
  some (
    secret,
    record { sub = sub; username = username; exp = exp; iat = iat; jti = jti; kind = read_kind t₆ },
  )

pub decode-encode :
    (c : Claims) (secret : String) → decode_claims (encode_claims c secret) ≡ some (secret, c)
unfolding decode_claims encode_claims
decode-encode c secret = simp (read-write, read_number-write_number, read_kind-write_kind)
