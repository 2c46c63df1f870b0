-- ===== src/Auth/Claims.antt =====
-- src/auth/core.rs: `TokenKind` and the JWT payload `Claims`. The accessors are the fields.
use servir.Prelude.{ℕ, String, Bool, true, false, not, true_of_not, ◌≡◌, refl, arith}

pub data TokenKind : Type 0 where
  access refresh : TokenKind

-- `PartialEq` of `TokenKind`
abbrev pub same_kind : TokenKind → TokenKind → Bool
same_kind access access = true
same_kind refresh refresh = true
same_kind _ _ = false

pub record Claims : Type 0 where
  pub sub : String
  pub username : String
  pub exp : ℕ
  pub iat : ℕ
  pub jti : String
  pub kind : TokenKind

pub eq_of_same_kind : (j k : TokenKind) → same_kind j k ≡ true → j ≡ k
eq_of_same_kind j k h = ground arith

pub same_kind_refl : (k : TokenKind) → same_kind k k ≡ true
same_kind_refl access = refl
same_kind_refl refresh = refl

pub kind_of_not : (j k : TokenKind) → not (same_kind j k) ≡ false → j ≡ k
kind_of_not j k h = eq_of_same_kind j k (true_of_not _ h)
