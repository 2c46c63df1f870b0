-- ===== src/Prelude/Int.antt =====
-- Machine integers: `u64`/`usize` as numbers below 2 ^ 64, and `i64` as an integer with its casts,
-- its wrapping addition and its comparison. The casts are Rust's `as`.
use Prim.Native.Nat.{ℕ, ◌+◌, ◌-◌, ◌%◌, ◌≤◌, ◌<◌}
use mathlib.Core.Path.{◌≡◌}
use mathlib.Core.Logic.{◌↔◌}
use mathlib.Core.Bool.{Bool, true, false}
use native.Mathlib.Omega.{arith}
use servir.Prelude.Tests.{ltb, if◌then◌else◌}

-- `negsuc n` is -(n + 1).
pub data ℤ : Type 0 where
  pos : ℕ → ℤ
  negsuc : ℕ → ℤ

abbrev pub u64_mod : ℕ
u64_mod = 0x1_0000_0000_0000_0000

abbrev pub i64_max : ℕ
i64_max = 0x7fff_ffff_ffff_ffff

-- `a + b` on `usize`, as a release build computes it.
unfoldable pub add_usize : ℕ → ℕ → ℕ
add_usize a b = (a + b) % u64_mod

-- `x as i64` for a `u64`.
unfoldable pub as_i64 : ℕ → ℤ
as_i64 x = if ltb i64_max x then negsuc (u64_mod - 1 - x) else pos x

-- The two's-complement bits of an `i64`.
abbrev bits : ℤ → ℕ
bits (pos n) = n
bits (negsuc n) = u64_mod - 1 - n

-- `a + b` on `i64`, as a release build computes it.
unfoldable pub add_i64 : ℤ → ℤ → ℤ
unfolding as_i64
add_i64 a b = as_i64 ((bits a + bits b) % u64_mod)

-- `a < b` on integers.
unfoldable pub lt_ℤ : ℤ → ℤ → Bool
lt_ℤ (pos a) (pos b) = ltb a b
lt_ℤ (pos a) (negsuc b) = false
lt_ℤ (negsuc a) (pos b) = true
lt_ℤ (negsuc a) (negsuc b) = ltb b a

pub add_usize-small : (a b : ℕ) → a + b < u64_mod → add_usize a b ≡ a + b
unfolding add_usize
add_usize-small a b h = omega arith

-- A time to live that is `k` short of the modulus takes `k` away.
pub add_usize-wraps :
    (a ttl k : ℕ) → ttl + k ≡ u64_mod → k ≤ a → a < u64_mod → add_usize a ttl + k ≡ a
unfolding add_usize
add_usize-wraps a ttl k h small fits = omega (arith, h, small, fits)

pub as_i64-small : (x : ℕ) → x ≤ i64_max → as_i64 x ≡ pos x
unfolding as_i64
as_i64-small x h = ground arith

-- Casting a time to live of `u64` to `i64` and adding it is exact below the `i64` maximum.
pub add_i64-small : (a b : ℕ) → a + b ≤ i64_max → add_i64 (as_i64 a) (as_i64 b) ≡ pos (a + b)
unfolding add_i64
add_i64-small a b h = ground (arith, as_i64-small a, as_i64-small b)

pub lt_ℤ-pos_iff : (a b : ℕ) → (lt_ℤ (pos a) (pos b) ≡ true) ↔ (a < b)
unfolding lt_ℤ
lt_ℤ-pos_iff a b = ground arith
