-- ===== src/Prelude/Text.antt =====
-- Texts: equality as a Boolean test, and the tests of `str` that the program makes.
use Prim.Native.String.{String, len, slice}
use mathlib.Core.Path.{◌≡◌, refl}
use mathlib.Core.Logic.{◌≢◌}
use mathlib.Core.Bool.{Bool, true, false}
use mathlib.Core.Option.{Option, none, some}
use native.Mathlib.Omega.{arith}
use text.Mathlib.Text.{starts_with}
use text.Mathlib.TextEquality.{eq_iff}
use text.Mathlib.TextPositions.{slice-append_right, starts_with-append, len-append}
use servir.Prelude.Tests.{if◌then◌else◌}
pub use text.Mathlib.Text.{◌==◌}
pub use text.Mathlib.TextEquality.{eq_iff}
pub use text.Mathlib.TextPositions.{eq_refl}
pub use Prim.Native.String.{len}
pub use Prim.Native.String.{◌++◌ as append}

-- `str::is_empty`
abbrev pub is_empty : String → Bool
is_empty s = s == ""

-- `str::strip_prefix`
unfoldable pub strip_prefix : String → String → Option String
strip_prefix s prefix = if starts_with s prefix then some (slice s (len prefix) (len s)) else none

pub strip_prefix-append : (p t : String) → strip_prefix (append p t) p ≡ some t
unfolding strip_prefix
strip_prefix-append p t = rw starts_with-append (rw len-append (rw slice-append_right refl))

pub eq_of_test : (s t : String) → (s == t) ≡ true → s ≡ t
eq_of_test s t h = (eq_iff s t).0 h

pub ne_of_test : (s t : String) → (s == t) ≡ false → s ≢ t
ne_of_test s t h e = ground (arith, eq_iff s t)

pub test_of_ne : (s t : String) → s ≢ t → (s == t) ≡ false
test_of_ne s t h = ground (arith, eq_iff s t)
