-- ===== src/Server/Axum/Sample/Paths.antt =====
-- The path behind a prefix, for the concrete router's `nest`.
use servir.Prelude.{
  String, append, strip_prefix, strip_prefix-append, ◌≡◌, ◌≢◌, refl, sym, ◌∙◌, Bool-cases, true,
  Option, none, some, inl, inr, if◌then◌else◌,
}
use package.text.Mathlib.Text.{starts_with}
use package.text.Mathlib.TextEquality.{starts_with_iff}
use package.text.Mathlib.TextPositions.{starts_with-append}
use package.text.Mathlib.TextLemmas.{append_assoc}
use servir.Auth.Extractor.{text}

-- What stands behind the prefix, if that is followed by a slash.
abbrev pub sample_tail : String → String → Option String
sample_tail prefix path =
    if starts_with path (append prefix "/") then strip_prefix path prefix else none

pub tail_nested :
    (prefix p path : String)
    → path ≡ append prefix (append "/" p)
    → sample_tail prefix path ≡ some (append "/" p)
tail_nested prefix p path e =
    let long : starts_with (append prefix (append "/" p)) (append prefix "/") ≡ true =
      rw (← append_assoc prefix "/" p) (starts_with-append (append prefix "/") p) in
    rw (e, long) (strip_prefix-append prefix (append "/" p))

pub tail_other :
    (prefix path : String)
    → ((p : String) → path ≢ append prefix (append "/" p))
    → sample_tail prefix path ≡ none
tail_other prefix path away = elim (Bool-cases (starts_with path (append prefix "/"))) [
  | inl long ↦
      let (p, e) = (starts_with_iff path (append prefix "/")).0 long in
      absurd (away p (sym e ∙ append_assoc prefix "/" p))
  | inr short ↦ rw short refl
]
