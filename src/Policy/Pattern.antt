-- ===== src/Policy/Pattern.antt =====
-- crates/policy/src/pattern.rs: the string matcher that every axis of a rule uses.
pub mod RoundTrip
pub mod Matching
use ai_kernel.Prelude.{
  Text, text_eq, starts_with, strip_suffix, Bool, true, false, Option, none, some, List, [], ◌∷◌,
  ◌++◌, ℕ, if◌then◌else◌,
}

pub data Pattern : Type 0 where
  any : Pattern
  prefix : Text → Pattern
  exact : Text → Pattern

-- `*`.
abbrev pub star : ℕ
star = b'*'

abbrev from_suffix : Text → Option Text → Pattern
from_suffix t none = exact t
from_suffix t (some p) = prefix p

unfoldable pub parse : Text → Pattern
parse t = if text_eq t (star ∷ []) then any else from_suffix t (strip_suffix star t)

unfoldable pub matches : Pattern → Text → Bool
matches any v = true
matches (prefix p) v = starts_with p v
matches (exact e) v = text_eq v e

unfoldable pub is_vacuous : Pattern → Bool
is_vacuous (exact []) = true
is_vacuous _ = false

-- The `Display` instance.
unfoldable pub display : Pattern → Text
display any = star ∷ []
display (prefix p) = p ++ star ∷ []
display (exact e) = e
