-- ===== src/Prelude/Texts.antt =====
-- Texts as lists of character codes, with the string tests that the code calls.
use Prim.Native.Nat.{ℕ}
use Prim.Native.Char.{code}
use Prim.Native.String.{String}
use mathlib.Core.Path.{◌≡◌, refl}
use mathlib.Core.Logic.{◌↔◌, inl, inr}
use mathlib.Core.Bool.{Bool, true, false, ◌&&◌, ◌||◌}
use mathlib.Core.List.{List, [], ◌∷◌, ◌++◌}
use mathlib.Core.Option.{Option, none, some}
use native.Mathlib.Omega.{arith}
use ai_kernel.Prelude.Tests.{◌==◌, leb, if◌then◌else◌, Option-cases}

-- A `str`: its characters, as code points.
abbrev pub Text : Type 0
Text = List ℕ

-- A literal's characters.
abbrev pub codes : String → Text
codes String.[] = []
codes (String.◌∷◌ c s) = code c ∷ codes s

-- `==` on texts.
unfoldable pub text_eq : Text → Text → Bool
text_eq [] [] = true
text_eq [] (y ∷ ys) = false
text_eq (x ∷ xs) [] = false
text_eq (x ∷ xs) (y ∷ ys) = (x == y) && text_eq xs ys

-- `text.starts_with(prefix)`, the prefix first.
unfoldable pub starts_with : Text → Text → Bool
starts_with [] t = true
starts_with (p ∷ ps) [] = false
starts_with (p ∷ ps) (x ∷ xs) = (p == x) && starts_with ps xs

abbrev cons_some : ℕ → Option Text → Option Text
cons_some x none = none
cons_some x (some t) = some (x ∷ t)

-- `text.strip_suffix(c)` for a character.
unfoldable pub strip_suffix : ℕ → Text → Option Text
strip_suffix c [] = none
strip_suffix c (x ∷ []) = if x == c then some [] else none
strip_suffix c (x ∷ y ∷ r) = cons_some x (strip_suffix c (y ∷ r))

-- `char::is_whitespace`: the Unicode property White_Space.
unfoldable pub is_whitespace : ℕ → Bool
is_whitespace c =
    (leb 0x9 c && leb c 0xd)
    || (c == 0x20)
    || (c == 0x85)
    || (c == 0xa0)
    || (c == 0x1680)
    || (leb 0x2000 c && leb c 0x200a)
    || (c == 0x2028)
    || (c == 0x2029)
    || (c == 0x202f)
    || (c == 0x205f)
    || (c == 0x3000)

-- `text.trim().is_empty()`: every character is white space.
unfoldable pub is_blank : Text → Bool
unfolding is_whitespace
is_blank [] = true
is_blank (x ∷ xs) = is_whitespace x && is_blank xs

pub text_eq_iff : (s t : Text) → (text_eq s t ≡ true) ↔ (s ≡ t)
unfolding text_eq
text_eq_iff [] [] = (λ _. refl, λ _. refl)
text_eq_iff [] (y ∷ t) = (λ h. cc, λ h. cc)
text_eq_iff (x ∷ s) [] = (λ h. cc, λ h. cc)
text_eq_iff (x ∷ s) (y ∷ t) =
    (λ h. ground (arith, (text_eq_iff s t).0), λ h. ground (arith, (text_eq_iff s t).1))

pub text_eq_refl : (s : Text) → text_eq s s ≡ true
text_eq_refl s = (text_eq_iff s s).1 refl

pub starts_with-append : (p r : Text) → starts_with p (p ++ r) ≡ true
unfolding starts_with
starts_with-append [] r = refl
starts_with-append (x ∷ p) r = ground (arith, starts_with-append p r)

-- A text that starts with `p` is `p` and a rest.
pub starts_with-split : (p t : Text) → starts_with p t ≡ true → (r : Text) × (t ≡ p ++ r)
unfolding starts_with
starts_with-split [] t h = (t, refl)
starts_with-split (x ∷ p) [] h = cc
starts_with-split (x ∷ p) (y ∷ t) h =
    let (r, e) = starts_with-split p t (ground arith) in (r, ground arith)

pub strip_suffix-append : (c : ℕ) (p : Text) → strip_suffix c (p ++ c ∷ []) ≡ some p
unfolding strip_suffix
strip_suffix-append c [] = ground arith
strip_suffix-append c (x ∷ []) = ground arith
strip_suffix-append c (x ∷ y ∷ p) = ground (arith, strip_suffix-append c (y ∷ p))

pub strip_suffix-some : (c : ℕ) (t p : Text) → strip_suffix c t ≡ some p → t ≡ p ++ c ∷ []
unfolding strip_suffix
strip_suffix-some c [] p h = cc
strip_suffix-some c (x ∷ []) p h = ground arith
strip_suffix-some c (x ∷ y ∷ r) p h = elim (Option-cases (strip_suffix c (y ∷ r))) [
  | inl e ↦ ground (arith, e)
  | inr (q, e) ↦ ground (arith, e, strip_suffix-some c (y ∷ r) q e)
]
