-- ===== src/Scheduler/Cron/Fields.antt =====
-- Which values a parsed field contains, crates/scheduler/src/cron.rs.
use mathlib.Core.Path.{subst}
use native.Mathlib.Nat.{mod-eq_of_lt}
use ai_kernel.Prelude.{
  Text, ℕ, zero, suc, ◌+◌, ◌*◌, ◌%◌, ◌≤◌, ◌<◌, ◌≡◌, refl, ap, ◌∙◌, ◌↔◌, ◌⊎◌, inl, inr, Bool, true,
  false, List, [], ◌∷◌, arith, text_eq, codes, ◌||◌, bind-ok, ◌>>=◌, refuse_if-ok, ltb, ◌==◌,
  if◌then◌else◌, Result, ok, err, length, Bool-cases,
}
use ai_kernel.Scheduler.Cron.{
  u32_size, Field, repeat, set_true, get, contains, include, parse_part, parse_parts, parse_field,
  split, split_once, range_and_step, bounds_of, checked, ranged,
}

pub length-set_true : (bs : List Bool) (v : ℕ) → length (set_true bs v) ≡ length bs
unfolding set_true
length-set_true [] v = refl
length-set_true (b ∷ bs) zero = refl
length-set_true (b ∷ bs) (suc v) = ap suc (length-set_true bs v)

pub get-set_true :
    (bs : List Bool) (v w : ℕ)
    → v < length bs
    → (get (set_true bs v) w ≡ true) ↔ ((w ≡ v) ⊎ (get bs w ≡ true))
unfolding set_true get
get-set_true [] v w h = absurd (omega arith)
get-set_true (b ∷ bs) zero zero h = (λ e. inl refl, λ e. refl)
get-set_true (b ∷ bs) zero (suc w) h = ground arith
get-set_true (b ∷ bs) (suc v) zero h = ground arith
get-set_true (b ∷ bs) (suc v) (suc w) h = ground (arith, get-set_true bs v w)

-- `w` is `v` and some steps, and not above `end`.
abbrev pub Stepped : ℕ → ℕ → ℕ → ℕ → Type 0
Stepped v end step w = ((k : ℕ) × (w ≡ v + k * step)) × (w ≤ end)

pub ltb-cases : (a b : ℕ) → (a < b) ⊎ (b ≤ a)
ltb-cases a b = elim (Bool-cases (ltb a b)) [
  | inl e ↦ inl (ground arith)
  | inr e ↦ inr (ground arith)
]

step-first : (v end step w : ℕ) → Stepped v end step w → (w ≡ v) ⊎ Stepped (v + step) end step w
step-first v end step w ((zero, e), h) = inl (ground arith)
step-first v end step w ((suc k, e), h) = inr ((k, ground arith), h)

step-more : (v end step w : ℕ) → Stepped (v + step) end step w → Stepped v end step w
step-more v end step w ((k, e), h) = ((suc k, ground arith), h)

not-Stepped : (v end step w : ℕ) → end < v → ¬ Stepped v end step w
not-Stepped v end step w h ((k, e), below) = omega arith

pub include-above :
    (fuel v end step : ℕ) (bs : List Bool) → end < v → include fuel v end step bs ≡ bs
unfolding include
include-above zero v end step bs h = refl
include-above (suc fuel) v end step bs h = ground arith

include-below :
    (fuel v end step : ℕ) (bs : List Bool)
    → v ≤ end
    → v + step < u32_size
    → include (suc fuel) v end step bs ≡ include fuel (v + step) end step (set_true bs v)
unfolding include
include-below fuel v end step bs h small =
    ground (arith, ap (λ n. include fuel n end step (set_true bs v)) (mod-eq_of_lt small))

include-Stepped :
    (fuel v end step w : ℕ) (bs : List Bool)
    → end < v + fuel
    → 0 < step
    → end + step < u32_size
    → end < length bs
    → (get (include fuel v end step bs) w ≡ true) ↔ (Stepped v end step w ⊎ (get bs w ≡ true))
include-Stepped zero v end step w bs enough pos small long =
    rw (include-above zero v end step bs (omega arith)) (
      λ e. inr e,
      λ s. elim s [ inl s ↦ absurd (not-Stepped v end step w (omega arith) s) | inr e ↦ e ],
    )
include-Stepped (suc fuel) v end step w bs enough pos small long = elim (ltb-cases end v) [
  | inl above ↦
      rw (include-above (suc fuel) v end step bs above)
        (λ e. inr e, λ s. elim s [ inl s ↦ absurd (not-Stepped v end step w above s) | inr e ↦ e ])
  | inr below ↦
      let (ih, hi) =
        include-Stepped fuel (v + step) end step w (set_true bs v) (omega arith) pos small
          (rw (length-set_true bs v) long) in
      let (set, reset) = get-set_true bs v w (omega arith) in
      rw (include-below fuel v end step bs below (omega arith)) (
        λ e. elim (ih e) [
          | inl s ↦ inl (step-more v end step w s)
          | inr f ↦ elim (set f) [ inl same ↦ inl ((0, omega arith), omega arith) | inr g ↦ inr g ]
        ],
        λ s. hi (elim s [
          | inl s ↦ elim (step-first v end step w s) [
            | inl same ↦ inr (reset (inl same))
            | inr t ↦ inl t
          ]
          | inr g ↦ inr (reset (inr g))
        ]),
      )
]

-- The values that a part asks for.
abbrev pub Asks : Result Text (ℕ × ℕ × ℕ) → ℕ → Type 0
Asks (err message) w = ⊥
Asks (ok (start, end, step)) w = Stepped start end step w

abbrev pub AsksOneOf : ℕ → ℕ → List Text → ℕ → Type 0
AsksOneOf low high [] w = ⊥
AsksOneOf low high (part ∷ parts) w = Asks (parse_part low high part) w ⊎ AsksOneOf low high parts w

-- The step of a part leaves room below the largest `u32`.
abbrev pub Fits : Result Text (ℕ × ℕ × ℕ) → Type 0
Fits (err message) = Unit
Fits (ok (start, end, step)) = end + step < u32_size

outside-false : (a b c : Bool) → (a || b || c) ≡ false → (a ≡ false) × ((b ≡ false) × (c ≡ false))
outside-false a b c h = ground arith

ltb-false : (a b : ℕ) → ltb a b ≡ false → b ≤ a
ltb-false a b h = ground arith

abbrev part_or : ℕ × ℕ × ℕ → Result Text (ℕ × ℕ × ℕ) → ℕ × ℕ × ℕ
part_or p (ok q) = q
part_or p (err message) = p

abbrev Bounded : ℕ → ℕ → ℕ × ℕ × ℕ → Type 0
Bounded low high (start, end, step) = (0 < step) × (low ≤ start) × (start ≤ end) × (end ≤ high)

checked-Bounded :
    (low high : ℕ) (part : Text) (step : ℕ) (b : ℕ × ℕ) (r : ℕ × ℕ × ℕ)
    → 0 < step
    → checked low high part step b ≡ ok r
    → Bounded low high r
unfolding checked
checked-Bounded low high part step (start, end) r pos h =
    let (inside, same) = refuse_if-ok (ltb start low || ltb high end || ltb end start) _ _ _ h in
    let (first, second) = outside-false (ltb start low) (ltb high end) (ltb end start) inside in
    subst (Bounded low high) (ap (part_or r) same)
      (pos, ltb-false start low first, ltb-false end start second.1, ltb-false high end second.0)

ranged-Bounded :
    (low high : ℕ) (part range : Text) (step : ℕ) (r : ℕ × ℕ × ℕ)
    → ranged low high part (range, step) ≡ ok r
    → Bounded low high r
unfolding ranged
ranged-Bounded low high part range step r h =
    let (no_zero, h2) = refuse_if-ok (step == 0) _ _ _ h in
    let (b, _, h3) =
      bind-ok
        (if text_eq range (codes "*")
          then ok (low, high)
          else bounds_of part range (split_once 45 range))
        (checked low high part step) r h2 in
    checked-Bounded low high part step b r (ground arith) h3

parse_part-Bounded :
    (low high : ℕ) (part : Text) (r : ℕ × ℕ × ℕ)
    → parse_part low high part ≡ ok r
    → Bounded low high r
unfolding parse_part
parse_part-Bounded low high part r h =
    let (a, _, h1) =
      bind-ok (range_and_step part (split_once 47 part)) (ranged low high part) r h in
    ranged-Bounded low high part a.0 a.1 r h1

abbrev list_or : List Bool → Result Text (List Bool) → List Bool
list_or bs (ok cs) = cs
list_or bs (err message) = bs

length-include :
    (fuel v end step : ℕ) (bs : List Bool) → length (include fuel v end step bs) ≡ length bs
unfolding include
length-include zero v end step bs = refl
length-include (suc fuel) v end step bs =
    let rest = length-include fuel ((v + step) % u32_size) end step (set_true bs v) in
    ground (arith, rest ∙ length-set_true bs v)

abbrev pub AllFit : ℕ → ℕ → List Text → Type 0
AllFit low high [] = Unit
AllFit low high (part ∷ parts) = Fits (parse_part low high part) × AllFit low high parts

module _ (low high w : ℕ) where
  -- What a parse of the parts from `bs` on includes.
  abbrev Includes : List Text → List Bool → Type 0
  Includes parts bs =
      (cs : List Bool)
      → high < length bs
      → parse_parts low high parts bs ≡ ok cs
      → (get cs w ≡ true) ↔ (AsksOneOf low high parts w ⊎ (get bs w ≡ true))

  part_first :
      (part : Text) (parts : List Text) (bs cs : List Bool) (p : Result Text (ℕ × ℕ × ℕ))
      → ((ds : List Bool) → Includes parts ds)
      → parse_part low high part ≡ p
      → high < length bs
      → Fits p
      → (p >>= λ (start, end, step).
          parse_parts low high parts (include (suc end) start end step bs))
        ≡ ok cs
      → (get cs w ≡ true) ↔ ((Asks p w ⊎ AsksOneOf low high parts w) ⊎ (get bs w ≡ true))
  part_first part parts bs cs (err m) rest e long fit h = cc
  part_first part parts bs cs (ok (start, end, step)) rest e long fit h =
      let (pos, _, ordered, inside) = parse_part-Bounded low high part (start, end, step) e in
      let (to, back) =
        include-Stepped (suc end) start end step w bs (omega arith) pos fit (omega arith) in
      let (first, last) =
        rest (include (suc end) start end step bs) cs
          (rw (length-include (suc end) start end step bs) long) h in
      (
        λ c. elim (first c) [
          | inl asked ↦ inl (inr asked)
          | inr i ↦ elim (to i) [ inl s ↦ inl (inl s) | inr b ↦ inr b ]
        ],
        λ s. last (elim s [
          | inl asks ↦ elim asks [ inl t ↦ inr (back (inl t)) | inr asked ↦ inl asked ]
          | inr b ↦ inr (back (inr b))
        ]),
      )

  parse_parts-AsksOneOf :
      (parts : List Text) → AllFit low high parts → (bs : List Bool) → Includes parts bs
  unfolding parse_parts
  parse_parts-AsksOneOf [] fits bs cs long h =
      subst (λ ds. (get ds w ≡ true) ↔ (⊥ ⊎ (get bs w ≡ true))) (ap (list_or bs) h)
        (λ e. inr e, λ s. elim s [ inl f ↦ absurd f | inr e ↦ e ])
  parse_parts-AsksOneOf (part ∷ parts) fits bs cs long h =
      part_first part parts bs cs (parse_part low high part) (parse_parts-AsksOneOf parts fits.1)
        refl long fits.0 h

length-repeat : (n : ℕ) → length (repeat n) ≡ n
length-repeat zero = refl
length-repeat (suc n) = ap suc (length-repeat n)

get-repeat : (n w : ℕ) → get (repeat n) w ≡ false
unfolding get
get-repeat zero w = refl
get-repeat (suc n) zero = refl
get-repeat (suc n) (suc w) = get-repeat n w

abbrev field_or : Field → Result Text Field → Field
field_or f (ok g) = g
field_or f (err message) = f

-- A field that parses, and whose parts have steps that leave room below the largest `u32`, contains
-- exactly the values that one of its parts between commas asks for: those from the part's first to its
-- last value that are a whole number of steps above the first.
pub parse_field-AsksOneOf :
    (text : Text) (low high w : ℕ) (f : Field)
    → AllFit low high (split 44 text)
    → parse_field text low high ≡ ok f
    → (contains f w ≡ true) ↔ AsksOneOf low high (split 44 text) w
unfolding parse_field contains
parse_field-AsksOneOf text low high w f fits h =
    let (bs, parsed, same) =
      bind-ok (parse_parts low high (split 44 text) (repeat (high + 1))) _ f h in
    let (to, back) =
      parse_parts-AsksOneOf low high w (split 44 text) fits (repeat (high + 1)) bs
        (rw (length-repeat (high + 1)) (omega arith)) parsed in
    subst (λ g. (get g.included w ≡ true) ↔ AsksOneOf low high (split 44 text) w)
      (ap (field_or f) same)
      (
        λ e. elim (to e) [ inl asked ↦ asked | inr r ↦ cc (r, get-repeat (high + 1) w) ],
        λ asked. back (inl asked),
      )
