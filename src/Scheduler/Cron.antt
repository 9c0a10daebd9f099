-- ===== src/Scheduler/Cron.antt =====
-- crates/scheduler/src/cron.rs: the parser of the cron dialect.
pub mod Fields
pub mod Wrapping
pub mod Search
use ai_kernel.Prelude.{
  Text, text_eq, codes, decimal, is_whitespace, ℕ, zero, suc, ◌+◌, ◌*◌, ◌-◌, ◌%◌, Bool, true, false,
  ◌&&◌, ◌||◌, Option, none, some, List, [], ◌∷◌, ◌++◌, leb, ltb, ◌==◌, if◌then◌else◌, Result, ok,
  err, ◌>>=◌, ◌>>◌, refuse_if, length, u32_max,
}

abbrev pub u32_size : ℕ
u32_size = 4294967296

-- `str::split` at a separator, and `split_once`.
abbrev cons_first : ℕ → List Text → List Text
cons_first x [] = (x ∷ []) ∷ []
cons_first x (part ∷ parts) = (x ∷ part) ∷ parts

unfoldable pub split : ℕ → Text → List Text
split c [] = [] ∷ []
split c (x ∷ xs) = let rest = split c xs in if x == c then [] ∷ rest else cons_first x rest

abbrev cons_left : ℕ → Option (Text × Text) → Option (Text × Text)
cons_left x none = none
cons_left x (some (a, b)) = some (x ∷ a, b)

unfoldable pub split_once : ℕ → Text → Option (Text × Text)
split_once c [] = none
split_once c (x ∷ xs) =
    let rest = split_once c xs in if x == c then some ([], xs) else cons_left x rest

-- `str::split_whitespace`: the parts between white space that are not empty.
abbrev keep_word : Text → List Text → List Text
keep_word [] words = words
keep_word (x ∷ xs) words = (x ∷ xs) ∷ words

abbrev pub words_from : Text → List Text → List Text
words_from word [] = []
words_from word (part ∷ parts) = keep_word part (words_from word parts)

split_spaces : Text → List Text
split_spaces [] = [] ∷ []
split_spaces (x ∷ xs) =
    let rest = split_spaces xs in if is_whitespace x then [] ∷ rest else cons_first x rest

unfoldable pub split_whitespace : Text → List Text
unfolding split_spaces is_whitespace
split_whitespace t = words_from [] (split_spaces t)

-- `str::parse::<u32>`: a sign `+` and one or more digits, of a number that fits.
digits : ℕ → Text → Option ℕ
digits acc [] = some acc
digits acc (x ∷ xs) =
    let rest = digits (acc * 10 + (x - 48)) xs in
    if leb 48 x && leb x 57 && leb (acc * 10 + (x - 48)) u32_max then rest else none

unsigned : Text → Option ℕ
unfolding digits
unsigned [] = none
unsigned (x ∷ xs) = digits 0 (x ∷ xs)

unfoldable pub parse_u32 : Text → Option ℕ
unfolding unsigned
parse_u32 [] = none
parse_u32 (x ∷ xs) = if x == 43 then unsigned xs else unsigned (x ∷ xs)

pub record Field : Type 0 where
  pub included : List Bool
  pub is_wildcard : Bool

-- `vec![false; n]`, `included[v] = true` and `included.get(v)`.
abbrev pub repeat : ℕ → List Bool
repeat zero = []
repeat (suc n) = false ∷ repeat n

unfoldable pub set_true : List Bool → ℕ → List Bool
set_true [] v = []
set_true (b ∷ bs) zero = true ∷ bs
set_true (b ∷ bs) (suc v) = b ∷ set_true bs v

unfoldable pub get : List Bool → ℕ → Bool
get [] v = false
get (b ∷ bs) zero = b
get (b ∷ bs) (suc v) = get bs v

unfoldable pub contains : Field → ℕ → Bool
unfolding get
contains f v = get f.included v

-- The loop of `Field::parse` over the values of a part, on fuel; `v += step` wraps, as it does where
-- overflow is not checked.
unfoldable pub include : ℕ → ℕ → ℕ → ℕ → List Bool → List Bool
include zero v end step included = included
include (suc fuel) v end step included =
    let rest = include fuel ((v + step) % u32_size) end step (set_true included v) in
    if leb v end then rest else included

abbrev quoted : Text → Text
quoted t = codes "`" ++ (t ++ codes "`")

-- `.map_err`, for a number.
abbrev number : Text → Text → Option ℕ → Result Text ℕ
number what part none = err (what ++ quoted part)
number what part (some n) = ok n

abbrev range_and_step : Text → Option (Text × Text) → Result Text (Text × ℕ)
range_and_step part none = ok (part, 1)
range_and_step part (some (range, step)) =
    number (codes "invalid step in ") part (parse_u32 step) >>= λ n. ok (range, n)

abbrev bounds_of : Text → Text → Option (Text × Text) → Result Text (ℕ × ℕ)
bounds_of part range none =
    number (codes "invalid value in ") part (parse_u32 range) >>= λ v. ok (v, v)
bounds_of part range (some (a, b)) = number (codes "invalid value in ") part (parse_u32 a) >>= λ n.
    number (codes "invalid value in ") part (parse_u32 b) >>= λ m. ok (n, m)

checked : ℕ → ℕ → Text → ℕ → ℕ × ℕ → Result Text (ℕ × ℕ × ℕ)
checked low high part step (start, end) = do
  refuse_if (ltb start low || ltb high end || ltb end start) (
      quoted part
      ++ (codes " is outside the range " ++ (decimal low ++ (codes "-" ++ decimal high))))
  ok (start, end, step)

ranged : ℕ → ℕ → Text → Text × ℕ → Result Text (ℕ × ℕ × ℕ)
ranged low high part (range, step) = do
  refuse_if (step == 0) (codes "step of zero in " ++ quoted part)
  bounds ←
      if text_eq range (codes "*")
      then ok (low, high)
      else bounds_of part range (split_once 45 range)
  checked low high part step bounds

-- What a part asks for: its first value, its last value and its step.
unfoldable pub parse_part : ℕ → ℕ → Text → Result Text (ℕ × ℕ × ℕ)
unfolding ranged checked
parse_part low high part = do
  range ← range_and_step part (split_once 47 part)
  ranged low high part range

-- The loop of `Field::parse` over the parts.
unfoldable pub parse_parts : ℕ → ℕ → List Text → List Bool → Result Text (List Bool)
unfolding parse_part include
parse_parts low high [] included = ok included
parse_parts low high (part ∷ parts) included = do
  (start, end, step) ← parse_part low high part
  parse_parts low high parts (include (suc end) start end step included)

unfoldable pub parse_field : Text → ℕ → ℕ → Result Text Field
unfolding parse_parts split
parse_field text low high = do
  included ← parse_parts low high (split 44 text) (repeat (high + 1))
  ok (record { included = included; is_wildcard = text_eq text (codes "*") })

pub record CronSchedule : Type 0 where
  pub minute : Field
  pub hour : Field
  pub day_of_month : Field
  pub month : Field
  pub day_of_week : Field

-- `7` is Sunday, as `0` is.
unfoldable pub fold_sunday : Field → Field
unfolding contains set_true
fold_sunday f = if contains f 7 then record f { included = set_true f.included 0 } else f

wrong_count : ℕ → Result Text CronSchedule
wrong_count n =
    err
      (codes "expected 5 fields (minute hour day-of-month month day-of-week), found " ++ decimal n)

five_fields : List Text → Result Text CronSchedule
unfolding wrong_count parse_field fold_sunday
five_fields (minute ∷ hour ∷ day_of_month ∷ month ∷ day_of_week ∷ []) = do
  week ← parse_field day_of_week 0 7
  m ← parse_field minute 0 59
  h ← parse_field hour 0 23
  d ← parse_field day_of_month 1 31
  mo ← parse_field month 1 12
  ok (record { minute = m; hour = h; day_of_month = d; month = mo; day_of_week = fold_sunday week })
five_fields words = wrong_count (length words)

unfoldable pub parse : Text → Result Text CronSchedule
unfolding five_fields split_whitespace
parse expression = five_fields (split_whitespace expression)

-- `day_matches`, for the day of the month and the day of the week from Sunday.
unfoldable pub day_matches : CronSchedule → ℕ → ℕ → Bool
unfolding contains
day_matches s day weekday =
    let dom_ok = contains s.day_of_month day in
    let dow_ok = contains s.day_of_week weekday in
    if s.day_of_month.is_wildcard
    then if s.day_of_week.is_wildcard then true else dow_ok
    else if s.day_of_week.is_wildcard
    then dom_ok
    else dom_ok || dow_ok
