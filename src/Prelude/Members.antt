-- ===== src/Prelude/Members.antt =====
-- What holds of every element of a list, and of every element that is kept.
use mathlib.Core.Path.{◌≡◌, refl}
use mathlib.Core.Bool.{Bool, true}
use mathlib.Core.Logic.{inl, inr}
use mathlib.Core.List.{List, [], ◌∷◌, ◌++◌, Memᴰ}
use ai_kernel.Prelude.Tests.{Bool-cases}
use ai_kernel.Prelude.Lists.{All, keep_if}

module _ {ℓ} {A : Type ℓ} where
  pub map-All {κ μ} :
      (P : A → Type κ) (Q : A → Type μ) (xs : List A) → ((x : A) → P x → Q x) → All P xs → All Q xs
  map-All P Q [] f h = tt
  map-All P Q (x ∷ xs) f (first, rest) = (f x first, map-All P Q xs f rest)

  pub append-All {κ} : (P : A → Type κ) (xs ys : List A) → All P xs → All P ys → All P (xs ++ ys)
  append-All P [] ys h k = k
  append-All P (x ∷ xs) ys (first, rest) k = (first, append-All P xs ys rest k)

  pub members : (xs : List A) → All (λ x. Memᴰ x xs) xs
  members [] = tt
  members (x ∷ xs) = (
    Memᴰ.head refl,
    map-All (λ y. Memᴰ y xs) (λ y. Memᴰ y (x ∷ xs)) xs (λ y m. Memᴰ.tail m) (members xs),
  )

  pub All-member {κ} : (P : A → Type κ) (xs : List A) (x : A) → All P xs → Memᴰ x xs → P x
  All-member P [] x h m = elim m [ ]
  All-member P (y ∷ xs) x (first, rest) (Memᴰ.head e) = rw e first
  All-member P (y ∷ xs) x (first, rest) (Memᴰ.tail m) = All-member P xs x rest m

  pub kept-members : (p : A → Bool) (xs : List A) → All (λ x. Memᴰ x xs) (keep_if p xs)
  kept-members p [] = tt
  kept-members p (x ∷ xs) =
      let rest =
        map-All (λ y. Memᴰ y xs) (λ y. Memᴰ y (x ∷ xs)) (keep_if p xs) (λ y m. Memᴰ.tail m)
          (kept-members p xs) in
      elim (Bool-cases (p x)) [ inl e ↦ rw e (Memᴰ.head refl, rest) | inr e ↦ rw e rest ]

  pub member-left : (x : A) (xs ys : List A) → Memᴰ x xs → Memᴰ x (xs ++ ys)
  member-left x [] ys m = elim m [ ]
  member-left x (y ∷ xs) ys (Memᴰ.head e) = Memᴰ.head e
  member-left x (y ∷ xs) ys (Memᴰ.tail m) = Memᴰ.tail (member-left x xs ys m)

  pub member-right : (x : A) (xs ys : List A) → Memᴰ x ys → Memᴰ x (xs ++ ys)
  member-right x [] ys m = m
  member-right x (y ∷ xs) ys m = Memᴰ.tail (member-right x xs ys m)

  pub member-kept :
      (p : A → Bool) (x : A) (xs : List A) → p x ≡ true → Memᴰ x xs → Memᴰ x (keep_if p xs)
  member-kept p x [] e m = elim m [ ]
  member-kept p x (y ∷ xs) e (Memᴰ.head same) =
      let here : p y ≡ true = rw same at e in rw here (Memᴰ.head same)
  member-kept p x (y ∷ xs) e (Memᴰ.tail m) =
      let rest = member-kept p x xs e m in
      elim (Bool-cases (p y)) [ inl k ↦ rw k (Memᴰ.tail rest) | inr k ↦ rw k rest ]
