-- ===== src/Common/Coverage.antt =====
-- Rows with distinct keys that are all asked for: as many rows as keys are a row for every key.
use Prim.Native.Nat.{ℕ, ◌≤◌}
use mathlib.Core.Path.{◌≡◌}
use mathlib.Core.Bool.{Bool, true, false}
use mathlib.Core.List.{List, [], ◌∷◌}
use native.Mathlib.Omega.{arith}
use job_hunters_api.Common.Tests.{◌==◌}
use job_hunters_api.Common.Lists.{
  All, any, count, count-le-length, length, not_any_of_count, count_either,
}

pub All-of_count {ℓ} :
    {A : Type ℓ} (p : A → Bool) (xs : List A) → length xs ≤ count p xs → All (λ x. p x ≡ true) xs
All-of_count p [] h = tt
All-of_count p (x ∷ xs) h = (ground (arith, count-le-length p xs), All-of_count p xs (ground arith))

count_of_key :
    (key : ℕ) (ids : List ℕ) → any (λ i. i == key) ids ≡ true → 1 ≤ count (λ i. key == i) ids
count_of_key key [] h = cc
count_of_key key (i ∷ ids) h = ground (arith, count_of_key key ids)

module _ {A : Type 0} (key : A → ℕ) where
  abbrev pub is_present : List A → ℕ → Bool
  is_present xs i = any (λ x. key x == i) xs

  abbrev pub HasDistinctKeys : List A → Type 0
  HasDistinctKeys xs = (i : ℕ) → count (λ x. key x == i) xs ≤ 1

  excludes :
      (x : A) (xs : List A) (i : ℕ)
      → HasDistinctKeys (x ∷ xs)
      → (key x == i) ≡ true
      → is_present xs i ≡ false
  excludes x xs i d e = not_any_of_count (λ y. key y == i) xs (ground (arith, d i))

  HasDistinctKeys-tail : (x : A) (xs : List A) → HasDistinctKeys (x ∷ xs) → HasDistinctKeys xs
  HasDistinctKeys-tail x xs d i = ground (arith, d i)

  length-le-present :
      (xs : List A) (ids : List ℕ)
      → HasDistinctKeys xs
      → All (λ x. any (λ i. i == key x) ids ≡ true) xs
      → length xs ≤ count (is_present xs) ids
  length-le-present [] ids d h = omega arith
  length-le-present (x ∷ xs) ids d (asked, h) = omega (
    arith,
    count_either (λ i. key x == i) (is_present xs) ids (λ i e. excludes x xs i d e),
    count_of_key (key x) ids asked,
    length-le-present xs ids (HasDistinctKeys-tail x xs d) h,
  )

  -- Each key has its row.
  pub present_of_length :
      (xs : List A) (ids : List ℕ)
      → HasDistinctKeys xs
      → All (λ x. any (λ i. i == key x) ids ≡ true) xs
      → length xs ≡ length ids
      → All (λ i. is_present xs i ≡ true) ids
  present_of_length xs ids d h e =
      All-of_count (is_present xs) ids (omega (arith, length-le-present xs ids d h))
