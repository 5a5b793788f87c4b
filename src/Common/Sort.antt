-- ===== src/Common/Sort.antt =====
-- `[...].sort((left, right) => key(right) - key(left))`: JavaScript's stable sort by a number,
-- the greatest first, as an insertion sort. It is the only arrangement that is in order and
-- keeps equal elements as they stood.
use Prim.Native.Nat.{ℕ, suc, ◌≤◌}
use mathlib.Core.Path.{◌≡◌, refl}
use mathlib.Core.Bool.{Bool}
use mathlib.Core.List.{List, [], ◌∷◌}
use mathlib.Core.Logic.{inl, inr}
use native.Mathlib.Omega.{arith}
use job_hunters_api.Common.Tests.{ltb, if◌then◌else◌, Bool-cases, ltb→lt, le_of_not_ltb}
use job_hunters_api.Common.Lists.{All, count, length, take, drop}

module _ {ℓ} {A : Type ℓ} (key : A → ℕ) where
  -- Inserted in front of the first element with a smaller or an equal key.
  insert_desc : A → List A → List A
  insert_desc x [] = x ∷ []
  insert_desc x (y ∷ ys) = if ltb (key x) (key y) then y ∷ insert_desc x ys else x ∷ y ∷ ys

  unfoldable pub sort_desc : List A → List A
  unfolding insert_desc
  sort_desc [] = []
  sort_desc (x ∷ xs) = insert_desc x (sort_desc xs)

  -- The least first, as `order by` gives the rows.
  insert_asc : A → List A → List A
  insert_asc x [] = x ∷ []
  insert_asc x (y ∷ ys) = if ltb (key y) (key x) then y ∷ insert_asc x ys else x ∷ y ∷ ys

  unfoldable pub sort_asc : List A → List A
  unfolding insert_asc
  sort_asc [] = []
  sort_asc (x ∷ xs) = insert_asc x (sort_asc xs)

  -- Each key is at least the keys behind it.
  abbrev IsDescending : List A → Type 0
  IsDescending [] = Unit
  IsDescending (x ∷ xs) = All (λ y. key y ≤ key x) xs × IsDescending xs

  All-insert_desc :
      (P : A → Type 0) (x : A) (ys : List A) → P x → All P ys → All P (insert_desc x ys)
  unfolding insert_desc
  All-insert_desc P x [] p h = (p, tt)
  All-insert_desc P x (y ∷ ys) p (q, h) = elim (Bool-cases (ltb (key x) (key y))) [
    | inl less ↦ rw less (q, All-insert_desc P x ys p h)
    | inr more ↦ rw more (p, (q, h))
  ]

  All-le : (m n : ℕ) (ys : List A) → m ≤ n → All (λ y. key y ≤ m) ys → All (λ y. key y ≤ n) ys
  All-le m n [] h k = tt
  All-le m n (y ∷ ys) h (p, k) = (omega arith, All-le m n ys h k)

  insert_desc-IsDescending :
      (x : A) (ys : List A) → IsDescending ys → IsDescending (insert_desc x ys)
  unfolding insert_desc
  insert_desc-IsDescending x [] h = (tt, tt)
  insert_desc-IsDescending x (y ∷ ys) (all, h) = elim (Bool-cases (ltb (key x) (key y))) [
    | inl less ↦
        let lt = ltb→lt (key x) (key y) less in
        rw less (
          All-insert_desc (λ z. key z ≤ key y) x ys (omega arith) all,
          insert_desc-IsDescending x ys h,
        )
    | inr more ↦
        let le = le_of_not_ltb (key x) (key y) more in
        rw more ((le, All-le (key y) (key x) ys le all), (all, h))
  ]

  pub sort_desc-IsDescending : (xs : List A) → IsDescending (sort_desc xs)
  unfolding sort_desc
  sort_desc-IsDescending [] = tt
  sort_desc-IsDescending (x ∷ xs) =
      insert_desc-IsDescending x (sort_desc xs) (sort_desc-IsDescending xs)

  count-insert_desc :
      (p : A → Bool) (x : A) (ys : List A) → count p (insert_desc x ys) ≡ count p (x ∷ ys)
  unfolding insert_desc
  count-insert_desc p x [] = refl
  count-insert_desc p x (y ∷ ys) = ground (arith, count-insert_desc p x ys)

  -- Sorting loses and repeats nothing.
  pub count-sort_desc : (p : A → Bool) (xs : List A) → count p (sort_desc xs) ≡ count p xs
  unfolding sort_desc
  count-sort_desc p [] = refl
  count-sort_desc p (x ∷ xs) =
      ground (arith, count-insert_desc p x (sort_desc xs), count-sort_desc p xs)

  All-drop : (P : A → Type 0) (n : ℕ) (xs : List A) → All P xs → All P (drop n xs)
  All-drop P ℕ.zero xs h = h
  All-drop P (suc n) [] h = tt
  All-drop P (suc n) (x ∷ xs) (p, h) = All-drop P n xs h

  -- What a cut keeps of a sorted list has no smaller key than what it drops.
  pub take-ge-drop :
      (n : ℕ) (xs : List A)
      → IsDescending xs
      → All (λ kept. All (λ dropped. key dropped ≤ key kept) (drop n xs)) (take n xs)
  take-ge-drop ℕ.zero xs h = tt
  take-ge-drop (suc n) [] h = tt
  take-ge-drop (suc n) (x ∷ xs) (all, h) =
      (All-drop (λ y. key y ≤ key x) n xs all, take-ge-drop n xs h)

  All-insert_asc : (P : A → Type 0) (x : A) (ys : List A) → P x → All P ys → All P (insert_asc x ys)
  unfolding insert_asc
  All-insert_asc P x [] p h = (p, tt)
  All-insert_asc P x (y ∷ ys) p (q, h) = elim (Bool-cases (ltb (key y) (key x))) [
    | inl less ↦ rw less (q, All-insert_asc P x ys p h)
    | inr more ↦ rw more (p, (q, h))
  ]

  pub All-sort_asc : (P : A → Type 0) (xs : List A) → All P xs → All P (sort_asc xs)
  unfolding sort_asc
  All-sort_asc P [] h = tt
  All-sort_asc P (x ∷ xs) (p, h) = All-insert_asc P x (sort_asc xs) p (All-sort_asc P xs h)

  count-insert_asc :
      (p : A → Bool) (x : A) (ys : List A) → count p (insert_asc x ys) ≡ count p (x ∷ ys)
  unfolding insert_asc
  count-insert_asc p x [] = refl
  count-insert_asc p x (y ∷ ys) = ground (arith, count-insert_asc p x ys)

  pub count-sort_asc : (p : A → Bool) (xs : List A) → count p (sort_asc xs) ≡ count p xs
  unfolding sort_asc
  count-sort_asc p [] = refl
  count-sort_asc p (x ∷ xs) =
      ground (arith, count-insert_asc p x (sort_asc xs), count-sort_asc p xs)

  length-insert_asc : (x : A) (ys : List A) → length (insert_asc x ys) ≡ suc (length ys)
  unfolding insert_asc
  length-insert_asc x [] = refl
  length-insert_asc x (y ∷ ys) = ground (arith, length-insert_asc x ys)

  pub length-sort_asc : (xs : List A) → length (sort_asc xs) ≡ length xs
  unfolding sort_asc
  length-sort_asc [] = refl
  length-sort_asc (x ∷ xs) = ground (arith, length-insert_asc x (sort_asc xs), length-sort_asc xs)
