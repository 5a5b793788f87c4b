-- ===== src/Discovery/Complete.antt =====
-- `balancedSelection` of src/hunt/discovery/service.ts leaves nothing out below its target.
use job_hunters_api.Common.{
  ℕ, zero, suc, ◌+◌, ◌≤◌, ◌<◌, ◌≡◌, refl, subst, true, false, Bool-cases, inl, inr, ◌⊎◌, none, List,
  [], ◌∷◌, length, get_elem?, ltb, arith, All,
}
use job_hunters_api.Discovery.{
  ScrapedJob, is_picked, queues_of, pick_round, rounds, total_length, balanced_selection,
}
use job_hunters_api.Discovery.Selection.{
  IsBalanced, is_covered, covered-grows, pick_round-IsBalanced, pick_round-grows, pick_round-covers,
  pick_round-full, pick_round-not_placed,
}

past_end : (q : List ScrapedJob) (i : ℕ) → length q ≤ i → get_elem? q i ≡ none
past_end [] i h = refl
past_end (x ∷ q) zero h = absurd (omega arith)
past_end (x ∷ q) (suc i) h = past_end q i (omega arith)

end_of : (q : List ScrapedJob) (i : ℕ) → get_elem? q i ≡ none → length q ≤ i
end_of [] i h = omega arith
end_of (x ∷ q) zero h = absurd (ground arith)
end_of (x ∷ q) (suc i) h = let rest = end_of q i h in omega arith

-- The first `n` postings of every queue are picked, each itself or by its fingerprint.
abbrev IsDone : ℕ → List ScrapedJob → List (List ScrapedJob) → Type 0
IsDone n picked queues =
    All (λ q. (i : ℕ) → i < n → is_covered (get_elem? q i) picked ≡ true) queues

-- All postings of every queue are.
abbrev pub IsComplete : List ScrapedJob → List (List ScrapedJob) → Type 0
IsComplete picked queues = All (λ q. (i : ℕ) → is_covered (get_elem? q i) picked ≡ true) queues

IsComplete-at :
    (n : ℕ) (a b : List ScrapedJob) (queues : List (List ScrapedJob))
    → ((x : ScrapedJob) → is_picked x a ≡ true → is_picked x b ≡ true)
    → IsDone n a queues
    → All (λ q. length q ≤ n) queues
    → IsComplete b queues
IsComplete-at n a b [] up h short = tt
IsComplete-at n a b (q ∷ queues) up (h, k) (end, ends) = (
  (λ i. elim (Bool-cases (ltb i n)) [
    | inl e ↦ covered-grows (get_elem? q i) a b up (h i (ground arith))
    | inr e ↦ rw (past_end q i (ground arith)) refl
  ]),
  IsComplete-at n a b queues up k ends,
)

IsDone-next :
    (n : ℕ) (a b : List ScrapedJob) (queues : List (List ScrapedJob))
    → ((x : ScrapedJob) → is_picked x a ≡ true → is_picked x b ≡ true)
    → IsDone n a queues
    → All (λ q. is_covered (get_elem? q n) b ≡ true) queues
    → IsDone (suc n) b queues
IsDone-next n a b [] up h new = tt
IsDone-next n a b (q ∷ queues) up (h, k) (this, others) = (
  (λ i below. elim (Bool-cases (ltb i n)) [
    | inl e ↦ covered-grows (get_elem? q i) a b up (h i (ground arith))
    | inr e ↦
        let at : n ≡ i = ground arith in subst (λ j. is_covered (get_elem? q j) b ≡ true) at this
  ]),
  IsDone-next n a b queues up k others,
)

ended :
    (n : ℕ) (queues : List (List ScrapedJob))
    → All (λ q. get_elem? q n ≡ none) queues
    → All (λ q. length q ≤ n) queues
ended n [] h = tt
ended n (q ∷ queues) (h, k) = (end_of q n h, ended n queues k)

rounds_met :
    (fuel target round : ℕ) (queues : List (List ScrapedJob)) (picked : List ScrapedJob)
    → length picked ≡ target
    → rounds fuel target round queues picked ≡ picked
unfolding rounds
rounds_met zero target round queues picked h = refl
rounds_met (suc fuel) target round queues picked h =
    let met : ltb (length picked) target ≡ false = ground arith in rw met refl

shift_bounds :
    (fuel round : ℕ) (queues : List (List ScrapedJob))
    → All (λ q. length q ≤ suc fuel + round) queues
    → All (λ q. length q ≤ fuel + suc round) queues
shift_bounds fuel round [] h = tt
shift_bounds fuel round (q ∷ queues) (h, k) = (omega arith, shift_bounds fuel round queues k)

-- What the rounds end with.
abbrev pub IsSelection : ℕ → List (List ScrapedJob) → List ScrapedJob → Type 0
IsSelection target queues picked =
    IsBalanced target picked × ((length picked ≡ target) ⊎ IsComplete picked queues)

rounds-IsSelection :
    (fuel target round : ℕ) (queues : List (List ScrapedJob)) (picked : List ScrapedJob)
    → IsBalanced target picked
    → IsDone round picked queues
    → All (λ q. length q ≤ fuel + round) queues
    → IsSelection target queues (rounds fuel target round queues picked)
unfolding rounds
rounds-IsSelection zero target round queues picked balanced far short = (
  balanced,
  inr (IsComplete-at round picked picked queues (λ x h. h) far (zero_left queues short)),
)
  where
    zero_left :
        (queues : List (List ScrapedJob))
        → All (λ q. length q ≤ 0 + round) queues
        → All (λ q. length q ≤ round) queues
    zero_left [] h = tt
    zero_left (q ∷ queues) (h, k) = (omega arith, zero_left queues k)
rounds-IsSelection (suc fuel) target round queues picked balanced far short =
    elim (Bool-cases (ltb (length picked) target)) [
      | inr met ↦
          let few = balanced.0 in
          let exact : length picked ≡ target = ground arith in rw met (balanced, inl exact)
      | inl room ↦
          let v = pick_round target round queues picked false in
          let grows = λ (x : ScrapedJob) (h : is_picked x picked ≡ true).
            pick_round-grows target round queues picked false x h in
          let kept =
            pick_round-IsBalanced target round queues picked false (ground arith) balanced in
          elim (Bool-cases v.placed) [
            | inr over ↦
                rw (room, over)
                  (
                    kept,
                    inr (
                        IsComplete-at round picked v.picked queues grows far (
                          ended round queues
                            (pick_round-not_placed target round queues picked false over).1)),
                  )
            | inl more ↦ elim (Bool-cases v.full) [
              | inl full ↦
                  let exact = pick_round-full target round queues picked false full in
                  rw (room, more, rounds_met fuel target (suc round) queues v.picked exact)
                    (kept, inl exact)
              | inr unmet ↦
                  rw (room, more)
                    (rounds-IsSelection fuel target (suc round) queues v.picked kept
                      (IsDone-next round picked v.picked queues grows far
                        (pick_round-covers target round queues picked false unmet))
                      (shift_bounds fuel round queues short))
            ]
          ]
    ]

none-IsDone : (queues : List (List ScrapedJob)) → IsDone 0 [] queues
none-IsDone [] = tt
none-IsDone (q ∷ queues) = ((λ i below. absurd (omega arith)), none-IsDone queues)

within_total :
    (over : ℕ) (queues : List (List ScrapedJob))
    → All (λ q. length q ≤ total_length queues + over) queues
within_total over [] = tt
within_total over (q ∷ queues) =
    (omega arith, weaken queues (within_total (length q + over) queues))
  where
    weaken :
        (qs : List (List ScrapedJob))
        → All (λ x. length x ≤ total_length queues + (length q + over)) qs
        → All (λ x. length x ≤ length q + total_length queues + over) qs
    weaken [] h = tt
    weaken (x ∷ qs) (h, k) = (omega arith, weaken qs k)

-- The selection has `target` postings at most, and no two with one fingerprint. When it has fewer,
-- nothing was left out: every posting that the portals' caps leave is in it, or another of its
-- fingerprint is.
pub balanced_selection-IsSelection :
    (target per_portal_cap : ℕ) (results : List (List ScrapedJob))
    → IsSelection target
        (queues_of per_portal_cap results)
        (balanced_selection target per_portal_cap results)
unfolding balanced_selection
balanced_selection-IsSelection target per_portal_cap results =
    let queues = queues_of per_portal_cap results in
    rounds-IsSelection (total_length queues + 1) target 0 queues [] (omega arith, λ fp. omega arith)
      (none-IsDone queues) (plus queues (within_total 1 queues))
  where
    plus :
        (qs : List (List ScrapedJob))
        → All (λ q. length q ≤ total_length (queues_of per_portal_cap results) + 1) qs
        → All (λ q. length q ≤ total_length (queues_of per_portal_cap results) + 1 + 0) qs
    plus [] h = tt
    plus (q ∷ qs) (h, k) = (omega arith, plus qs k)
