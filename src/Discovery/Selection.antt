-- ===== src/Discovery/Selection.antt =====
-- What `balancedSelection` of src/hunt/discovery/service.ts keeps.
use job_hunters_api.Common.{
  ℕ, ◌≤◌, ◌<◌, ◌==◌, ◌≡◌, refl, sym, ap, ◌∙◌, Bool, true, false, Bool-cases, inl, inr, ◌||◌, Option,
  none, some, List, [], ◌∷◌, ◌++◌, count, length, get_elem?, ==_iff, subst, arith, All,
  length-append, count-append,
}
use job_hunters_api.Discovery.{ScrapedJob, is_picked, visit, pick_round}

-- At most `target` postings, no two with one fingerprint.
abbrev pub IsBalanced : ℕ → List ScrapedJob → Type 0
IsBalanced target picked =
    (length picked ≤ target) × ((fp : ℕ) → count (λ p. p.fingerprint == fp) picked ≤ 1)

is_picked-append :
    (job : ScrapedJob) (a b : List ScrapedJob)
    → is_picked job (a ++ b) ≡ (is_picked job a || is_picked job b)
is_picked-append job [] b = refl
is_picked-append job (x ∷ a) b = let rest = is_picked-append job a b in ground arith

count_zero :
    (job : ScrapedJob) (picked : List ScrapedJob)
    → is_picked job picked ≡ false
    → count (λ p. p.fingerprint == job.fingerprint) picked ≡ 0
count_zero job [] h = refl
count_zero job (p ∷ picked) h = elim (Bool-cases (p.fingerprint == job.fingerprint)) [
  | inl e ↦ absurd (ground arith)
  | inr e ↦ rw e (count_zero job picked (rw e at h))
]

-- A turn keeps the balance below the target, and leaves room unless it says that the target is met.
visit-IsBalanced :
    (target : ℕ) (found : Option ScrapedJob) (picked : List ScrapedJob) (placed : Bool)
    → length picked < target
    → IsBalanced target picked
    → IsBalanced target (visit target found picked placed).picked
visit-IsBalanced target none picked placed room h = h
visit-IsBalanced target (some job) picked placed room (few, once) =
    elim (Bool-cases (is_picked job picked)) [
      | inl e ↦ rw e (few, once)
      | inr e ↦
          rw e (rw (length-append picked (job ∷ [])) (omega arith), λ fp. one_more e fp (once fp))
    ]
  where
    one_more :
        is_picked job picked ≡ false
        → (fp : ℕ) → count (λ p. p.fingerprint == fp) picked ≤ 1
        → count (λ p. p.fingerprint == fp) (picked ++ job ∷ []) ≤ 1
    one_more new fp h =
        let sum = count-append (λ p. p.fingerprint == fp) picked (job ∷ []) in
        elim (Bool-cases (job.fingerprint == fp)) [
          | inr other ↦ rw sum (rw other (omega arith))
          | inl same ↦
              let is : job.fingerprint ≡ fp = (==_iff job.fingerprint fp).0 same in
              let none_yet : count (λ p. p.fingerprint == fp) picked ≡ 0 =
                subst (λ n. count (λ p. p.fingerprint == n) picked ≡ 0) is
                  (count_zero job picked new) in
              rw sum (rw (same, none_yet) (omega arith))
        ]

-- A turn that does not end the round leaves room.
visit-room :
    (target : ℕ) (found : Option ScrapedJob) (picked : List ScrapedJob) (placed : Bool)
    → length picked < target
    → (visit target found picked placed).full ≡ false
    → length (visit target found picked placed).picked < target
visit-room target none picked placed room h = room
visit-room target (some job) picked placed room h = elim (Bool-cases (is_picked job picked)) [
  | inl e ↦ rw e room
  | inr e ↦
      let size = length-append picked (job ∷ []) in
      let unmet : (length (picked ++ job ∷ []) == target) ≡ false = rw e at h in rw e (ground arith)
]

visit-grows :
    (target : ℕ) (found : Option ScrapedJob) (picked : List ScrapedJob) (placed : Bool)
    (x : ScrapedJob)
    → is_picked x picked ≡ true
    → is_picked x (visit target found picked placed).picked ≡ true
visit-grows target none picked placed x h = h
visit-grows target (some job) picked placed x h = elim (Bool-cases (is_picked job picked)) [
  | inl e ↦ rw e h
  | inr e ↦ rw (e, is_picked-append x picked (job ∷ []), h) refl
]

abbrev pub is_covered : Option ScrapedJob → List ScrapedJob → Bool
is_covered none picked = true
is_covered (some job) picked = is_picked job picked

visit-covers :
    (target : ℕ) (found : Option ScrapedJob) (picked : List ScrapedJob) (placed : Bool)
    → is_covered found (visit target found picked placed).picked ≡ true
visit-covers target none picked placed = refl
visit-covers target (some job) picked placed = elim (Bool-cases (is_picked job picked)) [
  | inl e ↦ rw e e
  | inr e ↦ rw (e, is_picked-append job picked (job ∷ [])) (ground arith)
]

pub pick_round-IsBalanced :
    (target round : ℕ) (queues : List (List ScrapedJob)) (picked : List ScrapedJob) (placed : Bool)
    → length picked < target
    → IsBalanced target picked
    → IsBalanced target (pick_round target round queues picked placed).picked
unfolding pick_round
pick_round-IsBalanced target round [] picked placed room h = h
pick_round-IsBalanced target round (q ∷ queues) picked placed room h =
    let v = visit target (get_elem? q round) picked placed in
    let kept = visit-IsBalanced target (get_elem? q round) picked placed room h in
    elim (Bool-cases v.full) [
      | inl e ↦ rw e kept
      | inr e ↦ rw e (
          pick_round-IsBalanced target round queues v.picked v.placed
            (visit-room target (get_elem? q round) picked placed room e) kept)
    ]

pub pick_round-grows :
    (target round : ℕ) (queues : List (List ScrapedJob)) (picked : List ScrapedJob) (placed : Bool)
    (x : ScrapedJob)
    → is_picked x picked ≡ true
    → is_picked x (pick_round target round queues picked placed).picked ≡ true
unfolding pick_round
pick_round-grows target round [] picked placed x h = h
pick_round-grows target round (q ∷ queues) picked placed x h =
    let v = visit target (get_elem? q round) picked placed in
    let kept = visit-grows target (get_elem? q round) picked placed x h in
    elim (Bool-cases v.full) [
      | inl e ↦ rw e kept
      | inr e ↦ rw e (pick_round-grows target round queues v.picked v.placed x kept)
    ]

pub covered-grows :
    (found : Option ScrapedJob) (a b : List ScrapedJob)
    → ((x : ScrapedJob) → is_picked x a ≡ true → is_picked x b ≡ true)
    → is_covered found a ≡ true
    → is_covered found b ≡ true
covered-grows none a b up h = refl
covered-grows (some job) a b up h = up job h

pub pick_round-covers :
    (target round : ℕ) (queues : List (List ScrapedJob)) (picked : List ScrapedJob) (placed : Bool)
    → (pick_round target round queues picked placed).full ≡ false
    → All
        (λ q.
          is_covered (get_elem? q round) (pick_round target round queues picked placed).picked
          ≡ true)
        queues
unfolding pick_round
pick_round-covers target round [] picked placed unmet = tt
pick_round-covers target round (q ∷ queues) picked placed unmet =
    let v = visit target (get_elem? q round) picked placed in
    elim (Bool-cases v.full) [
      | inl e ↦ absurd (let k : v.full ≡ false = rw e at unmet in ground arith)
      | inr e ↦
          let rest = pick_round target round queues v.picked v.placed in
          let same : pick_round target round (q ∷ queues) picked placed ≡ rest = rw e refl in
          subst (λ r. All (λ x. is_covered (get_elem? x round) r.picked ≡ true) (q ∷ queues))
            (sym same)
            (
              covered-grows (get_elem? q round) v.picked rest.picked
                  (λ x. pick_round-grows target round queues v.picked v.placed x)
                  (visit-covers target (get_elem? q round) picked placed),
              pick_round-covers target round queues v.picked v.placed
                  (ap (λ r. r.full) (sym same) ∙ unmet),
            )
    ]

visit-full :
    (target : ℕ) (found : Option ScrapedJob) (picked : List ScrapedJob) (placed : Bool)
    → (visit target found picked placed).full ≡ true
    → (length (visit target found picked placed).picked ≡ target)
      × ((visit target found picked placed).placed ≡ true)
visit-full target none picked placed h = absurd (ground arith)
visit-full target (some job) picked placed h = elim (Bool-cases (is_picked job picked)) [
  | inl e ↦ absurd (let k : false ≡ true = rw e at h in ground arith)
  | inr e ↦
      let met : (length (picked ++ job ∷ []) == target) ≡ true = rw e at h in
      rw e ((==_iff _ target).0 met, refl)
]

pub pick_round-full :
    (target round : ℕ) (queues : List (List ScrapedJob)) (picked : List ScrapedJob) (placed : Bool)
    → (pick_round target round queues picked placed).full ≡ true
    → length (pick_round target round queues picked placed).picked ≡ target
unfolding pick_round
pick_round-full target round [] picked placed h = absurd (ground arith)
pick_round-full target round (q ∷ queues) picked placed h =
    let v = visit target (get_elem? q round) picked placed in
    elim (Bool-cases v.full) [
      | inl e ↦ rw e (visit-full target (get_elem? q round) picked placed e).0
      | inr e ↦ rw e (pick_round-full target round queues v.picked v.placed (rw e at h))
    ]

-- A round that places nothing finds every queue at its end.
visit-not_placed :
    (target : ℕ) (found : Option ScrapedJob) (picked : List ScrapedJob) (placed : Bool)
    → (visit target found picked placed).placed ≡ false
    → (found ≡ none) × (placed ≡ false)
visit-not_placed target none picked placed h = (refl, h)
visit-not_placed target (some job) picked placed h = elim (Bool-cases (is_picked job picked)) [
  | inl e ↦ absurd (let k : true ≡ false = rw e at h in ground arith)
  | inr e ↦ absurd (let k : true ≡ false = rw e at h in ground arith)
]

pub pick_round-not_placed :
    (target round : ℕ) (queues : List (List ScrapedJob)) (picked : List ScrapedJob) (placed : Bool)
    → (pick_round target round queues picked placed).placed ≡ false
    → (placed ≡ false) × All (λ q. get_elem? q round ≡ none) queues
unfolding pick_round
pick_round-not_placed target round [] picked placed h = (h, tt)
pick_round-not_placed target round (q ∷ queues) picked placed h =
    let v = visit target (get_elem? q round) picked placed in
    elim (Bool-cases v.full) [
      | inl e ↦
          let k : v.placed ≡ false = rw e at h in
          absurd
            (let full = (visit-full target (get_elem? q round) picked placed e).1 in ground arith)
      | inr e ↦
          let (before, ends) =
            pick_round-not_placed target round queues v.picked v.placed (rw e at h) in
          let (here, start) = visit-not_placed target (get_elem? q round) picked placed before in
          (start, (here, ends))
    ]
