-- ===== src/Browser/Limit/Fairness.antt =====
-- How src/browser/limit.ts serves its waiters: in order, each slot once.
use job_hunters_api.Common.{
  ℕ, zero, suc, ◌<◌, ◌≡◌, ◌≢◌, refl, ap, subst, Bool, true, false, some, none, Option, List, [],
  ◌∷◌, ◌++◌, length, get_elem?, set, arith, All,
}
use job_hunters_api.Browser.Limit.{
  Semaphore, create_semaphore, make_slot, hand_over, release_if, release, Event, run,
}
use job_hunters_api.Browser.Limit.Invariant.{IsAscending, run-create_semaphore-Inv}

get_elem?-set :
    (bs : List Bool) (i : ℕ) → get_elem? bs i ≢ none → get_elem? (set bs i true) i ≡ some true
get_elem?-set [] i h = absurd (h refl)
get_elem?-set (b ∷ bs) zero h = refl
get_elem?-set (b ∷ bs) (suc i) h = get_elem?-set bs i h

get_elem?-append :
    (bs : List Bool) (i : ℕ) (b : Bool)
    → get_elem? bs i ≡ some true
    → get_elem? (bs ++ b ∷ []) i ≡ some true
get_elem?-append [] i b h = cc
get_elem?-append (c ∷ bs) zero b h = h
get_elem?-append (c ∷ bs) (suc i) b h = get_elem?-append bs i b h

hand_over-released :
    (q : List ℕ) (slot : ℕ) (s : Semaphore)
    → get_elem? s.slots slot ≡ some true
    → get_elem? (hand_over q s).slots slot ≡ some true
hand_over-released [] slot s h = h
hand_over-released (w ∷ ws) slot s h = get_elem?-append s.slots slot false h

release_of_released :
    (slot : ℕ) (s : Semaphore) → get_elem? s.slots slot ≢ some false → release slot s ≡ s
unfolding release
release_of_released slot s h = go (get_elem? s.slots slot) h
  where
    go : (flag : Option Bool) → flag ≢ some false → release_if flag slot s ≡ s
    go none h = refl
    go (some true) h = refl
    go (some false) h = absurd (h refl)

release-released :
    (flag : Option Bool) (slot : ℕ) (s : Semaphore)
    → get_elem? s.slots slot ≡ flag
    → get_elem? (release_if flag slot s).slots slot ≢ some false
release-released none slot s e h = cc
release-released (some true) slot s e h = cc
release-released (some false) slot s e h =
    let kept =
      hand_over-released s.queue slot (record s { slots = set s.slots slot true })
        (get_elem?-set s.slots slot (λ e'. cc)) in
    cc

-- Releasing the same slot a second time, at once, changes nothing: no slot is handed out twice.
release_twice : (slot : ℕ) (s : Semaphore) → release slot (release slot s) ≡ release slot s
unfolding release
release_twice slot s =
    release_of_released slot (release_if (get_elem? s.slots slot) slot s)
      (release-released (get_elem? s.slots slot) slot s refl)

length-set : (bs : List Bool) (i : ℕ) → length (set bs i true) ≡ length bs
length-set [] i = refl
length-set (b ∷ bs) zero = refl
length-set (b ∷ bs) (suc i) = ap suc (length-set bs i)

release_held :
    (slot w : ℕ) (ws : List ℕ) (s : Semaphore)
    → s.queue ≡ w ∷ ws
    → get_elem? s.slots slot ≡ some false
    → release slot s ≡ make_slot w (record s { queue = ws; slots = set s.slots slot true })
unfolding release
release_held slot w ws s q held = ground arith

-- Whatever happened before, releasing a held slot while calls wait resolves the call that has
-- waited longest, with a slot that no call had before, and the number of browsers stays the same.
pub release_longest_wait :
    (limit : ℕ) (es : List Event) (slot w : ℕ) (ws : List ℕ)
    → let s = run es (create_semaphore limit) in
      s.queue ≡ w ∷ ws
      → get_elem? s.slots slot ≡ some false
      → All (λ v. w < v) ws
        × ((release slot s).resolved ≡ s.resolved ++ (w, length s.slots) ∷ [])
        × ((release slot s).queue ≡ ws)
        × ((release slot s).active ≡ s.active)
release_longest_wait limit es slot w ws q held =
    let s = run es (create_semaphore limit) in
    let first = subst (λ l. IsAscending l s.calls) q (run-create_semaphore-Inv limit es).in_order in
    rw (release_held slot w ws s q held)
      (first.0, ap (λ n. s.resolved ++ (w, n) ∷ []) (length-set s.slots slot), refl, refl)
