-- ===== src/Browser/Limit/Invariant.antt =====
-- What holds of the semaphore of src/browser/limit.ts after any sequence of events.
use job_hunters_api.Common.{
  ℕ, zero, suc, ◌+◌, ◌≤◌, ◌<◌, ◌≡◌, refl, ◌==◌, ◌≢◌, Bool, true, false, not, some, none, Option, ap,
  subst, All, All-append, All-filter, ==_iff, inl, inr, Bool-cases, ltb, List, [], ◌∷◌, ◌++◌,
  length, get_elem?, set, count, count-append, one_if, filter, any, arith,
}
use job_hunters_api.Browser.Limit.{
  Semaphore, create_semaphore, acquire, hand_over, release_if, release, timeout, Event, acquired,
  released, timed_out, step, run,
}

-- The slots that are handed out and not yet released.
abbrev open_slots : List Bool → ℕ
open_slots = count not

-- Calls wait in the order in which they were made, and all of them were made before `bound`.
abbrev pub IsAscending : List ℕ → ℕ → Type 0
IsAscending [] bound = Unit
IsAscending (w ∷ ws) bound = All (λ v. w < v) ws × (w < bound) × IsAscending ws bound

abbrev pub is_for : ℕ → ℕ × ℕ → Bool
is_for call answer = answer.0 == call

-- How often a call was resolved or rejected or still waits.
abbrev pub answers : Semaphore → ℕ → ℕ
answers s call =
    count (is_for call) s.resolved
    + count (λ c. c == call) s.rejected
    + count (λ c. c == call) s.queue

pub record Inv (s : Semaphore) : Type 0 where
  pub capped : s.active ≤ s.limit
  pub held : open_slots s.slots ≡ s.active
  pub no_idle_wait : s.queue ≢ [] → s.active ≡ s.limit
  pub settled : (call : ℕ) → answers s call ≡ one_if (ltb call s.calls)
  pub in_order : IsAscending s.queue s.calls

open_slots-set :
    (bs : List Bool) (i : ℕ)
    → get_elem? bs i ≡ some false
    → suc (open_slots (set bs i true)) ≡ open_slots bs
open_slots-set [] i h = ground arith
open_slots-set (true ∷ bs) zero h = ground arith
open_slots-set (false ∷ bs) zero h = refl
open_slots-set (true ∷ bs) (suc i) h = open_slots-set bs i h
open_slots-set (false ∷ bs) (suc i) h = omega (arith, open_slots-set bs i h)

IsAscending-bound : (ws : List ℕ) (n : ℕ) → IsAscending ws n → All (λ w. w < n) ws
IsAscending-bound [] n h = tt
IsAscending-bound (w ∷ ws) n (_, h, k) = (h, IsAscending-bound ws n k)

IsAscending-weaken : (ws : List ℕ) (n : ℕ) → IsAscending ws n → IsAscending ws (n + 1)
IsAscending-weaken [] n h = tt
IsAscending-weaken (w ∷ ws) n (a, h, k) = (a, omega arith, IsAscending-weaken ws n k)

IsAscending-append : (ws : List ℕ) (n : ℕ) → IsAscending ws n → IsAscending (ws ++ n ∷ []) (n + 1)
IsAscending-append [] n h = (tt, omega arith, tt)
IsAscending-append (w ∷ ws) n (a, h, k) =
    (All-append (λ v. w < v) ws (n ∷ []) a (h, tt), omega arith, IsAscending-append ws n k)

create_semaphore-Inv : (limit : ℕ) → Inv (create_semaphore limit)
unfolding create_semaphore
create_semaphore-Inv limit = record {
  capped = omega arith;
  held = refl;
  no_idle_wait = λ h. absurd (h refl);
  settled = λ call. ground arith;
  in_order = tt;
}

acquire-Inv : (s : Semaphore) → Inv s → Inv (acquire s)
unfolding acquire
acquire-Inv s v = elim (Bool-cases (ltb s.active s.limit)) [
  | inl free ↦ rw free (record {
    capped = ground arith;
    held = ground (arith, count-append not s.slots (false ∷ []), v.held);
    no_idle_wait = λ h. absurd (ground (arith, v.no_idle_wait h));
    settled = λ call. ground (
      arith,
      count-append (is_for call) s.resolved ((s.calls, length s.slots) ∷ []),
      v.settled call,
    );
    in_order = IsAscending-weaken s.queue s.calls v.in_order;
  })
  | inr full ↦ rw full (record {
    capped = v.capped;
    held = v.held;
    no_idle_wait = λ h. ground (arith, v.capped);
    settled = λ call.
        ground (arith, count-append (λ c. c == call) s.queue (s.calls ∷ []), v.settled call);
    in_order = IsAscending-append s.queue s.calls v.in_order;
  })
]

hand_over-Inv :
    (q : List ℕ) (slot : ℕ) (s : Semaphore)
    → s.queue ≡ q
    → get_elem? s.slots slot ≡ some false
    → Inv s
    → Inv (hand_over q (record s { slots = set s.slots slot true }))
hand_over-Inv [] slot s e held v = record {
  capped = omega (arith, v.capped);
  held = omega (arith, open_slots-set s.slots slot held, v.held);
  no_idle_wait = λ h. absurd (h e);
  settled = v.settled;
  in_order = v.in_order;
}
hand_over-Inv (w ∷ ws) slot s e held v = record {
  capped = v.capped;
  held = ground (
    arith,
    open_slots-set s.slots slot held,
    v.held,
    count-append not (set s.slots slot true) (false ∷ []),
  );
  no_idle_wait = λ h. v.no_idle_wait (λ empty. ground arith);
  settled = λ call. ground (
    arith,
    count-append (is_for call) s.resolved ((w, length (set s.slots slot true)) ∷ []),
    v.settled call,
    ap (count (λ c. c == call)) e,
  );
  in_order = (subst (λ q. IsAscending q s.calls) e v.in_order).2;
}

release_if-Inv :
    (flag : Option Bool) (slot : ℕ) (s : Semaphore)
    → get_elem? s.slots slot ≡ flag
    → Inv s
    → Inv (release_if flag slot s)
release_if-Inv (some false) slot s e v = hand_over-Inv s.queue slot s refl e v
release_if-Inv (some true) slot s e v = v
release_if-Inv none slot s e v = v

release-Inv : (slot : ℕ) (s : Semaphore) → Inv s → Inv (release slot s)
unfolding release
release-Inv slot s v = release_if-Inv (get_elem? s.slots slot) slot s refl v

abbrev pub without : ℕ → List ℕ → List ℕ
without call ws = filter (λ w. not (w == call)) ws

IsAscending-without :
    (call : ℕ) (ws : List ℕ) (n : ℕ) → IsAscending ws n → IsAscending (without call ws) n
IsAscending-without call [] n h = tt
IsAscending-without call (w ∷ ws) n (a, h, k) = elim (Bool-cases (w == call)) [
  | inl same ↦ rw same (IsAscending-without call ws n k)
  | inr other ↦
      rw other
        (All-filter (λ v. w < v) (λ v. not (v == call)) ws a, h, IsAscending-without call ws n k)
]

without-eq : (call : ℕ) (ws : List ℕ) → All (λ v. call < v) ws → without call ws ≡ ws
without-eq call [] h = refl
without-eq call (w ∷ ws) (h, k) = ground (arith, without-eq call ws k)

count-without :
    (call other : ℕ) (ws : List ℕ) (n : ℕ)
    → IsAscending ws n
    → any (λ w. w == call) ws ≡ true
    → count (λ w. w == other) ws
      ≡ one_if (call == other) + count (λ w. w == other) (without call ws)
count-without call other [] n h e = cc
count-without call other (w ∷ ws) n (a, h, k) e = elim (Bool-cases (w == call)) [
  | inl same ↦
      let eq : w ≡ call = (==_iff w call).0 same in
      let rest = without-eq call ws (subst (λ c. All (λ v. c < v) ws) eq a) in
      rw (same, rest) (ground arith)
  | inr differs ↦ rw differs (ground (arith, count-without call other ws n k (rw differs at e)))
]

without-nonempty : (call : ℕ) (ws : List ℕ) → without call ws ≢ [] → ws ≢ []
without-nonempty call [] h e = h refl
without-nonempty call (w ∷ ws) h e = cc

timeout-Inv : (call : ℕ) (s : Semaphore) → Inv s → Inv (timeout call s)
unfolding timeout
timeout-Inv call s v = elim (Bool-cases (any (λ w. w == call) s.queue)) [
  | inl waits ↦ rw waits (record {
    capped = v.capped;
    held = v.held;
    no_idle_wait = λ h. v.no_idle_wait (without-nonempty call s.queue h);
    settled = λ other. ground (
      arith,
      v.settled other,
      count-append (λ c. c == other) s.rejected (call ∷ []),
      count-without call other s.queue s.calls v.in_order waits,
    );
    in_order = IsAscending-without call s.queue s.calls v.in_order;
  })
  | inr gone ↦ rw gone v
]

step-Inv : (e : Event) (s : Semaphore) → Inv s → Inv (step e s)
step-Inv acquired s v = acquire-Inv s v
step-Inv (released slot) s v = release-Inv slot s v
step-Inv (timed_out call) s v = timeout-Inv call s v

run-Inv : (es : List Event) (s : Semaphore) → Inv s → Inv (run es s)
unfolding run
run-Inv [] s v = v
run-Inv (e ∷ es) s v = run-Inv es (step e s) (step-Inv e s v)

-- After any sequence of acquisitions, releases (repeated ones included) and timeouts: at most
-- `limit` browsers are counted, the count is the number of slots handed out and not yet released,
-- nobody waits while a browser is free, every call has been resolved once, or rejected once, or still
-- waits once, and no other call is there, and the queue is in the order of the calls.
pub run-create_semaphore-Inv : (limit : ℕ) (es : List Event) → Inv (run es (create_semaphore limit))
run-create_semaphore-Inv limit es = run-Inv es (create_semaphore limit) (create_semaphore-Inv limit)
