-- ===== src/Locks/Waiting.antt =====
-- How the wait of src/lib/locks.ts ends.
use Prim.Native.String.{String}
use job_hunters_api.Common.{
  ℕ, zero, suc, ◌+◌, ◌≤◌, ◌<◌, ◌≡◌, ◌≢◌, refl, Bool-cases, none, some, Option-cases, inl, inr,
  subst, ◌∙◌, arith, leb,
}
use text.Mathlib.TextEquality.{eq_iff}
use job_hunters_api.Redis.{Redis, IsRedis}
use job_hunters_api.Locks.{
  Wait, locked, busy, out_of_fuel, lock_key, after_try, wait_from, wait_for_lock,
}

module _ (redis : Redis) (laws : IsRedis redis) where
  module _ (key token : String) (deadline : ℕ) (clock : ℕ → ℕ) (seen : ℕ → redis.Store) where
    -- Won: free at the n-th try, and the caller's from then on. Given up: held at every try up to
    -- the n-th, which came at the deadline or after it.
    abbrev pub IsFair : ℕ → Wait redis → Type 0
    IsFair from (locked n t) = (redis.get key (seen n) ≡ none) × (redis.get key t ≡ some token)
    IsFair from (busy n) =
        (deadline ≤ clock n) × ((m : ℕ) → from ≤ m → m ≤ n → redis.get key (seen m) ≢ none)
    IsFair from out_of_fuel = ⊥

    IsFair-earlier :
        (n : ℕ) (end : Wait redis)
        → redis.get key (seen n) ≢ none
        → IsFair (suc n) end
        → IsFair n end
    IsFair-earlier n (locked k t) held h = h
    IsFair-earlier n (busy k) held h = (
      h.0,
      λ m from to. elim (Bool-cases (leb (suc n) m)) [
        | inl after ↦ h.1 m (ground arith) to
        | inr here ↦
            let same : n ≡ m = ground arith in subst (λ x. redis.get key (seen x) ≢ none) same held
      ],
    )
    IsFair-earlier n out_of_fuel held h = h

    lost-IsHeld : (n : ℕ) → redis.set_nx key token (seen n) ≡ none → redis.get key (seen n) ≢ none
    lost-IsHeld n lost = laws.refused key token (seen n) lost

    last-IsHeld :
        (n : ℕ)
        → redis.get key (seen n) ≢ none
        → (m : ℕ) → n ≤ m
        → m ≤ n
        → redis.get key (seen m) ≢ none
    last-IsHeld n held m from to =
        let same : n ≡ m = omega arith in subst (λ x. redis.get key (seen x) ≢ none) same held

    won-IsFair :
        (n : ℕ) (t : redis.Store)
        → redis.set_nx key token (seen n) ≡ some t
        → (redis.get key (seen n) ≡ none) × (redis.get key t ≡ some token)
    won-IsFair n t won = (
      laws.was_free key token (seen n) t won,
      laws.written key token (seen n) t key won ∙ rw ((eq_iff key key).1 refl),
    )

    -- One try: it wins, it is too late, or the rest follows.
    try-IsFair :
        (n : ℕ) (rest : Wait redis)
        → (redis.get key (seen n) ≢ none → clock n < deadline → IsFair n rest)
        → IsFair n
            (after_try redis key token deadline clock seen (redis.set_nx key token (seen n)) n rest)
    try-IsFair n rest follows = elim (Option-cases (redis.set_nx key token (seen n))) [
      | inr (t, won) ↦ rw won (won-IsFair n t won)
      | inl lost ↦ elim (Bool-cases (leb deadline (clock n))) [
        | inl late ↦ rw (lost, late) (ground arith, last-IsHeld n (lost-IsHeld n lost))
        | inr early ↦ rw (lost, early) (follows (lost-IsHeld n lost) (ground arith))
      ]
    ]

    wait_from-IsFair :
        ((n : ℕ) → clock 0 + n ≤ clock n)
        → (fuel n : ℕ) → deadline ≤ clock 0 + (fuel + n)
        → IsFair n (wait_from redis key token deadline clock seen (suc fuel) n)
    unfolding wait_from
    wait_from-IsFair passes zero n enough =
        try-IsFair n _ (λ held early. absurd (omega (arith, passes n)))
    wait_from-IsFair passes (suc fuel) n enough =
        try-IsFair n _ (λ held early.
          IsFair-earlier n _ held (wait_from-IsFair passes fuel (suc n) (omega arith)))

  -- Where every sleep takes a millisecond at least, the wait ends, whatever the other clients do:
  -- with the lock, which was free at that try and is the caller's after it, or with an error at the
  -- deadline or later, after every try found the lock held.
  pub wait_for_lock-IsFair :
      (user_id resource token : String) (wait_ms : ℕ) (clock : ℕ → ℕ) (seen : ℕ → redis.Store)
      → ((n : ℕ) → clock 0 + n ≤ clock n)
      → IsFair
          (lock_key user_id resource)
          token
          (clock 0 + wait_ms)
          clock
          seen
          0
          (wait_for_lock redis user_id resource token wait_ms clock seen)
  unfolding wait_for_lock
  wait_for_lock-IsFair user_id resource token wait_ms clock seen passes =
      wait_from-IsFair (lock_key user_id resource) token (clock 0 + wait_ms) clock seen passes
        wait_ms 0 (omega arith)
