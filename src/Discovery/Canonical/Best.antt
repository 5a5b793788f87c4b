-- ===== src/Discovery/Canonical/Best.antt =====
-- Of the copies of a posting, src/hunt/discovery/canonicalise.ts keeps the best one, with the tags of
-- all.
use Prim.Native.String.{String}
use text.Mathlib.Text.{◌==◌ as str_eq}
use text.Mathlib.TextEquality.{eq_iff}
use job_hunters_api.Common.{
  ◌≡◌, ◌≤◌, refl, sym, ap, ◌∙◌, ◌⊎◌, Bool-cases, inl, inr, true, not, ◌||◌, Option, none, some,
  Option-cases, List, [], ◌∷◌, ◌++◌, any-append, count, ltb, max, arith, All, if◌then◌else◌,
}
use job_hunters_api.Common.Dict.{get, put, get-put}
use job_hunters_api.Discovery.{ScrapedJob}
use job_hunters_api.Discovery.Canonical.{
  Names, has_tag, dedup_tags, canonical_key, score, merge, better_of, kept_copy, collect,
}

has_tag-dedup_tags :
    (t : String) (out tags : List String)
    → has_tag t (dedup_tags out tags) ≡ (has_tag t out || has_tag t tags)
unfolding dedup_tags
has_tag-dedup_tags t out [] = ground arith
has_tag-dedup_tags t out (tag ∷ tags) = elim (Bool-cases (has_tag tag out)) [
  | inl known ↦ rw known (ground (arith, has_tag-dedup_tags t out tags, eq_iff tag t))
  | inr new ↦ rw new (
      ground (
        arith,
        has_tag-dedup_tags t (out ++ tag ∷ []) tags,
        any-append (λ x. str_eq x t) out (tag ∷ []),
      ))
]

-- At least as good, and with the tags of the other.
abbrev HasTags : ScrapedJob → ScrapedJob → Type 0
HasTags v j = (t : String) → (not (has_tag t j.tags) || has_tag t v.tags) ≡ true

module _ (n : Names) where
  pub record Covers (v j : ScrapedJob) : Type 0 where
    pub better : score n j ≤ score n v
    pub tagged : HasTags v j

  merge-Covers :
      (a b j : ScrapedJob)
      → score n b ≤ score n a
      → Covers a j ⊎ Covers b j
      → Covers (merge n a b) j
  unfolding score
  merge-Covers a b j le (inl c) = record {
    better = c.better;
    tagged = λ t. ground (
      arith,
      c.tagged t,
      has_tag-dedup_tags t [] (a.tags ++ b.tags),
      any-append (λ x. str_eq x t) a.tags b.tags,
    );
  }
  merge-Covers a b j le (inr c) = record {
    better = omega (arith, c.better, le);
    tagged = λ t. ground (
      arith,
      c.tagged t,
      has_tag-dedup_tags t [] (a.tags ++ b.tags),
      any-append (λ x. str_eq x t) a.tags b.tags,
    );
  }

  Covers-self : (j : ScrapedJob) → Covers j j
  Covers-self j = record { better = omega arith; tagged = λ t. ground arith }

  better_of-Covers :
      (job existing j : ScrapedJob)
      → Covers job j ⊎ Covers existing j
      → Covers (better_of n job existing) j
  better_of-Covers job existing j c = elim (Bool-cases (ltb (score n existing) (score n job))) [
    | inl more ↦ rw more (merge-Covers job existing j (ground arith) c)
    | inr less ↦ rw less (merge-Covers existing job j (ground arith) (swap c))
  ]
    where
      swap : Covers job j ⊎ Covers existing j → Covers existing j ⊎ Covers job j
      swap (inl c) = inr c
      swap (inr c) = inl c

  better_of-key :
      (job existing : ScrapedJob)
      → canonical_key n existing ≡ canonical_key n job
      → canonical_key n (better_of n job existing) ≡ canonical_key n job
  unfolding canonical_key
  better_of-key job existing e = elim (Bool-cases (ltb (score n existing) (score n job))) [
    | inl more ↦ rw more refl
    | inr less ↦ rw less e
  ]

  -- The entries are keyed by their postings, each key once.
  pub record IsKeyed (best : List (String × ScrapedJob)) : Type 0 where
    pub own : All (λ e. canonical_key n e.1 ≡ e.0) best
    pub once : (k : String) → count (λ e. str_eq e.0 k) best ≤ 1

  abbrev pub Held : List (String × ScrapedJob) → ScrapedJob → Type 0
  Held best j = (v : ScrapedJob) × (get (canonical_key n j) best ≡ some v) × Covers v j

  put-own :
      (k : String) (v : ScrapedJob) (best : List (String × ScrapedJob))
      → canonical_key n v ≡ k
      → All (λ e. canonical_key n e.1 ≡ e.0) best
      → All (λ e. canonical_key n e.1 ≡ e.0) (put k v best)
  unfolding put
  put-own k v [] e h = (e, tt)
  put-own k v ((i, w) ∷ best) e (own, h) = elim (Bool-cases (str_eq i k)) [
    | inl same ↦ rw same (e ∙ sym ((eq_iff i k).0 same), h)
    | inr other ↦ rw other (own, put-own k v best e h)
  ]

  count-put :
      (k i : String) (v : ScrapedJob) (best : List (String × ScrapedJob))
      → count (λ e. str_eq e.0 i) (put k v best) ≡ (
          if str_eq k i
          then max 1 (count (λ e. str_eq e.0 i) best)
          else count (λ e. str_eq e.0 i) best)
  unfolding put
  count-put k i v [] = ground arith
  count-put k i v ((x, w) ∷ best) =
      ground (arith, eq_iff x k, eq_iff k i, eq_iff x i, count-put k i v best)

  put-IsKeyed :
      (k : String) (v : ScrapedJob) (best : List (String × ScrapedJob))
      → canonical_key n v ≡ k
      → IsKeyed best
      → IsKeyed (put k v best)
  put-IsKeyed k v best e h = record {
    own = put-own k v best e h.own;
    once = λ i. ground (arith, count-put k i v best, h.once i);
  }

  get-own :
      (k : String) (v : ScrapedJob) (best : List (String × ScrapedJob))
      → get k best ≡ some v
      → All (λ e. canonical_key n e.1 ≡ e.0) best
      → canonical_key n v ≡ k
  unfolding get
  get-own k v [] e h = cc
  get-own k v ((i, w) ∷ best) e (own, h) = elim (Bool-cases (str_eq i k)) [
    | inl same ↦
        let here = rw same at e in
        let alike : w ≡ v = cc in rw (← alike) (own ∙ (eq_iff i k).0 same)
    | inr other ↦ get-own k v best (rw other at e) h
  ]

  -- What a round puts under the key of its posting.
  abbrev round_of : ScrapedJob → List (String × ScrapedJob) → List (String × ScrapedJob)
  round_of job best =
      put (canonical_key n job) (kept_copy n job (get (canonical_key n job) best)) best

  kept_copy-key :
      (job : ScrapedJob) (best : List (String × ScrapedJob))
      → IsKeyed best
      → canonical_key n (kept_copy n job (get (canonical_key n job) best)) ≡ canonical_key n job
  kept_copy-key job best h = elim (Option-cases (get (canonical_key n job) best)) [
    | inl new ↦ rw new refl
    | inr (v, old) ↦ rw old (better_of-key job v (get-own (canonical_key n job) v best old h.own))
  ]

  round-IsKeyed :
      (job : ScrapedJob) (best : List (String × ScrapedJob))
      → IsKeyed best
      → IsKeyed (round_of job best)
  round-IsKeyed job best h =
      put-IsKeyed (canonical_key n job) (kept_copy n job (get (canonical_key n job) best)) best
        (kept_copy-key job best h) h

  round-Held_new :
      (job : ScrapedJob) (best : List (String × ScrapedJob)) → Held (round_of job best) job
  round-Held_new job best =
      let k = canonical_key n job in
      let v = kept_copy n job (get k best) in
      (v, get-put v k k best ∙ rw ((eq_iff k k).1 refl) refl, covered (get k best))
    where
      covered : (o : Option ScrapedJob) → Covers (kept_copy n job o) job
      covered none = Covers-self job
      covered (some existing) = better_of-Covers job existing job (inl (Covers-self job))

  round-Held :
      (job j : ScrapedJob) (best : List (String × ScrapedJob))
      → Held best j
      → Held (round_of job best) j
  round-Held job j best (v, there, c) =
      let k = canonical_key n job in
      let i = canonical_key n j in
      let w = kept_copy n job (get k best) in
      elim (Bool-cases (str_eq k i)) [
        | inl same ↦
            let held : get k best ≡ some v =
              ap (λ (x : String). get x best) ((eq_iff k i).0 same) ∙ there in
            (w, get-put w k i best ∙ rw same refl, rw held (better_of-Covers job v j (inr c)))
        | inr other ↦ (v, get-put w k i best ∙ rw other there, c)
      ]

  collect-Held :
      (jobs : List ScrapedJob) (best : List (String × ScrapedJob)) (j : ScrapedJob)
      → Held best j
      → Held (collect n jobs best) j
  unfolding collect
  collect-Held [] best j h = h
  collect-Held (job ∷ jobs) best j h =
      collect-Held jobs (round_of job best) j (round-Held job j best h)

  pub collect-IsKeyed :
      (jobs : List ScrapedJob) (best : List (String × ScrapedJob))
      → IsKeyed best
      → IsKeyed (collect n jobs best)
  unfolding collect
  collect-IsKeyed [] best h = h
  collect-IsKeyed (job ∷ jobs) best h =
      collect-IsKeyed jobs (round_of job best) (round-IsKeyed job best h)

  pub collect-Held_all :
      (jobs : List ScrapedJob) (best : List (String × ScrapedJob))
      → All (Held (collect n jobs best)) jobs
  unfolding collect
  collect-Held_all [] best = tt
  collect-Held_all (job ∷ jobs) best = (
    collect-Held jobs (round_of job best) job (round-Held_new job best),
    collect-Held_all jobs (round_of job best),
  )
