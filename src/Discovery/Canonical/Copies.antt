-- ===== src/Discovery/Canonical/Copies.antt =====
-- Every posting that src/hunt/discovery/canonicalise.ts is given has its one copy among those kept.
use Prim.Native.String.{String}
use text.Mathlib.Text.{◌==◌ as str_eq}
use job_hunters_api.Common.{
  ℕ, ◌+◌, suc, ap, get_elem?, ◌≡◌, ◌≤◌, refl, ◌∙◌, Bool, Bool-cases, inl, inr, some, Option-cases,
  List, [], ◌∷◌, map, find, count, ltb, arith, All,
}
use job_hunters_api.Common.Dict.{get, put}
use job_hunters_api.Discovery.{ScrapedJob}
use job_hunters_api.Discovery.Canonical.{
  Names, canonical_key, score, merge, better_of, kept_copy, collect, canonicalise,
}
use job_hunters_api.Discovery.Canonical.Best.{
  Covers, IsKeyed, Held, collect-IsKeyed, collect-Held_all,
}

module _ (n : Names) where
  abbrev is_copy : String → ScrapedJob → Bool
  is_copy k v = str_eq (canonical_key n v) k

  abbrev values : List (String × ScrapedJob) → List ScrapedJob
  values best = map (λ e. e.1) best

  find-values :
      (k : String) (best : List (String × ScrapedJob))
      → All (λ e. canonical_key n e.1 ≡ e.0) best
      → find (is_copy k) (values best) ≡ get k best
  unfolding get
  find-values k [] h = refl
  find-values k ((i, w) ∷ best) (own, h) = rw own (ground (arith, find-values k best h))

  count-values :
      (k : String) (best : List (String × ScrapedJob))
      → All (λ e. canonical_key n e.1 ≡ e.0) best
      → count (is_copy k) (values best) ≡ count (λ e. str_eq e.0 k) best
  count-values k [] h = refl
  count-values k ((i, w) ∷ best) (own, h) = rw own (ground (arith, count-values k best h))

  count_of_get :
      (k : String) (v : ScrapedJob) (best : List (String × ScrapedJob))
      → get k best ≡ some v
      → 1 ≤ count (λ e. str_eq e.0 k) best
  unfolding get
  count_of_get k v [] e = cc
  count_of_get k v ((i, w) ∷ best) e = ground (arith, count_of_get k v best)

  -- The one copy of a posting: at least as good, with the tags of the posting.
  abbrev IsRepresented : List ScrapedJob → ScrapedJob → Type 0
  IsRepresented out j =
      (v : ScrapedJob) × (find (is_copy (canonical_key n j)) out ≡ some v)
      × (count (is_copy (canonical_key n j)) out ≡ 1)
      × Covers n v j

  All-IsRepresented :
      (best : List (String × ScrapedJob)) (jobs : List ScrapedJob)
      → IsKeyed n best
      → All (Held n best) jobs
      → All (IsRepresented (values best)) jobs
  All-IsRepresented best [] keyed h = tt
  All-IsRepresented best (j ∷ jobs) keyed ((v, there, c), h) =
      let k = canonical_key n j in
      (
        (
          v,
          find-values k best keyed.own ∙ there,
          omega (arith, count-values k best keyed.own, count_of_get k v best there, keyed.once k),
          c,
        ),
        All-IsRepresented best jobs keyed h,
      )

  module _ (P : ScrapedJob → Type 0) (closed : (a b : ScrapedJob) → P a → P (merge n a b)) where
    get-All :
        (k : String) (v : ScrapedJob) (best : List (String × ScrapedJob))
        → get k best ≡ some v
        → All P (values best)
        → P v
    unfolding get
    get-All k v [] e h = cc
    get-All k v ((i, w) ∷ best) e (p, h) = elim (Bool-cases (str_eq i k)) [
      | inl same ↦ let here = rw same at e in let alike : w ≡ v = cc in rw (← alike) p
      | inr other ↦ get-All k v best (rw other at e) h
    ]

    put-All :
        (k : String) (v : ScrapedJob) (best : List (String × ScrapedJob))
        → P v
        → All P (values best)
        → All P (values (put k v best))
    unfolding put
    put-All k v [] p h = (p, tt)
    put-All k v ((i, w) ∷ best) p (q, h) = elim (Bool-cases (str_eq i k)) [
      | inl same ↦ rw same (p, h)
      | inr other ↦ rw other (q, put-All k v best p h)
    ]

    better_of-All : (job existing : ScrapedJob) → P job → P existing → P (better_of n job existing)
    better_of-All job existing p q = elim (Bool-cases (ltb (score n existing) (score n job))) [
      | inl more ↦ rw more (closed job existing p)
      | inr less ↦ rw less (closed existing job q)
    ]

    collect-All :
        (jobs : List ScrapedJob) (best : List (String × ScrapedJob))
        → All P jobs
        → All P (values best)
        → All P (values (collect n jobs best))
    unfolding collect
    collect-All [] best given h = h
    collect-All (job ∷ jobs) best (p, given) h =
        let k = canonical_key n job in
        let kept : P (kept_copy n job (get k best)) = elim (Option-cases (get k best)) [
          | inl new ↦ rw new p
          | inr (v, old) ↦ rw old (better_of-All job v p (get-All k v best old h))
        ] in
        collect-All jobs (put k (kept_copy n job (get k best)) best) given (put-All k _ best kept h)

  -- What is kept is one of the postings, but for its tags.
  pub record IsVersion (jobs : List ScrapedJob) (v : ScrapedJob) : Type 0 where
    pub place : ℕ
    pub posting : ScrapedJob
    pub given : get_elem? jobs place ≡ some posting
    pub same : record posting { tags = v.tags } ≡ v

  merged-IsVersion :
      (jobs : List ScrapedJob) (a b : ScrapedJob) → IsVersion jobs a → IsVersion jobs (merge n a b)
  merged-IsVersion jobs a b h = record {
    place = h.place;
    posting = h.posting;
    given = h.given;
    same = ap (λ (x : ScrapedJob). record x { tags = (merge n a b).tags }) h.same;
  }

  All-versions :
      (jobs more : List ScrapedJob) (start : ℕ)
      → ((i : ℕ) → get_elem? more (start + i) ≡ get_elem? jobs i)
      → All (IsVersion more) jobs
  All-versions [] more start h = tt
  All-versions (j ∷ jobs) more start h = (
    record { place = start + 0; posting = j; given = h 0; same = refl },
    All-versions jobs more (start + 1)
        (λ i. let e : start + 1 + i ≡ start + suc i = omega arith in rw e (h (suc i))),
  )

  pub record IsCanonical (jobs out : List ScrapedJob) : Type 0 where
    pub represented : All (IsRepresented out) jobs
    pub given : All (IsVersion jobs) out

  -- Of all postings with the same canonical key exactly one is kept: no posting of these has a
  -- higher score, and it has the tags of each. What is kept is one of the postings in every field
  -- but its tags.
  pub canonicalise-IsCanonical : (jobs : List ScrapedJob) → IsCanonical jobs (canonicalise n jobs)
  unfolding canonicalise
  canonicalise-IsCanonical jobs =
      let none_yet : IsKeyed n [] = record { own = tt; once = λ k. omega arith } in
      record {
        represented =
            All-IsRepresented (collect n jobs []) jobs (collect-IsKeyed n jobs [] none_yet)
              (collect-Held_all n jobs []);
        given =
            collect-All (IsVersion jobs) (merged-IsVersion jobs) jobs []
              (All-versions jobs jobs 0 (λ i. let e : 0 + i ≡ i = omega arith in rw e refl)) tt;
      }
