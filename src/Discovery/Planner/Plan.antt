-- ===== src/Discovery/Planner/Plan.antt =====
-- The searches of src/hunt/discovery/planner.ts: title by title over all markets, up to the budget.
use Prim.Native.String.{String}
use text.Mathlib.Text.{◌==◌ as str_eq}
use text.Mathlib.TextEquality.{eq_iff}
use mathlib.Core.List.{append-nil, append_assoc}
use job_hunters_api.Common.{
  ℕ, zero, suc, ◌*◌, ◌≡◌, ◌≤◌, refl, sym, ap, ◌∙◌, Bool, Bool-cases, inl, inr, true, false, not,
  ◌&&◌, ◌||◌, List, [], ◌∷◌, ◌++◌, map, any, count, count-append, count-take-le, count_of_not_any,
  length, length-append, length-take, take, take_all, leb, arith, All, All-append, All-take,
  if◌then◌else◌,
}
use job_hunters_api.Discovery.Planner.Markets.{markets-IsWanted}
use job_hunters_api.Discovery.Planner.{
  RoleTerm, Words, PlannerInput, SearchQuery, Market, title_synonyms, push_title, push_all,
  push_synonyms, push_roles, or_default, expand_titles, resolve_markets, query_of, fill_markets,
  unless_broken, fill_titles, plan_queries,
}

-- Every title with every market.
abbrev all_pairs : List String → List Market → List SearchQuery
all_pairs [] markets = []
all_pairs (title ∷ titles) markets = map (query_of title) markets ++ all_pairs titles markets

abbrev IsTitle : String → Type 0
IsTitle t = str_eq t "" ≡ false

module _ {A : Type 0} where
  take_full : (n : ℕ) (xs ys : List A) → n ≤ length xs → take n (xs ++ ys) ≡ take n xs
  take_full zero xs ys h = refl
  take_full (suc n) [] ys h = absurd (omega arith)
  take_full (suc n) (x ∷ xs) ys h = ap (λ zs. x ∷ zs) (take_full n xs ys (omega arith))

  take-take_append : (n : ℕ) (xs ys : List A) → take n (take n xs ++ ys) ≡ take n (xs ++ ys)
  take-take_append zero xs ys = refl
  take-take_append (suc n) [] ys = refl
  take-take_append (suc n) (x ∷ xs) ys = ap (λ zs. x ∷ zs) (take-take_append n xs ys)

fill_markets-same :
    (title : String) (ms : List Market) (queries : List SearchQuery)
    → IsTitle title
    → length queries ≤ 30
    → ((fill_markets title ms queries).0 ≡ take 30 (queries ++ map (query_of title) ms))
      × ((not (fill_markets title ms queries).1
            || leb 30 (length (fill_markets title ms queries).0))
          ≡ true)
unfolding fill_markets
fill_markets-same title [] queries named short =
    (sym (rw append-nil (take_all 30 queries short)), refl)
fill_markets-same title (m ∷ ms) queries named short =
    let rest = fill_markets-same title ms (queries ++ query_of title m ∷ []) named in
    elim (Bool-cases (leb 30 (length queries))) [
      | inl full ↦ rw full (
        sym (
            take_full 30 queries (map (query_of title) (m ∷ ms)) (ground arith)
            ∙ take_all 30 queries short),
        full,
      )
      | inr room ↦
          let longer = length-append queries (query_of title m ∷ []) in
          let (same, stop) = rest (ground (arith, longer)) in
          rw room (rw named (same ∙ rw append_assoc refl, stop))
    ]

fill_titles-same :
    (titles : List String) (ms : List Market) (queries : List SearchQuery)
    → All IsTitle titles
    → length queries ≤ 30
    → fill_titles titles ms queries ≡ take 30 (queries ++ all_pairs titles ms)
unfolding fill_titles
fill_titles-same [] ms queries named short = sym (rw append-nil (take_all 30 queries short))
fill_titles-same (title ∷ titles) ms queries (first, named) short =
    let (same, stop) = fill_markets-same title ms queries first short in
    go (fill_markets title ms queries).0 (fill_markets title ms queries).1 same stop
      (fill_titles-same titles ms (fill_markets title ms queries).0 named)
  where
    go :
        (r : List SearchQuery) (broken : Bool)
        → r ≡ take 30 (queries ++ map (query_of title) ms)
        → (not broken || leb 30 (length r)) ≡ true
        → (length r ≤ 30 → fill_titles titles ms r ≡ take 30 (r ++ all_pairs titles ms))
        → unless_broken (r, broken) (fill_titles titles ms)
          ≡ take 30 (queries ++ (map (query_of title) ms ++ all_pairs titles ms))
    go r true same stop rest =
        let more = map (query_of title) ms in
        let size = ap (λ (qs : List SearchQuery). length qs) same in
        same
        ∙ sym (
            take_full 30 (queries ++ more) (all_pairs titles ms)
              (ground (arith, size, length-take 30 (queries ++ more))))
        ∙ rw append_assoc refl
    go r false same stop rest =
        let more = map (query_of title) ms in
        let size = ap (λ (qs : List SearchQuery). length qs) same in
        rest (omega (arith, size, length-take 30 (queries ++ more)))
        ∙ ap (λ (qs : List SearchQuery). take 30 (qs ++ all_pairs titles ms)) same
        ∙ take-take_append 30 (queries ++ more) (all_pairs titles ms)
        ∙ rw append_assoc refl

-- Titles that are not empty, each once.
pub record IsTitles (out : List String) : Type 0 where
  pub named : All IsTitle out
  pub once : (k : String) → count (λ t. str_eq t k) out ≤ 1

module _ (w : Words) where
  push_title-IsTitles :
      (title : String) (out : List String) → IsTitles out → IsTitles (push_title w title out)
  push_title-IsTitles title out h =
      let key = w.normalise title in
      elim (Bool-cases (str_eq key "" || any (λ t. str_eq t key) out)) [
        | inl known ↦ rw known h
        | inr new ↦ rw new (record {
          named = All-append IsTitle out (key ∷ []) h.named (ground arith, tt);
          once = λ k. ground (
            arith,
            eq_iff key k,
            h.once k,
            count-append (λ t. str_eq t k) out (key ∷ []),
            count_of_not_any (λ t. str_eq t key) out,
          );
        })
      ]

  push_all-IsTitles : (titles out : List String) → IsTitles out → IsTitles (push_all w titles out)
  unfolding push_all
  push_all-IsTitles [] out h = h
  push_all-IsTitles (title ∷ titles) out h =
      push_all-IsTitles titles (push_title w title out) (push_title-IsTitles title out h)

  push_synonyms-IsTitles :
      (entries : List (RoleTerm × List String)) (role : String) (out : List String)
      → IsTitles out
      → IsTitles (push_synonyms w entries role out)
  unfolding push_synonyms
  push_synonyms-IsTitles [] role out h = h
  push_synonyms-IsTitles ((term, expand) ∷ entries) role out h =
      elim (Bool-cases (w.names_role term role)) [
        | inl named ↦
            rw named (push_synonyms-IsTitles entries role _ (push_all-IsTitles expand out h))
        | inr other ↦ rw other (push_synonyms-IsTitles entries role out h)
      ]

  push_roles-IsTitles : (roles out : List String) → IsTitles out → IsTitles (push_roles w roles out)
  unfolding push_roles
  push_roles-IsTitles [] out h = h
  push_roles-IsTitles (role ∷ roles) out h = elim (Bool-cases (str_eq (w.trim role) "")) [
    | inl blank ↦ rw blank (push_roles-IsTitles roles out h)
    | inr named ↦ rw named (
        push_roles-IsTitles roles _ (
          push_synonyms-IsTitles title_synonyms (w.trim role) _
            (push_title-IsTitles (w.trim role) out h)))
  ]

  none-IsTitles : IsTitles []
  none-IsTitles = record { named = tt; once = λ k. omega arith }

  or_default-IsTitles : (out : List String) → IsTitles out → IsTitles (or_default w out)
  or_default-IsTitles [] h = push_title-IsTitles "software engineer" [] h
  or_default-IsTitles (t ∷ ts) h = h

  expand_titles-IsTitles : (roles : List String) → IsTitles (expand_titles w roles)
  unfolding expand_titles
  expand_titles-IsTitles roles =
      let out = or_default w (push_roles w roles []) in
      let h =
        or_default-IsTitles (push_roles w roles []) (push_roles-IsTitles roles [] none-IsTitles) in
      record {
        named = All-take IsTitle 8 out h.named;
        once = λ k. omega (arith, h.once k, count-take-le (λ t. str_eq t k) 8 out);
      }

-- A search for a title in a market.
abbrev is_search : String → String → SearchQuery → Bool
is_search title market q = str_eq q.keywords title && str_eq q.market market

count-query_of :
    (k m title : String) (ms : List Market)
    → count (is_search k m) (map (query_of title) ms)
      ≡ (if str_eq title k then count (λ x. str_eq x.market m) ms else 0)
count-query_of k m title [] = ground arith
count-query_of k m title (x ∷ ms) = ground (arith, count-query_of k m title ms)

count-all_pairs :
    (k m : String) (titles : List String) (ms : List Market)
    → count (is_search k m) (all_pairs titles ms)
      ≡ count (λ t. str_eq t k) titles * count (λ x. str_eq x.market m) ms
count-all_pairs k m [] ms = omega arith
count-all_pairs k m (title ∷ titles) ms =
    let pairs = count-append (is_search k m) (map (query_of title) ms) (all_pairs titles ms) in
    elim (Bool-cases (str_eq title k)) [
      | inl same ↦
          let here = rw same at (count-query_of k m title ms) in
          rw same (grind (arith, pairs, here, count-all_pairs k m titles ms))
      | inr other ↦
          let here = rw other at (count-query_of k m title ms) in
          rw other (grind (arith, pairs, here, count-all_pairs k m titles ms))
    ]

-- A plan against its description.
pub record IsPlan (w : Words) (input : PlannerInput) (queries : List SearchQuery) : Type 0 where
  pub same : queries ≡ take 30 (all_pairs (expand_titles w input.roles) (resolve_markets w input))
  pub once : (title market : String) → count (is_search title market) queries ≤ 1

-- The searches of a hunt are the first 30 of all pairs of a title and a market, in the order of the
-- titles and, for each title, of the markets; and no title is searched for in a market twice.
pub plan_queries-IsPlan :
    (w : Words) (input : PlannerInput) → IsPlan w input (plan_queries w input).queries
unfolding plan_queries
plan_queries-IsPlan w input =
    let titles = expand_titles w input.roles in
    let markets = resolve_markets w input in
    let h = expand_titles-IsTitles w input.roles in
    let wanted = markets-IsWanted w input in
    let same = fill_titles-same titles markets [] h.named (omega arith) in
    record {
      same = same;
      once = λ title market. rw same (
          grind (
            arith,
            count-take-le (is_search title market) 30 (all_pairs titles markets),
            count-all_pairs title market titles markets,
            h.once title,
            wanted.once market,
          ));
    }
