-- ===== src/Outreach/Rank/Laws.antt =====
-- What the ranking of src/outreach/rank.ts promises.
use job_hunters_api.Common.{
  ℕ, zero, suc, ◌+◌, ◌≤◌, ◌≡◌, ◌∙◌, refl, sym, leb, ap, min, Bool, true, List, [], ◌∷◌, map, arith,
  All, All-take, length, length-take, take, drop, count,
}
use job_hunters_api.Common.Coverage.{All-of_count}
use job_hunters_api.Common.Sort.{sort_desc, sort_desc-IsDescending, count-sort_desc, take-ge-drop}
use job_hunters_api.Outreach.Rank.{
  Relationship, Prospect, RankedProspect, relationship_score, authority_score, recency_score,
  affinity_score, reachability_score, score_prospect, rank_prospects,
}

relationship_score-le : (r : Relationship) → relationship_score r ≤ 100
relationship_score-le r = ground arith

authority_score-le : (p : Prospect) → authority_score p ≤ 100
unfolding authority_score
authority_score-le p = ground arith

recency_score-le : (p : Prospect) → recency_score p ≤ 100
unfolding recency_score
recency_score-le p = omega arith

affinity_score-le : (p : Prospect) → affinity_score p ≤ 100
unfolding affinity_score
affinity_score-le p = omega arith

reachability_score-le : (p : Prospect) → reachability_score p ≤ 100
unfolding reachability_score
reachability_score-le p = ground arith

-- Every prospect scores at most 100.
score_prospect_bounds : (p : Prospect) → (score_prospect p).score ≤ 100
unfolding score_prospect
score_prospect_bounds p = omega (
  arith,
  relationship_score-le p.relationship,
  authority_score-le p,
  recency_score-le p,
  affinity_score-le p,
  reachability_score-le p,
)

-- `kept` is the best of the prospects, and `limit` of them if there are as many: with those left out it
-- is the scored prospects, in another order, and none of these scores higher than one that is kept.
pub record IsBest (prospects : List Prospect) (limit : ℕ) (kept : List RankedProspect)
    : Type 0 where
  pub as_many : length kept ≡ min limit (length prospects)
  pub left_out : List RankedProspect
  pub whole :
      (q : RankedProspect → Bool)
      → count q kept + count q left_out ≡ count q (map score_prospect prospects)
  pub best : All (λ k. All (λ r. r.score ≤ k.score) left_out) kept
  pub bounded : All (λ k. leb k.score 100 ≡ true) kept

count-take-drop :
    (q : RankedProspect → Bool) (n : ℕ) (rs : List RankedProspect)
    → count q (take n rs) + count q (drop n rs) ≡ count q rs
count-take-drop q zero rs = omega arith
count-take-drop q (suc n) [] = omega arith
count-take-drop q (suc n) (r ∷ rs) = ground (arith, count-take-drop q n rs)

count-any : (rs : List RankedProspect) → count (λ r. true) rs ≡ length rs
count-any [] = refl
count-any (r ∷ rs) = ap suc (count-any rs)

count-bounded :
    (ps : List Prospect) → count (λ r. leb r.score 100) (map score_prospect ps) ≡ length ps
count-bounded [] = refl
count-bounded (p ∷ ps) = ground (arith, score_prospect_bounds p, count-bounded ps)

length-map : (ps : List Prospect) → length (map score_prospect ps) ≡ length ps
length-map [] = refl
length-map (p ∷ ps) = ap suc (length-map ps)

-- A ranking is the `limit` best of the prospects, or all if they are fewer: none is lost but those left
-- out, and none of these scores higher than one that is kept. A score is at most 100.
pub rank_prospects-IsBest :
    (prospects : List Prospect) (limit : ℕ)
    → IsBest prospects limit (rank_prospects prospects limit)
unfolding rank_prospects
rank_prospects-IsBest prospects limit =
    let scored = map score_prospect prospects in
    let sorted = sort_desc (λ (r : RankedProspect). r.score) scored in
    let by_score = λ (r : RankedProspect). r.score in
    let long : length sorted ≡ length prospects =
      sym (count-any sorted)
      ∙ count-sort_desc by_score (λ r. true) scored
      ∙ count-any scored
      ∙ length-map prospects in
    let fine = count-sort_desc by_score (λ r. leb r.score 100) scored ∙ count-bounded prospects in
    record {
      as_many = omega (arith, length-take limit sorted, long);
      left_out = drop limit sorted;
      whole = λ q.
          count-take-drop q limit sorted
          ∙ count-sort_desc (λ (r : RankedProspect). r.score) q scored;
      best =
          take-ge-drop (λ r. r.score) limit sorted
            (sort_desc-IsDescending (λ (r : RankedProspect). r.score) scored);
      bounded =
          All-take (λ k. leb k.score 100 ≡ true) limit sorted
            (All-of_count (λ k. leb k.score 100) sorted (omega (arith, long, fine)));
    }
