-- ===== src/Outreach/Sequence/Trace/Discovery.antt =====
-- `discoverProspects` of src/outreach/sequence.ts stores prospects that nobody has invited.
use Prim.Native.String.{String}
use job_hunters_api.Common.{
  ℕ, ◌≡◌, refl, ◌∙◌, Bool, true, false, Bool-cases, inl, inr, ◌&&◌, List, [], ◌∷◌, filter,
  count-append, arith,
}
use job_hunters_api.Outreach.Rank.{
  Prospect, RankedProspect, rank_prospects, max_per_company, worth_contacting,
}
use job_hunters_api.Outreach.Sequence.{
  Account, has_id, invited_within, invited_at_company, is_company, company_of,
}
use job_hunters_api.Outreach.Sequence.Changes.{
  discover_prospects, store_prospects, insert_prospect, new_prospect, is_known,
}
use job_hunters_api.Outreach.Sequence.Counting.{find-append}
use job_hunters_api.Outreach.Sequence.Trace.Quiet.{IsQuiet, same-IsQuiet}

IsQuiet-trans : (a b c : Account) → IsQuiet a b → IsQuiet b c → IsQuiet a c
IsQuiet-trans a b c h k = record {
  ids = λ u. k.ids (h.ids u);
  targets = k.targets ∙ h.targets;
  within = λ span now. k.within span now ∙ h.within span now;
  company = λ co now. (rw h.targets at (k.company co now)) ∙ h.company co now;
  found = λ id p e.
      let (q, fq, tq) = h.found id p e in let (r, fr, tr) = k.found id q fq in (r, fr, tr ∙ tq);
}

module _ (compose : Prospect → String × String) where
  false_and : (b : Bool) → (b && false) ≡ false
  false_and true = refl
  false_and false = refl

  insert_prospect-IsQuiet :
      (target_id : ℕ) (r : RankedProspect) (a : Account)
      → IsQuiet a (insert_prospect compose target_id r a)
  insert_prospect-IsQuiet target_id r a =
      let row = new_prospect compose a.next_id target_id r in
      record {
        ids = λ h. record {
          unique = λ id.
              ground
                (arith, count-append (has_id id) a.prospects (row ∷ []), h.unique id, h.free id);
          free =
              λ id le. ground (arith, count-append (has_id id) a.prospects (row ∷ []), h.free id);
        };
        targets = refl;
        within = λ span now.
            omega (arith, count-append (invited_within span now) a.prospects (row ∷ []));
        company = λ c now.
            let unseen = false_and (is_company c (company_of a.targets target_id)) in
            count-append (invited_at_company c now a.targets) a.prospects (row ∷ [])
            ∙ rw unseen (omega arith);
        found = λ id p e. (p, find-append id a.prospects (row ∷ []) e, refl);
      }

  store_prospects-IsQuiet :
      (target_id : ℕ) (ranked : List RankedProspect) (a : Account)
      → IsQuiet a (store_prospects compose target_id ranked a)
  unfolding store_prospects
  store_prospects-IsQuiet target_id [] a = same-IsQuiet a a refl refl refl
  store_prospects-IsQuiet target_id (r ∷ ranked) a =
      elim (Bool-cases (is_known target_id r.profile_url a.prospects)) [
        | inl known ↦ rw known (store_prospects-IsQuiet target_id ranked a)
        | inr new ↦ rw new (
            IsQuiet-trans a (insert_prospect compose target_id r a) _
              (insert_prospect-IsQuiet target_id r a)
              (store_prospects-IsQuiet target_id ranked (insert_prospect compose target_id r a)))
      ]

  pub discover_prospects-IsQuiet :
      (target_id : ℕ) (found : List Prospect) (a : Account)
      → IsQuiet a (discover_prospects compose target_id found a)
  unfolding discover_prospects
  discover_prospects-IsQuiet target_id found a =
      store_prospects-IsQuiet target_id
        (filter worth_contacting (rank_prospects found max_per_company)) a
