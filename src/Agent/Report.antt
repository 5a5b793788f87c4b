-- ===== src/Agent/Report.antt =====
-- The labels of a final report, `finalizeAgentReport` of src/agent/loop.ts.
use Prim.Native.String.{String}
use text.Mathlib.Text.{◌==◌ as str_eq}
use text.Mathlib.TextEquality.{eq_iff}
use job_hunters_api.Common.{
  ◌≡◌, refl, ap, sym, ◌∙◌, Bool, true, Bool-cases, inl, inr, ◌||◌, List, [], ◌∷◌, ◌++◌, arith,
}
use job_hunters_api.Agent.{includes_text, add_observed}

pub includes_text-append :
    (text : String) (a b : List String)
    → includes_text text (a ++ b) ≡ (includes_text text a || includes_text text b)
includes_text-append text [] b = refl
includes_text-append text (x ∷ a) b = let rest = includes_text-append text a b in ground arith

-- An equal text is in the same lists.
same_text :
    (a b : String) (texts : List String)
    → str_eq a b ≡ true
    → includes_text a texts ≡ includes_text b texts
same_text a b texts same = ap (λ t. includes_text t texts) ((eq_iff a b).0 same)

pub includes_text-add_observed :
    (label : String) (filled observed : List String)
    → includes_text label (add_observed filled observed)
      ≡ (includes_text label filled || includes_text label observed)
unfolding add_observed
includes_text-add_observed label filled [] = ground arith
includes_text-add_observed label filled (x ∷ observed) =
    elim (Bool-cases (includes_text x filled)) [
      | inl known ↦ rw known (
          includes_text-add_observed label filled observed
          ∙ absorbed _ _ _ (λ same. sym (same_text x label filled same) ∙ known))
      | inr fresh ↦ rw fresh (
          includes_text-add_observed label (filled ++ x ∷ []) observed
          ∙ (let appended = includes_text-append label filled (x ∷ []) in ground arith))
    ]
  where
    absorbed : (f s o : Bool) → (s ≡ true → f ≡ true) → (f || o) ≡ (f || (s || o))
    absorbed f s o h = ground arith
