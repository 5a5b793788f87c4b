-- ===== src/Auth/Registry.antt =====
-- The rows of `users`, `kits` and `hunt_specs` that the requests of src/modules/auth leave.
pub mod Writes
pub mod Requests
use Prim.Native.String.{String}
use text.Mathlib.Text.{◌==◌ as str_eq}
use text.Mathlib.TextEquality.{eq_iff}
use job_hunters_api.Common.{
  update_where, ℕ, ◌+◌, ◌≤◌, ◌<◌, ◌==◌, ◌≡◌, refl, sym, ap, subst, ◌∙◌, Bool, true, false,
  Bool-cases, inl, inr, not, ◌&&◌, ◌||◌, Option, none, some, List, [], ◌∷◌, ◌++◌, map, any, find,
  arith, All, All-append, count, count-append, count_of_not_any, count-update_where_same,
  count-update_where-le, count_mono,
}
use job_hunters_api.Auth.{User, Accounts, user_of}
use job_hunters_api.Auth.SignUp.{
  NewUser, has_subject, shares_subject, has_email, clashes, user_from, with_user, create_account,
  is_subject_free, with_subject, link_row,
}
use job_hunters_api.Auth.Dead.{OnAfter}

-- What identifies an account.
pub record Key : Type 0 where
  pub id : ℕ
  pub email : String
  pub google_subject : Option String

abbrev pub key : User → Key
key u = record { id = u.id; email = u.email; google_subject = u.google_subject }

-- A request that neither creates an account nor links one.
pub record Keeps (s t : Accounts) : Type 0 where
  pub later : s.next_id ≤ t.next_id
  pub kits : t.kits ≡ s.kits
  pub specs : t.specs ≡ s.specs
  pub keys : map key t.users ≡ map key s.users

pub update-keys :
    (test : User → Bool) (f : User → User) (us : List User)
    → ((u : User) → key (f u) ≡ key u)
    → map key (update_where test f us) ≡ map key us
update-keys test f [] same = refl
update-keys test f (u ∷ us) same = elim (Bool-cases (test u)) [
  | inl e ↦ rw (e, same u, update-keys test f us same) refl
  | inr e ↦ rw (e, update-keys test f us same) refl
]

count-key :
    (q : Key → Bool) (us vs : List User)
    → map key us ≡ map key vs
    → count (λ u. q (key u)) us ≡ count (λ u. q (key u)) vs
count-key q us vs e = sym (count-map us) ∙ ap (count q) e ∙ count-map vs
  where
    count-map : (us : List User) → count q (map key us) ≡ count (λ u. q (key u)) us
    count-map [] = refl
    count-map (u ∷ us) = ground (arith, count-map us)

abbrev pub ids : List User → List ℕ
ids us = map (λ u. u.id) us

ids-key : (us vs : List User) → map key us ≡ map key vs → ids us ≡ ids vs
ids-key us vs e = sym (ids-map us) ∙ ap (map (λ k. k.id)) e ∙ ids-map vs
  where
    ids-map : (us : List User) → map (λ (k : Key). k.id) (map key us) ≡ ids us
    ids-map [] = refl
    ids-map (u ∷ us) = ap (λ is. u.id ∷ is) (ids-map us)

-- Every account has one id, one kit and one hunt spec of its own, and neither its e-mail, up to
-- case, nor its Google subject is another's.
pub record IsRegistry (lower : String → String) (s : Accounts) : Type 0 where
  pub below : All (λ i. i < s.next_id) (ids s.users)
  pub own_id : (i : ℕ) → count (λ u. u.id == i) s.users ≤ 1
  pub own_email : (email : String) → count (has_email lower email) s.users ≤ 1
  pub own_subject : (sub : String) → count (has_subject sub) s.users ≤ 1
  pub kits : s.kits ≡ ids s.users
  pub specs : s.specs ≡ ids s.users

pub below_mono : (m n : ℕ) (is : List ℕ) → m ≤ n → All (λ i. i < m) is → All (λ i. i < n) is
below_mono m n [] le h = tt
below_mono m n (i ∷ is) le (h, k) = (omega arith, below_mono m n is le k)

module _ (lower : String → String) where
  pub Keeps-IsRegistry : (s t : Accounts) → Keeps s t → IsRegistry lower s → IsRegistry lower t
  Keeps-IsRegistry s t k h =
      let same = ids-key t.users s.users k.keys in
      record {
        below =
            subst (All (λ i. i < t.next_id)) (sym same)
              (below_mono _ _ (ids s.users) k.later h.below);
        own_id = λ i. rw (count-key (λ x. x.id == i) t.users s.users k.keys) (h.own_id i);
        own_email = λ email.
            rw (count-key (λ x. str_eq (lower x.email) (lower email)) t.users s.users k.keys)
              (h.own_email email);
        own_subject = λ sub.
            rw (count-key (λ x. of_subject sub x.google_subject) t.users s.users k.keys)
              (h.own_subject sub);
        kits = k.kits ∙ h.kits ∙ sym same;
        specs = k.specs ∙ h.specs ∙ sym same;
      }
    where
      of_subject : String → Option String → Bool
      of_subject sub none = false
      of_subject sub (some other) = str_eq other sub
