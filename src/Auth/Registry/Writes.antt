-- ===== src/Auth/Registry/Writes.antt =====
-- The creation of an account and its link to Google leave a registry.
use Prim.Native.String.{String}
use text.Mathlib.Text.{◌==◌ as str_eq}
use text.Mathlib.TextEquality.{eq_iff}
use job_hunters_api.Common.{
  update_where, ℕ, ◌+◌, ◌≤◌, ◌<◌, ◌==◌, ◌≡◌, refl, sym, ap, subst, ◌∙◌, Bool, true, false,
  Bool-cases, inl, inr, not, ◌&&◌, Option, none, some, List, [], ◌∷◌, ◌++◌, any, arith, All,
  All-append, count, count-append, count_of_not_any, count-update_where_same, count-update_where-le,
  count_mono,
}
use job_hunters_api.Auth.{User, Accounts}
use job_hunters_api.Auth.SignUp.{
  NewUser, has_subject, shares_subject, has_email, clashes, user_from, with_user, is_subject_free,
  with_subject,
}
use job_hunters_api.Auth.Registry.{ids, below_mono, IsRegistry}

module _ (lower : String → String) where
  count_fresh : (n : ℕ) (us : List User) → All (λ i. i < n) (ids us) → count (λ u. u.id == n) us ≡ 0
  count_fresh n [] h = refl
  count_fresh n (u ∷ us) (h, k) = ground (arith, count_fresh n us k)

  ids-append : (us vs : List User) → ids (us ++ vs) ≡ ids us ++ ids vs
  ids-append [] vs = refl
  ids-append (u ∷ us) vs = ap (λ is. u.id ∷ is) (ids-append us vs)

  -- Whoever takes an insert's place in an index would have stopped it.
  count_unclashing :
      (new : NewUser) (q : User → Bool) (us : List User)
      → any (clashes lower new) us ≡ false
      → ((u : User) → q u ≡ true → clashes lower new u ≡ true)
      → count q us ≡ 0
  count_unclashing new q us free picks = omega (
    arith,
    count_mono q (clashes lower new) us picks,
    count_of_not_any (clashes lower new) us free,
  )

  -- One more row that a test picks, of which none was there.
  count_one_more :
      (q : User → Bool) (us : List User) (u : User)
      → count q us ≤ 1
      → (q u ≡ true → count q us ≡ 0)
      → count q (us ++ u ∷ []) ≤ 1
  count_one_more q us u h none_before = elim (Bool-cases (q u)) [
    | inl e ↦ rw (count-append q us (u ∷ [])) (rw e (omega (arith, none_before e)))
    | inr e ↦ rw (count-append q us (u ∷ [])) (rw e (omega arith))
  ]

  email_clash :
      (new : NewUser) (email : String) (u : User)
      → str_eq (lower new.email) (lower email) ≡ true
      → has_email lower email u ≡ true
      → clashes lower new u ≡ true
  email_clash new email u own h =
      let same : lower email ≡ lower new.email = sym ((eq_iff _ _).0 own) in
      rw (subst (λ e. str_eq (lower u.email) e ≡ true) same h) refl

  subject_clash :
      (new : NewUser) (sub other : String) (u : User)
      → new.google_subject ≡ some other
      → str_eq other sub ≡ true
      → has_subject sub u ≡ true
      → clashes lower new u ≡ true
  subject_clash new sub other u is own h =
      let shared : shares_subject new.google_subject u ≡ true = rw (is, (eq_iff _ _).0 own) h in
      ground arith

  pub with_user-IsRegistry :
      (new : NewUser) (s : Accounts)
      → any (clashes lower new) s.users ≡ false
      → IsRegistry lower s
      → IsRegistry lower (with_user lower (user_from lower s.next_id new) s)
  with_user-IsRegistry new s free h = record {
    below = rw (ids-append s.users (user ∷ [])) (
        All-append (λ i. i < s.next_id + 1) (ids s.users) _
          (below_mono _ _ (ids s.users) (omega arith) h.below) (omega arith, tt));
    own_id = λ i.
        count_one_more (λ u. u.id == i) s.users user (h.own_id i)
          (λ e.
            let same : s.next_id ≡ i = ground arith in
            subst (λ n. count (λ u. u.id == n) s.users ≡ 0) same
              (count_fresh s.next_id s.users h.below));
    own_email = λ email.
        count_one_more (has_email lower email) s.users user (h.own_email email) (λ e.
          count_unclashing new (has_email lower email) s.users free
            (λ u k. email_clash new email u e k));
    own_subject = λ sub. count_one_more (has_subject sub) s.users user (h.own_subject sub) (λ e.
        count_unclashing new (has_subject sub) s.users free (shared sub new.google_subject refl e));
    kits = rw (h.kits, ids-append s.users (user ∷ [])) refl;
    specs = rw (h.specs, ids-append s.users (user ∷ [])) refl;
  }
    where
      user : User
      user = user_from lower s.next_id new

      shared :
          (sub : String) (own : Option String)
          → new.google_subject ≡ own
          → has_subject sub (record user { google_subject = own }) ≡ true
          → (u : User) → has_subject sub u ≡ true
          → clashes lower new u ≡ true
      shared sub none is e u k = cc
      shared sub (some other) is e u k = subject_clash new sub other u is e k

  -- What is picked after an update was updated, or was picked before.
  count_updated :
      (test q : User → Bool) (f : User → User) (us : List User)
      → count q (update_where test f us) ≤ count test us + count (λ u. not (test u) && q u) us
  count_updated test q f [] = omega arith
  count_updated test q f (u ∷ us) = ground (arith, count_updated test q f us)

  pub with_subject-IsRegistry :
      (id : ℕ) (sub : String) (s : Accounts)
      → is_subject_free id sub s.users ≡ true
      → IsRegistry lower s
      → IsRegistry lower (record s { users = with_subject id sub s.users })
  with_subject-IsRegistry id sub s free h = record {
    below = rw (same_ids s.users) h.below;
    own_id = λ i.
        rw (count-update_where_same (λ u. u.id == id) link (λ u. u.id == i) s.users (λ u. refl))
          (h.own_id i);
    own_email = λ email.
        rw
          (count-update_where_same (λ u. u.id == id) link (has_email lower email) s.users
            (λ u. refl))
          (h.own_email email);
    own_subject = own_subject_after;
    kits = h.kits ∙ sym (same_ids s.users);
    specs = h.specs ∙ sym (same_ids s.users);
  }
    where
      link : User → User
      link u = record u { google_subject = some sub }

      same_ids : (us : List User) → ids (with_subject id sub us) ≡ ids us
      same_ids us = ids_by (λ u. u.id == id) us
        where
          ids_by : (test : User → Bool) (us : List User) → ids (update_where test link us) ≡ ids us
          ids_by test [] = refl
          ids_by test (u ∷ us) = elim (Bool-cases (test u)) [
            | inl e ↦ rw (e, ids_by test us) refl
            | inr e ↦ rw (e, ids_by test us) refl
          ]

      is_it : User → Bool
      is_it u = u.id == id

      own_subject_after :
          (other : String) → count (has_subject other) (update_where is_it link s.users) ≤ 1
      own_subject_after other = elim (Bool-cases (str_eq sub other)) [
        | inl e ↦
            let same : other ≡ sub = sym ((eq_iff sub other).0 e) in
            let elsewhere : count (λ u. not (is_it u) && has_subject other u) s.users ≡ 0 =
              rw same (count_of_not_any _ s.users (not_not free)) in
            omega
              (arith, count_updated is_it (has_subject other) link s.users, h.own_id id, elsewhere)
        | inr e ↦ omega (
          arith,
          h.own_subject other,
          count-update_where-le is_it link (has_subject other) s.users
              (λ u t k. absurd (ground arith)),
        )
      ]
        where
          not_not : {b : Bool} → not b ≡ true → b ≡ false
          not_not {b} h = ground arith
