-- ===== src/Auth/Google/Rows.antt =====
-- The accounts that a sign-in of src/modules/auth/service.ts finds by id, before and after its writes.
use Prim.Native.String.{String}
use text.Mathlib.Text.{◌==◌ as str_eq}
use text.Mathlib.TextEquality.{eq_iff}
use job_hunters_api.Common.{
  update_where, ℕ, ◌≤◌, ◌<◌, ◌==◌, ◌≡◌, ◌≢◌, refl, sym, subst, ◌∙◌, Bool, true, false, Bool-cases,
  inl, inr, ◌&&◌, ◌||◌, Option, none, some, List, [], ◌∷◌, ◌++◌, any, find, find_holds, arith, All,
  count, if◌then◌else◌,
}
use job_hunters_api.Auth.{User, Accounts, Payload, is_truthy, user_of, issue, issue_session}
use job_hunters_api.Auth.SignUp.{has_subject, with_subject, enter, entered}
use job_hunters_api.Auth.Registry.{ids}

module _ {A : Type 0} where
  pub find-none : (p : A → Bool) (xs : List A) → find p xs ≡ none → any p xs ≡ false
  find-none p [] e = refl
  find-none p (x ∷ xs) e = ground (arith, find-none p xs)

  count_of_find :
      (p q : A → Bool) (xs : List A) (x : A) → find p xs ≡ some x → q x ≡ true → 1 ≤ count q xs
  count_of_find p q [] x e h = absurd (ground arith)
  count_of_find p q (y ∷ ys) x e h = ground (arith, count_of_find p q ys x)

  -- What one test finds, another finds that nothing else passes.
  pub find_other :
      (p q : A → Bool) (xs : List A) (x : A)
      → find p xs ≡ some x
      → q x ≡ true
      → count q xs ≤ 1
      → find q xs ≡ some x
  find_other p q [] x e h one = absurd (ground arith)
  find_other p q (y ∷ ys) x e h one = elim (Bool-cases (p y)) [
    | inl this ↦ let same : y ≡ x = ground arith in rw same (rw h refl)
    | inr other ↦
        let rest = rw other at e in
        ground (arith, count_of_find p q ys x rest h, find_other p q ys x rest h)
  ]

  pub any_either :
      (p q : A → Bool) (xs : List A)
      → any (λ x. p x || q x) xs ≡ true
      → any q xs ≡ false
      → any p xs ≡ true
  any_either p q [] h free = cc
  any_either p q (x ∷ xs) h free = ground (arith, any_either p q xs)

  pub any_and : (p q : A → Bool) (xs : List A) → any q xs ≡ false → any (λ x. p x && q x) xs ≡ false
  any_and p q [] h = refl
  any_and p q (x ∷ xs) h = ground (arith, any_and p q xs)

  pub find-append_new :
      (p : A → Bool) (xs : List A) (x : A)
      → find p xs ≡ none
      → p x ≡ true
      → find p (xs ++ x ∷ []) ≡ some x
  find-append_new p [] x e h = rw h refl
  find-append_new p (y ∷ ys) x e h = ground (arith, find-append_new p ys x)

  pub find-append_other :
      (p : A → Bool) (xs : List A) (x : A) → p x ≡ false → find p (xs ++ x ∷ []) ≡ find p xs
  find-append_other p [] x h = rw h refl
  find-append_other p (y ∷ ys) x h = ground (arith, find-append_other p ys x)

pub fresh_none :
    (n : ℕ) (us : List User) → All (λ i. i < n) (ids us) → find (λ u. u.id == n) us ≡ none
fresh_none n [] h = refl
fresh_none n (u ∷ us) (h, k) = ground (arith, fresh_none n us k)

module _ {A : Type 0} (test : A → Bool) (f : A → A) where
  abbrev updated : Option A → Option A
  updated none = none
  updated (some x) = some (if test x then f x else x)

  -- A row is found by what an update leaves alone, in its new form.
  find-update_where :
      (p : A → Bool) (xs : List A)
      → ((x : A) → p (f x) ≡ p x)
      → find p (update_where test f xs) ≡ updated (find p xs)
  find-update_where p [] same = refl
  find-update_where p (x ∷ xs) same = elim (Bool-cases (test x)) [
    | inl e ↦ elim (Bool-cases (p x)) [
      | inl h ↦ rw (e, same x, h) (rw e refl)
      | inr h ↦ rw (e, same x, h) (find-update_where p xs same)
    ]
    | inr e ↦ elim (Bool-cases (p x)) [
      | inl h ↦ rw (e, h) (rw e refl)
      | inr h ↦ rw (e, h) (find-update_where p xs same)
    ]
  ]

abbrev linked : String → User → User
linked sub u = record u { google_subject = some sub }

pub find-with_subject :
    (id : ℕ) (sub : String) (us : List User) (row : User)
    → find (λ u. u.id == id) us ≡ some row
    → find (λ u. u.id == id) (with_subject id sub us)
      ≡ some (record row { google_subject = some sub })
find-with_subject id sub us row e =
    let own = find_holds (λ (u : User). u.id == id) us e in
    find-update_where (λ u. u.id == id) (linked sub) (λ u. u.id == id) us (λ u. refl)
    ∙ rw e (rw own refl)

pub find-with_subject_other :
    (id other : ℕ) (sub : String) (us : List User)
    → other ≢ id
    → find (λ u. u.id == other) (with_subject id sub us) ≡ find (λ u. u.id == other) us
find-with_subject_other id other sub us ne =
    find-update_where (λ u. u.id == id) (linked sub) (λ u. u.id == other) us (λ u. refl)
    ∙ kept (find (λ u. u.id == other) us) refl
  where
    kept :
        (o : Option User)
        → find (λ u. u.id == other) us ≡ o
        → updated (λ u. u.id == id) (linked sub) o ≡ o
    kept none e = refl
    kept (some row) e =
        let own = find_holds (λ (u : User). u.id == other) us e in
        let differs : (row.id == id) ≡ false = ground arith in rw differs refl

pub subject-is_truthy :
    (sub : String) (u : User)
    → str_eq sub "" ≡ false
    → has_subject sub u ≡ true
    → is_truthy u.google_subject ≡ true
subject-is_truthy sub u full h = by_subject u.google_subject h
  where
    by_subject :
        (o : Option String)
        → has_subject sub (record u { google_subject = o }) ≡ true
        → is_truthy o ≡ true
    by_subject none k = cc
    by_subject (some other) k =
        let same : sub ≡ other = sym ((eq_iff other sub).0 k) in
        rw (subst (λ t. str_eq t "" ≡ false) same full) refl

module _ (lower : String → String) (digest : String → String) (verify : ℕ → String → Option Payload)
    (sign : (user_id token_id : ℕ) → String) (matches : (password hash : String) → Bool)
    (hash_password : String → String) (ttl : ℕ) where
  -- The row that was just read or written gets its session.
  pub issue_session-issue :
      (now : ℕ) (user : User) (s : Accounts)
      → user_of user.id s ≡ some user
      → issue_session digest verify sign matches hash_password ttl now user s
        ≡ some (issue digest verify sign matches hash_password ttl now user s)
  issue_session-issue now user s e =
      rw e (rw ((eq_iff user.password_hash user.password_hash).1 refl, self user.auth_version) refl)
    where
      self : (n : ℕ) → (n == n) ≡ true
      self n = ground arith

  pub enter-entered :
      (now : ℕ) (user : User) (s : Accounts)
      → user_of user.id s ≡ some user
      → enter lower digest verify sign matches hash_password ttl now user s
        ≡ entered
            (issue digest verify sign matches hash_password ttl now user s).0
            (issue digest verify sign matches hash_password ttl now user s).1
  enter-entered now user s e = rw (issue_session-issue now user s e) refl
