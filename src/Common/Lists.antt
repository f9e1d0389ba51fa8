-- ===== src/Common/Lists.antt =====
-- Lists measured by native numbers, and the table operations that the repositories use.
use Prim.Native.Nat.{ℕ, zero, suc, ◌+◌, ◌≤◌}
use mathlib.Core.Path.{◌≡◌, refl, ap, subst}
use mathlib.Core.Bool.{Bool, true, false}
use mathlib.Core.Logic.{◌⊎◌, inl, inr}
use mathlib.Core.List.{List, [], ◌∷◌, ◌++◌, reverse, reverse-cons}
use mathlib.Core.Option.{Option, none, some}
use native.Mathlib.Omega.{arith}
use cyber_range.Common.Tests.{if◌then◌else◌, Bool-cases}

module _ {ℓ} {A : Type ℓ} where
  abbrev pub length : List A → ℕ
  length [] = 0
  length (x ∷ xs) = suc (length xs)

  abbrev pub take : ℕ → List A → List A
  take zero xs = []
  take (suc n) [] = []
  take (suc n) (x ∷ xs) = x ∷ take n xs

  abbrev pub drop : ℕ → List A → List A
  drop zero xs = xs
  drop (suc n) [] = []
  drop (suc n) (x ∷ xs) = drop n xs

  -- The first row that passes the test: a `select` with `.first()`.
  abbrev pub find? : (A → Bool) → List A → Option A
  find? p [] = none
  find? p (x ∷ xs) = if p x then some x else find? p xs

  -- Every row that passes the test, in order: a `select` with `.all()`.
  abbrev pub select : (A → Bool) → List A → List A
  select p [] = []
  select p (x ∷ xs) = let rest = select p xs in if p x then x ∷ rest else rest

  -- The first row that passes the test, changed: a write through the object that `find?` gave.
  abbrev pub update_first : (A → Bool) → (A → A) → List A → List A
  update_first p f [] = []
  update_first p f (x ∷ xs) = if p x then f x ∷ xs else x ∷ update_first p f xs

  abbrev pub count : (A → Bool) → List A → ℕ
  count p [] = 0
  count p (x ∷ xs) = if p x then suc (count p xs) else count p xs

  abbrev pub any : (A → Bool) → List A → Bool
  any p [] = false
  any p (x ∷ xs) = if p x then true else any p xs

  abbrev pub All {κ} : (A → Type κ) → List A → Type κ
  All P [] = Unit
  All P (x ∷ xs) = P x × All P xs

module _ {ℓ} {A : Type ℓ} where
  pub length-append : (xs ys : List A) → length (xs ++ ys) ≡ length xs + length ys
  length-append [] ys = omega arith
  length-append (x ∷ xs) ys = omega (arith, length-append xs ys)

  pub All-append {κ} : (P : A → Type κ) (xs ys : List A) → All P xs → All P ys → All P (xs ++ ys)
  All-append P [] ys hx hy = hy
  All-append P (x ∷ xs) ys hx hy = (hx.0, All-append P xs ys hx.1 hy)

  pub count-append : (p : A → Bool) (xs ys : List A) → count p (xs ++ ys) ≡ count p xs + count p ys
  count-append p [] ys = omega arith
  count-append p (x ∷ xs) ys = ground (arith, count-append p xs ys)

  pub count-le-length : (p : A → Bool) (xs : List A) → count p xs ≤ length xs
  count-le-length p [] = omega arith
  count-le-length p (x ∷ xs) = ground (arith, count-le-length p xs)

  -- A row that was found passes the test.
  pub find?-passes : (p : A → Bool) (xs : List A) (a : A) → find? p xs ≡ some a → p a ≡ true
  find?-passes p [] a h = ground arith
  find?-passes p (x ∷ xs) a h = ground (arith, find?-passes p xs a)

  -- What holds of every row holds of the one that was found.
  pub find?-All {κ} :
      (P : A → Type κ) (p : A → Bool) (xs : List A) (a : A) → All P xs → find? p xs ≡ some a → P a
  find?-All P p [] a h e = absurd (cc)
  find?-All P p (x ∷ xs) a h e = elim (Bool-cases (p x)) [
    | inl here ↦ subst P (ground arith) h.0
    | inr later ↦ find?-All P p xs a h.1 (ground arith)
  ]

  pub find?-append :
      (p : A → Bool) (xs ys : List A) → find? p xs ≡ none → find? p (xs ++ ys) ≡ find? p ys
  find?-append p [] ys h = refl
  find?-append p (x ∷ xs) ys h = ground (arith, find?-append p xs ys)

  -- A row that fails the test, added at the end, is not found.
  pub find?-append_miss :
      (p : A → Bool) (xs : List A) (a : A) → p a ≡ false → find? p (xs ++ a ∷ []) ≡ find? p xs
  find?-append_miss p [] a h = ground (arith, h)
  find?-append_miss p (x ∷ xs) a h = ground (arith, find?-append_miss p xs a h)

  pub select-append :
      (p : A → Bool) (xs ys : List A) → select p (xs ++ ys) ≡ select p xs ++ select p ys
  select-append p [] ys = refl
  select-append p (x ∷ xs) ys = ground (arith, select-append p xs ys)

  -- The first of the rows that pass is the row that is found.
  pub find?-select :
      (p : A → Bool) (xs : List A) (a : A) → select p xs ≡ a ∷ [] → find? p xs ≡ some a
  find?-select p [] a h = absurd (ground arith)
  find?-select p (x ∷ xs) a h = ground (arith, h, find?-select p xs a)

  -- A stricter test that the row found by another one passes finds the same row.
  pub find?-stricter :
      (p q : A → Bool) (xs : List A) (a : A)
      → ((x : A) → q x ≡ true → p x ≡ true)
      → find? p xs ≡ some a
      → q a ≡ true
      → find? q xs ≡ some a
  find?-stricter p q [] a h e k = absurd (ground arith)
  find?-stricter p q (x ∷ xs) a h e k = ground (arith, h x, e, k, find?-stricter p q xs a h)

  -- A row that was found is still found after rows are added at the end.
  pub find?-append_some :
      (p : A → Bool) (xs ys : List A) (a : A) → find? p xs ≡ some a → find? p (xs ++ ys) ≡ some a
  find?-append_some p [] ys a h = ground arith
  find?-append_some p (x ∷ xs) ys a h = ground (arith, find?-append_some p xs ys a)

  pub any-append :
      (p : A → Bool) (xs ys : List A) → any p (xs ++ ys) ≡ (if any p xs then true else any p ys)
  any-append p [] ys = refl
  any-append p (x ∷ xs) ys = ground (arith, any-append p xs ys)

  -- A write that keeps the key is read back by the same query.
  pub find?-update_first :
      (p : A → Bool) (f : A → A) (xs : List A) (a : A)
      → find? p xs ≡ some a
      → p (f a) ≡ true
      → find? p (update_first p f xs) ≡ some (f a)
  find?-update_first p f [] a h k = ground arith
  find?-update_first p f (x ∷ xs) a h k = ground (arith, find?-update_first p f xs a)

  -- A write through one query does not change what another one finds.
  pub find?-update_first_ne :
      (p q : A → Bool) (f : A → A) (xs : List A)
      → ((a : A) → p a ≡ true → (q a ≡ false) × (q (f a) ≡ false))
      → find? q (update_first p f xs) ≡ find? q xs
  find?-update_first_ne p q f [] h = refl
  find?-update_first_ne p q f (x ∷ xs) h = ground (arith, h x, find?-update_first_ne p q f xs h)

  pub All-update_first {κ} :
      (P : A → Type κ) (p : A → Bool) (f : A → A) (xs : List A)
      → ((a : A) → P a → P (f a))
      → All P xs
      → All P (update_first p f xs)
  All-update_first P p f [] h a = a
  All-update_first P p f (x ∷ xs) h a = elim (Bool-cases (p x)) [
    | inl here ↦ rw here (h x a.0, a.1)
    | inr later ↦ rw later (a.0, All-update_first P p f xs h a.1)
  ]

  pub length-update_first :
      (p : A → Bool) (f : A → A) (xs : List A) → length (update_first p f xs) ≡ length xs
  length-update_first p f [] = refl
  length-update_first p f (x ∷ xs) = ground (arith, length-update_first p f xs)

  -- No row passes a test exactly when none is counted.
  pub count-any : (p : A → Bool) (xs : List A) → any p xs ≡ false → count p xs ≡ 0
  count-any p [] h = refl
  count-any p (x ∷ xs) h = ground (arith, count-any p xs)

  -- After a write that keeps the key, a query finds the row that it found before, or that row as
  -- it was written, if it is the one that the write found.
  pub find?-update_first_either :
      (k q : A → Bool) (f : A → A) (xs : List A) (a : A)
      → ((x : A) → k (f x) ≡ k x)
      → find? k xs ≡ some a
      → (find? k (update_first q f xs) ≡ some a)
        ⊎ ((find? q xs ≡ some a) × (find? k (update_first q f xs) ≡ some (f a)))
  find?-update_first_either k q f [] a h e = absurd (ground arith)
  find?-update_first_either k q f (x ∷ xs) a h e =
      ground (arith, h x, find?-update_first_either k q f xs a h)

  pub take-drop : (n : ℕ) (xs : List A) → take n xs ++ drop n xs ≡ xs
  take-drop zero xs = refl
  take-drop (suc n) [] = refl
  take-drop (suc n) (x ∷ xs) = ap (λ l. x ∷ l) (take-drop n xs)

  pub length-drop : (n : ℕ) (xs : List A) → length (drop n xs) ≤ length xs
  length-drop zero xs = omega arith
  length-drop (suc n) [] = omega arith
  length-drop (suc n) (x ∷ xs) = omega (arith, length-drop n xs)

  pub take-append : (xs ys : List A) → take (length xs) (xs ++ ys) ≡ xs
  take-append [] ys = refl
  take-append (x ∷ xs) ys = ap (λ l. x ∷ l) (take-append xs ys)

  pub drop-append : (xs ys : List A) → drop (length xs) (xs ++ ys) ≡ ys
  drop-append [] ys = refl
  drop-append (x ∷ xs) ys = drop-append xs ys

  pub length-take : (n : ℕ) (xs : List A) → n ≤ length xs → length (take n xs) ≡ n
  length-take zero xs h = refl
  length-take (suc n) [] h = absurd (omega (arith, h))
  length-take (suc n) (x ∷ xs) h = omega (arith, length-take n xs)

  pub All-take {κ} : (P : A → Type κ) (n : ℕ) (xs : List A) → All P xs → All P (take n xs)
  All-take P zero xs h = tt
  All-take P (suc n) [] h = tt
  All-take P (suc n) (x ∷ xs) h = (h.0, All-take P n xs h.1)

  pub length-reverse : (xs : List A) → length (reverse xs) ≡ length xs
  length-reverse [] = refl
  length-reverse (x ∷ xs) =
      rw (reverse-cons x xs) (omega (arith, length-append (reverse xs) (x ∷ []), length-reverse xs))

  pub All-reverse {κ} : (P : A → Type κ) (xs : List A) → All P xs → All P (reverse xs)
  All-reverse P [] h = h
  All-reverse P (x ∷ xs) h =
      rw (reverse-cons x xs) (All-append P (reverse xs) (x ∷ []) (All-reverse P xs h.1) (h.0, tt))
