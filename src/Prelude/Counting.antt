-- ===== src/Prelude/Counting.antt =====
-- Laws of counting, filtering and replacing that need no key.
use Prim.Native.Nat.{ℕ, ◌+◌, ◌≤◌}
use mathlib.Core.Path.{◌≡◌, refl}
use mathlib.Core.Logic.{inl, inr}
use mathlib.Core.Bool.{Bool, true, false, not}
use mathlib.Core.Option.{none, some}
use mathlib.Core.List.{List, [], ◌∷◌, ◌++◌}
use native.Mathlib.Omega.{arith}
use hanmir_talk.Prelude.Tests.{Bool-cases}
use hanmir_talk.Prelude.Lists.{length, All}
use hanmir_talk.Prelude.Store.{find, any, filter, modify, remove, count}
use hanmir_talk.Prelude.Keyed.{find_by, Distinct, Fresh}
use hanmir_talk.Prelude.Values.{sum_of}

module _ {ℓ} {A : Type ℓ} where
  pub count-append : (p : A → Bool) (xs ys : List A) → count p (xs ++ ys) ≡ count p xs + count p ys
  count-append p [] ys = omega arith
  count-append p (x ∷ xs) ys = ground (arith, count-append p xs ys)

  pub count-zero_of_any : (p : A → Bool) (xs : List A) → any p xs ≡ false → count p xs ≡ 0
  count-zero_of_any p [] h = refl
  count-zero_of_any p (x ∷ xs) h = ground (arith, count-zero_of_any p xs)

  -- A change that makes no element pass does not raise the count.
  pub count-modify-le :
      (p q : A → Bool) (f : A → A) (xs : List A)
      → ((a : A) → p (f a) ≡ true → p a ≡ true)
      → count p (modify q f xs) ≤ count p xs
  count-modify-le p q f [] h = omega arith
  count-modify-le p q f (x ∷ xs) h = ground (arith, h x, count-modify-le p q f xs h)

  pub count-modify_same :
      (p q : A → Bool) (f : A → A) (xs : List A)
      → ((a : A) → p (f a) ≡ p a)
      → count p (modify q f xs) ≡ count p xs
  count-modify_same p q f [] h = refl
  count-modify_same p q f (x ∷ xs) h = ground (arith, h x, count-modify_same p q f xs h)

  pub count-not : (p : A → Bool) (xs : List A) → count p xs + count (λ x. not (p x)) xs ≡ length xs
  count-not p [] = refl
  count-not p (x ∷ xs) = ground (arith, count-not p xs)

  pub count-le-length : (p : A → Bool) (xs : List A) → count p xs ≤ length xs
  count-le-length p [] = omega arith
  count-le-length p (x ∷ xs) = ground (arith, count-le-length p xs)

  pub All-filter : (p : A → Bool) (xs : List A) → All (λ x. p x ≡ true) (filter p xs)
  All-filter p [] = tt
  All-filter p (x ∷ xs) = ground (arith, All-filter p xs)

  pub All-filter_of {κ} :
      (P : A → Type κ) (p : A → Bool) (xs : List A) → All P xs → All P (filter p xs)
  All-filter_of P p [] h = tt
  All-filter_of P p (x ∷ xs) h = elim (Bool-cases (p x)) [
    | inl e ↦ rw e (h.0, All-filter_of P p xs h.1)
    | inr e ↦ rw e (All-filter_of P p xs h.1)
  ]

  pub find-holds : (p : A → Bool) (xs : List A) (a : A) → find p xs ≡ some a → p a ≡ true
  find-holds p [] a h = ground arith
  find-holds p (x ∷ xs) a h = ground (arith, find-holds p xs a)

  pub find-some_of_any : (p : A → Bool) (xs : List A) → find p xs ≡ none → any p xs ≡ false
  find-some_of_any p [] h = refl
  find-some_of_any p (x ∷ xs) h = ground (arith, find-some_of_any p xs)

  pub All-remove {κ} :
      (P : A → Type κ) (p : A → Bool) (xs : List A) → All P xs → All P (remove p xs)
  All-remove P p [] h = tt
  All-remove P p (x ∷ xs) h = elim (Bool-cases (p x)) [
    | inl e ↦ rw e h.1
    | inr e ↦ rw e (h.0, All-remove P p xs h.1)
  ]

  pub sum_of-append : (f : A → ℕ) (xs ys : List A) → sum_of f (xs ++ ys) ≡ sum_of f xs + sum_of f ys
  sum_of-append f [] ys = omega arith
  sum_of-append f (x ∷ xs) ys = omega (arith, sum_of-append f xs ys)

  -- The change of one element changes the sum by as much.
  pub sum_of-modify :
      (f : A → ℕ) (p : A → Bool) (g : A → A) (d : ℕ) (xs : List A) (a : A)
      → find p xs ≡ some a
      → f (g a) ≡ f a + d
      → sum_of f (modify p g xs) ≡ sum_of f xs + d
  sum_of-modify f p g d [] a h e = ground arith
  sum_of-modify f p g d (x ∷ xs) a h e = ground (arith, sum_of-modify f p g d xs a)

  -- Only the element that `find` finds is changed.
  pub All-modify_found {κ} :
      (P : A → Type κ) (p : A → Bool) (f : A → A) (xs : List A) (a : A)
      → find p xs ≡ some a
      → (P a → P (f a))
      → All P xs
      → All P (modify p f xs)
  All-modify_found P p f [] a h k v = tt
  All-modify_found P p f (x ∷ xs) a h k v = elim (Bool-cases (p x)) [
    | inl e ↦ let q : a ≡ x = ground arith in rw e ((rw q at k) v.0, v.1)
    | inr e ↦ rw e (v.0, All-modify_found P p f xs a (ground arith) k v.1)
  ]

  found_behind :
      (key : A → ℕ) (x : A) (xs ys : List A)
      → Fresh key (key x) ys
      → All (λ a. find_by key (key a) xs ≡ some a) ys
      → All (λ a. find_by key (key a) (x ∷ xs) ≡ some a) ys
  found_behind key x xs [] f h = tt
  found_behind key x xs (y ∷ ys) f h = (ground arith, found_behind key x xs ys f.1 h.1)

  -- With distinct keys an element is found under its own key.
  pub All-found :
      (key : A → ℕ) (xs : List A) → Distinct key xs → All (λ a. find_by key (key a) xs ≡ some a) xs
  All-found key [] d = tt
  All-found key (x ∷ xs) d = (ground arith, found_behind key x xs xs d.0 (All-found key xs d.1))
