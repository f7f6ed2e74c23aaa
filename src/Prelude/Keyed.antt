-- ===== src/Prelude/Keyed.antt =====
-- Arrays of records that are looked up by an identifier: the laws of find, modify, remove, unshift
-- and push by key.
use Prim.Native.Nat.{ℕ}
use mathlib.Core.Path.{◌≡◌, refl}
use mathlib.Core.Logic.{◌≢◌, inl, inr}
use mathlib.Core.Bool.{Bool}
use mathlib.Core.Option
use mathlib.Core.Option.{Option, none, some}
use mathlib.Core.List.{List, [], ◌∷◌, ◌++◌}
use native.Mathlib.Omega.{arith}
use hanmir_talk.Prelude.Tests.{if◌then◌else◌, ◌==◌, Bool-cases}
use hanmir_talk.Prelude.Lists.{All, All-append}
use hanmir_talk.Prelude.Store.{find, any, modify, remove}

module _ {ℓ} {A : Type ℓ} (key : A → ℕ) where
  -- `xs.find((x) => x.id === k)` and the like
  abbrev pub find_by : ℕ → List A → Option A
  find_by k = find (λ x. key x == k)

  abbrev pub has_by : ℕ → List A → Bool
  has_by k = any (λ x. key x == k)

  abbrev pub modify_by : ℕ → (A → A) → List A → List A
  modify_by k = modify (λ x. key x == k)

  abbrev pub remove_by : ℕ → List A → List A
  remove_by k = remove (λ x. key x == k)

  -- No element has the key.
  abbrev pub Fresh : ℕ → List A → Type 0
  Fresh k xs = All (λ x. key x ≢ k) xs

  -- The keys are distinct.
  abbrev pub Distinct : List A → Type 0
  Distinct [] = Unit {0}
  Distinct (x ∷ xs) = Fresh (key x) xs × Distinct xs

  pub find_by-key : (k : ℕ) (xs : List A) {a : A} → find_by k xs ≡ some a → key a ≡ k
  find_by-key k [] h = ground arith
  find_by-key k (x ∷ xs) {a} h = ground (arith, find_by-key k xs {a = a})

  pub find_by-modify_by :
      (j k : ℕ) (f : A → A) (xs : List A)
      → ((a : A) → key (f a) ≡ key a)
      → find_by j (modify_by k f xs)
        ≡ (if k == j then Option.map f (find_by j xs) else find_by j xs)
  find_by-modify_by j k f [] h = ground arith
  find_by-modify_by j k f (x ∷ xs) h = ground (arith, h x, find_by-modify_by j k f xs h)

  pub find_by-push :
      (j : ℕ) (a : A) (xs : List A)
      → Fresh (key a) xs
      → find_by j (xs ++ a ∷ []) ≡ (if key a == j then some a else find_by j xs)
  find_by-push j a [] h = refl
  find_by-push j a (x ∷ xs) h = ground (arith, find_by-push j a xs h.1)

  pub find_by-Fresh : (k : ℕ) (xs : List A) → Fresh k xs → find_by k xs ≡ none
  find_by-Fresh k [] h = refl
  find_by-Fresh k (x ∷ xs) h = ground (arith, find_by-Fresh k xs h.1)

  pub Fresh-of_find_by : (k : ℕ) (xs : List A) → find_by k xs ≡ none → Fresh k xs
  Fresh-of_find_by k [] h = tt
  Fresh-of_find_by k (x ∷ xs) h = ground (arith, Fresh-of_find_by k xs)

  pub find_by-remove_by :
      (j k : ℕ) (xs : List A)
      → Distinct xs
      → find_by j (remove_by k xs) ≡ (if k == j then none else find_by j xs)
  find_by-remove_by j k [] h = ground arith
  find_by-remove_by j k (x ∷ xs) h =
      ground (arith, find_by-Fresh j xs, find_by-Fresh k xs, find_by-remove_by j k xs h.1)

  pub Fresh-remove_by : (j k : ℕ) (xs : List A) → Fresh j xs → Fresh j (remove_by k xs)
  Fresh-remove_by j k [] h = tt
  Fresh-remove_by j k (x ∷ xs) h = ground (arith, Fresh-remove_by j k xs h.1)

  pub Distinct-remove_by : (k : ℕ) (xs : List A) → Distinct xs → Distinct (remove_by k xs)
  Distinct-remove_by k [] h = tt
  Distinct-remove_by k (x ∷ xs) h =
      ground (arith, Fresh-remove_by (key x) k xs h.0, Distinct-remove_by k xs h.1)

  pub Fresh-modify_by :
      (j k : ℕ) (f : A → A) (xs : List A)
      → ((a : A) → key (f a) ≡ key a)
      → Fresh j xs
      → Fresh j (modify_by k f xs)
  Fresh-modify_by j k f [] e h = tt
  Fresh-modify_by j k f (x ∷ xs) e h = ground (arith, e x, Fresh-modify_by j k f xs e h.1)

  pub Distinct-modify_by :
      (k : ℕ) (f : A → A) (xs : List A)
      → ((a : A) → key (f a) ≡ key a)
      → Distinct xs
      → Distinct (modify_by k f xs)
  Distinct-modify_by k f [] e h = tt
  Distinct-modify_by k f (x ∷ xs) e h =
      ground (arith, e x, Fresh-modify_by (key x) k f xs e h.0, Distinct-modify_by k f xs e h.1)

  pub Distinct-push :
      (a : A) (xs : List A) → Fresh (key a) xs → Distinct xs → Distinct (xs ++ a ∷ [])
  Distinct-push a [] f d = (tt, tt)
  Distinct-push a (x ∷ xs) f d =
      (All-append _ xs (a ∷ []) d.0 ((λ e. f.0 (ground arith)), tt), Distinct-push a xs f.1 d.1)

  -- A property that the change keeps holds of every element afterwards.
  pub All-modify_by {κ} :
      (P : A → Type κ) (k : ℕ) (f : A → A) (xs : List A)
      → ((a : A) → key a ≡ k → P a → P (f a))
      → All P xs
      → All P (modify_by k f xs)
  All-modify_by P k f [] h p = tt
  All-modify_by P k f (x ∷ xs) h p = elim (Bool-cases (key x == k)) [
    | inl e ↦ rw e (h x (ground arith) p.0, p.1)
    | inr e ↦ rw e (p.0, All-modify_by P k f xs h p.1)
  ]

  pub All-find_by {κ} :
      (P : A → Type κ) (k : ℕ) (xs : List A) {a : A} → All P xs → find_by k xs ≡ some a → P a
  All-find_by P k [] p h = absurd (ground arith)
  All-find_by P k (x ∷ xs) {a} p h = elim (Bool-cases (key x == k)) [
    | inl e ↦ let q : x ≡ a = ground arith in rw (← q) p.0
    | inr e ↦ All-find_by P k xs p.1 (ground arith)
  ]

-- An element that is found by one key and changed by another, which tells the elements apart.
module _ {ℓ} {A : Type ℓ} (key id : A → ℕ) where
  pub find_by-modify_found :
      (f : A → A) (h : ℕ) (xs : List A) (a : A)
      → ((x : A) → key (f x) ≡ key x)
      → Distinct id xs
      → find_by key h xs ≡ some a
      → find_by key h (modify_by id (id a) f xs) ≡ some (f a)
  find_by-modify_found f h [] a k d e = absurd (ground arith)
  find_by-modify_found f h (x ∷ xs) a k d e = elim (Bool-cases (key x == h)) [
    | inl p ↦ let q : x ≡ a = ground (arith, p, e) in rw (← q) (ground (arith, p, k x))
    | inr p ↦
        let g : find_by key h xs ≡ some a = ground (arith, p, e) in
        let n = All-find_by key (λ y. id y ≢ id x) h xs d.0 g in
        ground (arith, p, n, find_by-modify_found f h xs a k d.1 g)
  ]
