-- ===== src/Prelude/Sorting.antt =====
-- Laws of `sort`: it keeps the elements, and its first element comes before all others.
use Prim.Native.Nat.{ℕ, ◌≤◌}
use mathlib.Core.Path.{◌≡◌, refl}
use mathlib.Core.Logic.{inl, inr}
use mathlib.Core.Bool.{Bool}
use mathlib.Core.Option.{none, some}
use mathlib.Core.List.{List, [], ◌∷◌, Perm}
use mathlib.Core.List.Perm
use native.Mathlib.Omega.{arith}
use hanmir_talk.Prelude.Tests.{leb, Bool-cases}
use hanmir_talk.Prelude.Lists.{All, All-map}
use hanmir_talk.Prelude.Store.{remove}
use hanmir_talk.Prelude.Counting.{All-remove}
use hanmir_talk.Prelude.Values.{sort, insert_sorted, first}

module _ {ℓ} {A : Type ℓ} where
  module _ (before : A → A → Bool) where
    insert_sorted-Perm : (x : A) (ys : List A) → Perm (insert_sorted before x ys) (x ∷ ys)
    unfolding insert_sorted
    insert_sorted-Perm x [] = Perm.refl _
    insert_sorted-Perm x (y ∷ ys) = elim (Bool-cases (before x y)) [
      | inl e ↦ rw e (Perm.refl _)
      | inr e ↦ rw e (Perm.trans (Perm.cons y (insert_sorted-Perm x ys)) (Perm.swap x y ys))
    ]

    -- Sorting permutes.
    pub sort-Perm : (xs : List A) → Perm (sort before xs) xs
    unfolding sort
    sort-Perm [] = Perm.refl _
    sort-Perm (x ∷ xs) =
        Perm.trans (insert_sorted-Perm x (sort before xs)) (Perm.cons x (sort-Perm xs))

    insert_sorted-All {κ} :
        (P : A → Type κ) (x : A) (ys : List A) → P x → All P ys → All P (insert_sorted before x ys)
    unfolding insert_sorted
    insert_sorted-All P x [] h k = (h, tt)
    insert_sorted-All P x (y ∷ ys) h k = elim (Bool-cases (before x y)) [
      | inl e ↦ rw e (h, k)
      | inr e ↦ rw e (k.0, insert_sorted-All P x ys h k.1)
    ]

    pub sort-All {κ} : (P : A → Type κ) (xs : List A) → All P xs → All P (sort before xs)
    unfolding sort
    sort-All P [] h = tt
    sort-All P (x ∷ xs) h = insert_sorted-All P x (sort before xs) h.0 (sort-All P xs h.1)

    insert_sorted-All_of {κ} :
        (P : A → Type κ) (x : A) (ys : List A) → All P (insert_sorted before x ys) → P x × All P ys
    unfolding insert_sorted
    insert_sorted-All_of P x [] h = (h.0, tt)
    insert_sorted-All_of P x (y ∷ ys) h = elim (Bool-cases (before x y)) [
      | inl e ↦ let k : All P (x ∷ y ∷ ys) = rw e at h in k
      | inr e ↦
          let k : All P (y ∷ insert_sorted before x ys) = rw e at h in
          let (px, pys) = insert_sorted-All_of P x ys k.1 in (px, (k.0, pys))
    ]

    pub All-of_sort {κ} : (P : A → Type κ) (xs : List A) → All P (sort before xs) → All P xs
    unfolding sort
    All-of_sort P [] h = tt
    All-of_sort P (x ∷ xs) h =
        let k = insert_sorted-All_of P x (sort before xs) h in (k.0, All-of_sort P xs k.1)

    -- Only the empty list has no first element after sorting.
    pub first-sort-none : (xs : List A) → first (sort before xs) ≡ none → xs ≡ []
    unfolding sort insert_sorted
    first-sort-none [] e = refl
    first-sort-none (x ∷ xs) e = absurd (head (sort before xs) e)
      where
        head : (ys : List A) → first (insert_sorted before x ys) ≡ none → ⊥
        head [] k = ground arith
        head (y ∷ ys) k = ground arith

    pub first-sort_All {κ} :
        (P : A → Type κ) (xs : List A) (a : A) → All P xs → first (sort before xs) ≡ some a → P a
    first-sort_All P xs a h e = head (sort before xs) e (sort-All P xs h)
      where
        head : (ys : List A) → first ys ≡ some a → All P ys → P a
        head [] k v = absurd (ground arith)
        head (y ∷ ys) k v = let q : a ≡ y = ground arith in rw q v.0

  -- By a numeric key, smallest first.
  module _ (key : A → ℕ) where
    abbrev pub by_key : A → A → Bool
    by_key a b = leb (key a) (key b)

    abbrev IsLeast : List A → Type ℓ
    IsLeast ys = (b : A) → first ys ≡ some b → All (λ y. key b ≤ key y) ys

    insert_sorted-first : (x : A) (ys : List A) → IsLeast ys → IsLeast (insert_sorted by_key x ys)
    unfolding insert_sorted
    insert_sorted-first x [] h b e = (ground arith, tt)
    insert_sorted-first x (y ∷ ys) h b e = elim (Bool-cases (leb (key x) (key y))) [
      | inl le ↦
          let q : x ≡ b = ground arith in
          rw (le, ← q)
            (
              ground arith,
              (ground arith, All-map ys (λ a (v : key y ≤ key a). ground arith) (h y refl).1),
            )
      | inr gt ↦
          let q : key y ≡ key b = ground arith in
          rw gt (
            ground arith,
            insert_sorted-All by_key (λ a. key b ≤ key a) x ys (ground arith)
                (All-map ys (λ a (v : key y ≤ key a). ground arith) (h y refl).1),
          )
    ]

    sort-IsLeast : (xs : List A) → IsLeast (sort by_key xs)
    unfolding sort
    sort-IsLeast [] b e = tt
    sort-IsLeast (x ∷ xs) b e = (insert_sorted-first x (sort by_key xs) (sort-IsLeast xs) b e)

    -- The first element of the sorted list has the smallest key.
    pub first-sort_least :
        (xs : List A) (b : A) → first (sort by_key xs) ≡ some b → All (λ y. key b ≤ key y) xs
    first-sort_least xs b e = All-of_sort by_key (λ y. key b ≤ key y) xs (sort-IsLeast xs b e)

    -- Each key is at most those that follow.
    abbrev pub Ordered : List A → Type 0
    Ordered [] = Unit {0}
    Ordered (x ∷ xs) = All (λ y. key x ≤ key y) xs × Ordered xs

    insert_sorted-Ordered : (x : A) (ys : List A) → Ordered ys → Ordered (insert_sorted by_key x ys)
    unfolding insert_sorted
    insert_sorted-Ordered x [] o = (tt, tt)
    insert_sorted-Ordered x (y ∷ ys) o = elim (Bool-cases (leb (key x) (key y))) [
      | inl le ↦ rw le ((ground arith, All-map ys (λ a (v : key y ≤ key a). ground arith) o.0), o)
      | inr gt ↦ rw gt (
        insert_sorted-All by_key (λ a. key y ≤ key a) x ys (ground arith) o.0,
        insert_sorted-Ordered x ys o.1,
      )
    ]

    pub sort-Ordered : (xs : List A) → Ordered (sort by_key xs)
    unfolding sort
    sort-Ordered [] = tt
    sort-Ordered (x ∷ xs) = insert_sorted-Ordered x (sort by_key xs) (sort-Ordered xs)

    pub remove-Ordered : (p : A → Bool) (xs : List A) → Ordered xs → Ordered (remove p xs)
    remove-Ordered p [] o = tt
    remove-Ordered p (x ∷ xs) o = elim (Bool-cases (p x)) [
      | inl e ↦ rw e o.1
      | inr e ↦ rw e (All-remove _ p xs o.0, remove-Ordered p xs o.1)
    ]
