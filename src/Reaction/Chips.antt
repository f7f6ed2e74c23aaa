-- ===== src/Reaction/Chips.antt =====
-- The chips under a message and the list of who reacted (server/src/repositories/memory.ts) are made
-- by two loops; they agree.
use Prim.Native.String.{String}
use hanmir_talk.Prelude.{
  ℕ, ◌+◌, ◌≡◌, refl, sym, ap, ◌∙◌, inl, inr, Bool, false, ◌||◌, Option, List, [], ◌∷◌, ◌++◌, map,
  arith, Option-cases, length, any, or_else, option_map, Ident, sort, lookup, insert,
}
use hanmir_talk.Prelude.{insert_sorted}
use hanmir_talk.Reaction.{
  Reactions, ByUser, Chip, Named, is_viewer, count_one, count_user, count_all, chip_of_count,
  list_for_message, detail_one, detail_user, detail_all, list_detail_for_message,
}

-- What the chip of an emoji shows, from the users who reacted with it.
abbrev pub counted : Option Ident → List Named → ℕ × Bool
counted viewer users = (length users, any (λ (u : Named). is_viewer viewer u.0) users)

abbrev pub entry : Option Ident → Ident × List Named → Ident × (ℕ × Bool)
entry viewer d = (d.0, counted viewer d.1)

abbrev pub chip_of : Option Ident → Ident × List Named → Chip
chip_of viewer d = chip_of_count (entry viewer d)

module _ (viewer : Option Ident) where
  counted-push :
      (users : List Named) (u : Named)
      → counted viewer (users ++ u ∷ [])
        ≡ ((counted viewer users).0 + 1, (counted viewer users).1 || is_viewer viewer u.0)
  counted-push [] u = ground arith
  counted-push (x ∷ users) u = ground (arith, counted-push users u)

  lookup-entry :
      (k : Ident) (m : List (Ident × List Named))
      → lookup k (map (entry viewer) m) ≡ option_map (counted viewer) (lookup k m)
  unfolding lookup
  lookup-entry k [] = refl
  lookup-entry k ((j, us) ∷ m) = ground (arith, lookup-entry k m)

  counted-found :
      (k : Ident) (m : List (Ident × List Named))
      → or_else (lookup k (map (entry viewer) m)) (0, false)
        ≡ counted viewer (or_else (lookup k m) [])
  counted-found k m = elim (Option-cases (lookup k m)) [
    | inl e ↦ ground (arith, e, lookup-entry k m)
    | inr (us, e) ↦ ground (arith, e, lookup-entry k m)
  ]

  insert-entry :
      (k : Ident) (us : List Named) (m : List (Ident × List Named))
      → insert k (counted viewer us) (map (entry viewer) m) ≡ map (entry viewer) (insert k us m)
  unfolding insert
  insert-entry k us [] = refl
  insert-entry k us ((j, vs) ∷ m) = ground (arith, insert-entry k us m)

  count_one-entry :
      (names : Ident → String) (user emoji : Ident) (m : List (Ident × List Named))
      → count_one viewer user emoji (map (entry viewer) m)
        ≡ map (entry viewer) (detail_one names user emoji m)
  unfolding count_one detail_one
  count_one-entry names user emoji m =
      let us : List Named = or_else (lookup emoji m) [] in
      ap
        (λ (c : ℕ × Bool).
          insert emoji (c.0 + 1, c.1 || is_viewer viewer user) (map (entry viewer) m))
        (counted-found emoji m)
      ∙ ap (λ (c : ℕ × Bool). insert emoji c (map (entry viewer) m))
          (sym (counted-push us (user, names user)))
      ∙ insert-entry emoji (us ++ (user, names user) ∷ []) m

  count_user-entry :
      (names : Ident → String) (user : Ident) (es : List Ident) (m : List (Ident × List Named))
      → count_user viewer user es (map (entry viewer) m)
        ≡ map (entry viewer) (detail_user names user es m)
  unfolding count_user detail_user
  count_user-entry names user [] m = refl
  count_user-entry names user (e ∷ es) m =
      rw (count_one-entry names user e m)
        (count_user-entry names user es (detail_one names user e m))

  count_all-entry :
      (names : Ident → String) (us : ByUser) (m : List (Ident × List Named))
      → count_all viewer us (map (entry viewer) m) ≡ map (entry viewer) (detail_all names us m)
  unfolding count_all detail_all
  count_all-entry names [] m = refl
  count_all-entry names ((user, es) ∷ us) m =
      rw (count_user-entry names user es m) (count_all-entry names us (detail_user names user es m))

module _ {A B : Type 0} (f : A → B) (p : A → A → Bool) (q : B → B → Bool) where
  insert_sorted-map :
      (x : A) (xs : List A)
      → ((a b : A) → q (f a) (f b) ≡ p a b)
      → insert_sorted q (f x) (map f xs) ≡ map f (insert_sorted p x xs)
  unfolding insert_sorted
  insert_sorted-map x [] h = refl
  insert_sorted-map x (y ∷ ys) h = ground (arith, h x y, insert_sorted-map x ys h)

  sort-map :
      (xs : List A) → ((a b : A) → q (f a) (f b) ≡ p a b) → sort q (map f xs) ≡ map f (sort p xs)
  unfolding sort
  sort-map [] h = refl
  sort-map (x ∷ xs) h = rw (sort-map xs h) (insert_sorted-map x (sort p xs) h)

map-map :
    {A B C : Type 0} (g : B → C) (f : A → B) (xs : List A)
    → map g (map f xs) ≡ map (λ x. g (f x)) xs
map-map g f [] = refl
map-map g f (x ∷ xs) = ap (λ r. g (f x) ∷ r) (map-map g f xs)

-- The chips of a message are the details of who reacted, in the same order, each with the number of
-- its users and whether the viewer is one of them.
pub list_for_message-details :
    (message : Ident) (viewer : Option Ident) (names : Ident → String) (rows : Reactions)
    → list_for_message message viewer rows
      ≡ map (chip_of viewer) (list_detail_for_message names message rows)
unfolding list_for_message list_detail_for_message
list_for_message-details message viewer names rows = elim (Option-cases (lookup message rows)) [
  | inl e ↦ rw (e, list_for_message) (rw (e, list_detail_for_message) refl)
  | inr (us, e) ↦
      rw (e, list_for_message)
        (rw (e, list_detail_for_message)
          (rw (count_all-entry viewer names us []) (
            rw (map-map chip_of_count (entry viewer) (detail_all names us []))
              (sort-map (chip_of viewer) _ _ (detail_all names us []) (λ a b. refl)))))
]
