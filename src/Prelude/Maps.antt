-- ===== src/Prelude/Maps.antt =====
-- `Map` keyed by identifiers, in insertion order, and `Map` of `Set`s.
use Prim.Native.Nat.{ℕ}
use mathlib.Core.Path.{◌≡◌, refl}
use mathlib.Core.Logic.{inl, inr}
use mathlib.Core.Bool.{Bool, false, ◌||◌, ◌&&◌, not}
use mathlib.Core.Option.{Option, none, some}
use mathlib.Core.List.{List, [], ◌∷◌, ◌++◌}
use native.Mathlib.Omega.{arith}
use hanmir_talk.Prelude.Tests.{if◌then◌else◌, ◌==◌, Bool-cases}

module _ {ℓ} {V : Type ℓ} where
  -- `m.get(k)`
  unfoldable pub lookup : ℕ → List (ℕ × V) → Option V
  lookup k [] = none
  lookup k ((j, v) ∷ m) = if j == k then some v else lookup k m

  -- `m.set(k, v)`
  unfoldable pub insert : ℕ → V → List (ℕ × V) → List (ℕ × V)
  insert k v [] = (k, v) ∷ []
  insert k v ((j, w) ∷ m) = if j == k then (k, v) ∷ m else (j, w) ∷ insert k v m

  -- `m.delete(k)`
  unfoldable pub delete : ℕ → List (ℕ × V) → List (ℕ × V)
  delete k [] = []
  delete k ((j, w) ∷ m) = let rest = delete k m in if j == k then rest else (j, w) ∷ rest

  pub lookup-insert :
      (j k : ℕ) (v : V) (m : List (ℕ × V))
      → lookup j (insert k v m) ≡ (if k == j then some v else lookup j m)
  unfolding lookup insert
  lookup-insert j k v [] = refl
  lookup-insert j k v ((i, w) ∷ m) = ground (arith, lookup-insert j k v m)

  pub lookup-delete :
      (j k : ℕ) (m : List (ℕ × V)) → lookup j (delete k m) ≡ (if k == j then none else lookup j m)
  unfolding lookup delete
  lookup-delete j k [] = ground arith
  lookup-delete j k ((i, w) ∷ m) = ground (arith, lookup-delete j k m)

-- `set.has(k)`
unfoldable pub member : ℕ → List ℕ → Bool
member k [] = false
member k (j ∷ s) = j == k || member k s

-- `set.add(k)`
unfoldable pub add : ℕ → List ℕ → List ℕ
unfolding member
add k s = if member k s then s else s ++ k ∷ []

-- `[...seen, ...ks]` as a Set in order of appearance: each key once.
unfoldable pub deduped : List ℕ → List ℕ → List ℕ
unfolding add
deduped seen [] = seen
deduped seen (k ∷ ks) = deduped (add k seen) ks

-- `set.delete(k)`
unfoldable pub drop_member : ℕ → List ℕ → List ℕ
drop_member k [] = []
drop_member k (j ∷ s) = let rest = drop_member k s in if j == k then rest else j ∷ rest

member-append : (j k : ℕ) (s : List ℕ) → member j (s ++ k ∷ []) ≡ (k == j || member j s)
unfolding member
member-append j k [] = refl
member-append j k (i ∷ s) = ground (arith, member-append j k s)

pub member-add : (j k : ℕ) (s : List ℕ) → member j (add k s) ≡ (k == j || member j s)
unfolding add
member-add j k s = elim (Bool-cases (member k s)) [
  | inl e ↦ ground (arith, e)
  | inr e ↦ rw e (member-append j k s)
]

pub member-drop : (j k : ℕ) (s : List ℕ) → member j (drop_member k s) ≡ (not (k == j) && member j s)
unfolding member drop_member
member-drop j k [] = ground arith
member-drop j k (i ∷ s) = ground (arith, member-drop j k s)

-- A map from users to sets of rooms or messages.
abbrev pub Flags : Type 0
Flags = List (ℕ × List ℕ)

-- `m.get(u)?.has(k) ?? false`
unfoldable pub has_flag : ℕ → ℕ → Flags → Bool
has_flag u k m = elim (lookup u m) [ none ↦ false | some s ↦ member k s ]

-- The set of a user, empty if there is none.
unfoldable pub set_of : ℕ → Flags → List ℕ
set_of u m = elim (lookup u m) [ none ↦ [] | some t ↦ t ]

-- The set of a user is made if it is missing; then the key is added or deleted.
unfoldable pub set_flag : ℕ → ℕ → Bool → Flags → Flags
set_flag u k on m = insert u (if on then add k (set_of u m) else drop_member k (set_of u m)) m

-- `m.get(u)?.delete(k)`
unfoldable pub clear_flag : ℕ → ℕ → Flags → Flags
clear_flag u k m = elim (lookup u m) [ none ↦ m | some s ↦ insert u (drop_member k s) m ]

-- `for (const [u, set] of m) if (set.has(k)) out.push(u)`
unfoldable pub users_with : ℕ → Flags → List ℕ
unfolding member
users_with k [] = []
users_with k ((u, s) ∷ m) = let rest = users_with k m in if member k s then u ∷ rest else rest

-- `for (const [u, set] of m) set.delete(k)`
unfoldable pub clear_all : ℕ → Flags → Flags
unfolding drop_member
clear_all k [] = []
clear_all k ((u, s) ∷ m) = (u, drop_member k s) ∷ clear_all k m
