-- ===== src/Prelude/Values.antt =====
-- Identifiers, optional values and sorting, as the repositories use them.
use Prim.Native.Nat.{ℕ, zero, suc, ◌+◌}
use Prim.Native.String.{String}
use mathlib.Core.Bool.{Bool, true, false}
use mathlib.Core.Option.{Option, none, some}
use mathlib.Core.List.{List, [], ◌∷◌}
use hanmir_talk.Prelude.Tests.{if◌then◌else◌}

-- An identifier text. The code compares identifiers for equality and tests them for being empty,
-- and does nothing else with them; 0 stands for the empty text.
abbrev pub Ident : Type 0
Ident = ℕ

-- An optional text that is present and not empty: the test `if (x)`.
abbrev pub given : Option String → Option String
given none = none
given (some String.[]) = none
given (some (String.◌∷◌ c s)) = some (String.◌∷◌ c s)

-- The same for an identifier.
abbrev pub given_id : Option Ident → Option Ident
given_id none = none
given_id (some zero) = none
given_id (some (suc n)) = some (suc n)

module _ {ℓ} {A : Type ℓ} where
  -- `x !== undefined`
  abbrev pub is_some : Option A → Bool
  is_some none = false
  is_some (some a) = true

  -- `x ?? d`
  abbrev pub or_else : Option A → A → A
  or_else none d = d
  or_else (some a) d = a

  -- `x ?? y` where `y` may be undefined too
  abbrev pub or_option : Option A → Option A → Option A
  or_option none y = y
  or_option (some a) y = some a

  unfoldable pub insert_sorted : (A → A → Bool) → A → List A → List A
  insert_sorted before x [] = x ∷ []
  insert_sorted before x (y ∷ ys) = if before x y then x ∷ y ∷ ys else y ∷ insert_sorted before x ys

  -- `xs.sort(…)`, which is stable; `before a b` says that the comparison is at most 0.
  unfoldable pub sort : (A → A → Bool) → List A → List A
  unfolding insert_sorted
  sort before [] = []
  sort before (x ∷ xs) = insert_sorted before x (sort before xs)

  -- `xs[0]`
  abbrev pub first : List A → Option A
  first [] = none
  first (x ∷ xs) = some x

  -- `xs[xs.length - 1]`
  abbrev pub last : List A → Option A
  last [] = none
  last (x ∷ []) = some x
  last (x ∷ y ∷ xs) = last (y ∷ xs)

  -- `xs.reduce((s, x) => s + f(x), 0)`
  abbrev pub sum_of : (A → ℕ) → List A → ℕ
  sum_of f [] = 0
  sum_of f (x ∷ xs) = f x + sum_of f xs

module _ {ℓ κ} {A : Type ℓ} {B : Type κ} where
  -- `x?.f`
  abbrev pub option_map : (A → B) → Option A → Option B
  option_map f none = none
  option_map f (some a) = some (f a)

  -- `x?.f` where the field may be undefined too
  abbrev pub option_bind : (A → Option B) → Option A → Option B
  option_bind f none = none
  option_bind f (some a) = f a
