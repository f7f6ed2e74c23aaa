-- ===== src/Prelude/FlagLaws.antt =====
-- Laws of the maps of sets.
use Prim.Native.Nat.{ℕ}
use mathlib.Core.Path.{◌≡◌, refl, ap}
use mathlib.Core.Logic.{◌≢◌, inl, inr}
use mathlib.Core.Bool.{Bool, true, false, ◌&&◌}
use mathlib.Core.Option.{none, some}
use mathlib.Core.List.{List, [], ◌∷◌}
use native.Mathlib.Omega.{arith}
use hanmir_talk.Prelude.Tests.{if◌then◌else◌, ◌==◌, Bool-cases, Option-cases}
use hanmir_talk.Prelude.Keyed.{Fresh, Distinct}
use hanmir_talk.Prelude.Maps.{
  Flags, lookup, insert, member, add, drop_member, has_flag, set_flag, clear_flag, users_with,
  clear_all, set_of, lookup-insert, member-add, member-drop,
}

member-set_of : (u k : ℕ) (m : Flags) → member k (set_of u m) ≡ has_flag u k m
unfolding set_of has_flag member
member-set_of u k m = ground arith

has_flag-insert :
    (u w j : ℕ) (s : List ℕ) (m : Flags)
    → has_flag w j (insert u s m) ≡ (if u == w then member j s else has_flag w j m)
unfolding has_flag
has_flag-insert u w j s m = ground (arith, lookup-insert w u s m)

pub has_flag-set_flag :
    (u k w j : ℕ) (on : Bool) (m : Flags)
    → has_flag w j (set_flag u k on m) ≡ (if u == w && k == j then on else has_flag w j m)
unfolding set_flag
has_flag-set_flag u k w j true m = ground (
  arith,
  has_flag-insert u w j (add k (set_of u m)) m,
  member-add j k (set_of u m),
  member-set_of u j m,
  ap (λ t. has_flag t j m) {x = u} {y = w},
)
has_flag-set_flag u k w j false m = ground (
  arith,
  has_flag-insert u w j (drop_member k (set_of u m)) m,
  member-drop j k (set_of u m),
  member-set_of u j m,
  ap (λ t. has_flag t j m) {x = u} {y = w},
)

has_flag-found :
    (u j : ℕ) (s : List ℕ) (m : Flags) → lookup u m ≡ some s → has_flag u j m ≡ member j s
unfolding has_flag
has_flag-found u j s m e = ground arith

has_flag-missing : (u j : ℕ) (m : Flags) → lookup u m ≡ none → has_flag u j m ≡ false
unfolding has_flag
has_flag-missing u j m e = ground arith

pub has_flag-clear_flag :
    (u k w j : ℕ) (m : Flags)
    → has_flag w j (clear_flag u k m) ≡ (if u == w && k == j then false else has_flag w j m)
unfolding clear_flag
has_flag-clear_flag u k w j m = elim (Option-cases (lookup u m)) [
  | inl e ↦
      rw (e, clear_flag)
        (ground (arith, has_flag-missing u j m e, ap (λ t. has_flag t j m) {x = u} {y = w}))
  | inr (s, e) ↦
      rw (e, clear_flag)
        (ground (
          arith,
          has_flag-insert u w j (drop_member k s) m,
          member-drop j k s,
          has_flag-found u j s m e,
          ap (λ t. has_flag t j m) {x = u} {y = w},
        ))
]

pub has_flag-clear_all :
    (k w j : ℕ) (m : Flags)
    → has_flag w j (clear_all k m) ≡ (if k == j then false else has_flag w j m)
unfolding clear_all has_flag lookup
has_flag-clear_all k w j [] = ground arith
has_flag-clear_all k w j ((u, s) ∷ m) =
    ground (arith, has_flag-clear_all k w j m, member-drop j k s)

-- The entries of a map: each user has one set.
abbrev pub IsMap : Flags → Type 0
IsMap m = Distinct (λ (e : ℕ × List ℕ). e.0) m

users_with-Fresh :
    (k w : ℕ) (m : Flags)
    → Fresh (λ (e : ℕ × List ℕ). e.0) w m
    → (member w (users_with k m) ≡ false) × (has_flag w k m ≡ false)
unfolding users_with has_flag lookup member
users_with-Fresh k w [] f = (refl, refl)
users_with-Fresh k w ((u, s) ∷ m) f =
    (ground (arith, users_with-Fresh k w m f.1), ground (arith, users_with-Fresh k w m f.1))

-- The users that are listed are those that have the key.
pub member-users_with : (k w : ℕ) (m : Flags) → IsMap m → member w (users_with k m) ≡ has_flag w k m
unfolding users_with has_flag lookup member
member-users_with k w [] d = refl
member-users_with k w ((u, s) ∷ m) d = ground (
  arith,
  member-users_with k w m d.1,
  users_with-Fresh k u m d.0,
  ap (λ t. member t (users_with k m)) {x = u} {y = w},
)

insert-Fresh :
    (u j : ℕ) (s : List ℕ) (m : Flags)
    → u ≢ j
    → Fresh (λ (e : ℕ × List ℕ). e.0) j m
    → Fresh (λ (e : ℕ × List ℕ). e.0) j (insert u s m)
unfolding insert
insert-Fresh u j s [] n f = (n, tt)
insert-Fresh u j s ((i, t) ∷ m) n f = elim (Bool-cases (i == u)) [
  | inl e ↦ rw e (n, f.1)
  | inr e ↦ rw e (f.0, insert-Fresh u j s m n f.1)
]

pub insert-IsMap : (u : ℕ) (s : List ℕ) (m : Flags) → IsMap m → IsMap (insert u s m)
unfolding insert
insert-IsMap u s [] d = (tt, tt)
insert-IsMap u s ((i, t) ∷ m) d = elim (Bool-cases (i == u)) [
  | inl e ↦ let q : u ≡ i = ground arith in rw (e, q) (d.0, d.1)
  | inr e ↦ rw e (insert-Fresh u i s m (ground arith) d.0, insert-IsMap u s m d.1)
]

pub set_flag-IsMap : (u k : ℕ) (on : Bool) (m : Flags) → IsMap m → IsMap (set_flag u k on m)
unfolding set_flag
set_flag-IsMap u k on m d = insert-IsMap u _ m d

pub clear_flag-IsMap : (u k : ℕ) (m : Flags) → IsMap m → IsMap (clear_flag u k m)
unfolding clear_flag
clear_flag-IsMap u k m d = elim (Option-cases (lookup u m)) [
  | inl e ↦ rw (e, clear_flag) d
  | inr (s, e) ↦ rw (e, clear_flag) (insert-IsMap u _ m d)
]

clear_all-Fresh :
    (k j : ℕ) (m : Flags)
    → Fresh (λ (e : ℕ × List ℕ). e.0) j m
    → Fresh (λ (e : ℕ × List ℕ). e.0) j (clear_all k m)
unfolding clear_all
clear_all-Fresh k j [] f = tt
clear_all-Fresh k j ((u, s) ∷ m) f = (f.0, clear_all-Fresh k j m f.1)

pub clear_all-IsMap : (k : ℕ) (m : Flags) → IsMap m → IsMap (clear_all k m)
unfolding clear_all
clear_all-IsMap k [] d = tt
clear_all-IsMap k ((u, s) ∷ m) d = (clear_all-Fresh k u m d.0, clear_all-IsMap k m d.1)
