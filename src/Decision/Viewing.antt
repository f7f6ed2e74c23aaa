-- ===== src/Decision/Viewing.antt =====
-- Confirmations of other decisions leave what is shown of one alone
-- (server/src/repositories/memory.ts).
use hanmir_talk.Prelude.{
  ℕ, zero, suc, ◌≡◌, refl, ap, ◌≢◌, inl, inr, Option, none, some, List, [], arith, ◌==◌, Bool-cases,
  Option-cases, is_some, or_else, option_bind, Ident, lookup, insert,
}
use hanmir_talk.Prelude.{lookup-insert}
use hanmir_talk.Notice.{Confirmations, confirmed_at, confirm}
use hanmir_talk.Notice.Confirming.{confirm-first}
use hanmir_talk.Decision.{DecisionRow, Accessors, count_confirmed, has_confirmed, decorate}

-- Nobody's confirmation of `k` differs.
abbrev pub SameFor : Ident → Confirmations → Confirmations → Type 0
SameFor k c c' =
    ((u : Ident) → confirmed_at u k c' ≡ confirmed_at u k c)
    × (count_confirmed k c' ≡ count_confirmed k c)

lookup-nil : (k : Ident) → lookup {V = ℕ} k [] ≡ none
unfolding lookup
lookup-nil k = refl

lookup-others :
    (now : ℕ) (id k : Ident) (row : Option (List (Ident × ℕ)))
    → id ≢ k
    → lookup k (insert id now (or_else row [])) ≡ option_bind (lookup k) row
lookup-others now id k none n = ground (arith, lookup-insert k id now [], lookup-nil k, n)
lookup-others now id k (some m) n = ground (arith, lookup-insert k id now m, n)

confirmed_at-others :
    (now : ℕ) (user id k u : Ident) (c : Confirmations)
    → id ≢ k
    → confirmed_at u k (insert user (insert id now (or_else (lookup user c) [])) c)
      ≡ confirmed_at u k c
unfolding confirmed_at
confirmed_at-others now user id k u c n =
    let at_user = lookup-insert u user (insert id now (or_else (lookup user c) [])) c in
    elim (Bool-cases (user == u)) [
      | inl e ↦
          let q : user ≡ u = ground (arith, e) in
          ground (
            arith,
            at_user,
            e,
            lookup-others now id k (lookup user c) n,
            ap (λ j. option_bind (lookup {V = ℕ} k) (lookup j c)) q,
          )
      | inr e ↦ ground (arith, at_user, e)
    ]

pub confirm-SameFor :
    (now : ℕ) (user id k : Ident) (c : Confirmations) → id ≢ k → SameFor k c (confirm now user id c)
unfolding confirm count_confirmed
confirm-SameFor now user id k c n = elim (Option-cases (confirmed_at user id c)) [
  | inl e ↦ (
    rw e (λ u. confirmed_at-others now user id k u c n),
    ground (arith, confirm-first now user id c e k, n),
  )
  | inr (t, e) ↦ rw e ((λ u. refl), refl)
]

has_confirmed-SameFor :
    (k : Ident) (c c' : Confirmations) (viewer : Option Ident)
    → SameFor k c c'
    → has_confirmed viewer k c' ≡ has_confirmed viewer k c
has_confirmed-SameFor k c c' none h = refl
has_confirmed-SameFor k c c' (some zero) h = refl
has_confirmed-SameFor k c c' (some (suc n)) h = ap is_some (h.0 (suc n))

pub decorate-SameFor :
    (acc : Accessors) (c c' : Confirmations) (viewer : Option Ident) (r : DecisionRow)
    → SameFor r.id c c'
    → decorate acc c' viewer r ≡ decorate acc c viewer r
unfolding decorate
decorate-SameFor acc c c' viewer r h = rw h.1 (rw (has_confirmed-SameFor r.id c c' viewer h) refl)
