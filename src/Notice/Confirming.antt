-- ===== src/Notice/Confirming.antt =====
-- The counts of confirmations that notices carry (server/src/repositories/memory.ts).
use hanmir_talk.Prelude.{
  ℕ, ◌+◌, ◌≡◌, refl, ap, ◌∙◌, inl, inr, Bool, true, false, none, List, [], ◌∷◌, arith, ◌==◌,
  if◌then◌else◌, Bool-cases, Option-cases, All, count, has_by, modify_by, Fresh, Distinct, is_some,
  or_else, Ident, min, lookup, insert,
}
use hanmir_talk.Prelude.{lookup-insert}
use hanmir_talk.Notice.{
  Confirmations, Notice, Notices, notice_id, confirmed_at, confirm, count_up, counted_notices,
  mark_notice, mark_confirmed,
}

-- How many users confirmed.
abbrev confirmers : Ident → Confirmations → ℕ
confirmers id c = count (λ (e : Ident × List (Ident × ℕ)). is_some (lookup id e.1)) c

confirmers-insert :
    (id k user : Ident) (now : ℕ) (old : List (Ident × ℕ)) (c : Confirmations)
    → or_else (lookup user c) [] ≡ old
    → lookup id old ≡ none
    → confirmers k (insert user (insert id now old) c) ≡ confirmers k c + (if id == k then 1 else 0)
unfolding lookup insert
confirmers-insert id k user now old [] e h =
    ground (arith, lookup-insert k id now old, ap (lookup k) e)
confirmers-insert id k user now old ((u, m) ∷ c) e h = elim (Bool-cases (u == user)) [
  | inl q ↦
      let same : m ≡ old = rw q at e in
      rw q (
        ground (
          arith,
          lookup-insert k id now old,
          h,
          ap (lookup k) same,
          ap (λ j. lookup j old) {x = id} {y = k},
        ))
  | inr q ↦ rw q (ground (arith, confirmers-insert id k user now old c (rw q at e) h))
]

-- The notice counts who confirmed it, up to the number of its recipients.
abbrev pub Counts : Confirmations → Notice → Type 0
Counts c n = n.confirmed_count ≡ min n.total_recipients (confirmers n.id c)

abbrev pub IsCounted : Notices → Type 0
IsCounted s = All (Counts s.confirmations) s.data_

-- One more user confirmed the notice or decision of the identifier.
abbrev OneMore : Ident → Confirmations → Confirmations → Type 0
OneMore id c c' = (k : Ident) → confirmers k c' ≡ confirmers k c + (if id == k then 1 else 0)

Counts-others :
    (id : Ident) (c c' : Confirmations) (ns : List Notice)
    → OneMore id c c'
    → Fresh notice_id id ns
    → All (Counts c) ns
    → All (Counts c') ns
Counts-others id c c' [] h f a = tt
Counts-others id c c' (n ∷ ns) h f a =
    (ground (arith, h n.id, f.0, a.0), Counts-others id c c' ns h f.1 a.1)

Counts-marked :
    (id : Ident) (c c' : Confirmations) (ns : List Notice)
    → OneMore id c c'
    → Distinct notice_id ns
    → All (Counts c) ns
    → All (Counts c') (modify_by notice_id id count_up ns)
Counts-marked id c c' [] h d a = tt
Counts-marked id c c' (n ∷ ns) h d a = elim (Bool-cases (n.id == id)) [
  | inl e ↦
      let same : n.id ≡ id = ground (arith, e) in
      rw e (ground (arith, h n.id, a.0, same), Counts-others id c c' ns h (rw same at d.0) a.1)
  | inr e ↦ rw e (ground (arith, h n.id, a.0, e), Counts-marked id c c' ns h d.1 a.1)
]

confirmed_at-confirm :
    (now : ℕ) (user id : Ident) (c : Confirmations)
    → is_some (confirmed_at user id (confirm now user id c)) ≡ true
unfolding confirm confirmed_at
confirmed_at-confirm now user id c = elim (Option-cases (confirmed_at user id c)) [
  | inl e ↦
      let row : List (Ident × ℕ) = insert id now (or_else (lookup user c) []) in
      rw e (
        ground (
          arith,
          lookup-insert user user row c,
          lookup-insert id id now (or_else (lookup user c) []),
        ))
  | inr (t, e) ↦ rw e (ground (arith, e))
]

has_by-counted :
    (b : Bool) (id : Ident) (ns : List Notice)
    → has_by notice_id id (counted_notices b id ns) ≡ has_by notice_id id ns
has_by-counted true id ns = refl
has_by-counted false id [] = refl
has_by-counted false id (n ∷ ns) = ground (arith, has_by-counted false id ns)

lookup-nil : (k : Ident) → lookup {V = ℕ} k [] ≡ none
unfolding lookup
lookup-nil k = refl

pub confirm-first :
    (now : ℕ) (user id : Ident) (c : Confirmations)
    → confirmed_at user id c ≡ none
    → OneMore id c (confirm now user id c)
unfolding confirm confirmed_at
confirm-first now user id c e k =
    let absent : lookup id (or_else (lookup user c) []) ≡ none =
      elim (Option-cases (lookup user c)) [
        | inl q ↦ ground (arith, q, lookup-nil id)
        | inr (m, q) ↦ ground (arith, q, e)
      ] in
    rw e (confirmers-insert id k user now (or_else (lookup user c) []) c refl absent)

mark_notice-first :
    (now : ℕ) (id user : Ident) (s : Notices)
    → confirmed_at user id s.confirmations ≡ none
    → mark_notice now id user s ≡ record s {
      data_ = modify_by notice_id id count_up s.data_;
      confirmations = confirm now user id s.confirmations;
    }
unfolding mark_notice confirm
mark_notice-first now id user s e = rw e refl

mark_notice-again :
    (now : ℕ) (id user : Ident) (s : Notices)
    → is_some (confirmed_at user id s.confirmations) ≡ true
    → mark_notice now id user s ≡ s
unfolding mark_notice confirm
mark_notice-again now id user s e = rw e refl

mark_notice-IsCounted :
    (now : ℕ) (id user : Ident) (s : Notices)
    → Distinct notice_id s.data_
    → IsCounted s
    → IsCounted (mark_notice now id user s)
mark_notice-IsCounted now id user s d a =
    elim (Option-cases (confirmed_at user id s.confirmations)) [
      | inl e ↦ rw (mark_notice-first now id user s e) (
          Counts-marked id s.confirmations (confirm now user id s.confirmations) s.data_
            (confirm-first now user id s.confirmations e) d a)
      | inr (t, e) ↦ rw (mark_notice-again now id user s (rw e refl)) a
    ]

mark_notice-twice :
    (now later : ℕ) (id user : Ident) (s : Notices)
    → mark_notice later id user (mark_notice now id user s) ≡ mark_notice now id user s
unfolding mark_notice
mark_notice-twice now later id user s =
    mark_notice-again later id user (mark_notice now id user s)
      (confirmed_at-confirm now user id s.confirmations)

-- In a store whose notices have distinct identifiers and count who confirmed them, up to their
-- recipients, a confirmation keeps it so, and the same user confirming again changes nothing.
pub mark_confirmed-IsCounted :
    (now later : ℕ) (id user : Ident) (s : Notices)
    → Distinct notice_id s.data_
    → IsCounted s
    → IsCounted (mark_confirmed now id user s).0
      × ((mark_confirmed later id user (mark_confirmed now id user s).0).0
          ≡ (mark_confirmed now id user s).0)
unfolding mark_confirmed mark_notice
mark_confirmed-IsCounted now later id user s d a = elim (Bool-cases (has_by notice_id id s.data_)) [
  | inl e ↦
      let there : has_by notice_id id (mark_notice now id user s).data_ ≡ true =
        has_by-counted (is_some (confirmed_at user id s.confirmations)) id s.data_ ∙ e in
      rw e
        (mark_notice-IsCounted now id user s d a, rw there (mark_notice-twice now later id user s))
  | inr e ↦ rw e (a, rw e refl)
]
