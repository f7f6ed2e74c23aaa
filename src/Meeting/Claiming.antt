-- ===== src/Meeting/Claiming.antt =====
-- Which meeting the worker claims (claimNext, server/src/repositories/memory.ts), and that no other
-- claim takes it meanwhile.
use Prim.Native.String.{String}
use hanmir_talk.Prelude.{
  ℕ, ◌+◌, ◌≤◌, ◌≡◌, refl, ap, ◌≢◌, inl, inr, Bool, true, false, Option, none, some, List, [], arith,
  Option-cases, All, filter, Ident, Distinct,
}
use hanmir_talk.Prelude.{
  All-filter, All-filter_of, All-found, first-sort_All, first-sort_least, first-sort-none,
  find_by-modify_by,
}
use hanmir_talk.Meeting.{Meeting, Row, row_id, row_by_id, to_dto, summarizing}
use hanmir_talk.Meeting.Claims.{
  is_available, claim_row, next_available, claim_next, resume_from_ppt, advance_row,
}
use hanmir_talk.Meeting.Invariant.{Inv}
use hanmir_talk.Meeting.History.{Step, Step-Inv}

module _ (stale : ℕ) (rows : List Row) where
  pub next_available-found :
      (r : Row)
      → Distinct row_id rows
      → next_available stale rows ≡ some r
      → (is_available stale r ≡ true) × (row_by_id (row_id r) rows ≡ some r)
  unfolding next_available
  next_available-found r v e = (
    first-sort_All _ (λ b. is_available stale b ≡ true) _ r (All-filter (is_available stale) rows)
        e,
    first-sort_All _ (λ b. row_by_id (row_id b) rows ≡ some b) _ r
        (All-filter_of _ (is_available stale) rows (All-found row_id rows v)) e,
  )

  next_available-oldest :
      (r : Row)
      → next_available stale rows ≡ some r
      → All (λ b. r.meeting.created_at ≤ b.meeting.created_at) (filter (is_available stale) rows)
  unfolding next_available
  next_available-oldest r e = first-sort_least (λ (b : Row). b.meeting.created_at) _ r e

  next_available-none : next_available stale rows ≡ none → filter (is_available stale) rows ≡ []
  unfolding next_available
  next_available-none e = first-sort-none _ _ e

-- What a claim answers and does.
abbrev pub ClaimsOldest : ℕ → ℕ → List Row → List Row × Option (Meeting × ℕ) → Type 0
ClaimsOldest now stale rows (rows', none) = (rows' ≡ rows) × (filter (is_available stale) rows ≡ [])
ClaimsOldest now stale rows (rows', some (m, k)) =
    (r : Row) × (row_by_id m.id rows ≡ some r)
    × (is_available stale r ≡ true)
    × All (λ b. r.meeting.created_at ≤ b.meeting.created_at) (filter (is_available stale) rows)
    × (k ≡ r.attempts + 1)
    × (row_by_id m.id rows' ≡ some (record r { claimed_at = some now; attempts = r.attempts + 1 }))
    × ((j : Ident) → j ≢ m.id → row_by_id j rows' ≡ row_by_id j rows)

-- In a state that the invariant holds of: a claim takes an available meeting that no other available
-- one is older than, stamps it with the time, counts the attempt, and changes nothing else of it or
-- of another meeting; there is no claim only if no meeting is available.
pub claim_next-ClaimsOldest :
    (u : Ident → Option String) (now stale : ℕ) (rows : List Row)
    → Inv rows
    → ClaimsOldest now stale rows (claim_next u now stale rows)
unfolding claim_next to_dto
claim_next-ClaimsOldest u now stale rows v = elim (Option-cases (next_available stale rows)) [
  | inl e ↦ rw (e, claim_next) (refl, next_available-none stale rows e)
  | inr (r, e) ↦
      let (ok, found) = next_available-found stale rows r v.distinct e in
      rw (e, claim_next)
        (
          r,
          found,
          ok,
          next_available-oldest stale rows r e,
          refl,
          ground (
            arith,
            find_by-modify_by row_id (row_id r) (row_id r) (claim_row now) rows (λ a. refl),
            found,
          ),
          λ j n.
              ground
                (arith, find_by-modify_by row_id j (row_id r) (claim_row now) rows (λ a. refl), n),
        )
]

-- The row of a claim that succeeded.
claimed_row :
    (u : Ident → Option String) (now stale : ℕ) (rows rows' : List Row) (m : Meeting) (k : ℕ)
    → Inv rows
    → claim_next u now stale rows ≡ (rows', some (m, k))
    → ClaimsOldest now stale rows (rows', some (m, k))
claimed_row u now stale rows rows' m k v e = rw e at (claim_next-ClaimsOldest u now stale rows v)

-- After a claim, in a state that the invariant holds of, a later claim to which the first is not
-- stale returns another meeting.
pub claim_next-exclusive :
    (u : Ident → Option String) (now later stale stale' : ℕ) (rows rows' rows'' : List Row)
    (m m' : Meeting) (k k' : ℕ)
    → Inv rows
    → claim_next u now stale rows ≡ (rows', some (m, k))
    → stale' ≤ now
    → claim_next u later stale' rows' ≡ (rows'', some (m', k'))
    → m'.id ≢ m.id
claim_next-exclusive u now later stale stale' rows rows' rows'' m m' k k' v e le e' same =
    let (r, found, ok, _, _, after, _) = claimed_row u now stale rows rows' m k v e in
    let w : Inv rows' =
      rw (ap (λ (t : List Row × Option (Meeting × ℕ)). t.0) e) at
        (Step-Inv (Step.claims u now stale) tt v) in
    let (r', found', ok', _, _, _, _) = claimed_row u later stale' rows' rows'' m' k' w e' in
    let p : row_by_id m.id rows' ≡ some r' = rw same at found' in ground arith

-- After a resume that succeeded, a second one of the same meeting fails and changes nothing.
pub resume_from_ppt-once :
    (id : Ident) (rows rows' : List Row)
    → resume_from_ppt id rows ≡ (rows', true)
    → resume_from_ppt id rows' ≡ (rows', false)
unfolding resume_from_ppt
resume_from_ppt-once id rows rows' e = elim (Option-cases (row_by_id id rows)) [
  | inl n ↦ absurd (ground arith)
  | inr (r, n) ↦ ground (
    arith,
    find_by-modify_by row_id id id (advance_row summarizing) rows (λ a. refl),
    ap (λ (t : List Row × Bool). row_by_id id t.0) e,
  )
]
