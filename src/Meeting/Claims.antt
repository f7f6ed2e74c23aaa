-- ===== src/Meeting/Claims.antt =====
-- The operations of MemoryMeetingRepository (server/src/repositories/memory.ts) by which the worker
-- claims a meeting and moves it through the pipeline.
use Prim.Native.String.{String}
use hanmir_talk.Prelude.{
  ℕ, ◌+◌, Bool, true, false, ◌&&◌, Option, none, some, List, map, ltb, leb, if◌then◌else◌, filter,
  or_option, Ident, given, sort, first,
}
use hanmir_talk.Meeting.{
  Meeting, Row, Status, awaiting_ppt, summarizing, failed, is_awaiting_ppt, is_claimable, row_id,
  row_by_id, update_row, to_dto,
}

-- `r.claimedAt === null || r.claimedAt < staleBefore`
abbrev pub is_unclaimed : ℕ → Row → Bool
is_unclaimed stale r = elim r.claimed_at [ none ↦ true | some t ↦ ltb t stale ]

abbrev pub is_available : ℕ → Row → Bool
is_available stale r = is_claimable r.meeting.status && is_unclaimed stale r

abbrev pub claim_row : ℕ → Row → Row
claim_row now r = record r { claimed_at = some now; attempts = r.attempts + 1 }

-- The oldest available meeting.
unfoldable pub next_available : ℕ → List Row → Option Row
unfolding sort
next_available stale rows =
    first (
      sort (λ a b. leb a.meeting.created_at b.meeting.created_at)
        (filter (is_available stale) rows))

-- The meeting that was claimed, with its attempts.
unfoldable pub claim_next :
    (Ident → Option String) → ℕ → ℕ → List Row → List Row × Option (Meeting × ℕ)
unfolding to_dto
claim_next user_name now stale rows = elim (next_available stale rows) [
  | none ↦ (rows, none)
  | some r ↦ (update_row (row_id r) (claim_row now) rows, some (to_dto user_name r, r.attempts + 1))
]

unfoldable pub heartbeat : ℕ → Ident → List Row → List Row
heartbeat now id = update_row id (λ r. record r { claimed_at = some now })

abbrev pub advance_row : Status → Row → Row
advance_row next r = record r {
  meeting = record m { status = next; error = none };
  attempts = 0;
  claimed_at = none;
}
  where
    m : Meeting
    m = r.meeting

unfoldable pub advance : Ident → Status → List Row → List Row
advance id next = update_row id (advance_row next)

-- An empty error text leaves the error as it was.
abbrev pub release_row : Option String → Row → Row
release_row error r = record r {
  claimed_at = none;
  meeting = record m { error = or_option (given error) m.error };
}
  where
    m : Meeting
    m = r.meeting

unfoldable pub release_claim : Ident → Option String → List Row → List Row
release_claim id error = update_row id (release_row error)

abbrev pub fail_row : String → Row → Row
fail_row error r = record r {
  claimed_at = none;
  meeting = record m { status = failed; error = some error };
}
  where
    m : Meeting
    m = r.meeting

unfoldable pub mark_failed : Ident → String → List Row → List Row
mark_failed id error = update_row id (fail_row error)

abbrev pub await_row : ℕ → Row → Row
await_row now r = record r {
  meeting = record m { status = awaiting_ppt; ppt_requested_at = some now; error = none };
  ppt_requested_at = some now;
  attempts = 0;
  claimed_at = none;
}
  where
    m : Meeting
    m = r.meeting

unfoldable pub mark_awaiting_ppt : ℕ → Ident → List Row → List Row
mark_awaiting_ppt now id = update_row id (await_row now)

unfoldable pub resume_from_ppt : Ident → List Row → List Row × Bool
resume_from_ppt id rows = elim (row_by_id id rows) [
  | none ↦ (rows, false)
  | some r ↦
      if is_awaiting_ppt r.meeting.status
      then (update_row id (advance_row summarizing) rows, true)
      else (rows, false)
]

unfoldable pub list_ppt_timed_out : (Ident → Option String) → ℕ → List Row → List Meeting
unfolding to_dto
list_ppt_timed_out user_name cutoff rows = map (to_dto user_name) (filter timed_out rows)
  where
    timed_out : Row → Bool
    timed_out r =
        is_awaiting_ppt r.meeting.status
        && elim r.ppt_requested_at [ none ↦ false | some t ↦ ltb t cutoff ]
