-- ===== src/Tests/Meetings.antt =====
-- Meetings: a recording of two segments, its upload, and claims by the worker.
use Prim.Native.String.{String}
use hanmir_talk.Prelude.{
  ℕ, ◌+◌, ◌≡◌, refl, ◌≢◌, false, Option, none, some, List, [], ◌∷◌, arith, Ident, sort,
}
use hanmir_talk.Prelude.{insert_sorted, count-le-length}
use hanmir_talk.Meeting.{to_dto, Meeting, Row, Segment, pending, recording, awaiting_ppt, Status}
use hanmir_talk.Meeting.Recording.{records_in, Chunk, create, create_segment, record_chunk}
use hanmir_talk.Meeting.Claims.{claim_row, next_available, claim_next, resume_from_ppt}
use hanmir_talk.Meeting.Chunks.{upload, Consecutive, extended, segment_at, upload_all}
use hanmir_talk.Meeting.Invariant.{Inv}
use hanmir_talk.Meeting.History.{Step, Reach, Reach-Inv}
use hanmir_talk.Meeting.Claiming.{
  ClaimsOldest, claim_next-ClaimsOldest, claim_next-exclusive, resume_from_ppt-once,
}

abbrev no_name : Ident → Option String
no_name id = none

abbrev meeting_of : Status → Meeting
meeting_of status = record {
  id = 7;
  room_id = some 3;
  title = "Weekly";
  started_by = 2;
  started_by_name = none;
  started_at = 100;
  ended_at = none;
  status = status;
  duration_ms = 0;
  current_seg_index = 0;
  ppt_requested_at = none;
  error = none;
  created_at = 100;
}

abbrev segment : Segment
segment = record {
  seg_index = 0;
  file_path = record { meeting = 7; seg = 0 };
  bytes = 0;
  duration_ms = 0;
  next_seq = 0;
}

abbrev row_of : Status → Row
row_of status = record {
  meeting = meeting_of status;
  segments = segment ∷ [];
  transcripts = [];
  minutes = none;
  ppt = none;
  audio_path = none;
  last_activity_at = 100;
  attempts = 0;
  claimed_at = none;
  ppt_requested_at = none;
  retention_until = none;
}

abbrev chunk : ℕ → ℕ × Chunk
chunk seq = (200 + seq, record { seq = seq; bytes = 10; duration_ms = 1000 })

-- The second chunk comes too early, the first one twice.
abbrev uploads : List (ℕ × Chunk)
uploads = chunk 1 ∷ chunk 0 ∷ chunk 0 ∷ chunk 1 ∷ []

upload_all_example :
    Consecutive 0 (upload 7 0 uploads (row_of recording ∷ [])).1
    × (segment_at 7 0 (upload 7 0 uploads (row_of recording ∷ [])).0
        ≡ some (extended segment (upload 7 0 uploads (row_of recording ∷ [])).1))
upload_all_example = upload_all 7 0 uploads (row_of recording ∷ []) segment refl

Reach-Inv_example :
    Inv
      (record_chunk 200 7 0
        (chunk 0).1
        (create_segment 7 (create no_name 7 100 3 "Weekly" 2 []).0).0).0
Reach-Inv_example =
    Reach-Inv
      (Reach.next
        (Reach.next (Reach.next Reach.here (Step.creates no_name 7 100 3 "Weekly" 2))
          (Step.creates_segment 7))
        (Step.records 200 7 0 (chunk 0).1))
      (((tt, tt), tt), tt)

row-Inv : (status : Status) → Inv (row_of status ∷ [])
row-Inv status = record {
  sound = (record { tallied = refl; numbered = (refl, refl, refl, tt) }, tt);
  distinct = (tt, tt);
  exclusive = λ room. count-le-length (records_in room) (row_of status ∷ []);
}

claim_next-ClaimsOldest_example :
    ClaimsOldest 500 400 (row_of pending ∷ []) (claim_next no_name 500 400 (row_of pending ∷ []))
claim_next-ClaimsOldest_example =
    claim_next-ClaimsOldest no_name 500 400 (row_of pending ∷ []) (row-Inv pending)

resume_from_ppt-once_example :
    resume_from_ppt 7 (resume_from_ppt 7 (row_of awaiting_ppt ∷ [])).0
    ≡ ((resume_from_ppt 7 (row_of awaiting_ppt ∷ [])).0, false)
unfolding resume_from_ppt
resume_from_ppt-once_example =
    resume_from_ppt-once 7 (row_of awaiting_ppt ∷ [])
      (resume_from_ppt 7 (row_of awaiting_ppt ∷ [])).0 refl

-- A second meeting, of another room, that began later.
abbrev younger : Row
younger = record r {
  meeting = record (meeting_of pending) { id = 8; room_id = some 4; created_at = 300 };
  segments = [];
}
  where
    r : Row
    r = row_of pending

abbrev queue : List Row
queue = row_of pending ∷ younger ∷ []

queue-Inv : Inv queue
queue-Inv = record {
  sound = (
    record { tallied = refl; numbered = (refl, refl, refl, tt) },
    (record { tallied = refl; numbered = tt }, tt),
  );
  distinct = (((λ e. absurd (ground arith)), tt), (tt, tt));
  exclusive = λ room. ground arith;
}

claim_next-exclusive_example : (to_dto no_name younger).id ≢ (to_dto no_name (row_of pending)).id
unfolding claim_next next_available to_dto sort insert_sorted
claim_next-exclusive_example =
    claim_next-exclusive no_name 500 600 400 450 queue
      (claim_row 500 (row_of pending) ∷ younger ∷ [])
      (claim_row 500 (row_of pending) ∷ claim_row 600 younger ∷ [])
      (to_dto no_name (row_of pending)) (to_dto no_name younger) 1 1 queue-Inv refl (omega arith)
      refl
