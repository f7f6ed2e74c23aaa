-- ===== src/Meeting/Recording.antt =====
-- Recording: the operations of MemoryMeetingRepository (server/src/repositories/memory.ts) that
-- open a meeting, append its chunks and end it. `id` is the identifier that newId draws, `now` the
-- clock.
use Prim.Native.String.{String}
use hanmir_talk.Prelude.{
  ℕ, ◌+◌, Bool, true, false, ◌&&◌, ◌||◌, Option, none, some, List, [], ◌∷◌, ◌++◌, map, ltb, leb,
  ◌==◌, if◌then◌else◌, find, any, filter, find_by, modify_by, or_else, or_option, option_map,
  option_bind, Ident, sort, first, last,
}
use hanmir_talk.Meeting.{
  Meeting, Segment, Row, recording, pending, cancelled, is_recording, is_awaiting_ppt, is_active,
  row_id, row_by_id, update_row, to_dto,
}

-- The result of create: the new meeting, or the error whose code is 23505.
pub data Created : Type 0 where
  created : Meeting → Created
  duplicate_key : Created

abbrev pub new_meeting : Ident → ℕ → Ident → String → Ident → Meeting
new_meeting id now room title starter = record {
  id = id;
  room_id = some room;
  title = title;
  started_by = starter;
  started_by_name = none;
  started_at = now;
  ended_at = none;
  status = recording;
  duration_ms = 0;
  current_seg_index = 0;
  ppt_requested_at = none;
  error = none;
  created_at = now;
}

abbrev pub new_row : Ident → ℕ → Ident → String → Ident → Row
new_row id now room title starter = record {
  meeting = new_meeting id now room title starter;
  segments = [];
  transcripts = [];
  minutes = none;
  ppt = none;
  audio_path = some id;
  last_activity_at = now;
  attempts = 0;
  claimed_at = none;
  ppt_requested_at = none;
  retention_until = none;
}

-- `r.meeting.roomId === roomId`
abbrev pub in_room : Ident → Row → Bool
in_room room r = elim r.meeting.room_id [ none ↦ false | some q ↦ q == room ]

-- `r.meeting.roomId === roomId && r.meeting.status === "recording"`
abbrev pub records_in : Ident → Row → Bool
records_in room r = in_room room r && is_recording r.meeting.status

unfoldable pub create :
    (Ident → Option String) → Ident → ℕ → Ident → String → Ident → List Row → List Row × Created
unfolding to_dto
create user_name id now room title starter rows =
    if any (records_in room) rows
    then (rows, duplicate_key)
    else (rows ++ row ∷ [], created (to_dto user_name row))
  where
    row : Row
    row = new_row id now room title starter

unfoldable pub find_by_id : (Ident → Option String) → Ident → List Row → Option Meeting
unfolding to_dto
find_by_id user_name id rows = option_map (to_dto user_name) (row_by_id id rows)

-- The recording meeting of the room, else the newest active one.
unfoldable pub find_active_by_room : (Ident → Option String) → Ident → List Row → Option Meeting
unfolding to_dto sort
find_active_by_room user_name room rows = option_map (to_dto user_name) (
    or_option (find (λ r. is_recording r.meeting.status) candidates)
      (first (sort (λ a b. leb b.meeting.created_at a.meeting.created_at) candidates)))
  where
    candidates : List Row
    candidates = filter (λ r. in_room room r && is_active r.meeting.status) rows

abbrev pub next_seg_index : List Segment → ℕ
next_seg_index segs = elim (last segs) [ none ↦ 0 | some s ↦ s.seg_index + 1 ]

abbrev pub new_segment : Ident → ℕ → Segment
new_segment meeting index = record {
  seg_index = index;
  file_path = record { meeting = meeting; seg = index };
  bytes = 0;
  duration_ms = 0;
  next_seq = 0;
}

abbrev pub push_segment : Row → Row
push_segment r = record r {
  segments = r.segments ++ new_segment (row_id r) (next_seg_index r.segments) ∷ [];
}

-- `none` is the error "meeting_not_found".
unfoldable pub create_segment : Ident → List Row → List Row × Option ℕ
create_segment id rows = elim (row_by_id id rows) [
  | none ↦ (rows, none)
  | some r ↦ (update_row id push_segment rows, some (next_seg_index r.segments))
]

unfoldable pub list_segments : Ident → List Row → List Segment
list_segments id rows = elim (row_by_id id rows) [ none ↦ [] | some r ↦ r.segments ]

pub record Chunk : Type 0 where
  pub seq : ℕ
  pub bytes : ℕ
  pub duration_ms : ℕ

pub data ChunkResult : Type 0 where
  accepted duplicate gap segment_not_found : ChunkResult

abbrev pub seg_by_index : ℕ → List Segment → Option Segment
seg_by_index = find_by (λ s. s.seg_index)

-- The answer of recordChunk for a segment that was found.
abbrev pub chunk_result : Segment → Chunk → ChunkResult
chunk_result s c =
    if ltb c.seq s.next_seq then duplicate else if ltb s.next_seq c.seq then gap else accepted

abbrev pub accept_chunk : Chunk → Segment → Segment
accept_chunk c s = record s {
  next_seq = c.seq + 1;
  bytes = s.bytes + c.bytes;
  duration_ms = s.duration_ms + c.duration_ms;
}

abbrev pub accept_row : ℕ → ℕ → Chunk → Row → Row
accept_row now index c r = record r {
  segments = modify_by (λ s. s.seg_index) index (accept_chunk c) r.segments;
  meeting = record m { duration_ms = m.duration_ms + c.duration_ms };
  last_activity_at = now;
}
  where
    m : Meeting
    m = r.meeting

record_in : ℕ → Ident → ℕ → Chunk → List Row → ChunkResult → List Row × ChunkResult
record_in now id index c rows accepted = (update_row id (accept_row now index c) rows, accepted)
record_in now id index c rows other = (rows, other)

unfoldable pub record_chunk : ℕ → Ident → ℕ → Chunk → List Row → List Row × ChunkResult
unfolding record_in
record_chunk now id index c rows =
    elim (option_bind (λ r. seg_by_index index r.segments) (row_by_id id rows)) [
      | none ↦ (rows, segment_not_found)
      | some s ↦ record_in now id index c rows (chunk_result s c)
    ]

abbrev pub finish_row : ℕ → ℕ → Row → Row
finish_row ended retention r = record r {
  meeting = record m { status = pending; ended_at = some ended };
  retention_until = some retention;
}
  where
    m : Meeting
    m = r.meeting

unfoldable pub finish :
    (Ident → Option String) → Ident → ℕ → ℕ → List Row → List Row × Option Meeting
unfolding to_dto
finish user_name id ended retention rows = elim (row_by_id id rows) [
  | none ↦ (rows, none)
  | some r ↦
      if is_recording r.meeting.status
      then (
        update_row id (finish_row ended retention) rows,
        some (to_dto user_name (finish_row ended retention r)),
      )
      else (rows, none)
]

abbrev pub cancel_row : ℕ → Row → Row
cancel_row now r = record r {
  meeting = record m { status = cancelled; ended_at = some (or_else m.ended_at now) };
}
  where
    m : Meeting
    m = r.meeting

unfoldable pub cancel : ℕ → Ident → List Row → List Row × Bool
cancel now id rows = elim (row_by_id id rows) [
  | none ↦ (rows, false)
  | some r ↦
      if is_recording r.meeting.status || is_awaiting_ppt r.meeting.status
      then (update_row id (cancel_row now) rows, true)
      else (rows, false)
]

unfoldable pub list_stale_recordings : (Ident → Option String) → ℕ → List Row → List Meeting
unfolding to_dto
list_stale_recordings user_name before rows =
    map (to_dto user_name)
      (filter (λ r. is_recording r.meeting.status && ltb r.last_activity_at before) rows)
