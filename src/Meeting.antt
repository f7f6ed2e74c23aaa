-- ===== src/Meeting.antt =====
-- The rows of MemoryMeetingRepository (server/src/repositories/memory.ts): a meeting, its recorded
-- segments and what the pipeline made of them. Times are milliseconds since the epoch.
-- `lastSeq` starts at -1 and never falls, so the model keeps `next_seq`, which is lastSeq + 1.
pub mod Recording
pub mod Claims
pub mod Artifacts
pub mod Chunks
pub mod Invariant
pub mod History
pub mod Claiming
use Prim.Native.String.{String}
use hanmir_talk.Prelude.{
  ℕ, zero, suc, ◌+◌, ◌-◌, ◌*◌, ◌≤◌, ◌<◌, ◌≡◌, refl, sym, ap, ◌∙◌, ◌≢◌, ◌⊎◌, inl, inr, Bool, true,
  false, not, ◌&&◌, ◌||◌, Option, none, some, List, [], ◌∷◌, ◌++◌, map, arith, ltb, leb, ◌==◌,
  if◌then◌else◌, Bool-cases, Option-cases, length, take, drop, All, find, any, filter, modify,
  remove, count, find_by, has_by, modify_by, remove_by, Fresh, Distinct, is_some, or_else,
  or_option, option_map, option_bind, Ident, sort, first, last, sum_of, max, min,
}

-- MeetingStatus
pub data Status : Type 0 where
  recording pending transcribing awaiting_ppt summarizing generating_docs : Status
  completed failed cancelled : Status

pub record Meeting : Type 0 where
  pub id : Ident
  pub room_id : Option Ident
  pub title : String
  pub started_by : Ident
  pub started_by_name : Option String
  pub started_at : ℕ
  pub ended_at : Option ℕ
  pub status : Status
  pub duration_ms : ℕ
  pub current_seg_index : ℕ
  pub ppt_requested_at : Option ℕ
  pub error : Option String
  pub created_at : ℕ

-- The path text `meetings/<id>/seg-<index>.webm`, by its two parts.
pub record SegmentPath : Type 0 where
  pub meeting : Ident
  pub seg : ℕ

pub record Segment : Type 0 where
  pub seg_index : ℕ
  pub file_path : SegmentPath
  pub bytes : ℕ
  pub duration_ms : ℕ
  pub next_seq : ℕ

pub data ImageStatus : Type 0 where
  waiting done unreadable no_images : ImageStatus

pub record Ppt : Type 0 where
  pub file_path : String
  pub text_content : String
  pub image_summary : Option String
  pub image_status : ImageStatus

-- `docxPaths` by the two keys that the pipeline writes.
pub record Minutes : Type 0 where
  pub content_md : String
  pub structured : Option String
  pub minutes_path : Option String
  pub transcript_path : Option String

pub record Row : Type 0 where
  pub meeting : Meeting
  pub segments : List Segment
  pub transcripts : List (ℕ × String)
  pub minutes : Option Minutes
  pub ppt : Option Ppt
  pub audio_path : Option Ident
  pub last_activity_at : ℕ
  pub attempts : ℕ
  pub claimed_at : Option ℕ
  pub ppt_requested_at : Option ℕ
  pub retention_until : Option ℕ

abbrev pub is_recording : Status → Bool
is_recording recording = true
is_recording _ = false

abbrev pub is_awaiting_ppt : Status → Bool
is_awaiting_ppt awaiting_ppt = true
is_awaiting_ppt _ = false

-- MEETING_CLAIMABLE
abbrev pub is_claimable : Status → Bool
is_claimable pending = true
is_claimable transcribing = true
is_claimable summarizing = true
is_claimable generating_docs = true
is_claimable _ = false

-- MEETING_ACTIVE
abbrev pub is_active : Status → Bool
is_active s = is_recording s || is_claimable s || is_awaiting_ppt s

abbrev pub row_id : Row → Ident
row_id r = r.meeting.id

-- rowById
abbrev pub row_by_id : Ident → List Row → Option Row
row_by_id = find_by row_id

-- A change through the object that rowById returned.
abbrev pub update_row : Ident → (Row → Row) → List Row → List Row
update_row = modify_by row_id

abbrev pub with_status : Status → Row → Row
with_status s r = record r { meeting = record m { status = s } }
  where
    m : Meeting
    m = r.meeting

-- The current segment of the DTO: the index of the last segment, or 0.
abbrev pub current_seg : List Segment → ℕ
current_seg segs = elim (last segs) [ none ↦ 0 | some s ↦ s.seg_index ]

-- toDto; `user_name` is the accessor that createMemoryRepositories wires.
unfoldable pub to_dto : (Ident → Option String) → Row → Meeting
to_dto user_name r = record m {
  started_by_name = user_name m.started_by;
  current_seg_index = current_seg r.segments;
}
  where
    m : Meeting
    m = r.meeting
