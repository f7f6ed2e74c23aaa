-- ===== src/Tests/Pipelines.antt =====
-- The pipeline and the worker: a meeting of one segment, whose transcript, minutes and documents
-- the sample providers give, and a transcriber that throws.
use Prim.Native.String.{String}
use hanmir_talk.Prelude.{
  ◌+◌, ◌*◌, ◌<◌, ◌≡◌, refl, ◌≢◌, inl, false, none, some, [], ◌∷◌, map, arith, All, option_map,
  lookup, insert,
}
use hanmir_talk.User.{team_member}
use hanmir_talk.Meeting.{
  Meeting, Row, Segment, Status, pending, awaiting_ppt, summarizing, completed, row_by_id,
}
use hanmir_talk.Meeting.Claims.{next_available}
use hanmir_talk.File.{FileText}
use hanmir_talk.Pipeline.{
  World, Platform, Reply, ok, throws, ◌>>=◌, if_some, pure, throw, reading, call, catching,
  changing, on_rows, post_meeting_system_message,
}
use hanmir_talk.Pipeline.Machine.{stage_of, Moves, total, IsBounded}
use hanmir_talk.Pipeline.Stamps.{render_stamp, shift_stamps, shift_stamps-render_stamp}
use hanmir_talk.Pipeline.Worker.{poll_meetings_once, claim_and_work, pipeline_fuel}
use hanmir_talk.Pipeline.Stages.{run_meeting_pipeline, rerun}
use hanmir_talk.Pipeline.Ending.{run_meeting_pipeline-ends}
use hanmir_talk.Pipeline.Refinement.{
  poll_meetings_once-Moves, claim_and_work-total, polls, polls-IsBounded, polls-done,
}
use hanmir_talk.Tests.{sample_text, sample_user}

abbrev file_text : FileText
file_text = record {
  restore_name = λ s. s;
  derive_kind = λ name mime. "doc";
  format_bytes = λ n. "1 KB";
  stamp = λ t. "01.02 03:04";
  upper_id = λ id. "P";
}

-- The clock is one day after the epoch and moves a second with every call.
abbrev platform : Reply String → Platform
platform transcript = record {
  clock = λ t. 86400000 + 1000 * t;
  draw = λ t. 1000 + t;
  retention_days = 90;
  ppt_wait_hours = 2;
  transcriber = some (λ t input. transcript);
  minutes_writer = some (λ t merged m context. ok "# Minutes");
  image_reader = none;
  slide_images = λ t path. ok [];
  minutes_docx = λ t m structured text. ok (1 ∷ 2 ∷ []);
  transcript_docx = λ t m text. ok (3 ∷ []);
  write_file = λ t path bytes. ok tt;
  docx_path = λ t name. "2026/01/file.docx";
  parse_minutes = λ text. none;
  is_minutes_v2 = λ text. false;
  date_label = λ t. "2026-01-02";
  safe_title = λ title. title;
  tail = λ text. text;
  wait_notice = λ hours. "2";
  text = sample_text;
  file_text = file_text;
}

abbrev segment : Segment
segment = record {
  seg_index = 0;
  file_path = record { meeting = 7; seg = 0 };
  bytes = 10;
  duration_ms = 5000;
  next_seq = 1;
}

abbrev meeting_at : Status → Meeting
meeting_at status = record {
  id = 7;
  room_id = some 3;
  title = "Weekly";
  started_by = 2;
  started_by_name = none;
  started_at = 100;
  ended_at = some 200;
  status = status;
  duration_ms = 5000;
  current_seg_index = 0;
  ppt_requested_at = none;
  error = none;
  created_at = 100;
}

abbrev row_at : Status → Row
row_at status = record {
  meeting = meeting_at status;
  segments = segment ∷ [];
  transcripts = [];
  minutes = none;
  ppt = none;
  audio_path = some 7;
  last_activity_at = 100;
  attempts = 0;
  claimed_at = none;
  ppt_requested_at = none;
  retention_until = none;
}

abbrev world_at : Status → World
world_at status = record {
  rows = row_at status ∷ [];
  users = sample_user 2 team_member ∷ [];
  messages = record { rooms = []; last_read = []; pinned = [] };
  files = record { folders = []; folder_passwords = []; files = []; storage = [] };
  ticks = 0;
  events = [];
}

abbrev speaking : Platform
speaking = platform (ok "[00:05] hello")

abbrev failing : Platform
failing = platform (throws "timeout")

-- A poll takes a pending meeting up to the wait for slides.
poll_pending :
    map stage_of (poll_meetings_once speaking (world_at pending)).0.rows
    ≡ record { id = 7; status = awaiting_ppt; attempts = 0 } ∷ []
unfolding poll_meetings_once ◌>>=◌ if_some pure throw reading call catching changing on_rows
    next_available rerun lookup insert post_meeting_system_message
poll_pending = refl

poll_meetings_once-Moves_example :
    Moves
      (map stage_of (row_at pending ∷ []))
      (map stage_of (poll_meetings_once failing (world_at pending)).0.rows)
poll_meetings_once-Moves_example = poll_meetings_once-Moves failing (world_at pending) (tt, tt)

polls-IsBounded_example : All IsBounded (map stage_of (polls failing 5 (world_at pending)).rows)
polls-IsBounded_example =
    polls-IsBounded failing 5 (world_at pending) (tt, tt) (inl (omega arith), tt)

polls-done_example :
    option_map stage_of (row_by_id 7 (polls speaking 2 (world_at completed)).rows)
    ≡ some (stage_of (row_at completed))
polls-done_example =
    polls-done speaking 2 (world_at completed) 7 (row_at completed) (tt, tt) refl refl

run_meeting_pipeline-ends_example :
    (run_meeting_pipeline speaking pipeline_fuel (meeting_at pending) (world_at pending)).1
    ≢ ok false
run_meeting_pipeline-ends_example =
    run_meeting_pipeline-ends speaking (meeting_at pending) (world_at pending)

claim_and_work-total_example :
    total (map stage_of (claim_and_work failing 86400000 (world_at summarizing)).0.rows)
    < total (map stage_of (row_at summarizing ∷ []))
unfolding next_available
claim_and_work-total_example =
    claim_and_work-total failing 86400000 (world_at summarizing) (row_at summarizing) (tt, tt) refl

shift_stamps-render_stamp_example :
    shift_stamps 3600 (render_stamp 65 " hello")
    ≡ render_stamp (3600 + 65) (shift_stamps 3600 " hello")
shift_stamps-render_stamp_example = shift_stamps-render_stamp 3600 65 " hello" (omega arith)

shifted : shift_stamps 3600 "[01:05] hello [00:00]" ≡ "[1:01:05] hello [1:00:00]"
unfolding shift_stamps
shifted = refl
