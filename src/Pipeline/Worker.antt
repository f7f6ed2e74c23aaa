-- ===== src/Pipeline/Worker.antt =====
-- The worker (server/src/meetings/worker.ts) and the end of a recording (finish.ts). One poll ends
-- stale recordings, resumes the meetings that waited too long for slides, then claims one meeting
-- and runs it.
use Prim.Native.String.{String, ◌++◌ as str_append}
use hanmir_talk.Prelude.{
  ℕ, ◌+◌, ◌-◌, ◌*◌, Bool, Option, none, some, List, [], ◌∷◌, ltb, ◌==◌, if◌then◌else◌, is_some,
  or_else, Ident, sum_of,
}
use hanmir_talk.Meeting.{Meeting, Segment, pending, summarizing, failed}
use hanmir_talk.Meeting.Recording.{list_segments, find_by_id, finish, list_stale_recordings}
use hanmir_talk.Meeting.Claims.{
  claim_next, mark_failed, release_claim, resume_from_ppt, list_ppt_timed_out,
}
use hanmir_talk.Meeting.Artifacts.{list_expired_audio, clear_audio_path}
use hanmir_talk.Pipeline.{
  Platform, Reply, ok, Step, Done, ◌>>=◌, ◌>>◌, pure, reading, call, catching, on_rows, now,
  name_of, emit_update, notify_room,
}
use hanmir_talk.Pipeline.Stages.{run_meeting_pipeline}

abbrev day_length : ℕ
day_length = 24 * 60 * 60 * 1000

-- `repos.meetings.finish(id, now, retentionUntil)`, whether it ended the recording.
unfoldable pub finishes_recording : Ident → ℕ → ℕ → Step Bool
unfolding finish
finishes_recording id at retention = λ w. (
  record w { rows = (finish (name_of w.users) id at retention w.rows).0 },
  ok (is_some (finish (name_of w.users) id at retention w.rows).1),
)

abbrev empty_notice : String
empty_notice = "회의 녹음에 오디오가 기록되지 않아 회의록을 만들 수 없습니다."

-- What finalizeRecording does after the recording has ended, by the bytes of its segments.
unfoldable pub settle_recording : Platform → Meeting → String → ℕ → Step Done
unfolding mark_failed
settle_recording p m notice bytes =
    if bytes == 0
    then (do
      on_rows (mark_failed m.id "empty_recording")
      notify_room p m empty_notice
      emit_update m failed none (some "empty_recording"))
    else (do notify_room p m notice; emit_update m pending none none)

unfoldable pub finalize_recording : Platform → Meeting → String → Step (Option Meeting)
unfolding finishes_recording settle_recording list_segments find_by_id
finalize_recording p m notice = do
  at ← now p
  finished ← finishes_recording m.id at (at + p.retention_days * day_length)
  if finished
      then (do
        bytes ← reading (λ w. sum_of (λ (s : Segment). s.bytes) (list_segments m.id w.rows))
        settle_recording p m notice bytes
        reading (λ w. find_by_id (name_of w.users) m.id w.rows))
      else pure none

-- `for (const x of xs) try { f(x) } catch { log }`
unfoldable pub for_each : (Meeting → Step Done) → List Meeting → Step Done
for_each f [] = pure tt
for_each f (m ∷ ms) = catching (f m) (λ _. pure tt) >> for_each f ms

abbrev stale_notice : String
stale_notice = "녹음이 30분 이상 이어지지 않아 회의가 자동 종료되었습니다. 회의록 생성 중..."

abbrev timeout_notice : String
timeout_notice = "PPT 업로드 대기 시간이 지나 PPT 없이 회의록 생성을 계속합니다."

abbrev pub finish_stale : Platform → Meeting → Step Done
finish_stale p m = finalize_recording p m stale_notice >> pure tt

-- `repos.meetings.resumeFromPpt(id)`
unfoldable pub resumes_meeting : Ident → Step Bool
unfolding resume_from_ppt
resumes_meeting id =
    λ w. (record w { rows = (resume_from_ppt id w.rows).0 }, ok (resume_from_ppt id w.rows).1)

unfoldable pub resume_timed_out : Platform → Meeting → Step Done
unfolding resumes_meeting
resume_timed_out p m = do
  resumed ← resumes_meeting m.id
  if resumed
      then (do notify_room p m timeout_notice; emit_update m summarizing none none)
      else pure tt

-- `repos.meetings.claimNext(staleBefore)`
unfoldable pub claims_next : ℕ → ℕ → Step (Option (Meeting × ℕ))
unfolding claim_next
claims_next at stale = λ w. (
  record w { rows = (claim_next (name_of w.users) at stale w.rows).0 },
  ok (claim_next (name_of w.users) at stale w.rows).1,
)

abbrev pub max_stage_attempts : ℕ
max_stage_attempts = 3

abbrev failure_notice : Meeting → String
failure_notice m = str_append "회의록 생성에 실패했습니다: " (str_append m.title " — 관리자에게 문의해 주세요.")

-- A stage that failed too often fails the meeting.
unfoldable pub give_up : Platform → Meeting → Step Done
unfolding mark_failed
give_up p m = do
  on_rows (mark_failed m.id (or_else m.error "unknown_error"))
  notify_room p m (failure_notice m)
  emit_update m failed none (some (or_else m.error "unknown_error"))

-- The turns that the loop of the pipeline is given.
abbrev pub pipeline_fuel : ℕ
pipeline_fuel = 3

-- A throw gives the claim back.
unfoldable pub run_claimed : Platform → Meeting → Step Done
unfolding run_meeting_pipeline release_claim
run_claimed p m =
    catching (run_meeting_pipeline p pipeline_fuel m >> pure tt)
      (λ e. on_rows (release_claim m.id (some e)))

-- What the poll does with a claim.
unfoldable pub work_on : Platform → Option (Meeting × ℕ) → Step Done
unfolding give_up run_claimed
work_on p none = pure tt
work_on p (some (m, attempts)) =
    if ltb max_stage_attempts attempts then give_up p m else run_claimed p m

abbrev recording_stale_ms : ℕ
recording_stale_ms = 30 * 60 * 1000

abbrev pub claim_stale_ms : ℕ
claim_stale_ms = 15 * 60 * 1000

-- The claim of a poll, made at the time `at`, and the work on it.
unfoldable pub claim_and_work : Platform → ℕ → Step Done
unfolding claims_next work_on
claim_and_work p started = do
  at ← now p
  claimed ← claims_next at (started - claim_stale_ms)
  work_on p claimed

-- pollMeetingsOnce, when no other poll is running. The clock is above the longest of the three
-- spans, so the differences are those of the code.
unfoldable pub poll_meetings_once : Platform → Step Done
unfolding finalize_recording for_each resume_timed_out claim_and_work list_stale_recordings
    list_ppt_timed_out
poll_meetings_once p = do
  at ← now p
  stale ← reading (λ w. list_stale_recordings (name_of w.users) (at - recording_stale_ms) w.rows)
  for_each (finish_stale p) stale
  late ←
      reading
        (λ w. list_ppt_timed_out (name_of w.users) (at - p.ppt_wait_hours * 60 * 60 * 1000) w.rows)
  for_each (resume_timed_out p) late
  claim_and_work p at

-- cleanupExpiredAudioOnce; `delete_audio` is deleteMeetingAudio.
unfoldable cleanup_expired_audio_once : Platform → (ℕ → Ident → Reply Done) → Step Done
unfolding for_each list_expired_audio clear_audio_path
cleanup_expired_audio_once p delete_audio = do
  at ← now p
  expired ← reading (λ w. list_expired_audio (name_of w.users) at w.rows)
  for_each (λ m. call (λ t. delete_audio t m.id) >> on_rows (clear_audio_path m.id)) expired
