-- ===== src/Pipeline/Stages.antt =====
-- The loop that runs the stages of a claimed meeting. It has fuel, and answers false if that is used
-- up (server/src/meetings/pipeline.ts).
use hanmir_talk.Prelude.{ℕ, zero, suc, Bool, true, false, none, Ident}
use hanmir_talk.Meeting.{
  Meeting, Status, pending, transcribing, awaiting_ppt, summarizing, generating_docs, completed,
}
use hanmir_talk.Meeting.Recording.{find_by_id}
use hanmir_talk.Meeting.Claims.{advance, mark_awaiting_ppt}
use hanmir_talk.Pipeline.{
  if_some, Platform, Step, ◌>>=◌, ◌>>◌, pure, reading, on_rows, now, name_of, emit_update,
  notify_room,
}
use hanmir_talk.Pipeline.Transcribe.{step_transcribe}
use hanmir_talk.Pipeline.Summarize.{step_summarize}
use hanmir_talk.Pipeline.Documents.{step_generate_docs}

-- Whether the loop goes on after this turn: the switch of runMeetingPipeline on the status.
unfoldable pub run_status : Platform → Meeting → Status → Step Bool
unfolding advance mark_awaiting_ppt step_transcribe step_summarize step_generate_docs
run_status p m pending = do
  on_rows (advance m.id transcribing)
  emit_update m transcribing none none
  pure true
run_status p m transcribing = do
  step_transcribe p m
  at ← now p
  on_rows (mark_awaiting_ppt at m.id)
  emit_update m awaiting_ppt none none
  notify_room p m (p.wait_notice p.ppt_wait_hours)
  pure true
run_status p m summarizing = do
  step_summarize p m
  on_rows (advance m.id generating_docs)
  emit_update m generating_docs none none
  pure true
run_status p m generating_docs = do
  step_generate_docs p m
  on_rows (advance m.id completed)
  emit_update m completed none none
  pure false
run_status p m _ = pure false

-- The meeting as it is now, run again if it is still there.
unfoldable pub rerun : Ident → (Meeting → Step Bool) → Bool → Step Bool
unfolding find_by_id
rerun id run false = pure true
rerun id run true = do
  found ← reading (λ w. find_by_id (name_of w.users) id w.rows)
  if_some found (pure true) run

-- runMeetingPipeline, for at most so many turns; whether it came to an end.
unfoldable pub run_meeting_pipeline : Platform → ℕ → Meeting → Step Bool
unfolding run_status find_by_id
run_meeting_pipeline p zero m = pure false
run_meeting_pipeline p (suc fuel) m =
    run_status p m m.status >>= rerun m.id (run_meeting_pipeline p fuel)
