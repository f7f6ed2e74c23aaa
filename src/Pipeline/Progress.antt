-- ===== src/Pipeline/Progress.antt =====
-- The loop of the pipeline (runMeetingPipeline, server/src/meetings/pipeline.ts) follows the status
-- diagram, and comes to an end.
use hanmir_talk.Prelude.{
  ℕ, zero, suc, ◌≡◌, refl, inl, inr, Bool, true, false, arith, Option-cases, Ident,
}
use hanmir_talk.Prelude.{find_by-key}
use hanmir_talk.Meeting.{
  Meeting, Row, Status, recording, pending, transcribing, awaiting_ppt, summarizing,
  generating_docs, completed, failed, cancelled, row_id, row_by_id, to_dto,
}
use hanmir_talk.Meeting.Recording.{find_by_id}
use hanmir_talk.Meeting.Claims.{advance, advance_row, mark_awaiting_ppt, await_row}
use hanmir_talk.Pipeline.{if_some, Platform, Step, ◌>>=◌, on_rows, pure, reading, name_of}
use hanmir_talk.Pipeline.Machine.{stage_of, Edge, starts, awaits, summarizes, completes, still}
use hanmir_talk.Pipeline.Stillness.{
  still_rules, emit-Still, notify_room-Still, step_transcribe-Still, step_summarize-Still,
  step_generate_docs-Still,
}
use hanmir_talk.Pipeline.Follows.{
  Follows, Follows-unmoved, Follows-bind, Still-Follows, Has, Anything, update_row-Follows,
  find-stage,
}
use hanmir_talk.Pipeline.Stages.{run_status, rerun, run_meeting_pipeline}

advance-Follows :
    (id : Ident) (s next : Status)
    → ((r : Row) → r.meeting.status ≡ s → Edge (stage_of r) (stage_of (advance_row next r)))
    → Follows (Has id s) (on_rows (advance id next))
unfolding advance
advance-Follows id s next h = update_row-Follows id s (advance_row next) h

await-Follows :
    (at : ℕ) (id : Ident) → Follows (Has id transcribing) (on_rows (mark_awaiting_ppt at id))
unfolding mark_awaiting_ppt
await-Follows at id = update_row-Follows id transcribing (await_row at) (λ r h. awaits h)

-- One turn of the loop, at the status that the meeting has.
run_status-Follows :
    (p : Platform) (m : Meeting) (s : Status) → Follows (Has m.id s) (run_status p m s)
unfolding run_status
run_status-Follows p m pending =
    Follows-bind _ _ (advance-Follows m.id pending transcribing (λ r h. starts h))
      (λ _. Follows-unmoved _ (search (still_rules, emit-Still) depth 20))
run_status-Follows p m transcribing = Still-Follows _ _ (step_transcribe-Still p m) (λ _.
    Still-Follows _ _ (search still_rules) (λ at.
      Follows-bind _ _ (await-Follows at m.id)
        (λ _. Follows-unmoved _ (search (still_rules, emit-Still, notify_room-Still) depth 20))))
run_status-Follows p m summarizing = Still-Follows _ _ (step_summarize-Still p m) (λ _.
    Follows-bind _ _ (advance-Follows m.id summarizing generating_docs (λ r h. summarizes h))
      (λ _. Follows-unmoved _ (search (still_rules, emit-Still) depth 20)))
run_status-Follows p m generating_docs = Still-Follows _ _ (step_generate_docs-Still p m) (λ _.
    Follows-bind _ _ (advance-Follows m.id generating_docs completed (λ r h. completes h))
      (λ _. Follows-unmoved _ (search (still_rules, emit-Still) depth 20)))
run_status-Follows p m recording = Follows-unmoved _ (search still_rules)
run_status-Follows p m awaiting_ppt = Follows-unmoved _ (search still_rules)
run_status-Follows p m completed = Follows-unmoved _ (search still_rules)
run_status-Follows p m failed = Follows-unmoved _ (search still_rules)
run_status-Follows p m cancelled = Follows-unmoved _ (search still_rules)

rerun-Follows :
    (id : Ident) (run : Meeting → Step Bool) (b : Bool)
    → ((m : Meeting) → Follows (Has m.id m.status) (run m))
    → Follows Anything (rerun id run b)
unfolding rerun ◌>>=◌ reading if_some pure find_by_id to_dto
rerun-Follows id run false h = record { follows = λ w v. still }
rerun-Follows id run true h = record {
  follows = λ w v. elim (Option-cases (row_by_id id w.rows)) [
    | inl e ↦ rw (e, find_by_id) still
    | inr (r, e) ↦
        let k : row_id r ≡ id = find_by-key row_id id w.rows e in
        rw (e, find_by_id)
          ((h (to_dto (name_of w.users) r)).follows w
            (stage_of r, ground (arith, find-stage id w.rows, e, k), refl))
  ];
}

-- Started with a meeting as the store has it, the pipeline follows the status diagram, for every
-- number of turns and whether it ends or throws.
pub run_meeting_pipeline-Follows :
    (p : Platform) (fuel : ℕ) (m : Meeting)
    → Follows (Has m.id m.status) (run_meeting_pipeline p fuel m)
unfolding run_meeting_pipeline
run_meeting_pipeline-Follows p zero m = Follows-unmoved _ (search still_rules)
run_meeting_pipeline-Follows p (suc fuel) m =
    Follows-bind _ _ (run_status-Follows p m m.status) (λ b.
      rerun-Follows m.id (run_meeting_pipeline p fuel) b (run_meeting_pipeline-Follows p fuel))
