-- ===== src/Pipeline/Ending.antt =====
-- Three turns are enough for the loop of the pipeline (runMeetingPipeline,
-- server/src/meetings/pipeline.ts).
use hanmir_talk.Prelude.{
  ℕ, zero, suc, ◌≤◌, ◌<◌, ◌≡◌, refl, sym, ap, ◌∙◌, ◌≢◌, inl, inr, Bool, true, false, some, map,
  arith, Option-cases, find_by, Ident,
}
use hanmir_talk.Prelude.{find_by-modify_by}
use hanmir_talk.Meeting.{
  Meeting, Row, Status, recording, pending, transcribing, awaiting_ppt, summarizing,
  generating_docs, completed, failed, cancelled, row_id, row_by_id, update_row, to_dto,
}
use hanmir_talk.Meeting.Recording.{find_by_id}
use hanmir_talk.Meeting.Claims.{advance, advance_row, mark_awaiting_ppt, await_row}
use hanmir_talk.Pipeline.{
  if_some, World, Platform, Reply, ok, throws, Step, Done, and_then, ◌>>=◌, on_rows, pure, reading,
  name_of,
}
use hanmir_talk.Pipeline.Machine.{Stage, stage_of, stage_id}
use hanmir_talk.Pipeline.Stillness.{spine, Still, still_rules, emit-Still, notify_room-Still}
use hanmir_talk.Pipeline.Follows.{find-stage}
use hanmir_talk.Pipeline.Worker.{pipeline_fuel}
use hanmir_talk.Pipeline.Stages.{run_status, rerun, run_meeting_pipeline}

-- The turns that the loop takes from a status on, the last of which finds nothing to do.
abbrev pub turns : Status → ℕ
turns pending = 3
turns transcribing = 2
turns summarizing = 2
turns _ = 1

-- Where the step answers true, fewer turns are left to the meeting.
record Lowers (id : Ident) (n : ℕ) (m : Step Bool) : Type 0 where
  pub lowers :
      (w w' : World) (a : Stage)
      → m w ≡ (w', ok true)
      → find_by stage_id id (spine w') ≡ some a
      → turns a.status < n

false-Lowers : (id : Ident) (n : ℕ) → Lowers id n (pure false)
unfolding pure
false-Lowers id n = record {
  lowers = λ w w' a e f. absurd (ground (arith, ap (λ (t : World × Reply Bool). t.1) e));
}

module _ {A : Type 0} where
  Lowers-and_then :
      (id : Ident) (n : ℕ) (k : A → Step Bool) (t : World × Reply A) (w' : World) (a : Stage)
      → ((x : A) → Lowers id n (k x))
      → and_then t k ≡ (w', ok true)
      → find_by stage_id id (spine w') ≡ some a
      → turns a.status < n
  Lowers-and_then id n k (w, ok x) w' a h e f = (h x).lowers w w' a e f
  Lowers-and_then id n k (w, throws x) w' a h e f =
      absurd (ground (arith, ap (λ (t : World × Reply Bool). t.1) e))

  Lowers-bind :
      (id : Ident) (n : ℕ) (m : Step A) (k : A → Step Bool)
      → ((x : A) → Lowers id n (k x))
      → Lowers id n (m >>= k)
  unfolding ◌>>=◌
  Lowers-bind id n m k h = record { lowers = λ w w' a e f. Lowers-and_then id n k (m w) w' a h e f }

-- A change of the meeting to a status with fewer turns, then a step that changes no stage.
update_row-Lowers :
    (id : Ident) (n : ℕ) (f : Row → Row) (k : Done → Step Bool)
    → ((r : Row) → row_id (f r) ≡ row_id r)
    → ((r : Row) → turns (stage_of (f r)).status < n)
    → ((x : Done) → Still (k x))
    → Lowers id n (on_rows (update_row id f) >>= k)
unfolding on_rows ◌>>=◌
update_row-Lowers id n f k h g s = record {
  lowers = λ w w' a e found.
      let q : spine w' ≡ map stage_of (update_row id f w.rows) =
        sym (ap (λ (t : World × Reply Bool). spine t.0) e)
        ∙ (s tt).keeps (record w { rows = update_row id f w.rows }) in
      let p : find_by stage_id id (map stage_of (update_row id f w.rows)) ≡ some a =
        rw q at found in
      elim (Option-cases (row_by_id id w.rows)) [
        | inl o ↦ absurd (
            ground (
              arith,
              p,
              o,
              find-stage id (update_row id f w.rows),
              find_by-modify_by row_id id id f w.rows h,
            ))
        | inr (r, o) ↦
            let j : stage_of (f r) ≡ a = ground (
              arith,
              p,
              o,
              find-stage id (update_row id f w.rows),
              find_by-modify_by row_id id id f w.rows h,
            ) in
            omega (arith, ap (λ (x : Stage). turns x.status) j, g r)
      ];
}

run_status-Lowers :
    (p : Platform) (m : Meeting) (s : Status) → Lowers m.id (turns s) (run_status p m s)
unfolding run_status advance mark_awaiting_ppt
run_status-Lowers p m pending =
    update_row-Lowers m.id 3 (advance_row transcribing) _ (λ r. refl) (λ r. omega arith)
      (λ _. search (still_rules, emit-Still) depth 20)
run_status-Lowers p m transcribing = Lowers-bind m.id 2 _ _ (λ _. Lowers-bind m.id 2 _ _ (λ at.
    update_row-Lowers m.id 2 (await_row at) _ (λ r. refl) (λ r. omega arith)
      (λ _. search (still_rules, emit-Still, notify_room-Still) depth 20)))
run_status-Lowers p m summarizing = Lowers-bind m.id 2 _ _ (λ _.
    update_row-Lowers m.id 2 (advance_row generating_docs) _ (λ r. refl) (λ r. omega arith)
      (λ _. search (still_rules, emit-Still) depth 20))
run_status-Lowers p m generating_docs =
    Lowers-bind m.id 1 _ _
      (λ _. Lowers-bind m.id 1 _ _ (λ _. Lowers-bind m.id 1 _ _ (λ _. false-Lowers m.id 1)))
run_status-Lowers p m recording = false-Lowers m.id 1
run_status-Lowers p m awaiting_ppt = false-Lowers m.id 1
run_status-Lowers p m completed = false-Lowers m.id 1
run_status-Lowers p m failed = false-Lowers m.id 1
run_status-Lowers p m cancelled = false-Lowers m.id 1

turns-pos : (s : Status) → 1 ≤ turns s
turns-pos s = ground arith

turns-most : (s : Status) → turns s ≤ 3
turns-most s = ground arith

-- The loop goes on with the meeting as the store has it after this turn.
rerun-ends :
    (id : Ident) (n : ℕ) (run : Meeting → Step Bool) (t : World × Reply Bool)
    → ((w : World) (a : Stage)
        → t ≡ (w, ok true)
        → find_by stage_id id (spine w) ≡ some a
        → turns a.status < suc n)
    → ((m : Meeting) (w : World) → turns m.status ≤ n → (run m w).1 ≢ ok false)
    → (and_then t (rerun id run)).1 ≢ ok false
unfolding rerun ◌>>=◌ reading if_some pure find_by_id to_dto
rerun-ends id n run (w, throws x) h k = λ e. absurd (ground arith)
rerun-ends id n run (w, ok false) h k = λ e. absurd (ground arith)
rerun-ends id n run (w, ok true) h k = elim (Option-cases (row_by_id id w.rows)) [
  | inl e ↦ rw (e, find_by_id) (λ q. absurd (ground arith))
  | inr (r, e) ↦
      rw (e, find_by_id)
        (k (to_dto (name_of w.users) r) w
          (omega (arith, h w (stage_of r) refl (ground (arith, find-stage id w.rows, e)))))
]

run_meeting_pipeline-fuel :
    (p : Platform) (fuel : ℕ) (m : Meeting) (w : World)
    → turns m.status ≤ fuel
    → (run_meeting_pipeline p fuel m w).1 ≢ ok false
unfolding run_meeting_pipeline ◌>>=◌
run_meeting_pipeline-fuel p zero m w le = absurd (omega (arith, le, turns-pos m.status))
run_meeting_pipeline-fuel p (suc n) m w le =
    rerun-ends m.id n (run_meeting_pipeline p n) (run_status p m m.status w)
      (λ w' a e f. omega (arith, le, (run_status-Lowers p m m.status).lowers w w' a e f))
      (λ m' w' h. run_meeting_pipeline-fuel p n m' w' h)

-- From every meeting and every state, the loop of the pipeline comes to its end or throws within the
-- three turns that the worker gives it.
pub run_meeting_pipeline-ends :
    (p : Platform) (m : Meeting) (w : World)
    → (run_meeting_pipeline p pipeline_fuel m w).1 ≢ ok false
run_meeting_pipeline-ends p m w =
    run_meeting_pipeline-fuel p pipeline_fuel m w (turns-most m.status)
