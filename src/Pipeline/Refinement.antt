-- ===== src/Pipeline/Refinement.antt =====
-- The worker (server/src/meetings/worker.ts, finish.ts) implements the status diagram: whatever a
-- poll does to the meetings is a sequence of its moves.
use Prim.Native.String.{String}
use hanmir_talk.Prelude.{
  ℕ, zero, suc, ◌+◌, ◌-◌, ◌≤◌, ◌<◌, ◌≡◌, refl, sym, ap, ◌∙◌, inl, inr, Bool, true, false, Option,
  none, some, List, [], ◌∷◌, map, arith, ltb, ◌==◌, Bool-cases, Option-cases, All, Fresh, Distinct,
  or_else, option_map, Ident,
}
use hanmir_talk.Prelude.{find_by-modify_by}
use hanmir_talk.Meeting.{
  Meeting, Row, pending, summarizing, is_recording, is_awaiting_ppt, is_claimable, row_id,
  row_by_id, update_row, to_dto,
}
use hanmir_talk.Meeting.Recording.{finish, finish_row}
use hanmir_talk.Meeting.Claims.{
  mark_failed, fail_row, release_claim, release_row, resume_from_ppt, advance_row, claim_next,
  claim_row, next_available,
}
use hanmir_talk.Meeting.Claiming.{next_available-found}
use hanmir_talk.Pipeline.{
  World, Platform, Reply, ok, throws, Step, Done, and_then, ◌>>=◌, on_rows, pure, name_of, call,
}
use hanmir_talk.Pipeline.Machine.{
  Stage, stage_of, stage_id, Move, Moves, Moves-trans, Moves-Distinct, Move-total, Moves-total,
  Moves-done, Moves-IsBounded, IsBounded, is_done, total, finishes, empties, resumes, claims,
  gives_up, still, next, max_attempts,
}
use hanmir_talk.Pipeline.Stillness.{
  spine, Still, still_rules, on_rows-spine, emit-Still, notify_room-Still, update_row-Still,
}
use hanmir_talk.Pipeline.Follows.{
  Follows, Follows-unmoved, Follows-bind, Follows-if, Follows-any, Follows-catching, Still-Follows,
  Has, Anything, update_row-Follows, update_row-Move, find-stage,
}
use hanmir_talk.Pipeline.Progress.{run_meeting_pipeline-Follows}
use hanmir_talk.Pipeline.Worker.{
  finishes_recording, settle_recording, finalize_recording, for_each, finish_stale, resumes_meeting,
  resume_timed_out, claims_next, give_up, run_claimed, work_on, claim_and_work, poll_meetings_once,
  max_stage_attempts, pipeline_fuel, claim_stale_ms,
}

abbrev Unique : List Stage → Type 0
Unique ss = Distinct stage_id ss

Follows-Unique :
    {A B : Type 0} (m : Step A) (k : A → Step B)
    → Follows Unique m
    → ((a : A) → Follows Unique (k a))
    → Follows Unique (m >>= k)
unfolding ◌>>=◌
Follows-Unique {A} {B} m k h g = record { follows = λ w v. after (m w) (spine w) v (h.follows w v) }
  where
    after :
        (t : World × Reply A) (ss : List Stage)
        → Unique ss
        → Moves ss (spine t.0)
        → Moves ss (spine (and_then t k).0)
    after (w, ok a) ss v n = Moves-trans n ((g a).follows w (Moves-Distinct n v))
    after (w, throws x) ss v n = n

fail-Follows :
    (id : Ident) (error : String) → Follows (Has id pending) (on_rows (mark_failed id error))
unfolding mark_failed
fail-Follows id error = update_row-Follows id pending (fail_row error) (λ r h. empties h)

settle_recording-Follows :
    (p : Platform) (m : Meeting) (notice : String) (bytes : ℕ)
    → Follows (Has m.id pending) (settle_recording p m notice bytes)
unfolding settle_recording
settle_recording-Follows p m notice bytes =
    Follows-if (bytes == 0) _ _
      (Follows-bind _ _ (fail-Follows m.id "empty_recording")
        (λ _. Follows-unmoved _ (search (still_rules, emit-Still, notify_room-Still) depth 20)))
      (Follows-unmoved _ (search (still_rules, emit-Still, notify_room-Still) depth 20))

-- Where the recording ends, the meeting is pending.
finishes_recording-then :
    {A : Type 0} (id : Ident) (at retention : ℕ) (k : Bool → Step A)
    → Follows (Has id pending) (k true)
    → Follows Anything (k false)
    → Follows Anything (finishes_recording id at retention >>= k)
unfolding finishes_recording finish ◌>>=◌
finishes_recording-then id at retention k h g = record {
  follows = λ w v. elim (Option-cases (row_by_id id w.rows)) [
    | inl e ↦ rw (e, finish) (g.follows w tt)
    | inr (r, e) ↦ elim (Bool-cases (is_recording r.meeting.status)) [
      | inl q ↦
          let w' : World = record w { rows = update_row id (finish_row at retention) w.rows } in
          let m : Move (spine w) (spine w') =
            update_row-Move id (finish_row at retention) r w.rows e
              (finishes (ground (arith, q))) in
          rw (e, finish)
            (rw q (
              Moves-trans (next still m) (
                h.follows w' (
                  stage_of (finish_row at retention r),
                  ground (
                    arith,
                    e,
                    find-stage id w'.rows,
                    find_by-modify_by row_id id id (finish_row at retention) w.rows (λ a. refl),
                  ),
                  refl,
                ))))
      | inr q ↦ rw (e, finish) (rw q (g.follows w tt))
    ]
  ];
}

-- The end of a recording follows the status diagram.
finalize_recording-Follows :
    (p : Platform) (m : Meeting) (notice : String)
    → Follows Anything (finalize_recording p m notice)
unfolding finalize_recording
finalize_recording-Follows p m notice = Still-Follows _ _ (search still_rules) (λ at.
    finishes_recording-then m.id at _ _
      (Still-Follows _ _ (search still_rules) (λ bytes.
        Follows-bind _ _ (settle_recording-Follows p m notice bytes)
          (λ _. Follows-unmoved _ (search still_rules))))
      (Follows-unmoved _ (search still_rules)))

for_each-Follows :
    (f : Meeting → Step Done) (ms : List Meeting)
    → ((m : Meeting) → Follows Anything (f m))
    → Follows Anything (for_each f ms)
unfolding for_each
for_each-Follows f [] h = Follows-unmoved _ (search still_rules)
for_each-Follows f (m ∷ ms) h =
    Follows-bind _ _ (Follows-catching _ _ (h m) (λ x. search still_rules))
      (λ _. for_each-Follows f ms h)

resumes_meeting-then :
    {A : Type 0} (id : Ident) (k : Bool → Step A)
    → ((b : Bool) → Follows Anything (k b))
    → Follows Anything (resumes_meeting id >>= k)
unfolding resumes_meeting resume_from_ppt ◌>>=◌
resumes_meeting-then id k h = record {
  follows = λ w v. elim (Option-cases (row_by_id id w.rows)) [
    | inl e ↦ rw (e, resume_from_ppt) ((h false).follows w tt)
    | inr (r, e) ↦ elim (Bool-cases (is_awaiting_ppt r.meeting.status)) [
      | inl q ↦
          let w' : World = record w { rows = update_row id (advance_row summarizing) w.rows } in
          let m : Move (spine w) (spine w') =
            update_row-Move id (advance_row summarizing) r w.rows e (resumes (ground (arith, q))) in
          rw (e, resume_from_ppt) (rw q (Moves-trans (next still m) ((h true).follows w' tt)))
      | inr q ↦ rw (e, resume_from_ppt) (rw q ((h false).follows w tt))
    ]
  ];
}

resume_timed_out-Follows : (p : Platform) (m : Meeting) → Follows Anything (resume_timed_out p m)
unfolding resume_timed_out
resume_timed_out-Follows p m =
    resumes_meeting-then m.id _
      (λ b. Follows-unmoved _ (search (still_rules, emit-Still, notify_room-Still) depth 20))

release_claim-Still : (id : Ident) (e : String) → Still (on_rows (release_claim id (some e)))
unfolding release_claim
release_claim-Still id e = update_row-Still id (release_row (some e)) (λ r. refl)

-- The work on a claim that may be run.
run_claimed-Follows : (p : Platform) (m : Meeting) → Follows (Has m.id m.status) (run_claimed p m)
unfolding run_claimed
run_claimed-Follows p m =
    Follows-catching _ _
      (Follows-bind _ _ (run_meeting_pipeline-Follows p pipeline_fuel m)
        (λ _. Follows-unmoved _ (search still_rules)))
      (release_claim-Still m.id)

update_row-twice :
    (id : Ident) (f g : Row → Row) (rows : List Row)
    → ((r : Row) → row_id (f r) ≡ row_id r)
    → update_row id g (update_row id f rows) ≡ update_row id (λ r. g (f r)) rows
update_row-twice id f g [] h = refl
update_row-twice id f g (r ∷ rows) h = ground (arith, h r, update_row-twice id f g rows h)

-- The work on a claim of a stage that failed too often.
give_up-spine :
    (p : Platform) (m : Meeting) (w : World)
    → spine (give_up p m w).0
      ≡ map stage_of (update_row m.id (fail_row (or_else m.error "unknown_error")) w.rows)
unfolding give_up mark_failed
give_up-spine p m w =
    on_rows-spine _ _ w (λ _. search (still_rules, emit-Still, notify_room-Still) depth 20)

-- From a state of the diagram to a later one, by one move at least.
abbrev Progresses : List Stage → List Stage → Type 0
Progresses ss ts = (us : List Stage) × Move ss us × Moves us ts

Distinct-rows : (rows : List Row) → Unique (map stage_of rows) → Distinct row_id rows
Distinct-rows [] d = tt
Distinct-rows (r ∷ rows) d = (fresh (row_id r) rows d.0, Distinct-rows rows d.1)
  where
    fresh : (id : Ident) (qs : List Row) → Fresh stage_id id (map stage_of qs) → Fresh row_id id qs
    fresh id [] h = tt
    fresh id (q ∷ qs) h = (h.0, fresh id qs h.1)

Distinct-stages : (rows : List Row) → Distinct row_id rows → Unique (map stage_of rows)
Distinct-stages [] d = tt
Distinct-stages (r ∷ rows) d = (fresh (row_id r) rows d.0, Distinct-stages rows d.1)
  where
    fresh : (id : Ident) (qs : List Row) → Fresh row_id id qs → Fresh stage_id id (map stage_of qs)
    fresh id [] h = tt
    fresh id (q ∷ qs) h = (h.0, fresh id qs h.1)

abbrev error_of : Row → String
error_of r = or_else r.meeting.error "unknown_error"

-- The claim of a meeting and its failure, if it was claimed too often.
give_up-Progresses :
    (p : Platform) (u : Ident → Option String) (at : ℕ) (r : Row) (w : World)
    → row_by_id (row_id r) w.rows ≡ some r
    → is_claimable r.meeting.status ≡ true
    → max_attempts ≤ r.attempts
    → Progresses (spine w) (
        spine
          (give_up p
            (to_dto u r)
            (record w { rows = update_row (row_id r) (claim_row at) w.rows })).0)
unfolding to_dto
give_up-Progresses p u at r w found free le = (
  map stage_of (update_row (row_id r) (λ q. fail_row (error_of r) (claim_row at q)) w.rows),
  update_row-Move (row_id r) (λ q. fail_row (error_of r) (claim_row at q)) r w.rows found
      (gives_up free le),
  rw
      (give_up-spine p (to_dto u r)
        (record w { rows = update_row (row_id r) (claim_row at) w.rows }))
      (rw (update_row-twice (row_id r) (claim_row at) (fail_row (error_of r)) w.rows (λ q. refl))
        still),
)

-- The claim of a meeting and a run of its pipeline.
run_claimed-Progresses :
    (p : Platform) (u : Ident → Option String) (at : ℕ) (r : Row) (w : World)
    → row_by_id (row_id r) w.rows ≡ some r
    → is_claimable r.meeting.status ≡ true
    → r.attempts < max_attempts
    → Progresses (spine w) (
        spine
          (run_claimed p
            (to_dto u r)
            (record w { rows = update_row (row_id r) (claim_row at) w.rows })).0)
unfolding to_dto
run_claimed-Progresses p u at r w found free lt = (
  map stage_of (update_row (row_id r) (claim_row at) w.rows),
  update_row-Move (row_id r) (claim_row at) r w.rows found (claims free lt),
  (run_claimed-Follows p (to_dto u r)).follows
      (record w { rows = update_row (row_id r) (claim_row at) w.rows })
      (
        stage_of (claim_row at r),
        ground (
          arith,
          found,
          find-stage (row_id r) (update_row (row_id r) (claim_row at) w.rows),
          find_by-modify_by row_id (row_id r) (row_id r) (claim_row at) w.rows (λ q. refl),
        ),
        refl,
      ),
)

-- In a store with distinct identifiers where a meeting is available, the claim and the work on it
-- make at least one move of the diagram.
claim_and_work-Progresses :
    (p : Platform) (started : ℕ) (w : World) (r : Row)
    → Unique (spine w)
    → next_available (started - claim_stale_ms) w.rows ≡ some r
    → Progresses (spine w) (spine (claim_and_work p started w).0)
unfolding claim_and_work claims_next work_on ◌>>=◌ claim_next to_dto call
claim_and_work-Progresses p started w r v e =
    let (available, found) =
      next_available-found (started - claim_stale_ms) w.rows r (Distinct-rows w.rows v) e in
    let free : is_claimable r.meeting.status ≡ true = ground (arith, available) in
    let w' : World = record w { ticks = w.ticks + 1 } in
    elim (Bool-cases (ltb max_stage_attempts (r.attempts + 1))) [
      | inl q ↦
          rw (e, claim_next)
            (rw q (
              give_up-Progresses p (name_of w.users) (p.clock w.ticks) r w' found free
                (ground (arith, q))))
      | inr q ↦
          rw (e, claim_next)
            (rw q (
              run_claimed-Progresses p (name_of w.users) (p.clock w.ticks) r w' found free
                (ground (arith, q))))
    ]

claim_and_work-none :
    (p : Platform) (started : ℕ) (w : World)
    → next_available (started - claim_stale_ms) w.rows ≡ none
    → Moves (spine w) (spine (claim_and_work p started w).0)
unfolding claim_and_work claims_next work_on ◌>>=◌ claim_next call pure
claim_and_work-none p started w e = rw (e, claim_next) still

claim_and_work-Follows : (p : Platform) (started : ℕ) → Follows Unique (claim_and_work p started)
claim_and_work-Follows p started = record {
  follows = λ w v. elim (Option-cases (next_available (started - claim_stale_ms) w.rows)) [
    | inl e ↦ claim_and_work-none p started w e
    | inr (r, e) ↦
        let (us, m, n) = claim_and_work-Progresses p started w r v e in Moves-trans (next still m) n
  ];
}

poll-Follows : (p : Platform) → Follows Unique (poll_meetings_once p)
unfolding poll_meetings_once
poll-Follows p = Still-Follows _ _ (search still_rules) (λ at.
    Still-Follows _ _ (search still_rules) (λ stale.
      Follows-Unique _ _
        (Follows-any _ (
          for_each-Follows (finish_stale p) stale (λ m.
            Follows-bind _ _ (finalize_recording-Follows p m _)
              (λ _. Follows-unmoved _ (search still_rules)))))
        (λ _. Still-Follows _ _ (search still_rules) (λ late.
          Follows-Unique _ _
            (Follows-any _
              (for_each-Follows (resume_timed_out p) late (resume_timed_out-Follows p)))
            (λ _. claim_and_work-Follows p at)))))

-- In a store whose meetings have distinct identifiers, a poll of the worker changes the statuses and
-- attempts of the meetings by moves of the status diagram only, whatever the providers answer and
-- wherever they throw.
pub poll_meetings_once-Moves :
    (p : Platform) (w : World)
    → Distinct row_id w.rows
    → Moves (map stage_of w.rows) (map stage_of (poll_meetings_once p w).0.rows)
poll_meetings_once-Moves p w d = (poll-Follows p).follows w (Distinct-stages w.rows d)

-- In a store with distinct identifiers where a meeting is available to a claim, the claim and the work
-- on it bring the meetings strictly nearer to the end, whether the work succeeds or throws.
pub claim_and_work-total :
    (p : Platform) (started : ℕ) (w : World) (r : Row)
    → Distinct row_id w.rows
    → next_available (started - claim_stale_ms) w.rows ≡ some r
    → total (map stage_of (claim_and_work p started w).0.rows) < total (map stage_of w.rows)
claim_and_work-total p started w r d e =
    let (us, m, n) = claim_and_work-Progresses p started w r (Distinct-stages w.rows d) e in
    omega (arith, Move-total m, Moves-total n)

-- The polls of the timer, one after another.
unfoldable pub polls : Platform → ℕ → World → World
unfolding poll_meetings_once
polls p zero w = w
polls p (suc n) w = polls p n (poll_meetings_once p w).0

polls-Moves :
    (p : Platform) (n : ℕ) (w : World) → Unique (spine w) → Moves (spine w) (spine (polls p n w))
unfolding polls
polls-Moves p zero w v = still
polls-Moves p (suc n) w v =
    let m = (poll-Follows p).follows w v in
    Moves-trans m (polls-Moves p n (poll_meetings_once p w).0 (Moves-Distinct m v))

-- In a store with distinct identifiers where no meeting that did not fail was attempted more than
-- three times in its stage, this is so after any number of polls.
pub polls-IsBounded :
    (p : Platform) (n : ℕ) (w : World)
    → Distinct row_id w.rows
    → All IsBounded (map stage_of w.rows)
    → All IsBounded (map stage_of (polls p n w).rows)
polls-IsBounded p n w d b = Moves-IsBounded (polls-Moves p n w (Distinct-stages w.rows d)) b

-- In a store with distinct identifiers, a meeting that is completed, failed or cancelled keeps its
-- status and its attempts through any number of polls.
pub polls-done :
    (p : Platform) (n : ℕ) (w : World) (id : Ident) (r : Row)
    → Distinct row_id w.rows
    → row_by_id id w.rows ≡ some r
    → is_done r.meeting.status ≡ true
    → option_map stage_of (row_by_id id (polls p n w).rows) ≡ some (stage_of r)
polls-done p n w id r d f e =
    sym (find-stage id (polls p n w).rows)
    ∙ Moves-done id (stage_of r) (polls-Moves p n w (Distinct-stages w.rows d))
        (find-stage id w.rows ∙ ap (option_map stage_of) f) e
