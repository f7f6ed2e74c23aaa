-- ===== src/Meeting/History.antt =====
-- Histories of MemoryMeetingRepository (server/src/repositories/memory.ts): any sequence of its
-- operations, and what holds after it.
use Prim.Native.String.{String}
use hanmir_talk.Prelude.{
  ℕ, ◌≡◌, refl, inl, inr, false, ◌||◌, Option, List, [], arith, ◌==◌, Bool-cases, Option-cases,
  modify_by, Fresh, Ident,
}
use hanmir_talk.Prelude.{All-modify_found}
use hanmir_talk.Meeting.{
  Row, Minutes, ImageStatus, Status, row_id, row_by_id, is_recording, is_awaiting_ppt,
}
use hanmir_talk.Meeting.Recording.{
  Chunk, create, create_segment, record_chunk, finish, cancel, push_segment, accept_row,
}
use hanmir_talk.Meeting.Claims.{
  claim_next, heartbeat, advance, release_claim, mark_failed, mark_awaiting_ppt, resume_from_ppt,
  next_available,
}
use hanmir_talk.Meeting.Artifacts.{
  save_ppt, set_ppt_image_result, save_segment_transcript, save_minutes, clear_audio_path,
}
use hanmir_talk.Meeting.Chunks.{segment_at, record_chunk-cases}
use hanmir_talk.Meeting.Invariant.{
  IsSound, Inv, empty-Inv, create-Inv, quiet-Inv, modify-Inv, push_segment-IsSound,
  accept_row-IsSound,
}

-- Every operation of the repository, with its arguments.
pub data Step (rows : List Row) : List Row → Type 0 where
  creates :
      (u : Ident → Option String) (id : Ident) (now : ℕ) (room : Ident) (title : String)
      (starter : Ident)
      → Step rows (create u id now room title starter rows).0
  creates_segment : (id : Ident) → Step rows (create_segment id rows).0
  records :
      (now : ℕ) (id : Ident) (index : ℕ) (c : Chunk)
      → Step rows (record_chunk now id index c rows).0
  finishes :
      (u : Ident → Option String) (id : Ident) (ended retention : ℕ)
      → Step rows (finish u id ended retention rows).0
  cancels : (now : ℕ) (id : Ident) → Step rows (cancel now id rows).0
  claims : (u : Ident → Option String) (now stale : ℕ) → Step rows (claim_next u now stale rows).0
  heartbeats : (now : ℕ) (id : Ident) → Step rows (heartbeat now id rows)
  advances : (id : Ident) (next : Status) → Step rows (advance id next rows)
  releases : (id : Ident) (error : Option String) → Step rows (release_claim id error rows)
  fails : (id : Ident) (error : String) → Step rows (mark_failed id error rows)
  awaits : (now : ℕ) (id : Ident) → Step rows (mark_awaiting_ppt now id rows)
  resumes : (id : Ident) → Step rows (resume_from_ppt id rows).0
  saves_ppt : (id : Ident) (path text : String) → Step rows (save_ppt id path text rows)
  reads_images :
      (id : Ident) (status : ImageStatus) (summary : Option String)
      → Step rows (set_ppt_image_result id status summary rows)
  transcribes :
      (id : Ident) (index : ℕ) (content : String)
      → Step rows (save_segment_transcript id index content rows)
  summarizes : (id : Ident) (m : Minutes) → Step rows (save_minutes id m rows)
  clears : (id : Ident) → Step rows (clear_audio_path id rows)

-- What the callers see to: newId draws an identifier that is not in use, and the stages of the
-- worker, which alone call `advance`, never ask for the status `recording`.
abbrev pub IsCalled : {rows rows' : List Row} → Step rows rows' → Type 0
IsCalled {rows} (creates u id now room title starter) = Fresh row_id id rows
IsCalled (advances id next) = is_recording next ≡ false
IsCalled _ = Unit {0}

record_chunk-Inv :
    (now : ℕ) (id : Ident) (index : ℕ) (c : Chunk) (rows : List Row)
    → Inv rows
    → Inv (record_chunk now id index c rows).0
unfolding record_chunk
record_chunk-Inv now id index c rows v = elim (Option-cases (segment_at id index rows)) [
  | inl e ↦ rw (e, record_chunk) v
  | inr (s, e) ↦ elim (record_chunk-cases now id index c rows s e) [
    | inl (k, _) ↦ rw k v
    | inr (inl (k, _)) ↦ rw k v
    | inr (inr (k, _)) ↦ rw k (
        modify-Inv id (accept_row now index c) (λ r. refl) (λ q r h. h) rows
          (elim (Option-cases (row_by_id id rows)) [
            | inl n ↦ absurd (ground arith)
            | inr (r, n) ↦
                All-modify_found IsSound (λ x. row_id x == id) _ rows r n
                  (accept_row-IsSound now index c r s (ground arith)) v.sound
          ])
          v)
  ]
]

-- A change that leaves status, room, duration and segments alone.
abbrev IsAside : (Row → Row) → Type 0
IsAside f =
    (r : Row)
    → (row_id (f r) ≡ row_id r)
      × ((f r).meeting.status ≡ r.meeting.status)
      × ((f r).meeting.room_id ≡ r.meeting.room_id)
      × ((f r).meeting.duration_ms ≡ r.meeting.duration_ms)
      × ((f r).segments ≡ r.segments)

-- A change of status to one that is not `recording`.
abbrev IsQuiet : (Row → Row) → Type 0
IsQuiet f =
    (r : Row)
    → (row_id (f r) ≡ row_id r)
      × (is_recording (f r).meeting.status ≡ false)
      × ((f r).meeting.duration_ms ≡ r.meeting.duration_ms)
      × ((f r).segments ≡ r.segments)

module _ (id : Ident) (f : Row → Row) (rows : List Row) (v : Inv rows) where
  aside-Inv : IsAside f → Inv (modify_by row_id id f rows)
  aside-Inv a =
      quiet-Inv id f (λ r. (a r).0) (λ q r e. ground (arith, a r)) rows
        (λ r s. record {
          tallied = ground (arith, a r, s.tallied);
          numbered = rw ((a r).0, (a r).4) s.numbered;
        })
        v

  paused-Inv : IsQuiet f → Inv (modify_by row_id id f rows)
  paused-Inv a =
      quiet-Inv id f (λ r. (a r).0) (λ q r e. ground (arith, a r)) rows
        (λ r s. record {
          tallied = ground (arith, a r, s.tallied);
          numbered = rw ((a r).0, (a r).3) s.numbered;
        })
        v

finish-Inv :
    (u : Ident → Option String) (id : Ident) (ended retention : ℕ) (rows : List Row)
    → Inv rows
    → Inv (finish u id ended retention rows).0
unfolding finish
finish-Inv u id ended retention rows v = elim (Option-cases (row_by_id id rows)) [
  | inl e ↦ rw (e, finish) v
  | inr (r, e) ↦ elim (Bool-cases (is_recording r.meeting.status)) [
    | inl b ↦ rw (e, finish, b) (paused-Inv id _ rows v (λ q. (refl, refl, refl, refl)))
    | inr b ↦ rw (e, finish, b) v
  ]
]

cancel-Inv : (now : ℕ) (id : Ident) (rows : List Row) → Inv rows → Inv (cancel now id rows).0
unfolding cancel
cancel-Inv now id rows v = elim (Option-cases (row_by_id id rows)) [
  | inl e ↦ rw (e, cancel) v
  | inr (r, e) ↦
      elim (Bool-cases (is_recording r.meeting.status || is_awaiting_ppt r.meeting.status)) [
        | inl b ↦ rw (e, cancel, b) (paused-Inv id _ rows v (λ q. (refl, refl, refl, refl)))
        | inr b ↦ rw (e, cancel, b) v
      ]
]

resume-Inv : (id : Ident) (rows : List Row) → Inv rows → Inv (resume_from_ppt id rows).0
unfolding resume_from_ppt
resume-Inv id rows v = elim (Option-cases (row_by_id id rows)) [
  | inl e ↦ rw (e, resume_from_ppt) v
  | inr (r, e) ↦ elim (Bool-cases (is_awaiting_ppt r.meeting.status)) [
    | inl b ↦ rw (e, resume_from_ppt, b) (paused-Inv id _ rows v (λ q. (refl, refl, refl, refl)))
    | inr b ↦ rw (e, resume_from_ppt, b) v
  ]
]

claim-Inv :
    (u : Ident → Option String) (now stale : ℕ) (rows : List Row)
    → Inv rows
    → Inv (claim_next u now stale rows).0
unfolding claim_next
claim-Inv u now stale rows v = elim (Option-cases (next_available stale rows)) [
  | inl e ↦ rw (e, claim_next) v
  | inr (r, e) ↦
      rw (e, claim_next) (aside-Inv (row_id r) _ rows v (λ q. (refl, refl, refl, refl, refl)))
]

segment-Inv : (id : Ident) (rows : List Row) → Inv rows → Inv (create_segment id rows).0
unfolding create_segment
segment-Inv id rows v = elim (Option-cases (row_by_id id rows)) [
  | inl e ↦ rw (e, create_segment) v
  | inr (r, e) ↦
      rw (e, create_segment)
        (quiet-Inv id push_segment (λ q. refl) (λ q s k. k) rows push_segment-IsSound v)
]

-- Each operation keeps the invariant.
pub Step-Inv : {rows rows' : List Row} (s : Step rows rows') → IsCalled s → Inv rows → Inv rows'
unfolding heartbeat advance release_claim mark_failed mark_awaiting_ppt save_ppt
    set_ppt_image_result save_segment_transcript save_minutes clear_audio_path
Step-Inv {rows} (creates u id now room title starter) f v =
    create-Inv u id now room title starter rows f v
Step-Inv {rows} (creates_segment id) _ v = segment-Inv id rows v
Step-Inv {rows} (records now id index c) _ v = record_chunk-Inv now id index c rows v
Step-Inv {rows} (finishes u id ended retention) _ v = finish-Inv u id ended retention rows v
Step-Inv {rows} (cancels now id) _ v = cancel-Inv now id rows v
Step-Inv {rows} (claims u now stale) _ v = claim-Inv u now stale rows v
Step-Inv {rows} (heartbeats now id) _ v =
    aside-Inv id _ rows v (λ r. (refl, refl, refl, refl, refl))
Step-Inv {rows} (advances id next) e v = paused-Inv id _ rows v (λ r. (refl, e, refl, refl))
Step-Inv {rows} (releases id error) _ v =
    aside-Inv id _ rows v (λ r. (refl, refl, refl, refl, refl))
Step-Inv {rows} (fails id error) _ v = paused-Inv id _ rows v (λ r. (refl, refl, refl, refl))
Step-Inv {rows} (awaits now id) _ v = paused-Inv id _ rows v (λ r. (refl, refl, refl, refl))
Step-Inv {rows} (resumes id) _ v = resume-Inv id rows v
Step-Inv {rows} (saves_ppt id path text) _ v =
    aside-Inv id _ rows v (λ r. (refl, refl, refl, refl, refl))
Step-Inv {rows} (reads_images id status summary) _ v =
    aside-Inv id _ rows v (λ r. (refl, refl, refl, refl, refl))
Step-Inv {rows} (transcribes id index content) _ v =
    aside-Inv id _ rows v (λ r. (refl, refl, refl, refl, refl))
Step-Inv {rows} (summarizes id m) _ v = aside-Inv id _ rows v (λ r. (refl, refl, refl, refl, refl))
Step-Inv {rows} (clears id) _ v = aside-Inv id _ rows v (λ r. (refl, refl, refl, refl, refl))

-- The states that the repository can be in.
pub data Reach : List Row → Type 0 where
  here : Reach []
  next : {rows rows' : List Row} → Reach rows → Step rows rows' → Reach rows'

-- Every call on the way was made as the callers see to.
abbrev pub AllCalled : {rows : List Row} → Reach rows → Type 0
AllCalled here = Unit {0}
AllCalled (next r s) = AllCalled r × IsCalled s

-- In every state that is reached from the empty repository by its operations in any order, when new
-- meetings took identifiers that were not in use and `advance` was not asked for the status
-- `recording`: the duration of a meeting is that of its segments, which are numbered from 0 and have
-- their own files, at most one meeting of a room is recording, and identifiers are still distinct.
pub Reach-Inv : {rows : List Row} (r : Reach rows) → AllCalled r → Inv rows
Reach-Inv here h = empty-Inv
Reach-Inv (next r s) h = Step-Inv s h.1 (Reach-Inv r h.0)
