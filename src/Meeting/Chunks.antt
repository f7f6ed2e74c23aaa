-- ===== src/Meeting/Chunks.antt =====
-- Chunks of one segment: what recordChunk (server/src/repositories/memory.ts) accepts over a whole
-- sequence of uploads, retransmissions included.
use hanmir_talk.Prelude.{
  ℕ, ◌+◌, ◌<◌, ◌≡◌, refl, ◌⊎◌, inl, inr, Option, some, List, [], ◌∷◌, arith, Option-cases, length,
  modify_by, option_bind, Ident, sum_of,
}
use hanmir_talk.Prelude.{find_by-modify_by}
use hanmir_talk.Meeting.{Row, Segment, row_by_id, row_id}
use hanmir_talk.Meeting.Recording.{
  Chunk, ChunkResult, accepted, duplicate, gap, seg_by_index, accept_chunk, accept_row,
  record_chunk,
}

-- The segment that the code looks up for a chunk.
abbrev pub segment_at : Ident → ℕ → List Row → Option Segment
segment_at id index rows = option_bind (λ r. seg_by_index index r.segments) (row_by_id id rows)

pub keep_accepted : ChunkResult → Chunk → List Chunk → List Chunk
keep_accepted accepted c cs = c ∷ cs
keep_accepted other c cs = cs

-- A sequence of uploads to one segment, each at its own time, and the chunks that were accepted.
pub upload : Ident → ℕ → List (ℕ × Chunk) → List Row → List Row × List Chunk
upload id index [] rows = (rows, [])
upload id index ((now, c) ∷ cs) rows =
    let (rows', result) = record_chunk now id index c rows in
    let (final, rest) = upload id index cs rows' in (final, keep_accepted result c rest)

-- The sequence numbers count up from n.
abbrev pub Consecutive : ℕ → List Chunk → Type 0
Consecutive n [] = Unit {0}
Consecutive n (c ∷ cs) = (c.seq ≡ n) × Consecutive (n + 1) cs

-- The segment after the accepted chunks.
abbrev pub extended : Segment → List Chunk → Segment
extended s cs = record s {
  next_seq = s.next_seq + length cs;
  bytes = s.bytes + sum_of (λ c. c.bytes) cs;
  duration_ms = s.duration_ms + sum_of (λ c. c.duration_ms) cs;
}

segment_at-accept :
    (now : ℕ) (id : Ident) (index : ℕ) (c : Chunk) (rows : List Row) (s : Segment)
    → segment_at id index rows ≡ some s
    → segment_at id index (modify_by row_id id (accept_row now index c) rows)
      ≡ some (accept_chunk c s)
segment_at-accept now id index c rows s h = elim (Option-cases (row_by_id id rows)) [
  | inl e ↦ absurd (ground arith)
  | inr (r, e) ↦ ground (
    arith,
    find_by-modify_by row_id id id (accept_row now index c) rows (λ a. refl),
    find_by-modify_by (λ (x : Segment). x.seg_index) index index (accept_chunk c) r.segments
        (λ a. refl),
  )
]

-- The three answers for a segment that exists.
pub record_chunk-cases :
    (now : ℕ) (id : Ident) (index : ℕ) (c : Chunk) (rows : List Row) (s : Segment)
    → segment_at id index rows ≡ some s
    → ((record_chunk now id index c rows ≡ (rows, duplicate)) × (c.seq < s.next_seq))
      ⊎ (((record_chunk now id index c rows ≡ (rows, gap)) × (s.next_seq < c.seq))
          ⊎ ((record_chunk now id index c rows
                ≡ (modify_by row_id id (accept_row now index c) rows, accepted))
              × (c.seq ≡ s.next_seq)))
unfolding record_chunk
record_chunk-cases now id index c rows s h = ground arith

-- Whatever chunks are uploaded to a segment, in whatever order and with whatever repetitions, those
-- accepted are numbered one after the other from the next number on, and the segment has grown by
-- exactly them.
pub upload_all :
    (id : Ident) (index : ℕ) (cs : List (ℕ × Chunk)) (rows : List Row) (s : Segment)
    → segment_at id index rows ≡ some s
    → Consecutive s.next_seq (upload id index cs rows).1
      × (segment_at id index (upload id index cs rows).0
          ≡ some (extended s (upload id index cs rows).1))
unfolding upload keep_accepted
upload_all id index [] rows s h = (tt, ground arith)
upload_all id index ((now, c) ∷ cs) rows s h = elim (record_chunk-cases now id index c rows s h) [
  | inl (e, _) ↦ rw (e, keep_accepted) (upload_all id index cs rows s h)
  | inr (inl (e, _)) ↦ rw (e, keep_accepted) (upload_all id index cs rows s h)
  | inr (inr (e, q)) ↦
      let (run, final) =
        upload_all id index cs _ (accept_chunk c s) (segment_at-accept now id index c rows s h) in
      rw (e, keep_accepted) ((q, rw (← q) run), ground (arith, final))
]
