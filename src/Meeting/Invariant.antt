-- ===== src/Meeting/Invariant.antt =====
-- What every operation of MemoryMeetingRepository (server/src/repositories/memory.ts) keeps.
use Prim.Native.String.{String}
use hanmir_talk.Prelude.{
  ℕ, ◌+◌, ◌≤◌, ◌≡◌, refl, ap, inl, inr, true, false, Option, some, List, [], ◌∷◌, ◌++◌, arith, ◌==◌,
  Bool-cases, length, All, any, count, modify_by, Fresh, Distinct, Ident, sum_of,
}
use hanmir_talk.Prelude.{
  All-modify_by, All-append, Distinct-modify_by, Distinct-push, count-modify-le, count-append,
  count-zero_of_any, sum_of-append, sum_of-modify,
}
use hanmir_talk.Meeting.{Row, Segment, row_id}
use hanmir_talk.Meeting.Recording.{
  Chunk, create, records_in, push_segment, accept_row, accept_chunk, next_seg_index, new_segment,
  seg_by_index, new_row,
}

-- The segments are numbered from n on, and each has its own file.
abbrev pub Numbered : Ident → ℕ → List Segment → Type 0
Numbered id n [] = Unit {0}
Numbered id n (s ∷ ss) =
    (s.seg_index ≡ n) × (s.file_path.meeting ≡ id) × (s.file_path.seg ≡ n) × Numbered id (n + 1) ss

-- The duration of a meeting is that of its segments, which are numbered from 0.
pub record IsSound (r : Row) : Type 0 where
  pub tallied : r.meeting.duration_ms ≡ sum_of (λ s. s.duration_ms) r.segments
  pub numbered : Numbered (row_id r) 0 r.segments

pub record Inv (rows : List Row) : Type 0 where
  pub sound : All IsSound rows
  pub distinct : Distinct row_id rows
  -- At most one meeting of a room is recording.
  pub exclusive : (room : Ident) → count (records_in room) rows ≤ 1

pub empty-Inv : Inv []
empty-Inv = record { sound = tt; distinct = tt; exclusive = λ room. omega arith }

pub next_seg_index-length :
    (id : Ident) (n : ℕ) (segs : List Segment) (s : Segment)
    → Numbered id n (s ∷ segs)
    → next_seg_index (s ∷ segs) ≡ n + length (s ∷ segs)
next_seg_index-length id n [] s h = omega arith
next_seg_index-length id n (t ∷ segs) s h =
    omega (arith, next_seg_index-length id (n + 1) segs t h.3)

next_seg_index-eq :
    (id : Ident) (segs : List Segment) → Numbered id 0 segs → next_seg_index segs ≡ length segs
next_seg_index-eq id [] h = refl
next_seg_index-eq id (s ∷ segs) h = omega (arith, next_seg_index-length id 0 segs s h)

Numbered-push :
    (id : Ident) (n k : ℕ) (segs : List Segment)
    → Numbered id n segs
    → k ≡ n + length segs
    → Numbered id n (segs ++ new_segment id k ∷ [])
Numbered-push id n k [] h e = (omega arith, refl, omega arith, tt)
Numbered-push id n k (s ∷ segs) h e =
    (h.0, h.1, h.2, Numbered-push id (n + 1) k segs h.3 (omega arith))

pub push_segment-IsSound : (r : Row) → IsSound r → IsSound (push_segment r)
push_segment-IsSound r v = record {
  tallied = omega (
    arith,
    v.tallied,
    sum_of-append {0} (λ (s : Segment). s.duration_ms) r.segments
        (new_segment (row_id r) (next_seg_index r.segments) ∷ []),
  );
  numbered =
      Numbered-push _ 0 _ r.segments v.numbered
        (omega (arith, next_seg_index-eq (row_id r) r.segments v.numbered));
}

Numbered-accept :
    (id : Ident) (n index : ℕ) (c : Chunk) (segs : List Segment)
    → Numbered id n segs
    → Numbered id n (modify_by (λ s. s.seg_index) index (accept_chunk c) segs)
Numbered-accept id n index c [] h = tt
Numbered-accept id n index c (s ∷ segs) h = elim (Bool-cases (s.seg_index == index)) [
  | inl e ↦ rw e (h.0, h.1, h.2, h.3)
  | inr e ↦ rw e (h.0, h.1, h.2, Numbered-accept id (n + 1) index c segs h.3)
]

pub accept_row-IsSound :
    (now index : ℕ) (c : Chunk) (r : Row) (s : Segment)
    → seg_by_index index r.segments ≡ some s
    → IsSound r
    → IsSound (accept_row now index c r)
accept_row-IsSound now index c r s e v = record {
  tallied = omega (
    arith,
    v.tallied,
    sum_of-modify {0} (λ (t : Segment). t.duration_ms) (λ (t : Segment). t.seg_index == index)
        (accept_chunk c) c.duration_ms r.segments s e refl,
  );
  numbered = Numbered-accept _ 0 index c r.segments v.numbered;
}

-- A change of one row that keeps its identifier and does not start a recording.
module _ (id : Ident) (f : Row → Row) (same : (r : Row) → row_id (f r) ≡ row_id r)
    (quiet : (room : Ident) (r : Row)
      → records_in room (f r) ≡ true
      → records_in room r ≡ true) where
  pub modify-Inv :
      (rows : List Row)
      → All IsSound (modify_by row_id id f rows)
      → Inv rows
      → Inv (modify_by row_id id f rows)
  modify-Inv rows s v = record {
    sound = s;
    distinct = Distinct-modify_by row_id id f rows same v.distinct;
    exclusive = λ room. omega (
      arith,
      v.exclusive room,
      count-modify-le {0} (records_in room) (λ (x : Row). row_id x == id) f rows (quiet room),
    );
  }

  pub quiet-Inv :
      (rows : List Row)
      → ((r : Row) → IsSound r → IsSound (f r))
      → Inv rows
      → Inv (modify_by row_id id f rows)
  quiet-Inv rows k v =
      modify-Inv rows (All-modify_by row_id IsSound id f rows (λ r _ s. k r s) v.sound) v

pub create-Inv :
    (u : Ident → Option String) (id : Ident) (now : ℕ) (room : Ident) (title : String)
    (starter : Ident) (rows : List Row)
    → Fresh row_id id rows
    → Inv rows
    → Inv (create u id now room title starter rows).0
unfolding create
create-Inv u id now room title starter rows f v = elim (Bool-cases (any (records_in room) rows)) [
  | inl e ↦ rw e v
  | inr e ↦ rw e (record {
    sound =
        All-append IsSound rows (row ∷ []) v.sound (record { tallied = refl; numbered = tt }, tt);
    distinct = Distinct-push row_id row rows f v.distinct;
    exclusive = λ q. one q e;
  })
]
  where
    row : Row
    row = new_row id now room title starter

    one :
        (q : Ident)
        → any (records_in room) rows ≡ false
        → count (records_in q) (rows ++ row ∷ []) ≤ 1
    one q e = ground (
      arith,
      v.exclusive q,
      count-append (records_in q) rows (row ∷ []),
      count-zero_of_any (records_in room) rows e,
      ap (λ k. count (records_in k) rows) {x = q} {y = room},
    )
