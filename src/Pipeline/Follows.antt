-- ===== src/Pipeline/Follows.antt =====
-- Steps that follow the status diagram of the meetings, one rule for each way to build a step. They
-- are about the loop and the worker (server/src/meetings/pipeline.ts, worker.ts).
use Prim.Native.String.{String}
use hanmir_talk.Prelude.{
  ◌≡◌, refl, ap, ◌∙◌, inl, inr, Bool, true, false, some, List, [], ◌∷◌, map, arith, ◌==◌,
  if◌then◌else◌, Bool-cases, Option-cases, find_by, modify_by, option_map, Ident,
}
use hanmir_talk.Meeting.{Row, Status, row_id, row_by_id, update_row}
use hanmir_talk.Pipeline.{
  World, Reply, ok, throws, Step, and_then, ◌>>=◌, caught, catching, on_rows,
}
use hanmir_talk.Pipeline.Machine.{
  Stage, stage_of, stage_id, Edge, Move, moves, Moves, still, next, Moves-trans,
}
use hanmir_talk.Pipeline.Stillness.{spine, Still}

pub find-stage :
    (id : Ident) (rows : List Row)
    → find_by stage_id id (map stage_of rows) ≡ option_map stage_of (row_by_id id rows)
find-stage id [] = refl
find-stage id (r ∷ rows) = ground (arith, find-stage id rows)

-- Changing the first row of an identifier changes its first stage.
spine-modify :
    (id : Ident) (f : Row → Row) (r : Row) (rows : List Row)
    → row_by_id id rows ≡ some r
    → map stage_of (update_row id f rows)
      ≡ modify_by stage_id id (λ _. stage_of (f r)) (map stage_of rows)
spine-modify id f r [] h = absurd (ground arith)
spine-modify id f r (q ∷ rows) h = elim (Bool-cases (row_id q == id)) [
  | inl e ↦ let p : q ≡ r = ground arith in rw (e, p) refl
  | inr e ↦ rw e (ap (λ ss. stage_of q ∷ ss) (spine-modify id f r rows (ground arith)))
]

pub update_row-Move :
    (id : Ident) (f : Row → Row) (r : Row) (rows : List Row)
    → row_by_id id rows ≡ some r
    → Edge (stage_of r) (stage_of (f r))
    → Move (map stage_of rows) (map stage_of (update_row id f rows))
update_row-Move id f r rows h e =
    rw (spine-modify id f r rows h) (moves id (ground (arith, find-stage id rows, h)) e)

-- What a step is started with: anything, or a status of a meeting.
abbrev pub Anything : List Stage → Type 0
Anything ss = Unit {0}

abbrev pub Has : Ident → Status → List Stage → Type 0
Has id s ss = (a : Stage) × (find_by stage_id id ss ≡ some a) × (a.status ≡ s)

-- Started with P, the step follows the diagram, whether it returns or throws.
pub record Follows {A : Type 0} (P : List Stage → Type 0) (m : Step A) : Type 0 where
  pub follows : (w : World) → P (spine w) → Moves (spine w) (spine (m w).0)

module _ {A : Type 0} where
  Follows-caught :
      (k : String → Step A) (ss : List Stage) (t : World × Reply A)
      → ((x : String) → Still (k x))
      → Moves ss (spine t.0)
      → Moves ss (spine (caught t k).0)
  Follows-caught k ss (w, ok a) g h = h
  Follows-caught k ss (w, throws x) g h = rw ((g x).keeps w) h

module _ {A B : Type 0} where
  Follows-and_then :
      (k : A → Step B) (ss : List Stage) (t : World × Reply A)
      → ((a : A) → Follows Anything (k a))
      → Moves ss (spine t.0)
      → Moves ss (spine (and_then t k).0)
  Follows-and_then k ss (w, ok a) g h = Moves-trans h ((g a).follows w tt)
  Follows-and_then k ss (w, throws x) g h = h

module _ {A : Type 0} {P : List Stage → Type 0} where
  pub Follows-unmoved : (m : Step A) → Still m → Follows P m
  Follows-unmoved m h = record { follows = λ w v. rw (h.keeps w) still }

  pub Follows-any : (m : Step A) → Follows Anything m → Follows P m
  Follows-any m h = record { follows = λ w v. h.follows w tt }

  pub Follows-if :
      (b : Bool) (m n : Step A) → Follows P m → Follows P n → Follows P (if b then m else n)
  Follows-if true m n h g = h
  Follows-if false m n h g = g

  pub Follows-catching :
      (m : Step A) (k : String → Step A)
      → Follows P m
      → ((x : String) → Still (k x))
      → Follows P (catching m k)
  unfolding catching
  Follows-catching m k h g = record {
    follows = λ w v. Follows-caught k (spine w) (m w) g (h.follows w v);
  }

module _ {A B : Type 0} {P : List Stage → Type 0} where
  -- A step, then anything that follows the diagram.
  pub Follows-bind :
      (m : Step A) (k : A → Step B)
      → Follows P m
      → ((a : A) → Follows Anything (k a))
      → Follows P (m >>= k)
  unfolding ◌>>=◌
  Follows-bind m k h g = record {
    follows = λ w v. Follows-and_then k (spine w) (m w) g (h.follows w v);
  }

  Follows-and_still :
      (k : A → Step B) (ss : List Stage) (t : World × Reply A)
      → ((a : A) → Follows P (k a))
      → P ss
      → spine t.0 ≡ ss
      → Moves ss (spine (and_then t k).0)
  Follows-and_still k ss (w, ok a) g v e = rw e at ((g a).follows w (rw e v))
  Follows-and_still k ss (w, throws x) g v e = rw e still

  -- A step that changes no stage, then one that is started with the same.
  pub Still-Follows :
      (m : Step A) (k : A → Step B) → Still m → ((a : A) → Follows P (k a)) → Follows P (m >>= k)
  unfolding ◌>>=◌
  Still-Follows m k h g = record {
    follows = λ w v. Follows-and_still k (spine w) (m w) g v (h.keeps w);
  }

-- A change of the meeting that the diagram has an edge for.
pub update_row-Follows :
    (id : Ident) (s : Status) (f : Row → Row)
    → ((r : Row) → r.meeting.status ≡ s → Edge (stage_of r) (stage_of (f r)))
    → Follows (Has id s) (on_rows (update_row id f))
unfolding on_rows
update_row-Follows id s f h = record {
  follows = λ w v. elim (Option-cases (row_by_id id w.rows)) [
    | inl e ↦ absurd (ground (arith, find-stage id w.rows, e, v.1))
    | inr (r, e) ↦
        let q : stage_of r ≡ v.0 = ground (arith, find-stage id w.rows, e, v.1) in
        next still (update_row-Move id f r w.rows e (h r (ap (λ (a : Stage). a.status) q ∙ v.2)))
  ];
}
