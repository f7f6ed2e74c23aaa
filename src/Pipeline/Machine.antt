-- ===== src/Pipeline/Machine.antt =====
-- The status diagram of a meeting, as the worker moves meetings along it
-- (server/src/meetings/worker.ts, pipeline.ts, finish.ts): the abstract machine that the poll
-- implements. A stage is what the diagram sees of a meeting.
use hanmir_talk.Prelude.{
  ℕ, ◌+◌, ◌-◌, ◌*◌, ◌≤◌, ◌<◌, ◌≡◌, refl, ap, ◌⊎◌, inl, inr, Bool, true, false, some, List, [], ◌∷◌,
  arith, ◌==◌, if◌then◌else◌, Bool-cases, All, find_by, modify_by, Fresh, Distinct, Ident, sum_of,
}
use hanmir_talk.Prelude.{All-modify_found}
use hanmir_talk.Meeting.{
  Row, Status, recording, pending, transcribing, awaiting_ppt, summarizing, generating_docs,
  completed, failed, cancelled, is_claimable,
}

pub record Stage : Type 0 where
  pub id : Ident
  pub status : Status
  pub attempts : ℕ

abbrev pub stage_id : Stage → Ident
stage_id s = s.id

abbrev pub stage_of : Row → Stage
stage_of r = record { id = r.meeting.id; status = r.meeting.status; attempts = r.attempts }

abbrev pub max_attempts : ℕ
max_attempts = 3

-- One change of one stage. A claim counts an attempt and is given up after three; a stage that is
-- done starts the next one with no attempts.
pub data Edge (a : Stage) : Stage → Type 0 where
  finishes : a.status ≡ recording → Edge a (record a { status = pending })
  empties : a.status ≡ pending → Edge a (record a { status = failed })
  resumes : a.status ≡ awaiting_ppt → Edge a (record a { status = summarizing; attempts = 0 })
  claims :
      is_claimable a.status ≡ true
      → a.attempts < max_attempts
      → Edge a (record a { attempts = a.attempts + 1 })
  gives_up :
      is_claimable a.status ≡ true
      → max_attempts ≤ a.attempts
      → Edge a (record a { status = failed; attempts = a.attempts + 1 })
  starts : a.status ≡ pending → Edge a (record a { status = transcribing; attempts = 0 })
  awaits : a.status ≡ transcribing → Edge a (record a { status = awaiting_ppt; attempts = 0 })
  summarizes : a.status ≡ summarizing → Edge a (record a { status = generating_docs; attempts = 0 })
  completes : a.status ≡ generating_docs → Edge a (record a { status = completed; attempts = 0 })

-- A move follows an edge from the first stage of an identifier.
pub data Move (ss : List Stage) : List Stage → Type 0 where
  moves :
      (id : Ident) {a b : Stage}
      → find_by stage_id id ss ≡ some a
      → Edge a b
      → Move ss (modify_by stage_id id (λ _. b) ss)

pub data Moves (ss : List Stage) : List Stage → Type 0 where
  still : Moves ss ss
  next : {ts us : List Stage} → Moves ss ts → Move ts us → Moves ss us

pub Moves-trans : {ss ts us : List Stage} → Moves ss ts → Moves ts us → Moves ss us
Moves-trans m still = m
Moves-trans m (next n k) = next (Moves-trans m n) k

-- How far a status is from the end of the diagram.
abbrev rank : Status → ℕ
rank recording = 6
rank pending = 5
rank transcribing = 4
rank awaiting_ppt = 3
rank summarizing = 2
rank generating_docs = 1
rank _ = 0

-- The number of edges that a stage can still follow is at most this.
unfoldable weight : Stage → ℕ
weight s = 5 * rank s.status + (4 - s.attempts)

pub total : List Stage → ℕ
total ss = sum_of weight ss

Edge-weight : {a b : Stage} → Edge a b → weight b < weight a
unfolding weight
Edge-weight (finishes h) = ground (arith, h)
Edge-weight (empties h) = ground (arith, h)
Edge-weight (resumes h) = ground (arith, h)
Edge-weight (claims h k) = ground (arith, h)
Edge-weight (gives_up h k) = ground (arith, h)
Edge-weight (starts h) = ground (arith, h)
Edge-weight (awaits h) = ground (arith, h)
Edge-weight (summarizes h) = ground (arith, h)
Edge-weight (completes h) = ground (arith, h)

Edge-id : {a b : Stage} → Edge a b → stage_id b ≡ stage_id a
Edge-id (finishes h) = refl
Edge-id (empties h) = refl
Edge-id (resumes h) = refl
Edge-id (claims h k) = refl
Edge-id (gives_up h k) = refl
Edge-id (starts h) = refl
Edge-id (awaits h) = refl
Edge-id (summarizes h) = refl
Edge-id (completes h) = refl

-- Three attempts at a stage are the most, unless it was given up.
abbrev pub IsBounded : Stage → Type 0
IsBounded s = (s.attempts ≤ max_attempts) ⊎ (s.status ≡ failed)

Edge-IsBounded : {a b : Stage} → Edge a b → IsBounded a → IsBounded b
Edge-IsBounded (finishes h) (inl k) = inl k
Edge-IsBounded (finishes h) (inr k) = absurd (ground (arith, h, k))
Edge-IsBounded (empties h) k = inr refl
Edge-IsBounded (resumes h) k = inl (omega arith)
Edge-IsBounded (claims h l) k = inl (omega arith)
Edge-IsBounded (gives_up h l) k = inr refl
Edge-IsBounded (starts h) k = inl (omega arith)
Edge-IsBounded (awaits h) k = inl (omega arith)
Edge-IsBounded (summarizes h) k = inl (omega arith)
Edge-IsBounded (completes h) k = inl (omega arith)

total-modify :
    (id : Ident) (a b : Stage) (ss : List Stage)
    → find_by stage_id id ss ≡ some a
    → weight b < weight a
    → total (modify_by stage_id id (λ _. b) ss) < total ss
unfolding total
total-modify id a b [] f w = absurd (ground arith)
total-modify id a b (s ∷ ss) f w = elim (Bool-cases (s.id == id)) [
  | inl e ↦ let q : s ≡ a = ground arith in rw (e, q) (omega (arith, w))
  | inr e ↦ rw e (omega (arith, total-modify id a b ss (ground arith) w))
]

Fresh-modify_found :
    (j id : Ident) (a b : Stage) (ss : List Stage)
    → find_by stage_id id ss ≡ some a
    → stage_id b ≡ stage_id a
    → Fresh stage_id j ss
    → Fresh stage_id j (modify_by stage_id id (λ _. b) ss)
Fresh-modify_found j id a b [] f e d = tt
Fresh-modify_found j id a b (s ∷ ss) f e d = elim (Bool-cases (s.id == id)) [
  | inl q ↦ let p : s ≡ a = ground arith in rw q (ground (arith, p, e), d.1)
  | inr q ↦ rw q (d.0, Fresh-modify_found j id a b ss (ground arith) e d.1)
]

Distinct-modify_found :
    (id : Ident) (a b : Stage) (ss : List Stage)
    → find_by stage_id id ss ≡ some a
    → stage_id b ≡ stage_id a
    → Distinct stage_id ss
    → Distinct stage_id (modify_by stage_id id (λ _. b) ss)
Distinct-modify_found id a b [] f e d = tt
Distinct-modify_found id a b (s ∷ ss) f e d = elim (Bool-cases (s.id == id)) [
  | inl q ↦
      let p : s ≡ a = ground arith in
      let k : b.id ≡ s.id = ground (arith, p, e) in rw q (rw k (d.0), d.1)
  | inr q ↦ rw q (
    Fresh-modify_found s.id id a b ss (ground arith) e d.0,
    Distinct-modify_found id a b ss (ground arith) e d.1,
  )
]

-- Every move brings the meetings nearer to the end.
pub Move-total : {ss ts : List Stage} → Move ss ts → total ts < total ss
Move-total {ss} (moves id {a} {b} f e) = total-modify id a b ss f (Edge-weight e)

pub Moves-total : {ss ts : List Stage} → Moves ss ts → total ts ≤ total ss
Moves-total still = omega arith
Moves-total (next m k) = omega (arith, Moves-total m, Move-total k)

pub Moves-IsBounded : {ss ts : List Stage} → Moves ss ts → All IsBounded ss → All IsBounded ts
Moves-IsBounded still b = b
Moves-IsBounded {ss} (next {ts} m (moves id {a} {b} f e)) h0 =
    let h = Moves-IsBounded m h0 in
    All-modify_found IsBounded (λ s. stage_id s == id) (λ _. b) ts a f (λ k. Edge-IsBounded e k) h

pub Moves-Distinct :
    {ss ts : List Stage} → Moves ss ts → Distinct stage_id ss → Distinct stage_id ts
Moves-Distinct still d = d
Moves-Distinct {ss} (next {ts} m (moves id {a} {b} f e)) d =
    Distinct-modify_found id a b ts f (Edge-id e) (Moves-Distinct m d)

-- The statuses that no edge leaves.
abbrev pub is_done : Status → Bool
is_done completed = true
is_done failed = true
is_done cancelled = true
is_done _ = false

Edge-not_done : {a b : Stage} → Edge a b → is_done a.status ≡ false
Edge-not_done (finishes h) = ground (arith, h)
Edge-not_done (empties h) = ground (arith, h)
Edge-not_done (resumes h) = ground (arith, h)
Edge-not_done {a} (claims h k) = ground (arith, h)
Edge-not_done {a} (gives_up h k) = ground (arith, h)
Edge-not_done (starts h) = ground (arith, h)
Edge-not_done (awaits h) = ground (arith, h)
Edge-not_done (summarizes h) = ground (arith, h)
Edge-not_done (completes h) = ground (arith, h)

find-modify_found :
    (k id : Ident) (a b : Stage) (ss : List Stage)
    → stage_id b ≡ stage_id a
    → find_by stage_id id ss ≡ some a
    → find_by stage_id k (modify_by stage_id id (λ _. b) ss)
      ≡ (if id == k then some b else find_by stage_id k ss)
find-modify_found k id a b [] e f = absurd (ground arith)
find-modify_found k id a b (s ∷ ss) e f = elim (Bool-cases (s.id == id)) [
  | inl q ↦ let p : s ≡ a = ground arith in ground (arith, q, p, e, f)
  | inr q ↦ ground (arith, q, find-modify_found k id a b ss e (ground arith))
]

-- What is done stays as it is.
pub Moves-done :
    {ss ts : List Stage} (k : Ident) (s : Stage)
    → Moves ss ts
    → find_by stage_id k ss ≡ some s
    → is_done s.status ≡ true
    → find_by stage_id k ts ≡ some s
Moves-done k s still f d = f
Moves-done k s (next {ts} m (moves id {a} {b} g e)) f d =
    let h : find_by stage_id k ts ≡ some s = Moves-done k s m f d in
    elim (Bool-cases (id == k)) [
      | inl q ↦
          let p : a ≡ s =
            ground (arith, q, g, h, ap (λ j. find_by stage_id j ts) {x = id} {y = k}) in
          absurd (ground (arith, Edge-not_done e, d, ap (λ (x : Stage). is_done x.status) p))
      | inr q ↦ ground (arith, find-modify_found k id a b ts (Edge-id e) g, h, q)
    ]
