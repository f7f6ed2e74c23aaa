-- ===== src/Decision/Deleting.antt =====
-- What stays of a deleted decision (server/src/repositories/memory.ts).
use hanmir_talk.Prelude.{
  ℕ, ◌≡◌, refl, sym, ap, ◌∙◌, ◌≢◌, inl, inr, true, false, Option, some, List, [], ◌∷◌, arith,
  if◌then◌else◌, Bool-cases, Option-cases, All, find_by, modify_by, or_else, option_map, Ident,
}
use hanmir_talk.Prelude.{find_by-modify_by, find_by-key}
use hanmir_talk.Decision.{
  DecisionRow, Decision, Decisions, Accessors, DecisionInput, DecisionUpdate, decision_id,
  deleted_text, decorate, find_decision, new_decision, create_decision, updated_row,
  update_decision, deleted_row, soft_delete_decision, confirm_decision,
}
use hanmir_talk.Decision.Viewing.{SameFor, confirm-SameFor, decorate-SameFor}

-- A call that changes the repository, with the instant and what is drawn at random.
pub data DecisionOp : Type 0 where
  creates : Ident → ℕ → ℕ → Ident → DecisionInput → Ident → DecisionOp
  updates : ℕ → Ident → DecisionUpdate → DecisionOp
  deletes : ℕ → Ident → DecisionOp
  confirms : ℕ → Ident → Ident → DecisionOp

unfoldable run_decision : Accessors → DecisionOp → Decisions → Decisions
unfolding create_decision update_decision soft_delete_decision confirm_decision
run_decision acc (creates id now today project input by_user) s =
    (create_decision acc id now today project input by_user s).0
run_decision acc (updates now id input) s = (update_decision acc now id input s).0
run_decision acc (deletes now id) s = (soft_delete_decision now id s).0
run_decision acc (confirms now id user) s = (confirm_decision acc now id user s).0

-- The calls, in order.
unfoldable pub run_decisions : Accessors → List DecisionOp → Decisions → Decisions
unfolding run_decision
run_decisions acc [] s = s
run_decisions acc (op ∷ ops) s = run_decisions acc ops (run_decision acc op s)

-- No new decision takes the identifier.
abbrev Spares : Ident → DecisionOp → Type 0
Spares k (creates id now today project input by_user) = id ≢ k
Spares k (updates now id input) = Unit {0}
Spares k (deletes now id) = Unit {0}
Spares k (confirms now id user) = Unit {0}

-- The decision is deleted, and nothing a viewer sees of it differs.
abbrev SameTombstone : Ident → DecisionRow → Decisions → Decisions → Type 0
SameTombstone k r s s' =
    (find_by decision_id k s'.rows ≡ some r) × SameFor k s.confirmations s'.confirmations

unchanged :
    (k : Ident) (r : DecisionRow) (s : Decisions)
    → find_by decision_id k s.rows ≡ some r
    → SameTombstone k r s s
unchanged k r s e = (e, ((λ u. refl), refl))

create_decision-SameTombstone :
    (acc : Accessors) (k id : Ident) (now today : ℕ) (project : Ident) (input : DecisionInput)
    (by_user : Ident) (r : DecisionRow) (s : Decisions)
    → find_by decision_id k s.rows ≡ some r
    → id ≢ k
    → SameTombstone k r s (create_decision acc id now today project input by_user s).0
unfolding create_decision new_decision
create_decision-SameTombstone acc k id now today project input by_user r s e n =
    (ground (arith, e, n), ((λ u. refl), refl))

-- The rows after a change of the row of one identifier.
modified-found :
    (k id : Ident) (f : DecisionRow → DecisionRow) (r : DecisionRow) (s : Decisions)
    → ((x : DecisionRow) → (f x).id ≡ x.id)
    → find_by decision_id k s.rows ≡ some r
    → id ≢ k
    → SameTombstone k r s (record s { rows = modify_by decision_id id f s.rows })
modified-found k id f r s h e n =
    (ground (arith, find_by-modify_by decision_id k id f s.rows h, e, n), ((λ u. refl), refl))

-- A deleted decision and one that is not have different identifiers.
apart :
    (k id : Ident) (r q : DecisionRow) (s : Decisions)
    → find_by decision_id k s.rows ≡ some r
    → find_by decision_id id s.rows ≡ some q
    → r.is_deleted ≡ true
    → q.is_deleted ≡ false
    → id ≢ k
apart k id r q s e f d g j =
    let same : some q ≡ some r = sym f ∙ ap (λ i. find_by decision_id i s.rows) j ∙ e in
    let flags : q.is_deleted ≡ r.is_deleted =
      ap (λ o. or_else (option_map (λ (x : DecisionRow). x.is_deleted) o) true) same in
    ground (arith, flags, d, g)

update_decision-SameTombstone :
    (acc : Accessors) (k : Ident) (now : ℕ) (id : Ident) (input : DecisionUpdate) (r : DecisionRow)
    (s : Decisions)
    → find_by decision_id k s.rows ≡ some r
    → r.is_deleted ≡ true
    → SameTombstone k r s (update_decision acc now id input s).0
unfolding update_decision
update_decision-SameTombstone acc k now id input r s e d =
    elim (Option-cases (find_by decision_id id s.rows)) [
      | inl f ↦ rw (f, update_decision) (unchanged k r s e)
      | inr (q, f) ↦ elim (Bool-cases q.is_deleted) [
        | inl g ↦ rw (f, update_decision) (rw g (unchanged k r s e))
        | inr g ↦
            rw (f, update_decision)
              (rw g (
                modified-found k id (updated_row now input) r s (λ x. refl) e
                  (apart k id r q s e f d g)))
      ]
    ]

soft_delete_decision-SameTombstone :
    (k : Ident) (now : ℕ) (id : Ident) (r : DecisionRow) (s : Decisions)
    → find_by decision_id k s.rows ≡ some r
    → r.is_deleted ≡ true
    → SameTombstone k r s (soft_delete_decision now id s).0
unfolding soft_delete_decision
soft_delete_decision-SameTombstone k now id r s e d =
    elim (Option-cases (find_by decision_id id s.rows)) [
      | inl f ↦ rw (f, soft_delete_decision) (unchanged k r s e)
      | inr (q, f) ↦ elim (Bool-cases q.is_deleted) [
        | inl g ↦ rw (f, soft_delete_decision) (rw g (unchanged k r s e))
        | inr g ↦
            rw (f, soft_delete_decision)
              (rw g (
                modified-found k id (deleted_row now) r s (λ x. refl) e (apart k id r q s e f d g)))
      ]
    ]

confirm_decision-SameTombstone :
    (acc : Accessors) (k : Ident) (now : ℕ) (id user : Ident) (r : DecisionRow) (s : Decisions)
    → find_by decision_id k s.rows ≡ some r
    → r.is_deleted ≡ true
    → SameTombstone k r s (confirm_decision acc now id user s).0
unfolding confirm_decision
confirm_decision-SameTombstone acc k now id user r s e d =
    elim (Option-cases (find_by decision_id id s.rows)) [
      | inl f ↦ rw (f, confirm_decision) (unchanged k r s e)
      | inr (q, f) ↦ elim (Bool-cases q.is_deleted) [
        | inl g ↦ rw (f, confirm_decision) (rw g (unchanged k r s e))
        | inr g ↦
            rw (f, confirm_decision)
              (rw g (e, confirm-SameFor now user id k s.confirmations (apart k id r q s e f d g)))
      ]
    ]

run_decision-SameTombstone :
    (acc : Accessors) (k : Ident) (r : DecisionRow) (op : DecisionOp) (s : Decisions)
    → find_by decision_id k s.rows ≡ some r
    → r.is_deleted ≡ true
    → Spares k op
    → SameTombstone k r s (run_decision acc op s)
unfolding run_decision
run_decision-SameTombstone acc k r (creates id now today project input by_user) s e d n =
    create_decision-SameTombstone acc k id now today project input by_user r s e n
run_decision-SameTombstone acc k r (updates now id input) s e d n =
    update_decision-SameTombstone acc k now id input r s e d
run_decision-SameTombstone acc k r (deletes now id) s e d n =
    soft_delete_decision-SameTombstone k now id r s e d
run_decision-SameTombstone acc k r (confirms now id user) s e d n =
    confirm_decision-SameTombstone acc k now id user r s e d

run_decisions-SameTombstone :
    (acc : Accessors) (k : Ident) (r : DecisionRow) (ops : List DecisionOp) (s : Decisions)
    → find_by decision_id k s.rows ≡ some r
    → r.is_deleted ≡ true
    → All (Spares k) ops
    → SameTombstone k r s (run_decisions acc ops s)
unfolding run_decisions
run_decisions-SameTombstone acc k r [] s e d n = unchanged k r s e
run_decisions-SameTombstone acc k r (op ∷ ops) s e d n =
    let one = run_decision-SameTombstone acc k r op s e d n.0 in
    let rest = run_decisions-SameTombstone acc k r ops (run_decision acc op s) one.0 d n.1 in
    (rest.0, ((λ u. rest.1.0 u ∙ one.1.0 u), rest.1.1 ∙ one.1.1))

find_decision-deleted :
    (acc : Accessors) (k : Ident) (r : DecisionRow) (ops : List DecisionOp) (viewer : Option Ident)
    (s : Decisions)
    → find_by decision_id k s.rows ≡ some r
    → r.is_deleted ≡ true
    → All (Spares k) ops
    → (find_decision acc k viewer (run_decisions acc ops s) ≡ find_decision acc k viewer s)
      × (option_map (λ (v : Decision). v.title) (find_decision acc k viewer s) ≡ some deleted_text)
      × (option_map (λ (v : Decision). v.content) (find_decision acc k viewer s)
          ≡ some deleted_text)
unfolding find_decision decorate
find_decision-deleted acc k r ops viewer s e d n =
    let last = run_decisions-SameTombstone acc k r ops s e d n in
    let same : r.id ≡ k = find_by-key decision_id k s.rows e in
    (
      rw (last.0, e)
          (ap some (
            decorate-SameFor acc s.confirmations (run_decisions acc ops s).confirmations viewer r
              (rw same last.1))),
      rw e (rw d refl),
      rw e (rw d refl),
    )

-- The row once it is deleted.
abbrev tombstone : ℕ → DecisionRow → DecisionRow
tombstone now r = if r.is_deleted then r else deleted_row now r

tombstone-is_deleted : (now : ℕ) (r : DecisionRow) → (tombstone now r).is_deleted ≡ true
tombstone-is_deleted now r = elim (Bool-cases r.is_deleted) [
  | inl e ↦ simp e refl
  | inr e ↦ rw e refl
]

soft_delete_decision-found :
    (now : ℕ) (k : Ident) (r : DecisionRow) (s : Decisions)
    → find_by decision_id k s.rows ≡ some r
    → ((soft_delete_decision now k s).1 ≡ true)
      × (find_by decision_id k (soft_delete_decision now k s).0.rows ≡ some (tombstone now r))
unfolding soft_delete_decision
soft_delete_decision-found now k r s e = elim (Bool-cases r.is_deleted) [
  | inl d ↦ rw (e, soft_delete_decision) (simp d (refl, e))
  | inr d ↦
      rw (e, soft_delete_decision)
        (rw d (
          refl,
          ground (arith, find_by-modify_by decision_id k k (deleted_row now) s.rows (λ x. refl), e),
        ))
]

-- A decision that is there is deleted: its title and content read as the fixed text, and after any
-- sequence of further calls, in which no new decision takes its identifier, every viewer finds it
-- as it was right after it was deleted, with the same number of confirmations.
pub soft_delete_decision-final :
    (acc : Accessors) (now : ℕ) (k : Ident) (r : DecisionRow) (ops : List DecisionOp)
    (viewer : Option Ident) (s : Decisions)
    → find_by decision_id k s.rows ≡ some r
    → All (Spares k) ops
    → ((soft_delete_decision now k s).1 ≡ true)
      × (find_decision acc k viewer (run_decisions acc ops (soft_delete_decision now k s).0)
          ≡ find_decision acc k viewer (soft_delete_decision now k s).0)
      × (option_map
            (λ (v : Decision). v.title)
            (find_decision acc k viewer (soft_delete_decision now k s).0)
          ≡ some deleted_text)
      × (option_map
            (λ (v : Decision). v.content)
            (find_decision acc k viewer (soft_delete_decision now k s).0)
          ≡ some deleted_text)
soft_delete_decision-final acc now k r ops viewer s e n =
    let found = soft_delete_decision-found now k r s e in
    let rest =
      find_decision-deleted acc k (tombstone now r) ops viewer (soft_delete_decision now k s).0
        found.1 (tombstone-is_deleted now r) n in
    (found.0, rest.0, rest.1, rest.2)
