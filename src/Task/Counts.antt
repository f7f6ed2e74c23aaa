-- ===== src/Task/Counts.antt =====
-- The counts that a project shows are those of its tasks, whatever is created, changed or deleted
-- (recomputeProjectCounts, server/src/repositories/memory.ts).
use Prim.Native.String.{String}
use hanmir_talk.Prelude.{
  ◌≡◌, refl, ◌∙◌, inl, inr, true, false, not, some, List, [], ◌∷◌, ◌++◌, arith, ◌==◌, Bool-cases,
  Option-cases, All, filter, find_by, modify_by, remove_by, Fresh, Distinct, Ident,
}
use hanmir_talk.Prelude.{All-remove, Distinct-modify_by}
use hanmir_talk.Project.{Project, project_id}
use hanmir_talk.Task.{
  Task, Board, task_id, in_project, counts_of, delayed_of, counted, recompute_project_counts,
  recounted, is_child_of, CreateTask, UpdateTask, new_task, edit_task, create_task, update_task,
  delete_task,
}

-- The project shows the counts of its tasks.
abbrev pub IsCounted : List Task → Project → Type 0
IsCounted ts p =
    (p.task_counts ≡ counts_of (filter (in_project p.id) ts))
    × (p.delayed_count ≡ delayed_of (filter (in_project p.id) ts))

module _ (ts us : List Task) (j : Ident)
    (same : (k : Ident)
      → (j == k) ≡ false
      → filter (in_project k) us ≡ filter (in_project k) ts) where
  other-IsCounted : (p : Project) → (p.id == j) ≡ false → IsCounted ts p → IsCounted us p
  other-IsCounted p e c = let q = same p.id (ground (arith, e)) in (rw q c.0, rw q c.1)

  others-IsCounted :
      (ps : List Project) → Fresh project_id j ps → All (IsCounted ts) ps → All (IsCounted us) ps
  others-IsCounted [] f c = tt
  others-IsCounted (p ∷ ps) f c =
      (other-IsCounted p (ground arith) c.0, others-IsCounted ps f.1 c.1)

  -- Counting one project again is enough when the tasks of the others are the same.
  recompute-IsCounted :
      (ps : List Project)
      → Distinct project_id ps
      → All (IsCounted ts) ps
      → All (IsCounted us) (recompute_project_counts ps us j)
  unfolding recompute_project_counts
  recompute-IsCounted [] d c = tt
  recompute-IsCounted (p ∷ ps) d c = elim (Bool-cases (p.id == j)) [
    | inl e ↦
        let q : p.id ≡ j = ground arith in
        rw e ((rw q refl, rw q refl), others-IsCounted ps (rw (← q) d.0) c.1)
    | inr e ↦ rw e (other-IsCounted p e c.0, recompute-IsCounted ps d.1 c.1)
  ]

filter-push :
    (k : Ident) (t : Task) (ts : List Task)
    → (t.project_id == k) ≡ false
    → filter (in_project k) (ts ++ t ∷ []) ≡ filter (in_project k) ts
filter-push k t [] e = ground (arith, e)
filter-push k t (u ∷ ts) e = ground (arith, filter-push k t ts e)

filter-edit :
    (id k : Ident) (input : UpdateTask) (ts : List Task) (t : Task)
    → find_by task_id id ts ≡ some t
    → (t.project_id == k) ≡ false
    → filter (in_project k) (modify_by task_id id (edit_task input) ts) ≡ filter (in_project k) ts
filter-edit id k input [] t f e = refl
filter-edit id k input (u ∷ ts) t f e = elim (Bool-cases (u.id == id)) [
  | inl q ↦
      let r : u ≡ t = ground arith in let n : (u.project_id == k) ≡ false = rw r e in rw (q, n) refl
  | inr q ↦ let h = filter-edit id k input ts t (ground arith) e in rw (q, h) refl
]

filter-children :
    (id j k : Ident) (ts : List Task)
    → All (λ c. is_child_of id c ≡ true → c.project_id ≡ j) ts
    → (j == k) ≡ false
    → filter (in_project k) (filter (λ c. not (is_child_of id c)) ts) ≡ filter (in_project k) ts
filter-children id j k [] h e = refl
filter-children id j k (u ∷ ts) h e = elim (Bool-cases (is_child_of id u)) [
  | inl q ↦
      let n : (u.project_id == k) ≡ false = rw (h.0 q) e in
      rw (q, n) (filter-children id j k ts h.1 e)
  | inr q ↦ rw (q, filter-children id j k ts h.1 e) refl
]

filter-remove :
    (id k : Ident) (ts : List Task) (t : Task)
    → find_by task_id id ts ≡ some t
    → (t.project_id == k) ≡ false
    → filter (in_project k) (remove_by task_id id ts) ≡ filter (in_project k) ts
filter-remove id k [] t f e = refl
filter-remove id k (u ∷ ts) t f e = elim (Bool-cases (u.id == id)) [
  | inl q ↦
      let r : u ≡ t = ground arith in let n : (u.project_id == k) ≡ false = rw r e in rw (q, n) refl
  | inr q ↦ let h = filter-remove id k ts t (ground arith) e in rw (q, h) refl
]

-- The projects are distinct and show the counts of their tasks.
abbrev pub BoardInv : Board → Type 0
BoardInv b = Distinct project_id b.projects × All (IsCounted b.tasks) b.projects

recounted-BoardInv :
    (j : Ident) (us : List Task) (b : Board)
    → ((k : Ident) → (j == k) ≡ false → filter (in_project k) us ≡ filter (in_project k) b.tasks)
    → BoardInv b
    → BoardInv (recounted j us b)
unfolding recounted recompute_project_counts
recounted-BoardInv j us b same i = (
  Distinct-modify_by project_id j (counted (filter (in_project j) us)) b.projects (λ p. refl) i.0,
  recompute-IsCounted b.tasks us j same b.projects i.0 i.1,
)

new_task-project_id :
    (id : Ident) (upper_id : String) (project : Ident) (input : CreateTask)
    → (new_task id upper_id project input).project_id ≡ project
unfolding new_task
new_task-project_id id upper_id project input = refl

-- Where projects have distinct identifiers and show the counts of their tasks, creating and changing
-- a task keep it so.
pub create_update-BoardInv :
    (b : Board)
    → BoardInv b
    → ((id project : Ident) (upper_id : String) (input : CreateTask)
        → BoardInv (create_task id upper_id project input b).0)
      × ((id : Ident) (input : UpdateTask) → BoardInv (update_task id input b).0)
unfolding create_task update_task
create_update-BoardInv b i = (created, updated)
  where
    created :
        (id project : Ident) (upper_id : String) (input : CreateTask)
        → BoardInv (create_task id upper_id project input b).0
    created id project upper_id input =
        let t = new_task id upper_id project input in
        recounted-BoardInv project (b.tasks ++ t ∷ []) b
          (λ k e. filter-push k t b.tasks (rw (new_task-project_id id upper_id project input) e)) i

    updated : (id : Ident) (input : UpdateTask) → BoardInv (update_task id input b).0
    updated id input = elim (Option-cases (find_by task_id id b.tasks)) [
      | inl n ↦ rw (n, update_task) i
      | inr (t, n) ↦
          rw (n, update_task)
            (recounted-BoardInv t.project_id _ b (λ k e. filter-edit id k input b.tasks t n e) i)
    ]

-- Where projects have distinct identifiers and show the counts of their tasks, deleting a task whose
-- direct children are in its project keeps it so.
pub delete_task-BoardInv :
    (id : Ident) (t : Task) (b : Board)
    → BoardInv b
    → find_by task_id id b.tasks ≡ some t
    → All (λ c. is_child_of id c ≡ true → c.project_id ≡ t.project_id) b.tasks
    → BoardInv (delete_task id b).0
unfolding delete_task
delete_task-BoardInv id t b i n h =
    rw (n, delete_task)
      (recounted-BoardInv t.project_id _ b
        (λ k e.
          filter-children id t.project_id k (remove_by task_id id b.tasks)
            (All-remove _ _ b.tasks h) e
          ∙ filter-remove id k b.tasks t n e)
        i)
