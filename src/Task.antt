-- ===== src/Task.antt =====
-- MemoryTaskRepository (server/src/repositories/memory.ts): tasks, and the counts that a project
-- keeps of its tasks. Dates are texts, which this part only tests for being empty.
pub mod Counts
use Prim.Native.String.{String}
use hanmir_talk.Prelude.{
  ℕ, zero, suc, ◌+◌, ◌-◌, ◌*◌, ◌≤◌, ◌<◌, ◌≡◌, refl, sym, ap, ◌∙◌, ◌≢◌, ◌⊎◌, inl, inr, Bool, true,
  false, not, ◌&&◌, ◌||◌, Option, none, some, List, [], ◌∷◌, ◌++◌, map, arith, ltb, leb, ◌==◌,
  if◌then◌else◌, Bool-cases, Option-cases, length, take, drop, All, find, any, filter, modify,
  remove, count, find_by, has_by, modify_by, remove_by, Fresh, Distinct, is_some, or_else,
  or_option, option_map, option_bind, Ident, given, given_id, sort, first, last, sum_of, max, min,
  lookup, insert, delete, member, add, drop_member, Flags, has_flag, set_flag, clear_flag,
  users_with, clear_all, IsMap, TextOps, deduped,
}
use hanmir_talk.Project.{Project, TaskCounts, project_id, project_by_id}

pub data TaskStatus : Type 0 where
  todo in_progress review on_hold done : TaskStatus

pub data TaskPriority : Type 0 where
  top high normal low : TaskPriority

pub data DueState : Type 0 where
  late today on_time : DueState

pub record Task : Type 0 where
  pub id : Ident
  pub code : String
  pub project_id : Ident
  pub title : String
  pub status : TaskStatus
  pub priority : TaskPriority
  pub assignee_ids : List Ident
  pub reviewer_id : Option Ident
  pub start_date : Option String
  pub due_date : Option String
  pub due_label : String
  pub due_state : Option DueState
  pub delay_days : Option ℕ
  pub progress : ℕ
  pub parent_id : Option Ident
  pub is_key_task : Bool
  pub milestone_id : Option Ident

abbrev pub task_id : Task → Ident
task_id t = t.id

abbrev pub in_project : Ident → Task → Bool
in_project j t = t.project_id == j

abbrev pub is_done : TaskStatus → Bool
is_done done = true
is_done _ = false

abbrev pub is_active : TaskStatus → Bool
is_active in_progress = true
is_active review = true
is_active _ = false

abbrev pub is_waiting : TaskStatus → Bool
is_waiting todo = true
is_waiting on_hold = true
is_waiting _ = false

abbrev pub is_late : Option DueState → Bool
is_late (some late) = true
is_late _ = false

-- The counts of a project's tasks.
unfoldable pub counts_of : List Task → TaskCounts
counts_of ts = record {
  done = count (λ t. is_done t.status) ts;
  in_progress = count (λ t. is_active t.status) ts;
  pending = count (λ t. is_waiting t.status) ts;
  total = length ts;
}

unfoldable pub delayed_of : List Task → ℕ
delayed_of ts = count (λ t. is_late t.due_state) ts

abbrev pub counted : List Task → Project → Project
counted ts p = record p { task_counts = counts_of ts; delayed_count = delayed_of ts }

unfoldable pub recompute_project_counts : List Project → List Task → Ident → List Project
recompute_project_counts ps ts project =
    modify_by project_id project (counted (filter (in_project project) ts)) ps

abbrev pub is_child_of : Ident → Task → Bool
is_child_of id t = or_else (option_map (λ k. k == id) t.parent_id) false

unfoldable pub with_subtask_count : List Task → Task → Task × ℕ
with_subtask_count ts t = (t, count (is_child_of t.id) ts)

unfoldable pub list_tasks : List Task → List (Task × ℕ)
list_tasks ts = map (with_subtask_count ts) ts

-- The tasks that the due-date reminder looks at: dated and not done.
unfoldable pub list_due_candidates : List Task → List (Task × ℕ)
list_due_candidates ts =
    map (with_subtask_count ts)
      (filter (λ t. is_some (given t.due_date) && not (is_done t.status)) ts)

unfoldable pub list_by_project : Ident → List Task → List (Task × ℕ)
list_by_project project ts = map (with_subtask_count ts) (filter (in_project project) ts)

unfoldable pub find_task : Ident → List Task → Option (Task × ℕ)
find_task id ts = option_map (with_subtask_count ts) (find_by task_id id ts)

pub record CreateTask : Type 0 where
  pub title : String
  pub code : Option String
  pub status : Option TaskStatus
  pub priority : Option TaskPriority
  pub assignee_ids : Option (List Ident)
  pub reviewer_id : Option Ident
  pub start_date : Option String
  pub due_date : Option String
  pub due_label : Option String
  pub progress : Option ℕ
  pub parent_id : Option Ident
  pub is_key_task : Option Bool
  pub milestone_id : Option Ident

unfoldable pub new_task : Ident → String → Ident → CreateTask → Task
new_task id upper_id project input = record {
  id = id;
  code = or_else input.code upper_id;
  project_id = project;
  title = input.title;
  status = or_else input.status todo;
  priority = or_else input.priority normal;
  assignee_ids = or_else input.assignee_ids [];
  reviewer_id = input.reviewer_id;
  start_date = input.start_date;
  due_date = input.due_date;
  due_label = or_else input.due_label (or_else input.due_date "미정");
  due_state = none;
  delay_days = none;
  progress = or_else input.progress 0;
  parent_id = input.parent_id;
  is_key_task = or_else input.is_key_task false;
  milestone_id = given_id input.milestone_id;
}

-- The projects and the tasks: the repository of tasks writes both.
pub record Board : Type 0 where
  pub projects : List Project
  pub tasks : List Task

-- Store the tasks and count those of one project again.
unfoldable pub recounted : Ident → List Task → Board → Board
recounted project ts b = record {
  projects = recompute_project_counts b.projects ts project;
  tasks = ts;
}

unfoldable pub create_task : Ident → String → Ident → CreateTask → Board → Board × Task
create_task id upper_id project input b = (
  recounted project (b.tasks ++ new_task id upper_id project input ∷ []) b,
  new_task id upper_id project input,
)

pub record UpdateTask : Type 0 where
  pub title : Option String
  pub code : Option String
  pub status : Option TaskStatus
  pub priority : Option TaskPriority
  pub assignee_ids : Option (List Ident)
  pub reviewer_id : Option Ident
  pub start_date : Option String
  pub due_date : Option String
  pub due_label : Option String
  pub due_state : Option DueState
  pub delay_days : Option ℕ
  pub progress : Option ℕ
  pub is_key_task : Option Bool
  pub milestone_id : Option Ident

-- The empty text unlinks the milestone.
abbrev pub linked : Option Ident → Option Ident → Option Ident
linked none m = m
linked (some k) m = given_id (some k)

abbrev pub edit_task : UpdateTask → Task → Task
edit_task input t = record t {
  title = or_else input.title t.title;
  code = or_else input.code t.code;
  status = or_else input.status t.status;
  priority = or_else input.priority t.priority;
  assignee_ids = or_else input.assignee_ids t.assignee_ids;
  reviewer_id = or_option input.reviewer_id t.reviewer_id;
  start_date = or_option input.start_date t.start_date;
  due_date = or_option input.due_date t.due_date;
  due_label = or_else input.due_label t.due_label;
  due_state = or_option input.due_state t.due_state;
  delay_days = or_option input.delay_days t.delay_days;
  progress = or_else input.progress t.progress;
  is_key_task = or_else input.is_key_task t.is_key_task;
  milestone_id = linked input.milestone_id t.milestone_id;
}

unfoldable pub update_task : Ident → UpdateTask → Board → Board × Option Task
update_task id input b = elim (find_by task_id id b.tasks) [
  | none ↦ (b, none)
  | some t ↦ (
    recounted t.project_id (modify_by task_id id (edit_task input) b.tasks) b,
    some (edit_task input t),
  )
]

-- Deleting a task deletes the tasks directly below it too.
unfoldable pub delete_task : Ident → Board → Board × Bool
delete_task id b = elim (find_by task_id id b.tasks) [
  | none ↦ (b, false)
  | some t ↦ (
    recounted t.project_id (filter (λ c. not (is_child_of id c)) (remove_by task_id id b.tasks)) b,
    true,
  )
]
