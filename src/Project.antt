-- ===== src/Project.antt =====
-- MemoryProjectRepository (server/src/repositories/memory.ts): projects, their members and their
-- milestones. Dates are numbers that are ordered as their ISO texts.
pub mod Milestones
pub mod Teams
use Prim.Native.String.{String}
use hanmir_talk.Prelude.{
  ℕ, zero, suc, ◌+◌, ◌-◌, ◌*◌, ◌≤◌, ◌<◌, ◌≡◌, refl, sym, ap, ◌∙◌, ◌≢◌, ◌⊎◌, inl, inr, Bool, true,
  false, not, ◌&&◌, ◌||◌, Option, none, some, List, [], ◌∷◌, ◌++◌, map, arith, ltb, leb, ◌==◌,
  if◌then◌else◌, Bool-cases, Option-cases, length, take, drop, All, find, any, filter, modify,
  remove, count, find_by, has_by, modify_by, remove_by, Fresh, Distinct, is_some, or_else,
  or_option, option_map, option_bind, Ident, given, given_id, sort, first, last, sum_of, max, min,
  lookup, insert, delete, member, add, drop_member, Flags, has_flag, set_flag, clear_flag,
  users_with, clear_all, IsMap, TextOps, deduped,
}

pub data ProjectStatus : Type 0 where
  ready in_progress review on_hold done cancelled : ProjectStatus

pub data MilestoneStatus : Type 0 where
  done in_progress pending delayed : MilestoneStatus

pub record Milestone : Type 0 where
  pub id : Ident
  pub title : String
  pub subtitle : String
  pub date : ℕ
  pub status : MilestoneStatus

pub record TaskCounts : Type 0 where
  pub done : ℕ
  pub in_progress : ℕ
  pub pending : ℕ
  pub total : ℕ

pub record Project : Type 0 where
  pub id : Ident
  pub code : String
  pub name : String
  pub full_name : String
  pub status : ProjectStatus
  pub stage_label : String
  pub department : String
  pub owner_name : String
  pub start_date : Option ℕ
  pub due_date : Option ℕ
  pub progress : ℕ
  pub progress_manual : Option Bool
  pub task_counts : TaskCounts
  pub delayed_count : ℕ
  pub description : String
  pub goals : List String
  pub outputs : List String
  pub member_ids : List Ident
  pub budget : Option String
  pub type : Option String
  pub external_partners : Option String
  pub related_product_ids : Option (List Ident)
  pub milestones : List Milestone
  pub sales_status : Option String

abbrev pub project_id : Project → Ident
project_id p = p.id

abbrev pub project_by_id : Ident → List Project → Option Project
project_by_id = find_by project_id

pub record CreateProject : Type 0 where
  pub code : Option String
  pub name : String
  pub full_name : Option String
  pub status : Option ProjectStatus
  pub stage_label : Option String
  pub department : Option String
  pub owner_name : Option String
  pub start_date : Option ℕ
  pub due_date : Option ℕ
  pub description : Option String
  pub goals : List String
  pub outputs : List String
  pub member_ids : List Ident
  pub budget : Option String
  pub type : Option String
  pub external_partners : Option String
  pub related_product_ids : Option (List Ident)
  pub sales_status : Option String

-- `upper_id` is the identifier in upper case, the code of a project that is given none. An empty
-- date text is `none`.
unfoldable pub new_project : Ident → String → CreateProject → Ident → Project
new_project id upper_id input creator = record {
  id = id;
  code = or_else input.code upper_id;
  name = input.name;
  full_name = or_else input.full_name input.name;
  status = or_else input.status ready;
  stage_label = or_else input.stage_label "준비 단계";
  department = or_else input.department "";
  owner_name = or_else input.owner_name "";
  start_date = input.start_date;
  due_date = input.due_date;
  progress = 0;
  progress_manual = none;
  task_counts = record { done = 0; in_progress = 0; pending = 0; total = 0 };
  delayed_count = 0;
  description = or_else input.description "";
  goals = input.goals;
  outputs = input.outputs;
  member_ids = deduped [] (creator ∷ input.member_ids);
  budget = input.budget;
  type = input.type;
  external_partners = input.external_partners;
  related_product_ids = input.related_product_ids;
  milestones = [];
  sales_status = input.sales_status;
}

unfoldable pub create_project :
    Ident → String → CreateProject → Ident → List Project → List Project × Project
create_project id upper_id input creator ps =
    (ps ++ new_project id upper_id input creator ∷ [], new_project id upper_id input creator)

pub record UpdateProject : Type 0 where
  pub code : Option String
  pub name : Option String
  pub full_name : Option String
  pub status : Option ProjectStatus
  pub stage_label : Option String
  pub department : Option String
  pub owner_name : Option String
  pub start_date : Option ℕ
  pub due_date : Option ℕ
  pub progress : Option ℕ
  pub is_manual : Option Bool
  pub description : Option String
  pub goals : Option (List String)
  pub outputs : Option (List String)
  pub budget : Option String
  pub type : Option String
  pub external_partners : Option String
  pub related_product_ids : Option (List Ident)
  pub sales_status : Option String

-- What is given replaces; `progressMode` sets how the progress is computed.
abbrev pub edit_project : UpdateProject → Project → Project
edit_project input p = record p {
  code = or_else input.code p.code;
  name = or_else input.name p.name;
  full_name = or_else input.full_name p.full_name;
  status = or_else input.status p.status;
  stage_label = or_else input.stage_label p.stage_label;
  department = or_else input.department p.department;
  owner_name = or_else input.owner_name p.owner_name;
  start_date = or_option input.start_date p.start_date;
  due_date = or_option input.due_date p.due_date;
  progress = or_else input.progress p.progress;
  progress_manual = or_option input.is_manual p.progress_manual;
  description = or_else input.description p.description;
  goals = or_else input.goals p.goals;
  outputs = or_else input.outputs p.outputs;
  budget = or_option input.budget p.budget;
  type = or_option input.type p.type;
  external_partners = or_option input.external_partners p.external_partners;
  related_product_ids = or_option input.related_product_ids p.related_product_ids;
  sales_status = or_option input.sales_status p.sales_status;
}

unfoldable pub update_project : Ident → UpdateProject → List Project → List Project × Option Project
update_project id input ps = (
  modify_by project_id id (edit_project input) ps,
  option_map (edit_project input) (project_by_id id ps),
)

abbrev pub cancelled_project : Project → Project
cancelled_project p = record p { status = cancelled }

unfoldable pub cancel_project : Ident → List Project → List Project × Option Project
cancel_project id ps = (
  modify_by project_id id cancelled_project ps,
  option_map cancelled_project (project_by_id id ps),
)

abbrev pub join : Ident → Project → Project
join user p = record p { member_ids = add user p.member_ids }

unfoldable pub add_project_member : Ident → Ident → List Project → List Project × Option Project
add_project_member id user ps =
    (modify_by project_id id (join user) ps, option_map (join user) (project_by_id id ps))

abbrev pub part : Ident → Project → Project
part user p = record p { member_ids = drop_member user p.member_ids }

unfoldable pub remove_project_member : Ident → Ident → List Project → List Project × Option Project
remove_project_member id user ps =
    (modify_by project_id id (part user) ps, option_map (part user) (project_by_id id ps))
