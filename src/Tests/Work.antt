-- ===== src/Tests/Work.antt =====
-- Projects, milestones, tasks and products.
use Prim.Native.String.{String}
use hanmir_talk.Prelude.{ℕ, refl, false, Option, none, some, [], ◌∷◌, arith, All, Ident}
use hanmir_talk.Project.{Project, Milestone, pending, in_progress}
use hanmir_talk.Project.Milestones.{
  UpdateMilestone, add_milestone, update_milestone, delete_milestone,
}
use hanmir_talk.Project.Teams.{IsOrdered, milestones-IsOrdered}
use hanmir_talk.Prelude.{◌≡◌, ◌==◌, if◌then◌else◌}
use hanmir_talk.Product.{
  Product, Products, ProductSpec, DocumentAccessors, preparing, find_product, delete_product,
  list_specs, list_sales_events, list_documents,
}
use hanmir_talk.Product.Cascade.{delete_product-cascade}
use hanmir_talk.Task.{
  Task, Board, CreateTask, UpdateTask, todo, normal, counts_of, delayed_of, create_task,
  update_task, delete_task,
}
use hanmir_talk.Task.Counts.{BoardInv, create_update-BoardInv, delete_task-BoardInv}

abbrev milestone : Ident → ℕ → Milestone
milestone id date = record { id = id; title = "Beta"; subtitle = ""; date = date; status = pending }

abbrev project : Project
project = record {
  id = 5;
  code = "P5";
  name = "Launch";
  full_name = "Launch";
  status = in_progress;
  stage_label = "";
  department = "";
  owner_name = "";
  start_date = none;
  due_date = none;
  progress = 0;
  progress_manual = none;
  task_counts = record { done = 0; in_progress = 0; pending = 2; total = 2 };
  delayed_count = 0;
  description = "";
  goals = [];
  outputs = [];
  member_ids = 1 ∷ 2 ∷ [];
  budget = none;
  type = none;
  external_partners = none;
  related_product_ids = none;
  milestones = milestone 8 10 ∷ milestone 9 20 ∷ [];
  sales_status = none;
}

projects-IsOrdered : All IsOrdered (project ∷ [])
projects-IsOrdered = (((omega arith, tt), (tt, tt)), tt)

milestones-IsOrdered_example :
    ((k : Ident) (m : Milestone) → All IsOrdered (add_milestone k m (project ∷ [])).0)
    × ((k id : Ident) (input : UpdateMilestone)
        → All IsOrdered (update_milestone k id input (project ∷ [])).0)
    × ((k id : Ident) → All IsOrdered (delete_milestone k id (project ∷ [])).0)
milestones-IsOrdered_example = milestones-IsOrdered (project ∷ []) projects-IsOrdered

abbrev task : Ident → Option Ident → Task
task id parent = record {
  id = id;
  code = "T";
  project_id = 5;
  title = "Write";
  status = todo;
  priority = normal;
  assignee_ids = [];
  reviewer_id = none;
  start_date = none;
  due_date = none;
  due_label = "";
  due_state = none;
  delay_days = none;
  progress = 0;
  parent_id = parent;
  is_key_task = false;
  milestone_id = none;
}

abbrev board : Board
board = record { projects = project ∷ []; tasks = task 6 none ∷ task 7 (some 6) ∷ [] }

board-BoardInv : BoardInv board
unfolding counts_of delayed_of
board-BoardInv = ((tt, tt), ((refl, refl), tt))

create_update-BoardInv_example :
    ((id k : Ident) (upper_id : String) (input : CreateTask)
      → BoardInv (create_task id upper_id k input board).0)
    × ((id : Ident) (input : UpdateTask) → BoardInv (update_task id input board).0)
create_update-BoardInv_example = create_update-BoardInv board board-BoardInv

delete_task-BoardInv_example : BoardInv (delete_task 6 board).0
delete_task-BoardInv_example =
    delete_task-BoardInv 6 (task 6 none) board board-BoardInv refl ((λ e. refl), ((λ e. refl), tt))

abbrev product : Ident → Product
product id = record {
  id = id;
  code = "";
  name = "Foam";
  full_name = "Foam";
  category = "";
  sub_category = "";
  description = "";
  features = [];
  applications = [];
  cautions = [];
  sales_status = preparing;
  sales_note = "";
  sales_updated_at = 3;
  owner_id = 1;
}

abbrev spec : Ident → Ident → ProductSpec
spec id of_product = record {
  id = id;
  product_id = of_product;
  key = 7;
  value = "1";
  sort_order = 0;
}

abbrev products : Products
products = record {
  data_ = product 1 ∷ product 2 ∷ [];
  specs = spec 3 1 ∷ spec 4 2 ∷ [];
  sales_events = [];
  documents = [];
}

abbrev no_files : DocumentAccessors
no_files = record { get_file = λ id. none; get_user_name = λ id. "" }

delete_product-cascade_example :
    (list_specs 2 (delete_product 1 products).0 ≡ (if 2 == 1 then [] else list_specs 2 products))
    × (list_sales_events 2 (delete_product 1 products).0
        ≡ (if 2 == 1 then [] else list_sales_events 2 products))
    × (list_documents no_files 2 none (delete_product 1 products).0
        ≡ (if 2 == 1 then [] else list_documents no_files 2 none products))
    × (find_product 2 (delete_product 1 products).0
        ≡ (if 2 == 1 then none else find_product 2 products))
delete_product-cascade_example =
    delete_product-cascade no_files 1 2 none products refl
      (((λ e. absurd (ground arith)), tt), (tt, tt))
