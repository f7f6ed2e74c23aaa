-- ===== src/Project/Milestones.antt =====
-- Milestones of a project (addMilestone, updateMilestone and deleteMilestone of
-- server/src/repositories/memory.ts), kept in the order of their dates.
use Prim.Native.String.{String}
use hanmir_talk.Prelude.{
  ℕ, Bool, true, false, Option, none, some, List, [], ◌∷◌, ◌++◌, leb, find_by, modify_by, remove_by,
  or_else, option_bind, Ident, sort,
}
use hanmir_talk.Project.{Milestone, MilestoneStatus, Project, project_id, project_by_id}

abbrev pub milestone_id : Milestone → Ident
milestone_id m = m.id

unfoldable pub by_date : List Milestone → List Milestone
by_date = sort (λ a b. leb a.date b.date)

abbrev pub with_milestones : (List Milestone → List Milestone) → Project → Project
with_milestones f p = record p { milestones = f p.milestones }

abbrev pub new_milestone : Ident → String → Option String → ℕ → Option MilestoneStatus → Milestone
new_milestone id title subtitle date status = record {
  id = id;
  title = title;
  subtitle = or_else subtitle "";
  date = date;
  status = or_else status MilestoneStatus.pending;
}

-- `none` is the error "project not found".
unfoldable pub add_milestone : Ident → Milestone → List Project → List Project × Option Milestone
add_milestone project m ps = elim (project_by_id project ps) [
  | none ↦ (ps, none)
  | some p ↦
      (modify_by project_id project (with_milestones (λ ms. by_date (ms ++ m ∷ []))) ps, some m)
]

pub record UpdateMilestone : Type 0 where
  pub title : Option String
  pub subtitle : Option String
  pub date : Option ℕ
  pub status : Option MilestoneStatus

abbrev pub edit_milestone : UpdateMilestone → Milestone → Milestone
edit_milestone input m = record m {
  title = or_else input.title m.title;
  subtitle = or_else input.subtitle m.subtitle;
  date = or_else input.date m.date;
  status = or_else input.status m.status;
}

unfoldable pub update_milestone :
    Ident → Ident → UpdateMilestone → List Project → List Project × Option Milestone
update_milestone project id input ps =
    elim (option_bind (λ p. find_by milestone_id id p.milestones) (project_by_id project ps)) [
      | none ↦ (ps, none)
      | some m ↦ (
        modify_by project_id project
            (with_milestones (λ ms. by_date (modify_by milestone_id id (edit_milestone input) ms)))
            ps,
        some (edit_milestone input m),
      )
    ]

unfoldable pub delete_milestone : Ident → Ident → List Project → List Project × Bool
delete_milestone project id ps =
    elim (option_bind (λ p. find_by milestone_id id p.milestones) (project_by_id project ps)) [
      | none ↦ (ps, false)
      | some m ↦
          (modify_by project_id project (with_milestones (remove_by milestone_id id)) ps, true)
    ]
