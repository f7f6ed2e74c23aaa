-- ===== src/Project/Teams.antt =====
-- What the operations on projects keep: milestones stand in the order of their dates, a project's
-- members stand once each, and its creator is one of them (server/src/repositories/memory.ts).
use Prim.Native.String.{String}
use hanmir_talk.Prelude.{
  ◌≡◌, refl, inl, inr, not, ◌&&◌, ◌||◌, List, [], ◌∷◌, arith, ◌==◌, Option-cases, All, find_by,
  option_map, option_bind, Ident, member, add, deduped,
}
use hanmir_talk.Prelude.{
  Ordered, sort-Ordered, remove-Ordered, All-modify_by, member-add, member-drop, find_by-modify_by,
}
use hanmir_talk.Project.{
  Project, Milestone, CreateProject, project_id, project_by_id, new_project, join, part,
  add_project_member, remove_project_member,
}
use hanmir_talk.Project.Milestones.{
  milestone_id, UpdateMilestone, by_date, add_milestone, update_milestone, delete_milestone,
}

-- The milestones of a project stand in the order of their dates.
abbrev pub IsOrdered : Project → Type 0
IsOrdered p = Ordered (λ (m : Milestone). m.date) p.milestones

by_date-Ordered : (ms : List Milestone) → Ordered (λ (m : Milestone). m.date) (by_date ms)
unfolding by_date
by_date-Ordered ms = sort-Ordered (λ (m : Milestone). m.date) ms

-- Where the milestones of every project are in the order of their dates, adding, changing and
-- deleting milestones keeps them so.
pub milestones-IsOrdered :
    (ps : List Project)
    → All IsOrdered ps
    → ((project : Ident) (m : Milestone) → All IsOrdered (add_milestone project m ps).0)
      × ((project id : Ident) (input : UpdateMilestone)
          → All IsOrdered (update_milestone project id input ps).0)
      × ((project id : Ident) → All IsOrdered (delete_milestone project id ps).0)
unfolding add_milestone update_milestone delete_milestone
milestones-IsOrdered ps o = (added, updated, removed)
  where
    added : (project : Ident) (m : Milestone) → All IsOrdered (add_milestone project m ps).0
    added project m = elim (Option-cases (project_by_id project ps)) [
      | inl n ↦ rw (n, add_milestone) o
      | inr (p, n) ↦
          rw (n, add_milestone)
            (All-modify_by project_id IsOrdered project _ ps (λ q e v. by_date-Ordered _) o)
    ]

    updated :
        (project id : Ident) (input : UpdateMilestone)
        → All IsOrdered (update_milestone project id input ps).0
    updated project id input =
        elim (Option-cases (
          option_bind (λ (p : Project). find_by milestone_id id p.milestones)
            (project_by_id project ps))) [
              | inl n ↦ rw (n, update_milestone) o
              | inr (m, n) ↦
                  rw (n, update_milestone)
                    (All-modify_by project_id IsOrdered project _ ps (λ q e v. by_date-Ordered _) o)
            ]

    removed : (project id : Ident) → All IsOrdered (delete_milestone project id ps).0
    removed project id =
        elim (Option-cases (
          option_bind (λ (p : Project). find_by milestone_id id p.milestones)
            (project_by_id project ps))) [
              | inl n ↦ rw (n, delete_milestone) o
              | inr (m, n) ↦
                  rw (n, delete_milestone)
                    (All-modify_by project_id IsOrdered project _ ps
                      (λ q e v.
                        remove-Ordered (λ (k : Milestone). k.date) (λ k. milestone_id k == id)
                          q.milestones v)
                      o)
            ]

deduped-member :
    (k : Ident) (seen ks : List Ident) → member k (deduped seen ks) ≡ (member k seen || member k ks)
unfolding deduped member
deduped-member k seen [] = ground arith
deduped-member k seen (j ∷ ks) =
    ground (arith, deduped-member k (add j seen) ks, member-add k j seen)

-- A new project has its creator and the given users as members, and nobody else.
pub new_project-members :
    (id : Ident) (upper_id : String) (input : CreateProject) (creator k : Ident)
    → member k (new_project id upper_id input creator).member_ids
      ≡ (creator == k || member k input.member_ids)
unfolding new_project member
new_project-members id upper_id input creator k =
    ground (arith, deduped-member k [] (creator ∷ input.member_ids))

-- Adding and removing a member change the membership of that user in that project, if it is there,
-- and no other membership.
project_membership :
    (id user j k : Ident) (ps : List Project)
    → (option_map (λ p. member k p.member_ids) (project_by_id j (add_project_member id user ps).0)
        ≡ option_map (λ p. (id == j && user == k) || member k p.member_ids) (project_by_id j ps))
      × (option_map
            (λ p. member k p.member_ids)
            (project_by_id j (remove_project_member id user ps).0)
          ≡ option_map
              (λ p. not (id == j && user == k) && member k p.member_ids)
              (project_by_id j ps))
unfolding add_project_member remove_project_member
project_membership id user j k ps = elim (Option-cases (project_by_id j ps)) [
  | inl n ↦ (
    ground (arith, n, find_by-modify_by project_id j id (join user) ps (λ a. refl)),
    ground (arith, n, find_by-modify_by project_id j id (part user) ps (λ a. refl)),
  )
  | inr (p, n) ↦ (
    ground (
      arith,
      n,
      find_by-modify_by project_id j id (join user) ps (λ a. refl),
      member-add k user p.member_ids,
    ),
    ground (
      arith,
      n,
      find_by-modify_by project_id j id (part user) ps (λ a. refl),
      member-drop k user p.member_ids,
    ),
  )
]
