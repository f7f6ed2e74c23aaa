-- ===== src/Decision.antt =====
-- MemoryDecisionRepository (server/src/repositories/memory.ts): the decisions of a project and who
-- has confirmed them. Days are numbers, ordered as their texts are; the role of who decided, a text
-- made for display, is left out.
pub mod Viewing
pub mod Deleting
use Prim.Native.String.{String}
use hanmir_talk.Prelude.{
  ℕ, zero, suc, ◌+◌, ◌-◌, ◌*◌, ◌≤◌, ◌<◌, ◌≡◌, refl, sym, ap, ◌∙◌, ◌≢◌, ◌⊎◌, inl, inr, Bool, true,
  false, not, ◌&&◌, ◌||◌, Option, none, some, List, [], ◌∷◌, ◌++◌, map, arith, ltb, leb, ◌==◌,
  if◌then◌else◌, Bool-cases, Option-cases, length, take, drop, All, find, any, filter, modify,
  remove, count, find_by, has_by, modify_by, remove_by, Fresh, Distinct, is_some, or_else,
  or_option, option_map, option_bind, Ident, given, given_id, sort, first, last, sum_of, max, min,
  lookup, insert, delete, member, add, drop_member, Flags, has_flag, set_flag, clear_flag,
  users_with, clear_all, IsMap, TextOps, deduped,
}
use hanmir_talk.User.{User, user_by_id}
use hanmir_talk.Notice.{Confirmations, ReadStatus, confirmed_at, confirm, active_users, read_status}

pub record DecisionRow : Type 0 where
  pub id : Ident
  pub project_id : Ident
  pub title : String
  pub content : String
  pub decided_by_id : Ident
  pub decision_date : ℕ
  pub source_message_id : Option Ident
  pub source_room_id : Option Ident
  pub created_at : ℕ
  pub updated_at : ℕ
  pub is_deleted : Bool

pub record Decision : Type 0 where
  pub id : Ident
  pub project_id : Ident
  pub title : String
  pub content : String
  pub decided_by_id : Ident
  pub decided_by_name : String
  pub decision_date : ℕ
  pub source_message_id : Option Ident
  pub source_room_id : Option Ident
  pub created_at : ℕ
  pub updated_at : ℕ
  pub total_recipients : ℕ
  pub confirmed_count : ℕ
  pub my_confirmed : Bool
  pub is_deleted : Bool

pub record Decisions : Type 0 where
  pub rows : List DecisionRow
  pub confirmations : Confirmations

-- What setAccessors is given: the users, and the room of a message.
pub record Accessors : Type 0 where
  pub users : List User
  pub message_room : Ident → Option Ident

pub record DecisionInput : Type 0 where
  pub title : String
  pub content : String
  pub decision_date : Option ℕ
  pub source_message_id : Option Ident

pub record DecisionUpdate : Type 0 where
  pub title : Option String
  pub content : Option String
  pub decision_date : Option ℕ

abbrev pub decision_id : DecisionRow → Ident
decision_id r = r.id

abbrev pub deleted_text : String
deleted_text = "삭제된 결정사항입니다"

unfoldable pub count_confirmed : Ident → Confirmations → ℕ
count_confirmed id c = count (λ (e : Ident × List (Ident × ℕ)). is_some (lookup id e.1)) c

abbrev pub has_confirmed : Option Ident → Ident → Confirmations → Bool
has_confirmed user id c = elim (given_id user) [
  | none ↦ false
  | some u ↦ is_some (confirmed_at u id c)
]

unfoldable pub decorate : Accessors → Confirmations → Option Ident → DecisionRow → Decision
unfolding count_confirmed
decorate acc c user r = record {
  id = r.id;
  project_id = r.project_id;
  title = if r.is_deleted then deleted_text else r.title;
  content = if r.is_deleted then deleted_text else r.content;
  decided_by_id = r.decided_by_id;
  decided_by_name =
      or_else (option_map (λ (u : User). u.name) (user_by_id r.decided_by_id acc.users)) "";
  decision_date = r.decision_date;
  source_message_id = r.source_message_id;
  source_room_id = r.source_room_id;
  created_at = r.created_at;
  updated_at = r.updated_at;
  total_recipients = length (active_users acc.users);
  confirmed_count = count_confirmed r.id c;
  my_confirmed = has_confirmed user r.id c;
  is_deleted = r.is_deleted;
}

unfoldable pub list_by_project : Accessors → Ident → Option Ident → Decisions → List Decision
unfolding decorate
list_by_project acc project user s = map (decorate acc s.confirmations user) (
    sort (λ (a b : DecisionRow). leb b.decision_date a.decision_date)
      (filter (λ (r : DecisionRow). r.project_id == project) s.rows))

unfoldable pub find_decision : Accessors → Ident → Option Ident → Decisions → Option Decision
unfolding decorate
find_decision acc id user s =
    option_map (decorate acc s.confirmations user) (find_by decision_id id s.rows)

-- `today` is the day of `now`.
unfoldable pub new_decision :
    Accessors → Ident → ℕ → ℕ → Ident → DecisionInput → Ident → DecisionRow
new_decision acc id now today project input decided_by = record {
  id = id;
  project_id = project;
  title = input.title;
  content = input.content;
  decided_by_id = decided_by;
  decision_date = or_else input.decision_date today;
  source_message_id = input.source_message_id;
  source_room_id = option_bind acc.message_room (given_id input.source_message_id);
  created_at = now;
  updated_at = now;
  is_deleted = false;
}

unfoldable pub create_decision :
    Accessors → Ident → ℕ → ℕ → Ident → DecisionInput → Ident → Decisions → Decisions × Decision
unfolding new_decision decorate
create_decision acc id now today project input decided_by s = (
  record s { rows = new_decision acc id now today project input decided_by ∷ s.rows },
  decorate acc s.confirmations (some decided_by)
      (new_decision acc id now today project input decided_by),
)

abbrev pub updated_row : ℕ → DecisionUpdate → DecisionRow → DecisionRow
updated_row now input r = record r {
  title = or_else input.title r.title;
  content = or_else input.content r.content;
  decision_date = or_else input.decision_date r.decision_date;
  updated_at = now;
}

unfoldable pub update_decision :
    Accessors → ℕ → Ident → DecisionUpdate → Decisions → Decisions × Option Decision
unfolding decorate
update_decision acc now id input s = elim (find_by decision_id id s.rows) [
  | none ↦ (s, none)
  | some r ↦ if r.is_deleted then (s, some (decorate acc s.confirmations none r)) else (
    record s { rows = modify_by decision_id id (updated_row now input) s.rows },
    some (decorate acc s.confirmations none (updated_row now input r)),
  )
]

abbrev pub deleted_row : ℕ → DecisionRow → DecisionRow
deleted_row now r = record r { is_deleted = true; updated_at = now }

unfoldable pub soft_delete_decision : ℕ → Ident → Decisions → Decisions × Bool
soft_delete_decision now id s = elim (find_by decision_id id s.rows) [
  | none ↦ (s, false)
  | some r ↦
      if r.is_deleted
      then (s, true)
      else (record s { rows = modify_by decision_id id (deleted_row now) s.rows }, true)
]

unfoldable pub confirm_decision :
    Accessors → ℕ → Ident → Ident → Decisions → Decisions × Option Decision
unfolding decorate confirm
confirm_decision acc now id user s = elim (find_by decision_id id s.rows) [
  | none ↦ (s, none)
  | some r ↦ if r.is_deleted then (s, none) else (
    record s { confirmations = confirm now user id s.confirmations },
    some (decorate acc (confirm now user id s.confirmations) (some user) r),
  )
]

unfoldable decision_read_status : Accessors → Ident → Decisions → Option ReadStatus
unfolding read_status
decision_read_status acc id s =
    if has_by decision_id id s.rows then some (read_status id s.confirmations acc.users) else none
