-- ===== src/Notice.antt =====
-- MemoryNoticeRepository (server/src/repositories/memory.ts): company notices and who has confirmed
-- them. The texts of a notice that the repository only carries along are title, body and team; the
-- day of its creation is an instant, and its tone, which follows isMandatory, is left out.
pub mod Confirming
use Prim.Native.String.{String}
use hanmir_talk.Prelude.{
  ℕ, zero, suc, ◌+◌, ◌-◌, ◌*◌, ◌≤◌, ◌<◌, ◌≡◌, refl, sym, ap, ◌∙◌, ◌≢◌, ◌⊎◌, inl, inr, Bool, true,
  false, not, ◌&&◌, ◌||◌, Option, none, some, List, [], ◌∷◌, ◌++◌, map, arith, ltb, leb, ◌==◌,
  if◌then◌else◌, Bool-cases, Option-cases, length, take, drop, All, find, any, filter, modify,
  remove, count, find_by, has_by, modify_by, remove_by, Fresh, Distinct, is_some, or_else,
  or_option, option_map, option_bind, Ident, given, given_id, sort, first, last, sum_of, max, min,
  lookup, insert, delete, member, add, drop_member, Flags, has_flag, set_flag, clear_flag,
  users_with, clear_all, IsMap, TextOps, deduped,
}
use hanmir_talk.User.{User}

-- When a user confirmed a notice or a decision, by user and then by what was confirmed.
abbrev pub Confirmations : Type 0
Confirmations = List (Ident × List (Ident × ℕ))

unfoldable pub confirmed_at : Ident → Ident → Confirmations → Option ℕ
confirmed_at user id c = option_bind (lookup id) (lookup user c)

-- The map of the user is made if it is missing, and the first confirmation stays.
unfoldable pub confirm : ℕ → Ident → Ident → Confirmations → Confirmations
unfolding confirmed_at
confirm now user id c =
    if is_some (confirmed_at user id c)
    then c
    else insert user (insert id now (or_else (lookup user c) [])) c

pub record Notice : Type 0 where
  pub id : Ident
  pub title : String
  pub body : String
  pub author_team : String
  pub created_at : ℕ
  pub is_mandatory : Bool
  pub total_recipients : ℕ
  pub confirmed_count : ℕ
  pub my_confirmed : Bool

pub record Notices : Type 0 where
  pub data_ : List Notice
  pub confirmations : Confirmations

abbrev pub notice_id : Notice → Ident
notice_id n = n.id

unfoldable with_user_status : Option Ident → Confirmations → Notice → Notice
unfolding confirmed_at
with_user_status user c n = elim (given_id user) [
  | none ↦ n
  | some u ↦ record n { my_confirmed = is_some (confirmed_at u n.id c) }
]

unfoldable list_notices : Option Ident → Notices → List Notice
unfolding with_user_status
list_notices user s = map (with_user_status user s.confirmations) s.data_

unfoldable find_notice : Ident → Option Ident → Notices → Option Notice
unfolding with_user_status
find_notice id user s =
    option_map (with_user_status user s.confirmations) (find_by notice_id id s.data_)

-- `getActiveUsers().filter((u) => u.isActive !== false)`
abbrev pub active_users : List User → List User
active_users = filter (λ (u : User). u.is_active)

abbrev new_notice : List User → Ident → ℕ → String → String → Option Bool → String → Notice
new_notice users id now title body mandatory team = record {
  id = id;
  title = title;
  body = body;
  author_team = team;
  created_at = now;
  is_mandatory = or_else mandatory true;
  total_recipients = length (active_users users);
  confirmed_count = 0;
  my_confirmed = false;
}

unfoldable create_notice :
    List User → Ident → ℕ → String → String → Option Bool → String → Notices → Notices × Notice
create_notice users id now title body mandatory team s = (
  record s { data_ = new_notice users id now title body mandatory team ∷ s.data_ },
  new_notice users id now title body mandatory team,
)

abbrev pub count_up : Notice → Notice
count_up n = record n { confirmed_count = min n.total_recipients (n.confirmed_count + 1) }

abbrev pub counted_notices : Bool → Ident → List Notice → List Notice
counted_notices true id ns = ns
counted_notices false id ns = modify_by notice_id id count_up ns

unfoldable pub mark_notice : ℕ → Ident → Ident → Notices → Notices
unfolding confirm
mark_notice now id user s = record s {
  data_ = counted_notices (is_some (confirmed_at user id s.confirmations)) id s.data_;
  confirmations = confirm now user id s.confirmations;
}

unfoldable pub mark_confirmed : ℕ → Ident → Ident → Notices → Notices × Option Notice
unfolding mark_notice find_notice
mark_confirmed now id user s =
    if has_by notice_id id s.data_
    then (mark_notice now id user s, find_notice id (some user) (mark_notice now id user s))
    else (s, none)

pub record ReadStatus : Type 0 where
  pub total_recipients : ℕ
  pub confirmed : List (Ident × ℕ)
  pub unconfirmed : List Ident

-- The active users, told apart by whether they confirmed.
unfoldable confirmed_of : Ident → Confirmations → List User → List (Ident × ℕ)
unfolding confirmed_at
confirmed_of id c [] = []
confirmed_of id c (u ∷ us) = elim (confirmed_at u.id id c) [
  | none ↦ confirmed_of id c us
  | some at ↦ (u.id, at) ∷ confirmed_of id c us
]

unfoldable unconfirmed_of : Ident → Confirmations → List User → List Ident
unfolding confirmed_at
unconfirmed_of id c [] = []
unconfirmed_of id c (u ∷ us) = elim (confirmed_at u.id id c) [
  | none ↦ u.id ∷ unconfirmed_of id c us
  | some _ ↦ unconfirmed_of id c us
]

unfoldable pub read_status : Ident → Confirmations → List User → ReadStatus
unfolding confirmed_of unconfirmed_of
read_status id c users = record {
  total_recipients = length (active_users users);
  confirmed = confirmed_of id c (active_users users);
  unconfirmed = unconfirmed_of id c (active_users users);
}

unfoldable get_read_status : List User → Ident → Notices → Option ReadStatus
unfolding read_status
get_read_status users id s =
    if has_by notice_id id s.data_ then some (read_status id s.confirmations users) else none
