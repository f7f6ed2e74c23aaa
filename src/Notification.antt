-- ===== src/Notification.antt =====
-- MemoryNotificationRepository (server/src/repositories/memory.ts): the notifications of a user
-- and the settings. The payload of a notification is left out.
pub mod Unread
use Prim.Native.String.{String}
use hanmir_talk.Prelude.{
  ℕ, zero, suc, ◌+◌, ◌-◌, ◌*◌, ◌≤◌, ◌<◌, ◌≡◌, refl, sym, ap, ◌∙◌, ◌≢◌, ◌⊎◌, inl, inr, Bool, true,
  false, not, ◌&&◌, ◌||◌, Option, none, some, List, [], ◌∷◌, ◌++◌, map, arith, ltb, leb, ◌==◌,
  if◌then◌else◌, Bool-cases, Option-cases, length, take, drop, All, find, any, filter, modify,
  remove, count, find_by, has_by, modify_by, remove_by, Fresh, Distinct, is_some, or_else,
  or_option, option_map, option_bind, Ident, given, given_id, sort, first, last, sum_of, max, min,
  lookup, insert, delete, member, add, drop_member, Flags, has_flag, set_flag, clear_flag,
  users_with, clear_all, IsMap, TextOps, deduped,
}

pub record Notification : Type 0 where
  pub id : Ident
  pub user_id : Ident
  pub kind : String
  pub title : String
  pub body : Option String
  pub link : Option String
  pub read_at : Option ℕ
  pub created_at : ℕ

pub record Content : Type 0 where
  pub kind : String
  pub title : String
  pub body : Option String
  pub link : Option String

unfoldable pub new_notification : Ident → ℕ → Ident → Content → Notification
new_notification id now user input = record {
  id = id;
  user_id = user;
  kind = input.kind;
  title = input.title;
  body = input.body;
  link = input.link;
  read_at = none;
  created_at = now;
}

-- The newest is first.
unfoldable pub create :
    Ident → ℕ → Ident → Content → List Notification → List Notification × Notification
create id now user input rows =
    (new_notification id now user input ∷ rows, new_notification id now user input)

-- One for each user, with the identifier that is drawn for it.
unfoldable pub create_many :
    ℕ → List (Ident × Ident) → Content → List Notification → List Notification × List Notification
create_many now [] input rows = (rows, [])
create_many now ((id, user) ∷ users) input rows =
    let rest = create_many now users input (create id now user input rows).0 in
    (rest.0, (create id now user input rows).1 ∷ rest.1)

abbrev pub is_unread : Notification → Bool
is_unread n = not (is_some n.read_at)

abbrev pub is_unread_of : Ident → Notification → Bool
is_unread_of user n = n.user_id == user && is_unread n

unfoldable pub list_for_user : Ident → Bool → Option ℕ → List Notification → List Notification
list_for_user user unread_only limit rows = take (or_else limit 20) (
    if unread_only
    then filter is_unread (filter (λ n. n.user_id == user) rows)
    else filter (λ n. n.user_id == user) rows)

unfoldable pub unread_count : Ident → List Notification → ℕ
unread_count user [] = 0
unread_count user (n ∷ rows) = (if is_unread_of user n then 1 else 0) + unread_count user rows

abbrev pub is_own : Ident → Ident → Notification → Bool
is_own id user n = n.id == id && n.user_id == user

abbrev pub read_now : ℕ → Notification → Notification
read_now now n = record n { read_at = some (or_else n.read_at now) }

-- A notification that was read keeps its time.
unfoldable pub mark_read :
    ℕ → Ident → Ident → List Notification → List Notification × Option Notification
mark_read now id user rows = (
  modify (is_own id user) (read_now now) rows,
  option_map (read_now now) (find (is_own id user) rows),
)

unfoldable pub mark_all_read : ℕ → Ident → List Notification → List Notification × ℕ
mark_all_read now user [] = ([], 0)
mark_all_read now user (n ∷ rows) =
    let rest = mark_all_read now user rows in
    if is_unread_of user n then (read_now now n ∷ rest.0, suc rest.1) else (n ∷ rest.0, rest.1)

pub record Settings : Type 0 where
  pub user_id : Ident
  pub all_enabled : Bool
  pub per_room : List (Ident × Bool)
  pub per_project : List (Ident × Bool)
  pub web_push_enabled : Bool
  pub browser_enabled : Bool

unfoldable pub default_settings : Ident → Settings
default_settings user = record {
  user_id = user;
  all_enabled = true;
  per_room = [];
  per_project = [];
  web_push_enabled = false;
  browser_enabled = true;
}

-- The default is stored when it is first asked for.
unfoldable pub get_settings : Ident → List (Ident × Settings) → List (Ident × Settings) × Settings
get_settings user m = elim (lookup user m) [
  | none ↦ (insert user (default_settings user) m, default_settings user)
  | some s ↦ (m, s)
]

pub record UpdateSettings : Type 0 where
  pub all_enabled : Option Bool
  pub per_room : Option (List (Ident × Bool))
  pub per_project : Option (List (Ident × Bool))
  pub web_push_enabled : Option Bool
  pub browser_enabled : Option Bool

unfoldable pub edit_settings : UpdateSettings → Settings → Settings
edit_settings input s = record s {
  all_enabled = or_else input.all_enabled s.all_enabled;
  per_room = or_else input.per_room s.per_room;
  per_project = or_else input.per_project s.per_project;
  web_push_enabled = or_else input.web_push_enabled s.web_push_enabled;
  browser_enabled = or_else input.browser_enabled s.browser_enabled;
}

unfoldable pub update_settings :
    Ident → UpdateSettings → List (Ident × Settings) → List (Ident × Settings) × Settings
update_settings user input m = (
  insert user (edit_settings input (get_settings user m).1) (get_settings user m).0,
  edit_settings input (get_settings user m).1,
)
