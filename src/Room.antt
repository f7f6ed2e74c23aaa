-- ===== src/Room.antt =====
-- MemoryRoomRepository (server/src/repositories/memory.ts): rooms with their members, and the mute,
-- list-pin and hidden flags of each user. The display fields of a room that no operation reads or
-- changes are left out. The message repository is an argument of what decorates a room.
pub mod Members
pub mod Visibility
pub mod Direct
use Prim.Native.String.{String}
use hanmir_talk.Prelude.{
  ℕ, zero, suc, ◌+◌, ◌-◌, ◌*◌, ◌≤◌, ◌<◌, ◌≡◌, refl, sym, ap, ◌∙◌, ◌≢◌, ◌⊎◌, inl, inr, Bool, true,
  false, not, ◌&&◌, ◌||◌, Option, none, some, List, [], ◌∷◌, ◌++◌, map, arith, ltb, leb, ◌==◌,
  if◌then◌else◌, Bool-cases, Option-cases, length, take, drop, All, find, any, filter, modify,
  remove, count, find_by, has_by, modify_by, remove_by, Fresh, Distinct, is_some, or_else,
  or_option, option_map, option_bind, Ident, given, given_id, sort, first, last, sum_of, max, min,
  lookup, insert, delete, member, add, drop_member, Flags, has_flag, set_flag, clear_flag,
  users_with, clear_all, IsMap, TextOps, deduped,
}
use hanmir_talk.Message.{Messages, unread_count, get_pinned_id}

pub data RoomType : Type 0 where
  direct group department announcement project : RoomType

pub record Member : Type 0 where
  pub user_id : Ident
  pub is_owner : Bool

pub record Room : Type 0 where
  pub id : Ident
  pub name : String
  pub type : RoomType
  pub description : Option String
  pub project_id : Option Ident
  pub members : List Member

-- A room as the repository answers it, for a user if one asks.
pub record RoomView : Type 0 where
  pub room : Room
  pub unread : ℕ
  pub pinned_message_id : Option Ident
  pub muted : Option Bool
  pub pinned : Option Bool
  pub hidden_for_caller : Option Bool

-- `data`, `mutedByUser`, `pinnedByUser` and `hiddenByUser`.
pub record Rooms : Type 0 where
  pub rooms : List Room
  pub muted : Flags
  pub pinned : Flags
  pub hidden : Flags

abbrev pub room_id : Room → Ident
room_id r = r.id

abbrev pub room_by_id : Ident → Rooms → Option Room
room_by_id id s = find_by room_id id s.rooms

abbrev pub has_member : Ident → Room → Bool
has_member user r = has_by (λ m. m.user_id) user r.members

unfoldable pub members_by_room_id : Ident → Rooms → List Member
members_by_room_id id s = elim (room_by_id id s) [ none ↦ [] | some r ↦ r.members ]

unfoldable pub type_by_id : Ident → Rooms → Option RoomType
type_by_id id s = option_map (λ r. r.type) (room_by_id id s)

abbrev pub flag_for : Option Ident → Ident → Flags → Option Bool
flag_for user room flags = option_map (λ u. has_flag u room flags) (given_id user)

-- Without a user nothing is unread and the flags are undefined.
unfoldable pub decorate : Messages → Option Ident → Rooms → Room → RoomView
decorate messages user s r = record {
  room = r;
  unread = elim (given_id user) [ none ↦ 0 | some u ↦ unread_count r.id u messages ];
  pinned_message_id = get_pinned_id r.id messages;
  muted = flag_for user r.id s.muted;
  pinned = flag_for user r.id s.pinned;
  hidden_for_caller = flag_for user r.id s.hidden;
}

unfoldable pub list : Messages → Option Ident → Rooms → List RoomView
unfolding decorate
list messages user s = map (decorate messages user s) s.rooms

unfoldable pub find_by_id : Messages → Ident → Option Ident → Rooms → Option RoomView
unfolding decorate
find_by_id messages id user s = option_map (decorate messages user s) (room_by_id id s)

pub record CreateRoom : Type 0 where
  pub name : String
  pub type : Option RoomType
  pub description : Option String
  pub project_id : Option Ident
  pub member_ids : List Ident

abbrev pub member_of : Ident → Ident → Member
member_of creator user = record { user_id = user; is_owner = user == creator }

unfoldable pub new_room : Ident → CreateRoom → Ident → Room
unfolding deduped
new_room id input creator = record {
  id = id;
  name = input.name;
  type = or_else input.type group;
  description = input.description;
  project_id = input.project_id;
  members = map (member_of creator) (deduped [] (creator ∷ input.member_ids));
}

unfoldable pub create : Messages → Ident → CreateRoom → Ident → Rooms → Rooms × RoomView
create messages id input creator s =
    (s', decorate messages (some creator) s' (new_room id input creator))
  where
    s' : Rooms
    s' = record s { rooms = new_room id input creator ∷ s.rooms }

abbrev pub edit_room : Option String → Option String → Room → Room
edit_room name description r = record r {
  name = or_else name r.name;
  description = or_option description r.description;
}

abbrev pub update_room : Ident → (Room → Room) → Rooms → Rooms
update_room id f s = record s { rooms = modify_by room_id id f s.rooms }

unfoldable pub update :
    Messages → Ident → Option String → Option String → Rooms → Rooms × Option RoomView
update messages id name description s =
    (s', option_map (decorate messages none s') (room_by_id id s'))
  where
    s' : Rooms
    s' = update_room id (edit_room name description) s

-- A direct room of exactly these two users.
abbrev pub is_direct : RoomType → Bool
is_direct direct = true
is_direct _ = false

abbrev pub is_direct_of : Ident → Ident → Room → Bool
is_direct_of a b r = is_direct r.type && length r.members == 2 && has_member a r && has_member b r

abbrev pub direct_input : Ident → CreateRoom
direct_input b = record {
  name = "1:1 대화";
  type = some direct;
  description = none;
  project_id = none;
  member_ids = b ∷ [];
}

-- Whoever starts the conversation again sees the room again.
unfoldable pub find_or_create_direct : Messages → Ident → Ident → Ident → Rooms → Rooms × RoomView
find_or_create_direct messages id a b s = elim (find (is_direct_of a b) s.rooms) [
  | none ↦ create messages id (direct_input b) a s
  | some r ↦
      let s' : Rooms = record s { hidden = clear_flag a r.id s.hidden } in
      (s', decorate messages (some a) s' r)
]

abbrev pub with_member : Ident → Room → Room
with_member user r =
    if has_member user r
    then r
    else record r { members = r.members ++ record { user_id = user; is_owner = false } ∷ [] }

unfoldable pub add_member : Messages → Ident → Ident → Rooms → Rooms × Option RoomView
add_member messages id user s = (s', option_map (decorate messages none s') (room_by_id id s'))
  where
    s' : Rooms
    s' = update_room id (with_member user) s

abbrev pub without_member : Ident → Room → Room
without_member user r = record r { members = filter (λ m. not (m.user_id == user)) r.members }

-- The mute and hidden flags of the user go too.
unfoldable pub remove_member : Messages → Ident → Ident → Rooms → Rooms × Option RoomView
remove_member messages id user s = elim (room_by_id id s) [
  | none ↦ (s, none)
  | some r ↦
      let s' : Rooms = record s {
        rooms = modify_by room_id id (without_member user) s.rooms;
        muted = clear_flag user id s.muted;
        hidden = clear_flag user id s.hidden;
      } in
      (s', some (decorate messages none s' (without_member user r)))
]

unfoldable pub set_mute : Messages → Ident → Ident → Bool → Rooms → Rooms × Option RoomView
set_mute messages id user on s = elim (room_by_id id s) [
  | none ↦ (s, none)
  | some r ↦
      let s' : Rooms = record s { muted = set_flag user id on s.muted } in
      (s', some (decorate messages (some user) s' r))
]

unfoldable pub set_list_pin : Messages → Ident → Ident → Bool → Rooms → Rooms × Option RoomView
set_list_pin messages id user on s = elim (room_by_id id s) [
  | none ↦ (s, none)
  | some r ↦
      let s' : Rooms = record s { pinned = set_flag user id on s.pinned } in
      (s', some (decorate messages (some user) s' r))
]

unfoldable pub muted_member_ids : Ident → Rooms → List Ident
muted_member_ids id s = users_with id s.muted

pub data Leave : Type 0 where
  left archived no_room : Leave

-- The last member takes the room along.
unfoldable pub leave : Ident → Ident → Rooms → Rooms × Leave
leave id user s = elim (room_by_id id s) [
  | none ↦ (s, no_room)
  | some r ↦
      if has_member user r
      then (if length (without_member user r).members == 0
          then (
            record s { rooms = remove_by room_id id s.rooms; muted = clear_flag user id s.muted },
            archived,
          )
          else (
            record s {
              rooms = modify_by room_id id (without_member user) s.rooms;
              muted = clear_flag user id s.muted;
            },
            left,
          ))
      else (s, left)
]

unfoldable pub set_hidden : Messages → Ident → Ident → Bool → Rooms → Rooms × Option RoomView
set_hidden messages id user on s = elim (room_by_id id s) [
  | none ↦ (s, none)
  | some r ↦
      let s' : Rooms = record s { hidden = set_flag user id on s.hidden } in
      (s', some (decorate messages (some user) s' r))
]

-- The users who had hidden the room.
unfoldable pub unhide_all : Ident → Rooms → Rooms × List Ident
unhide_all id s = (record s { hidden = clear_all id s.hidden }, users_with id s.hidden)
