-- ===== src/Schedule.antt =====
-- MemoryScheduledMessageRepository (server/src/repositories/memory.ts) and the poller that sends
-- what is due (server/src/scheduled-poller.ts). Entities of a message are left out.
pub mod Delivery
use Prim.Native.String.{String}
use hanmir_talk.Prelude.{
  ℕ, zero, suc, ◌+◌, ◌-◌, ◌*◌, ◌≤◌, ◌<◌, ◌≡◌, refl, sym, ap, ◌∙◌, ◌≢◌, ◌⊎◌, inl, inr, Bool, true,
  false, not, ◌&&◌, ◌||◌, Option, none, some, List, [], ◌∷◌, ◌++◌, map, arith, ltb, leb, ◌==◌,
  if◌then◌else◌, Bool-cases, Option-cases, length, take, drop, All, find, any, filter, modify,
  remove, count, find_by, has_by, modify_by, remove_by, Fresh, Distinct, is_some, or_else,
  or_option, option_map, option_bind, Ident, given, given_id, sort, first, last, sum_of, max, min,
  lookup, insert, delete, member, add, drop_member, Flags, has_flag, set_flag, clear_flag,
  users_with, clear_all, IsMap, TextOps, deduped,
}
use hanmir_talk.Message.{ChatMessage, Messages, Attachment, append}
use hanmir_talk.Room.{Rooms, RoomView, RoomType, direct, has_member, find_by_id, unhide_all}
use hanmir_talk.User.{
  User, Role, super_admin, admin, manager, project_owner, team_member, user_by_id,
}

pub data ScheduleStatus : Type 0 where
  pending sent cancelled failed : ScheduleStatus

pub record Scheduled : Type 0 where
  pub id : Ident
  pub room_id : Ident
  pub user_id : Ident
  pub content : String
  pub attachment_id : Option Ident
  pub scheduled_at : ℕ
  pub sent_at : Option ℕ
  pub cancelled_at : Option ℕ
  pub error : Option String
  pub created_at : ℕ

-- A row as the repository answers it, with the names that the accessors find.
pub record ScheduledView : Type 0 where
  pub row : Scheduled
  pub room_name : Option String
  pub author_name : Option String
  pub attachment_name : Option String
  pub status : ScheduleStatus

pub record Accessors : Type 0 where
  pub room_name : Ident → Option String
  pub user_name : Ident → Option String
  pub attachment_name : Ident → Option String

abbrev pub Schedule : Type 0
Schedule = List (Ident × Scheduled)

unfoldable pub status_of : Scheduled → ScheduleStatus
status_of r =
    if is_some r.sent_at
    then sent
    else if is_some r.cancelled_at
    then cancelled
    else if is_some (given r.error)
    then failed
    else pending

unfoldable pub to_view : Accessors → Scheduled → ScheduledView
to_view names r = record {
  row = r;
  room_name = names.room_name r.room_id;
  author_name = names.user_name r.user_id;
  attachment_name = option_bind names.attachment_name (given_id r.attachment_id);
  status = status_of r;
}

unfoldable pub create_scheduled :
    Ident → ℕ → Ident → String → ℕ → Option Ident → Ident → Schedule → Schedule × Scheduled
create_scheduled id now room content at attachment author rows = (insert id row rows, row)
  where
    row : Scheduled
    row = record {
      id = id;
      room_id = room;
      user_id = author;
      content = content;
      attachment_id = attachment;
      scheduled_at = at;
      sent_at = none;
      cancelled_at = none;
      error = none;
      created_at = now;
    }

unfoldable pub find_scheduled : Accessors → Ident → Schedule → Option ScheduledView
find_scheduled names id rows = option_map (to_view names) (lookup id rows)

abbrev pub values : Schedule → List Scheduled
values rows = map (λ (e : Ident × Scheduled). e.1) rows

-- Unsent and uncancelled rows of the user, or all, of one room if one is given, by due time.
unfoldable pub list_for_user :
    Accessors → Ident → Option Ident → Bool → Schedule → List ScheduledView
list_for_user names user room all rows =
    map (to_view names)
      (sort (λ (a b : Scheduled). leb a.scheduled_at b.scheduled_at) (filter wanted (values rows)))
  where
    wanted : Scheduled → Bool
    wanted r =
        r.user_id == user
        && (elim (given_id room) [ none ↦ true | some k ↦ r.room_id == k ])
        && (all || not (is_some r.sent_at || is_some r.cancelled_at))

-- Neither sent, cancelled nor failed.
abbrev pub is_open : Scheduled → Bool
is_open r = not (is_some r.sent_at || is_some r.cancelled_at || is_some (given r.error))

unfoldable pub list_due : ℕ → Schedule → List Scheduled
list_due now rows = filter (λ r. is_open r && leb r.scheduled_at now) (values rows)

unfoldable pub mark_sent : Ident → ℕ → Schedule → Schedule × Bool
mark_sent id now rows = elim (lookup id rows) [
  | none ↦ (rows, false)
  | some r ↦
      if is_open r then (insert id (record r { sent_at = some now }) rows, true) else (rows, false)
]

unfoldable pub mark_failed : TextOps → Ident → String → Schedule → Schedule
mark_failed ops id error rows = elim (lookup id rows) [
  | none ↦ rows
  | some r ↦
      if is_open r then insert id (record r { error = some (ops.prefix 500 error) }) rows else rows
]

unfoldable pub cancel_scheduled : Ident → ℕ → Schedule → Schedule × Bool
cancel_scheduled id now rows = elim (lookup id rows) [
  | none ↦ (rows, false)
  | some r ↦
      if is_some r.sent_at
      then (rows, false)
      else if is_some r.cancelled_at
      then (rows, true)
      else (insert id (record r { cancelled_at = some now }) rows, true)
]

-- What the poller reads and writes. `emitted` is the trace of its emitMessageNew calls, each with
-- the scheduled row it was made for, and `rejoined` that of its membership events.
pub record World : Type 0 where
  pub schedule : Schedule
  pub users : List User
  pub files : List Attachment
  pub rooms : Rooms
  pub messages : Messages
  pub emitted : List (Ident × ChatMessage)
  pub rejoined : List (Ident × Ident)

abbrev pub is_admin : Role → Bool
is_admin super_admin = true
is_admin admin = true
is_admin _ = false

abbrev pub fail_item : TextOps → Ident → String → World → World
fail_item ops id error w = record w { schedule = mark_failed ops id error w.schedule }

unfoldable pub message_of : Ident → ℕ → Scheduled → User → List Attachment → ChatMessage
message_of fresh now item author files = record {
  id = fresh;
  room_id = item.room_id;
  author_id = author.id;
  author_name = author.name;
  initials = author.initials;
  avatar_tone = some author.avatar_tone;
  body = item.content;
  created_at = now;
  attachment =
      option_bind (λ a. find_by (λ (f : Attachment). f.id) a files) (given_id item.attachment_id);
  reactions = [];
  thread_reply_count = none;
  thread_last_reply_at = none;
  thread_reply_avatars = [];
  edited_at = none;
  is_deleted = false;
  parent = none;
}

abbrev pub is_direct : RoomType → Bool
is_direct direct = true
is_direct _ = false

-- A direct room comes back to the list of those who had hidden it.
unfoldable pub reopen : RoomType → Ident → World → World
reopen type room w =
    if is_direct type
    then record w {
      rooms = (unhide_all room w.rooms).0;
      rejoined = w.rejoined ++ map (λ u. (room, u)) (unhide_all room w.rooms).1;
    }
    else w

-- The row is marked first; only who marks it sends. The link of the attachment to the message, which
-- append asks the file repository for, is left out, and so is the notification of the members.
unfoldable pub send_item : Ident → ℕ → Scheduled → User → RoomView → World → World
send_item fresh now item author room w =
    if (mark_sent item.id now w.schedule).1
    then reopen room.room.type item.room_id (record w {
      schedule = (mark_sent item.id now w.schedule).0;
      messages =
          (append item.room_id (message_of fresh now item author w.files) item.attachment_id
            w.messages).0;
      emitted = w.emitted ++ (item.id, message_of fresh now item author w.files) ∷ [];
    })
    else w

-- One turn of the loop in pollScheduledMessagesOnce, for an item that listDue answered earlier.
unfoldable pub poll_item : TextOps → Ident → ℕ → Scheduled → World → World
poll_item ops fresh now item w = elim (user_by_id item.user_id w.users) [
  | none ↦ fail_item ops item.id "author_inactive" w
  | some author ↦
      if not author.is_active
      then fail_item ops item.id "author_inactive" w
      else (elim (find_by_id w.messages item.room_id (some author.id) w.rooms) [
        | none ↦ fail_item ops item.id "room_not_found" w
        | some room ↦
            if not (is_admin author.role) && not (has_member author.id room.room)
            then fail_item ops item.id "not_a_member" w
            else send_item fresh now item author room w
      ])
]

-- `fresh` draws the identifier of the message for an item.
unfoldable pub poll_items : TextOps → (Ident → Ident) → ℕ → List Scheduled → World → World
poll_items ops fresh now [] w = w
poll_items ops fresh now (item ∷ due) w =
    poll_items ops fresh now due (poll_item ops (fresh item.id) now item w)

-- pollScheduledMessagesOnce, when no other poll is running.
unfoldable pub poll_once : TextOps → (Ident → Ident) → ℕ → World → World
poll_once ops fresh now w = poll_items ops fresh now (list_due now w.schedule) w
