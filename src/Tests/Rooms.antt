-- ===== src/Tests/Rooms.antt =====
-- Rooms and messages: membership, visibility, direct rooms, unread counts, deleted messages.
use hanmir_talk.Prelude.{
  some, ℕ, ◌+◌, ◌≡◌, refl, true, false, Option, none, List, [], ◌∷◌, arith, All, or_else,
  option_map, Ident, lookup, has_flag,
}
use hanmir_talk.Message.{
  Attachment, ChatMessage, Messages, Reaction, room_messages, append, unread_count, mark_read,
  last_read_of,
}
use hanmir_talk.Prelude.{map}
use hanmir_talk.Message.Threads.{
  page, mask_if_deleted, decorate_thread, decorate_reactions, list_by_room, list_replies,
  find_by_id,
}
use hanmir_talk.Message.Unread.{unread_count-append, unread_count-mark_read}
use hanmir_talk.Message.Tombstones.{IsMasked, listings-IsMasked}
use hanmir_talk.Room.{
  Room, Rooms, Member, group, remove_member, find_or_create_direct, is_direct_of,
}
use hanmir_talk.Room.Visibility.{remove_member-flags}
use hanmir_talk.Room.Direct.{find_or_create_direct-once}

abbrev message : Ident → Ident → ChatMessage
message id author = record {
  id = id;
  room_id = 3;
  author_id = author;
  author_name = "Kim";
  initials = "K";
  avatar_tone = none;
  body = "hello";
  created_at = 10;
  attachment = none;
  reactions = [];
  thread_reply_count = none;
  thread_last_reply_at = none;
  thread_reply_avatars = [];
  edited_at = none;
  is_deleted = false;
  parent = none;
}

abbrev conversation : Messages
conversation = record { rooms = (3, message 20 1 ∷ []) ∷ []; last_read = []; pinned = (3, 20) ∷ [] }

unread_count-append_example :
    unread_count 3 2 (append 3 (message 21 1) none conversation).0
    ≡ unread_count 3 2 conversation + 1
unfolding last_read_of lookup
unread_count-append_example =
    unread_count-append 3 3 2 (message 21 1) none conversation (λ e. absurd (ground arith))

unread_count-mark_read_example :
    unread_count 3 2 (mark_read 3 2 21 (append 3 (message 21 1) none conversation).0) ≡ 0
unfolding room_messages lookup
unread_count-mark_read_example =
    unread_count-mark_read 3 2 (message 21 1) none conversation ((λ e. absurd (ground arith)), tt)
      (omega arith) refl

abbrev no_reactions : Ident → List Reaction
no_reactions id = []

abbrev plan : Attachment
plan = record { id = 8; kind = "pdf"; name = "plan"; meta = "" }

-- A conversation whose only message, with a text and an attachment, was deleted.
abbrev deleted_conversation : Messages
deleted_conversation = record conversation {
  rooms = (3, record (message 20 1) { is_deleted = true; attachment = some plan } ∷ []) ∷ [];
}

-- The page of the room has that message.
deleted_page :
    map
      (λ (m : ChatMessage). m.is_deleted)
      (list_by_room no_reactions 3 none none deleted_conversation)
    ≡ true ∷ []
unfolding list_by_room decorate_thread decorate_reactions mask_if_deleted lookup room_messages page
deleted_page = refl

listings-IsMasked_example :
    ((room : Ident) (before_id : Option Ident) (limit : Option ℕ)
      → All IsMasked (list_by_room no_reactions room before_id limit deleted_conversation))
    × ((parent : Ident) → All IsMasked (list_replies no_reactions parent deleted_conversation))
    × ((id : Ident)
        → All IsMasked (
            or_else
              (option_map (λ m. m ∷ []) (find_by_id no_reactions id deleted_conversation))
              []))
listings-IsMasked_example = listings-IsMasked no_reactions deleted_conversation

abbrev person : Ident → Member
person id = record { user_id = id; is_owner = false }

abbrev team : Room
team = record {
  id = 3;
  name = "Team";
  type = group;
  description = none;
  project_id = none;
  members = person 1 ∷ person 2 ∷ [];
}

abbrev rooms : Rooms
rooms = record { rooms = team ∷ []; muted = []; pinned = []; hidden = (2, 3 ∷ []) ∷ [] }

remove_member-flags_example :
    (has_flag 2 3 (remove_member conversation 3 2 rooms).0.muted ≡ false)
    × (has_flag 2 3 (remove_member conversation 3 2 rooms).0.hidden ≡ false)
    × ((remove_member conversation 3 2 rooms).0.pinned ≡ rooms.pinned)
remove_member-flags_example = remove_member-flags conversation 3 2 rooms refl

find_or_create_direct-once_example :
    (is_direct_of 1 5 (find_or_create_direct conversation 9 1 5 rooms).1.room ≡ true)
    × ((find_or_create_direct conversation 10 1 5
          (find_or_create_direct conversation 9 1 5 rooms).0).1.room
        ≡ (find_or_create_direct conversation 9 1 5 rooms).1.room)
    × ((find_or_create_direct conversation 10 5 1
          (find_or_create_direct conversation 9 1 5 rooms).0).1.room
        ≡ (find_or_create_direct conversation 9 1 5 rooms).1.room)
    × ((find_or_create_direct conversation 10 1 5
          (find_or_create_direct conversation 9 1 5 rooms).0).0.rooms
        ≡ (find_or_create_direct conversation 9 1 5 rooms).0.rooms)
    × ((find_or_create_direct conversation 10 5 1
          (find_or_create_direct conversation 9 1 5 rooms).0).0.rooms
        ≡ (find_or_create_direct conversation 9 1 5 rooms).0.rooms)
find_or_create_direct-once_example =
    find_or_create_direct-once conversation 9 10 1 5 rooms (λ e. absurd (ground arith))
