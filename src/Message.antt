-- ===== src/Message.antt =====
-- MemoryMessageRepository (server/src/repositories/memory.ts): messages by room, read pointers and
-- pins. A message keeps the fields that the repository reads or writes, and those that it shows in
-- its answers; fields that it only carries along are left out.
pub mod Threads
pub mod Unread
pub mod Tombstones
use Prim.Native.String.{String}
use hanmir_talk.Prelude.{
  ℕ, zero, suc, ◌+◌, ◌-◌, ◌*◌, ◌≤◌, ◌<◌, ◌≡◌, refl, sym, ap, ◌∙◌, ◌≢◌, ◌⊎◌, inl, inr, Bool, true,
  false, not, ◌&&◌, ◌||◌, Option, none, some, List, [], ◌∷◌, ◌++◌, map, arith, ltb, leb, ◌==◌,
  if◌then◌else◌, Bool-cases, Option-cases, length, take, drop, All, find, any, filter, modify,
  remove, count, find_by, has_by, modify_by, remove_by, Fresh, Distinct, is_some, or_else,
  or_option, option_map, option_bind, Ident, given, given_id, sort, first, last, sum_of, max, min,
  lookup, insert, delete, member, add, drop_member, Flags, has_flag, set_flag, clear_flag,
  users_with, clear_all, IsMap, TextOps,
}

pub record Attachment : Type 0 where
  pub id : Ident
  pub kind : String
  pub name : String
  pub meta : String

pub record Reaction : Type 0 where
  pub emoji : String
  pub count_ : ℕ
  pub reacted_by_me : Bool

-- An avatar is the initials and the tone of its user.
pub record ChatMessage : Type 0 where
  pub id : Ident
  pub room_id : Ident
  pub author_id : Ident
  pub author_name : String
  pub initials : String
  pub avatar_tone : Option String
  pub body : String
  pub created_at : ℕ
  pub attachment : Option Attachment
  pub reactions : List Reaction
  pub thread_reply_count : Option ℕ
  pub thread_last_reply_at : Option ℕ
  pub thread_reply_avatars : List (String × Option String)
  pub edited_at : Option ℕ
  pub is_deleted : Bool
  pub parent : Option Ident

-- `data` by room, `lastRead` by user and room, `pinnedByRoom`.
pub record Messages : Type 0 where
  pub rooms : List (Ident × List ChatMessage)
  pub last_read : List (Ident × List (Ident × Ident))
  pub pinned : List (Ident × Ident)

abbrev pub message_id : ChatMessage → Ident
message_id m = m.id

abbrev pub message_by_id : Ident → List ChatMessage → Option ChatMessage
message_by_id = find_by message_id

-- `!m.parentMessageId`
abbrev pub is_top_level : ChatMessage → Bool
is_top_level m = not (is_some (given_id m.parent))

-- `this.data[roomId] ?? []`
unfoldable pub room_messages : Ident → Messages → List ChatMessage
room_messages room s = elim (lookup room s.rooms) [ none ↦ [] | some list ↦ list ]

-- The index after the message with this identifier, as the rest of the list.
abbrev pub after : Ident → List ChatMessage → Option (List ChatMessage)
after id [] = none
after id (m ∷ ms) = if m.id == id then some ms else after id ms

abbrev pub not_by : Ident → ChatMessage → Bool
not_by user m = not (m.author_id == user)

-- What a user has not read of the top-level messages of a room.
abbrev pub unread_of : Ident → Option Ident → List ChatMessage → List ChatMessage
unread_of user last_id top = elim (given_id last_id) [
  | none ↦ filter (not_by user) top
  | some id ↦ elim (after id top) [
    | none ↦ filter (not_by user) top
    | some later ↦ filter (not_by user) later
  ]
]

-- `this.lastRead.get(userId)?.get(roomId)`
unfoldable pub last_read_of : Ident → Ident → Messages → Option Ident
last_read_of user room s = option_bind (lookup room) (lookup user s.last_read)

unfoldable pub unread_count : Ident → Ident → Messages → ℕ
unread_count room user s =
    length (unread_of user (last_read_of user room s) (filter is_top_level (room_messages room s)))

unfoldable pub get_pinned_id : Ident → Messages → Option Ident
get_pinned_id room s = lookup room s.pinned

room_of_message : Ident → List (Ident × List ChatMessage) → Option Ident
room_of_message id [] = none
room_of_message id ((room, list) ∷ rest) =
    let later = room_of_message id rest in if has_by message_id id list then some room else later

unfoldable pub find_room_id_by_message_id : Ident → Messages → Option Ident
unfolding room_of_message
find_room_id_by_message_id id s = room_of_message id s.rooms

-- `attachmentLinker` belongs to the file repository: the link to make is part of the answer.
unfoldable pub append :
    Ident → ChatMessage → Option Ident → Messages → Messages × Option (Ident × Ident)
append room m attachment s = (
  record s { rooms = insert room (room_messages room s ++ m ∷ []) s.rooms },
  option_map (λ a. (a, m.id)) (given_id attachment),
)

unfoldable pub append_reply :
    Ident → ChatMessage → Option Ident → Messages → Messages × Option (Ident × Ident)
unfolding append
append_reply parent m attachment s =
    append m.room_id (record m { parent = some parent }) attachment s

-- The first room that has the message is changed.
unfoldable pub modify_message :
    Ident
    → (ChatMessage → ChatMessage)
    → List (Ident × List ChatMessage)
    → List (Ident × List ChatMessage)
modify_message id f [] = []
modify_message id f ((room, list) ∷ rest) =
    let later = modify_message id f rest in
    if has_by message_id id list
    then (room, modify_by message_id id f list) ∷ rest
    else (room, list) ∷ later

-- The message as it is stored, with no decoration.
unfoldable pub stored_in : Ident → List (Ident × List ChatMessage) → Option ChatMessage
stored_in id [] = none
stored_in id ((room, list) ∷ rest) =
    let later = stored_in id rest in elim (message_by_id id list) [ none ↦ later | some m ↦ some m ]

unfoldable pub stored : Ident → Messages → Option ChatMessage
unfolding stored_in
stored id s = stored_in id s.rooms

abbrev pub edited : ℕ → String → ChatMessage → ChatMessage
edited now body m = record m { body = body; edited_at = some now }

unfoldable pub update_body : ℕ → Ident → String → Messages → Messages × Option ChatMessage
update_body now id body s = (
  record s { rooms = modify_message id (edited now body) s.rooms },
  option_map (edited now body) (stored id s),
)

abbrev pub tombstone : ChatMessage → ChatMessage
tombstone m = record m { is_deleted = true }

-- The pin of the message's room goes if it is on this message.
abbrev pub unpin_message : Ident → Ident → List (Ident × Ident) → List (Ident × Ident)
unpin_message room id pinned = elim (lookup room pinned) [
  | none ↦ pinned
  | some p ↦ if p == id then delete room pinned else pinned
]

unfoldable pub soft_delete : Ident → Messages → Messages × Bool
soft_delete id s = elim (stored id s) [
  | none ↦ (s, false)
  | some m ↦ (
    record s {
      rooms = modify_message id tombstone s.rooms;
      pinned = unpin_message m.room_id id s.pinned;
    },
    true,
  )
]

-- The read pointers of a user, empty if there are none.
unfoldable pub pointers_of : Ident → Messages → List (Ident × Ident)
pointers_of user s = elim (lookup user s.last_read) [ none ↦ [] | some m ↦ m ]

unfoldable pub mark_read : Ident → Ident → Ident → Messages → Messages
mark_read room user last s = record s {
  last_read = insert user (insert room last (pointers_of user s)) s.last_read;
}

pub data Pinning : Type 0 where
  pin_ok room_not_found message_not_in_room : Pinning

unfoldable pub pin : Ident → Ident → Messages → Messages × Pinning
pin room id s = elim (lookup room s.rooms) [
  | none ↦ (s, room_not_found)
  | some list ↦
      if has_by message_id id list
      then (record s { pinned = insert room id s.pinned }, pin_ok)
      else (s, message_not_in_room)
]

unfoldable pub unpin : Ident → Messages → Messages × Pinning
unpin room s = (record s { pinned = delete room s.pinned }, pin_ok)

pub record PinnedRef : Type 0 where
  pub id : Ident
  pub author_name : String
  pub body : String
  pub created_at : ℕ

-- The pin is dropped where its message is gone or deleted.
unfoldable pub get_pinned : Ident → Messages → Option PinnedRef
get_pinned room s =
    elim (option_bind (λ id. message_by_id id (room_messages room s))
      (given_id (lookup room s.pinned))) [
        | none ↦ none
        | some m ↦
            if m.is_deleted
            then none
            else some (record {
              id = m.id;
              author_name = m.author_name;
              body = m.body;
              created_at = m.created_at;
            })
      ]
