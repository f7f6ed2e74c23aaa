-- ===== src/Message/Unread.antt =====
-- Unread counts (unreadCount, append and markRead of server/src/repositories/memory.ts).
use hanmir_talk.Prelude.{
  ℕ, zero, suc, ◌+◌, ◌-◌, ◌<◌, ◌≡◌, refl, ap, ◌≢◌, inl, inr, Bool, true, ◌&&◌, Option, none, some,
  List, [], ◌∷◌, ◌++◌, arith, ◌==◌, if◌then◌else◌, Bool-cases, Option-cases, length, filter, Fresh,
  option_map, Ident, insert,
}
use hanmir_talk.Prelude.{lookup-insert, ==_refl}
use mathlib.Core.List.{append-nil}
use hanmir_talk.Message.{
  ChatMessage, Messages, message_id, is_top_level, room_messages, after, not_by, unread_of,
  last_read_of, unread_count, append, mark_read, pointers_of,
}

filter-append :
    (p : ChatMessage → Bool) (xs ys : List ChatMessage)
    → filter p (xs ++ ys) ≡ filter p xs ++ filter p ys
filter-append p [] ys = refl
filter-append p (x ∷ xs) ys = ground (arith, filter-append p xs ys)

after-push :
    (id : Ident) (m : ChatMessage) (xs : List ChatMessage)
    → m.id ≢ id
    → after id (xs ++ m ∷ []) ≡ option_map (λ l. l ++ m ∷ []) (after id xs)
after-push id m [] n = ground arith
after-push id m (x ∷ xs) n = ground (arith, after-push id m xs n)

after-new :
    (m : ChatMessage) (xs : List ChatMessage)
    → Fresh message_id m.id xs
    → after m.id (xs ++ m ∷ []) ≡ some []
after-new m [] f = ground arith
after-new m (x ∷ xs) f = ground (arith, f.0, after-new m xs f.1)

Fresh-filter :
    (id : Ident) (p : ChatMessage → Bool) (xs : List ChatMessage)
    → Fresh message_id id xs
    → Fresh message_id id (filter p xs)
Fresh-filter id p [] f = tt
Fresh-filter id p (x ∷ xs) f = elim (Bool-cases (p x)) [
  | inl e ↦ rw e (f.0, Fresh-filter id p xs f.1)
  | inr e ↦ rw e (Fresh-filter id p xs f.1)
]

length-filter_push :
    (p : ChatMessage → Bool) (xs : List ChatMessage) (m : ChatMessage)
    → length (filter p (xs ++ m ∷ [])) ≡ length (filter p xs) + (if p m then 1 else 0)
length-filter_push p [] m = ground arith
length-filter_push p (x ∷ xs) m = ground (arith, length-filter_push p xs m)

unread_of-push :
    (user : Ident) (pointer : Option Ident) (top : List ChatMessage) (m : ChatMessage)
    → pointer ≢ some m.id
    → length (unread_of user pointer (top ++ m ∷ []))
      ≡ length (unread_of user pointer top) + (if not_by user m then 1 else 0)
unread_of-push user none top m n = length-filter_push (not_by user) top m
unread_of-push user (some zero) top m n = length-filter_push (not_by user) top m
unread_of-push user (some (suc k)) top m n = elim (Option-cases (after (suc k) top)) [
  | inl e ↦ ground (arith, after-push (suc k) m top, e, length-filter_push (not_by user) top m)
  | inr (later, e) ↦
      ground (arith, after-push (suc k) m top, e, length-filter_push (not_by user) later m)
]

unread_of-new :
    (user : Ident) (m : ChatMessage) (top : List ChatMessage)
    → Fresh message_id m.id top
    → 0 < m.id
    → unread_of user (some m.id) (top ++ m ∷ []) ≡ []
unread_of-new user m top f pos =
    let e : m.id ≡ suc (m.id - 1) = omega arith in ground (arith, e, after-new m top f)

-- The count as a function of the read pointer and the messages of the room.
count_of : Ident → Option Ident → List ChatMessage → ℕ
count_of user pointer list = length (unread_of user pointer (filter is_top_level list))

unread_count-count_of :
    (room user : Ident) (s : Messages)
    → unread_count room user s ≡ count_of user (last_read_of user room s) (room_messages room s)
unfolding unread_count count_of
unread_count-count_of room user s = refl

count_of-push :
    (user : Ident) (pointer : Option Ident) (list : List ChatMessage) (m : ChatMessage)
    → pointer ≢ some m.id
    → count_of user pointer (list ++ m ∷ [])
      ≡ count_of user pointer list + (if is_top_level m && not_by user m then 1 else 0)
unfolding count_of
count_of-push user pointer list m n = elim (Bool-cases (is_top_level m)) [
  | inl t ↦
      rw (filter-append is_top_level list (m ∷ []), t)
        (unread_of-push user pointer (filter is_top_level list) m n)
  | inr t ↦
      rw (filter-append is_top_level list (m ∷ []), t, append-nil (filter is_top_level list))
        (omega arith)
]

-- The messages of a room after an append.
pub room_messages-append :
    (room j : Ident) (m : ChatMessage) (attachment : Option Ident) (s : Messages)
    → room_messages j (append room m attachment s).0
      ≡ (if room == j then room_messages j s ++ m ∷ [] else room_messages j s)
unfolding append room_messages
room_messages-append room j m attachment s = ground (
  arith,
  lookup-insert j room (room_messages room s ++ m ∷ []) s.rooms,
  ap (λ k. room_messages k s) {x = room} {y = j},
)

last_read_of-append :
    (room j user : Ident) (m : ChatMessage) (attachment : Option Ident) (s : Messages)
    → last_read_of user j (append room m attachment s).0 ≡ last_read_of user j s
unfolding append last_read_of
last_read_of-append room j user m attachment s = refl

-- If the user's read pointer is not on the new message, it adds one to the count of its room for
-- every user but its author, unless it is a reply, and nothing to other counts.
pub unread_count-append :
    (room j user : Ident) (m : ChatMessage) (attachment : Option Ident) (s : Messages)
    → last_read_of user j s ≢ some m.id
    → unread_count j user (append room m attachment s).0
      ≡ unread_count j user s + (if room == j && is_top_level m && not_by user m then 1 else 0)
unread_count-append room j user m attachment s n =
    rw
      (
        unread_count-count_of j user s,
        unread_count-count_of j user (append room m attachment s).0,
        last_read_of-append room j user m attachment s,
        room_messages-append room j m attachment s,
      )
      (elim (Bool-cases (room == j)) [
        | inl e ↦ rw e (count_of-push user _ _ m n)
        | inr e ↦ rw e (omega arith)
      ])

last_read_of-mark_read :
    (room user last_id : Ident) (s : Messages)
    → last_read_of user room (mark_read room user last_id s) ≡ some last_id
unfolding mark_read last_read_of
last_read_of-mark_read room user last_id s = ground (
  arith,
  lookup-insert user user (insert room last_id (pointers_of user s)) s.last_read,
  lookup-insert room room last_id (pointers_of user s),
)

room_messages-mark_read :
    (room j user last_id : Ident) (s : Messages)
    → room_messages j (mark_read room user last_id s) ≡ room_messages j s
unfolding mark_read room_messages
room_messages-mark_read room j user last_id s = refl

-- A user who marks as read a top-level message that was just appended under a fresh identifier has
-- nothing unread in the room.
pub unread_count-mark_read :
    (room user : Ident) (m : ChatMessage) (attachment : Option Ident) (s : Messages)
    → Fresh message_id m.id (room_messages room s)
    → 0 < m.id
    → is_top_level m ≡ true
    → unread_count room user (mark_read room user m.id (append room m attachment s).0) ≡ 0
unfolding count_of
unread_count-mark_read room user m attachment s f pos t =
    rw
      (
        unread_count-count_of room user (mark_read room user m.id (append room m attachment s).0),
        last_read_of-mark_read room user m.id (append room m attachment s).0,
        room_messages-mark_read room room user m.id (append room m attachment s).0,
        room_messages-append room room m attachment s,
        ==_refl room,
        filter-append is_top_level (room_messages room s) (m ∷ []),
        t,
      )
      (ap length (
        unread_of-new user m (filter is_top_level (room_messages room s))
          (Fresh-filter m.id is_top_level (room_messages room s) f) pos))
