-- ===== src/Message/Threads.antt =====
-- What the message repository (server/src/repositories/memory.ts) shows: deleted messages masked,
-- threads summed up, reactions added, pages cut.
use Prim.Native.String.{String}
use hanmir_talk.Prelude.{
  ℕ, zero, suc, ◌-◌, Bool, false, not, ◌&&◌, Option, none, some, List, [], ◌∷◌, ◌++◌, map, leb,
  ◌==◌, if◌then◌else◌, length, take, drop, filter, or_else, option_map, Ident, given, given_id,
  sort, last, member, TextOps,
}
use hanmir_talk.Message.{
  ChatMessage, Messages, Reaction, message_by_id, is_top_level, room_messages, stored,
}

abbrev pub deleted_body : String
deleted_body = "삭제된 메시지입니다"

-- maskIfDeleted
unfoldable pub mask_if_deleted : ChatMessage → ChatMessage
mask_if_deleted m = if m.is_deleted then record m { body = deleted_body; attachment = none } else m

is_reply_to : Ident → ChatMessage → Bool
is_reply_to parent m = elim m.parent [ none ↦ false | some p ↦ p == parent ]

all_messages : List (Ident × List ChatMessage) → List ChatMessage
all_messages [] = []
all_messages ((room, list) ∷ rest) = list ++ all_messages rest

-- The replies in every room, oldest first.
unfoldable pub collect_replies : Ident → Messages → List ChatMessage
unfolding is_reply_to all_messages sort
collect_replies parent s =
    sort (λ a b. leb a.created_at b.created_at) (filter (is_reply_to parent) (all_messages s.rooms))

-- The authors of the replies, given newest first: each once, three at most.
unfoldable pub avatars_of : List ChatMessage → List Ident → ℕ → List (String × Option String)
unfolding member
avatars_of [] seen left = []
avatars_of (m ∷ ms) seen zero = []
avatars_of (m ∷ ms) seen (suc left) =
    let skip = avatars_of ms seen (suc left) in
    let take_it = avatars_of ms (m.author_id ∷ seen) left in
    if member m.author_id seen then skip else (m.initials, m.avatar_tone) ∷ take_it

reversed : List ChatMessage → List ChatMessage → List ChatMessage
reversed [] acc = acc
reversed (m ∷ ms) acc = reversed ms (m ∷ acc)

summed_up : ChatMessage → List ChatMessage → ChatMessage
unfolding avatars_of reversed
summed_up m replies = elim (last replies) [
  | none ↦ m
  | some newest ↦ record m {
    thread_reply_count = some (length replies);
    thread_last_reply_at = some newest.created_at;
    thread_reply_avatars = avatars_of (reversed replies []) [] 3;
  }
]

-- decorateThread: a reply has no summary, and deleted replies do not count.
unfoldable pub decorate_thread : Messages → ChatMessage → ChatMessage
unfolding summed_up collect_replies
decorate_thread s m =
    if is_top_level m
    then summed_up m (filter (λ r. not r.is_deleted) (collect_replies m.id s))
    else m

-- decorateReactions; the reaction repository is given by its listForMessage at the viewer.
unfoldable pub decorate_reactions : (Ident → List Reaction) → ChatMessage → ChatMessage
decorate_reactions reactions m = elim (reactions m.id) [
  | [] ↦ m
  | r ∷ rs ↦ record m { reactions = r ∷ rs }
]

-- What stands before the message with this identifier; everything if there is none.
unfoldable pub before : Ident → List ChatMessage → List ChatMessage
before id ms = elim (message_by_id id ms) [ none ↦ ms | some m ↦ until ms ]
  where
    until : List ChatMessage → List ChatMessage
    until [] = []
    until (x ∷ xs) = let rest = until xs in if x.id == id then [] else x ∷ rest

-- `xs.slice(-n)` for n > 0
abbrev pub take_last : ℕ → List ChatMessage → List ChatMessage
take_last n xs = drop (length xs - n) xs

-- The page of top-level messages that listByRoom shows; a limit of 0 is none.
unfoldable pub page : Option Ident → Option ℕ → List ChatMessage → List ChatMessage
unfolding before
page before_id limit top =
    let cut : List ChatMessage = elim (given_id before_id) [
      | none ↦ top
      | some id ↦ before id top
    ] in
    elim (given_id limit) [ none ↦ cut | some n ↦ take_last n cut ]

unfoldable pub list_by_room :
    (Ident → List Reaction) → Ident → Option Ident → Option ℕ → Messages → List ChatMessage
list_by_room reactions room before_id limit s =
    map (λ m. decorate_reactions reactions (decorate_thread s (mask_if_deleted m)))
      (page before_id limit (filter is_top_level (room_messages room s)))

unfoldable pub find_by_id : (Ident → List Reaction) → Ident → Messages → Option ChatMessage
find_by_id reactions id s =
    option_map (λ m. decorate_reactions reactions (decorate_thread s (mask_if_deleted m)))
      (stored id s)

unfoldable pub list_replies : (Ident → List Reaction) → Ident → Messages → List ChatMessage
list_replies reactions parent s =
    map (λ m. decorate_reactions reactions (mask_if_deleted m)) (collect_replies parent s)

-- The messages of the rooms that may be searched.
unfoldable pub allowed_messages : List Ident → List (Ident × List ChatMessage) → List ChatMessage
unfolding member
allowed_messages allowed [] = []
allowed_messages allowed ((room, list) ∷ rest) =
    let later = allowed_messages allowed rest in
    if member room allowed then list ++ later else later

-- `trim`, `toLowerCase` and `includes` are parameters; newest first.
unfoldable pub search : TextOps → String → List Ident → Option ℕ → Messages → List ChatMessage
search ops q allowed limit s = elim (given (some (ops.lower (ops.trim q)))) [
  | none ↦ []
  | some needle ↦ take (or_else limit 50) (
      sort (λ a b. leb b.created_at a.created_at)
        (filter (λ m. not m.is_deleted && ops.includes (ops.lower m.body) needle)
          (allowed_messages allowed s.rooms)))
]
