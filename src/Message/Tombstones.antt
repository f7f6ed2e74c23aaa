-- ===== src/Message/Tombstones.antt =====
-- Deleted messages and pins (softDelete, maskIfDeleted, pin, getPinned and the listings of
-- server/src/repositories/memory.ts).
use Prim.Native.String.{String}
use hanmir_talk.Prelude.{
  ℕ, ◌≡◌, refl, ap, ◌∙◌, ◌≢◌, inl, inr, Bool, true, false, not, ◌&&◌, Option, none, some, List, [],
  ◌∷◌, arith, leb, Bool-cases, Option-cases, All, filter, has_by, is_some, or_else, option_map,
  Ident, given, sort, lookup, TextOps,
}
use hanmir_talk.Prelude.{lookup-delete, find_by-modify_by, sort-All, All-of_map, All-take}
use hanmir_talk.Message.{
  ChatMessage, Messages, Reaction, message_id, message_by_id, modify_message, stored_in, stored,
  tombstone, unpin_message, soft_delete, get_pinned_id,
}
use hanmir_talk.Message.Threads.{
  deleted_body, mask_if_deleted, decorate_thread, decorate_reactions, list_by_room, find_by_id,
  list_replies, search, allowed_messages,
}

-- A deleted message shows the placeholder and no attachment.
abbrev pub IsMasked : ChatMessage → Type 0
IsMasked m = m.is_deleted ≡ true → (m.body ≡ deleted_body) × (m.attachment ≡ none)

mask-IsMasked : (m : ChatMessage) → IsMasked (mask_if_deleted m)
unfolding mask_if_deleted
mask-IsMasked m = elim (Bool-cases m.is_deleted) [
  | inl e ↦ rw e (λ h. (refl, refl))
  | inr e ↦ rw e (λ h. absurd (cc))
]

-- Decoration leaves these three fields alone.
abbrev SameContent : ChatMessage → ChatMessage → Type 0
SameContent a b = (a.is_deleted ≡ b.is_deleted) × (a.body ≡ b.body) × (a.attachment ≡ b.attachment)

decorate_thread-same : (s : Messages) (m : ChatMessage) → SameContent (decorate_thread s m) m
unfolding decorate_thread
decorate_thread-same s m = ground arith

decorate_reactions-same :
    (r : Ident → List Reaction) (m : ChatMessage) → SameContent (decorate_reactions r m) m
unfolding decorate_reactions
decorate_reactions-same r m = ground arith

shown-IsMasked :
    (r : Ident → List Reaction) (s : Messages) (m : ChatMessage)
    → IsMasked (decorate_reactions r (decorate_thread s (mask_if_deleted m)))
shown-IsMasked r s m = λ h. ground (
  arith,
  decorate_reactions-same r (decorate_thread s (mask_if_deleted m)),
  decorate_thread-same s (mask_if_deleted m),
  mask-IsMasked m,
)

reply-IsMasked :
    (r : Ident → List Reaction) (m : ChatMessage)
    → IsMasked (decorate_reactions r (mask_if_deleted m))
reply-IsMasked r m =
    λ h. ground (arith, decorate_reactions-same r (mask_if_deleted m), mask-IsMasked m)

has-find :
    (id : Ident) (list : List ChatMessage)
    → has_by message_id id list ≡ is_some (message_by_id id list)
has-find id [] = refl
has-find id (m ∷ ms) = ground (arith, has-find id ms)

-- A page of a room, the replies of a thread and a single message show a deleted message with the
-- placeholder and without its attachment.
pub listings-IsMasked :
    (reactions : Ident → List Reaction) (s : Messages)
    → ((room : Ident) (before_id : Option Ident) (limit : Option ℕ)
        → All IsMasked (list_by_room reactions room before_id limit s))
      × ((parent : Ident) → All IsMasked (list_replies reactions parent s))
      × ((id : Ident)
          → All IsMasked (or_else (option_map (λ m. m ∷ []) (find_by_id reactions id s)) []))
unfolding list_by_room list_replies find_by_id
listings-IsMasked reactions s = (
  (λ room before_id limit. All-of_map IsMasked _ _ (shown-IsMasked reactions s)),
  (λ parent. All-of_map IsMasked _ _ (reply-IsMasked reactions)),
  (λ id. one (stored id s)),
)
  where
    one :
        (o : Option ChatMessage)
        → All IsMasked (
            or_else
              (option_map
                (λ m. m ∷ [])
                (option_map
                  (λ x. decorate_reactions reactions (decorate_thread s (mask_if_deleted x)))
                  o))
              [])
    one none = tt
    one (some x) = (shown-IsMasked reactions s x, tt)

abbrev pub IsLive : ChatMessage → Type 0
IsLive m = m.is_deleted ≡ false

IsLive-filter :
    (p : ChatMessage → Bool) (ms : List ChatMessage)
    → All IsLive (filter (λ m. not m.is_deleted && p m) ms)
IsLive-filter p [] = tt
IsLive-filter p (m ∷ ms) = ground (arith, IsLive-filter p ms)

-- A search finds no deleted message.
pub search-IsLive :
    (ops : TextOps) (q : String) (allowed : List Ident) (limit : Option ℕ) (s : Messages)
    → All IsLive (search ops q allowed limit s)
unfolding search
search-IsLive ops q allowed limit s = elim (Option-cases (given (some (ops.lower (ops.trim q))))) [
  | inl e ↦ rw (e, search) tt
  | inr (needle, e) ↦
      rw (e, search)
        (All-take IsLive (or_else limit 50)
          (sort (λ a b. leb b.created_at a.created_at) (found needle))
          (sort-All (λ a b. leb b.created_at a.created_at) IsLive (found needle)
            (IsLive-filter (λ m. ops.includes (ops.lower m.body) needle)
              (allowed_messages allowed s.rooms))))
]
  where
    found : String → List ChatMessage
    found needle =
        filter (λ m. not m.is_deleted && ops.includes (ops.lower m.body) needle)
          (allowed_messages allowed s.rooms)

-- The stored message after a change of one message.
stored_in-modify :
    (id : Ident) (f : ChatMessage → ChatMessage) (rooms : List (Ident × List ChatMessage))
    → ((m : ChatMessage) → (f m).id ≡ m.id)
    → stored_in id (modify_message id f rooms) ≡ option_map f (stored_in id rooms)
unfolding stored_in modify_message
stored_in-modify id f [] h = refl
stored_in-modify id f ((room, list) ∷ rest) h = ground (
  arith,
  find_by-modify_by message_id id id f list h,
  stored_in-modify id f rest h,
  has-find id list,
)

stored-modify :
    (id : Ident) (f : ChatMessage → ChatMessage) (s : Messages) (pinned : List (Ident × Ident))
    → ((m : ChatMessage) → (f m).id ≡ m.id)
    → stored id (record s { rooms = modify_message id f s.rooms; pinned = pinned })
      ≡ option_map f (stored id s)
unfolding stored
stored-modify id f s pinned h = stored_in-modify id f s.rooms h

unpin_message-ne :
    (room id : Ident) (pinned : List (Ident × Ident))
    → lookup room (unpin_message room id pinned) ≢ some id
unpin_message-ne room id pinned e = elim (Option-cases (lookup room pinned)) [
  | inl n ↦ ground (arith, n)
  | inr (p, n) ↦ ground (arith, n, lookup-delete room room pinned)
]

-- Deleting a message leaves its tombstone if it is there, and fails only if it is not.
soft_delete_lem :
    (id : Ident) (s : Messages)
    → (stored id (soft_delete id s).0 ≡ option_map tombstone (stored id s))
      × ((soft_delete id s).1 ≡ is_some (stored id s))
unfolding soft_delete
soft_delete_lem id s = elim (Option-cases (stored id s)) [
  | inl e ↦ rw (e, soft_delete) (e, refl)
  | inr (m, e) ↦
      rw (e, soft_delete)
        (stored-modify id tombstone s _ (λ a. refl) ∙ ap (option_map tombstone) e, refl)
]

-- Deleting a message that is there takes the pin of its room off it.
soft_delete-unpins :
    (id : Ident) (m : ChatMessage) (s : Messages)
    → stored id s ≡ some m
    → get_pinned_id m.room_id (soft_delete id s).0 ≢ some id
unfolding soft_delete get_pinned_id
soft_delete-unpins id m s e = rw (e, soft_delete) (unpin_message-ne m.room_id id s.pinned)
