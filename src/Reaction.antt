-- ===== src/Reaction.antt =====
-- MemoryMessageReactionRepository (server/src/repositories/memory.ts): the emojis that users put on
-- messages. An emoji is a text that is compared only, so it is an identifier here.
pub mod Chips
use Prim.Native.String.{String}
use hanmir_talk.Prelude.{
  ℕ, zero, suc, ◌+◌, ◌-◌, ◌*◌, ◌≤◌, ◌<◌, ◌≡◌, refl, sym, ap, ◌∙◌, ◌≢◌, ◌⊎◌, inl, inr, Bool, true,
  false, not, ◌&&◌, ◌||◌, Option, none, some, List, [], ◌∷◌, ◌++◌, map, arith, ltb, leb, ◌==◌,
  if◌then◌else◌, Bool-cases, Option-cases, length, take, drop, All, find, any, filter, modify,
  remove, count, find_by, has_by, modify_by, remove_by, Fresh, Distinct, is_some, or_else,
  or_option, option_map, option_bind, Ident, given, given_id, sort, first, last, sum_of, max, min,
  lookup, insert, delete, member, add, drop_member, Flags, has_flag, set_flag, clear_flag,
  users_with, clear_all, IsMap, TextOps, deduped,
}

-- The emojis of each user on a message, and these of each message.
abbrev pub ByUser : Type 0
ByUser = List (Ident × List Ident)

abbrev pub Reactions : Type 0
Reactions = List (Ident × ByUser)

unfoldable emojis_of : Ident → Ident → Reactions → List Ident
emojis_of message user rows = or_else (option_bind (lookup user) (lookup message rows)) []

-- The state, and whether the emoji is new.
unfoldable add_reaction : Ident → Ident → Ident → Reactions → Reactions × Bool
unfolding emojis_of
add_reaction message user emoji rows =
    if member emoji (emojis_of message user rows) then (rows, false) else (
      insert message
          (insert user (emojis_of message user rows ++ emoji ∷ [])
            (or_else (lookup message rows) []))
          rows,
      true,
    )

-- `map.set(k, v)`, or `map.delete(k)` if nothing is left.
abbrev pub put {ℓ} : {V : Type ℓ} → Ident → List V → List (Ident × List V) → List (Ident × List V)
put k [] m = delete k m
put k (v ∷ vs) m = insert k (v ∷ vs) m

-- The state, and whether the emoji was there.
unfoldable remove_reaction : Ident → Ident → Ident → Reactions → Reactions × Bool
unfolding emojis_of
remove_reaction message user emoji rows =
    if member emoji (emojis_of message user rows)
    then (
      put message
          (put user (drop_member emoji (emojis_of message user rows))
            (or_else (lookup message rows) []))
          rows,
      true,
    )
    else (rows, false)

pub record Chip : Type 0 where
  pub emoji : Ident
  pub count_ : ℕ
  pub reacted_by_me : Bool

-- `viewerUserId && userId === viewerUserId`
abbrev pub is_viewer : Option Ident → Ident → Bool
is_viewer viewer user = elim (given_id viewer) [ none ↦ false | some v ↦ user == v ]

-- One reaction in the loop of listForMessage.
unfoldable pub count_one :
    Option Ident → Ident → Ident → List (Ident × (ℕ × Bool)) → List (Ident × (ℕ × Bool))
count_one viewer user emoji counts = insert emoji (cur.0 + 1, cur.1 || is_viewer viewer user) counts
  where
    cur : ℕ × Bool
    cur = or_else (lookup emoji counts) (0, false)

unfoldable pub count_user :
    Option Ident → Ident → List Ident → List (Ident × (ℕ × Bool)) → List (Ident × (ℕ × Bool))
unfolding count_one
count_user viewer user [] counts = counts
count_user viewer user (e ∷ es) counts = count_user viewer user es (count_one viewer user e counts)

unfoldable pub count_all :
    Option Ident → ByUser → List (Ident × (ℕ × Bool)) → List (Ident × (ℕ × Bool))
unfolding count_user
count_all viewer [] counts = counts
count_all viewer ((user, es) ∷ us) counts = count_all viewer us (count_user viewer user es counts)

abbrev pub chip_of_count : Ident × (ℕ × Bool) → Chip
chip_of_count e = record { emoji = e.0; count_ = e.1.0; reacted_by_me = e.1.1 }

unfoldable pub list_for_message : Ident → Option Ident → Reactions → List Chip
unfolding count_all sort
list_for_message message viewer rows = elim (lookup message rows) [
  | none ↦ []
  | some us ↦
      sort (λ (a b : Chip). leb b.count_ a.count_) (map chip_of_count (count_all viewer us []))
]

-- Later entries of a message replace earlier ones, as `out.set` does.
unfoldable list_for_messages :
    List Ident → Option Ident → Reactions → List (Ident × List Chip) → List (Ident × List Chip)
unfolding list_for_message
list_for_messages [] viewer rows out = out
list_for_messages (m ∷ ms) viewer rows out =
    list_for_messages ms viewer rows (insert m (list_for_message m viewer rows) out)

-- A user with the name that the accessor gives.
abbrev pub Named : Type 0
Named = Ident × String

unfoldable pub detail_one :
    (Ident → String) → Ident → Ident → List (Ident × List Named) → List (Ident × List Named)
detail_one names user emoji details =
    insert emoji (or_else (lookup emoji details) [] ++ (user, names user) ∷ []) details

unfoldable pub detail_user :
    (Ident → String) → Ident → List Ident → List (Ident × List Named) → List (Ident × List Named)
unfolding detail_one
detail_user names user [] details = details
detail_user names user (e ∷ es) details =
    detail_user names user es (detail_one names user e details)

unfoldable pub detail_all :
    (Ident → String) → ByUser → List (Ident × List Named) → List (Ident × List Named)
unfolding detail_user
detail_all names [] details = details
detail_all names ((user, es) ∷ us) details = detail_all names us (detail_user names user es details)

unfoldable pub list_detail_for_message :
    (Ident → String) → Ident → Reactions → List (Ident × List Named)
unfolding detail_all sort
list_detail_for_message names message rows = elim (lookup message rows) [
  | none ↦ []
  | some us ↦
      sort (λ (a b : Ident × List Named). leb (length b.1) (length a.1)) (detail_all names us [])
]
