-- ===== src/Room/Visibility.antt =====
-- Mute, list pin and hiding (setMute, setListPin, setHidden, unhideAll and mutedMemberIds of
-- server/src/repositories/memory.ts).
use hanmir_talk.Prelude.{
  ◌≡◌, refl, inl, inr, Bool, true, false, ◌&&◌, arith, ◌==◌, if◌then◌else◌, Option-cases, is_some,
  Ident, member, Flags, has_flag, IsMap,
}
use hanmir_talk.Prelude.{
  has_flag-set_flag, has_flag-clear_flag, has_flag-clear_all, member-users_with,
}
use hanmir_talk.Message.{Messages}
use hanmir_talk.Room.{
  Rooms, room_by_id, set_mute, set_hidden, set_list_pin, unhide_all, remove_member,
}

-- Setting a flag changes it for one user and one room that is there, and no other flag.
abbrev pub SetsFlag : Ident → Ident → Bool → (Rooms → Flags) → Rooms → Rooms → Type 0
SetsFlag id user on flags s s' =
    (w j : Ident)
    → has_flag w j (flags s')
      ≡ (if is_some (room_by_id id s) && user == w && id == j then on else has_flag w j (flags s))

-- Muting, pinning and hiding change the flag of one user on one room, if the room is there, and no
-- other flag of their kind.
set_flags :
    (messages : Messages) (id user : Ident) (on : Bool) (s : Rooms)
    → SetsFlag id user on (λ t. t.muted) s (set_mute messages id user on s).0
      × SetsFlag id user on (λ t. t.pinned) s (set_list_pin messages id user on s).0
      × SetsFlag id user on (λ t. t.hidden) s (set_hidden messages id user on s).0
unfolding set_mute set_list_pin set_hidden
set_flags messages id user on s = (
  (λ w j. ground (arith, has_flag-set_flag user id w j on s.muted)),
  (λ w j. ground (arith, has_flag-set_flag user id w j on s.pinned)),
  (λ w j. ground (arith, has_flag-set_flag user id w j on s.hidden)),
)

-- Where each user has one set of hidden rooms: bringing a room back names exactly the users who had
-- hidden it, and after it nobody hides the room and the other rooms are hidden as before.
unhide_all_lem :
    (id : Ident) (s : Rooms)
    → IsMap s.hidden
    → ((w : Ident) → member w (unhide_all id s).1 ≡ has_flag w id s.hidden)
      × ((w j : Ident)
          → has_flag w j (unhide_all id s).0.hidden
            ≡ (if id == j then false else has_flag w j s.hidden))
unfolding unhide_all
unhide_all_lem id s h =
    ((λ w. member-users_with id w s.hidden h), (λ w j. has_flag-clear_all id w j s.hidden))

-- A member who is removed from a room that is there keeps no mute and no hidden flag on it; the list
-- pins do not change.
pub remove_member-flags :
    (messages : Messages) (id user : Ident) (s : Rooms)
    → is_some (room_by_id id s) ≡ true
    → let s' = (remove_member messages id user s).0 in
      (has_flag user id s'.muted ≡ false)
      × (has_flag user id s'.hidden ≡ false)
      × (s'.pinned ≡ s.pinned)
unfolding remove_member
remove_member-flags messages id user s h = elim (Option-cases (room_by_id id s)) [
  | inl n ↦ absurd (ground (arith, n, h))
  | inr (r, n) ↦
      rw (n, remove_member)
        (
          ground (arith, has_flag-clear_flag user id user id s.muted),
          ground (arith, has_flag-clear_flag user id user id s.hidden),
          refl,
        )
]
