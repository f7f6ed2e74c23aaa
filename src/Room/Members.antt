-- ===== src/Room/Members.antt =====
-- Membership (addMember, removeMember, leave and create of server/src/repositories/memory.ts).
use hanmir_talk.Prelude.{
  ◌≡◌, refl, ap, ◌≢◌, inl, inr, true, false, not, ◌&&◌, ◌||◌, none, some, List, [], ◌∷◌, ◌++◌,
  arith, ◌==◌, if◌then◌else◌, Bool-cases, Option-cases, All, filter, has_by, Fresh, Distinct,
  option_map, Ident,
}
use hanmir_talk.Prelude.{Distinct-push, find_by-modify_by}
use hanmir_talk.Message.{Messages}
use hanmir_talk.Room.{
  Room, Rooms, Member, Leave, left, archived, no_room, room_id, room_by_id, has_member, with_member,
  without_member, add_member, remove_member,
}

has_without :
    (user j : Ident) (ms : List Member)
    → has_by (λ m. m.user_id) j (filter (λ m. not (m.user_id == user)) ms)
      ≡ (if user == j then false else has_by (λ m. m.user_id) j ms)
has_without user j [] = ground arith
has_without user j (m ∷ ms) = ground (arith, has_without user j ms)

has_push :
    (j : Ident) (ms : List Member) (m : Member)
    → has_by (λ x. x.user_id) j (ms ++ m ∷ []) ≡ (m.user_id == j || has_by (λ x. x.user_id) j ms)
has_push j [] m = ground arith
has_push j (x ∷ ms) m = ground (arith, has_push j ms m)

with_member-id : (user : Ident) (r : Room) → room_id (with_member user r) ≡ room_id r
with_member-id user r = ground arith

has_with_member :
    (user k : Ident) (r : Room) → has_member k (with_member user r) ≡ (user == k || has_member k r)
has_with_member user k r = elim (Bool-cases (has_member user r)) [
  | inl e ↦ rw e (ground (arith, e, ap (λ t. has_member t r) {x = user} {y = k}))
  | inr e ↦ rw e (has_push k r.members (record { user_id = user; is_owner = false }))
]

-- Adding a user to a room makes that user a member of that room, if it is there, and changes no
-- other membership.
add_member_lem :
    (messages : Messages) (id user j k : Ident) (s : Rooms)
    → option_map (has_member k) (room_by_id j (add_member messages id user s).0)
      ≡ option_map (λ r. (id == j && user == k) || has_member k r) (room_by_id j s)
unfolding add_member
add_member_lem messages id user j k s = elim (Option-cases (room_by_id j s)) [
  | inl e ↦
      ground
        (arith, e, find_by-modify_by room_id j id (with_member user) s.rooms (with_member-id user))
  | inr (r, e) ↦ ground (
    arith,
    e,
    find_by-modify_by room_id j id (with_member user) s.rooms (with_member-id user),
    has_with_member user k r,
  )
]

-- Removing a user from a room takes that user out of that room and changes no other membership.
remove_member_lem :
    (messages : Messages) (id user j k : Ident) (s : Rooms)
    → option_map (has_member k) (room_by_id j (remove_member messages id user s).0)
      ≡ option_map (λ r. not (id == j && user == k) && has_member k r) (room_by_id j s)
unfolding remove_member
remove_member_lem messages id user j k s = elim (Option-cases (room_by_id id s)) [
  | inl n ↦
      rw (n, remove_member)
        (elim (Option-cases (room_by_id j s)) [
          | inl e ↦ ground (arith, e)
          | inr (r, e) ↦ ground (arith, e, n, ap (λ t. room_by_id t s) {x = id} {y = j})
        ])
  | inr (x, n) ↦
      rw (n, remove_member)
        (elim (Option-cases (room_by_id j s)) [
          | inl e ↦
              ground
                (arith, e, find_by-modify_by room_id j id (without_member user) s.rooms (λ a. refl))
          | inr (r, e) ↦ ground (
            arith,
            e,
            find_by-modify_by room_id j id (without_member user) s.rooms (λ a. refl),
            has_without user k r.members,
          )
        ])
]

-- What leaving answers and does.
abbrev pub Leaves : Ident → Ident → Rooms → Rooms × Leave → Type 0
Leaves id user s (s', no_room) = (s' ≡ s) × (room_by_id id s ≡ none)
Leaves id user s (s', archived) =
    (room_by_id id s' ≡ none)
    × ((r : Room) × (room_by_id id s ≡ some r)
        × (has_member user r ≡ true)
        × All (λ m. m.user_id ≡ user) r.members)
Leaves id user s (s', left) =
    (room_by_id id s' ≢ none)
    × ((k : Ident)
        → option_map (has_member k) (room_by_id id s')
          ≡ option_map (λ r. not (k == user) && has_member k r) (room_by_id id s))

abbrev pub user_of : Member → Ident
user_of m = m.user_id

-- Each user stands once in the member list of a room.
abbrev pub HasDistinctMembers : Room → Type 0
HasDistinctMembers r = Distinct user_of r.members

Fresh-filter :
    (k user : Ident) (ms : List Member)
    → Fresh user_of k ms
    → Fresh user_of k (filter (λ m. not (m.user_id == user)) ms)
Fresh-filter k user [] f = tt
Fresh-filter k user (m ∷ ms) f = ground (arith, f.0, Fresh-filter k user ms f.1)

without-Distinct :
    (user : Ident) (ms : List Member)
    → Distinct user_of ms
    → Distinct user_of (filter (λ m. not (m.user_id == user)) ms)
without-Distinct user [] d = tt
without-Distinct user (m ∷ ms) d = elim (Bool-cases (m.user_id == user)) [
  | inl e ↦ rw e (without-Distinct user ms d.1)
  | inr e ↦ rw e (Fresh-filter m.user_id user ms d.0, without-Distinct user ms d.1)
]

Fresh-of_has : (k : Ident) (ms : List Member) → has_by user_of k ms ≡ false → Fresh user_of k ms
Fresh-of_has k [] h = tt
Fresh-of_has k (m ∷ ms) h = (ground (arith, h), Fresh-of_has k ms (ground (arith, h)))

with-HasDistinctMembers :
    (user : Ident) (r : Room) → HasDistinctMembers r → HasDistinctMembers (with_member user r)
with-HasDistinctMembers user r d = elim (Bool-cases (has_member user r)) [
  | inl e ↦ rw e d
  | inr e ↦ rw e (
      Distinct-push user_of (record { user_id = user; is_owner = false }) r.members
        (Fresh-of_has user r.members e) d)
]
