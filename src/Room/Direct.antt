-- ===== src/Room/Direct.antt =====
-- One-to-one rooms (findOrCreateDirect of server/src/repositories/memory.ts).
use hanmir_talk.Prelude.{
  ◌≡◌, refl, ◌∙◌, ◌≢◌, inl, inr, Bool, true, some, List, [], ◌∷◌, arith, Option-cases, find, Ident,
}
use hanmir_talk.Prelude.{find-holds}
use hanmir_talk.Message.{Messages}
use hanmir_talk.Room.{
  Room, Rooms, is_direct_of, create, new_room, direct_input, find_or_create_direct, decorate,
}

-- The search does not mind the order of the two users.
is_direct_of_comm : (a b : Ident) (r : Room) → is_direct_of a b r ≡ is_direct_of b a r
is_direct_of_comm a b r = ground arith

find-ext : (p q : Room → Bool) (rs : List Room) → ((r : Room) → p r ≡ q r) → find p rs ≡ find q rs
find-ext p q [] h = refl
find-ext p q (r ∷ rs) h = ground (arith, h r, find-ext p q rs h)

find-head : (p : Room → Bool) (r : Room) (rs : List Room) → p r ≡ true → find p (r ∷ rs) ≡ some r
find-head p r rs h = ground arith

new_direct : (id a b : Ident) → a ≢ b → is_direct_of a b (new_room id (direct_input b) a) ≡ true
unfolding new_room
new_direct id a b n = ground (arith, n)

-- The room of two users: the one that is found, or the one that is made.
pub found_after :
    (messages : Messages) (id a b : Ident) (s : Rooms)
    → a ≢ b
    → find (is_direct_of a b) (find_or_create_direct messages id a b s).0.rooms
      ≡ some (find_or_create_direct messages id a b s).1.room
unfolding find_or_create_direct create decorate
found_after messages id a b s n = elim (Option-cases (find (is_direct_of a b) s.rooms)) [
  | inl e ↦
      rw (e, find_or_create_direct)
        (find-head (is_direct_of a b) (new_room id (direct_input b) a) s.rooms
          (new_direct id a b n))
  | inr (r, e) ↦ rw (e, find_or_create_direct) e
]

found_same :
    (messages : Messages) (id a b : Ident) (s : Rooms) (r : Room)
    → find (is_direct_of a b) s.rooms ≡ some r
    → ((find_or_create_direct messages id a b s).1.room ≡ r)
      × ((find_or_create_direct messages id a b s).0.rooms ≡ s.rooms)
unfolding find_or_create_direct decorate
found_same messages id a b s r e = rw (e, find_or_create_direct) (refl, refl)

-- The direct room that is found or made for two different users is a direct room of the two, and
-- asking again, in either order, answers the same room and makes none.
pub find_or_create_direct-once :
    (messages : Messages) (id id' a b : Ident) (s : Rooms)
    → a ≢ b
    → let (s', v) = find_or_create_direct messages id a b s in
      (is_direct_of a b v.room ≡ true)
      × ((find_or_create_direct messages id' a b s').1.room ≡ v.room)
      × ((find_or_create_direct messages id' b a s').1.room ≡ v.room)
      × ((find_or_create_direct messages id' a b s').0.rooms ≡ s'.rooms)
      × ((find_or_create_direct messages id' b a s').0.rooms ≡ s'.rooms)
find_or_create_direct-once messages id id' a b s n =
    let s' : Rooms = (find_or_create_direct messages id a b s).0 in
    let f = found_after messages id a b s n in
    let g : find (is_direct_of b a) s'.rooms
        ≡ some (find_or_create_direct messages id a b s).1.room =
      find-ext (is_direct_of b a) (is_direct_of a b) s'.rooms (is_direct_of_comm b a) ∙ f in
    let (r, k) = found_same messages id' a b s' _ f in
    let (r', k') = found_same messages id' b a s' _ g in
    (find-holds (is_direct_of a b) s'.rooms _ f, r, r', k, k')
