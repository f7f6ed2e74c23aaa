-- ===== src/Schedule/Delivery.antt =====
-- A scheduled message is sent at most once, never after it was cancelled, and a poll settles all
-- that is due (server/src/scheduled-poller.ts).
use Prim.Native.String.{String}
use hanmir_talk.Prelude.{
  ℕ, ◌+◌, ◌≡◌, refl, sym, ap, ◌⊎◌, inl, inr, Bool, true, false, not, ◌&&◌, ◌||◌, Option, none, some,
  List, [], ◌∷◌, ◌++◌, arith, ◌==◌, if◌then◌else◌, Bool-cases, Option-cases, All, count, is_some,
  or_else, option_map, Ident, given, lookup, TextOps,
}
use hanmir_talk.Prelude.{lookup-insert, count-append}
use hanmir_talk.Message.{ChatMessage, Messages, Attachment}
use hanmir_talk.Room.{Rooms, RoomView, RoomType, find_by_id, has_member}
use hanmir_talk.User.{User, user_by_id}
use hanmir_talk.Schedule.{
  Scheduled, Schedule, World, is_open, list_due, mark_sent, mark_failed, cancel_scheduled,
  create_scheduled, is_admin, fail_item, is_direct, reopen, send_item, poll_item, poll_items,
  poll_once,
}

-- Whether the row of the identifier is there and neither sent, cancelled nor failed.
abbrev pub open_at : Ident → Schedule → Bool
open_at k rows = or_else (option_map is_open (lookup k rows)) false

-- Whether the row of the identifier has been sent.
abbrev pub sent_at_all : Ident → Schedule → Bool
sent_at_all k rows =
    or_else (option_map (λ (r : Scheduled). is_some r.sent_at) (lookup k rows)) false

-- How often the poller emitted a message for the row.
abbrev pub emissions : Ident → World → ℕ
emissions k w = count (λ (e : Ident × ChatMessage). e.0 == k) w.emitted

mark_sent-open_at :
    (k id : Ident) (now : ℕ) (rows : Schedule)
    → open_at k (mark_sent id now rows).0 ≡ (not (id == k) && open_at k rows)
unfolding mark_sent
mark_sent-open_at k id now rows = elim (Option-cases (lookup id rows)) [
  | inl n ↦ ground (arith, n, ap (λ j. lookup j rows) {x = id} {y = k})
  | inr (r, n) ↦ ground (
    arith,
    n,
    lookup-insert k id (record r { sent_at = some now }) rows,
    ap (λ j. lookup j rows) {x = id} {y = k},
  )
]

mark_sent-sent_at_all :
    (k id : Ident) (now : ℕ) (rows : Schedule)
    → sent_at_all k (mark_sent id now rows).0
      ≡ (((mark_sent id now rows).1 && id == k) || sent_at_all k rows)
unfolding mark_sent
mark_sent-sent_at_all k id now rows = elim (Option-cases (lookup id rows)) [
  | inl n ↦ ground (arith, n)
  | inr (r, n) ↦ ground (
    arith,
    n,
    lookup-insert k id (record r { sent_at = some now }) rows,
    ap (λ j. lookup j rows) {x = id} {y = k},
  )
]

-- What is kept of a text that is not empty is not empty.
abbrev pub KeepsText : TextOps → Type 0
KeepsText ops =
    (s : String)
    → is_some (given (some s)) ≡ true
    → is_some (given (some (ops.prefix 500 s))) ≡ true

mark_failed-open_at :
    (ops : TextOps) (k id : Ident) (e : String) (rows : Schedule)
    → KeepsText ops
    → is_some (given (some e)) ≡ true
    → open_at k (mark_failed ops id e rows) ≡ (not (id == k) && open_at k rows)
unfolding mark_failed
mark_failed-open_at ops k id e rows t h = elim (Option-cases (lookup id rows)) [
  | inl n ↦ ground (arith, n, ap (λ j. lookup j rows) {x = id} {y = k})
  | inr (r, n) ↦ ground (
    arith,
    n,
    t e h,
    lookup-insert k id (record r { error = some (ops.prefix 500 e) }) rows,
    ap (λ j. lookup j rows) {x = id} {y = k},
  )
]

mark_failed-sent_at_all :
    (ops : TextOps) (k id : Ident) (e : String) (rows : Schedule)
    → sent_at_all k (mark_failed ops id e rows) ≡ sent_at_all k rows
unfolding mark_failed
mark_failed-sent_at_all ops k id e rows = elim (Option-cases (lookup id rows)) [
  | inl n ↦ ground (arith, n)
  | inr (r, n) ↦ ground (
    arith,
    n,
    lookup-insert k id (record r { error = some (ops.prefix 500 e) }) rows,
    ap (λ j. lookup j rows) {x = id} {y = k},
  )
]

mark_sent-refused :
    (id : Ident) (now : ℕ) (rows : Schedule)
    → (mark_sent id now rows).1 ≡ false
    → (mark_sent id now rows).0 ≡ rows
unfolding mark_sent
mark_sent-refused id now rows e = elim (Option-cases (lookup id rows)) [
  | inl n ↦ ground (arith, n)
  | inr (r, n) ↦ ground (arith, n)
]

-- The poller marked the item as failed, or it tried to mark it as sent and emitted if it could.
Outcome : TextOps → ℕ → Scheduled → World → World → Type 0
Outcome ops now item w w' =
    ((e : String) × (is_some (given (some e)) ≡ true)
      × (w'.schedule ≡ mark_failed ops item.id e w.schedule)
      × (w'.emitted ≡ w.emitted))
    ⊎ ((w'.schedule ≡ (mark_sent item.id now w.schedule).0)
        × ((k : Ident)
            → emissions k w'
              ≡ emissions k w
                + (if (mark_sent item.id now w.schedule).1 && item.id == k then 1 else 0)))

reopen-same :
    (type : RoomType) (room : Ident) (w : World)
    → ((reopen type room w).schedule ≡ w.schedule) × ((reopen type room w).emitted ≡ w.emitted)
unfolding reopen
reopen-same type room w = elim (Bool-cases (is_direct type)) [
  | inl e ↦ rw e (refl, refl)
  | inr e ↦ rw e (refl, refl)
]

emissions-push :
    (k id : Ident) (m : ChatMessage) (es : List (Ident × ChatMessage))
    → count (λ (e : Ident × ChatMessage). e.0 == k) (es ++ (id, m) ∷ [])
      ≡ count (λ (e : Ident × ChatMessage). e.0 == k) es + (if id == k then 1 else 0)
emissions-push k id m es =
    ground (arith, count-append (λ (e : Ident × ChatMessage). e.0 == k) es ((id, m) ∷ []))

send_item-Outcome :
    (ops : TextOps) (fresh : Ident) (now : ℕ) (item : Scheduled) (author : User) (room : RoomView)
    (w : World)
    → Outcome ops now item w (send_item fresh now item author room w)
unfolding send_item Outcome
send_item-Outcome ops fresh now item author room w =
    elim (Bool-cases (mark_sent item.id now w.schedule).1) [
      | inl e ↦
          rw (e, send_item)
            (inr (
              (reopen-same _ _ _).0,
              λ k. rw (reopen-same _ _ _).1 (emissions-push k item.id _ w.emitted),
            ))
      | inr e ↦
          rw (e, send_item)
            (inr (sym (mark_sent-refused item.id now w.schedule e), λ k. ground arith))
    ]

failed-Outcome :
    (ops : TextOps) (now : ℕ) (item : Scheduled) (e : String) (w : World)
    → is_some (given (some e)) ≡ true
    → Outcome ops now item w (fail_item ops item.id e w)
unfolding Outcome
failed-Outcome ops now item e w h = inl (e, h, refl, refl)

poll_item-Outcome :
    (ops : TextOps) (fresh : Ident) (now : ℕ) (item : Scheduled) (w : World)
    → Outcome ops now item w (poll_item ops fresh now item w)
unfolding poll_item
poll_item-Outcome ops fresh now item w = elim (Option-cases (user_by_id item.user_id w.users)) [
  | inl n ↦ rw (n, poll_item) (failed-Outcome ops now item "author_inactive" w refl)
  | inr (author, n) ↦ elim (Bool-cases author.is_active) [
    | inr a ↦ rw (n, poll_item, a) (failed-Outcome ops now item "author_inactive" w refl)
    | inl a ↦ elim (Option-cases (find_by_id w.messages item.room_id (some author.id) w.rooms)) [
      | inl r ↦ rw (n, poll_item, a, r) (failed-Outcome ops now item "room_not_found" w refl)
      | inr (room, r) ↦
          elim (Bool-cases (not (is_admin author.role) && not (has_member author.id room.room))) [
            | inl m ↦ rw (n, poll_item, a, r, m) (failed-Outcome ops now item "not_a_member" w refl)
            | inr m ↦
                rw (n, poll_item, a, r, m) (send_item-Outcome ops fresh now item author room w)
          ]
    ]
  ]
]

mark_sent-accepted :
    (id : Ident) (now : ℕ) (rows : Schedule) → (mark_sent id now rows).1 ≡ open_at id rows
unfolding mark_sent
mark_sent-accepted id now rows = elim (Option-cases (lookup id rows)) [
  | inl n ↦ ground (arith, n)
  | inr (r, n) ↦ ground (arith, n)
]

-- A poll of one item opens no row, and closes that of the item.
poll_item-open_at :
    (ops : TextOps) (fresh : Ident) (now : ℕ) (item : Scheduled) (k : Ident) (w : World)
    → KeepsText ops
    → open_at k (poll_item ops fresh now item w).schedule
      ≡ (not (item.id == k) && open_at k w.schedule)
unfolding Outcome
poll_item-open_at ops fresh now item k w t = elim (poll_item-Outcome ops fresh now item w) [
  | inl (e, h, s, m) ↦ rw s (mark_failed-open_at ops k item.id e w.schedule t h)
  | inr (s, m) ↦ rw s (mark_sent-open_at k item.id now w.schedule)
]

poll_items-closed :
    (ops : TextOps) (fresh : Ident → Ident) (now : ℕ) (due : List Scheduled) (k : Ident) (w : World)
    → KeepsText ops
    → open_at k w.schedule ≡ false
    → open_at k (poll_items ops fresh now due w).schedule ≡ false
unfolding poll_items
poll_items-closed ops fresh now [] k w t h = h
poll_items-closed ops fresh now (item ∷ due) k w t h =
    poll_items-closed ops fresh now due k (poll_item ops (fresh item.id) now item w) t
      (ground (arith, h, poll_item-open_at ops (fresh item.id) now item k w t))

poll_items-settled :
    (ops : TextOps) (fresh : Ident → Ident) (now : ℕ) (due : List Scheduled) (w : World)
    → KeepsText ops
    → All (λ item. open_at item.id (poll_items ops fresh now due w).schedule ≡ false) due
unfolding poll_items
poll_items-settled ops fresh now [] w t = tt
poll_items-settled ops fresh now (item ∷ due) w t = (
  poll_items-closed ops fresh now due item.id (poll_item ops (fresh item.id) now item w) t
      (ground (arith, poll_item-open_at ops (fresh item.id) now item item.id w t)),
  poll_items-settled ops fresh now due (poll_item ops (fresh item.id) now item w) t,
)

-- If cutting an error text to 500 characters leaves no text that was not empty empty, a poll
-- leaves no row that was due open: each has been sent, has failed or was cancelled.
pub poll_once-Settles :
    (ops : TextOps) (fresh : Ident → Ident) (now : ℕ) (w : World)
    → KeepsText ops
    → All
        (λ item. open_at item.id (poll_once ops fresh now w).schedule ≡ false)
        (list_due now w.schedule)
unfolding poll_once
poll_once-Settles ops fresh now w t = poll_items-settled ops fresh now (list_due now w.schedule) w t

-- What happens to the scheduled rows, in any order: the poller works on an item that it read at
-- any earlier time, and the rest of the program changes users, files, rooms and messages.
pub data Step (w : World) : World → Type 0 where
  creates :
      (id : Ident) (now : ℕ) (room : Ident) (content : String) (at : ℕ) (attachment : Option Ident)
      (author : Ident)
      → lookup id w.schedule ≡ none
      → Step w (record w {
        schedule = (create_scheduled id now room content at attachment author w.schedule).0;
      })
  cancels :
      (id : Ident) (now : ℕ)
      → Step w (record w { schedule = (cancel_scheduled id now w.schedule).0 })
  polls :
      (ops : TextOps) (fresh : Ident) (now : ℕ) (item : Scheduled)
      → Step w (poll_item ops fresh now item w)
  changes :
      (us : List User) (files : List Attachment) (rooms : Rooms) (messages : Messages)
      → Step w (record w { users = us; files = files; rooms = rooms; messages = messages })

pub data Reach (w : World) : World → Type 0 where
  start : Reach w w
  step : {v u : World} → Reach w v → Step v u → Reach w u

-- The poller has emitted once for each row that is marked as sent, and not for another.
abbrev pub IsDelivered : World → Type 0
IsDelivered w = (k : Ident) → emissions k w ≡ (if sent_at_all k w.schedule then 1 else 0)

create-sent_at_all :
    (k id : Ident) (now : ℕ) (room : Ident) (content : String) (at : ℕ) (attachment : Option Ident)
    (author : Ident) (rows : Schedule)
    → lookup id rows ≡ none
    → sent_at_all k (create_scheduled id now room content at attachment author rows).0
      ≡ sent_at_all k rows
unfolding create_scheduled
create-sent_at_all k id now room content at attachment author rows n =
    rw (lookup-insert k id _ rows) (ground (arith, n, ap (λ j. lookup j rows) {x = id} {y = k}))

cancel-sent_at_all :
    (k id : Ident) (now : ℕ) (rows : Schedule)
    → sent_at_all k (cancel_scheduled id now rows).0 ≡ sent_at_all k rows
unfolding cancel_scheduled
cancel-sent_at_all k id now rows = elim (Option-cases (lookup id rows)) [
  | inl n ↦ ground (arith, n)
  | inr (r, n) ↦ ground (
    arith,
    n,
    lookup-insert k id (record r { cancelled_at = some now }) rows,
    ap (λ j. lookup j rows) {x = id} {y = k},
  )
]

sent_at_all-open_at :
    (k : Ident) (rows : Schedule) → open_at k rows ≡ true → sent_at_all k rows ≡ false
sent_at_all-open_at k rows h = elim (Option-cases (lookup k rows)) [
  | inl n ↦ ground (arith, n)
  | inr (r, n) ↦ ground (arith, n)
]

poll_item-IsDelivered :
    (ops : TextOps) (fresh : Ident) (now : ℕ) (item : Scheduled) (w : World)
    → IsDelivered w
    → IsDelivered (poll_item ops fresh now item w)
unfolding Outcome
poll_item-IsDelivered ops fresh now item w d k = elim (poll_item-Outcome ops fresh now item w) [
  | inl (e, h, s, m) ↦ rw (s, m, mark_failed-sent_at_all ops k item.id e w.schedule) (d k)
  | inr (s, m) ↦
      rw (s, m k)
        (ground (
          arith,
          d k,
          mark_sent-sent_at_all k item.id now w.schedule,
          mark_sent-accepted item.id now w.schedule,
          sent_at_all-open_at item.id w.schedule,
          ap (λ j. sent_at_all j w.schedule) {x = item.id} {y = k},
        ))
]

-- A step keeps the rows that are sent and the messages emitted for them in step, one for one.
Step-IsDelivered : (w u : World) → Step w u → IsDelivered w → IsDelivered u
Step-IsDelivered w _ (creates id now room content at attachment author n) d k =
    rw (create-sent_at_all k id now room content at attachment author w.schedule n) (d k)
Step-IsDelivered w _ (cancels id now) d k = rw (cancel-sent_at_all k id now w.schedule) (d k)
Step-IsDelivered w _ (polls ops fresh now item) d k = poll_item-IsDelivered ops fresh now item w d k
Step-IsDelivered w _ (changes us files rooms messages) d k = d k

-- Start where the messages emitted are one for each row that is marked as sent and none for another.
-- Whatever is created, cancelled and polled, in any order, with any change of users, files, rooms
-- and messages in between, it stays so.
pub Reach-IsDelivered : (w u : World) → Reach w u → IsDelivered w → IsDelivered u
Reach-IsDelivered w _ start d = d
Reach-IsDelivered w u (step {v} r s) d = Step-IsDelivered v u s (Reach-IsDelivered w v r d)
