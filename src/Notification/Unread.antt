-- ===== src/Notification/Unread.antt =====
-- The count of unread notifications follows what is created and read, and settings stay with their
-- user (server/src/repositories/memory.ts).
use hanmir_talk.Prelude.{
  ℕ, ◌+◌, ◌≡◌, ap, inl, inr, false, ◌&&◌, some, List, [], ◌∷◌, arith, ◌==◌, if◌then◌else◌,
  Option-cases, find, count, or_else, option_map, Ident, lookup, insert,
}
use hanmir_talk.Prelude.{lookup-insert}
use hanmir_talk.Notification.{
  Notification, Content, new_notification, create, create_many, is_unread, unread_count, is_own,
  mark_read, mark_all_read, Settings, UpdateSettings, default_settings, get_settings, edit_settings,
  update_settings,
}

-- Creating for a list of users adds, to what a user has not read, one for each time that the user
-- is in the list.
pub create_many-unread_count :
    (now : ℕ) (user : Ident) (ids : List (Ident × Ident)) (input : Content)
    (rows : List Notification)
    → unread_count user (create_many now ids input rows).0
      ≡ unread_count user rows + count (λ (e : Ident × Ident). e.1 == user) ids
unfolding create_many create new_notification unread_count
create_many-unread_count now user [] input rows = ground arith
create_many-unread_count now user ((id, u) ∷ ids) input rows =
    ground (arith, create_many-unread_count now user ids input (create id now u input rows).0)

-- Marking all as read answers how many the user had not read, leaves none, and changes no count
-- of another user.
mark_all_read-unread_count :
    (now : ℕ) (user other : Ident) (rows : List Notification)
    → ((mark_all_read now user rows).1 ≡ unread_count user rows)
      × (unread_count other (mark_all_read now user rows).0
          ≡ (if user == other then 0 else unread_count other rows))
unfolding mark_all_read unread_count
mark_all_read-unread_count now user other [] = ground arith
mark_all_read-unread_count now user other (n ∷ rows) =
    let rest = mark_all_read-unread_count now user other rows in ground (arith, rest.0, rest.1)

-- Marking one notification of a user as read takes one from the user's count if the first with
-- that identifier and owner was unread, and changes no other count.
mark_read-unread_count :
    (now : ℕ) (id user other : Ident) (rows : List Notification)
    → unread_count other (mark_read now id user rows).0
        + (if user == other && or_else (option_map is_unread (find (is_own id user) rows)) false
            then 1
            else 0)
      ≡ unread_count other rows
unfolding mark_read unread_count
mark_read-unread_count now id user other [] = ground arith
mark_read-unread_count now id user other (n ∷ rows) =
    ground (arith, mark_read-unread_count now id user other rows)

lookup-get_settings :
    (user j : Ident) (m : List (Ident × Settings))
    → lookup j (get_settings user m).0
      ≡ (if user == j then some (get_settings user m).1 else lookup j m)
unfolding get_settings
lookup-get_settings user j m = elim (Option-cases (lookup user m)) [
  | inl n ↦ rw (n, get_settings) (lookup-insert j user (default_settings user) m)
  | inr (s, n) ↦ ground (arith, n, ap (λ k. lookup k m) {x = user} {y = j})
]

settings-answered :
    (user : Ident) (m : List (Ident × Settings))
    → (get_settings user m).1 ≡ or_else (lookup user m) (default_settings user)
unfolding get_settings
settings-answered user m = elim (Option-cases (lookup user m)) [
  | inl n ↦ ground (arith, n)
  | inr (s, n) ↦ ground (arith, n)
]

-- Updating the settings of a user is seen by that user and by nobody else.
pub update_settings-get_settings :
    (user other : Ident) (input : UpdateSettings) (m : List (Ident × Settings))
    → (get_settings other (update_settings user input m).0).1 ≡ (
        if user == other
        then edit_settings input (get_settings user m).1
        else (get_settings other m).1)
unfolding update_settings
update_settings-get_settings user other input m =
    let new = edit_settings input (get_settings user m).1 in
    ground (
      arith,
      settings-answered other (insert user new (get_settings user m).0),
      settings-answered other m,
      lookup-insert other user new (get_settings user m).0,
      lookup-get_settings user other m,
    )
