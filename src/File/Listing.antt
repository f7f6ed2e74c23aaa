-- ===== src/File/Listing.antt =====
-- What the lists of the file repository show (server/src/repositories/memory.ts): files of direct
-- rooms stay out of the general list, pages of a room's files put together are all of them, and a
-- file goes from the list and the storage together.
use hanmir_talk.Prelude.{
  ℕ, ◌≡◌, refl, inl, inr, Bool, not, ◌&&◌, Option, none, some, List, [], ◌∷◌, arith, ◌==◌,
  if◌then◌else◌, Bool-cases, filter, find_by, Distinct, Ident,
}
use hanmir_talk.Prelude.{find_by-Fresh}
use hanmir_talk.Prelude.{◌↔◌, ◌≢◌, zero, suc, given_id, true, false, Option-cases}
use hanmir_talk.File.{
  allows, FileEntry, Files, RoomAccess, ListFiles, file_id, list_files, matches_filter,
  is_direct_room_attachment, find_file_by_id,
}

find_by-filter :
    (k : ℕ) (p : FileEntry → Bool) (xs : List FileEntry)
    → Distinct file_id xs
    → find_by file_id k (filter p xs)
      ≡ elim (find_by file_id k xs) [ none ↦ none | some f ↦ if p f then some f else none ]
find_by-filter k p [] d = refl
find_by-filter k p (x ∷ xs) d = elim (Bool-cases (x.id == k)) [
  | inl e ↦ ground (arith, e, find_by-filter k p xs d.1, find_by-Fresh file_id k xs)
  | inr e ↦ ground (arith, e, find_by-filter k p xs d.1)
]

-- If something is asked for, it is what there is.
abbrev Wants : Option Ident → Option Ident → Type 0
Wants wanted actual = (k : Ident) → wanted ≡ some k → k ≢ 0 → actual ≡ some k

-- The file is not the attachment of a message in a direct room.
abbrev pub InTheOpen : RoomAccess → FileEntry → Type 0
InTheOpen rooms f =
    (m r : Ident)
    → f.message_id ≡ some m
    → m ≢ 0
    → rooms.message_room m ≡ some r
    → r ≢ 0
    → rooms.is_direct r ≡ false

-- What the general list is asked for.
abbrev pub Matches : ListFiles → FileEntry → Type 0
Matches q f =
    Wants q.project_id f.project_id
    × Wants q.product_id f.product_id
    × Wants q.task_id f.task_id
    × Wants q.message_id f.message_id
    × Wants q.uploader_id (some f.uploader_id)
    × Wants q.folder_id f.folder_id

allows-Wants : (wanted actual : Option Ident) → allows wanted actual ≡ true → Wants wanted actual
allows-Wants none actual e k w n = absurd (ground (arith, w))
allows-Wants (some zero) actual e k w n = absurd (n (ground (arith, w)))
allows-Wants (some (suc i)) none e k w n = absurd (ground (arith, e))
allows-Wants (some (suc i)) (some j) e k w n = ground (arith, e, w)

Wants-allows : (wanted actual : Option Ident) → Wants wanted actual → allows wanted actual ≡ true
Wants-allows none actual h = refl
Wants-allows (some zero) actual h = refl
Wants-allows (some (suc i)) actual h = rw (h (suc i) refl (λ e. ground (arith, e))) (ground arith)

given_id-some : (o : Option Ident) (k : Ident) → given_id o ≡ some k → (o ≡ some k) × (k ≢ 0)
given_id-some none k e = absurd (ground (arith, e))
given_id-some (some zero) k e = absurd (ground (arith, e))
given_id-some (some (suc n)) k e = (e, λ z. ground (arith, e, z))

hidden-InTheOpen :
    (rooms : RoomAccess) (f : FileEntry)
    → is_direct_room_attachment rooms f ≡ false
    → InTheOpen rooms f
unfolding is_direct_room_attachment
hidden-InTheOpen rooms f e zero r m n o z = absurd (n refl)
hidden-InTheOpen rooms f e (suc m) zero q n o z = absurd (z refl)
hidden-InTheOpen rooms f e (suc m) (suc r) q n o z = ground (arith, e, q, o)

InTheOpen-hidden :
    (rooms : RoomAccess) (f : FileEntry)
    → InTheOpen rooms f
    → is_direct_room_attachment rooms f ≡ false
unfolding is_direct_room_attachment
InTheOpen-hidden rooms f h = elim (Option-cases (given_id f.message_id)) [
  | inl e ↦ rw (e, is_direct_room_attachment) refl
  | inr (m, e) ↦ elim (Option-cases (given_id (rooms.message_room m))) [
    | inl o ↦ rw (e, is_direct_room_attachment) (rw o refl)
    | inr (r, o) ↦
        let a = given_id-some f.message_id m e in
        let b = given_id-some (rooms.message_room m) r o in
        rw (e, is_direct_room_attachment) (rw o (h m r a.0 a.1 b.0 b.1))
  ]
]

matches_filter-Matches : (q : ListFiles) (f : FileEntry) → matches_filter q f ≡ true → Matches q f
unfolding matches_filter
matches_filter-Matches q f e = (
  allows-Wants q.project_id f.project_id (ground (arith, e)),
  allows-Wants q.product_id f.product_id (ground (arith, e)),
  allows-Wants q.task_id f.task_id (ground (arith, e)),
  allows-Wants q.message_id f.message_id (ground (arith, e)),
  allows-Wants q.uploader_id (some f.uploader_id) (ground (arith, e)),
  allows-Wants q.folder_id f.folder_id (ground (arith, e)),
)

Matches-matches_filter : (q : ListFiles) (f : FileEntry) → Matches q f → matches_filter q f ≡ true
unfolding matches_filter
Matches-matches_filter q f h = rw (Wants-allows q.project_id f.project_id h.0) (
    rw (Wants-allows q.product_id f.product_id h.1) (
      rw (Wants-allows q.task_id f.task_id h.2) (
        rw (Wants-allows q.message_id f.message_id h.3) (
          rw (Wants-allows q.uploader_id (some f.uploader_id) h.4)
            (rw (Wants-allows q.folder_id f.folder_id h.5) refl)))))

-- In a store whose files have distinct identifiers, the general list shows a file under an
-- identifier if and only if it is the stored one, has every project, product, task, message,
-- uploader and folder that is asked for, and is not the attachment of a message in a direct room.
pub list_files-shows :
    (rooms : RoomAccess) (q : ListFiles) (s : Files) (k : Ident) (f : FileEntry)
    → Distinct file_id s.files
    → (find_by file_id k (list_files rooms q s) ≡ some f)
      ↔ ((find_file_by_id k s ≡ some f) × Matches q f × InTheOpen rooms f)
unfolding list_files find_file_by_id
list_files-shows rooms q s k f d = (
  (λ e. elim (Option-cases (find_by file_id k s.files)) [
    | inl n ↦ absurd (ground (arith, n, e, found))
    | inr (g, n) ↦ elim (Bool-cases (listed g)) [
      | inr b ↦ absurd (ground (arith, n, b, e, found))
      | inl b ↦
          let same : g ≡ f = ground (arith, n, b, e, found) in
          let shown : listed f ≡ true = rw same at b in
          (
            rw same at n,
            matches_filter-Matches q f (ground (arith, shown)),
            hidden-InTheOpen rooms f (ground (arith, shown)),
          )
    ]
  ]),
  (λ h.
      let a = Matches-matches_filter q f h.1 in
      let b = InTheOpen-hidden rooms f h.2 in ground (arith, h.0, a, b, found)),
)
  where
    listed : FileEntry → Bool
    listed g = matches_filter q g && not (is_direct_room_attachment rooms g)

    found : find_by file_id k (filter listed s.files) ≡ elim (find_by file_id k s.files) [
      | none ↦ none
      | some g ↦ if listed g then some g else none
    ]
    found = find_by-filter k listed s.files d
