-- ===== src/Auth/Ending.antt =====
-- How sessions end: logging out, and the revocation of all refresh tokens of a user
-- (server/src/routes/auth.ts, MemoryRefreshTokenRepository of server/src/repositories/memory.ts).
use hanmir_talk.Prelude.{
  ℕ, zero, suc, ◌≤◌, ◌≡◌, refl, ◌≢◌, inl, inr, none, some, List, [], ◌∷◌, arith, ◌==◌,
  if◌then◌else◌, Option-cases, find_by, Distinct, option_map, option_bind, Ident, delete,
}
use hanmir_talk.Prelude.{lookup-delete}
use hanmir_talk.Prelude.{Bool-cases, All, lookup}
use hanmir_talk.User.{User}
use hanmir_talk.Auth.{
  Grace, Graces, Drawn, rotate_late, rotate_refresh_session, refused, invalid_refresh,
  clear_rotation_grace_for_user, RefreshRow, Auth, token_hash_of, refresh_id, resolve_session,
  is_usable, resolve_refresh, revoked, revoke_refresh, revoke_all_for_user, find_rotation_grace,
  end_refresh, logout, revoke_session,
}
use hanmir_talk.Auth.Rotation.{
  rotate-unknown, resolve_unknown, resolve_refresh-some, revoke_refresh-find, resolve-find,
}

find_by-revoke_all :
    (h now : ℕ) (user : Ident) (rows : List RefreshRow)
    → find_by token_hash_of h (revoke_all_for_user now user rows)
      ≡ option_map
          (λ r. if r.user_id == user then revoked now r else r)
          (find_by token_hash_of h rows)
unfolding revoke_all_for_user
find_by-revoke_all h now user [] = refl
find_by-revoke_all h now user (r ∷ rows) = ground (arith, find_by-revoke_all h now user rows)

-- Revoking all rows of a user leaves no refresh token of that user good, and changes no other.
revoke_all_for_user-resolve :
    (hash : ℕ → ℕ) (now later raw : ℕ) (user : Ident) (rows : List RefreshRow)
    → resolve_refresh hash later raw (revoke_all_for_user now user rows)
      ≡ option_bind
          (λ r. if r.user_id == user then none else some r)
          (resolve_refresh hash later raw rows)
unfolding resolve_refresh is_usable
revoke_all_for_user-resolve hash now later zero user rows = refl
revoke_all_for_user-resolve hash now later (suc raw) user rows =
    elim (Option-cases (find_by token_hash_of (hash (suc raw)) rows)) [
      | inl n ↦ ground (arith, n, find_by-revoke_all (hash (suc raw)) now user rows)
      | inr (r, n) ↦ ground (arith, n, find_by-revoke_all (hash (suc raw)) now user rows)
    ]

end_refresh-refresh :
    (hash : ℕ → ℕ) (now raw : ℕ) (s : Auth)
    → resolve_refresh hash now raw s.refresh ≡ none
    → (end_refresh hash now raw s).refresh ≡ s.refresh
unfolding end_refresh
end_refresh-refresh hash now raw s e =
    elim (Option-cases (find_rotation_grace hash now raw s.graces)) [
      | inl n ↦ rw (e, end_refresh, n) refl
      | inr (g, n) ↦ rw (e, end_refresh, n) refl
    ]

-- A token that is not good stays so.
resolve_refresh-later :
    (hash : ℕ → ℕ) (now later raw : ℕ) (rows : List RefreshRow)
    → now ≤ later
    → resolve_refresh hash now raw rows ≡ none
    → resolve_refresh hash later raw rows ≡ none
unfolding resolve_refresh is_usable
resolve_refresh-later hash now later zero rows t h = refl
resolve_refresh-later hash now later (suc raw) rows t h =
    elim (Option-cases (find_by token_hash_of (hash (suc raw)) rows)) [
      | inl n ↦ ground (arith, n)
      | inr (r, n) ↦ ground (arith, n, h, t)
    ]

end_refresh-resolve :
    (hash : ℕ → ℕ) (now later raw : ℕ) (s : Auth)
    → now ≤ later
    → Distinct refresh_id s.refresh
    → resolve_refresh hash later raw (end_refresh hash now raw s).refresh ≡ none
unfolding end_refresh is_usable
end_refresh-resolve hash now later raw s t ids =
    elim (Option-cases (resolve_refresh hash now raw s.refresh)) [
      | inl n ↦
          rw (end_refresh-refresh hash now raw s n)
            (resolve_refresh-later hash now later raw s.refresh t n)
      | inr (row, n) ↦
          let f = resolve_refresh-some hash now raw s.refresh row n in
          rw (n, end_refresh)
            (resolve-find hash later raw (revoke_refresh now row.id s.refresh) (revoked now row) f.0
              (revoke_refresh-find now (hash raw) s.refresh row ids f.1))
    ]

end_refresh-sessions :
    (hash : ℕ → ℕ) (now raw : ℕ) (s : Auth) → (end_refresh hash now raw s).sessions ≡ s.sessions
unfolding end_refresh
end_refresh-sessions hash now raw s = elim (Option-cases (resolve_refresh hash now raw s.refresh)) [
  | inr (row, n) ↦ rw (n, end_refresh) refl
  | inl n ↦ elim (Option-cases (find_rotation_grace hash now raw s.graces)) [
    | inl g ↦ rw (n, end_refresh, g) refl
    | inr (g, e) ↦ rw (n, end_refresh, e) refl
  ]
]

-- The graces under a key are of one user.
abbrev IsOf : Ident → ℕ → Graces → Type 0
IsOf owner key m = All (λ (e : ℕ × Grace). e.0 ≡ key → e.1.user_id ≡ owner) m

lookup-clear :
    (owner : Ident) (key : ℕ) (m : Graces)
    → IsOf owner key m
    → lookup key (clear_rotation_grace_for_user owner m) ≡ none
unfolding clear_rotation_grace_for_user lookup
lookup-clear owner key [] h = refl
lookup-clear owner key ((k, g) ∷ m) h = elim (Bool-cases (k == key)) [
  | inl e ↦ ground (arith, e, h.0 (ground (arith, e)), lookup-clear owner key m h.1)
  | inr e ↦ ground (arith, e, lookup-clear owner key m h.1)
]

IsOf-lookup :
    (owner : Ident) (key : ℕ) (m : Graces) (g : Grace)
    → IsOf owner key m
    → lookup key m ≡ some g
    → g.user_id ≡ owner
unfolding lookup
IsOf-lookup owner key [] g h e = absurd (ground (arith, e))
IsOf-lookup owner key ((k, f) ∷ m) g h e = elim (Bool-cases (k == key)) [
  | inl q ↦ let same : f ≡ g = ground (arith, e, q) in rw (← same) (h.0 (ground (arith, q)))
  | inr q ↦ IsOf-lookup owner key m g h.1 (rw q at e)
]

find-cleared :
    (hash : ℕ → ℕ) (later raw : ℕ) (owner : Ident) (m : Graces)
    → IsOf owner (hash raw) m
    → find_rotation_grace hash later raw (clear_rotation_grace_for_user owner m) ≡ none
unfolding find_rotation_grace
find-cleared hash later raw owner m h =
    rw (lookup-clear owner (hash raw) m h, find_rotation_grace) refl

-- A token that is answered no more in its minute of grace stays so.
find-later :
    (hash : ℕ → ℕ) (now later raw : ℕ) (m : Graces)
    → now ≤ later
    → find_rotation_grace hash now raw m ≡ none
    → find_rotation_grace hash later raw m ≡ none
unfolding find_rotation_grace
find-later hash now later raw m t e = elim (Option-cases (lookup (hash raw) m)) [
  | inl n ↦ rw (n, find_rotation_grace) refl
  | inr (g, n) ↦ ground (arith, n, e, t)
]

find-grace :
    (hash : ℕ → ℕ) (now raw : ℕ) (m : Graces) (g : Grace)
    → find_rotation_grace hash now raw m ≡ some g
    → lookup (hash raw) m ≡ some g
unfolding find_rotation_grace
find-grace hash now raw m g e = elim (Option-cases (lookup (hash raw) m)) [
  | inl n ↦ absurd (ground (arith, n, e))
  | inr (f, n) ↦ ground (arith, n, e)
]

-- After the end of a refresh token it is answered no more in a minute of grace either.
end_refresh-graces :
    (hash : ℕ → ℕ) (now later raw : ℕ) (owner : Ident) (s : Auth)
    → now ≤ later
    → IsOf owner (hash raw) s.graces
    → ((row : RefreshRow)
        → find_by token_hash_of (hash raw) s.refresh ≡ some row
        → row.user_id ≡ owner)
    → find_rotation_grace hash later raw (end_refresh hash now raw s).graces ≡ none
unfolding end_refresh
end_refresh-graces hash now later raw owner s t m k =
    elim (Option-cases (resolve_refresh hash now raw s.refresh)) [
      | inr (row, n) ↦
          let whose = k row (resolve_refresh-some hash now raw s.refresh row n).1 in
          rw (n, end_refresh) (rw whose (find-cleared hash later raw owner s.graces m))
      | inl n ↦ elim (Option-cases (find_rotation_grace hash now raw s.graces)) [
        | inl e ↦ rw (n, end_refresh, e) (find-later hash now later raw s.graces t e)
        | inr (g, e) ↦
            let whose =
              IsOf-lookup owner (hash raw) s.graces g m (find-grace hash now raw s.graces g e) in
            rw (n, end_refresh, e) (rw whose (find-cleared hash later raw owner s.graces m))
      ]
    ]

-- After logging out with a pair of tokens, neither is good at any later time, and the refresh token
-- is exchanged for no other, not even in the minute after it was rotated. The rows have distinct
-- identifiers, and the row and the graces under the hash of the token are of one user.
pub logout-Ends :
    (hash : ℕ → ℕ) (users : List User) (d : Drawn) (now later access raw : ℕ) (owner : Ident)
    (s : Auth)
    → access ≢ 0
    → raw ≢ 0
    → now ≤ later
    → Distinct refresh_id s.refresh
    → IsOf owner (hash raw) s.graces
    → ((row : RefreshRow)
        → find_by token_hash_of (hash raw) s.refresh ≡ some row
        → row.user_id ≡ owner)
    → ((resolve_session later (some access) (logout hash now (some access) (some raw) s).sessions).1
        ≡ none)
      × (resolve_refresh hash later raw (logout hash now (some access) (some raw) s).refresh ≡ none)
      × ((rotate_refresh_session hash users d later raw
            (logout hash now (some access) (some raw) s)).1
          ≡ refused invalid_refresh)
unfolding logout revoke_session rotate_late
logout-Ends hash users d now later zero raw owner s a z t ids m k = absurd (a refl)
logout-Ends hash users d now later (suc access) zero owner s a z t ids m k = absurd (z refl)
logout-Ends hash users d now later (suc access) (suc raw) owner s a z t ids m k = (
  rw (end_refresh-sessions hash now (suc raw) s') (
      resolve_unknown later access s'.sessions
        (ground (arith, lookup-delete (suc access) (suc access) s.sessions))),
  ended,
  rw (rotate-unknown hash users d later (suc raw) (end_refresh hash now (suc raw) s') z ended)
      (rw (end_refresh-graces hash now later (suc raw) owner s' t m k, rotate_late) refl),
)
  where
    s' : Auth
    s' = record s { sessions = delete (suc access) s.sessions }

    ended : resolve_refresh hash later (suc raw) (end_refresh hash now (suc raw) s').refresh ≡ none
    ended = end_refresh-resolve hash now later (suc raw) s' t ids
