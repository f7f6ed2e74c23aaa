-- ===== src/Auth.antt =====
-- Sessions (server/src/auth/session.ts), refresh tokens (MemoryRefreshTokenRepository of
-- server/src/repositories/memory.ts) and the routes that rotate and end them
-- (server/src/routes/auth.ts). Tokens are identifiers, 0 the missing one; the SHA-256 of a token
-- is a parameter. Audit entries and the cookies' attributes are left out.
pub mod Login
pub mod Rotation
pub mod Ending
pub mod Limits
pub mod Entering
use Prim.Native.String.{String}
use hanmir_talk.Prelude.{
  ℕ, zero, suc, ◌+◌, ◌-◌, ◌*◌, ◌≤◌, ◌<◌, ◌≡◌, refl, sym, ap, ◌∙◌, ◌≢◌, ◌⊎◌, inl, inr, Bool, true,
  false, not, ◌&&◌, ◌||◌, Option, none, some, List, [], ◌∷◌, ◌++◌, map, arith, ltb, leb, ◌==◌,
  if◌then◌else◌, Bool-cases, Option-cases, length, take, drop, All, find, any, filter, modify,
  remove, count, find_by, has_by, modify_by, remove_by, Fresh, Distinct, is_some, or_else,
  or_option, option_map, option_bind, Ident, given, given_id, sort, first, last, sum_of, max, min,
  lookup, insert, delete, member, add, drop_member, Flags, has_flag, set_flag, clear_flag,
  users_with, clear_all, IsMap, TextOps, deduped,
}
use hanmir_talk.User.{User, user_by_id}

pub record Session : Type 0 where
  pub token : Ident
  pub user_id : Ident
  pub created_at : ℕ

abbrev pub Sessions : Type 0
Sessions = List (Ident × Session)

-- One hour.
abbrev pub token_ttl : ℕ
token_ttl = 3600000

unfoldable pub issue_session : Ident → ℕ → Ident → Sessions → Sessions
issue_session token now user m =
    insert token (record { token = token; user_id = user; created_at = now }) m

unfoldable pub revoke_session : Ident → Sessions → Sessions
revoke_session token m = delete token m

-- An expired session is dropped when it is asked for.
unfoldable pub resolve_session : ℕ → Option Ident → Sessions → Sessions × Option Session
resolve_session now token m = elim (given_id token) [
  | none ↦ (m, none)
  | some t ↦ elim (lookup t m) [
    | none ↦ (m, none)
    | some s ↦ if ltb token_ttl (now - s.created_at) then (delete t m, none) else (m, some s)
  ]
]

pub record RefreshRow : Type 0 where
  pub id : Ident
  pub user_id : Ident
  pub token_hash : ℕ
  pub expires_at : ℕ
  pub revoked_at : Option ℕ

abbrev pub token_hash_of : RefreshRow → ℕ
token_hash_of r = r.token_hash

abbrev pub refresh_id : RefreshRow → Ident
refresh_id r = r.id

-- 30 days.
abbrev pub refresh_ttl : ℕ
refresh_ttl = 2592000000

unfoldable pub new_refresh : (ℕ → ℕ) → Ident → Ident → ℕ → Ident → RefreshRow
new_refresh hash raw id now user = record {
  id = id;
  user_id = user;
  token_hash = hash raw;
  expires_at = now + refresh_ttl;
  revoked_at = none;
}

unfoldable pub issue_refresh :
    (ℕ → ℕ) → Ident → Ident → ℕ → Ident → List RefreshRow → List RefreshRow
issue_refresh hash raw id now user rows = rows ++ new_refresh hash raw id now user ∷ []

unfoldable pub is_usable : ℕ → RefreshRow → Bool
is_usable now r = not (is_some r.revoked_at) && ltb now r.expires_at

-- The first row with the token's hash, if it is neither revoked nor expired.
unfoldable pub resolve_refresh : (ℕ → ℕ) → ℕ → Ident → List RefreshRow → Option RefreshRow
resolve_refresh hash now zero rows = none
resolve_refresh hash now (suc raw) rows = elim (find_by token_hash_of (hash (suc raw)) rows) [
  | none ↦ none
  | some r ↦ if is_usable now r then some r else none
]

abbrev pub revoked : ℕ → RefreshRow → RefreshRow
revoked now r = record r { revoked_at = some (or_else r.revoked_at now) }

-- A row that is revoked already keeps its time.
unfoldable pub revoke_refresh : ℕ → Ident → List RefreshRow → List RefreshRow
revoke_refresh now id rows = modify_by refresh_id id (revoked now) rows

unfoldable pub revoke_all_for_user : ℕ → Ident → List RefreshRow → List RefreshRow
revoke_all_for_user now user rows = map (λ r. if r.user_id == user then revoked now r else r) rows

-- The refresh token that a token was rotated into, for one minute.
pub record Grace : Type 0 where
  pub refresh_token : Ident
  pub user_id : Ident
  pub until : ℕ

abbrev pub grace_ttl : ℕ
grace_ttl = 60000

abbrev pub Graces : Type 0
Graces = List (ℕ × Grace)

unfoldable pub record_rotation_grace : (ℕ → ℕ) → ℕ → Ident → Ident → Ident → Graces → Graces
record_rotation_grace hash now old refresh user m =
    insert (hash old) (record { refresh_token = refresh; user_id = user; until = now + grace_ttl })
      (filter (λ (e : ℕ × Grace). ltb now e.1.until) m)

unfoldable pub find_rotation_grace : (ℕ → ℕ) → ℕ → Ident → Graces → Option Grace
find_rotation_grace hash now raw m = elim (lookup (hash raw) m) [
  | none ↦ none
  | some g ↦ if leb g.until now then none else some g
]

unfoldable pub clear_rotation_grace_for_user : Ident → Graces → Graces
clear_rotation_grace_for_user user m = filter (λ (e : ℕ × Grace). not (e.1.user_id == user)) m

-- The state of the process: `byToken`, the rows of refresh tokens and `rotationGrace`.
pub record Auth : Type 0 where
  pub sessions : Sessions
  pub refresh : List RefreshRow
  pub graces : Graces

-- What is drawn at random for a pair of cookies: the tokens and the identifier of the row.
pub record Drawn : Type 0 where
  pub access : Ident
  pub refresh : Ident
  pub row_id : Ident

unfoldable pub issue_session_for : (ℕ → ℕ) → Drawn → ℕ → Ident → Auth → Auth
issue_session_for hash d now user s = record s {
  sessions = issue_session d.access now user s.sessions;
  refresh = issue_refresh hash d.refresh d.row_id now user s.refresh;
}

pub data RefreshFailure : Type 0 where
  missing_refresh invalid_refresh user_inactive : RefreshFailure

-- The cookies that are set, and for whom, or why there are none.
pub data Rotated : Type 0 where
  rotated : (access refresh : Ident) (user : User) → Rotated
  refused : RefreshFailure → Rotated

-- The user of the identifier, if active.
unfoldable pub active_user : Ident → List User → Option User
active_user id users = elim (user_by_id id users) [
  | none ↦ none
  | some u ↦ if u.is_active then some u else none
]

-- The token was rotated already: within the minute of grace it is answered with the same token.
unfoldable pub rotate_late : (ℕ → ℕ) → List User → Drawn → ℕ → Ident → Auth → Auth × Rotated
rotate_late hash users d now raw s = elim (find_rotation_grace hash now raw s.graces) [
  | none ↦ (s, refused invalid_refresh)
  | some g ↦ elim (active_user g.user_id users) [
    | none ↦ (s, refused user_inactive)
    | some u ↦ (
      record s { sessions = issue_session d.access now u.id s.sessions },
      rotated d.access g.refresh_token u,
    )
  ]
]

unfoldable pub rotate_row :
    (ℕ → ℕ) → List User → Drawn → ℕ → Ident → RefreshRow → Auth → Auth × Rotated
rotate_row hash users d now raw row s = elim (active_user row.user_id users) [
  | none ↦ (record s { refresh = revoke_refresh now row.id s.refresh }, refused user_inactive)
  | some u ↦
      let s' =
        issue_session_for hash d now u.id
          (record s { refresh = revoke_refresh now row.id s.refresh }) in
      (
        record s' { graces = record_rotation_grace hash now raw d.refresh u.id s.graces },
        rotated d.access d.refresh u,
      )
]

unfoldable pub rotate_refresh_session :
    (ℕ → ℕ) → List User → Drawn → ℕ → Ident → Auth → Auth × Rotated
rotate_refresh_session hash users d now zero s = (s, refused missing_refresh)
rotate_refresh_session hash users d now (suc raw) s =
    elim (resolve_refresh hash now (suc raw) s.refresh) [
      | none ↦ rotate_late hash users d now (suc raw) s
      | some row ↦ rotate_row hash users d now (suc raw) row s
    ]

unfoldable pub end_refresh : (ℕ → ℕ) → ℕ → Ident → Auth → Auth
end_refresh hash now raw s = elim (resolve_refresh hash now raw s.refresh) [
  | some row ↦ record s {
    refresh = revoke_refresh now row.id s.refresh;
    graces = clear_rotation_grace_for_user row.user_id s.graces;
  }
  | none ↦ elim (find_rotation_grace hash now raw s.graces) [
    | none ↦ s
    | some g ↦ record s { graces = clear_rotation_grace_for_user g.user_id s.graces }
  ]
]

-- The route `/logout`, by the two cookies.
unfoldable pub logout : (ℕ → ℕ) → ℕ → Option Ident → Option Ident → Auth → Auth
logout hash now access raw s =
    let s' : Auth = elim (given_id access) [
      | none ↦ s
      | some t ↦ record s { sessions = revoke_session t s.sessions }
    ] in
    elim (given_id raw) [ none ↦ s' | some r ↦ end_refresh hash now r s' ]
