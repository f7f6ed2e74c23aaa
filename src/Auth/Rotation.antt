-- ===== src/Auth/Rotation.antt =====
-- A refresh token is used once, is answered alike for one minute more, and ends with its session
-- (rotateRefreshSession and `/logout` of server/src/routes/auth.ts).
use hanmir_talk.Prelude.{find_by-modify_found}
use hanmir_talk.Prelude.{
  ℕ, zero, suc, ◌+◌, ◌-◌, ◌≡◌, refl, sym, ◌∙◌, ◌≢◌, inl, inr, Bool, true, false, none, some, List,
  arith, ltb, leb, ◌==◌, if◌then◌else◌, Bool-cases, Option-cases, filter, find_by, modify_by, Fresh,
  Distinct, Ident, lookup,
}
use hanmir_talk.Prelude.{lookup-insert, All-find_by, All-modify_by, find_by-key, find_by-push}
use hanmir_talk.User.{User, user_by_id}
use hanmir_talk.Auth.{
  Session, Sessions, RefreshRow, Grace, Graces, Auth, Drawn, Rotated, rotated, refused,
  invalid_refresh, token_hash_of, refresh_id, token_ttl, refresh_ttl, grace_ttl, issue_session,
  resolve_session, new_refresh, issue_refresh, is_usable, resolve_refresh, revoked, revoke_refresh,
  record_rotation_grace, find_rotation_grace, issue_session_for, active_user, rotate_late,
  rotate_row, rotate_refresh_session,
}

pub resolve_found :
    (later t : ℕ) (m : Sessions) (s : Session)
    → lookup (suc t) m ≡ some s
    → (resolve_session later (some (suc t)) m).1
      ≡ (if ltb token_ttl (later - s.created_at) then none else some s)
unfolding resolve_session
resolve_found later t m s e = ground (arith, e)

resolve_alike :
    (later t : ℕ) (m n : Sessions)
    → lookup (suc t) m ≡ lookup (suc t) n
    → (resolve_session later (some (suc t)) m).1 ≡ (resolve_session later (some (suc t)) n).1
unfolding resolve_session
resolve_alike later t m n e = elim (Option-cases (lookup (suc t) n)) [
  | inl q ↦ ground (arith, q, e)
  | inr (s, q) ↦ ground (arith, q, e)
]

pub resolve_unknown :
    (later t : ℕ) (m : Sessions)
    → lookup (suc t) m ≡ none
    → (resolve_session later (some (suc t)) m).1 ≡ none
unfolding resolve_session
resolve_unknown later t m e = ground (arith, e)

resolve_missing : (later : ℕ) (m : Sessions) → (resolve_session later (some 0) m).1 ≡ none
unfolding resolve_session
resolve_missing later m = refl

session_of : Ident → Ident → ℕ → Session
session_of token user now = record { token = token; user_id = user; created_at = now }

resolve_other :
    (token user other : Ident) (now later : ℕ) (m : Sessions)
    → token ≢ 0
    → (token == other) ≡ false
    → (resolve_session later (some other) (issue_session token now user m)).1
      ≡ (resolve_session later (some other) m).1
unfolding issue_session session_of
resolve_other token user zero now later m z e =
    resolve_missing later _ ∙ sym (resolve_missing later m)
resolve_other token user (suc o) now later m z e =
    resolve_alike later o _ m
      (ground (arith, e, lookup-insert (suc o) token (session_of token user now) m))

-- An issued session, of a token that is not empty, is answered for its hour, and the other tokens
-- are answered as before.
pub issue_session-resolve :
    (token user other : Ident) (now later : ℕ) (m : Sessions)
    → token ≢ 0
    → (resolve_session later (some other) (issue_session token now user m)).1 ≡ (
        if token == other
        then (if ltb token_ttl (later - now)
            then none
            else some (record { token = token; user_id = user; created_at = now }))
        else (resolve_session later (some other) m).1)
unfolding issue_session session_of
issue_session-resolve zero user other now later m z = absurd (z refl)
issue_session-resolve (suc t) user other now later m z = elim (Bool-cases (suc t == other)) [
  | inl e ↦
      let q : suc t ≡ other = ground arith in
      rw (e, ← q)
        (resolve_found later t _ (session_of (suc t) user now)
          (ground (arith, lookup-insert (suc t) (suc t) (session_of (suc t) user now) m)))
  | inr e ↦ rw e (resolve_other (suc t) user other now later m z e)
]

pub resolve_refresh-some :
    (hash : ℕ → ℕ) (now raw : ℕ) (rows : List RefreshRow) (row : RefreshRow)
    → resolve_refresh hash now raw rows ≡ some row
    → (raw ≢ 0) × (find_by token_hash_of (hash raw) rows ≡ some row) × (is_usable now row ≡ true)
unfolding resolve_refresh
resolve_refresh-some hash now zero rows row h = absurd (ground arith)
resolve_refresh-some hash now (suc raw) rows row h =
    elim (Option-cases (find_by token_hash_of (hash (suc raw)) rows)) [
      | inl n ↦ absurd (ground (arith, n))
      | inr (r, n) ↦ elim (Bool-cases (is_usable now r)) [
        | inl e ↦
            let q : r ≡ row = ground (arith, n, e) in ((λ z. ground arith), rw (← q) n, rw (← q) e)
        | inr e ↦ absurd (ground (arith, n, e))
      ]
    ]

-- The row found by hash is the one revoked by its identifier.
pub revoke_refresh-find :
    (now h : ℕ) (rows : List RefreshRow) (row : RefreshRow)
    → Distinct refresh_id rows
    → find_by token_hash_of h rows ≡ some row
    → find_by token_hash_of h (revoke_refresh now row.id rows) ≡ some (revoked now row)
unfolding revoke_refresh
revoke_refresh-find now h rows row d f =
    find_by-modify_found token_hash_of refresh_id (revoked now) h rows row (λ r. refl) d f

pub resolve-find :
    (hash : ℕ → ℕ) (later raw : ℕ) (rows : List RefreshRow) (row : RefreshRow)
    → raw ≢ 0
    → find_by token_hash_of (hash raw) rows ≡ some row
    → resolve_refresh hash later raw rows ≡ (if is_usable later row then some row else none)
unfolding resolve_refresh
resolve-find hash later zero rows row z f = absurd (z refl)
resolve-find hash later (suc raw) rows row z f = rw (f, resolve_refresh) refl

module _ (hash : ℕ → ℕ) (now later raw : ℕ) (d : Drawn) (rows : List RefreshRow) (row : RefreshRow)
    (user : Ident) (found : resolve_refresh hash now raw rows ≡ some row)
    (ids : Distinct refresh_id rows) (new : Fresh token_hash_of (hash d.refresh) rows)
    (nonzero : d.refresh ≢ 0) where
  rotated_rows : List RefreshRow
  rotated_rows = issue_refresh hash d.refresh d.row_id now user (revoke_refresh now row.id rows)

  rotated_rows-find :
      (k : ℕ)
      → find_by token_hash_of k rotated_rows ≡ (
          if hash d.refresh == k
          then some (new_refresh hash d.refresh d.row_id now user)
          else find_by token_hash_of k (revoke_refresh now row.id rows))
  unfolding rotated_rows issue_refresh new_refresh revoke_refresh
  rotated_rows-find k =
      find_by-push token_hash_of k _ (modify_by refresh_id row.id (revoked now) rows) (
        All-modify_by refresh_id (λ r. token_hash_of r ≢ hash d.refresh) row.id (revoked now) rows
          (λ r e h. h) new)

  rotated-old : resolve_refresh hash later raw rotated_rows ≡ none
  unfolding is_usable
  rotated-old =
      let f = resolve_refresh-some hash now raw rows row found in
      let n =
        All-find_by token_hash_of (λ r. token_hash_of r ≢ hash d.refresh) (hash raw) rows new f.1 in
      let k = find_by-key token_hash_of (hash raw) rows f.1 in
      resolve-find hash later raw rotated_rows (revoked now row) f.0 (
        ground (
          arith,
          rotated_rows-find (hash raw),
          revoke_refresh-find now (hash raw) rows row ids f.1,
          n,
          k,
        ))

  rotated-new : resolve_refresh hash later d.refresh rotated_rows ≡ (
      if ltb later (now + refresh_ttl)
      then some (new_refresh hash d.refresh d.row_id now user)
      else none)
  unfolding is_usable new_refresh
  rotated-new =
      resolve-find hash later d.refresh rotated_rows (new_refresh hash d.refresh d.row_id now user)
        nonzero (ground (arith, rotated_rows-find (hash d.refresh)))

rotate-found :
    (hash : ℕ → ℕ) (users : List User) (d : Drawn) (now raw : ℕ) (row : RefreshRow) (s : Auth)
    → resolve_refresh hash now raw s.refresh ≡ some row
    → rotate_refresh_session hash users d now raw s ≡ rotate_row hash users d now raw row s
unfolding rotate_refresh_session
rotate-found hash users d now zero row s f =
    absurd ((resolve_refresh-some hash now zero s.refresh row f).0 refl)
rotate-found hash users d now (suc raw) row s f = rw (f, rotate_refresh_session) refl

pub rotate-unknown :
    (hash : ℕ → ℕ) (users : List User) (d : Drawn) (now raw : ℕ) (s : Auth)
    → raw ≢ 0
    → resolve_refresh hash now raw s.refresh ≡ none
    → rotate_refresh_session hash users d now raw s ≡ rotate_late hash users d now raw s
unfolding rotate_refresh_session
rotate-unknown hash users d now zero s z f = absurd (z refl)
rotate-unknown hash users d now (suc raw) s z f = rw (f, rotate_refresh_session) refl

grace_of : Drawn → ℕ → Ident → Grace
grace_of d now user = record { refresh_token = d.refresh; user_id = user; until = now + grace_ttl }

find-recorded :
    (hash : ℕ → ℕ) (now later raw : ℕ) (d : Drawn) (user : Ident) (m : Graces)
    → find_rotation_grace hash later raw (record_rotation_grace hash now raw d.refresh user m)
      ≡ (if leb (now + grace_ttl) later then none else some (grace_of d now user))
unfolding find_rotation_grace record_rotation_grace grace_of
find-recorded hash now later raw d user m =
    let l =
      lookup-insert (hash raw) (hash raw) (grace_of d now user)
        (filter (λ (e : ℕ × Grace). ltb now e.1.until) m) in
    ground (arith, l)

rotate_late-answer :
    (hash : ℕ → ℕ) (users : List User) (d : Drawn) (later raw : ℕ) (s : Auth) (u : User) (g : Grace)
    (over : Bool)
    → find_rotation_grace hash later raw s.graces ≡ (if over then none else some g)
    → active_user g.user_id users ≡ some u
    → (rotate_late hash users d later raw s).1
      ≡ (if over then refused invalid_refresh else rotated d.access g.refresh_token u)
unfolding rotate_late
rotate_late-answer hash users d later raw s u g true f a = rw (f, rotate_late) refl
rotate_late-answer hash users d later raw s u g false f a = rw (f, rotate_late, a) refl

active_user-id :
    (id : Ident) (users : List User) (u : User)
    → active_user id users ≡ some u
    → active_user u.id users ≡ some u
unfolding active_user
active_user-id id users u a = elim (Option-cases (user_by_id id users)) [
  | inl n ↦ absurd (ground (arith, n))
  | inr (v, n) ↦ elim (Bool-cases v.is_active) [
    | inr e ↦ absurd (ground (arith, n, e))
    | inl e ↦
        let q : v ≡ u = ground (arith, n, e) in
        let k = find_by-key (λ (x : User). x.id) id users n in
        rw (← q) (rw k (ground (arith, n, e)))
  ]
]

after_rotation : (ℕ → ℕ) → Drawn → ℕ → ℕ → RefreshRow → User → Auth → Auth
after_rotation hash d now raw row u s = record {
  sessions = issue_session d.access now u.id s.sessions;
  refresh = issue_refresh hash d.refresh d.row_id now u.id (revoke_refresh now row.id s.refresh);
  graces = record_rotation_grace hash now raw d.refresh u.id s.graces;
}

-- The answer to the first use of a token, the rows after it, and the answer to a later use.
abbrev pub Once :
    (ℕ → ℕ) → List User → Drawn → Drawn → ℕ → ℕ → Ident → User → Auth × Rotated → Type 0
Once hash users d d' now later raw u r =
    (r.1 ≡ rotated d.access d.refresh u)
    × (resolve_refresh hash later raw r.0.refresh ≡ none)
    × (resolve_refresh hash later d.refresh r.0.refresh ≡ (
        if ltb later (now + refresh_ttl)
        then some (new_refresh hash d.refresh d.row_id now u.id)
        else none))
    × ((rotate_refresh_session hash users d' later raw r.0).1 ≡ (
        if leb (now + grace_ttl) later
        then refused invalid_refresh
        else rotated d'.access d.refresh u))

-- A refresh token that is good for an active user, with rows of distinct identifiers and a fresh
-- token drawn that is not empty: the answer has the new token, the old one is never good again
-- and the new one is, for its 30 days; if the old one comes again, it is answered with the same
-- new token for one minute and refused afterwards.
pub rotate_refresh_session-Once :
    (hash : ℕ → ℕ) (users : List User) (d d' : Drawn) (now later raw : ℕ) (row : RefreshRow)
    (u : User) (s : Auth)
    → resolve_refresh hash now raw s.refresh ≡ some row
    → active_user row.user_id users ≡ some u
    → Distinct refresh_id s.refresh
    → Fresh token_hash_of (hash d.refresh) s.refresh
    → d.refresh ≢ 0
    → Once hash users d d' now later raw u (rotate_refresh_session hash users d now raw s)
unfolding rotate_row issue_session_for rotated_rows after_rotation grace_of
rotate_refresh_session-Once hash users d d' now later raw row u s found a ids new z =
    rw (rotate-found hash users d now raw row s found, a, rotate_row)
      (
        refl,
        old,
        rotated-new hash now later raw d s.refresh row u.id found ids new z,
        rw
            (rotate-unknown hash users d' later raw (after_rotation hash d now raw row u s)
              (resolve_refresh-some hash now raw s.refresh row found).0 old)
            (rotate_late-answer hash users d' later raw (after_rotation hash d now raw row u s) u
              (grace_of d now u.id) (leb (now + grace_ttl) later)
              (find-recorded hash now later raw d u.id s.graces)
              (active_user-id row.user_id users u a)),
      )
  where
    old :
        resolve_refresh hash later raw
          (rotated_rows hash now later raw d s.refresh row u.id found ids new z)
        ≡ none
    old = rotated-old hash now later raw d s.refresh row u.id found ids new z
