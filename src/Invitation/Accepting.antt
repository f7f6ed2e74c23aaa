-- ===== src/Invitation/Accepting.antt =====
-- An invitation makes one account at most, and its user can log in
-- (/accept-invite of server/src/routes/auth.ts).
use Prim.Native.String.{String}
use hanmir_talk.Prelude.{
  ℕ, ◌≡◌, refl, sym, ap, inl, inr, true, some, List, arith, leb, Bool-cases, Option-cases, find_by,
  Distinct, is_some, Ident, given, given_id, TextOps,
}
use hanmir_talk.Prelude.{find_by-modify_found}
use hanmir_talk.Prelude.{ltb, false}
use hanmir_talk.Auth.Login.{password_min_length}
use text.Mathlib.Text.{◌==◌ as str_eq}
use text.Mathlib.TextEquality.{eq_iff}
use hanmir_talk.Prelude.{Bool, none, [], ◌∷◌, ◌++◌, find, Fresh, modify_by}
use hanmir_talk.Auth.{Auth, Drawn}
use hanmir_talk.Auth.Login.{Attempts, email, is_blank, check_login_rate, login, granted, looked_up}
use hanmir_talk.Auth.Entering.{login-admits}
use hanmir_talk.User.{
  settled, User, Bcrypt, create_user, set_password, verify_password, find_user_by_email,
}
use hanmir_talk.User.Accounts.{verify_password-set_password}
use hanmir_talk.Invitation.{
  Invitation, Joining, Draws, Acceptance, joined, invitation_used, invitation_id, invitation_token,
  status_of, find_by_token, mark_accepted, accepted_at_time, open_account, accept_row,
  accept_invite, invited_user,
}

-- What an acceptance that made an account went through.
Opened :
    TextOps
    → Bcrypt
    → Draws
    → ℕ
    → Ident
    → String
    → String
    → Joining
    → Invitation
    → Joining
    → User
    → Type 0
Opened ops b d now token name password s r s' u =
    (find_by_token token s.invitations ≡ some r)
    × (is_some (find_user_by_email ops r.email s.users) ≡ false)
    × ((mark_accepted now r.id s.invitations).1 ≡ true)
    × (open_account ops b d r (ops.trim name) password
          (record s { invitations = (mark_accepted now r.id s.invitations).0 })
        ≡ (s', joined u))

accept_row-Opened :
    (ops : TextOps) (b : Bcrypt) (d : Draws) (now : ℕ) (r : Invitation) (name password : String)
    (s s' : Joining) (u : User)
    → accept_row ops b d now r name password s ≡ (s', joined u)
    → (is_some (find_user_by_email ops r.email s.users) ≡ false)
      × ((mark_accepted now r.id s.invitations).1 ≡ true)
      × (open_account ops b d r name password
            (record s { invitations = (mark_accepted now r.id s.invitations).0 })
          ≡ (s', joined u))
unfolding accept_row
accept_row-Opened ops b d now r name password s s' u e =
    elim (Bool-cases (is_some (given_id (some r.department_id)))) [
      | inr a ↦ absurd (ground (arith, a))
      | inl a ↦ elim (Bool-cases (is_some (find_user_by_email ops r.email s.users))) [
        | inl m ↦ absurd (ground (arith, a, m))
        | inr m ↦ elim (Bool-cases (mark_accepted now r.id s.invitations).1) [
          | inr k ↦ absurd (ground (arith, a, m, k))
          | inl k ↦ (m, k, ground (arith, a, m, k))
        ]
      ]
    ]

accept_invite-Opened :
    (ops : TextOps) (b : Bcrypt) (d : Draws) (now : ℕ) (token : Ident) (name password : String)
    (s s' : Joining) (u : User)
    → accept_invite ops b d now token name password s ≡ (s', joined u)
    → (r : Invitation) × Opened ops b d now token name password s r s' u
unfolding accept_invite status_of Opened
accept_invite-Opened ops b d now token name password s s' u e =
    elim (Bool-cases (is_some (given (some (ops.trim name))))) [
      | inr n ↦ absurd (ground (arith, n))
      | inl n ↦ elim (Bool-cases (ltb (ops.size password) password_min_length)) [
        | inl l ↦ absurd (ground (arith, n, l))
        | inr l ↦ elim (Option-cases (find_by_token token s.invitations)) [
          | inl f ↦ absurd (ground (arith, n, l, f))
          | inr (r, f) ↦
              let (m, k, o) =
                accept_row-Opened ops b d now r (ops.trim name) password s s' u
                  (pending_row r n l f) in
              (r, (f, m, k, o))
        ]
      ]
    ]
  where
    pending_row :
        (r : Invitation)
        → is_some (given (some (ops.trim name))) ≡ true
        → ltb (ops.size password) password_min_length ≡ false
        → find_by_token token s.invitations ≡ some r
        → accept_row ops b d now r (ops.trim name) password s ≡ (s', joined u)
    pending_row r n l f = elim (Bool-cases (is_some r.accepted_at)) [
      | inl a ↦ absurd (ground (arith, n, l, f, a))
      | inr a ↦ elim (Bool-cases (leb r.expires_at now)) [
        | inl x ↦ absurd (ground (arith, n, l, f, a, x))
        | inr x ↦ ground (arith, n, l, f, a, x)
      ]
    ]

open_account-invitations :
    (ops : TextOps) (b : Bcrypt) (d : Draws) (r : Invitation) (name password : String)
    (s s' : Joining) (u : User)
    → open_account ops b d r name password s ≡ (s', joined u)
    → s'.invitations ≡ s.invitations
unfolding open_account
open_account-invitations ops b d r name password s s' u e =
    sym (ap (λ (t : Joining × Acceptance). t.0.invitations) e)

mark_accepted-found :
    (now : ℕ) (token : Ident) (rows : List Invitation) (r : Invitation)
    → Distinct invitation_id rows
    → find_by_token token rows ≡ some r
    → (mark_accepted now r.id rows).1 ≡ true
    → find_by_token token (mark_accepted now r.id rows).0 ≡ some (accepted_at_time now r)
unfolding find_by_token mark_accepted
mark_accepted-found now token rows r d f k = elim (Option-cases (find_by invitation_id r.id rows)) [
  | inl n ↦ absurd (ground (arith, n))
  | inr (q, n) ↦ elim (Bool-cases (is_some q.accepted_at)) [
    | inl a ↦ absurd (ground (arith, n, a))
    | inr a ↦
        rw (n, mark_accepted, a)
          (find_by-modify_found invitation_token invitation_id (accepted_at_time now) token rows r
            (λ x. refl) d f)
  ]
]

-- Of invitations with distinct identifiers: once an invitation has made an account, its token makes
-- no other, whoever comes with it, and is told that the invitation was used if the name and the
-- length of the password pass.
pub accept_invite-once :
    (ops : TextOps) (b : Bcrypt) (d d' : Draws) (now later : ℕ) (token : Ident)
    (name password name' password' : String) (s s' : Joining) (u : User)
    → Distinct invitation_id s.invitations
    → accept_invite ops b d now token name password s ≡ (s', joined u)
    → is_some (given (some (ops.trim name'))) ≡ true
    → ltb (ops.size password') password_min_length ≡ false
    → accept_invite ops b d' later token name' password' s' ≡ (s', invitation_used)
unfolding Opened accept_invite status_of
accept_invite-once ops b d d' now later token name password name' password' s s' u ids e n z =
    let (r, (f, m, k, o)) = accept_invite-Opened ops b d now token name password s s' u e in
    let i : s'.invitations ≡ (mark_accepted now r.id s.invitations).0 =
      open_account-invitations ops b d r _ password _ s' u o in
    let g : find_by_token token s'.invitations ≡ some (accepted_at_time now r) =
      rw i (mark_accepted-found now token s.invitations r ids f k) in
    ground (arith, n, z, g)

find-new :
    (p : User → Bool) (u : User) (xs : List User)
    → find p xs ≡ none
    → Fresh (λ (v : User). v.id) u.id xs
    → p (record u { must_change_password = false }) ≡ true
    → find p (modify_by (λ (v : User). v.id) u.id settled (xs ++ u ∷ []))
      ≡ some (record u { must_change_password = false })
find-new p u [] e f h = ground (arith, h)
find-new p u (x ∷ xs) e f h = ground (arith, e, f.0, find-new p u xs (ground (arith, e)) f.1 h)

-- The account that was opened, under its address and with its password.
open_account-found :
    (ops : TextOps) (b : Bcrypt) (d : Draws) (r : Invitation) (name password : String)
    (s s' : Joining) (u : User)
    → Fresh (λ (v : User). v.id) d.user_id s.users.data_
    → is_some (find_user_by_email ops r.email s.users) ≡ false
    → ops.trim u.email ≡ u.email
    → given (some password) ≡ some password
    → open_account ops b d r name password s ≡ (s', joined u)
    → (find_user_by_email ops u.email s'.users ≡ some (record u { must_change_password = false }))
      × (u.is_active ≡ true)
      × (verify_password b u.id password s'.users ≡ true)
unfolding open_account create_user set_password find_user_by_email
open_account-found ops b d r name password s s' u f m t p e =
    let made =
      create_user ops b d.seed_hash d.salt d.user_id (invited_user name r) s.departments s.users in
    let q : made.1 ≡ u = ground (arith, ap (λ (t : Joining × Acceptance). t.1) e) in
    let k : set_password b d.password_salt made.1.id password made.0 ≡ s'.users =
      ap (λ (t : Joining × Acceptance). t.0.users) e in
    let t' : ops.trim r.email ≡ r.email = rw (← q) at t in
    let absent : find (λ (v : User). str_eq (ops.lower v.email) (ops.lower (ops.trim r.email)))
          s.users.data_
        ≡ none =
      ground (arith, m) in
    let same : str_eq (ops.lower r.email) (ops.lower (ops.trim r.email)) ≡ true =
      rw t' ((eq_iff (ops.lower r.email) (ops.lower r.email)).1 refl) in
    rw (← k, ← q)
      (
        find-new (λ (v : User). str_eq (ops.lower v.email) (ops.lower (ops.trim r.email))) made.1
            s.users.data_ absent f same,
        refl,
        (verify_password-set_password b d.password_salt made.1.id made.1.id password password made.0
            p).0,
      )

-- Who accepts an invitation, with a password that is not empty and under an identifier that is not
-- in use, is let in with its address, which is not empty and has no spaces around it, and that
-- password, at any time at which the counters of attempts allow it, and need not change the password.
pub accept_invite-login :
    (ops : TextOps) (b : Bcrypt) (d : Draws) (now : ℕ) (token : Ident) (name password : String)
    (s s' : Joining) (u : User) (hash : ℕ → ℕ) (drawn : Drawn) (later : ℕ) (ip account : Ident)
    (auth : Auth) (attempts : Attempts)
    → Fresh (λ (v : User). v.id) d.user_id s.users.data_
    → given (some password) ≡ some password
    → accept_invite ops b d now token name password s ≡ (s', joined u)
    → ops.trim u.email ≡ u.email
    → is_blank (email u.email) ≡ false
    → (check_login_rate ip account later attempts).1 ≡ true
    → (login ops b hash drawn later ip account
        (email u.email)
        password
        (record { auth = auth; attempts = attempts; users = s'.users })).1
      ≡ granted (record u { must_change_password = false })
unfolding Opened looked_up
accept_invite-login ops b d now token name password s s' u hash drawn later ip account auth attempts
      f p e t z c =
    let (r, (g, m, k, o)) = accept_invite-Opened ops b d now token name password s s' u e in
    let found =
      open_account-found ops b d r (ops.trim name) password
        (record s { invitations = (mark_accepted now r.id s.invitations).0 }) s' u f m t p o in
    login-admits ops b hash drawn later ip account (email u.email) password
      (record { auth = auth; attempts = attempts; users = s'.users })
      (record u { must_change_password = false }) z c found.0 found.1 found.2
