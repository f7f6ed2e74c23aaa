-- ===== src/Auth/Login.antt =====
-- The routes `/login` and `/change-password` (server/src/routes/auth.ts) and the counters that
-- bound the attempts to log in. The texts of the two counters' keys are identifiers,
-- and the fields of a request are texts.
use Prim.Native.String.{String}
use text.Mathlib.Text.{◌==◌ as str_eq}
use hanmir_talk.Prelude.{given, given_id, is_some}
use hanmir_talk.Prelude.{
  ℕ, suc, ◌+◌, Bool, true, not, ◌&&◌, Option, none, some, List, ltb, leb, if◌then◌else◌, length,
  filter, Ident, max, lookup, insert, delete, TextOps,
}
use hanmir_talk.User.{
  User, Users, Bcrypt, user_by_id, find_user_by_email, verify_password, set_password,
}
use hanmir_talk.Auth.{
  Auth, Drawn, issue_session_for, revoke_all_for_user, clear_rotation_grace_for_user,
}

pub record Bucket : Type 0 where
  pub tries : ℕ
  pub reset_at : ℕ

abbrev pub Attempts : Type 0
Attempts = List (Ident × Bucket)

abbrev pub login_window : ℕ
login_window = 60000

-- `count += 1` on a bucket that is there and not over, else a new bucket.
unfoldable pub bump_login_counter : Ident → ℕ → ℕ → Attempts → Attempts × Bool
bump_login_counter key max now m = elim (lookup key m) [
  | none ↦ (insert key (record { tries = 1; reset_at = now + login_window }) m, true)
  | some b ↦
      if leb b.reset_at now
      then (insert key (record { tries = 1; reset_at = now + login_window }) m, true)
      else (insert key (record b { tries = suc b.tries }) m, leb (suc b.tries) max)
]

-- Buckets that are over go when there are more than 10000.
abbrev pub pruned : ℕ → Attempts → Attempts
pruned now m =
    if ltb 10000 (length m) then filter (λ (e : Ident × Bucket). ltb now e.1.reset_at) m else m

abbrev pub max_per_ip : ℕ
max_per_ip = 30

abbrev pub max_per_account : ℕ
max_per_account = 5

-- Both counters count, whatever the first one answers.
unfoldable pub check_login_rate : Ident → Ident → ℕ → Attempts → Attempts × Bool
check_login_rate ip account now m = (by_account.0, by_ip.1 && by_account.1)
  where
    by_ip : Attempts × Bool
    by_ip = bump_login_counter ip max_per_ip now (pruned now m)

    by_account : Attempts × Bool
    by_account = bump_login_counter account max_per_account now by_ip.0

-- What the user typed: an address if it has an `@`, else an identifier.
pub data Lookup : Type 0 where
  email : String → Lookup
  identifier : Ident → Lookup

unfoldable pub looked_up : TextOps → Lookup → Users → Option User
looked_up ops (email e) s = find_user_by_email ops e s
looked_up ops (identifier id) s = user_by_id id s.data_

-- `!lookup`
abbrev pub is_blank : Lookup → Bool
is_blank (email e) = not (is_some (given (some e)))
is_blank (identifier id) = not (is_some (given_id (some id)))

pub data Login : Type 0 where
  invalid_request too_many_attempts invalid_credentials account_inactive : Login
  granted : User → Login

pub record LoginState : Type 0 where
  pub auth : Auth
  pub attempts : Attempts
  pub users : Users

unfoldable pub login :
    TextOps
    → Bcrypt
    → (ℕ → ℕ)
    → Drawn
    → ℕ
    → Ident
    → Ident
    → Lookup
    → String
    → LoginState
    → LoginState × Login
login ops bcrypt hash d now ip account typed password s =
    if is_blank typed
    then (s, invalid_request)
    else if not (check_login_rate ip account now s.attempts).1
    then (counted, too_many_attempts)
    else (elim (looked_up ops typed s.users) [
      | none ↦ (counted, invalid_credentials)
      | some u ↦
          if not u.is_active
          then (counted, account_inactive)
          else if not (verify_password bcrypt u.id password s.users)
          then (counted, invalid_credentials)
          else (
            record s {
              auth = issue_session_for hash d now u.id s.auth;
              attempts = delete account (check_login_rate ip account now s.attempts).0;
            },
            granted u,
          )
    ])
  where
    counted : LoginState
    counted = record s { attempts = (check_login_rate ip account now s.attempts).0 }

pub data Change : Type 0 where
  password_too_short password_unchanged invalid_current_password changed : Change

-- PASSWORD_MIN_LENGTH
abbrev pub password_min_length : ℕ
password_min_length = 8

unfoldable pub change_password :
    TextOps → Bcrypt → ℕ → ℕ → Ident → String → String → LoginState → LoginState × Change
change_password ops bcrypt salt now me current new s =
    if ltb (ops.size new) password_min_length
    then (s, password_too_short)
    else if str_eq current new
    then (s, password_unchanged)
    else if not (verify_password bcrypt me current s.users)
    then (s, invalid_current_password)
    else (
      record s {
        users = set_password bcrypt salt me new s.users;
        auth = record s.auth {
          refresh = revoke_all_for_user now me s.auth.refresh;
          graces = clear_rotation_grace_for_user me s.auth.graces;
        };
      },
      changed,
    )
