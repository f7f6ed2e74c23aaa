-- ===== src/Tests/Accounts.antt =====
-- Accounts and sessions: passwords, departments, logins, refresh tokens.
use Prim.Native.String.{String}
use hanmir_talk.Prelude.{
  false, ◌≡◌, refl, true, Option, none, some, List, [], ◌∷◌, arith, Distinct, lookup, insert, Ident,
}
use hanmir_talk.Tests.{text_length, sample_text, sample_bcrypt, sample_hash, sample_user}
use hanmir_talk.User.{
  User, Users, Department, CreateUser, team_member, new_user, matches_hash, create_user,
  verify_password, set_password, find_user_by_email, user_by_id, delete_department,
}
use hanmir_talk.User.Accounts.{
  IsPlaced, DeletesOnly, verify_password-set_password, delete_department-DeletesOnly,
  delete_department-IsPlaced,
}
use hanmir_talk.Auth.{
  refused, invalid_refresh, rotated, rotate_late, find_rotation_grace, Auth, Drawn, RefreshRow,
  resolve_refresh, is_usable, active_user, rotate_refresh_session, resolve_session, logout,
}
use hanmir_talk.Invitation.{
  Invitation, Joining, Draws, invitation_used, accept_invite, accept_row, open_account, status_of,
  find_by_token, mark_accepted, invited_user,
}
use hanmir_talk.Invitation.Accepting.{accept_invite-once, accept_invite-login}
use hanmir_talk.Auth.Login.{
  granted, LoginState, login, Lookup, looked_up, check_login_rate, bump_login_counter,
}
use hanmir_talk.Auth.Rotation.{Once, rotate_refresh_session-Once}
use hanmir_talk.Auth.Ending.{logout-Ends}
use hanmir_talk.Auth.Limits.{Below, admitted, bump_login_counter-limit}
use hanmir_talk.Auth.Entering.{Names, Knows, login-granted}

abbrev kim : User
kim = sample_user 1 team_member

abbrev accounts : Users
accounts = record { data_ = kim ∷ []; passwords = [] }

abbrev departments : List Department
departments =
    record { id = 1; name = "RnD"; description = none; is_active = true }
    ∷ record { id = 2; name = "Sales"; description = none; is_active = true }
    ∷ []

verify_password-set_password_example :
    (verify_password sample_bcrypt 1 "secret" (set_password sample_bcrypt 5 1 "secret" accounts)
      ≡ true)
    × (verify_password sample_bcrypt 9 "other" (set_password sample_bcrypt 5 1 "secret" accounts)
        ≡ verify_password sample_bcrypt 9 "other" accounts)
    × (user_by_id 9 (set_password sample_bcrypt 5 1 "secret" accounts).data_
        ≡ user_by_id 9 accounts.data_)
verify_password-set_password_example =
    verify_password-set_password sample_bcrypt 5 1 9 "secret" "other" accounts refl

abbrev joining : Option String → CreateUser
joining password = record {
  name = "Lee";
  email = "lee@hanmir.kr";
  department_id = 1;
  position = "";
  role = team_member;
  phone = none;
  avatar_tone = none;
  initials = none;
  password = password;
}

departments-Distinct : Distinct (λ (d : Department). d.id) departments
departments-Distinct = (((λ e. absurd (ground arith)), tt), (tt, tt))

delete_department-DeletesOnly_example :
    DeletesOnly accounts.data_ 2 departments (delete_department accounts.data_ 2 departments)
delete_department-DeletesOnly_example =
    delete_department-DeletesOnly accounts.data_ 2 departments departments-Distinct

delete_department-IsPlaced_example :
    IsPlaced (delete_department accounts.data_ 2 departments).0 accounts.data_
delete_department-IsPlaced_example =
    delete_department-IsPlaced accounts.data_ 2 departments departments-Distinct
      ((λ a e. absurd (ground arith)), tt)

abbrev stored : RefreshRow
stored = record { id = 30; user_id = 1; token_hash = 150; expires_at = 5000; revoked_at = none }

abbrev process : Auth
process = record {
  sessions = (40, record { token = 40; user_id = 1; created_at = 900 }) ∷ [];
  refresh = stored ∷ [];
  graces = [];
}

abbrev drawn : Drawn
drawn = record { access = 41; refresh = 51; row_id = 31 }

abbrev redrawn : Drawn
redrawn = record { access = 42; refresh = 52; row_id = 32 }

rotate_refresh_session-Once_example :
    Once sample_hash
      (kim ∷ [])
      drawn
      redrawn
      1000
      2000
      50
      kim
      (rotate_refresh_session sample_hash (kim ∷ []) drawn 1000 50 process)
unfolding resolve_refresh is_usable active_user
rotate_refresh_session-Once_example =
    rotate_refresh_session-Once sample_hash (kim ∷ []) drawn redrawn 1000 2000 50 stored kim process
      refl refl (tt, tt) ((λ e. absurd (ground arith)), tt) (λ e. ground arith)

-- A token that was rotated a moment ago, and the grace of its minute.
abbrev after_rotation : Auth
after_rotation = record process {
  refresh = record stored { revoked_at = some 990 } ∷ [];
  graces = (150, record { refresh_token = 51; user_id = 1; until = 60990 }) ∷ [];
}

logout-Ends_example :
    ((resolve_session 2000
        (some 40)
        (logout sample_hash 1000 (some 40) (some 50) after_rotation).sessions).1
      ≡ none)
    × (resolve_refresh sample_hash 2000 50
          (logout sample_hash 1000 (some 40) (some 50) after_rotation).refresh
        ≡ none)
    × ((rotate_refresh_session sample_hash
          (kim ∷ [])
          redrawn
          2000
          50
          (logout sample_hash 1000 (some 40) (some 50) after_rotation)).1
        ≡ refused invalid_refresh)
logout-Ends_example =
    logout-Ends sample_hash (kim ∷ []) redrawn 1000 2000 40 50 1 after_rotation (λ e. ground arith)
      (λ e. ground arith) (omega arith) (tt, tt) ((λ e. refl), tt) (λ row e. ground (arith, e))

-- Without logging out the token is exchanged in that minute.
exchanged :
    (rotate_refresh_session sample_hash (kim ∷ []) redrawn 2000 50 after_rotation).1
    ≡ rotated 42 51 kim
unfolding rotate_refresh_session rotate_late resolve_refresh is_usable find_rotation_grace
    active_user lookup
exchanged = refl

-- Six attempts in one window, of which five are let through.
bump_login_counter-limit_example :
    admitted 60 5 (1000 ∷ 1001 ∷ 1002 ∷ 1003 ∷ 1004 ∷ 1005 ∷ []) [] ≡ 5
unfolding lookup
bump_login_counter-limit_example =
    bump_login_counter-limit 60 5 1000 (1001 ∷ 1002 ∷ 1003 ∷ 1004 ∷ 1005 ∷ []) []
      (λ e. ground arith) refl
      (omega arith, (omega arith, (omega arith, (omega arith, (omega arith, tt)))))

abbrev entrance : LoginState
entrance = record {
  auth = process;
  attempts = [];
  users = record { data_ = kim ∷ []; passwords = (1, "$secret") ∷ [] };
}

login-granted_example :
    (user_by_id 1 entrance.users.data_ ≡ some kim)
    × (kim.is_active ≡ true)
    × Names sample_text (Lookup.identifier 1) kim
    × Knows sample_bcrypt 1 "secret" entrance.users
    × Below 70 30 1000 []
    × Below 71 5 1000 []
    × ((resolve_session 2000
          (some 41)
          (login sample_text sample_bcrypt sample_hash drawn 1000 70 71
            (Lookup.identifier 1)
            "secret"
            entrance).0.auth.sessions).1
        ≡ some (record { token = 41; user_id = 1; created_at = 1000 }))
    × (resolve_refresh sample_hash 2000 51
          (login sample_text sample_bcrypt sample_hash drawn 1000 70 71
            (Lookup.identifier 1)
            "secret"
            entrance).0.auth.refresh
        ≡ some (record {
          id = 31;
          user_id = 1;
          token_hash = 151;
          expires_at = 2592001000;
          revoked_at = none;
        }))
unfolding login check_login_rate bump_login_counter looked_up verify_password matches_hash
    sample_bcrypt text_length lookup insert
login-granted_example =
    login-granted sample_text sample_bcrypt sample_hash drawn 1000 2000 70 71 (Lookup.identifier 1)
      "secret" entrance kim (tt, tt) (λ e. ground arith) (λ e. ground arith) (λ e. ground arith)
      ((λ e. absurd (ground arith)), tt) refl

abbrev invitation : Invitation
invitation = record {
  id = 80;
  email = "lee@hanmir.kr";
  role = team_member;
  department_id = 1;
  token = 90;
  invited_by_id = 1;
  accepted_at = none;
  expires_at = 9000;
  created_at = 500;
}

abbrev invited : Joining
invited = record { invitations = invitation ∷ []; users = accounts; departments = departments }

abbrev draws : Ident → Draws
draws id = record { user_id = id; seed_hash = "seeded"; salt = 1; password_salt = 2 }

abbrev invitee : User
invitee = new_user sample_text 2 (invited_user "Lee" invitation) departments

accept_invite-once_example :
    accept_invite sample_text sample_bcrypt
      (draws 3)
      2000
      90
      "Eve"
      "other123"
      (accept_invite sample_text sample_bcrypt (draws 2) 1000 90 "Lee" "secret12" invited).0
    ≡ (
      (accept_invite sample_text sample_bcrypt (draws 2) 1000 90 "Lee" "secret12" invited).0,
      invitation_used,
    )
unfolding accept_invite accept_row open_account status_of find_by_token mark_accepted create_user
    set_password find_user_by_email text_length
accept_invite-once_example =
    accept_invite-once sample_text sample_bcrypt (draws 2) (draws 3) 1000 2000 90 "Lee" "secret12"
      "Eve" "other123" invited
      (accept_invite sample_text sample_bcrypt (draws 2) 1000 90 "Lee" "secret12" invited).0 invitee
      (tt, tt) refl refl refl

accept_invite-login_example :
    (login sample_text sample_bcrypt sample_hash drawn 2000 70 71
      (Lookup.email "lee@hanmir.kr")
      "secret12"
      (record {
        auth = process;
        attempts = [];
        users =
            (accept_invite sample_text sample_bcrypt
              (draws 2)
              1000
              90
              "Lee"
              "secret12"
              invited).0.users;
      })).1
    ≡ granted (record invitee { must_change_password = false })
unfolding accept_invite accept_row open_account status_of find_by_token mark_accepted create_user
    set_password find_user_by_email text_length check_login_rate bump_login_counter lookup insert
accept_invite-login_example =
    accept_invite-login sample_text sample_bcrypt (draws 2) 1000 90 "Lee" "secret12" invited
      (accept_invite sample_text sample_bcrypt (draws 2) 1000 90 "Lee" "secret12" invited).0 invitee
      sample_hash drawn 2000 70 71 process [] ((λ e. absurd (ground arith)), tt) refl refl refl refl
      refl
