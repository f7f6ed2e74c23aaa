-- ===== src/Invitation.antt =====
-- MemoryInvitationRepository (server/src/repositories/memory.ts) and the route /accept-invite
-- (server/src/routes/auth.ts) that makes an account of an invitation. Tokens are identifiers.
pub mod Accepting
use Prim.Native.String.{String}
use hanmir_talk.Prelude.{
  ℕ, zero, suc, ◌+◌, ◌-◌, ◌*◌, ◌≤◌, ◌<◌, ◌≡◌, refl, sym, ap, ◌∙◌, ◌≢◌, ◌⊎◌, inl, inr, Bool, true,
  false, not, ◌&&◌, ◌||◌, Option, none, some, List, [], ◌∷◌, ◌++◌, map, arith, ltb, leb, ◌==◌,
  if◌then◌else◌, Bool-cases, Option-cases, length, take, drop, All, find, any, filter, modify,
  remove, count, find_by, has_by, modify_by, remove_by, Fresh, Distinct, is_some, or_else,
  or_option, option_map, option_bind, Ident, given, given_id, sort, first, last, sum_of, max, min,
  lookup, insert, delete, member, add, drop_member, Flags, has_flag, set_flag, clear_flag,
  users_with, clear_all, IsMap, TextOps, deduped,
}
use hanmir_talk.Prelude.{ltb}
use hanmir_talk.Auth.Login.{password_min_length}
use hanmir_talk.User.{
  User, Users, Department, Role, Bcrypt, CreateUser, create_user, set_password, find_user_by_email,
}

pub record Invitation : Type 0 where
  pub id : Ident
  pub email : String
  pub role : Role
  pub department_id : Ident
  pub token : Ident
  pub invited_by_id : Ident
  pub accepted_at : Option ℕ
  pub expires_at : ℕ
  pub created_at : ℕ

pub data InvitationStatus : Type 0 where
  accepted expired pending : InvitationStatus

-- A row as the repository answers it; the names are those that the accessors find.
pub record InvitationView : Type 0 where
  pub row : Invitation
  pub department_id : Option Ident
  pub department_name : Option String
  pub invited_by_name : Option String
  pub status : InvitationStatus

unfoldable pub status_of : ℕ → Invitation → InvitationStatus
status_of now r =
    if is_some r.accepted_at then accepted else if leb r.expires_at now then expired else pending

unfoldable pub to_view : (Ident → String) → (Ident → String) → ℕ → Invitation → InvitationView
to_view department_name user_name now r = record {
  row = r;
  department_id = given_id (some r.department_id);
  department_name = given (some (department_name r.department_id));
  invited_by_name = given (some (user_name r.invited_by_id));
  status = status_of now r;
}

abbrev pub invitation_id : Invitation → Ident
invitation_id r = r.id

abbrev pub invitation_token : Invitation → Ident
invitation_token r = r.token

-- The latest first.
unfoldable pub list :
    (Ident → String) → (Ident → String) → ℕ → List Invitation → List InvitationView
list department_name user_name now rows =
    map (to_view department_name user_name now) (sort (λ a b. leb b.created_at a.created_at) rows)

unfoldable pub find_by_token : Ident → List Invitation → Option Invitation
find_by_token token rows = find_by invitation_token token rows

unfoldable pub create_invitation :
    Ident
    → ℕ
    → String
    → Role
    → Ident
    → Ident
    → ℕ
    → Ident
    → List Invitation
    → List Invitation × Invitation
create_invitation id now email role department token expires by rows = (row ∷ rows, row)
  where
    row : Invitation
    row = record {
      id = id;
      email = email;
      role = role;
      department_id = department;
      token = token;
      invited_by_id = by;
      accepted_at = none;
      expires_at = expires;
      created_at = now;
    }

abbrev pub accepted_at_time : ℕ → Invitation → Invitation
accepted_at_time now r = record r { accepted_at = some now }

unfoldable pub mark_accepted : ℕ → Ident → List Invitation → List Invitation × Bool
mark_accepted now id rows = elim (find_by invitation_id id rows) [
  | none ↦ (rows, false)
  | some r ↦
      if is_some r.accepted_at
      then (rows, false)
      else (modify_by invitation_id id (accepted_at_time now) rows, true)
]

unfoldable pub delete_invitation : Ident → List Invitation → List Invitation × Bool
delete_invitation id rows = elim (find_by invitation_id id rows) [
  | none ↦ (rows, false)
  | some r ↦ (remove_by invitation_id id rows, true)
]

pub data Acceptance : Type 0 where
  name_required password_too_short invitation_not_found invitation_used : Acceptance
  invitation_expired department_unavailable email_already_registered : Acceptance
  joined : User → Acceptance

pub record Joining : Type 0 where
  pub invitations : List Invitation
  pub users : Users
  pub departments : List Department

-- What the route draws: the identifier of the user and the salts of the two hashes.
pub record Draws : Type 0 where
  pub user_id : Ident
  pub seed_hash : String
  pub salt : ℕ
  pub password_salt : ℕ

abbrev pub invited_user : String → Invitation → CreateUser
invited_user name r = record {
  name = name;
  email = r.email;
  department_id = r.department_id;
  position = "";
  role = r.role;
  phone = none;
  avatar_tone = none;
  initials = none;
  password = none;
}

-- The account of an invitation that was claimed.
unfoldable pub open_account :
    TextOps → Bcrypt → Draws → Invitation → String → String → Joining → Joining × Acceptance
open_account ops b d r name password s =
    (record s { users = set_password b d.password_salt made.1.id password made.0 }, joined made.1)
  where
    made : Users × User
    made =
        create_user ops b d.seed_hash d.salt d.user_id (invited_user name r) s.departments s.users

-- A row that was found by its token, when it is neither accepted nor expired.
unfoldable pub accept_row :
    TextOps → Bcrypt → Draws → ℕ → Invitation → String → String → Joining → Joining × Acceptance
accept_row ops b d now r name password s =
    if not (is_some (given_id (some r.department_id)))
    then (s, department_unavailable)
    else if is_some (find_user_by_email ops r.email s.users)
    then (s, email_already_registered)
    else if not (mark_accepted now r.id s.invitations).1
    then (s, invitation_used)
    else open_account ops b d r name password
        (record s { invitations = (mark_accepted now r.id s.invitations).0 })

unfoldable pub accept_invite :
    TextOps → Bcrypt → Draws → ℕ → Ident → String → String → Joining → Joining × Acceptance
accept_invite ops b d now token name password s =
    if not (is_some (given (some (ops.trim name))))
    then (s, name_required)
    else if ltb (ops.size password) password_min_length
    then (s, password_too_short)
    else (elim (find_by_token token s.invitations) [
      | none ↦ (s, invitation_not_found)
      | some r ↦ elim (status_of now r) [
        | accepted ↦ (s, invitation_used)
        | expired ↦ (s, invitation_expired)
        | pending ↦ accept_row ops b d now r (ops.trim name) password s
      ]
    ])
