-- ===== src/User.antt =====
-- MemoryUserRepository and MemoryDepartmentRepository (server/src/repositories/memory.ts).
-- The bcrypt functions and the text functions are parameters.
pub mod Accounts
use Prim.Native.String
use Prim.Native.String.{String}
use text.Mathlib.Text.{◌==◌ as str_eq}
use hanmir_talk.Prelude.{
  ℕ, zero, suc, ◌+◌, ◌-◌, ◌*◌, ◌≤◌, ◌<◌, ◌≡◌, refl, sym, ap, ◌∙◌, ◌≢◌, ◌⊎◌, inl, inr, Bool, true,
  false, not, ◌&&◌, ◌||◌, Option, none, some, List, [], ◌∷◌, ◌++◌, map, arith, ltb, leb, ◌==◌,
  if◌then◌else◌, Bool-cases, Option-cases, length, take, drop, All, find, any, filter, modify,
  remove, count, find_by, has_by, modify_by, remove_by, Fresh, Distinct, is_some, or_else,
  or_option, option_map, option_bind, Ident, given, given_id, sort, first, last, sum_of, max, min,
  lookup, insert, delete, member, add, drop_member, Flags, has_flag, set_flag, clear_flag,
  users_with, clear_all, IsMap, TextOps,
}

pub data Role : Type 0 where
  super_admin admin manager project_owner team_member : Role

pub data Presence : Type 0 where
  online away off : Presence

pub record User : Type 0 where
  pub id : Ident
  pub name : String
  pub email : String
  pub department_id : Ident
  pub department_name : String
  pub position : String
  pub role : Role
  pub avatar_tone : String
  pub initials : String
  pub phone : Option String
  pub presence : Option Presence
  pub is_active : Bool
  pub must_change_password : Bool

pub record Department : Type 0 where
  pub id : Ident
  pub name : String
  pub description : Option String
  pub is_active : Bool

-- `_data` and `passwords` of the user repository, and the departments.
pub record Users : Type 0 where
  pub data_ : List User
  pub passwords : List (Ident × String)

-- bcryptjs: `hashSync` with the salt that it draws, and `compareSync`, where `none` is a throw.
pub record Bcrypt : Type 0 where
  pub hash_sync : ℕ → String → String
  pub compare_sync : String → String → Option Bool
  -- A password matches its hash, which is not empty.
  pub compare-hash : (salt : ℕ) (p : String) → compare_sync p (hash_sync salt p) ≡ some true
  pub given-hash :
      (salt : ℕ) (p : String) → given (some (hash_sync salt p)) ≡ some (hash_sync salt p)

-- hashPassword (server/src/auth/password.ts)
abbrev pub hash_password : Bcrypt → ℕ → String → String
hash_password b salt plain = b.hash_sync salt plain

-- verifyPassword of the same file: nothing empty matches, and a throw is no match.
unfoldable pub matches_hash : Bcrypt → String → String → Bool
matches_hash b plain stored = elim (given (some plain)) [
  | none ↦ false
  | some p ↦ elim (given (some stored)) [
    | none ↦ false
    | some q ↦ or_else (b.compare_sync p q) false
  ]
]

abbrev pub user_by_id : Ident → List User → Option User
user_by_id = find_by (λ u. u.id)

abbrev pub department_by_id : Ident → List Department → Option Department
department_by_id = find_by (λ d. d.id)

-- The active departments.
unfoldable pub list_departments : List Department → List Department
list_departments = filter (λ d. d.is_active)

unfoldable pub name_by_id : Ident → List Department → String
name_by_id id ds = elim (department_by_id id ds) [ none ↦ "" | some d ↦ d.name ]

unfoldable pub create_department :
    Ident → String → Option String → List Department → List Department × Department
create_department id name description ds = (ds ++ dept ∷ [], dept)
  where
    dept : Department
    dept = record { id = id; name = name; description = description; is_active = true }

abbrev pub edit_department : Option String → Option String → Department → Department
edit_department name description d = record d {
  name = or_else name d.name;
  description = or_option description d.description;
}

unfoldable pub update_department :
    Ident → Option String → Option String → List Department → List Department × Option Department
update_department id name description ds = (
  modify_by (λ d. d.id) id (edit_department name description) ds,
  option_map (edit_department name description) (department_by_id id ds),
)

pub data Deletion : Type 0 where
  deleted not_found in_use : Deletion

-- `u.departmentId === id && u.isActive !== false`
abbrev pub works_in : Ident → User → Bool
works_in id u = u.department_id == id && u.is_active

unfoldable pub delete_department : List User → Ident → List Department → List Department × Deletion
delete_department users id ds = elim (department_by_id id ds) [
  | none ↦ (ds, not_found)
  | some d ↦
      if any (works_in id) users then (ds, in_use) else (remove_by (λ d. d.id) id ds, deleted)
]

unfoldable pub find_user_by_email : TextOps → String → Users → Option User
find_user_by_email ops email s =
    find (λ u. str_eq (ops.lower u.email) (ops.lower (ops.trim email))) s.data_

pub record CreateUser : Type 0 where
  pub name : String
  pub email : String
  pub department_id : Ident
  pub position : String
  pub role : Role
  pub phone : Option String
  pub avatar_tone : Option String
  pub initials : Option String
  pub password : Option String

-- `department?.name ?? ""`
abbrev pub department_name_of : Ident → List Department → String
department_name_of id ds = elim (department_by_id id ds) [ none ↦ "" | some d ↦ d.name ]

abbrev pub new_user : TextOps → Ident → CreateUser → List Department → User
new_user ops id input ds = record {
  id = id;
  name = input.name;
  email = input.email;
  department_id = input.department_id;
  department_name = department_name_of input.department_id ds;
  position = input.position;
  role = input.role;
  avatar_tone = or_else input.avatar_tone "default";
  initials = or_else input.initials (ops.prefix 2 input.name);
  phone = input.phone;
  presence = none;
  is_active = true;
  must_change_password = not (is_some (given input.password));
}

unfoldable pub create_user :
    TextOps → Bcrypt → String → ℕ → Ident → CreateUser → List Department → Users → Users × User
create_user ops b seed_hash salt id input ds s = (
  record {
    data_ = s.data_ ++ user ∷ [];
    passwords =
        insert id
          (elim (given input.password) [ none ↦ seed_hash | some p ↦ hash_password b salt p ])
          s.passwords;
  },
  user,
)
  where
    user : User
    user = new_user ops id input ds

pub record UpdateUser : Type 0 where
  pub name : Option String
  pub email : Option String
  pub position : Option String
  pub role : Option Role
  pub phone : Option String
  pub avatar_tone : Option String
  pub initials : Option String
  pub department_id : Option Ident

abbrev pub edit_user : UpdateUser → List Department → User → User
edit_user input ds u = record u {
  name = or_else input.name u.name;
  email = or_else input.email u.email;
  position = or_else input.position u.position;
  role = or_else input.role u.role;
  phone = or_option input.phone u.phone;
  avatar_tone = or_else input.avatar_tone u.avatar_tone;
  initials = or_else input.initials u.initials;
  department_id = or_else input.department_id u.department_id;
  department_name = elim input.department_id [
    | none ↦ u.department_name
    | some d ↦ department_name_of d ds
  ];
}

unfoldable pub update_user : Ident → UpdateUser → List Department → Users → Users × Option User
update_user id input ds s = (
  record s { data_ = modify_by (λ u. u.id) id (edit_user input ds) s.data_ },
  option_map (edit_user input ds) (user_by_id id s.data_),
)

abbrev pub deactivated : User → User
deactivated u = record u { is_active = false; presence = some off }

unfoldable pub deactivate : Ident → Users → Users × Option User
deactivate id s = (
  record s { data_ = modify_by (λ u. u.id) id deactivated s.data_ },
  option_map deactivated (user_by_id id s.data_),
)

-- An empty hash fails like a missing one.
unfoldable pub verify_password : Bcrypt → Ident → String → Users → Bool
verify_password b id plain s = elim (given (lookup id s.passwords)) [
  | none ↦ false
  | some stored ↦ matches_hash b plain stored
]

abbrev pub settled : User → User
settled u = record u { must_change_password = false }

unfoldable pub set_password : Bcrypt → ℕ → Ident → String → Users → Users
set_password b salt id plain s = record s {
  passwords = insert id (hash_password b salt plain) s.passwords;
  data_ = modify_by (λ u. u.id) id settled s.data_;
}
