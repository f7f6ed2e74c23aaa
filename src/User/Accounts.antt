-- ===== src/User/Accounts.antt =====
-- Passwords, and the departments that users work in (server/src/repositories/memory.ts).
use Prim.Native.String.{String}
use hanmir_talk.Prelude.{
  ℕ, ◌≡◌, refl, ◌∙◌, ◌≢◌, inl, inr, true, false, none, some, List, [], ◌∷◌, arith, ◌==◌,
  if◌then◌else◌, Bool-cases, Option-cases, All, any, Fresh, Distinct, option_map, Ident, given,
  insert, TextOps,
}
use hanmir_talk.Prelude.{find_by-modify_by, find_by-remove_by, lookup-insert, find_by-push}
use hanmir_talk.User.{
  User, Users, Department, Bcrypt, CreateUser, Deletion, deleted, not_found, in_use, user_by_id,
  department_by_id, works_in, settled, new_user, hash_password, matches_hash, create_user,
  verify_password, set_password, delete_department,
}

matches_hash-hash :
    (b : Bcrypt) (salt : ℕ) (p : String)
    → given (some p) ≡ some p
    → matches_hash b p (hash_password b salt p) ≡ true
unfolding matches_hash
matches_hash-hash b salt p h = ground (arith, b.given-hash salt p, b.compare-hash salt p)

-- After a password is set to one that is not empty, it verifies for the user, as any other password
-- does only if it matches its hash; of the user, only the mark that the password must be changed is
-- taken off; the passwords and the accounts of others are as before.
pub verify_password-set_password :
    (b : Bcrypt) (salt : ℕ) (id j : Ident) (plain p : String) (s : Users)
    → given (some plain) ≡ some plain
    → (verify_password b id plain (set_password b salt id plain s) ≡ true)
      × (verify_password b j p (set_password b salt id plain s) ≡ (
          if id == j
          then matches_hash b p (hash_password b salt plain)
          else verify_password b j p s))
      × (user_by_id j (set_password b salt id plain s).data_ ≡ (
          if id == j
          then option_map
              (λ (u : User). record u { must_change_password = false })
              (user_by_id j s.data_)
          else user_by_id j s.data_))
unfolding verify_password set_password
verify_password-set_password b salt id j plain p s h = (
  ground (
    arith,
    lookup-insert id id (hash_password b salt plain) s.passwords,
    b.given-hash salt plain,
    matches_hash-hash b salt plain h,
  ),
  ground
      (arith, lookup-insert j id (hash_password b salt plain) s.passwords, b.given-hash salt plain),
  ground (arith, find_by-modify_by (λ (u : User). u.id) j id settled s.data_ (λ a. refl)),
)

verify-inserted :
    (b : Bcrypt) (id : Ident) (p h : String) (us : List User) (m : List (Ident × String))
    → given (some h) ≡ some h
    → verify_password b id p (record { data_ = us; passwords = insert id h m }) ≡ matches_hash b p h
unfolding verify_password
verify-inserted b id p h us m g = ground (arith, g, lookup-insert id id h m)

-- A user who is created under a fresh identifier with a password that is not empty is found, and
-- that password verifies and need not be changed.
create_user-login :
    (ops : TextOps) (b : Bcrypt) (seed_hash : String) (salt : ℕ) (id : Ident) (input : CreateUser)
    (ds : List Department) (s : Users) (p : String)
    → Fresh (λ u. u.id) id s.data_
    → given input.password ≡ some p
    → given (some p) ≡ some p
    → (user_by_id id (create_user ops b seed_hash salt id input ds s).0.data_
        ≡ some (new_user ops id input ds))
      × (verify_password b id p (create_user ops b seed_hash salt id input ds s).0 ≡ true)
      × ((new_user ops id input ds).must_change_password ≡ false)
unfolding create_user verify_password
create_user-login ops b seed_hash salt id input ds s p f e h = (
  ground (arith, find_by-push (λ (u : User). u.id) id (new_user ops id input ds) s.data_ f),
  rw e (
      verify-inserted b id p _ s.data_ s.passwords (b.given-hash salt p)
      ∙ matches_hash-hash b salt p h),
  ground (arith, e),
)

-- A user who is created under a fresh identifier without a password is found, and passwords verify
-- by the seed hash and must be changed.
create_user-seeded :
    (ops : TextOps) (b : Bcrypt) (seed_hash : String) (salt : ℕ) (id : Ident) (input : CreateUser)
    (ds : List Department) (s : Users) (p : String)
    → Fresh (λ u. u.id) id s.data_
    → given (some seed_hash) ≡ some seed_hash
    → given input.password ≡ none
    → (user_by_id id (create_user ops b seed_hash salt id input ds s).0.data_
        ≡ some (new_user ops id input ds))
      × (verify_password b id p (create_user ops b seed_hash salt id input ds s).0
          ≡ matches_hash b p seed_hash)
      × ((new_user ops id input ds).must_change_password ≡ true)
unfolding create_user verify_password
create_user-seeded ops b seed_hash salt id input ds s p f g e = (
  ground (arith, find_by-push (λ (u : User). u.id) id (new_user ops id input ds) s.data_ f),
  rw e (verify-inserted b id p seed_hash s.data_ s.passwords g),
  ground (arith, e),
)

-- Every active user works in a department that exists.
abbrev pub IsPlaced : List Department → List User → Type 0
IsPlaced ds users = All (λ u. u.is_active ≡ true → department_by_id u.department_id ds ≢ none) users

-- What deletion answers and does.
abbrev pub DeletesOnly : List User → Ident → List Department → List Department × Deletion → Type 0
DeletesOnly users id ds (ds', not_found) = (ds' ≡ ds) × (department_by_id id ds ≡ none)
DeletesOnly users id ds (ds', in_use) = (ds' ≡ ds) × (any (works_in id) users ≡ true)
DeletesOnly users id ds (ds', deleted) =
    (any (works_in id) users ≡ false)
    × ((j : Ident) → department_by_id j ds' ≡ (if id == j then none else department_by_id j ds))

-- Of departments with distinct identifiers, an unknown one and one in which an active user works are
-- left alone, and any other goes and no other department does.
pub delete_department-DeletesOnly :
    (users : List User) (id : Ident) (ds : List Department)
    → Distinct (λ d. d.id) ds
    → DeletesOnly users id ds (delete_department users id ds)
unfolding delete_department
delete_department-DeletesOnly users id ds d = elim (Option-cases (department_by_id id ds)) [
  | inl e ↦ rw (e, delete_department) (refl, e)
  | inr (x, e) ↦ elim (Bool-cases (any (works_in id) users)) [
    | inl b ↦ rw (e, delete_department, b) (refl, b)
    | inr b ↦
        rw (e, delete_department, b)
          (b, λ j. find_by-remove_by (λ (y : Department). y.id) j id ds d)
  ]
]

still-IsPlaced :
    (id : Ident) (ds ds' : List Department) (users : List User)
    → any (works_in id) users ≡ false
    → ((j : Ident) → department_by_id j ds' ≡ (if id == j then none else department_by_id j ds))
    → IsPlaced ds users
    → IsPlaced ds' users
still-IsPlaced id ds ds' [] n h p = tt
still-IsPlaced id ds ds' (u ∷ us) n h p = (
  (λ a. ground (arith, h u.department_id, a, p.0 a, n)),
  still-IsPlaced id ds ds' us (ground arith) h p.1,
)

-- Where departments have distinct identifiers and every active user works in one, deleting a
-- department leaves no active user without one.
pub delete_department-IsPlaced :
    (users : List User) (id : Ident) (ds : List Department)
    → Distinct (λ d. d.id) ds
    → IsPlaced ds users
    → IsPlaced (delete_department users id ds).0 users
unfolding delete_department
delete_department-IsPlaced users id ds d p = elim (Option-cases (department_by_id id ds)) [
  | inl e ↦ rw (e, delete_department) p
  | inr (x, e) ↦ elim (Bool-cases (any (works_in id) users)) [
    | inl b ↦ rw (e, delete_department, b) p
    | inr b ↦
        rw (e, delete_department, b)
          (still-IsPlaced id ds _ users b
            (λ j. find_by-remove_by (λ (y : Department). y.id) j id ds d) p)
  ]
]
