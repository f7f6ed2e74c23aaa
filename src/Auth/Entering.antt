-- ===== src/Auth/Entering.antt =====
-- What is so of whoever is let in by `/login` (server/src/routes/auth.ts), and when it lets in.
use Prim.Native.String.{String}
use text.Mathlib.Text.{◌==◌ as str_eq}
use hanmir_talk.Prelude.{
  ℕ, ◌+◌, ◌-◌, ◌≡◌, refl, sym, ◌≢◌, inl, inr, Bool, true, false, none, some, List, [], ◌∷◌, arith,
  ltb, ◌==◌, if◌then◌else◌, Bool-cases, Option-cases, find, Fresh, Distinct, Ident, given, lookup,
  TextOps,
}
use hanmir_talk.Prelude.{find-holds, All-find_by, find_by-push}
use hanmir_talk.User.{
  User, Users, Bcrypt, verify_password, matches_hash, find_user_by_email, user_by_id,
}
use hanmir_talk.Auth.{
  Auth, Drawn, issue_session_for, issue_refresh, new_refresh, is_usable, resolve_session,
  resolve_refresh, token_hash_of, token_ttl, refresh_ttl,
}
use hanmir_talk.Auth.Rotation.{issue_session-resolve, resolve-find}
use hanmir_talk.Auth.Limits.{Below, rate-Below}
use hanmir_talk.Auth.Login.{
  is_blank, check_login_rate, Lookup, email, identifier, looked_up, granted, LoginState, login,
}

-- What was typed names the user.
abbrev pub Names : TextOps → Lookup → User → Type 0
Names ops (email e) u = str_eq (ops.lower u.email) (ops.lower (ops.trim e)) ≡ true
Names ops (identifier id) u = u.id ≡ id

-- The password matches the stored hash, by the library.
abbrev pub Knows : Bcrypt → Ident → String → Users → Type 0
Knows bcrypt id password s =
    (h : String) × (lookup id s.passwords ≡ some h) × (bcrypt.compare_sync password h ≡ some true)

given-same : (s q : String) → given (some s) ≡ some q → s ≡ q
given-same String.[] q e = absurd (ground (arith, e))
given-same (String.◌∷◌ c s) q e = ground (arith, e)

verify_password-Knows :
    (bcrypt : Bcrypt) (id : Ident) (password : String) (s : Users)
    → verify_password bcrypt id password s ≡ true
    → Knows bcrypt id password s
unfolding verify_password matches_hash
verify_password-Knows bcrypt id password s e = elim (Option-cases (lookup id s.passwords)) [
  | inl n ↦ absurd (ground (arith, e, n))
  | inr (h, n) ↦ elim (Option-cases (given (some h))) [
    | inl g ↦ absurd (ground (arith, e, n, g))
    | inr (q, g) ↦ elim (Option-cases (given (some password))) [
      | inl k ↦ absurd (ground (arith, e, n, g, k))
      | inr (p, k) ↦ elim (Option-cases (bcrypt.compare_sync p q)) [
        | inl c ↦ absurd (ground (arith, e, n, g, k, c))
        | inr (b, c) ↦
            (h, n, ground (arith, e, n, g, k, c, given-same h q g, given-same password p k))
      ]
    ]
  ]
]

looked_up-Names :
    (ops : TextOps) (typed : Lookup) (s : Users) (u : User)
    → looked_up ops typed s ≡ some u
    → Names ops typed u
unfolding looked_up find_user_by_email
looked_up-Names ops (email e) s u h =
    find-holds (λ (v : User). str_eq (ops.lower v.email) (ops.lower (ops.trim e))) s.data_ u h
looked_up-Names ops (identifier id) s u h =
    ground (arith, find-holds (λ (v : User). v.id == id) s.data_ u h)

login-branch :
    (ops : TextOps) (bcrypt : Bcrypt) (hash : ℕ → ℕ) (d : Drawn) (now : ℕ) (ip account : Ident)
    (typed : Lookup) (password : String) (s : LoginState) (u : User)
    → (login ops bcrypt hash d now ip account typed password s).1 ≡ granted u
    → ((check_login_rate ip account now s.attempts).1 ≡ true)
      × (looked_up ops typed s.users ≡ some u)
      × (u.is_active ≡ true)
      × (verify_password bcrypt u.id password s.users ≡ true)
      × ((login ops bcrypt hash d now ip account typed password s).0.auth
          ≡ issue_session_for hash d now u.id s.auth)
unfolding login
login-branch ops bcrypt hash d now ip account typed password s u h =
    elim (Bool-cases (is_blank typed)) [
      | inl b ↦ absurd (ground (arith, b))
      | inr b ↦ elim (Bool-cases (check_login_rate ip account now s.attempts).1) [
        | inr r ↦ absurd (ground (arith, b, r))
        | inl r ↦ elim (Option-cases (looked_up ops typed s.users)) [
          | inl n ↦ absurd (ground (arith, b, r, n))
          | inr (v, n) ↦ elim (Bool-cases v.is_active) [
            | inr a ↦ absurd (ground (arith, b, r, n, a))
            | inl a ↦ elim (Bool-cases (verify_password bcrypt v.id password s.users)) [
              | inr p ↦ absurd (ground (arith, b, r, n, a, p))
              | inl p ↦
                  let q : v ≡ u = ground (arith, b, r, n, a, p) in
                  rw (← q) (r, n, a, p, ground (arith, b, r, n, a, p))
            ]
          ]
        ]
      ]
    ]

find-found :
    (p : User → Bool) (xs : List User) (u : User)
    → Distinct (λ (v : User). v.id) xs
    → find p xs ≡ some u
    → user_by_id u.id xs ≡ some u
find-found p [] u d e = absurd (ground (arith, e))
find-found p (x ∷ xs) u d e = elim (Bool-cases (p x)) [
  | inl q ↦ let same : x ≡ u = ground (arith, e, q) in rw (← same) (ground arith)
  | inr q ↦
      let behind = find-found p xs u d.1 (rw q at e) in
      let apart : x.id ≢ u.id =
        λ k. All-find_by (λ (v : User). v.id) (λ v. v.id ≢ x.id) u.id xs d.0 behind (sym k) in
      ground (arith, behind, apart)
]

looked_up-found :
    (ops : TextOps) (typed : Lookup) (s : Users) (u : User)
    → Distinct (λ (v : User). v.id) s.data_
    → looked_up ops typed s ≡ some u
    → user_by_id u.id s.data_ ≡ some u
unfolding looked_up find_user_by_email
looked_up-found ops (email e) s u d h =
    find-found (λ (v : User). str_eq (ops.lower v.email) (ops.lower (ops.trim e))) s.data_ u d h
looked_up-found ops (identifier id) s u d h = find-found (λ (v : User). v.id == id) s.data_ u d h

-- The session and the refresh row that are made for a user.
issued-resolve :
    (hash : ℕ → ℕ) (d : Drawn) (now later : ℕ) (user : Ident) (s : Auth)
    → d.access ≢ 0
    → d.refresh ≢ 0
    → Fresh token_hash_of (hash d.refresh) s.refresh
    → ((resolve_session later (some d.access) (issue_session_for hash d now user s).sessions).1 ≡ (
        if ltb token_ttl (later - now)
        then none
        else some (record { token = d.access; user_id = user; created_at = now })))
      × (resolve_refresh hash later d.refresh (issue_session_for hash d now user s).refresh ≡ (
          if ltb later (now + refresh_ttl)
          then some (record {
            id = d.row_id;
            user_id = user;
            token_hash = hash d.refresh;
            expires_at = now + refresh_ttl;
            revoked_at = none;
          })
          else none))
unfolding issue_session_for issue_refresh new_refresh is_usable
issued-resolve hash d now later user s a r f = (
  ground (arith, issue_session-resolve d.access user d.access now later s.sessions a),
  resolve-find hash later d.refresh _ (new_refresh hash d.refresh d.row_id now user) r (
      ground (
        arith,
        find_by-push token_hash_of (hash d.refresh) (new_refresh hash d.refresh d.row_id now user)
            s.refresh f,
      )),
)

-- Who is let in is an account of the store, active, and the one that what was typed names; the
-- password matches the hash of that account; the counters of the address and of the account, if
-- their windows were not over, had counted less than 30 and 5 attempts. The new access token is that
-- user's for its hour and the new refresh token for its 30 days, at every later time. Accounts have
-- distinct identifiers, the two counters different keys, and the tokens drawn are not empty and, the
-- refresh token's hash, not in use.
pub login-granted :
    (ops : TextOps) (bcrypt : Bcrypt) (hash : ℕ → ℕ) (d : Drawn) (now later : ℕ)
    (ip account : Ident) (typed : Lookup) (password : String) (s : LoginState) (u : User)
    → Distinct (λ (v : User). v.id) s.users.data_
    → ip ≢ account
    → d.access ≢ 0
    → d.refresh ≢ 0
    → Fresh token_hash_of (hash d.refresh) s.auth.refresh
    → (login ops bcrypt hash d now ip account typed password s).1 ≡ granted u
    → (user_by_id u.id s.users.data_ ≡ some u)
      × (u.is_active ≡ true)
      × Names ops typed u
      × Knows bcrypt u.id password s.users
      × Below ip 30 now s.attempts
      × Below account 5 now s.attempts
      × ((resolve_session later
            (some d.access)
            (login ops bcrypt hash d now ip account typed password s).0.auth.sessions).1
          ≡ (if ltb token_ttl (later - now)
              then none
              else some (record { token = d.access; user_id = u.id; created_at = now })))
      × (resolve_refresh hash later d.refresh
            (login ops bcrypt hash d now ip account typed password s).0.auth.refresh
          ≡ (if ltb later (now + refresh_ttl)
              then some (record {
                id = d.row_id;
                user_id = u.id;
                token_hash = hash d.refresh;
                expires_at = now + refresh_ttl;
                revoked_at = none;
              })
              else none))
login-granted ops bcrypt hash d now later ip account typed password s u ids n a r f h =
    let b = login-branch ops bcrypt hash d now ip account typed password s u h in
    let below = rate-Below ip account now s.attempts n b.0 in
    let issued = issued-resolve hash d now later u.id s.auth a r f in
    (
      looked_up-found ops typed s.users u ids b.1,
      b.2,
      looked_up-Names ops typed s.users u b.1,
      verify_password-Knows bcrypt u.id password s.users b.3,
      below.0,
      below.1,
      rw b.4 issued.0,
      rw b.4 issued.1,
    )

-- Who comes with what names an active account, and its password, is let in while the counters allow.
pub login-admits :
    (ops : TextOps) (bcrypt : Bcrypt) (hash : ℕ → ℕ) (d : Drawn) (now : ℕ) (ip account : Ident)
    (typed : Lookup) (password : String) (s : LoginState) (u : User)
    → is_blank typed ≡ false
    → (check_login_rate ip account now s.attempts).1 ≡ true
    → looked_up ops typed s.users ≡ some u
    → u.is_active ≡ true
    → verify_password bcrypt u.id password s.users ≡ true
    → (login ops bcrypt hash d now ip account typed password s).1 ≡ granted u
unfolding login
login-admits ops bcrypt hash d now ip account typed password s u b r l a v =
    rw b (rw r (rw (l, login) (rw a (rw v refl))))
