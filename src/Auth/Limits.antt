-- ===== src/Auth/Limits.antt =====
-- What the counters of attempts to log in promise (server/src/routes/auth.ts).
use hanmir_talk.Prelude.{
  ℕ, suc, ◌+◌, ◌-◌, ◌<◌, ◌≡◌, refl, ◌∙◌, ◌≢◌, inl, inr, true, some, List, [], ◌∷◌, arith, ltb, leb,
  ◌==◌, if◌then◌else◌, Bool-cases, Option-cases, length, All, filter, or_else, option_map, Ident,
  max, min, lookup, insert,
}
use hanmir_talk.Prelude.{lookup-insert}
use hanmir_talk.Auth.Login.{
  Bucket, Attempts, login_window, bump_login_counter, check_login_rate, pruned, max_per_ip,
  max_per_account,
}

-- The number of attempts at the given times that one counter lets through.
abbrev pub admitted : Ident → ℕ → List ℕ → Attempts → ℕ
admitted key max [] m = 0
admitted key max (now ∷ times) m =
    (if (bump_login_counter key max now m).1 then 1 else 0)
    + admitted key max times (bump_login_counter key max now m).0

bump-counted :
    (key max now n t : ℕ) (m : Attempts)
    → lookup key m ≡ some (record { tries = n; reset_at = t })
    → now < t
    → ((bump_login_counter key max now m).1 ≡ leb (suc n) max)
      × (lookup key (bump_login_counter key max now m).0
          ≡ some (record { tries = suc n; reset_at = t }))
unfolding bump_login_counter
bump-counted key max now n t m e h =
    rw (e, bump_login_counter)
      (ground (arith, lookup-insert key key (record { tries = suc n; reset_at = t }) m))

counted-admitted :
    (key max n t : ℕ) (times : List ℕ) (m : Attempts)
    → lookup key m ≡ some (record { tries = n; reset_at = t })
    → All (λ s. s < t) times
    → admitted key max times m ≡ min (length times) (max - n)
counted-admitted key max n t [] m e h = ground arith
counted-admitted key max n t (now ∷ times) m e h =
    let b = bump-counted key max now n t m e h.0 in
    rw (b.0, counted-admitted key max (suc n) t times (bump_login_counter key max now m).0 b.1 h.1)
      (ground arith)

bump-started :
    (key max now : ℕ) (m : Attempts)
    → or_else (option_map (λ (b : Bucket). leb b.reset_at now) (lookup key m)) true ≡ true
    → bump_login_counter key max now m
      ≡ (insert key (record { tries = 1; reset_at = now + login_window }) m, true)
unfolding bump_login_counter
bump-started key max now m o = elim (Option-cases (lookup key m)) [
  | inl n ↦ rw (n, bump_login_counter) refl
  | inr (b, n) ↦
      let q : leb b.reset_at now ≡ true = ground (arith, n) in rw (n, bump_login_counter, q) refl
]

-- A counter of a positive maximum that starts a window, having no bucket or one that is over, lets
-- through, of that attempt and those that follow in the window, its maximum and no more.
pub bump_login_counter-limit :
    (key max now : ℕ) (times : List ℕ) (m : Attempts)
    → max ≢ 0
    → or_else (option_map (λ (b : Bucket). leb b.reset_at now) (lookup key m)) true ≡ true
    → All (λ s. s < now + login_window) times
    → admitted key max (now ∷ times) m ≡ min (suc (length times)) max
bump_login_counter-limit key max now times m z o h =
    let started : Attempts = insert key (record { tries = 1; reset_at = now + login_window }) m in
    let l = lookup-insert key key (record { tries = 1; reset_at = now + login_window }) m in
    rw
      (
        bump-started key max now m o,
        counted-admitted key max 1 (now + login_window) times started (ground (arith, l)) h,
      )
      (ground arith)

-- A counter whose window is not over has counted fewer attempts than the maximum.
abbrev pub Below : Ident → ℕ → ℕ → Attempts → Type 0
Below key max now m = (b : Bucket) → lookup key m ≡ some b → now < b.reset_at → b.tries < max

lookup-kept :
    (key now : ℕ) (m : Attempts) (b : Bucket)
    → lookup key m ≡ some b
    → now < b.reset_at
    → lookup key (filter (λ (e : Ident × Bucket). ltb now e.1.reset_at) m) ≡ some b
unfolding lookup
lookup-kept key now [] b e h = absurd (ground (arith, e))
lookup-kept key now ((k, c) ∷ m) b e h = elim (Bool-cases (k == key)) [
  | inl q ↦ let same : c ≡ b = ground (arith, e, q) in rw same (ground (arith, q, h))
  | inr q ↦ ground (arith, q, lookup-kept key now m b (rw q at e) h)
]

lookup-pruned :
    (key now : ℕ) (m : Attempts) (b : Bucket)
    → lookup key m ≡ some b
    → now < b.reset_at
    → lookup key (pruned now m) ≡ some b
lookup-pruned key now m b e h = elim (Bool-cases (ltb 10000 (length m))) [
  | inl q ↦ rw q (lookup-kept key now m b e h)
  | inr q ↦ rw q e
]

bump-Below :
    (key max now : ℕ) (m : Attempts)
    → (bump_login_counter key max now m).1 ≡ true
    → Below key max now m
unfolding bump_login_counter
bump-Below key max now m e b f h = ground (arith, f, e, h)

bump-others :
    (key max now other : ℕ) (m : Attempts)
    → key ≢ other
    → lookup other (bump_login_counter key max now m).0 ≡ lookup other m
unfolding bump_login_counter
bump-others key max now other m n = elim (Option-cases (lookup key m)) [
  | inl e ↦
      rw (e, bump_login_counter)
        (ground (
          arith,
          n,
          lookup-insert other key (record { tries = 1; reset_at = now + login_window }) m,
        ))
  | inr (b, e) ↦ elim (Bool-cases (leb b.reset_at now)) [
    | inl q ↦
        rw (e, bump_login_counter)
          (rw q (
            ground (
              arith,
              n,
              lookup-insert other key (record { tries = 1; reset_at = now + login_window }) m,
            )))
    | inr q ↦
        rw (e, bump_login_counter)
          (rw q (ground (arith, n, lookup-insert other key (record b { tries = suc b.tries }) m)))
  ]
]

pub rate-Below :
    (ip account now : ℕ) (m : Attempts)
    → ip ≢ account
    → (check_login_rate ip account now m).1 ≡ true
    → Below ip 30 now m × Below account 5 now m
unfolding check_login_rate
rate-Below ip account now m n e =
    let counted = bump_login_counter ip max_per_ip now (pruned now m) in
    let first_ok : counted.1 ≡ true = ground (arith, e) in
    let then_ok : (bump_login_counter account max_per_account now counted.0).1 ≡ true =
      ground (arith, e) in
    (
      (λ b f h. bump-Below ip 30 now (pruned now m) first_ok b (lookup-pruned ip now m b f h) h),
      (λ b f h.
          bump-Below account 5 now counted.0 then_ok b
            (bump-others ip max_per_ip now account (pruned now m) n
              ∙ lookup-pruned account now m b f h)
            h),
    )
