-- ===== src/Push/Endpoints.antt =====
-- One row for each user and endpoint (server/src/repositories/memory.ts).
use hanmir_talk.Prelude.{
  ℕ, ◌+◌, ◌≤◌, ◌≡◌, refl, sym, ap, ◌∙◌, inl, inr, Bool, none, List, [], ◌∷◌, ◌++◌, arith, ◌==◌,
  if◌then◌else◌, Bool-cases, Option-cases, find, modify, remove, count, Ident,
}
use hanmir_talk.Push.{
  Subscription, SubscriptionInput, is_at, rotated, subscription_of, upsert, delete_subscription,
  delete_by_endpoint,
}

-- How many rows a user has for an endpoint.
abbrev at_endpoint : Ident → Ident → List Subscription → ℕ
at_endpoint user endpoint = count (is_at user endpoint)

-- Nothing is pushed twice to one endpoint of a user.
abbrev IsSingle : List Subscription → Type 0
IsSingle rows = (user endpoint : Ident) → at_endpoint user endpoint rows ≤ 1

at_endpoint-rotated :
    (user endpoint : Ident) (input : SubscriptionInput) (rows : List Subscription)
    → at_endpoint user endpoint (modify (is_at input.user_id input.endpoint) (rotated input) rows)
      ≡ at_endpoint user endpoint rows
at_endpoint-rotated user endpoint input [] = refl
at_endpoint-rotated user endpoint input (r ∷ rows) =
    ground (arith, at_endpoint-rotated user endpoint input rows)

at_endpoint-push :
    (user endpoint : Ident) (r : Subscription) (rows : List Subscription)
    → at_endpoint user endpoint (rows ++ r ∷ [])
      ≡ at_endpoint user endpoint rows + (if is_at user endpoint r then 1 else 0)
at_endpoint-push user endpoint r [] = ground arith
at_endpoint-push user endpoint r (x ∷ rows) = ground (arith, at_endpoint-push user endpoint r rows)

at_endpoint-none :
    (user endpoint : Ident) (rows : List Subscription)
    → find (is_at user endpoint) rows ≡ none
    → at_endpoint user endpoint rows ≡ 0
at_endpoint-none user endpoint [] e = refl
at_endpoint-none user endpoint (r ∷ rows) e = ground (arith, e, at_endpoint-none user endpoint rows)

at_endpoint-remove :
    (p : Subscription → Bool) (user endpoint : Ident) (rows : List Subscription)
    → at_endpoint user endpoint (remove p rows) ≤ at_endpoint user endpoint rows
at_endpoint-remove p user endpoint [] = omega arith
at_endpoint-remove p user endpoint (r ∷ rows) =
    ground (arith, at_endpoint-remove p user endpoint rows)

upsert-IsSingle :
    (id : Ident) (now : ℕ) (input : SubscriptionInput) (rows : List Subscription)
    → IsSingle rows
    → IsSingle (upsert id now input rows).0
unfolding upsert
upsert-IsSingle id now input rows h user endpoint =
    elim (Option-cases (find (is_at input.user_id input.endpoint) rows)) [
      | inl e ↦
          rw (e, upsert)
            (rw (at_endpoint-push user endpoint (subscription_of id now input) rows)
              (elim (Bool-cases (is_at user endpoint (subscription_of id now input))) [
                | inl q ↦
                    let mine : input.user_id ≡ user = ground (arith, q) in
                    let there : input.endpoint ≡ endpoint = ground (arith, q) in
                    let absent = at_endpoint-none input.user_id input.endpoint rows e in
                    let alone : at_endpoint user endpoint rows ≡ 0 =
                      ap (λ k. at_endpoint k endpoint rows) (sym mine)
                      ∙ ap (λ k. at_endpoint input.user_id k rows) (sym there)
                      ∙ absent in
                    rw q (rw alone (omega arith))
                | inr q ↦ rw q (ground (arith, h user endpoint))
              ]))
      | inr (r, e) ↦
          rw (e, upsert) (rw (at_endpoint-rotated user endpoint input rows) (h user endpoint))
    ]

-- When a user has at most one row for an endpoint, this stays so when a subscription is made or
-- its keys are renewed, and when one is deleted by its identifier or by its endpoint.
subscriptions-IsSingle :
    (rows : List Subscription)
    → IsSingle rows
    → ((id : Ident) (now : ℕ) (input : SubscriptionInput) → IsSingle (upsert id now input rows).0)
      × ((id : Ident) → IsSingle (delete_subscription id rows).0)
      × ((user endpoint : Ident) → IsSingle (delete_by_endpoint user endpoint rows).0)
unfolding delete_subscription delete_by_endpoint
subscriptions-IsSingle rows h = (
  (λ id now input. upsert-IsSingle id now input rows h),
  (λ id user endpoint.
      ground (arith, at_endpoint-remove (λ r. r.id == id) user endpoint rows, h user endpoint)),
  (λ u p user endpoint.
      ground (arith, at_endpoint-remove (is_at u p) user endpoint rows, h user endpoint)),
)
