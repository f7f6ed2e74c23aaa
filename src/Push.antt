-- ===== src/Push.antt =====
-- MemoryPushSubscriptionRepository (server/src/repositories/memory.ts): the browsers to which a
-- user's notifications are pushed.
pub mod Endpoints
use Prim.Native.String.{String}
use hanmir_talk.Prelude.{
  ℕ, zero, suc, ◌+◌, ◌-◌, ◌*◌, ◌≤◌, ◌<◌, ◌≡◌, refl, sym, ap, ◌∙◌, ◌≢◌, ◌⊎◌, inl, inr, Bool, true,
  false, not, ◌&&◌, ◌||◌, Option, none, some, List, [], ◌∷◌, ◌++◌, map, arith, ltb, leb, ◌==◌,
  if◌then◌else◌, Bool-cases, Option-cases, length, take, drop, All, find, any, filter, modify,
  remove, count, find_by, has_by, modify_by, remove_by, Fresh, Distinct, is_some, or_else,
  or_option, option_map, option_bind, Ident, given, given_id, sort, first, last, sum_of, max, min,
  lookup, insert, delete, member, add, drop_member, Flags, has_flag, set_flag, clear_flag,
  users_with, clear_all, IsMap, TextOps, deduped,
}

pub record Subscription : Type 0 where
  pub id : Ident
  pub user_id : Ident
  pub endpoint : Ident
  pub p256dh : String
  pub auth : String
  pub user_agent : Option String
  pub created_at : ℕ

-- CreatePushSubscriptionInput; an endpoint is compared only.
pub record SubscriptionInput : Type 0 where
  pub user_id : Ident
  pub endpoint : Ident
  pub p256dh : String
  pub auth : String
  pub user_agent : Option String

abbrev pub is_at : Ident → Ident → Subscription → Bool
is_at user endpoint r = r.user_id == user && r.endpoint == endpoint

abbrev pub rotated : SubscriptionInput → Subscription → Subscription
rotated input r = record r {
  p256dh = input.p256dh;
  auth = input.auth;
  user_agent = input.user_agent;
}

abbrev pub subscription_of : Ident → ℕ → SubscriptionInput → Subscription
subscription_of id now input = record {
  id = id;
  user_id = input.user_id;
  endpoint = input.endpoint;
  p256dh = input.p256dh;
  auth = input.auth;
  user_agent = input.user_agent;
  created_at = now;
}

unfoldable pub upsert :
    Ident → ℕ → SubscriptionInput → List Subscription → List Subscription × Subscription
upsert id now input rows = elim (find (is_at input.user_id input.endpoint) rows) [
  | some r ↦ (modify (is_at input.user_id input.endpoint) (rotated input) rows, rotated input r)
  | none ↦ (rows ++ subscription_of id now input ∷ [], subscription_of id now input)
]

unfoldable list_subscriptions : Ident → List Subscription → List Subscription
list_subscriptions user = filter (λ (r : Subscription). r.user_id == user)

unfoldable pub delete_subscription : Ident → List Subscription → List Subscription × Bool
delete_subscription id rows =
    (remove_by (λ (r : Subscription). r.id) id rows, has_by (λ (r : Subscription). r.id) id rows)

unfoldable pub delete_by_endpoint : Ident → Ident → List Subscription → List Subscription × Bool
delete_by_endpoint user endpoint rows =
    (remove (is_at user endpoint) rows, any (is_at user endpoint) rows)
