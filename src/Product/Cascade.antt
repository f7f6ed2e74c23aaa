-- ===== src/Product/Cascade.antt =====
-- What deleting a product takes along (server/src/repositories/memory.ts).
use hanmir_talk.Prelude.{
  ℕ, ◌≡◌, refl, ◌≢◌, inl, inr, Bool, true, false, not, Option, none, List, [], ◌∷◌, arith, ◌==◌,
  if◌then◌else◌, Bool-cases, filter, has_by, Distinct, Ident, sort,
}
use hanmir_talk.Prelude.{find_by-remove_by}
use hanmir_talk.Product.{
  Products, ProductSpec, SalesEvent, DocumentLink, DocumentAccessors, product_key, find_product,
  delete_product, list_specs, list_sales_events, list_documents, is_listed,
}

module _ {A : Type 0} (f : A → ℕ) (wanted : A → Bool) where
  -- Of what is left without the key `i`, what is wanted of the key `j`.
  wanted-kept :
      (i j : ℕ) (xs : List A)
      → ((x : A) → f x ≢ j → wanted x ≡ false)
      → filter wanted (filter (λ x. not (f x == i)) xs) ≡ (if j == i then [] else filter wanted xs)
  wanted-kept i j [] h = ground arith
  wanted-kept i j (x ∷ xs) h = ground (arith, wanted-kept i j xs h, h x)

-- A product that is there is deleted with its specifications, sales events and documents; those of
-- every other product, and the product itself, are found as before. The identifiers of the
-- products are distinct.
pub delete_product-cascade :
    (acc : DocumentAccessors) (i j : Ident) (type : Option Ident) (s : Products)
    → has_by product_key i s.data_ ≡ true
    → Distinct product_key s.data_
    → (list_specs j (delete_product i s).0 ≡ (if j == i then [] else list_specs j s))
      × (list_sales_events j (delete_product i s).0
          ≡ (if j == i then [] else list_sales_events j s))
      × (list_documents acc j type (delete_product i s).0
          ≡ (if j == i then [] else list_documents acc j type s))
      × (find_product j (delete_product i s).0 ≡ (if j == i then none else find_product j s))
unfolding delete_product list_specs list_sales_events list_documents find_product sort
delete_product-cascade acc i j type s e d =
    let specs =
      wanted-kept (λ (x : ProductSpec). x.product_id) (λ x. x.product_id == j) i j s.specs
        (λ x n. ground (arith, n)) in
    let events =
      wanted-kept (λ (x : SalesEvent). x.product_id) (λ x. x.product_id == j) i j s.sales_events
        (λ x n. ground (arith, n)) in
    let links =
      wanted-kept (λ (x : DocumentLink). x.product_id) (is_listed j type) i j s.documents
        (λ x n. ground (arith, n)) in
    let gone = find_by-remove_by product_key j i s.data_ d in
    rw e (
      rw specs (
        rw events (
          rw links (elim (Bool-cases (j == i)) [
            | inl q ↦ simp q (refl, refl, refl, ground (arith, gone, q))
            | inr q ↦ simp q (refl, refl, refl, ground (arith, gone, q))
          ]))))
