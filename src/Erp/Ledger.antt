-- ===== src/Erp/Ledger.antt =====
-- The ledger of MemoryErpRepository (server/src/repositories/memory.ts): how far a
-- balance, which is rounded at every change, is from the sum of its movements.
use Prim.Native.String.{String}
use hanmir_talk.Prelude.{
  ℕ, ◌+◌, ◌≡◌, refl, inl, inr, Bool, ◌&&◌, Option, List, [], ◌∷◌, ◌++◌, arith, ◌==◌, if◌then◌else◌,
  Bool-cases, Option-cases, find_by, has_by, Ident,
}
use hanmir_talk.Erp.{
  Erp, Quantity, Transaction, from_document, Line, VariantInput, VariantPatch, AdjustmentRow,
  create_variant, update_variant, create_warehouse, update_warehouse, import_row, import_inventory,
  import_entry, variant_id_of, warehouse_id_of, available_qty, post,
}
use hanmir_talk.Prelude.{not, true, false}
use hanmir_talk.Erp.{round2, plus}
use hanmir_talk.Erp.Rounding.{
  is_whole, IsWhole, Within, round2-IsWhole, round2-Within, available_qty-change,
}
use hanmir_talk.Erp.Documents.{
  DocumentInput, Prepared, CreateResult, target, take_out, put_back, negated, out_entry,
  cancel_entry, line_target, create_document, cancel_document, commit_document, find_document_by_id,
}
use hanmir_talk.Erp.Creation.{Creation, refuses, commits, create_document-Creation}

-- An entry of a document takes out of the balance, any other one adds its quantity.
abbrev movement : Transaction → Quantity
movement t = elim t.source [ from_document _ ↦ negated t.quantity | _ ↦ t.quantity ]

abbrev moves_at : Ident → Ident → Transaction → Bool
moves_at variant warehouse t = t.variant_id == variant && t.warehouse_id == warehouse

-- What the entries of a variant and a warehouse add, and what they take away.
unfoldable pub ups : Ident → Ident → List Transaction → ℕ
ups v w [] = 0
ups v w (t ∷ ts) = (if moves_at v w t then (movement t).up else 0) + ups v w ts

unfoldable pub downs : Ident → Ident → List Transaction → ℕ
downs v w [] = 0
downs v w (t ∷ ts) = (if moves_at v w t then (movement t).down else 0) + downs v w ts

-- How many of them are not a whole number of hundredths.
unfoldable pub parts : Ident → Ident → List Transaction → ℕ
parts v w [] = 0
parts v w (t ∷ ts) = (if moves_at v w t && not (is_whole (movement t)) then 1 else 0) + parts v w ts

-- The exact sum of the entries.
abbrev ledger_sum : Ident → Ident → List Transaction → Quantity
ledger_sum v w ts = record { up = ups v w ts; down = downs v w ts }

pub record IsLedger (s : Erp) : Type 0 where
  pub whole : (v w : Ident) → IsWhole (available_qty v w s.balances)
  pub near :
      (v w : Ident)
      → Within
          (parts v w s.transactions)
          (available_qty v w s.balances)
          (ledger_sum v w s.transactions)

ups-push :
    (v w : Ident) (t : Transaction) (ts : List Transaction)
    → ups v w (ts ++ t ∷ []) ≡ ups v w ts + (if moves_at v w t then (movement t).up else 0)
unfolding ups
ups-push v w t [] = omega arith
ups-push v w t (a ∷ ts) = omega (arith, ups-push v w t ts)

downs-push :
    (v w : Ident) (t : Transaction) (ts : List Transaction)
    → downs v w (ts ++ t ∷ []) ≡ downs v w ts + (if moves_at v w t then (movement t).down else 0)
unfolding downs
downs-push v w t [] = omega arith
downs-push v w t (a ∷ ts) = omega (arith, downs-push v w t ts)

parts-push :
    (v w : Ident) (t : Transaction) (ts : List Transaction)
    → parts v w (ts ++ t ∷ [])
      ≡ parts v w ts + (if moves_at v w t && not (is_whole (movement t)) then 1 else 0)
unfolding parts
parts-push v w t [] = omega arith
parts-push v w t (a ∷ ts) = omega (arith, parts-push v w t ts)

-- A balance before and after an entry, which is of the balance or of another one.
pub entry-near :
    (b : Bool) (k : ℕ) (a d l : Quantity)
    → IsWhole a
    → Within k a l
    → IsWhole (if b then round2 (plus a d) else a)
      × Within
          (k + (if b && not (is_whole d) then 1 else 0))
          (if b then round2 (plus a d) else a)
          (record {
            up = l.up + (if b then d.up else 0);
            down = l.down + (if b then d.down else 0);
          })
entry-near true k a d l w h = (
  round2-IsWhole (plus a d),
  elim (Bool-cases (is_whole d)) [
    | inl e ↦ rw e (rw e at (round2-Within k a d l w h))
    | inr e ↦ rw e (rw e at (round2-Within k a d l w h))
  ],
)
entry-near false k a d l w h = (w, omega (arith, h))

post-IsLedger :
    (d : Quantity) (t : Transaction) (s : Erp) → movement t ≡ d → IsLedger s → IsLedger (post d t s)
unfolding post
post-IsLedger d t s e h = record {
  whole = λ v w.
      rw (available_qty-change v w t.variant_id t.warehouse_id d t.created_at s.balances)
        (entry-near (moves_at v w t) _ _ d _ (h.whole v w) (h.near v w)).0;
  near = λ v w.
      rw
        (
          available_qty-change v w t.variant_id t.warehouse_id d t.created_at s.balances,
          ups-push v w t s.transactions,
          downs-push v w t s.transactions,
          parts-push v w t s.transactions,
          e,
        )
        (entry-near (moves_at v w t) _ _ d _ (h.whole v w) (h.near v w)).1;
}

import_row-IsLedger :
    (now : ℕ) (actor : Ident) (row : AdjustmentRow) (s : Erp)
    → IsLedger s
    → IsLedger (import_row now actor row s).0
unfolding import_row
import_row-IsLedger now actor row s h =
    elim (Option-cases (find_by variant_id_of row.variant_id s.variants)) [
      | inl e ↦ rw (e, import_row) h
      | inr (v, e) ↦ elim (Bool-cases (has_by warehouse_id_of row.warehouse_id s.warehouses)) [
        | inl q ↦
            rw (e, import_row)
              (rw q (post-IsLedger row.quantity (import_entry now actor row v) s refl h))
        | inr q ↦ rw (e, import_row) (rw q h)
      ]
    ]

import_inventory-IsLedger :
    (now : ℕ) (actor : Ident) (rows : List AdjustmentRow) (s : Erp)
    → IsLedger s
    → IsLedger (import_inventory now actor rows s).0
unfolding import_inventory
import_inventory-IsLedger now actor [] s h = h
import_inventory-IsLedger now actor (row ∷ rows) s h =
    import_inventory-IsLedger now actor rows _ (import_row-IsLedger now actor row s h)

take_out-IsLedger :
    (now : ℕ) (actor document : Ident) (ps : List Prepared) (s : Erp)
    → IsLedger s
    → IsLedger (take_out now actor document ps s)
unfolding take_out
take_out-IsLedger now actor document [] s h = h
take_out-IsLedger now actor document (p ∷ ps) s h = elim (Option-cases (target p)) [
  | inl e ↦ rw (e, take_out) (take_out-IsLedger now actor document ps s h)
  | inr ((v, w), e) ↦
      rw (e, take_out)
        (take_out-IsLedger now actor document ps _
          (post-IsLedger _ (out_entry now actor document p v w) s refl h))
]

put_back-IsLedger :
    (now : ℕ) (actor document : Ident) (ls : List Line) (s : Erp)
    → IsLedger s
    → IsLedger (put_back now actor document ls s)
unfolding put_back
put_back-IsLedger now actor document [] s h = h
put_back-IsLedger now actor document (l ∷ ls) s h = elim (Option-cases (line_target l)) [
  | inl e ↦ rw (e, put_back) (put_back-IsLedger now actor document ls s h)
  | inr ((v, w), e) ↦
      rw (e, put_back)
        (put_back-IsLedger now actor document ls _ (
          post-IsLedger _
            (cancel_entry now actor document l (find_by variant_id_of v s.variants) v w) s refl h))
]

create_document-IsLedger :
    (id : Ident) (now : ℕ) (actor : Ident) (input : DocumentInput) (s : Erp)
    → IsLedger s
    → IsLedger (create_document id now actor input s).0
unfolding commit_document
create_document-IsLedger id now actor input s h = of (create_document-Creation id now actor input s)
  where
    of : {t : Erp × CreateResult} → Creation id now actor input s t → IsLedger t.0
    of (refuses e) = h
    of (commits ps e f) =
        let k = take_out-IsLedger now actor id ps s h in record { whole = k.whole; near = k.near }

cancel_document-IsLedger :
    (now : ℕ) (actor id : Ident) (s : Erp)
    → IsLedger s
    → IsLedger (cancel_document now actor id s).0
unfolding cancel_document
cancel_document-IsLedger now actor id s h = elim (Option-cases (find_document_by_id id s)) [
  | inl e ↦ rw (e, cancel_document) h
  | inr (d, e) ↦ elim (Bool-cases d.is_cancelled) [
    | inl q ↦ rw (e, cancel_document) (rw q h)
    | inr q ↦
        let k = put_back-IsLedger now actor d.id d.lines s h in
        rw (e, cancel_document) (rw q (record { whole = k.whole; near = k.near }))
  ]
]

-- The operations of the repository that change it.
pub data ErpStep (s : Erp) : Erp → Type 0 where
  adds_variant :
      (id : Ident) (now : ℕ) (product : Ident) (input : VariantInput)
      → ErpStep s (create_variant id now product input s).0
  changes_variant :
      (now : ℕ) (id : Ident) (p : VariantPatch) → ErpStep s (update_variant now id p s).0
  adds_warehouse :
      (id : Ident) (now : ℕ) (code name : String) (active : Option Bool)
      → ErpStep s (create_warehouse id now code name active s).0
  changes_warehouse :
      (now : ℕ) (id : Ident) (code name : Option String) (active : Option Bool)
      → ErpStep s (update_warehouse now id code name active s).0
  imports :
      (now : ℕ) (actor : Ident) (rows : List AdjustmentRow)
      → ErpStep s (import_inventory now actor rows s).0
  creates :
      (id : Ident) (now : ℕ) (actor : Ident) (input : DocumentInput)
      → ErpStep s (create_document id now actor input s).0
  cancels : (now : ℕ) (actor id : Ident) → ErpStep s (cancel_document now actor id s).0

pub data ErpSteps (s : Erp) : Erp → Type 0 where
  none_yet : ErpSteps s s
  one_more : {t u : Erp} → ErpSteps s t → ErpStep t u → ErpSteps s u

ErpStep-IsLedger : {s t : Erp} → ErpStep s t → IsLedger s → IsLedger t
unfolding create_variant update_variant create_warehouse update_warehouse
ErpStep-IsLedger (adds_variant id now product input) h = record { whole = h.whole; near = h.near }
ErpStep-IsLedger (changes_variant now id p) h = record { whole = h.whole; near = h.near }
ErpStep-IsLedger (adds_warehouse id now code name active) h = record {
  whole = h.whole;
  near = h.near;
}
ErpStep-IsLedger (changes_warehouse now id code name active) h = record {
  whole = h.whole;
  near = h.near;
}
ErpStep-IsLedger {s} (imports now actor rows) h = import_inventory-IsLedger now actor rows s h
ErpStep-IsLedger {s} (creates id now actor input) h =
    create_document-IsLedger id now actor input s h
ErpStep-IsLedger {s} (cancels now actor id) h = cancel_document-IsLedger now actor id s h

-- If every balance is a whole number of hundredths and is, up to half a hundredth for each entry of
-- its variant and warehouse that is not, the exact sum of these entries in the ledger, with those of
-- documents taken away, this is so after any operations of the repository.
pub ErpSteps-IsLedger : {s t : Erp} → ErpSteps s t → IsLedger s → IsLedger t
ErpSteps-IsLedger none_yet h = h
ErpSteps-IsLedger (one_more m k) h = ErpStep-IsLedger k (ErpSteps-IsLedger m h)
