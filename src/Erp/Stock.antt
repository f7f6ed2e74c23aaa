-- ===== src/Erp/Stock.antt =====
-- Stock and documents of MemoryErpRepository (server/src/repositories/memory.ts): a cancelled
-- document gives back what it took, and when a document leaves no balance below zero.
use hanmir_talk.Prelude.{
  ℕ, ◌+◌, ◌≡◌, inl, inr, Bool, ◌&&◌, some, List, [], ◌∷◌, arith, ◌==◌, if◌then◌else◌, Option-cases,
  All, find_by, Ident,
}
use hanmir_talk.Erp.{Erp, Quantity, Document, variant_id_of, available_qty, post}
use hanmir_talk.Erp.Documents.{
  DocumentInput, Prepared, all_usable, CreateResult, target, take_out, put_back, negated, out_entry,
  cancel_entry, create_document, cancel_document, commit_document, prepare_lines, created,
  find_document_by_id, document_line, document_lines, new_document,
}
use hanmir_talk.Erp.Creation.{Creation, refuses, commits, create_document-Creation}
use hanmir_talk.Prelude.{not}
use hanmir_talk.Erp.{Transaction}
use hanmir_talk.Erp.{round2, plus}
use hanmir_talk.Erp.Lines.{
  taken_up, taken_down, fractions, takes_at-none, takes_at-some, IsNamed, prepare_lines-IsNamed,
  line_target-none, line_target-some,
}
use hanmir_talk.Erp.Ledger.{entry-near}
use hanmir_talk.Erp.Rounding.{is_whole, IsWhole, Within, available_qty-change}

-- A whole number of hundredths that is near another number.
abbrev Near : ℕ → Quantity → Quantity → Type 0
Near k a b = IsWhole a × Within k a b

-- A stock near an exact one, after a change that is or is not of this stock.
change-Near :
    (b : Bool) (k : ℕ) (a d l : Quantity)
    → Near k a l
    → Near
        (k + (if b && not (is_whole d) then 1 else 0))
        (if b then round2 (plus a d) else a)
        (record { up = l.up + (if b then d.up else 0); down = l.down + (if b then d.down else 0) })
change-Near b k a d l h = entry-near b k a d l h.0 h.1

post-Near :
    (v w : Ident) (k : ℕ) (l d : Quantity) (t : Transaction) (s : Erp)
    → Near k (available_qty v w s.balances) l
    → Near
        (k + (if (t.variant_id == v && t.warehouse_id == w) && not (is_whole d) then 1 else 0))
        (available_qty v w (post d t s).balances)
        (record {
          up = l.up + (if t.variant_id == v && t.warehouse_id == w then d.up else 0);
          down = l.down + (if t.variant_id == v && t.warehouse_id == w then d.down else 0);
        })
unfolding post
post-Near v w k l d t s h =
    rw (available_qty-change v w t.variant_id t.warehouse_id d t.created_at s.balances) (
      change-Near (t.variant_id == v && t.warehouse_id == w) k (available_qty v w s.balances) d l h)

is_whole-negated : (q : Quantity) → is_whole (negated q) ≡ is_whole q
is_whole-negated q = ground arith

-- The sum of two parts of a count or an amount, whatever way they are put together.
Near-moved :
    (k k' : ℕ) (a l l' : Quantity)
    → k ≡ k'
    → l.up ≡ l'.up
    → l.down ≡ l'.down
    → Near k a l
    → Near k' a l'
Near-moved k k' a l l' p q r h = (h.0, omega (arith, p, q, r, h.1))

module _ (v w : Ident) (now : ℕ) (actor document : Ident) where
  take_out-Near :
      (ps : List Prepared) (k : ℕ) (l : Quantity) (s : Erp)
      → Near k (available_qty v w s.balances) l
      → Near
          (k + fractions v w ps)
          (available_qty v w (take_out now actor document ps s).balances)
          (record { up = l.up + taken_down v w ps; down = l.down + taken_up v w ps })
  unfolding take_out taken_down taken_up fractions
  take_out-Near [] k l s h = (h.0, omega (arith, h.1))
  take_out-Near (p ∷ ps) k l s h = elim (Option-cases (target p)) [
    | inl e ↦
        let none_at = takes_at-none v w p e in
        rw (e, take_out)
          (Near-moved _ _ _ _ _ (ground (arith, none_at)) (ground (arith, none_at))
            (ground (arith, none_at)) (take_out-Near ps k l s h))
    | inr ((x, y), e) ↦
        let at = takes_at-some v w p x y e in
        let q : Quantity = negated p.raw.quantity in
        rw (e, take_out)
          (Near-moved _ _ _ _ _ (ground (arith, at, is_whole-negated p.raw.quantity))
            (ground (arith, at)) (ground (arith, at))
            (take_out-Near ps _ _ (post q (out_entry now actor document p x y) s)
              (post-Near v w k l q (out_entry now actor document p x y) s h)))
  ]

  -- The lines of a document put back what the prepared lines took.
  put_back-Near :
      (j k : ℕ) (l : Quantity) (ps : List Prepared) (s : Erp)
      → All IsNamed ps
      → Near k (available_qty v w s.balances) l
      → Near
          (k + fractions v w ps)
          (available_qty v w (put_back now actor document (document_lines j ps) s).balances)
          (record { up = l.up + taken_up v w ps; down = l.down + taken_down v w ps })
  unfolding put_back document_lines taken_down taken_up fractions
  put_back-Near j k l [] s n h = (h.0, omega (arith, h.1))
  put_back-Near j k l (p ∷ ps) s n h = elim (Option-cases (target p)) [
    | inl e ↦
        let none_at = takes_at-none v w p e in
        rw (line_target-none j p n.0 e, put_back)
          (Near-moved _ _ _ _ _ (ground (arith, none_at)) (ground (arith, none_at))
            (ground (arith, none_at)) (put_back-Near (j + 1) k l ps s n.1 h))
    | inr ((x, y), e) ↦
        let at = takes_at-some v w p x y e in
        let entry =
          cancel_entry now actor document (document_line j p)
            (find_by variant_id_of x.id s.variants) x.id y in
        rw (line_target-some j p x y n.0 e, put_back)
          (Near-moved _ _ _ _ _ (ground (arith, at)) (ground (arith, at)) (ground (arith, at)) (
            put_back-Near (j + 1) _ _ ps (post p.raw.quantity entry s) n.1
              (post-Near v w k l p.raw.quantity entry s h)))
  ]

abbrev committed : Ident → ℕ → Ident → DocumentInput → List Prepared → Erp → Erp
committed id now actor input ps s = (commit_document id now actor input ps s).0

find-committed :
    (id : Ident) (now : ℕ) (actor : Ident) (input : DocumentInput) (ps : List Prepared) (s : Erp)
    → find_document_by_id id (committed id now actor input ps s)
      ≡ some (new_document id now actor input ps ((take_out now actor id ps s).doc_seq + 1))
unfolding find_document_by_id commit_document
find-committed id now actor input ps s = ground arith

abbrev pub stock : Ident → Ident → Erp → Quantity
stock v w s = available_qty v w s.balances

cancel_document-commit :
    (id : Ident) (now later : ℕ) (actor canceller : Ident) (input : DocumentInput) (s : Erp)
    (ps : List Prepared) (v w : Ident)
    → All IsNamed ps
    → IsWhole (stock v w s)
    → Within
        (fractions v w ps + fractions v w ps)
        (stock v w
          (cancel_document later canceller id (commit_document id now actor input ps s).0).0)
        (stock v w s)
unfolding cancel_document commit_document new_document
cancel_document-commit id now later actor canceller input s ps v w n h =
    let t = committed id now actor input ps s in
    let out = take_out-Near v w now actor id ps 0 (stock v w s) s (h, omega arith) in
    let back = put_back-Near v w later canceller id 1 _ _ ps t n out in
    rw (find-committed id now actor input ps s, cancel_document) (omega (arith, back.1))

-- Where the stock of a variant in a warehouse is a whole number of hundredths, cancelling a document
-- right after it was created brings it back to what it was, up to a hundredth for each usable line
-- of the document that takes the variant from the warehouse in a quantity that is no whole number of
-- hundredths, and so exactly if there is no such line.
pub cancel_document-restores :
    (id : Ident) (now later : ℕ) (actor canceller : Ident) (input : DocumentInput) (s : Erp)
    (d : Document) (ps : List Prepared) (v w : Ident)
    → (create_document id now actor input s).1 ≡ created d
    → prepare_lines s input.warehouse_id input.lines ≡ all_usable ps
    → IsWhole (stock v w s)
    → Within
        (fractions v w ps + fractions v w ps)
        (stock v w (cancel_document later canceller id (create_document id now actor input s).0).0)
        (stock v w s)
cancel_document-restores id now later actor canceller input s d ps v w e g h =
    of (create_document-Creation id now actor input s) e
  where
    of :
        {t : Erp × CreateResult}
        → Creation id now actor input s t
        → t.1 ≡ created d
        → Within
            (fractions v w ps + fractions v w ps)
            (stock v w (cancel_document later canceller id t.0).0)
            (stock v w s)
    of (refuses x) q = absurd (ground (arith, q))
    of (commits qs a b) q =
        let same : qs ≡ ps = ground (arith, a, g) in
        rw same (
          cancel_document-commit id now later actor canceller input s ps v w
            (prepare_lines-IsNamed s input.warehouse_id input.lines ps g) h)
