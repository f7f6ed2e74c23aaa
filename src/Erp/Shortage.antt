-- ===== src/Erp/Shortage.antt =====
-- When a document leaves no balance below zero (createDocument, server/src/repositories/memory.ts).
use hanmir_talk.Prelude.{
  ℕ, ◌≤◌, ◌≡◌, refl, ◌∙◌, inl, inr, true, false, ◌&&◌, List, [], ◌∷◌, ◌++◌, arith, ◌==◌,
  if◌then◌else◌, Bool-cases, Option-cases, All, count, Ident,
}
use hanmir_talk.Erp.{Erp, Quantity, available_qty, post}
use hanmir_talk.Erp.Documents.{
  DocumentInput, Prepared, all_usable, CreateResult, target, take_out, negated, out_entry,
  create_document, commit_document, prepare_lines, shortages, shortage_of, exceeds,
}
use hanmir_talk.Erp.Creation.{Creation, refuses, commits, create_document-Creation}
use hanmir_talk.Erp.{Transaction}
use hanmir_talk.Erp.{round2, plus}
use hanmir_talk.Erp.Lines.{takes_at, takes_at-none, takes_at-some}
use hanmir_talk.Erp.Rounding.{round2-not_negative, available_qty-change}
use hanmir_talk.Erp.Stock.{stock}

append-nil_parts : {A : Type 0} (xs ys : List A) → xs ++ ys ≡ [] → (xs ≡ []) × (ys ≡ [])
append-nil_parts [] ys e = (refl, e)
append-nil_parts (x ∷ xs) ys e = absurd (ground (arith, e))

not_short :
    (s : Erp) (p : Prepared) (v w : Ident)
    → shortage_of s false p ≡ []
    → takes_at v w p ≡ true
    → exceeds p.raw.quantity (stock v w s) ≡ false
unfolding shortage_of
not_short s p v w h k = elim (Option-cases (target p)) [
  | inl e ↦ absurd (ground (arith, takes_at-none v w p e, k))
  | inr ((x, y), e) ↦
      let i : x.id ≡ v = ground (arith, k, takes_at-some v w p x y e) in
      let j : y ≡ w = ground (arith, k, takes_at-some v w p x y e) in
      elim (Bool-cases (exceeds p.raw.quantity (stock x.id y s))) [
        | inl b ↦ absurd (ground (arith, rw (e, shortage_of) at h, b))
        | inr b ↦ rw j at (rw i at b)
      ]
]

-- No line that takes the variant from the warehouse takes more than the given stock.
abbrev Fits : Ident → Ident → Quantity → Prepared → Type 0
Fits v w a p = takes_at v w p ≡ true → exceeds p.raw.quantity a ≡ false

shortages-Fits :
    (s : Erp) (v w : Ident) (ps : List Prepared)
    → shortages s false ps ≡ []
    → All (Fits v w (stock v w s)) ps
unfolding shortages
shortages-Fits s v w [] e = tt
shortages-Fits s v w (p ∷ ps) e =
    let (a, b) = append-nil_parts (shortage_of s false p) (shortages s false ps) e in
    (not_short s p v w a, shortages-Fits s v w ps b)

available_qty-post :
    (v w : Ident) (d : Quantity) (t : Transaction) (s : Erp)
    → available_qty v w (post d t s).balances ≡ (
        if t.variant_id == v && t.warehouse_id == w
        then round2 (plus (available_qty v w s.balances) d)
        else available_qty v w s.balances)
unfolding post
available_qty-post v w d t s =
    available_qty-change v w t.variant_id t.warehouse_id d t.created_at s.balances

module _ (v w : Ident) (now : ℕ) (actor document : Ident) where
  take_out-untaken :
      (ps : List Prepared) (s : Erp)
      → count (takes_at v w) ps ≡ 0
      → available_qty v w (take_out now actor document ps s).balances ≡ available_qty v w s.balances
  unfolding take_out
  take_out-untaken [] s h = refl
  take_out-untaken (p ∷ ps) s h = elim (Option-cases (target p)) [
    | inl e ↦ rw (e, take_out) (take_out-untaken ps s (ground (arith, h)))
    | inr ((x, y), e) ↦
        let t = post (negated p.raw.quantity) (out_entry now actor document p x y) s in
        let other : (x.id == v && y == w) ≡ false = ground (arith, h, takes_at-some v w p x y e) in
        let kept =
          available_qty-post v w (negated p.raw.quantity) (out_entry now actor document p x y) s in
        rw (e, take_out) (take_out-untaken ps t (ground (arith, h)) ∙ rw other at kept)
  ]

  take_out-not_negative :
      (ps : List Prepared) (s : Erp)
      → All (Fits v w (available_qty v w s.balances)) ps
      → count (takes_at v w) ps ≤ 1
      → (available_qty v w s.balances).down ≤ (available_qty v w s.balances).up
      → (available_qty v w (take_out now actor document ps s).balances).down
        ≤ (available_qty v w (take_out now actor document ps s).balances).up
  unfolding take_out exceeds
  take_out-not_negative [] s f le h = h
  take_out-not_negative (p ∷ ps) s f le h = elim (Option-cases (target p)) [
    | inl e ↦
        rw (e, take_out)
          (take_out-not_negative ps s f.1 (ground (arith, le, takes_at-none v w p e)) h)
    | inr ((x, y), e) ↦
        let q : Quantity = negated p.raw.quantity in
        let t = post q (out_entry now actor document p x y) s in
        let kept = available_qty-post v w q (out_entry now actor document p x y) s in
        elim (Bool-cases (x.id == v && y == w)) [
          | inl here ↦
              let takes : takes_at v w p ≡ true = takes_at-some v w p x y e ∙ here in
              let left =
                round2-not_negative (plus (available_qty v w s.balances) q)
                  (ground (arith, f.0 takes)) in
              rw (e, take_out)
                (rw (take_out-untaken ps t (ground (arith, le, takes))) (rw (rw here at kept) left))
          | inr here ↦
              let same : available_qty v w t.balances ≡ available_qty v w s.balances =
                rw here at kept in
              rw (e, take_out)
                (take_out-not_negative ps t (rw same f.1) (ground (arith, le)) (rw same h))
        ]
  ]

-- A document that may not make stock negative, of which at most one usable line takes the variant
-- from the warehouse, leaves the stock there at zero or more if it was, whether it is created or
-- refused.
pub create_document-not_negative :
    (id : Ident) (now : ℕ) (actor : Ident) (input : DocumentInput) (s : Erp) (ps : List Prepared)
    (v w : Ident)
    → input.allow_negative ≡ false
    → prepare_lines s input.warehouse_id input.lines ≡ all_usable ps
    → count (takes_at v w) ps ≤ 1
    → (stock v w s).down ≤ (stock v w s).up
    → (stock v w (create_document id now actor input s).0).down
      ≤ (stock v w (create_document id now actor input s).0).up
unfolding commit_document
create_document-not_negative id now actor input s ps v w f e le h =
    of (create_document-Creation id now actor input s)
  where
    of :
        {t : Erp × CreateResult}
        → Creation id now actor input s t
        → (stock v w t.0).down ≤ (stock v w t.0).up
    of (refuses x) = h
    of (commits qs a b) =
        let same : qs ≡ ps = ground (arith, a, e) in
        rw same (
          take_out-not_negative v w now actor id ps s
            (shortages-Fits s v w ps (rw same at (rw f at b))) le h)
