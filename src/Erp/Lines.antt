-- ===== src/Erp/Lines.antt =====
-- What the lines of a document take, and that the stored lines name it
-- (createDocument and cancelDocument, server/src/repositories/memory.ts).
use hanmir_talk.Prelude.{
  ℕ, ◌≡◌, refl, not, inl, inr, Bool, false, ◌&&◌, Option, none, some, List, [], ◌∷◌, arith, ◌==◌,
  if◌then◌else◌, Bool-cases, Option-cases, All, find_by, has_by, option_map, Ident, given_id,
  sum_of,
}
use hanmir_talk.Prelude.{find_by-key}
use hanmir_talk.Erp.{Erp, Variant, variant_id_of, warehouse_id_of}
use hanmir_talk.Erp.Documents.{
  LineInput, Prepared, PreparedLine, PreparedLines, usable, unusable, all_usable, stopped, target,
  line_target, prepare_line, prepare_lines, add_line, checked_warehouse, document_line,
}
use hanmir_talk.Erp.Rounding.{is_whole}

-- Whether the line takes the variant from the warehouse.
unfoldable pub takes_at : Ident → Ident → Prepared → Bool
unfolding target
takes_at v w p = elim (target p) [ none ↦ false | some (x, y) ↦ x.id == v && y == w ]

-- What the lines take of the variant from the warehouse.
unfoldable pub taken_up : Ident → Ident → List Prepared → ℕ
taken_up v w ps = sum_of (λ (p : Prepared). if takes_at v w p then p.raw.quantity.up else 0) ps

unfoldable pub taken_down : Ident → Ident → List Prepared → ℕ
taken_down v w ps = sum_of (λ (p : Prepared). if takes_at v w p then p.raw.quantity.down else 0) ps

-- How many of the lines that take the variant from the warehouse are not a whole number of
-- hundredths.
unfoldable pub fractions : Ident → Ident → List Prepared → ℕ
fractions v w ps =
    sum_of (λ (p : Prepared). if takes_at v w p && not (is_whole p.raw.quantity) then 1 else 0) ps

pub takes_at-none : (v w : Ident) (p : Prepared) → target p ≡ none → takes_at v w p ≡ false
unfolding takes_at
takes_at-none v w p e = rw (e, takes_at) refl

pub takes_at-some :
    (v w : Ident) (p : Prepared) (x : Variant) (y : Ident)
    → target p ≡ some (x, y)
    → takes_at v w p ≡ (x.id == v && y == w)
unfolding takes_at
takes_at-some v w p x y e = rw (e, takes_at) refl

-- The line of a document names the variant that the prepared line takes.
abbrev pub IsNamed : Prepared → Type 0
IsNamed p = given_id p.raw.variant_id ≡ option_map variant_id_of p.variant

checked_warehouse-usable :
    (s : Erp) (q p : Prepared) → checked_warehouse s q ≡ usable p → IsNamed q → IsNamed p
checked_warehouse-usable s q p e h = elim (Option-cases (given_id q.warehouse_id)) [
  | inl n ↦ let k : q ≡ p = ground (arith, e, n) in rw k at h
  | inr (w, n) ↦ elim (Bool-cases (has_by warehouse_id_of w s.warehouses)) [
    | inl b ↦ let k : q ≡ p = ground (arith, e, n, b) in rw k at h
    | inr b ↦ absurd (ground (arith, e, n, b))
  ]
]

prepare_line-IsNamed :
    (s : Erp) (header : Option Ident) (raw : LineInput) (p : Prepared)
    → prepare_line s header raw ≡ usable p
    → IsNamed p
unfolding prepare_line
prepare_line-IsNamed s header raw p e = elim (Option-cases (given_id raw.variant_id)) [
  | inl n ↦ checked_warehouse-usable s _ p (rw (n, prepare_line) at e) n
  | inr (k, n) ↦ elim (Option-cases (find_by variant_id_of k s.variants)) [
    | inl o ↦ absurd (ground (arith, e, n, o))
    | inr (x, o) ↦
        checked_warehouse-usable s _ p (rw (o, prepare_line) at (rw (n, prepare_line) at e))
          (ground (arith, n, find_by-key variant_id_of k s.variants o))
  ]
]

add_line-IsNamed :
    (r : PreparedLine) (rest : PreparedLines) (ps : List Prepared)
    → ((p : Prepared) → r ≡ usable p → IsNamed p)
    → ((qs : List Prepared) → rest ≡ all_usable qs → All IsNamed qs)
    → add_line r rest ≡ all_usable ps
    → All IsNamed ps
add_line-IsNamed (unusable x) rest ps h g e = absurd (ground (arith, e))
add_line-IsNamed (usable p) (stopped x) ps h g e = absurd (ground (arith, e))
add_line-IsNamed (usable p) (all_usable qs) ps h g e =
    let k : p ∷ qs ≡ ps = ground (arith, e) in rw (← k) (h p refl, g qs refl)

pub prepare_lines-IsNamed :
    (s : Erp) (header : Option Ident) (raws : List LineInput) (ps : List Prepared)
    → prepare_lines s header raws ≡ all_usable ps
    → All IsNamed ps
unfolding prepare_lines
prepare_lines-IsNamed s header [] ps e = let k : [] ≡ ps = ground (arith, e) in rw (← k) tt
prepare_lines-IsNamed s header (raw ∷ raws) ps e =
    add_line-IsNamed (prepare_line s header raw) (prepare_lines s header raws) ps
      (λ p. prepare_line-IsNamed s header raw p) (λ qs. prepare_lines-IsNamed s header raws qs) e

pub line_target-none :
    (k : ℕ) (p : Prepared) → IsNamed p → target p ≡ none → line_target (document_line k p) ≡ none
unfolding target
line_target-none k p h e = elim (Option-cases p.variant) [
  | inl n ↦ ground (arith, h, n)
  | inr (x, n) ↦ ground (arith, h, n, e)
]

pub line_target-some :
    (k : ℕ) (p : Prepared) (x : Variant) (y : Ident)
    → IsNamed p
    → target p ≡ some (x, y)
    → line_target (document_line k p) ≡ some (x.id, y)
unfolding target
line_target-some k p x y h e = elim (Option-cases p.variant) [
  | inl n ↦ absurd (ground (arith, n, e))
  | inr (z, n) ↦ elim (Option-cases (given_id p.warehouse_id)) [
    | inl o ↦ absurd (ground (arith, n, e, o))
    | inr (u, o) ↦ ground (arith, h, n, e, o)
  ]
]
