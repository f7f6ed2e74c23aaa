-- ===== src/Erp/Creation.antt =====
-- The two ways that createDocument ends (server/src/repositories/memory.ts).
use hanmir_talk.Prelude.{ℕ, ◌≡◌, refl, ap, List, [], ◌∷◌, Ident}
use hanmir_talk.Erp.{Erp}
use hanmir_talk.Erp.Documents.{
  DocumentInput, Prepared, CreateResult, CreateError, create_document, create_with, create_checked,
  create_prepared, commit_document, prepare_lines, shortages, refused, LineInput, PreparedLines,
  all_usable, stopped, empty_lines, insufficient_stock, Shortage,
}

-- What createDocument does: it refuses and changes nothing, or it commits the lines, none of which is
-- short of stock.
pub data Creation (id : Ident) (now : ℕ) (actor : Ident) (input : DocumentInput) (s : Erp)
    : Erp × CreateResult → Type 0 where
  refuses : (e : CreateError) → Creation id now actor input s (s, refused e)
  commits :
      (ps : List Prepared)
      → prepare_lines s input.warehouse_id input.lines ≡ all_usable ps
      → shortages s input.allow_negative ps ≡ []
      → Creation id now actor input s (commit_document id now actor input ps s)

prepared-Creation :
    (id : Ident) (now : ℕ) (actor : Ident) (input : DocumentInput) (s : Erp) (ps : List Prepared)
    (short : List Shortage)
    → prepare_lines s input.warehouse_id input.lines ≡ all_usable ps
    → shortages s input.allow_negative ps ≡ short
    → Creation id now actor input s (create_prepared id now actor input ps s)
unfolding create_prepared
prepared-Creation id now actor input s ps [] e f = rw (f, create_prepared) (commits ps e f)
prepared-Creation id now actor input s ps (h ∷ hs) e f =
    rw (f, create_prepared) (refuses (insufficient_stock (h ∷ hs)))

checked-Creation :
    (id : Ident) (now : ℕ) (actor : Ident) (input : DocumentInput) (s : Erp) (r : PreparedLines)
    → prepare_lines s input.warehouse_id input.lines ≡ r
    → Creation id now actor input s (create_checked id now actor input r s)
unfolding create_checked
checked-Creation id now actor input s (stopped x) e = refuses x
checked-Creation id now actor input s (all_usable ps) e =
    prepared-Creation id now actor input s ps _ e refl

lines-Creation :
    (id : Ident) (now : ℕ) (actor : Ident) (input : DocumentInput) (s : Erp) (ls : List LineInput)
    → input.lines ≡ ls
    → Creation id now actor input s (create_with id now actor input ls s)
unfolding create_with
lines-Creation id now actor input s [] e = refuses empty_lines
lines-Creation id now actor input s (l ∷ ls) e =
    checked-Creation id now actor input s _ (ap (prepare_lines s input.warehouse_id) e)

pub create_document-Creation :
    (id : Ident) (now : ℕ) (actor : Ident) (input : DocumentInput) (s : Erp)
    → Creation id now actor input s (create_document id now actor input s)
unfolding create_document
create_document-Creation id now actor input s = lines-Creation id now actor input s input.lines refl
