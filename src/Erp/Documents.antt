-- ===== src/Erp/Documents.antt =====
-- Sales and use documents of MemoryErpRepository (server/src/repositories/memory.ts): createDocument
-- takes stock out and cancelDocument puts it back.
use Prim.Native.String.{String}
use hanmir_talk.Prelude.{
  ℕ, ◌+◌, Bool, true, false, not, ◌&&◌, Option, none, some, List, [], ◌∷◌, ◌++◌, ltb, if◌then◌else◌,
  find_by, has_by, modify_by, or_else, or_option, option_map, Ident, given_id,
}
use hanmir_talk.Erp.{
  Erp, Variant, Quantity, Transaction, out, cancel, from_document, from_cancel, DocumentType, sale,
  Line, Document, variant_id_of, warehouse_id_of, document_id, available_qty, post,
}

pub record LineInput : Type 0 where
  pub product_id : Option Ident
  pub variant_id : Option Ident
  pub warehouse_id : Option Ident
  pub item_name : String
  pub quantity : Quantity
  pub note : Option String

pub record DocumentInput : Type 0 where
  pub document_type : Option DocumentType
  pub document_date : ℕ
  pub customer_name : Option String
  pub warehouse_id : Option Ident
  pub note : Option String
  pub allow_negative : Bool
  pub lines : List LineInput

pub record Shortage : Type 0 where
  pub variant_id : Ident
  pub warehouse_id : Ident
  pub available : Quantity
  pub requested : Quantity

pub data CreateError : Type 0 where
  empty_lines variant_not_found warehouse_not_found : CreateError
  insufficient_stock : List Shortage → CreateError

pub data CreateResult : Type 0 where
  created : Document → CreateResult
  refused : CreateError → CreateResult

-- A line that passed the first loop: with its variant, and its warehouse or the document's.
pub record Prepared : Type 0 where
  pub raw : LineInput
  pub variant : Option Variant
  pub warehouse_id : Option Ident

-- `requested > available`
unfoldable pub exceeds : Quantity → Quantity → Bool
exceeds requested available = ltb (available.up + requested.down) (requested.up + available.down)

-- What a line takes out: of which variant and from which warehouse, if it names both.
unfoldable pub target : Prepared → Option (Variant × Ident)
target p = elim p.variant [
  | none ↦ none
  | some v ↦ option_map (λ w. (v, w)) (given_id p.warehouse_id)
]

unfoldable pub shortage_of : Erp → Bool → Prepared → List Shortage
unfolding target exceeds available_qty
shortage_of s allow_negative p = elim (target p) [
  | none ↦ []
  | some (v, w) ↦
      if not allow_negative && exceeds p.raw.quantity (available_qty v.id w s.balances)
      then record {
        variant_id = v.id;
        warehouse_id = w;
        available = available_qty v.id w s.balances;
        requested = p.raw.quantity;
      }
        ∷ []
      else []
]

pub data PreparedLine : Type 0 where
  usable : Prepared → PreparedLine
  unusable : CreateError → PreparedLine

abbrev pub checked_warehouse : Erp → Prepared → PreparedLine
checked_warehouse s p = elim (given_id p.warehouse_id) [
  | none ↦ usable p
  | some w ↦
      if has_by warehouse_id_of w s.warehouses then usable p else unusable warehouse_not_found
]

unfoldable pub prepare_line : Erp → Option Ident → LineInput → PreparedLine
prepare_line s header raw = elim (given_id raw.variant_id) [
  | none ↦ checked_warehouse s (line none)
  | some id ↦ elim (find_by variant_id_of id s.variants) [
    | none ↦ unusable variant_not_found
    | some v ↦ checked_warehouse s (line (some v))
  ]
]
  where
    line : Option Variant → Prepared
    line v = record { raw = raw; variant = v; warehouse_id = or_option raw.warehouse_id header }

pub data PreparedLines : Type 0 where
  all_usable : List Prepared → PreparedLines
  stopped : CreateError → PreparedLines

abbrev pub add_line : PreparedLine → PreparedLines → PreparedLines
add_line (unusable e) rest = stopped e
add_line (usable p) (stopped e) = stopped e
add_line (usable p) (all_usable ps) = all_usable (p ∷ ps)

-- The first loop of createDocument; the first line that is not usable stops it.
unfoldable pub prepare_lines : Erp → Option Ident → List LineInput → PreparedLines
unfolding prepare_line
prepare_lines s header [] = all_usable []
prepare_lines s header (raw ∷ raws) =
    add_line (prepare_line s header raw) (prepare_lines s header raws)

-- `shortages`, in the order of the lines.
unfoldable pub shortages : Erp → Bool → List Prepared → List Shortage
unfolding shortage_of
shortages s allow_negative [] = []
shortages s allow_negative (p ∷ ps) =
    shortage_of s allow_negative p ++ shortages s allow_negative ps

abbrev pub negated : Quantity → Quantity
negated q = record { up = q.down; down = q.up }

abbrev pub out_entry : ℕ → Ident → Ident → Prepared → Variant → Ident → Transaction
out_entry now actor document p v warehouse = record {
  product_id = v.product_id;
  variant_id = v.id;
  warehouse_id = warehouse;
  direction = out;
  quantity = p.raw.quantity;
  unit_label = v.unit_label;
  source = from_document document;
  note = p.raw.note;
  created_by = actor;
  created_at = now;
}

-- The second loop of createDocument, as it changes the balances and the ledger.
unfoldable pub take_out : ℕ → Ident → Ident → List Prepared → Erp → Erp
unfolding target post
take_out now actor document [] s = s
take_out now actor document (p ∷ ps) s = elim (target p) [
  | none ↦ take_out now actor document ps s
  | some (v, w) ↦
      take_out now actor document ps
        (post (negated p.raw.quantity) (out_entry now actor document p v w) s)
]

abbrev pub document_line : ℕ → Prepared → Line
document_line k p = record {
  line_no = k;
  product_id = or_option (option_map (λ (v : Variant). v.product_id) p.variant) p.raw.product_id;
  variant_id = p.raw.variant_id;
  warehouse_id = p.warehouse_id;
  item_name = p.raw.item_name;
  quantity = p.raw.quantity;
  note = p.raw.note;
}

-- The lines of the document, numbered from 1.
unfoldable pub document_lines : ℕ → List Prepared → List Line
document_lines k [] = []
document_lines k (p ∷ ps) = document_line k p ∷ document_lines (k + 1) ps

unfoldable pub new_document : Ident → ℕ → Ident → DocumentInput → List Prepared → ℕ → Document
unfolding document_lines
new_document id now actor input ps seq = record {
  id = id;
  document_no = (or_else input.document_type sale, seq);
  document_type = or_else input.document_type sale;
  is_cancelled = false;
  document_date = input.document_date;
  customer_name = input.customer_name;
  warehouse_id = input.warehouse_id;
  note = input.note;
  created_by = actor;
  created_at = now;
  updated_at = now;
  cancelled_at = none;
  lines = document_lines 1 ps;
}

-- nextDocumentNo counts up, and the document goes to the front.
unfoldable pub commit_document :
    Ident → ℕ → Ident → DocumentInput → List Prepared → Erp → Erp × CreateResult
unfolding take_out new_document
commit_document id now actor input ps s = (
  record t {
    doc_seq = t.doc_seq + 1;
    documents = new_document id now actor input ps (t.doc_seq + 1) ∷ t.documents;
  },
  created (new_document id now actor input ps (t.doc_seq + 1)),
)
  where
    t : Erp
    t = take_out now actor id ps s

unfoldable pub create_prepared :
    Ident → ℕ → Ident → DocumentInput → List Prepared → Erp → Erp × CreateResult
unfolding commit_document shortages
create_prepared id now actor input ps s = elim (shortages s input.allow_negative ps) [
  | [] ↦ commit_document id now actor input ps s
  | h ∷ hs ↦ (s, refused (insufficient_stock (h ∷ hs)))
]

unfoldable pub create_checked :
    Ident → ℕ → Ident → DocumentInput → PreparedLines → Erp → Erp × CreateResult
unfolding create_prepared
create_checked id now actor input (stopped e) s = (s, refused e)
create_checked id now actor input (all_usable ps) s = create_prepared id now actor input ps s

unfoldable pub create_with :
    Ident → ℕ → Ident → DocumentInput → List LineInput → Erp → Erp × CreateResult
unfolding create_checked prepare_lines
create_with id now actor input [] s = (s, refused empty_lines)
create_with id now actor input (l ∷ ls) s =
    create_checked id now actor input (prepare_lines s input.warehouse_id (l ∷ ls)) s

unfoldable pub create_document : Ident → ℕ → Ident → DocumentInput → Erp → Erp × CreateResult
unfolding create_with
create_document id now actor input s = create_with id now actor input input.lines s

unfoldable pub find_document_by_id : Ident → Erp → Option Document
find_document_by_id id s = find_by document_id id s.documents

abbrev pub cancel_entry : ℕ → Ident → Ident → Line → Option Variant → Ident → Ident → Transaction
cancel_entry now actor document l v variant warehouse = record {
  product_id = or_else l.product_id (or_else (option_map (λ (x : Variant). x.product_id) v) 0);
  variant_id = variant;
  warehouse_id = warehouse;
  direction = cancel;
  quantity = l.quantity;
  unit_label = or_else (option_map (λ (x : Variant). x.unit_label) v) "";
  source = from_cancel document;
  note = none;
  created_by = actor;
  created_at = now;
}

abbrev pub line_target : Line → Option (Ident × Ident)
line_target l = elim (given_id l.variant_id) [
  | none ↦ none
  | some v ↦ option_map (λ w. (v, w)) (given_id l.warehouse_id)
]

-- The loop of cancelDocument.
unfoldable pub put_back : ℕ → Ident → Ident → List Line → Erp → Erp
unfolding post
put_back now actor document [] s = s
put_back now actor document (l ∷ ls) s = elim (line_target l) [
  | none ↦ put_back now actor document ls s
  | some (v, w) ↦ put_back now actor document ls (
      post l.quantity (cancel_entry now actor document l (find_by variant_id_of v s.variants) v w)
        s)
]

abbrev cancelled_document : ℕ → Document → Document
cancelled_document now d = record d {
  is_cancelled = true;
  cancelled_at = some now;
  updated_at = now;
}

unfoldable pub cancel_document : ℕ → Ident → Ident → Erp → Erp × Option Document
unfolding find_document_by_id put_back
cancel_document now actor id s = elim (find_document_by_id id s) [
  | none ↦ (s, none)
  | some d ↦ if d.is_cancelled then (s, none) else (
    record (put_back now actor d.id d.lines s) {
      documents =
          modify_by document_id id (cancelled_document now)
            (put_back now actor d.id d.lines s).documents;
    },
    some (cancelled_document now d),
  )
]
