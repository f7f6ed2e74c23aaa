-- ===== src/Tests/Stock.antt =====
-- Files and stock: a room's shared file, and documents over one variant in one warehouse.
use hanmir_talk.Prelude.{
  ◌↔◌, ℕ, ◌≤◌, ◌≡◌, refl, true, false, none, some, List, [], ◌∷◌, arith, ◌==◌, find_by,
}
use hanmir_talk.File.{FileEntry, Files, RoomAccess, ListFiles, list_files, find_file_by_id, file_id}
use hanmir_talk.File.Listing.{Matches, InTheOpen, list_files-shows}
use hanmir_talk.Erp.{Erp, Variant, Warehouse, Quantity, available_qty}
use hanmir_talk.Erp.Documents.{
  DocumentInput, LineInput, Prepared, create_document, cancel_document, prepare_lines, new_document,
}
use hanmir_talk.Erp.Ledger.{
  none_yet, one_more, creates, cancels, IsLedger, ups, downs, ErpSteps-IsLedger,
}
use hanmir_talk.Erp.Stock.{stock, cancel_document-restores}
use hanmir_talk.Erp.Lines.{takes_at, fractions}
use hanmir_talk.Erp.Rounding.{Within}
use hanmir_talk.Erp.Shortage.{create_document-not_negative}
use hanmir_talk.Erp.{AdjustmentRow, import_inventory}
use hanmir_talk.Erp.Ledger.{imports}
use hanmir_talk.Prelude.{◌*◌}

abbrev shared : FileEntry
shared = record {
  id = 5;
  kind = "doc";
  name = "plan";
  scope = "공유";
  size = "1 KB";
  uploader_id = 2;
  uploaded_at = "01.02 03:04";
  project_id = none;
  product_id = none;
  task_id = none;
  message_id = some 11;
  folder_id = none;
}

abbrev files : Files
files = record { folders = []; folder_passwords = []; files = shared ∷ []; storage = [] }

-- Every message is in room 3, which is direct.
abbrev rooms : RoomAccess
rooms = record { message_room = λ m. some 3; is_direct = λ r. r == 3 }

abbrev all_files : ListFiles
all_files = record {
  project_id = none;
  product_id = none;
  task_id = none;
  message_id = none;
  uploader_id = none;
  folder_id = none;
}

-- A file that is attached to no message.
abbrev plain : FileEntry
plain = record shared { id = 6; message_id = none }

abbrev two_files : Files
two_files = record files { files = shared ∷ plain ∷ [] }

list_files-shows_example :
    (find_by file_id 6 (list_files rooms all_files two_files) ≡ some plain)
    ↔ ((find_file_by_id 6 two_files ≡ some plain) × Matches all_files plain × InTheOpen rooms plain)
list_files-shows_example =
    list_files-shows rooms all_files two_files 6 plain
      (((λ e. absurd (ground arith)), tt), (tt, tt))

hidden_file : list_files rooms all_files files ≡ []
unfolding list_files
hidden_file = refl

abbrev variant : Variant
variant = record {
  id = 1;
  product_id = 9;
  code = "V";
  name = "box";
  unit_label = "box";
  sort_order = 0;
  is_active = true;
  created_at = 0;
  updated_at = 0;
}

abbrev warehouse : Warehouse
warehouse = record {
  id = 4;
  code = "W";
  name = "main";
  is_active = true;
  created_at = 0;
  updated_at = 0;
}

abbrev hundredths : ℕ → Quantity
hundredths n = record { up = n * 10000000000; down = 0 }

abbrev empty_erp : Erp
empty_erp = record {
  variants = variant ∷ [];
  warehouses = warehouse ∷ [];
  balances = [];
  transactions = [];
  documents = [];
  doc_seq = 0;
}

-- Six of the variant are in the warehouse.
abbrev stocked : Erp
stocked = record empty_erp {
  balances =
      record { variant_id = 1; warehouse_id = 4; quantity = hundredths 600; updated_at = 0 } ∷ [];
}

abbrev line_of : ℕ → LineInput
line_of n = record {
  product_id = none;
  variant_id = some 1;
  warehouse_id = none;
  item_name = "box";
  quantity = hundredths n;
  note = none;
}

abbrev order : List LineInput → DocumentInput
order lines = record {
  document_type = none;
  document_date = 10;
  customer_name = none;
  warehouse_id = some 4;
  note = none;
  allow_negative = false;
  lines = lines;
}

abbrev usable_line : ℕ → Prepared
usable_line n = record { raw = line_of n; variant = some variant; warehouse_id = some 4 }

empty-IsLedger : IsLedger empty_erp
unfolding available_qty ups downs
empty-IsLedger = record { whole = λ v w. refl; near = λ v w. (omega arith, omega arith) }

-- Six of the variant and four thousandths are brought in.
abbrev delivery : AdjustmentRow
delivery = record {
  variant_id = 1;
  warehouse_id = 4;
  direction = none;
  quantity = record { up = 6004000000000; down = 0 };
  note = none;
}

abbrev delivered : Erp
delivered = (import_inventory 10 2 (delivery ∷ []) empty_erp).0

-- Four of them are sold, and the sale is cancelled.
abbrev sold : Erp
sold = (create_document 100 11 2 (order (line_of 400 ∷ [])) delivered).0

ErpSteps-IsLedger_example : IsLedger (cancel_document 12 2 100 sold).0
ErpSteps-IsLedger_example =
    ErpSteps-IsLedger
      (one_more
        (one_more (one_more none_yet (imports 10 2 (delivery ∷ [])))
          (creates 100 11 2 (order (line_of 400 ∷ []))))
        (cancels 12 2 100))
      empty-IsLedger

-- The stock on the way: the four thousandths are rounded away.
stock_on_the_way :
    stock 1 4 delivered ∷ stock 1 4 sold ∷ stock 1 4 (cancel_document 12 2 100 sold).0 ∷ []
    ≡ hundredths 600 ∷ hundredths 200 ∷ hundredths 600 ∷ []
unfolding import_inventory create_document cancel_document available_qty
stock_on_the_way = refl

-- A line of half a hundredth, which takes stock below zero.
abbrev tiny : DocumentInput
tiny =
    record (order (record (line_of 0) { quantity = record { up = 5000000000; down = 0 } } ∷ [])) {
      allow_negative = true;
    }

-- Created and cancelled with nothing in stock, it leaves a hundredth.
tiny_left :
    stock 1 4 (cancel_document 12 2 100 (create_document 100 11 2 tiny empty_erp).0).0
    ≡ hundredths 1
unfolding create_document cancel_document available_qty
tiny_left = refl

cancel_document-restores_example :
    Within 0
      (stock 1 4
        (cancel_document 12 2 100
          (create_document 100 11 2 (order (line_of 400 ∷ [])) stocked).0).0)
      (stock 1 4 stocked)
unfolding create_document prepare_lines available_qty takes_at fractions
cancel_document-restores_example =
    cancel_document-restores 100 11 12 2 2 (order (line_of 400 ∷ [])) stocked
      (new_document 100 11 2 (order (line_of 400 ∷ [])) (usable_line 400 ∷ []) 1)
      (usable_line 400 ∷ []) 1 4 refl refl refl

create_document-not_negative_example :
    (stock 1 4 (create_document 100 11 2 (order (line_of 400 ∷ [])) stocked).0).down
    ≤ (stock 1 4 (create_document 100 11 2 (order (line_of 400 ∷ [])) stocked).0).up
unfolding prepare_lines takes_at available_qty
create_document-not_negative_example =
    create_document-not_negative 100 11 2 (order (line_of 400 ∷ [])) stocked (usable_line 400 ∷ [])
      1 4 refl refl (omega arith) (omega arith)

-- Two lines that each fit the stock take it below zero together: each is checked against the stock
-- before the document.
oversold :
    stock 1 4 (create_document 100 11 2 (order (line_of 400 ∷ line_of 400 ∷ [])) stocked).0
    ≡ record { up = 0; down = 200 * 10000000000 }
unfolding create_document available_qty
oversold = refl
