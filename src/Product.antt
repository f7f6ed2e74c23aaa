-- ===== src/Product.antt =====
-- MemoryProductRepository (server/src/repositories/memory.ts): products, their specifications, the
-- history of their sales status and their documents. The key of a specification and the type of a
-- document are compared only, so they are identifiers; days and instants are numbers. The fields of
-- a product that no operation changes (its seeded history, figures of the quarter) are left out.
pub mod Cascade
use Prim.Native.String.{String}
use hanmir_talk.Prelude.{
  ℕ, zero, suc, ◌+◌, ◌-◌, ◌*◌, ◌≤◌, ◌<◌, ◌≡◌, refl, sym, ap, ◌∙◌, ◌≢◌, ◌⊎◌, inl, inr, Bool, true,
  false, not, ◌&&◌, ◌||◌, Option, none, some, List, [], ◌∷◌, ◌++◌, map, arith, ltb, leb, ◌==◌,
  if◌then◌else◌, Bool-cases, Option-cases, length, take, drop, All, find, any, filter, modify,
  remove, count, find_by, has_by, modify_by, remove_by, Fresh, Distinct, is_some, or_else,
  or_option, option_map, option_bind, Ident, given, given_id, sort, first, last, sum_of, max, min,
  lookup, insert, delete, member, add, drop_member, Flags, has_flag, set_flag, clear_flag,
  users_with, clear_all, IsMap, TextOps, deduped,
}
use hanmir_talk.File.{FileEntry}

pub data SalesStatus : Type 0 where
  unavailable : SalesStatus
  preparing : SalesStatus
  internal : SalesStatus
  conditional : SalesStatus
  available : SalesStatus

pub record Product : Type 0 where
  pub id : Ident
  pub code : String
  pub name : String
  pub full_name : String
  pub category : String
  pub sub_category : String
  pub description : String
  pub features : List String
  pub applications : List String
  pub cautions : List String
  pub sales_status : SalesStatus
  pub sales_note : String
  pub sales_updated_at : ℕ
  pub owner_id : Ident

pub record ProductSpec : Type 0 where
  pub id : Ident
  pub product_id : Ident
  pub key : Ident
  pub value : String
  pub sort_order : ℕ

pub record SalesEvent : Type 0 where
  pub id : Ident
  pub product_id : Ident
  pub from_status : Option SalesStatus
  pub to_status : SalesStatus
  pub reason : Option String
  pub changed_by_id : Ident
  pub changed_at : ℕ

pub record DocumentLink : Type 0 where
  pub id : Ident
  pub product_id : Ident
  pub attachment_id : Ident
  pub document_type : Ident
  pub created_at : ℕ

pub record ProductDocument : Type 0 where
  pub link : DocumentLink
  pub file_name : String
  pub file_kind : String
  pub size_label : String
  pub uploaded_by_id : Ident
  pub uploaded_by_name : Option String

pub record Products : Type 0 where
  pub data_ : List Product
  pub specs : List ProductSpec
  pub sales_events : List SalesEvent
  pub documents : List DocumentLink

-- The optional fields of CreateProductInput and UpdateProductInput.
record ProductInput : Type 0 where
  pub name : Option String
  pub code : Option String
  pub category : Option String
  pub sub_category : Option String
  pub description : Option String
  pub features : Option (List String)
  pub applications : Option (List String)
  pub cautions : Option (List String)
  pub sales_status : Option SalesStatus
  pub sales_note : Option String
  pub owner_id : Option Ident

abbrev pub product_key : Product → Ident
product_key p = p.id

abbrev spec_key : ProductSpec → Ident
spec_key s = s.id

unfoldable pub find_product : Ident → Products → Option Product
find_product id s = find_by product_key id s.data_

-- A product needs a name; `today` is the day of the call.
unfoldable create_product : Ident → ℕ → String → ProductInput → Products → Products × Product
create_product id today name input s =
    let product : Product = record {
      id = id;
      code = or_else input.code "";
      name = name;
      full_name = name;
      category = or_else input.category "";
      sub_category = or_else input.sub_category "";
      description = or_else input.description "";
      features = or_else input.features [];
      applications = or_else input.applications [];
      cautions = or_else input.cautions [];
      sales_status = or_else input.sales_status preparing;
      sales_note = or_else input.sales_note "";
      sales_updated_at = today;
      owner_id = or_else input.owner_id 0;
    } in
    (record s { data_ = product ∷ s.data_ }, product)

abbrev updated_product : ℕ → ProductInput → Product → Product
updated_product today input p = record p {
  name = or_else input.name p.name;
  full_name = or_else input.name p.full_name;
  code = or_else input.code p.code;
  category = or_else input.category p.category;
  sub_category = or_else input.sub_category p.sub_category;
  description = or_else input.description p.description;
  features = or_else input.features p.features;
  applications = or_else input.applications p.applications;
  cautions = or_else input.cautions p.cautions;
  sales_status = or_else input.sales_status p.sales_status;
  sales_updated_at = if is_some input.sales_status then today else p.sales_updated_at;
  sales_note = or_else input.sales_note p.sales_note;
  owner_id = or_else input.owner_id p.owner_id;
}

unfoldable update_product : ℕ → Ident → ProductInput → Products → Products × Option Product
update_product today id input s = (
  record s { data_ = modify_by product_key id (updated_product today input) s.data_ },
  option_map (updated_product today input) (find_by product_key id s.data_),
)

unfoldable pub delete_product : Ident → Products → Products × Bool
delete_product id s =
    if has_by product_key id s.data_
    then (
      record {
        data_ = remove_by product_key id s.data_;
        specs = filter (λ (x : ProductSpec). not (x.product_id == id)) s.specs;
        sales_events = filter (λ (x : SalesEvent). not (x.product_id == id)) s.sales_events;
        documents = filter (λ (x : DocumentLink). not (x.product_id == id)) s.documents;
      },
      true,
    )
    else (s, false)

unfoldable pub list_specs : Ident → Products → List ProductSpec
list_specs product s =
    sort (λ (a b : ProductSpec). leb a.sort_order b.sort_order)
      (filter (λ (x : ProductSpec). x.product_id == product) s.specs)

abbrev has_key : Ident → Ident → ProductSpec → Bool
has_key product key x = x.product_id == product && x.key == key

-- A specification with the key of another of the product overwrites it.
unfoldable create_spec :
    Ident → Ident → Ident → String → Option ℕ → Products → Products × ProductSpec
create_spec id product key value order s = elim (find (has_key product key) s.specs) [
  | some x ↦
      let change : ProductSpec → ProductSpec =
        λ y. record y { value = value; sort_order = or_else order y.sort_order } in
      (record s { specs = modify (has_key product key) change s.specs }, change x)
  | none ↦
      let spec : ProductSpec = record {
        id = id;
        product_id = product;
        key = key;
        value = value;
        sort_order = or_else order (count (λ (x : ProductSpec). x.product_id == product) s.specs);
      } in
      (record s { specs = s.specs ++ spec ∷ [] }, spec)
]

abbrev is_spec : Ident → Ident → ProductSpec → Bool
is_spec product id x = x.id == id && x.product_id == product

abbrev updated_spec : Option Ident → Option String → Option ℕ → ProductSpec → ProductSpec
updated_spec key value order x = record x {
  key = or_else key x.key;
  value = or_else value x.value;
  sort_order = or_else order x.sort_order;
}

unfoldable update_spec :
    Ident
    → Ident
    → Option Ident
    → Option String
    → Option ℕ
    → Products
    → Products × Option ProductSpec
update_spec product id key value order s = (
  record s { specs = modify (is_spec product id) (updated_spec key value order) s.specs },
  option_map (updated_spec key value order) (find (is_spec product id) s.specs),
)

unfoldable delete_spec : Ident → Ident → Products → Products × Bool
delete_spec product id s =
    (record s { specs = remove (is_spec product id) s.specs }, any (is_spec product id) s.specs)

unfoldable pub list_sales_events : Ident → Products → List SalesEvent
list_sales_events product s =
    sort (λ (a b : SalesEvent). leb b.changed_at a.changed_at)
      (filter (λ (x : SalesEvent). x.product_id == product) s.sales_events)

unfoldable append_sales_event :
    Ident
    → ℕ
    → Ident
    → Option SalesStatus
    → SalesStatus
    → Option String
    → Ident
    → Products
    → Products × SalesEvent
append_sales_event id now product from to reason user s =
    let event : SalesEvent = record {
      id = id;
      product_id = product;
      from_status = from;
      to_status = to;
      reason = reason;
      changed_by_id = user;
      changed_at = now;
    } in
    (record s { sales_events = event ∷ s.sales_events }, event)

-- What setDocumentAccessors is given: a file, and the name of a user, which may be empty.
pub record DocumentAccessors : Type 0 where
  pub get_file : Ident → Option FileEntry
  pub get_user_name : Ident → String

abbrev document_of : DocumentAccessors → DocumentLink → FileEntry → ProductDocument
document_of acc link file = record {
  link = link;
  file_name = file.name;
  file_kind = file.kind;
  size_label = file.size;
  uploaded_by_id = file.uploader_id;
  uploaded_by_name = given (some (acc.get_user_name file.uploader_id));
}

abbrev to_document : DocumentAccessors → DocumentLink → Option ProductDocument
to_document acc link = option_map (document_of acc link) (acc.get_file link.attachment_id)

abbrev pub is_listed : Ident → Option Ident → DocumentLink → Bool
is_listed product type d =
    d.product_id == product && elim (given_id type) [ none ↦ true | some t ↦ d.document_type == t ]

abbrev to_documents : DocumentAccessors → List DocumentLink → List ProductDocument
to_documents acc [] = []
to_documents acc (d ∷ ds) = elim (to_document acc d) [
  | none ↦ to_documents acc ds
  | some p ↦ p ∷ to_documents acc ds
]

unfoldable pub list_documents :
    DocumentAccessors → Ident → Option Ident → Products → List ProductDocument
list_documents acc product type s = to_documents acc (
    sort (λ (a b : DocumentLink). leb b.created_at a.created_at)
      (filter (is_listed product type) s.documents))

unfoldable link_document :
    DocumentAccessors
    → Ident
    → ℕ
    → Ident
    → Ident
    → Ident
    → Products
    → Products × Option ProductDocument
link_document acc id now product attachment type s = elim (acc.get_file attachment) [
  | none ↦ (s, none)
  | some _ ↦
      let link : DocumentLink = record {
        id = id;
        product_id = product;
        attachment_id = attachment;
        document_type = type;
        created_at = now;
      } in
      (record s { documents = link ∷ s.documents }, to_document acc link)
]

abbrev is_link : Ident → Ident → DocumentLink → Bool
is_link product id d = d.id == id && d.product_id == product

-- The state, and the file that the document was.
unfoldable unlink_document : Ident → Ident → Products → Products × Option Ident
unlink_document product id s = (
  record s { documents = remove (is_link product id) s.documents },
  option_map (λ (d : DocumentLink). d.attachment_id) (find (is_link product id) s.documents),
)
