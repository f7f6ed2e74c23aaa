-- ===== src/File.antt =====
-- MemoryFileRepository (server/src/repositories/memory.ts): shared files, their folders and where
-- they are stored. The names of folders and files, their sizes and times as texts come from
-- functions that the repository imports.
pub mod Listing
use Prim.Native.String.{String}
use hanmir_talk.Prelude.{
  ℕ, zero, suc, ◌+◌, ◌-◌, ◌*◌, ◌≤◌, ◌<◌, ◌≡◌, refl, sym, ap, ◌∙◌, ◌≢◌, ◌⊎◌, inl, inr, Bool, true,
  false, not, ◌&&◌, ◌||◌, Option, none, some, List, [], ◌∷◌, ◌++◌, map, arith, ltb, leb, ◌==◌,
  if◌then◌else◌, Bool-cases, Option-cases, length, take, drop, All, find, any, filter, modify,
  remove, count, find_by, has_by, modify_by, remove_by, Fresh, Distinct, is_some, or_else,
  or_option, option_map, option_bind, Ident, given, given_id, sort, first, last, sum_of, max, min,
  lookup, insert, delete, member, add, drop_member, Flags, has_flag, set_flag, clear_flag,
  users_with, clear_all, IsMap, TextOps, deduped,
}

pub record FileFolder : Type 0 where
  pub id : Ident
  pub name : String
  pub parent_id : Option Ident
  pub member_ids : List Ident
  pub has_password : Bool
  pub created_by : Ident
  pub created_at : ℕ
  pub file_count : ℕ
  pub child_count : ℕ

pub record FileEntry : Type 0 where
  pub id : Ident
  pub kind : String
  pub name : String
  pub scope : String
  pub size : String
  pub uploader_id : Ident
  pub uploaded_at : String
  pub project_id : Option Ident
  pub product_id : Option Ident
  pub task_id : Option Ident
  pub message_id : Option Ident
  pub folder_id : Option Ident

pub record Stored : Type 0 where
  pub file_name : String
  pub file_url : String
  pub file_type : Option String

pub record Files : Type 0 where
  pub folders : List FileFolder
  pub folder_passwords : List (Ident × String)
  pub files : List FileEntry
  pub storage : List (Ident × Stored)

-- What the repository imports or reads of the platform: restoreMojibakeFilename, deriveFileKind,
-- formatBytes, the stamp of a time and the upper-case text of an identifier.
pub record FileText : Type 0 where
  pub restore_name : String → String
  pub derive_kind : String → Option String → String
  pub format_bytes : ℕ → String
  pub stamp : ℕ → String
  pub upper_id : Ident → String

-- The accessors of setRoomAccessors: the room of a message, and whether the type of a room is
-- "direct".
pub record RoomAccess : Type 0 where
  pub message_room : Ident → Option Ident
  pub is_direct : Ident → Bool

abbrev folder_id_of : FileFolder → Ident
folder_id_of f = f.id

abbrev pub file_id : FileEntry → Ident
file_id f = f.id

-- `a === b` for an identifier that may be undefined
abbrev is_id : Option Ident → Ident → Bool
is_id none k = false
is_id (some j) k = j == k

unfoldable with_counts : Files → FileFolder → FileFolder
with_counts s f = record f {
  file_count = count (λ (e : FileEntry). is_id e.folder_id f.id) s.files;
  child_count = count (λ (c : FileFolder). is_id c.parent_id f.id) s.folders;
}

unfoldable list_folders : Files → List FileFolder
list_folders s = map (with_counts s) s.folders

unfoldable find_folder_by_id : Ident → Files → Option FileFolder
find_folder_by_id id s = option_map (with_counts s) (find_by folder_id_of id s.folders)

record CreateFolder : Type 0 where
  pub name : String
  pub parent_id : Option Ident
  pub password_hash : Option String
  pub member_ids : Option (List Ident)

abbrev new_folder : Ident → ℕ → CreateFolder → Ident → FileFolder
new_folder id now input creator = record {
  id = id;
  name = input.name;
  parent_id = input.parent_id;
  member_ids = or_else input.member_ids [];
  has_password = is_some input.password_hash;
  created_by = creator;
  created_at = now;
  file_count = 0;
  child_count = 0;
}

-- An empty hash is not stored.
unfoldable create_folder : Ident → ℕ → CreateFolder → Ident → Files → Files × FileFolder
create_folder id now input creator s = (
  record s {
    folders = s.folders ++ new_folder id now input creator ∷ [];
    folder_passwords = elim (given input.password_hash) [
      | none ↦ s.folder_passwords
      | some hash ↦ insert id hash s.folder_passwords
    ];
  },
  new_folder id now input creator,
)

abbrev edit_folder : Option String → Option (List Ident) → FileFolder → FileFolder
edit_folder name members f = record f {
  name = or_else name f.name;
  member_ids = or_else members f.member_ids;
}

unfoldable update_folder :
    Ident → Option String → Option (List Ident) → Files → Files × Option FileFolder
unfolding with_counts
update_folder id name members s = (
  t,
  option_map (λ f. with_counts t (edit_folder name members f)) (find_by folder_id_of id s.folders),
)
  where
    t : Files
    t = record s { folders = modify_by folder_id_of id (edit_folder name members) s.folders }

unfoldable delete_folder : Ident → Files → Files × Bool
delete_folder id s =
    if has_by folder_id_of id s.folders
    then (
      record s {
        folders = remove_by folder_id_of id s.folders;
        folder_passwords = delete id s.folder_passwords;
      },
      true,
    )
    else (s, false)

-- No folder, no password, or the hash.
data FolderPassword : Type 0 where
  no_folder no_password : FolderPassword
  hashed : String → FolderPassword

unfoldable folder_password_hash : Ident → Files → FolderPassword
folder_password_hash id s =
    if has_by folder_id_of id s.folders
    then elim (lookup id s.folder_passwords) [ none ↦ no_password | some hash ↦ hashed hash ]
    else no_folder

unfoldable pub link_message : Ident → Ident → Files → Files
link_message file message s = record s {
  files = modify_by file_id file (λ f. record f { message_id = some message }) s.files;
}

unfoldable pub is_direct_room_attachment : RoomAccess → FileEntry → Bool
is_direct_room_attachment rooms f = elim (given_id f.message_id) [
  | none ↦ false
  | some m ↦ elim (given_id (rooms.message_room m)) [ none ↦ false | some r ↦ rooms.is_direct r ]
]

pub record ListFiles : Type 0 where
  pub project_id : Option Ident
  pub product_id : Option Ident
  pub task_id : Option Ident
  pub message_id : Option Ident
  pub uploader_id : Option Ident
  pub folder_id : Option Ident

-- `!(wanted && actual !== wanted)`
abbrev pub allows : Option Ident → Option Ident → Bool
allows wanted actual = elim (given_id wanted) [ none ↦ true | some k ↦ is_id actual k ]

unfoldable pub matches_filter : ListFiles → FileEntry → Bool
matches_filter q f =
    allows q.project_id f.project_id
    && (allows q.product_id f.product_id
        && (allows q.task_id f.task_id
            && (allows q.message_id f.message_id
                && (allows q.uploader_id (some f.uploader_id) && allows q.folder_id f.folder_id))))

unfoldable pub list_files : RoomAccess → ListFiles → Files → List FileEntry
unfolding matches_filter is_direct_room_attachment
list_files rooms q s =
    filter (λ f. matches_filter q f && not (is_direct_room_attachment rooms f)) s.files

-- `f.messageId !== undefined && getMessageRoomId(f.messageId) === roomId`
abbrev pub is_shared_in : RoomAccess → Ident → FileEntry → Bool
is_shared_in rooms room f = elim f.message_id [
  | none ↦ false
  | some m ↦ is_id (rooms.message_room m) room
]

-- `Math.min(Math.max(limit ?? d, 1), cap)`
abbrev pub clamp_limit : ℕ → ℕ → Option ℕ → ℕ
clamp_limit d cap limit = min (max (or_else limit d) 1) cap

-- An offset below 0 counts as 0: the model's offsets are natural numbers.
unfoldable pub list_by_room : RoomAccess → Ident → Option ℕ → Option ℕ → Files → List FileEntry × ℕ
list_by_room rooms room limit offset s =
    (take (clamp_limit 20 100 limit) (drop (or_else offset 0) matched), length matched)
  where
    matched : List FileEntry
    matched = filter (is_shared_in rooms room) s.files

unfoldable pub find_file_by_id : Ident → Files → Option FileEntry
find_file_by_id id s = find_by file_id id s.files

pub record CreateFile : Type 0 where
  pub file_name : String
  pub file_size : ℕ
  pub file_type : Option String
  pub file_url : String
  pub project_id : Option Ident
  pub product_id : Option Ident
  pub task_id : Option Ident
  pub message_id : Option Ident
  pub folder_id : Option Ident

abbrev scope_of : FileText → CreateFile → String
scope_of ops input = elim (given_id input.project_id) [
  | some p ↦ ops.upper_id p
  | none ↦
      if is_some (given_id input.product_id)
      then "제품정보"
      else if is_some (given_id input.task_id)
      then "업무"
      else "공유"
]

unfoldable pub new_file : FileText → Ident → ℕ → CreateFile → Ident → FileEntry
new_file ops id now input uploader = record {
  id = id;
  kind = ops.derive_kind (ops.restore_name input.file_name) input.file_type;
  name = ops.restore_name input.file_name;
  scope = scope_of ops input;
  size = ops.format_bytes input.file_size;
  uploader_id = uploader;
  uploaded_at = ops.stamp now;
  project_id = input.project_id;
  product_id = input.product_id;
  task_id = input.task_id;
  message_id = input.message_id;
  folder_id = input.folder_id;
}

abbrev pub stored_of : FileText → CreateFile → Stored
stored_of ops input = record {
  file_name = ops.restore_name input.file_name;
  file_url = input.file_url;
  file_type = input.file_type;
}

unfoldable pub create_file : FileText → Ident → ℕ → CreateFile → Ident → Files → Files × FileEntry
unfolding new_file
create_file ops id now input uploader s = (
  record s {
    files = new_file ops id now input uploader ∷ s.files;
    storage = insert id (stored_of ops input) s.storage;
  },
  new_file ops id now input uploader,
)

unfoldable pub delete_file : Ident → Files → Files × Bool
delete_file id s =
    if has_by file_id id s.files
    then (record s { files = remove_by file_id id s.files; storage = delete id s.storage }, true)
    else (s, false)

unfoldable pub find_storage : Ident → Files → Option Stored
find_storage id s = lookup id s.storage
