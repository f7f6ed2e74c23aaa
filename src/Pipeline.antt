-- ===== src/Pipeline.antt =====
-- The meeting pipeline (server/src/meetings/post.ts, finish.ts, pipeline.ts, worker.ts): what it
-- reads and writes, and its steps as functions of that state that return a value or throw. The state
-- at a throw is kept, as in the code. A call of the platform, which takes time and may throw,
-- is a function of how many calls there were before it.
pub mod Machine
pub mod Stamps
pub mod Transcribe
pub mod Summarize
pub mod Documents
pub mod Stages
pub mod Worker
pub mod Stillness
pub mod Follows
pub mod Progress
pub mod Ending
pub mod Refinement
use Prim.Native.String.{String}
use hanmir_talk.Prelude.{
  ℕ, zero, suc, ◌+◌, ◌-◌, ◌*◌, ◌≤◌, ◌<◌, ◌≡◌, refl, sym, ap, ◌∙◌, ◌≢◌, ◌⊎◌, inl, inr, Bool, true,
  false, not, ◌&&◌, ◌||◌, Option, none, some, List, [], ◌∷◌, ◌++◌, map, arith, ltb, leb, ◌==◌,
  if◌then◌else◌, Bool-cases, Option-cases, length, take, drop, All, find, any, filter, modify,
  remove, count, find_by, has_by, modify_by, remove_by, Fresh, Distinct, is_some, or_else,
  or_option, option_map, option_bind, Ident, given, given_id, sort, first, last, sum_of, max, min,
  lookup, insert, delete, member, add, drop_member, Flags, has_flag, set_flag, clear_flag,
  users_with, clear_all, IsMap, TextOps, deduped,
}
use hanmir_talk.Meeting.{Meeting, Row, Segment, SegmentPath, Status, pending, failed}
use hanmir_talk.Meeting.Recording.{finish, list_segments, find_by_id}
use hanmir_talk.Meeting.Claims.{mark_failed}
use hanmir_talk.Message.{ChatMessage, Messages, Attachment, append}
use hanmir_talk.User.{User, user_by_id}
use hanmir_talk.File.{Files, FileEntry, FileText, find_file_by_id, link_message}

-- A value, or the text of the error that was thrown.
pub data Reply {ℓ} (A : Type ℓ) : Type ℓ where
  ok : A → Reply A
  throws : String → Reply A

-- The payload of emitMeetingUpdated.
pub record Update : Type 0 where
  pub id : Ident
  pub room_id : Option Ident
  pub started_by : Ident
  pub status : Status
  pub progress : Option (ℕ × ℕ)
  pub error : Option String

pub data Event : Type 0 where
  meeting_updated : Update → Event
  message_new : Ident → ChatMessage → Event

-- The rows of the repositories, how many calls of the platform there were, and what was emitted.
pub record World : Type 0 where
  pub rows : List Row
  pub users : List User
  pub messages : Messages
  pub files : Files
  pub ticks : ℕ
  pub events : List Event

-- The bytes of a file, and an image of a slide: its bytes, its type and the number of the slide.
abbrev pub Buffer : Type 0
Buffer = List ℕ

pub record SlideImage : Type 0 where
  pub data_ : Buffer
  pub mime_type : String
  pub slide_no : ℕ

-- What a provider gets besides the glossary, which does not change.
pub record TranscribeInput : Type 0 where
  pub path : SegmentPath
  pub prev_tail : Option String
  pub seg_index : ℕ

-- The clock, random identifiers, the configuration, the providers of config, the file system, and
-- the text functions that the pipeline calls (formatKstDate, safeTitleForFilename,
-- generatedDocxPath, parseMinutesJson, isMinutesV2, buildMinutesDocx, buildTranscriptDocx,
-- `s.slice(-600)`).
pub record Platform : Type 0 where
  pub clock : ℕ → ℕ
  pub draw : ℕ → Ident
  pub retention_days : ℕ
  pub ppt_wait_hours : ℕ
  pub transcriber : Option (ℕ → TranscribeInput → Reply String)
  pub minutes_writer : Option (ℕ → String → Meeting → Option String → Reply String)
  pub image_reader : Option (ℕ → List SlideImage → Reply String)
  pub slide_images : ℕ → String → Reply (List SlideImage)
  pub minutes_docx : ℕ → Meeting → Option String → String → Reply Buffer
  pub transcript_docx : ℕ → Meeting → String → Reply Buffer
  pub write_file : ℕ → String → Buffer → Reply (Unit {0})
  pub docx_path : ℕ → String → String
  pub parse_minutes : String → Option String
  pub is_minutes_v2 : String → Bool
  pub date_label : ℕ → String
  pub safe_title : String → String
  pub tail : String → String
  pub wait_notice : ℕ → String
  pub text : TextOps
  pub file_text : FileText

-- A step that changes the world and returns or throws.
abbrev pub Step : Type 0 → Type 0
Step A = World → World × Reply A

module _ {A B : Type 0} where
  abbrev pub and_then : World × Reply A → (A → Step B) → World × Reply B
  and_then (w, ok a) k = k a w
  and_then (w, throws e) k = (w, throws e)

  infixl 5 ◌>>=◌ ◌>>◌
  unfoldable pub ◌>>=◌ : Step A → (A → Step B) → Step B
  m >>= k = λ w. and_then (m w) k

  abbrev pub ◌>>◌ : Step A → Step B → Step B
  m >> n = m >>= λ _. n

module _ {A B : Type 0} where
  -- A step for each case of a value that may be undefined.
  unfoldable pub if_some : Option A → Step B → (A → Step B) → Step B
  if_some none m k = m
  if_some (some a) m k = k a

module _ {A : Type 0} where
  unfoldable pub pure : A → Step A
  pure a = λ w. (w, ok a)

  unfoldable pub throw : String → Step A
  throw e = λ w. (w, throws e)

  unfoldable pub reading : (World → A) → Step A
  reading f = λ w. (w, ok (f w))

  -- A call of the platform.
  unfoldable pub call : (ℕ → Reply A) → Step A
  call f = λ w. (record w { ticks = w.ticks + 1 }, f w.ticks)

  abbrev pub caught : World × Reply A → (String → Step A) → World × Reply A
  caught (w, ok a) k = (w, ok a)
  caught (w, throws e) k = k e w

  -- `try { m } catch (e) { k(e) }`
  unfoldable pub catching : Step A → (String → Step A) → Step A
  catching m k = λ w. caught (m w) k

abbrev pub Done : Type 0
Done = Unit {0}

unfoldable pub changing : (World → World) → Step Done
changing f = λ w. (f w, ok tt)

-- A change of the meeting repository.
unfoldable pub on_rows : (List Row → List Row) → Step Done
unfolding changing
on_rows f = changing (λ w. record w { rows = f w.rows })

abbrev pub now : Platform → Step ℕ
now p = call (λ t. ok (p.clock t))

abbrev pub draw_id : Platform → Step Ident
draw_id p = call (λ t. ok (p.draw t))

-- The accessor that createMemoryRepositories gives to the meeting repository.
abbrev pub name_of : List User → Ident → Option String
name_of users id = option_map (λ (u : User). u.name) (user_by_id id users)

abbrev pub emit : Event → Step Done
emit e = changing (λ w. record w { events = w.events ++ e ∷ [] })

-- emitMeetingUpdated with the fields of a meeting.
abbrev pub emit_update : Meeting → Status → Option (ℕ × ℕ) → Option String → Step Done
emit_update m status progress error = emit (
    meeting_updated (record {
      id = m.id;
      room_id = m.room_id;
      started_by = m.started_by;
      status = status;
      progress = progress;
      error = error;
    }))

abbrev message_by : User → Ident → Ident → String → ℕ → Option Attachment → ChatMessage
message_by author id room body at attachment = record {
  id = id;
  room_id = room;
  author_id = author.id;
  author_name = author.name;
  initials = author.initials;
  avatar_tone = some author.avatar_tone;
  body = body;
  created_at = at;
  attachment = attachment;
  reactions = [];
  thread_reply_count = none;
  thread_last_reply_at = none;
  thread_reply_avatars = [];
  edited_at = none;
  is_deleted = false;
  parent = none;
}

-- append, with the link of the attachment to the message.
unfoldable pub append_message : Ident → ChatMessage → Option Ident → World → World
append_message room m attachment w = record w {
  messages = (append room m attachment w.messages).0;
  files = elim (append room m attachment w.messages).1 [
    | none ↦ w.files
    | some (file, message) ↦ link_message file message w.files
  ];
}

-- postMeetingSystemMessage; a starter who is gone is not told.
unfoldable pub post_meeting_system_message : Platform → Ident → Ident → String → Step Done
unfolding append_message
post_meeting_system_message p room author_id body = do
  author ← reading (λ w. user_by_id author_id w.users)
  if_some author (pure tt) (λ a. do
    id ← draw_id p
    at ← now p
    changing (append_message room (message_by a id room body at none) none)
    emit (message_new room (message_by a id room body at none)))

abbrev attachment_of : FileEntry → Attachment
attachment_of f = record { id = f.id; kind = f.kind; name = f.name; meta = f.size }

-- postMeetingFileMessage, without the notification of the members.
unfoldable pub post_meeting_file_message : Platform → Ident → Ident → String → Ident → Step Done
unfolding append_message
post_meeting_file_message p room author_id body attachment_id = do
  author ← reading (λ w. user_by_id author_id w.users)
  if_some author (pure tt) (λ a. do
    file ← reading (λ w. find_file_by_id attachment_id w.files)
    id ← draw_id p
    at ← now p
    let m = message_by a id room body at (option_map attachment_of file)
    changing (append_message room m (some attachment_id))
    emit (message_new room m))

-- A message in the meeting's room, if it still has one.
abbrev pub notify_room : Platform → Meeting → String → Step Done
notify_room p m body =
    if_some ((given_id m.room_id)) (pure tt)
      (λ room. post_meeting_system_message p room m.started_by body)
