-- ===== src/Pipeline/Documents.antt =====
-- The documents of a meeting (server/src/meetings/pipeline.ts).
use Prim.Native.String.{String, ◌++◌ as str_append}
use hanmir_talk.Prelude.{
  Bool, ◌&&◌, Option, none, some, if◌then◌else◌, length, is_some, given, given_id,
}
use hanmir_talk.Meeting.{Meeting, Minutes}
use hanmir_talk.Meeting.Artifacts.{save_minutes, get_minutes}
use hanmir_talk.File.{create_file, CreateFile}
use hanmir_talk.Pipeline.{
  if_some, Platform, ok, Step, Done, ◌>>=◌, ◌>>◌, pure, throw, reading, call, on_rows, changing,
  now, draw_id, post_meeting_file_message, Buffer,
}
use hanmir_talk.Pipeline.Transcribe.{merge_transcripts}

-- The stored name of a generated document, and the text that is posted with it.
pub record Document : Type 0 where
  pub name : String
  pub bytes : Buffer
  pub body : String

-- The two files of stepGenerateDocs, as name and body.
abbrev minutes_document : Platform → Meeting → Buffer → Document
minutes_document p m buf = record {
  name =
      str_append (p.date_label m.started_at)
        (str_append "_" (str_append (p.safe_title m.title) "_회의록.docx"));
  bytes = buf;
  body = str_append "📋 회의록 — " m.title;
}

abbrev transcript_document : Platform → Meeting → Buffer → Document
transcript_document p m buf = record {
  name =
      str_append (p.date_label m.started_at)
        (str_append "_" (str_append (p.safe_title m.title) "_전사전문.docx"));
  bytes = buf;
  body = str_append "📝 전사 전문 — " m.title;
}

abbrev docx_mime : String
docx_mime = "application/vnd.openxmlformats-officedocument.wordprocessingml.document"

abbrev docx_file : Document → String → CreateFile
docx_file d rel = record {
  file_name = d.name;
  file_size = length d.bytes;
  file_type = some docx_mime;
  file_url = rel;
  project_id = none;
  product_id = none;
  task_id = none;
  message_id = none;
  folder_id = none;
}

-- One turn of the loop over the files: the document is written, registered, posted if the meeting
-- still has a room, and its path is the answer.
unfoldable pub publish_document : Platform → Meeting → Document → Step String
unfolding create_file post_meeting_file_message
publish_document p m d = do
  rel ← call (λ t. ok (p.docx_path t d.name))
  call (λ t. p.write_file t rel d.bytes)
  id ← draw_id p
  at ← now p
  changing (λ w. record w {
    files = (create_file p.file_text id at (docx_file d rel) m.started_by w.files).0;
  })
  if_some ((given_id m.room_id)) (pure tt)
      (λ room. post_meeting_file_message p room m.started_by d.body id)
  pure rel

-- `minutes.docxPaths.minutes && minutes.docxPaths.transcript`
abbrev pub has_documents : Minutes → Bool
has_documents k = is_some (given k.minutes_path) && is_some (given k.transcript_path)

abbrev structured_v2 : Platform → Option String → Option String
structured_v2 p structured = elim structured [
  | none ↦ none
  | some s ↦ if p.is_minutes_v2 s then some s else none
]

unfoldable pub make_documents : Platform → Meeting → Minutes → Step Done
unfolding publish_document merge_transcripts save_minutes
make_documents p m k = do
  transcript ← reading (λ w. merge_transcripts m.id w.rows)
  minutes_buf ← call (λ t. p.minutes_docx t m (structured_v2 p k.structured) k.content_md)
  transcript_buf ← call (λ t. p.transcript_docx t m transcript)
  minutes_rel ← publish_document p m (minutes_document p m minutes_buf)
  transcript_rel ← publish_document p m (transcript_document p m transcript_buf)
  on_rows (
      save_minutes m.id
        (record k { minutes_path = some minutes_rel; transcript_path = some transcript_rel }))

-- Documents that are there already are neither made nor posted again.
unfoldable pub step_generate_docs : Platform → Meeting → Step Done
unfolding make_documents get_minutes
step_generate_docs p m = do
  found ← reading (λ w. get_minutes m.id w.rows)
  if_some found (throw "minutes_missing")
      (λ k. if has_documents k then pure tt else make_documents p m k)
