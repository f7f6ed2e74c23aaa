-- ===== src/Pipeline/Summarize.antt =====
-- The minutes of a meeting from its transcripts and slides (server/src/meetings/pipeline.ts).
use Prim.Native.String.{String, ◌++◌ as str_append}
use hanmir_talk.Prelude.{
  ℕ, Bool, true, false, Option, none, some, List, [], ◌∷◌, if◌then◌else◌, option_bind, given,
}
use hanmir_talk.Meeting.{Meeting, Minutes, Ppt, ImageStatus, waiting, done, unreadable, no_images}
use hanmir_talk.Meeting.Claims.{heartbeat}
use hanmir_talk.Meeting.Artifacts.{get_ppt, set_ppt_image_result, save_minutes, get_minutes}
use hanmir_talk.Pipeline.{
  if_some, Platform, Reply, Step, Done, ◌>>=◌, ◌>>◌, pure, throw, reading, call, catching, on_rows,
  now, SlideImage,
}
use hanmir_talk.Pipeline.Transcribe.{merge_transcripts}

-- The images are read by the provider, while the claim is kept.
unfoldable pub read_with :
    Platform
    → Meeting
    → List SlideImage
    → (ℕ → List SlideImage → Reply String)
    → Step (Option String)
unfolding set_ppt_image_result heartbeat
read_with p m images reader = do
  at ← now p
  on_rows (heartbeat at m.id)
  text ← call (λ t. reader t images)
  on_rows (set_ppt_image_result m.id done (given (some text)))
  pure (given (some text))

unfoldable pub read_slides : Platform → Meeting → Ppt → List SlideImage → Step (Option String)
unfolding set_ppt_image_result read_with
read_slides p m ppt [] = do
  on_rows (set_ppt_image_result m.id no_images none)
  pure ppt.image_summary
read_slides p m ppt (i ∷ images) =
    if_some p.image_reader
      (do on_rows (set_ppt_image_result m.id unreadable none); pure ppt.image_summary)
      (read_with p m (i ∷ images))

-- A throw while the images are read is caught, and the minutes go on without them.
unfoldable pub read_ppt_images : Platform → Meeting → Ppt → Step (Option String)
unfolding set_ppt_image_result read_slides
read_ppt_images p m ppt =
    catching (call (λ t. p.slide_images t ppt.file_path) >>= read_slides p m ppt)
      (λ _. do on_rows (set_ppt_image_result m.id unreadable none); pure ppt.image_summary)

abbrev pub is_waiting : ImageStatus → Bool
is_waiting waiting = true
is_waiting _ = false

-- The text and what the images say, those of them that are not empty, with an empty line between.
unfoldable ppt_context : Ppt → Option String → String
ppt_context ppt summary = elim (given (some ppt.text_content)) [
  | none ↦ elim (given summary) [ none ↦ "" | some s ↦ heading s ]
  | some text ↦ elim (given summary) [
    | none ↦ text
    | some s ↦ str_append text (str_append "\n\n" (heading s))
  ]
]
  where
    heading : String → String
    heading s = str_append "【슬라이드 이미지 판독】\n" s

unfoldable pub build_ppt_context : Platform → Meeting → Step (Option String)
unfolding read_ppt_images ppt_context get_ppt
build_ppt_context p m = do
  found ← reading (λ w. get_ppt m.id w.rows)
  if_some found (pure none) (λ ppt. do
    summary ←
        (if is_waiting ppt.image_status then read_ppt_images p m ppt else pure ppt.image_summary)
    pure (some (ppt_context ppt summary)))

abbrev path_of : (Minutes → Option String) → Option Minutes → Option String
path_of f existing = option_bind f existing

unfoldable pub step_summarize : Platform → Meeting → Step Done
unfolding merge_transcripts build_ppt_context get_minutes save_minutes
step_summarize p m = if_some p.minutes_writer (throw "minutes_provider_unavailable") (λ write. do
  merged ← reading (λ w. merge_transcripts m.id w.rows)
  if_some ((given (some (p.text.trim merged)))) (throw "empty_transcript") (λ _. do
    context ← build_ppt_context p m
    text ← call (λ t. write t merged m context)
    existing ← reading (λ w. get_minutes m.id w.rows)
    on_rows (
        save_minutes m.id (record {
          content_md = text;
          structured = p.parse_minutes text;
          minutes_path = path_of (λ (k : Minutes). k.minutes_path) existing;
          transcript_path = path_of (λ (k : Minutes). k.transcript_path) existing;
        }))))
