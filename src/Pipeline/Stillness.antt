-- ===== src/Pipeline/Stillness.antt =====
-- What the stages of the pipeline (server/src/meetings/pipeline.ts, post.ts) leave alone: the status
-- and the attempts of every meeting. Only the loop and the worker change these.
use Prim.Native.String.{String}
use hanmir_talk.Prelude.{
  ℕ, ◌≡◌, refl, ap, ◌∙◌, Bool, true, false, Option, none, some, List, [], ◌∷◌, map, arith,
  if◌then◌else◌, Ident,
}
use hanmir_talk.Meeting.{Meeting, Row, Segment, Minutes, Ppt, ImageStatus, update_row}
use hanmir_talk.Meeting.Claims.{heartbeat}
use hanmir_talk.Meeting.Artifacts.{set_ppt_image_result, save_segment_transcript, save_minutes}
use hanmir_talk.Pipeline.{
  if_some, World, Platform, Reply, ok, throws, Step, Done, and_then, ◌>>=◌, pure, throw, reading,
  call, caught, catching, on_rows, changing, emit, Event, post_meeting_system_message,
  post_meeting_file_message, notify_room, TranscribeInput, SlideImage, append_message,
}
use hanmir_talk.Message.{ChatMessage}
use hanmir_talk.File.{Files}
use hanmir_talk.Pipeline.Machine.{Stage, stage_of}
use hanmir_talk.Pipeline.Transcribe.{transcribe_segments, step_transcribe}
use hanmir_talk.Pipeline.Summarize.{
  read_with, read_slides, read_ppt_images, build_ppt_context, step_summarize,
}
use hanmir_talk.Pipeline.Documents.{Document, publish_document, make_documents, step_generate_docs}

-- What the diagram sees of the world.
abbrev pub spine : World → List Stage
spine w = map stage_of w.rows

-- The step changes no stage, whether it returns or throws.
pub record Still {A : Type 0} (m : Step A) : Type 0 where
  pub keeps : (w : World) → spine (m w).0 ≡ spine w

module _ {A B : Type 0} where
  Still-and_then :
      (k : A → Step B) (t : World × Reply A) (ss : List Stage)
      → ((a : A) → Still (k a))
      → spine t.0 ≡ ss
      → spine (and_then t k).0 ≡ ss
  Still-and_then k (w, ok a) ss h e = (h a).keeps w ∙ e
  Still-and_then k (w, throws x) ss h e = e

  pub Still-bind :
      {m : Step A} {k : A → Step B} → Still m → ((a : A) → Still (k a)) → Still (m >>= k)
  unfolding ◌>>=◌
  Still-bind {m} {k} h g = record { keeps = λ w. Still-and_then k (m w) (spine w) g (h.keeps w) }

module _ {A : Type 0} where
  Still-caught :
      (k : String → Step A) (t : World × Reply A) (ss : List Stage)
      → ((x : String) → Still (k x))
      → spine t.0 ≡ ss
      → spine (caught t k).0 ≡ ss
  Still-caught k (w, ok a) ss h e = e
  Still-caught k (w, throws x) ss h e = (h x).keeps w ∙ e

  pub Still-catching :
      {m : Step A} {k : String → Step A}
      → Still m
      → ((x : String) → Still (k x))
      → Still (catching m k)
  unfolding catching
  Still-catching {m} {k} h g = record { keeps = λ w. Still-caught k (m w) (spine w) g (h.keeps w) }

-- A change of a row that the diagram does not see.
spine-update_row :
    (id : Ident) (f : Row → Row) (rows : List Row)
    → ((r : Row) → stage_of (f r) ≡ stage_of r)
    → map stage_of (update_row id f rows) ≡ map stage_of rows
spine-update_row id f [] h = refl
spine-update_row id f (r ∷ rows) h = ground (arith, h r, spine-update_row id f rows h)

module _ {A : Type 0} where
  pub pure-Still : (a : A) → Still (pure a)
  unfolding pure
  pure-Still a = record { keeps = λ w. refl }

  pub throw-Still : (x : String) → Still {A = A} (throw x)
  unfolding throw
  throw-Still x = record { keeps = λ w. refl }

  pub reading-Still : (f : World → A) → Still (reading f)
  unfolding reading
  reading-Still f = record { keeps = λ w. refl }

  pub call-Still : (f : ℕ → Reply A) → Still (call f)
  unfolding call
  call-Still f = record { keeps = λ w. refl }

-- A change that leaves the rows of the meetings alone.
changing-Still : (f : World → World) → ((w : World) → (f w).rows ≡ w.rows) → Still (changing f)
unfolding changing
changing-Still f h = record { keeps = λ w. ap (map stage_of) (h w) }

-- A change of a row that the diagram does not see.
pub update_row-Still :
    (id : Ident) (f : Row → Row)
    → ((r : Row) → stage_of (f r) ≡ stage_of r)
    → Still (on_rows (update_row id f))
unfolding on_rows
update_row-Still id f h = record { keeps = λ w. spine-update_row id f w.rows h }

-- A change of the rows, then steps that change no stage.
pub on_rows-spine :
    {A : Type 0} (f : List Row → List Row) (k : Done → Step A) (w : World)
    → ((x : Done) → Still (k x))
    → spine ((on_rows f >>= k) w).0 ≡ map stage_of (f w.rows)
unfolding on_rows ◌>>=◌
on_rows-spine f k w h = (h tt).keeps (record w { rows = f w.rows })

module _ {A B : Type 0} where
  pub Still-if_some :
      (o : Option A) {m : Step B} {k : A → Step B}
      → Still m
      → ((a : A) → Still (k a))
      → Still (if_some o m k)
  unfolding if_some
  Still-if_some none h g = h
  Still-if_some (some a) h g = g a

module _ {A : Type 0} where
  pub Still-if : (b : Bool) {m n : Step A} → Still m → Still n → Still (if b then m else n)
  Still-if true h g = h
  Still-if false h g = g

-- The parts of a step are still.
pub ruleset still_rules = (
  Still-bind, Still-catching, Still-if_some, Still-if, pure-Still, throw-Still, reading-Still,
  call-Still,
)

append_message-Still :
    (room : Ident) (m : ChatMessage) (file : Option Ident)
    → Still (changing (append_message room m file))
unfolding append_message
append_message-Still room m file = changing-Still _ (λ w. refl)

pub emit-Still : (e : Event) → Still (emit e)
emit-Still e = changing-Still _ (λ w. refl)

post_meeting_system_message-Still :
    (p : Platform) (room author : Ident) (body : String)
    → Still (post_meeting_system_message p room author body)
unfolding post_meeting_system_message
post_meeting_system_message-Still p room author body =
    search (still_rules, append_message-Still, emit-Still) depth 20

post_meeting_file_message-Still :
    (p : Platform) (room author : Ident) (body : String) (file : Ident)
    → Still (post_meeting_file_message p room author body file)
unfolding post_meeting_file_message
post_meeting_file_message-Still p room author body file =
    search (still_rules, append_message-Still, emit-Still) depth 20

pub notify_room-Still : (p : Platform) (m : Meeting) (body : String) → Still (notify_room p m body)
notify_room-Still p m body = search (still_rules, post_meeting_system_message-Still) depth 20

heartbeat-Still : (at : ℕ) (id : Ident) → Still (on_rows (heartbeat at id))
unfolding heartbeat
heartbeat-Still at id = update_row-Still id _ (λ r. refl)

transcript-Still :
    (id : Ident) (k : ℕ) (text : String) → Still (on_rows (save_segment_transcript id k text))
unfolding save_segment_transcript
transcript-Still id k text = update_row-Still id _ (λ r. refl)

transcribe_segments-Still :
    (p : Platform) (provider : ℕ → TranscribeInput → Reply String) (m : Meeting) (total : ℕ)
    (segs : List Segment) (texts : List (ℕ × String))
    → Still (transcribe_segments p provider m total segs texts)
unfolding transcribe_segments
transcribe_segments-Still p provider m total [] texts = pure-Still texts
transcribe_segments-Still p provider m total (seg ∷ segs) texts =
    search
      (
        still_rules,
        emit-Still,
        heartbeat-Still,
        transcript-Still,
        transcribe_segments-Still p provider m total segs,
      )
      depth 20

pub step_transcribe-Still : (p : Platform) (m : Meeting) → Still (step_transcribe p m)
unfolding step_transcribe
step_transcribe-Still p m = search (still_rules, transcribe_segments-Still) depth 20

image_result-Still :
    (id : Ident) (status : ImageStatus) (summary : Option String)
    → Still (on_rows (set_ppt_image_result id status summary))
unfolding set_ppt_image_result
image_result-Still id status summary = update_row-Still id _ (λ r. refl)

read_slides-Still :
    (p : Platform) (m : Meeting) (ppt : Ppt) (images : List SlideImage)
    → Still (read_slides p m ppt images)
unfolding read_slides read_with
read_slides-Still p m ppt [] = search (still_rules, image_result-Still) depth 20
read_slides-Still p m ppt (i ∷ images) =
    search (still_rules, image_result-Still, heartbeat-Still) depth 20

read_ppt_images-Still : (p : Platform) (m : Meeting) (ppt : Ppt) → Still (read_ppt_images p m ppt)
unfolding read_ppt_images
read_ppt_images-Still p m ppt = search (still_rules, image_result-Still, read_slides-Still) depth 20

build_ppt_context-Still : (p : Platform) (m : Meeting) → Still (build_ppt_context p m)
unfolding build_ppt_context
build_ppt_context-Still p m = search (still_rules, read_ppt_images-Still) depth 20

save_minutes-Still : (id : Ident) (k : Minutes) → Still (on_rows (save_minutes id k))
unfolding save_minutes
save_minutes-Still id k = update_row-Still id _ (λ r. refl)

pub step_summarize-Still : (p : Platform) (m : Meeting) → Still (step_summarize p m)
unfolding step_summarize
step_summarize-Still p m =
    search (still_rules, build_ppt_context-Still, save_minutes-Still) depth 20

register-Still : (f : World → Files) → Still (changing (λ w. record w { files = f w }))
register-Still f = changing-Still _ (λ w. refl)

publish_document-Still :
    (p : Platform) (m : Meeting) (d : Document) → Still (publish_document p m d)
unfolding publish_document
publish_document-Still p m d =
    search (still_rules, register-Still, post_meeting_file_message-Still) depth 20

make_documents-Still : (p : Platform) (m : Meeting) (k : Minutes) → Still (make_documents p m k)
unfolding make_documents
make_documents-Still p m k =
    search (still_rules, publish_document-Still, save_minutes-Still) depth 20

pub step_generate_docs-Still : (p : Platform) (m : Meeting) → Still (step_generate_docs p m)
unfolding step_generate_docs
step_generate_docs-Still p m = search (still_rules, make_documents-Still) depth 20
