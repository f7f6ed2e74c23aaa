-- ===== src/Meeting/Artifacts.antt =====
-- What the pipeline stores with a meeting in MemoryMeetingRepository
-- (server/src/repositories/memory.ts): slides, segment transcripts, minutes and the audio path.
use Prim.Native.String.{String}
use hanmir_talk.Prelude.{
  ℕ, ◌+◌, ◌*◌, Bool, true, false, ◌&&◌, ◌||◌, Option, none, some, List, [], ◌∷◌, map, ltb, leb,
  ◌==◌, if◌then◌else◌, filter, is_some, or_option, option_map, option_bind, Ident, sort,
}
use hanmir_talk.Meeting.{
  Meeting, Row, Ppt, Minutes, ImageStatus, waiting, cancelled, failed, row_by_id, update_row,
  to_dto,
}

-- A second upload drops the image summary of the first.
unfoldable pub save_ppt : Ident → String → String → List Row → List Row
save_ppt id path text = update_row id (λ r. record r { ppt = some fresh })
  where
    fresh : Ppt
    fresh = record {
      file_path = path;
      text_content = text;
      image_summary = none;
      image_status = waiting;
    }

unfoldable pub get_ppt : Ident → List Row → Option Ppt
get_ppt id rows = option_bind (λ r. r.ppt) (row_by_id id rows)

abbrev pub image_result : ImageStatus → Option String → Ppt → Ppt
image_result status summary p = record p {
  image_status = status;
  image_summary = or_option summary p.image_summary;
}

unfoldable pub set_ppt_image_result : Ident → ImageStatus → Option String → List Row → List Row
set_ppt_image_result id status summary =
    update_row id (λ r. record r { ppt = option_map (image_result status summary) r.ppt })

-- `map.set(k, v)`: in place if the key is there, else at the end.
unfoldable pub set_transcript : ℕ → String → List (ℕ × String) → List (ℕ × String)
set_transcript k v [] = (k, v) ∷ []
set_transcript k v ((j, w) ∷ m) = if j == k then (k, v) ∷ m else (j, w) ∷ set_transcript k v m

unfoldable pub save_segment_transcript : Ident → ℕ → String → List Row → List Row
unfolding set_transcript
save_segment_transcript id index content =
    update_row id (λ r. record r { transcripts = set_transcript index content r.transcripts })

unfoldable pub list_segment_transcripts : Ident → List Row → List (ℕ × String)
unfolding sort
list_segment_transcripts id rows = elim (row_by_id id rows) [
  | none ↦ []
  | some r ↦ sort (λ a b. leb a.0 b.0) r.transcripts
]

unfoldable pub save_minutes : Ident → Minutes → List Row → List Row
save_minutes id m = update_row id (λ r. record r { minutes = some m })

unfoldable pub get_minutes : Ident → List Row → Option Minutes
get_minutes id rows = option_bind (λ r. r.minutes) (row_by_id id rows)

abbrev pub day_ms : ℕ
day_ms = 24 * 60 * 60 * 1000

abbrev pub is_dropped : Row → Bool
is_dropped r = elim r.meeting.status [ cancelled ↦ true | failed ↦ true | _ ↦ false ]

-- The retention time is over, or the meeting came to nothing and was idle for a day
-- (`lastActivityAt < now - dayMs`, with the day on the other side).
abbrev pub is_expired : ℕ → Row → Bool
is_expired now r =
    is_some r.audio_path
    && (elim r.retention_until [ none ↦ false | some t ↦ ltb t now ]
        || (is_dropped r && ltb (r.last_activity_at + day_ms) now))

unfoldable pub list_expired_audio : (Ident → Option String) → ℕ → List Row → List Meeting
unfolding to_dto
list_expired_audio user_name now rows = map (to_dto user_name) (filter (is_expired now) rows)

unfoldable pub clear_audio_path : Ident → List Row → List Row
clear_audio_path id = update_row id (λ r. record r { audio_path = none })
