-- ===== src/Pipeline/Transcribe.antt =====
-- The transcription of a meeting's segments, and the transcripts put together (server/src/meetings/pipeline.ts).
use Prim.Native.String.{String, ◌++◌ as str_append}
use hanmir_talk.Prelude.{
  ℕ, ◌+◌, Bool, Option, none, some, List, [], ◌∷◌, map, ltb, leb, ◌==◌, if◌then◌else◌, ◌/◌, length,
  filter, or_else, option_map, Ident, sort, first, lookup, insert,
}
use hanmir_talk.Meeting.{Meeting, Row, Segment, transcribing}
use hanmir_talk.Meeting.Recording.{list_segments}
use hanmir_talk.Meeting.Claims.{heartbeat}
use hanmir_talk.Meeting.Artifacts.{save_segment_transcript, list_segment_transcripts}
use hanmir_talk.Pipeline.{
  if_some, Platform, Reply, Step, Done, ◌>>=◌, ◌>>◌, pure, throw, reading, call, on_rows, now,
  emit_update, TranscribeInput,
}
use hanmir_talk.Pipeline.Stamps.{shift_stamps}

-- The entry with the highest index below this one.
unfoldable previous_done : ℕ → List (ℕ × String) → Option (ℕ × String)
unfolding sort
previous_done index texts =
    first
      (sort (λ (a b : ℕ × String). leb b.0 a.0) (filter (λ (e : ℕ × String). ltb e.0 index) texts))

abbrev transcribe_input : Platform → Segment → List (ℕ × String) → TranscribeInput
transcribe_input p seg texts = record {
  path = seg.file_path;
  prev_tail = option_map (λ (e : ℕ × String). p.tail e.1) (previous_done seg.seg_index texts);
  seg_index = seg.seg_index;
}

-- The loop of stepTranscribe; `texts` is its Map `done`, and the answer its last value.
unfoldable pub transcribe_segments :
    Platform
    → (ℕ → TranscribeInput → Reply String)
    → Meeting
    → ℕ
    → List Segment
    → List (ℕ × String)
    → Step (List (ℕ × String))
unfolding save_segment_transcript heartbeat previous_done
transcribe_segments p provider m total [] texts = pure texts
transcribe_segments p provider m total (seg ∷ segs) texts =
    if_some ((lookup seg.seg_index texts))
      (do
        text ← call (λ t. provider t (transcribe_input p seg texts))
        on_rows (save_segment_transcript m.id seg.seg_index text)
        let texts' = insert seg.seg_index text texts
        at ← now p
        on_rows (heartbeat at m.id)
        emit_update m transcribing (some (length texts', total)) none
        transcribe_segments p provider m total segs texts')
      (λ _. transcribe_segments p provider m total segs texts)

abbrev has_audio : Segment → Bool
has_audio s = ltb 0 s.bytes

unfoldable pub step_transcribe : Platform → Meeting → Step Done
unfolding transcribe_segments list_segments list_segment_transcripts
step_transcribe p m =
    if_some p.transcriber (throw "transcription_provider_unavailable") (λ provider. do
      segs ← reading (λ w. filter has_audio (list_segments m.id w.rows))
      kept ← reading (λ w. list_segment_transcripts m.id w.rows)
      all ← transcribe_segments p provider m (length segs) segs kept
      if length all == 0 then throw "no_transcribable_segments" else pure tt)

-- How long the segments before each one are.
unfoldable pub offsets : ℕ → List Segment → List (ℕ × ℕ) → List (ℕ × ℕ)
offsets acc [] m = m
offsets acc (s ∷ segs) m = offsets (acc + s.duration_ms) segs (insert s.seg_index acc m)

-- `Math.round(ms / 1000)`
abbrev rounded_seconds : ℕ → ℕ
rounded_seconds ms = (ms + 500) / 1000

-- `parts.join("\n")`
unfoldable join_lines : List String → String
join_lines [] = ""
join_lines (s ∷ []) = s
join_lines (s ∷ t ∷ ss) = str_append s (str_append "\n" (join_lines (t ∷ ss)))

unfoldable pub merge_transcripts : Ident → List Row → String
unfolding list_segments list_segment_transcripts offsets join_lines shift_stamps
merge_transcripts id rows = join_lines (map adjusted (list_segment_transcripts id rows))
  where
    adjusted : ℕ × String → String
    adjusted t =
        shift_stamps
          (rounded_seconds (or_else (lookup t.0 (offsets 0 (list_segments id rows) [])) 0)) t.1
