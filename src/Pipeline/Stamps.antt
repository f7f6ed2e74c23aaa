-- ===== src/Pipeline/Stamps.antt =====
-- The time stamps in transcripts (mergeTranscripts, server/src/meetings/pipeline.ts): every
-- `[MM:SS]` of a segment becomes the time since the start of the meeting.
use Prim.Native.Char.{Char, code}
use Prim.Native.String.{String}
use hanmir_talk.Prelude.{
  ℕ, zero, suc, ◌+◌, ◌-◌, ◌*◌, ◌<◌, ◌≡◌, refl, false, ◌&&◌, Option, none, some, arith, ltb, leb,
  ◌==◌, if◌then◌else◌, ◌/◌, ◌%◌, option_map, option_bind,
}

-- `\d`
unfoldable digit_value : Char → Option ℕ
digit_value c = if leb 48 (code c) && leb (code c) 57 then some (code c - 48) else none

abbrev digit_char : ℕ → Char
digit_char zero = "0"
digit_char (suc zero) = "1"
digit_char (suc (suc zero)) = "2"
digit_char (suc (suc (suc zero))) = "3"
digit_char (suc (suc (suc (suc zero)))) = "4"
digit_char (suc (suc (suc (suc (suc zero))))) = "5"
digit_char (suc (suc (suc (suc (suc (suc zero)))))) = "6"
digit_char (suc (suc (suc (suc (suc (suc (suc zero))))))) = "7"
digit_char (suc (suc (suc (suc (suc (suc (suc (suc zero)))))))) = "8"
digit_char _ = "9"

-- `(\d{2})\]`
unfoldable seconds_at : String → Option ℕ
unfolding digit_value
seconds_at (String.◌∷◌ c (String.◌∷◌ d (String.◌∷◌ e s))) =
    if code e == 93
    then option_bind (λ x. option_map (λ y. 10 * x + y) (digit_value d)) (digit_value c)
    else none
seconds_at _ = none

-- The rest of a stamp after its first digit, as seconds and the number of its characters.
unfoldable after_minute : ℕ → String → Option (ℕ × ℕ)
unfolding seconds_at digit_value
after_minute m (String.◌∷◌ c s) =
    if code c == 58
    then option_map (λ n. (60 * m + n, 6)) (seconds_at s)
    else (elim (digit_value c) [ none ↦ none | some x ↦ two_digits (10 * m + x) s ])
  where
    two_digits : ℕ → String → Option (ℕ × ℕ)
    two_digits k (String.◌∷◌ e t) =
        if code e == 58 then option_map (λ n. (60 * k + n, 7)) (seconds_at t) else none
    two_digits k String.[] = none
after_minute m String.[] = none

-- `/\[(\d{1,2}):(\d{2})\]/` at the start of a text: its seconds and its width.
unfoldable stamp_at : String → Option (ℕ × ℕ)
unfolding after_minute digit_value
stamp_at (String.◌∷◌ b (String.◌∷◌ c s)) =
    if code b == 91 then option_bind (λ m. after_minute m s) (digit_value c) else none
stamp_at _ = none

-- `String(n).padStart(2, "0")` for n below 100, before a text
abbrev two_digits : ℕ → String → String
two_digits n rest = String.◌∷◌ (digit_char (n / 10)) (String.◌∷◌ (digit_char (n % 10)) rest)

-- `String(n)` before a text; the fuel is above the number of digits.
unfoldable decimal : ℕ → ℕ → String → String
decimal zero n rest = rest
decimal (suc fuel) n rest =
    let more = decimal fuel (n / 10) (String.◌∷◌ (digit_char (n % 10)) rest) in
    if ltb n 10 then String.◌∷◌ (digit_char n) rest else more

abbrev minutes_seconds : ℕ → String → String
minutes_seconds total rest =
    two_digits (total % 3600 / 60) (String.◌∷◌ ":" (two_digits (total % 60) (String.◌∷◌ "]" rest)))

-- `[MM:SS]`, or `[H:MM:SS]` from one hour on, before a text.
unfoldable pub render_stamp : ℕ → String → String
unfolding decimal
render_stamp total rest =
    if ltb 0 (total / 3600)
    then String.◌∷◌ "["
        (decimal (suc (total / 3600)) (total / 3600) (String.◌∷◌ ":" (minutes_seconds total rest)))
    else String.◌∷◌ "[" (minutes_seconds total rest)

-- The replacement by the global expression. The second argument counts the characters of a stamp
-- that are still to be left out.
unfoldable shift_from : ℕ → ℕ → String → String
unfolding stamp_at render_stamp
shift_from offset k String.[] = String.[]
shift_from offset (suc k) (String.◌∷◌ c s) = shift_from offset k s
shift_from offset zero (String.◌∷◌ c s) = elim (stamp_at (String.◌∷◌ c s)) [
  | none ↦ String.◌∷◌ c (shift_from offset zero s)
  | some (total, width) ↦ render_stamp (offset + total) (shift_from offset (width - 1) s)
]

unfoldable pub shift_stamps : ℕ → String → String
unfolding shift_from
shift_stamps offset s = shift_from offset 0 s

digit_value-digit_char : (n : ℕ) → n < 10 → digit_value (digit_char n) ≡ some n
unfolding digit_value
digit_value-digit_char zero h = refl
digit_value-digit_char (suc zero) h = refl
digit_value-digit_char (suc (suc zero)) h = refl
digit_value-digit_char (suc (suc (suc zero))) h = refl
digit_value-digit_char (suc (suc (suc (suc zero)))) h = refl
digit_value-digit_char (suc (suc (suc (suc (suc zero))))) h = refl
digit_value-digit_char (suc (suc (suc (suc (suc (suc zero)))))) h = refl
digit_value-digit_char (suc (suc (suc (suc (suc (suc (suc zero))))))) h = refl
digit_value-digit_char (suc (suc (suc (suc (suc (suc (suc (suc zero)))))))) h = refl
digit_value-digit_char (suc (suc (suc (suc (suc (suc (suc (suc (suc zero))))))))) h = refl
digit_value-digit_char (suc (suc (suc (suc (suc (suc (suc (suc (suc (suc n)))))))))) h =
    absurd (omega (arith, h))

digit_char-colon : (n : ℕ) → (code (digit_char n) == 58) ≡ false
digit_char-colon zero = refl
digit_char-colon (suc zero) = refl
digit_char-colon (suc (suc zero)) = refl
digit_char-colon (suc (suc (suc zero))) = refl
digit_char-colon (suc (suc (suc (suc zero)))) = refl
digit_char-colon (suc (suc (suc (suc (suc zero))))) = refl
digit_char-colon (suc (suc (suc (suc (suc (suc zero)))))) = refl
digit_char-colon (suc (suc (suc (suc (suc (suc (suc zero))))))) = refl
digit_char-colon (suc (suc (suc (suc (suc (suc (suc (suc zero)))))))) = refl
digit_char-colon (suc (suc (suc (suc (suc (suc (suc (suc (suc n))))))))) = refl

-- A stamp below one hour.
abbrev short_stamp : ℕ → String → String
short_stamp t rest = String.◌∷◌ "[" (minutes_seconds t rest)

render_stamp-short : (t : ℕ) (rest : String) → t < 3600 → render_stamp t rest ≡ short_stamp t rest
unfolding render_stamp
render_stamp-short t rest h = ground (arith, h)

stamp_at-short : (t : ℕ) (rest : String) → t < 3600 → stamp_at (short_stamp t rest) ≡ some (t, 7)
unfolding stamp_at after_minute seconds_at
stamp_at-short t rest h = ground (
  arith,
  digit_value-digit_char (t % 3600 / 60 / 10) (omega arith),
  digit_value-digit_char (t % 3600 / 60 % 10) (omega arith),
  digit_value-digit_char (t % 60 / 10) (omega arith),
  digit_value-digit_char (t % 60 % 10) (omega arith),
  digit_char-colon (t % 3600 / 60 % 10),
)

-- The stamp of a time below one hour becomes the stamp of that time after the offset, whatever the
-- length of the meeting, and what follows it is shifted as if it stood alone.
pub shift_stamps-render_stamp :
    (offset t : ℕ) (rest : String)
    → t < 3600
    → shift_stamps offset (render_stamp t rest)
      ≡ render_stamp (offset + t) (shift_stamps offset rest)
unfolding shift_stamps shift_from
shift_stamps-render_stamp offset t rest h =
    rw (render_stamp-short t rest h) (rw (stamp_at-short t rest h, shift_from) refl)
