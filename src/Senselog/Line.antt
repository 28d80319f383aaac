-- ===== src/Senselog/Line.antt =====
-- internal/senselog/senselog.go and parse.go: what a logger writes, and what `Parse` reads of it. A text is
-- taken to be valid UTF-8, so that `strings.Map` goes byte by byte past the control characters. The lock and
-- the io.Writer of a logger are left out: a line is the value that it writes.
pub mod Pieces
pub mod RoundTrip
pub mod Newlines
use neurosymbolic_system.Base.{
  ℕ, Bool, true, false, ◌&&◌, ◌||◌, Option, none, some, List, [], ◌∷◌, ◌++◌, map, Text, ◌==◌, any,
  ltb, eqb, if◌then◌else◌, Result, ok, err,
}

-- prefix, sourceMark, eventMark, closeMark and dropPrefix
abbrev pub prefix_mark : Text
prefix_mark =
    b'[' ∷ b'S' ∷ b'E' ∷ b'N' ∷ b'S' ∷ b'E' ∷ b' ' ∷ b's' ∷ b't' ∷ b'a' ∷ b'g' ∷ b'e' ∷ b'=' ∷ []

abbrev pub source_mark : Text
source_mark = b' ' ∷ b's' ∷ b'o' ∷ b'u' ∷ b'r' ∷ b'c' ∷ b'e' ∷ b'=' ∷ []

abbrev pub event_mark : Text
event_mark = b' ' ∷ b'e' ∷ b'v' ∷ b'e' ∷ b'n' ∷ b't' ∷ b'=' ∷ []

abbrev pub close_mark : Text
close_mark = b']' ∷ b' ' ∷ []

abbrev pub drop_mark : Text
drop_mark =
    b'd' ∷ b'r' ∷ b'o' ∷ b'p' ∷ b'p' ∷ b'e' ∷ b'd' ∷ b' ' ∷ b'r' ∷ b'e' ∷ b'a' ∷ b's' ∷ b'o' ∷ b'n'
    ∷ b'=' ∷ []

-- `isControl`
unfoldable pub is_control : ℕ → Bool
is_control c = ltb c 32 || eqb c 127

unfoldable pub sanitize : Text → Text
sanitize value = map (λ c. if eqb c b' ' || eqb c b']' then b'_' else c) value

unfoldable pub sanitize_detail : Text → Text
sanitize_detail detail = map (λ c. if is_control c then b'_' else c) detail

-- `write`, and `lineFormat`
unfoldable pub write_line : Text → Text → Text → Text → Text
write_line stage source event detail =
    prefix_mark
    ++ (sanitize stage
        ++ (source_mark
            ++ (sanitize source
                ++ (event_mark
                    ++ (sanitize event ++ (close_mark ++ (sanitize_detail detail ++ 10 ∷ [])))))))

-- the message of `Drop`
unfoldable pub drop_message : Text → Text → Text
drop_message reason detail =
    drop_mark ++ (sanitize reason ++ (if detail == [] then [] else b' ' ∷ detail))

unfoldable pub write_drop : Text → Text → Text → Text → Text → Text
write_drop stage source event reason detail =
    write_line stage source event (drop_message reason detail)

pub record Line : Type 0 where
  pub stage : Text
  pub source : Text
  pub event : Text
  pub dropped : Bool
  pub reason : Text
  pub detail : Text

pub data ParseError : Type 0 where
  control_character no_prefix no_source no_event no_close empty_field : ParseError

-- `strings.TrimRight(line, "\n")`
unfoldable pub trim_newlines : Text → Text
trim_newlines [] = []
trim_newlines (c ∷ s) =
    let rest = trim_newlines s in if eqb c 10 && rest == [] then [] else c ∷ rest

-- `strings.HasPrefix`, and what follows the prefix
unfoldable pub strip : Text → Text → Option Text
strip [] s = some s
strip (m ∷ mark) [] = none
strip (m ∷ mark) (c ∷ s) = if eqb m c then strip mark s else none

-- `strings.Index`: what stands before and after the first occurrence of a mark
unfoldable pub prepend : ℕ → Option (Text × Text) → Option (Text × Text)
prepend c none = none
prepend c (some (before, after)) = some (c ∷ before, after)

unfoldable pub cut_at : ℕ → Text → Option Text → Option (Text × Text) → Option (Text × Text)
cut_at c s (some after) later = some ([], after)
cut_at c s none later = prepend c later

unfoldable pub cut : Text → Text → Option (Text × Text)
cut mark [] = elim (strip mark []) [ none ↦ none | some after ↦ some ([], after) ]
cut mark (c ∷ s) = cut_at c s (strip mark (c ∷ s)) (cut mark s)

-- The reason of a drop ends at the first space.
unfoldable pub read_reason : Line → Text → Option (Text × Text) → Line
read_reason l remainder (some (reason, detail)) = record l {
  dropped = true;
  reason = reason;
  detail = detail;
}
read_reason l remainder none = record l { dropped = true; reason = remainder; detail = [] }

unfoldable pub read_detail : Line → Option Text → Line
read_detail l none = l
read_detail l (some remainder) = read_reason l remainder (cut (b' ' ∷ []) remainder)

unfoldable pub after_close : Text → Text → Option (Text × Text) → Result ParseError Line
after_close stage source none = err no_close
after_close stage source (some (event, detail)) =
    if stage == [] || (source == [] || event == [])
    then err empty_field
    else ok (
        read_detail
          (record {
            stage = stage;
            source = source;
            event = event;
            dropped = false;
            reason = [];
            detail = detail;
          })
          (strip drop_mark detail))

unfoldable pub after_event : Text → Option (Text × Text) → Result ParseError Line
after_event stage none = err no_event
after_event stage (some (source, rest)) = after_close stage source (cut close_mark rest)

unfoldable pub after_source : Option (Text × Text) → Result ParseError Line
after_source none = err no_source
after_source (some (stage, rest)) = after_event stage (cut event_mark rest)

unfoldable pub after_prefix : Option Text → Result ParseError Line
after_prefix none = err no_prefix
after_prefix (some rest) = after_source (cut source_mark rest)

-- `Parse`
unfoldable pub parse_line : Text → Result ParseError Line
parse_line line =
    let s = trim_newlines line in
    if any is_control s then err control_character else after_prefix (strip prefix_mark s)
