-- ===== src/Examples/Lines.antt =====
-- A log line and a drop, written and read.
use neurosymbolic_system.Base.{
  ◌≡◌, refl, suc, ◌+◌, none, [], ◌∷◌, Text, text_discrete, any, true, ok,
}
use neurosymbolic_system.Senselog.Line.{
  write_line, write_drop, parse_line, sanitize, sanitize_detail, drop_mark, strip, is_control,
}
use neurosymbolic_system.Senselog.Line.RoundTrip.{
  fields, parse_line-write_line, parse_line-write_drop,
}
use neurosymbolic_system.Senselog.Line.Newlines.{newlines, newlines-write_line}
use neurosymbolic_system.Examples.{pan, led, nod}

-- a text of two lines
abbrev broken : Text
broken = b'a' ∷ 10 ∷ b'b' ∷ []

abbrev spaced : Text
spaced = b'n' ∷ b'o' ∷ b' ' ∷ b'd' ∷ []

plain : strip drop_mark (sanitize_detail broken) ≡ none
unfolding strip sanitize_detail is_control
plain = refl

parse_line-write_line_example :
    parse_line (write_line pan spaced nod broken) ≡ ok (fields pan spaced nod broken)
unfolding any is_control text_discrete
parse_line-write_line_example =
    parse_line-write_line pan spaced nod broken refl refl refl refl refl refl plain

parse_line-write_drop_example :
    parse_line (write_drop pan led nod spaced broken)
    ≡ ok (record (fields pan led nod broken) { dropped = true; reason = sanitize spaced })
unfolding any is_control text_discrete
parse_line-write_drop_example =
    parse_line-write_drop pan led nod spaced broken refl refl refl refl refl refl refl

newlines-write_line_example :
    newlines (write_line broken led nod broken)
    ≡ suc (newlines broken + newlines led + newlines nod)
newlines-write_line_example = newlines-write_line broken led nod broken
