-- ===== src/Senselog/Line/RoundTrip.antt =====
-- The log lines of internal/senselog, written and read again.
use neurosymbolic_system.Base.{
  ◌≡◌, refl, ap, ◌∙◌, true, false, none, [], ◌∷◌, ◌++◌, Text, ◌==◌, text_discrete, any,
  if◌then◌else◌, ok, arith,
}
use neurosymbolic_system.Senselog.Line.{
  prefix_mark, source_mark, event_mark, close_mark, drop_mark, is_control, sanitize,
  sanitize_detail, write_line, drop_message, write_drop, Line, trim_newlines, strip, cut,
  read_reason, read_detail, after_close, after_event, after_source, after_prefix, parse_line,
}
use neurosymbolic_system.Senselog.Line.Pieces.{
  Clean, Clean-append, Lacks, append_assoc, cut-Lacks, cut-append, sanitize-Clean,
  sanitize-Lacks_bracket, sanitize-Lacks_space, sanitize-nonempty, sanitize_detail-Clean,
  sanitize_detail-append, strip-append, trim_newlines-Clean,
}

-- what a written line says, before its detail is read
abbrev pub fields : Text → Text → Text → Text → Line
fields stage source event detail = record {
  stage = sanitize stage;
  source = sanitize source;
  event = sanitize event;
  dropped = false;
  reason = [];
  detail = sanitize_detail detail;
}

-- the line without its end
abbrev joined : Text → Text → Text → Text → Text
joined st so ev de =
    prefix_mark ++ (st ++ (source_mark ++ (so ++ (event_mark ++ (ev ++ (close_mark ++ de))))))

joined-append : (st so ev de t : Text) → joined st so ev (de ++ t) ≡ joined st so ev de ++ t
joined-append st so ev de t = simp append_assoc

joined-Clean :
    (st so ev de : Text) → Clean st → Clean so → Clean ev → Clean de → Clean (joined st so ev de)
unfolding any is_control
joined-Clean st so ev de c0 c1 c2 c3 =
    let k3 = Clean-append close_mark de refl c3 in
    let k2 =
      Clean-append event_mark (ev ++ (close_mark ++ de)) refl
        (Clean-append ev (close_mark ++ de) c2 k3) in
    let d1 : Text = event_mark ++ (ev ++ (close_mark ++ de)) in
    let k1 = Clean-append source_mark (so ++ d1) refl (Clean-append so d1 c1 k2) in
    Clean-append prefix_mark (st ++ (source_mark ++ (so ++ d1))) refl
      (Clean-append st (source_mark ++ (so ++ d1)) c0 k1)

after_prefix-joined :
    (st so ev de : Text)
    → Lacks b' ' st
    → Lacks b' ' so
    → Lacks b']' ev
    → (st == []) ≡ false
    → (so == []) ≡ false
    → (ev == []) ≡ false
    → after_prefix (strip prefix_mark (joined st so ev de))
      ≡ ok (
          read_detail
            (record {
              stage = st;
              source = so;
              event = ev;
              dropped = false;
              reason = [];
              detail = de;
            })
            (strip drop_mark de))
unfolding after_prefix after_source after_event after_close
after_prefix-joined st so ev de l0 l1 l2 n0 n1 n2 =
    ap after_prefix (strip-append prefix_mark _)
    ∙ ap after_source (cut-append b' ' _ st _ l0)
    ∙ ap (after_event st) (cut-append b' ' _ so _ l1)
    ∙ ap (after_close st so) (cut-append b']' _ ev de l2)
    ∙ rw (n0, n1, n2) refl

parse_line-fields :
    (stage source event detail : Text)
    → Clean stage
    → Clean source
    → Clean event
    → (stage == []) ≡ false
    → (source == []) ≡ false
    → (event == []) ≡ false
    → parse_line (write_line stage source event detail)
      ≡ ok (
          read_detail (fields stage source event detail) (strip drop_mark (sanitize_detail detail)))
unfolding parse_line write_line
parse_line-fields stage source event detail c0 c1 c2 n0 n1 n2 =
    let clean =
      joined-Clean (sanitize stage) (sanitize source) (sanitize event) (sanitize_detail detail)
        (sanitize-Clean stage c0) (sanitize-Clean source c1) (sanitize-Clean event c2)
        (sanitize_detail-Clean detail) in
    let trimmed =
      ap trim_newlines (
        joined-append (sanitize stage) (sanitize source) (sanitize event) (sanitize_detail detail)
          (10 ∷ []))
      ∙ trim_newlines-Clean _ clean in
    rw (trimmed, clean)
      (after_prefix-joined (sanitize stage) (sanitize source) (sanitize event)
        (sanitize_detail detail) (sanitize-Lacks_space stage) (sanitize-Lacks_space source)
        (sanitize-Lacks_bracket event) (sanitize-nonempty stage n0) (sanitize-nonempty source n1)
        (sanitize-nonempty event n2))

-- `Parse` reads what `Stage` writes, for fields that are not empty and have no control character and a detail
-- that does not begin as a drop's does: no drop, the fields with '_' for each space and ']', and the detail
-- with '_' for each control character, whatever it holds.
pub parse_line-write_line :
    (stage source event detail : Text)
    → Clean stage
    → Clean source
    → Clean event
    → (stage == []) ≡ false
    → (source == []) ≡ false
    → (event == []) ≡ false
    → strip drop_mark (sanitize_detail detail) ≡ none
    → parse_line (write_line stage source event detail) ≡ ok (fields stage source event detail)
unfolding read_detail
parse_line-write_line stage source event detail c0 c1 c2 n0 n1 n2 plain =
    rw (parse_line-fields stage source event detail c0 c1 c2 n0 n1 n2, plain) refl

sanitize_detail-same : (s : Text) → Clean s → sanitize_detail s ≡ s
unfolding sanitize_detail any
sanitize_detail-same [] h = refl
sanitize_detail-same (c ∷ s) h =
    let plain : is_control c ≡ false = ground arith in
    let later : Clean s = ground arith in rw (plain, sanitize_detail-same s later) refl

append-nil : (s : Text) → s ++ [] ≡ s
append-nil [] = refl
append-nil (c ∷ s) = ap (◌∷◌ c) (append-nil s)

-- what follows the reason
abbrev tail : Text → Text
tail detail = if detail == [] then [] else b' ' ∷ detail

read_reason-cut :
    (l : Line) (reason detail : Text)
    → Lacks b' ' reason
    → read_reason l (reason ++ tail detail) (cut (b' ' ∷ []) (reason ++ tail detail))
      ≡ record l { dropped = true; reason = reason; detail = detail }
unfolding read_reason text_discrete
read_reason-cut l reason [] h = rw (append-nil reason, cut-Lacks b' ' [] reason h) refl
read_reason-cut l reason (c ∷ detail) h =
    ap (read_reason l (reason ++ b' ' ∷ c ∷ detail)) (cut-append b' ' [] reason (c ∷ detail) h)

sanitize_detail-tail :
    (detail : Text) → sanitize_detail (tail detail) ≡ tail (sanitize_detail detail)
unfolding sanitize_detail text_discrete is_control
sanitize_detail-tail [] = refl
sanitize_detail-tail (c ∷ detail) = refl

sanitize_detail-drop_message :
    (reason detail : Text)
    → Clean reason
    → sanitize_detail (drop_message reason detail)
      ≡ drop_mark ++ (sanitize reason ++ tail (sanitize_detail detail))
unfolding drop_message any is_control
sanitize_detail-drop_message reason detail c =
    rw
      (
        sanitize_detail-append drop_mark (sanitize reason ++ tail detail),
        sanitize_detail-append (sanitize reason) (tail detail),
        sanitize_detail-same drop_mark refl,
        sanitize_detail-same (sanitize reason) (sanitize-Clean reason c),
        sanitize_detail-tail detail,
      )
      refl

-- `Parse` reads back the drop that `Drop` writes, its reason with '_' for each space and ']' and its detail
-- with '_' for each control character, for fields that are not empty and, as the reason, have no control
-- character. The reason and the detail may be empty.
pub parse_line-write_drop :
    (stage source event reason detail : Text)
    → Clean stage
    → Clean source
    → Clean event
    → Clean reason
    → (stage == []) ≡ false
    → (source == []) ≡ false
    → (event == []) ≡ false
    → parse_line (write_drop stage source event reason detail)
      ≡ ok (record (fields stage source event detail) { dropped = true; reason = sanitize reason })
unfolding write_drop read_detail
parse_line-write_drop stage source event reason detail c0 c1 c2 c3 n0 n1 n2 =
    rw
      (
        parse_line-fields stage source event (drop_message reason detail) c0 c1 c2 n0 n1 n2,
        sanitize_detail-drop_message reason detail c3,
        strip-append drop_mark (sanitize reason ++ tail (sanitize_detail detail)),
        read_reason-cut
            (record (fields stage source event (drop_message reason detail)) {
              detail = drop_mark ++ (sanitize reason ++ tail (sanitize_detail detail));
            })
            (sanitize reason) (sanitize_detail detail) (sanitize-Lacks_space reason),
      )
      refl
