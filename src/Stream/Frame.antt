-- ===== src/Stream/Frame.antt =====
-- internal/stream/frame.go: the framing. A frame is written from the JSON that `json.Marshal` makes of its
-- payload, and read as the bytes of its body; a reader is the bytes that are still to come.
use neurosymbolic_system.Base.{
  ◌≡◌, refl, ap, ◌∙◌, ℕ, zero, suc, ◌+◌, ◌*◌, ◌/◌, ◌%◌, ◌≤◌, ◌<◌, false, Option, none, some, [],
  ◌∷◌, ◌++◌, Text, if◌then◌else◌, ltb, eqb, length, Result, ok, err, Bool-cases, inl, inr, arith,
}

abbrev pub max_frame_bytes : ℕ
max_frame_bytes = 1048576

-- `binary.BigEndian.PutUint32` and `Uint32`
unfoldable pub put_uint32 : ℕ → Text
put_uint32 n = n / 16777216 % 256 ∷ n / 65536 % 256 ∷ n / 256 % 256 ∷ n % 256 ∷ []

unfoldable pub uint32_of : Text → ℕ
uint32_of [] = 0
uint32_of (a ∷ []) = 0
uint32_of (a ∷ b ∷ []) = 0
uint32_of (a ∷ b ∷ c ∷ []) = 0
uint32_of (a ∷ b ∷ c ∷ d ∷ s) = a * 16777216 + b * 65536 + c * 256 + d

pub data EncodeError : Type 0 where
  not_encoded too_long : EncodeError

-- `encodeFrame`
unfoldable pub encode_frame : Option Text → Result EncodeError Text
encode_frame none = err not_encoded
encode_frame (some body) =
    if ltb max_frame_bytes (length body)
    then err too_long
    else ok (put_uint32 (length body) ++ body)

pub data ReadError : Type 0 where
  ended frame_too_large zero_length : ReadError

-- `io.ReadFull` of so many bytes: what has been read, and what is still to come
unfoldable pub read_full : ℕ → Text → Option (Text × Text)
read_full zero s = some ([], s)
read_full (suc n) [] = none
read_full (suc n) (c ∷ s) = elim (read_full n s) [ none ↦ none | some p ↦ some (c ∷ p.0, p.1) ]

unfoldable pub read_whole : Option (Text × Text) → Result ReadError (Text × Text)
read_whole none = err ended
read_whole (some p) = ok p

unfoldable pub read_body : ℕ → Text → Result ReadError (Text × Text)
read_body size s =
    if ltb max_frame_bytes size
    then err frame_too_large
    else if eqb size 0
    then err zero_length
    else read_whole (read_full size s)

unfoldable pub read_sized : Option (Text × Text) → Result ReadError (Text × Text)
read_sized none = err ended
read_sized (some (prefix, s)) = read_body (uint32_of prefix) s

-- `readFrame`
unfoldable pub read_frame : Text → Result ReadError (Text × Text)
read_frame s = read_sized (read_full 4 s)

read_full-append : (xs rest : Text) → read_full (length xs) (xs ++ rest) ≡ some (xs, rest)
unfolding read_full
read_full-append [] rest = refl
read_full-append (x ∷ xs) rest = rw (read_full-append xs rest) refl

uint32_of-put_uint32 : (n : ℕ) → n < 4294967296 → uint32_of (put_uint32 n) ≡ n
unfolding uint32_of put_uint32
uint32_of-put_uint32 n h = omega arith

read_body-append :
    (body rest : Text)
    → ltb max_frame_bytes (length body) ≡ false
    → 1 ≤ length body
    → read_body (length body) (body ++ rest) ≡ ok (body, rest)
unfolding read_body read_whole
read_body-append body rest short h =
    let some_bytes : eqb (length body) 0 ≡ false = ground arith in
    rw (short, some_bytes, read_full-append body rest) refl

read_frame-sized :
    (body rest : Text)
    → ltb max_frame_bytes (length body) ≡ false
    → 1 ≤ length body
    → read_frame ((put_uint32 (length body) ++ body) ++ rest) ≡ ok (body, rest)
unfolding read_frame read_sized read_full put_uint32
read_frame-sized body rest short h =
    ap (λ n. read_body n (body ++ rest)) (uint32_of-put_uint32 (length body) (ground arith))
    ∙ read_body-append body rest short h

-- A body of at least one byte that `encodeFrame` does not refuse is read back by `readFrame` from what it
-- writes, and the reader stands behind it, whatever follows.
pub read_frame-encode_frame :
    (body rest : Text) {frame : Text}
    → encode_frame (some body) ≡ ok frame
    → 1 ≤ length body
    → read_frame (frame ++ rest) ≡ ok (body, rest)
unfolding encode_frame
read_frame-encode_frame body rest {frame} made h =
    elim (Bool-cases (ltb max_frame_bytes (length body))) [
      | inl long ↦ absurd (ground arith)
      | inr short ↦
          let written : frame ≡ put_uint32 (length body) ++ body = ground arith in
          rw written (read_frame-sized body rest short h)
    ]
