-- ===== src/Ccnf/Serializer/Strings.antt =====
-- The string literals of `encodeString`: they can be read back, and hold no control character.
use Prim.Native.Nat.{pred}
use nexus_go_ccnf_ref.Base.{
  ℕ, ◌+◌, ◌*◌, ◌≤◌, ◌<◌, ◌≡◌, refl, Text, [], ◌∷◌, ◌++◌, Option, none, some, arith, All,
  if◌then◌else◌, ◌==◌, ltb,
}
use nexus_go_ccnf_ref.Ccnf.Numerals.{hex_value, AreBytes}
use nexus_go_ccnf_ref.Ccnf.Serializer.{encode_byte, encode_bytes, encode_string}

-- 0x20 is the first character that is no control character.
abbrev pub IsPrintable : ℕ → Type 0
IsPrintable c = 0x20 ≤ c

encode_byte-IsPrintable :
    (c : ℕ) (rest : Text) → All IsPrintable rest → All IsPrintable (encode_byte c rest)
unfolding encode_byte
encode_byte-IsPrintable c rest h = ground arith

encode_bytes-IsPrintable : (s : Text) → All IsPrintable (encode_bytes s)
unfolding encode_bytes
encode_bytes-IsPrintable [] = omega arith
encode_bytes-IsPrintable (c ∷ s) =
    encode_byte-IsPrintable c (encode_bytes s) (encode_bytes-IsPrintable s)

-- A literal holds no control character: no newline and no tab, whatever the string holds.
encode_string-IsPrintable : (s : Text) → All IsPrintable (encode_string s)
unfolding encode_string
encode_string-IsPrintable s = (omega arith, encode_bytes-IsPrintable s)

-- A reader of JSON string literals, written from the grammar of RFC 8259 and not from the encoder.
-- It stands between two characters, behind a backslash, or behind some of the digits of a `\u`.
data Mode : Type 0 where
  plain escaped : Mode
  digits : ℕ → ℕ → Mode

data Move : Type 0 where
  close fail : Move
  go : Mode → Move
  emit : ℕ → Move

escape : ℕ → Move
escape c =
    if c == b'"'
    then emit b'"'
    else if c == 0x5c
    then emit 0x5c
    else if c == b'/'
    then emit b'/'
    else if c == b'b'
    then emit 8
    else if c == b'f'
    then emit 12
    else if c == b'n'
    then emit 10
    else if c == b'r'
    then emit 13
    else if c == b't'
    then emit 9
    else if c == b'u'
    then go (digits 4 0)
    else fail

-- An escape above 0x7f would stand for several bytes, and is not read.
digit : ℕ → ℕ → Option ℕ → Move
digit left value none = fail
digit left value (some d) =
    let v = 16 * value + d in
    if left == 1 then (if ltb v 0x80 then emit v else fail) else go (digits (pred left) v)

advance : Mode → ℕ → Move
unfolding escape digit
advance plain c =
    if c == b'"'
    then close
    else if c == 0x5c
    then go escaped
    else if ltb c 0x20
    then fail
    else emit c
advance escaped c = escape c
advance (digits left value) c = digit left value (hex_value c)

prepend : ℕ → Option (Text × Text) → Option (Text × Text)
prepend b none = none
prepend b (some (s, rest)) = some (b ∷ s, rest)

-- The bytes of the literal whose opening quote has been read, and what follows it.
read_from : Mode → Text → Option (Text × Text)
read_from m [] = none
read_from m (c ∷ s) = elim (advance m c) [
  | close ↦ some ([], s)
  | fail ↦ none
  | go m' ↦ read_from m' s
  | emit b ↦ prepend b (read_from plain s)
]

pub read_string : Text → Option (Text × Text)
unfolding read_from advance prepend
read_string [] = none
read_string (c ∷ s) = if c == b'"' then read_from plain s else none

read_from-encode_byte :
    (c : ℕ) (s : Text) → c < 256 → read_from plain (encode_byte c s) ≡ prepend c (read_from plain s)
unfolding encode_byte read_from advance hex_value
read_from-encode_byte c s h = ground arith

encode_byte-append : (c : ℕ) (s rest : Text) → encode_byte c s ++ rest ≡ encode_byte c (s ++ rest)
unfolding encode_byte
encode_byte-append c s rest = ground arith

read_from-encode_bytes :
    (s rest : Text) → AreBytes s → read_from plain (encode_bytes s ++ rest) ≡ some (s, rest)
unfolding encode_bytes
read_from-encode_bytes [] rest h = unfold read_from advance in refl
read_from-encode_bytes (c ∷ s) rest h =
    rw
      (
        encode_byte-append c (encode_bytes s) rest,
        read_from-encode_byte c _ h.0,
        read_from-encode_bytes s rest h.1,
      )
      (unfold prepend in refl)

-- What the encoder writes for a byte string reads back as that string, and the reader stops behind
-- the closing quote.
pub read_string-encode_string :
    (s rest : Text) → AreBytes s → read_string (encode_string s ++ rest) ≡ some (s, rest)
unfolding read_string encode_string
read_string-encode_string s rest h = read_from-encode_bytes s rest h

-- Two byte strings with one literal are one.
pub encode_string_injective :
    (s t : Text) → AreBytes s → AreBytes t → encode_string s ≡ encode_string t → s ≡ t
encode_string_injective s t h k e =
    cc (read_string-encode_string s [] h, read_string-encode_string t [] k, e)
