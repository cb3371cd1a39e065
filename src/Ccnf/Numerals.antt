-- ===== src/Ccnf/Numerals.antt =====
-- `strconv.FormatInt(n, 10)` and the hexadecimal of `%x` and of encoding/hex.
use nexus_go_ccnf_ref.Base.{
  ℕ, zero, suc, ◌+◌, ◌-◌, ◌*◌, ◌/◌, ◌%◌, ◌<◌, ◌≡◌, ap, Text, ℤ, pos, negsuc, [], ◌∷◌, Option, none,
  some, ◌&&◌, if◌then◌else◌, ltb, leb, length, arith, All, refl,
}

-- The decimal digits of `n`, in front of `rest`; `fuel` bounds their number.
decimal_from : ℕ → ℕ → Text → Text
decimal_from zero n rest = rest
decimal_from (suc fuel) n rest =
    let more = decimal_from fuel (n / 10) ((48 + n % 10) ∷ rest) in
    if ltb n 10 then (48 + n) ∷ rest else more

unfoldable pub decimal : ℕ → Text
unfolding decimal_from
decimal n = decimal_from (suc n) n []

unfoldable pub format_int : ℤ → Text
unfolding decimal
format_int (pos n) = decimal n
format_int (negsuc n) = b'-' ∷ decimal (suc n)

-- `hexChars[d]`, for d below 16
unfoldable pub hex_char : ℕ → ℕ
hex_char d = if ltb d 10 then 48 + d else 87 + d

unfoldable pub hex_encode : Text → Text
unfolding hex_char
hex_encode [] = []
hex_encode (b ∷ s) = hex_char (b / 16) ∷ hex_char (b % 16) ∷ hex_encode s

-- The value of a hexadecimal digit, in either case.
unfoldable pub hex_value : ℕ → Option ℕ
hex_value c =
    if leb 48 c && leb c 57
    then some (c - 48)
    else if leb 97 c && leb c 102
    then some (c - 87)
    else if leb 65 c && leb c 70
    then some (c - 55)
    else none

join_digits : Option ℕ → Option ℕ → Option Text → Option Text
join_digits (some hi) (some lo) (some rest) = some ((16 * hi + lo) ∷ rest)
join_digits _ _ _ = none

-- `hex.DecodeString`; `none` is its error
unfoldable pub hex_decode : Text → Option Text
unfolding hex_value join_digits
hex_decode [] = some []
hex_decode (c ∷ []) = none
hex_decode (c ∷ d ∷ s) = join_digits (hex_value c) (hex_value d) (hex_decode s)

-- A byte string.
abbrev pub AreBytes : Text → Type 0
AreBytes = All (λ b. b < 256)

hex_value-hex_char : (d : ℕ) → d < 16 → hex_value (hex_char d) ≡ some d
unfolding hex_value hex_char
hex_value-hex_char d h = ground arith

pub hex_decode-hex_encode : (s : Text) → AreBytes s → hex_decode (hex_encode s) ≡ some s
unfolding hex_decode hex_encode
hex_decode-hex_encode [] h = refl
hex_decode-hex_encode (b ∷ s) h =
    let hi : b / 16 < 16 = omega (arith, h.0) in
    let lo : b % 16 < 16 = omega arith in
    let whole : 16 * (b / 16) + b % 16 ≡ b = omega arith in
    unfold join_digits in
    rw (hex_value-hex_char (b / 16) hi, hex_value-hex_char (b % 16) lo, hex_decode-hex_encode s h.1)
      (ap (λ x. some (x ∷ s)) whole)

pub length-hex_encode : (s : Text) → length (hex_encode s) ≡ 2 * length s
unfolding hex_encode
length-hex_encode [] = omega arith
length-hex_encode (b ∷ s) = omega (arith, length-hex_encode s)

decimal_example :
    format_int (negsuc 1713225599)
    ≡ b'-' ∷ b'1' ∷ b'7' ∷ b'1' ∷ b'3' ∷ b'2' ∷ b'2' ∷ b'5' ∷ b'6' ∷ b'0' ∷ b'0' ∷ []
unfolding format_int
decimal_example = refl
