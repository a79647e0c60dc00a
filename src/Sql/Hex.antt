-- ===== src/Sql/Hex.antt =====
-- `bytes.fromhex` and strict UTF-8, and what they make of the extractor's output.
pub mod Utf8
use drift_mariadb_client.Base.{
  ℕ, zero, suc, ◌+◌, ◌-◌, ◌*◌, ◌/◌, ◌%◌, ◌≤◌, ◌<◌, ◌≡◌, refl, ap, ◌∙◌, arith,
}
use drift_mariadb_client.Base.{
  Bool, true, false, ◌&&◌, ◌||◌, Option, none, some, List, [], ◌∷◌, Text, Bytes, IsByte,
}
use drift_mariadb_client.Base.{leb, ltb, ◌==◌, nat_eq, if◌then◌else◌, All}
use drift_mariadb_client.Fixture.{hex, hex_digit}
use mathlib.Core.Option

-- The value of a hexadecimal digit, of either case.
unfoldable pub digit_value : ℕ → Option ℕ
digit_value c =
    if leb b'0' c && leb c b'9'
    then some (c - b'0')
    else if leb b'a' c && leb c b'f'
    then some (c - b'a' + 10)
    else if leb b'A' c && leb c b'F'
    then some (c - b'A' + 10)
    else none

-- The byte of two digits in front of the bytes of the rest.
abbrev add_byte : Option ℕ → Option ℕ → Option Bytes → Option Bytes
add_byte (some hi) (some lo) (some bs) = some ((hi * 16 + lo) ∷ bs)
add_byte _ _ _ = none

-- `bytes.fromhex(s)`: ASCII spaces may stand between bytes; `none` is the `ValueError`.
unfoldable pub from_hex : Text → Option Bytes
from_hex [] = some []
from_hex (c ∷ []) = if c == 32 || (leb 9 c && leb c 13) then some [] else none
from_hex (c ∷ d ∷ s) =
    let spaced = from_hex (d ∷ s) in
    let paired = add_byte (digit_value c) (digit_value d) (from_hex s) in
    if c == 32 || (leb 9 c && leb c 13) then spaced else paired

digit_value-hex_digit : (d : ℕ) → d < 16 → digit_value (hex_digit d) ≡ some d
unfolding digit_value
digit_value-hex_digit d h = ground arith

-- The characters of `bytes.hex` are no spaces.
hex_digit_ge : (d : ℕ) → 48 ≤ hex_digit d
hex_digit_ge d = ground arith

-- `bytes.fromhex(b.hex())` is `b`.
pub from_hex-hex : (bs : Bytes) → All IsByte bs → from_hex (hex bs) ≡ some bs
unfolding from_hex
from_hex-hex [] h = refl
from_hex-hex (b ∷ bs) (h, hs) =
    let whole : (b / 16) * 16 + b % 16 ≡ b = omega arith in
    rw
      (
        digit_value-hex_digit (b / 16) (omega arith),
        digit_value-hex_digit (b % 16) (omega arith),
        from_hex-hex bs hs,
        whole,
      )
      (ground (arith, hex_digit_ge (b / 16)))

abbrev is_continuation : ℕ → Bool
is_continuation b = leb 0x80 b && leb b 0xbf

-- The code point of a lead byte and its continuation bytes in front of the rest.
abbrev add_char : Bool → ℕ → Option Text → Option Text
add_char true c (some s) = some (c ∷ s)
add_char _ c _ = none

-- Two bytes: no overlong form. Three bytes: nor a surrogate. Four: at most U+10FFFF.
abbrev valid2 : ℕ → ℕ → Bool
valid2 b0 b1 = leb 0xc2 b0 && (leb b0 0xdf && is_continuation b1)

abbrev valid3 : ℕ → ℕ → ℕ → Bool
valid3 b0 b1 b2 =
    leb 0xe0 b0
    && (leb b0 0xef
        && (is_continuation b1
            && (is_continuation b2
                && ((ltb 0xe0 b0 || leb 0xa0 b1)
                    && ((ltb b0 0xed || ltb 0xed b0) || leb b1 0x9f)))))

abbrev valid4 : ℕ → ℕ → ℕ → ℕ → Bool
valid4 b0 b1 b2 b3 =
    leb 0xf0 b0
    && (leb b0 0xf4
        && (is_continuation b1
            && (is_continuation b2
                && (is_continuation b3
                    && ((ltb 0xf0 b0 || leb 0x90 b1) && (ltb b0 0xf4 || leb b1 0x8f))))))

-- `b.decode("utf-8", errors="strict")`; `none` is the `UnicodeDecodeError`.
unfoldable pub decode_utf8 : Bytes → Option Text
decode_utf8 [] = some []
decode_utf8 (b0 ∷ []) = if ltb b0 0x80 then some (b0 ∷ []) else none
decode_utf8 (b0 ∷ b1 ∷ []) =
    let one = add_char (ltb b0 0x80) b0 (decode_utf8 (b1 ∷ [])) in
    if ltb b0 0x80 then one else add_char (valid2 b0 b1) ((b0 - 0xc0) * 64 + (b1 - 0x80)) (some [])
decode_utf8 (b0 ∷ b1 ∷ b2 ∷ []) =
    let one = add_char (ltb b0 0x80) b0 (decode_utf8 (b1 ∷ b2 ∷ [])) in
    let two = add_char (valid2 b0 b1) ((b0 - 0xc0) * 64 + (b1 - 0x80)) (decode_utf8 (b2 ∷ [])) in
    if ltb b0 0x80
    then one
    else if ltb b0 0xe0
    then two
    else add_char (valid3 b0 b1 b2) ((b0 - 0xe0) * 4096 + (b1 - 0x80) * 64 + (b2 - 0x80)) (some [])
decode_utf8 (b0 ∷ b1 ∷ b2 ∷ b3 ∷ s) =
    let one = add_char (ltb b0 0x80) b0 (decode_utf8 (b1 ∷ b2 ∷ b3 ∷ s)) in
    let two =
      add_char (valid2 b0 b1) ((b0 - 0xc0) * 64 + (b1 - 0x80)) (decode_utf8 (b2 ∷ b3 ∷ s)) in
    let three =
      add_char (valid3 b0 b1 b2) ((b0 - 0xe0) * 4096 + (b1 - 0x80) * 64 + (b2 - 0x80))
        (decode_utf8 (b3 ∷ s)) in
    let four =
      add_char (valid4 b0 b1 b2 b3)
        ((b0 - 0xf0) * 262144 + (b1 - 0x80) * 4096 + (b2 - 0x80) * 64 + (b3 - 0x80))
        (decode_utf8 s) in
    if ltb b0 0x80 then one else if ltb b0 0xe0 then two else if ltb b0 0xf0 then three else four
