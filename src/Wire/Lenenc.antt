-- ===== src/Wire/Lenenc.antt =====
-- packages/mariadb-wire-proto/src/packet/lenenc.drift
use drift_mariadb_client.Base.{ℕ, zero, suc, ◌+◌, ◌-◌, ◌*◌, ◌/◌, ◌%◌, ◌^◌, [], ◌∷◌, ◌++◌}
use drift_mariadb_client.Base.{
  Text, Bytes, Outcome, returned, raised, ◌>>=◌, ltb, leb, ◌==◌, nat_eq, if◌then◌else◌, length,
  slice,
}
use drift_mariadb_client.Base.Int.{ℤ, pos, negsuc}
use drift_mariadb_client.Wire.{
  Decoded, error, error_at, byte_at, uint, lenenc_out_of_bounds, lenenc_null, lenenc_truncated,
  lenenc_invalid_prefix, lenenc_invalid_length, int_overflow, lenenc_utf8, Utf8Error,
}

pub record LenEncIntDecoded : Type 0 where
  pub value : ℕ
  pub next_offset : ℕ

pub record LenEncBytesDecoded : Type 0 where
  pub value : Bytes
  pub next_offset : ℕ

-- The loop over `rem`.
unfoldable pub put_rem : ℕ → ℕ → Bytes
put_rem zero rem = []
put_rem (suc rounds) rem = rem % 256 ∷ put_rem rounds (rem / 256)

-- The bytes that `encode_lenenc_int` pushes.
unfoldable pub lenenc_int : ℕ → Bytes
lenenc_int value =
    if ltb value 251
    then value ∷ []
    else if leb value 65535
    then 252 ∷ value % 256 ∷ value / 256 % 256 ∷ []
    else if leb value 16_777_215
    then 253 ∷ value % 256 ∷ value / 256 % 256 ∷ value / 65536 % 256 ∷ []
    else 254 ∷ put_rem 8 value

-- It has no failure.
unfoldable pub encode_lenenc_int : ℕ → Decoded Bytes
encode_lenenc_int value = returned (lenenc_int value)

-- The loop over `v` and `mul`, in `Uint`s; `offset` is that of the next byte.
unfoldable pub get_rounds : ℕ → Bytes → ℕ → ℕ → ℕ → ℕ
get_rounds zero input offset v mul = v
get_rounds (suc rounds) input offset v mul =
    get_rounds rounds input (suc offset) (uint (v + byte_at input offset * mul)) (uint (mul * 256))

-- What `decode_lenenc_int_at` reads behind the prefix `first`.
unfoldable pub decode_prefixed : Bytes → ℕ → ℕ → Decoded LenEncIntDecoded
decode_prefixed input offset first =
    let two = byte_at input (offset + 1) + byte_at input (offset + 2) * 256 in
    if ltb first 251
    then returned (record { value = first; next_offset = offset + 1 })
    else if first == 251
    then raised (error_at lenenc_null offset)
    else if first == 252
    then if ltb (length input) (offset + 3)
      then raised (error_at lenenc_truncated offset)
      else returned (record { value = two; next_offset = offset + 3 })
    else if first == 253
    then if ltb (length input) (offset + 4)
      then raised (error_at lenenc_truncated offset)
      else returned
          (record { value = two + byte_at input (offset + 3) * 65536; next_offset = offset + 4 })
    else if first == 254
    then if ltb (length input) (offset + 9)
      then raised (error_at lenenc_truncated offset)
      else returned
          (record { value = get_rounds 8 input (offset + 1) 0 1; next_offset = offset + 9 })
    else raised (error_at lenenc_invalid_prefix offset)

unfoldable pub decode_lenenc_int_at : Bytes → ℤ → Decoded LenEncIntDecoded
decode_lenenc_int_at input (negsuc n) = raised (error lenenc_out_of_bounds (negsuc n))
decode_lenenc_int_at input (pos offset) =
    if leb (length input) offset
    then raised (error_at lenenc_out_of_bounds offset)
    else decode_prefixed input offset (byte_at input offset)

-- `encode_lenenc_string` of the bytes of a string.
unfoldable pub encode_lenenc_string : Bytes → Decoded Bytes
encode_lenenc_string s = do out ← encode_lenenc_int (length s); returned (out ++ s)

-- `cast<Int>` makes a negative number of a value from 2 ^ 63 on.
unfoldable pub take_bytes : Bytes → ℕ → LenEncIntDecoded → Decoded LenEncBytesDecoded
take_bytes input offset decoded =
    let end = decoded.next_offset + decoded.value in
    if leb (2 ^ 63) decoded.value
    then raised (error_at lenenc_invalid_length offset)
    else if leb (2 ^ 63) end
    then raised (error_at int_overflow decoded.next_offset)
    else if ltb (length input) end
    then raised (error_at lenenc_truncated decoded.next_offset)
    else returned (record { value = slice input decoded.next_offset end; next_offset = end })

unfoldable pub decode_lenenc_bytes_at : Bytes → ℕ → Decoded LenEncBytesDecoded
decode_lenenc_bytes_at input offset = do
  decoded ← decode_lenenc_int_at input (pos offset)
  take_bytes input offset decoded

pub record LenEncStringDecoded : Type 0 where
  pub value : Text
  pub next_offset : ℕ

-- The standard library's text decoder is a parameter.
module _ (utf8_from_bytes : Bytes → Outcome Utf8Error Text) where
  unfoldable pub text_of : LenEncBytesDecoded → Decoded LenEncStringDecoded
  text_of bytes = elim (utf8_from_bytes bytes.value) as (λ _. Decoded LenEncStringDecoded) [
    | returned s ↦ returned (record { value = s; next_offset = bytes.next_offset })
    | raised e ↦
        raised (error_at (lenenc_utf8 e.tag) (bytes.next_offset - length bytes.value + e.offset))
  ]

  unfoldable pub decode_lenenc_string_at : Bytes → ℕ → Decoded LenEncStringDecoded
  decode_lenenc_string_at input offset = do
    bytes ← decode_lenenc_bytes_at input offset
    text_of bytes
