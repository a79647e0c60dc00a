-- ===== src/Wire/Bounds.antt =====
-- What the decoders of packet/lenenc.drift return lies within the input and within a `Uint`.
use drift_mariadb_client.Base.{ℕ, zero, suc, ◌+◌, ◌-◌, ◌^◌, ◌≤◌, ◌<◌, ◌≡◌, arith, [], ◌∷◌}
use drift_mariadb_client.Base.{
  Bytes, IsByte, returned, >>=-eq-returned, leb, nat_eq, length, drop, length-take, length-drop,
  slice, All, Bool-cases, inl, inr,
}
use drift_mariadb_client.Base.Int.{pos}
use drift_mariadb_client.Wire.{byte_at}
use drift_mariadb_client.Wire.Lenenc.{
  LenEncIntDecoded, LenEncBytesDecoded, get_rounds, decode_prefixed, decode_lenenc_int_at,
  take_bytes, decode_lenenc_bytes_at,
}

byte_at-IsByte : (input : Bytes) (i : ℕ) → All IsByte input → byte_at input i < 256
byte_at-IsByte [] i h = omega arith
byte_at-IsByte (b ∷ bs) zero (h, hs) = h
byte_at-IsByte (b ∷ bs) (suc i) (h, hs) = byte_at-IsByte bs i hs

get_rounds-lt :
    (rounds : ℕ) (input : Bytes) (offset v mul : ℕ)
    → v < 2 ^ 64
    → get_rounds rounds input offset v mul < 2 ^ 64
unfolding get_rounds
get_rounds-lt zero input offset v mul h = h
get_rounds-lt (suc rounds) input offset v mul h =
    get_rounds-lt rounds input (suc offset) _ _ (omega arith)

-- A `Uint`, read from one to nine bytes of the input from `offset` on.
pub record Within (input : Bytes) (offset : ℕ) (d : LenEncIntDecoded) : Type 0 where
  pub is_uint : d.value < 2 ^ 64
  pub advances : offset < d.next_offset
  pub inside : d.next_offset ≤ length input
  pub at_most_nine : d.next_offset ≤ offset + 9

decode_prefixed-Within :
    (input : Bytes) (offset first : ℕ) (d : LenEncIntDecoded)
    → All IsByte input
    → first < 256
    → offset < length input
    → decode_prefixed input offset first ≡ returned d
    → Within input offset d
unfolding decode_prefixed
decode_prefixed-Within input offset first d bytes small lt h = ground (
  arith,
  byte_at-IsByte input (offset + 1) bytes,
  byte_at-IsByte input (offset + 2) bytes,
  byte_at-IsByte input (offset + 3) bytes,
  get_rounds-lt 8 input (offset + 1) 0 1 (omega arith),
)

-- If decode_lenenc_int_at returns for an input of bytes and an offset that is not negative, then
-- the value is below 2^64, and the next offset is one to nine bytes further and not past the end
-- of the input.
pub decode_lenenc_int_at-Within :
    (input : Bytes) (offset : ℕ) (d : LenEncIntDecoded)
    → All IsByte input
    → decode_lenenc_int_at input (pos offset) ≡ returned d
    → Within input offset d
unfolding decode_lenenc_int_at
decode_lenenc_int_at-Within input offset d bytes h = elim (Bool-cases (leb (length input) offset)) [
  | inl out ↦ absurd (grind (arith, h, out))
  | inr inside ↦
      decode_prefixed-Within input offset (byte_at input offset) d bytes
        (byte_at-IsByte input offset bytes) (ground arith) (rw inside at h)
]

-- The value is a stretch of the input that starts behind `offset` and ends at `next_offset`.
pub record IsCut (input : Bytes) (offset : ℕ) (d : LenEncBytesDecoded) : Type 0 where
  pub start : ℕ
  pub behind : offset < start
  pub ends : d.next_offset ≡ start + length d.value
  pub inside : d.next_offset ≤ length input
  pub is_slice : d.value ≡ slice input start d.next_offset

length-slice :
    (input : Bytes) (lo n : ℕ) → lo + n ≤ length input → length (slice input lo (lo + n)) ≡ n
length-slice input lo n h =
    let e : lo + n - lo ≡ n = omega arith in
    rw e (omega (arith, length-drop lo input, length-take n (drop lo input)))

abbrev IsTaken : Bytes → LenEncIntDecoded → LenEncBytesDecoded → Type 0
IsTaken input i d =
    (d.next_offset ≡ i.next_offset + i.value)
    × (i.next_offset + i.value ≤ length input)
    × (d.value ≡ slice input i.next_offset (i.next_offset + i.value))

take_bytes-IsTaken :
    (input : Bytes) (offset : ℕ) (i : LenEncIntDecoded) (d : LenEncBytesDecoded)
    → take_bytes input offset i ≡ returned d
    → IsTaken input i d
unfolding take_bytes
take_bytes-IsTaken input offset i d h = ground arith

IsTaken-IsCut :
    (input : Bytes) (offset : ℕ) (i : LenEncIntDecoded) (d : LenEncBytesDecoded)
    → offset < i.next_offset
    → IsTaken input i d
    → IsCut input offset d
IsTaken-IsCut input offset i d lt (ends, inside, cut) = record {
  start = i.next_offset;
  behind = lt;
  ends = rw (cut, length-slice input i.next_offset i.value inside) ends;
  inside = omega arith;
  is_slice = rw ends cut;
}

pub decode_lenenc_bytes_at-IsCut :
    (input : Bytes) (offset : ℕ) (d : LenEncBytesDecoded)
    → All IsByte input
    → decode_lenenc_bytes_at input offset ≡ returned d
    → IsCut input offset d
unfolding decode_lenenc_bytes_at
decode_lenenc_bytes_at-IsCut input offset d bytes h =
    let (i, read, rest) = >>=-eq-returned (decode_lenenc_int_at input (pos offset)) _ h in
    IsTaken-IsCut input offset i d (decode_lenenc_int_at-Within input offset i bytes read).advances
      (take_bytes-IsTaken input offset i d rest)
