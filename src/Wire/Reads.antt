-- ===== src/Wire/Reads.antt =====
-- The decoders of packet/lenenc.drift on what its encoders push, at any place of an input.
use native.Mathlib.Nat.{add-zero, pow-suc}
use drift_mariadb_client.Base.{
  ℕ, zero, suc, ◌+◌, ◌-◌, ◌*◌, ◌/◌, ◌%◌, ◌^◌, ◌≤◌, ◌<◌, ◌≡◌, ◌≢◌, refl, sym, ap, ◌∙◌, arith, [],
  ◌∷◌, ◌++◌, append_assoc,
}
use drift_mariadb_client.Base.{
  Bytes, returned, ltb, leb, nat_eq, length, slice, Bool-cases, inl, inr,
}
use drift_mariadb_client.Base.{
  length-append, get_or-append_length, drop-length-append, take-length-append,
}
use drift_mariadb_client.Base.Int.{pos}
use drift_mariadb_client.Wire.{byte_at, uint}
use drift_mariadb_client.Wire.Lenenc.{
  put_rem, lenenc_int, get_rounds, decode_prefixed, decode_lenenc_int_at, take_bytes,
  decode_lenenc_bytes_at, encode_lenenc_int, encode_lenenc_string,
}

pub byte_at-front :
    (front x : Bytes) (i : ℕ) → byte_at (front ++ x) (length front + i) ≡ byte_at x i
byte_at-front front x i = get_or-append_length front x i 0

pub byte_at-start : (front x : Bytes) → byte_at (front ++ x) (length front) ≡ byte_at x 0
byte_at-start front x = rw (← add-zero (length front)) (byte_at-front front x 0)

byte_split : (r mul : ℕ) → r * mul ≡ r % 256 * mul + r / 256 * (mul * 256)
byte_split r mul =
    let e : r ≡ r % 256 + r / 256 * 256 = omega arith in ap (λ t. t * mul) e ∙ grind arith

wrap_last : (a q m : ℕ) → a + q * m < 2 ^ 64 → a + q * uint m ≡ a + q * m
wrap_last a zero m h = omega arith
wrap_last a (suc q) m h =
    let fits : m < 2 ^ 64 = grind arith in let e : uint m ≡ m = omega arith in rw e refl

-- The last round may wrap `mul` around; then nothing is left to multiply.
get_rounds-put_rem :
    (rounds v mul r : ℕ) (front rest : Bytes)
    → r < 256 ^ rounds
    → v + r * mul < 2 ^ 64
    → get_rounds rounds (front ++ (put_rem rounds r ++ rest)) (length front) v mul ≡ v + r * mul
unfolding get_rounds put_rem
get_rounds-put_rem zero v mul r front rest h fits = grind arith
get_rounds-put_rem (suc rounds) v mul r front rest h fits =
    let x = put_rem rounds (r / 256) ++ rest in
    let more = front ++ (r % 256 ∷ []) in
    let shifted : front ++ (r % 256 ∷ x) ≡ more ++ x = sym (append_assoc front (r % 256 ∷ []) x) in
    let long : suc (length front) ≡ length more =
      omega (arith, length-append front (r % 256 ∷ [])) in
    let low : uint (v + r % 256 * mul) ≡ v + r % 256 * mul = omega (arith, byte_split r mul) in
    let next : v + r % 256 * mul + r / 256 * uint (mul * 256) ≡ v + r * mul =
      wrap_last (v + r % 256 * mul) (r / 256) (mul * 256) (omega (arith, byte_split r mul))
      ∙ omega (arith, byte_split r mul) in
    rw (byte_at-start front (r % 256 ∷ x), low, shifted, long)
      (get_rounds-put_rem rounds (v + r % 256 * mul) (uint (mul * 256)) (r / 256) more rest
          (omega (arith, pow-suc 256 rounds)) (rw next fits)
        ∙ next)

-- The four shapes of an encoded number.
data Shape (v : ℕ) : Bytes → Type 0 where
  one : v < 251 → Shape v (v ∷ [])
  two : 251 ≤ v → v < 2 ^ 16 → Shape v (252 ∷ v % 256 ∷ v / 256 % 256 ∷ [])
  three : 2 ^ 16 ≤ v → v < 2 ^ 24 → Shape v (253 ∷ v % 256 ∷ v / 256 % 256 ∷ v / 65536 % 256 ∷ [])
  eight : 2 ^ 24 ≤ v → Shape v (254 ∷ put_rem 8 v)

lenenc_int-Shape : (v : ℕ) → Shape v (lenenc_int v)
unfolding lenenc_int
lenenc_int-Shape v = elim (Bool-cases (ltb v 251)) [
  | inl h1 ↦ rw h1 (one (ground arith))
  | inr h1 ↦ rw h1 (elim (Bool-cases (leb v 65535)) [
    | inl h2 ↦ rw h2 (two (ground arith) (ground arith))
    | inr h2 ↦ rw h2 (elim (Bool-cases (leb v 16_777_215)) [
      | inl h3 ↦ rw h3 (three (ground arith) (ground arith))
      | inr h3 ↦ rw h3 (eight (ground arith))
    ])
  ])
]

length-put_rem : (rounds rem : ℕ) → length (put_rem rounds rem) ≡ rounds
unfolding put_rem
length-put_rem zero rem = refl
length-put_rem (suc rounds) rem = ap suc (length-put_rem rounds (rem / 256))

abbrev ReadsInt : ℕ → Bytes → Type 0
ReadsInt v code =
    (front rest : Bytes)
    → v < 2 ^ 64
    → decode_lenenc_int_at (front ++ (code ++ rest)) (pos (length front))
      ≡ returned (record { value = v; next_offset = length front + length code })

Shape-ReadsInt : (v : ℕ) (code : Bytes) → Shape v code → ReadsInt v code
unfolding decode_lenenc_int_at decode_prefixed
Shape-ReadsInt v code (one h) front rest fits =
    rw (byte_at-start front (v ∷ rest)) (ground (arith, length-append front (v ∷ rest)))
Shape-ReadsInt v code (two lo h) front rest fits =
    let x = 252 ∷ v % 256 ∷ v / 256 % 256 ∷ rest in
    rw (byte_at-start front x, byte_at-front front x 1, byte_at-front front x 2)
      (ground (arith, length-append front x))
Shape-ReadsInt v code (three lo h) front rest fits =
    let x = 253 ∷ v % 256 ∷ v / 256 % 256 ∷ v / 65536 % 256 ∷ rest in
    rw
      (
        byte_at-start front x,
        byte_at-front front x 1,
        byte_at-front front x 2,
        byte_at-front front x 3,
      )
      (ground (arith, length-append front x))
Shape-ReadsInt v code (eight lo) front rest fits =
    let x = put_rem 8 v ++ rest in
    let shifted : front ++ (254 ∷ x) ≡ (front ++ (254 ∷ [])) ++ x =
      sym (append_assoc front (254 ∷ []) x) in
    let long : length front + 1 ≡ length (front ++ (254 ∷ [])) =
      omega (arith, length-append front (254 ∷ [])) in
    let whole : get_rounds 8 (front ++ (254 ∷ x)) (length front + 1) 0 1 ≡ v =
      rw (shifted, long)
        (get_rounds-put_rem 8 0 1 v (front ++ (254 ∷ [])) rest fits (omega arith) ∙ omega arith) in
    rw (byte_at-start front (254 ∷ x), whole)
      (ground (
        arith,
        length-append front (254 ∷ x),
        length-append (put_rem 8 v) rest,
        length-put_rem 8 v,
      ))

-- A number is read back at any place of an input, whatever follows.
pub decode_lenenc_int_at-lenenc_int :
    (front rest : Bytes) (v : ℕ)
    → v < 2 ^ 64
    → decode_lenenc_int_at (front ++ (lenenc_int v ++ rest)) (pos (length front))
      ≡ returned (record { value = v; next_offset = length front + length (lenenc_int v) })
decode_lenenc_int_at-lenenc_int front rest v =
    Shape-ReadsInt v (lenenc_int v) (lenenc_int-Shape v) front rest

slice_behind :
    (front s rest : Bytes) (lo hi : ℕ)
    → lo ≡ length front
    → hi ≡ length front + length s
    → slice (front ++ (s ++ rest)) lo hi ≡ s
slice_behind front s rest lo hi e h =
    let n : hi - lo ≡ length s = omega arith in
    rw (n, e, drop-length-append front (s ++ rest)) (take-length-append s rest)

-- What encode_lenenc_string returns for a string is read back by decode_lenenc_bytes_at, at any
-- offset and in front of anything, with the offset behind it, if it ends below 2^63.
pub decode_lenenc_bytes_at-encode :
    (front s rest code : Bytes)
    → encode_lenenc_string s ≡ returned code
    → length front + length code < 2 ^ 63
    → decode_lenenc_bytes_at (front ++ (code ++ rest)) (length front)
      ≡ returned (record { value = s; next_offset = length front + length code })
unfolding decode_lenenc_bytes_at encode_lenenc_string encode_lenenc_int take_bytes
decode_lenenc_bytes_at-encode front s rest code h fits =
    let n = lenenc_int (length s) in
    let shape : code ≡ n ++ s = ground arith in
    let long : length code ≡ length n + length s = rw shape (length-append n s) in
    let whole : front ++ (code ++ rest) ≡ front ++ (n ++ (s ++ rest)) =
      rw (shape, append_assoc n s rest) refl in
    let behind : front ++ (n ++ (s ++ rest)) ≡ (front ++ n) ++ (s ++ rest) =
      sym (append_assoc front n (s ++ rest)) in
    let front_long : length (front ++ n) ≡ length front + length n = length-append front n in
    let all_long : length (front ++ (n ++ (s ++ rest)))
        ≡ length front + length n + length s + length rest =
      rw behind (omega (arith, length-append (front ++ n) (s ++ rest), length-append s rest)) in
    let read = decode_lenenc_int_at-lenenc_int front (s ++ rest) (length s) (omega arith) in
    let cut : slice (front ++ (n ++ (s ++ rest))) (length front + length n)
          (length front + length n + length s)
        ≡ s =
      rw behind (slice_behind (front ++ n) s rest _ _ (sym front_long) (omega arith)) in
    rw (whole, read) (ground (arith, cut, all_long))

-- What the first byte of an encoded number tells.
abbrev HeadTells : ℕ → Bytes → Type 0
HeadTells v code =
    (rest : Bytes)
    → let byte = byte_at (code ++ rest) 0 in
      (byte ≢ 251) × (byte ≡ 254 → 9 ≤ length code) × (0 < length code)

Shape-HeadTells : (v : ℕ) (code : Bytes) → Shape v code → HeadTells v code
Shape-HeadTells v code (one h) rest = ground arith
Shape-HeadTells v code (two lo h) rest = ground arith
Shape-HeadTells v code (three lo h) rest = ground arith
Shape-HeadTells v code (eight lo) rest = ground (arith, length-put_rem 8 v)

-- It is not that of NULL, and 254 only where eight bytes follow.
pub lenenc_int-head : (v : ℕ) → HeadTells v (lenenc_int v)
lenenc_int-head v = Shape-HeadTells v (lenenc_int v) (lenenc_int-Shape v)
