-- ===== src/Sql/Hex/Utf8.antt =====
-- Strict UTF-8 decodes what an encoder writes, for every text.
use drift_mariadb_client.Base.{ℕ, ◌+◌, ◌-◌, ◌*◌, ◌/◌, ◌%◌, ◌≤◌, ◌<◌, ◌≡◌, refl, ◌∙◌, arith}
use drift_mariadb_client.Base.{true, false, ◌⊎◌, inl, inr, some, [], ◌∷◌}
use drift_mariadb_client.Base.{Text, Bytes, IsByte, Bool-cases, ltb, if◌then◌else◌, All}
use drift_mariadb_client.Sql.Hex.{add_char, valid2, valid3, valid4, decode_utf8}

-- A code point that is no surrogate.
abbrev pub IsScalar : ℕ → Type 0
IsScalar c = (c < 0xd800) ⊎ ((0xe000 ≤ c) × (c < 0x110000))

abbrev cont : ℕ → ℕ
cont x = 0x80 + x % 64

unfoldable pub encode_char : ℕ → Bytes → Bytes
encode_char c rest =
    if ltb c 0x80
    then c ∷ rest
    else if ltb c 0x800
    then (0xc0 + c / 64) ∷ cont c ∷ rest
    else if ltb c 0x10000
    then (0xe0 + c / 4096) ∷ cont (c / 64) ∷ cont c ∷ rest
    else (0xf0 + c / 262144) ∷ cont (c / 4096) ∷ cont (c / 64) ∷ cont c ∷ rest

abbrev pub encode_utf8 : Text → Bytes
encode_utf8 [] = []
encode_utf8 (c ∷ s) = encode_char c (encode_utf8 s)

below_false : (a b : ℕ) → b ≤ a → ltb a b ≡ false
below_false a b h = ground arith

below_true : (a b : ℕ) → a < b → ltb a b ≡ true
below_true a b h = ground arith

decode_one :
    (b0 : ℕ) (s : Bytes) → b0 < 0x80 → decode_utf8 (b0 ∷ s) ≡ add_char true b0 (decode_utf8 s)
unfolding decode_utf8
decode_one b0 [] h = ground arith
decode_one b0 (b1 ∷ []) h = ground arith
decode_one b0 (b1 ∷ b2 ∷ []) h = ground arith
decode_one b0 (b1 ∷ b2 ∷ b3 ∷ s) h = ground arith

decode_two :
    (b0 b1 : ℕ) (s : Bytes)
    → 0x80 ≤ b0
    → b0 < 0xe0
    → decode_utf8 (b0 ∷ b1 ∷ s)
      ≡ add_char (valid2 b0 b1) ((b0 - 0xc0) * 64 + (b1 - 0x80)) (decode_utf8 s)
unfolding decode_utf8
decode_two b0 b1 [] lo hi = rw (below_false b0 0x80 lo)
decode_two b0 b1 (b2 ∷ []) lo hi = rw (below_false b0 0x80 lo, below_true b0 0xe0 hi)
decode_two b0 b1 (b2 ∷ b3 ∷ s) lo hi = rw (below_false b0 0x80 lo, below_true b0 0xe0 hi)

decode_three :
    (b0 b1 b2 : ℕ) (s : Bytes)
    → 0xe0 ≤ b0
    → b0 < 0xf0
    → decode_utf8 (b0 ∷ b1 ∷ b2 ∷ s)
      ≡ add_char
          (valid3 b0 b1 b2)
          ((b0 - 0xe0) * 4096 + (b1 - 0x80) * 64 + (b2 - 0x80))
          (decode_utf8 s)
unfolding decode_utf8
decode_three b0 b1 b2 [] lo hi = rw (below_false b0 0x80 (omega arith), below_false b0 0xe0 lo)
decode_three b0 b1 b2 (b3 ∷ s) lo hi =
    rw (below_false b0 0x80 (omega arith), below_false b0 0xe0 lo, below_true b0 0xf0 hi)

decode_four :
    (b0 b1 b2 b3 : ℕ) (s : Bytes)
    → 0xf0 ≤ b0
    → decode_utf8 (b0 ∷ b1 ∷ b2 ∷ b3 ∷ s)
      ≡ add_char
          (valid4 b0 b1 b2 b3)
          ((b0 - 0xf0) * 262144 + (b1 - 0x80) * 4096 + (b2 - 0x80) * 64 + (b3 - 0x80))
          (decode_utf8 s)
unfolding decode_utf8
decode_four b0 b1 b2 b3 s lo =
    rw
      (below_false b0 0x80 (omega arith), below_false b0 0xe0 (omega arith), below_false b0 0xf0 lo)

two_bytes :
    (c : ℕ) (s : Bytes)
    → 0x80 ≤ c
    → c < 0x800
    → decode_utf8 ((0xc0 + c / 64) ∷ cont c ∷ s) ≡ add_char true c (decode_utf8 s)
two_bytes c s lo hi =
    let valid : valid2 (0xc0 + c / 64) (cont c) ≡ true = ground arith in
    let value : (0xc0 + c / 64 - 0xc0) * 64 + (cont c - 0x80) ≡ c = omega arith in
    decode_two (0xc0 + c / 64) (cont c) s (omega arith) (omega arith) ∙ rw (valid, value)

three_bytes :
    (c : ℕ) (s : Bytes)
    → IsScalar c
    → 0x800 ≤ c
    → c < 0x10000
    → decode_utf8 ((0xe0 + c / 4096) ∷ cont (c / 64) ∷ cont c ∷ s) ≡ add_char true c (decode_utf8 s)
three_bytes c s scalar lo hi =
    let valid : valid3 (0xe0 + c / 4096) (cont (c / 64)) (cont c) ≡ true = ground arith in
    let value : (0xe0 + c / 4096 - 0xe0) * 4096 + (cont (c / 64) - 0x80) * 64 + (cont c - 0x80)
        ≡ c =
      omega arith in
    decode_three (0xe0 + c / 4096) (cont (c / 64)) (cont c) s (omega arith) (omega arith)
    ∙ rw (valid, value)

four_bytes :
    (c : ℕ) (s : Bytes)
    → 0x10000 ≤ c
    → c < 0x110000
    → decode_utf8 ((0xf0 + c / 262144) ∷ cont (c / 4096) ∷ cont (c / 64) ∷ cont c ∷ s)
      ≡ add_char true c (decode_utf8 s)
four_bytes c s lo hi =
    let valid : valid4 (0xf0 + c / 262144) (cont (c / 4096)) (cont (c / 64)) (cont c) ≡ true =
      ground arith in
    let value : (0xf0 + c / 262144 - 0xf0) * 262144
          + (cont (c / 4096) - 0x80) * 4096
          + (cont (c / 64) - 0x80) * 64
          + (cont c - 0x80)
        ≡ c =
      omega arith in
    decode_four (0xf0 + c / 262144) (cont (c / 4096)) (cont (c / 64)) (cont c) s (omega arith)
    ∙ rw (valid, value)

-- One character at a time.
decode-encode_char :
    (c : ℕ) (s : Bytes)
    → IsScalar c
    → decode_utf8 (encode_char c s) ≡ add_char true c (decode_utf8 s)
unfolding encode_char
decode-encode_char c s h = elim (Bool-cases (ltb c 0x80)) [
  | inl one ↦ rw one (decode_one c s (ground arith))
  | inr more ↦ elim (Bool-cases (ltb c 0x800)) [
    | inl two ↦ rw (more, two) (two_bytes c s (ground arith) (ground arith))
    | inr more' ↦ elim (Bool-cases (ltb c 0x10000)) [
      | inl three ↦ rw (more, more', three) (three_bytes c s h (ground arith) (ground arith))
      | inr four ↦ rw (more, more', four) (four_bytes c s (ground arith) (ground arith))
    ]
  ]
]

-- `s.encode("utf-8").decode("utf-8")` is `s`.
pub decode_utf8-encode_utf8 : (s : Text) → All IsScalar s → decode_utf8 (encode_utf8 s) ≡ some s
decode_utf8-encode_utf8 [] h = unfold decode_utf8 in refl
decode_utf8-encode_utf8 (c ∷ s) (h, hs) =
    decode-encode_char c (encode_utf8 s) h ∙ rw (decode_utf8-encode_utf8 s hs)

encode_char-IsByte :
    (c : ℕ) (rest : Bytes) → IsScalar c → All IsByte rest → All IsByte (encode_char c rest)
unfolding encode_char
encode_char-IsByte c rest h hs = ground arith

pub encode_utf8-IsByte : (s : Text) → All IsScalar s → All IsByte (encode_utf8 s)
encode_utf8-IsByte [] h = tt
encode_utf8-IsByte (c ∷ s) (h, hs) =
    encode_char-IsByte c (encode_utf8 s) h (encode_utf8-IsByte s hs)
