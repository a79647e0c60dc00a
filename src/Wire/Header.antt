-- ===== src/Wire/Header.antt =====
-- packages/mariadb-wire-proto/src/packet/header.drift
use drift_mariadb_client.Base.{ℕ, ◌+◌, ◌*◌, ◌/◌, ◌%◌, ◌≤◌, ◌≡◌, arith, [], ◌∷◌, ◌++◌, Bytes}
use drift_mariadb_client.Base.{returned, raised, ltb, if◌then◌else◌, length}
use drift_mariadb_client.Base.Int.{ℤ, pos, negsuc}
use drift_mariadb_client.Wire.{Decoded, error_at, byte_at, invalid_payload_len, short_packet_header}
use drift_mariadb_client.Fixture.Framing.{WirePacket, encode}

pub record PacketHeader : Type 0 where
  pub payload_len : ℕ
  pub sequence_id : ℕ

abbrev pub max_payload_len : ℕ
max_payload_len = 16_777_215

unfoldable pub encode_packet_header : ℤ → ℕ → Decoded Bytes
encode_packet_header (negsuc n) sequence_id = raised (error_at invalid_payload_len 0)
encode_packet_header (pos payload_len) sequence_id =
    if ltb max_payload_len payload_len
    then raised (error_at invalid_payload_len 0)
    else returned
        (payload_len % 256 ∷ payload_len / 256 % 256 ∷ payload_len / 65536 % 256 ∷ sequence_id ∷ [])

unfoldable pub decode_packet_header : Bytes → Decoded PacketHeader
decode_packet_header input =
    if ltb (length input) 4
    then raised (error_at short_packet_header (length input))
    else returned (record {
      payload_len = byte_at input 0 + byte_at input 1 * 256 + byte_at input 2 * 65536;
      sequence_id = byte_at input 3;
    })

-- What a header says of the payload's length.
abbrev pub IsHeader : ℕ → ℕ → Bytes → Type 0
IsHeader n seq header =
    (n ≤ max_payload_len) × (header ≡ n % 256 ∷ n / 256 % 256 ∷ n / 65536 % 256 ∷ seq ∷ [])

pub encode_packet_header-IsHeader :
    (n seq : ℕ) (header : Bytes)
    → encode_packet_header (pos n) seq ≡ returned header
    → IsHeader n seq header
unfolding encode_packet_header
encode_packet_header-IsHeader n seq header h = ground arith

pub decode_packet_header-encode :
    (n seq : ℕ) (header more : Bytes)
    → encode_packet_header (pos n) seq ≡ returned header
    → decode_packet_header (header ++ more)
      ≡ returned (record { payload_len = n; sequence_id = seq })
unfolding decode_packet_header
decode_packet_header-encode n seq header more h =
    let (small, shape) = encode_packet_header-IsHeader n seq header h in
    let whole : n % 256 + n / 256 % 256 * 256 + n / 65536 % 256 * 65536 ≡ n = omega arith in
    rw (shape, whole) (ground arith)

-- When encode_packet_header returns a header for the length of a payload, then the header in
-- front of the payload is the packet as the capture tools cut it out of a stream.
pub encode_packet_header-encode :
    (p : WirePacket) (header : Bytes)
    → encode_packet_header (pos (length p.payload)) p.seq ≡ returned header
    → header ++ p.payload ≡ encode p
unfolding encode_packet_header encode
encode_packet_header-encode p header h = ground arith
