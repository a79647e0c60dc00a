-- ===== src/Fixture/Framing.antt =====
-- The packet format by itself, and the loop of `_packetize` as a parser of what is left.
use native.Mathlib.Nat.{add-zero}
use drift_mariadb_client.Base.{ℕ, zero, suc, ◌+◌, ◌-◌, ◌/◌, ◌%◌, ◌^◌, ◌≤◌, ◌<◌, ◌≡◌}
use drift_mariadb_client.Base.{List, [], ◌∷◌, ◌++◌, append_assoc, arith, Text, Bytes}
use drift_mariadb_client.Base.{
  returned, raised, ltb, if◌then◌else◌, length, length-append, take, drop,
}
use drift_mariadb_client.Base.{
  length-take, take-append-drop, get_or-append_length, drop-append_length,
}
use drift_mariadb_client.Fixture.{Packet, out_of_rounds, truncated_header, Extract, hex}
use drift_mariadb_client.Fixture.{le24, packet_at, byte_at, payload_error, packetize_loop}

-- A packet on the wire.
pub record WirePacket : Type 0 where
  pub seq : ℕ
  pub payload : Bytes

-- Three bytes of length, lowest first, the sequence number, the payload.
unfoldable pub encode : WirePacket → Bytes
encode p =
    length p.payload % 2 ^ 8
    ∷ length p.payload / 2 ^ 8 % 2 ^ 8
    ∷ length p.payload / 2 ^ 16
    ∷ p.seq
    ∷ p.payload

abbrev pub stream_of : List WirePacket → Bytes
stream_of [] = []
stream_of (p ∷ ps) = encode p ++ stream_of ps

abbrev pub FitsHeader : WirePacket → Type 0
FitsHeader p = length p.payload < 2 ^ 24

-- The fixture entry of a packet.
abbrev pub fixture_of : WirePacket → Packet
fixture_of p = record {
  sequence_id = p.seq;
  payload_len = length p.payload;
  payload_hex = hex p.payload;
}

-- The entry for the packet at the head of a stream whose first four bytes are these.
abbrev pub found_packet : ℕ → ℕ → ℕ → ℕ → Bytes → Packet
found_packet b0 b1 b2 b3 t = record {
  sequence_id = b3;
  payload_len = le24 b0 b1 b2;
  payload_hex = hex (take (le24 b0 b1 b2) t);
}

module _ (direction : Text) where
  -- The loop over what is left behind `front`.
  unfoldable pub scan : ℕ → Bytes → Bytes → List Packet → Extract (List Packet)
  scan fuel front [] packets = returned packets
  scan zero front (b ∷ rest) packets = raised out_of_rounds
  scan (suc fuel) front (b0 ∷ b1 ∷ b2 ∷ b3 ∷ t) packets =
      let n = le24 b0 b1 b2 in
      let rest =
        scan fuel (front ++ (b0 ∷ b1 ∷ b2 ∷ b3 ∷ take n t)) (drop n t)
          (packets ++ (found_packet b0 b1 b2 b3 t ∷ [])) in
      if ltb (length t) n
      then raised (payload_error (front ++ (b0 ∷ b1 ∷ b2 ∷ b3 ∷ t)) direction (length front + 4) n)
      else rest
  scan (suc fuel) front (b ∷ rest) packets = raised (truncated_header (length front))

  module _ (front : Bytes) (b0 b1 b2 b3 : ℕ) (t : Bytes) where
    abbrev whole : Bytes
    whole = front ++ (b0 ∷ b1 ∷ b2 ∷ b3 ∷ t)

    byte_at-whole : (i : ℕ) → byte_at whole (length front + i) ≡ byte_at (b0 ∷ b1 ∷ b2 ∷ b3 ∷ t) i
    byte_at-whole i = get_or-append_length front (b0 ∷ b1 ∷ b2 ∷ b3 ∷ t) i 0

    byte_at-whole_start : byte_at whole (length front) ≡ b0
    byte_at-whole_start = rw (← add-zero (length front)) (byte_at-whole 0)

    packet_at-whole :
        (n : ℕ)
        → packet_at whole (length front) n
          ≡ record { sequence_id = b3; payload_len = n; payload_hex = hex (take n t) }
    unfolding packet_at
    packet_at-whole n =
        let cut : length front + 4 + n - (length front + 4) ≡ n = omega arith in
        rw (byte_at-whole 3, cut, drop-append_length front (b0 ∷ b1 ∷ b2 ∷ b3 ∷ t) 4)

    next_round :
        (fuel n : ℕ) (packets : List Packet)
        → n ≤ length t
        → packetize_loop fuel whole direction (length front + 4 + n) packets
          ≡ packetize_loop fuel
              ((front ++ (b0 ∷ b1 ∷ b2 ∷ b3 ∷ take n t)) ++ drop n t)
              direction
              (length (front ++ (b0 ∷ b1 ∷ b2 ∷ b3 ∷ take n t)))
              packets
    next_round fuel n packets h =
        let off : length (front ++ (b0 ∷ b1 ∷ b2 ∷ b3 ∷ take n t)) ≡ length front + 4 + n =
          omega (arith, length-append front (b0 ∷ b1 ∷ b2 ∷ b3 ∷ take n t), length-take n t) in
        rw (off, append_assoc, take-append-drop)

  pub packetize_loop-scan :
      (fuel : ℕ) (front rest : Bytes) (packets : List Packet)
      → packetize_loop fuel (front ++ rest) direction (length front) packets
        ≡ scan fuel front rest packets
  unfolding packetize_loop scan
  packetize_loop-scan zero front [] packets = ground (arith, length-append front [])
  packetize_loop-scan zero front (b ∷ rest) packets = ground (arith, length-append front (b ∷ rest))
  packetize_loop-scan (suc fuel) front [] packets = ground (arith, length-append front [])
  packetize_loop-scan (suc fuel) front (b0 ∷ []) packets =
      ground (arith, length-append front (b0 ∷ []))
  packetize_loop-scan (suc fuel) front (b0 ∷ b1 ∷ []) packets =
      ground (arith, length-append front (b0 ∷ b1 ∷ []))
  packetize_loop-scan (suc fuel) front (b0 ∷ b1 ∷ b2 ∷ []) packets =
      ground (arith, length-append front (b0 ∷ b1 ∷ b2 ∷ []))
  packetize_loop-scan (suc fuel) front (b0 ∷ b1 ∷ b2 ∷ b3 ∷ t) packets =
      let n = le24 b0 b1 b2 in
      let found = found_packet b0 b1 b2 b3 t in
      rw
        (
          byte_at-whole_start front b0 b1 b2 b3 t,
          byte_at-whole front b0 b1 b2 b3 t 1,
          byte_at-whole front b0 b1 b2 b3 t 2,
          packet_at-whole front b0 b1 b2 b3 t n,
        )
        (ground (
          arith,
          length-append front (b0 ∷ b1 ∷ b2 ∷ b3 ∷ t),
          next_round front b0 b1 b2 b3 t fuel n (packets ++ (found ∷ [])),
          packetize_loop-scan fuel (front ++ (b0 ∷ b1 ∷ b2 ∷ b3 ∷ take n t)) (drop n t)
              (packets ++ (found ∷ [])),
        ))
