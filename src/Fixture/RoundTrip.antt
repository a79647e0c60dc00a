-- ===== src/Fixture/RoundTrip.antt =====
-- `_packetize` against the packet format, on every stream.
use drift_mariadb_client.Base.{ℕ, zero, suc, ◌+◌, ◌/◌, ◌%◌, ◌^◌, ◌≤◌, ◌≡◌, refl, sym, ap, ◌∙◌}
use drift_mariadb_client.Base.{
  List, [], ◌∷◌, ◌++◌, map, append-nil, append_assoc, arith, Text, Bytes, IsByte,
}
use drift_mariadb_client.Base.{
  ◌≢◌, inl, inr, returned, raised, ltb, Bool-cases, length, length-append, take, drop,
}
use drift_mariadb_client.Base.{
  length-take, length-drop, take-append-drop, take-length-append, drop-length-append, All, All-drop,
}
use drift_mariadb_client.Fixture.{Packet, out_of_rounds}
use drift_mariadb_client.Fixture.{le24, packetize}
use drift_mariadb_client.Fixture.Framing.{
  WirePacket, encode, stream_of, FitsHeader, fixture_of, found_packet, scan, packetize_loop-scan,
}

module _ (direction : Text) where
  -- One round on a packet that is there.
  pub scan-encode :
      (fuel : ℕ) (front rest : Bytes) (packets : List Packet) (p : WirePacket)
      → FitsHeader p
      → scan direction (suc fuel) front (encode p ++ rest) packets
        ≡ scan direction fuel (front ++ encode p) rest (packets ++ (fixture_of p ∷ []))
  unfolding scan encode
  scan-encode fuel front rest packets p h =
      let n = length p.payload in
      let e : le24 (n % 2 ^ 8) (n / 2 ^ 8 % 2 ^ 8) (n / 2 ^ 16) ≡ n = omega arith in
      rw (e, take-length-append, drop-length-append) (ground (arith, length-append p.payload rest))

  pub length-encode : (p : WirePacket) → length (encode p) ≡ length p.payload + 4
  unfolding encode
  length-encode p = omega arith

  scan-stream_of :
      (ps : List WirePacket) (fuel : ℕ) (front : Bytes) (packets : List Packet)
      → All FitsHeader ps
      → length (stream_of ps) ≤ fuel
      → scan direction fuel front (stream_of ps) packets ≡ returned (packets ++ map fixture_of ps)
  scan-stream_of [] fuel front packets hs h = rw append-nil (unfold scan in refl)
  scan-stream_of (p ∷ ps) zero front packets hs h =
      absurd (omega (arith, length-encode p, length-append (encode p) (stream_of ps)))
  scan-stream_of (p ∷ ps) (suc fuel) front packets (hp, hs) h =
      scan-encode fuel front (stream_of ps) packets p hp
      ∙ scan-stream_of ps fuel (front ++ encode p) (packets ++ (fixture_of p ∷ [])) hs
          (omega (arith, length-encode p, length-append (encode p) (stream_of ps)))
      ∙ ap returned (append_assoc packets (fixture_of p ∷ []) (map fixture_of ps))

  -- On the wire encoding of any packets that fit the header, _packetize returns exactly their
  -- fixture entries.
  pub packetize-stream_of :
      (ps : List WirePacket)
      → All FitsHeader ps
      → packetize (stream_of ps) direction ≡ returned (map fixture_of ps)
  unfolding packetize
  packetize-stream_of ps hs =
      packetize_loop-scan direction (length (stream_of ps)) [] (stream_of ps) []
      ∙ scan-stream_of ps (length (stream_of ps)) [] [] hs (omega arith)

  -- What a parse of `rest` has found.
  abbrev Cuts : Bytes → List Packet → List Packet → Type 0
  Cuts rest packets out =
      (ps : List WirePacket) × (stream_of ps ≡ rest)
      × (packets ++ map fixture_of ps ≡ out)
      × All FitsHeader ps

  encode-received :
      (b0 b1 b2 b3 : ℕ) (t : Bytes)
      → IsByte b0
      → IsByte b1
      → IsByte b2
      → le24 b0 b1 b2 ≤ length t
      → encode (record { seq = b3; payload = take (le24 b0 b1 b2) t }) ++ drop (le24 b0 b1 b2) t
        ≡ b0 ∷ b1 ∷ b2 ∷ b3 ∷ t
  unfolding encode
  encode-received b0 b1 b2 b3 t h0 h1 h2 h =
      let n : length (take (le24 b0 b1 b2) t) ≡ le24 b0 b1 b2 =
        omega (arith, length-take (le24 b0 b1 b2) t) in
      let e0 : le24 b0 b1 b2 % 2 ^ 8 ≡ b0 = omega arith in
      let e1 : le24 b0 b1 b2 / 2 ^ 8 % 2 ^ 8 ≡ b1 = omega arith in
      let e2 : le24 b0 b1 b2 / 2 ^ 16 ≡ b2 = omega arith in rw (n, e0, e1, e2, take-append-drop)

  -- The packet that a round has read goes before those of the rest.
  Cuts-cons :
      (b0 b1 b2 b3 : ℕ) (t : Bytes) (packets out : List Packet)
      → IsByte b0
      → IsByte b1
      → IsByte b2
      → le24 b0 b1 b2 ≤ length t
      → Cuts (drop (le24 b0 b1 b2) t) (packets ++ (found_packet b0 b1 b2 b3 t ∷ [])) out
      → Cuts (b0 ∷ b1 ∷ b2 ∷ b3 ∷ t) packets out
  Cuts-cons b0 b1 b2 b3 t packets out h0 h1 h2 h (ps, whole, found, hs) =
      let n = le24 b0 b1 b2 in
      let size : length (take n t) ≡ n = omega (arith, length-take n t) in
      (
        record { seq = b3; payload = take n t } ∷ ps,
        rw whole (encode-received b0 b1 b2 b3 t h0 h1 h2 h),
        rw size (
            sym (append_assoc packets (found_packet b0 b1 b2 b3 t ∷ []) (map fixture_of ps))
            ∙ found),
        (omega arith, hs),
      )

  scan-Cuts :
      (fuel : ℕ) (front rest : Bytes) (packets out : List Packet)
      → All IsByte rest
      → scan direction fuel front rest packets ≡ returned out
      → Cuts rest packets out
  unfolding scan
  scan-Cuts zero front [] packets out bs e = ([], refl, ground (arith, append-nil packets), tt)
  scan-Cuts (suc fuel) front [] packets out bs e =
      ([], refl, ground (arith, append-nil packets), tt)
  scan-Cuts zero front (b ∷ rest) packets out bs e = cc
  scan-Cuts (suc fuel) front (b0 ∷ []) packets out bs e = cc
  scan-Cuts (suc fuel) front (b0 ∷ b1 ∷ []) packets out bs e = cc
  scan-Cuts (suc fuel) front (b0 ∷ b1 ∷ b2 ∷ []) packets out bs e = cc
  scan-Cuts (suc fuel) front (b0 ∷ b1 ∷ b2 ∷ b3 ∷ t) packets out (h0, (h1, (h2, (h3, ht)))) e =
      elim (Bool-cases (ltb (length t) (le24 b0 b1 b2))) [
        | inl short ↦ cc (rw short at e)
        | inr enough ↦ Cuts-cons b0 b1 b2 b3 t packets out h0 h1 h2 (ground arith) (
            scan-Cuts fuel (front ++ (b0 ∷ b1 ∷ b2 ∷ b3 ∷ take (le24 b0 b1 b2) t))
              (drop (le24 b0 b1 b2) t) (packets ++ (found_packet b0 b1 b2 b3 t ∷ [])) out
              (All-drop IsByte (le24 b0 b1 b2) t ht) (rw enough at e))
      ]

  -- If _packetize returns packets for a stream of bytes, then the stream is the wire encoding of
  -- packets that each fit the header, and what was returned is the list of their fixture
  -- entries.
  pub packetize_sound :
      (stream : Bytes) (found : List Packet)
      → All IsByte stream
      → packetize stream direction ≡ returned found
      → (ps : List WirePacket) × (stream_of ps ≡ stream)
        × (map fixture_of ps ≡ found)
        × All FitsHeader ps
  unfolding packetize
  packetize_sound stream found bs e =
      scan-Cuts (length stream) [] stream [] found bs
        (sym (packetize_loop-scan direction (length stream) [] stream []) ∙ e)

  scan-ne-out_of_rounds :
      (fuel : ℕ) (front rest : Bytes) (packets : List Packet)
      → length rest ≤ fuel
      → scan direction fuel front rest packets ≢ raised out_of_rounds
  unfolding scan
  scan-ne-out_of_rounds zero front [] packets h e = cc
  scan-ne-out_of_rounds (suc fuel) front [] packets h e = cc
  scan-ne-out_of_rounds zero front (b ∷ rest) packets h e = absurd (omega arith)
  scan-ne-out_of_rounds (suc fuel) front (b0 ∷ []) packets h e = cc
  scan-ne-out_of_rounds (suc fuel) front (b0 ∷ b1 ∷ []) packets h e = cc
  scan-ne-out_of_rounds (suc fuel) front (b0 ∷ b1 ∷ b2 ∷ []) packets h e = cc
  scan-ne-out_of_rounds (suc fuel) front (b0 ∷ b1 ∷ b2 ∷ b3 ∷ t) packets h e = ground (
    arith,
    length-drop (le24 b0 b1 b2) t,
    scan-ne-out_of_rounds fuel (front ++ (b0 ∷ b1 ∷ b2 ∷ b3 ∷ take (le24 b0 b1 b2) t))
        (drop (le24 b0 b1 b2) t) (packets ++ (found_packet b0 b1 b2 b3 t ∷ [])),
  )

  -- The loop of _packetize ends on every stream: the length of the stream is enough fuel.
  pub packetize-ne-out_of_rounds :
      (stream : Bytes) → packetize stream direction ≢ raised out_of_rounds
  unfolding packetize
  packetize-ne-out_of_rounds stream e =
      scan-ne-out_of_rounds (length stream) [] stream [] (omega arith)
        (sym (packetize_loop-scan direction (length stream) [] stream []) ∙ e)
