-- ===== src/Fixture/Cut.antt =====
-- `_packetize` on a stream that stops inside a packet.
use drift_mariadb_client.Base.{ℕ, zero, suc, ◌+◌, ◌/◌, ◌%◌, ◌^◌, ◌<◌, ◌≡◌, refl, ap, ◌∙◌, arith}
use drift_mariadb_client.Base.{
  List, [], ◌∷◌, ◌++◌, append-nil, append_assoc, Text, Bytes, raised, ltb, if◌then◌else◌,
}
use drift_mariadb_client.Base.{length, length-append, take, length-take, All}
use drift_mariadb_client.Fixture.{
  Packet, ExtractError, truncated_header, le24, payload_error, packetize,
}
use drift_mariadb_client.Fixture.Framing.{
  WirePacket, encode, stream_of, FitsHeader, fixture_of, scan, packetize_loop-scan,
}
use drift_mariadb_client.Fixture.RoundTrip.{scan-encode, length-encode}

module _ (direction : Text) where
  -- The error for the first `k` bytes of a packet behind `front`.
  abbrev pub cut_error : Bytes → WirePacket → ℕ → ExtractError
  cut_error front p k =
      if ltb k 4
      then truncated_header (length front)
      else payload_error (front ++ take k (encode p)) direction (length front + 4)
          (length p.payload)

  scan-cut :
      (p : WirePacket) (k fuel : ℕ) (front : Bytes) (packets : List Packet)
      → FitsHeader p
      → 0 < k
      → k < length (encode p)
      → scan direction (suc fuel) front (take k (encode p)) packets ≡ raised (cut_error front p k)
  unfolding scan encode
  scan-cut p zero fuel front packets fits lo hi = absurd (omega arith)
  scan-cut p (suc zero) fuel front packets fits lo hi = refl
  scan-cut p (suc (suc zero)) fuel front packets fits lo hi = refl
  scan-cut p (suc (suc (suc zero))) fuel front packets fits lo hi = refl
  scan-cut p (suc (suc (suc (suc j)))) fuel front packets fits lo hi =
      let n = length p.payload in
      let e : le24 (n % 2 ^ 8) (n / 2 ^ 8 % 2 ^ 8) (n / 2 ^ 16) ≡ n = omega arith in
      rw e (ground (arith, length-take j p.payload))

  scan-stream_of_cut :
      (ps : List WirePacket) (p : WirePacket) (k fuel : ℕ) (front : Bytes) (packets : List Packet)
      → All FitsHeader ps
      → FitsHeader p
      → 0 < k
      → k < length (encode p)
      → length (stream_of ps) < fuel
      → scan direction fuel front (stream_of ps ++ take k (encode p)) packets
        ≡ raised (cut_error (front ++ stream_of ps) p k)
  scan-stream_of_cut [] p k zero front packets hs fits lo hi h = absurd (omega arith)
  scan-stream_of_cut [] p k (suc fuel) front packets hs fits lo hi h =
      rw (append-nil front) (scan-cut p k fuel front packets fits lo hi)
  scan-stream_of_cut (q ∷ ps) p k zero front packets hs fits lo hi h = absurd (omega arith)
  scan-stream_of_cut (q ∷ ps) p k (suc fuel) front packets (hq, hs) fits lo hi h =
      rw (append_assoc (encode q) (stream_of ps) (take k (encode p))) (
        scan-encode direction fuel front (stream_of ps ++ take k (encode p)) packets q hq
        ∙ scan-stream_of_cut ps p k fuel (front ++ encode q) (packets ++ (fixture_of q ∷ [])) hs
            fits lo hi
            (omega (arith, length-encode direction q, length-append (encode q) (stream_of ps)))
        ∙ ap (λ f. raised (cut_error f p k)) (append_assoc front (encode q) (stream_of ps)))

  -- On the wire encoding of packets that fit the header, and the first k bytes of one more, at
  -- least one and not all, _packetize raises: for k below 4 that the header is truncated at the
  -- offset of that packet, and else the error of a truncated payload, or of a stream that looks
  -- like TLS, at the offset of its payload with the length that its header names.
  pub packetize-cut :
      (ps : List WirePacket) (p : WirePacket) (k : ℕ)
      → All FitsHeader ps
      → FitsHeader p
      → 0 < k
      → k < length (encode p)
      → packetize (stream_of ps ++ take k (encode p)) direction
        ≡ raised (cut_error (stream_of ps) p k)
  unfolding packetize
  packetize-cut ps p k hs fits lo hi =
      let stream = stream_of ps ++ take k (encode p) in
      packetize_loop-scan direction (length stream) [] stream []
      ∙ scan-stream_of_cut ps p k (length stream) [] [] hs fits lo hi (
          omega (arith, length-append (stream_of ps) (take k (encode p)), length-take k (encode p)))
