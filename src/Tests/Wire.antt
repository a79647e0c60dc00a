-- ===== src/Tests/Wire.antt =====
-- tools/wire_capture_proxy.py, tools/wire_fixture_extract.py and `_count_packets` on one short connection.
use drift_mariadb_client.Base.{take}
use drift_mariadb_client.Fixture.Cut.{cut_error, packetize-cut}
use drift_mariadb_client.Base.{ℕ, codes}
use drift_mariadb_client.Sql.Queries.{Command, com_query}
use drift_mariadb_client.Base.{◌≡◌, ◌≢◌, refl, arith, List, [], ◌∷◌, ◌++◌, map, Bytes, codes}
use drift_mariadb_client.Base.{returned, raised, map_outcome, length, All}
use drift_mariadb_client.Base.Int.{pos}
use drift_mariadb_client.RunDir.{Summary, client, server}
use drift_mariadb_client.Capture.{
  received, cut_off, sending, numbered, Round, idle, ready, exits, run_proxy,
}
use drift_mariadb_client.Capture.Loop.{fresh_dir}
use drift_mariadb_client.Capture.Calm.{IsCalm}
use drift_mariadb_client.Fixture.{tls_stream, truncated_header, out_of_rounds, packetize}
use drift_mariadb_client.Fixture.Framing.{WirePacket, encode, stream_of, FitsHeader, fixture_of}
use drift_mariadb_client.Fixture.RoundTrip.{
  packetize-stream_of, packetize_sound, packetize-ne-out_of_rounds,
}
use drift_mariadb_client.Fixture.EndToEnd.{Counts, run_proxy-Counts}
use drift_mariadb_client.Perf.Count.{count_packets, count_error, count_packets-packetize}

-- A greeting from the server, and COM_QUERY `X` from the client in two chunks.
abbrev greeting : List WirePacket
greeting = record { seq = 0; payload = 10 ∷ [] } ∷ []

abbrev query : List WirePacket
query = record { seq = 0; payload = 3 ∷ 88 ∷ [] } ∷ []

abbrev session : List Round
session =
    ready ((server, received (1 ∷ 0 ∷ 0 ∷ 0 ∷ 10 ∷ []) 7) ∷ [])
    ∷ idle
    ∷ ready ((client, received (2 ∷ 0 ∷ 0 ∷ []) 8) ∷ [])
    ∷ ready ((client, received (0 ∷ 3 ∷ 88 ∷ []) 9) ∷ (server, received [] 9) ∷ [])
    ∷ []

session_exit : (run_proxy 5 3_000_000 session fresh_dir).0 ≡ exits 0
unfolding run_proxy
session_exit = refl

session-IsCalm : All IsCalm session
session-IsCalm = ground arith

-- Ctrl-C between `sendall` and the file of the chunk: the server has the bytes, the directory not.
abbrev cut_session : List Round
cut_session = ready ((client, cut_off (1 ∷ 2 ∷ []) 7 (sending 2)) ∷ []) ∷ []

cut_run :
    ((run_proxy 5 3_000_000 cut_session fresh_dir).0 ≡ exits 130)
    × ((run_proxy 5 3_000_000 cut_session fresh_dir).2.to_server ≡ 1 ∷ 2 ∷ [])
    × ((run_proxy 5 3_000_000 cut_session fresh_dir).2.run_dir ≡ fresh_dir)
unfolding run_proxy
cut_run = (refl, refl, refl)

-- Ctrl-C after `idx` was assigned: a chunk is counted, its bytes not.
abbrev uncounted_session : List Round
uncounted_session = ready ((client, cut_off (1 ∷ 2 ∷ []) 7 numbered) ∷ []) ∷ []

uncounted_run :
    ((run_proxy 5 3_000_000 uncounted_session fresh_dir).2.idx ≡ 1)
    × ((run_proxy 5 3_000_000 uncounted_session fresh_dir).2.total_c2s ≡ 0)
unfolding run_proxy
uncounted_run = (refl, refl)

abbrev query_bytes : Bytes
query_bytes = 2 ∷ 0 ∷ 0 ∷ 0 ∷ 3 ∷ 88 ∷ []

query_encoded : stream_of query ≡ query_bytes
unfolding encode
query_encoded = refl

packetize-query : packetize query_bytes (codes "c2s") ≡ returned (map fixture_of query)
unfolding packetize
packetize-query = refl

packetize_tls :
    packetize (22 ∷ 3 ∷ 1 ∷ 0 ∷ 80 ∷ []) (codes "c2s") ≡ raised (tls_stream (codes "c2s") 4)
unfolding packetize
packetize_tls = refl

packetize_short : packetize (query_bytes ++ (1 ∷ [])) (codes "c2s") ≡ raised (truncated_header 6)
unfolding packetize
packetize_short = refl

packetize-stream_of_example :
    packetize (stream_of query) (codes "c2s") ≡ returned (map fixture_of query)
packetize-stream_of_example = packetize-stream_of (codes "c2s") query (omega arith)

packetize_sound_example :
    (ps : List WirePacket) × (stream_of ps ≡ query_bytes)
    × (map fixture_of ps ≡ map fixture_of query)
    × All FitsHeader ps
packetize_sound_example =
    packetize_sound (codes "c2s") query_bytes (map fixture_of query) (omega arith) packetize-query

packetize-ne-out_of_rounds_example : packetize (1 ∷ 2 ∷ []) (codes "c2s") ≢ raised out_of_rounds
packetize-ne-out_of_rounds_example = packetize-ne-out_of_rounds (codes "c2s") (1 ∷ 2 ∷ [])

count_packets-packetize_example :
    count_packets query_bytes ≡ map_outcome count_error length (packetize query_bytes (codes "c2s"))
count_packets-packetize_example = count_packets-packetize query_bytes (codes "c2s") (omega arith)

abbrev session_summary : Summary
session_summary = record {
  start_ns = 5;
  end_ns = 3_000_000;
  duration_ms = pos 2;
  chunks = 3;
  bytes_c2s = 6;
  bytes_s2c = 5;
  status = codes "ok";
}

run_proxy-Counts_example : Counts session_summary (run_proxy 5 3_000_000 session fresh_dir).2
unfolding run_proxy
run_proxy-Counts_example = run_proxy-Counts 5 3_000_000 session session_summary session-IsCalm refl

abbrev commands : List (ℕ × Command)
commands = (0, com_query (codes "X")) ∷ []

abbrev query_packet : WirePacket
query_packet = record { seq = 0; payload = 3 ∷ 88 ∷ [] }

packetize-cut_example :
    packetize (stream_of greeting ++ take 5 (encode query_packet)) (codes "c2s")
    ≡ raised (cut_error (codes "c2s") (stream_of greeting) query_packet 5)
packetize-cut_example =
    packetize-cut (codes "c2s") greeting query_packet 5 (omega arith) (omega arith) (omega arith)
      (unfold encode in omega arith)
