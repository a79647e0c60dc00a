-- ===== src/Perf/Measure/Captured.antt =====
-- What the gate measures of a connection through the proxy.
use drift_mariadb_client.Base.{ℕ, suc, Option, some, List, [], ◌∷◌}
use drift_mariadb_client.Base.{Text, length, ◌/◌}
use drift_mariadb_client.Base.Dict.{Dict}
use drift_mariadb_client.RunDir.{Event, Summary, RunDir}
use drift_mariadb_client.Capture.Recording.{Chunk, event_for}
use drift_mariadb_client.Capture.Faithful.{Faithful}
use drift_mariadb_client.Fixture.Framing.{WirePacket, stream_of}
use drift_mariadb_client.Perf.Baseline.{Result}
use drift_mariadb_client.Perf.Measure.{Measure}

somes : ℕ → List Chunk → List (Option Event)
somes i [] = []
somes i (c ∷ cs) = some (event_for i c) ∷ somes (suc i) cs

-- What is measured of packets that went both ways.
abbrev pub result_for : Text → ℕ → ℕ → Text → Summary → List WirePacket → List WirePacket → Result
result_for name iterations elapsed_ns path summary ps qs = record {
  name = name;
  iterations = iterations;
  elapsed_ms = elapsed_ns / 1_000_000;
  written_bytes = length (stream_of ps);
  read_bytes = length (stream_of qs);
  written_packets = length ps;
  read_packets = length qs;
  capture_duration_ms = summary.duration_ms;
  capture_run_dir = path;
}
