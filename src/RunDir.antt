-- ===== src/RunDir.antt =====
-- A capture directory, tests/fixtures/scenarios/bin/<scenario>/<run-id>: what
-- tools/wire_capture_proxy.py writes and tools/wire_fixture_extract.py and
-- tools/perf_baseline.py read.
use drift_mariadb_client.Base.{ℕ, Option, List, Text, Bytes, codes}
use drift_mariadb_client.Base.Dict.{Dict}
use drift_mariadb_client.Base.Int.{ℤ}

-- A JSON object on a line of events.jsonl. `none`: the key is missing, or holds a value of another type.
pub record Event : Type 0 where
  pub index : Option ℕ
  pub direction : Option Text
  pub bytes : Option ℕ
  pub ts_ns : Option ℕ
  pub file : Option Text

-- A line of events.jsonl as `json.loads` reads it.
pub data Line : Type 0 where
  blank malformed not_object : Line
  object : Event → Line

-- summary.json
pub record Summary : Type 0 where
  pub start_ns : ℕ
  pub end_ns : ℕ
  pub duration_ms : ℤ
  pub chunks : ℕ
  pub bytes_c2s : ℕ
  pub bytes_s2c : ℕ
  pub status : Text

-- events.jsonl, and the chunk files by name.
pub record RunDir : Type 0 where
  pub lines : List Line
  pub files : Dict Text Bytes

-- Which socket the bytes come from.
pub data Side : Type 0 where
  client server : Side

abbrev pub label : Side → Text
label client = codes "c2s"
label server = codes "s2c"
