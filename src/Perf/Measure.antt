-- ===== src/Perf/Measure.antt =====
-- `_start_proxy`, `_load_events`, `_build_stream` and `_run_scenario` of tools/perf_baseline.py. A key that
-- an event lacks is `none`; values of another type than the proxy writes do not occur.
pub mod Captured
use drift_mariadb_client.Base.{
  ℕ, ◌-◌, ◌/◌, Bool, true, false, Option, none, some, List, [], ◌∷◌, ◌++◌,
}
use drift_mariadb_client.Base.{
  Text, Bytes, codes, Outcome, returned, raised, ◌>>=◌, map_outcome, ◌==◌, text_eq, if◌then◌else◌,
}
use drift_mariadb_client.Base.Dict.{Dict, lookup}
use drift_mariadb_client.Base.Strings.{strip, strip_prefix, starts_with}
use drift_mariadb_client.RunDir.{Event, Line, blank, malformed, not_object, object, Summary, RunDir}
use drift_mariadb_client.Gate.Process.{Code, is_success}
use drift_mariadb_client.Perf.Count.{CountError, count_packets}
use drift_mariadb_client.Perf.Baseline.{Result}

pub data MeasureError : Type 0 where
  proxy_exited_early no_output_directory no_output_path proxy_hangs binary_failed : MeasureError
  bad_json not_subscriptable : MeasureError
  proxy_failed : Code → MeasureError
  key_error file_not_found : Text → MeasureError
  bad_capture : CountError → MeasureError

abbrev pub Measure {ℓ} : Type ℓ → Type ℓ
Measure = Outcome MeasureError

-- `s.split(": ", 1)[1]`, if there is one.
unfoldable pub after_colon : Text → Option Text
unfolding strip_prefix
after_colon [] = none
after_colon (c ∷ s) =
    let later = after_colon s in
    elim (strip_prefix (codes ": ") (c ∷ s)) [ none ↦ later | some rest ↦ some rest ]

abbrev output_prefix : Text
output_prefix = codes "[wire-capture] output: "

abbrev waiting_prefix : Text
waiting_prefix = codes "[wire-capture] waiting for one client connection..."

abbrev reported : Option Text → Measure Text
reported none = raised no_output_directory
reported (some run_dir) = returned run_dir

-- The loop over the lines that the proxy prints, up to the end of its output.
unfoldable pub start_proxy : List Text → Option Text → Measure Text
unfolding strip after_colon strip_prefix
start_proxy [] run_dir = raised proxy_exited_early
start_proxy (line ∷ lines) run_dir =
    let same = start_proxy lines run_dir in
    let rest = elim (after_colon (strip line)) as (λ _. Measure Text) [
      | none ↦ raised no_output_path
      | some path ↦ start_proxy lines (some path)
    ] in
    if starts_with line output_prefix
    then rest
    else if starts_with line waiting_prefix
    then reported run_dir
    else same

-- An element is `none` if it is no object.
unfoldable pub load_events : List Line → Measure (List (Option Event))
load_events [] = returned []
load_events (blank ∷ lines) = load_events lines
load_events (malformed ∷ lines) = raised bad_json
load_events (not_object ∷ lines) = load_events lines >>= λ evs. returned (none ∷ evs)
load_events (object ev ∷ lines) = load_events lines >>= λ evs. returned (some ev ∷ evs)

-- `(run_dir / str(event["file"])).read_bytes()`
unfoldable pub read_file : Dict Text Bytes → Event → Measure Bytes
read_file files ev = elim ev.file [
  | none ↦ raised (key_error (codes "file"))
  | some name ↦ elim (lookup name files) [
    | none ↦ raised (file_not_found name)
    | some content ↦ returned content
  ]
]

unfoldable pub build_stream : Dict Text Bytes → List (Option Event) → Text → Measure Bytes
unfolding read_file
build_stream files [] direction = returned []
build_stream files (none ∷ events) direction = raised not_subscriptable
build_stream files (some event ∷ events) direction =
    let rest = build_stream files events direction in
    let whole = (do chunk ← read_file files event; more ← rest; returned (chunk ++ more)) in
    elim event.direction [
      | none ↦ raised (key_error (codes "direction"))
      | some d ↦ if d == direction then whole else rest
    ]

unfoldable pub counted : Bytes → Measure ℕ
unfolding count_packets
counted stream = map_outcome bad_capture (λ n. n) (count_packets stream)

-- What the scenario, the clock and the files say, from the end of the proxy on.
unfoldable pub measure : Text → ℕ → ℕ → Text → Summary → RunDir → Measure Result
unfolding load_events build_stream counted
measure name iterations elapsed_ns path summary run_dir = do
  events ← load_events run_dir.lines
  c2s_stream ← build_stream run_dir.files events (codes "c2s")
  s2c_stream ← build_stream run_dir.files events (codes "s2c")
  packets_written ← counted c2s_stream
  packets_read ← counted s2c_stream
  returned (record {
    name = name;
    iterations = iterations;
    elapsed_ms = elapsed_ns / 1_000_000;
    written_bytes = summary.bytes_c2s;
    read_bytes = summary.bytes_s2c;
    written_packets = packets_written;
    read_packets = packets_read;
    capture_duration_ms = summary.duration_ms;
    capture_run_dir = path;
  })

-- The `finally` block goes before a failure of the binary. `none`: the proxy does not end in time.
abbrev pub after_binary : Bool → Option Code → Measure Bool
after_binary ok none = raised proxy_hangs
after_binary ok (some code) =
    if is_success code
    then (if ok then returned true else raised binary_failed)
    else raised (proxy_failed code)

unfoldable pub run_scenario :
    Text → ℕ → List Text → Bool → Option Code → ℕ → Summary → RunDir → Measure Result
unfolding start_proxy measure
run_scenario name iterations printed ok rc elapsed_ns summary run_dir = do
  path ← start_proxy printed none
  ended ← after_binary ok rc
  measure name iterations elapsed_ns path summary run_dir
