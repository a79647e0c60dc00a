-- ===== src/Fixture.antt =====
-- tools/wire_fixture_extract.py: from a capture directory to packets.
pub mod RoundTrip
pub mod Cut
pub mod EndToEnd
pub mod Captured
pub mod Framing
use drift_mariadb_client.Base.{
  ℕ, zero, suc, ◌+◌, ◌-◌, ◌*◌, ◌/◌, ◌%◌, ◌^◌, Bool, true, false, ◌&&◌, ◌||◌,
}
use drift_mariadb_client.Base.{Option, none, some, List, [], ◌∷◌, ◌++◌, map, codes, Text, Bytes}
use drift_mariadb_client.Base.{Outcome, returned, raised, ◌>>=◌, ltb, leb, ◌==◌, contains}
use drift_mariadb_client.Base.{nat_eq, text_eq, if◌then◌else◌, length, get_or, slice}
use drift_mariadb_client.Base.Dict
use drift_mariadb_client.Base.Dict.{Dict}
use drift_mariadb_client.Base.Order.{sort_by}
use drift_mariadb_client.RunDir.{Event, Line, blank, malformed, not_object, object, RunDir}

-- An entry of c2s_packets.json or s2c_packets.json.
pub record Packet : Type 0 where
  pub sequence_id : ℕ
  pub payload_len : ℕ
  pub payload_hex : Text

-- The exceptions, with the values in their messages. `out_of_rounds` is none of Python's: the fuel
-- of `packetize_loop` ran out.
pub data ExtractError : Type 0 where
  bad_json line_not_object no_index invalid_file_entry out_of_rounds : ExtractError
  file_not_found : Text → ExtractError
  truncated_header : ℕ → ExtractError
  tls_stream : Text → ℕ → ExtractError
  truncated_payload : Text → (off need have : ℕ) → ExtractError

abbrev pub Extract {ℓ} : Type ℓ → Type ℓ
Extract = Outcome ExtractError

read_lines : List Line → Extract (List Event)
read_lines [] = returned []
read_lines (blank ∷ lines) = read_lines lines
read_lines (malformed ∷ lines) = raised bad_json
read_lines (not_object ∷ lines) = raised line_not_object
read_lines (object ev ∷ lines) = do evs ← read_lines lines; returned (ev ∷ evs)

-- `int(e["index"])` for each event, beside the event.
index_events : List Event → Extract (List (ℕ × Event))
index_events [] = returned []
index_events (ev ∷ evs) = elim ev.index [
  | none ↦ raised no_index
  | some i ↦ index_events evs >>= λ keyed. returned ((i, ev) ∷ keyed)
]

abbrev index_le : ℕ × Event → ℕ × Event → Bool
index_le a b = leb a.0 b.0

abbrev event_of : ℕ × Event → Event
event_of a = a.1

unfoldable pub read_events : List Line → Extract (List Event)
unfolding read_lines index_events sort_by
read_events lines = do
  evs ← read_lines lines
  keyed ← index_events evs
  returned (map event_of (sort_by index_le keyed))

-- `ev.get("direction") != direction`
abbrev has_direction : Event → Text → Bool
has_direction ev direction = elim ev.direction [ none ↦ false | some d ↦ d == direction ]

unfoldable pub read_chunk : Dict Text Bytes → Event → Extract Bytes
unfolding text_eq
read_chunk files ev = elim ev.file [
  | none ↦ raised invalid_file_entry
  | some name ↦ elim (Dict.lookup name files) [
    | none ↦ raised (file_not_found name)
    | some content ↦ returned content
  ]
]

-- The chunks of one direction, joined.
unfoldable pub build_stream : Dict Text Bytes → List Event → Text → Extract Bytes
build_stream files [] direction = returned []
build_stream files (ev ∷ evs) direction =
    let rest = build_stream files evs direction in
    let whole = (do chunk ← read_chunk files ev; more ← rest; returned (chunk ++ more)) in
    if has_direction ev direction then whole else rest

-- `stream[i]`; the code reads inside the stream only.
abbrev pub byte_at : Bytes → ℕ → ℕ
byte_at stream i = get_or stream i 0

-- Content type, major and minor version of a TLS record at `pos`.
abbrev pub tls_record_at : Bytes → ℕ → Bool
tls_record_at stream pos =
    contains (20 ∷ 21 ∷ 22 ∷ 23 ∷ []) (byte_at stream pos)
    && (byte_at stream (pos + 1) == 3
        && contains (0 ∷ 1 ∷ 2 ∷ 3 ∷ 4 ∷ []) (byte_at stream (pos + 2)))

unfoldable pub looks_like_tls_record_prefix : Bytes → ℕ → Bool
unfolding nat_eq
looks_like_tls_record_prefix stream off =
    if leb (off + 5) (length stream) && tls_record_at stream off
    then true
    else if leb 4 off && leb (off + 1) (length stream)
    then (if ltb (length stream) (off - 4 + 5) then false else tls_record_at stream (off - 4))
    else false

-- `payload.hex()`
abbrev pub hex_digit : ℕ → ℕ
hex_digit d = if ltb d 10 then b'0' + d else b'a' + (d - 10)

abbrev pub hex : Bytes → Text
hex [] = []
hex (b ∷ bs) = hex_digit (b / 16) ∷ hex_digit (b % 16) ∷ hex bs

-- `b0 + (b1 << 8) + (b2 << 16)`
abbrev pub le24 : ℕ → ℕ → ℕ → ℕ
le24 b0 b1 b2 = b0 + b1 * 2 ^ 8 + b2 * 2 ^ 16

unfoldable pub packet_at : Bytes → ℕ → ℕ → Packet
packet_at stream off payload_len = record {
  sequence_id = byte_at stream (off + 3);
  payload_len = payload_len;
  payload_hex = hex (slice stream (off + 4) (off + 4 + payload_len));
}

abbrev pub payload_error : Bytes → Text → ℕ → ℕ → ExtractError
payload_error stream direction off payload_len =
    if looks_like_tls_record_prefix stream off
    then tls_stream direction off
    else truncated_payload direction off payload_len (length stream - off)

-- The `while` loop over `off`; each round takes four bytes at least.
unfoldable pub packetize_loop : ℕ → Bytes → Text → ℕ → List Packet → Extract (List Packet)
packetize_loop zero stream direction off packets =
    if ltb off (length stream) then raised out_of_rounds else returned packets
packetize_loop (suc fuel) stream direction off packets =
    let payload_len =
      le24 (byte_at stream off) (byte_at stream (off + 1)) (byte_at stream (off + 2)) in
    let rest =
      packetize_loop fuel stream direction (off + 4 + payload_len)
        (packets ++ (packet_at stream off payload_len ∷ [])) in
    if ltb off (length stream)
    then if ltb (length stream) (off + 4)
      then raised (truncated_header off)
      else if ltb (length stream) (off + 4 + payload_len)
      then raised (payload_error stream direction (off + 4) payload_len)
      else rest
    else returned packets

unfoldable pub packetize : Bytes → Text → Extract (List Packet)
unfolding packetize_loop packet_at looks_like_tls_record_prefix
packetize stream direction = packetize_loop (length stream) stream direction 0 []

-- The files of a fixture directory, but for the manifest.
pub record Fixture : Type 0 where
  pub c2s_stream : Bytes
  pub s2c_stream : Bytes
  pub c2s_packets : List Packet
  pub s2c_packets : List Packet

-- The `try` block of `main`.
unfoldable pub extract : RunDir → Extract Fixture
extract run_dir = do
  events ← read_events run_dir.lines
  c2s_stream ← build_stream run_dir.files events (codes "c2s")
  s2c_stream ← build_stream run_dir.files events (codes "s2c")
  c2s_packets ← packetize c2s_stream (codes "c2s")
  s2c_packets ← packetize s2c_stream (codes "s2c")
  returned (record {
    c2s_stream = c2s_stream;
    s2c_stream = s2c_stream;
    c2s_packets = c2s_packets;
    s2c_packets = s2c_packets;
  })

-- manifest.json
pub record Manifest : Type 0 where
  pub scenario : Text
  pub run_id : Text
  pub source_run_dir : Text
  pub c2s_packets : ℕ
  pub s2c_packets : ℕ

-- What stands at `<scenarios_root>/<scenario>/<run_id>` when `main` starts.
pub data Capture : Type 0 where
  no_run_dir no_events_file : Capture
  captured : RunDir → Capture

-- The exit status, and the files that `main` writes to the output directory, if any.
unfoldable pub finish : Text → Text → Text → Extract Fixture → ℕ × Option (Fixture × Manifest)
finish scenario run_id path (raised ex) = (1, none)
finish scenario run_id path (returned fixture) = (
  0,
  some (
    fixture,
    record {
      scenario = scenario;
      run_id = run_id;
      source_run_dir = path;
      c2s_packets = length fixture.c2s_packets;
      s2c_packets = length fixture.s2c_packets;
    },
  ),
)

-- `path` is the path of the run directory.
unfoldable pub main : Text → Text → Text → Capture → ℕ × Option (Fixture × Manifest)
unfolding extract finish read_events build_stream read_chunk packetize
main scenario run_id path no_run_dir = (2, none)
main scenario run_id path no_events_file = (2, none)
main scenario run_id path (captured run_dir) = finish scenario run_id path (extract run_dir)
