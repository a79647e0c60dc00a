-- ===== src/Sql.antt =====
-- tools/write_scenario_sql.py: SQL transcripts of the packetized fixtures.
pub mod Hex
pub mod Queries
pub mod Newlines
pub mod Targets
pub mod Twice
pub mod Pipeline
use drift_mariadb_client.Base.{ℕ, zero, suc, ◌+◌, Bool, true, false, ◌&&◌, Option, none, some}
use drift_mariadb_client.Base.{
  List, [], ◌∷◌, ◌++◌, map, Text, Bytes, codes, Outcome, returned, raised, ◌>>=◌,
}
use drift_mariadb_client.Base.{◌==◌, nat_eq, text_eq, if◌then◌else◌}
use drift_mariadb_client.Base.Dict.{Dict, lookup, insert, keys}
use drift_mariadb_client.Base.Order.{sort_by, text_le}
use drift_mariadb_client.Base.Strings.{strip, ends_with, strip_prefix}
use drift_mariadb_client.Sql.Hex.{digit_value, from_hex, decode_utf8}

-- `UnicodeDecodeError`, which the `except ValueError` round `fromhex` does not reach.
pub data SqlError : Type 0 where
  not_utf8 : SqlError

abbrev pub Sql {ℓ} : Type ℓ → Type ℓ
Sql = Outcome SqlError

-- `query = b[1:].decode("utf-8").strip()`, and `None` if it is empty.
unfoldable pub query_text : Option Text → Sql (Option Text)
query_text none = raised not_utf8
query_text (some text) = elim (strip text) [ [] ↦ returned none | c ∷ s ↦ returned (some (c ∷ s)) ]

unfoldable pub query_of_bytes : Bytes → Sql (Option Text)
query_of_bytes [] = returned none
query_of_bytes (b ∷ bs) = if b == 3 then query_text (decode_utf8 bs) else returned none

-- Fewer than two characters hold no byte.
unfoldable pub decode_query : Text → Sql (Option Text)
decode_query [] = returned none
decode_query (c ∷ []) = returned none
decode_query (c ∷ d ∷ s) = elim (from_hex (c ∷ d ∷ s)) [
  | none ↦ returned none
  | some b ↦ query_of_bytes b
]

-- An entry of c2s_packets.json, by its `payload_hex`: `none` if that is no string.
unfoldable pub queries_of : List (Option Text) → Sql (List Text)
queries_of [] = returned []
queries_of (none ∷ packets) = queries_of packets
queries_of (some payload_hex ∷ packets) = do
  q ← decode_query payload_hex
  rest ← queries_of packets
  returned (elim q [ none ↦ rest | some text ↦ text ∷ rest ])

-- `"\n".join(lines)`
abbrev pub join_lines : List Text → Text
join_lines [] = []
join_lines (s ∷ []) = s
join_lines (s ∷ t ∷ ss) = s ++ (10 ∷ join_lines (t ∷ ss))

abbrev statement : Text → Text
statement q = if ends_with q (codes ";") then q else q ++ codes ";"

abbrev statements : List Text → List Text
statements [] = [] ∷ []
statements (q ∷ qs) = statement q ∷ statements qs

abbrev body_lines : List Text → List Text
body_lines [] =
    codes "-- No COM_QUERY packets found in this scenario."
    ∷ codes "-- This is expected for handshake-only captures."
    ∷ []
    ∷ []
body_lines (q ∷ qs) = statements (q ∷ qs)

unfoldable pub render_sql : Text → Text → List Text → Text
unfolding strip_prefix
render_sql scenario run_id queries = join_lines (
    (codes "-- Scenario: " ++ scenario)
    ∷ (codes "-- Run: " ++ run_id)
    ∷ codes "-- Extracted from COM_QUERY packets in fixture capture."
    ∷ []
    ∷ body_lines queries)

-- The text files, by path.
abbrev pub Disk : Type 0
Disk = Dict Text Text

-- What `read_text` makes of the text of a file: "\r\n" and "\r" are "\n", as Python's universal
-- newlines have it. The flag tells whether the character before was "\r".
unfoldable pub newlines_from : Bool → Text → Text
newlines_from after_cr [] = []
newlines_from after_cr (c ∷ s) =
    let same_line = newlines_from false s in
    let new_line = newlines_from true s in
    if c == 13 then 10 ∷ new_line else if after_cr && c == 10 then same_line else c ∷ same_line

unfoldable pub read_text : Text → Text
unfolding newlines_from
read_text s = newlines_from false s

-- Whether the file was written, and the disk after it. `write_text` leaves the text as it is: the
-- line separator of the system is "\n".
unfoldable pub write_if_changed : Text → Text → Disk → ℕ × Disk
unfolding read_text
write_if_changed path content disk =
    if elim (lookup path disk) [ none ↦ false | some old ↦ read_text old == content ]
    then (0, disk)
    else (1, insert path content disk)

-- manifest.json of a packetized run. `scenario` and `run_id` are what `str` makes of the values, `none`
-- where the key is missing; `source_run_dir` is `none` also where it is no string.
pub record Manifest : Type 0 where
  pub scenario : Option Text
  pub run_id : Option Text
  pub source_run_dir : Option Text

-- A packetized run directory: its path, its name and its parent's, and its two files if both are there.
pub record PacketDir : Type 0 where
  pub path : Text
  pub parent_name : Text
  pub name : Text
  pub files : Option (Manifest × List (Option Text))

abbrev or_default : Option Text → Text → Text
or_default none d = d
or_default (some s) d = s

abbrev pub sql_path : Text → Text
sql_path dir = dir ++ codes "/scenario.sql"

-- The second target only where the manifest names a directory that is not blank.
unfoldable pub source_target : Option Text → List Text
unfolding strip
source_target none = []
source_target (some dir) = elim (strip dir) [ [] ↦ [] | c ∷ s ↦ sql_path dir ∷ [] ]

unfoldable pub write_all : List Text → Text → Disk → ℕ × Disk
write_all [] content disk = (0, disk)
write_all (t ∷ ts) content disk =
    let (w, disk') = write_if_changed t content disk in
    let (ws, disk'') = write_all ts content disk' in (w + ws, disk'')

-- The transcript, written to its targets.
unfoldable pub write_run : PacketDir → Manifest → List Text → Disk → ℕ × ℕ × Disk
write_run run_dir manifest queries disk =
    let content =
      render_sql (or_default manifest.scenario run_dir.parent_name)
        (or_default manifest.run_id run_dir.name) queries in
    let (writes, disk') =
      write_all (sql_path run_dir.path ∷ source_target manifest.source_run_dir) content disk in
    (1, writes, disk')

-- Runs scanned, files written, and the disk.
unfoldable pub process_run_dir : PacketDir → Disk → Sql (ℕ × ℕ × Disk)
process_run_dir run_dir disk = elim run_dir.files [
  | none ↦ returned (0, 0, disk)
  | some (manifest, packets) ↦
      queries_of packets >>= λ queries. returned (write_run run_dir manifest queries disk)
]

-- The packetized root: run directories by scenario and run.
abbrev pub Root : Type 0
Root = Dict Text (Dict Text PacketDir)

abbrev at_key {ℓ} : {A : Type ℓ} → Option A → (A → List PacketDir) → List PacketDir
at_key none f = []
at_key (some a) f = f a

-- The runs of one scenario, in the order of their names.
sorted_runs : Dict Text PacketDir → List Text → List PacketDir
sorted_runs runs [] = []
sorted_runs runs (name ∷ names) = at_key (lookup name runs) (λ d. d ∷ []) ++ sorted_runs runs names

runs_of : Dict Text PacketDir → List PacketDir
unfolding sorted_runs
runs_of runs = sorted_runs runs (sort_by text_le (keys runs))

all_runs : Root → List Text → List PacketDir
unfolding runs_of
all_runs root [] = []
all_runs root (name ∷ names) = at_key (lookup name root) runs_of ++ all_runs root names

-- A directory that is named need not be there: then it has no files.
named_run : Root → Text → Text → PacketDir
named_run root scenario run_id = elim (lookup scenario root) [
  | none ↦ absent
  | some runs ↦ elim (lookup run_id runs) [ none ↦ absent | some d ↦ d ]
]
  where
    absent : PacketDir
    absent = record {
      path = scenario ++ (b'/' ∷ run_id);
      parent_name = scenario;
      name = run_id;
      files = none;
    }

-- An option counts only if it is given and not empty.
abbrev pub given : Option Text → Bool
given none = false
given (some []) = false
given (some (c ∷ s)) = true

abbrev value : Option Text → Text
value none = []
value (some s) = s

unfoldable pub iter_run_dirs : Root → Option Text → Option Text → List PacketDir
unfolding named_run runs_of all_runs
iter_run_dirs root scenario run_id =
    if given scenario
    then if given run_id
      then named_run root (value scenario) (value run_id) ∷ []
      else at_key (lookup (value scenario) root) runs_of
    else all_runs root (sort_by text_le (keys root))

-- The loop of `main`: the two counts, and the disk.
unfoldable pub process_all : List PacketDir → Disk → Sql (ℕ × ℕ × Disk)
process_all [] disk = returned (0, 0, disk)
process_all (d ∷ dirs) disk = do
  (s, w, disk') ← process_run_dir d disk
  (ss, ws, disk'') ← process_all dirs disk'
  returned (s + ss, w + ws, disk'')

-- The exit status with the two counts; `none` for a root that is missing.
unfoldable pub main :
    Option Root → Option Text → Option Text → Disk → Sql (ℕ × Option (ℕ × ℕ) × Disk)
unfolding iter_run_dirs process_all process_run_dir write_run queries_of decode_query query_of_bytes
    query_text from_hex digit_value decode_utf8 strip nat_eq render_sql source_target write_all
    write_if_changed read_text newlines_from lookup insert text_eq
main none scenario run_id disk = returned (2, none, disk)
main (some root) scenario run_id disk = do
  (scanned, writes, disk') ← process_all (iter_run_dirs root scenario run_id) disk
  returned (0, some (scanned, writes), disk')
