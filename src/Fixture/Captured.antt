-- ===== src/Fixture/Captured.antt =====
-- The extractor reads a captured directory back: the streams that went through the proxy.
use drift_mariadb_client.Base.{ℕ, suc, ◌<◌, ◌≡◌, refl, ap, arith}
use drift_mariadb_client.Base.{some, List, [], ◌∷◌, ◌++◌, map, Text, Bytes, text_eq, ◌==◌}
use drift_mariadb_client.Base.{returned, ◌>>=◌, if◌then◌else◌}
use drift_mariadb_client.Base.Dict.{Dict, lookup}
use drift_mariadb_client.Base.Order.{IsSorted, sort_by_of_IsSorted}
use drift_mariadb_client.RunDir.{Event, RunDir, Side, client, server, label}
use drift_mariadb_client.Capture.{chunk_name}
use drift_mariadb_client.Capture.Recording.{
  Chunk, name_of, event_for, events_of, lines_of, files_of,
}
use drift_mariadb_client.Capture.Recording.{from_side, stream_from, chunk_name-injective}
use drift_mariadb_client.Fixture.{read_lines, index_events, index_le, event_of, read_events}
use drift_mariadb_client.Fixture.{Extract, read_chunk, build_stream}

keyed : ℕ → List Chunk → List (ℕ × Event)
keyed i [] = []
keyed i (c ∷ cs) = (i, event_for i c) ∷ keyed (suc i) cs

read_lines-lines_of :
    (i : ℕ) (cs : List Chunk) → read_lines (lines_of i cs) ≡ returned (events_of i cs)
unfolding read_lines
read_lines-lines_of i [] = refl
read_lines-lines_of i (c ∷ cs) = rw (read_lines-lines_of (suc i) cs)

index_events-events_of :
    (i : ℕ) (cs : List Chunk) → index_events (events_of i cs) ≡ returned (keyed i cs)
unfolding index_events keyed
index_events-events_of i [] = refl
index_events-events_of i (c ∷ cs) = rw (index_events-events_of (suc i) cs)

keyed-IsSorted : (i : ℕ) (cs : List Chunk) → IsSorted index_le (keyed i cs)
unfolding keyed
keyed-IsSorted i [] = tt
keyed-IsSorted i (c ∷ []) = tt
keyed-IsSorted i (c ∷ d ∷ cs) = (ground arith, keyed-IsSorted (suc i) (d ∷ cs))

map-keyed : (i : ℕ) (cs : List Chunk) → map event_of (keyed i cs) ≡ events_of i cs
unfolding keyed
map-keyed i [] = refl
map-keyed i (c ∷ cs) = ap (λ t. event_for i c ∷ t) (map-keyed (suc i) cs)

-- The recorded lines are read back in their order.
pub read_events-lines_of :
    (cs : List Chunk) → read_events (lines_of 0 cs) ≡ returned (events_of 0 cs)
unfolding read_events
read_events-lines_of cs = rw (
  read_lines-lines_of 0 cs,
  index_events-events_of 0 cs,
  sort_by_of_IsSorted index_le (keyed 0 cs) (keyed-IsSorted 0 cs),
  map-keyed,
)

-- Every recorded chunk is found under its name.
abbrev pub Holds : Dict Text Bytes → ℕ → List Chunk → Type 0
Holds files i [] = Unit {0}
Holds files i (c ∷ cs) = (lookup (name_of i c) files ≡ some c.content) × Holds files (suc i) cs

Holds-cons :
    (i j : ℕ) (d : Text) (v : Bytes) (files : Dict Text Bytes) (cs : List Chunk)
    → i < j
    → Holds files j cs
    → Holds ((chunk_name i d, v) ∷ files) j cs
Holds-cons i j d v files [] h held = tt
Holds-cons i j d v files (c ∷ cs) h (here, rest) =
    (other, Holds-cons i (suc j) d v files cs (omega arith) rest)
  where
    other : lookup (name_of j c) ((chunk_name i d, v) ∷ files) ≡ some c.content
    other = unfold lookup in ground (arith, chunk_name-injective j i (label c.side) d)

pub files_of-Holds : (i : ℕ) (cs : List Chunk) → Holds (files_of i cs) i cs
unfolding lookup
files_of-Holds i [] = tt
files_of-Holds i (c ∷ cs) = (
  ground arith,
  Holds-cons i (suc i) (label c.side) c.content (files_of (suc i) cs) cs (omega arith)
      (files_of-Holds (suc i) cs),
)

-- Only events of the direction count.
choose_side :
    (s a : Side) (b more : Bytes) {whole rest : Extract Bytes}
    → whole ≡ returned (b ++ more)
    → rest ≡ returned more
    → (if label a == label s then whole else rest) ≡ returned (from_side s a b ++ more)
unfolding text_eq
choose_side client client b more hw hr = hw
choose_side client server b more hw hr = hr
choose_side server client b more hw hr = hr
choose_side server server b more hw hr = hw

read_chunk_held :
    (files : Dict Text Bytes) (i : ℕ) (c : Chunk)
    → lookup (name_of i c) files ≡ some c.content
    → read_chunk files (event_for i c) ≡ returned c.content
unfolding read_chunk
read_chunk_held files i c h = rw (h, read_chunk)

build_stream-events_of :
    (s : Side) (files : Dict Text Bytes) (i : ℕ) (cs : List Chunk)
    → Holds files i cs
    → build_stream files (events_of i cs) (label s) ≡ returned (stream_from s cs)
unfolding build_stream
build_stream-events_of s files i [] held = refl
build_stream-events_of s files i (c ∷ cs) (here, rest) =
    let more = build_stream-events_of s files (suc i) cs rest in
    choose_side s c.side c.content (stream_from s cs) (rw (read_chunk_held files i c here, more))
      more

lookup-append :
    (k : Text) (v : Bytes) (files more : Dict Text Bytes)
    → lookup k files ≡ some v
    → lookup k (files ++ more) ≡ some v
unfolding lookup
lookup-append k v [] more h = absurd cc
lookup-append k v ((j, w) ∷ files) more h = ground (arith, lookup-append k v files more)

Holds-append :
    (i : ℕ) (files more : Dict Text Bytes) (cs : List Chunk)
    → Holds files i cs
    → Holds (files ++ more) i cs
Holds-append i files more [] held = tt
Holds-append i files more (c ∷ cs) (here, rest) =
    (lookup-append _ _ files more here, Holds-append (suc i) files more cs rest)

-- The extractor reads what a directory logs, whatever other files it has.
pub build_stream-Logs :
    (s : Side) (cs : List Chunk) (run_dir : RunDir) (more : Dict Text Bytes)
    → run_dir.lines ≡ lines_of 0 cs
    → run_dir.files ≡ files_of 0 cs ++ more
    → (read_events run_dir.lines >>= λ evs. build_stream run_dir.files evs (label s))
      ≡ returned (stream_from s cs)
build_stream-Logs s cs run_dir more lines files =
    rw (lines, read_events-lines_of cs, files)
      (build_stream-events_of s (files_of 0 cs ++ more) 0 cs
        (Holds-append 0 (files_of 0 cs) more cs (files_of-Holds 0 cs)))
