-- ===== src/Capture/Recording.antt =====
-- What a capture directory holds after the chunks of a connection, and that the proxy's loop leaves
-- exactly this.
use drift_mariadb_client.Base.{ℕ, suc, ◌+◌, ◌≤◌, ◌≡◌, refl, sym, ap, ◌∙◌, arith}
use drift_mariadb_client.Base.{none, some, List, [], ◌∷◌, ◌++◌, append-nil, append_assoc}
use drift_mariadb_client.Base.{Text, Bytes, text_eq, length, length-append}
use drift_mariadb_client.Base.Dict.{Dict, lookup, insert}
use drift_mariadb_client.Base.Decimal.{read_number, read_number-decimal4}
use drift_mariadb_client.RunDir.{Event, Line, object, RunDir, Side, client, server, label}
use drift_mariadb_client.Capture.{Proxy, chunk_name}
use drift_mariadb_client.Capture.{record_chunk, forward}

-- A chunk that went through.
pub record Chunk : Type 0 where
  pub side : Side
  pub content : Bytes
  pub t_ns : ℕ

abbrev pub name_of : ℕ → Chunk → Text
name_of i c = chunk_name i (label c.side)

abbrev pub event_for : ℕ → Chunk → Event
event_for i c = record {
  index = some i;
  direction = some (label c.side);
  bytes = some (length c.content);
  ts_ns = some c.t_ns;
  file = some (name_of i c);
}

-- Events and files for the chunks, numbered from `i` on.
abbrev pub events_of : ℕ → List Chunk → List Event
events_of i [] = []
events_of i (c ∷ cs) = event_for i c ∷ events_of (suc i) cs

abbrev pub lines_of : ℕ → List Chunk → List Line
lines_of i [] = []
lines_of i (c ∷ cs) = object (event_for i c) ∷ lines_of (suc i) cs

abbrev pub files_of : ℕ → List Chunk → Dict Text Bytes
files_of i [] = []
files_of i (c ∷ cs) = (name_of i c, c.content) ∷ files_of (suc i) cs

-- The bytes that one side sent.
abbrev pub from_side : Side → Side → Bytes → Bytes
from_side client client b = b
from_side client server b = []
from_side server client b = []
from_side server server b = b

abbrev pub stream_from : Side → List Chunk → Bytes
stream_from s [] = []
stream_from s (c ∷ cs) = from_side s c.side c.content ++ stream_from s cs

pub stream_from-append :
    (s : Side) (cs ds : List Chunk)
    → stream_from s (cs ++ ds) ≡ stream_from s cs ++ stream_from s ds
stream_from-append s [] ds = refl
stream_from-append s (c ∷ cs) ds = rw (stream_from-append s cs ds, append_assoc)

read_number-chunk_name : (i : ℕ) (d : Text) → read_number 0 (chunk_name i d) ≡ i
unfolding chunk_name read_number
read_number-chunk_name i d = read_number-decimal4 i _

-- Chunks with different numbers have different names, also from the 10,000th on.
pub chunk_name-injective : (i j : ℕ) (d e : Text) → chunk_name i d ≡ chunk_name j e → i ≡ j
chunk_name-injective i j d e h =
    sym (read_number-chunk_name i d) ∙ ap (read_number 0) h ∙ read_number-chunk_name j e

pub lookup-files_of_new :
    (j i : ℕ) (d : Text) (cs : List Chunk)
    → i + length cs ≤ j
    → lookup (chunk_name j d) (files_of i cs) ≡ none
unfolding lookup
lookup-files_of_new j i d [] h = refl
lookup-files_of_new j i d (c ∷ cs) h =
    ground (arith, chunk_name-injective j i d (label c.side), lookup-files_of_new j (suc i) d cs)

pub insert_new :
    (k : Text) (v : Bytes) (d : Dict Text Bytes)
    → lookup k d ≡ none
    → insert k v d ≡ d ++ ((k, v) ∷ [])
unfolding lookup insert
insert_new k v [] h = refl
insert_new k v ((j, w) ∷ d) h = ground (arith, insert_new k v d)

lines_of-append :
    (i : ℕ) (cs : List Chunk) (c : Chunk)
    → lines_of i (cs ++ (c ∷ [])) ≡ lines_of i cs ++ (object (event_for (i + length cs) c) ∷ [])
lines_of-append i [] c = let e : i + 0 ≡ i = omega arith in rw e
lines_of-append i (d ∷ cs) c =
    let e : i + suc (length cs) ≡ suc i + length cs = omega arith in
    rw e (ap (λ t. object (event_for i d) ∷ t) (lines_of-append (suc i) cs c))

files_of-append :
    (i : ℕ) (cs : List Chunk) (c : Chunk)
    → files_of i (cs ++ (c ∷ [])) ≡ files_of i cs ++ ((name_of (i + length cs) c, c.content) ∷ [])
files_of-append i [] c = let e : i + 0 ≡ i = omega arith in rw e
files_of-append i (d ∷ cs) c =
    let e : i + suc (length cs) ≡ suc i + length cs = omega arith in
    rw e (ap (λ t. (name_of i d, d.content) ∷ t) (files_of-append (suc i) cs c))

-- The directory holds these chunks, and the next number is `idx`.
pub record Logs (cs : List Chunk) (run_dir : RunDir) (idx : ℕ) : Type 0 where
  pub count : idx ≡ length cs
  pub lines : run_dir.lines ≡ lines_of 0 cs
  pub files : run_dir.files ≡ files_of 0 cs

record_chunk-Logs :
    (cs : List Chunk) (c : Chunk) (run_dir : RunDir) (idx : ℕ)
    → Logs cs run_dir idx
    → let (run_dir', idx') = record_chunk run_dir idx (label c.side) c.content c.t_ns in
      Logs (cs ++ (c ∷ [])) run_dir' idx'
unfolding record_chunk
record_chunk-Logs cs c run_dir idx d =
    let zero_idx : 0 + length cs ≡ length cs = omega arith in
    let new = lookup-files_of_new (length cs) 0 (label c.side) cs (omega arith) in
    record {
      count = omega (arith, length-append cs (c ∷ []), d.count);
      lines = rw (lines_of-append 0 cs c, d.lines, d.count, zero_idx);
      files = rw (files_of-append 0 cs c, d.files, d.count, zero_idx) (insert_new _ _ _ new);
    }

-- The proxy has recorded these chunks, and counted their bytes.
pub record Describes (cs : List Chunk) (p : Proxy) : Type 0 where
  pub logs : Logs cs p.run_dir p.idx
  pub bytes_c2s : p.total_c2s ≡ length (stream_from client cs)
  pub bytes_s2c : p.total_s2c ≡ length (stream_from server cs)

-- What went to the two peers is what was recorded, with these bytes behind it.
pub record Forwards (cs : List Chunk) (p : Proxy) (late_server late_client : Bytes) : Type 0 where
  pub to_server : p.to_server ≡ stream_from client cs ++ late_server
  pub to_client : p.to_client ≡ stream_from server cs ++ late_client

length-stream_from-append :
    (s : Side) (cs : List Chunk) (c : Chunk)
    → length (stream_from s (cs ++ (c ∷ [])))
      ≡ length (stream_from s cs) + length (from_side s c.side c.content)
length-stream_from-append s cs c = rw (stream_from-append s cs (c ∷ [])) (
    omega (
      arith,
      length-append (stream_from s cs) (from_side s c.side c.content ++ []),
      length-append (from_side s c.side c.content) [],
    ))

module _ (cs : List Chunk) (content : Bytes) (t_ns : ℕ) (p : Proxy) where
  pub forward-Describes :
      (side : Side)
      → Describes cs p
      → Describes
          (cs ++ (record { side = side; content = content; t_ns = t_ns } ∷ []))
          (forward side content t_ns p)
  unfolding forward
  forward-Describes client d = record {
    logs =
        record_chunk-Logs cs (record { side = client; content = content; t_ns = t_ns }) p.run_dir
          p.idx d.logs;
    bytes_c2s = omega (
      arith,
      d.bytes_c2s,
      length-stream_from-append client cs
          (record { side = client; content = content; t_ns = t_ns }),
    );
    bytes_s2c = omega (
      arith,
      d.bytes_s2c,
      length-stream_from-append server cs
          (record { side = client; content = content; t_ns = t_ns }),
    );
  }
  forward-Describes server d = record {
    logs =
        record_chunk-Logs cs (record { side = server; content = content; t_ns = t_ns }) p.run_dir
          p.idx d.logs;
    bytes_c2s = omega (
      arith,
      d.bytes_c2s,
      length-stream_from-append client cs
          (record { side = server; content = content; t_ns = t_ns }),
    );
    bytes_s2c = omega (
      arith,
      d.bytes_s2c,
      length-stream_from-append server cs
          (record { side = server; content = content; t_ns = t_ns }),
    );
  }

  pub forward-Forwards :
      (side : Side)
      → Forwards cs p [] []
      → Forwards
          (cs ++ (record { side = side; content = content; t_ns = t_ns } ∷ []))
          (forward side content t_ns p)
          []
          []
  unfolding forward record_chunk
  forward-Forwards client f = record {
    to_server = rw (stream_from-append, f.to_server) (simp append-nil);
    to_client = rw stream_from-append (simp append-nil (f.to_client ∙ append-nil _));
  }
  forward-Forwards server f = record {
    to_server = rw stream_from-append (simp append-nil (f.to_server ∙ append-nil _));
    to_client = rw (stream_from-append, f.to_client) (simp append-nil);
  }
