-- ===== src/Capture.antt =====
-- tools/wire_capture_proxy.py: the loop that forwards and records chunks. What the sockets, the
-- clock and the user do is the list of rounds of `select`.
pub mod Recording
pub mod Faithful
pub mod Loop
pub mod Calm
use drift_mariadb_client.Base.{
  ℕ, zero, suc, ◌+◌, suc, Option, none, some, List, [], ◌∷◌, ◌++◌, Text, Bytes, codes,
}
use drift_mariadb_client.Base.{length, take, text_eq}
use drift_mariadb_client.Base.Dict
use drift_mariadb_client.Base.Decimal.{decimal4}
use drift_mariadb_client.Base.Int.{floor_difference}
use drift_mariadb_client.RunDir.{Event, Line, object, Summary, RunDir, Side, client, server, label}

-- How far a chunk had come when Ctrl-C arrived: so many of its bytes had left, or all of them and so
-- many were in its file, or its line was written but `idx` not assigned, or `idx` was assigned but
-- the total not.
pub data Cut : Type 0 where
  sending writing : ℕ → Cut
  logged numbered : Cut

-- What happens at one readable socket: the bytes that `recv` returns, none at the end of the stream,
-- and the time read after `sendall`. In `send_failed` the count is how many bytes left before
-- `sendall` raised; in `cut_off` Ctrl-C arrives while the chunk is handled.
pub data Io : Type 0 where
  received : Bytes → ℕ → Io
  recv_failed : Io
  send_failed : Bytes → ℕ → Io
  cut_off : Bytes → ℕ → Cut → Io

-- One call of `select`: a timeout, Ctrl-C outside the handling of a chunk, or the readable sockets in order.
pub data Round : Type 0 where
  idle interrupt : Round
  ready : List (Side × Io) → Round

-- The variables of `run_proxy`, with the bytes that have reached each peer.
pub record Proxy : Type 0 where
  pub idx : ℕ
  pub total_c2s : ℕ
  pub total_s2c : ℕ
  pub to_server : Bytes
  pub to_client : Bytes
  pub run_dir : RunDir

-- How the `while` loop is left; `running` if the rounds are used up, `cut_short` by Ctrl-C while a
-- chunk was handled.
pub data Ending : Type 0 where
  running end_of_stream interrupted cut_short failed : Ending

-- `f"{idx:04d}_{direction}.bin"`
unfoldable pub chunk_name : ℕ → Text → Text
unfolding decimal4
chunk_name idx direction = decimal4 idx ++ (codes "_" ++ (direction ++ codes ".bin"))

unfoldable pub record_chunk : RunDir → ℕ → Text → Bytes → ℕ → RunDir × ℕ
record_chunk run_dir idx direction content t_ns = (
  record {
    lines =
        run_dir.lines
        ++ (object (record {
          index = some idx;
          direction = some direction;
          bytes = some (length content);
          ts_ns = some t_ns;
          file = some (chunk_name idx direction);
        })
            ∷ []);
    files = Dict.insert (chunk_name idx direction) content run_dir.files;
  },
  idx + 1,
)

-- The bytes reach the other socket.
unfoldable pub sendall : Side → Bytes → Proxy → Proxy
sendall client content p = record p { to_server = p.to_server ++ content }
sendall server content p = record p { to_client = p.to_client ++ content }

unfoldable pub add_total : Side → ℕ → Proxy → Proxy
add_total client n p = record p { total_c2s = p.total_c2s + n }
add_total server n p = record p { total_s2c = p.total_s2c + n }

-- The body of `for sock in readable` after a non-empty `recv`.
unfoldable pub forward : Side → Bytes → ℕ → Proxy → Proxy
unfolding sendall add_total record_chunk
forward side content t_ns p =
    let sent = sendall side content p in
    let (run_dir', idx') = record_chunk sent.run_dir sent.idx (label side) content t_ns in
    add_total side (length content) (record sent { run_dir = run_dir'; idx = idx' })

-- As far as `forward` comes before Ctrl-C. The line for events.jsonl is written in one step.
unfoldable pub forward_cut : Side → Bytes → ℕ → Cut → Proxy → Proxy
unfolding sendall record_chunk
forward_cut side content t_ns (sending n) p = sendall side (take n content) p
forward_cut side content t_ns (writing n) p =
    let sent = sendall side content p in
    record sent {
      run_dir = record {
        lines = sent.run_dir.lines;
        files = Dict.insert (chunk_name sent.idx (label side)) (take n content) sent.run_dir.files;
      };
    }
forward_cut side content t_ns logged p =
    let sent = sendall side content p in
    let (run_dir', idx') = record_chunk sent.run_dir sent.idx (label side) content t_ns in
    record sent { run_dir = run_dir' }
forward_cut side content t_ns numbered p =
    let sent = sendall side content p in
    let (run_dir', idx') = record_chunk sent.run_dir sent.idx (label side) content t_ns in
    record sent { run_dir = run_dir'; idx = idx' }

unfoldable pub for_readable : List (Side × Io) → Proxy → Proxy × Ending
unfolding forward forward_cut
for_readable [] p = (p, running)
for_readable ((side, received [] t_ns) ∷ rest) p = (p, end_of_stream)
for_readable ((side, received (b ∷ bs) t_ns) ∷ rest) p =
    for_readable rest (forward side (b ∷ bs) t_ns p)
for_readable ((side, recv_failed) ∷ rest) p = (p, failed)
for_readable ((side, send_failed content n) ∷ rest) p = (sendall side (take n content) p, failed)
for_readable ((side, cut_off [] t_ns cut) ∷ rest) p = (p, interrupted)
for_readable ((side, cut_off (b ∷ bs) t_ns cut) ∷ rest) p =
    (forward_cut side (b ∷ bs) t_ns cut p, cut_short)

-- Only a `for` loop that ends by itself is followed by another round.
unfoldable pub next_round : Proxy × Ending → (Proxy → Proxy × Ending) → Proxy × Ending
next_round (p, running) rest = rest p
next_round (p, e) rest = (p, e)

-- The `while True` loop.
unfoldable pub serve : List Round → Proxy → Proxy × Ending
unfolding for_readable next_round
serve [] p = (p, running)
serve (idle ∷ rounds) p = serve rounds p
serve (interrupt ∷ rounds) p = (p, interrupted)
serve (ready readable ∷ rounds) p = next_round (for_readable readable p) (serve rounds)

abbrev pub started : RunDir → Proxy
started run_dir = record {
  idx = 0;
  total_c2s = 0;
  total_s2c = 0;
  to_server = [];
  to_client = [];
  run_dir = run_dir;
}

-- The dictionary that the `finally` block writes to summary.json.
unfoldable pub summarize : ℕ → ℕ → Proxy → ℕ → Summary
unfolding floor_difference
summarize start_ns end_ns p exit_code = record {
  start_ns = start_ns;
  end_ns = end_ns;
  duration_ms = floor_difference end_ns start_ns 1_000_000;
  chunks = p.idx;
  bytes_c2s = p.total_c2s;
  bytes_s2c = p.total_s2c;
  status = elim exit_code [ zero ↦ codes "ok" | suc _ ↦ codes "interrupted" ];
}

-- How `run_proxy` is left: with an exit code, by an `OSError`, or not yet.
pub data Exit : Type 0 where
  exits : ℕ → Exit
  raises : Exit
  waits : Exit

-- `exit_code` when the `finally` block runs; no other exception changes it.
unfoldable pub exit_code : Ending → ℕ
exit_code interrupted = 130
exit_code cut_short = 130
exit_code _ = 0

unfoldable pub finish : ℕ → ℕ → Proxy × Ending → Exit × Option Summary × Proxy
unfolding summarize exit_code
finish start_ns end_ns (p, running) = (waits, none, p)
finish start_ns end_ns (p, failed) =
    (raises, some (summarize start_ns end_ns p (exit_code failed)), p)
finish start_ns end_ns (p, end_of_stream) =
    (exits 0, some (summarize start_ns end_ns p (exit_code end_of_stream)), p)
finish start_ns end_ns (p, interrupted) =
    (exits (exit_code interrupted), some (summarize start_ns end_ns p (exit_code interrupted)), p)
finish start_ns end_ns (p, cut_short) =
    (exits (exit_code cut_short), some (summarize start_ns end_ns p (exit_code cut_short)), p)

-- From an accepted client and a connected target on.
unfoldable pub run_proxy : ℕ → ℕ → List Round → RunDir → Exit × Option Summary × Proxy
unfolding serve finish chunk_name Dict.insert text_eq
run_proxy start_ns end_ns rounds run_dir = finish start_ns end_ns (serve rounds (started run_dir))
