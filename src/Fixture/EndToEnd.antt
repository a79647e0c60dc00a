-- ===== src/Fixture/EndToEnd.antt =====
-- A connection through the proxy, and the fixture that the extractor makes of its directory.
use drift_mariadb_client.Base.{ℕ, suc, ◌≡◌, ◌≢◌, refl, sym, ap, ◌∙◌, arith, some, List, [], ◌∷◌}
use drift_mariadb_client.Base.{◌++◌, map, append-nil, Bytes, returned, ◌>>=◌}
use drift_mariadb_client.Base.{length, All}
use drift_mariadb_client.RunDir.{Summary, RunDir, Side, client, server, label}
use drift_mariadb_client.Capture.{
  Round, Proxy, Ending, running, end_of_stream, interrupted, cut_short, failed,
}
use drift_mariadb_client.Capture.{Exit, raises, finish, summarize, started, run_proxy}
use drift_mariadb_client.Capture.Recording.{Chunk, lines_of, stream_from}
use drift_mariadb_client.Capture.Loop.{fresh_dir, serve_fresh-Faithful}
use drift_mariadb_client.Capture.Faithful.{Faithful}
use drift_mariadb_client.Capture.Calm.{IsCalm, serve-ne-cut_short}
use drift_mariadb_client.Fixture.{Extract, read_events, build_stream, Fixture}
use drift_mariadb_client.Fixture.Framing.{WirePacket, stream_of, fixture_of}
use drift_mariadb_client.Fixture.Captured.{build_stream-Logs}

-- The bytes of one direction, as both readers of a directory join them.
abbrev pub recorded_stream : RunDir → Side → Extract Bytes
recorded_stream run_dir s =
    read_events run_dir.lines >>= λ evs. build_stream run_dir.files evs (label s)

-- However `serve` ends, `run_proxy` returns the same proxy; it raises only if the loop failed.
pub finish-proxy : (a b : ℕ) (p : Proxy) (e : Ending) → (finish a b (p, e)).2 ≡ p
unfolding finish
finish-proxy a b p running = refl
finish-proxy a b p end_of_stream = refl
finish-proxy a b p interrupted = refl
finish-proxy a b p cut_short = refl
finish-proxy a b p failed = refl

pub finish-raises : (a b : ℕ) (p : Proxy) (e : Ending) → (finish a b (p, e)).0 ≢ raises → e ≢ failed
unfolding finish
finish-raises a b p running h r = cc
finish-raises a b p end_of_stream h r = cc
finish-raises a b p interrupted h r = cc
finish-raises a b p cut_short h r = cc
finish-raises a b p failed h r = h refl

pub finish-summary :
    (a b : ℕ) (p : Proxy) (e : Ending) (s : Summary)
    → (finish a b (p, e)).1 ≡ some s
    → (s.chunks ≡ p.idx) × (s.bytes_c2s ≡ p.total_c2s) × (s.bytes_s2c ≡ p.total_s2c)
unfolding finish summarize
finish-summary a b p running s h = cc
finish-summary a b p end_of_stream s h = ground arith
finish-summary a b p interrupted s h = ground arith
finish-summary a b p cut_short s h = ground arith
finish-summary a b p failed s h = ground arith

-- Both streams of the directory can be read. What a side is recorded to have sent is the beginning
-- of what the other side got, and all of it unless `run_proxy` raised or Ctrl-C came while a chunk
-- was handled.
pub record Replays (rounds : List Round) (e : Exit) (q : Proxy) : Type 0 where
  pub c2s : Bytes
  pub s2c : Bytes
  pub late_server : Bytes
  pub late_client : Bytes
  pub read_c2s : recorded_stream q.run_dir client ≡ returned c2s
  pub read_s2c : recorded_stream q.run_dir server ≡ returned s2c
  pub to_server : q.to_server ≡ c2s ++ late_server
  pub to_client : q.to_client ≡ s2c ++ late_client
  pub complete : All IsCalm rounds → e ≢ raises → (late_server ≡ []) × (late_client ≡ [])

-- What summary.json counts is what the directory holds.
pub record Counts (s : Summary) (q : Proxy) : Type 0 where
  pub c2s : Bytes
  pub s2c : Bytes
  pub read_c2s : recorded_stream q.run_dir client ≡ returned c2s
  pub read_s2c : recorded_stream q.run_dir server ≡ returned s2c
  pub chunks : s.chunks ≡ length q.run_dir.lines
  pub bytes_c2s : s.bytes_c2s ≡ length c2s
  pub bytes_s2c : s.bytes_s2c ≡ length s2c

length-lines_of : (i : ℕ) (cs : List Chunk) → length (lines_of i cs) ≡ length cs
length-lines_of i [] = refl
length-lines_of i (c ∷ cs) = ap suc (length-lines_of (suc i) cs)

Faithful-Counts :
    (a b : ℕ) (p : Proxy) (e : Ending) (s : Summary)
    → Faithful p e
    → e ≢ cut_short
    → (finish a b (p, e)).1 ≡ some s
    → Counts s (finish a b (p, e)).2
Faithful-Counts a b p e s f whole h =
    let (chunks, c2s, s2c) = finish-summary a b p e s h in
    let d = f.describes whole in
    let logs = d.logs in
    rw (finish-proxy a b p e) (record {
      c2s = stream_from client f.chunks;
      s2c = stream_from server f.chunks;
      read_c2s = build_stream-Logs client f.chunks p.run_dir f.stray f.lines f.files;
      read_s2c = build_stream-Logs server f.chunks p.run_dir f.stray f.lines f.files;
      chunks = chunks ∙ logs.count ∙ sym (ap length logs.lines ∙ length-lines_of 0 f.chunks);
      bytes_c2s = c2s ∙ d.bytes_c2s;
      bytes_s2c = s2c ∙ d.bytes_s2c;
    })

module _ (start_ns end_ns : ℕ) (rounds : List Round) where
  -- If the proxy writes a summary and no Ctrl-C comes while it handles a chunk, its chunk count
  -- is the number of lines of events.jsonl and its byte counts are the lengths of the two
  -- streams that the directory holds.
  pub run_proxy-Counts :
      (s : Summary)
      → All IsCalm rounds
      → (run_proxy start_ns end_ns rounds fresh_dir).1 ≡ some s
      → Counts s (run_proxy start_ns end_ns rounds fresh_dir).2
  unfolding run_proxy
  run_proxy-Counts s calm h =
      Faithful-Counts start_ns end_ns _ _ s (serve_fresh-Faithful rounds)
        (serve-ne-cut_short rounds (started fresh_dir) calm) h

-- The fixture of two lists of packets.
abbrev pub fixture_for : List WirePacket → List WirePacket → Fixture
fixture_for ps qs = record {
  c2s_stream = stream_of ps;
  s2c_stream = stream_of qs;
  c2s_packets = map fixture_of ps;
  s2c_packets = map fixture_of qs;
}

pub exact :
    (s late whole : Bytes) {sent : Bytes} → sent ≡ s ++ late → late ≡ [] → sent ≡ whole → s ≡ whole
exact s late whole h none_late e = sym (append-nil s) ∙ ap (λ t. s ++ t) (sym none_late) ∙ sym h ∙ e
