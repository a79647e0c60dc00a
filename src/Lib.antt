-- ===== src/Lib.antt =====
-- drift-mariadb-client. Its Python tools: what they record of the wire between a MariaDB client
-- and its server, what they derive from the records, what the gates decide and plan. And of its
-- packages, which are written in Drift, the wire protocol and the connection pool.
--
-- Parts, and how they interact:
-- * Capture (tools/wire_capture_proxy.py) forwards the bytes of one connection and writes each
--   chunk to a capture directory (RunDir). Capture is the loop of `run_proxy` with
--   `_record_chunk`, its `except` and its `finally`. The sockets, the clock and Ctrl-C are a
--   list of rounds of `select`; Ctrl-C comes at a round, or at any point of the handling of a
--   chunk (Cut), where the line for events.jsonl is written in one step. The record Proxy has
--   the variables of `run_proxy` and, beside them, the bytes that reached each peer.
--   Capture/Recording says what a directory holds, Capture/Faithful what becomes of a chunk,
--   Capture/Loop what the loop leaves, Capture/Calm when no chunk is cut short.
-- * Fixture (tools/wire_fixture_extract.py) reads a capture directory and cuts the two streams
--   into packets: `read_events`, `build_stream`, `packetize`, `looks_like_tls_record_prefix` and
--   `main` have the names of the functions. Fixture/Framing is the packet format by itself,
--   Fixture/RoundTrip and Fixture/Cut relate `packetize` to it, Fixture/Captured reads what
--   Capture wrote, and Fixture/EndToEnd joins the two programs.
-- * Sql (tools/write_scenario_sql.py) writes a transcript of the COM_QUERY packets of a fixture.
--   Sql/Hex has `bytes.fromhex` and the UTF-8 decoder, Sql/Hex/Utf8 the encoder it inverts,
--   Sql/Queries relates packets and statements, Sql/Newlines is about the line ends that Python
--   reads, Sql/Targets and Sql/Twice say what a run leaves on the disk, and Sql/Pipeline joins
--   proxy, extractor and transcript.
-- * Perf (tools/perf_baseline.py): Perf/Run compiles the scenarios, Perf/Measure reads what the
--   proxy captured of one, Perf/Count counts its packets, Perf/Baseline records the results for
--   the machine and compares them (with Accepts and Recorded), and Perf/Main is `main`.
--   Perf/Compiled is about the compilations, Perf/Prebuilt about the plan that builds the same
--   binaries, Perf/Measure/Captured about a capture of Capture, Perf/Main/Rerun about a run
--   after another.
-- * Pins (tools/cert_deps.py) derives the `name@version` pins of a build in two lanes;
--   Pins/Lanes and Pins/Strict are about the certify and the strict lane.
-- * Plan (tools/emit_test_plan.py) emits plans for the shared test executor: Plan/Source reads
--   paths and source texts, Plan/Emit makes jobs, Plan/Curated has the lists of tests,
--   Plan/Suite is the test gate (with Needs and Serial), Plan/Gates the other gates and `main`.
-- * Gate (tools/proxy_gate_smoke.py) supervises the failpoint proxy as a subprocess:
--   Gate/Process is Popen as the gate uses it with `_run_plan` and `stop_proxy`, Gate/Cases has
--   the cases, Gate/Control `control_request`, Gate/Run the build, the table of cases and
--   `main`; it calls `emit_app` and `emit_one` of Plan. What the system, the control socket and
--   the log answer is a record for each case. Gate/Reaped is about the clean-up, Gate/Passing,
--   Gate/AllPass, Gate/Shutdown and Gate/Exit about the exit status.
-- * Wire (packages/mariadb-wire-proto/src) is the client's side of the protocol. Wire/Header
--   (packet/header.drift), Wire/Lenenc (packet/lenenc.drift), Wire/Responses
--   (decode/ok_packet.drift, decode/err_packet.drift) and Wire/ResultSet
--   (decode/resultset.drift) are the codecs; Wire/Reads and Wire/Bounds are about Lenenc,
--   ResultSet/Whole and ResultSet/Cuts about result sets, Responses/Packets about OK and ERR
--   packets. Wire/Transport (transport.drift) carries packets over a stream, which is a list of
--   what its reads find, of what its writes do, and of what was sent; Transport/Conversation is
--   about two ends of it. Wire/Columns and Wire/Session are the session of lib.drift: Session
--   has its state and guards, Session/Statement `query`'s statement and `next_event`,
--   Session/Drain the skips and the destructor, Session/Commands the commands up to
--   `reset_for_pool_reuse`. Session/Kept, Open, Events, Drained, Idle, Queries and Reuse say
--   what these leave of a session, Session/Streaming, Delivered and Fetched what a query returns
--   of the packets of a result set. A packet header is that of Fixture/Framing.
-- * Pool (packages/mariadb-rpc/src/pool.drift) is the connection pool: one function for each
--   section that holds the slot's lock. Pool/System puts them together with those who hold a
--   connection, open one, or wait for one; a list of its actions is any interleaving of the
--   threads. Pool/Counts is about the counters, Pool/Owners and Pool/Leases about who holds a
--   connection, Pool/Wakeups and Pool/Opening about the waiters.
-- Base holds what these share: lists, dictionaries, outcomes, orders, decimal numerals, texts.
-- Tests runs them on concrete inputs.
--
-- Texts and byte strings are lists of numbers: code points, and numbers below 2 ^ 8 where a
-- theorem says IsByte. Python's integers have no bound, and neither have the numbers here. An
-- exception is a value `raised e` of an Outcome. A `Uint` of Drift has its 64 bits: sums and
-- products that may leave them are taken modulo 2 ^ 64, and `cast<Int>` makes a negative number
-- of a large one. A sum of two `Int`s that leaves the 64 bits is the error `int_overflow` of the
-- model, since nothing here says what Drift makes of it. The counters of the pool are natural
-- numbers: Pool/Counts shows that what is taken from them is in them.
--
-- Loops are structural, but for the two loops of `next_event` events, `skip_loop` and
-- `skip_rows`, and the two loops over an offset, `packetize_loop` and `count_loop`. The fuel of
-- the former is one more than the bytes that are still to come from the server, and every event
-- but the last reads a packet; so `skip_remaining` of an open statement is never out of it. As
-- to the latter, their fuel is the length of the stream. Each round moves the offset by four
-- bytes at least, so it is enough. The error `out_of_rounds` of the model stands for a lack of
-- fuel and is none of Python's.
--
-- The gate's `(actual - base) / base > 0.05` is `21 * base < 20 * actual` here. A quotient of
-- Python is rounded correctly, so the two agree for counts below 2 ^ 52.
--
-- Not modelled: argument parsing, the wording of messages, JSON as text (a file is the value
-- that it parses to), clocks and processes; two paths of one file are taken for two files. Of
-- the Drift code: `connect`, the handshake, its authentication and capabilities, time-outs of
-- reads and writes (a time-out is a failed one), the connections and managed calls of
-- packages/mariadb-rpc/src (lib.drift, managed.drift), the polling and the events of the
-- keepalive fiber, and failpoint-proxy/. The UTF-8 decoder of Drift's library is a parameter,
-- `utf8_from_bytes`. Its condition variable is taken to be as usual: `signal_one` wakes one of
-- the parked waiters, if there is one, and a waiter that a signal has woken does not time out.
-- Budgets are only whether they have run out.
pub mod Base
pub mod Capture
pub mod Fixture
pub mod Gate
pub mod Perf
pub mod Pins
pub mod Plan
pub mod Pool
pub mod RunDir
pub mod Sql
mod Tests
pub mod Wire
