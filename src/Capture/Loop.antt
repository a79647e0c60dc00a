-- ===== src/Capture/Loop.antt =====
-- The proxy's loop leaves a directory that describes what went through it.
use drift_mariadb_client.Base.{refl, inl}
use drift_mariadb_client.Base.{List, [], ◌∷◌, ◌++◌, take}
use drift_mariadb_client.RunDir.{RunDir, Side}
use drift_mariadb_client.Capture.{
  Io, received, recv_failed, send_failed, cut_off, Round, idle, interrupt, ready,
}
use drift_mariadb_client.Capture.{
  Proxy, Ending, running, end_of_stream, interrupted, cut_short, failed,
}
use drift_mariadb_client.Capture.{forward, for_readable, next_round, serve, started}
use drift_mariadb_client.Capture.Recording.{Chunk, Describes, Forwards}
use drift_mariadb_client.Capture.Recording.{forward-Describes, forward-Forwards}
use drift_mariadb_client.Capture.Faithful.{
  Faithful, Faithful-Forwards, faithful, sendall-Faithful, forward_cut-Faithful,
}

for_readable-Faithful :
    (readable : List (Side × Io)) (cs : List Chunk) (p : Proxy)
    → Describes cs p
    → Forwards cs p [] []
    → Faithful (for_readable readable p).0 (for_readable readable p).1
unfolding for_readable
for_readable-Faithful [] cs p d f = faithful cs p running d f
for_readable-Faithful ((side, received [] t_ns) ∷ rest) cs p d f = faithful cs p end_of_stream d f
for_readable-Faithful ((side, received (b ∷ bs) t_ns) ∷ rest) cs p d f =
    for_readable-Faithful rest (cs ++ (record { side = side; content = b ∷ bs; t_ns = t_ns } ∷ []))
      (forward side (b ∷ bs) t_ns p) (forward-Describes cs (b ∷ bs) t_ns p side d)
      (forward-Forwards cs (b ∷ bs) t_ns p side f)
for_readable-Faithful ((side, recv_failed) ∷ rest) cs p d f = faithful cs p failed d f
for_readable-Faithful ((side, send_failed content n) ∷ rest) cs p d f =
    sendall-Faithful cs p failed side (take n content) d f (inl refl)
for_readable-Faithful ((side, cut_off [] t_ns cut) ∷ rest) cs p d f = faithful cs p interrupted d f
for_readable-Faithful ((side, cut_off (b ∷ bs) t_ns cut) ∷ rest) cs p d f =
    forward_cut-Faithful cs p side (b ∷ bs) t_ns cut d f

abbrev KeepsFaithful : (Proxy → Proxy × Ending) → Type 0
KeepsFaithful rest =
    (cs : List Chunk) (p : Proxy)
    → Describes cs p
    → Forwards cs p [] []
    → Faithful (rest p).0 (rest p).1

next_round-Faithful :
    (p : Proxy) (e : Ending) (rest : Proxy → Proxy × Ending)
    → Faithful p e
    → KeepsFaithful rest
    → Faithful (next_round (p, e) rest).0 (next_round (p, e) rest).1
unfolding next_round
next_round-Faithful p running rest f keeps =
    keeps f.chunks p (f.describes (λ h. cc)) (Faithful-Forwards p running f (λ h. cc) (λ h. cc))
next_round-Faithful p end_of_stream rest f keeps = f
next_round-Faithful p interrupted rest f keeps = f
next_round-Faithful p cut_short rest f keeps = f
next_round-Faithful p failed rest f keeps = f

serve-Faithful : (rounds : List Round) → KeepsFaithful (serve rounds)
unfolding serve
serve-Faithful [] cs p d f = faithful cs p running d f
serve-Faithful (idle ∷ rounds) cs p d f = serve-Faithful rounds cs p d f
serve-Faithful (interrupt ∷ rounds) cs p d f = faithful cs p interrupted d f
serve-Faithful (ready readable ∷ rounds) cs p d f =
    next_round-Faithful _ _ (serve rounds) (for_readable-Faithful readable cs p d f)
      (serve-Faithful rounds)

-- The directory that `_mkdir_run_dir` has made.
abbrev pub fresh_dir : RunDir
fresh_dir = record { lines = []; files = [] }

pub serve_fresh-Faithful :
    (rounds : List Round)
    → Faithful (serve rounds (started fresh_dir)).0 (serve rounds (started fresh_dir)).1
serve_fresh-Faithful rounds =
    serve-Faithful rounds [] (started fresh_dir)
      (record {
        logs = record { count = refl; lines = refl; files = refl };
        bytes_c2s = refl;
        bytes_s2c = refl;
      })
      (record { to_server = refl; to_client = refl })
