-- ===== src/Capture/Calm.antt =====
-- A connection of tools/wire_capture_proxy.py in which no Ctrl-C comes while a chunk is handled.
use drift_mariadb_client.Base.{Bool, true, false, ◌≡◌, ◌≢◌, List, [], ◌∷◌, All}
use drift_mariadb_client.RunDir.{Side}
use drift_mariadb_client.Capture.{
  Io, received, recv_failed, send_failed, cut_off, Round, idle, interrupt, ready,
}
use drift_mariadb_client.Capture.{
  Proxy, Ending, running, end_of_stream, interrupted, cut_short, failed,
}
use drift_mariadb_client.Capture.{forward, for_readable, next_round, serve}

abbrev pub is_cut : Io → Bool
is_cut (cut_off _ _ _) = true
is_cut _ = false

-- No Ctrl-C arrives while a chunk is handled; it can arrive at `select`.
abbrev pub IsCalm : Round → Type 0
IsCalm idle = Unit {0}
IsCalm interrupt = Unit {0}
IsCalm (ready readable) = All (λ r. is_cut r.1 ≡ false) readable

for_readable-ne-cut_short :
    (readable : List (Side × Io)) (p : Proxy)
    → All (λ r. is_cut r.1 ≡ false) readable
    → (for_readable readable p).1 ≢ cut_short
unfolding for_readable
for_readable-ne-cut_short [] p h e = cc
for_readable-ne-cut_short ((side, received [] t_ns) ∷ rest) p h e = cc
for_readable-ne-cut_short ((side, received (b ∷ bs) t_ns) ∷ rest) p (h, hs) e =
    for_readable-ne-cut_short rest (forward side (b ∷ bs) t_ns p) hs e
for_readable-ne-cut_short ((side, recv_failed) ∷ rest) p h e = cc
for_readable-ne-cut_short ((side, send_failed content n) ∷ rest) p h e = cc
for_readable-ne-cut_short ((side, cut_off content t_ns cut) ∷ rest) p (h, hs) e = absurd cc

next_round-ne-cut_short :
    (p : Proxy) (e : Ending) (rest : Proxy → Proxy × Ending)
    → e ≢ cut_short
    → ((q : Proxy) → (rest q).1 ≢ cut_short)
    → (next_round (p, e) rest).1 ≢ cut_short
unfolding next_round
next_round-ne-cut_short p running rest h hs = hs p
next_round-ne-cut_short p end_of_stream rest h hs = h
next_round-ne-cut_short p interrupted rest h hs = h
next_round-ne-cut_short p cut_short rest h hs = h
next_round-ne-cut_short p failed rest h hs = h

pub serve-ne-cut_short :
    (rounds : List Round) (p : Proxy) → All IsCalm rounds → (serve rounds p).1 ≢ cut_short
unfolding serve
serve-ne-cut_short [] p h = λ e. cc
serve-ne-cut_short (idle ∷ rounds) p (h, hs) = serve-ne-cut_short rounds p hs
serve-ne-cut_short (interrupt ∷ rounds) p h = λ e. cc
serve-ne-cut_short (ready readable ∷ rounds) p (h, hs) =
    next_round-ne-cut_short _ _ (serve rounds) (for_readable-ne-cut_short readable p h)
      (λ q. serve-ne-cut_short rounds q hs)
