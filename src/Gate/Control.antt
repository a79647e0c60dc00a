-- ===== src/Gate/Control.antt =====
-- tools/proxy_gate_smoke.py: `control_request`, a line over the control socket.
use drift_mariadb_client.Base.{
  ◌<◌, ◌≡◌, refl, ap, ◌∙◌, arith, Bool, true, false, ◌&&◌, Option, none, some, List, [], ◌∷◌, ◌++◌,
  append-nil, append_assoc, map, Bytes,
}
use drift_mariadb_client.Base.{
  ◌==◌, nat_eq, contains, if◌then◌else◌, length, All, Option-cases, inl, inr,
}
use drift_mariadb_client.Gate.Cases.{Reply, no_reply}

-- What a `recv` does: these bytes, none at the end of the connection, or an OSError.
pub data Recv : Type 0 where
  received : Bytes → Recv
  recv_fails : Recv

-- The control socket. After the last `recv` the next one runs into the timeout.
pub record ControlSocket : Type 0 where
  pub connects : Bool
  pub sends : Bool
  pub recvs : List Recv

-- `buf.split(b"\n", 1)[0]`, if the buffer has a newline.
unfoldable pub line_in : Bytes → Option Bytes
line_in [] = none
line_in (b ∷ buf) =
    let rest = line_in buf in
    if b == 10 then some [] else elim rest [ none ↦ none | some line ↦ some (b ∷ line) ]

-- The loop over `buf`.
unfoldable pub recv_line : List Recv → Bytes → Option Bytes
unfolding line_in
recv_line [] buf = line_in buf
recv_line (recv_fails ∷ recvs) buf = line_in buf
recv_line (received [] ∷ recvs) buf = line_in buf
recv_line (received (b ∷ chunk) ∷ recvs) buf =
    let more = recv_line recvs (buf ++ (b ∷ chunk)) in
    elim (line_in buf) [ some line ↦ some line | none ↦ more ]

-- What `json.loads` and the readers of its result make of a line is an argument.
unfoldable pub control_request : (Bytes → Reply) → ControlSocket → Reply
control_request loads s =
    if s.connects && s.sends
    then elim (recv_line s.recvs []) [ none ↦ no_reply | some line ↦ loads line ]
    else no_reply

abbrev pub joined : List Bytes → Bytes
joined [] = []
joined (chunk ∷ chunks) = chunk ++ joined chunks

line_in-append :
    (buf more line : Bytes) → line_in buf ≡ some line → line_in (buf ++ more) ≡ some line
unfolding line_in
line_in-append [] more line h = absurd cc
line_in-append (b ∷ buf) more line h = elim (Option-cases (line_in buf)) [
  | inl (found, e) ↦ grind (arith, h, e, line_in-append buf more found e)
  | inr e ↦ ground (arith, e)
]

line_in-line :
    (line rest : Bytes) → contains line 10 ≡ false → line_in (line ++ (10 ∷ rest)) ≡ some line
unfolding line_in
line_in-line [] rest h = ground arith
line_in-line (b ∷ line) rest h = ground (arith, line_in-line line rest)

recv_line-joined :
    (chunks : List Bytes) (buf : Bytes)
    → All (λ chunk. 0 < length chunk) chunks
    → recv_line (map received chunks) buf ≡ line_in (buf ++ joined chunks)
unfolding recv_line
recv_line-joined [] buf h = rw append-nil refl
recv_line-joined ([] ∷ chunks) buf (h, hs) = absurd (omega arith)
recv_line-joined ((b ∷ chunk) ∷ chunks) buf (h, hs) = elim (Option-cases (line_in buf)) [
  | inr e ↦
      rw (recv_line, e)
        (recv_line-joined chunks (buf ++ (b ∷ chunk)) hs
          ∙ ap line_in (append_assoc buf (b ∷ chunk) (joined chunks)))
  | inl (line, e) ↦ rw (recv_line, e, line_in-append buf ((b ∷ chunk) ++ joined chunks) line e) refl
]

-- The reply is made of the first line, however the connection cuts it.
pub control_request-joined :
    (loads : Bytes → Reply) (chunks : List Bytes) (line rest : Bytes)
    → All (λ chunk. 0 < length chunk) chunks
    → contains line 10 ≡ false
    → joined chunks ≡ line ++ (10 ∷ rest)
    → control_request loads (record { connects = true; sends = true; recvs = map received chunks })
      ≡ loads line
unfolding control_request
control_request-joined loads chunks line rest full no_newline whole =
    rw (recv_line-joined chunks [] full, whole, line_in-line line rest no_newline) refl
