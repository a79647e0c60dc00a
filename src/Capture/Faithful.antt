-- ===== src/Capture/Faithful.antt =====
-- What tools/wire_capture_proxy.py leaves of a chunk that it forwards, in part or whole.
use drift_mariadb_client.Base.{ℕ, ◌≡◌, ◌≢◌, refl, sym, ◌∙◌, ◌⊎◌, inl, inr, arith, Text}
use drift_mariadb_client.Base.{List, [], ◌∷◌, ◌++◌, append-nil, Bytes, take, length}
use drift_mariadb_client.Base.Dict.{Dict}
use drift_mariadb_client.RunDir.{Side, client, server, label}
use drift_mariadb_client.Capture.{Cut, sending, writing, logged, numbered}
use drift_mariadb_client.Capture.{Proxy, Ending, cut_short, failed}
use drift_mariadb_client.Capture.{chunk_name, add_total, forward_cut, sendall, forward}
use drift_mariadb_client.Capture.Recording.{
  Chunk, Describes, Forwards, lines_of, files_of, from_side, lookup-files_of_new, insert_new,
}
use drift_mariadb_client.Capture.Recording.{forward-Describes, forward-Forwards}

-- Everything that was forwarded is recorded, but for what a failing `sendall` let through, or a
-- chunk that Ctrl-C cut short, which can leave a file that no line names.
pub record Faithful (q : Proxy) (e : Ending) : Type 0 where
  pub chunks : List Chunk
  pub stray : Dict Text Bytes
  pub lines : q.run_dir.lines ≡ lines_of 0 chunks
  pub files : q.run_dir.files ≡ files_of 0 chunks ++ stray
  pub describes : e ≢ cut_short → Describes chunks q
  pub late_server : Bytes
  pub late_client : Bytes
  pub forwards : Forwards chunks q late_server late_client
  pub complete : e ≢ failed → e ≢ cut_short → (late_server ≡ []) × (late_client ≡ [])

pub Faithful-Forwards :
    (q : Proxy) (e : Ending) (f : Faithful q e)
    → e ≢ failed
    → e ≢ cut_short
    → Forwards f.chunks q [] []
Faithful-Forwards q e f h whole = record {
  to_server = rw (← (f.complete h whole).0) f.forwards.to_server;
  to_client = rw (← (f.complete h whole).1) f.forwards.to_client;
}

pub faithful :
    (cs : List Chunk) (p : Proxy) (e : Ending) → Describes cs p → Forwards cs p [] [] → Faithful p e
faithful cs p e d f = record {
  chunks = cs;
  stray = [];
  lines = d.logs.lines;
  files = d.logs.files ∙ sym (append-nil _);
  describes = λ h. d;
  late_server = [];
  late_client = [];
  forwards = f;
  complete = λ h whole. (refl, refl);
}

-- A part of the last chunk got out, and the chunk was not recorded.
sendall-Forwards :
    (cs : List Chunk) (p : Proxy) (side : Side) (part : Bytes)
    → Forwards cs p [] []
    → Forwards cs (sendall side part p) (from_side client side part) (from_side server side part)
unfolding sendall
sendall-Forwards cs p client part f = record {
  to_server = rw (f.to_server, append-nil);
  to_client = f.to_client;
}
sendall-Forwards cs p server part f = record {
  to_server = f.to_server;
  to_client = rw (f.to_client, append-nil);
}

-- What `sendall` leaves alone.
sendall-Describes :
    (cs : List Chunk) (p : Proxy) (side : Side) (part : Bytes)
    → Describes cs p
    → Describes cs (sendall side part p)
unfolding sendall
sendall-Describes cs p client part d = record {
  logs = d.logs;
  bytes_c2s = d.bytes_c2s;
  bytes_s2c = d.bytes_s2c;
}
sendall-Describes cs p server part d = record {
  logs = d.logs;
  bytes_c2s = d.bytes_c2s;
  bytes_s2c = d.bytes_s2c;
}

pub sendall-Faithful :
    (cs : List Chunk) (p : Proxy) (e : Ending) (side : Side) (part : Bytes)
    → Describes cs p
    → Forwards cs p [] []
    → (e ≡ failed) ⊎ (e ≡ cut_short)
    → Faithful (sendall side part p) e
sendall-Faithful cs p e side part d f lost =
    let sent = sendall-Describes cs p side part d in
    record {
      chunks = cs;
      stray = [];
      lines = sent.logs.lines;
      files = sent.logs.files ∙ sym (append-nil _);
      describes = λ h. sent;
      late_server = from_side client side part;
      late_client = from_side server side part;
      forwards = sendall-Forwards cs p side part f;
      complete = λ h whole. elim lost [ inl e ↦ absurd (h e) | inr e ↦ absurd (whole e) ];
    }

-- The file of a chunk that no line names.
writing-Faithful :
    (cs : List Chunk) (p : Proxy) (side : Side) (content : Bytes) (t_ns n : ℕ)
    → Describes cs p
    → Forwards cs p [] []
    → Faithful (forward_cut side content t_ns (writing n) p) cut_short
unfolding forward_cut
writing-Faithful cs p side content t_ns n d f =
    let sent = sendall-Describes cs p side content d in
    let late = sendall-Forwards cs p side content f in
    record {
      chunks = cs;
      stray = (chunk_name (sendall side content p).idx (label side), take n content) ∷ [];
      lines = sent.logs.lines;
      files =
          rw (sent.logs.count, sent.logs.files)
            (insert_new _ _ _ (lookup-files_of_new (length cs) 0 (label side) cs (omega arith)));
      describes = λ h. absurd (h refl);
      late_server = from_side client side content;
      late_client = from_side server side content;
      forwards = record { to_server = late.to_server; to_client = late.to_client };
      complete = λ h whole. absurd (whole refl);
    }

-- The chunk is recorded, but not counted.
recorded-Faithful :
    (cs : List Chunk) (q p : Proxy)
    → Describes cs q
    → Forwards cs q [] []
    → p.run_dir ≡ q.run_dir
    → p.to_server ≡ q.to_server
    → p.to_client ≡ q.to_client
    → Faithful p cut_short
recorded-Faithful cs q p d f same server_same client_same = record {
  chunks = cs;
  stray = [];
  lines = rw (same, d.logs.lines);
  files = rw (same, d.logs.files) (sym (append-nil _));
  describes = λ h. absurd (h refl);
  late_server = [];
  late_client = [];
  forwards = record {
    to_server = server_same ∙ f.to_server;
    to_client = client_same ∙ f.to_client;
  };
  complete = λ h whole. absurd (whole refl);
}

pub forward_cut-Faithful :
    (cs : List Chunk) (p : Proxy) (side : Side) (content : Bytes) (t_ns : ℕ) (cut : Cut)
    → Describes cs p
    → Forwards cs p [] []
    → Faithful (forward_cut side content t_ns cut p) cut_short
unfolding forward_cut forward add_total
forward_cut-Faithful cs p side content t_ns (sending n) d f =
    sendall-Faithful cs p cut_short side (take n content) d f (inr refl)
forward_cut-Faithful cs p side content t_ns (writing n) d f =
    writing-Faithful cs p side content t_ns n d f
forward_cut-Faithful cs p client content t_ns logged d f =
    recorded-Faithful _ (forward client content t_ns p) _
      (forward-Describes cs content t_ns p client d) (forward-Forwards cs content t_ns p client f)
      refl refl refl
forward_cut-Faithful cs p server content t_ns logged d f =
    recorded-Faithful _ (forward server content t_ns p) _
      (forward-Describes cs content t_ns p server d) (forward-Forwards cs content t_ns p server f)
      refl refl refl
forward_cut-Faithful cs p client content t_ns numbered d f =
    recorded-Faithful _ (forward client content t_ns p) _
      (forward-Describes cs content t_ns p client d) (forward-Forwards cs content t_ns p client f)
      refl refl refl
forward_cut-Faithful cs p server content t_ns numbered d f =
    recorded-Faithful _ (forward server content t_ns p) _
      (forward-Describes cs content t_ns p server d) (forward-Forwards cs content t_ns p server f)
      refl refl refl
