-- ===== src/Wire/ResultSet/Whole.antt =====
-- `decode_text_resultset_packets` of decode/resultset.drift on the packets of a whole result set.
use drift_mariadb_client.Base.{
  ℕ, ◌+◌, ◌^◌, ◌<◌, ◌≡◌, ◌≢◌, refl, ap, ◌∙◌, arith, Bool, true, false, List, [], ◌∷◌, ◌++◌, map,
  append_assoc, append-nil, Bytes,
}
use drift_mariadb_client.Base.{
  All, ◌⊎◌, inl, inr, returned, nat_eq, if◌then◌else◌, length, length-append, get_or,
  get_or-append_length, drop, drop-append_length,
}
use drift_mariadb_client.Base.Int.{pos}
use drift_mariadb_client.Wire.{ResultSetCell}
use drift_mariadb_client.Wire.Lenenc.{lenenc_int, decode_lenenc_int_at}
use drift_mariadb_client.Wire.Reads.{decode_lenenc_int_at-lenenc_int}
use drift_mariadb_client.Wire.ResultSet.{
  is_eof_terminator_packet, decode_text_row, column_count_of, check_metadata, rows_loop, rows_of,
  decode_text_resultset_packets,
}
use drift_mariadb_client.Wire.ResultSet.Rows.{
  row_bytes, decode_text_row-row_bytes, is_eof-row_bytes,
}

-- A row of so many columns that a payload can hold.
abbrev pub IsRow : ℕ → List ResultSetCell → Type 0
IsRow columns row = (length row ≡ columns) × (length (row_bytes row) < 2 ^ 63)

abbrev pub IsTerminator : Bytes → Type 0
IsTerminator t = is_eof_terminator_packet t ≡ true

rows_loop-row_bytes :
    (columns total : ℕ) (rows seen : List (List ResultSetCell)) (last : Bytes) (more : List Bytes)
    → All (IsRow columns) rows
    → IsTerminator last
    → rows_loop columns total (map row_bytes rows ++ (last ∷ more)) seen
      ≡ returned (record { column_count = columns; rows = seen ++ rows })
unfolding rows_loop
rows_loop-row_bytes columns total [] seen last more rows_ok ends =
    rw (append-nil seen) (ground arith)
rows_loop-row_bytes columns total (row ∷ rows) seen last more ((wide, small), rows_ok) ends =
    let decoded : decode_text_row (row_bytes row) (pos columns) ≡ returned row =
      rw (← wide) (decode_text_row-row_bytes row small) in
    rw (is_eof-row_bytes row, decoded)
      (rows_loop-row_bytes columns total rows (seen ++ (row ∷ [])) last more rows_ok ends
        ∙ ap (λ rs. returned (record { column_count = columns; rows = rs }))
            (append_assoc seen (row ∷ []) rows))

-- What may follow the column count in its packet.
abbrev pub IsFlag : Bytes → Type 0
IsFlag flag = (flag ≡ []) ⊎ ((b : ℕ) × (b < 2) × (flag ≡ b ∷ []))

read_count :
    (n : ℕ) (flag : Bytes)
    → n < 2 ^ 64
    → decode_lenenc_int_at (lenenc_int n ++ flag) (pos 0)
      ≡ returned (record { value = n; next_offset = length (lenenc_int n) })
read_count n flag h =
    decode_lenenc_int_at-lenenc_int [] flag n h
    ∙ ap (λ k. returned (record { value = n; next_offset = k })) (omega arith)

read_flag :
    (n b : ℕ)
    → b < 2
    → decode_lenenc_int_at (lenenc_int n ++ (b ∷ [])) (pos (length (lenenc_int n)))
      ≡ returned (record { value = b; next_offset = length (lenenc_int n) + 1 })
read_flag n b h =
    let e : lenenc_int b ≡ b ∷ [] = unfold lenenc_int in ground arith in
    rw e at (decode_lenenc_int_at-lenenc_int (lenenc_int n) [] b (omega arith))

column_count_of-lenenc_int :
    (n : ℕ) (flag : Bytes)
    → n < 2 ^ 64
    → IsFlag flag
    → column_count_of (lenenc_int n ++ flag) ≡ returned n
unfolding column_count_of check_metadata
column_count_of-lenenc_int n flag h (inl e) =
    rw (read_count n flag h, e) (ground (arith, length-append (lenenc_int n) []))
column_count_of-lenenc_int n flag h (inr (b, lt, e)) =
    rw (e, read_count n (b ∷ []) h, check_metadata, read_flag n b lt)
      (ground (arith, length-append (lenenc_int n) (b ∷ [])))

-- The terminator of the column definitions may be missing, but not in front of no row.
abbrev pub IsMiddle : List Bytes → List (List ResultSetCell) → Type 0
IsMiddle middle rows =
    ((middle ≡ []) × (rows ≢ [])) ⊎ ((t : Bytes) × (middle ≡ t ∷ []) × IsTerminator t)

-- The packets of a result set behind that of the column count.
abbrev pub packets_of :
    List Bytes → List Bytes → List (List ResultSetCell) → Bytes → List Bytes → List Bytes
packets_of defs middle rows last more = defs ++ (middle ++ (map row_bytes rows ++ (last ∷ more)))

module _ (first : Bytes) (defs body : List Bytes) where
  get_or-row_start :
      (d : Bytes) → get_or (first ∷ (defs ++ body)) (1 + length defs) d ≡ get_or body 0 d
  get_or-row_start d =
      let e : 1 + length defs ≡ length (first ∷ defs) + 0 = omega arith in
      rw e (get_or-append_length (first ∷ defs) body 0 d)

  drop-row_start :
      (m k : ℕ) → m ≡ 1 + length defs + k → drop m (first ∷ (defs ++ body)) ≡ drop k body
  drop-row_start m k h =
      let e : m ≡ length (first ∷ defs) + k = omega arith in
      rw e (drop-append_length (first ∷ defs) body k)

-- Where the rows begin.
rows_of-body :
    (first : Bytes) (defs : List Bytes) (head : Bytes) (body : List Bytes) (is : Bool)
    → length defs + 2 < 2 ^ 63
    → is_eof_terminator_packet head ≡ is
    → (is ≡ true → 0 < length body)
    → rows_of (first ∷ (defs ++ (head ∷ body))) (length defs)
      ≡ rows_loop
          (length defs)
          (length (first ∷ (defs ++ (head ∷ body))))
          (if is then body else head ∷ body)
          []
unfolding rows_of
rows_of-body first defs head body true few eof more =
    rw
      (
        get_or-row_start first defs (head ∷ body) [],
        eof,
        drop-row_start first defs (head ∷ body) (1 + length defs + 1) 1 refl,
      )
      (ground (arith, length-append defs (head ∷ body)))
rows_of-body first defs head body false few eof more =
    rw
      (
        get_or-row_start first defs (head ∷ body) [],
        eof,
        drop-row_start first defs (head ∷ body) (1 + length defs) 0 (omega arith),
      )
      (ground (arith, length-append defs (head ∷ body)))

rows_of-packets_of :
    (first : Bytes) (defs middle : List Bytes) (rows : List (List ResultSetCell)) (last : Bytes)
    (more : List Bytes)
    → length defs + 2 < 2 ^ 63
    → All (IsRow (length defs)) rows
    → IsMiddle middle rows
    → IsTerminator last
    → rows_of (first ∷ packets_of defs middle rows last more) (length defs)
      ≡ returned (record { column_count = length defs; rows = rows })
rows_of-packets_of first defs middle [] last more few ok (inl (e, some)) ends = absurd (some refl)
rows_of-packets_of first defs middle (row ∷ rows) last more few ok (inl (e, some)) ends = rw e (
    rows_of-body first defs (row_bytes row) (map row_bytes rows ++ (last ∷ more)) false few
      (is_eof-row_bytes row) (λ no. absurd cc)
    ∙ rows_loop-row_bytes (length defs) _ (row ∷ rows) [] last more ok ends)
rows_of-packets_of first defs middle rows last more few ok (inr (t, e, is)) ends = rw e (
    rows_of-body first defs t (map row_bytes rows ++ (last ∷ more)) true few is
      (λ _. omega (arith, length-append (map row_bytes rows) (last ∷ more)))
    ∙ rows_loop-row_bytes (length defs) _ rows [] last more ok ends)

-- From the packet of a column count, with or without a metadata flag of 0 or 1, a packet for
-- each column, a terminator (which may be missing if there are rows), the packets of rows of
-- that many cells and a terminator, decode_text_resultset_packets returns the count and exactly
-- these rows, whatever follows, if the columns and the bytes of each row are fewer than 2^63.
pub decode_text_resultset_packets-packets_of :
    (flag : Bytes) (defs middle : List Bytes) (rows : List (List ResultSetCell)) (last : Bytes)
    (more : List Bytes)
    → length defs + 2 < 2 ^ 63
    → IsFlag flag
    → All (IsRow (length defs)) rows
    → IsMiddle middle rows
    → IsTerminator last
    → decode_text_resultset_packets
        ((lenenc_int (length defs) ++ flag) ∷ packets_of defs middle rows last more)
      ≡ returned (record { column_count = length defs; rows = rows })
unfolding decode_text_resultset_packets
decode_text_resultset_packets-packets_of flag defs middle rows last more few is_flag ok mid ends =
    rw (column_count_of-lenenc_int (length defs) flag (omega arith) is_flag)
      (rows_of-packets_of _ defs middle rows last more few ok mid ends)
