-- ===== src/Wire/ResultSet/Cuts.antt =====
-- Whatever row `decode_text_row` returns was cut out of the payload.
use drift_mariadb_client.Base.{
  ℕ, zero, suc, ◌+◌, ◌<◌, ◌≡◌, refl, ap, ◌∙◌, arith, List, [], ◌∷◌, ◌++◌, append_assoc, append-nil,
  Bytes,
}
use drift_mariadb_client.Base.{
  IsByte, All, returned, >>=-eq-returned, leb, ◌==◌, nat_eq, length, Bool-cases, inl, inr,
}
use drift_mariadb_client.Base.Int.{pos}
use drift_mariadb_client.Wire.{byte_at, ResultSetCell, null, value}
use drift_mariadb_client.Wire.Lenenc.{LenEncBytesDecoded, decode_lenenc_bytes_at}
use drift_mariadb_client.Wire.Bounds.{IsCut, decode_lenenc_bytes_at-IsCut}
use drift_mariadb_client.Wire.ResultSet.{text_row_loop, decode_text_row}

-- The cells lie one behind the other from `idx` to the end of the payload.
abbrev pub Cuts : Bytes → ℕ → List ResultSetCell → Type 0
Cuts payload idx [] = idx ≡ length payload
Cuts payload idx (null ∷ cells) =
    (idx < length payload) × (byte_at payload idx ≡ 251) × Cuts payload (idx + 1) cells
Cuts payload idx (value b ∷ cells) =
    (d : LenEncBytesDecoded) × (d.value ≡ b)
    × IsCut payload idx d
    × Cuts payload d.next_offset cells

-- What the loop adds to `row`.
abbrev Adds : ℕ → Bytes → ℕ → List ResultSetCell → List ResultSetCell → Type 0
Adds columns payload idx row out =
    (cells : List ResultSetCell) × (out ≡ row ++ cells)
    × (length cells ≡ columns)
    × Cuts payload idx cells

-- A row with one cell more.
add_cell :
    (columns : ℕ) (payload : Bytes) (idx next : ℕ) (row out : List ResultSetCell)
    (c : ResultSetCell)
    → ((cells : List ResultSetCell) → Cuts payload next cells → Cuts payload idx (c ∷ cells))
    → Adds columns payload next (row ++ (c ∷ [])) out
    → Adds (suc columns) payload idx row out
add_cell columns payload idx next row out c cut (cells, e, n, cuts) =
    (c ∷ cells, e ∙ append_assoc row (c ∷ []) cells, ap suc n, cut cells cuts)

text_row_loop-Adds :
    (columns : ℕ) (payload : Bytes) (idx : ℕ) (row out : List ResultSetCell)
    → All IsByte payload
    → text_row_loop columns payload idx row ≡ returned out
    → Adds columns payload idx row out
unfolding text_row_loop
text_row_loop-Adds zero payload idx row out bytes h =
    ([], (ground (arith, append-nil row)), refl, ground arith)
text_row_loop-Adds (suc columns) payload idx row out bytes h =
    elim (Bool-cases (leb (length payload) idx)) [
      | inl past ↦ absurd (grind (arith, h, past))
      | inr inside ↦ elim (Bool-cases (byte_at payload idx == 251)) [
        | inl is_null ↦
            add_cell columns payload idx (idx + 1) row out null
              (λ cells cuts. (ground arith, ground arith, cuts))
              (text_row_loop-Adds columns payload (idx + 1) (row ++ (null ∷ [])) out bytes
                (rw (inside, is_null) at h))
        | inr not_null ↦
            let (d, read, rest) =
              >>=-eq-returned (decode_lenenc_bytes_at payload idx) _ (rw (inside, not_null) at h) in
            add_cell columns payload idx d.next_offset row out (value d.value)
              (λ cells cuts. (d, refl, decode_lenenc_bytes_at-IsCut payload idx d bytes read, cuts))
              (text_row_loop-Adds columns payload d.next_offset (row ++ (value d.value ∷ [])) out
                bytes rest)
      ]
    ]

-- If decode_text_row returns cells for a payload of bytes, then there is one for each column,
-- and they lie one behind the other from the start to the end of the payload: for a NULL the
-- byte 251, for a value a stretch that holds exactly its bytes.
pub decode_text_row-Cuts :
    (payload : Bytes) (column_count : ℕ) (cells : List ResultSetCell)
    → All IsByte payload
    → decode_text_row payload (pos column_count) ≡ returned cells
    → (length cells ≡ column_count) × Cuts payload 0 cells
unfolding decode_text_row
decode_text_row-Cuts payload column_count cells bytes h =
    let (found, e, n, cuts) = text_row_loop-Adds column_count payload 0 [] cells bytes h in
    rw e (n, cuts)
