-- ===== src/Wire/Columns.antt =====
-- The column count and the column definitions of packages/mariadb-wire-proto/src/lib.drift.
use drift_mariadb_client.Base.{
  ℕ, ◌+◌, ◌*◌, Bool, true, not, Text, Bytes, Outcome, returned, raised, ◌>>=◌,
}
use drift_mariadb_client.Base.{ltb, ◌==◌, nat_eq, if◌then◌else◌, length}
use drift_mariadb_client.Base.Int.{ℤ, pos}
use drift_mariadb_client.Wire.{
  Decoded, error_at, byte_at, read_u16le, cast_int, ColumnDef, Utf8Error,
  resultset_invalid_column_count_packet, coldef_truncated_fixed_fields,
  coldef_bad_fixed_length_marker,
}
use drift_mariadb_client.Wire.Lenenc.{
  LenEncIntDecoded, decode_lenenc_int_at, decode_lenenc_string_at,
}

pub record ColumnCountDecoded : Type 0 where
  pub column_count : ℤ
  pub metadata_follows : Bool

-- The number behind the count: whether definitions follow, when that was negotiated.
unfoldable pub metadata_flag : Bytes → Bool → LenEncIntDecoded → Decoded ColumnCountDecoded
metadata_flag payload negotiated count =
    let refused = raised (error_at resultset_invalid_column_count_packet count.next_offset) in
    elim (decode_lenenc_int_at payload (pos count.next_offset))
      as (λ _. Decoded ColumnCountDecoded) [
        | raised _ ↦ refused
        | returned flag ↦
            if not (flag.next_offset == length payload)
            then refused
            else returned (record {
              column_count = cast_int count.value;
              metadata_follows = if negotiated then not (flag.value == 0) else true;
            })
      ]

unfoldable pub decode_column_count : Bytes → Bool → Decoded ColumnCountDecoded
decode_column_count payload negotiated = do
  count ← decode_lenenc_int_at payload (pos 0)
  if ltb count.next_offset (length payload)
      then metadata_flag payload negotiated count
      else returned (record { column_count = cast_int count.value; metadata_follows = true })

-- `_u32le_at`
abbrev read_u32le : Bytes → ℕ → ℕ
read_u32le payload offset =
    read_u16le payload offset
    + byte_at payload (offset + 2) * 65536
    + byte_at payload (offset + 3) * 16_777_216

-- The fixed fields behind the six strings.
unfoldable pub fixed_fields :
    Bytes → ℕ → Text → Text → Text → Text → Text → Text → Decoded ColumnDef
fixed_fields payload fixed_start catalog schema table org_table name org_name =
    if ltb (length payload) (fixed_start + 12)
    then raised (error_at coldef_truncated_fixed_fields fixed_start)
    else if not (byte_at payload fixed_start == 12)
    then raised (error_at coldef_bad_fixed_length_marker fixed_start)
    else returned (record {
      catalog = catalog;
      schema = schema;
      table = table;
      org_table = org_table;
      name = name;
      org_name = org_name;
      character_set = read_u16le payload (fixed_start + 1);
      column_length = read_u32le payload (fixed_start + 3);
      column_type = byte_at payload (fixed_start + 7);
      flags = read_u16le payload (fixed_start + 8);
      decimals = byte_at payload (fixed_start + 10);
    })

module _ (utf8_from_bytes : Bytes → Outcome Utf8Error Text) where
  unfoldable pub decode_column_def : Bytes → Decoded ColumnDef
  decode_column_def payload = do
    catalog ← decode_lenenc_string_at utf8_from_bytes payload 0
    schema ← decode_lenenc_string_at utf8_from_bytes payload catalog.next_offset
    table ← decode_lenenc_string_at utf8_from_bytes payload schema.next_offset
    org_table ← decode_lenenc_string_at utf8_from_bytes payload table.next_offset
    name ← decode_lenenc_string_at utf8_from_bytes payload org_table.next_offset
    org_name ← decode_lenenc_string_at utf8_from_bytes payload name.next_offset
    fixed_fields payload org_name.next_offset catalog.value schema.value table.value org_table.value
        name.value org_name.value
