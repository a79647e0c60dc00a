-- ===== src/Sql/Queries.antt =====
-- From the packets of a fixture to the statements of its transcript.
use drift_mariadb_client.Base.{ℕ, ◌≡◌, ◌≢◌, refl, arith, Option, none, some}
use drift_mariadb_client.Base.{List, [], ◌∷◌, map, Text, Bytes, IsByte, returned, All}
use drift_mariadb_client.Base.{nat_eq}
use drift_mariadb_client.Base.Strings.{strip}
use drift_mariadb_client.Fixture.{Packet, hex}
use drift_mariadb_client.Fixture.Framing.{WirePacket, fixture_of}
use drift_mariadb_client.Sql.{Sql, query_text, query_of_bytes, decode_query, queries_of}
use drift_mariadb_client.Sql.Hex.{from_hex-hex}
use drift_mariadb_client.Sql.Hex.Utf8.{
  IsScalar, encode_utf8, decode_utf8-encode_utf8, encode_utf8-IsByte,
}

-- What a client sends: COM_QUERY with a text, another command, or nothing.
pub data Command : Type 0 where
  com_query : Text → Command
  other_command : ℕ → Bytes → Command
  empty_payload : Command

abbrev pub payload_of : Command → Bytes
payload_of (com_query q) = 3 ∷ encode_utf8 q
payload_of (other_command b bs) = b ∷ bs
payload_of empty_payload = []

abbrev pub IsCommand : Command → Type 0
IsCommand (com_query q) = All IsScalar q
IsCommand (other_command b bs) = (b ≢ 3) × IsByte b × All IsByte bs
IsCommand empty_payload = Unit {0}

abbrev pub unless_empty : Text → Option Text
unless_empty [] = none
unless_empty (c ∷ s) = some (c ∷ s)

-- Its statement, without the spaces around it, if anything is left.
abbrev pub statement_of : Command → Option Text
statement_of (com_query q) = unless_empty (strip q)
statement_of _ = none

abbrev pub keep : Option Text → List Text → List Text
keep none rest = rest
keep (some text) rest = text ∷ rest

abbrev pub statements_of : List (ℕ × Command) → List Text
statements_of [] = []
statements_of ((_, c) ∷ cs) = keep (statement_of c) (statements_of cs)

-- The packet of a command, with its sequence number.
abbrev pub packet_of : ℕ × Command → WirePacket
packet_of (seq, c) = record { seq = seq; payload = payload_of c }

abbrev pub hex_of : Packet → Option Text
hex_of p = some p.payload_hex

payload_of-IsByte : (c : Command) → IsCommand c → All IsByte (payload_of c)
payload_of-IsByte (com_query q) h = (omega arith, encode_utf8-IsByte q h)
payload_of-IsByte (other_command b bs) (ne, h, hs) = (h, hs)
payload_of-IsByte empty_payload h = tt

decode_query-hex : (bs : Bytes) → All IsByte bs → decode_query (hex bs) ≡ query_of_bytes bs
unfolding decode_query query_of_bytes
decode_query-hex [] h = refl
decode_query-hex (b ∷ bs) h = rw (decode_query, from_hex-hex (b ∷ bs) h)

query_text-some : (text : Text) → query_text (some text) ≡ returned (unless_empty (strip text))
unfolding query_text
query_text-some text = by_rest (strip text)
  where
    by_rest :
        (s : Text)
        → elim s as (λ _. Sql (Option Text)) [
          | [] ↦ returned none
          | c ∷ t ↦ returned (some (c ∷ t))
        ]
          ≡ returned (unless_empty s)
    by_rest [] = refl
    by_rest (c ∷ t) = refl

query_of_bytes-payload_of :
    (c : Command) → IsCommand c → query_of_bytes (payload_of c) ≡ returned (statement_of c)
unfolding query_of_bytes nat_eq
query_of_bytes-payload_of (com_query q) h = rw (decode_utf8-encode_utf8 q h) (query_text-some q)
query_of_bytes-payload_of (other_command b bs) (ne, h, hs) = ground arith
query_of_bytes-payload_of empty_payload h = refl

-- One packet in front of the others.
queries_of-payload :
    (c : Command) (rest : List (Option Text)) (found : List Text)
    → IsCommand c
    → queries_of rest ≡ returned found
    → queries_of (some (hex (payload_of c)) ∷ rest) ≡ returned (keep (statement_of c) found)
unfolding queries_of
queries_of-payload c rest found h later =
    rw
      (
        decode_query-hex (payload_of c) (payload_of-IsByte c h),
        query_of_bytes-payload_of c h,
        later,
      )
      (by_statement (statement_of c))
  where
    by_statement :
        (o : Option Text)
        → ◌≡◌ {A = Sql (List Text)}
            (returned (elim o [ none ↦ found | some text ↦ text ∷ found ]))
            (returned (keep o found))
    by_statement none = refl
    by_statement (some text) = refl

abbrev pub hexes_of : List (ℕ × Command) → List (Option Text)
hexes_of cs = map hex_of (map fixture_of (map packet_of cs))

-- From the fixture packets of any commands, the transcript tool takes the text of each COM_QUERY
-- whose text is not blank, in order and without the spaces around it, and nothing else.
pub queries_of-hexes_of :
    (cs : List (ℕ × Command))
    → All (λ c. IsCommand c.1) cs
    → queries_of (hexes_of cs) ≡ returned (statements_of cs)
queries_of-hexes_of [] h = unfold queries_of in refl
queries_of-hexes_of ((seq, c) ∷ cs) (h, hs) =
    queries_of-payload c (hexes_of cs) (statements_of cs) h (queries_of-hexes_of cs hs)
