-- ===== src/Tests/Transcript.antt =====
-- tools/write_scenario_sql.py on the packets of three commands.
use drift_mariadb_client.Base.{
  ℕ, ◌≡◌, ◌⊎◌, refl, arith, none, some, List, [], ◌∷◌, ◌++◌, Text, codes, returned,
}
use drift_mariadb_client.Sql.{Disk, Manifest, PacketDir, queries_of, process_run_dir, main}
use drift_mariadb_client.Base.Strings.{strip}
use drift_mariadb_client.Sql.Hex.Utf8.{encode_char}
use drift_mariadb_client.Sql.Queries.{
  Command, com_query, other_command, empty_payload, hexes_of, queries_of-hexes_of,
}
use drift_mariadb_client.Sql.Twice.{Wrote, RunsAgain, process_run_dir_twice, process_run_dir-Wrote}

-- A query with a letter of two bytes and spaces around it, a ping, and an empty packet.
abbrev commands : List (ℕ × Command)
commands =
    (0, com_query (codes " SELECT " ++ (233 ∷ codes " ")))
    ∷ (0, other_command 14 [])
    ∷ (1, empty_payload)
    ∷ []

queries_of-hexes_of_example :
    queries_of (hexes_of commands) ≡ returned ((codes "SELECT " ++ (233 ∷ [])) ∷ [])
unfolding queries_of strip
queries_of-hexes_of_example = queries_of-hexes_of commands (omega arith)

abbrev manifest : Manifest
manifest = record {
  scenario = some (codes "s");
  run_id = none;
  source_run_dir = some (codes " raw ");
}

abbrev run_dir : PacketDir
run_dir = record {
  path = codes "p/s/1";
  parent_name = codes "s";
  name = codes "1";
  files = some (manifest, hexes_of commands);
}

abbrev transcript : Text
transcript =
    codes
      "-- Scenario: s\n-- Run: 1\n-- Extracted from COM_QUERY packets in fixture capture.\n\nSELECT "
    ++ (233 ∷ codes ";\n")

abbrev disk_after : Disk
disk_after =
    (codes "p/s/1/scenario.sql", transcript) ∷ (codes " raw /scenario.sql", transcript) ∷ []

first_run : process_run_dir run_dir [] ≡ returned (1, 2, disk_after)
unfolding main encode_char
first_run = refl

process_run_dir_twice_example : RunsAgain run_dir 1 disk_after
process_run_dir_twice_example = process_run_dir_twice run_dir [] disk_after 1 2 first_run

second_run : process_run_dir run_dir disk_after ≡ returned (1, 0, disk_after)
unfolding main encode_char
second_run = refl

-- A query with a carriage return in it: each run writes its two transcripts.
abbrev cr_dir : PacketDir
cr_dir = record run_dir {
  files = some (manifest, hexes_of ((0, com_query (65 ∷ 13 ∷ 66 ∷ [])) ∷ []));
}

abbrev cr_transcript : Text
cr_transcript =
    codes "-- Scenario: s\n-- Run: 1\n-- Extracted from COM_QUERY packets in fixture capture.\n\n"
    ++ (65 ∷ 13 ∷ 66 ∷ codes ";\n")

abbrev cr_disk : Disk
cr_disk =
    (codes "p/s/1/scenario.sql", cr_transcript) ∷ (codes " raw /scenario.sql", cr_transcript) ∷ []

cr_run : process_run_dir cr_dir cr_disk ≡ returned (1, 2, cr_disk)
unfolding main encode_char
cr_run = refl

process_run_dir-Wrote_example :
    ((run_dir.files ≡ none) × (disk_after ≡ [])) ⊎ Wrote run_dir [] disk_after (codes "other.txt")
process_run_dir-Wrote_example =
    process_run_dir-Wrote run_dir [] disk_after 1 2 (codes "other.txt") first_run
