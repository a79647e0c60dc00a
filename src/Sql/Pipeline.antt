-- ===== src/Sql/Pipeline.antt =====
-- From a connection through the proxy and the extractor to the transcript of its queries.
use drift_mariadb_client.Base.{ℕ, ◌≡◌, some, List, ◌∷◌, map, Text, text_eq, returned, All}
use drift_mariadb_client.Fixture
use drift_mariadb_client.Fixture.{Fixture, extract}
use drift_mariadb_client.Sql.{Disk, PacketDir, sql_path, source_target, render_sql, process_run_dir}
use drift_mariadb_client.Sql.Queries.{hex_of}
use drift_mariadb_client.Sql.Targets.{Left}

-- The files that the extractor has written to `out_dir`, as the transcript tool reads them.
abbrev pub packet_dir : Text → Text → Text → Fixture × Fixture.Manifest → PacketDir
packet_dir out_dir scenario run_id (fixture, manifest) = record {
  path = out_dir;
  parent_name = scenario;
  name = run_id;
  files = some (
    record {
      scenario = some manifest.scenario;
      run_id = some manifest.run_id;
      source_run_dir = some manifest.source_run_dir;
    },
    map hex_of fixture.c2s_packets,
  );
}

-- What the extractor and the transcript tool make of a capture directory.
pub record Transcribed (scenario run_id path out_dir : Text) (capture : Fixture.Capture)
    (disk : Disk) (statements : List Text) : Type 0 where
  pub output : Fixture × Fixture.Manifest
  pub writes : ℕ
  pub disk_after : Disk
  pub extracted : Fixture.main scenario run_id path capture ≡ (0, some output)
  pub processed :
      process_run_dir (packet_dir out_dir scenario run_id output) disk
      ≡ returned (1, writes, disk_after)
  pub held :
      All
        (Left (render_sql scenario run_id statements) disk disk_after)
        (sql_path out_dir ∷ source_target (some path))
