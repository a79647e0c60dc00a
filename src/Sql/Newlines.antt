-- ===== src/Sql/Newlines.antt =====
-- What tools/write_scenario_sql.py reads of a file that it has written.
use drift_mariadb_client.Base.{◌≡◌, refl, arith, Bool, true, false, [], ◌∷◌, Text, text_eq}
use drift_mariadb_client.Base.{nat_eq, contains}
use drift_mariadb_client.Sql.{newlines_from, read_text}

abbrev pub has_cr : Text → Bool
has_cr s = contains s 13

newlines_from-has_cr : (after_cr : Bool) (s : Text) → has_cr (newlines_from after_cr s) ≡ false
unfolding newlines_from
newlines_from-has_cr after_cr [] = refl
newlines_from-has_cr after_cr (c ∷ s) =
    ground (arith, newlines_from-has_cr false s, newlines_from-has_cr true s)

-- What is read has no carriage return.
pub read_text-has_cr : (s : Text) → has_cr (read_text s) ≡ false
unfolding read_text
read_text-has_cr s = newlines_from-has_cr false s

newlines_from-same : (s : Text) → has_cr s ≡ false → newlines_from false s ≡ s
unfolding newlines_from
newlines_from-same [] h = refl
newlines_from-same (c ∷ s) h = ground (arith, newlines_from-same s)

-- A text without one is read as it was written.
pub read_text-same : (s : Text) → has_cr s ≡ false → read_text s ≡ s
unfolding read_text
read_text-same s h = newlines_from-same s h
