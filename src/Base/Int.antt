-- ===== src/Base/Int.antt =====
-- Signed whole numbers, for differences of clock readings: `negsuc n` is -(n + 1).
use Prim.Native.Nat.{ℕ, ◌-◌, ◌/◌}
use drift_mariadb_client.Base.Equality.{leb, if◌then◌else◌}

pub data ℤ : Type 0 where
  pos : ℕ → ℤ
  negsuc : ℕ → ℤ

-- `(b - a) // m` for a positive `m`; `//` rounds down.
unfoldable pub floor_difference : ℕ → ℕ → ℕ → ℤ
floor_difference b a m = if leb a b then pos ((b - a) / m) else negsuc ((a - b - 1) / m)
