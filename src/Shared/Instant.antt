-- ===== src/Shared/Instant.antt =====
-- Instants: nanoseconds from Go's zero time, which is `time.Time{}`.
use Prim.Native.Nat.{ℕ, ◌-◌, ◌*◌}
use power_manage.Shared.Int.{ℤ, pos, negsuc, ltb_ℤ}
use mathlib.Core.Bool.{Bool, ◌&&◌, not}

-- The Unix epoch is this many seconds after it.
abbrev pub unix_epoch_seconds : ℕ
unix_epoch_seconds = 62135596800

-- The years that RFC 3339 writes, and so `json.Marshal` of a time: 0 to 9999.
abbrev pub year_0 : ℤ
year_0 = negsuc (366 * 86400 * 1000000000 - 1)

abbrev pub year_10000 : ℤ
year_10000 = pos (315537897600 * 1000000000)

abbrev pub marshals : ℤ → Bool
marshals t = not (ltb_ℤ t year_0) && ltb_ℤ t year_10000
