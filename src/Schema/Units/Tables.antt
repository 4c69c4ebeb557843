-- ===== src/Schema/Units/Tables.antt =====
-- schema/units.go: the units that the package defines.
use arcaflow_plugin_sdk_go.Common.{◌*◌, pos, Bytes, codes, [], ◌∷◌}
use arcaflow_plugin_sdk_go.Schema.Units.{UnitDefinition, UnitsDefinition}

-- NewUnit and NewUnits
abbrev pub new_unit :
    (short_singular short_plural long_singular long_plural : Bytes) → UnitDefinition
new_unit ss sp ls lp = record {
  name_short_singular = ss;
  name_short_plural = sp;
  name_long_singular = ls;
  name_long_plural = lp;
}

abbrev pub unit_bytes : UnitsDefinition
unit_bytes = record {
  base_unit = new_unit (codes "B") (codes "B") (codes "byte") (codes "bytes");
  multipliers =
      (pos 1024, new_unit (codes "kB") (codes "kB") (codes "kilobyte") (codes "kilobytes"))
      ∷ (pos 1048576, new_unit (codes "MB") (codes "MB") (codes "megabyte") (codes "megabytes"))
      ∷ (pos 1073741824, new_unit (codes "GB") (codes "GB") (codes "gigabyte") (codes "gigabytes"))
      ∷ (
        pos 1099511627776,
        new_unit (codes "TB") (codes "TB") (codes "terabyte") (codes "terabytes"),
      )
      ∷ (
        pos 1125899906842624,
        new_unit (codes "PB") (codes "PB") (codes "petabyte") (codes "petabytes"),
      )
      ∷ [];
}

-- The first byte pair of "μs" is the letter mu.
abbrev mu_s : Bytes
mu_s = 0xce ∷ 0xbc ∷ codes "s"

abbrev pub unit_duration_nanoseconds : UnitsDefinition
unit_duration_nanoseconds = record {
  base_unit = new_unit (codes "ns") (codes "ns") (codes "nanosecond") (codes "nanoseconds");
  multipliers =
      (pos 1000, new_unit mu_s mu_s (codes "microsecond") (codes "microseconds"))
      ∷ (
        pos 1000000,
        new_unit (codes "ms") (codes "ms") (codes "milliseconds") (codes "milliseconds"),
      )
      ∷ (pos 1000000000, new_unit (codes "s") (codes "s") (codes "second") (codes "seconds"))
      ∷ (pos (60 * 1000000000), new_unit (codes "m") (codes "m") (codes "minute") (codes "minutes"))
      ∷ (pos (3600 * 1000000000), new_unit (codes "H") (codes "H") (codes "hour") (codes "hours"))
      ∷ (pos (86400 * 1000000000), new_unit (codes "d") (codes "d") (codes "day") (codes "days"))
      ∷ [];
}

abbrev pub unit_duration_seconds : UnitsDefinition
unit_duration_seconds = record {
  base_unit = new_unit (codes "s") (codes "s") (codes "second") (codes "seconds");
  multipliers =
      (pos 60, new_unit (codes "m") (codes "m") (codes "minute") (codes "minutes"))
      ∷ (pos 3600, new_unit (codes "H") (codes "H") (codes "hour") (codes "hours"))
      ∷ (pos 86400, new_unit (codes "d") (codes "d") (codes "day") (codes "days"))
      ∷ [];
}

abbrev pub unit_characters : UnitsDefinition
unit_characters = record {
  base_unit = new_unit (codes "char") (codes "chars") (codes "character") (codes "characters");
  multipliers = [];
}

abbrev pub unit_percentage : UnitsDefinition
unit_percentage = record {
  base_unit = new_unit (codes "%") (codes "%") (codes "percent") (codes "percent");
  multipliers = [];
}
