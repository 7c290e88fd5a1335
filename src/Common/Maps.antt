-- ===== src/Common/Maps.antt =====
-- Go maps from strings to strings, as functions: `none` is a missing key.
use mathlib.Core.Bool.{Bool, false}
use mathlib.Core.Option.{Option, none, some}
use mathlib.Core.List.{List, [], ◌∷◌}
use edgecdnx_controller.Common.Tests.{if◌then◌else◌}
use edgecdnx_controller.Common.Lists.{all}
use edgecdnx_controller.Common.Bytes.{Text, text_eq}

abbrev pub Map : Type 0
Map = Text → Option Text

-- The empty map; a nil map reads as it does.
abbrev pub no_entries : Map
no_entries key = none

-- `labels[key]`, where a missing key reads as the empty string.
abbrev pub read : Map → Text → Text
read labels key = elim (labels key) [ none ↦ [] | some v ↦ v ]

-- `labels[key] = value`
abbrev pub write : Map → Text → Text → Map
write labels key value k = if text_eq key k then some value else labels k

-- A map with these entries written one after the other.
abbrev pub write_all : Map → List (Text × Text) → Map
write_all m [] = m
write_all m ((key, value) ∷ entries) = write_all (write m key value) entries

abbrev pub map_of : List (Text × Text) → Map
map_of = write_all no_entries

-- Whether a selector with these entries matches a map.
abbrev pub selects : List (Text × Text) → Map → Bool
selects entries m = all (λ e. (elim (m e.0) [ none ↦ false | some v ↦ text_eq v e.1 ])) entries
