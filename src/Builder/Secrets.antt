-- ===== src/Builder/Secrets.antt =====
-- internal/builder/secret_builder.go
use edgecdnx_controller.Common.{Option, [], ◌∷◌, Text, Map, no_entries, write, map_of}
use edgecdnx_controller.Builder.{values_hash_annotation, built}

-- A Secret; `entries` are its data, as bytes.
pub record Secret : Type 0 where
  pub name : Text
  pub namespace : Text
  pub labels : Map
  pub annotations : Map
  pub entries : Map

abbrev pub new_secret_builder : (name namespace : Text) → Secret
new_secret_builder name namespace = record {
  name = name;
  namespace = namespace;
  labels = no_entries;
  annotations = no_entries;
  entries = no_entries;
}

abbrev pub with_annotations : Map → Secret → Secret
with_annotations annotations s = record s { annotations = annotations }

abbrev pub with_labels : Map → Secret → Secret
with_labels labels s = record s { labels = labels }

abbrev pub with_data : Map → Secret → Secret
with_data entries s = record s { entries = entries }

abbrev pub with_data_entry : (key value : Text) → Secret → Secret
with_data_entry key value s = record s { entries = write s.entries key value }

-- Build sets the annotations to the one entry.
abbrev pub build : (hash : Secret → Option Text) → Secret → Option (Secret × Text)
build hash = built hash (λ h s. with_annotations (map_of ((values_hash_annotation, h) ∷ [])) s)
