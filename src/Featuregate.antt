-- ===== src/Featuregate.antt =====
-- internal/featuregate/featuregate.go: a comma-separated list of feature gates.
use edgecdnx_controller.Common.{Bool, true, false, List, [], ◌∷◌, Text, text_eq, if◌then◌else◌}
use edgecdnx_controller.Strings.{split, trim_space}

-- The loop over the parts.
unfoldable pub enabled_in : List Text → (name : Text) → Bool
enabled_in [] name = false
enabled_in (gate ∷ gates) name =
    let rest = enabled_in gates name in if text_eq (trim_space gate) name then true else rest

-- Enabled
unfoldable pub enabled : (feature_gates name : Text) → Bool
enabled feature_gates name = enabled_in (split b',' feature_gates) name
