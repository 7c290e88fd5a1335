-- ===== src/Webhook/Project.antt =====
-- internal/webhook/v1alpha1/project_webhook.go: the scope validates a Project by its namespace and its
-- name.
use edgecdnx_controller.Common.{Option, none, Text}
use edgecdnx_controller.Tenancy.{Scope, Error, validate_project}

abbrev pub validate_create : Scope → (namespace name : Text) → Option Error
validate_create scope namespace name = validate_project scope namespace name

abbrev pub validate_update : Scope → (namespace name : Text) → Option Error
validate_update scope namespace name = validate_project scope namespace name

abbrev pub validate_delete : Scope → (namespace name : Text) → Option Error
validate_delete scope namespace name = none
