-- ===== src/Api/Permissions.antt =====
-- relops_hardware_controller/api/permissions.py, and `has_required_scopes` of api/models.py.
use relops_hardware_controll.Prelude.{String, Bool, List}
use relops_hardware_controll.Api.Authentication.{TaskclusterUser}

-- taskcluster.utils.scopeMatch
abbrev pub ScopeMatch : Type 0
ScopeMatch = List String → List (List String) → Bool

unfoldable pub has_required_scopes : ScopeMatch → TaskclusterUser → List (List String) → Bool
has_required_scopes scope_match user required_scope_sets =
    scope_match user.scopes required_scope_sets

-- `HasTaskclusterScopes.has_permission` for a view with this attribute.
unfoldable pub has_permission : ScopeMatch → TaskclusterUser → List (List String) → Bool
unfolding has_required_scopes
has_permission scope_match user required_taskcluster_scope_sets =
    has_required_scopes scope_match user required_taskcluster_scope_sets
