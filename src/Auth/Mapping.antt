-- ===== src/Auth/Mapping.antt =====
-- auth/authz_mapping.go: the permission that a REST request or a gRPC method requires.
use iroum_ax.Prelude.{
  String, Bool, true, false, not, ◌&&◌, ◌||◌, Option, none, some, List, [], ◌∷◌, if◌then◌else◌,
  ◌==◌, lookup,
}
use iroum_ax.Prelude.Text.{has_prefix}

pub record RestEntry : Type 0 where
  pub method : String
  pub path_prefix : String
  pub perm : String
  pub is_prefix : Bool
  pub bypass : Bool

-- The three results of a lookup.
pub record Lookup : Type 0 where
  pub perm : String
  pub bypass : Bool
  pub found : Bool

abbrev exact : String → String → String → RestEntry
exact method path perm = record {
  method = method;
  path_prefix = path;
  perm = perm;
  is_prefix = false;
  bypass = false;
}

abbrev below : String → String → String → RestEntry
below method path perm = record {
  method = method;
  path_prefix = path;
  perm = perm;
  is_prefix = true;
  bypass = false;
}

abbrev pub rest_permission_table : List RestEntry
rest_permission_table =
    record { method = "GET"; path_prefix = "/health"; perm = ""; is_prefix = false; bypass = true }
    ∷ record { method = "HEAD"; path_prefix = ""; perm = ""; is_prefix = true; bypass = true }
    ∷ record { method = "OPTIONS"; path_prefix = ""; perm = ""; is_prefix = true; bypass = true }
    ∷ exact "POST" "/api/v1/workflows" "write:workflow"
    ∷ exact "GET" "/api/v1/workflows" "read:workflow"
    ∷ below "DELETE" "/api/v1/workflows/" "delete:workflow"
    ∷ below "GET" "/api/v1/workflows/" "read:workflow"
    ∷ below "POST" "/api/v1/recommendations/" "write:recommendation"
    ∷ exact "POST" "/api/v1/documents/upload" "write:workflow"
    ∷ exact "GET" "/metrics" "read:metrics"
    ∷ []

-- The body of the loop: whether the entry is taken.
unfoldable pub entry_matches : String → String → RestEntry → Bool
unfolding has_prefix
entry_matches method path e =
    if e.is_prefix && e.path_prefix == ""
    then false
    else if not (e.method == method)
    then false
    else if e.is_prefix
    then has_prefix path e.path_prefix
    else path == e.path_prefix

unfoldable pub find_entry : String → String → List RestEntry → Lookup
unfolding entry_matches
find_entry method path [] = record { perm = ""; bypass = false; found = false }
find_entry method path (e ∷ es) =
    if entry_matches method path e
    then record { perm = e.perm; bypass = e.bypass; found = true }
    else find_entry method path es

unfoldable pub lookup_rest_permission : String → String → Lookup
unfolding find_entry
lookup_rest_permission method path =
    if method == "HEAD" || method == "OPTIONS"
    then record { perm = ""; bypass = true; found = true }
    else find_entry method path rest_permission_table

abbrev pub grpc_permission_table : List (String × String)
grpc_permission_table =
    ("/iroum.ax.v1.WorkflowService/CreateWorkflow", "write:workflow")
    ∷ ("/iroum.ax.v1.WorkflowService/GetWorkflow", "read:workflow")
    ∷ ("/iroum.ax.v1.WorkflowService/ListWorkflows", "read:workflow")
    ∷ []

abbrev pub grpc_bypass_methods : List (String × Bool)
grpc_bypass_methods = ("/grpc.health.v1.Health/Check", true) ∷ []

abbrev is_true : Option Bool → Bool
is_true none = false
is_true (some b) = b

unfoldable pub lookup_grpc_permission : String → Lookup
unfolding lookup
lookup_grpc_permission full_method =
    if is_true (lookup full_method grpc_bypass_methods)
    then record { perm = ""; bypass = true; found = true }
    else elim (lookup full_method grpc_permission_table) [
      | none ↦ record { perm = ""; bypass = false; found = false }
      | some perm ↦ record { perm = perm; bypass = false; found = true }
    ]
