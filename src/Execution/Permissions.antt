-- ===== src/Execution/Permissions.antt =====
-- backend/execution/permissions.py. The enabled tools are an argument; a result's message is left out.
pub mod Paths
use mathlib.Core.List.{reverse}
use deepdive.Base.{
  ℕ, Bool, true, false, not, ◌&&◌, ◌||◌, Option, none, some, List, [], ◌∷◌, find, if◌then◌else◌,
}
use deepdive.Text.{Text, codes, text_eq, starts_with, ends_with, contains, has_char, replace_char}
use deepdive.Json.{Json, Fields, str, get}
use deepdive.Security.SecretPaths.{is_secret_path}

pub data PermissionDecision : Type 0 where
  deny ask allow : PermissionDecision

pub data ReasonCode : Type 0 where
  tool_not_enabled unsafe_path secret_path_denied allowed : ReasonCode

pub data ToolCapability : Type 0 where
  source_read external_network artifact_read artifact_write : ToolCapability

pub record ToolDefinition : Type 0 where
  pub name : Text
  pub capability : ToolCapability
  pub read_only : Bool
  pub idempotent : Bool
  pub requires_analysis_id : Bool
  pub parallel_safe : Bool

pub record PermissionResult : Type 0 where
  pub decision : PermissionDecision
  pub reason_code : ReasonCode
  pub tool : Option ToolDefinition

-- `path.replace("\\", "/")`
unfoldable pub forward_slashes : Text → Text
unfolding replace_char
forward_slashes path = replace_char b'\\' b'/' path

-- `_is_unsafe_path`
unfoldable pub is_unsafe_path : Text → Bool
unfolding forward_slashes
is_unsafe_path path =
    let normalized = forward_slashes path in
    starts_with normalized (codes "/")
    || (starts_with normalized (codes "//")
        || (starts_with normalized (codes "~")
            || (starts_with normalized (codes ".git/")
                || (starts_with normalized (codes "../")
                    || (has_char b':' normalized
                        || (text_eq normalized (codes ".git")
                            || (text_eq normalized (codes "..")
                                || (contains normalized (codes "/../")
                                    || ends_with normalized (codes "/..")))))))))

-- `_tool_result`
unfoldable pub tool_result : ToolDefinition → PermissionDecision → ReasonCode → PermissionResult
tool_result tool decision reason_code = record {
  decision = decision;
  reason_code = reason_code;
  tool = some tool;
}

abbrev pub path_arguments : List Text
path_arguments = codes "path" ∷ codes "path_prefix" ∷ codes "glob" ∷ codes "path_glob" ∷ []

-- The loop over the names of the path arguments.
unfoldable pub check_paths : ToolDefinition → Fields → List Text → PermissionResult
unfolding tool_result
check_paths tool arguments [] = tool_result tool allow allowed
check_paths tool arguments (name ∷ names) =
    let rest = check_paths tool arguments names in
    (elim (get name arguments) [
      | str path ↦
          if is_unsafe_path path
          then tool_result tool deny unsafe_path
          else if is_secret_path path
          then tool_result tool deny secret_path_denied
          else rest
      | _ ↦ rest
    ])

-- `PermissionEngine.evaluate_result`, for the tools of the registry
unfoldable pub evaluate_result : List ToolDefinition → Text → Fields → PermissionResult
unfolding check_paths
evaluate_result tools tool_name arguments =
    elim (find (λ tool. text_eq tool.name tool_name) (reverse tools)) [
      | none ↦ record { decision = deny; reason_code = tool_not_enabled; tool = none }
      | some tool ↦ check_paths tool arguments path_arguments
    ]
