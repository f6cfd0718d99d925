-- ===== src/Execution/Tests.antt =====
-- Runs of the permission engine.
use mathlib.Core.List.{reverse}
use deepdive.Base.{◌≡◌, ◌≢◌, refl, true, false, [], ◌∷◌, some, All, find}
use deepdive.Text.{
  Text, codes, split, starts_with, text_eq, member, has_char, contains, ends_with, strip_by, strip,
  lower, join,
}
use deepdive.Json.{Fields, str, field, end, get}
use deepdive.Security.SecretPaths.{is_secret_path}
use deepdive.Execution.Permissions.{
  ToolDefinition, source_read, allow, deny, evaluate_result, forward_slashes, path_arguments,
  is_unsafe_path,
}
use deepdive.Execution.Permissions.Paths.{allowed_paths, up}

abbrev read_file : ToolDefinition
read_file = record {
  name = codes "read_file";
  capability = source_read;
  read_only = true;
  idempotent = true;
  requires_analysis_id = false;
  parallel_safe = true;
}

abbrev reading : Text → Fields
reading path = field (codes "path") (str path) end

abbrev source_path : Text
source_path = codes "src\\main..py"

source_allowed :
    (evaluate_result (read_file ∷ []) (codes "read_file") (reading source_path)).decision ≡ allow
unfolding evaluate_result text_eq get is_unsafe_path starts_with has_char contains ends_with
    is_secret_path split strip_by strip lower join
source_allowed = refl

up_denied :
    (evaluate_result
      (read_file ∷ [])
      (codes "read_file")
      (reading (codes "src\\..\\main.py"))).decision
    ≡ deny
unfolding evaluate_result text_eq get is_unsafe_path starts_with has_char contains
up_denied = refl

path_named : member (codes "path") path_arguments ≡ true
unfolding member
path_named = refl

path_given : get (codes "path") (reading source_path) ≡ str source_path
unfolding get text_eq
path_given = refl

allowed_paths_example :
    All (λ part. part ≢ up) (split b'/' (forward_slashes source_path))
    × (starts_with (forward_slashes source_path) (codes "/") ≡ false)
    × (is_secret_path source_path ≡ false)
    × ((tool : ToolDefinition) × (find
            (λ t. text_eq t.name (codes "read_file"))
            (reverse (read_file ∷ []))
          ≡ some tool))
allowed_paths_example =
    allowed_paths (read_file ∷ []) (codes "read_file") (reading source_path) (codes "path")
      source_path source_allowed path_named path_given
