-- ===== src/Restic/Sources.antt =====
-- `validate_backup_source_paths` of apps/resticpal-service/src/executor.rs, with the functions on paths
-- that it calls. What Windows says of drives and aliases, and the standard library's building of paths,
-- are arguments.
pub mod Admitted
use Prim.Native.String.{◌++◌ as ◌+++◌}
use resticpal.Prelude.{
  ℕ, Bool, true, false, not, ◌&&◌, ◌||◌, Option, none, some, List, [], ◌∷◌, ◌++◌, String, any,
  Result, ok, err, ◌>>◌, reject_if,
}
use mathlib.Core.Option
use resticpal.Config.{
  Prefix, verbatim, verbatim_unc, verbatim_disk, device_ns, unc, disk, Component, prefix, root_dir,
  cur_dir, parent_dir, normal, PathBuf,
}
use resticpal.Restic.Builder.{
  InvocationError, unsupported_network_backup_source, unsupported_backup_source_namespace,
  protected_backup_source,
}
use resticpal.Restic.Paths.{Texts, windows_path_is_same_or_descendant}

-- `canonicalize` fails where a path does not exist; `is_remote_drive` is `GetDriveTypeW`.
pub record FileSystem : Type 0 where
  pub canonicalize : PathBuf → Option PathBuf
  pub is_remote_drive : ℕ → Bool
  pub path_from : String → PathBuf
  pub push : PathBuf → String → PathBuf

-- The kind of a path's prefix, if it begins with one.
abbrev first_prefix : List Component → Option Prefix
first_prefix (prefix p ∷ rest) = some p
first_prefix components = none

abbrev pub source_uses_unsupported_local_namespace : PathBuf → Bool
source_uses_unsupported_local_namespace path = elim (first_prefix path.components) [
  | none ↦ false
  | some (device_ns device) ↦ true
  | some (verbatim value) ↦ true
  | some (verbatim_unc server share) ↦ false
  | some (verbatim_disk drive) ↦ false
  | some (unc server share) ↦ false
  | some (disk drive) ↦ false
]

module _ (texts : Texts) (files : FileSystem) where
  abbrev pub source_is_network_path : PathBuf → Bool
  source_is_network_path path = elim (first_prefix path.components) [
    | none ↦ false
    | some (unc server share) ↦ true
    | some (verbatim_unc server share) ↦ true
    | some (disk drive) ↦ files.is_remote_drive drive
    | some (verbatim_disk drive) ↦ files.is_remote_drive drive
    | some (device_ns device) ↦ false
    | some (verbatim value) ↦ false
  ]

  push_components : PathBuf → List Component → PathBuf
  push_components path [] = path
  push_components path (parent_dir ∷ rest) = push_components (files.push path "..") rest
  push_components path (normal value ∷ rest) = push_components (files.push path value) rest
  push_components path (component ∷ rest) = push_components path rest

  unfoldable pub ordinary_windows_path : PathBuf → PathBuf
  unfolding push_components
  ordinary_windows_path path = elim path.components [
    | prefix (verbatim_disk drive) ∷ rest ↦
        push_components (files.path_from (texts.from_char drive +++ ":\\")) rest
    | prefix (verbatim_unc server share) ∷ rest ↦
        push_components (files.push (files.push (files.path_from "\\\\") server) share) rest
    | components ↦ path
  ]

  abbrev pub canonical : PathBuf → Option PathBuf
  canonical path = Option.map ordinary_windows_path (files.canonicalize path)

  abbrev both : Option PathBuf → List PathBuf
  both none = []
  both (some path) = path ∷ []

  -- The data directory, and what it stands for.
  abbrev pub protected_paths : Option PathBuf → List PathBuf
  protected_paths none = []
  protected_paths (some data_directory) = data_directory ∷ both (canonical data_directory)

  -- The test of one source against the protected paths, by itself and by what it stands for.
  abbrev pub reaches : List PathBuf → PathBuf → Option PathBuf → Bool
  reaches protected source canonical_source =
      any
        (λ directory.
          windows_path_is_same_or_descendant texts source directory || elim canonical_source [
            | none ↦ false
            | some path ↦ windows_path_is_same_or_descendant texts path directory
          ])
        protected

  abbrev pub is_alias : PathBuf → Option PathBuf → Bool
  is_alias source none = false
  is_alias source (some path) = not (
      windows_path_is_same_or_descendant texts source path
      && windows_path_is_same_or_descendant texts path source)

  unfoldable pub check_source : List PathBuf → PathBuf → Result InvocationError (Unit {0})
  check_source protected source = do
    reject_if (source_is_network_path source) unsupported_network_backup_source
    reject_if (source_uses_unsupported_local_namespace source) unsupported_backup_source_namespace
    reject_if (reaches protected source (canonical source)) protected_backup_source
    reject_if (is_alias source (canonical source)) unsupported_backup_source_namespace

  unfoldable pub check_sources : List PathBuf → List PathBuf → Result InvocationError (Unit {0})
  check_sources protected [] = ok tt
  check_sources protected (source ∷ rest) =
      check_source protected source >> check_sources protected rest

  unfoldable pub validate_backup_source_paths :
      List PathBuf → Option PathBuf → Result InvocationError (Unit {0})
  validate_backup_source_paths sources data_directory =
      check_sources (protected_paths data_directory) sources
