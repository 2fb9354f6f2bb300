-- ===== src/Restic.antt =====
-- crates/resticpal-core/src/restic.rs: the restic operations, and which a repository mode allows.
pub mod Paths
pub mod Builder
pub mod Sources
pub mod Authorized
use resticpal.Prelude.{Bool, true, false}
use resticpal.Config.{RepositoryMode, standard, append_only}

pub data ResticOperation : Type 0 where
  backup unlock probe snapshots check initialize forget prune rewrite migrate repair remove_key :
      ResticOperation

abbrev pub allowed_in : ResticOperation → RepositoryMode → Bool
allowed_in operation standard = true
allowed_in backup append_only = true
allowed_in unlock append_only = true
allowed_in probe append_only = true
allowed_in snapshots append_only = true
allowed_in check append_only = true
allowed_in operation append_only = false
