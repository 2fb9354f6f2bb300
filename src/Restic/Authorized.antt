-- ===== src/Restic/Authorized.antt =====
-- What the invocations of crates/resticpal-core/src/restic.rs may do.
use resticpal.Prelude.{Bool, true, false, some, List, [], ◌∷◌, String, any, All, ok, ◌≡◌, arith}
use resticpal.Config.{append_only, PathBuf, EffectiveConfig}
use resticpal.Config.Validate.{validate}
use resticpal.Restic.{ResticOperation, allowed_in}
use resticpal.Restic.Paths.{Texts}
use resticpal.Restic.Paths.Within.{LiesIn, LiesIn-refused}
use resticpal.Restic.Builder.{
  ResticInvocation, Built, is_protected, unlock, inspection, repository_setup, retention,
  backup_with_required_exclusions, authorize_operation,
}

-- The ways to build an invocation for a configuration.
pub data Request : Type 0 where
  backs_up : List PathBuf → Request
  unlocks : Request
  inspects sets_up retains : ResticOperation → Request

-- Of a valid configuration with a repository, which it names, and of an operation that the mode of the
-- repository allows; the secrets are those of the configuration.
abbrev pub IsAuthorized : EffectiveConfig → ResticInvocation → Type 0
IsAuthorized config inv =
    (allowed_in inv.operation config.repository.mode ≡ true)
    × (validate config ≡ ok tt)
    × ((url : String) × (config.repository.url ≡ some url)
        × (inv.environment ≡ ("RESTIC_REPOSITORY", url) ∷ []))
    × (inv.secret_environment ≡ config.repository.secret_refs)

unlock-IsAuthorized :
    (config : EffectiveConfig) (inv : ResticInvocation)
    → unlock config ≡ ok inv
    → IsAuthorized config inv
unfolding unlock authorize_operation
unlock-IsAuthorized config inv h = ground arith

inspection-IsAuthorized :
    (config : EffectiveConfig) (operation : ResticOperation) (inv : ResticInvocation)
    → inspection config operation ≡ ok inv
    → IsAuthorized config inv
unfolding inspection authorize_operation
inspection-IsAuthorized config operation inv h = ground arith

repository_setup-IsAuthorized :
    (config : EffectiveConfig) (operation : ResticOperation) (inv : ResticInvocation)
    → repository_setup config operation ≡ ok inv
    → IsAuthorized config inv
unfolding repository_setup authorize_operation
repository_setup-IsAuthorized config operation inv h = ground arith

retention-IsAuthorized :
    (texts : Texts) (config : EffectiveConfig) (operation : ResticOperation)
    (inv : ResticInvocation)
    → retention texts config operation ≡ ok inv
    → IsAuthorized config inv
unfolding retention authorize_operation
retention-IsAuthorized texts config operation inv h = ground arith

backup-IsAuthorized :
    (texts : Texts) (config : EffectiveConfig) (exclusions : List PathBuf) (inv : ResticInvocation)
    → backup_with_required_exclusions texts config exclusions ≡ ok inv
    → IsAuthorized config inv
unfolding backup_with_required_exclusions authorize_operation
backup-IsAuthorized texts config exclusions inv h = ground arith

module _ (texts : Texts) (config : EffectiveConfig) where
  abbrev pub built : Request → Built
  built (backs_up exclusions) = backup_with_required_exclusions texts config exclusions
  built unlocks = unlock config
  built (inspects operation) = inspection config operation
  built (sets_up operation) = repository_setup config operation
  built (retains operation) = retention texts config operation

  -- Every invocation that the builder makes is of a valid configuration with a repository, which is the
  -- only entry of its environment, with the secret references of the configuration, and of an operation
  -- that the mode of the repository allows.
  pub built-IsAuthorized :
      (request : Request) (inv : ResticInvocation)
      → built request ≡ ok inv
      → IsAuthorized config inv
  built-IsAuthorized (backs_up exclusions) inv h = backup-IsAuthorized texts config exclusions inv h
  built-IsAuthorized unlocks inv h = unlock-IsAuthorized config inv h
  built-IsAuthorized (inspects operation) inv h = inspection-IsAuthorized config operation inv h
  built-IsAuthorized (sets_up operation) inv h =
      repository_setup-IsAuthorized config operation inv h
  built-IsAuthorized (retains operation) inv h = retention-IsAuthorized texts config operation inv h

-- The operations that neither remove nor rewrite what a repository holds.
abbrev pub keeps_snapshots : ResticOperation → Bool
keeps_snapshots ResticOperation.backup = true
keeps_snapshots ResticOperation.unlock = true
keeps_snapshots ResticOperation.probe = true
keeps_snapshots ResticOperation.snapshots = true
keeps_snapshots ResticOperation.check = true
keeps_snapshots operation = false

allowed-keeps_snapshots :
    (operation : ResticOperation) → allowed_in operation append_only ≡ keeps_snapshots operation
allowed-keeps_snapshots operation = ground arith

-- For a repository in append-only mode, whatever is asked of the builder, it makes invocations only of
-- backups, lock cleanups, probes, snapshot listings and checks.
pub append_only_keeps :
    (texts : Texts) (config : EffectiveConfig) (request : Request) (inv : ResticInvocation)
    → config.repository.mode ≡ append_only
    → built texts config request ≡ ok inv
    → keeps_snapshots inv.operation ≡ true
append_only_keeps texts config request inv mode h =
    let allowed = (built-IsAuthorized texts config request inv h).0 in
    ground (arith, allowed, mode, allowed-keeps_snapshots inv.operation)

any-false {ℓ} :
    {A : Type ℓ} (p : A → Bool) (xs : List A) → any p xs ≡ false → All (λ x. p x ≡ false) xs
unfolding any
any-false p [] h = tt
any-false p (x ∷ xs) h = (ground arith, any-false p xs (ground arith))

All-map {ℓ κ μ} :
    {A : Type ℓ} {P : A → Type κ} {Q : A → Type μ} (f : (x : A) → P x → Q x) (xs : List A)
    → All P xs
    → All Q xs
All-map f [] a = tt
All-map f (x ∷ xs) a = (f x a.0, All-map f xs a.1)

unprotected :
    (texts : Texts) (config : EffectiveConfig) (exclusions : List PathBuf) (inv : ResticInvocation)
    → backup_with_required_exclusions texts config exclusions ≡ ok inv
    → any (is_protected texts exclusions) config.backup.paths ≡ false
unfolding backup_with_required_exclusions
unprotected texts config exclusions inv h = ground arith

-- No source of a backup is a protected directory or lies below one: there is no volume on which the names
-- of the source, with `.` and `..` followed and in lower case, go on from those of the directory.
-- A path that leaves its root by `..` lies in none, in this sense.
pub backup_sources_unprotected :
    (texts : Texts) (config : EffectiveConfig) (exclusions : List PathBuf) (inv : ResticInvocation)
    → backup_with_required_exclusions texts config exclusions ≡ ok inv
    → All
        (λ source. All (λ protected. ¬ (LiesIn texts source protected)) exclusions)
        config.backup.paths
backup_sources_unprotected texts config exclusions inv h =
    All-map
      (λ source apart.
        All-map (λ protected. LiesIn-refused texts source protected) exclusions
          (any-false _ exclusions apart))
      config.backup.paths
      (any-false _ config.backup.paths (unprotected texts config exclusions inv h))
