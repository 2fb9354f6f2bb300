-- ===== src/Restic/Sources/Admitted.antt =====
-- Which backup sources the service takes (apps/resticpal-service/src/executor.rs).
use resticpal.Prelude.{ℕ, false, some, List, [], ◌∷◌, ◌≡◌, ◌⊎◌, inl, inr, refl, arith, any, ok}
use mathlib.Core.List.{Memᴰ}
use resticpal.Config.{
  Prefix, verbatim, verbatim_unc, verbatim_disk, device_ns, unc, disk, Component, prefix, PathBuf,
}
use resticpal.Restic.Paths.Within.{LiesIn, LiesIn-refused}
use resticpal.Restic.Paths.{Texts, windows_path_is_same_or_descendant}
use resticpal.Restic.Sources.{
  FileSystem, source_uses_unsupported_local_namespace, source_is_network_path, canonical,
  protected_paths, reaches, check_source, check_sources, validate_backup_source_paths,
}

module _ (texts : Texts) (files : FileSystem) where
  check_source_lem :
      (protected : List PathBuf) (source : PathBuf)
      → check_source texts files protected source ≡ ok tt
      → (source_is_network_path texts files source ≡ false)
        × (source_uses_unsupported_local_namespace source ≡ false)
        × (reaches texts files protected source (canonical texts files source) ≡ false)
  unfolding check_source
  check_source_lem protected source h = ground arith

  check_sources_lem :
      (protected sources : List PathBuf) (source : PathBuf)
      → check_sources texts files protected sources ≡ ok tt
      → Memᴰ source sources
      → check_source texts files protected source ≡ ok tt
  unfolding check_sources
  check_sources_lem protected [] source h m = elim m [ ]
  check_sources_lem protected (x ∷ rest) source h (Memᴰ.head e) = rw e (ground arith)
  check_sources_lem protected (x ∷ rest) source h (Memᴰ.tail m) =
      check_sources_lem protected rest source (ground arith) m

  -- What is refused by itself and by what it stands for, for one directory.
  unreached :
      (protected : List PathBuf) (directory source path : PathBuf)
      → reaches texts files protected source (canonical texts files source) ≡ false
      → Memᴰ directory protected
      → (path ≡ source) ⊎ (canonical texts files source ≡ some path)
      → windows_path_is_same_or_descendant texts path directory ≡ false
  unfolding any
  unreached [] directory source path h m is = elim m [ ]
  unreached (d ∷ protected) directory source path h (Memᴰ.head e) (inl same) =
      rw (e, same) (ground arith)
  unreached (d ∷ protected) directory source path h (Memᴰ.head e) (inr stands) =
      rw e (ground (arith, stands))
  unreached (d ∷ protected) directory source path h (Memᴰ.tail m) is =
      unreached protected directory source path (ground arith) m is

  protected-directory :
      (directory home : PathBuf)
      → (home ≡ directory) ⊎ (canonical texts files directory ≡ some home)
      → Memᴰ home (protected_paths texts files (some directory))
  protected-directory directory home (inl same) = Memᴰ.head same
  protected-directory directory home (inr stands) = rw stands (Memᴰ.tail (Memᴰ.head refl))

  -- On a drive of this machine that is no network drive: the path names no share, no device and no other
  -- namespace.
  abbrev pub IsLocal : PathBuf → Type 0
  IsLocal source =
      (p : Prefix) (rest : List Component)
      → source.components ≡ prefix p ∷ rest
      → (drive : ℕ) × ((p ≡ disk drive) ⊎ (p ≡ verbatim_disk drive))
        × (files.is_remote_drive drive ≡ false)

  local :
      (source : PathBuf)
      → source_is_network_path texts files source ≡ false
      → source_uses_unsupported_local_namespace source ≡ false
      → IsLocal source
  local source network namespace (disk drive) rest e = (drive, inl refl, rw e at network)
  local source network namespace (verbatim_disk drive) rest e = (drive, inr refl, rw e at network)
  local source network namespace (unc server share) rest e = absurd (cc (rw e at network))
  local source network namespace (verbatim_unc server share) rest e = absurd (cc (rw e at network))
  local source network namespace (device_ns device) rest e = absurd (cc (rw e at namespace))
  local source network namespace (verbatim value) rest e = absurd (cc (rw e at namespace))

  -- When the service takes a list of backup sources, each of them is on no network drive or share and in no
  -- device namespace, and neither it nor what it stands for in the file system is the directory in which
  -- the service keeps its own data, or lies in it, by its name or by what that stands for.
  -- A path that leaves its root by `..` lies in none, in this sense.
  pub accepted_sources_outside :
      (sources : List PathBuf) (directory source : PathBuf)
      → validate_backup_source_paths texts files sources (some directory) ≡ ok tt
      → Memᴰ source sources
      → IsLocal source
        × ((path home : PathBuf)
            → (path ≡ source) ⊎ (canonical texts files source ≡ some path)
            → (home ≡ directory) ⊎ (canonical texts files directory ≡ some home)
            → ¬ (LiesIn texts path home))
  unfolding validate_backup_source_paths
  accepted_sources_outside sources directory source h m =
      let (network, namespace, apart) =
        check_source_lem (protected_paths texts files (some directory)) source
          (check_sources_lem (protected_paths texts files (some directory)) sources source h m) in
      (
        local source network namespace,
        λ path home is kept. LiesIn-refused texts path home (
            unreached (protected_paths texts files (some directory)) home source path apart
              (protected-directory directory home kept) is),
      )
