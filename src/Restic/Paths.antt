-- ===== src/Restic/Paths.antt =====
-- `windows_path_is_same_or_descendant` of crates/resticpal-core/src/restic.rs. The standard library's
-- `str::to_lowercase` and the text of a `char` are arguments.
pub mod Tags
pub mod Within
pub mod Exactly
use Prim.Native.String.{◌++◌ as ◌+++◌}
use resticpal.Prelude.{
  ℕ, Bool, true, false, Option, none, some, List, [], ◌∷◌, ◌++◌, String, if◌then◌else◌,
  String_discrete, ◌≡◌, ◌↔◌, refl, ap, arith,
}
use mathlib.Core.List.{reverse}
use resticpal.Text.{to_ascii_lowercase}
use resticpal.Config.{
  Prefix, verbatim, verbatim_unc, verbatim_disk, device_ns, unc, disk, Component, prefix, root_dir,
  cur_dir, parent_dir, normal, PathBuf,
}

-- What the standard library does with texts, as far as the code uses it.
pub record Texts : Type 0 where
  pub to_lowercase : String → String
  pub from_char : ℕ → String
  pub to_string : ℕ → String

abbrev pub same : String → String → Bool
same s t = elim (String_discrete s t) [ yes _ ↦ true | no _ ↦ false ]

-- `zip(..).all(..)` behind the test of the lengths: the second list begins the first.
unfoldable pub starts_with : List String → List String → Bool
starts_with parts [] = true
starts_with [] (d ∷ ds) = false
starts_with (p ∷ ps) (d ∷ ds) = let rest = starts_with ps ds in if same p d then rest else false

-- The test of the parts, where both paths have them.
abbrev both_start : Option (List String) → Option (List String) → Bool
both_start none directory = false
both_start (some parts) none = false
both_start (some parts) (some directory_parts) = starts_with parts directory_parts

module _ (texts : Texts) where
  unfoldable pub normalized_windows_prefix : Prefix → String
  normalized_windows_prefix (disk drive) = "disk:" +++ texts.from_char (to_ascii_lowercase drive)
  normalized_windows_prefix (verbatim_disk drive) =
      "disk:" +++ texts.from_char (to_ascii_lowercase drive)
  normalized_windows_prefix (unc server share) =
      "unc:" +++ texts.to_lowercase server +++ "/" +++ texts.to_lowercase share
  normalized_windows_prefix (verbatim_unc server share) =
      "unc:" +++ texts.to_lowercase server +++ "/" +++ texts.to_lowercase share
  normalized_windows_prefix (device_ns device) = "device:" +++ texts.to_lowercase device
  normalized_windows_prefix (verbatim value) = "verbatim:" +++ texts.to_lowercase value

  -- The loop over the components. The vector `normalized` is kept with its last entry first, in two
  -- parts: what lies above the floor, which `..` may remove, and what lies below it.
  unfoldable pub normalize : List Component → List String → List String → Option (List String)
  normalize [] above below = some (reverse (above ++ below))
  normalize (prefix p ∷ rest) above below =
      normalize rest [] (normalized_windows_prefix p ∷ (above ++ below))
  normalize (root_dir ∷ rest) above below = normalize rest [] ("root" ∷ (above ++ below))
  normalize (cur_dir ∷ rest) above below = normalize rest above below
  normalize (parent_dir ∷ rest) [] below = none
  normalize (parent_dir ∷ rest) (last ∷ above) below = normalize rest above below
  normalize (normal value ∷ rest) above below =
      normalize rest (("name:" +++ texts.to_lowercase value) ∷ above) below

  unfoldable pub normalized_windows_path : PathBuf → Option (List String)
  normalized_windows_path path = if path.is_absolute then normalize path.components [] [] else none

  unfoldable pub windows_path_is_same_or_descendant : PathBuf → PathBuf → Bool
  windows_path_is_same_or_descendant path directory =
      both_start (normalized_windows_path path) (normalized_windows_path directory)

pub starts_with_iff :
    (ps ds : List String) → (starts_with ps ds ≡ true) ↔ ((rest : List String) × (ps ≡ ds ++ rest))
unfolding starts_with
starts_with_iff ps [] = (λ h. (ps, refl), λ h. refl)
starts_with_iff [] (d ∷ ds) = (λ h. cc, λ h. cc)
starts_with_iff (p ∷ ps) (d ∷ ds) =
    (λ h. ground (arith, (starts_with_iff ps ds).0), λ h. ground (arith, (starts_with_iff ps ds).1))
