-- ===== src/Restic/Paths/Within.antt =====
-- Which paths lie in a directory, by following their parts, and that
-- `windows_path_is_same_or_descendant` of crates/resticpal-core/src/restic.rs finds them.
use Prim.Native.String.{◌++◌ as ◌+++◌}
use resticpal.Prelude.{
  true, false, some, List, [], ◌∷◌, ◌++◌, String, ◌≡◌, refl, ap, ◌∙◌, String_discrete,
}
use mathlib.Core.List.{reverse, reverse-append, append_assoc}
use resticpal.Text.{to_ascii_lowercase}
use resticpal.Config.{
  Prefix, verbatim, verbatim_unc, verbatim_disk, device_ns, unc, disk, Component, prefix, root_dir,
  cur_dir, parent_dir, normal, PathBuf,
}
use resticpal.Restic.Paths.{
  Texts, same, starts_with, normalized_windows_prefix, normalize, normalized_windows_path,
  windows_path_is_same_or_descendant,
}
use resticpal.Restic.Paths.Tags.{tag, tags}

module _ (texts : Texts) where
  -- A drive or a share, whether it is written verbatim or not, in lower case.
  abbrev pub volume : Prefix → Prefix
  volume (disk drive) = disk (to_ascii_lowercase drive)
  volume (verbatim_disk drive) = disk (to_ascii_lowercase drive)
  volume (unc server share) = unc (texts.to_lowercase server) (texts.to_lowercase share)
  volume (verbatim_unc server share) = unc (texts.to_lowercase server) (texts.to_lowercase share)
  volume (device_ns device) = device_ns (texts.to_lowercase device)
  volume (verbatim value) = verbatim (texts.to_lowercase value)

  -- From the directory with these names, the innermost first, the parts lead to the directory with those:
  -- `.` stays, `..` leaves a directory, which the root does not allow, and a name enters one.
  pub data Leads : List Component → List String → List String → Type 0 where
    arrives : (names : List String) → Leads [] names names
    stays :
        (rest : List Component) (names end : List String)
        → Leads rest names end
        → Leads (cur_dir ∷ rest) names end
    leaves :
        (rest : List Component) (name : String) (names end : List String)
        → Leads rest names end
        → Leads (parent_dir ∷ rest) (name ∷ names) end
    enters :
        (rest : List Component) (value : String) (names end : List String)
        → Leads rest (texts.to_lowercase value ∷ names) end
        → Leads (normal value ∷ rest) names end

  -- An absolute path to the directory with these names, on this volume.
  pub record IsAt (path : PathBuf) (p : Prefix) (names : List String) : Type 0 where
    pub absolute : path.is_absolute ≡ true
    pub start : Prefix
    pub rest : List Component
    pub rooted : path.components ≡ prefix start ∷ (root_dir ∷ rest)
    pub on : volume start ≡ p
    pub leads : Leads rest [] names

  -- A path lies in a directory if both are on one volume and the names of the path go on from those of the
  -- directory, of which none may be left.
  pub record LiesIn (path directory : PathBuf) : Type 0 where
    pub place : Prefix
    pub names : List String
    pub below : List String
    pub home : IsAt directory place names
    pub inside : IsAt path place (below ++ names)

  abbrev pub text_of : Prefix → String
  text_of (disk drive) = "disk:" +++ texts.from_char drive
  text_of (verbatim_disk drive) = "disk:" +++ texts.from_char drive
  text_of (unc server share) = "unc:" +++ server +++ "/" +++ share
  text_of (verbatim_unc server share) = "unc:" +++ server +++ "/" +++ share
  text_of (device_ns device) = "device:" +++ device
  text_of (verbatim value) = "verbatim:" +++ value

  pub text_of-volume : (p : Prefix) → normalized_windows_prefix texts p ≡ text_of (volume p)
  unfolding normalized_windows_prefix
  text_of-volume (disk drive) = refl
  text_of-volume (verbatim_disk drive) = refl
  text_of-volume (unc server share) = refl
  text_of-volume (verbatim_unc server share) = refl
  text_of-volume (device_ns device) = refl
  text_of-volume (verbatim value) = refl

  normalize-Leads :
      {rest : List Component} {names end : List String} (below : List String)
      → Leads rest names end
      → normalize texts rest (tags names) below ≡ some (reverse (tags end ++ below))
  unfolding normalize
  normalize-Leads below (arrives names) = refl
  normalize-Leads below (stays rest names end w) = normalize-Leads below w
  normalize-Leads below (leaves rest name names end w) = normalize-Leads below w
  normalize-Leads below (enters rest value names end w) = normalize-Leads below w

  tags-append : (ns ms : List String) → tags (ns ++ ms) ≡ tags ns ++ tags ms
  tags-append [] ms = refl
  tags-append (n ∷ ns) ms = ap (λ r. tag n ∷ r) (tags-append ns ms)

  abbrev pub floor : Prefix → List String
  floor p = "root" ∷ (text_of p ∷ [])

  -- The parts that a path is taken apart to.
  normalized-IsAt :
      (path : PathBuf) (p : Prefix) (names : List String)
      → IsAt path p names
      → normalized_windows_path texts path ≡ some (reverse (tags names ++ floor p))
  unfolding normalized_windows_path normalize
  normalized-IsAt path p names at =
      rw (at.absolute, at.rooted)
        (normalize-Leads ("root" ∷ (normalized_windows_prefix texts at.start ∷ [])) at.leads
          ∙ ap (λ t. some (reverse (tags names ++ ("root" ∷ (t ∷ [])))))
              (text_of-volume at.start ∙ ap text_of at.on))

  same_self : (s : String) → same s s ≡ true
  same_self s = elim (String_discrete s s) as (λ d. elim d [ yes _ ↦ true | no _ ↦ false ] ≡ true) [
    | yes _ ↦ refl
    | no ne ↦ absurd (ne refl)
  ]

  same_start : (parts rest : List String) → starts_with (parts ++ rest) parts ≡ true
  unfolding starts_with
  same_start [] rest = refl
  same_start (part ∷ parts) rest = rw (same_self part) (same_start parts rest)

  -- Every path that lies in a directory is found to.
  pub LiesIn-found :
      (path directory : PathBuf)
      → LiesIn path directory
      → windows_path_is_same_or_descendant texts path directory ≡ true
  unfolding windows_path_is_same_or_descendant
  LiesIn-found path directory l =
      let home = normalized-IsAt directory l.place l.names l.home in
      let inside = normalized-IsAt path l.place (l.below ++ l.names) l.inside in
      let apart : reverse (tags (l.below ++ l.names) ++ floor l.place)
          ≡ reverse (tags l.names ++ floor l.place) ++ reverse (tags l.below) =
        ap (λ t. reverse (t ++ floor l.place)) (tags-append l.below l.names)
        ∙ ap reverse (append_assoc (tags l.below) (tags l.names) (floor l.place))
        ∙ reverse-append (tags l.below) (tags l.names ++ floor l.place) in
      rw (home, inside, apart)
        (same_start (reverse (tags l.names ++ floor l.place)) (reverse (tags l.below)))

  -- What is not found does not lie in the directory.
  pub LiesIn-refused :
      (path directory : PathBuf)
      → windows_path_is_same_or_descendant texts path directory ≡ false
      → ¬ (LiesIn path directory)
  LiesIn-refused path directory apart l = let found = LiesIn-found path directory l in cc
