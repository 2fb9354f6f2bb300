-- ===== src/Restic/Paths/Exactly.antt =====
-- `windows_path_is_same_or_descendant` of crates/resticpal-core/src/restic.rs finds nothing but what lies in
-- a directory.
use resticpal.Prelude.{
  true, false, some, List, [], ◌∷◌, ◌++◌, String, ◌≡◌, ◌↔◌, refl, sym, ap, subst, ◌∙◌, inl, inr,
  some-inj, Bool-cases, Option-cases,
}
use mathlib.Core.List.{reverse, reverse-append, reverse-reverse}
use resticpal.Config.{Prefix, Component, prefix, root_dir, cur_dir, parent_dir, normal, PathBuf}
use resticpal.Restic.Paths.{
  Texts, starts_with_iff, normalized_windows_prefix, normalize, normalized_windows_path,
  windows_path_is_same_or_descendant,
}
use resticpal.Restic.Paths.Tags.{tags, split_tags}
use resticpal.Restic.Paths.Within.{
  volume, Leads, arrives, stays, leaves, enters, IsAt, LiesIn, text_of, text_of-volume, floor,
  LiesIn-found,
}

module _ (texts : Texts) where
  -- Parts that follow the root, as the standard library parses an absolute path.
  abbrev pub IsRelative : List Component → Type 0
  IsRelative [] = Unit
  IsRelative (cur_dir ∷ rest) = IsRelative rest
  IsRelative (parent_dir ∷ rest) = IsRelative rest
  IsRelative (normal value ∷ rest) = IsRelative rest
  IsRelative (prefix p ∷ rest) = ◌≡◌ true false
  IsRelative (root_dir ∷ rest) = ◌≡◌ true false

  Leads-normalize :
      (rest : List Component) (names below parts : List String)
      → IsRelative rest
      → normalize texts rest (tags names) below ≡ some parts
      → (end : List String) × Leads texts rest names end × (parts ≡ reverse (tags end ++ below))
  unfolding normalize
  Leads-normalize [] names below parts r h = (names, arrives names, sym (some-inj h))
  Leads-normalize (cur_dir ∷ rest) names below parts r h =
      let (end, w, e) = Leads-normalize rest names below parts r h in
      (end, stays rest names end w, e)
  Leads-normalize (parent_dir ∷ rest) [] below parts r h = absurd (cc)
  Leads-normalize (parent_dir ∷ rest) (name ∷ names) below parts r h =
      let (end, w, e) = Leads-normalize rest names below parts r h in
      (end, leaves rest name names end w, e)
  Leads-normalize (normal value ∷ rest) names below parts r h =
      let (end, w, e) = Leads-normalize rest (texts.to_lowercase value ∷ names) below parts r h in
      (end, enters rest value names end w, e)
  Leads-normalize (prefix p ∷ rest) names below parts r h = absurd (cc)
  Leads-normalize (root_dir ∷ rest) names below parts r h = absurd (cc)

  found_parts :
      (path directory : PathBuf)
      → windows_path_is_same_or_descendant texts path directory ≡ true
      → (ps : List String) × (ds : List String) × (more : List String) × (normalized_windows_path
            texts path
          ≡ some ps)
        × (normalized_windows_path texts directory ≡ some ds)
        × (ps ≡ ds ++ more)
  unfolding windows_path_is_same_or_descendant
  found_parts path directory h = elim (Option-cases (normalized_windows_path texts path)) [
    | inl e ↦ absurd (cc (rw (e, windows_path_is_same_or_descendant) at h))
    | inr (ps, e) ↦ elim (Option-cases (normalized_windows_path texts directory)) [
      | inl f ↦ absurd (cc (rw (e, f, windows_path_is_same_or_descendant) at h))
      | inr (ds, f) ↦
          let (more, same_parts) =
            (starts_with_iff ps ds).0 (rw (e, f, windows_path_is_same_or_descendant) at h) in
          (ps, ds, more, e, f, same_parts)
    ]
  ]

  -- A path that is the root of a volume, or goes on from it.
  pub record IsRooted (path : PathBuf) : Type 0 where
    pub start : Prefix
    pub rest : List Component
    pub rooted : path.components ≡ prefix start ∷ (root_dir ∷ rest)
    pub relative : IsRelative rest

  placed :
      (path : PathBuf) (r : IsRooted path) (parts : List String)
      → normalized_windows_path texts path ≡ some parts
      → (names : List String) × IsAt texts path (volume texts r.start) names
        × (parts ≡ reverse (tags names ++ floor texts (volume texts r.start)))
  unfolding normalized_windows_path normalize
  placed path r parts h = elim (Bool-cases path.is_absolute) [
    | inr off ↦ absurd (cc (rw (off, normalized_windows_path) at h))
    | inl on ↦
        let bottom = "root" ∷ (normalized_windows_prefix texts r.start ∷ []) in
        let (names, w, e) =
          Leads-normalize r.rest [] bottom parts r.relative
            (rw (on, r.rooted, normalized_windows_path, normalize) at h) in
        (
          names,
          record {
            absolute = on;
            start = r.start;
            rest = r.rest;
            rooted = r.rooted;
            on = refl;
            leads = w;
          },
          e ∙ ap (λ t. reverse (tags names ++ ("root" ∷ (t ∷ [])))) (text_of-volume texts r.start),
        )
  ]

  -- Only paths that lie in a directory are found to.
  found-LiesIn :
      (path directory : PathBuf) (r : IsRooted path) (d : IsRooted directory)
      → (normalized_windows_prefix texts r.start ≡ normalized_windows_prefix texts d.start
          → volume texts r.start ≡ volume texts d.start)
      → windows_path_is_same_or_descendant texts path directory ≡ true
      → LiesIn texts path directory
  found-LiesIn path directory r d told h =
      let (ps, ds, more, e, f, same_parts) = found_parts path directory h in
      let (ns, inside, g) = placed path r ps e in
      let (ms, home, k) = placed directory d ds f in
      let here = tags ns ++ floor texts (volume texts r.start) in
      let there = tags ms ++ floor texts (volume texts d.start) in
      let turned : reverse here ≡ reverse there ++ more =
        sym g ∙ same_parts ∙ ap (λ t. t ++ more) k in
      let flat : here ≡ reverse more ++ there =
        sym (reverse-reverse here)
        ∙ ap reverse turned
        ∙ reverse-append (reverse there) more
        ∙ ap (λ t. reverse more ++ t) (reverse-reverse there) in
      let (below, names, text) =
        split_tags ns ms (reverse more) (text_of texts (volume texts r.start))
          (text_of texts (volume texts d.start)) flat in
      let one = told (text_of-volume texts r.start ∙ text ∙ sym (text_of-volume texts d.start)) in
      record {
        place = volume texts d.start;
        names = ms;
        below = below;
        home = home;
        inside =
            subst (λ n. IsAt texts path (volume texts d.start) n) names
              (subst (λ v. IsAt texts path v ns) one inside);
      }

  -- Of two paths that begin with a volume and its root, the code finds the first to be the second or to lie
  -- below it exactly when it does: both are absolute, neither leaves its root by `..`, they are on one
  -- volume, verbatim or not, and the names that are left once `.` and `..` are followed, in lower case,
  -- begin with those of the second. This needs that two volumes of one text are one.
  pub same_or_descendant_iff :
      (path directory : PathBuf) (r : IsRooted path) (d : IsRooted directory)
      → (normalized_windows_prefix texts r.start ≡ normalized_windows_prefix texts d.start
          → volume texts r.start ≡ volume texts d.start)
      → (windows_path_is_same_or_descendant texts path directory ≡ true)
        ↔ LiesIn texts path directory
  same_or_descendant_iff path directory r d told =
      (found-LiesIn path directory r d told, LiesIn-found texts path directory)
