-- ===== src/Service/Network.antt =====
-- `repository_requires_network` of apps/resticpal-service/src/runtime/scheduler.rs, over the code points
-- of a repository URL.
use mathlib.Core.List.{reverse}
use resticpal.Prelude.{
  ℕ, Bool, true, false, ◌&&◌, ◌||◌, Option, none, some, List, [], ◌∷◌, String, leb, ◌==◌,
  if◌then◌else◌, any, is_some,
}
use resticpal.Text.{codes, is_whitespace, is_ascii_lowercase}

skip_blank : List ℕ → List ℕ
skip_blank [] = []
skip_blank (c ∷ cs) = let rest = skip_blank cs in if is_whitespace c then rest else c ∷ cs

-- `str::trim`.
unfoldable pub trim : List ℕ → List ℕ
unfolding skip_blank
trim cs = reverse (skip_blank (reverse (skip_blank cs)))

unfoldable pub strip_prefix : List ℕ → List ℕ → Option (List ℕ)
strip_prefix [] cs = some cs
strip_prefix (p ∷ ps) [] = none
strip_prefix (p ∷ ps) (c ∷ cs) = let rest = strip_prefix ps cs in if p == c then rest else none

-- `path.starts_with(r"\\") || path.starts_with("//")`.
unfoldable pub is_share : List ℕ → Bool
unfolding strip_prefix
is_share path =
    is_some (strip_prefix (codes "\\\\") path) || is_some (strip_prefix (codes "//") path)

-- A drive letter, a colon and a separator.
unfoldable pub is_drive : List ℕ → Bool
is_drive (a ∷ b ∷ c ∷ rest) =
    (is_ascii_lowercase a || leb b'A' a && leb a b'Z') && b == b':' && (c == b'\\' || c == b'/')
is_drive path = false

-- The part after a `local:` prefix, in either of two spellings.
abbrev local_path : List ℕ → Option (List ℕ)
local_path repository = elim (strip_prefix (codes "local:") repository) [
  | some path ↦ some path
  | none ↦ strip_prefix (codes "LOCAL:") repository
]

unfoldable pub repository_requires_network : String → Bool
unfolding trim strip_prefix is_share is_drive any
repository_requires_network url =
    let repository = trim (codes url) in
    elim (local_path repository) [
      | some path ↦ is_share path
      | none ↦
          if is_share repository
          then true
          else if is_drive repository
          then false
          else any (λ c. c == b':') repository
    ]
