-- ===== src/Restic/Paths/Tags.antt =====
-- The names of a path as `windows_path_is_same_or_descendant` of crates/resticpal-core/src/restic.rs tags
-- them, and lists of them.
use Prim.Native.Char.{code}
use Prim.Native.String.append
use Prim.Native.String.{◌++◌ as ◌+++◌}
use resticpal.Prelude.{
  ℕ, ◌+◌, List, [], ◌∷◌, ◌++◌, String, ◌≡◌, ◌≢◌, refl, sym, ap, ◌∙◌, arith, length,
}
use mathlib.Core.List.{head-eq_of_cons-eq, tail-eq_of_cons-eq}

rest_of : String → String
rest_of String.[] = String.[]
rest_of (String.◌∷◌ c s) = s

first_code : String → ℕ
first_code String.[] = 0
first_code (String.◌∷◌ c s) = code c

append-inj : (p s t : String) → p +++ s ≡ p +++ t → s ≡ t
unfolding rest_of
append-inj String.[] s t h = sym (append.nil s) ∙ h ∙ append.nil t
append-inj (String.◌∷◌ c p) s t h =
    append-inj p s t (ap rest_of (sym (append.cons c p s) ∙ h ∙ append.cons c p t))

first_code-append : (p s : String) → first_code p ≢ 0 → first_code (p +++ s) ≡ first_code p
unfolding first_code
first_code-append String.[] s ne = absurd (ne refl)
first_code-append (String.◌∷◌ c p) s ne = ap first_code (append.cons c p s)

abbrev pub tag : String → String
tag name = "name:" +++ name

abbrev pub tags : List String → List String
tags [] = []
tags (name ∷ names) = tag name ∷ tags names

tag-inj : (s t : String) → tag s ≡ tag t → s ≡ t
tag-inj s t h = append-inj "name:" s t h

tag-ne-root : (s : String) → tag s ≢ "root"
unfolding first_code
tag-ne-root s h =
    let other : ◌≡◌ {A = ℕ} 110 114 =
      sym (first_code-append "name:" s (λ e. omega (arith, e))) ∙ ap first_code h in
    omega arith

length-append : (xs ys : List String) → length (xs ++ ys) ≡ length xs + length ys
length-append [] ys = omega arith
length-append (x ∷ xs) ys = let ih = length-append xs ys in omega arith

same_tags :
    (ns ms : List String) (v w : String)
    → tags ns ++ ("root" ∷ (v ∷ [])) ≡ tags ms ++ ("root" ∷ (w ∷ []))
    → (ns ≡ ms) × (v ≡ w)
same_tags [] [] v w h = (refl, cc)
same_tags [] (m ∷ ms) v w h = absurd (tag-ne-root m (sym (head-eq_of_cons-eq h)))
same_tags (n ∷ ns) [] v w h = absurd (tag-ne-root n (head-eq_of_cons-eq h))
same_tags (n ∷ ns) (m ∷ ms) v w h =
    let (same_names, same_volume) = same_tags ns ms v w (tail-eq_of_cons-eq h) in
    let same_name = tag-inj n m (head-eq_of_cons-eq h) in (cc, same_volume)

-- Two lists of names above a volume, of which one ends as the other.
pub split_tags :
    (ns ms more : List String) (v w : String)
    → tags ns ++ ("root" ∷ (v ∷ [])) ≡ more ++ (tags ms ++ ("root" ∷ (w ∷ [])))
    → (below : List String) × (ns ≡ below ++ ms) × (v ≡ w)
split_tags ns ms [] v w h = let (e, same_volume) = same_tags ns ms v w h in ([], e, same_volume)
split_tags [] ms (x ∷ more) v w h = absurd (
    omega (
      arith,
      ap length h,
      length-append more (tags ms ++ ("root" ∷ (w ∷ []))),
      length-append (tags ms) ("root" ∷ (w ∷ [])),
    ))
split_tags (n ∷ ns) ms (x ∷ more) v w h =
    let (below, e, same_volume) = split_tags ns ms more v w (tail-eq_of_cons-eq h) in
    (n ∷ below, ap (λ r. n ∷ r) e, same_volume)
