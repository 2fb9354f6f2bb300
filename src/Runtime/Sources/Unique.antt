-- ===== src/Runtime/Sources/Unique.antt =====
-- What removing duplicates (apps/resticpal-service/src/runtime/ipc.rs) keeps.
use mathlib.Core.List.{Memᴰ}
use resticpal.Prelude.{
  true, false, List, [], ◌∷◌, String, any, ◌≡◌, ◌≢◌, ◌⊎◌, ◌↔◌, arith, inl, inr, String_discrete,
  refl, Bool-cases, All, sym, ap,
}
use resticpal.Runtime.Sources.{has_text, first_of_each, deduplicate_exclusions}

mem-cons {ℓ} : {A : Type ℓ} (y x : A) (xs : List A) → Memᴰ y (x ∷ xs) → (y ≡ x) ⊎ Memᴰ y xs
mem-cons y x xs (Memᴰ.head q) = inl q
mem-cons y x xs (Memᴰ.tail n) = inr n

-- Every entry differs from the ones after it in its key.
module _ {A : Type 0} (key : A → String) where
  abbrev pub AreDistinct : List A → Type 0
  AreDistinct [] = Unit
  AreDistinct (x ∷ xs) = All (λ y. key x ≢ key y) xs × AreDistinct xs

  first_of_each-fresh :
      (k : String) (seen : List String) (xs : List A)
      → has_text k seen ≡ true
      → All (λ y. k ≢ key y) (first_of_each key seen xs)
  unfolding first_of_each any
  first_of_each-fresh k seen [] h = tt
  first_of_each-fresh k seen (x ∷ xs) h = elim (Bool-cases (has_text (key x) seen)) [
    | inl e ↦ rw e (first_of_each-fresh k seen xs h)
    | inr e ↦ rw e (λ same. cc, first_of_each-fresh k (key x ∷ seen) xs (ground arith))
  ]

  first_of_each-distinct :
      (seen : List String) (xs : List A) → AreDistinct (first_of_each key seen xs)
  unfolding first_of_each any
  first_of_each-distinct seen [] = tt
  first_of_each-distinct seen (x ∷ xs) = elim (Bool-cases (has_text (key x) seen)) [
    | inl e ↦ rw e (first_of_each-distinct seen xs)
    | inr e ↦ rw e (
      first_of_each-fresh (key x) (key x ∷ seen) xs (ground arith),
      first_of_each-distinct (key x ∷ seen) xs,
    )
  ]

  mem_of_first_of_each :
      (seen : List String) (xs : List A) (y : A) → Memᴰ y (first_of_each key seen xs) → Memᴰ y xs
  unfolding first_of_each
  mem_of_first_of_each seen [] y m = m
  mem_of_first_of_each seen (x ∷ xs) y m = elim (Bool-cases (has_text (key x) seen)) [
    | inl e ↦ Memᴰ.tail (mem_of_first_of_each seen xs y (rw e at m))
    | inr e ↦ elim (mem-cons y x _ (rw e at m)) [
      | inl q ↦ Memᴰ.head q
      | inr n ↦ Memᴰ.tail (mem_of_first_of_each (key x ∷ seen) xs y n)
    ]
  ]

  seen_twice :
      (seen : List String) (x y : A)
      → y ≡ x
      → has_text (key x) seen ≡ true
      → has_text (key y) seen ≢ false
  seen_twice seen x y q e new = cc

  -- An entry whose key was not seen before is kept, or an earlier one with its key is.
  first_of_each-keeps :
      (seen : List String) (xs : List A) (y : A)
      → has_text (key y) seen ≡ false
      → Memᴰ y xs
      → (z : A) × Memᴰ z (first_of_each key seen xs) × (key z ≡ key y)
  unfolding first_of_each any
  first_of_each-keeps seen [] y new m = elim m [ ]
  first_of_each-keeps seen (x ∷ xs) y new m = elim (mem-cons y x xs m) [
    | inl q ↦ elim (Bool-cases (has_text (key x) seen)) [
      | inl e ↦ absurd (seen_twice seen x y q e new)
      | inr e ↦ rw e (x, Memᴰ.head refl, ap key (sym q))
    ]
    | inr n ↦ elim (Bool-cases (has_text (key x) seen)) [
      | inl e ↦ rw e (first_of_each-keeps seen xs y new n)
      | inr e ↦ elim (String_discrete (key x) (key y)) [
        | yes same ↦ rw e (x, Memᴰ.head refl, same)
        | no differs ↦
            let (z, m', same) =
              first_of_each-keeps (key x ∷ seen) xs y (ground (arith, differs, new)) n in
            rw e (z, Memᴰ.tail m', same)
      ]
    ]
  ]

-- Removing duplicates from exclusions leaves each of them, and only them, once.
pub deduplicate_exclusions_lem :
    (exclusions : List String) (s : String)
    → AreDistinct (λ e. e) (deduplicate_exclusions exclusions)
      × (Memᴰ s (deduplicate_exclusions exclusions) ↔ Memᴰ s exclusions)
unfolding deduplicate_exclusions any
deduplicate_exclusions_lem exclusions s = (
  first_of_each-distinct (λ e. e) [] exclusions,
  (
    mem_of_first_of_each (λ e. e) [] exclusions s,
    λ m. let (z, m', same) = first_of_each-keeps (λ e. e) [] exclusions s refl m in rw same at m',
  ),
)
