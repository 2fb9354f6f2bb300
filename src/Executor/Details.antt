-- ===== src/Executor/Details.antt =====
-- The names of sources that an outcome carries are few, safe to show and different
-- (`BackupFailureDetails` of apps/resticpal-service/src/executor.rs).
use resticpal.Prelude.{
  ℕ, ◌<◌, ◌⊎◌, sym, is_empty, ◌+◌, ◌≤◌, true, false, not, ◌||◌, List, [], ◌∷◌, ◌++◌, String, leb,
  any, All, length, ◌≡◌, inl, inr, refl, arith, Bool-cases, String_discrete, ◌≢◌, subst,
}
use resticpal.Service.Lifecycle.{BackupFailureDetails}
use resticpal.Text.{codes, byte_len}
use resticpal.Config.Management.{is_text}
use resticpal.Executor.{
  is_safe_backup_failed_item, is_unsafe, holds, push, push_all, merge, max_backup_failed_items,
}

abbrev pub IsDistinct : List String → Type 0
IsDistinct [] = Unit
IsDistinct (item ∷ items) = All (λ other. other ≢ item) items × IsDistinct items

-- A character that no control character is, and that does not turn the direction of a text.
abbrev pub IsPlain : ℕ → Type 0
IsPlain c =
    (0x20 ≤ c)
    × ((c < 0x7f) ⊎ (0x9f < c))
    × ((c < 0x202a) ⊎ (0x202e < c))
    × ((c < 0x2066) ⊎ (0x2069 < c))

-- A text that a person can be shown: not empty, of 4 KiB at most, and of plain characters.
pub record IsShowable (item : String) : Type 0 where
  pub not_empty : codes item ≢ []
  pub short : byte_len item ≤ 4096
  pub plain : All IsPlain (codes item)

pub record IsBounded (details : BackupFailureDetails) : Type 0 where
  pub few : length details.items ≤ 100
  pub safe : All IsShowable details.items
  pub distinct : IsDistinct details.items

any-IsPlain : (cs : List ℕ) → any is_unsafe cs ≡ false → All IsPlain cs
unfolding any
any-IsPlain [] h = tt
any-IsPlain (c ∷ cs) h =
    let this : is_unsafe c ≡ false = ground arith in
    ((ground arith, ground arith, ground arith, ground arith), any-IsPlain cs (ground arith))

not_empty_of : (cs : List ℕ) → is_empty cs ≡ false → cs ≢ []
not_empty_of [] h e = cc
not_empty_of (c ∷ cs) h e = cc

safe-IsShowable : (item : String) → is_safe_backup_failed_item item ≡ true → IsShowable item
unfolding is_safe_backup_failed_item
safe-IsShowable item h = record {
  not_empty = not_empty_of (codes item) (ground arith);
  short = ground arith;
  plain = any-IsPlain (codes item) (ground arith);
}

same_text : (s : String) → is_text s s ≡ true
same_text s = elim (String_discrete s s) as (λ d. elim d [ yes _ ↦ true | no _ ↦ false ] ≡ true) [
  | yes _ ↦ refl
  | no ne ↦ absurd (ne refl)
]

distinct_text : (s t : String) → is_text s t ≡ false → t ≢ s
distinct_text s t h e =
    let same = same_text s in
    let other : is_text s s ≡ false = subst (λ u. is_text s u ≡ false) e h in cc

append-All :
    (P : String → Type 0) (items : List String) (last : String)
    → All P items
    → P last
    → All P (items ++ (last ∷ []))
append-All P [] last h p = (p, tt)
append-All P (item ∷ items) last (first, rest) p = (first, append-All P items last rest p)

absent :
    (item : String) (items : List String) → holds item items ≡ false → All (λ i. i ≢ item) items
unfolding any
absent item [] h = tt
absent item (other ∷ items) h =
    let first : is_text other item ≡ false = ground arith in
    (λ e. distinct_text other item first (sym e), absent item items (ground arith))

append-IsDistinct :
    (items : List String) (last : String)
    → IsDistinct items
    → All (λ i. i ≢ last) items
    → IsDistinct (items ++ (last ∷ []))
append-IsDistinct [] last h new = (tt, tt)
append-IsDistinct (item ∷ items) last (first, rest) (other, new) = (
  append-All (λ i. i ≢ item) items last first (λ e. other (sym e)),
  append-IsDistinct items last rest new,
)

length-append :
    (items : List String) (last : String) → length (items ++ (last ∷ [])) ≡ length items + 1
length-append [] last = omega arith
length-append (item ∷ items) last = let ih = length-append items last in omega arith

pub push-IsBounded :
    (details : BackupFailureDetails) (item : String)
    → IsBounded details
    → IsBounded (push details item)
unfolding push
push-IsBounded details item b = elim (Bool-cases (holds item details.items)) [
  | inl known ↦ rw (known) b
  | inr new ↦
      elim (Bool-cases (
        not (is_safe_backup_failed_item item)
        || leb max_backup_failed_items (length details.items))) [
          | inl refused ↦
              rw (new, refused) (record { few = b.few; safe = b.safe; distinct = b.distinct })
          | inr taken ↦
              let more = length-append details.items item in
              let good : is_safe_backup_failed_item item ≡ true = ground arith in
              rw (new, taken)
                (record {
                  few = ground arith;
                  safe =
                      append-All IsShowable details.items item b.safe (safe-IsShowable item good);
                  distinct =
                      append-IsDistinct details.items item b.distinct
                        (absent item details.items new);
                })
        ]
]

push_all-IsBounded :
    (items : List String) (details : BackupFailureDetails)
    → IsBounded details
    → IsBounded (push_all details items)
unfolding push_all
push_all-IsBounded [] details b = b
push_all-IsBounded (item ∷ items) details b =
    push_all-IsBounded items (push details item) (push-IsBounded details item b)

pub merge-IsBounded :
    (details other : BackupFailureDetails) → IsBounded details → IsBounded (merge details other)
unfolding merge
merge-IsBounded details other b =
    let p = push_all-IsBounded other.items details b in
    record { few = p.few; safe = p.safe; distinct = p.distinct }
