-- ===== src/Text.antt =====
-- What the code asks of texts: Rust's `str` and `char` methods, over the code points of a text.
use Prim.Native.Char.{code}
use resticpal.Prelude.{
  ℕ, zero, suc, ◌+◌, Bool, true, false, ◌&&◌, ◌||◌, List, [], ◌∷◌, String, ltb, leb, ◌==◌,
  if◌then◌else◌, length, any, all,
}

abbrev pub Bytes : Type 0
Bytes = List ℕ

-- `chars()`.
abbrev pub codes : String → List ℕ
codes String.[] = []
codes (String.◌∷◌ c s) = code c ∷ codes s

-- The property `White_Space` of Unicode, which `char::is_whitespace` and `trim` go by.
unfoldable pub is_whitespace : ℕ → Bool
is_whitespace c =
    leb 9 c && leb c 13
    || c == 32
    || c == 0x85
    || c == 0xa0
    || c == 0x1680
    || leb 0x2000 c && leb c 0x200a
    || c == 0x2028
    || c == 0x2029
    || c == 0x202f
    || c == 0x205f
    || c == 0x3000

-- `trim().is_empty()`.
unfoldable pub is_blank : String → Bool
unfolding is_whitespace all
is_blank s = all is_whitespace (codes s)

-- `chars().count()`.
unfoldable pub chars_count : String → ℕ
chars_count s = length (codes s)

-- `contains(['\0', '\r', '\n'])`.
unfoldable pub has_break : String → Bool
unfolding any
has_break s = any (λ c. c == 0 || c == 13 || c == 10) (codes s)

abbrev utf8_width : ℕ → ℕ
utf8_width c = if ltb c 0x80 then 1 else if ltb c 0x800 then 2 else if ltb c 0x10000 then 3 else 4

sum_by : (ℕ → ℕ) → List ℕ → ℕ
sum_by width [] = 0
sum_by width (c ∷ cs) = width c + sum_by width cs

-- `str::len`, in bytes.
unfoldable pub byte_len : String → ℕ
unfolding sum_by
byte_len s = sum_by utf8_width (codes s)

-- `encode_utf16().count()`.
unfoldable pub utf16_count : String → ℕ
unfolding sum_by
utf16_count s = sum_by (λ c. if ltb c 0x10000 then 1 else 2) (codes s)

abbrev pub is_ascii_lowercase : ℕ → Bool
is_ascii_lowercase c = leb b'a' c && leb c b'z'

abbrev pub is_ascii_digit : ℕ → Bool
is_ascii_digit c = leb b'0' c && leb c b'9'

abbrev pub is_ascii_alphanumeric : ℕ → Bool
is_ascii_alphanumeric c = is_ascii_digit c || is_ascii_lowercase c || leb b'A' c && leb c b'Z'

abbrev pub to_ascii_lowercase : ℕ → ℕ
to_ascii_lowercase c = if leb b'A' c && leb c b'Z' then c + 32 else c

eq_folded : List ℕ → List ℕ → Bool
eq_folded [] [] = true
eq_folded [] (d ∷ ds) = false
eq_folded (c ∷ cs) [] = false
eq_folded (c ∷ cs) (d ∷ ds) = to_ascii_lowercase c == to_ascii_lowercase d && eq_folded cs ds

unfoldable pub eq_ignore_ascii_case : String → String → Bool
unfolding eq_folded
eq_ignore_ascii_case s t = eq_folded (codes s) (codes t)

-- `trim` of a text: its blank ends are taken off.
trim_start : String → String
unfolding is_whitespace
trim_start String.[] = String.[]
trim_start (String.◌∷◌ c s) =
    let rest = trim_start s in if is_whitespace (code c) then rest else String.◌∷◌ c s

turn : String → String → String
turn String.[] done = done
turn (String.◌∷◌ c s) done = turn s (String.◌∷◌ c done)

unfoldable pub trimmed : String → String
unfolding trim_start turn
trimmed s = turn (trim_start (turn (trim_start s) String.[])) String.[]

-- `str::from_utf8`. A text of Rust is stored as the bytes it is encoded with: those that follow a leading
-- byte are between the bounds that it sets.
continues : ℕ → ℕ → ℕ → List ℕ → Bool
continues missing low high [] = missing == 0
continues zero low high (b ∷ bs) =
    let following =
      if ltb b 0x80 then 0 else if ltb b 0xe0 then 1 else if ltb b 0xf0 then 2 else 3 in
    let least = if b == 0xe0 then 0xa0 else if b == 0xf0 then 0x90 else 0x80 in
    let most = if b == 0xed then 0x9f else if b == 0xf4 then 0x8f else 0xbf in
    let rest = continues following least most bs in (ltb b 0x80 || leb 0xc2 b && leb b 0xf4) && rest
continues (suc missing) low high (b ∷ bs) =
    let rest = continues missing 0x80 0xbf bs in leb low b && leb b high && rest

unfoldable pub is_utf8 : List ℕ → Bool
unfolding continues
is_utf8 bytes = continues 0 0x80 0xbf bytes
