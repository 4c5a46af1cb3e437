-- ===== src/Policy/Text.antt =====
-- The functions of Go's package strings that internal/policy uses, on texts as lists of code points.
use hdc_remote_kit.Base.{
  ℕ, ◌+◌, List, [], ◌∷◌, ◌++◌, Bool, true, false, ◌&&◌, ◌||◌, Bytes, leb, ◌==◌, if◌then◌else◌,
  bytes_eq, map,
}

-- strings.ToLower where it gives an ASCII letter: the Kelvin sign and the dotted capital I have one
-- too. Other letters are left as they are.
unfoldable pub lower : ℕ → ℕ
lower c =
    if leb b'A' c && leb c b'Z'
    then c + 32
    else if c == 0x212a
    then b'k'
    else if c == 0x130
    then b'i'
    else c

unfoldable pub to_lower : Bytes → Bytes
unfolding lower
to_lower = map lower

-- strings.HasPrefix.
unfoldable pub has_prefix : Bytes → Bytes → Bool
has_prefix text [] = true
has_prefix [] (p ∷ ps) = false
has_prefix (c ∷ text) (p ∷ ps) = c == p && has_prefix text ps

-- strings.Contains.
unfoldable pub contains_text : Bytes → Bytes → Bool
unfolding has_prefix
contains_text [] part = has_prefix [] part
contains_text (c ∷ text) part = has_prefix (c ∷ text) part || contains_text text part

-- strings.ContainsRune.
unfoldable pub contains_rune : Bytes → ℕ → Bool
contains_rune [] r = false
contains_rune (c ∷ text) r = c == r || contains_rune text r

-- A map[string]struct{} or a slice searched for a text.
unfoldable pub member : Bytes → List Bytes → Bool
unfolding bytes_eq
member text [] = false
member text (x ∷ xs) = bytes_eq x text || member text xs

-- strings.Split by one character.
unfoldable pub split_at : ℕ → Bytes → Bytes → List Bytes
split_at sep current [] = current ∷ []
split_at sep current (c ∷ text) = elim (c == sep) [
  | true ↦ current ∷ split_at sep [] text
  | false ↦ split_at sep (current ++ c ∷ []) text
]

-- strings.Join with a space.
unfoldable pub join_space : List Bytes → Bytes
join_space [] = []
join_space (word ∷ []) = word
join_space (word ∷ next ∷ words) = word ++ b' ' ∷ join_space (next ∷ words)

-- `baseExecutable`: what follows the last slash, or the whole text; `tail` is what follows the last
-- slash seen so far.
base_from : Bytes → Bytes → Bytes
base_from tail [] = tail
base_from tail (c ∷ text) = base_from (if c == b'/' then text else tail) text

unfoldable pub base_executable : Bytes → Bytes
unfolding base_from
base_executable token = base_from token token

-- The white space of strings.TrimSpace.
unfoldable pub is_space : ℕ → Bool
is_space c =
    c == b' '
    || (leb 9 c && leb c 13)
    || c == 0x85
    || c == 0xa0
    || c == 0x1680
    || (leb 0x2000 c && leb c 0x200a)
    || c == 0x2028
    || c == 0x2029
    || c == 0x202f
    || c == 0x205f
    || c == 0x3000
