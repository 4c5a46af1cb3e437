-- ===== src/Protocol/Handshake/Version.antt =====
-- The client's version, internal/protocol/daemon.go: `parseHdcVersion`, `compareHdcVersion` and
-- `ClientVersionTooOld`.
use hdc_remote_kit.Base.{
  ◌-◌, ◌+◌, ◌*◌, false, ◌&&◌, true, some, drop, ◌||◌, ◌^◌, leb, ◌==◌, reverse, ltb, [], ◌∷◌, none,
  if◌then◌else◌, codes, List, Bool, Option, Bytes,
}
use hdc_remote_kit.Policy.Text.{lower, split_at, has_prefix}
use hdc_remote_kit.Strings.{trim_space}
use Prim.Native.Nat.{ℕ, compare, Ordering}

abbrev pub handshake_fallback_version : Bytes
handshake_fallback_version = codes "Ver: 3.2.0c"

abbrev pub handshake_min_auth_version : Bytes
handshake_min_auth_version = codes "Ver: 3.0.0b"

pub record HdcVersion : Type 0 where
  pub major : ℕ
  pub minor : ℕ
  pub patch : ℕ
  pub letter : ℕ

-- strings.CutPrefix with one prefix or the other.
cut_prefix : Bytes → Bytes
cut_prefix text =
    if has_prefix text (codes "Ver:") || has_prefix text (codes "ver:")
    then trim_space (drop 4 text)
    else text

-- What stands in front of the first `-`.
before_dash : Bytes → Bytes
before_dash [] = []
before_dash (c ∷ text) = elim (c == b'-') [ true ↦ [] | false ↦ c ∷ before_dash text ]

-- strconv.Atoi on a text without `-`; a range error stands for 2 ^ 63 and more.
digits_value : ℕ → Bytes → Option ℕ
digits_value value [] = if ltb value (2 ^ 63) then some value else none
digits_value value (c ∷ text) =
    if leb b'0' c && leb c b'9' then digits_value (value * 10 + (c - b'0')) text else none

unsigned : Bytes → Bytes
unsigned [] = []
unsigned (c ∷ text) = if c == b'+' then text else c ∷ text

atoi_digits : Bytes → Option ℕ
atoi_digits [] = none
atoi_digits (c ∷ text) = digits_value 0 (c ∷ text)

atoi : Bytes → Option ℕ
atoi text = atoi_digits (unsigned text)

-- The letter that ends the text, in lower case, and the text without it; without a letter 0.
split_letter : Bytes → ℕ × Bytes
split_letter reversed = elim reversed [
  | [] ↦ (0, [])
  | last ∷ front ↦
      if leb b'a' (lower last) && leb (lower last) b'z' && ltb last 0x80
      then (lower last, reverse front)
      else (0, reverse (last ∷ front))
]

version_of : ℕ → List Bytes → Option HdcVersion
version_of letter (a ∷ b ∷ c ∷ []) = elim (atoi a) [
  | none ↦ none
  | some major ↦ elim (atoi b) [
    | none ↦ none
    | some minor ↦ elim (atoi c) [
      | none ↦ none
      | some patch ↦ some (record { major = major; minor = minor; patch = patch; letter = letter })
    ]
  ]
]
version_of letter _ = none

version_parts : Bytes → Option HdcVersion
version_parts [] = none
version_parts (c ∷ text) =
    let (letter, digits) = split_letter (reverse (c ∷ text)) in
    version_of letter (split_at b'.' [] digits)

pub parse_hdc_version : Bytes → Option HdcVersion
parse_hdc_version raw = version_parts (trim_space (before_dash (cut_prefix (trim_space raw))))

then_compare : ℕ → ℕ → Ordering → Ordering
then_compare a b next = elim (compare a b) [
  | Ordering.eq ↦ next
  | Ordering.lt ↦ Ordering.lt
  | Ordering.gt ↦ Ordering.gt
]

-- The sign of what `compareHdcVersion` returns.
pub compare_hdc_version : HdcVersion → HdcVersion → Ordering
compare_hdc_version left right = then_compare left.major right.major (
    then_compare left.minor right.minor
      (then_compare left.patch right.patch (compare left.letter right.letter)))

too_old : Option HdcVersion → Option HdcVersion → Bool
too_old (some got) (some minimum) = elim (compare_hdc_version got minimum) [
  | Ordering.lt ↦ true
  | _ ↦ false
]
too_old _ _ = false

-- An empty version has no parts, so it is not too old.
pub client_version_too_old : Bytes → Bool
client_version_too_old version =
    too_old (parse_hdc_version (trim_space version)) (parse_hdc_version handshake_min_auth_version)
