-- ===== src/Strings.antt =====
-- The functions of Go's packages strings, utf8 and strconv that the protocol, the gateway and the
-- bridges use, on the bytes of a Go string.
pub mod Runes
use hdc_remote_kit.Base.{
  ◌^◌, ◌||◌, ◌/◌, ◌*◌, ◌&&◌, zero, length, false, ◌==◌, ◌-◌, ◌%◌, true, replicate, ltb, leb, ◌∷◌,
  ◌+◌, ◌++◌, suc, reverse, if◌then◌else◌, [], List, Bool, ℕ, Bytes,
}

-- A UTF-8 sequence for a white space character of unicode.IsSpace that begins the bytes: how many
-- bytes it has, or 0 where there is none.
unfoldable pub space_width : Bytes → ℕ
space_width [] = 0
space_width (a ∷ text) = if a == 32 || (leb 9 a && leb a 13) then 1 else (elim text [
  | [] ↦ 0
  | b ∷ more ↦ if a == 0xc2 && (b == 0x85 || b == 0xa0) then 2 else (elim more [
    | [] ↦ 0
    | c ∷ _ ↦
        if (a == 0xe1 && b == 0x9a && c == 0x80)
          || (a == 0xe2
              && b == 0x80
              && ((leb 0x80 c && leb c 0x8a) || c == 0xa8 || c == 0xa9 || c == 0xaf))
          || (a == 0xe2 && b == 0x81 && c == 0x9f)
          || (a == 0xe3 && b == 0x80 && c == 0x80)
        then 3
        else 0
  ])
])

-- The same for a sequence that ends the bytes, on the reversed bytes.
unfoldable pub space_width_back : Bytes → ℕ
space_width_back [] = 0
space_width_back (c ∷ text) = if c == 32 || (leb 9 c && leb c 13) then 1 else (elim text [
  | [] ↦ 0
  | b ∷ more ↦ if b == 0xc2 && (c == 0x85 || c == 0xa0) then 2 else (elim more [
    | [] ↦ 0
    | a ∷ _ ↦
        if (a == 0xe1 && b == 0x9a && c == 0x80)
          || (a == 0xe2
              && b == 0x80
              && ((leb 0x80 c && leb c 0x8a) || c == 0xa8 || c == 0xa9 || c == 0xaf))
          || (a == 0xe2 && b == 0x81 && c == 0x9f)
          || (a == 0xe3 && b == 0x80 && c == 0x80)
        then 3
        else 0
  ])
])

-- Drops sequences from the front while there are any; `skip` bytes of the last one are still to go.
unfoldable pub strip_spaces : (Bytes → ℕ) → ℕ → Bytes → Bytes
strip_spaces width skip [] = []
strip_spaces width (suc skip) (c ∷ text) = strip_spaces width skip text
strip_spaces width zero (c ∷ text) = elim (width (c ∷ text)) [
  | zero ↦ c ∷ text
  | suc more ↦ strip_spaces width more text
]

-- strings.TrimSpace.
unfoldable pub trim_space : Bytes → Bytes
trim_space text =
    reverse (strip_spaces space_width_back 0 (reverse (strip_spaces space_width 0 text)))

unfoldable pub is_blank : Bytes → Bool
is_blank text = elim (trim_space text) [ [] ↦ true | _ ∷ _ ↦ false ]

abbrev pub is_nil : Bytes → Bool
is_nil [] = true
is_nil (c ∷ text) = false

abbrev pub or_default : Bytes → Bytes → Bytes
or_default [] default = default
or_default (c ∷ text) default = c ∷ text

-- A continuation byte of a UTF-8 sequence.
is_tail : ℕ → Bool
is_tail c = leb 0x80 c && leb c 0xbf

-- utf8.DecodeRune on bytes that are not empty: the rune and its width; an invalid sequence is
-- U+FFFD of width 1.
decode_two : ℕ → Bytes → ℕ × ℕ
decode_two a [] = (0xfffd, 1)
decode_two a (b ∷ _) = if is_tail b then ((a - 0xc0) * 64 + (b - 0x80), 2) else (0xfffd, 1)

decode_three : ℕ → ℕ → ℕ → Bytes → ℕ × ℕ
decode_three low high a [] = (0xfffd, 1)
decode_three low high a (b ∷ []) = (0xfffd, 1)
decode_three low high a (b ∷ c ∷ _) =
    if leb low b && leb b high && is_tail c
    then ((a - 0xe0) * 4096 + (b - 0x80) * 64 + (c - 0x80), 3)
    else (0xfffd, 1)

decode_four : ℕ → ℕ → ℕ → Bytes → ℕ × ℕ
decode_four low high a [] = (0xfffd, 1)
decode_four low high a (b ∷ []) = (0xfffd, 1)
decode_four low high a (b ∷ c ∷ []) = (0xfffd, 1)
decode_four low high a (b ∷ c ∷ d ∷ _) =
    if leb low b && leb b high && is_tail c && is_tail d
    then ((a - 0xf0) * 2 ^ 18 + (b - 0x80) * 4096 + (c - 0x80) * 64 + (d - 0x80), 4)
    else (0xfffd, 1)

unfoldable pub decode_rune : ℕ → Bytes → ℕ × ℕ
unfolding is_tail decode_two decode_three decode_four
decode_rune a text =
    if ltb a 0x80
    then (a, 1)
    else if leb 0xc2 a && leb a 0xdf
    then decode_two a text
    else if a == 0xe0
    then decode_three 0xa0 0xbf a text
    else if a == 0xed
    then decode_three 0x80 0x9f a text
    else if leb 0xe1 a && leb a 0xef
    then decode_three 0x80 0xbf a text
    else if a == 0xf0
    then decode_four 0x90 0xbf a text
    else if leb 0xf1 a && leb a 0xf3
    then decode_four 0x80 0xbf a text
    else if a == 0xf4
    then decode_four 0x80 0x8f a text
    else (0xfffd, 1)

-- The runes of a string; `skip` bytes belong to the last one.
unfoldable pub runes_from : ℕ → Bytes → List ℕ
runes_from skip [] = []
runes_from (suc skip) (c ∷ text) = runes_from skip text
runes_from zero (c ∷ text) =
    let (rune, width) = decode_rune c text in rune ∷ runes_from (width - 1) text

abbrev pub runes : Bytes → List ℕ
runes text = runes_from 0 text

-- strconv.Itoa on a number that is not negative; the fuel is the number itself.
decimal_loop : ℕ → ℕ → Bytes → Bytes
decimal_loop zero n digits = (b'0' + n % 10) ∷ digits
decimal_loop (suc fuel) n digits = elim (ltb n 10) [
  | true ↦ (b'0' + n % 10) ∷ digits
  | false ↦ decimal_loop fuel (n / 10) ((b'0' + n % 10) ∷ digits)
]

unfoldable pub decimal : ℕ → Bytes
unfolding decimal_loop
decimal n = decimal_loop n n []

-- The padding on the right that `%-*s` of package fmt adds, counted in runes.
unfoldable pub pad_right : ℕ → Bytes → Bytes
pad_right width text = text ++ replicate (width - length (runes text)) b' '

-- utf8.AppendRune of a rune that `decode_rune` gives.
unfoldable pub encode_rune : ℕ → Bytes
encode_rune r =
    if ltb r 0x80
    then r ∷ []
    else if ltb r 0x800
    then (0xc0 + r / 64) ∷ (0x80 + r % 64) ∷ []
    else if ltb r 0x10000
    then (0xe0 + r / 4096) ∷ (0x80 + r / 64 % 64) ∷ (0x80 + r % 64) ∷ []
    else (0xf0 + r / 2 ^ 18) ∷ (0x80 + r / 4096 % 64) ∷ (0x80 + r / 64 % 64) ∷ (0x80 + r % 64) ∷ []

unfoldable pub text_of : List ℕ → Bytes
text_of [] = []
text_of (r ∷ text) = encode_rune r ++ text_of text

unfoldable pub has_byte : ℕ → Bytes → Bool
has_byte c [] = false
has_byte c (x ∷ text) = x == c || has_byte c text

-- strings.ContainsAny with bytes of ASCII.
unfoldable pub contains_any : Bytes → Bytes → Bool
contains_any text [] = false
contains_any text (c ∷ set) = has_byte c text || contains_any text set
