-- ===== src/Strings/Runes.antt =====
-- The runes of a text around a byte of ASCII, as Go ranges over a string.
use hdc_remote_kit.Base.{
  zero, suc, arith, ℕ, Bytes, [], ◌∷◌, ◌++◌, ◌≡◌, ◌<◌, ◌≤◌, ◌-◌, refl, ap, length, false, true,
  ◌==◌, Bool-cases, inl, inr, Bool, ◌*◌, ◌+◌, ◌^◌, ltb, leb, ◌&&◌, if◌then◌else◌,
}
use hdc_remote_kit.Strings.{
  runes, runes_from, decode_rune, decode_two, decode_three, decode_four, is_tail, has_byte,
}

two_ascii :
    (a c : ℕ) (text rest : Bytes) → c < 128 → decode_two a (text ++ c ∷ rest) ≡ decode_two a text
unfolding decode_two is_tail
two_ascii a c [] rest h = ground arith
two_ascii a c (b ∷ text) rest h = refl

three_ascii :
    (low high a c : ℕ) (text rest : Bytes)
    → c < 128
    → 128 ≤ low
    → decode_three low high a (text ++ c ∷ rest) ≡ decode_three low high a text
unfolding decode_three is_tail
three_ascii low high a c [] [] h l = refl
three_ascii low high a c [] (d ∷ rest) h l = ground arith
three_ascii low high a c (b ∷ []) rest h l = ground arith
three_ascii low high a c (b ∷ d ∷ text) rest h l = refl

four_ascii :
    (low high a c : ℕ) (text rest : Bytes)
    → c < 128
    → 128 ≤ low
    → decode_four low high a (text ++ c ∷ rest) ≡ decode_four low high a text
unfolding decode_four is_tail
four_ascii low high a c [] [] h l = refl
four_ascii low high a c [] (d ∷ []) h l = refl
four_ascii low high a c [] (d ∷ e ∷ rest) h l = ground arith
four_ascii low high a c (b ∷ []) [] h l = refl
four_ascii low high a c (b ∷ []) (d ∷ rest) h l = ground arith
four_ascii low high a c (b ∷ d ∷ []) rest h l = ground arith
four_ascii low high a c (b ∷ d ∷ e ∷ text) rest h l = refl

-- A byte of ASCII is no part of a longer sequence.
decode_rune_ascii :
    (a c : ℕ) (text rest : Bytes) → c < 128 → decode_rune a (text ++ c ∷ rest) ≡ decode_rune a text
unfolding decode_rune
decode_rune_ascii a c text rest h =
    rw
      (
        two_ascii a c text rest h,
        three_ascii 0xa0 0xbf a c text rest h (omega arith),
        three_ascii 0x80 0x9f a c text rest h (omega arith),
        three_ascii 0x80 0xbf a c text rest h (omega arith),
        four_ascii 0x90 0xbf a c text rest h (omega arith),
        four_ascii 0x80 0xbf a c text rest h (omega arith),
        four_ascii 0x80 0x8f a c text rest h (omega arith),
      )
      refl

-- What a decoder answers on the bytes behind the first one: a sequence that is there, and a rune
-- that is not ASCII.
Decoded : ℕ × ℕ → Bytes → Type 0
Decoded (rune, width) text = (width - 1 ≤ length text) × (128 ≤ rune)

invalid : (text : Bytes) → Decoded (0xfffd, 1) text
unfolding Decoded
invalid text = (omega arith, omega arith)

two_Decoded : (a : ℕ) (text : Bytes) → 0xc2 ≤ a → Decoded (decode_two a text) text
unfolding Decoded decode_two is_tail
two_Decoded a [] h = (omega arith, omega arith)
two_Decoded a (b ∷ text) h = (ground arith, ground arith)

three_Decoded :
    (low high a : ℕ) (text : Bytes)
    → 128 ≤ (a - 0xe0) * 4096 + (low - 0x80) * 64
    → Decoded (decode_three low high a text) text
unfolding Decoded decode_three is_tail
three_Decoded low high a [] h = (omega arith, omega arith)
three_Decoded low high a (b ∷ []) h = (omega arith, omega arith)
three_Decoded low high a (b ∷ c ∷ text) h = (ground arith, ground arith)

four_Decoded :
    (low high a : ℕ) (text : Bytes)
    → 128 ≤ (a - 0xf0) * 2 ^ 18 + (low - 0x80) * 4096
    → Decoded (decode_four low high a text) text
unfolding Decoded decode_four is_tail
four_Decoded low high a [] h = (omega arith, omega arith)
four_Decoded low high a (b ∷ []) h = (omega arith, omega arith)
four_Decoded low high a (b ∷ c ∷ []) h = (omega arith, omega arith)
four_Decoded low high a (b ∷ c ∷ d ∷ text) h = (ground arith, ground arith)

if_Decoded :
    (b : Bool) (x y : ℕ × ℕ) (text : Bytes)
    → (b ≡ true → Decoded x text)
    → (b ≡ false → Decoded y text)
    → Decoded (if b then x else y) text
if_Decoded true x y text h k = h refl
if_Decoded false x y text h k = k refl

decode_rune-Decoded : (a : ℕ) (text : Bytes) → 128 ≤ a → Decoded (decode_rune a text) text
unfolding decode_rune
decode_rune-Decoded a text h =
    if_Decoded (ltb a 0x80) _ _ text (λ e. absurd (ground arith))
      (λ e.
        if_Decoded (leb 0xc2 a && leb a 0xdf) _ _ text (λ e. two_Decoded a text (ground arith))
          (λ e.
            if_Decoded (a == 0xe0) _ _ text (λ e. three_Decoded 0xa0 0xbf a text (omega arith))
              (λ e.
                if_Decoded (a == 0xed) _ _ text (λ e. three_Decoded 0x80 0x9f a text (ground arith))
                  (λ e.
                    if_Decoded (leb 0xe1 a && leb a 0xef) _ _ text
                      (λ e. three_Decoded 0x80 0xbf a text (ground arith))
                      (λ e.
                        if_Decoded (a == 0xf0) _ _ text
                          (λ e. four_Decoded 0x90 0xbf a text (omega arith))
                          (λ e.
                            if_Decoded (leb 0xf1 a && leb a 0xf3) _ _ text
                              (λ e. four_Decoded 0x80 0xbf a text (ground arith))
                              (λ e.
                                if_Decoded (a == 0xf4) _ _ text
                                  (λ e. four_Decoded 0x80 0x8f a text (ground arith))
                                  (λ e. invalid text))))))))

decode_ascii : (a : ℕ) (text : Bytes) → a < 128 → decode_rune a text ≡ (a, 1)
unfolding decode_rune
decode_ascii a text h = ground arith

width_fits : (a : ℕ) (text : Bytes) → (decode_rune a text).1 - 1 ≤ length text
unfolding Decoded
width_fits a text = elim (Bool-cases (ltb a 128)) [
  | inl e ↦ rw (decode_ascii a text (ground arith)) (omega arith)
  | inr e ↦ (decode_rune-Decoded a text (ground arith)).0
]

runes_from-append :
    (skip c : ℕ) (text rest : Bytes)
    → c < 128
    → skip ≤ length text
    → runes_from skip (text ++ c ∷ rest) ≡ runes_from skip text ++ c ∷ runes rest
unfolding runes_from
runes_from-append zero c [] rest h l = rw (decode_ascii c rest h) refl
runes_from-append (suc skip) c [] rest h l = absurd (omega arith)
runes_from-append zero c (a ∷ text) rest h l = rw (decode_rune_ascii a c text rest h) (
    ap (λ more. (decode_rune a text).0 ∷ more)
      (runes_from-append ((decode_rune a text).1 - 1) c text rest h (width_fits a text)))
runes_from-append (suc skip) c (a ∷ text) rest h l =
    runes_from-append skip c text rest h (omega arith)

-- The runes before and behind a byte of ASCII.
pub runes-append :
    (c : ℕ) (text rest : Bytes) → c < 128 → runes (text ++ c ∷ rest) ≡ runes text ++ c ∷ runes rest
runes-append c text rest h = runes_from-append 0 c text rest h (omega arith)

rune_not :
    (c a : ℕ) (text : Bytes) → c < 128 → (a == c) ≡ false → ((decode_rune a text).0 == c) ≡ false
unfolding Decoded
rune_not c a text h e = elim (Bool-cases (ltb a 128)) [
  | inl t ↦ rw (decode_ascii a text (ground arith)) e
  | inr t ↦
      let big : 128 ≤ (decode_rune a text).0 = (decode_rune-Decoded a text (ground arith)).1 in
      ground arith
]

runes_from_has :
    (skip c : ℕ) (text : Bytes)
    → c < 128
    → has_byte c text ≡ false
    → has_byte c (runes_from skip text) ≡ false
unfolding has_byte runes_from
runes_from_has zero c [] h e = refl
runes_from_has (suc skip) c [] h e = refl
runes_from_has (suc skip) c (a ∷ text) h e = runes_from_has skip c text h (ground arith)
runes_from_has zero c (a ∷ text) h e =
    rw (rune_not c a text h (ground arith))
      (runes_from_has ((decode_rune a text).1 - 1) c text h (ground arith))

-- A byte of ASCII that a text has not is none of its runes.
pub has_byte-runes :
    (c : ℕ) (text : Bytes) → c < 128 → has_byte c text ≡ false → has_byte c (runes text) ≡ false
has_byte-runes c text h e = runes_from_has 0 c text h e
