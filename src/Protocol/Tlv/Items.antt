-- ===== src/Protocol/Tlv/Items.antt =====
-- `extractTLVValue` of internal/protocol/daemon.go on a payload put together from items.
use hdc_remote_kit.Base.{
  sym, ◌≤◌, ◌∙◌, true, false, drop-append_eq, drop, take, inr, take-append, inl, le→ltb, Bool-cases,
  length-append, refl, ◌==◌, ◌*◌, zero, ◌/◌, ◌+◌, suc, if◌then◌else◌, arith, [], ◌≡◌, ◌∷◌, ◌^◌,
  ◌++◌, ◌%◌, All, ◌<◌, ℕ, length, List, Bytes,
}
use hdc_remote_kit.Protocol.Tlv.{tlv_item, go_on, found, tlv_round, tlv_loop, extract_tlv_value}

-- A 32-bit number in four bytes, the lowest first.
abbrev put_little_uint32 : ℕ → Bytes
put_little_uint32 v = (v % 256) ∷ (v / 256 % 256) ∷ (v / 2 ^ 16 % 256) ∷ (v / 2 ^ 24 % 256) ∷ []

pub record Item : Type 0 where
  pub tag : ℕ
  pub value : Bytes

unfoldable pub encode_item : Item → Bytes
encode_item item =
    put_little_uint32 item.tag ++ (put_little_uint32 (length item.value) ++ item.value)

unfoldable pub encode_items : List Item → Bytes
encode_items [] = []
encode_items (item ∷ items) = encode_item item ++ encode_items items

-- The value of the first item with the tag.
unfoldable pub first_value : ℕ → List Item → Bytes
first_value tag [] = []
first_value tag (item ∷ items) = if item.tag == tag then item.value else first_value tag items

abbrev pub Fits : Item → Type 0
Fits item = (item.tag < 2 ^ 32) × (length item.value < 2 ^ 32)

little_bytes :
    (v : ℕ)
    → v < 2 ^ 32
    → v % 256 + v / 256 % 256 * 256 + v / 2 ^ 16 % 256 * 2 ^ 16 + v / 2 ^ 24 % 256 * 2 ^ 24 ≡ v
little_bytes v h = omega arith

length-encode_item : (item : Item) → length (encode_item item) ≡ 8 + length item.value
unfolding encode_item
length-encode_item item = omega arith

tlv_item-encode_item :
    (item : Item) (rest : Bytes) (t s tag : ℕ)
    → t ≡ item.tag
    → s ≡ length item.value
    → tlv_item t s (encode_item item ++ rest) tag
      ≡ (if item.tag == tag then found item.value else go_on rest)
unfolding tlv_item encode_item
tlv_item-encode_item item rest t s tag et es =
    let payload = encode_item item ++ rest in
    let size = length item.value in
    let whole : length payload ≡ 8 + size + length rest =
      omega (arith, length-encode_item item, length-append (encode_item item) rest) in
    let value : take size (drop 8 payload) ≡ item.value = take-append item.value rest in
    let behind = drop-append_eq (8 + size) (encode_item item) rest (length-encode_item item) in
    rw (et, es, le→ltb (length payload) (8 + size) (omega arith), value, behind)

tlv_round-encode_item :
    (item : Item) (rest : Bytes) (tag : ℕ)
    → Fits item
    → tlv_round (encode_item item ++ rest) tag
      ≡ (if item.tag == tag then found item.value else go_on rest)
unfolding tlv_round encode_item
tlv_round-encode_item item rest tag (ht, hl) =
    tlv_item-encode_item item rest _ _ tag (little_bytes item.tag ht)
      (little_bytes (length item.value) hl)

tlv_loop_found :
    (fuel : ℕ) (payload : Bytes) (tag : ℕ) (value : Bytes)
    → 8 ≤ length payload
    → tlv_round payload tag ≡ found value
    → tlv_loop (suc fuel) payload tag ≡ value
unfolding tlv_loop
tlv_loop_found fuel payload tag value h e = rw (tlv_loop, le→ltb (length payload) 8 h, e)

tlv_loop_go_on :
    (fuel : ℕ) (payload : Bytes) (tag : ℕ) (rest : Bytes)
    → 8 ≤ length payload
    → tlv_round payload tag ≡ go_on rest
    → tlv_loop (suc fuel) payload tag ≡ tlv_loop fuel rest tag
unfolding tlv_loop
tlv_loop_go_on fuel payload tag rest h e = rw (tlv_loop, le→ltb (length payload) 8 h, e)

first_value_here :
    (item : Item) (items : List Item) (tag : ℕ)
    → (item.tag == tag) ≡ true
    → first_value tag (item ∷ items) ≡ item.value
unfolding first_value
first_value_here item items tag t = rw t

first_value_there :
    (item : Item) (items : List Item) (tag : ℕ)
    → (item.tag == tag) ≡ false
    → first_value tag (item ∷ items) ≡ first_value tag items
unfolding first_value
first_value_there item items tag t = rw t

nothing_left : (fuel tag : ℕ) → tlv_loop (suc fuel) [] tag ≡ []
unfolding tlv_loop
nothing_left fuel tag = refl

tlv_loop-encode_items :
    (fuel : ℕ) (items : List Item) (tag : ℕ)
    → All Fits items
    → length (encode_items items) < fuel
    → tlv_loop fuel (encode_items items) tag ≡ first_value tag items
unfolding encode_items first_value
tlv_loop-encode_items zero items tag v h = absurd (omega arith)
tlv_loop-encode_items (suc fuel) [] tag v h = nothing_left fuel tag
tlv_loop-encode_items (suc fuel) (item ∷ items) tag (here, there) h =
    let payload = encode_item item ++ encode_items items in
    let size = length-encode_item item in
    let whole = length-append (encode_item item) (encode_items items) in
    let round = tlv_round-encode_item item (encode_items items) tag here in
    elim (Bool-cases (item.tag == tag)) [
      | inl t ↦
          tlv_loop_found fuel payload tag item.value (omega arith) (rw t at round)
          ∙ sym (first_value_here item items tag t)
      | inr t ↦
          tlv_loop_go_on fuel payload tag (encode_items items) (omega arith) (rw t at round)
          ∙ tlv_loop-encode_items fuel items tag there (omega arith)
          ∙ sym (first_value_there item items tag t)
    ]

-- In a payload that is a sequence of items, each a tag, the length of a value and the value, with
-- tag and length as 32-bit little-endian numbers, the extracted value of a tag is that of the
-- first item with the tag, and empty if there is none.
pub extract_tlv_value-encode_items :
    (items : List Item) (tag : ℕ)
    → All Fits items
    → extract_tlv_value (encode_items items) tag ≡ first_value tag items
unfolding extract_tlv_value
extract_tlv_value-encode_items items tag v =
    tlv_loop-encode_items (suc (length (encode_items items))) items tag v (omega arith)
