-- ===== src/HostAuth/Notices/Replace.antt =====
-- A notice that replaces one of the same kind, source and device, internal/hostauth/registry.go.
use hdc_remote_kit.Base.{
  Bytes, suc, Option-cases, ◌||◌, inr, refl, inl, [], Bool-cases, ◌∷◌, false, ◌∙◌, sym, ◌&&◌,
  bytes_eq, ap, arith, bytes_eq→eq, ◌≢◌, true, none, ◌≡◌, length,
}
use hdc_remote_kit.HostAuth.Notices.{some, Option, Notice, List, same_notice, replace_notice}
use hdc_remote_kit.HostAuth.Notices.Unique.{clashes, Unique}

-- Two notices that are the same clash with the same notices.
same_as : (m n k : Notice) → same_notice m n ≡ true → same_notice n k ≡ same_notice m k
unfolding same_notice
same_as m n k h =
    let kind = bytes_eq→eq m.kind n.kind (ground arith) in
    let source = bytes_eq→eq m.source_ip n.source_ip (ground arith) in
    let serial = bytes_eq→eq m.serial n.serial (ground arith) in
    ap (λ x. bytes_eq x k.kind && bytes_eq n.source_ip k.source_ip && bytes_eq n.serial k.serial)
      (sym kind)
    ∙ (ap (λ x. bytes_eq m.kind k.kind && bytes_eq x k.source_ip && bytes_eq n.serial k.serial)
          (sym source)
        ∙ ap
            (λ x. bytes_eq m.kind k.kind && bytes_eq m.source_ip k.source_ip && bytes_eq x k.serial)
            (sym serial))

same_to : (m n k : Notice) → same_notice m n ≡ true → same_notice k n ≡ same_notice k m
unfolding same_notice
same_to m n k h =
    let kind = bytes_eq→eq m.kind n.kind (ground arith) in
    let source = bytes_eq→eq m.source_ip n.source_ip (ground arith) in
    let serial = bytes_eq→eq m.serial n.serial (ground arith) in
    ap (λ x. bytes_eq k.kind x && bytes_eq k.source_ip n.source_ip && bytes_eq k.serial n.serial)
      (sym kind)
    ∙ (ap (λ x. bytes_eq k.kind m.kind && bytes_eq k.source_ip x && bytes_eq k.serial n.serial)
          (sym source)
        ∙ ap
            (λ x. bytes_eq k.kind m.kind && bytes_eq k.source_ip m.source_ip && bytes_eq k.serial x)
            (sym serial))

clashes_to :
    (m n : Notice) (notices : List Notice)
    → same_notice m n ≡ true
    → clashes n notices ≡ clashes m notices
unfolding clashes
clashes_to m n [] h = refl
clashes_to m n (k ∷ notices) h = rw (same_to m n k h, clashes_to m n notices h) refl

-- The identifier plays no part.
same_id :
    (id : Bytes) (n k : Notice) → same_notice (record n { notice_id = id }) k ≡ same_notice n k
unfolding same_notice
same_id id n k = refl

clashes_id :
    (id : Bytes) (n : Notice) (notices : List Notice)
    → clashes (record n { notice_id = id }) notices ≡ clashes n notices
unfolding clashes same_notice
clashes_id id n [] = refl
clashes_id id n (k ∷ notices) = ap (λ b. same_notice k n || b) (clashes_id id n notices)

-- The list after a replacement.
unfoldable pub replaced_or : List Notice → Option (List Notice) → List Notice
replaced_or notices none = notices
replaced_or notices (some replaced) = replaced

pub clashes_replaced :
    (k n : Notice) (notices : List Notice)
    → clashes k (replaced_or notices (replace_notice n notices)) ≡ clashes k notices
unfolding clashes replaced_or replace_notice
clashes_replaced k n [] = refl
clashes_replaced k n (m ∷ notices) = elim (Bool-cases (same_notice m n)) [
  | inl e ↦
      rw (replace_notice, e)
        (ap (λ b. b || clashes k notices) (same_id m.notice_id n k ∙ same_as m n k e))
  | inr e ↦
      let rest = clashes_replaced k n notices in
      elim (Option-cases (replace_notice n notices)) [
        | inl f ↦ rw (replace_notice, e, f) refl
        | inr (replaced, f) ↦
            rw (replace_notice, e, f) (ap (λ b. same_notice m k || b) (rw f at rest))
      ]
]

pub replaced-Unique :
    (n : Notice) (notices : List Notice)
    → Unique notices
    → Unique (replaced_or notices (replace_notice n notices))
unfolding Unique replaced_or replace_notice
replaced-Unique n [] u = tt
replaced-Unique n (m ∷ notices) (c, u) = elim (Bool-cases (same_notice m n)) [
  | inl e ↦
      rw (replace_notice, e) (clashes_id m.notice_id n notices ∙ (clashes_to m n notices e ∙ c), u)
  | inr e ↦
      let rest = replaced-Unique n notices u in
      let clash = clashes_replaced m n notices in
      elim (Option-cases (replace_notice n notices)) [
        | inl f ↦ rw (replace_notice, e, f) (c, u)
        | inr (replaced, f) ↦ rw (replace_notice, e, f) ((rw f at clash) ∙ c, rw f at rest)
      ]
]

pub length-replaced :
    (n : Notice) (notices : List Notice)
    → length (replaced_or notices (replace_notice n notices)) ≡ length notices
unfolding replaced_or replace_notice
length-replaced n [] = refl
length-replaced n (m ∷ notices) = elim (Bool-cases (same_notice m n)) [
  | inl e ↦ rw (replace_notice, e) refl
  | inr e ↦
      let rest = length-replaced n notices in
      elim (Option-cases (replace_notice n notices)) [
        | inl f ↦ rw (replace_notice, e, f) refl
        | inr (replaced, f) ↦ rw (replace_notice, e, f) (ap suc (rw f at rest))
      ]
]

some-ne-none : {notices : List Notice} → some notices ≢ none
some-ne-none h = cc

-- Where nothing is replaced, nothing clashes.
pub clashes-replace_notice :
    (n : Notice) (notices : List Notice)
    → replace_notice n notices ≡ none
    → clashes n notices ≡ false
unfolding clashes replace_notice
clashes-replace_notice n [] h = refl
clashes-replace_notice n (m ∷ notices) h = elim (Bool-cases (same_notice m n)) [
  | inl e ↦ absurd (some-ne-none (rw (replace_notice, e) at h))
  | inr e ↦ elim (Option-cases (replace_notice n notices)) [
    | inl f ↦ rw (e, clashes-replace_notice n notices f) refl
    | inr (replaced, f) ↦ absurd (some-ne-none (rw (replace_notice, e, f) at h))
  ]
]
