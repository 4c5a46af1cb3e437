-- ===== src/HostAuth/Decide/Trust.antt =====
-- Who is trusted, internal/hostauth/registry.go.
use hdc_remote_kit.Base.{
  ◌∙◌, bytes_eq→eq, [], inr, ap, some, inl, refl, bytes_eq_refl, Bool-cases, ◌∷◌, true, if-holds,
  false, ◌≡◌, bytes_eq, List, Bytes,
}
use hdc_remote_kit.HostAuth.Decide.{
  allow_forever, select_pending, KnownHost, revoke_matched, Registry, ℕ, revoke, PendingRequest,
  trust_request, answer_request, decide_request, decide_selected, decide,
}
use hdc_remote_kit.Strings.{trim_space, is_nil}
use hdc_remote_kit.HostAuth.Registry.{
  RecentEvent, recorded, record_event, add_host, remove_host, is_expired, has_host,
}

has_host-remove_host :
    (fingerprint : Bytes) (hosts : List KnownHost)
    → has_host fingerprint (remove_host fingerprint hosts) ≡ false
unfolding has_host remove_host
has_host-remove_host fingerprint [] = refl
has_host-remove_host fingerprint (h ∷ hosts) =
    elim (Bool-cases (bytes_eq h.fingerprint fingerprint)) [
      | inl e ↦ rw e (has_host-remove_host fingerprint hosts)
      | inr e ↦ rw (e, has_host-remove_host fingerprint hosts, e) refl
    ]

-- A removal of one fingerprint leaves the others.
has_host-remove_other :
    (other fingerprint : Bytes) (hosts : List KnownHost)
    → bytes_eq fingerprint other ≡ false
    → has_host other (remove_host fingerprint hosts) ≡ has_host other hosts
unfolding has_host remove_host
has_host-remove_other other fingerprint [] n = refl
has_host-remove_other other fingerprint (h ∷ hosts) n =
    let rest = has_host-remove_other other fingerprint hosts n in
    elim (Bool-cases (bytes_eq h.fingerprint fingerprint)) [
      | inl e ↦
          let same = ap (λ f. bytes_eq f other) (bytes_eq→eq h.fingerprint fingerprint e) in
          rw (e, rest, same, n) refl
      | inr e ↦ rw (e, rest) refl
    ]

record_event-hosts : (event : RecentEvent) (r : Registry) → (record_event event r).hosts ≡ r.hosts
unfolding record_event recorded
record_event-hosts event r =
    if-holds (λ d. d.hosts ≡ r.hosts) (is_nil event.action) r (recorded event r) (λ e. refl)
      (λ e. refl)

new_host : PendingRequest → ℕ → Registry → List KnownHost
new_host p now r =
    record { fingerprint = p.fingerprint; hostname = p.hostname; created_at = now }
    ∷ remove_host p.fingerprint r.hosts

decide_forever-hosts :
    (now : ℕ) (selector : Bytes) (p : PendingRequest) (r : Registry)
    → is_nil (trim_space selector) ≡ false
    → select_pending (trim_space selector) r.pending ≡ some p
    → (decide now true selector allow_forever r).0.hosts ≡ new_host p now r
unfolding new_host decide is_expired decide_selected decide_request answer_request trust_request
    add_host
decide_forever-hosts now selector p r n e = rw (n, decide_selected, e) (record_event-hosts _ _)

revoke-hosts :
    (now : ℕ) (fingerprint : Bytes) (r : Registry)
    → has_host (trim_space fingerprint) r.hosts ≡ true
    → (revoke now true fingerprint r).0.hosts ≡ remove_host (trim_space fingerprint) r.hosts
unfolding revoke revoke_matched
revoke-hosts now fingerprint r h = rw (h, revoke_matched) (record_event-hosts _ _)

first_host :
    (p : PendingRequest) (now : ℕ) (r : Registry) → has_host p.fingerprint (new_host p now r) ≡ true
unfolding has_host new_host
first_host p now r = rw (bytes_eq_refl p.fingerprint) refl

other_host :
    (other : Bytes) (p : PendingRequest) (now : ℕ) (r : Registry)
    → bytes_eq p.fingerprint other ≡ false
    → has_host other (new_host p now r) ≡ has_host other r.hosts
unfolding has_host new_host
other_host other p now r o = rw o (has_host-remove_other other p.fingerprint r.hosts o)

-- If a selector that is not blank selects a waiting request whose fingerprint has no white space
-- around it, then after it is allowed for ever its fingerprint is known, after a revocation of the
-- fingerprint it is not, and neither changes whether another fingerprint is known.
pub trust_lifecycle :
    (now later : ℕ) (selector other : Bytes) (p : PendingRequest) (r : Registry)
    → is_nil (trim_space selector) ≡ false
    → select_pending (trim_space selector) r.pending ≡ some p
    → trim_space p.fingerprint ≡ p.fingerprint
    → bytes_eq p.fingerprint other ≡ false
    → let allowed = (decide now true selector allow_forever r).0 in
      let revoked = (revoke later true p.fingerprint allowed).0 in
      (has_host p.fingerprint allowed.hosts ≡ true)
      × (has_host p.fingerprint revoked.hosts ≡ false)
      × (has_host other allowed.hosts ≡ has_host other r.hosts)
      × (has_host other revoked.hosts ≡ has_host other r.hosts)
trust_lifecycle now later selector other p r n e t o =
    let allowed = (decide now true selector allow_forever r).0 in
    let hosts = decide_forever-hosts now selector p r n e in
    let mine = ap (has_host p.fingerprint) hosts ∙ first_host p now r in
    let others = ap (has_host other) hosts ∙ other_host other p now r o in
    let gone =
      revoke-hosts later p.fingerprint allowed (ap (λ f. has_host f allowed.hosts) t ∙ mine)
      ∙ ap (λ f. remove_host f allowed.hosts) t in
    (
      mine,
      ap (has_host p.fingerprint) gone ∙ has_host-remove_host p.fingerprint allowed.hosts,
      others,
      ap (has_host other) gone
          ∙ (has_host-remove_other other p.fingerprint allowed.hosts o ∙ others),
    )
