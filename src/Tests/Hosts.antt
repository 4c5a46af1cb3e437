-- ===== src/Tests/Hosts.antt =====
-- A registry with one known host and one that waits for the operator.
use hdc_remote_kit.HostAuth.Registry.{
  find_pending, Registry, new_registry, has_host, Notice, PendingRequest, KnownHost,
}
use hdc_remote_kit.Strings.{strip_spaces, space_width, space_width_back, is_nil, trim_space}
use hdc_remote_kit.HostAuth.Decision.{deny_host, allow_forever}
use hdc_remote_kit.HostAuth.Notices.Invariant.{registry_run-IsTidy, IsTidy}
use hdc_remote_kit.HostAuth.Operations.{
  decide_op, submit_op, dismiss_op, notify_op, RegistryOp, registry_run,
}
use hdc_remote_kit.HostAuth.Decide.Trust.{trust_lifecycle}
use hdc_remote_kit.HostAuth.Decide.{revoke, select_pending, decide}
use hdc_remote_kit.Base.{
  some, refl, false, ◌≡◌, none, [], ◌∷◌, ℕ, true, codes, bytes_eq, List, Bytes,
}

abbrev laptop : PendingRequest
laptop = record {
  request_id = codes "42";
  serial = codes "phone";
  hostname = codes "laptop";
  fingerprint = codes "abcd";
  source_ip = codes "10.0.0.7";
  created_at = 10;
  expires_at = 100;
  answer = none;
}

abbrev desk : KnownHost
desk = record { fingerprint = codes "ffff"; hostname = codes "desk"; created_at = 1 }

abbrev office : Registry
office = record {
  confirm_timeout = 90;
  hosts = desk ∷ [];
  pending = laptop ∷ [];
  recent = [];
  notices = [];
  suppressed = [];
}

selector_filled : is_nil (trim_space (codes "42")) ≡ false
unfolding trim_space strip_spaces space_width space_width_back
selector_filled = refl

laptop_selected : select_pending (trim_space (codes "42")) office.pending ≡ some laptop
unfolding select_pending trim_space strip_spaces space_width space_width_back find_pending bytes_eq
laptop_selected = refl

laptop_trimmed : trim_space (codes "abcd") ≡ codes "abcd"
unfolding trim_space strip_spaces space_width space_width_back
laptop_trimmed = refl

laptop_differs : bytes_eq (codes "abcd") (codes "ffff") ≡ false
unfolding bytes_eq
laptop_differs = refl

trust_lifecycle_example :
    let allowed = (decide 20 true (codes "42") allow_forever office).0 in
    let revoked = (revoke 30 true (codes "abcd") allowed).0 in
    (has_host (codes "abcd") allowed.hosts ≡ true)
    × (has_host (codes "abcd") revoked.hosts ≡ false)
    × (has_host (codes "ffff") allowed.hosts ≡ has_host (codes "ffff") office.hosts)
    × (has_host (codes "ffff") revoked.hosts ≡ has_host (codes "ffff") office.hosts)
trust_lifecycle_example =
    trust_lifecycle 20 30 (codes "42") (codes "ffff") laptop office selector_filled laptop_selected
      laptop_trimmed laptop_differs

abbrev old_client : Bytes → Bytes → Notice
old_client id source_ip = record {
  notice_id = id;
  kind = codes "client_version_too_old";
  serial = codes "phone";
  source_ip = source_ip;
  version = codes "Ver: 2.0.0a";
  message = [];
  created_at = 0;
  expires_at = 90;
}

abbrev evening : List (ℕ × RegistryOp)
evening =
    (0, notify_op (old_client (codes "a") (codes "10.0.0.7")))
    ∷ (1, notify_op (old_client (codes "b") (codes "10.0.0.8")))
    ∷ (2, notify_op (old_client (codes "c") (codes "10.0.0.7")))
    ∷ (3, dismiss_op (codes "b"))
    ∷ (4, submit_op laptop)
    ∷ (5, decide_op true (codes "42") deny_host)
    ∷ []

registry_run-IsTidy_example : IsTidy (registry_run evening (new_registry 90 (desk ∷ [])))
registry_run-IsTidy_example = registry_run-IsTidy 90 (desk ∷ []) evening
