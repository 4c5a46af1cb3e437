-- ===== src/HostAuth/Operations.antt =====
-- The operations of a registry as a sequence, internal/hostauth/registry.go.
use hdc_remote_kit.HostAuth.Notices.{dismiss_notice, current_notices, notify}
use hdc_remote_kit.HostAuth.Registry.{
  record_event, end_wait, submit, Registry, Notice, PendingRequest, RecentEvent, WaitEnd,
}
use hdc_remote_kit.HostAuth.Decide.{revoke, decide}
use hdc_remote_kit.Base.{[], ◌∷◌, Bytes, ℕ, List, Bool}
use hdc_remote_kit.HostAuth.Decision.{HostDecision}

-- What is done to a registry, at a time.
pub data RegistryOp : Type 0 where
  submit_op : PendingRequest → RegistryOp
  end_wait_op : PendingRequest → WaitEnd → RegistryOp
  decide_op : Bool → Bytes → HostDecision → RegistryOp
  revoke_op : Bool → Bytes → RegistryOp
  record_op : RecentEvent → RegistryOp
  notify_op : Notice → RegistryOp
  notices_op : RegistryOp
  dismiss_op : Bytes → RegistryOp

unfoldable pub registry_step : ℕ → RegistryOp → Registry → Registry
registry_step now (submit_op request) r = (submit request r).0
registry_step now (end_wait_op request how) r = (end_wait now request how r).0
registry_step now (decide_op saved selector decision) r = (decide now saved selector decision r).0
registry_step now (revoke_op saved fingerprint) r = (revoke now saved fingerprint r).0
registry_step now (record_op event) r = record_event event r
registry_step now (notify_op n) r = notify now n r
registry_step now notices_op r = (current_notices now r).0
registry_step now (dismiss_op id) r = (dismiss_notice now id r).0

unfoldable pub registry_run : List (ℕ × RegistryOp) → Registry → Registry
registry_run [] r = r
registry_run ((now, op) ∷ ops) r = registry_run ops (registry_step now op r)
