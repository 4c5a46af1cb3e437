-- ===== src/HostAuth/Decision.antt =====
-- `Decision` of internal/hostauth/registry.go.
use hdc_remote_kit.Base.{codes, Bytes}

pub data HostDecision : Type 0 where
  allow_once allow_forever deny_host expired : HostDecision

pub decision_text : HostDecision → Bytes
decision_text allow_once = codes "allow_once"
decision_text allow_forever = codes "allow_forever"
decision_text deny_host = codes "deny"
decision_text expired = codes "expired"
