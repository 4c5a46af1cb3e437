-- ===== src/HostAuth/Notices/Invariant.antt =====
-- The notices and the recent events of a registry on every run, internal/hostauth/registry.go.
use hdc_remote_kit.HostAuth.Operations.{
  RegistryOp, registry_step, registry_run, submit_op, end_wait_op, decide_op, revoke_op, record_op,
  notify_op, notices_op, dismiss_op,
}
use hdc_remote_kit.HostAuth.Registry.{
  invalid_decision, selector_required, remove_host, wait_decision, max_recent_events, has_host,
  is_expired, remove_pending, event_of, KnownHost, waiting, recorded, WaitEnd, RecentEvent, submit,
  record_event, new_registry, end_wait, PendingRequest,
}
use hdc_remote_kit.Base.{
  if◌then◌else◌, inr, inl, Option-cases, zero, [], ◌∷◌, ok, codes, suc, err, ◌≤◌, take, refl, none,
  false, arith, ◌≡◌, true, some, length, if-holds, Result, Bytes,
}
use hdc_remote_kit.HostAuth.Notices.Unique.{
  length-take_most, take-Part, take_notice-Part, Part-length, Part-Unique, live_notices-Part,
  Unique, Part, rest_of,
}
use hdc_remote_kit.HostAuth.Notices.Replace.{
  clashes-replace_notice, length-replaced, replaced-Unique, replaced_or,
}
use hdc_remote_kit.HostAuth.Decision.{
  expired, deny_host, allow_once, allow_forever, decision_text, HostDecision,
}
use hdc_remote_kit.HostAuth.Notices.{
  replace_notice, dedupe_key, take_notice, find_key, suppressed_now, RegistryError, current_notices,
  Option, Notice, Bool, ℕ, prune_notices, notify, dismiss_notice, Registry, List, put_notice,
  notify_live, dismiss_found,
}
use hdc_remote_kit.HostAuth.Decide.{
  select_pending, answer_pending, trust_request, revoke_matched, revoke, decide_selected,
  decide_request, decide, answer_request,
}
use hdc_remote_kit.Strings.{is_nil, is_blank, trim_space}

-- At most twenty notices, no two of them the same, and at most twenty recent events.
pub IsTidy : Registry → Type 0
IsTidy r =
    Unique r.notices
    × (length r.notices ≤ max_recent_events)
    × (length r.recent ≤ max_recent_events)

Part-IsTidy :
    (r d : Registry) → Part d.notices r.notices → d.recent ≡ r.recent → IsTidy r → IsTidy d
unfolding IsTidy
Part-IsTidy r d p e (u, l, c) = (Part-Unique p u, omega (arith, Part-length p), rw e c)

put_notice-Unique :
    (n : Notice) (notices : List Notice)
    → Unique notices
    → length notices ≤ max_recent_events
    → Unique (put_notice n notices (replace_notice n notices))
      × (length (put_notice n notices (replace_notice n notices)) ≤ max_recent_events)
unfolding put_notice replaced_or Unique
put_notice-Unique n notices u l =
    let same = replaced-Unique n notices u in
    let size = length-replaced n notices in
    elim (Option-cases (replace_notice n notices)) [
      | inl f ↦
          rw (put_notice, f)
            (
              Part-Unique (take-Part max_recent_events (n ∷ notices))
                  (clashes-replace_notice n notices f, u),
              length-take_most max_recent_events (n ∷ notices),
            )
      | inr (replaced, f) ↦ rw (put_notice, f) (rw f at same, omega (arith, rw f at size))
    ]

prune_notices-IsTidy : (now : ℕ) (r : Registry) → IsTidy r → IsTidy (prune_notices now r)
unfolding prune_notices
prune_notices-IsTidy now r h =
    Part-IsTidy r (prune_notices now r) (live_notices-Part now r.notices) refl h

notify_live-IsTidy : (now : ℕ) (n : Notice) (d : Registry) → IsTidy d → IsTidy (notify_live now n d)
unfolding notify_live IsTidy
notify_live-IsTidy now n d (u, l, c) =
    let (u', l') = put_notice-Unique n d.notices u l in
    if-holds IsTidy (suppressed_now now (find_key (dedupe_key n) d.suppressed)) d
      (record d { notices = put_notice n d.notices (replace_notice n d.notices) }) (λ e. (u, l, c))
      (λ e. (u', l', c))

notify-IsTidy : (now : ℕ) (n : Notice) (r : Registry) → IsTidy r → IsTidy (notify now n r)
unfolding notify
notify-IsTidy now n r h =
    if-holds IsTidy (is_blank n.kind) r (notify_live now n (prune_notices now r)) (λ e. h)
      (λ e. notify_live-IsTidy now n (prune_notices now r) (prune_notices-IsTidy now r h))

length-take_events : (k : ℕ) (events : List RecentEvent) → length (take k events) ≤ k
length-take_events zero events = omega arith
length-take_events (suc k) [] = omega arith
length-take_events (suc k) (n ∷ events) = omega (arith, length-take_events k events)

record_event-IsTidy :
    (event : RecentEvent) (r : Registry) → IsTidy r → IsTidy (record_event event r)
unfolding record_event recorded IsTidy
record_event-IsTidy event r (u, l, c) =
    if-holds IsTidy (is_nil event.action) r (recorded event r) (λ e. (u, l, c))
      (λ e. (u, l, length-take_events max_recent_events (event ∷ r.recent)))

submit-IsTidy : (request : PendingRequest) (r : Registry) → IsTidy r → IsTidy (submit request r).0
unfolding submit waiting IsTidy
submit-IsTidy request r h =
    let trimmed = record request { fingerprint = trim_space request.fingerprint } in
    if-holds (λ (x : Registry × Result RegistryError (Option HostDecision)). IsTidy x.0)
      (is_nil trimmed.fingerprint) _ _ (λ e. h)
      (λ e.
        if-holds (λ (x : Registry × Result RegistryError (Option HostDecision)). IsTidy x.0)
          (has_host trimmed.fingerprint r.hosts) _ _ (λ f. h) (λ f. h))

end_wait-IsTidy :
    (now : ℕ) (request : PendingRequest) (how : WaitEnd) (r : Registry)
    → IsTidy r
    → IsTidy (end_wait now request how r).0
unfolding end_wait IsTidy
end_wait-IsTidy now request how r h =
    let d = record r { pending = remove_pending request.request_id r.pending } in
    if-holds IsTidy (is_expired (wait_decision how)) _ d
      (λ e. record_event-IsTidy (event_of now (codes "expired") request) d h) (λ e. h)

answer_request-IsTidy :
    (now : ℕ) (p : PendingRequest) (decision : HostDecision) (r : Registry)
    → IsTidy r
    → IsTidy (answer_request now p decision r)
unfolding answer_request IsTidy
answer_request-IsTidy now p decision r h =
    record_event-IsTidy (event_of now (decision_text decision) p)
      (record r { pending = answer_pending p.request_id decision r.pending }) h

decide_request-IsTidy :
    (now : ℕ) (saved : Bool) (p : PendingRequest) (decision : HostDecision) (r : Registry)
    → IsTidy r
    → IsTidy (decide_request now saved p decision r).0
unfolding decide_request trust_request IsTidy
decide_request-IsTidy now true p allow_forever r h =
    answer_request-IsTidy now p allow_forever (trust_request now p r) h
decide_request-IsTidy now false p allow_forever r h = h
decide_request-IsTidy now true p allow_once r h = answer_request-IsTidy now p allow_once r h
decide_request-IsTidy now true p deny_host r h = answer_request-IsTidy now p deny_host r h
decide_request-IsTidy now true p expired r h = answer_request-IsTidy now p expired r h
decide_request-IsTidy now false p allow_once r h = answer_request-IsTidy now p allow_once r h
decide_request-IsTidy now false p deny_host r h = answer_request-IsTidy now p deny_host r h
decide_request-IsTidy now false p expired r h = answer_request-IsTidy now p expired r h

decide_selected-IsTidy :
    (now : ℕ) (saved : Bool) (p : Option PendingRequest) (decision : HostDecision) (r : Registry)
    → IsTidy r
    → IsTidy (decide_selected now saved p decision r).0
unfolding decide_selected
decide_selected-IsTidy now saved none decision r h = h
decide_selected-IsTidy now saved (some p) decision r h =
    decide_request-IsTidy now saved p decision r h

decide-IsTidy :
    (now : ℕ) (saved : Bool) (selector : Bytes) (decision : HostDecision) (r : Registry)
    → IsTidy r
    → IsTidy (decide now saved selector decision r).0
unfolding decide
decide-IsTidy now saved selector decision r h =
    let rest =
      decide_selected now saved (select_pending (trim_space selector) r.pending) decision r in
    if-holds {A = Registry × Result RegistryError (Unit {0})} (λ x. IsTidy x.0)
      (is_nil (trim_space selector)) (r, err selector_required)
      (if is_expired decision then (r, err invalid_decision) else rest) (λ e. h)
      (λ e.
        if-holds {A = Registry × Result RegistryError (Unit {0})} (λ x. IsTidy x.0)
          (is_expired decision) (r, err invalid_decision) rest (λ f. h)
          (λ f.
            decide_selected-IsTidy now saved (select_pending (trim_space selector) r.pending)
              decision r h))

revoke_matched-IsTidy :
    (now : ℕ) (saved : Bool) (matched : Result RegistryError Bytes) (r : Registry)
    → IsTidy r
    → IsTidy (revoke_matched now saved matched r).0
unfolding revoke_matched IsTidy
revoke_matched-IsTidy now saved (err e) r h = h
revoke_matched-IsTidy now saved (ok matched) r h =
    record_event-IsTidy _ (record r { hosts = remove_host matched r.hosts }) h

dismiss_found-IsTidy :
    (now : ℕ) (found : Option (Notice × List Notice)) (r : Registry)
    → Part (rest_of r.notices found) r.notices
    → IsTidy r
    → IsTidy (dismiss_found now found r).0
unfolding dismiss_found rest_of
dismiss_found-IsTidy now none r p h = h
dismiss_found-IsTidy now (some found) r p h =
    Part-IsTidy r (dismiss_found now (some found) r).0 p refl h

dismiss_notice-IsTidy :
    (now : ℕ) (id : Bytes) (r : Registry) → IsTidy r → IsTidy (dismiss_notice now id r).0
unfolding dismiss_notice
dismiss_notice-IsTidy now id r h =
    if-holds {A = Registry × Result RegistryError (Unit {0})} (λ x. IsTidy x.0)
      (is_nil (trim_space id)) _ _ (λ e. h)
      (λ e.
        dismiss_found-IsTidy now (take_notice (trim_space id) r.notices) r
          (take_notice-Part (trim_space id) r.notices) h)

registry_step-IsTidy :
    (now : ℕ) (op : RegistryOp) (r : Registry) → IsTidy r → IsTidy (registry_step now op r)
unfolding registry_step revoke current_notices
registry_step-IsTidy now (submit_op request) r h = submit-IsTidy request r h
registry_step-IsTidy now (end_wait_op request how) r h = end_wait-IsTidy now request how r h
registry_step-IsTidy now (decide_op saved selector decision) r h =
    decide-IsTidy now saved selector decision r h
registry_step-IsTidy now (revoke_op saved fingerprint) r h = revoke_matched-IsTidy now saved _ r h
registry_step-IsTidy now (record_op event) r h = record_event-IsTidy event r h
registry_step-IsTidy now (notify_op n) r h = notify-IsTidy now n r h
registry_step-IsTidy now notices_op r h = prune_notices-IsTidy now r h
registry_step-IsTidy now (dismiss_op id) r h = dismiss_notice-IsTidy now id r h

registry_run_keeps :
    (ops : List (ℕ × RegistryOp)) (r : Registry) → IsTidy r → IsTidy (registry_run ops r)
unfolding registry_run
registry_run_keeps [] r h = h
registry_run_keeps ((now, op) ∷ ops) r h =
    registry_run_keeps ops (registry_step now op r) (registry_step-IsTidy now op r h)

-- After any operations on a new registry, at any times, there are at most twenty notices, no two
-- of the same kind, source and device, and at most twenty recent events.
pub registry_run-IsTidy :
    (timeout : ℕ) (hosts : List KnownHost) (ops : List (ℕ × RegistryOp))
    → IsTidy (registry_run ops (new_registry timeout hosts))
unfolding IsTidy new_registry Unique
registry_run-IsTidy timeout hosts ops =
    registry_run_keeps ops (new_registry timeout hosts) (tt, omega arith, omega arith)
