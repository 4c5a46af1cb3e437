-- ===== src/Gateway/Listener/Admission.antt =====
-- The connections of a listener, internal/gateway/gateway.go.
use hdc_remote_kit.Gateway.Listener.{
  limit_reached, source_not_allowed, lease_expired, access_closed, AdmitResult, source_allowed,
  close_listener, update_listener, admitted, remove_connection, Grant, admit, Source, Listener,
}
use hdc_remote_kit.Base.{
  leb, ltb, not, All, refl, lt→leb, lt→ltb, true, if-holds, ◌↔◌, ◌<◌, suc, arith, ◌≤◌, false, [],
  ◌≡◌, ◌∷◌, length, List, ℕ, Bool,
}
use hdc_remote_kit.Remote.Ports.{contains, remove, add}

length-add : (x : ℕ) (xs : List ℕ) → length (add x xs) ≤ suc (length xs)
unfolding add
length-add x xs =
    if-holds (λ ys. length ys ≤ suc (length xs)) (contains x xs) xs (x ∷ xs) (λ e. omega arith)
      (λ e. omega arith)

length-remove : (x : ℕ) (xs : List ℕ) → length (remove x xs) ≤ length xs
unfolding remove
length-remove x [] = omega arith
length-remove x (y ∷ ys) = ground (arith, length-remove x ys)

-- What a connection needs.
pub Admissible : {A P : Type 0} → (P → A → Bool) → Source A → ℕ → Listener P → Type 0
Admissible prefix_contains source now s =
    (s.closed ≡ false)
    × (now < s.grant.expires_at)
    × (source_allowed prefix_contains s.grant.allowed_prefixes source ≡ true)
    × (length s.connections < s.grant.max_connections)

-- What happens to a listener: a connection from a source at a time, its end, a renewal, the end.
pub data ListenerOp (A P : Type 0) : Type 0 where
  accept_op : ℕ → Source A → ℕ → ListenerOp A P
  leave_op : ℕ → ListenerOp A P
  renew_op : Grant P → ListenerOp A P
  close_op : ListenerOp A P

module _ {A P : Type 0} (prefix_contains : P → A → Bool) where
  admitted→Admissible :
      (connection : ℕ) (source : Source A) (now : ℕ) (s : Listener P)
      → (admit prefix_contains connection source now s).0 ≡ admitted
      → Admissible prefix_contains source now s
  unfolding admit Admissible
  admitted→Admissible connection source now s h = ground arith

  Admissible→admitted :
      (connection : ℕ) (source : Source A) (now : ℕ) (s : Listener P)
      → Admissible prefix_contains source now s
      → (admit prefix_contains connection source now s).0 ≡ admitted
  unfolding admit Admissible
  Admissible→admitted connection source now s (open_still, live, allowed, free) =
      rw
        (
          open_still,
          lt→ltb now s.grant.expires_at live,
          allowed,
          lt→leb s.grant.max_connections (length s.connections) free,
        )
        refl

  -- A connection is admitted exactly if the listener is not closed, the lease has not expired, the
  -- source address lies in an allowed prefix and fewer connections are there than the grant
  -- allows.
  pub admit_iff :
      (connection : ℕ) (source : Source A) (now : ℕ) (s : Listener P)
      → ((admit prefix_contains connection source now s).0 ≡ admitted)
        ↔ Admissible prefix_contains source now s
  admit_iff connection source now s =
      (admitted→Admissible connection source now s, Admissible→admitted connection source now s)

  pub listener_step : ListenerOp A P → Listener P → Listener P
  listener_step (accept_op connection source now) s =
      (admit prefix_contains connection source now s).1
  listener_step (leave_op connection) s = remove_connection connection s
  listener_step (renew_op grant) s = update_listener grant s
  listener_step close_op s = close_listener s

  pub listener_run : List (ListenerOp A P) → Listener P → Listener P
  listener_run [] s = s
  listener_run (op ∷ ops) s = listener_run ops (listener_step op s)

  -- A renewal that keeps the limit.
  unfoldable pub KeepsLimit : ℕ → ListenerOp A P → Type 0
  KeepsLimit limit (renew_op grant) = grant.max_connections ≡ limit
  KeepsLimit limit _ = Unit

  unfoldable pub WithinLimit : ℕ → Listener P → Type 0
  WithinLimit limit s = (s.grant.max_connections ≡ limit) × (length s.connections ≤ limit)

  admit-WithinLimit :
      (limit connection : ℕ) (source : Source A) (now : ℕ) (s : Listener P)
      → WithinLimit limit s
      → WithinLimit limit (admit prefix_contains connection source now s).1
  unfolding admit WithinLimit
  admit-WithinLimit limit connection source now s (m, l) =
      let keep =
        λ (b : Bool) (r : AdmitResult) (x : AdmitResult × Listener P)
            (h : b ≡ false → WithinLimit limit x.1).
          if-holds {A = AdmitResult × Listener P} (λ y. WithinLimit limit y.1) b (r, s) x
            (λ e. (m, l)) h in
      keep s.closed access_closed _ (λ e1.
        keep (not (ltb now s.grant.expires_at)) lease_expired _ (λ e2.
          keep (not (source_allowed prefix_contains s.grant.allowed_prefixes source))
            source_not_allowed _
            (λ e3.
              keep (leb s.grant.max_connections (length s.connections)) limit_reached _
                (λ e4. (m, ground (arith, length-add connection s.connections))))))

  listener_step-WithinLimit :
      (limit : ℕ) (op : ListenerOp A P) (s : Listener P)
      → KeepsLimit limit op
      → WithinLimit limit s
      → WithinLimit limit (listener_step op s)
  unfolding listener_step KeepsLimit WithinLimit remove_connection update_listener close_listener
  listener_step-WithinLimit limit (accept_op connection source now) s k h =
      admit-WithinLimit limit connection source now s h
  listener_step-WithinLimit limit (leave_op connection) s k (m, l) =
      (m, omega (arith, length-remove connection s.connections))
  listener_step-WithinLimit limit (renew_op grant) s k (m, l) = (k, l)
  listener_step-WithinLimit limit close_op s k h = h

  -- A listener that starts with at most as many connections as its grant allows never has more, as
  -- long as renewals keep that number.
  pub listener_run-WithinLimit :
      (limit : ℕ) (ops : List (ListenerOp A P)) (s : Listener P)
      → All (KeepsLimit limit) ops
      → WithinLimit limit s
      → WithinLimit limit (listener_run ops s)
  unfolding listener_run
  listener_run-WithinLimit limit [] s k h = h
  listener_run-WithinLimit limit (op ∷ ops) s (k, ks) h =
      listener_run-WithinLimit limit ops (listener_step op s) ks
        (listener_step-WithinLimit limit op s k h)
