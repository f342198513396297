-- ===== src/Status/Gate.antt =====
-- src/companion/steam_reporting_status_v3.cpp: the sticky words that withdraw the library's admission.
use native.Mathlib.Nat.{zero-div}
use rs2server_fix.Base.{
  ℕ, zero, suc, ◌+◌, ◌*◌, ◌/◌, ◌%◌, ◌^◌, ◌≤◌, ◌≡◌, refl, Bool, true, false, not, ◌||◌, List, [],
  ◌∷◌, ltb, leb, ◌==◌, arith, Option, none, some, pick,
}
use rs2server_fix.Types.{Reason}
use rs2server_fix.Status.Wire.{
  TransportReason, transport_reason_code, StatusPayload, OwnerTransport, WorkerTransport,
  StatusWireV3, OwnerSnapshotV3,
}
use rs2server_fix.Status.{
  set_bit, mask_bit, may_publish, header_ready, revoke_status, lose_status, stop_status,
  status_revoked, latched, fault_reason, latch_transport_fault, initialize_status, owner_acceptable,
  publish_owner, read_owner, worker_consistent, close_gate, publish_worker_with, publish_worker,
  console_acceptable, publish_console, identity_acceptable, publish_log_identity,
}
use rs2server_fix.Status.Sound.{
  Update, initialize, owner, worker, console, identity, revoke, lose, stop, fault, update, updates,
}

power_positive : (k : ℕ) → 1 ≤ 2 ^ k
power_positive zero = omega arith
power_positive (suc k) =
    let e : 2 ^ suc k ≡ 2 * 2 ^ k = grind arith in omega (arith, e, power_positive k)

set_bit-grows : (w k : ℕ) → w ≤ set_bit w k
unfolding set_bit
set_bit-grows w k =
    pick (λ n. w ≤ n) (w / 2 ^ k % 2 == 1) w (w + 2 ^ k) (λ _. omega arith) (λ _. omega arith)

bit_of_zero : (k : ℕ) → (0 / 2 ^ k % 2 == 1) ≡ false
bit_of_zero k = rw (zero-div (2 ^ k)) refl

set_bit_positive : (w k : ℕ) → 1 ≤ set_bit w k
unfolding set_bit
set_bit_positive zero k = rw (bit_of_zero k) (let p = power_positive k in omega (arith, p))
set_bit_positive (suc w) k =
    pick (λ n. 1 ≤ n) (suc w / 2 ^ k % 2 == 1) (suc w) (suc w + 2 ^ k) (λ _. omega arith)
      (λ _. omega arith)

-- No sticky word is lowered.
record Raised (a b : StatusWireV3) : Type 0 where
  revoked : a.revoke_reasons ≤ b.revoke_reasons
  lost : a.loss_reasons ≤ b.loss_reasons
  stopped : a.stopping ≤ b.stopping
  faulted : a.fatal_transport_reason ≤ b.fatal_transport_reason

level : (a : StatusWireV3) → Raised a a
level a = record {
  revoked = omega arith;
  lost = omega arith;
  stopped = omega arith;
  faulted = omega arith;
}

higher : {a b c : StatusWireV3} → Raised a b → Raised b c → Raised a c
higher x y =
    let r = y.revoked in
    let l = y.lost in
    let s = y.stopped in
    let f = y.faulted in
    record {
      revoked = omega (arith, x.revoked, r);
      lost = omega (arith, x.lost, l);
      stopped = omega (arith, x.stopped, s);
      faulted = omega (arith, x.faulted, f);
    }

abbrev AfterRaised : StatusWireV3 → Bool × StatusWireV3 → Type 0
AfterRaised a r = Raised a r.1

revoke_status-Raised : (a : StatusWireV3) (reason : Reason) → Raised a (revoke_status a reason)
unfolding revoke_status
revoke_status-Raised a reason = record {
  revoked = set_bit-grows a.revoke_reasons (mask_bit reason);
  lost = omega arith;
  stopped = omega arith;
  faulted = omega arith;
}

lose_status-Raised : (a : StatusWireV3) (reason : Reason) → Raised a (lose_status a reason)
unfolding lose_status revoke_status
lose_status-Raised a reason = record {
  revoked = set_bit-grows a.revoke_reasons (mask_bit reason);
  lost = set_bit-grows a.loss_reasons (mask_bit reason);
  stopped = omega arith;
  faulted = omega arith;
}

same_gate : (a : StatusWireV3) → Raised a a
same_gate a = level a

latched-Raised : (a : StatusWireV3) (reason : TransportReason) → Raised a (latched a reason)
unfolding latched
latched-Raised a reason =
    pick (Raised a) (a.fatal_transport_reason == 0) _ _
      (λ e. record {
        revoked = omega arith;
        lost = omega arith;
        stopped = omega arith;
        faulted = ground arith;
      })
      (λ _. level a)

publish_worker_with-Raised :
    (a : StatusWireV3) (input : WorkerTransport) (r : Option OwnerSnapshotV3)
    → Raised a (publish_worker_with a input r).1
unfolding publish_worker_with
publish_worker_with-Raised a input none = level a
publish_worker_with-Raised a input (some s) =
    pick (AfterRaised a) (not (worker_consistent a input s)) _ _
      (λ _. lose_status-Raised a Reason.record_loss)
      λ _.
        pick (AfterRaised a) (not (may_publish a.worker_sequence)) _ _
          (λ _. revoke_status-Raised a Reason.counter_overflow)
          λ _. record {
            revoked = omega arith;
            lost = omega arith;
            stopped = omega arith;
            faulted = omega arith;
          }

publish_worker-Raised :
    (a : StatusWireV3) (input : WorkerTransport) → Raised a (publish_worker a input).1
unfolding publish_worker close_gate
publish_worker-Raised a input =
    pick (AfterRaised a) (not (header_ready a)) _ _ (λ _. level a)
      λ _.
        pick (AfterRaised a) (ltb 11 input.pause_reason || ltb 1 input.startup_observed) _ _
          (λ _. revoke_status-Raised a Reason.status_unavailable)
          λ _.
            let gate = close_gate a input in
            higher
              (pick (Raised a) (input.pause_reason == 0) _ _ (λ _. level a)
                λ _. record {
                  revoked = omega arith;
                  lost = omega arith;
                  stopped = omega arith;
                  faulted = omega arith;
                })
              (publish_worker_with-Raised gate input (read_owner gate))

publish_owner-Raised :
    (a : StatusWireV3) (o : StatusPayload) (input : OwnerTransport)
    → Raised a (publish_owner a o input).1
unfolding publish_owner
publish_owner-Raised a o input =
    pick (AfterRaised a) (not (header_ready a)) _ _ (λ _. level a)
      λ _.
        pick (AfterRaised a) (not (owner_acceptable a o input)) _ _
          (λ _. revoke_status-Raised a Reason.status_unavailable)
          λ _.
            pick (AfterRaised a) (not (may_publish a.owner_sequence)) _ _
              (λ _. revoke_status-Raised a Reason.counter_overflow)
              λ _. record {
                revoked = omega arith;
                lost = omega arith;
                stopped = omega arith;
                faulted = omega arith;
              }

update-Raised : (a : StatusWireV3) (u : Update) → Raised a (update u a)
unfolding update initialize_status stop_status latch_transport_fault publish_console
    publish_log_identity
update-Raised a (initialize header o) =
    pick (AfterRaised a) (not (a.header_ready == 0)) _ _ (λ _. level a)
      λ _. record {
        revoked = omega arith;
        lost = omega arith;
        stopped = omega arith;
        faulted = omega arith;
      }
update-Raised a (owner o input) = publish_owner-Raised a o input
update-Raised a (worker input) = publish_worker-Raised a input
update-Raised a (console input) =
    pick (AfterRaised a) (not (header_ready a) || not (console_acceptable input)) _ _ (λ _. level a)
      λ _.
        pick (AfterRaised a) (not (may_publish a.console_sequence)) _ _ (λ _. level a)
          λ _. record {
            revoked = omega arith;
            lost = omega arith;
            stopped = omega arith;
            faulted = omega arith;
          }
update-Raised a (identity input) =
    pick (AfterRaised a) (not (header_ready a) || not (identity_acceptable input)) _ _
      (λ _. level a)
      λ _.
        pick (AfterRaised a) (not (a.log_identity_ready == 0)) _ _ (λ _. level a)
          λ _. record {
            revoked = omega arith;
            lost = omega arith;
            stopped = omega arith;
            faulted = omega arith;
          }
update-Raised a (revoke reason) = revoke_status-Raised a reason
update-Raised a (lose reason) = lose_status-Raised a reason
update-Raised a (stop qpc) =
    pick (Raised a) (a.stopping == 0) _ _
      (λ e. record {
        revoked = omega arith;
        lost = omega arith;
        stopped = ground arith;
        faulted = omega arith;
      })
      (λ _. level a)
update-Raised a (fault reason) =
    pick (AfterRaised a) (ltb (transport_reason_code reason) 12) _ _ (λ _. level a)
      λ _.
        pick (AfterRaised a) (leb (transport_reason_code reason) 15) _ _
          (λ _.
            higher (latched-Raised a reason)
              (lose_status-Raised (latched a reason) Reason.record_loss))
          (λ _.
            higher (latched-Raised a reason)
              (revoke_status-Raised (latched a reason) (fault_reason reason)))

updates-Raised : (us : List Update) (a : StatusWireV3) → Raised a (updates us a)
unfolding updates
updates-Raised [] a = level a
updates-Raised (u ∷ us) a = higher (update-Raised a u) (updates-Raised us (update u a))

raised_revoked :
    (a b c d e f g h : ℕ)
    → a ≤ e
    → b ≤ f
    → c ≤ g
    → d ≤ h
    → not (a == 0) || not (b == 0) || not (c == 0) || not (d == 0) ≡ true
    → not (e == 0) || not (f == 0) || not (g == 0) || not (h == 0) ≡ true
raised_revoked a b c d e f g h p q r s t = ground arith

Raised-revoked :
    (a b : StatusWireV3) → Raised a b → status_revoked a ≡ true → status_revoked b ≡ true
unfolding status_revoked
Raised-revoked a b r h = raised_revoked _ _ _ _ _ _ _ _ r.revoked r.lost r.stopped r.faulted h

revoked_now : (a : StatusWireV3) (reason : Reason) → status_revoked (revoke_status a reason) ≡ true
unfolding status_revoked revoke_status
revoked_now a reason =
    first_positive (set_bit a.revoke_reasons (mask_bit reason)) _ _ _
      (set_bit_positive a.revoke_reasons (mask_bit reason))
  where
    first_positive :
        (a b c d : ℕ) → 1 ≤ a → not (a == 0) || not (b == 0) || not (c == 0) || not (d == 0) ≡ true
    first_positive a b c d h = ground arith

-- A withdrawn admission never comes back: once any of the four sticky words is not 0, no sequence of
-- updates, an initialisation included, makes the status read as not revoked; and a revocation or a
-- loss for any reason, `None` included, withdraws it whatever updates follow.
pub updates_revoked :
    (us : List Update) (wire : StatusWireV3)
    → (status_revoked wire ≡ true → status_revoked (updates us wire) ≡ true)
      × ((reason : Reason) → status_revoked (updates us (revoke_status wire reason)) ≡ true)
      × ((reason : Reason) → status_revoked (updates us (lose_status wire reason)) ≡ true)
unfolding lose_status
updates_revoked us wire =
    let later = λ (a : StatusWireV3) (h : status_revoked a ≡ true).
      Raised-revoked a (updates us a) (updates-Raised us a) h in
    (
      later wire,
      λ reason. later (revoke_status wire reason) (revoked_now wire reason),
      λ reason. later (lose_status wire reason) (revoked_now _ reason),
    )
