-- ===== src/Hosts/Reconcile/Waiting.antt =====
-- The wait for a host, `wait_for_available` of .github/scripts/reconcile-bmhs.py.
use osac_test_infra.Prelude.{ℕ, zero, suc, ◌<◌, ◌==◌, true, false, some, ◌≡◌, refl, arith}
use osac_test_infra.Text.{Text}
use osac_test_infra.Hosts.Reconcile.{Oc, going, wait_attempts, polled}

module _ {S : Type 0} (oc : Oc S) where
  -- The state after some delays.
  unfoldable pub later : ℕ → S → S
  later zero s = s
  later (suc k) s = later k (oc.sleep s)

  -- If the host is available at one of the attempts, and no call before it times out, the wait ends
  -- well.
  pub wait_attempts-going :
      (left k : ℕ) (name : Text) (s : S)
      → k < left
      → ((j : ℕ) → j < k → polled oc (oc.poll name (later j s)) ≡ some false)
      → polled oc (oc.poll name (later k s)) ≡ some true
      → wait_attempts oc left name s ≡ (later k s, going)
  unfolding wait_attempts later
  wait_attempts-going zero k name s l h e = absurd (omega arith)
  wait_attempts-going (suc left) zero name s l h e = rw (e, wait_attempts) refl
  wait_attempts-going (suc left) (suc k) name s l h e =
      let z : (left == 0) ≡ false = ground arith in
      rw (h 0 (omega arith), wait_attempts)
        (rw z (
          wait_attempts-going left k name (oc.sleep s) (omega arith)
            (λ j m. h (suc j) (omega arith)) e))
