-- ===== src/BatchQueue/Delivery.antt =====
-- What the queue promises of a sequence of calls.
use nonebot_plugin_moellmcha.Prelude.{
  ℕ, ◌≤◌, ◌≡◌, subst, arith, Bool, true, Option, none, some, List, ◌++◌, length,
}
use nonebot_plugin_moellmcha.BatchQueue.Queue.{
  Policy, policy_is_valid, Lease, init, outstanding_count,
}
use nonebot_plugin_moellmcha.BatchQueue.Trace.{held, stored, Call, start, run}
use nonebot_plugin_moellmcha.BatchQueue.Invariant.{
  IsHeld, init-Inv, outstanding_count-length, length-records_of,
}
use nonebot_plugin_moellmcha.BatchQueue.Preserved.{WorldInv, run-Inv}
use nonebot_plugin_moellmcha.BatchQueue.Configuration.{run-policy}

module _ {R : Type 0} (may_enter : R → Bool) where
  pub started :
      (policy : Policy) (token : ℕ) (calls : List (Call R))
      → policy_is_valid policy ≡ true
      → WorldInv may_enter (run may_enter calls (start policy token))
  unfolding start
  started policy token calls valid =
      run-Inv may_enter calls _ (init-Inv may_enter policy token valid)

  -- Under a valid policy, after any calls by any callers, at any times and with any leases, the
  -- accepted records are, in their order, those of the acknowledged batches, then those out on lease,
  -- then those pending: none is lost, doubled or overtaken.
  pub records_delivered_in_order :
      (policy : Policy) (token : ℕ) (calls : List (Call R))
      → policy_is_valid policy ≡ true
      → (run may_enter calls (start policy token)).accepted
        ≡ (run may_enter calls (start policy token)).committed
          ++ stored (run may_enter calls (start policy token)).queue
  records_delivered_in_order policy token calls valid = (started policy token calls valid).in_order

  length-held :
      (o : Option (Lease R)) (l : List (R × ℕ)) → IsHeld may_enter l o → length (held o) ≡ length l
  unfolding held IsHeld
  length-held none l h = ground (arith, h)
  length-held (some lease) l h = ground (arith, h.0, length-records_of may_enter l)

  -- Under a valid policy, after any calls, the outstanding records number at most
  -- `max_outstanding_records`, and those on lease at most `max_batch_size`.
  pub outstanding_bounded :
      (policy : Policy) (token : ℕ) (calls : List (Call R))
      → policy_is_valid policy ≡ true
      → (outstanding_count (run may_enter calls (start policy token)).queue
          ≤ policy.max_outstanding_records)
        × (length (held (run may_enter calls (start policy token)).queue.lease)
            ≤ policy.max_batch_size)
  unfolding start init
  outstanding_bounded policy token calls valid =
      let w = run may_enter calls (start policy token) in
      let p = started policy token calls valid in
      let kept = run-policy may_enter calls (start policy token) in
      (
        subst (λ r. outstanding_count w.queue ≤ r.max_outstanding_records) kept
            (omega (arith, p.within_bound, outstanding_count-length may_enter w.queue p.is_held)),
        subst (λ r. length (held w.queue.lease) ≤ r.max_batch_size) kept
            (omega
              (arith, p.batch_within, length-held w.queue.lease w.queue.leased_entries p.is_held)),
      )
