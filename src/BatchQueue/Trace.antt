-- ===== src/BatchQueue/Trace.antt =====
-- Any sequence of calls on one queue, with the records that `put` took in and those whose batch was
-- acknowledged, in order.
use nonebot_plugin_moellmcha.Prelude.{ℕ, Bool, Option, none, some, List, [], ◌∷◌, ◌++◌}
use nonebot_plugin_moellmcha.BatchQueue.Queue.{
  Outcome, return, wait, raise, Policy, Owner, Lease, Queue, init, records_of,
}
use nonebot_plugin_moellmcha.BatchQueue.Methods.{
  put, lease_ready, wait_for_lease, acknowledge_committed, release_unwritten, mark_result_unknown,
  begin_close,
}

-- A call, with what it reads of the clock. A call that waits is made again when it wakes up.
pub data Call (R : Type 0) : Type 0 where
  call_put : Owner → R → ℕ → Call R
  call_lease_ready : Owner → Bool → ℕ → Call R
  call_wait_for_lease : Owner → ℕ → Call R
  call_acknowledge call_release call_mark : Owner → Lease R → Call R
  call_close : Owner → Call R

pub record World (R : Type 0) : Type 0 where
  pub queue : Queue R
  pub accepted : List R
  pub committed : List R

module _ {R : Type 0} where
  unfoldable pub held : Option (Lease R) → List R
  held none = []
  held (some lease) = lease.records

  -- the records in the queue, the first to leave first
  unfoldable pub stored : Queue R → List R
  stored q = records_of q.leased_entries ++ records_of q.pending

  unfoldable pub after_put : R → World R → Outcome (Unit {0}) × Queue R → World R
  after_put r w (return x, q) = record {
    queue = q;
    accepted = w.accepted ++ r ∷ [];
    committed = w.committed;
  }
  after_put r w (wait, q) = record w { queue = q }
  after_put r w (raise e, q) = record w { queue = q }

  unfoldable pub after_acknowledge : World R → Outcome (Unit {0}) × Queue R → World R
  unfolding held
  after_acknowledge w (return x, q) = record {
    queue = q;
    accepted = w.accepted;
    committed = w.committed ++ held w.queue.lease;
  }
  after_acknowledge w (wait, q) = record w { queue = q }
  after_acknowledge w (raise e, q) = record w { queue = q }

  unfoldable pub after : {A : Type 0} → World R → Outcome A × Queue R → World R
  after w (o, q) = record w { queue = q }

  unfoldable pub start : Policy → ℕ → World R
  unfolding init
  start policy token = record { queue = init policy token; accepted = []; committed = [] }

module _ {R : Type 0} (may_enter : R → Bool) where
  unfoldable pub perform : Call R → World R → World R
  unfolding after_put after_acknowledge after
  perform (call_put caller r now) w = after_put r w (put may_enter caller r now w.queue)
  perform (call_lease_ready caller force now) w =
      after w (lease_ready may_enter caller force now w.queue)
  perform (call_wait_for_lease caller now) w = after w (wait_for_lease may_enter caller now w.queue)
  perform (call_acknowledge caller lease) w =
      after_acknowledge w (acknowledge_committed caller lease w.queue)
  perform (call_release caller lease) w = after w (release_unwritten caller lease w.queue)
  perform (call_mark caller lease) w = after w (mark_result_unknown caller lease w.queue)
  perform (call_close caller) w = after w (begin_close caller w.queue)

  unfoldable pub run : List (Call R) → World R → World R
  run [] w = w
  run (c ∷ cs) w = run cs (perform c w)
