-- ===== src/BatchQueue/Methods.antt =====
-- The methods of `UsageBatchQueue` and `AuditBatchQueue`, up to their return or their first wait.
use nonebot_plugin_moellmcha.Prelude.{
  ℕ, ◌+◌, Bool, true, false, not, ◌&&◌, Option, none, some, List, [], ◌∷◌, ◌++◌, if◌then◌else◌, leb,
  ltb, length, take, drop,
}
use nonebot_plugin_moellmcha.BatchQueue.Queue.{
  State, open_, closed, result_unknown, Error, closed_error, result_unknown_error, record_invalid,
  lease_invalid, Outcome, return, wait, raise, max_batch, Owner, Lease, Queue, Method,
  start_closing, outstanding_count, bound, at_time, known, is_ready, oldest, records_of,
  finish_close, active,
}

-- `_raise_if_unavailable_for_put`
unfoldable pub unavailable_for_put : State → Option Error
unavailable_for_put result_unknown = some result_unknown_error
unavailable_for_put open_ = none
unavailable_for_put _ = some closed_error

unfoldable pub unless_refused : {R A : Type 0} → Option Error → Method R A → Method R A
unless_refused none body q = body q
unless_refused (some e) body q = (raise e, q)

unfoldable pub none_if_closed : {R : Type 0} → State → Outcome (Option (Lease R))
none_if_closed closed = return none
none_if_closed _ = wait

-- Which records may enter: those that are not persisted yet, and for audit events those that may be
-- batched.
module _ {R : Type 0} (may_enter : R → Bool) where
  unfoldable pub all_enter : List R → Bool
  all_enter [] = true
  all_enter (r ∷ rs) = may_enter r && all_enter rs

  -- the checks of the lease's `__post_init__`
  unfoldable pub lease_is_valid : Lease R → Bool
  unfolding all_enter
  lease_is_valid l =
      ltb 0 l.sequence
      && (ltb 0 (length l.records) && leb (length l.records) max_batch)
      && all_enter l.records
      && leb l.oldest_enqueued_at l.leased_at

  unfoldable pub next_lease : ℕ → Queue R → Lease R
  unfolding oldest
  next_lease now q =
      let entries = take q.policy.max_batch_size q.pending in
      record {
        sequence = q.next_sequence;
        records = records_of entries;
        oldest_enqueued_at = oldest entries;
        leased_at = now;
        owner_token = q.owner_token;
      }

  -- `_lease_ready_locked`. The entries have left the queue when the lease is made: an invalid lease
  -- would lose them.
  unfoldable pub lease_ready_locked : ℕ → Bool → Method R (Option (Lease R))
  unfolding is_ready next_lease lease_is_valid
  lease_ready_locked now force q =
      let entries = take q.policy.max_batch_size q.pending in
      let rest = drop q.policy.max_batch_size q.pending in
      let lease = next_lease now q in
      if not (is_ready now force q)
      then (return none, q)
      else if lease_is_valid lease
      then (
        return (some lease),
        record q {
          pending = rest;
          next_sequence = q.next_sequence + 1;
          leased_entries = entries;
          lease = some lease;
        },
      )
      else (raise lease_invalid, record q { pending = rest })

  unfoldable pub enqueue : R → ℕ → Method R (Unit {0})
  enqueue r now q = (return tt, record q { pending = q.pending ++ (r, now) ∷ [] })

  unfoldable pub put_if_room : R → ℕ → Method R (Unit {0})
  unfolding outstanding_count at_time enqueue
  put_if_room r now q =
      if leb q.policy.max_outstanding_records (outstanding_count q)
      then (wait, q)
      else at_time now (enqueue r now) q

  -- one pass of the loop of `put`, from the test of the state on
  unfoldable pub put_locked : R → ℕ → Method R (Unit {0})
  unfolding unavailable_for_put unless_refused put_if_room
  put_locked r now q = unless_refused (unavailable_for_put q.state) (put_if_room r now) q

  unfoldable pub put : Owner → R → ℕ → Method R (Unit {0})
  unfolding bound put_locked
  put caller r now q =
      if may_enter r then bound caller (put_locked r now) q else (raise record_invalid, q)

  unfoldable pub then_finish :
      Outcome (Option (Lease R)) × Queue R → Outcome (Option (Lease R)) × Queue R
  unfolding finish_close
  then_finish (return lease, q) = (return lease, finish_close q)
  then_finish (wait, q) = (wait, q)
  then_finish (raise e, q) = (raise e, q)

  unfoldable pub lease_and_finish : ℕ → Bool → Method R (Option (Lease R))
  unfolding lease_ready_locked then_finish
  lease_and_finish now force q = then_finish (lease_ready_locked now force q)

  unfoldable pub lease_ready : Owner → Bool → ℕ → Method R (Option (Lease R))
  unfolding bound known at_time lease_and_finish
  lease_ready caller force now q = bound caller (known (at_time now (lease_and_finish now force))) q

  -- the end of a pass of the loop of `wait_for_lease`, without a lease
  unfoldable pub close_or_wait : Queue R → Outcome (Option (Lease R)) × Queue R
  unfolding finish_close none_if_closed
  close_or_wait q = let q' = finish_close q in (none_if_closed q'.state, q')

  unfoldable pub then_wait :
      Outcome (Option (Lease R)) × Queue R → Outcome (Option (Lease R)) × Queue R
  unfolding close_or_wait
  then_wait (return (some lease), q) = (return (some lease), q)
  then_wait (return none, q) = close_or_wait q
  then_wait (wait, q) = (wait, q)
  then_wait (raise e, q) = (raise e, q)

  unfoldable pub lease_or_wait : ℕ → Method R (Option (Lease R))
  unfolding lease_ready_locked then_wait
  lease_or_wait now q = then_wait (lease_ready_locked now false q)

  -- `wait_for_lease`, one pass of its loop
  unfoldable pub wait_for_lease : Owner → ℕ → Method R (Option (Lease R))
  unfolding bound known at_time lease_or_wait
  wait_for_lease caller now q = bound caller (known (at_time now (lease_or_wait now))) q

module _ {R : Type 0} where
  unfoldable pub drop_lease : Queue R → Outcome (Unit {0}) × Queue R
  unfolding finish_close
  drop_lease q = (return tt, finish_close (record q { lease = none; leased_entries = [] }))

  unfoldable pub acknowledge_committed : Owner → Lease R → Method R (Unit {0})
  unfolding bound known active drop_lease
  acknowledge_committed caller lease q = bound caller (known (active lease drop_lease)) q

  unfoldable pub requeue : Queue R → Outcome (Unit {0}) × Queue R
  requeue q = (
    return tt,
    record q { pending = q.leased_entries ++ q.pending; lease = none; leased_entries = [] },
  )

  unfoldable pub release_unwritten : Owner → Lease R → Method R (Unit {0})
  unfolding bound known active requeue
  release_unwritten caller lease q = bound caller (known (active lease requeue)) q

  unfoldable pub become_unknown : Queue R → Outcome (Unit {0}) × Queue R
  become_unknown q = (return tt, record q { state = result_unknown })

  unfoldable pub mark_result_unknown : Owner → Lease R → Method R (Unit {0})
  unfolding bound active become_unknown
  mark_result_unknown caller lease q = bound caller (active lease become_unknown) q

  unfoldable pub close_locked : Queue R → Outcome (Unit {0}) × Queue R
  unfolding start_closing finish_close
  close_locked q = (return tt, finish_close (record q { state = start_closing q.state }))

  unfoldable pub begin_close : Owner → Method R (Unit {0})
  unfolding bound known close_locked
  begin_close caller q = bound caller (known close_locked) q
