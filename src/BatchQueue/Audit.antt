-- ===== src/BatchQueue/Audit.antt =====
-- audit_batch.py and, of audit_event.py, which events may wait: the queue for audit events.
use nonebot_plugin_moellmcha.Prelude.{
  ℕ, ◌≡◌, arith, Bool, true, false, not, ◌&&◌, Option, none, some, List, [], ◌∷◌, ◌++◌, String,
  String-discrete, contains, All, All-append,
}
use nonebot_plugin_moellmcha.BatchQueue.Queue.{
  Policy, policy_is_valid, Owner, Lease, Queue, Method, records_of,
}
use nonebot_plugin_moellmcha.BatchQueue.Methods.{
  lease_is_valid, lease_ready_locked, put, lease_ready, wait_for_lease, acknowledge_committed,
  release_unwritten, mark_result_unknown, begin_close,
}
use nonebot_plugin_moellmcha.BatchQueue.Trace.{Call, stored, start, run}
use nonebot_plugin_moellmcha.BatchQueue.Invariant.{IsEntry, Inv}
use nonebot_plugin_moellmcha.BatchQueue.Delivery.{started}

-- The parts of an event that the queue looks at.
pub record AuditEvent : Type 0 where
  pub event_id : Option ℕ
  pub event_type : String

abbrev pub batchable_types : List String
batchable_types = "runtime_reload" ∷ "runtime_reload_failed" ∷ "tool_draft_created" ∷ []

unfoldable pub is_batchable : AuditEvent → Bool
is_batchable e = contains String-discrete e.event_type batchable_types

unfoldable pub is_draft : AuditEvent → Bool
is_draft e = elim e.event_id [ none ↦ true | some _ ↦ false ]

-- the checks of `put` and of `AuditBatchLease` on a record
unfoldable pub may_be_batched : AuditEvent → Bool
unfolding is_batchable is_draft
may_be_batched e = is_draft e && is_batchable e

unfoldable pub audit_lease_is_valid : Lease AuditEvent → Bool
unfolding lease_is_valid may_be_batched
audit_lease_is_valid = lease_is_valid may_be_batched

unfoldable pub audit_lease_ready_locked : ℕ → Bool → Method AuditEvent (Option (Lease AuditEvent))
unfolding lease_ready_locked may_be_batched
audit_lease_ready_locked = lease_ready_locked may_be_batched

unfoldable pub audit_put : Owner → AuditEvent → ℕ → Method AuditEvent (Unit {0})
unfolding put may_be_batched
audit_put = put may_be_batched

unfoldable pub audit_lease_ready : Owner → Bool → ℕ → Method AuditEvent (Option (Lease AuditEvent))
unfolding lease_ready may_be_batched
audit_lease_ready = lease_ready may_be_batched

unfoldable pub audit_wait_for_lease : Owner → ℕ → Method AuditEvent (Option (Lease AuditEvent))
unfolding wait_for_lease may_be_batched
audit_wait_for_lease = wait_for_lease may_be_batched

unfoldable pub audit_acknowledge_committed : Owner → Lease AuditEvent → Method AuditEvent (Unit {0})
unfolding acknowledge_committed
audit_acknowledge_committed = acknowledge_committed

unfoldable pub audit_release_unwritten : Owner → Lease AuditEvent → Method AuditEvent (Unit {0})
unfolding release_unwritten
audit_release_unwritten = release_unwritten

unfoldable pub audit_mark_result_unknown : Owner → Lease AuditEvent → Method AuditEvent (Unit {0})
unfolding mark_result_unknown
audit_mark_result_unknown = mark_result_unknown

unfoldable pub audit_begin_close : Owner → Method AuditEvent (Unit {0})
unfolding begin_close
audit_begin_close = begin_close

-- a record that only the immediate path may write
unfoldable pub is_critical : AuditEvent → Bool
unfolding is_batchable
is_critical e = not (is_batchable e)

entries_batchable :
    (t : ℕ) (l : List (AuditEvent × ℕ))
    → All (IsEntry may_be_batched t) l
    → All (λ e. may_be_batched e ≡ true) (records_of l)
unfolding IsEntry
entries_batchable t [] a = tt
entries_batchable t ((r, at) ∷ l) (e, a) = (e.0, entries_batchable t l a)

-- Under a valid policy, after any calls, every event that is out on lease or pending is unpersisted
-- and of one of the batchable types: a safety event never waits in the queue.
pub safety_events_stay_out :
    (policy : Policy) (token : ℕ) (calls : List (Call AuditEvent))
    → policy_is_valid policy ≡ true
    → All
        (λ e. (is_draft e ≡ true) × (is_critical e ≡ false))
        (stored (run may_be_batched calls (start policy token)).queue)
unfolding stored is_critical may_be_batched
safety_events_stay_out policy token calls valid =
    All-weaken (records_of q.leased_entries ++ records_of q.pending) (
      All-append (λ e. may_be_batched e ≡ true) (records_of q.leased_entries) (records_of q.pending)
        (entries_batchable _ q.leased_entries inv.leased_may_enter)
        (entries_batchable _ q.pending inv.pending_may_enter))
  where
    q : Queue AuditEvent
    q = (run may_be_batched calls (start policy token)).queue

    inv :
        Inv may_be_batched
          (run may_be_batched calls (start policy token)).accepted
          (run may_be_batched calls (start policy token)).committed
          q
    inv = started may_be_batched policy token calls valid

    All-weaken :
        (l : List AuditEvent)
        → All (λ e. may_be_batched e ≡ true) l
        → All (λ e. (is_draft e ≡ true) × (is_critical e ≡ false)) l
    All-weaken [] a = tt
    All-weaken (e ∷ l) (h, a) = ((ground (arith, h), ground (arith, h)), All-weaken l a)
