-- ===== src/BatchQueue/Tests.antt =====
-- A queue of numbers, with batches of two and room for three.
use nonebot_plugin_moellmcha.Prelude.{
  ℕ, ◌≤◌, ◌≡◌, refl, none, Bool, true, false, List, [], ◌∷◌, ◌++◌, length, All,
}
use nonebot_plugin_moellmcha.BatchQueue.Queue.{
  result_unknown, Policy, policy_is_valid, Owner, Lease, outstanding_count,
}
use nonebot_plugin_moellmcha.BatchQueue.Trace.{
  Call, call_put, call_lease_ready, call_acknowledge, call_release, call_mark, call_close, World,
  stored, held, start, perform, run,
}
use nonebot_plugin_moellmcha.BatchQueue.Methods.{
  put, lease_ready, acknowledge_committed, mark_result_unknown,
}
use nonebot_plugin_moellmcha.BatchQueue.Delivery.{records_delivered_in_order, outstanding_bounded}
use nonebot_plugin_moellmcha.BatchQueue.Audit.{
  AuditEvent, is_draft, is_critical, may_be_batched, safety_events_stay_out,
}
use nonebot_plugin_moellmcha.BatchQueue.Unknown.{unknown_result_is_final, Frozen}

abbrev policy : Policy
policy = record { max_batch_size = 2; flush_interval = 1_000; max_outstanding_records = 3 }

abbrev owner : Owner
owner = record { pid = 7; loop = 1 }

abbrev any_record : ℕ → Bool
any_record r = true

abbrev first_lease : Lease ℕ
first_lease = record {
  sequence = 1;
  records = 10 ∷ 11 ∷ [];
  oldest_enqueued_at = 0;
  leased_at = 5;
  owner_token = 0;
}

-- Four records, of which one waits for room, and a batch that is acknowledged.
abbrev calls : List (Call ℕ)
calls =
    call_put owner 10 0
    ∷ call_put owner 11 1
    ∷ call_put owner 12 2
    ∷ call_put owner 13 3
    ∷ call_lease_ready owner false 5
    ∷ call_acknowledge owner first_lease
    ∷ call_put owner 13 6
    ∷ []

abbrev after_calls : World ℕ
after_calls = run any_record calls (start policy 0)

policy_valid : policy_is_valid policy ≡ true
unfolding policy_is_valid
policy_valid = refl

commits_first_batch : after_calls.committed ≡ 10 ∷ 11 ∷ []
unfolding run start perform put acknowledge_committed lease_ready
commits_first_batch = refl

keeps_the_others : stored after_calls.queue ≡ 12 ∷ 13 ∷ []
unfolding run start stored perform put acknowledge_committed lease_ready
keeps_the_others = refl

records_delivered_in_order_example :
    after_calls.accepted ≡ after_calls.committed ++ stored after_calls.queue
records_delivered_in_order_example =
    records_delivered_in_order any_record policy 0 calls policy_valid

outstanding_bounded_example :
    (outstanding_count after_calls.queue ≤ policy.max_outstanding_records)
    × (length (held after_calls.queue.lease) ≤ policy.max_batch_size)
outstanding_bounded_example = outstanding_bounded any_record policy 0 calls policy_valid

-- The same, up to a lease whose write has an unknown result.
abbrev doubtful : World ℕ
doubtful =
    run any_record
      (call_put owner 10 0
        ∷ call_put owner 11 1
        ∷ call_lease_ready owner false 5
        ∷ call_mark owner first_lease
        ∷ [])
      (start policy 0)

doubtful_unknown : doubtful.queue.state ≡ result_unknown
unfolding run start perform put mark_result_unknown lease_ready
doubtful_unknown = refl

unknown_result_is_final_example : Frozen any_record doubtful (
    run any_record
      (call_acknowledge owner first_lease ∷ call_release owner first_lease ∷ call_close owner ∷ [])
      doubtful)
unknown_result_is_final_example =
    unknown_result_is_final any_record
      (call_acknowledge owner first_lease ∷ call_release owner first_lease ∷ call_close owner ∷ [])
      doubtful doubtful_unknown

abbrev reloaded : AuditEvent
reloaded = record { event_id = none; event_type = "runtime_reload" }

abbrev denied : AuditEvent
denied = record { event_id = none; event_type = "permission_denied" }

safety_events_stay_out_example :
    All
      (λ e. (is_draft e ≡ true) × (is_critical e ≡ false))
      (stored
        (run may_be_batched
          (call_put owner reloaded 0 ∷ call_put owner denied 1 ∷ [])
          (start policy 0)).queue)
safety_events_stay_out_example =
    safety_events_stay_out policy 0 (call_put owner reloaded 0 ∷ call_put owner denied 1 ∷ [])
      policy_valid
