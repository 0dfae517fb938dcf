-- ===== src/BatchQueue/Preserved.antt =====
-- Every method keeps the invariant, and so does every sequence of calls.
use nonebot_plugin_moellmcha.Prelude.{ℕ, ◌≡◌, arith, Bool, false, Option, none, some, List, [], ◌∷◌}
use nonebot_plugin_moellmcha.BatchQueue.Queue.{
  State, open_, closing, closed, result_unknown, Outcome, return, wait, raise, Owner, Lease, Queue,
  Method, start_closing, bound, at_time, known, active,
}
use nonebot_plugin_moellmcha.BatchQueue.Methods.{
  then_finish, lease_and_finish, lease_ready, close_or_wait, then_wait, lease_or_wait,
  wait_for_lease, requeue, release_unwritten, become_unknown, mark_result_unknown, close_locked,
  begin_close,
}
use nonebot_plugin_moellmcha.BatchQueue.Triples.{
  bound_triple, at_time_triple, known_triple, active_triple,
}
use nonebot_plugin_moellmcha.BatchQueue.Trace.{
  stored, Call, call_put, call_lease_ready, call_wait_for_lease, call_acknowledge, call_release,
  call_mark, call_close, World, after_put, after_acknowledge, after, perform, run,
}
use nonebot_plugin_moellmcha.BatchQueue.Invariant.{Inv, owned-Inv, timed-Inv, finish_close-Inv}
use nonebot_plugin_moellmcha.BatchQueue.Bodies.{
  Kept, lease_ready_locked-Kept, requeue-Inv, Entered, put-Entered, Committed,
  acknowledge-Committed,
}

module _ {R : Type 0} (may_enter : R → Bool) where
  abbrev pub WorldInv : World R → Type 0
  WorldInv w = Inv may_enter w.accepted w.committed w.queue

  -- a call that takes nothing in and acknowledges nothing, as an owner's
  owned-Kept :
      {A : Type 0} (a c : List R) (caller : Owner) (body : Method R A)
      → ((q : Queue R) → Inv may_enter a c q → Kept may_enter a c (body q))
      → (q : Queue R) → Inv may_enter a c q
      → Kept may_enter a c (bound caller body q)
  unfolding Kept
  owned-Kept a c caller body run q p =
      bound_triple (Inv may_enter a c) (Kept may_enter a c) (λ e q' h. h) (owned-Inv may_enter a c)
        caller body run q p

  known-Kept :
      {A : Type 0} (a c : List R) (body : Method R A)
      → ((q : Queue R) → Inv may_enter a c q → Kept may_enter a c (body q))
      → (q : Queue R) → Inv may_enter a c q
      → Kept may_enter a c (known body q)
  unfolding Kept
  known-Kept a c body run q p =
      known_triple (Inv may_enter a c) (Kept may_enter a c) (λ e q' h. h) body (λ q' u h. run q' h)
        q p

  timed-Kept :
      {A : Type 0} (a c : List R) (now : ℕ) (body : Method R A)
      → ((q : Queue R)
          → q.last_clock ≡ some now
          → Inv may_enter a c q
          → Kept may_enter a c (body q))
      → (q : Queue R) → Inv may_enter a c q
      → Kept may_enter a c (at_time now body q)
  unfolding Kept
  timed-Kept a c now body run q p =
      at_time_triple (Inv may_enter a c) (Kept may_enter a c) (λ e q' h. h)
        (timed-Inv may_enter a c) now body run q p

  active-Kept :
      {A : Type 0} (a c : List R) (lease : Lease R) (body : Method R A)
      → ((current : Lease R) (q : Queue R)
          → q.lease ≡ some current
          → Inv may_enter a c q
          → Kept may_enter a c (body q))
      → (q : Queue R) → Inv may_enter a c q
      → Kept may_enter a c (active lease body q)
  unfolding Kept
  active-Kept a c lease body run q p =
      active_triple (Inv may_enter a c) (Kept may_enter a c) (λ e q' h. h) lease body run q p

  then_finish-Kept :
      (a c : List R) (r : Outcome (Option (Lease R)) × Queue R)
      → Kept may_enter a c r
      → Kept may_enter a c (then_finish may_enter r)
  unfolding then_finish Kept
  then_finish-Kept a c (return l, q) p = finish_close-Inv may_enter a c q p
  then_finish-Kept a c (wait, q) p = p
  then_finish-Kept a c (raise e, q) p = p

  then_wait-Kept :
      (a c : List R) (r : Outcome (Option (Lease R)) × Queue R)
      → Kept may_enter a c r
      → Kept may_enter a c (then_wait may_enter r)
  unfolding then_wait close_or_wait Kept
  then_wait-Kept a c (return (some l), q) p = p
  then_wait-Kept a c (return none, q) p = finish_close-Inv may_enter a c q p
  then_wait-Kept a c (wait, q) p = p
  then_wait-Kept a c (raise e, q) p = p

  not_started : (s : State) → start_closing s ≡ closed → s ≡ closed
  unfolding start_closing
  not_started open_ e = ground (arith, e)
  not_started closing e = e
  not_started closed e = e
  not_started result_unknown e = e

  marked-Inv :
      (a c : List R) (s : State) (q : Queue R)
      → (s ≡ closed → stored q ≡ [])
      → Inv may_enter a c q
      → Inv may_enter a c (record q { state = s })
  unfolding stored
  marked-Inv a c s q empty p = record {
    policy_valid = p.policy_valid;
    in_order = p.in_order;
    is_held = p.is_held;
    leased_may_enter = p.leased_may_enter;
    pending_may_enter = p.pending_may_enter;
    within_bound = p.within_bound;
    batch_within = p.batch_within;
    sequence_positive = p.sequence_positive;
    drained = empty;
  }

  lease_ready-Kept :
      (a c : List R) (caller : Owner) (force : Bool) (now : ℕ) (q : Queue R)
      → Inv may_enter a c q
      → Kept may_enter a c (lease_ready may_enter caller force now q)
  unfolding lease_ready lease_and_finish
  lease_ready-Kept a c caller force now q p =
      owned-Kept a c caller _
        (known-Kept a c _ (
          timed-Kept a c now (lease_and_finish may_enter now force) (λ q' e h.
            then_finish-Kept a c _ (lease_ready_locked-Kept may_enter a c now force q' e h))))
        q p

  wait_for_lease-Kept :
      (a c : List R) (caller : Owner) (now : ℕ) (q : Queue R)
      → Inv may_enter a c q
      → Kept may_enter a c (wait_for_lease may_enter caller now q)
  unfolding wait_for_lease lease_or_wait
  wait_for_lease-Kept a c caller now q p =
      owned-Kept a c caller _
        (known-Kept a c _ (
          timed-Kept a c now (lease_or_wait may_enter now) (λ q' e h.
            then_wait-Kept a c _ (lease_ready_locked-Kept may_enter a c now false q' e h))))
        q p

  release-Kept :
      (a c : List R) (caller : Owner) (lease : Lease R) (q : Queue R)
      → Inv may_enter a c q
      → Kept may_enter a c (release_unwritten caller lease q)
  unfolding release_unwritten
  release-Kept a c caller lease q p =
      owned-Kept a c caller _
        (known-Kept a c _
          (active-Kept a c lease requeue (λ l q' e h. requeue-Inv may_enter a c q' h)))
        q p

  mark-Kept :
      (a c : List R) (caller : Owner) (lease : Lease R) (q : Queue R)
      → Inv may_enter a c q
      → Kept may_enter a c (mark_result_unknown caller lease q)
  unfolding mark_result_unknown become_unknown Kept
  mark-Kept a c caller lease q p =
      owned-Kept a c caller (active lease become_unknown)
        (active-Kept a c lease become_unknown
          (λ l q' e h. marked-Inv a c result_unknown q' (λ s. ground (arith, s)) h))
        q p

  close-Kept :
      (a c : List R) (caller : Owner) (q : Queue R)
      → Inv may_enter a c q
      → Kept may_enter a c (begin_close caller q)
  unfolding begin_close close_locked Kept
  close-Kept a c caller q p =
      owned-Kept a c caller (known close_locked)
        (known-Kept a c close_locked (λ q' h.
          finish_close-Inv may_enter a c _ (
            marked-Inv a c (start_closing q'.state) q' (λ s. h.drained (not_started q'.state s))
              h)))
        q p

  after-Inv :
      {A : Type 0} (w : World R) (r : Outcome A × Queue R)
      → Kept may_enter w.accepted w.committed r
      → WorldInv (after w r)
  unfolding after Kept
  after-Inv w (o, q) p = p

  after_put-Inv :
      (r : R) (w : World R) (o : Outcome (Unit {0}) × Queue R)
      → Entered may_enter w.accepted w.committed r o
      → WorldInv (after_put r w o)
  unfolding after_put Entered
  after_put-Inv r w (return x, q) p = p
  after_put-Inv r w (wait, q) p = p
  after_put-Inv r w (raise e, q) p = p

  after_acknowledge-Inv :
      (w : World R) (o : Outcome (Unit {0}) × Queue R)
      → Committed may_enter w.accepted w.committed w.queue.lease o
      → WorldInv (after_acknowledge w o)
  unfolding after_acknowledge Committed
  after_acknowledge-Inv w (return x, q) p = p
  after_acknowledge-Inv w (wait, q) p = p
  after_acknowledge-Inv w (raise e, q) p = p

  perform-Inv : (call : Call R) (w : World R) → WorldInv w → WorldInv (perform may_enter call w)
  unfolding perform
  perform-Inv (call_put caller r now) w p =
      after_put-Inv r w _ (put-Entered may_enter _ _ caller r now w.queue p)
  perform-Inv (call_lease_ready caller force now) w p =
      after-Inv w _ (lease_ready-Kept _ _ caller force now w.queue p)
  perform-Inv (call_wait_for_lease caller now) w p =
      after-Inv w _ (wait_for_lease-Kept _ _ caller now w.queue p)
  perform-Inv (call_acknowledge caller lease) w p =
      after_acknowledge-Inv w _ (acknowledge-Committed may_enter _ _ caller lease w.queue p)
  perform-Inv (call_release caller lease) w p =
      after-Inv w _ (release-Kept _ _ caller lease w.queue p)
  perform-Inv (call_mark caller lease) w p = after-Inv w _ (mark-Kept _ _ caller lease w.queue p)
  perform-Inv (call_close caller) w p = after-Inv w _ (close-Kept _ _ caller w.queue p)

  pub run-Inv :
      (calls : List (Call R)) (w : World R) → WorldInv w → WorldInv (run may_enter calls w)
  unfolding run
  run-Inv [] w p = p
  run-Inv (c ∷ cs) w p = run-Inv cs (perform may_enter c w) (perform-Inv c w p)
