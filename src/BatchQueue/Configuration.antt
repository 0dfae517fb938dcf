-- ===== src/BatchQueue/Configuration.antt =====
-- The policy of a queue never changes.
use nonebot_plugin_moellmcha.Prelude.{
  ℕ, ◌≡◌, refl, ◌∙◌, arith, Bool, false, Option, none, some, List, [], ◌∷◌,
}
use nonebot_plugin_moellmcha.BatchQueue.Queue.{
  Outcome, return, wait, raise, Error, Owner, Lease, Queue, Method, bound, at_time, known, active,
  finish_close, start_closing,
}
use nonebot_plugin_moellmcha.BatchQueue.Methods.{
  unless_refused, unavailable_for_put, put, put_locked, put_if_room, enqueue, lease_ready,
  lease_and_finish, lease_ready_locked, then_finish, wait_for_lease, lease_or_wait, then_wait,
  close_or_wait, acknowledge_committed, drop_lease, release_unwritten, requeue, mark_result_unknown,
  become_unknown, begin_close, close_locked,
}
use nonebot_plugin_moellmcha.BatchQueue.Trace.{
  Call, call_put, call_lease_ready, call_wait_for_lease, call_acknowledge, call_release, call_mark,
  call_close, World, after_put, after_acknowledge, after, perform, run,
}

module _ {R : Type 0} where
  Keeps : {A : Type 0} → Method R A → Type 0
  Keeps m = (q : Queue R) → (m q).1.policy ≡ q.policy

  finish_close-policy : (q : Queue R) → (finish_close q).policy ≡ q.policy
  unfolding finish_close
  finish_close-policy q = ground arith

  bound-Keeps : {A : Type 0} (caller : Owner) (m : Method R A) → Keeps m → Keeps (bound caller m)
  unfolding Keeps bound
  bound-Keeps caller m k q = ground (arith, k (record q { owner = some caller }), k q)

  at_time-Keeps : {A : Type 0} (now : ℕ) (m : Method R A) → Keeps m → Keeps (at_time now m)
  unfolding Keeps at_time
  at_time-Keeps now m k q = ground (arith, k (record q { last_clock = some now }))

  known-Keeps : {A : Type 0} (m : Method R A) → Keeps m → Keeps (known m)
  unfolding Keeps known
  known-Keeps m k q = ground (arith, k q)

  active-Keeps : {A : Type 0} (lease : Lease R) (m : Method R A) → Keeps m → Keeps (active lease m)
  unfolding Keeps active
  active-Keeps lease m k q = ground (arith, k q)

  unless_refused-Keeps :
      {A : Type 0} (e : Option Error) (m : Method R A) → Keeps m → Keeps (unless_refused e m)
  unfolding Keeps unless_refused
  unless_refused-Keeps none m k q = k q
  unless_refused-Keeps (some e) m k q = refl

  drop_lease-policy : (q : Queue R) → (drop_lease q).1.policy ≡ q.policy
  unfolding drop_lease
  drop_lease-policy q = finish_close-policy (record q { lease = none; leased_entries = [] })

  close_locked-policy : (q : Queue R) → (close_locked q).1.policy ≡ q.policy
  unfolding close_locked
  close_locked-policy q = finish_close-policy (record q { state = start_closing q.state })

  requeue-policy : (q : Queue R) → (requeue q).1.policy ≡ q.policy
  unfolding requeue
  requeue-policy q = refl

  become_unknown-policy : (q : Queue R) → (become_unknown q).1.policy ≡ q.policy
  unfolding become_unknown
  become_unknown-policy q = refl

module _ {R : Type 0} (may_enter : R → Bool) where
  put_if_room-policy :
      (r : R) (now : ℕ) (q : Queue R) → (put_if_room may_enter r now q).1.policy ≡ q.policy
  unfolding put_if_room at_time enqueue
  put_if_room-policy r now q = ground arith

  put-policy :
      (caller : Owner) (r : R) (now : ℕ) (q : Queue R)
      → (put may_enter caller r now q).1.policy ≡ q.policy
  unfolding put put_locked Keeps
  put-policy caller r now q =
      let kept =
        bound-Keeps caller (put_locked may_enter r now)
          (λ q'.
            unless_refused-Keeps (unavailable_for_put q'.state) (put_if_room may_enter r now)
              (put_if_room-policy r now) q')
          q in
      ground (arith, kept)

  lease_ready_locked-policy :
      (now : ℕ) (force : Bool) (q : Queue R)
      → (lease_ready_locked may_enter now force q).1.policy ≡ q.policy
  unfolding lease_ready_locked
  lease_ready_locked-policy now force q = ground arith

  then_finish-policy :
      (o : Outcome (Option (Lease R)) × Queue R) → (then_finish may_enter o).1.policy ≡ o.1.policy
  unfolding then_finish
  then_finish-policy (return x, q) = finish_close-policy q
  then_finish-policy (wait, q) = refl
  then_finish-policy (raise e, q) = refl

  then_wait-policy :
      (o : Outcome (Option (Lease R)) × Queue R) → (then_wait may_enter o).1.policy ≡ o.1.policy
  unfolding then_wait close_or_wait
  then_wait-policy (return (some l), q) = refl
  then_wait-policy (return none, q) = finish_close-policy q
  then_wait-policy (wait, q) = refl
  then_wait-policy (raise e, q) = refl

  lease_ready-policy :
      (caller : Owner) (force : Bool) (now : ℕ) (q : Queue R)
      → (lease_ready may_enter caller force now q).1.policy ≡ q.policy
  unfolding lease_ready Keeps lease_and_finish
  lease_ready-policy caller force now q =
      bound-Keeps caller (known (at_time now (lease_and_finish may_enter now force)))
        (known-Keeps (at_time now (lease_and_finish may_enter now force)) (
          at_time-Keeps now (lease_and_finish may_enter now force) (λ q'.
            then_finish-policy (lease_ready_locked may_enter now force q')
            ∙ lease_ready_locked-policy now force q')))
        q

  wait_for_lease-policy :
      (caller : Owner) (now : ℕ) (q : Queue R)
      → (wait_for_lease may_enter caller now q).1.policy ≡ q.policy
  unfolding wait_for_lease Keeps lease_or_wait
  wait_for_lease-policy caller now q =
      bound-Keeps caller (known (at_time now (lease_or_wait may_enter now)))
        (known-Keeps (at_time now (lease_or_wait may_enter now)) (
          at_time-Keeps now (lease_or_wait may_enter now) (λ q'.
            then_wait-policy (lease_ready_locked may_enter now false q')
            ∙ lease_ready_locked-policy now false q')))
        q

  after_put-policy :
      (r : R) (w : World R) (o : Outcome (Unit {0}) × Queue R)
      → (after_put r w o).queue.policy ≡ o.1.policy
  unfolding after_put
  after_put-policy r w (return x, q) = refl
  after_put-policy r w (wait, q) = refl
  after_put-policy r w (raise e, q) = refl

  after_acknowledge-policy :
      (w : World R) (o : Outcome (Unit {0}) × Queue R)
      → (after_acknowledge w o).queue.policy ≡ o.1.policy
  unfolding after_acknowledge
  after_acknowledge-policy w (return x, q) = refl
  after_acknowledge-policy w (wait, q) = refl
  after_acknowledge-policy w (raise e, q) = refl

  perform-policy :
      (c : Call R) (w : World R) → (perform may_enter c w).queue.policy ≡ w.queue.policy
  unfolding perform after Keeps acknowledge_committed release_unwritten mark_result_unknown
      begin_close
  perform-policy (call_put caller r now) w =
      after_put-policy r w (put may_enter caller r now w.queue) ∙ put-policy caller r now w.queue
  perform-policy (call_lease_ready caller force now) w = lease_ready-policy caller force now w.queue
  perform-policy (call_wait_for_lease caller now) w = wait_for_lease-policy caller now w.queue
  perform-policy (call_acknowledge caller lease) w =
      after_acknowledge-policy w (acknowledge_committed caller lease w.queue)
      ∙ bound-Keeps caller (known (active lease drop_lease))
          (known-Keeps (active lease drop_lease) (active-Keeps lease drop_lease drop_lease-policy))
          w.queue
  perform-policy (call_release caller lease) w =
      bound-Keeps caller (known (active lease requeue))
        (known-Keeps (active lease requeue) (active-Keeps lease requeue requeue-policy)) w.queue
  perform-policy (call_mark caller lease) w =
      bound-Keeps caller (active lease become_unknown)
        (active-Keeps lease become_unknown become_unknown-policy) w.queue
  perform-policy (call_close caller) w =
      bound-Keeps caller (known close_locked) (known-Keeps close_locked close_locked-policy) w.queue

  pub run-policy :
      (calls : List (Call R)) (w : World R) → (run may_enter calls w).queue.policy ≡ w.queue.policy
  unfolding run
  run-policy [] w = refl
  run-policy (c ∷ cs) w = run-policy cs (perform may_enter c w) ∙ perform-policy c w
