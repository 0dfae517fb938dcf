-- ===== src/BatchQueue/Unknown.antt =====
-- A queue whose last write may or may not be durable.
use nonebot_plugin_moellmcha.Prelude.{
  ℕ, ◌≡◌, refl, ◌∙◌, inl, inr, arith, Bool, Option, some, List, [], ◌∷◌, Bool-cases,
}
use nonebot_plugin_moellmcha.BatchQueue.Queue.{
  result_unknown, Error, result_unknown_error, Outcome, return, wait, raise, Owner, Lease, Queue,
  Method, is_unknown, bound, at_time, known, active,
}
use nonebot_plugin_moellmcha.BatchQueue.Methods.{
  unavailable_for_put, unless_refused, put_if_room, put_locked, put, lease_and_finish, lease_ready,
  lease_or_wait, wait_for_lease, drop_lease, acknowledge_committed, requeue, release_unwritten,
  become_unknown, mark_result_unknown, close_locked, begin_close,
}
use nonebot_plugin_moellmcha.BatchQueue.Triples.{bound_triple, known_triple, active_triple}
use nonebot_plugin_moellmcha.BatchQueue.Trace.{
  Call, call_put, call_lease_ready, call_wait_for_lease, call_acknowledge, call_release, call_mark,
  call_close, World, after_put, after_acknowledge, after, perform, run,
}

module _ {R : Type 0} (may_enter : R → Bool) where
  -- Nothing of the queue or of the records moved.
  pub record Frozen (w v : World R) : Type 0 where
    pub unknown : v.queue.state ≡ result_unknown
    pub same_accepted : v.accepted ≡ w.accepted
    pub same_committed : v.committed ≡ w.committed
    pub same_pending : v.queue.pending ≡ w.queue.pending
    pub same_lease : v.queue.lease ≡ w.queue.lease

  unfoldable Still : World R → Queue R → Type 0
  Still w q = (q.state ≡ result_unknown) × (q.pending ≡ w.queue.pending) × (q.lease ≡ w.queue.lease)

  unfoldable StillResult : {A : Type 0} → World R → Outcome A × Queue R → Type 0
  StillResult w (o, q) = Still w q

  -- `put` and `acknowledge_committed` refuse
  unfoldable Refused : World R → Outcome (Unit {0}) × Queue R → Type 0
  Refused w (return x, q) = ⊥
  Refused w (wait, q) = ⊥
  Refused w (raise e, q) = Still w q

  known-still :
      {A : Type 0} (w : World R) (Q : Outcome A × Queue R → Type 0)
      → ((e : Error) (q : Queue R) → Still w q → Q (raise e, q))
      → (caller : Owner) (body : Method R A) → (q : Queue R) → Still w q
      → Q (bound caller (known body) q)
  unfolding Still is_unknown
  known-still w Q refused caller body q p =
      bound_triple (Still w) Q refused (λ o q' h. h) caller (known body)
        (known_triple (Still w) Q refused body (λ q' u h. ground (arith, u, h.0))) q p

  unless_refused-Still :
      (w : World R) (o : Option Error) (e : Error) (body : Method R (Unit {0})) (q : Queue R)
      → o ≡ some e
      → Still w q
      → Refused w (unless_refused o body q)
  unfolding unless_refused Refused
  unless_refused-Still w o e body q n h = rw n h

  put-Still :
      (w : World R) (caller : Owner) (r : R) (now : ℕ) (q : Queue R)
      → Still w q
      → Refused w (put may_enter caller r now q)
  unfolding put put_locked unavailable_for_put Refused Still
  put-Still w caller r now q p = elim (Bool-cases (may_enter r)) [
    | inr b ↦ rw b p
    | inl b ↦ rw b (
        bound_triple (Still w) (Refused w) (λ e q' h. h) (λ o q' h. h) caller
          (put_locked may_enter r now)
          (λ q' h.
            unless_refused-Still w (unavailable_for_put q'.state) result_unknown_error
              (put_if_room may_enter r now) q' (rw h.0 refl) h)
          q p)
  ]

  mark-Still :
      (w : World R) (caller : Owner) (lease : Lease R) (q : Queue R)
      → Still w q
      → StillResult w (mark_result_unknown caller lease q)
  unfolding mark_result_unknown become_unknown StillResult Still
  mark-Still w caller lease q p =
      bound_triple (Still w) (StillResult w) (λ e q' h. h) (λ o q' h. h) caller
        (active lease become_unknown)
        (active_triple (Still w) (StillResult w) (λ e q' h. h) lease become_unknown
          (λ l q' e h. (refl, h.1, h.2)))
        q p

  after-Frozen :
      {A : Type 0} (w : World R) (r : Outcome A × Queue R) → StillResult w r → Frozen w (after w r)
  unfolding after StillResult Still
  after-Frozen w (o, q) h = record {
    unknown = h.0;
    same_accepted = refl;
    same_committed = refl;
    same_pending = h.1;
    same_lease = h.2;
  }

  after_put-Frozen :
      (r : R) (w : World R) (o : Outcome (Unit {0}) × Queue R)
      → Refused w o
      → Frozen w (after_put r w o)
  unfolding after_put Refused Still
  after_put-Frozen r w (return x, q) h = elim h [ ]
  after_put-Frozen r w (wait, q) h = elim h [ ]
  after_put-Frozen r w (raise e, q) h = record {
    unknown = h.0;
    same_accepted = refl;
    same_committed = refl;
    same_pending = h.1;
    same_lease = h.2;
  }

  after_acknowledge-Frozen :
      (w : World R) (o : Outcome (Unit {0}) × Queue R)
      → Refused w o
      → Frozen w (after_acknowledge w o)
  unfolding after_acknowledge Refused Still
  after_acknowledge-Frozen w (return x, q) h = elim h [ ]
  after_acknowledge-Frozen w (wait, q) h = elim h [ ]
  after_acknowledge-Frozen w (raise e, q) h = record {
    unknown = h.0;
    same_accepted = refl;
    same_committed = refl;
    same_pending = h.1;
    same_lease = h.2;
  }

  perform-Frozen :
      (c : Call R) (w : World R) → w.queue.state ≡ result_unknown → Frozen w (perform may_enter c w)
  unfolding perform lease_ready wait_for_lease acknowledge_committed release_unwritten begin_close
      StillResult Refused Still
  perform-Frozen (call_put caller r now) w e =
      after_put-Frozen r w _ (put-Still w caller r now w.queue (e, refl, refl))
  perform-Frozen (call_lease_ready caller force now) w e =
      after-Frozen w (lease_ready may_enter caller force now w.queue) (
        known-still w (StillResult w) (λ e q h. h) caller
          (at_time now (lease_and_finish may_enter now force)) w.queue (e, refl, refl))
  perform-Frozen (call_wait_for_lease caller now) w e =
      after-Frozen w (wait_for_lease may_enter caller now w.queue) (
        known-still w (StillResult w) (λ e q h. h) caller
          (at_time now (lease_or_wait may_enter now)) w.queue (e, refl, refl))
  perform-Frozen (call_acknowledge caller lease) w e = after_acknowledge-Frozen w _ (
      known-still w (Refused w) (λ e q h. h) caller (active lease drop_lease) w.queue
        (e, refl, refl))
  perform-Frozen (call_release caller lease) w e =
      after-Frozen w (release_unwritten caller lease w.queue) (
        known-still w (StillResult w) (λ e q h. h) caller (active lease requeue) w.queue
          (e, refl, refl))
  perform-Frozen (call_mark caller lease) w e =
      after-Frozen w (mark_result_unknown caller lease w.queue)
        (mark-Still w caller lease w.queue (e, refl, refl))
  perform-Frozen (call_close caller) w e =
      after-Frozen w (begin_close caller w.queue)
        (known-still w (StillResult w) (λ e q h. h) caller close_locked w.queue (e, refl, refl))

  -- Once the result of a write is unknown, no calls take a record in, acknowledge one, give out the
  -- lease's records again or leave the state: everything stays as it is.
  pub unknown_result_is_final :
      (calls : List (Call R)) (w : World R)
      → w.queue.state ≡ result_unknown
      → Frozen w (run may_enter calls w)
  unfolding run
  unknown_result_is_final [] w e = record {
    unknown = e;
    same_accepted = refl;
    same_committed = refl;
    same_pending = refl;
    same_lease = refl;
  }
  unknown_result_is_final (c ∷ cs) w e =
      let once = perform-Frozen c w e in
      let rest = unknown_result_is_final cs (perform may_enter c w) once.unknown in
      record {
        unknown = rest.unknown;
        same_accepted = rest.same_accepted ∙ once.same_accepted;
        same_committed = rest.same_committed ∙ once.same_committed;
        same_pending = rest.same_pending ∙ once.same_pending;
        same_lease = rest.same_lease ∙ once.same_lease;
      }
