-- ===== src/BatchQueue/Bodies.antt =====
-- The bodies of the methods keep the invariant.
use nonebot_plugin_moellmcha.Prelude.{
  ℕ, ◌+◌, ◌<◌, ◌≡◌, refl, sym, ◌∙◌, ap, subst, inl, inr, arith, Bool, true, false, Option, none,
  some, List, [], ◌∷◌, ◌++◌, leb, length, take, drop, length-append, length-take, length-drop,
  take-append-drop, All-append, append_assoc, All-take, All-drop, Bool-cases, Option-cases,
}
use nonebot_plugin_moellmcha.BatchQueue.Queue.{
  State, open_, closing, closed, result_unknown, Error, Outcome, return, wait, raise,
  policy_is_valid, Owner, Lease, Queue, outstanding_count, known, is_ready, has_pending, has_lease,
  records_of, active,
}
use nonebot_plugin_moellmcha.BatchQueue.Methods.{
  unavailable_for_put, unless_refused, put_if_room, next_lease, lease_ready_locked, enqueue,
  put_locked, put, drop_lease, acknowledge_committed, requeue,
}
use nonebot_plugin_moellmcha.BatchQueue.Triples.{
  clock_of, bound_triple, at_time_triple, known_triple, active_triple,
}
use nonebot_plugin_moellmcha.BatchQueue.Trace.{held, stored}
use nonebot_plugin_moellmcha.BatchQueue.Invariant.{
  IsEntry, IsHeld, Inv, outstanding_count-length, owned-Inv, timed-Inv, finish_close-Inv,
  next_lease_valid,
}

module _ {R : Type 0} (may_enter : R → Bool) where
  -- a method that takes no record in and acknowledges none
  unfoldable pub Kept : {A : Type 0} → List R → List R → Outcome A × Queue R → Type 0
  Kept a c (o, q) = Inv may_enter a c q

  pub map-append : (l m : List (R × ℕ)) → records_of (l ++ m) ≡ records_of l ++ records_of m
  map-append [] m = refl
  map-append (e ∷ l) m = ap (λ r. e.0 ∷ r) (map-append l m)

  records_of-take-drop :
      (n : ℕ) (l : List (R × ℕ)) → records_of (take n l) ++ records_of (drop n l) ≡ records_of l
  records_of-take-drop n l =
      sym (map-append (take n l) (drop n l)) ∙ ap records_of (take-append-drop n l)

  pub leased-Inv :
      (a c : List R) (now : ℕ) (q : Queue R)
      → q.last_clock ≡ some now
      → has_pending q.pending ≡ true
      → has_lease q.lease ≡ false
      → Inv may_enter a c q
      → Inv may_enter a c (record q {
        pending = drop q.policy.max_batch_size q.pending;
        next_sequence = q.next_sequence + 1;
        leased_entries = take q.policy.max_batch_size q.pending;
        lease = some (next_lease may_enter now q);
      })
  unfolding stored IsHeld next_lease has_pending has_lease policy_is_valid
  leased-Inv a c now q e h n p =
      let m = q.policy.max_batch_size in
      let entries = take m q.pending in
      let none_leased = no_lease q.lease n p.is_held in
      record {
        policy_valid = p.policy_valid;
        in_order =
            p.in_order ∙ ap (λ l. c ++ l) (rw none_leased (sym (records_of-take-drop m q.pending)));
        is_held = (
          refl,
          ground (arith, h, p.policy_valid, length-take m q.pending),
          ground (arith, p.policy_valid, length-take m q.pending),
        );
        leased_may_enter =
            All-take (IsEntry may_enter (clock_of q.last_clock)) m q.pending p.pending_may_enter;
        pending_may_enter =
            All-drop (IsEntry may_enter (clock_of q.last_clock)) m q.pending p.pending_may_enter;
        within_bound =
            ground (arith, p.within_bound, length-take m q.pending, length-drop m q.pending);
        batch_within = ground (arith, length-take m q.pending);
        sequence_positive = omega arith;
        drained = λ s. ground (arith, h, p.drained s);
      }
    where
      no_lease :
          (o : Option (Lease R))
          → has_lease o ≡ false
          → IsHeld may_enter q.leased_entries o
          → q.leased_entries ≡ []
      no_lease none n h = h
      no_lease (some l) n h = ground arith

  pub lease_ready_locked-Kept :
      (a c : List R) (now : ℕ) (force : Bool) (q : Queue R)
      → q.last_clock ≡ some now
      → Inv may_enter a c q
      → Kept a c (lease_ready_locked may_enter now force q)
  unfolding lease_ready_locked Kept is_ready
  lease_ready_locked-Kept a c now force q e p = elim (Bool-cases (is_ready now force q)) [
    | inl b ↦
        let h : has_pending q.pending ≡ true = ground (arith, b) in
        let n : has_lease q.lease ≡ false = ground (arith, b) in
        rw (b, next_lease_valid may_enter a c now q e p h) (leased-Inv a c now q e h n p)
    | inr b ↦ rw b p
  ]

  pub requeue-Inv : (a c : List R) (q : Queue R) → Inv may_enter a c q → Kept a c (requeue q)
  unfolding requeue Kept stored IsHeld
  requeue-Inv a c q p = record {
    policy_valid = p.policy_valid;
    in_order = p.in_order ∙ ap (λ l. c ++ l) (sym (map-append q.leased_entries q.pending));
    is_held = refl;
    leased_may_enter = tt;
    pending_may_enter =
        All-append (IsEntry may_enter (clock_of q.last_clock)) q.leased_entries q.pending
          p.leased_may_enter p.pending_may_enter;
    within_bound = ground (arith, p.within_bound, length-append q.leased_entries q.pending);
    batch_within = ground arith;
    sequence_positive = p.sequence_positive;
    drained = λ s. map-append q.leased_entries q.pending ∙ p.drained s;
  }

  empty_right : (l m : List R) → l ++ m ≡ [] → m ≡ []
  empty_right [] m e = e
  empty_right (x ∷ l) m e = ground (arith, e)

  pub drop_lease-Inv :
      (a c : List R) (lease : Lease R) (q : Queue R)
      → q.lease ≡ some lease
      → Inv may_enter a c q
      → Kept a (c ++ lease.records) (drop_lease q)
  unfolding drop_lease Kept stored IsHeld
  drop_lease-Inv a c lease q e p = finish_close-Inv may_enter a (c ++ lease.records) _ dropped
    where
      held_eq : lease.records ≡ records_of q.leased_entries
      held_eq = (subst (IsHeld may_enter q.leased_entries) e p.is_held).0

      dropped :
          Inv may_enter a (c ++ lease.records) (record q { lease = none; leased_entries = [] })
      dropped = record {
        policy_valid = p.policy_valid;
        in_order =
            p.in_order
            ∙ rw held_eq
                (sym (append_assoc c (records_of q.leased_entries) (records_of q.pending)));
        is_held = refl;
        leased_may_enter = tt;
        pending_may_enter = p.pending_may_enter;
        within_bound = ground (arith, p.within_bound);
        batch_within = ground arith;
        sequence_positive = p.sequence_positive;
        drained =
            λ s. empty_right (records_of q.leased_entries) (records_of q.pending) (p.drained s);
      }

  available : (s : State) → unavailable_for_put s ≡ none → s ≡ open_
  unfolding unavailable_for_put
  available open_ e = refl
  available closing e = ground (arith, e)
  available closed e = ground (arith, e)
  available result_unknown e = ground (arith, e)

  enqueue-Inv :
      (a c : List R) (r : R) (now : ℕ) (q : Queue R)
      → may_enter r ≡ true
      → q.state ≡ open_
      → length q.leased_entries + length q.pending < q.policy.max_outstanding_records
      → q.last_clock ≡ some now
      → Inv may_enter a c q
      → Inv may_enter (a ++ r ∷ []) c (record q { pending = q.pending ++ (r, now) ∷ [] })
  unfolding stored IsEntry clock_of
  enqueue-Inv a c r now q may o room e p = record {
    policy_valid = p.policy_valid;
    in_order =
        ap (λ l. l ++ r ∷ []) p.in_order
        ∙ append_assoc c (stored q) (r ∷ [])
        ∙ ap (λ l. c ++ l)
            (append_assoc (records_of q.leased_entries) (records_of q.pending) (r ∷ [])
              ∙ ap (λ l. records_of q.leased_entries ++ l)
                  (sym (map-append q.pending ((r, now) ∷ []))));
    is_held = p.is_held;
    leased_may_enter = p.leased_may_enter;
    pending_may_enter =
        All-append (IsEntry may_enter (clock_of q.last_clock)) q.pending ((r, now) ∷ [])
          p.pending_may_enter ((may, rw e (omega arith)), tt);
    within_bound = ground (arith, room, length-append q.pending ((r, now) ∷ []));
    batch_within = p.batch_within;
    sequence_positive = p.sequence_positive;
    drained = λ s. ground (arith, s, o);
  }

  unfoldable pub Entered : List R → List R → R → Outcome (Unit {0}) × Queue R → Type 0
  Entered a c r (return x, q) = Inv may_enter (a ++ r ∷ []) c q
  Entered a c r (wait, q) = Inv may_enter a c q
  Entered a c r (raise e, q) = Inv may_enter a c q

  put_if_room-Entered :
      (a c : List R) (r : R) (now : ℕ) (q : Queue R)
      → may_enter r ≡ true
      → q.state ≡ open_
      → Inv may_enter a c q
      → Entered a c r (put_if_room may_enter r now q)
  unfolding put_if_room Entered enqueue outstanding_count
  put_if_room-Entered a c r now q may o p =
      elim (Bool-cases (leb q.policy.max_outstanding_records (outstanding_count q))) [
        | inl full ↦ rw full p
        | inr room ↦ rw room (
            at_time_triple
              (λ q'.
                Inv may_enter a c q'
                × (q'.state ≡ open_)
                × (leb q'.policy.max_outstanding_records (outstanding_count q') ≡ false))
              (Entered a c r) (λ e q' h. h.0)
              (λ t q' h m. (timed-Inv may_enter a c t q' h m.0, m.1, m.2)) now
              (enqueue may_enter r now)
              (λ q' e m.
                enqueue-Inv a c r now q' may m.1
                  (ground (arith, m.2, outstanding_count-length may_enter q' m.0.is_held)) e m.0)
              q (p, o, room))
      ]

  put_locked-Entered :
      (a c : List R) (r : R) (now : ℕ) (q : Queue R)
      → may_enter r ≡ true
      → Inv may_enter a c q
      → Entered a c r (put_locked may_enter r now q)
  unfolding put_locked Entered unless_refused
  put_locked-Entered a c r now q may p = elim (Option-cases (unavailable_for_put q.state)) [
    | inr (e, b) ↦ rw b p
    | inl b ↦ rw b (put_if_room-Entered a c r now q may (available q.state b) p)
  ]

  pub put-Entered :
      (a c : List R) (caller : Owner) (r : R) (now : ℕ) (q : Queue R)
      → Inv may_enter a c q
      → Entered a c r (put may_enter caller r now q)
  unfolding put Entered
  put-Entered a c caller r now q p = elim (Bool-cases (may_enter r)) [
    | inr b ↦ rw b p
    | inl b ↦ rw b (
        bound_triple (Inv may_enter a c) (Entered a c r) (λ e q' h. h) (owned-Inv may_enter a c)
          caller (put_locked may_enter r now) (λ q' h. put_locked-Entered a c r now q' b h) q p)
  ]

  unfoldable pub Committed :
      List R → List R → Option (Lease R) → Outcome (Unit {0}) × Queue R → Type 0
  unfolding held
  Committed a c o (return x, q) = Inv may_enter a (c ++ held o) q
  Committed a c o (wait, q) = Inv may_enter a c q
  Committed a c o (raise e, q) = Inv may_enter a c q

  drop_lease-Committed :
      (a c : List R) (lease : Lease R) (q : Queue R)
      → q.lease ≡ some lease
      → Inv may_enter a c q
      → Committed a c (some lease) (drop_lease q)
  unfolding Committed drop_lease Kept held
  drop_lease-Committed a c lease q e p = drop_lease-Inv a c lease q e p

  pub acknowledge-Committed :
      (a c : List R) (caller : Owner) (lease : Lease R) (q : Queue R)
      → Inv may_enter a c q
      → Committed a c q.lease (acknowledge_committed caller lease q)
  unfolding acknowledge_committed Committed
  acknowledge-Committed a c caller lease q p =
      bound_triple P Q refused (λ o q' h. (owned-Inv may_enter a c o q' h.0, h.1)) caller
        (known (active lease drop_lease))
        (known_triple P Q refused (active lease drop_lease) (λ q' u h.
          active_triple P Q refused lease drop_lease
            (λ current q'' e m.
              subst (λ o. Committed a c o (drop_lease q'')) (sym e ∙ m.1)
                (drop_lease-Committed a c current q'' e m.0))
            q' h))
        q (p, refl)
    where
      P : Queue R → Type 0
      P q' = Inv may_enter a c q' × (q'.lease ≡ q.lease)

      Q : Outcome (Unit {0}) × Queue R → Type 0
      Q = Committed a c q.lease

      refused : (e : Error) (q' : Queue R) → P q' → Q (raise e, q')
      refused e q' h = h.0
