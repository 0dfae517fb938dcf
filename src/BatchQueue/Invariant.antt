-- ===== src/BatchQueue/Invariant.antt =====
-- What holds of a queue between its methods, for any clients: the records in it are those accepted
-- and not committed, in their order, within the policy's bounds.
use nonebot_plugin_moellmcha.Prelude.{
  ℕ, suc, ◌+◌, ◌≤◌, ◌<◌, ◌≡◌, refl, ap, subst, inl, inr, arith, Bool, true, not, ◌&&◌, Option, none,
  some, List, [], ◌∷◌, ◌++◌, length, take, length-take, All, All-take, Bool-cases, Option-cases,
}
use nonebot_plugin_moellmcha.BatchQueue.Queue.{
  closed, Policy, max_batch, policy_is_valid, Owner, Lease, Queue, is_closing, init,
  outstanding_count, has_pending, has_lease, oldest, records_of, finish_close,
}
use nonebot_plugin_moellmcha.BatchQueue.Methods.{all_enter, lease_is_valid, next_lease}
use nonebot_plugin_moellmcha.BatchQueue.Triples.{clock_of}
use nonebot_plugin_moellmcha.BatchQueue.Trace.{stored}

module _ {R : Type 0} (may_enter : R → Bool) where
  -- an entry that a lease may hold at time `t`
  unfoldable pub IsEntry : ℕ → R × ℕ → Type 0
  IsEntry t (r, at) = (may_enter r ≡ true) × (at ≤ t)

  -- what a lease and the entries behind it have in common
  unfoldable pub IsHeld : List (R × ℕ) → Option (Lease R) → Type 0
  IsHeld entries none = entries ≡ []
  IsHeld entries (some lease) =
      (lease.records ≡ records_of entries) × (0 < length entries) × (length entries ≤ max_batch)

  -- The queue `q` after `accepted` went in and `committed` were acknowledged.
  pub record Inv (accepted committed : List R) (q : Queue R) : Type 0 where
    pub policy_valid : policy_is_valid q.policy ≡ true
    pub in_order : accepted ≡ committed ++ stored q
    pub is_held : IsHeld q.leased_entries q.lease
    pub leased_may_enter : All (IsEntry (clock_of q.last_clock)) q.leased_entries
    pub pending_may_enter : All (IsEntry (clock_of q.last_clock)) q.pending
    pub within_bound : length q.leased_entries + length q.pending ≤ q.policy.max_outstanding_records
    pub batch_within : length q.leased_entries ≤ q.policy.max_batch_size
    pub sequence_positive : 0 < q.next_sequence
    pub drained : q.state ≡ closed → stored q ≡ []

  pub init-Inv :
      (policy : Policy) (token : ℕ) → policy_is_valid policy ≡ true → Inv [] [] (init policy token)
  unfolding init stored IsHeld
  init-Inv policy token valid = record {
    policy_valid = valid;
    in_order = refl;
    is_held = refl;
    leased_may_enter = tt;
    pending_may_enter = tt;
    within_bound = ground arith;
    batch_within = ground arith;
    sequence_positive = ground arith;
    drained = λ e. refl;
  }

  pub length-records_of : (l : List (R × ℕ)) → length (records_of l) ≡ length l
  length-records_of [] = refl
  length-records_of (e ∷ l) = ap suc (length-records_of l)

  pub outstanding_count-length :
      (q : Queue R)
      → IsHeld q.leased_entries q.lease
      → outstanding_count q ≡ length q.leased_entries + length q.pending
  unfolding outstanding_count IsHeld
  outstanding_count-length q h = elim (Option-cases q.lease) [
    | inl e ↦ rw e (ground (arith, subst (IsHeld q.leased_entries) e h))
    | inr (lease, e) ↦
        rw e
          (ground (arith, subst (IsHeld q.leased_entries) e h, length-records_of q.leased_entries))
  ]

  pub owned-Inv :
      (a c : List R) (o : Owner) (q : Queue R) → Inv a c q → Inv a c (record q { owner = some o })
  unfolding stored
  owned-Inv a c o q p = record {
    policy_valid = p.policy_valid;
    in_order = p.in_order;
    is_held = p.is_held;
    leased_may_enter = p.leased_may_enter;
    pending_may_enter = p.pending_may_enter;
    within_bound = p.within_bound;
    batch_within = p.batch_within;
    sequence_positive = p.sequence_positive;
    drained = p.drained;
  }

  All-later : (s t : ℕ) → s ≤ t → (l : List (R × ℕ)) → All (IsEntry s) l → All (IsEntry t) l
  unfolding IsEntry
  All-later s t h [] a = tt
  All-later s t h ((r, at) ∷ l) (e, a) = (ground (arith, e), All-later s t h l a)

  pub timed-Inv :
      (a c : List R) (now : ℕ) (q : Queue R)
      → clock_of q.last_clock ≤ now
      → Inv a c q
      → Inv a c (record q { last_clock = some now })
  unfolding stored clock_of
  timed-Inv a c now q h p = record {
    policy_valid = p.policy_valid;
    in_order = p.in_order;
    is_held = p.is_held;
    leased_may_enter = All-later _ now h q.leased_entries p.leased_may_enter;
    pending_may_enter = All-later _ now h q.pending p.pending_may_enter;
    within_bound = p.within_bound;
    batch_within = p.batch_within;
    sequence_positive = p.sequence_positive;
    drained = p.drained;
  }

  pub stored_empty :
      (q : Queue R)
      → (not (has_pending q.pending) && not (has_lease q.lease)) ≡ true
      → IsHeld q.leased_entries q.lease
      → stored q ≡ []
  unfolding has_pending has_lease IsHeld stored
  stored_empty q e h = elim (Option-cases q.lease) [
    | inl n ↦ ground (arith, e, subst (IsHeld q.leased_entries) n h)
    | inr (l, n) ↦ ground (arith, e, n)
  ]

  pub finish_close-Inv : (a c : List R) (q : Queue R) → Inv a c q → Inv a c (finish_close q)
  unfolding finish_close IsHeld stored
  finish_close-Inv a c q p =
      elim (Bool-cases
        (is_closing q.state && not (has_pending q.pending) && not (has_lease q.lease))) [
          | inl b ↦ rw b (record {
            policy_valid = p.policy_valid;
            in_order = p.in_order;
            is_held = p.is_held;
            leased_may_enter = p.leased_may_enter;
            pending_may_enter = p.pending_may_enter;
            within_bound = p.within_bound;
            batch_within = p.batch_within;
            sequence_positive = p.sequence_positive;
            drained = λ e. stored_empty q (ground (arith, b)) p.is_held;
          })
          | inr b ↦ rw b p
        ]

  all_enter-records_of :
      (t : ℕ) (l : List (R × ℕ)) → All (IsEntry t) l → all_enter may_enter (records_of l) ≡ true
  unfolding all_enter IsEntry
  all_enter-records_of t [] a = refl
  all_enter-records_of t ((r, at) ∷ l) (e, a) = ground (arith, e, all_enter-records_of t l a)

  oldest-le : (t : ℕ) (l : List (R × ℕ)) → All (IsEntry t) l → oldest l ≤ t
  unfolding oldest IsEntry
  oldest-le t [] a = ground arith
  oldest-le t ((r, at) ∷ l) (e, a) = e.1

  pub next_lease_valid :
      (a c : List R) (now : ℕ) (q : Queue R)
      → q.last_clock ≡ some now
      → Inv a c q
      → has_pending q.pending ≡ true
      → lease_is_valid may_enter (next_lease may_enter now q) ≡ true
  unfolding lease_is_valid next_lease has_pending policy_is_valid clock_of
  next_lease_valid a c now q e p h =
      let entries = take q.policy.max_batch_size q.pending in
      let may =
        All-take (IsEntry (clock_of q.last_clock)) q.policy.max_batch_size q.pending
          p.pending_may_enter in
      ground (
        arith,
        h,
        e,
        p.policy_valid,
        p.sequence_positive,
        length-take q.policy.max_batch_size q.pending,
        length-records_of entries,
        all_enter-records_of _ entries may,
        oldest-le _ entries may,
      )
