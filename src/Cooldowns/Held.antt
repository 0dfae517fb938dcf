-- ===== src/Cooldowns/Held.antt =====
-- A granted claim is held through the calls that leave it alone.
use nonebot_plugin_moellmcha.Prelude.{
  ℕ, ◌+◌, ◌*◌, ◌<◌, ◌≡◌, ◌≢◌, inl, inr, sym, subst, arith, true, ap, Option, none, some, List, [],
  ◌∷◌, ◌++◌, String, All, ltb, lookup, insert, pop, lookup-insert, lookup-pop, lookup-append_end,
  Bool-cases,
}
use nonebot_plugin_moellmcha.Cooldowns.Claims.{Lease, is_user_id, new_token}
use nonebot_plugin_moellmcha.Cooldowns.Memory.{
  Stamp, at, corrupt, Owner, Store, is_stamp, same_owner, is_owner, prune_owners, grant,
  claim_after, claim_stamped, claim, release, reset_user,
}
use nonebot_plugin_moellmcha.Cooldowns.Calls.{
  Call, call_claim, call_release, call_reset_user, call_clear, perform, run, LeavesAlone,
}

module _ {K : Type 0} (dec : Discrete K) where
  pub lookup-prune_owners :
      (user : K) (values : List (K × Stamp)) (owners : List (K × Owner)) (o : Owner)
      → lookup dec user owners ≡ some o
      → is_stamp o.claimed_at (lookup dec user values) ≡ true
      → lookup dec user (prune_owners dec values owners) ≡ some o
  unfolding lookup prune_owners
  lookup-prune_owners user values [] o e h = ground (arith, e)
  lookup-prune_owners user values ((k, v) ∷ owners) o e h = elim (dec k user) [
    | yes q ↦ same q
    | no n ↦ ground (arith, n, e, lookup-prune_owners user values owners o (ground (arith, n, e)) h)
  ]
    where
      same : k ≡ user → lookup dec user (prune_owners dec values ((k, v) ∷ owners)) ≡ some o
      same q = ground (arith, q, e, h, ap (λ k. is_stamp v.claimed_at (lookup dec k values)) q)

module _ {K : Type 0} (dec : Discrete K) (user : K) (t : ℕ) (token : String) where
  abbrev owner : Owner
  owner = record { token = token; claimed_at = t }

  -- the stamp and the owner of a granted claim
  pub record IsHeld (s : Store K) : Type 0 where
    pub stamped : lookup dec user s.values ≡ some (at t)
    pub owned : lookup dec user s.owners ≡ some owner

  insert_other :
      (other : K) (v : Stamp) (values : List (K × Stamp))
      → other ≢ user
      → lookup dec user values ≡ some (at t)
      → lookup dec user (insert dec other v values) ≡ some (at t)
  insert_other other v values n h = ground (arith, n, h, lookup-insert dec other user v values)

  pop_other :
      (other : K) (owners : List (K × Owner))
      → other ≢ user
      → lookup dec user owners ≡ some owner
      → lookup dec user (pop dec other owners) ≡ some owner
  pop_other other owners n h = ground (arith, n, h, lookup-pop dec other user owners)

  popped : (other : K) (owners : List (K × Owner)) → lookup dec other (pop dec other owners) ≡ none
  popped other owners = ground (arith, lookup-pop dec other other owners)

  append_other :
      (other : K) (o : Owner) (owners : List (K × Owner))
      → other ≢ user
      → lookup dec user owners ≡ some owner
      → lookup dec user (pop dec other owners ++ (other, o) ∷ []) ≡ some owner
  append_other other o owners n h = ground (
    arith,
    n,
    pop_other other owners n h,
    lookup-append_end dec other user o (pop dec other owners) (popped other owners),
  )

  prune_owners-IsHeld :
      (s : Store K) → IsHeld s → IsHeld (record s { owners = prune_owners dec s.values s.owners })
  unfolding is_stamp
  prune_owners-IsHeld s h = record {
    stamped = h.stamped;
    owned =
        lookup-prune_owners dec user s.values s.owners owner h.owned (rw h.stamped (ground arith));
  }

  -- a claim of another user
  module _ (other : K) (different : other ≢ user) (event_time c : ℕ) (draw : ℕ → String) where
    grant-IsHeld :
        (drawn : Option String) (s : Store K)
        → IsHeld s
        → IsHeld (grant dec other event_time drawn s).1
    unfolding grant
    grant-IsHeld none s h = h
    grant-IsHeld (some drawn) s h =
        prune_owners-IsHeld
          (record {
            values = insert dec other (at event_time) s.values;
            owners =
                pop dec other s.owners
                ++ (other, record { token = drawn; claimed_at = event_time }) ∷ [];
          })
          (record {
            stamped = insert_other other (at event_time) s.values different h.stamped;
            owned =
                append_other other (record { token = drawn; claimed_at = event_time }) s.owners
                  different h.owned;
          })

    claim_after-IsHeld :
        (previous : ℕ) (s : Store K)
        → IsHeld s
        → IsHeld (claim_after dec other event_time c draw previous s).1
    unfolding claim_after
    claim_after-IsHeld previous s h = elim (Bool-cases (ltb event_time (previous + c * 1_000))) [
      | inl b ↦ rw b h
      | inr b ↦ rw b (grant-IsHeld (new_token draw 32 0) s h)
    ]

    claim_stamped-IsHeld :
        (o : Option Stamp) (s : Store K)
        → IsHeld s
        → IsHeld (claim_stamped dec other event_time c draw o s).1
    unfolding claim_stamped
    claim_stamped-IsHeld none s h =
        claim_after-IsHeld 0 (record s { values = insert dec other (at 0) s.values })
          (record {
            stamped = insert_other other (at 0) s.values different h.stamped;
            owned = h.owned;
          })
    claim_stamped-IsHeld (some corrupt) s h = h
    claim_stamped-IsHeld (some (at previous)) s h = claim_after-IsHeld previous s h

  -- a claim of the same user, before its cooldown has passed
  early-IsHeld :
      (event_time c : ℕ) (draw : ℕ → String) (o : Option Stamp) (s : Store K)
      → o ≡ some (at t)
      → event_time < t + c * 1_000
      → IsHeld s
      → IsHeld (claim_stamped dec user event_time c draw o s).1
  unfolding claim_stamped claim_after
  early-IsHeld event_time c draw o s e early h =
      let b : ltb event_time (t + c * 1_000) ≡ true = ground (arith, early) in rw (e, b) h

  claim-IsHeld :
      (text : K → String) (other : K) (event_time c : ℕ) (draw : ℕ → String) (s : Store K)
      → (other ≡ user → event_time < t + c * 1_000)
      → IsHeld s
      → IsHeld (claim dec text other event_time c draw s).1
  unfolding claim
  claim-IsHeld text other event_time c draw s early h =
      elim (Bool-cases (is_user_id (text other))) [
        | inl b ↦ rw b (cases (dec other user))
        | inr b ↦ rw b h
      ]
    where
      pruned : Store K
      pruned = record s { owners = prune_owners dec s.values s.owners }

      cases :
          Dec (other ≡ user)
          → IsHeld (claim_stamped dec other event_time c draw (lookup dec other s.values) pruned).1
      cases (no n) =
          claim_stamped-IsHeld other n event_time c draw (lookup dec other s.values) pruned
            (prune_owners-IsHeld s h)
      cases (yes p) =
          subst
            (λ k. IsHeld (claim_stamped dec k event_time c draw (lookup dec k s.values) pruned).1)
            (sym p)
            (early-IsHeld event_time c draw (lookup dec user s.values) pruned h.stamped (early p)
              (prune_owners-IsHeld s h))

  release_other :
      (lease : Lease K) (s : Store K)
      → lease.user_id ≢ user
      → IsHeld s
      → IsHeld (release dec lease s).1
  unfolding release
  release_other lease s n h =
      let values = insert_other lease.user_id (at 0) s.values n h.stamped in
      let owners = pop_other lease.user_id s.owners n h.owned in
      elim (Bool-cases (
        is_owner (record { token = lease.token; claimed_at = lease.claimed_at })
          (lookup dec lease.user_id s.owners))) [
            | inr b ↦ rw b h
            | inl b ↦
                elim (Bool-cases (is_stamp lease.claimed_at (lookup dec lease.user_id s.values))) [
                  | inl d ↦ rw (b, d) (record { stamped = values; owned = owners })
                  | inr d ↦ rw (b, d) (record { stamped = h.stamped; owned = owners })
                ]
          ]

  release_stale :
      (lease : Lease K) (s : Store K)
      → lookup dec lease.user_id s.owners ≡ some owner
      → lease.token ≢ token
      → (release dec lease s).1 ≡ s
  unfolding release is_owner same_owner
  release_stale lease s owned n = ground (arith, owned, n)

  release-IsHeld :
      (lease : Lease K) (s : Store K)
      → (lease.user_id ≡ user → lease.token ≢ token)
      → IsHeld s
      → IsHeld (release dec lease s).1
  release-IsHeld lease s alone h = elim (dec lease.user_id user) [
    | no n ↦ release_other lease s n h
    | yes p ↦
        let owned = subst (λ k. lookup dec k s.owners ≡ some owner) (sym p) h.owned in
        subst IsHeld (sym (release_stale lease s owned (alone p))) h
  ]

  reset_user-IsHeld :
      (text : K → String) (other : K) (s : Store K)
      → other ≢ user
      → IsHeld s
      → IsHeld (reset_user dec text other s).1
  unfolding reset_user
  reset_user-IsHeld text other s n h = elim (Bool-cases (is_user_id (text other))) [
    | inl b ↦ rw b (record {
      stamped = insert_other other (at 0) s.values n h.stamped;
      owned = pop_other other s.owners n h.owned;
    })
    | inr b ↦ rw b h
  ]

  perform-IsHeld :
      (text : K → String) (call : Call K) (s : Store K)
      → LeavesAlone user t token call
      → IsHeld s
      → IsHeld (perform dec text call s)
  unfolding perform
  perform-IsHeld text (call_claim other event_time c draw) s alone h =
      claim-IsHeld text other event_time c draw s alone h
  perform-IsHeld text (call_release lease) s alone h = release-IsHeld lease s alone h
  perform-IsHeld text (call_reset_user other) s alone h = reset_user-IsHeld text other s alone h
  perform-IsHeld text call_clear s alone h = absurd alone

  pub run-IsHeld :
      (text : K → String) (calls : List (Call K)) (s : Store K)
      → All (LeavesAlone user t token) calls
      → IsHeld s
      → IsHeld (run dec text calls s)
  unfolding run
  run-IsHeld text [] s alone h = h
  run-IsHeld text (call ∷ calls) s alone h =
      run-IsHeld text calls (perform dec text call s) alone.1 (perform-IsHeld text call s alone.0 h)
