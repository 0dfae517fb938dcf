-- ===== src/Cooldowns/Memory.antt =====
-- `MemoryCooldownStore`. A method's body runs under the lock.
use nonebot_plugin_moellmcha.Prelude.{
  ℕ, ◌+◌, ◌-◌, ◌*◌, max, Bool, true, false, not, Option, none, some, List, [], ◌∷◌, ◌++◌, String,
  String-discrete, ite, if◌then◌else◌, ltb, ◌==◌, lookup, insert, pop,
}
use nonebot_plugin_moellmcha.Cooldowns.Claims.{
  user_id_invalid, timestamp_corrupt, no_token, Lease, Claim, acquired, retry_after, Outcome, ok,
  err, is_user_id, new_token, seconds_up,
}

-- What the shared mapping holds for a user.
pub data Stamp : Type 0 where
  at : ℕ → Stamp
  corrupt : Stamp

pub record Owner : Type 0 where
  pub token : String
  pub claimed_at : ℕ

pub record Store (K : Type 0) : Type 0 where
  pub values : List (K × Stamp)
  pub owners : List (K × Owner)

unfoldable pub is_stamp : ℕ → Option Stamp → Bool
is_stamp t (some (at u)) = u == t
is_stamp t _ = false

unfoldable pub same_owner : Owner → Owner → Bool
same_owner a b = ite (String-discrete a.token b.token) (a.claimed_at == b.claimed_at) false

unfoldable pub is_owner : Owner → Option Owner → Bool
unfolding same_owner
is_owner a none = false
is_owner a (some b) = same_owner b a

module _ {K : Type 0} (dec : Discrete K) where
  -- `_prune_owners_locked`
  unfoldable pub prune_owners : List (K × Stamp) → List (K × Owner) → List (K × Owner)
  unfolding is_stamp
  prune_owners values [] = []
  prune_owners values ((user, owner) ∷ owners) =
      let rest = prune_owners values owners in
      if is_stamp owner.claimed_at (lookup dec user values) then (user, owner) ∷ rest else rest

  -- the end of `claim`, with the token that was made
  unfoldable pub grant : K → ℕ → Option String → Store K → Outcome (Claim K) × Store K
  unfolding prune_owners
  grant user event_time none s = (err no_token, s)
  grant user event_time (some token) s =
      let values = insert dec user (at event_time) s.values in
      let owner : Owner = record { token = token; claimed_at = event_time } in
      let owners = pop dec user s.owners ++ (user, owner) ∷ [] in
      (
        ok (acquired (record { user_id = user; token = token; claimed_at = event_time })),
        record { values = values; owners = prune_owners values owners },
      )

  -- the claim of a user whose last stamp is `previous`, in milliseconds
  unfoldable pub claim_after : K → ℕ → ℕ → (ℕ → String) → ℕ → Store K → Outcome (Claim K) × Store K
  unfolding new_token seconds_up grant
  claim_after user event_time cooldown_seconds draw previous s =
      if ltb event_time (previous + cooldown_seconds * 1_000)
      then (
        ok (retry_after (max 1 (seconds_up (previous + cooldown_seconds * 1_000 - event_time)))),
        s,
      )
      else grant user event_time (new_token draw 32 0) s

  unfoldable pub claim_stamped :
      K → ℕ → ℕ → (ℕ → String) → Option Stamp → Store K → Outcome (Claim K) × Store K
  unfolding claim_after
  claim_stamped user event_time cooldown_seconds draw none s =
      claim_after user event_time cooldown_seconds draw 0
        (record s { values = insert dec user (at 0) s.values })
  claim_stamped user event_time cooldown_seconds draw (some corrupt) s = (err timestamp_corrupt, s)
  claim_stamped user event_time cooldown_seconds draw (some (at previous)) s =
      claim_after user event_time cooldown_seconds draw previous s

  unfoldable pub claim :
      (K → String) → K → ℕ → ℕ → (ℕ → String) → Store K → Outcome (Claim K) × Store K
  unfolding is_user_id prune_owners claim_stamped
  claim text user event_time cooldown_seconds draw s =
      if is_user_id (text user)
      then claim_stamped user event_time cooldown_seconds draw (lookup dec user s.values)
          (record s { owners = prune_owners s.values s.owners })
      else (err user_id_invalid, s)

  unfoldable pub release : Lease K → Store K → Bool × Store K
  unfolding is_owner is_stamp
  release lease s =
      let owner : Owner = record { token = lease.token; claimed_at = lease.claimed_at } in
      if not (is_owner owner (lookup dec lease.user_id s.owners))
      then (false, s)
      else if not (is_stamp lease.claimed_at (lookup dec lease.user_id s.values))
      then (false, record s { owners = pop dec lease.user_id s.owners })
      else (
        true,
        record {
          values = insert dec lease.user_id (at 0) s.values;
          owners = pop dec lease.user_id s.owners;
        },
      )

  unfoldable pub reset_user : (K → String) → K → Store K → Outcome (Unit {0}) × Store K
  unfolding is_user_id
  reset_user text user s =
      if is_user_id (text user)
      then (
        ok tt,
        record { values = insert dec user (at 0) s.values; owners = pop dec user s.owners },
      )
      else (err user_id_invalid, s)

  unfoldable pub clear : Store K → Store K
  clear s = record { values = []; owners = [] }
