-- ===== src/Cooldowns/Calls.antt =====
-- Any sequence of calls of `MemoryCooldownStore`.
use nonebot_plugin_moellmcha.Prelude.{ℕ, ◌+◌, ◌*◌, ◌<◌, ◌≡◌, ◌≢◌, List, [], ◌∷◌, String}
use nonebot_plugin_moellmcha.Cooldowns.Claims.{Lease}
use nonebot_plugin_moellmcha.Cooldowns.Memory.{Store, claim, release, reset_user, clear}

-- A call, with what it is given; a claim draws its token from a source of its own.
pub data Call (K : Type 0) : Type 0 where
  call_claim : K → ℕ → ℕ → (ℕ → String) → Call K
  call_release : Lease K → Call K
  call_reset_user : K → Call K
  call_clear : Call K

module _ {K : Type 0} (dec : Discrete K) (text : K → String) where
  unfoldable pub perform : Call K → Store K → Store K
  unfolding claim release reset_user clear
  perform (call_claim user event_time cooldown_seconds draw) s =
      (claim dec text user event_time cooldown_seconds draw s).1
  perform (call_release lease) s = (release dec lease s).1
  perform (call_reset_user user) s = (reset_user dec text user s).1
  perform call_clear s = clear dec s

  unfoldable pub run : List (Call K) → Store K → Store K
  unfolding perform
  run [] s = s
  run (call ∷ calls) s = run calls (perform call s)

-- A call that leaves alone the claim a user was granted at a time with a token: a claim of the same
-- user comes before its cooldown has passed, a release for the user has another token, another user is
-- reset, and the store is not cleared.
abbrev pub LeavesAlone : {K : Type 0} → K → ℕ → String → Call K → Type 0
LeavesAlone user t token (call_claim other event_time cooldown_seconds draw) =
    other ≡ user → event_time < t + cooldown_seconds * 1_000
LeavesAlone user t token (call_release lease) = lease.user_id ≡ user → lease.token ≢ token
LeavesAlone user t token (call_reset_user other) = other ≢ user
LeavesAlone user t token call_clear = ⊥
