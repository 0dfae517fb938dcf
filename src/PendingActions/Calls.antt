-- ===== src/PendingActions/Calls.antt =====
-- Any sequence of calls of `PendingActionStore`.
use nonebot_plugin_moellmcha.Prelude.{ℕ, List, [], ◌∷◌, String}
use nonebot_plugin_moellmcha.PendingActions.Action.{Caller, Codec}
use nonebot_plugin_moellmcha.PendingActions.Store.{
  Store, Config, Request, create, consume, cancel, clear, size,
}

-- A call, with what it is given, the configuration and the time that it reads.
pub data Call (codec : Codec) : Type 0 where
  call_create : Config → Request → codec.Arguments → Call codec
  call_consume : Config → String → Caller → ℕ → ℕ → Call codec
  call_cancel : Config → String → Caller → ℕ → Call codec
  call_clear : Call codec
  call_size : ℕ → Call codec

module _ (codec : Codec) where
  unfoldable pub perform : Call codec → Store → Store
  unfolding create consume cancel size
  perform (call_create cfg r arguments) s = (create codec cfg r arguments s).1
  perform (call_consume cfg raw caller generation now) s =
      (consume codec cfg raw caller generation now s).1
  perform (call_cancel cfg raw caller now) s = (cancel codec cfg raw caller now s).1
  perform call_clear s = clear s
  perform (call_size now) s = (size now s).1

  unfoldable pub run : List (Call codec) → Store → Store
  unfolding perform
  run [] s = s
  run (call ∷ calls) s = run calls (perform call s)
