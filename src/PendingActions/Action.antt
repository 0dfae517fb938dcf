-- ===== src/PendingActions/Action.antt =====
-- The stored action, its caller, its confirmation code, and the errors of the store.
use Prim.Native.Char.{code}
use Prim.Native.String.{[], ◌∷◌}
use nonebot_plugin_moellmcha.Prelude.{
  ℕ, zero, suc, String-discrete, Bool, true, false, ◌&&◌, ◌||◌, Option, String, leb,
}

-- One constructor for each message of `PendingActionError`.
pub data Error : Type 0 where
  arguments_not_serialisable ttl_invalid capacity_invalid argument_limit_invalid : Error
  arguments_too_large queue_full no_nonce failure_limits_invalid too_many_failures : Error
  nonce_malformed nonce_unknown nonce_expired caller_mismatch generation_changed : Error
  arguments_damaged arguments_not_object arguments_hash_mismatch cancel_unknown : Error

pub data Result {ℓ} (A : Type ℓ) : Type ℓ where
  ok : A → Result A
  err : Error → Result A

abbrev pub is_ok {ℓ} : {A : Type ℓ} → Result A → Bool
is_ok (ok a) = true
is_ok (err e) = false

-- `_caller_key(bot, event)`: what the bot framework's objects say of the caller.
pub record Caller : Type 0 where
  pub bot_id : String
  pub adapter_id : String
  pub user_id : String
  pub group_id : Option String

pub record PendingAction : Type 0 where
  pub action_id : String
  pub caller : Caller
  pub tool_name : String
  pub arguments_json : String
  pub arguments_hash : String
  pub generation : ℕ
  pub bundle_digest : Option String
  pub created_at : ℕ
  pub expires_at : ℕ
  pub nonce : String

-- What `json.loads` makes of a text.
pub data Loaded (A : Type 0) : Type 0 where
  malformed not_object : Loaded A
  object : A → Loaded A

-- `json` and `hashlib.sha256`, and `str.strip().upper()` with its tables of characters. The theorems
-- hold whatever these functions return.
pub record Codec : Type 1 where
  pub Arguments : Type 0
  pub dumps : Arguments → Option String
  pub loads : String → Loaded Arguments
  pub sha256 : String → String
  pub strip_upper : String → String

abbrev is_hex : ℕ → Bool
is_hex c = (leb b'A' c && leb c b'F') || (leb b'0' c && leb c b'9')

-- `_NONCE_RE.fullmatch`, with the count of characters that are still to come.
unfoldable pub matches_nonce : ℕ → String → Bool
matches_nonce zero [] = true
matches_nonce (suc n) (c ∷ s) = is_hex (code c) && matches_nonce n s
matches_nonce _ _ = false

abbrev pub is_nonce : String → Bool
is_nonce s = matches_nonce 6 s

unfoldable pub Caller-discrete : Discrete Caller
Caller-discrete = hlevel String-discrete
