-- ===== src/Cooldowns/Claims.antt =====
-- Leases and claims, and the checks on user identifiers and tokens. Times are milliseconds, from an
-- origin before which no event lies; the text of an identifier (`str` of a number or a text) is a
-- parameter.
use Prim.Native.Char.{code}
use Prim.Native.String.{[], ◌∷◌}
use nonebot_plugin_moellmcha.Prelude.{
  ℕ, zero, suc, ◌+◌, ◌/◌, Bool, true, false, not, ◌&&◌, ◌||◌, Option, none, some, String,
  if◌then◌else◌, ltb, leb, ◌==◌,
}

pub data Error : Type 0 where
  user_id_invalid timestamp_corrupt no_token : Error

pub record Lease (K : Type 0) : Type 0 where
  pub user_id : K
  pub token : String
  pub claimed_at : ℕ

-- A claim with a lease has no time to wait: `retry_after_seconds` is zero.
pub data Claim (K : Type 0) : Type 0 where
  acquired : Lease K → Claim K
  retry_after : ℕ → Claim K

pub data Outcome (A : Type 0) : Type 0 where
  ok : A → Outcome A
  err : Error → Outcome A

abbrev is_token_character : ℕ → Bool
is_token_character c = (leb b'0' c && leb c b'9') || (leb b'a' c && leb c b'f')

-- `_TOKEN_RE.fullmatch`, with the count of characters that are still to come
unfoldable pub matches_token : ℕ → String → Bool
matches_token zero [] = true
matches_token (suc n) (c ∷ s) = is_token_character (code c) && matches_token n s
matches_token _ _ = false

abbrev is_control : ℕ → Bool
is_control c = ltb c 32 || c == 127

-- `_normalize_user_id`, for whether it raises: the text is not empty, has at most `room` characters
-- and no control character
unfoldable pub is_short_text : ℕ → String → Bool
is_short_text room [] = true
is_short_text zero (c ∷ s) = false
is_short_text (suc room) (c ∷ s) = not (is_control (code c)) && is_short_text room s

unfoldable pub is_user_id : String → Bool
unfolding is_short_text
is_user_id [] = false
is_user_id (c ∷ s) = is_short_text 512 (c ∷ s)

-- `_new_token`: `draw i` is what the `i`-th call of the factory returns, stripped and in lower case.
unfoldable pub new_token : (ℕ → String) → ℕ → ℕ → Option String
unfolding matches_token
new_token draw zero i = none
new_token draw (suc attempts) i =
    let again = new_token draw attempts (i + 1) in
    if matches_token 32 (draw i) then some (draw i) else again

-- `math.ceil` of milliseconds in seconds
unfoldable pub seconds_up : ℕ → ℕ
seconds_up milliseconds = (milliseconds + 999) / 1_000
