-- ===== src/HistoryCache/Window.antt =====
-- `MessageRecord` of chat_history.py, as far as the cache reads it, and `HistoryWindow`.
use Prim.Native.String.{[]}
use nonebot_plugin_moellmcha.Prelude
use nonebot_plugin_moellmcha.Prelude.{
  ℕ, ◌-◌, Bool, true, false, not, ◌&&◌, Option, none, some, List, ◌∷◌, String, String-discrete, ite,
  if◌then◌else◌, ltb, leb, ◌==◌, length, drop,
}
use nonebot_plugin_moellmcha.Cooldowns.Claims.{is_short_text}

-- A message; what it says, when and by whom is of type `B`.
pub record Message (B : Type 0) : Type 0 where
  pub conversation_id : String
  pub message_id : Option ℕ
  pub body : B

pub record Window (B : Type 0) : Type 0 where
  pub conversation_id : String
  pub messages : List (Message B)
  pub has_older : Bool

-- What the cache calls of Python's library: `str.strip`, SHA-256, and the size of a window in JSON,
-- which may fail.
pub record Codec (B : Type 0) : Type 0 where
  pub strip : String → String
  pub fingerprint : String → String
  pub payload_bytes : Window B → Option ℕ

-- `_require_bounded_text`, for whether it raises
unfoldable pub is_bounded_text : (String → String) → ℕ → String → Bool
unfolding is_short_text
is_bounded_text strip maximum [] = false
is_bounded_text strip maximum s = ite (String-discrete s (strip s)) (is_short_text maximum s) false

-- `validate_conversation_id`
unfoldable pub is_conversation_id : (String → String) → String → Bool
unfolding is_bounded_text
is_conversation_id strip s = is_bounded_text strip 128 s

abbrev pub bigint_max : ℕ
bigint_max = 9_223_372_036_854_775_807

abbrev pub max_window_messages : ℕ
max_window_messages = 200

unfoldable pub id_of : Option ℕ → ℕ
id_of none = 0
id_of (some i) = i

module _ {B : Type 0} where
  -- the test of one message, after one with the id `previous`
  unfoldable pub is_next : String → ℕ → Message B → Option ℕ → Bool
  is_next conversation previous m none = false
  is_next conversation previous m (some i) =
      ite (String-discrete m.conversation_id conversation) true false
      && (leb 1 i && leb i bigint_max)
      && ltb previous i

  -- the loop of `HistoryWindow.__post_init__`
  unfoldable pub are_ascending : String → ℕ → List (Message B) → Bool
  unfolding is_next id_of
  are_ascending conversation previous Prelude.[] = true
  are_ascending conversation previous (m ∷ ms) =
      is_next conversation previous m m.message_id
      && are_ascending conversation (id_of m.message_id) ms

  -- `HistoryWindow.__post_init__`, for whether it lets the window pass
  unfoldable pub is_window : (String → String) → Window B → Bool
  unfolding is_conversation_id are_ascending
  is_window strip w =
      is_conversation_id strip w.conversation_id
      && not (length w.messages == 0 && w.has_older)
      && are_ascending w.conversation_id 0 w.messages

  -- `messages[-n:]`, for a positive `n`
  abbrev pub newest : ℕ → List (Message B) → List (Message B)
  newest n ms = drop (length ms - n) ms

  -- `HistoryWindow.recent`, after the check of the limit
  unfoldable pub recent : ℕ → Window B → Window B
  recent limit w =
      if leb (length w.messages) limit
      then w
      else record w { messages = newest limit w.messages; has_older = true }
