-- ===== src/HistoryCache/Tests.antt =====
-- A cache for two conversations, with windows of three messages.
use nonebot_plugin_moellmcha.Prelude.{
  ℕ, ◌≤◌, ◌≡◌, ◌≢◌, refl, arith, true, false, some, List, [], ◌∷◌, String, String-discrete, length,
  min, lookup, drop_where, evict_above, pop, ne_of_text_eq, if◌then◌else◌, ltb, ◌&&◌,
}
use nonebot_plugin_moellmcha.HistoryCache.Window.{
  Message, Window, Codec, is_window, is_conversation_id, recent,
}
use nonebot_plugin_moellmcha.HistoryCache.Cache.{
  return, Settings, settings_are_valid, Token, hit, miss, Owner, Cache, Input, fitted,
  lookup_window, publish, invalidate, Call, call_lookup, call_publish, perform, run, init,
}
use nonebot_plugin_moellmcha.HistoryCache.Entries.{Drawn}
use nonebot_plugin_moellmcha.HistoryCache.Freshness.{stale_load_refused}
use nonebot_plugin_moellmcha.HistoryCache.Serving.{served_window}
use nonebot_plugin_moellmcha.HistoryCache.Publishing.{publish-then-lookup}

abbrev codec : Codec ℕ
codec = record { strip = λ s. s; fingerprint = λ s. s; payload_bytes = λ w. some 600 }

abbrev settings : Settings
settings = record {
  ttl = 600_000;
  load_timeout = 30_000;
  max_conversations = 2;
  max_messages = 3;
  max_payload_bytes = 1_048_576;
}

abbrev owner : Owner
owner = record { pid = 7; loop = 1 }

abbrev first_generation : String
first_generation = "0123456789abcdef0123456789abcdef"

abbrev second_generation : String
second_generation = "fedcba9876543210fedcba9876543210"

abbrev at : ℕ → String → Input
at now g = record { caller = some owner; clock = some now; draw = λ i. some g }

abbrev message : ℕ → Message ℕ
message i = record { conversation_id = "group"; message_id = some i; body = i }

abbrev window : Window ℕ
window = record {
  conversation_id = "group";
  messages = message 4 ∷ message 6 ∷ message 7 ∷ message 9 ∷ [];
  has_older = false;
}

abbrev token : Token
token = record { fingerprint = "group"; generation = first_generation; expires_at = 31_000 }

abbrev asked : Cache ℕ
asked = (lookup_window codec (at 1_000 first_generation) "group" 2 (init settings)).1

misses_first :
    (lookup_window codec (at 1_000 first_generation) "group" 2 (init settings)).0
    ≡ return (miss token)
unfolding lookup_window init String-discrete lookup drop_where evict_above pop
misses_first = refl

abbrev filled : Cache ℕ
filled = (publish codec (at 2_000 first_generation) token window asked).1

publishes : publish codec (at 2_000 first_generation) token window asked ≡ (return true, filled)
unfolding publish lookup_window init String-discrete lookup drop_where evict_above pop
publishes = refl

abbrev served : Window ℕ
served = record {
  conversation_id = "group";
  messages = message 7 ∷ message 9 ∷ [];
  has_older = true;
}

serves_newest :
    (lookup_window codec (at 3_000 first_generation) "group" 2 filled).0 ≡ return (hit served)
unfolding publish lookup_window init String-discrete lookup drop_where evict_above pop
serves_newest = refl

conversation_valid : is_conversation_id codec.strip "group" ≡ true
unfolding is_conversation_id String-discrete
conversation_valid = refl

abbrev calls : List (Call codec)
calls =
    call_lookup (at 1_000 first_generation) "group" 2
    ∷ call_publish (at 2_000 first_generation) token window
    ∷ []

window_valid : is_window codec.strip window ≡ true
unfolding is_window String-discrete
window_valid = refl

settings_valid : settings_are_valid settings ≡ true
unfolding settings_are_valid
settings_valid = refl

serves_after_calls :
    (lookup_window codec (at 3_000 first_generation) "group" 2 (run codec calls (init settings))).0
    ≡ return (hit served)
unfolding run perform publish lookup_window init String-discrete lookup drop_where evict_above pop
serves_after_calls = refl

served_window_example :
    (codec.fingerprint served.conversation_id ≡ codec.fingerprint "group")
    × (is_window codec.strip served ≡ true)
    × (length served.messages ≤ 2)
    × (length served.messages ≤ settings.max_messages)
served_window_example =
    served_window codec settings calls (at 3_000 first_generation) "group" 2 served settings_valid
      (tt, (window_valid, tt)) serves_after_calls

publish-then-lookup_example :
    (lookup_window codec (at 3_000 second_generation) "group" 2 filled).0
    ≡ return (
        let v = fitted settings window in
        if ltb (length v.messages) 2 && v.has_older
        then miss
            (record { fingerprint = "group"; generation = first_generation; expires_at = 602_000 })
        else hit (recent (min 2 settings.max_messages) v))
unfolding lookup_window String-discrete init lookup drop_where
publish-then-lookup_example =
    publish-then-lookup codec (at 2_000 first_generation) (at 3_000 second_generation) token window
      asked filled 2_000 3_000 2 publishes refl refl refl (omega arith) (omega arith)
      conversation_valid (omega arith) (omega arith)

-- The conversation is invalidated while its window is being loaded.
abbrev invalidated : Cache ℕ
invalidated = (invalidate codec (at 1_500 second_generation) "group" asked).1

invalidates : invalidate codec (at 1_500 second_generation) "group" asked ≡ (return tt, invalidated)
unfolding invalidate lookup_window init String-discrete lookup drop_where evict_above pop
invalidates = refl

never_first : ¬ Drawn (λ i. some second_generation) first_generation
never_first (i, q) = ne_of_text_eq second_generation first_generation refl (ground (arith, q))

stale_load_refused_example :
    (publish codec
      (at 2_500 second_generation)
      token
      window
      (run codec (call_lookup (at 1_800 second_generation) "group" 2 ∷ []) invalidated)).0
    ≢ return true
stale_load_refused_example =
    stale_load_refused codec (at 1_500 second_generation) "group" asked invalidated
      (call_lookup (at 1_800 second_generation) "group" 2 ∷ []) (at 2_500 second_generation) token
      window invalidates refl never_first (never_first, tt)
