-- ===== src/HistoryCache/Cache.antt =====
-- `MemoryHistoryHotCache`. A method's body runs under the lock. Times are whole milliseconds.
use nonebot_plugin_moellmcha.Prelude.{
  ℕ, zero, suc, ◌+◌, min, Bool, true, false, not, ◌&&◌, Option, none, some, List, [], ◌∷◌, ◌++◌,
  String, String-discrete, ite, if◌then◌else◌, ltb, leb, ◌==◌, length, lookup, pop, drop_where,
  evict_above,
}
use nonebot_plugin_moellmcha.Cooldowns.Claims.{matches_token}
use nonebot_plugin_moellmcha.HistoryCache.Window.{
  Window, Codec, is_conversation_id, max_window_messages, recent, newest,
}

pub data Error : Type 0 where
  value_error unavailable ownership_error : Error

pub data Outcome (A : Type 0) : Type 0 where
  return : A → Outcome A
  raise : Error → Outcome A

-- `MemoryHistoryHotCacheSettings`
pub record Settings : Type 0 where
  pub ttl : ℕ
  pub load_timeout : ℕ
  pub max_conversations : ℕ
  pub max_messages : ℕ
  pub max_payload_bytes : ℕ

abbrev pub is_between : ℕ → ℕ → ℕ → Bool
is_between low high n = leb low n && leb n high

unfoldable pub settings_are_valid : Settings → Bool
settings_are_valid s =
    is_between 1_000 86_400_000 s.ttl
    && is_between 100 300_000 s.load_timeout
    && leb s.load_timeout s.ttl
    && is_between 1 100_000 s.max_conversations
    && is_between 1 200 s.max_messages
    && is_between 1_024 16_777_216 s.max_payload_bytes

-- `_MemoryCacheState`
pub record Entry (B : Type 0) : Type 0 where
  pub generation : String
  pub window : Option (Window B)
  pub expires_at : ℕ

-- `HistoryCacheLoadToken`
pub record Token : Type 0 where
  pub fingerprint : String
  pub generation : String
  pub expires_at : ℕ

-- `HistoryCacheLookup`
pub data Lookup (B : Type 0) : Type 0 where
  hit : Window B → Lookup B
  miss : Token → Lookup B

-- The process and the event loop of a call.
pub record Owner : Type 0 where
  pub pid : ℕ
  pub loop : ℕ

pub record Cache (B : Type 0) : Type 0 where
  pub settings : Settings
  pub states : List (String × Entry B)
  pub owner : Option Owner

-- What a call reads: who calls, if that can be told; the clock, if it works; and what each call of
-- the factory of generations returns, if it returns.
pub record Input : Type 0 where
  pub caller : Option Owner
  pub clock : Option ℕ
  pub draw : ℕ → Option String

-- `_new_generation`
unfoldable pub new_generation : (ℕ → Option String) → ℕ → ℕ → Option String
unfolding matches_token
new_generation draw zero i = none
new_generation draw (suc attempts) i = elim (draw i) [
  | none ↦ none
  | some g ↦ if matches_token 32 g then some g else new_generation draw attempts (i + 1)
]

unfoldable pub same_owner : Owner → Owner → Bool
same_owner a b = a.pid == b.pid && a.loop == b.loop

abbrev pub Method : Type 0 → Type 0 → Type 0
Method B A = Cache B → Outcome A × Cache B

module _ {B A : Type 0} where
  -- `_require_owner`, and what follows it
  unfoldable pub owned : Option Owner → Method B A → Method B A
  unfolding same_owner
  owned none body c = (raise ownership_error, c)
  owned (some caller) body c =
      if caller.pid == 0 then (raise ownership_error, c) else (elim c.owner [
        | none ↦ body (record c { owner = some caller })
        | some o ↦ if same_owner o caller then body c else (raise ownership_error, c)
      ])

  -- `_read_clock`, and what follows it
  unfoldable pub timed : Option ℕ → (ℕ → Method B A) → Method B A
  timed none body c = (raise unavailable, c)
  timed (some now) body c = body now c

  -- `_new_generation`, and what follows it
  unfoldable pub generated : (ℕ → Option String) → (String → Method B A) → Method B A
  unfolding new_generation
  generated draw body c = elim (new_generation draw 32 0) [
    | none ↦ (raise unavailable, c)
    | some g ↦ body g c
  ]

module _ {B : Type 0} where
  unfoldable pub is_expired : ℕ → Entry B → Bool
  is_expired now e = leb e.expires_at now

  -- `_prune_locked`
  unfoldable pub prune : ℕ → Cache B → Cache B
  unfolding is_expired
  prune now c = record c { states = drop_where (is_expired now) c.states }

  -- a state written at the end of the order, then `_evict_locked`
  unfoldable pub store_last : String → Entry B → Cache B → Cache B
  store_last fingerprint e c = record c {
    states =
        evict_above c.settings.max_conversations
          (pop String-discrete fingerprint c.states ++ (fingerprint, e) ∷ []);
  }

  -- `move_to_end`, of a key that has the state `e`
  unfoldable pub touch : String → Entry B → Cache B → Cache B
  touch fingerprint e c = record c {
    states = pop String-discrete fingerprint c.states ++ (fingerprint, e) ∷ [];
  }

  -- `_token`
  unfoldable pub token_of : String → Entry B → Token
  token_of fingerprint e = record {
    fingerprint = fingerprint;
    generation = e.generation;
    expires_at = e.expires_at;
  }

  -- the end of `lookup`
  unfoldable pub answer : Settings → ℕ → String → Entry B → Option (Window B) → Lookup B
  unfolding token_of recent
  answer settings limit fingerprint e none = miss (token_of fingerprint e)
  answer settings limit fingerprint e (some w) =
      if ltb (length w.messages) limit && w.has_older
      then miss (token_of fingerprint e)
      else hit (recent (min limit settings.max_messages) w)

  unfoldable pub reserved : Settings → ℕ → String → Entry B
  reserved settings now g = record {
    generation = g;
    window = none;
    expires_at = now + settings.load_timeout;
  }

  unfoldable pub reserve : ℕ → String → ℕ → String → Method B (Lookup B)
  unfolding reserved answer store_last
  reserve limit fingerprint now g c =
      let e = reserved c.settings now g in
      (return (answer c.settings limit fingerprint e e.window), store_last fingerprint e c)

  unfoldable pub lookup_state :
      (ℕ → Option String) → ℕ → String → ℕ → Option (Entry B) → Method B (Lookup B)
  unfolding generated reserve touch answer
  lookup_state draw limit fingerprint now none c = generated draw (reserve limit fingerprint now) c
  lookup_state draw limit fingerprint now (some e) c =
      (return (answer c.settings limit fingerprint e e.window), touch fingerprint e c)

  unfoldable pub lookup_at : (ℕ → Option String) → ℕ → String → ℕ → Method B (Lookup B)
  unfolding lookup_state prune
  lookup_at draw limit fingerprint now c =
      lookup_state draw limit fingerprint now
        (lookup String-discrete fingerprint (prune now c).states) (prune now c)

  -- a window cut down to the newest messages that the cache may hold
  unfoldable pub fitted : Settings → Window B → Window B
  fitted settings w =
      if ltb settings.max_messages (length w.messages)
      then record w { messages = newest settings.max_messages w.messages; has_older = true }
      else w

  -- whether a state still waits for the window of a token
  unfoldable pub awaits : Token → Option (Entry B) → Bool
  awaits t none = false
  awaits t (some e) = elim e.window [
    | some w ↦ false
    | none ↦ ite (String-discrete e.generation t.generation) (e.expires_at == t.expires_at) false
  ]

  unfoldable pub published : Settings → Token → Window B → ℕ → Entry B
  published settings t w now = record {
    generation = t.generation;
    window = some w;
    expires_at = now + settings.ttl;
  }

  unfoldable pub publish_state : Token → Window B → ℕ → Method B Bool
  unfolding awaits published store_last
  publish_state t w now c =
      if awaits t (lookup String-discrete t.fingerprint c.states)
      then (return true, store_last t.fingerprint (published c.settings t w now) c)
      else (return false, c)

  unfoldable pub publish_at : Token → Window B → ℕ → Method B Bool
  unfolding publish_state prune
  publish_at t w now c =
      if leb t.expires_at now then (return false, c) else publish_state t w now (prune now c)

  unfoldable pub invalidate_at : (ℕ → Option String) → String → ℕ → Method B (Unit {0})
  unfolding generated reserved store_last prune
  invalidate_at draw fingerprint now =
      generated draw
        (λ g c. (return tt, store_last fingerprint (reserved c.settings now g) (prune now c)))

  unfoldable pub clear_states : Method B (Unit {0})
  clear_states c = (return tt, record c { states = [] })

  unfoldable pub clear : Input → Method B (Unit {0})
  unfolding owned clear_states
  clear i = owned i.caller clear_states

module _ {B : Type 0} (codec : Codec B) where
  unfoldable pub lookup_window : Input → String → ℕ → Method B (Lookup B)
  unfolding is_conversation_id owned timed lookup_at
  lookup_window i conversation limit c =
      if not (is_conversation_id codec.strip conversation && is_between 1 max_window_messages limit)
      then (raise value_error, c)
      else owned i.caller (timed i.clock (lookup_at i.draw limit (codec.fingerprint conversation)))
          c

  unfoldable pub fits : Settings → Window B → Bool
  fits settings w = elim (codec.payload_bytes w) [
    | none ↦ false
    | some n ↦ leb n settings.max_payload_bytes
  ]

  -- `publish`, of a window that is cut down already
  unfoldable pub publish_fitted : Input → Token → Window B → Method B Bool
  unfolding fits owned timed publish_at
  publish_fitted i t w c =
      if not (fits c.settings w)
      then (raise unavailable, c)
      else if ite (String-discrete (codec.fingerprint w.conversation_id) t.fingerprint) false true
      then (raise value_error, c)
      else owned i.caller (timed i.clock (publish_at t w)) c

  unfoldable pub publish : Input → Token → Window B → Method B Bool
  unfolding fitted publish_fitted
  publish i t window c = publish_fitted i t (fitted c.settings window) c

  unfoldable pub invalidate : Input → String → Method B (Unit {0})
  unfolding is_conversation_id owned timed invalidate_at
  invalidate i conversation c =
      if not (is_conversation_id codec.strip conversation)
      then (raise value_error, c)
      else owned i.caller (timed i.clock (invalidate_at i.draw (codec.fingerprint conversation))) c

  -- A call, with what it reads.
  pub data Call : Type 0 where
    call_lookup : Input → String → ℕ → Call
    call_publish : Input → Token → Window B → Call
    call_invalidate : Input → String → Call
    call_clear : Input → Call

  unfoldable pub perform : Call → Cache B → Cache B
  unfolding lookup_window publish invalidate clear
  perform (call_lookup i conversation limit) c = (lookup_window i conversation limit c).1
  perform (call_publish i t w) c = (publish i t w c).1
  perform (call_invalidate i conversation) c = (invalidate i conversation c).1
  perform (call_clear i) c = (clear i c).1

  unfoldable pub run : List Call → Cache B → Cache B
  run [] c = c
  run (call ∷ calls) c = run calls (perform call c)

-- `MemoryHistoryHotCache.__init__`
unfoldable pub init : {B : Type 0} → Settings → Cache B
init settings = record { settings = settings; states = []; owner = none }
