-- ===== src/HistoryCache/Serving.antt =====
-- What the cache serves: windows of the conversation that was asked for, within the limits.
use nonebot_plugin_moellmcha.Prelude.{
  ℕ, zero, suc, ◌-◌, ◌≤◌, ◌<◌, min, ◌≡◌, inl, inr, refl, ap, ◌∙◌, arith, true, some, List, [], ◌∷◌,
  String, String-discrete, length, drop, length-drop, lookup, All, Option-cases,
}
use nonebot_plugin_moellmcha.HistoryCache.Window.{
  Message, Window, Codec, is_next, id_of, are_ascending, is_window, newest, recent,
}
use nonebot_plugin_moellmcha.HistoryCache.Cache.{
  return, Settings, settings_are_valid, Entry, hit, Cache, Input, new_generation, owned, timed,
  generated, is_expired, prune, reserved, reserve, answer, published, fitted, lookup_state,
  lookup_at, lookup_window, Call, call_lookup, call_publish, call_invalidate, call_clear, run, init,
}
use nonebot_plugin_moellmcha.HistoryCache.Entries.{All-drop_where, All-lookup, Holds}
use nonebot_plugin_moellmcha.HistoryCache.Kept.{Allowed, run-Keeps}

module _ {B : Type 0} where
  are_ascending-head :
      (conversation : String) (i : ℕ) (m : Message B) (ms : List (Message B))
      → are_ascending conversation i (m ∷ ms) ≡ true
      → (i ≤ id_of m.message_id) × (are_ascending conversation (id_of m.message_id) ms ≡ true)
  unfolding are_ascending is_next id_of
  are_ascending-head conversation i m ms h = elim (Option-cases m.message_id) [
    | inl q ↦ absurd (ground (arith, h, q))
    | inr (n, q) ↦ (ground (arith, h, q), ground (arith, h, q))
  ]

  -- an ascending list is one after any lower id
  are_ascending-lower :
      (conversation : String) (i k : ℕ) (ms : List (Message B))
      → i ≤ k
      → are_ascending conversation k ms ≡ true
      → are_ascending conversation i ms ≡ true
  unfolding are_ascending is_next id_of
  are_ascending-lower conversation i k [] le h = refl
  are_ascending-lower conversation i k (m ∷ ms) le h = elim (Option-cases m.message_id) [
    | inl q ↦ absurd (ground (arith, h, q))
    | inr (n, q) ↦ ground (arith, h, q)
  ]

  are_ascending-drop :
      (conversation : String) (n i : ℕ) (ms : List (Message B))
      → are_ascending conversation i ms ≡ true
      → are_ascending conversation i (drop n ms) ≡ true
  are_ascending-drop conversation zero i ms h = h
  are_ascending-drop conversation (suc n) i [] h = h
  are_ascending-drop conversation (suc n) i (m ∷ ms) h =
      let (le, rest) = are_ascending-head conversation i m ms h in
      are_ascending-lower conversation i (id_of m.message_id) (drop n ms) le
        (are_ascending-drop conversation n (id_of m.message_id) ms rest)

  pub newest-is_window :
      (strip : String → String) (n : ℕ) (w : Window B)
      → 0 < n
      → n < length w.messages
      → is_window strip w ≡ true
      → is_window strip (record w { messages = newest n w.messages; has_older = true }) ≡ true
  unfolding is_window
  newest-is_window strip n w pos lt h = ground (
    arith,
    h,
    length-drop (length w.messages - n) w.messages,
    are_ascending-drop w.conversation_id (length w.messages - n) 0 w.messages,
  )

  -- what a shortened window is
  pub recent-is_window :
      (strip : String → String) (limit : ℕ) (w : Window B)
      → 0 < limit
      → is_window strip w ≡ true
      → (is_window strip (recent limit w) ≡ true)
        × (length (recent limit w).messages ≤ limit)
        × (length (recent limit w).messages ≤ length w.messages)
        × ((recent limit w).conversation_id ≡ w.conversation_id)
  unfolding recent
  recent-is_window strip limit w pos h = ground (
    arith,
    length-drop (length w.messages - limit) w.messages,
    newest-is_window strip limit w pos,
  )

module _ {B : Type 0} (codec : Codec B) (settings : Settings) where
  -- a state whose window belongs to its key, is valid, and fits
  abbrev IsServable : String × Entry B → Type 0
  IsServable (k, e) =
      (w : Window B)
      → e.window ≡ some w
      → (codec.fingerprint w.conversation_id ≡ k)
        × (is_window codec.strip w ≡ true)
        × (length w.messages ≤ settings.max_messages)

  -- A published window has passed the checks of its constructor.
  abbrev pub IsGenuine : Call codec → Type 0
  IsGenuine (call_publish i t w) = is_window codec.strip w ≡ true
  IsGenuine _ = Unit

  fitted-is_window :
      (w : Window B)
      → settings_are_valid settings ≡ true
      → is_window codec.strip w ≡ true
      → (is_window codec.strip (fitted settings w) ≡ true)
        × (length (fitted settings w).messages ≤ settings.max_messages)
  unfolding fitted settings_are_valid
  fitted-is_window w valid h = ground (
    arith,
    valid,
    h,
    length-drop (length w.messages - settings.max_messages) w.messages,
    newest-is_window codec.strip settings.max_messages w,
  )

  IsGenuine-Allowed :
      (call : Call codec)
      → settings_are_valid settings ≡ true
      → IsGenuine call
      → Allowed codec settings IsServable call
  unfolding reserved published
  IsGenuine-Allowed (call_lookup i conversation limit) valid genuine =
      λ g now drawn w q. absurd (cc)
  IsGenuine-Allowed (call_invalidate i conversation) valid genuine = λ g now drawn w q. absurd (cc)
  IsGenuine-Allowed (call_publish i t window) valid genuine = λ e now p generation matches w q.
      let same : fitted settings window ≡ w = cc in
      let (good, short) = fitted-is_window window valid genuine in
      (rw (← same) matches, rw (← same) good, rw (← same) short)
  IsGenuine-Allowed (call_clear i) valid genuine = tt

  IsGenuine-All :
      (calls : List (Call codec))
      → settings_are_valid settings ≡ true
      → All IsGenuine calls
      → All (Allowed codec settings IsServable) calls
  IsGenuine-All [] valid genuine = tt
  IsGenuine-All (call ∷ calls) valid genuine =
      (IsGenuine-Allowed call valid genuine.0, IsGenuine-All calls valid genuine.1)

  run-Holds :
      (calls : List (Call codec))
      → settings_are_valid settings ≡ true
      → All IsGenuine calls
      → Holds codec settings IsServable (run codec calls (init settings))
  unfolding init
  run-Holds calls valid genuine =
      run-Keeps codec settings IsServable calls (IsGenuine-All calls valid genuine) (init settings)
        (record { same_settings = refl; bounded = omega arith; entries = tt })

  -- Under valid settings, after any calls, at most `max_conversations` conversations have a state.
  pub states_bounded :
      (calls : List (Call codec))
      → settings_are_valid settings ≡ true
      → All IsGenuine calls
      → length (run codec calls (init settings)).states ≤ settings.max_conversations
  states_bounded calls valid genuine = (run-Holds calls valid genuine).bounded

  hit-found :
      (i : Input) (conversation : String) (limit : ℕ) (c : Cache B) (w : Window B)
      → (lookup_window codec i conversation limit c).0 ≡ return (hit w)
      → (now : ℕ) × (e : Entry B) × (v : Window B) × (lookup String-discrete
            (codec.fingerprint conversation)
            (prune now c).states
          ≡ some e)
        × (e.window ≡ some v)
        × (w ≡ recent (min limit c.settings.max_messages) v)
        × (0 < limit)
  unfolding lookup_window owned timed lookup_at lookup_state generated reserve reserved answer prune
  hit-found i conversation limit c w h = elim (Option-cases i.clock) [
    | inl a ↦ absurd (ground (arith, h, a))
    | inr (now, a) ↦
        elim (Option-cases
          (lookup String-discrete (codec.fingerprint conversation) (prune now c).states)) [
            | inl b ↦ elim (Option-cases (new_generation i.draw 32 0)) [
              | inl d ↦ absurd (ground (arith, h, a, b, d))
              | inr (g, d) ↦ absurd (ground (arith, h, a, b, d))
            ]
            | inr (e, b) ↦ elim (Option-cases e.window) [
              | inl d ↦ absurd (ground (arith, h, a, b, d))
              | inr (v, d) ↦
                  (now, e, v, b, d, ground (arith, h, a, b, d), ground (arith, h, a, b, d))
            ]
          ]
  ]

  -- Under valid settings, after any calls that publish windows which their constructor let pass, a window that is
  -- served belongs to the conversation that was asked for, up to its fingerprint, is itself a valid window, with
  -- ascending identifiers, and has no more messages than asked for and than the cache may hold.
  pub served_window :
      (calls : List (Call codec)) (i : Input) (conversation : String) (limit : ℕ) (w : Window B)
      → settings_are_valid settings ≡ true
      → All IsGenuine calls
      → (lookup_window codec i conversation limit (run codec calls (init settings))).0
        ≡ return (hit w)
      → (codec.fingerprint w.conversation_id ≡ codec.fingerprint conversation)
        × (is_window codec.strip w ≡ true)
        × (length w.messages ≤ limit)
        × (length w.messages ≤ settings.max_messages)
  unfolding prune settings_are_valid
  served_window calls i conversation limit w valid genuine h =
      let c = run codec calls (init settings) in
      let kept = run-Holds calls valid genuine in
      let (now, e, v, found, has, is_recent, pos) = hit-found i conversation limit c w h in
      let (belongs, good, short) =
        All-lookup IsServable String-discrete (codec.fingerprint conversation) e
          (prune now c).states (All-drop_where IsServable (is_expired now) c.states kept.entries)
          found v has in
      let (window, within, fewer, same) =
        recent-is_window codec.strip (min limit c.settings.max_messages) v
          (ground (arith, kept.same_settings, valid, pos)) good in
      rw is_recent (
        ap codec.fingerprint same ∙ belongs,
        window,
        omega (arith, within),
        omega (arith, fewer, short),
      )
