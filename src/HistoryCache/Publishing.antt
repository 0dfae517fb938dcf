-- ===== src/HistoryCache/Publishing.antt =====
-- A published window is found again.
use nonebot_plugin_moellmcha.Prelude.{
  ℕ, ◌+◌, ◌≤◌, ◌<◌, min, ◌≡◌, inl, inr, sym, ap, ◌∙◌, arith, Bool, true, false, ◌&&◌, none, some,
  List, [], ◌∷◌, ◌++◌, String-discrete, if◌then◌else◌, ltb, ◌==◌, length, lookup, pop, lookup-pop,
  lookup-append_end, drop_where, evict_above, Option-cases,
}
use nonebot_plugin_moellmcha.HistoryCache.Window.{
  Window, Codec, is_conversation_id, max_window_messages, recent,
}
use nonebot_plugin_moellmcha.HistoryCache.Cache.{
  return, Entry, Token, hit, miss, Cache, Input, Owner, Settings, owned, same_owner, timed,
  is_expired, prune, store_last, answer, published, fitted, token_of, publish_state, publish_at,
  publish_fitted, publish, lookup_state, lookup_at, lookup_window,
}

module _ {K V : Type 0} (dec : Discrete K) where
  lookup-evict_above :
      (n : ℕ) (k : K) (v : V) (d : List (K × V))
      → 0 < n
      → lookup dec k d ≡ none
      → lookup dec k (evict_above n (d ++ (k, v) ∷ [])) ≡ some v
  unfolding lookup evict_above
  lookup-evict_above n k v [] pos h = ground arith
  lookup-evict_above n k v ((j, w) ∷ d) pos h =
      ground (arith, lookup-append_end dec k k v d, lookup-evict_above n k v d)

  lookup-drop_where-live :
      (p : V → Bool) (k : K) (v : V) (d : List (K × V))
      → lookup dec k d ≡ some v
      → p v ≡ false
      → lookup dec k (drop_where p d) ≡ some v
  unfolding lookup drop_where
  lookup-drop_where-live p k v [] h live = absurd (cc)
  lookup-drop_where-live p k v ((j, w) ∷ d) h live = ground (arith, lookup-drop_where-live p k v d)

module _ {B : Type 0} (codec : Codec B) where
  same_owner-eq : (a b : Owner) → same_owner a b ≡ true → a ≡ b
  unfolding same_owner
  same_owner-eq a b h = ground (arith, h)

  -- what a publication that was accepted did
  publish-inv :
      (j : Input) (t : Token) (w : Window B) (c c' : Cache B) (now : ℕ)
      → publish codec j t w c ≡ (return true, c')
      → j.clock ≡ some now
      → (c'.states
          ≡ (store_last t.fingerprint
              (published c.settings t (fitted c.settings w) now)
              (prune now c)).states)
        × (codec.fingerprint (fitted c.settings w).conversation_id ≡ t.fingerprint)
        × (c'.settings ≡ c.settings)
        × (c'.owner ≡ j.caller)
        × ((p : Owner) × (j.caller ≡ some p) × ((p.pid == 0) ≡ false))
  unfolding publish publish_fitted owned timed publish_at publish_state store_last prune
  publish-inv j t w c c' now h clock = elim (Option-cases j.caller) [
    | inl a ↦ absurd (ground (arith, h, clock, a))
    | inr (p, a) ↦ (
      ground (arith, h, clock, a),
      ground (arith, h, clock, a),
      ground (arith, h, clock, a),
      elim (Option-cases c.owner) [
        | inl b ↦ ground (arith, h, clock, a, b)
        | inr (o, b) ↦ ground (arith, h, clock, a, b, same_owner-eq o p)
      ],
      (p, a, ground (arith, h, clock, a)),
    )
  ]

  fitted-conversation_id :
      (settings : Settings) (w : Window B) → (fitted settings w).conversation_id ≡ w.conversation_id
  unfolding fitted
  fitted-conversation_id settings w = ground arith

  published-lookup :
      (t : Token) (e : Entry B) (c c' : Cache B) (now later : ℕ)
      → c'.states ≡ (store_last t.fingerprint e (prune now c)).states
      → 0 < c.settings.max_conversations
      → later < e.expires_at
      → lookup String-discrete t.fingerprint (prune later c').states ≡ some e
  unfolding prune store_last is_expired
  published-lookup t e c c' now later states pos live =
      let old = (prune now c).states in
      lookup-drop_where-live String-discrete (is_expired later) t.fingerprint e c'.states
        (rw states (
          lookup-evict_above String-discrete c.settings.max_conversations t.fingerprint e
            (pop String-discrete t.fingerprint old) pos
            (ground (arith, lookup-pop String-discrete t.fingerprint t.fingerprint old))))
        (ground arith)

  -- A window that was published is served to the next lookup of its conversation within its time to live, cut down to
  -- the limits, unless it is shorter than asked for and the database has more.
  pub publish-then-lookup :
      (j k : Input) (t : Token) (w : Window B) (c c' : Cache B) (now later limit : ℕ)
      → publish codec j t w c ≡ (return true, c')
      → j.clock ≡ some now
      → k.caller ≡ j.caller
      → k.clock ≡ some later
      → later < now + c.settings.ttl
      → 0 < c.settings.max_conversations
      → is_conversation_id codec.strip w.conversation_id ≡ true
      → 0 < limit
      → limit ≤ max_window_messages
      → (lookup_window codec k w.conversation_id limit c').0
        ≡ return (
            let v = fitted c.settings w in
            if ltb (length v.messages) limit && v.has_older
            then miss (record {
              fingerprint = codec.fingerprint w.conversation_id;
              generation = t.generation;
              expires_at = now + c.settings.ttl;
            })
            else hit (recent (min limit c.settings.max_messages) v))
  unfolding lookup_window owned same_owner timed lookup_at lookup_state answer token_of published
  publish-then-lookup j k t w c c' now later limit h jc kj kc live pos id low high =
      let (states, same, settings, owner, (p, caller, nonzero)) = publish-inv j t w c c' now h jc in
      let v = fitted c.settings w in
      let e = published c.settings t v now in
      let fingerprint : codec.fingerprint w.conversation_id ≡ t.fingerprint =
        ap codec.fingerprint (sym (fitted-conversation_id c.settings w)) ∙ same in
      let found = published-lookup t e c c' now later states pos live in
      ground (
        arith,
        owner,
        caller,
        nonzero,
        kj,
        kc,
        id,
        low,
        high,
        settings,
        fingerprint,
        found,
        ap (λ x. lookup String-discrete x (prune later c').states) fingerprint,
      )
