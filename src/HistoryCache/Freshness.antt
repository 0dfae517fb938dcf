-- ===== src/HistoryCache/Freshness.antt =====
-- A window that was read before a write is not cached after it.
use nonebot_plugin_moellmcha.Prelude.{
  ℕ, ◌≡◌, ◌≢◌, inl, inr, ◌∙◌, subst, arith, true, List, [], ◌∷◌, ◌++◌, String, String-discrete, ite,
  lookup, pop, All, All-append, length-evict_above-le, Option-cases,
}
use nonebot_plugin_moellmcha.HistoryCache.Window.{Window, Codec}
use nonebot_plugin_moellmcha.HistoryCache.Cache.{
  return, Settings, Entry, Token, Cache, Input, new_generation, owned, timed, generated, is_expired,
  prune, store_last, reserved, published, awaits, publish_state, publish_at, invalidate_at,
  publish_fitted, publish, invalidate, Call, call_lookup, call_publish, call_invalidate, call_clear,
  run,
}
use nonebot_plugin_moellmcha.HistoryCache.Entries.{
  Drawn, new_generation-Drawn, All-drop_where, All-evict_above, All-lookup, awaits-eq, Holds,
}
use nonebot_plugin_moellmcha.HistoryCache.Kept.{Allowed, run-Keeps}

module _ {B : Type 0} (codec : Codec B) where
  -- A call whose factory never returns the text.
  abbrev pub NeverDraws : String → Call codec → Type 0
  NeverDraws g (call_lookup i conversation limit) = ¬ Drawn i.draw g
  NeverDraws g (call_publish i t w) = Unit
  NeverDraws g (call_invalidate i conversation) = ¬ Drawn i.draw g
  NeverDraws g (call_clear i) = Unit

  -- a state under another key, or of another generation
  abbrev IsOther : String → String → String × Entry B → Type 0
  IsOther fingerprint g (k, e) = k ≡ fingerprint → e.generation ≢ g

  pop-IsOther :
      (fingerprint g : String) (d : List (String × Entry B))
      → All (IsOther fingerprint g) (pop String-discrete fingerprint d)
  unfolding pop
  pop-IsOther fingerprint g [] = tt
  pop-IsOther fingerprint g ((k, e) ∷ d) =
      elim (String-discrete k fingerprint)
        as (λ x. All (IsOther fingerprint g) (
          ite x (pop String-discrete fingerprint d) ((k, e) ∷ pop String-discrete fingerprint d))) [
            | yes q ↦ pop-IsOther fingerprint g d
            | no n ↦ (λ q. absurd (n q), pop-IsOther fingerprint g d)
          ]

  invalidate-returns :
      (i : Input) (conversation : String) (c c' : Cache B)
      → invalidate codec i conversation c ≡ (return tt, c')
      → (g : String) × (now : ℕ) × Drawn i.draw g
        × (c'.states
            ≡ (store_last
                (codec.fingerprint conversation)
                (reserved c.settings now g)
                (prune now c)).states)
        × (c'.settings ≡ c.settings)
  unfolding invalidate owned timed invalidate_at generated store_last prune
  invalidate-returns i conversation c c' h = elim (Option-cases i.caller) [
    | inl a ↦ absurd (ground (arith, h, a))
    | inr (caller, a) ↦ elim (Option-cases i.clock) [
      | inl b ↦ absurd (ground (arith, h, a, b))
      | inr (now, b) ↦ elim (Option-cases (new_generation i.draw 32 0)) [
        | inl d ↦ absurd (ground (arith, h, a, b, d))
        | inr (g, d) ↦ (
          g,
          now,
          new_generation-Drawn i.draw 32 0 g d,
          ground (arith, h, a, b, d),
          ground (arith, h, a, b, d),
        )
      ]
    ]
  ]

  publish-returns :
      (j : Input) (t : Token) (w : Window B) (c : Cache B)
      → (publish codec j t w c).0 ≡ return true
      → (now : ℕ) × (awaits t (lookup String-discrete t.fingerprint (prune now c).states) ≡ true)
  unfolding publish publish_fitted owned timed publish_at publish_state prune
  publish-returns j t w c h = elim (Option-cases j.clock) [
    | inl b ↦ absurd (ground (arith, h, b))
    | inr (now, b) ↦ (now, ground (arith, h, b))
  ]

  invalidate-Holds :
      (i : Input) (conversation : String) (c c' : Cache B) (g : String)
      → ¬ Drawn i.draw g
      → invalidate codec i conversation c ≡ (return tt, c')
      → Holds codec c.settings (IsOther (codec.fingerprint conversation) g) c'
  unfolding store_last reserved prune
  invalidate-Holds i conversation c c' g fresh h =
      let fingerprint = codec.fingerprint conversation in
      let (g', now, drawn, states, settings) = invalidate-returns i conversation c c' h in
      let others = pop String-discrete fingerprint (prune now c).states in
      let new : Entry B = reserved c.settings now g' in
      let is_new : IsOther fingerprint g (fingerprint, new) =
        λ same q. fresh (subst (Drawn i.draw) q drawn) in
      record {
        same_settings = settings;
        bounded = rw states (
            length-evict_above-le c.settings.max_conversations (others ++ (fingerprint, new) ∷ []));
        entries = rw states (
            All-evict_above (IsOther fingerprint g) c.settings.max_conversations _ (
              All-append (IsOther fingerprint g) others ((fingerprint, new) ∷ [])
                (pop-IsOther fingerprint g (prune now c).states) (is_new, tt)));
      }

  NeverDraws-Allowed :
      (settings : Settings) (fingerprint g : String) (call : Call codec)
      → NeverDraws g call
      → Allowed codec settings (IsOther fingerprint g) call
  unfolding reserved published
  NeverDraws-Allowed settings fingerprint g (call_lookup i conversation limit) never =
      λ g' now drawn same q. never (subst (Drawn i.draw) q drawn)
  NeverDraws-Allowed settings fingerprint g (call_invalidate i conversation) never =
      λ g' now drawn same q. never (subst (Drawn i.draw) q drawn)
  NeverDraws-Allowed settings fingerprint g (call_publish i t w) never =
      λ e now p generation matches same q. p same (generation ∙ q)
  NeverDraws-Allowed settings fingerprint g (call_clear i) never = tt

  NeverDraws-All :
      (settings : Settings) (fingerprint g : String) (calls : List (Call codec))
      → All (NeverDraws g) calls
      → All (Allowed codec settings (IsOther fingerprint g)) calls
  NeverDraws-All settings fingerprint g [] never = tt
  NeverDraws-All settings fingerprint g (call ∷ calls) never = (
    NeverDraws-Allowed settings fingerprint g call never.0,
    NeverDraws-All settings fingerprint g calls never.1,
  )

  -- After a conversation is invalidated, a token for it from before is refused for ever, whatever calls come
  -- between, if no generation drawn since is the token's: a window read before the write is not cached after it.
  pub stale_load_refused :
      (i : Input) (conversation : String) (c c' : Cache B) (calls : List (Call codec)) (j : Input)
      (t : Token) (w : Window B)
      → invalidate codec i conversation c ≡ (return tt, c')
      → t.fingerprint ≡ codec.fingerprint conversation
      → ¬ Drawn i.draw t.generation
      → All (NeverDraws t.generation) calls
      → (publish codec j t w (run codec calls c')).0 ≢ return true
  unfolding prune
  stale_load_refused i conversation c c' calls j t w done same fresh never accepted =
      let P = IsOther (codec.fingerprint conversation) t.generation in
      let d = run codec calls c' in
      let kept =
        run-Keeps codec c.settings P calls
          (NeverDraws-All c.settings (codec.fingerprint conversation) t.generation calls never) c'
          (invalidate-Holds i conversation c c' t.generation fresh done) in
      let (now, waits) = publish-returns j t w d accepted in
      let (e, found, empty, generation, expiry) =
        awaits-eq t (lookup String-discrete t.fingerprint (prune now d).states) waits in
      All-lookup P String-discrete t.fingerprint e (prune now d).states
        (All-drop_where P (is_expired now) d.states kept.entries) found same generation
