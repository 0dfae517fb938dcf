-- ===== src/HistoryCache/Entries.antt =====
-- The entries of the cache: what the changes of them keep.
use nonebot_plugin_moellmcha.Prelude.{
  ℕ, zero, suc, ◌+◌, ◌≤◌, ◌≡◌, inl, inr, refl, subst, arith, Bool, true, Option, none, some, List,
  [], ◌∷◌, ◌++◌, String, String-discrete, length, length-append, lookup, pop, drop_where,
  evict_above, All, All-append, length-evict_above-le, length-drop_where-le, length-pop-lt,
  Option-cases, Bool-cases,
}
use nonebot_plugin_moellmcha.Cooldowns.Claims.{matches_token}
use nonebot_plugin_moellmcha.HistoryCache.Window.{Codec}
use nonebot_plugin_moellmcha.HistoryCache.Cache.{
  Settings, Entry, Token, Cache, new_generation, is_expired, prune, store_last, touch, awaits,
}

-- a text that the factory returns
abbrev pub Drawn : (ℕ → Option String) → String → Type 0
Drawn draw g = (i : ℕ) × (draw i ≡ some g)

pub new_generation-Drawn :
    (draw : ℕ → Option String) (n i : ℕ) (g : String)
    → new_generation draw n i ≡ some g
    → Drawn draw g
unfolding new_generation
new_generation-Drawn draw zero i g h = ground (arith, h)
new_generation-Drawn draw (suc n) i g h = elim (Option-cases (draw i)) [
  | inl q ↦ ground (arith, h, q)
  | inr (x, q) ↦ elim (Bool-cases (matches_token 32 x)) [
    | inl b ↦ (i, ground (arith, h, q, b))
    | inr b ↦ new_generation-Drawn draw n (i + 1) g (ground (arith, h, q, b))
  ]
]

module _ {K V : Type 0} (P : K × V → Type 0) where
  pub All-drop_where : (p : V → Bool) (d : List (K × V)) → All P d → All P (drop_where p d)
  unfolding drop_where
  All-drop_where p [] h = tt
  All-drop_where p ((k, v) ∷ d) h = ground (arith, All-drop_where p d h.1)

  pub All-evict_above : (n : ℕ) (d : List (K × V)) → All P d → All P (evict_above n d)
  unfolding evict_above
  All-evict_above n [] h = tt
  All-evict_above n (e ∷ d) h = ground (arith, All-evict_above n d h.1)

  pub All-pop : (dec : Discrete K) (k : K) (d : List (K × V)) → All P d → All P (pop dec k d)
  unfolding pop
  All-pop dec k [] h = tt
  All-pop dec k ((j, v) ∷ d) h = ground (arith, All-pop dec k d h.1)

  pub All-lookup :
      (dec : Discrete K) (k : K) (v : V) (d : List (K × V))
      → All P d
      → lookup dec k d ≡ some v
      → P (k, v)
  unfolding lookup
  All-lookup dec k v [] h q = absurd (cc)
  All-lookup dec k v ((j, w) ∷ d) h q = elim (dec j k) [
    | yes e ↦ subst P (ground (arith, e, q)) h.0
    | no n ↦ All-lookup dec k v d h.1 (ground (arith, n, q))
  ]

pub awaits-eq :
    {B : Type 0} (t : Token) (o : Option (Entry B))
    → awaits t o ≡ true
    → (e : Entry B) × (o ≡ some e)
      × (e.window ≡ none)
      × (e.generation ≡ t.generation)
      × (e.expires_at ≡ t.expires_at)
unfolding awaits
awaits-eq t none h = ground (arith, h)
awaits-eq t (some e) h = (e, refl, ground (arith, h), ground (arith, h), ground (arith, h))

module _ {B : Type 0} (codec : Codec B) (settings : Settings) (P : String × Entry B → Type 0) where
  pub record Holds (c : Cache B) : Type 0 where
    pub same_settings : c.settings ≡ settings
    pub bounded : length c.states ≤ settings.max_conversations
    pub entries : All P c.states

  pub store_last-Holds :
      (fingerprint : String) (e : Entry B) (c : Cache B)
      → P (fingerprint, e)
      → Holds c
      → Holds (store_last fingerprint e c)
  unfolding store_last
  store_last-Holds fingerprint e c p h = record {
    same_settings = h.same_settings;
    bounded =
        subst (λ (r : Settings). length (store_last fingerprint e c).states ≤ r.max_conversations)
          h.same_settings
          (length-evict_above-le c.settings.max_conversations
            (pop String-discrete fingerprint c.states ++ (fingerprint, e) ∷ []));
    entries =
        All-evict_above P c.settings.max_conversations
          (pop String-discrete fingerprint c.states ++ (fingerprint, e) ∷ [])
          (All-append P (pop String-discrete fingerprint c.states) ((fingerprint, e) ∷ [])
            (All-pop P String-discrete fingerprint c.states h.entries) (p, tt));
  }

  pub prune-Holds : (now : ℕ) (c : Cache B) → Holds c → Holds (prune now c)
  unfolding prune
  prune-Holds now c h = record {
    same_settings = h.same_settings;
    bounded = omega (arith, h.bounded, length-drop_where-le (is_expired now) c.states);
    entries = All-drop_where P (is_expired now) c.states h.entries;
  }

  pub touch-Holds :
      (fingerprint : String) (e : Entry B) (c : Cache B)
      → lookup String-discrete fingerprint c.states ≡ some e
      → Holds c
      → Holds (touch fingerprint e c)
  unfolding touch
  touch-Holds fingerprint e c found h = record {
    same_settings = h.same_settings;
    bounded = omega (
      arith,
      h.bounded,
      length-append (pop String-discrete fingerprint c.states) ((fingerprint, e) ∷ []),
      length-pop-lt String-discrete fingerprint e c.states found,
    );
    entries =
        All-append P (pop String-discrete fingerprint c.states) ((fingerprint, e) ∷ [])
          (All-pop P String-discrete fingerprint c.states h.entries)
          (All-lookup P String-discrete fingerprint e c.states h.entries found, tt);
  }
