-- ===== src/HistoryCache/Kept.antt =====
-- What every call keeps: the settings, the bound on the number of states, and any property of the
-- states that a reserved and a published one have.
use nonebot_plugin_moellmcha.Prelude.{
  ℕ, ◌≡◌, inl, inr, refl, sym, subst, arith, Bool, true, false, Option, none, some, List, [], ◌∷◌,
  String, String-discrete, ite, if◌then◌else◌, leb, ◌==◌, lookup, All, Option-cases, Bool-cases,
}
use nonebot_plugin_moellmcha.HistoryCache.Window.{Window, Codec}
use nonebot_plugin_moellmcha.HistoryCache.Cache.{
  Outcome, return, raise, value_error, unavailable, ownership_error, same_owner, Settings, Entry,
  Token, Owner, Cache, Input, new_generation, Method, owned, timed, generated, prune, reserved,
  published, reserve, lookup_state, lookup_at, fitted, awaits, publish_state, publish_at,
  invalidate_at, clear_states, clear, lookup_window, publish_fitted, publish, invalidate, Call,
  call_lookup, call_publish, call_invalidate, call_clear, perform, run,
}
use nonebot_plugin_moellmcha.HistoryCache.Entries.{
  Drawn, new_generation-Drawn, All-lookup, awaits-eq, Holds, store_last-Holds, prune-Holds,
  touch-Holds,
}

module _ {B : Type 0} (codec : Codec B) (settings : Settings) (P : String × Entry B → Type 0) where
  -- What a property has to be true of for a call to keep it.
  abbrev pub ReservedHas : Input → String → Type 0
  ReservedHas i fingerprint =
      (g : String) (now : ℕ) → Drawn i.draw g → P (fingerprint, reserved settings now g)

  abbrev pub Allowed : Call codec → Type 0
  Allowed (call_lookup i conversation limit) = ReservedHas i (codec.fingerprint conversation)
  Allowed (call_invalidate i conversation) = ReservedHas i (codec.fingerprint conversation)
  Allowed (call_clear i) = Unit
  Allowed (call_publish i t window) =
      (e : Entry B) (now : ℕ)
      → P (t.fingerprint, e)
      → e.generation ≡ t.generation
      → codec.fingerprint (fitted settings window).conversation_id ≡ t.fingerprint
      → P (t.fingerprint, published settings t (fitted settings window) now)

  abbrev Keeps : {A : Type 0} → Method B A → Type 0
  Keeps m = (c : Cache B) → Holds codec settings P c → Holds codec settings P (m c).1

  if-Holds :
      {A : Type 0} (b : Bool) (x y : Outcome A × Cache B)
      → Holds codec settings P x.1
      → Holds codec settings P y.1
      → Holds codec settings P (if b then x else y).1
  if-Holds true x y h k = h
  if-Holds false x y h k = k

  owner-Holds :
      (c : Cache B) (o : Option Owner)
      → Holds codec settings P c
      → Holds codec settings P (record c { owner = o })
  owner-Holds c o h = record {
    same_settings = h.same_settings;
    bounded = h.bounded;
    entries = h.entries;
  }

  owned-Keeps :
      {A : Type 0} (caller : Option Owner) (m : Method B A) → Keeps m → Keeps (owned caller m)
  unfolding owned
  owned-Keeps none m k c h = h
  owned-Keeps {A} (some caller) m k c h =
      if-Holds (caller.pid == 0) (raise ownership_error, c) _ h (bind c.owner)
    where
      bind :
          (o : Option Owner)
          → Holds codec settings P (
              let r : Outcome A × Cache B = elim o [
                | none ↦ m (record c { owner = some caller })
                | some p ↦ if same_owner p caller then m c else (raise ownership_error, c)
              ] in
              r.1)
      bind none = k (record c { owner = some caller }) (owner-Holds c (some caller) h)
      bind (some p) = if-Holds (same_owner p caller) (m c) (raise ownership_error, c) (k c h) h

  timed-Keeps :
      {A : Type 0} (clock : Option ℕ) (m : ℕ → Method B A)
      → ((now : ℕ) → Keeps (m now))
      → Keeps (timed clock m)
  unfolding timed
  timed-Keeps none m k c h = h
  timed-Keeps (some now) m k c h = k now c h

  generated-Keeps :
      {A : Type 0} (draw : ℕ → Option String) (m : String → Method B A)
      → ((g : String) → Drawn draw g → Keeps (m g))
      → Keeps (generated draw m)
  unfolding generated
  generated-Keeps draw m k c h = elim (Option-cases (new_generation draw 32 0)) [
    | inl q ↦ rw (q, generated) h
    | inr (g, q) ↦ rw (q, generated) (k g (new_generation-Drawn draw 32 0 g q) c h)
  ]

  reserve-Keeps :
      (limit : ℕ) (fingerprint : String) (now : ℕ) (g : String)
      → P (fingerprint, reserved settings now g)
      → Keeps (reserve limit fingerprint now g)
  unfolding reserve
  reserve-Keeps limit fingerprint now g p c h =
      store_last-Holds codec settings P fingerprint (reserved c.settings now g) c
        (subst (λ (r : Settings). P (fingerprint, reserved r now g)) (sym h.same_settings) p) h

  lookup_at-Keeps :
      (i : Input) (limit : ℕ) (fingerprint : String)
      → ReservedHas i fingerprint
      → (now : ℕ) → Keeps (lookup_at i.draw limit fingerprint now)
  unfolding lookup_at
  lookup_at-Keeps i limit fingerprint has now c h =
      state (lookup String-discrete fingerprint (prune now c).states) refl
    where
      pruned : Holds codec settings P (prune now c)
      pruned = prune-Holds codec settings P now c h

      state :
          (o : Option (Entry B))
          → lookup String-discrete fingerprint (prune now c).states ≡ o
          → Holds codec settings P (lookup_state i.draw limit fingerprint now o (prune now c)).1
      state none q =
          generated-Keeps i.draw (reserve limit fingerprint now)
            (λ g d. reserve-Keeps limit fingerprint now g (has g now d)) (prune now c) pruned
      state (some e) q = touch-Holds codec settings P fingerprint e (prune now c) q pruned

  invalidate_at-Keeps :
      (i : Input) (fingerprint : String)
      → ReservedHas i fingerprint
      → (now : ℕ) → Keeps (invalidate_at i.draw fingerprint now)
  unfolding invalidate_at
  invalidate_at-Keeps i fingerprint has now = generated-Keeps i.draw _ (λ g d c h.
      store_last-Holds codec settings P fingerprint (reserved c.settings now g) (prune now c)
        (subst (λ (r : Settings). P (fingerprint, reserved r now g)) (sym h.same_settings)
          (has g now d))
        (prune-Holds codec settings P now c h))

  publish_state-Keeps :
      (i : Input) (t : Token) (window : Window B)
      → Allowed (call_publish i t window)
      → codec.fingerprint (fitted settings window).conversation_id ≡ t.fingerprint
      → (now : ℕ) → Keeps (publish_state t (fitted settings window) now)
  unfolding publish_state
  publish_state-Keeps i t window has same now c h =
      elim (Bool-cases (awaits t (lookup String-discrete t.fingerprint c.states))) [
        | inl b ↦
            let (e, found, open_, generation, expiry) =
              awaits-eq t (lookup String-discrete t.fingerprint c.states) b in
            let p =
              has e now (All-lookup P String-discrete t.fingerprint e c.states h.entries found)
                generation same in
            rw (b, publish_state)
              (store_last-Holds codec settings P t.fingerprint
                (published c.settings t (fitted settings window) now) c
                (subst
                  (λ (r : Settings). P (t.fingerprint, published r t (fitted settings window) now))
                  (sym h.same_settings) p)
                h)
        | inr b ↦ rw (b, publish_state) h
      ]

  publish_at-Keeps :
      (i : Input) (t : Token) (window : Window B)
      → Allowed (call_publish i t window)
      → codec.fingerprint (fitted settings window).conversation_id ≡ t.fingerprint
      → (now : ℕ) → Keeps (publish_at t (fitted settings window) now)
  unfolding publish_at
  publish_at-Keeps i t window has same now c h =
      if-Holds (leb t.expires_at now) (return false, c) _ h
        (publish_state-Keeps i t window has same now (prune now c)
          (prune-Holds codec settings P now c h))

  lookup_window-Keeps :
      (i : Input) (conversation : String) (limit : ℕ)
      → ReservedHas i (codec.fingerprint conversation)
      → Keeps (lookup_window codec i conversation limit)
  unfolding lookup_window
  lookup_window-Keeps i conversation limit has c h =
      if-Holds _ (raise value_error, c) _ h
        (owned-Keeps i.caller _
          (timed-Keeps i.clock _ (lookup_at-Keeps i limit (codec.fingerprint conversation) has)) c
          h)

  invalidate-Keeps :
      (i : Input) (conversation : String)
      → ReservedHas i (codec.fingerprint conversation)
      → Keeps (invalidate codec i conversation)
  unfolding invalidate
  invalidate-Keeps i conversation has c h =
      if-Holds _ (raise value_error, c) _ h
        (owned-Keeps i.caller _
          (timed-Keeps i.clock _ (invalidate_at-Keeps i (codec.fingerprint conversation) has)) c h)

  publish-Keeps :
      (i : Input) (t : Token) (window : Window B)
      → Allowed (call_publish i t window)
      → Keeps (publish codec i t window)
  unfolding publish publish_fitted
  publish-Keeps i t window has c h =
      subst
        (λ (r : Settings). Holds codec settings P (publish_fitted codec i t (fitted r window) c).1)
        (sym h.same_settings)
        (if-Holds _ (raise unavailable, c) _ h
          (elim (String-discrete (codec.fingerprint (fitted settings window).conversation_id)
              t.fingerprint)
            as (λ d. Holds codec settings P (
              let r : Outcome Bool × Cache B =
                if ite d false true
                then (raise value_error, c)
                else owned i.caller (timed i.clock (publish_at t (fitted settings window))) c in
              r.1)) [
                | yes same ↦
                    owned-Keeps i.caller _
                      (timed-Keeps i.clock _ (publish_at-Keeps i t window has same)) c h
                | no n ↦ h
              ]))

  pub perform-Keeps :
      (call : Call codec)
      → Allowed call
      → (c : Cache B) → Holds codec settings P c
      → Holds codec settings P (perform codec call c)
  unfolding perform clear
  perform-Keeps (call_lookup i conversation limit) has c h =
      lookup_window-Keeps i conversation limit has c h
  perform-Keeps (call_publish i t window) has c h = publish-Keeps i t window has c h
  perform-Keeps (call_invalidate i conversation) has c h = invalidate-Keeps i conversation has c h
  perform-Keeps (call_clear i) has c h =
      owned-Keeps i.caller clear_states
        (λ d k. record { same_settings = k.same_settings; bounded = omega arith; entries = tt }) c h

  pub run-Keeps :
      (calls : List (Call codec))
      → All Allowed calls
      → (c : Cache B) → Holds codec settings P c
      → Holds codec settings P (run codec calls c)
  unfolding run
  run-Keeps [] has c h = h
  run-Keeps (call ∷ calls) has c h =
      run-Keeps calls has.1 (perform codec call c) (perform-Keeps call has.0 c h)
