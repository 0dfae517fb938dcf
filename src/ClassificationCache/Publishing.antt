-- ===== src/ClassificationCache/Publishing.antt =====
-- A record that was published is found by the next lookup.
use nonebot_plugin_moellmcha.Prelude.{
  ℕ, ◌+◌, ◌-◌, ◌≤◌, ◌<◌, ◌≡◌, refl, sym, ◌∙◌, ap, subst, arith, Bool, true, false, Option, none,
  some, List, [], ◌∷◌, ◌++◌, String, leb, ◌==◌, lookup, pop, unless, IsDict, lookup-drop_where,
}
use nonebot_plugin_moellmcha.ClassificationCache.Key.{
  Key, Key-discrete, is_key, Record, Record-discrete,
}
use nonebot_plugin_moellmcha.ClassificationCache.State.{
  Outcome, return, Settings, settings_are_valid, Entry, Owner, Records, Cache, Input, owned, timed,
  init,
}
use nonebot_plugin_moellmcha.ClassificationCache.Cache.{
  bytes_of, prune, evict, touch, found, lookup_at, lookup_record, store, publish_at, publish,
  drop_oldest, Call, run,
}
use nonebot_plugin_moellmcha.ClassificationCache.Entries.{sum_bytes, drop_expired-eq}
use nonebot_plugin_moellmcha.ClassificationCache.Invariant.{
  IsSound, prune-IsSound, owner-IsSound, time-IsSound,
}
use nonebot_plugin_moellmcha.ClassificationCache.Methods.{publish-Keeps}
use nonebot_plugin_moellmcha.ClassificationCache.Calls.{run-init-IsSound}
use nonebot_plugin_moellmcha.ClassificationCache.Results.{
  owned-returns, timed-returns, owner_again, clock_again, lookup_appended, pop_absent, same_results,
}

module _ (utf8_length : String → ℕ) where
  -- the newest entry fits, so that `_evict_locked` keeps it
  drop_oldest-newest :
      (settings : Settings) (k : Key) (e : Entry) (d : Records) (total : ℕ)
      → lookup Key-discrete k d ≡ none
      → total ≡ sum_bytes utf8_length d + bytes_of utf8_length e
      → bytes_of utf8_length e ≤ settings.max_total_bytes
      → 1 ≤ settings.max_entries
      → lookup Key-discrete k (drop_oldest utf8_length settings (d ++ (k, e) ∷ []) total).0 ≡ some e
  unfolding drop_oldest sum_bytes lookup
  drop_oldest-newest settings k e [] total absent h fits one = elim (Key-discrete k k) [
    | yes q ↦ ground (arith, q, h, fits, one)
    | no n ↦ absurd (n refl)
  ]
  drop_oldest-newest settings k e ((j, f) ∷ d) total absent h fits one = ground (
    arith,
    drop_oldest-newest settings k e d (total - bytes_of utf8_length f) (ground (arith, absent))
        (omega (arith, h)) fits one,
    lookup_appended k e d (ground (arith, absent)),
    absent,
  )

  -- the cache holds a record for a key, that has not expired
  Fresh : ℕ → Key → Record → Cache → Type 0
  Fresh now k r c =
      (e : Entry) × (lookup Key-discrete k c.records ≡ some e)
      × (e.value ≡ r)
      × (leb e.expires_at now ≡ false)

  pruned :
      (now : ℕ) (k : Key) (c : Cache)
      → IsDict Key-discrete c.records
      → lookup Key-discrete k (prune utf8_length now c).records
        ≡ unless (λ e. leb e.expires_at now) (lookup Key-discrete k c.records)
  unfolding prune
  pruned now k c dict =
      rw (drop_expired-eq utf8_length now c.records c.total_bytes)
        (lookup-drop_where Key-discrete (λ e. leb e.expires_at now) k c.records dict)

  store-Fresh :
      (r r' : Record) (now : ℕ) (c c' : Cache)
      → IsDict Key-discrete c.records
      → c.total_bytes ≡ sum_bytes utf8_length c.records
      → utf8_length r.result_json ≤ c.settings.max_total_bytes
      → 1 ≤ c.settings.max_entries
      → 0 < r.key.ttl
      → (o : Option Entry) → lookup Key-discrete r.key c.records ≡ o
      → unless (λ e. leb e.expires_at now) o ≡ o
      → store utf8_length r now o c ≡ (return r', c')
      → (r' ≡ r) × Fresh now r.key r c'
  unfolding store evict touch Fresh
  store-Fresh r r' now c c' dict total fits one ttl none q live h =
      let e : Entry = record {
        value = r;
        expires_at = now + r.key.ttl;
        clear_epoch = c.clear_epoch;
      } in
      let (same, after) = same_results r r' _ c' h in
      (
        sym same,
        (
          e,
          subst (λ (x : Cache). lookup Key-discrete r.key x.records ≡ some e) after
              (drop_oldest-newest c.settings r.key e c.records
                (c.total_bytes + bytes_of utf8_length e) q (omega (arith, total)) fits one),
          refl,
          ground (arith, ttl),
        ),
      )
  store-Fresh r r' now c c' dict total fits one ttl (some e) q live h =
      elim (Record-discrete e.value r) [
        | yes v ↦
            let (same, after) =
              same_results e.value r' (touch utf8_length r.key e c) c' (ground (arith, h, v)) in
            (
              sym same ∙ v,
              (
                e,
                subst (λ (x : Cache). lookup Key-discrete r.key x.records ≡ some e) after
                    (lookup_appended r.key e (pop Key-discrete r.key c.records)
                      (pop_absent r.key c.records)),
                v,
                ground (arith, live),
              ),
            )
        | no n ↦ absurd (ground (arith, h, n))
      ]

  lookup_at-Fresh :
      (now : ℕ) (k : Key) (r : Record) (c : Cache)
      → IsDict Key-discrete c.records
      → Fresh now k r c
      → (lookup_at utf8_length k now c).0 ≡ return (some r)
  unfolding lookup_at found Fresh
  lookup_at-Fresh now k r c dict (e, q, same, live) =
      let there : lookup Key-discrete k (prune utf8_length now c).records ≡ some e =
        pruned now k c dict ∙ ground (arith, q, live) in
      rw there (ap return (ap some same))

  store-time :
      (r : Record) (now : ℕ) (o : Option Entry) (c : Cache)
      → ((store utf8_length r now o c).1.owner ≡ c.owner)
        × ((store utf8_length r now o c).1.last_now ≡ c.last_now)
  unfolding store evict touch
  store-time r now none c = (refl, refl)
  store-time r now (some e) c = (refl, refl)

  unless_again : (p : Entry → Bool) (o : Option Entry) → unless p (unless p o) ≡ unless p o
  unless_again p none = refl
  unless_again p (some e) = ground arith

  live :
      (now : ℕ) (k : Key) (c : Cache)
      → IsDict Key-discrete c.records
      → unless (λ e. leb e.expires_at now) (lookup Key-discrete k (prune utf8_length now c).records)
        ≡ lookup Key-discrete k (prune utf8_length now c).records
  live now k c dict =
      rw (pruned now k c dict)
        (unless_again (λ e. leb e.expires_at now) (lookup Key-discrete k c.records))

  past_size :
      (c : Cache) (r r' : Record) (c' : Cache) (i : Input)
      → publish utf8_length i r c ≡ (return r', c')
      → owned i.caller (timed i.clock (publish_at utf8_length r)) c ≡ (return r', c')
  unfolding publish
  past_size c r r' c' i h = ground (arith, h)

  size_fits :
      {settings : Settings} (c : Cache) (r r' : Record) (c' : Cache) (i : Input)
      → c.settings ≡ settings
      → publish utf8_length i r c ≡ (return r', c')
      → utf8_length r.result_json ≤ settings.max_record_bytes
  unfolding publish
  size_fits {settings} c r r' c' i same h =
      subst (λ (x : Settings). utf8_length r.result_json ≤ x.max_record_bytes) same
        (ground (arith, h))

  -- what a publication leaves, once its time is read
  published_here :
      (settings : Settings) (now : ℕ) (r r' : Record) (c c' : Cache)
      → settings_are_valid settings ≡ true
      → is_key r.key ≡ true
      → utf8_length r.result_json ≤ settings.max_record_bytes
      → IsSound utf8_length settings 0 c
      → publish_at utf8_length r now c ≡ (return r', c')
      → (r' ≡ r) × Fresh now r.key r c' × (c'.owner ≡ c.owner) × (c'.last_now ≡ c.last_now)
  unfolding publish_at settings_are_valid is_key
  published_here settings now r r' c c' valid key fits sound h =
      let sound' = prune-IsSound utf8_length settings 0 now c sound in
      let p = prune utf8_length now c in
      let same : p.settings ≡ settings = sound'.configured in
      let (returned, fresh) =
        store-Fresh r r' now p c' sound'.distinct sound'.within.total_right
          (rw same (ground (arith, valid, fits))) (rw same (ground (arith, valid)))
          (ground (arith, key)) (lookup Key-discrete r.key p.records) refl
          (live now r.key c sound.distinct) h in
      let (owner, time) = store-time r now (lookup Key-discrete r.key p.records) p in
      (
        returned,
        fresh,
        subst (λ (x : Outcome Record × Cache). x.1.owner ≡ p.owner) h owner,
        subst (λ (x : Outcome Record × Cache). x.1.last_now ≡ p.last_now) h time,
      )

  lookup_again :
      (i : Input) (o : Owner) (now : ℕ) (r : Record) (c : Cache)
      → i.caller ≡ some o
      → i.clock ≡ some now
      → (o.pid == 0) ≡ false
      → c.owner ≡ some o
      → c.last_now ≡ some now
      → IsDict Key-discrete c.records
      → Fresh now r.key r c
      → (lookup_record utf8_length i r.key c).0 ≡ return (some r)
  unfolding lookup_record Fresh
  lookup_again i o now r c called read alive owner time dict fresh =
      let passed =
        owner_again o (timed (some now) (lookup_at utf8_length r.key)) c alive owner
        ∙ clock_again now (lookup_at utf8_length r.key) c time in
      subst
        (λ (x : Option Owner).
          (owned x (timed i.clock (lookup_at utf8_length r.key)) c).0 ≡ return (some r))
        (sym called)
        (subst
          (λ (x : Option ℕ).
            (owned (some o) (timed x (lookup_at utf8_length r.key)) c).0 ≡ return (some r))
          (sym read)
          (ap (λ (x : Outcome (Option Record) × Cache). x.0) passed
            ∙ lookup_at-Fresh now r.key r (record c { last_now = some now }) dict fresh))

  -- A publication that returns, after any calls on a new cache of valid settings, returns the very record, and a
  -- lookup that reads the same then finds it: it is not evicted for its own sake, and a record that was there under
  -- its key was the same.
  pub publish-lookup_record :
      (settings : Settings) (calls : List (Call utf8_length)) (i : Input) (r r' : Record)
      (c' : Cache)
      → settings_are_valid settings ≡ true
      → is_key r.key ≡ true
      → publish utf8_length i r (run utf8_length calls (init settings)) ≡ (return r', c')
      → (r' ≡ r) × ((lookup_record utf8_length i r.key c').0 ≡ return (some r))
  publish-lookup_record settings calls i r r' c' valid key h =
      found_again (run utf8_length calls (init settings))
        (run-init-IsSound utf8_length settings calls) h
    where
      found_again :
          (c : Cache)
          → IsSound utf8_length settings 0 c
          → publish utf8_length i r c ≡ (return r', c')
          → (r' ≡ r) × ((lookup_record utf8_length i r.key c').0 ≡ return (some r))
      found_again c sound e =
          let (o, called, alive, h1) =
            owned-returns i.caller (timed i.clock (publish_at utf8_length r)) c c' r'
              (past_size c r r' c' i e) in
          let (now, read, h2) =
            timed-returns i.clock (publish_at utf8_length r) (record c { owner = some o }) c' r'
              h1 in
          let (same, fresh, owner, time) =
            published_here settings now r r' (record c { owner = some o; last_now = some now }) c'
              valid key (size_fits c r r' c' i sound.configured e)
              (time-IsSound utf8_length settings 0 (some now) (record c { owner = some o })
                (owner-IsSound utf8_length settings 0 (some o) c sound))
              h2 in
          let sound' : IsSound utf8_length settings 0 c' =
            subst (λ (x : Outcome Record × Cache). IsSound utf8_length settings 0 x.1) e
              (publish-Keeps utf8_length settings 0 i r c sound) in
          (same, lookup_again i o now r c' called read alive owner time sound'.distinct fresh)
