-- ===== src/ClassificationCache/Clearing.antt =====
-- A classification that was asked for before a clear is not cached after it.
use nonebot_plugin_moellmcha.Prelude.{
  ℕ, ◌+◌, ◌<◌, ◌≡◌, inl, inr, refl, sym, ◌∙◌, ap, subst, arith, Option, none, some, List, String,
  lookup, Option-cases,
}
use nonebot_plugin_moellmcha.HistoryCache.Entries.{All-lookup}
use nonebot_plugin_moellmcha.ClassificationCache.Key.{Key, Key-discrete, Record}
use nonebot_plugin_moellmcha.ClassificationCache.State.{
  Outcome, return, raise, Settings, Flight, Cache, Input, owned, init,
}
use nonebot_plugin_moellmcha.ClassificationCache.Cache.{
  build_and_publish, drop_flight, land, finish, clear_records, clear, Call, run,
}
use nonebot_plugin_moellmcha.ClassificationCache.Invariant.{IsPast, IsSound}
use nonebot_plugin_moellmcha.ClassificationCache.Calls.{run-IsSound, clear-Keeps, run-init-IsSound}

module _ (utf8_length : String → ℕ) where
  clear-returns :
      (i : Input) (c c' : Cache)
      → clear utf8_length i c ≡ (return tt, c')
      → c'.clear_epoch ≡ c.clear_epoch + 1
  unfolding clear clear_records owned
  clear-returns i c c' h = elim (Option-cases i.caller) [
    | inl q ↦ absurd (ground (arith, h, q))
    | inr (o, q) ↦ ground (arith, h, q)
  ]

  drop_flight-records :
      (k : Key) (task : ℕ) (o : Option Flight) (c : Cache)
      → (drop_flight utf8_length k task o c).records ≡ c.records
  unfolding drop_flight
  drop_flight-records k task none c = refl
  drop_flight-records k task (some f) c = ground arith

  stale_build :
      (i j : Input) (k : Key) (epoch : ℕ) (built : Outcome Record) (c : Cache)
      → epoch < c.clear_epoch
      → (build_and_publish utf8_length i j k epoch built c).1 ≡ c
  unfolding build_and_publish
  stale_build i j k epoch (raise e) c h = refl
  stale_build i j k epoch (return r) c h = ground (arith, h)

  stale_answer :
      (i j : Input) (k : Key) (epoch : ℕ) (r : Record) (c : Cache)
      → epoch < c.clear_epoch
      → r.key ≡ k
      → (build_and_publish utf8_length i j k epoch (return r) c).0 ≡ return r
  unfolding build_and_publish
  stale_answer i j k epoch r c h same = ground (arith, h, same)

  -- When a cache is cleared while the task of a key is still building, after any calls before the clear and after it,
  -- the end of the task leaves the entries as they are, whatever its builder returned or raised, and those who wait
  -- for the task are given the record that it built for the key.
  pub cleared_task_writes_nothing :
      (settings : Settings) (before after : List (Call utf8_length)) (i : Input) (c' : Cache)
      (k : Key) (f : Flight) (j l : Input) (built : Outcome Record)
      → lookup Key-discrete k (run utf8_length before (init settings)).flights ≡ some f
      → clear utf8_length i (run utf8_length before (init settings)) ≡ (return tt, c')
      → ((finish utf8_length j l k f built (run utf8_length after c')).1.records
          ≡ (run utf8_length after c').records)
        × ((r : Record)
            → built ≡ return r
            → r.key ≡ k
            → (finish utf8_length j l k f built (run utf8_length after c')).0 ≡ return r)
  unfolding finish land
  cleared_task_writes_nothing settings before after i c' k f j l built running cleared =
      let c = run utf8_length before (init settings) in
      let d = run utf8_length after c' in
      let sound = run-init-IsSound utf8_length settings before in
      let started =
        All-lookup (IsPast c.clear_epoch) Key-discrete k f c.flights sound.tasks running in
      let epoch = clear-returns i c c' cleared in
      let sound' : IsSound utf8_length settings 0 c' =
        subst (λ (x : Outcome (Unit {0}) × Cache). IsSound utf8_length settings 0 x.1) cleared
          (clear-Keeps utf8_length settings 0 i c sound) in
      let later = run-IsSound utf8_length settings c'.clear_epoch after c' (record {
        within = sound'.within;
        distinct = sound'.distinct;
        entries = sound'.entries;
        tasks = sound'.tasks;
        since = omega arith;
        configured = sound'.configured;
      }) in
      let stale : f.clear_epoch < d.clear_epoch = omega (arith, started, epoch, later.since) in
      let built_cache = (build_and_publish utf8_length j l k f.clear_epoch built d).1 in
      (
        drop_flight-records k f.task (lookup Key-discrete k built_cache.flights) built_cache
            ∙ ap (λ (x : Cache). x.records) (stale_build j l k f.clear_epoch built d stale),
        λ r returned same.
            subst
              (λ (b : Outcome Record).
                (build_and_publish utf8_length j l k f.clear_epoch b d).0 ≡ return r)
              (sym returned) (stale_answer j l k f.clear_epoch r d stale same),
      )
