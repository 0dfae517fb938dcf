-- ===== src/ClassificationCache/Methods.antt =====
-- What every method of a cache keeps.
use nonebot_plugin_moellmcha.Prelude.{
  ℕ, ◌+◌, ◌≡◌, refl, arith, Bool, true, false, Option, none, some, [], ◌∷◌, ◌++◌, String,
  if◌then◌else◌, ◌==◌, lookup, IsDict, append_end-IsDict, All, All-append,
}
use nonebot_plugin_moellmcha.ClassificationCache.Key.{Key, Key-discrete, Record}
use nonebot_plugin_moellmcha.ClassificationCache.State.{
  unavailable, ownership_error, Outcome, raise, Settings, Entry, Flight, Owner, Cache, Input,
  same_owner, Method, owned, is_before, timed,
}
use nonebot_plugin_moellmcha.ClassificationCache.Cache.{
  bytes_of, prune, evict, found, lookup_at, lookup_record, store, publish_at, publish, join,
  resolve_found, resolve_at, resolve_exact,
}
use nonebot_plugin_moellmcha.ClassificationCache.Entries.{
  sum_bytes-append, sum_bytes_one, drop_oldest-IsWithin, drop_oldest-keeps,
}
use nonebot_plugin_moellmcha.ClassificationCache.Invariant.{
  IsOf, IsPast, IsSound, prune-IsSound, touch-IsSound, owner-IsSound, time-IsSound,
}

module _ (utf8_length : String → ℕ) (settings : Settings) (first : ℕ) where
  pub if-IsSound :
      {A : Type 0} (b : Bool) (x y : Outcome A × Cache)
      → IsSound utf8_length settings first x.1
      → IsSound utf8_length settings first y.1
      → IsSound utf8_length settings first (if b then x else y).1
  if-IsSound true x y h k = h
  if-IsSound false x y h k = k

  abbrev pub Keeps : {A : Type 0} → Method A → Type 0
  Keeps m =
      (c : Cache)
      → IsSound utf8_length settings first c
      → IsSound utf8_length settings first (m c).1

  pub owned-Keeps :
      {A : Type 0} (caller : Option Owner) (m : Method A) → Keeps m → Keeps (owned caller m)
  unfolding owned
  owned-Keeps none m k c h = h
  owned-Keeps {A} (some caller) m k c h =
      if-IsSound (caller.pid == 0) (raise unavailable, c) _ h (bind c.owner)
    where
      bind :
          (o : Option Owner)
          → IsSound utf8_length settings first (
              let r : Outcome A × Cache = elim o [
                | none ↦ m (record c { owner = some caller })
                | some p ↦ if same_owner caller p then m c else (raise ownership_error, c)
              ] in
              r.1)
      bind none =
          k (record c { owner = some caller })
            (owner-IsSound utf8_length settings first (some caller) c h)
      bind (some p) = if-IsSound (same_owner caller p) (m c) (raise ownership_error, c) (k c h) h

  timed-Keeps :
      {A : Type 0} (clock : Option ℕ) (m : ℕ → Method A)
      → ((now : ℕ) → Keeps (m now))
      → Keeps (timed clock m)
  unfolding timed
  timed-Keeps none m k c h = h
  timed-Keeps (some now) m k c h =
      if-IsSound (is_before now c.last_now) (raise unavailable, c) _ h
        (k now (record c { last_now = some now })
          (time-IsSound utf8_length settings first (some now) c h))

  found-IsSound :
      (k : Key) (o : Option Entry) (c : Cache)
      → lookup Key-discrete k c.records ≡ o
      → IsSound utf8_length settings first c
      → IsSound utf8_length settings first (found utf8_length k o c).1
  unfolding found
  found-IsSound k none c q h = h
  found-IsSound k (some e) c q h = touch-IsSound utf8_length settings first k e c q h

  store-IsSound :
      (r : Record) (now : ℕ) (o : Option Entry) (c : Cache)
      → lookup Key-discrete r.key c.records ≡ o
      → IsSound utf8_length settings first c
      → IsSound utf8_length settings first (store utf8_length r now o c).1
  unfolding store evict
  store-IsSound r now (some e) c q h = touch-IsSound utf8_length settings first r.key e c q h
  store-IsSound r now none c q h =
      let e : Entry = record {
        value = r;
        expires_at = now + r.key.ttl;
        clear_epoch = c.clear_epoch;
      } in
      let d = c.records ++ (r.key, e) ∷ [] in
      let total = c.total_bytes + bytes_of utf8_length e in
      record {
        within = drop_oldest-IsWithin utf8_length c.settings d total (
            omega (
              arith,
              h.within.total_right,
              sum_bytes-append utf8_length c.records ((r.key, e) ∷ []),
              sum_bytes_one utf8_length r.key e,
            ));
        distinct =
            drop_oldest-keeps utf8_length (IsDict Key-discrete) c.settings (λ k f rest i. i.1) d
              total (append_end-IsDict Key-discrete r.key e c.records q h.distinct);
        entries =
            drop_oldest-keeps utf8_length (All (IsOf c.clear_epoch)) c.settings (λ k f rest i. i.1)
              d total
              (All-append (IsOf c.clear_epoch) c.records ((r.key, e) ∷ []) h.entries
                ((refl, refl), tt));
        tasks = h.tasks;
        since = h.since;
        configured = h.configured;
      }

  join-IsSound : (k : Key) (o : Option Flight) → Keeps (join utf8_length k o)
  unfolding join
  join-IsSound k (some f) c h = h
  join-IsSound k none c h = record {
    within = h.within;
    distinct = h.distinct;
    entries = h.entries;
    tasks = All-append (IsPast c.clear_epoch) c.flights _ h.tasks (omega arith, tt);
    since = h.since;
    configured = h.configured;
  }

  resolve_found-IsSound :
      (k : Key) (o : Option Entry) (c : Cache)
      → lookup Key-discrete k c.records ≡ o
      → IsSound utf8_length settings first c
      → IsSound utf8_length settings first (resolve_found utf8_length k o c).1
  unfolding resolve_found
  resolve_found-IsSound k none c q h = join-IsSound k (lookup Key-discrete k c.flights) c h
  resolve_found-IsSound k (some e) c q h = touch-IsSound utf8_length settings first k e c q h

  pub lookup_record-Keeps : (i : Input) (k : Key) → Keeps (lookup_record utf8_length i k)
  unfolding lookup_record lookup_at
  lookup_record-Keeps i k = owned-Keeps i.caller _ (
      timed-Keeps i.clock _ (λ now c h.
        found-IsSound k (lookup Key-discrete k (prune utf8_length now c).records)
          (prune utf8_length now c) refl (prune-IsSound utf8_length settings first now c h)))

  pub publish-Keeps : (i : Input) (r : Record) → Keeps (publish utf8_length i r)
  unfolding publish publish_at
  publish-Keeps i r c h =
      if-IsSound _ (raise unavailable, c) _ h
        (owned-Keeps i.caller _
          (timed-Keeps i.clock _ (λ now d s.
            store-IsSound r now (lookup Key-discrete r.key (prune utf8_length now d).records)
              (prune utf8_length now d) refl (prune-IsSound utf8_length settings first now d s)))
          c h)

  pub resolve_exact-Keeps : (i : Input) (k : Key) → Keeps (resolve_exact utf8_length i k)
  unfolding resolve_exact resolve_at
  resolve_exact-Keeps i k = owned-Keeps i.caller _ (
      timed-Keeps i.clock _ (λ now c h.
        resolve_found-IsSound k (lookup Key-discrete k (prune utf8_length now c).records)
          (prune utf8_length now c) refl (prune-IsSound utf8_length settings first now c h)))
