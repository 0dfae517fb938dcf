-- ===== src/ClassificationCache/Cache.antt =====
-- The methods of `MemoryClassificationCache`. A method's body runs under the lock; no body waits while it holds
-- the lock, so that a task never finds it taken.
use nonebot_plugin_moellmcha.Prelude.{
  ℕ, ◌+◌, ◌-◌, ◌||◌, Option, none, some, List, [], ◌∷◌, ◌++◌, String, ite, if◌then◌else◌, ltb, leb,
  ◌==◌, length, lookup, pop,
}
use nonebot_plugin_moellmcha.ClassificationCache.Key.{Key, Key-discrete, Record, Record-discrete}
use nonebot_plugin_moellmcha.ClassificationCache.State.{
  unavailable, conflict, value_error, Outcome, return, raise, Settings, Entry, Flight, Records,
  Cache, Input, Method, owned, timed,
}

-- `result_bytes`: the length of a text in UTF-8
module _ (utf8_length : String → ℕ) where
  abbrev pub bytes_of : Entry → ℕ
  bytes_of e = utf8_length e.value.result_json

  -- the entries that are left of `records`, and what is left of the total
  unfoldable pub drop_expired : ℕ → Records → ℕ → Records × ℕ
  drop_expired now [] total = ([], total)
  drop_expired now ((k, e) ∷ records) total =
      let dropped = drop_expired now records (total - bytes_of e) in
      let kept = drop_expired now records total in
      if leb e.expires_at now then dropped else ((k, e) ∷ kept.0, kept.1)

  -- `_prune_locked`
  unfoldable pub prune : ℕ → Cache → Cache
  unfolding drop_expired
  prune now c =
      let r = drop_expired now c.records c.total_bytes in
      record c { records = r.0; total_bytes = r.1 }

  unfoldable pub drop_oldest : Settings → Records → ℕ → Records × ℕ
  drop_oldest settings [] total = ([], total)
  drop_oldest settings ((k, e) ∷ records) total =
      let rest = drop_oldest settings records (total - bytes_of e) in
      if ltb settings.max_entries (length ((k, e) ∷ records)) || ltb settings.max_total_bytes total
      then rest
      else ((k, e) ∷ records, total)

  -- `_evict_locked`
  unfoldable pub evict : Cache → Cache
  unfolding drop_oldest
  evict c =
      let r = drop_oldest c.settings c.records c.total_bytes in
      record c { records = r.0; total_bytes = r.1 }

  -- `move_to_end`, of a key that has the entry `e`
  unfoldable pub touch : Key → Entry → Cache → Cache
  touch k e c = record c { records = pop Key-discrete k c.records ++ (k, e) ∷ [] }

  unfoldable pub found : Key → Option Entry → Method (Option Record)
  unfolding touch
  found k none c = (return none, c)
  found k (some e) c = (return (some e.value), touch k e c)

  unfoldable pub lookup_at : Key → ℕ → Method (Option Record)
  unfolding found prune
  lookup_at k now c = found k (lookup Key-discrete k (prune now c).records) (prune now c)

  unfoldable pub lookup_record : Input → Key → Method (Option Record)
  unfolding owned timed lookup_at
  lookup_record i k = owned i.caller (timed i.clock (lookup_at k))

  -- the end of `publish`, with the entry that is there
  unfoldable pub store : Record → ℕ → Option Entry → Method Record
  unfolding touch evict
  store r now none c =
      let e : Entry = record {
        value = r;
        expires_at = now + r.key.ttl;
        clear_epoch = c.clear_epoch;
      } in
      (
        return r,
        evict (record c {
          records = c.records ++ (r.key, e) ∷ [];
          total_bytes = c.total_bytes + bytes_of e;
        }),
      )
  store r now (some e) c =
      (ite (Record-discrete e.value r) (return e.value) (raise conflict), touch r.key e c)

  unfoldable pub publish_at : Record → ℕ → Method Record
  unfolding store prune
  publish_at r now c = store r now (lookup Key-discrete r.key (prune now c).records) (prune now c)

  unfoldable pub publish : Input → Record → Method Record
  unfolding owned timed publish_at
  publish i r c =
      if ltb c.settings.max_record_bytes (utf8_length r.result_json)
      then (raise unavailable, c)
      else owned i.caller (timed i.clock (publish_at r)) c

  -- `_discard_if_own_publish`
  unfoldable pub discard_entry : Key → Record → Option Entry → Cache → Cache
  discard_entry k r none c = c
  discard_entry k r (some e) c =
      ite (Record-discrete e.value r)
        (if e.clear_epoch == c.clear_epoch then c else record c {
          records = pop Key-discrete k c.records;
          total_bytes = c.total_bytes - bytes_of e;
        })
        c

  unfoldable pub discard_if_own_publish : Key → Record → Cache → Cache
  unfolding discard_entry
  discard_if_own_publish k r c = discard_entry k r (lookup Key-discrete k c.records) c

  -- the checks of `_build_and_publish` once a record is published
  unfoldable pub confirm : Key → ℕ → Record → Method Record
  unfolding discard_if_own_publish
  confirm k epoch r c =
      ite (Key-discrete r.key k)
        (return r, if epoch == c.clear_epoch then c else discard_if_own_publish k r c)
        (raise unavailable, c)

  -- after a conflict: what the cache holds now
  unfoldable pub reread : Key → ℕ → Outcome (Option Record) × Cache → Outcome Record × Cache
  unfolding confirm
  reread k epoch (raise e, c) = (raise e, c)
  reread k epoch (return none, c) = (raise unavailable, c)
  reread k epoch (return (some r), c) = confirm k epoch r c

  unfoldable pub settle : Input → Key → ℕ → Outcome Record × Cache → Outcome Record × Cache
  unfolding confirm reread lookup_record
  settle i k epoch (return r, c) = confirm k epoch r c
  settle i k epoch (raise conflict, c) = reread k epoch (lookup_record i k c)
  settle i k epoch (raise e, c) = (raise e, c)

  -- `_build_and_publish`, from when the builder has returned; `publish` reads `i`, and `lookup`
  -- after a conflict `j`
  unfoldable pub build_and_publish : Input → Input → Key → ℕ → Outcome Record → Method Record
  unfolding publish settle
  build_and_publish i j k epoch (raise e) c = (raise e, c)
  build_and_publish i j k epoch (return r) c =
      ite (Key-discrete r.key k)
        (if epoch == c.clear_epoch then settle j k epoch (publish i r c) else (return r, c))
        (raise value_error, c)

  -- the `finally` of `_build_and_publish`, with the task that the key has
  unfoldable pub drop_flight : Key → ℕ → Option Flight → Cache → Cache
  drop_flight k task none c = c
  drop_flight k task (some f) c =
      if f.task == task then record c { flights = pop Key-discrete k c.flights } else c

  unfoldable pub land : Key → ℕ → Cache → Cache
  unfolding drop_flight
  land k task c = drop_flight k task (lookup Key-discrete k c.flights) c

  -- a task ends: its builder returned a record or raised an error
  unfoldable pub finish : Input → Input → Key → Flight → Outcome Record → Method Record
  unfolding build_and_publish land
  finish i j k f built c =
      let r = build_and_publish i j k f.clear_epoch built c in (r.0, land k f.task r.1)

  -- What a caller of `resolve_exact` is given: a record, or a task to wait for.
  pub data Answer : Type 0 where
    known : Record → Answer
    waits : ℕ → Answer

  unfoldable pub join : Key → Option Flight → Method Answer
  join k (some f) c = (return (waits f.task), c)
  join k none c =
      let f : Flight = record { task = c.next_task; clear_epoch = c.clear_epoch } in
      (
        return (waits f.task),
        record c { flights = c.flights ++ (k, f) ∷ []; next_task = c.next_task + 1 },
      )

  unfoldable pub resolve_found : Key → Option Entry → Method Answer
  unfolding touch join
  resolve_found k (some e) c = (return (known e.value), touch k e c)
  resolve_found k none c = join k (lookup Key-discrete k c.flights) c

  unfoldable pub resolve_at : Key → ℕ → Method Answer
  unfolding resolve_found prune
  resolve_at k now c = resolve_found k (lookup Key-discrete k (prune now c).records) (prune now c)

  unfoldable pub resolve_exact : Input → Key → Method Answer
  unfolding owned timed resolve_at
  resolve_exact i k = owned i.caller (timed i.clock (resolve_at k))

  unfoldable pub clear_records : Method (Unit {0})
  clear_records c =
      (return tt, record c { records = []; total_bytes = 0; clear_epoch = c.clear_epoch + 1 })

  unfoldable pub clear : Input → Method (Unit {0})
  unfolding owned clear_records
  clear i = owned i.caller clear_records

  -- A call, with what it reads; `call_finish` ends the task of a key, if there is one.
  pub data Call : Type 0 where
    call_lookup : Input → Key → Call
    call_publish : Input → Record → Call
    call_resolve : Input → Key → Call
    call_finish : Input → Input → Key → Outcome Record → Call
    call_clear : Input → Call

  unfoldable pub end_flight : Input → Input → Key → Outcome Record → Option Flight → Cache → Cache
  unfolding finish
  end_flight i j k built none c = c
  end_flight i j k built (some f) c = (finish i j k f built c).1

  unfoldable pub perform : Call → Cache → Cache
  unfolding lookup_record publish resolve_exact end_flight clear
  perform (call_lookup i k) c = (lookup_record i k c).1
  perform (call_publish i r) c = (publish i r c).1
  perform (call_resolve i k) c = (resolve_exact i k c).1
  perform (call_finish i j k built) c = end_flight i j k built (lookup Key-discrete k c.flights) c
  perform (call_clear i) c = (clear i c).1

  unfoldable pub run : List Call → Cache → Cache
  run [] c = c
  run (call ∷ calls) c = run calls (perform call c)
