-- ===== src/ClassificationCache/Invariant.antt =====
-- What every call keeps of a cache, and that each change of its parts keeps it.
use nonebot_plugin_moellmcha.Prelude.{
  ℕ, ◌≤◌, ◌≡◌, inl, inr, refl, arith, Option, some, [], ◌∷◌, String, leb, length-append, lookup,
  pop, IsDict, lookup-pop, pop-IsDict, append_end-IsDict, drop_where-IsDict, length-drop_where-le,
  length-pop-lt, All, All-append, Option-cases,
}
use nonebot_plugin_moellmcha.HistoryCache.Entries.{All-drop_where, All-pop, All-lookup}
use nonebot_plugin_moellmcha.ClassificationCache.Key.{Key, Key-discrete, Record}
use nonebot_plugin_moellmcha.ClassificationCache.State.{Settings, Entry, Flight, Owner, Cache}
use nonebot_plugin_moellmcha.ClassificationCache.Cache.{
  prune, touch, discard_entry, discard_if_own_publish,
}
use nonebot_plugin_moellmcha.ClassificationCache.Entries.{
  sum_bytes-append, sum_bytes-pop, drop_expired-eq, drop_expired-total, drop_expired-le,
  sum_bytes_one, IsWithin,
}

-- An entry stands under its record's key, and bears the epoch of the cache.
abbrev pub IsOf : ℕ → Key × Entry → Type 0
IsOf epoch (k, e) = (e.value.key ≡ k) × (e.clear_epoch ≡ epoch)

-- A task was created in this epoch or before.
abbrev pub IsPast : ℕ → Key × Flight → Type 0
IsPast epoch (k, f) = f.clear_epoch ≤ epoch

module _ (utf8_length : String → ℕ) (settings : Settings) (first : ℕ) where
  pub record IsSound (c : Cache) : Type 0 where
    pub within : IsWithin utf8_length c.settings c.records c.total_bytes
    pub distinct : IsDict Key-discrete c.records
    pub entries : All (IsOf c.clear_epoch) c.records
    pub tasks : All (IsPast c.clear_epoch) c.flights
    pub since : first ≤ c.clear_epoch
    pub configured : c.settings ≡ settings

  -- In a cache whose entries all bear its epoch, nothing is discarded.
  pub discard_entry_idle :
      (k : Key) (r : Record) (c : Cache) → IsSound c → discard_if_own_publish utf8_length k r c ≡ c
  unfolding discard_if_own_publish discard_entry
  discard_entry_idle k r c h = elim (Option-cases (lookup Key-discrete k c.records)) [
    | inl q ↦ rw q refl
    | inr (e, q) ↦
        let same = (All-lookup (IsOf c.clear_epoch) Key-discrete k e c.records h.entries q).1 in
        ground (arith, q, same)
  ]

  pub prune-IsSound : (now : ℕ) (c : Cache) → IsSound c → IsSound (prune utf8_length now c)
  unfolding prune
  prune-IsSound now c h =
      let eq = drop_expired-eq utf8_length now c.records c.total_bytes in
      let total =
        drop_expired-total utf8_length now c.records c.total_bytes 0
          (omega (arith, h.within.total_right)) in
      record {
        within = record {
          total_right = omega (arith, total);
          entries_bounded = rw eq (
              omega (
                arith,
                h.within.entries_bounded,
                length-drop_where-le (λ (e : Entry). leb e.expires_at now) c.records,
              ));
          bytes_bounded = omega (
            arith,
            h.within.bytes_bounded,
            drop_expired-le utf8_length now c.records c.total_bytes,
          );
        };
        distinct = rw eq (
            drop_where-IsDict Key-discrete (λ (e : Entry). leb e.expires_at now) c.records
              h.distinct);
        entries = rw eq (
            All-drop_where (IsOf c.clear_epoch) (λ (e : Entry). leb e.expires_at now) c.records
              h.entries);
        tasks = h.tasks;
        since = h.since;
        configured = h.configured;
      }

  pub touch-IsSound :
      (k : Key) (e : Entry) (c : Cache)
      → lookup Key-discrete k c.records ≡ some e
      → IsSound c
      → IsSound (touch utf8_length k e c)
  unfolding touch
  touch-IsSound k e c q h =
      let d = pop Key-discrete k c.records in
      record {
        within = record {
          total_right = omega (
            arith,
            h.within.total_right,
            sum_bytes-pop utf8_length k e c.records h.distinct q,
            sum_bytes-append utf8_length d ((k, e) ∷ []),
            sum_bytes_one utf8_length k e,
          );
          entries_bounded = omega (
            arith,
            h.within.entries_bounded,
            length-append d ((k, e) ∷ []),
            length-pop-lt Key-discrete k e c.records q,
          );
          bytes_bounded = h.within.bytes_bounded;
        };
        distinct =
            append_end-IsDict Key-discrete k e d
              (ground (arith, lookup-pop Key-discrete k k c.records))
              (pop-IsDict Key-discrete k c.records h.distinct);
        entries =
            All-append (IsOf c.clear_epoch) d ((k, e) ∷ [])
              (All-pop (IsOf c.clear_epoch) Key-discrete k c.records h.entries)
              (All-lookup (IsOf c.clear_epoch) Key-discrete k e c.records h.entries q, tt);
        tasks = h.tasks;
        since = h.since;
        configured = h.configured;
      }

  pub owner-IsSound : (o : Option Owner) (c : Cache) → IsSound c → IsSound (record c { owner = o })
  owner-IsSound o c h = record {
    within = h.within;
    distinct = h.distinct;
    entries = h.entries;
    tasks = h.tasks;
    since = h.since;
    configured = h.configured;
  }

  pub time-IsSound :
      (now : Option ℕ) (c : Cache) → IsSound c → IsSound (record c { last_now = now })
  time-IsSound now c h = record {
    within = h.within;
    distinct = h.distinct;
    entries = h.entries;
    tasks = h.tasks;
    since = h.since;
    configured = h.configured;
  }
