-- ===== src/ClassificationCache/Entries.antt =====
-- What the changes of the entries keep: their sizes add up to the total, and the bounds hold.
use nonebot_plugin_moellmcha.Prelude.{
  ℕ, ◌+◌, ◌-◌, ◌≤◌, ◌≡◌, inl, inr, refl, ap, subst, arith, ◌||◌, none, some, [], ◌∷◌, ◌++◌, String,
  ltb, leb, length, lookup, pop, drop_where, IsDict, Bool-cases,
}
use nonebot_plugin_moellmcha.ClassificationCache.Key.{Key, Key-discrete}
use nonebot_plugin_moellmcha.ClassificationCache.State.{Settings, Entry, Records}
use nonebot_plugin_moellmcha.ClassificationCache.Cache.{bytes_of, drop_expired, drop_oldest}

module _ (utf8_length : String → ℕ) where
  unfoldable pub sum_bytes : Records → ℕ
  sum_bytes [] = 0
  sum_bytes ((k, e) ∷ records) = bytes_of utf8_length e + sum_bytes records

  pub sum_bytes-append : (d e : Records) → sum_bytes (d ++ e) ≡ sum_bytes d + sum_bytes e
  unfolding sum_bytes
  sum_bytes-append [] e = omega arith
  sum_bytes-append (x ∷ d) e = omega (arith, sum_bytes-append d e)

  pop_absent : (k : Key) (d : Records) → lookup Key-discrete k d ≡ none → pop Key-discrete k d ≡ d
  unfolding lookup pop
  pop_absent k [] h = refl
  pop_absent k ((j, e) ∷ d) h = ground (arith, h, pop_absent k d)

  pub sum_bytes-pop :
      (k : Key) (e : Entry) (d : Records)
      → IsDict Key-discrete d
      → lookup Key-discrete k d ≡ some e
      → sum_bytes (pop Key-discrete k d) + bytes_of utf8_length e ≡ sum_bytes d
  unfolding sum_bytes lookup pop
  sum_bytes-pop k e [] dict h = absurd (cc)
  sum_bytes-pop k e ((j, f) ∷ d) dict h = elim (Key-discrete j k) [
    | yes q ↦
        let same : f ≡ e = ground (arith, h, q) in
        let gone : lookup Key-discrete k d ≡ none =
          subst (λ x. lookup Key-discrete x d ≡ none) q dict.0 in
        ground (arith, q, pop_absent k d gone, same, ap (bytes_of utf8_length) same)
    | no n ↦ ground (arith, n, sum_bytes-pop k e d dict.1 (ground (arith, h, n)))
  ]

  pub drop_expired-eq :
      (now : ℕ) (d : Records) (total : ℕ)
      → (drop_expired utf8_length now d total).0 ≡ drop_where (λ e. leb e.expires_at now) d
  unfolding drop_expired drop_where
  drop_expired-eq now [] total = refl
  drop_expired-eq now ((k, e) ∷ d) total =
      ground
        (arith, drop_expired-eq now d (total - bytes_of utf8_length e), drop_expired-eq now d total)

  pub drop_expired-total :
      (now : ℕ) (d : Records) (total other : ℕ)
      → total ≡ sum_bytes d + other
      → (drop_expired utf8_length now d total).1
        ≡ sum_bytes (drop_expired utf8_length now d total).0 + other
  unfolding drop_expired sum_bytes
  drop_expired-total now [] total other h = h
  drop_expired-total now ((k, e) ∷ d) total other h = elim (Bool-cases (leb e.expires_at now)) [
    | inl b ↦
        rw b (drop_expired-total now d (total - bytes_of utf8_length e) other (omega (arith, h)))
    | inr b ↦ rw b (
        omega (
          arith,
          drop_expired-total now d total (bytes_of utf8_length e + other) (omega (arith, h)),
        ))
  ]

  pub drop_expired-le :
      (now : ℕ) (d : Records) (total : ℕ) → (drop_expired utf8_length now d total).1 ≤ total
  unfolding drop_expired
  drop_expired-le now [] total = omega arith
  drop_expired-le now ((k, e) ∷ d) total =
      ground
        (arith, drop_expired-le now d (total - bytes_of utf8_length e), drop_expired-le now d total)

  pub sum_bytes_one : (k : Key) (e : Entry) → sum_bytes ((k, e) ∷ []) ≡ bytes_of utf8_length e
  unfolding sum_bytes
  sum_bytes_one k e = omega arith

  -- what the loop of `_evict_locked` leaves
  pub record IsWithin (settings : Settings) (d : Records) (total : ℕ) : Type 0 where
    pub total_right : total ≡ sum_bytes d
    pub entries_bounded : length d ≤ settings.max_entries
    pub bytes_bounded : total ≤ settings.max_total_bytes

  pub drop_oldest-IsWithin :
      (settings : Settings) (d : Records) (total : ℕ)
      → total ≡ sum_bytes d
      → IsWithin settings
          (drop_oldest utf8_length settings d total).0
          (drop_oldest utf8_length settings d total).1
  unfolding drop_oldest sum_bytes
  drop_oldest-IsWithin settings [] total h = record {
    total_right = h;
    entries_bounded = omega arith;
    bytes_bounded = omega (arith, h);
  }
  drop_oldest-IsWithin settings ((k, e) ∷ d) total h =
      elim (Bool-cases
        (ltb settings.max_entries (length ((k, e) ∷ d)) || ltb settings.max_total_bytes total)) [
          | inl b ↦
              rw b (
                drop_oldest-IsWithin settings d (total - bytes_of utf8_length e) (omega (arith, h)))
          | inr b ↦ rw b (record {
            total_right = h;
            entries_bounded = ground (arith, b);
            bytes_bounded = ground (arith, b);
          })
        ]

  -- A property of lists of entries that a list without its oldest keeps, the rest keeps.
  pub drop_oldest-keeps :
      (Q : Records → Type 0) (settings : Settings)
      → ((k : Key) (e : Entry) (d : Records) → Q ((k, e) ∷ d) → Q d)
      → (d : Records) (total : ℕ) → Q d
      → Q (drop_oldest utf8_length settings d total).0
  unfolding drop_oldest
  drop_oldest-keeps Q settings tail [] total h = h
  drop_oldest-keeps Q settings tail ((k, e) ∷ d) total h =
      elim (Bool-cases
        (ltb settings.max_entries (length ((k, e) ∷ d)) || ltb settings.max_total_bytes total)) [
          | inl b ↦
              rw b (
                drop_oldest-keeps Q settings tail d (total - bytes_of utf8_length e) (tail k e d h))
          | inr b ↦ rw b h
        ]
