-- ===== src/ArcCache/Adapting.antt =====
-- The two parts together: their capacities add up, each key is in one of them at most once, and the
-- adaptation to the history of evictions keeps this.
use cpp_tlfss.Base.{
  ltb, ltb→lt, if-keeps, ℕ, ◌+◌, ◌≤◌, ◌<◌, ◌≡◌, refl, sym, ◌∙◌, subst, true, false, not, arith,
}
use cpp_tlfss.ArcCache.Lru
use cpp_tlfss.ArcCache.Lfu
use cpp_tlfss.ArcCache.Lfu.{nodes}
use cpp_tlfss.ArcCache.Cache.{
  ArcCache, GhostHit, make_cache, grow_lru, grow_lfu, check_ghost_caches,
}
use cpp_tlfss.ArcCache.Content.{total, Shrinks, Shrinks-refl, Shrinks-trans, at}
use cpp_tlfss.ArcCache.Recency
use cpp_tlfss.ArcCache.Recency.{IsWithin}
use cpp_tlfss.ArcCache.Rising.{IsSound}
use cpp_tlfss.ArcCache.Evictions
use cpp_tlfss.ArcCache.Frequent

pub record IsValid {ℓ} {K V : Type ℓ} (dec : Discrete K) (s : ArcCache K V) : Type ℓ where
  pub lru_within : IsWithin s.lru
  pub lfu_sound : IsSound s.lfu
  pub shares : s.lru.capacity + s.lfu.capacity ≡ s.capacity
  pub mirror : s.lru_capacity ≡ s.lru.capacity
  pub entrance : 0 < s.capacity → 0 < s.lru.capacity
  pub lru_history : s.lru.ghost_capacity ≡ s.capacity
  pub lfu_history : s.lfu.ghost_capacity ≡ s.capacity
  pub once :
      (j : K) → total (at dec j) s.lru.main_list + total (at dec j) (nodes s.lfu.freq_map) ≤ 1

-- The constructor's cache.
pub make_cache-IsValid {ℓ} :
    {K V : Type ℓ} (dec : Discrete K) (cap trans : ℕ) → IsValid {V = V} dec (make_cache cap trans)
unfolding make_cache
make_cache-IsValid dec cap trans = record {
  lru_within = record { nodes_fit = omega arith; ghosts_fit = omega arith };
  lfu_sound = record {
    buckets = tt;
    least = tt;
    nodes_fit = omega arith;
    ghosts_fit = omega arith;
  };
  shares = omega arith;
  mirror = refl;
  entrance = λ h. omega arith;
  lru_history = refl;
  lfu_history = refl;
  once = λ j. omega arith;
}

module _ {ℓ} {K V : Type ℓ} (dec : Discrete K) where
  -- A slot may move between the parts and nodes may be evicted.
  pub record Adapts (new old : ArcCache K V) : Type ℓ where
    pub valid : IsValid dec new
    pub same_capacity : new.capacity ≡ old.capacity
    pub lru_shrinks : Shrinks new.lru.main_list old.lru.main_list
    pub lfu_shrinks : Shrinks (nodes new.lfu.freq_map) (nodes old.lfu.freq_map)

  grow_lru-Adapts : (s : ArcCache K V) → IsValid dec s → Adapts (grow_lru dec s) s
  unfolding grow_lru
  grow_lru-Adapts s v =
      let d = Evictions.decrease-Decreased dec s.lfu v.lfu_sound in
      let ok = d.success in
      let c = d.capacity_is in
      let g = d.same_ghosts in
      let sh = v.shares in
      let mi = v.mirror in
      let lg = v.lfu_history in
      let fit = v.lru_within.nodes_fit in
      let single = λ (j : K).
        let o = v.once j in
        let w = d.shrinks.weight (at dec j) in fewer (total (at dec j) s.lru.main_list) _ _ o w in
      if-keeps (λ (t : ArcCache K V). Adapts t s) (Lfu.decrease_capacity dec s.lfu).0
        (λ h. record {
          valid = record {
            lru_within = record { nodes_fit = omega arith; ghosts_fit = v.lru_within.ghosts_fit };
            lfu_sound = d.sound;
            shares = let p = positive s.lfu.capacity (sym ok ∙ h) in omega arith;
            mirror = omega arith;
            entrance = λ _. omega arith;
            lru_history = v.lru_history;
            lfu_history = g ∙ lg;
            once = single;
          };
          same_capacity = refl;
          lru_shrinks = Shrinks-refl s.lru.main_list;
          lfu_shrinks = d.shrinks;
        })
        (λ h. record {
          valid = record {
            lru_within = v.lru_within;
            lfu_sound = d.sound;
            shares = let p = none_left s.lfu.capacity (sym ok ∙ h) in omega arith;
            mirror = mi;
            entrance = v.entrance;
            lru_history = v.lru_history;
            lfu_history = g ∙ lg;
            once = single;
          };
          same_capacity = refl;
          lru_shrinks = Shrinks-refl s.lru.main_list;
          lfu_shrinks = d.shrinks;
        })
    where
      fewer : (a b c : ℕ) → a + b ≤ 1 → c ≤ b → a + c ≤ 1
      fewer a b c h k = omega arith

      positive : (n : ℕ) → ltb 0 n ≡ true → 0 < n
      positive n h = ltb→lt 0 n h

      none_left : (n : ℕ) → ltb 0 n ≡ false → n ≡ 0
      none_left n h = ground arith

  grow_lfu-Adapts : (s : ArcCache K V) → IsValid dec s → Adapts (grow_lfu dec s) s
  unfolding grow_lfu
  grow_lfu-Adapts s v =
      let d = Recency.decrease-Decreased dec s.lru v.lru_within in
      let ok = d.success in
      let c = d.capacity_is in
      let g = d.same_ghosts in
      let sh = v.shares in
      let mi = v.mirror in
      let lg = v.lru_history in
      let fit = v.lfu_sound.nodes_fit in
      let single = λ (j : K).
        let o = v.once j in
        let w = d.shrinks.weight (at dec j) in
        fewer _ (total (at dec j) (nodes s.lfu.freq_map)) _ o w in
      if-keeps (λ (t : ArcCache K V). Adapts t s) (not (ltb 1 s.lru_capacity))
        (λ _. record {
          valid = v;
          same_capacity = refl;
          lru_shrinks = Shrinks-refl s.lru.main_list;
          lfu_shrinks = Shrinks-refl (nodes s.lfu.freq_map);
        })
        (λ big.
          let two = spare s.lru_capacity big in
          if-keeps (λ (t : ArcCache K V). Adapts t s) (Lru.decrease_capacity dec s.lru).0
            (λ h. record {
              valid = record {
                lru_within = d.within;
                lfu_sound = record {
                  buckets = v.lfu_sound.buckets;
                  least = v.lfu_sound.least;
                  nodes_fit = omega arith;
                  ghosts_fit = v.lfu_sound.ghosts_fit;
                };
                shares = omega arith;
                mirror = omega arith;
                entrance = λ _. omega arith;
                lru_history = g ∙ lg;
                lfu_history = v.lfu_history;
                once = single;
              };
              same_capacity = refl;
              lru_shrinks = d.shrinks;
              lfu_shrinks = Shrinks-refl (nodes s.lfu.freq_map);
            })
            (λ h. let p = none_left s.lru.capacity (sym ok ∙ h) in absurd (omega arith)))
    where
      fewer : (a b c : ℕ) → a + b ≤ 1 → c ≤ a → c + b ≤ 1
      fewer a b c h k = omega arith

      spare : (n : ℕ) → not (ltb 1 n) ≡ false → 1 < n
      spare n h = ground arith

      none_left : (n : ℕ) → ltb 0 n ≡ false → n ≡ 0
      none_left n h = ground arith

  -- Looking for a key in the histories leaves the cache valid.
  forgets :
      (key : K) (s : ArcCache K V)
      → IsValid dec s
      → Adapts (record s { lru = (Lru.check_ghost dec key s.lru).1 }) s
  forgets key s v =
      let m = Recency.erase_ghost-SameMain dec key s.lru in
      let c = m.same_capacity in
      let sh = v.shares in
      let mi = v.mirror in
      record {
        valid = record {
          lru_within = Recency.erase_ghost-IsWithin dec key s.lru v.lru_within;
          lfu_sound = v.lfu_sound;
          shares = omega arith;
          mirror = omega arith;
          entrance = λ h. let e = v.entrance h in omega arith;
          lru_history = m.same_ghosts ∙ v.lru_history;
          lfu_history = v.lfu_history;
          once = λ j.
              subst (λ l. total (at dec j) l + total (at dec j) (nodes s.lfu.freq_map) ≤ 1)
                (sym m.same_list) (v.once j);
        };
        same_capacity = refl;
        lru_shrinks =
            subst (λ l. Shrinks l s.lru.main_list) (sym m.same_list) (Shrinks-refl s.lru.main_list);
        lfu_shrinks = Shrinks-refl (nodes s.lfu.freq_map);
      }

  forgets_too :
      (key : K) (s : ArcCache K V)
      → IsValid dec s
      → Adapts (record s { lfu = (Lfu.check_ghost dec key s.lfu).1 }) s
  forgets_too key s v =
      let m = Frequent.erase_ghost-SameMain dec key s.lfu in
      let c = m.same_capacity in
      let sh = v.shares in
      record {
        valid = record {
          lru_within = v.lru_within;
          lfu_sound = Frequent.erase_ghost-IsSound dec key s.lfu v.lfu_sound;
          shares = omega arith;
          mirror = v.mirror;
          entrance = v.entrance;
          lru_history = v.lru_history;
          lfu_history = m.same_ghosts ∙ v.lfu_history;
          once = λ j.
              subst (λ l. total (at dec j) s.lru.main_list + total (at dec j) (nodes l) ≤ 1)
                (sym m.same_map) (v.once j);
        };
        same_capacity = refl;
        lru_shrinks = Shrinks-refl s.lru.main_list;
        lfu_shrinks =
            subst (λ l. Shrinks (nodes l) (nodes s.lfu.freq_map)) (sym m.same_map)
              (Shrinks-refl (nodes s.lfu.freq_map));
      }

  Adapts-trans : {a b c : ArcCache K V} → Adapts a b → Adapts b c → Adapts a c
  Adapts-trans x y = record {
    valid = x.valid;
    same_capacity = x.same_capacity ∙ y.same_capacity;
    lru_shrinks = Shrinks-trans x.lru_shrinks y.lru_shrinks;
    lfu_shrinks = Shrinks-trans x.lfu_shrinks y.lfu_shrinks;
  }

  -- For a valid cache, consulting the histories of evictions leaves a valid cache of the same
  -- capacity, in which nodes were at most evicted.
  pub check_ghost_caches-Adapts :
      (key : K) (s : ArcCache K V) → IsValid dec s → Adapts (check_ghost_caches dec key s).1 s
  unfolding check_ghost_caches
  check_ghost_caches-Adapts key s v =
      let a = forgets key s v in
      let b = forgets_too key (record s { lru = (Lru.check_ghost dec key s.lru).1 }) a.valid in
      let ab = Adapts-trans b a in
      if-keeps (λ (r : GhostHit × ArcCache K V). Adapts r.1 s) (Lru.check_ghost dec key s.lru).0
        (λ _.
          Adapts-trans
            (grow_lru-Adapts (record s { lru = (Lru.check_ghost dec key s.lru).1 }) a.valid) a)
        (λ _.
          if-keeps (λ (r : GhostHit × ArcCache K V). Adapts r.1 s) (Lfu.check_ghost dec key s.lfu).0
            (λ _.
              Adapts-trans
                (grow_lfu-Adapts
                  (record s {
                    lru = (Lru.check_ghost dec key s.lru).1;
                    lfu = (Lfu.check_ghost dec key s.lfu).1;
                  })
                  ab.valid)
                ab)
            (λ _. ab))
