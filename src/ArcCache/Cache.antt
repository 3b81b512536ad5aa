-- ===== src/ArcCache/Cache.antt =====
-- The class `ArcCache`: a new key enters the LRU part, a key that is read often enough moves to the
-- LFU part, and a key that comes back after its eviction moves a slot between the parts.
use cpp_tlfss.Base.{
  ltb, ◌==◌, if◌then◌else◌, ℕ, ◌+◌, ◌-◌, ◌/◌, Bool, true, false, not, ◌||◌, Option, none, some,
}
use cpp_tlfss.ArcCache.Lru
use cpp_tlfss.ArcCache.Lru.{ArcLru, make_lru}
use cpp_tlfss.ArcCache.Lfu
use cpp_tlfss.ArcCache.Lfu.{ArcLfu, make_lfu}

pub record ArcCache {ℓ} (K V : Type ℓ) : Type ℓ where
  pub capacity : ℕ
  pub transform_threshold : ℕ
  pub lru_capacity : ℕ
  pub lru : ArcLru K V
  pub lfu : ArcLfu K V

pub data GhostHit : Type 0 where
  no_hit : GhostHit
  lru_hit : GhostHit
  lfu_hit : GhostHit

unfoldable pub make_cache {ℓ} : {K V : Type ℓ} → ℕ → ℕ → ArcCache K V
make_cache cap trans = record {
  capacity = cap;
  transform_threshold = trans;
  lru_capacity = cap - cap / 2;
  lru = make_lru (cap - cap / 2) trans cap;
  lfu = make_lfu (cap / 2) trans cap;
}

abbrev pub is_lfu_hit : GhostHit → Bool
is_lfu_hit no_hit = false
is_lfu_hit lru_hit = false
is_lfu_hit lfu_hit = true

module _ {ℓ} {K V : Type ℓ} (dec : Discrete K) where
  -- A slot from the LFU part to the LRU part, if it has one.
  unfoldable pub grow_lru : ArcCache K V → ArcCache K V
  grow_lru s =
      let smaller = Lfu.decrease_capacity dec s.lfu in
      if smaller.0
      then record s {
        lfu = smaller.1;
        lru = Lru.increase_capacity dec s.lru;
        lru_capacity = s.lru_capacity + 1;
      }
      else record s { lfu = smaller.1 }

  -- A slot from the LRU part to the LFU part, if the former keeps one.
  unfoldable pub grow_lfu : ArcCache K V → ArcCache K V
  grow_lfu s =
      let smaller = Lru.decrease_capacity dec s.lru in
      if not (ltb 1 s.lru_capacity)
      then s
      else if smaller.0
      then record s {
        lru = smaller.1;
        lfu = Lfu.increase_capacity dec s.lfu;
        lru_capacity = s.lru_capacity - 1;
      }
      else record s { lru = smaller.1 }

  unfoldable pub check_ghost_caches : K → ArcCache K V → GhostHit × ArcCache K V
  check_ghost_caches key s =
      let in_lru = Lru.check_ghost dec key s.lru in
      let in_lfu = Lfu.check_ghost dec key s.lfu in
      if in_lru.0
      then (lru_hit, grow_lru (record s { lru = in_lru.1 }))
      else if in_lfu.0
      then (lfu_hit, grow_lfu (record s { lru = in_lru.1; lfu = in_lfu.1 }))
      else (no_hit, record s { lru = in_lru.1; lfu = in_lfu.1 })

  -- A key that is in neither part, after the history was consulted.
  unfoldable pub put_new : K → V → GhostHit → ArcCache K V → ArcCache K V
  put_new key value hit s =
      let in_lfu = Lfu.put dec key value s.lfu in
      if is_lfu_hit hit
      then if in_lfu.0
        then record s { lfu = in_lfu.1 }
        else record s { lfu = in_lfu.1; lru = (Lru.put dec key value s.lru).1 }
      else record s { lru = (Lru.put dec key value s.lru).1 }

  unfoldable pub put : K → V → ArcCache K V → ArcCache K V
  put key value s =
      let checked = check_ghost_caches key s in
      if s.capacity == 0
      then s
      else if Lru.contain dec key s.lru
      then record s { lru = (Lru.put dec key value s.lru).1 }
      else if Lfu.contain dec key s.lfu
      then record s { lfu = (Lfu.put dec key value s.lfu).1 }
      else put_new key value checked.0 checked.1

  -- After a hit in the LRU part: the node moves to the LFU part, if that takes it.
  unfoldable pub promote : K → V → Bool → ArcCache K V → ArcCache K V
  promote key value should_transform s =
      let taken = Lfu.put dec key value s.lfu in
      if not should_transform
      then s
      else if taken.0
      then record s { lfu = taken.1; lru = (Lru.erase dec key s.lru).1 }
      else record s { lfu = taken.1 }

  unfoldable pub get : K → ArcCache K V → Option V × ArcCache K V
  get key s =
      let read = Lru.get dec key s.lru in
      let other = Lfu.get dec key s.lfu in
      elim read.0 [
        | none ↦ (other.0, record s { lru = read.1; lfu = other.1 })
        | some found ↦ (some found.0, promote key found.0 found.1 (record s { lru = read.1 }))
      ]

  unfoldable pub erase : K → ArcCache K V → Bool × ArcCache K V
  erase key s =
      let in_lru = Lru.invalidate dec key s.lru in
      let in_lfu = Lfu.invalidate dec key s.lfu in
      (in_lru.0 || in_lfu.0, record s { lru = in_lru.1; lfu = in_lfu.1 })
