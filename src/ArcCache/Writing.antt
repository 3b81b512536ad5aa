-- ===== src/ArcCache/Writing.antt =====
-- What put, get and erase do to a valid cache.
use cpp_tlfss.Base.{
  ◌==◌, Bool-cases, if-keeps, length, ℕ, ◌+◌, ◌≤◌, ◌<◌, ◌≡◌, refl, sym, ◌∙◌, subst, inl, inr, false,
  some, List, [], ◌∷◌, arith,
}
use cpp_tlfss.ArcCache.Node.{Node, same}
use cpp_tlfss.ArcCache.Lru
use cpp_tlfss.ArcCache.Lfu
use cpp_tlfss.ArcCache.Lfu.{ArcLfu, nodes}
use cpp_tlfss.ArcCache.Cache.{ArcCache, GhostHit, is_lfu_hit, check_ghost_caches, put_new, put}
use cpp_tlfss.ArcCache.Content.{History, total, Fits, at, same-path, write, Fits-write}
use cpp_tlfss.ArcCache.Resident
use cpp_tlfss.ArcCache.Frequent
use cpp_tlfss.ArcCache.FrequentReads
use cpp_tlfss.ArcCache.Adapting.{IsValid, check_ghost_caches-Adapts}

-- Every cached value is the last one put for its key.
pub record Coherent {ℓ} {K V : Type ℓ} (h : History K V) (s : ArcCache K V) : Type ℓ where
  pub in_lru : Fits h s.lru.main_list
  pub in_lfu : Fits h (nodes s.lfu.freq_map)

module _ {ℓ} {K : Type ℓ} (dec : Discrete K) where
  -- Keys are the same or not.
  pub by_key :
      (key : K) (P : K → Type 0) → P key → ((j : K) → same dec key j ≡ false → P j) → (j : K) → P j
  by_key key P here there j = elim (Bool-cases (same dec key j)) [
    | inl e ↦ subst P (same-path dec key j e) here
    | inr e ↦ there j e
  ]

module _ {ℓ} {K V : Type ℓ} (dec : Discrete K) where
  -- The nodes of a key in both parts.
  abbrev pub residence : K → ArcCache K V → ℕ
  residence key s = total (at dec key) s.lru.main_list + total (at dec key) (nodes s.lfu.freq_map)

  pub record Written (key : K) (value : V) (new old : ArcCache K V) : Type ℓ where
    pub valid : IsValid dec new
    pub same_capacity : new.capacity ≡ old.capacity
    pub resident : residence key new ≡ 1
    pub others : (j : K) → same dec key j ≡ false → residence j new ≤ residence j old
    pub coherent : (h : History K V) → Coherent h old → Coherent (write dec key (some value) h) new

  write_lru :
      (key : K) (value : V) (s : ArcCache K V)
      → IsValid dec s
      → 0 < s.capacity
      → total (at dec key) (nodes s.lfu.freq_map) ≡ 0
      → Written key value (record s { lru = (Lru.put dec key value s.lru).1 }) s
  write_lru key value s v c z =
      let w = Resident.put-Wrote dec key value s.lru (v.entrance c) v.lru_within in
      let new = record s { lru = (Lru.put dec key value s.lru).1 } in
      let cap = w.same_capacity in
      let sh = v.shares in
      let mi = v.mirror in
      let own = v.once key in
      let one_here = w.puts.only (omega arith) in
      record {
        valid = record {
          lru_within = w.within;
          lfu_sound = v.lfu_sound;
          shares = omega arith;
          mirror = omega arith;
          entrance = λ k. let e = v.entrance k in omega arith;
          lru_history = w.same_ghosts ∙ v.lru_history;
          lfu_history = v.lfu_history;
          once =
              by_key dec key (λ j. residence j new ≤ 1) (omega arith)
                (λ j d. let o = v.once j in let p = w.puts.others j d in omega arith);
        };
        same_capacity = refl;
        resident = omega arith;
        others = λ j d. let p = w.puts.others j d in omega arith;
        coherent = λ h f. record {
          in_lru = w.puts.fits h (omega arith) f.in_lru;
          in_lfu = Fits-write dec h key (some value) (nodes s.lfu.freq_map) z f.in_lfu;
        };
      }

  write_lfu :
      (key : K) (value : V) (s : ArcCache K V)
      → IsValid dec s
      → 0 < s.lfu.capacity
      → total (at dec key) s.lru.main_list ≡ 0
      → Written key value (record s { lfu = (Lfu.put dec key value s.lfu).1 }) s
  write_lfu key value s v c z =
      let w = Frequent.put-Wrote dec key value s.lfu c v.lfu_sound in
      let new = record s { lfu = (Lfu.put dec key value s.lfu).1 } in
      let cap = w.same_capacity in
      let sh = v.shares in
      let own = v.once key in
      let one_here = w.puts.only (omega arith) in
      record {
        valid = record {
          lru_within = v.lru_within;
          lfu_sound = w.sound;
          shares = omega arith;
          mirror = v.mirror;
          entrance = v.entrance;
          lru_history = v.lru_history;
          lfu_history = w.same_ghosts ∙ v.lfu_history;
          once =
              by_key dec key (λ j. residence j new ≤ 1) (omega arith)
                (λ j d. let o = v.once j in let p = w.puts.others j d in omega arith);
        };
        same_capacity = refl;
        resident = omega arith;
        others = λ j d. let p = w.puts.others j d in omega arith;
        coherent = λ h f. record {
          in_lru = Fits-write dec h key (some value) s.lru.main_list z f.in_lru;
          in_lfu = w.puts.fits h (omega arith) f.in_lfu;
        };
      }

  put_new-Written :
      (key : K) (value : V) (hit : GhostHit) (s : ArcCache K V)
      → IsValid dec s
      → 0 < s.capacity
      → total (at dec key) s.lru.main_list ≡ 0
      → total (at dec key) (nodes s.lfu.freq_map) ≡ 0
      → Written key value (put_new dec key value hit s) s
  unfolding put_new
  put_new-Written key value hit s v c y z =
      let direct = write_lru key value s v c z in
      if-keeps (λ (t : ArcCache K V). Written key value t s) (is_lfu_hit hit)
        (λ _.
          if-keeps (λ (t : ArcCache K V). Written key value t s) (Lfu.put dec key value s.lfu).0
            (λ ok. write_lfu key value s v (Frequent.put_taken dec key value s.lfu ok) y)
            (λ no.
              subst
                (λ (l : ArcLfu K V).
                  Written key value (record s { lfu = l; lru = (Lru.put dec key value s.lru).1 }) s)
                (sym (Frequent.put_not_taken dec key value s.lfu v.lfu_sound no)) direct))
        (λ _. direct)

  -- For a valid cache that is not disabled, put leaves a valid cache of the same capacity in which
  -- the key has exactly one node, and every cached value is the last one put, this write included.
  pub put-Written :
      (key : K) (value : V) (s : ArcCache K V)
      → IsValid dec s
      → 0 < s.capacity
      → Written key value (put dec key value s) s
  unfolding put
  put-Written key value s v c =
      let own = v.once key in
      if-keeps (λ (t : ArcCache K V). Written key value t s) (s.capacity == 0)
        (λ z. absurd (ground arith))
        (λ _.
          if-keeps (λ (t : ArcCache K V). Written key value t s) (Lru.contain dec key s.lru)
            (λ there.
              let p = Resident.resident_total dec key s.lru there in
              write_lru key value s v c (omega arith))
            (λ not_lru.
              if-keeps (λ (t : ArcCache K V). Written key value t s) (Lfu.contain dec key s.lfu)
                (λ there.
                  let p = FrequentReads.resident_total dec key s.lfu there in
                  let fit = v.lfu_sound.nodes_fit in
                  write_lfu key value s v (has_room (nodes s.lfu.freq_map) s.lfu.capacity p fit)
                    (omega arith))
                (λ not_lfu.
                  let y = Resident.contain-total dec key s.lru not_lru in
                  let z = FrequentReads.contain-total dec key s.lfu not_lfu in
                  let a = check_ghost_caches-Adapts dec key s v in
                  let checked = check_ghost_caches dec key s in
                  let y' = a.lru_shrinks.weight (at dec key) in
                  let z' = a.lfu_shrinks.weight (at dec key) in
                  let k = a.same_capacity in
                  let w =
                    put_new-Written key value checked.0 checked.1 a.valid (omega arith)
                      (omega arith) (omega arith) in
                  record {
                    valid = w.valid;
                    same_capacity = w.same_capacity ∙ k;
                    resident = w.resident;
                    others = λ j d.
                        let o = w.others j d in
                        let b = a.lru_shrinks.weight (at dec j) in
                        let e = a.lfu_shrinks.weight (at dec j) in omega arith;
                    coherent = λ h f. w.coherent h (record {
                      in_lru = a.lru_shrinks.fits h f.in_lru;
                      in_lfu = a.lfu_shrinks.fits h f.in_lfu;
                    });
                  })))
    where
      has_room : (ns : List (Node K V)) (c : ℕ) → 0 < total (at dec key) ns → length ns ≤ c → 0 < c
      has_room [] c p h = absurd (omega arith)
      has_room (n ∷ ns) c p h = omega arith

  -- A disabled cache stays as it is.
  pub put-disabled :
      (key : K) (value : V) (s : ArcCache K V) → s.capacity ≡ 0 → put dec key value s ≡ s
  unfolding put
  put-disabled key value s h = rw h refl
