-- ===== src/ArcCache/Reading.antt =====
-- What get and erase do to a valid cache.
use cpp_tlfss.Base.{
  Bool-cases, if-keeps, Option-keeps, ◌≤◌, ◌<◌, ◌≡◌, refl, sym, ap, ◌∙◌, subst, inl, inr, Bool,
  true, not, Option, none, some, List, [], ◌∷◌, arith,
}
use cpp_tlfss.ArcCache.Node.{Node, same}
use cpp_tlfss.ArcCache.Lru
use cpp_tlfss.ArcCache.Lfu
use cpp_tlfss.ArcCache.Lfu.{ArcLfu, nodes}
use cpp_tlfss.ArcCache.Cache.{ArcCache, promote, get, erase}
use cpp_tlfss.ArcCache.Content.{History, total, Fits, at, same-path, write, Fits-write}
use cpp_tlfss.ArcCache.Resident
use cpp_tlfss.ArcCache.Frequent
use cpp_tlfss.ArcCache.FrequentReads
use cpp_tlfss.ArcCache.Adapting.{IsValid}
use cpp_tlfss.ArcCache.Writing.{Coherent, by_key, residence}

module _ {ℓ} {K V : Type ℓ} (dec : Discrete K) where
  pub record Got (key : K) (result : Option V × ArcCache K V) (old : ArcCache K V) : Type ℓ where
    pub valid : IsValid dec result.1
    pub same_capacity : result.1.capacity ≡ old.capacity
    pub coherent : (h : History K V) → Coherent h old → Coherent h result.1
    pub value : (h : History K V) (v : V) → Coherent h old → result.0 ≡ some v → h key ≡ some v
    pub others : (j : K) → residence dec j result.1 ≤ residence dec j old
    pub misses : result.0 ≡ none → residence dec key old ≡ 0

  -- A history that already has the value.
  Fits-again :
      (h : History K V) (key : K) (v : V) (ns : List (Node K V))
      → h key ≡ some v
      → Fits (write dec key (some v) h) ns
      → Fits h ns
  Fits-again h key v [] e f = tt
  Fits-again h key v (n ∷ ns) e f = (
    elim (Bool-cases (same dec key n.key)) [
      | inl p ↦ let q = same-path dec key n.key p in let g = f.0 in ap h (sym q) ∙ e ∙ agree n p g
      | inr p ↦ let g = f.0 in ground arith
    ],
    Fits-again h key v ns e f.1,
  )
    where
      agree :
          (n : Node K V)
          → same dec key n.key ≡ true
          → write dec key (some v) h n.key ≡ some n.value
          → some v ≡ some n.value
      agree n p g = ground arith

  -- The state after the LRU part found the key.
  after_read :
      (key : K) (s : ArcCache K V)
      → IsValid dec s
      → IsValid dec (record s { lru = (Lru.get dec key s.lru).1 })
  after_read key s v =
      let r = Resident.get-Reads dec key s.lru v.lru_within in
      let cap = r.same_capacity in
      let sh = v.shares in
      let mi = v.mirror in
      record {
        lru_within = r.within;
        lfu_sound = v.lfu_sound;
        shares = omega arith;
        mirror = omega arith;
        entrance = λ k. let e = v.entrance k in omega arith;
        lru_history = r.same_ghosts ∙ v.lru_history;
        lfu_history = v.lfu_history;
        once = λ j. let o = v.once j in let w = r.same_nodes.weight (at dec j) in omega arith;
      }

  pub record Promoted (key : K) (value : V) (new old : ArcCache K V) : Type ℓ where
    pub valid : IsValid dec new
    pub same_capacity : new.capacity ≡ old.capacity
    pub others : (j : K) → residence dec j new ≤ residence dec j old
    pub coherent : (h : History K V) → h key ≡ some value → Coherent h old → Coherent h new

  promote-Promoted :
      (key : K) (value : V) (b : Bool) (s : ArcCache K V)
      → IsValid dec s
      → 0 < total (at dec key) s.lru.main_list
      → Promoted key value (promote dec key value b s) s
  unfolding promote
  promote-Promoted key value b s v there =
      let own = v.once key in
      let sh = v.shares in
      let mi = v.mirror in
      let stay : Promoted key value s s = record {
        valid = v;
        same_capacity = refl;
        others = λ j. omega arith;
        coherent = λ h e f. f;
      } in
      if-keeps (λ (t : ArcCache K V). Promoted key value t s) (not b) (λ _. stay)
        (λ _.
          if-keeps (λ (t : ArcCache K V). Promoted key value t s) (Lfu.put dec key value s.lfu).0
            (λ ok.
              let c = Frequent.put_taken dec key value s.lfu ok in
              let w = Frequent.put-Wrote dec key value s.lfu c v.lfu_sound in
              let r = Resident.erase-Removes dec key s.lru v.lru_within in
              let cap = w.same_capacity in
              let cap' = r.same_capacity in
              let one_here = w.puts.only (omega arith) in
              let gone = r.erases.gone (omega arith) in
              let new = record s {
                lfu = (Lfu.put dec key value s.lfu).1;
                lru = (Lru.erase dec key s.lru).1;
              } in
              record {
                valid = record {
                  lru_within = r.within;
                  lfu_sound = w.sound;
                  shares = omega arith;
                  mirror = omega arith;
                  entrance = λ k. let e = v.entrance k in omega arith;
                  lru_history = r.same_ghosts ∙ v.lru_history;
                  lfu_history = w.same_ghosts ∙ v.lfu_history;
                  once =
                      by_key dec key (λ j. residence dec j new ≤ 1) (omega arith)
                        (λ j d.
                          let o = v.once j in
                          let p = w.puts.others j d in
                          let q = r.erases.shrinks.weight (at dec j) in omega arith);
                };
                same_capacity = refl;
                others =
                    by_key dec key (λ j. residence dec j new ≤ residence dec j s) (omega arith)
                      (λ j d.
                        let p = w.puts.others j d in
                        let q = r.erases.shrinks.weight (at dec j) in omega arith);
                coherent = λ h e f. record {
                  in_lru = r.erases.shrinks.fits h f.in_lru;
                  in_lfu =
                      Fits-again h key value (nodes (Lfu.put dec key value s.lfu).1.freq_map) e
                        (w.puts.fits h (omega arith) f.in_lfu);
                };
              })
            (λ no.
              subst (λ (l : ArcLfu K V). Promoted key value (record s { lfu = l }) s)
                (sym (Frequent.put_not_taken dec key value s.lfu v.lfu_sound no)) stay))

  -- For a valid cache, get leaves a valid cache of the same capacity whose values are still the
  -- last ones put; it returns the last value put, and it returns one for every key with a node.
  pub get-Got : (key : K) (s : ArcCache K V) → IsValid dec s → Got key (get dec key s) s
  unfolding get
  get-Got key s v =
      let r = Resident.get-Reads dec key s.lru v.lru_within in
      let found = record s { lru = (Lru.get dec key s.lru).1 } in
      let w = after_read key s v in
      Option-keeps (λ (t : Option V × ArcCache K V). Got key t s) (Lru.get dec key s.lru).0
        (
          (Lfu.get dec key s.lfu).0,
          record s { lru = (Lru.get dec key s.lru).1; lfu = (Lfu.get dec key s.lfu).1 },
        )
        (λ (x : V × Bool). (some x.0, promote dec key x.0 x.1 found))
        (λ e.
          let q = FrequentReads.get-Reads dec key s.lfu v.lfu_sound in
          let cap = q.same_capacity in
          let sh = w.shares in
          record {
            valid = record {
              lru_within = w.lru_within;
              lfu_sound = q.sound;
              shares = omega arith;
              mirror = w.mirror;
              entrance = w.entrance;
              lru_history = w.lru_history;
              lfu_history = q.same_ghosts ∙ v.lfu_history;
              once = λ j. let o = w.once j in let t = q.same_nodes.weight (at dec j) in omega arith;
            };
            same_capacity = refl;
            coherent = λ h f. record {
              in_lru = r.same_nodes.fits h f.in_lru;
              in_lfu = q.same_nodes.fits h f.in_lfu;
            };
            value = λ h x f k. q.value h x f.in_lfu k;
            others = λ j.
                let a = r.same_nodes.weight (at dec j) in
                let b = q.same_nodes.weight (at dec j) in omega arith;
            misses = λ k. let a = r.misses e in let b = q.misses k in omega arith;
          })
        (λ x e.
          let there = r.held x e in
          let same_weight = r.same_nodes.weight (at dec key) in
          let p = promote-Promoted key x.0 x.1 found w (omega arith) in
          record {
            valid = p.valid;
            same_capacity = p.same_capacity;
            coherent = λ h f.
                p.coherent h (r.value h x.0 x.1 f.in_lru e)
                  (record { in_lru = r.same_nodes.fits h f.in_lru; in_lfu = f.in_lfu });
            value = λ h y f k. let l = r.value h x.0 x.1 f.in_lru e in cc;
            others =
                λ j. let a = r.same_nodes.weight (at dec j) in let b = p.others j in omega arith;
            misses = λ k. absurd cc;
          })

  pub record Erased (key : K) (new old : ArcCache K V) : Type ℓ where
    pub valid : IsValid dec new
    pub same_capacity : new.capacity ≡ old.capacity
    pub others : (j : K) → residence dec j new ≤ residence dec j old
    pub absent : residence dec key new ≡ 0
    pub coherent : (h : History K V) → Coherent h old → Coherent (write dec key none h) new

  -- For a valid cache, erase leaves a valid cache without a node of the key, whose values are the
  -- last ones put for the other keys.
  pub erase-Erased : (key : K) (s : ArcCache K V) → IsValid dec s → Erased key (erase dec key s).1 s
  unfolding erase
  erase-Erased key s v =
      let a = Resident.invalidate-Removes dec key s.lru v.lru_within in
      let b = FrequentReads.invalidate-Removes dec key s.lfu v.lfu_sound in
      let own = v.once key in
      let x = a.erases.gone (omega arith) in
      let y = b.erases.gone (omega arith) in
      let ca = a.same_capacity in
      let cb = b.same_capacity in
      let sh = v.shares in
      let mi = v.mirror in
      record {
        valid = record {
          lru_within = a.within;
          lfu_sound = b.sound;
          shares = omega arith;
          mirror = omega arith;
          entrance = λ k. let e = v.entrance k in omega arith;
          lru_history = a.same_ghosts ∙ v.lru_history;
          lfu_history = b.same_ghosts ∙ v.lfu_history;
          once = λ j.
              let o = v.once j in
              let p = a.erases.shrinks.weight (at dec j) in
              let q = b.erases.shrinks.weight (at dec j) in omega arith;
        };
        same_capacity = refl;
        others = λ j.
            let p = a.erases.shrinks.weight (at dec j) in
            let q = b.erases.shrinks.weight (at dec j) in omega arith;
        absent = omega arith;
        coherent = λ h f. record {
          in_lru =
              Fits-write dec h key none (Lru.invalidate dec key s.lru).1.main_list x
                (a.erases.shrinks.fits h f.in_lru);
          in_lfu =
              Fits-write dec h key none (nodes (Lfu.invalidate dec key s.lfu).1.freq_map) y
                (b.erases.shrinks.fits h f.in_lfu);
        };
      }
