-- ===== src/ArcCache/Frequent.antt =====
-- Writes in the LFU part.
use cpp_tlfss.Base.{
  dec_le, leb, ◌==◌, if-keeps, Option-keeps, length, ℕ, ◌+◌, ◌≤◌, ◌<◌, min, ◌≡◌, refl, sym, ap, ◌∙◌,
  subst, Bool, true, false, some, [], ◌∷◌, ◌++◌, arith, dec_le,
}
use cpp_tlfss.ArcCache.Node.{Node, new_node, is_ghost, find}
use cpp_tlfss.ArcCache.Lfu.{
  FreqMap, ArcLfu, bucket, nodes, first_freq, erase_ghost, update_node_frequency,
  evict_least_frequent, add_new_node, put,
}
use cpp_tlfss.ArcCache.Content.{
  one, total, Fits, Shrinks, Shrinks-refl, at, same_refl, find-key, find-none, found_weighs, write,
  Fits-write, Puts, added-Puts, Puts-Same,
}
use cpp_tlfss.ArcCache.Recency.{unlink_ghost-length}
use cpp_tlfss.ArcCache.Buckets.{IsBuckets, assign-first, IsMin-first}
use cpp_tlfss.ArcCache.Rising.{
  IsSound, left, left-Erases, enter, enter-total, enter-Fits, enter-IsBuckets, nodes-length,
  update-Rises,
}
use cpp_tlfss.ArcCache.Evictions.{IsOrdered, evict-Evicts}

module _ {ℓ} {K V : Type ℓ} (dec : Discrete K) where
  pub record SameMain (new old : ArcLfu K V) : Type ℓ where
    pub same_map : new.freq_map ≡ old.freq_map
    pub same_capacity : new.capacity ≡ old.capacity
    pub same_ghosts : new.ghost_capacity ≡ old.ghost_capacity

  pub erase_ghost-SameMain : (key : K) (s : ArcLfu K V) → SameMain (erase_ghost dec key s).1 s
  unfolding erase_ghost
  erase_ghost-SameMain key s =
      if-keeps (λ (r : Bool × ArcLfu K V). SameMain r.1 s) (is_ghost dec key s.ghost_list)
        (λ _. record { same_map = refl; same_capacity = refl; same_ghosts = refl })
        (λ _. record { same_map = refl; same_capacity = refl; same_ghosts = refl })

  pub erase_ghost-IsSound :
      (key : K) (s : ArcLfu K V) → IsSound s → IsSound (erase_ghost dec key s).1
  unfolding erase_ghost
  erase_ghost-IsSound key s v =
      let g = v.ghosts_fit in
      if-keeps (λ (r : Bool × ArcLfu K V). IsSound r.1) (is_ghost dec key s.ghost_list)
        (λ _. record {
          buckets = v.buckets;
          least = v.least;
          nodes_fit = v.nodes_fit;
          ghosts_fit = omega (arith, unlink_ghost-length dec key s.ghost_list);
        })
        (λ _. v)

  pub record Wrote (key : K) (value : V) (result : Bool × ArcLfu K V) (old : ArcLfu K V)
      : Type ℓ where
    pub success : result.0 ≡ true
    pub puts : Puts dec key value (nodes result.1.freq_map) (nodes old.freq_map)
    pub sound : IsSound result.1
    pub same_capacity : result.1.capacity ≡ old.capacity
    pub same_ghosts : result.1.ghost_capacity ≡ old.ghost_capacity

  -- A new node in a map with room.
  entered :
      (key : K) (value : V) (room : ArcLfu K V) (old : ArcLfu K V)
      → IsOrdered dec room
      → length (nodes room.freq_map) + 1 ≤ room.capacity
      → Shrinks (nodes room.freq_map) (nodes old.freq_map)
      → room.capacity ≡ old.capacity
      → room.ghost_capacity ≡ old.ghost_capacity
      → total (at dec key) (nodes old.freq_map) ≡ 0
      → Wrote key value
          (
            true,
            record room { freq_map = enter dec 1 (new_node key value) room.freq_map; min_freq = 1 },
          )
          old
  entered key value room old v fit shrinks c g z =
      let n = new_node key value in
      let m = room.freq_map in
      let weights = λ (w : K → ℕ). enter-total dec w 1 n m v.buckets in
      record {
        success = refl;
        puts =
            Puts-Same dec
              (record { weight = weights; fits = λ h k. enter-Fits dec h 1 n m k.0 k.1 })
              (added-Puts dec key value (nodes m) (nodes old.freq_map) shrinks z);
        sound = record {
          buckets = enter-IsBuckets dec 1 n m (omega arith) refl v.buckets;
          least =
              IsMin-first 1 (enter dec 1 n m)
                (assign-first 1 1 (bucket 1 m ++ (n ∷ [])) m ∙ lowest m v.buckets);
          nodes_fit =
              let a = nodes-length dec (enter dec 1 n m) in
              let b = nodes-length dec m in let t = weights one in omega arith;
          ghosts_fit = v.ghosts_fit;
        };
        same_capacity = c;
        same_ghosts = g;
      }
    where
      lowest : (m : FreqMap K V) → IsBuckets 0 m → min 1 (first_freq 1 m) ≡ 1
      lowest [] b = omega arith
      lowest ((f, ns) ∷ m) b = let a = b.0 in omega arith

  ordered : (s : ArcLfu K V) → IsSound s → IsOrdered dec s
  ordered s v = record { buckets = v.buckets; least = v.least; ghosts_fit = v.ghosts_fit }

  add_new_node-Wrote :
      (key : K) (value : V) (s : ArcLfu K V)
      → 0 < s.capacity
      → IsSound s
      → total (at dec key) (nodes s.freq_map) ≡ 0
      → Wrote key value (true, add_new_node dec key value s) s
  unfolding add_new_node
  add_new_node-Wrote key value s c v z =
      let n = v.nodes_fit in
      let e = evict-Evicts dec s (ordered s v) in
      if-keeps
        (λ (room : ArcLfu K V).
          Wrote key value
            (
              true,
              record room {
                freq_map = enter dec 1 (new_node key value) room.freq_map;
                min_freq = 1;
              },
            )
            s)
        (leb s.capacity (length (nodes s.freq_map)))
        (λ _.
          let size = e.size in
          let c' = e.same_capacity in
          let g = e.same_ghosts in
          let k = e.ghosts_fit in
          entered key value (evict_least_frequent dec s) s
            (record { buckets = e.buckets; least = e.least; ghosts_fit = omega arith })
            (omega arith) e.shrinks c' g z)
        (λ h.
          let room = below s.capacity (length (nodes s.freq_map)) h in
          entered key value s s (ordered s v) (omega arith) (Shrinks-refl (nodes s.freq_map)) refl
            refl z)
    where
      below : (a b : ℕ) → leb a b ≡ false → b < a
      below a b h = ground arith

  -- A node that is found gets the value and rises.
  rewritten :
      (key : K) (value : V) (s : ArcLfu K V) (n : Node K V)
      → IsSound s
      → find dec key (nodes s.freq_map) ≡ some n
      → Wrote key value (true, update_node_frequency dec (record n { value = value }) s) s
  rewritten key value s n v e =
      let p = find-key dec key (nodes s.freq_map) n e in
      let e' : find dec n.key (nodes s.freq_map) ≡ some n =
        ap (λ a. find dec a (nodes s.freq_map)) p ∙ e in
      let r = update-Rises dec (record n { value = value }) n s v e' refl refl in
      let gone = left-Erases dec key n s.freq_map v.buckets e in
      let there = found_weighs dec key (nodes s.freq_map) n e in
      record {
        success = refl;
        puts = record {
          others = λ j d. let t = r.weight (at dec j) in omega arith;
          only = λ u. let t = r.weight (at dec key) in omega arith;
          fits = λ h u f.
              r.fits (write dec key (some value) h)
                (ap (write dec key (some value) h) p ∙ rw (same_refl dec key) refl)
                (subst
                  (λ a.
                    Fits (write dec key (some value) h)
                      (nodes (left dec a n.access_count s.freq_map)))
                  (sym p)
                  (Fits-write dec h key (some value)
                    (nodes (left dec key n.access_count s.freq_map)) (gone.gone u)
                    (gone.shrinks.fits h f)));
        };
        sound = r.sound;
        same_capacity = r.same_capacity;
        same_ghosts = r.same_ghosts;
      }

  pub put-Wrote :
      (key : K) (value : V) (s : ArcLfu K V)
      → 0 < s.capacity
      → IsSound s
      → Wrote key value (put dec key value s) s
  unfolding put
  put-Wrote key value s c v =
      if-keeps (λ (r : Bool × ArcLfu K V). Wrote key value r s) (s.capacity == 0)
        (λ z. absurd (ground arith))
        (λ _.
          Option-keeps (λ (r : Bool × ArcLfu K V). Wrote key value r s)
            (find dec key (nodes s.freq_map))
            (true, add_new_node dec key value (erase_ghost dec key s).1)
            (λ n. (true, update_node_frequency dec (record n { value = value }) s))
            (λ e.
              let m = erase_ghost-SameMain key s in
              let w = erase_ghost-IsSound key s v in
              let z = find-none dec key (nodes s.freq_map) e in
              let c' = m.same_capacity in
              let g' = m.same_ghosts in
              let a =
                add_new_node-Wrote key value (erase_ghost dec key s).1 (omega arith) w
                  (ap (λ l. total (at dec key) (nodes l)) m.same_map ∙ z) in
              record {
                success = refl;
                puts =
                    subst
                      (λ l.
                        Puts dec key value
                          (nodes (add_new_node dec key value (erase_ghost dec key s).1).freq_map)
                          (nodes l))
                      m.same_map a.puts;
                sound = a.sound;
                same_capacity = a.same_capacity ∙ c';
                same_ghosts = a.same_ghosts ∙ g';
              })
            (λ n e. rewritten key value s n v e))

  pub put-refused :
      (key : K) (value : V) (s : ArcLfu K V) → s.capacity ≡ 0 → put dec key value s ≡ (false, s)
  unfolding put
  put-refused key value s h = rw h refl

  -- A write is taken exactly when there is capacity.
  pub put_taken :
      (key : K) (value : V) (s : ArcLfu K V) → (put dec key value s).0 ≡ true → 0 < s.capacity
  put_taken key value s h = elim (dec_le s.capacity 0) [
    | yes z ↦ let e = put-refused key value s (omega arith) in absurd cc
    | no z ↦ omega arith
  ]

  pub put_not_taken :
      (key : K) (value : V) (s : ArcLfu K V)
      → IsSound s
      → (put dec key value s).0 ≡ false
      → (put dec key value s).1 ≡ s
  put_not_taken key value s v h = elim (dec_le s.capacity 0) [
    | yes z ↦ ap (λ (r : Bool × ArcLfu K V). r.1) (put-refused key value s (omega arith))
    | no z ↦ let w = put-Wrote key value s (omega arith) v in let t = w.success in absurd cc
  ]
