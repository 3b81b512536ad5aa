-- ===== src/ArcCache/FrequentReads.antt =====
-- Reads and removals in the LFU part.
use cpp_tlfss.Base.{
  Option-keeps, ◌<◌, ◌≡◌, refl, sym, ap, ◌∙◌, subst, Bool, true, false, Option, none, some, arith,
}
use cpp_tlfss.ArcCache.Node.{Node, find}
use cpp_tlfss.ArcCache.Lfu.{
  ArcLfu, nodes, first_freq, update_node_frequency, get, is_found, contain, erase_main, invalidate,
}
use cpp_tlfss.ArcCache.Content.{
  History, one, total, Fits, Shrinks-refl, at, find-key, find-Fits, find-none, found_weighs, Same,
  Erases,
}
use cpp_tlfss.ArcCache.Buckets.{first-IsMin}
use cpp_tlfss.ArcCache.Rising.{
  IsSound, left, left-Fits, left-IsBuckets, left-Erases, nodes-length, update-Rises,
}
use cpp_tlfss.ArcCache.Frequent.{erase_ghost-SameMain, erase_ghost-IsSound}

module _ {ℓ} {K V : Type ℓ} (dec : Discrete K) where
  pub record Reads (key : K) (result : Option V × ArcLfu K V) (old : ArcLfu K V) : Type ℓ where
    pub same_nodes : Same (nodes result.1.freq_map) (nodes old.freq_map)
    pub sound : IsSound result.1
    pub same_capacity : result.1.capacity ≡ old.capacity
    pub same_ghosts : result.1.ghost_capacity ≡ old.ghost_capacity
    pub value :
        (h : History K V) (v : V) → Fits h (nodes old.freq_map) → result.0 ≡ some v → h key ≡ some v
    pub misses : result.0 ≡ none → total (at dec key) (nodes old.freq_map) ≡ 0

  pub get-Reads : (key : K) (s : ArcLfu K V) → IsSound s → Reads key (get dec key s) s
  unfolding get
  get-Reads key s v =
      Option-keeps (λ (r : Option V × ArcLfu K V). Reads key r s) (find dec key (nodes s.freq_map))
        (none, s) (λ n. (some n.value, update_node_frequency dec n s))
        (λ e. record {
          same_nodes = record { weight = λ w. refl; fits = λ h f. f };
          sound = v;
          same_capacity = refl;
          same_ghosts = refl;
          value = λ h x f k. absurd cc;
          misses = λ _. find-none dec key (nodes s.freq_map) e;
        })
        (λ n e.
          let p = find-key dec key (nodes s.freq_map) n e in
          let e' : find dec n.key (nodes s.freq_map) ≡ some n =
            ap (λ a. find dec a (nodes s.freq_map)) p ∙ e in
          let r = update-Rises dec n n s v e' refl refl in
          record {
            same_nodes = record {
              weight = r.weight;
              fits = λ h f.
                  r.fits h (ap h p ∙ find-Fits dec h key (nodes s.freq_map) n e f)
                    (left-Fits dec h n.key n.access_count s.freq_map f);
            };
            sound = r.sound;
            same_capacity = r.same_capacity;
            same_ghosts = r.same_ghosts;
            value = λ h x f k. let found = find-Fits dec h key (nodes s.freq_map) n e f in cc;
            misses = λ k. absurd cc;
          })

  pub record Removes (key : K) (new old : ArcLfu K V) : Type ℓ where
    pub erases : Erases dec key (nodes new.freq_map) (nodes old.freq_map)
    pub sound : IsSound new
    pub same_capacity : new.capacity ≡ old.capacity
    pub same_ghosts : new.ghost_capacity ≡ old.ghost_capacity

  erase_main-Removes :
      (key : K) (s : ArcLfu K V) → IsSound s → Removes key (erase_main dec key s).1 s
  unfolding erase_main
  erase_main-Removes key s v =
      let fit = v.nodes_fit in
      Option-keeps (λ (r : Bool × ArcLfu K V). Removes key r.1 s) (find dec key (nodes s.freq_map))
        (false, s)
        (λ n. (
          true,
          record s {
            freq_map = left dec key n.access_count s.freq_map;
            min_freq = first_freq 0 (left dec key n.access_count s.freq_map);
          },
        ))
        (λ e. record {
          erases = record {
            shrinks = Shrinks-refl (nodes s.freq_map);
            gone = λ _. find-none dec key (nodes s.freq_map) e;
          };
          sound = v;
          same_capacity = refl;
          same_ghosts = refl;
        })
        (λ n e.
          let rest = left dec key n.access_count s.freq_map in
          let er = left-Erases dec key n s.freq_map v.buckets e in
          record {
            erases = er;
            sound = record {
              buckets = left-IsBuckets dec key n s.freq_map v.buckets e;
              least = first-IsMin 0 rest;
              nodes_fit =
                  let a = nodes-length dec rest in
                  let b = nodes-length dec s.freq_map in
                  let t = er.shrinks.weight one in omega arith;
              ghosts_fit = v.ghosts_fit;
            };
            same_capacity = refl;
            same_ghosts = refl;
          })

  pub invalidate-Removes :
      (key : K) (s : ArcLfu K V) → IsSound s → Removes key (invalidate dec key s).1 s
  unfolding invalidate
  invalidate-Removes key s v =
      let r = erase_main-Removes key s v in
      let m = erase_ghost-SameMain dec key (erase_main dec key s).1 in
      record {
        erases = subst (λ l. Erases dec key (nodes l) (nodes s.freq_map)) (sym m.same_map) r.erases;
        sound = erase_ghost-IsSound dec key (erase_main dec key s).1 r.sound;
        same_capacity = m.same_capacity ∙ r.same_capacity;
        same_ghosts = m.same_ghosts ∙ r.same_ghosts;
      }

  missing : (o : Option (Node K V)) → is_found dec o ≡ false → o ≡ none
  missing none h = refl
  missing (some n) h = absurd cc

  pub contain-total :
      (key : K) (s : ArcLfu K V)
      → contain dec key s ≡ false
      → total (at dec key) (nodes s.freq_map) ≡ 0
  contain-total key s h =
      find-none dec key (nodes s.freq_map) (missing (find dec key (nodes s.freq_map)) h)

  found-cases : (o : Option (Node K V)) → is_found dec o ≡ true → (n : Node K V) × (o ≡ some n)
  found-cases none h = absurd cc
  found-cases (some n) h = (n, refl)

  pub resident_total :
      (key : K) (s : ArcLfu K V)
      → contain dec key s ≡ true
      → 0 < total (at dec key) (nodes s.freq_map)
  resident_total key s h =
      let (n, e) = found-cases (find dec key (nodes s.freq_map)) h in
      found_weighs dec key (nodes s.freq_map) n e
