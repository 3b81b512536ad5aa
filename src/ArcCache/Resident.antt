-- ===== src/ArcCache/Resident.antt =====
-- Writes, reads and removals in the LRU part.
use cpp_tlfss.Base.{
  leb, ◌==◌, if-keeps, Option-keeps, length, ℕ, ◌+◌, ◌<◌, ◌≡◌, refl, sym, ap, ◌∙◌, subst, Bool,
  true, false, Option, none, some, List, ◌∷◌, arith,
}
use cpp_tlfss.ArcCache.Node.{Node, new_node, find, unlink}
use cpp_tlfss.ArcCache.Lru.{
  ArcLru, erase_ghost, evict_least_recent, add_new_node, put, get, is_found, contain, erase,
  invalidate,
}
use cpp_tlfss.ArcCache.Content.{
  History, one, total, Fits, total-length, Shrinks-refl, at, find-key, find-total, unlink-Fits,
  find-Fits, find-none, found_weighs, Same, Puts, Erases, moved-Puts, added-Puts, unlink-Erases,
}
use cpp_tlfss.ArcCache.Recency.{IsWithin, evict-Evicts, erase_ghost-IsWithin, erase_ghost-SameMain}

module _ {ℓ} {K V : Type ℓ} (dec : Discrete K) where
  unlink-length :
      (key : K) (ns : List (Node K V)) (n : Node K V)
      → find dec key ns ≡ some n
      → length (unlink dec key ns) + 1 ≡ length ns
  unlink-length key ns n e =
      let t = find-total dec one key ns n e in
      let a = total-length (unlink dec key ns) in let b = total-length ns in omega arith

  -- A write succeeds exactly when there is capacity.
  pub record Wrote (key : K) (value : V) (result : Bool × ArcLru K V) (old : ArcLru K V)
      : Type ℓ where
    pub success : result.0 ≡ true
    pub puts : Puts dec key value result.1.main_list old.main_list
    pub within : IsWithin result.1
    pub same_capacity : result.1.capacity ≡ old.capacity
    pub same_ghosts : result.1.ghost_capacity ≡ old.ghost_capacity

  add_new_node-Puts :
      (key : K) (value : V) (s : ArcLru K V)
      → 0 < s.capacity
      → IsWithin s
      → total (at dec key) s.main_list ≡ 0
      → Wrote key value (true, add_new_node dec key value s) s
  unfolding add_new_node
  add_new_node-Puts key value s c v z =
      let n = v.nodes_fit in
      let e = evict-Evicts dec s in
      if-keeps
        (λ (room : ArcLru K V).
          Wrote key value (true, record room { main_list = new_node key value ∷ room.main_list }) s)
        (leb s.capacity (length s.main_list))
        (λ _.
          let size = e.size in
          let c' = e.same_capacity in
          let g = e.same_ghosts in
          let k = e.ghosts_fit v.ghosts_fit in
          record {
            success = refl;
            puts =
                added-Puts dec key value (evict_least_recent dec s).main_list s.main_list e.shrinks
                  z;
            within = record { nodes_fit = omega arith; ghosts_fit = omega arith };
            same_capacity = c';
            same_ghosts = g;
          })
        (λ h.
          let room = below s.capacity (length s.main_list) h in
          record {
            success = refl;
            puts = added-Puts dec key value s.main_list s.main_list (Shrinks-refl s.main_list) z;
            within = record { nodes_fit = omega arith; ghosts_fit = v.ghosts_fit };
            same_capacity = refl;
            same_ghosts = refl;
          })
    where
      below : (a b : ℕ) → leb a b ≡ false → b < a
      below a b h = ground arith

  pub put-Wrote :
      (key : K) (value : V) (s : ArcLru K V)
      → 0 < s.capacity
      → IsWithin s
      → Wrote key value (put dec key value s) s
  unfolding put
  put-Wrote key value s c v =
      if-keeps (λ (r : Bool × ArcLru K V). Wrote key value r s) (s.capacity == 0)
        (λ z. absurd (ground arith))
        (λ _.
          Option-keeps (λ (r : Bool × ArcLru K V). Wrote key value r s) (find dec key s.main_list)
            (true, add_new_node dec key value (erase_ghost dec key s).1)
            (λ n. (
              true,
              record s { main_list = (record n { value = value }) ∷ unlink dec key s.main_list },
            ))
            (λ e.
              let m = erase_ghost-SameMain dec key s in
              let w = erase_ghost-IsWithin dec key s v in
              let z = find-none dec key s.main_list e in
              let c' = m.same_capacity in
              let g' = m.same_ghosts in
              let a =
                add_new_node-Puts key value (erase_ghost dec key s).1 (omega arith) w
                  (ap (total (at dec key)) m.same_list ∙ z) in
              record {
                success = refl;
                puts =
                    subst
                      (Puts dec key value
                        (add_new_node dec key value (erase_ghost dec key s).1).main_list)
                      m.same_list a.puts;
                within = a.within;
                same_capacity = a.same_capacity ∙ c';
                same_ghosts = a.same_ghosts ∙ g';
              })
            (λ n e.
              let size = unlink-length key s.main_list n e in
              let fit = v.nodes_fit in
              record {
                success = refl;
                puts =
                    moved-Puts dec key value s.main_list n (record n { value = value }) e
                      (find-key dec key s.main_list n e) refl;
                within = record { nodes_fit = omega arith; ghosts_fit = v.ghosts_fit };
                same_capacity = refl;
                same_ghosts = refl;
              }))

  -- A read returns the value that the history has, and finds every key with a node.
  pub record Reads (key : K) (result : Option (V × Bool) × ArcLru K V) (old : ArcLru K V)
      : Type ℓ where
    pub same_nodes : Same result.1.main_list old.main_list
    pub within : IsWithin result.1
    pub same_capacity : result.1.capacity ≡ old.capacity
    pub same_ghosts : result.1.ghost_capacity ≡ old.ghost_capacity
    pub value :
        (h : History K V) (v : V) (b : Bool)
        → Fits h old.main_list
        → result.0 ≡ some (v, b)
        → h key ≡ some v
    pub misses : result.0 ≡ none → total (at dec key) old.main_list ≡ 0
    pub held : (x : V × Bool) → result.0 ≡ some x → 0 < total (at dec key) old.main_list

  pub get-Reads : (key : K) (s : ArcLru K V) → IsWithin s → Reads key (get dec key s) s
  unfolding get
  get-Reads key s v =
      Option-keeps (λ (r : Option (V × Bool) × ArcLru K V). Reads key r s)
        (find dec key s.main_list) (none, s)
        (λ n. (
          some (n.value, leb s.transform_threshold (n.access_count + 1)),
          record s {
            main_list =
                (record n { access_count = n.access_count + 1 }) ∷ unlink dec key s.main_list;
          },
        ))
        (λ e. record {
          same_nodes = record { weight = λ w. refl; fits = λ h f. f };
          within = v;
          same_capacity = refl;
          same_ghosts = refl;
          value = λ h x b f k. absurd cc;
          misses = λ _. find-none dec key s.main_list e;
          held = λ x k. absurd cc;
        })
        (λ n e.
          let size = unlink-length key s.main_list n e in
          let fit = v.nodes_fit in
          let p = find-key dec key s.main_list n e in
          record {
            same_nodes = record {
              weight = λ w. omega (arith, find-total dec w key s.main_list n e);
              fits = λ h f.
                  let found = find-Fits dec h key s.main_list n e f in
                  (ap h p ∙ found, unlink-Fits dec h key s.main_list f);
            };
            within = record { nodes_fit = omega arith; ghosts_fit = v.ghosts_fit };
            same_capacity = refl;
            same_ghosts = refl;
            value = λ h x b f k. let found = find-Fits dec h key s.main_list n e f in cc;
            misses = λ k. absurd cc;
            held = λ x k. found_weighs dec key s.main_list n e;
          })

  pub record Removes (key : K) (new old : ArcLru K V) : Type ℓ where
    pub erases : Erases dec key new.main_list old.main_list
    pub within : IsWithin new
    pub same_capacity : new.capacity ≡ old.capacity
    pub same_ghosts : new.ghost_capacity ≡ old.ghost_capacity

  found-cases : (o : Option (Node K V)) → is_found dec o ≡ true → (n : Node K V) × (o ≡ some n)
  found-cases none h = absurd cc
  found-cases (some n) h = (n, refl)

  missing : (o : Option (Node K V)) → is_found dec o ≡ false → o ≡ none
  missing none h = refl
  missing (some n) h = absurd cc

  pub erase-Removes : (key : K) (s : ArcLru K V) → IsWithin s → Removes key (erase dec key s).1 s
  unfolding erase
  erase-Removes key s v =
      let fit = v.nodes_fit in
      if-keeps (λ (r : Bool × ArcLru K V). Removes key r.1 s) (contain dec key s)
        (λ h.
          let (n, e) = found-cases (find dec key s.main_list) h in
          let size = unlink-length key s.main_list n e in
          record {
            erases = unlink-Erases dec key s.main_list n e;
            within = record { nodes_fit = omega arith; ghosts_fit = v.ghosts_fit };
            same_capacity = refl;
            same_ghosts = refl;
          })
        (λ h. record {
          erases = record {
            shrinks = Shrinks-refl s.main_list;
            gone = λ _. find-none dec key s.main_list (missing (find dec key s.main_list) h);
          };
          within = v;
          same_capacity = refl;
          same_ghosts = refl;
        })

  pub invalidate-Removes :
      (key : K) (s : ArcLru K V) → IsWithin s → Removes key (invalidate dec key s).1 s
  unfolding invalidate
  invalidate-Removes key s v =
      let r = erase-Removes key s v in
      let m = erase_ghost-SameMain dec key (erase dec key s).1 in
      record {
        erases = subst (λ ns. Erases dec key ns s.main_list) (sym m.same_list) r.erases;
        within = erase_ghost-IsWithin dec key (erase dec key s).1 r.within;
        same_capacity = m.same_capacity ∙ r.same_capacity;
        same_ghosts = m.same_ghosts ∙ r.same_ghosts;
      }

  pub contain-total :
      (key : K) (s : ArcLru K V) → contain dec key s ≡ false → total (at dec key) s.main_list ≡ 0
  contain-total key s h = find-none dec key s.main_list (missing (find dec key s.main_list) h)

  pub resident_total :
      (key : K) (s : ArcLru K V) → contain dec key s ≡ true → 0 < total (at dec key) s.main_list
  resident_total key s h =
      let (n, e) = found-cases (find dec key s.main_list) h in found_weighs dec key s.main_list n e
