-- ===== src/ArcCache/Recency.antt =====
-- The operations of the LRU part: its bounds, and what they do to its nodes.
use cpp_tlfss.Base.{
  ltb, ◌==◌, if-keeps, length, ℕ, zero, suc, ◌+◌, ◌-◌, ◌≤◌, ◌≡◌, refl, ap, ◌∙◌, Bool, false, List,
  [], ◌∷◌, arith,
}
use cpp_tlfss.ArcCache.Node.{Node, drop_last, last, is_ghost, unlink_ghost}
use cpp_tlfss.ArcCache.Lru.{
  ArcLru, add_to_ghost, erase_ghost, trim_ghosts, evict_least_recent, shrink, decrease_capacity,
}
use cpp_tlfss.ArcCache.Content.{
  total-drop_last, Fits-drop_last, Shrinks, Shrinks-refl, Shrinks-trans,
}

pub length-drop_last {ℓ} :
    {A : Type ℓ} (x : A) (xs : List A) → length (drop_last (x ∷ xs)) ≡ length xs
length-drop_last x [] = refl
length-drop_last x (y ∷ ys) = ap suc (length-drop_last y ys)

pub drop_last-length {ℓ} : {A : Type ℓ} (xs : List A) → length (drop_last xs) ≡ length xs - 1
drop_last-length [] = omega arith
drop_last-length (x ∷ xs) = omega (arith, length-drop_last x xs)

pub record IsWithin {ℓ} {K V : Type ℓ} (s : ArcLru K V) : Type ℓ where
  pub nodes_fit : length s.main_list ≤ s.capacity
  pub ghosts_fit : length s.ghost_list ≤ s.ghost_capacity

module _ {ℓ} {K : Type ℓ} (dec : Discrete K) where
  pub unlink_ghost-length : (key : K) (ks : List K) → length (unlink_ghost dec key ks) ≤ length ks
  unfolding unlink_ghost
  unlink_ghost-length key [] = omega arith
  unlink_ghost-length key (k ∷ ks) = let ih = unlink_ghost-length key ks in ground arith

  pub add_to_ghost-length :
      (c : ℕ) (key : K) (ks : List K) → length ks ≤ c - 1 → length (add_to_ghost dec c key ks) ≤ c
  unfolding add_to_ghost
  add_to_ghost-length c key ks h = ground arith

module _ {ℓ} {K V : Type ℓ} (dec : Discrete K) where
  trim_ghosts-length :
      (s : ArcLru K V)
      → length s.ghost_list ≤ s.ghost_capacity
      → length (trim_ghosts dec s) ≤ s.ghost_capacity - 1
  trim_ghosts-length s h = let d = drop_last-length s.ghost_list in ground arith

  -- What an eviction leaves alone, and what it takes.
  pub record Evicts (new old : ArcLru K V) : Type ℓ where
    pub shrinks : Shrinks new.main_list old.main_list
    pub size : length new.main_list ≡ length old.main_list - 1
    pub same_capacity : new.capacity ≡ old.capacity
    pub same_ghosts : new.ghost_capacity ≡ old.ghost_capacity
    pub ghosts_fit :
        length old.ghost_list ≤ old.ghost_capacity → length new.ghost_list ≤ old.ghost_capacity

  evict_list :
      (ns : List (Node K V)) (s : ArcLru K V)
      → Evicts (evict_least_recent dec (record s { main_list = ns })) (record s { main_list = ns })
  unfolding evict_least_recent
  evict_list [] s = record {
    shrinks = Shrinks-refl [];
    size = omega arith;
    same_capacity = refl;
    same_ghosts = refl;
    ghosts_fit = λ g. g;
  }
  evict_list (n ∷ ns) s = record {
    shrinks = record {
      weight = λ w. omega (arith, total-drop_last w n ns);
      fits = λ h f. Fits-drop_last h (n ∷ ns) f;
    };
    size = length-drop_last n ns ∙ one_less (length ns);
    same_capacity = refl;
    same_ghosts = refl;
    ghosts_fit = λ g.
        add_to_ghost-length dec s.ghost_capacity (last n ns).key (trim_ghosts dec s)
          (trim_ghosts-length s g);
  }
    where
      one_less : (n : ℕ) → n ≡ suc n - 1
      one_less n = omega arith

  pub evict-Evicts : (s : ArcLru K V) → Evicts (evict_least_recent dec s) s
  evict-Evicts s = evict_list s.main_list s

  -- With as many rounds as there are nodes, the loop ends with the nodes within the capacity.
  pub record Shrunk (new old : ArcLru K V) : Type ℓ where
    pub shrinks : Shrinks new.main_list old.main_list
    pub nodes_fit : length new.main_list ≤ old.capacity
    pub same_capacity : new.capacity ≡ old.capacity
    pub same_ghosts : new.ghost_capacity ≡ old.ghost_capacity
    pub ghosts_fit :
        length old.ghost_list ≤ old.ghost_capacity → length new.ghost_list ≤ old.ghost_capacity

  stays : (s : ArcLru K V) → length s.main_list ≤ s.capacity → Shrunk s s
  stays s h = record {
    shrinks = Shrinks-refl s.main_list;
    nodes_fit = h;
    same_capacity = refl;
    same_ghosts = refl;
    ghosts_fit = λ g. g;
  }

  after : {new mid old : ArcLru K V} → Shrunk new mid → Evicts mid old → Shrunk new old
  after {new = new} {mid = mid} {old = old} a e =
      let c = e.same_capacity in
      let n = a.nodes_fit in
      let g = e.same_ghosts in
      record {
        shrinks = Shrinks-trans a.shrinks e.shrinks;
        nodes_fit = omega arith;
        same_capacity = a.same_capacity ∙ c;
        same_ghosts = a.same_ghosts ∙ g;
        ghosts_fit =
            λ k. let m = e.ghosts_fit k in let r = a.ghosts_fit (omega arith) in omega arith;
      }

  pub shrink-Shrunk :
      (fuel : ℕ) (s : ArcLru K V)
      → length s.main_list ≤ fuel + s.capacity
      → Shrunk (shrink dec fuel s) s
  unfolding shrink
  shrink-Shrunk zero s h = stays s (omega arith)
  shrink-Shrunk (suc fuel) s h =
      let e = evict-Evicts s in
      let size = e.size in
      let c = e.same_capacity in
      if-keeps (λ (t : ArcLru K V). Shrunk t s) (ltb s.capacity (length s.main_list))
        (λ _. after (shrink-Shrunk fuel (evict_least_recent dec s) (omega arith)) e)
        (λ k. stays s (le_of s.capacity (length s.main_list) k))
    where
      le_of : (a b : ℕ) → ltb a b ≡ false → b ≤ a
      le_of a b h = ground arith

  pub record Decreased (result : Bool × ArcLru K V) (old : ArcLru K V) : Type ℓ where
    pub success : result.0 ≡ ltb 0 old.capacity
    pub capacity_is : result.1.capacity ≡ old.capacity - 1
    pub within : IsWithin result.1
    pub same_ghosts : result.1.ghost_capacity ≡ old.ghost_capacity
    pub shrinks : Shrinks result.1.main_list old.main_list

  pub decrease-Decreased : (s : ArcLru K V) → IsWithin s → Decreased (decrease_capacity dec s) s
  unfolding decrease_capacity
  decrease-Decreased s v =
      let n = v.nodes_fit in
      let a =
        shrink-Shrunk (length s.main_list) (record s { capacity = s.capacity - 1 }) (omega arith) in
      if-keeps (λ (r : Bool × ArcLru K V). Decreased r s) (s.capacity == 0)
        (λ z. record {
          success = ground arith;
          capacity_is = ground arith;
          within = v;
          same_ghosts = refl;
          shrinks = Shrinks-refl s.main_list;
        })
        (λ z.
          let c = a.same_capacity in
          let g = a.same_ghosts in
          let f = a.nodes_fit in
          let k = a.ghosts_fit v.ghosts_fit in
          record {
            success = ground arith;
            capacity_is = c;
            within = record { nodes_fit = omega arith; ghosts_fit = omega arith };
            same_ghosts = g;
            shrinks = a.shrinks;
          })

  pub erase_ghost-IsWithin :
      (key : K) (s : ArcLru K V) → IsWithin s → IsWithin (erase_ghost dec key s).1
  unfolding erase_ghost
  erase_ghost-IsWithin key s v =
      if-keeps (λ (r : Bool × ArcLru K V). IsWithin r.1) (is_ghost dec key s.ghost_list)
        (λ _.
          let g = v.ghosts_fit in
          record {
            nodes_fit = v.nodes_fit;
            ghosts_fit = omega (arith, unlink_ghost-length dec key s.ghost_list);
          })
        (λ _. v)

  -- Looking for history changes neither the nodes nor the capacities.
  pub record SameMain (new old : ArcLru K V) : Type ℓ where
    pub same_list : new.main_list ≡ old.main_list
    pub same_capacity : new.capacity ≡ old.capacity
    pub same_ghosts : new.ghost_capacity ≡ old.ghost_capacity

  pub erase_ghost-SameMain : (key : K) (s : ArcLru K V) → SameMain (erase_ghost dec key s).1 s
  unfolding erase_ghost
  erase_ghost-SameMain key s =
      if-keeps (λ (r : Bool × ArcLru K V). SameMain r.1 s) (is_ghost dec key s.ghost_list)
        (λ _. record { same_list = refl; same_capacity = refl; same_ghosts = refl })
        (λ _. record { same_list = refl; same_capacity = refl; same_ghosts = refl })
