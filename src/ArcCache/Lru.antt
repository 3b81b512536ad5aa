-- ===== src/ArcCache/Lru.antt =====
-- The class `ArcLru`. The main list starts with the most recently used node, the ghost list with
-- the key evicted last.
use cpp_tlfss.Base.{
  ltb, leb, ◌==◌, if◌then◌else◌, length, ℕ, zero, suc, ◌+◌, ◌-◌, Bool, true, false, ◌||◌, Option,
  none, some, List, [], ◌∷◌,
}
use cpp_tlfss.ArcCache.Node.{Node, new_node, drop_last, last, find, unlink, is_ghost, unlink_ghost}

pub record ArcLru {ℓ} (K V : Type ℓ) : Type ℓ where
  pub capacity : ℕ
  pub ghost_capacity : ℕ
  pub transform_threshold : ℕ
  pub main_list : List (Node K V)
  pub ghost_list : List K

abbrev pub make_lru {ℓ} : {K V : Type ℓ} → ℕ → ℕ → ℕ → ArcLru K V
make_lru cap trans ghost_cap = record {
  capacity = cap;
  ghost_capacity = ghost_cap;
  transform_threshold = trans;
  main_list = [];
  ghost_list = [];
}

module _ {ℓ} {K : Type ℓ} (dec : Discrete K) where
  unfoldable pub add_to_ghost : ℕ → K → List K → List K
  add_to_ghost ghost_capacity key ghosts =
      if ghost_capacity == 0
      then ghosts
      else if is_ghost dec key ghosts
      then ghosts
      else key ∷ ghosts

module _ {ℓ} {K V : Type ℓ} (dec : Discrete K) where
  unfoldable pub erase_ghost : K → ArcLru K V → Bool × ArcLru K V
  erase_ghost key s =
      if is_ghost dec key s.ghost_list
      then (true, record s { ghost_list = unlink_ghost dec key s.ghost_list })
      else (false, s)

  -- `remove_oldest_ghost` where the list is full.
  abbrev pub trim_ghosts : ArcLru K V → List K
  trim_ghosts s =
      if leb s.ghost_capacity (length s.ghost_list) then drop_last s.ghost_list else s.ghost_list

  unfoldable pub evict_least_recent : ArcLru K V → ArcLru K V
  evict_least_recent s = elim s.main_list [
    | [] ↦ s
    | n ∷ ns ↦ record s {
      main_list = drop_last (n ∷ ns);
      ghost_list = add_to_ghost dec s.ghost_capacity (last n ns).key (trim_ghosts s);
    }
  ]

  unfoldable pub add_new_node : K → V → ArcLru K V → ArcLru K V
  add_new_node key value s =
      let room = if leb s.capacity (length s.main_list) then evict_least_recent s else s in
      record room { main_list = new_node key value ∷ room.main_list }

  unfoldable pub put : K → V → ArcLru K V → Bool × ArcLru K V
  put key value s = if s.capacity == 0 then (false, s) else elim (find dec key s.main_list) [
    | none ↦ (true, add_new_node key value (erase_ghost key s).1)
    | some n ↦
        (true, record s { main_list = (record n { value = value }) ∷ unlink dec key s.main_list })
  ]

  -- The value with the advice to promote the node.
  unfoldable pub get : K → ArcLru K V → Option (V × Bool) × ArcLru K V
  get key s = elim (find dec key s.main_list) [
    | none ↦ (none, s)
    | some n ↦ (
      some (n.value, leb s.transform_threshold (n.access_count + 1)),
      record s {
        main_list = (record n { access_count = n.access_count + 1 }) ∷ unlink dec key s.main_list;
      },
    )
  ]

  abbrev pub is_found : Option (Node K V) → Bool
  is_found none = false
  is_found (some n) = true

  abbrev pub contain : K → ArcLru K V → Bool
  contain key s = is_found (find dec key s.main_list)

  unfoldable pub erase : K → ArcLru K V → Bool × ArcLru K V
  erase key s =
      if contain key s
      then (true, record s { main_list = unlink dec key s.main_list })
      else (false, s)

  unfoldable pub invalidate : K → ArcLru K V → Bool × ArcLru K V
  invalidate key s =
      let main = erase key s in let ghost = erase_ghost key main.1 in (main.0 || ghost.0, ghost.1)

  abbrev pub check_ghost : K → ArcLru K V → Bool × ArcLru K V
  check_ghost = erase_ghost

  abbrev pub increase_capacity : ArcLru K V → ArcLru K V
  increase_capacity s = record s { capacity = s.capacity + 1 }

  -- The loop of `decrease_capacity`.
  unfoldable pub shrink : ℕ → ArcLru K V → ArcLru K V
  shrink zero s = s
  shrink (suc fuel) s =
      let rest = shrink fuel (evict_least_recent s) in
      if ltb s.capacity (length s.main_list) then rest else s

  unfoldable pub decrease_capacity : ArcLru K V → Bool × ArcLru K V
  decrease_capacity s =
      if s.capacity == 0
      then (false, s)
      else (true, shrink (length s.main_list) (record s { capacity = s.capacity - 1 }))
