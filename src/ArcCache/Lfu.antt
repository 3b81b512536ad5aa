-- ===== src/ArcCache/Lfu.antt =====
-- The class `ArcLfu`. The map of frequencies is a list in ascending order; a bucket lists its nodes
-- in the order of arrival. The ghost list starts with the key evicted first.
use cpp_tlfss.Base.{
  ltb, leb, ◌==◌, if◌then◌else◌, length, drop, is_empty, ℕ, zero, suc, ◌+◌, ◌-◌, Bool, true, false,
  ◌||◌, Option, none, some, List, [], ◌∷◌, ◌++◌,
}
use cpp_tlfss.ArcCache.Node.{Node, new_node, find, unlink, is_ghost, unlink_ghost}

abbrev pub FreqMap {ℓ} : (K V : Type ℓ) → Type ℓ
FreqMap K V = List (ℕ × List (Node K V))

pub record ArcLfu {ℓ} (K V : Type ℓ) : Type ℓ where
  pub capacity : ℕ
  pub ghost_capacity : ℕ
  pub transform_threshold : ℕ
  pub min_freq : ℕ
  pub freq_map : FreqMap K V
  pub ghost_list : List K

abbrev pub make_lfu {ℓ} : {K V : Type ℓ} → ℕ → ℕ → ℕ → ArcLfu K V
make_lfu cap trans ghost_cap = record {
  capacity = cap;
  ghost_capacity = ghost_cap;
  transform_threshold = trans;
  min_freq = 0;
  freq_map = [];
  ghost_list = [];
}

module _ {ℓ} {K V : Type ℓ} where
  -- `std::map<size_t, std::list<NodePtr>>`: the bucket at a frequency, empty if there is none.
  unfoldable pub bucket : ℕ → FreqMap K V → List (Node K V)
  bucket f [] = []
  bucket f ((g, ns) ∷ m) = let later = bucket f m in if f == g then ns else later

  unfoldable pub assign : ℕ → List (Node K V) → FreqMap K V → FreqMap K V
  assign f ns [] = (f, ns) ∷ []
  assign f ns ((g, old) ∷ m) =
      let later = assign f ns m in
      if ltb g f then (g, old) ∷ later else if f == g then (f, ns) ∷ m else (f, ns) ∷ (g, old) ∷ m

  unfoldable pub erase_bucket : ℕ → FreqMap K V → FreqMap K V
  erase_bucket f [] = []
  erase_bucket f ((g, old) ∷ m) =
      let later = erase_bucket f m in if f == g then m else (g, old) ∷ later

  -- A bucket after nodes were taken from it: none when it is empty.
  abbrev pub keep_bucket : ℕ → List (Node K V) → FreqMap K V → FreqMap K V
  keep_bucket f [] m = erase_bucket f m
  keep_bucket f (n ∷ ns) m = assign f (n ∷ ns) m

  -- The nodes of the hash map.
  abbrev pub nodes : FreqMap K V → List (Node K V)
  nodes [] = []
  nodes ((f, ns) ∷ m) = ns ++ nodes m

  -- The smallest frequency after a node left the bucket of its old one for the next.
  abbrev pub raised_min : List (Node K V) → ℕ → ℕ → ℕ
  raised_min [] old min_freq = if old == min_freq then old + 1 else min_freq
  raised_min (n ∷ ns) old min_freq = min_freq

  -- `begin()->first`, or what stands for it in an empty map.
  abbrev pub first_freq : ℕ → FreqMap K V → ℕ
  first_freq d [] = d
  first_freq d ((f, ns) ∷ m) = f

module _ {ℓ} {K : Type ℓ} where
  unfoldable pub add_to_ghost : ℕ → K → List K → List K
  add_to_ghost ghost_capacity key ghosts =
      if ghost_capacity == 0 then ghosts else ghosts ++ (key ∷ [])

module _ {ℓ} {K V : Type ℓ} (dec : Discrete K) where
  unfoldable pub erase_ghost : K → ArcLfu K V → Bool × ArcLfu K V
  erase_ghost key s =
      if is_ghost dec key s.ghost_list
      then (true, record s { ghost_list = unlink_ghost dec key s.ghost_list })
      else (false, s)

  unfoldable pub update_node_frequency : Node K V → ArcLfu K V → ArcLfu K V
  update_node_frequency n s =
      let old_freq = n.access_count in
      let new_freq = old_freq + 1 in
      let old_list = unlink dec n.key (bucket old_freq s.freq_map) in
      let left = keep_bucket old_freq old_list s.freq_map in
      record s {
        freq_map =
            assign new_freq (bucket new_freq left ++ (record n { access_count = new_freq } ∷ []))
              left;
        min_freq = raised_min old_list old_freq s.min_freq;
      }

  -- `remove_oldest_ghost` where the list is full.
  abbrev pub trim_ghosts : ArcLfu K V → List K
  trim_ghosts s =
      if leb s.ghost_capacity (length s.ghost_list) then drop 1 s.ghost_list else s.ghost_list

  -- `_freq_map[_min_freq]` makes an empty bucket where there is none.
  unfoldable pub evict_least_frequent : ArcLfu K V → ArcLfu K V
  evict_least_frequent s = elim s.freq_map [
    | [] ↦ s
    | _ ∷ _ ↦ elim (bucket s.min_freq s.freq_map) [
      | [] ↦ record s { freq_map = assign s.min_freq [] s.freq_map }
      | n ∷ ns ↦
          let left = keep_bucket s.min_freq ns s.freq_map in
          record s {
            freq_map = left;
            min_freq = if is_empty ns then first_freq s.min_freq left else s.min_freq;
            ghost_list = add_to_ghost s.ghost_capacity n.key (trim_ghosts s);
          }
    ]
  ]

  unfoldable pub add_new_node : K → V → ArcLfu K V → ArcLfu K V
  add_new_node key value s =
      let room = if leb s.capacity (length (nodes s.freq_map)) then evict_least_frequent s else s in
      record room {
        freq_map = assign 1 (bucket 1 room.freq_map ++ (new_node key value ∷ [])) room.freq_map;
        min_freq = 1;
      }

  unfoldable pub put : K → V → ArcLfu K V → Bool × ArcLfu K V
  put key value s = if s.capacity == 0 then (false, s) else elim (find dec key (nodes s.freq_map)) [
    | none ↦ (true, add_new_node key value (erase_ghost key s).1)
    | some n ↦ (true, update_node_frequency (record n { value = value }) s)
  ]

  unfoldable pub get : K → ArcLfu K V → Option V × ArcLfu K V
  get key s = elim (find dec key (nodes s.freq_map)) [
    | none ↦ (none, s)
    | some n ↦ (some n.value, update_node_frequency n s)
  ]

  abbrev pub is_found : Option (Node K V) → Bool
  is_found none = false
  is_found (some n) = true

  abbrev pub contain : K → ArcLfu K V → Bool
  contain key s = is_found (find dec key (nodes s.freq_map))

  -- The node leaves its bucket and the hash map.
  unfoldable pub erase_main : K → ArcLfu K V → Bool × ArcLfu K V
  erase_main key s = elim (find dec key (nodes s.freq_map)) [
    | none ↦ (false, s)
    | some n ↦
        let left =
          keep_bucket n.access_count (unlink dec key (bucket n.access_count s.freq_map))
            s.freq_map in
        (true, record s { freq_map = left; min_freq = first_freq 0 left })
  ]

  unfoldable pub invalidate : K → ArcLfu K V → Bool × ArcLfu K V
  invalidate key s =
      let main = erase_main key s in
      let ghost = erase_ghost key main.1 in (main.0 || ghost.0, ghost.1)

  abbrev pub check_ghost : K → ArcLfu K V → Bool × ArcLfu K V
  check_ghost = erase_ghost

  abbrev pub increase_capacity : ArcLfu K V → ArcLfu K V
  increase_capacity s = record s { capacity = s.capacity + 1 }

  -- The loop of `decrease_capacity`.
  unfoldable pub shrink : ℕ → ArcLfu K V → ArcLfu K V
  shrink zero s = s
  shrink (suc fuel) s =
      let rest = shrink fuel (evict_least_frequent s) in
      if ltb s.capacity (length (nodes s.freq_map)) then rest else s

  unfoldable pub decrease_capacity : ArcLfu K V → Bool × ArcLfu K V
  decrease_capacity s =
      if s.capacity == 0
      then (false, s)
      else (true, shrink (length (nodes s.freq_map)) (record s { capacity = s.capacity - 1 }))
