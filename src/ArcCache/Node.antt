-- ===== src/ArcCache/Node.antt =====
-- Nodes and the linked lists of them. A list is the nodes between its sentinels, from the head; the
-- hash map beside it is the lookup of a key in it, since map and list share their nodes.
use cpp_tlfss.Base.{ℕ, Bool, true, false, Option, none, some, List, [], ◌∷◌, if◌then◌else◌}

pub record Node {ℓ} (K V : Type ℓ) : Type ℓ where
  pub key : K
  pub value : V
  pub access_count : ℕ

abbrev pub new_node {ℓ} : {K V : Type ℓ} → K → V → Node K V
new_node key value = record { key = key; value = value; access_count = 1 }

-- The list without its last element.
abbrev pub drop_last {ℓ} : {A : Type ℓ} → List A → List A
drop_last [] = []
drop_last (x ∷ []) = []
drop_last (x ∷ y ∷ ys) = x ∷ drop_last (y ∷ ys)

abbrev pub last {ℓ} : {A : Type ℓ} → A → List A → A
last x [] = x
last x (y ∷ ys) = last y ys

module _ {ℓ} {K : Type ℓ} (dec : Discrete K) where
  abbrev pub same : K → K → Bool
  same a b = elim (dec a b) [ yes p ↦ true | no p ↦ false ]

  abbrev pub is_ghost : K → List K → Bool
  is_ghost key [] = false
  is_ghost key (k ∷ ks) = if same k key then true else is_ghost key ks

  unfoldable pub unlink_ghost : K → List K → List K
  unlink_ghost key [] = []
  unlink_ghost key (k ∷ ks) =
      let later = unlink_ghost key ks in if same k key then ks else k ∷ later

module _ {ℓ} {K V : Type ℓ} (dec : Discrete K) where
  unfoldable pub find : K → List (Node K V) → Option (Node K V)
  find key [] = none
  find key (n ∷ ns) = let later = find key ns in if same dec n.key key then some n else later

  -- `remove_node` of the node with that key.
  unfoldable pub unlink : K → List (Node K V) → List (Node K V)
  unlink key [] = []
  unlink key (n ∷ ns) = let later = unlink key ns in if same dec n.key key then ns else n ∷ later
