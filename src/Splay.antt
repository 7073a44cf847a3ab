-- ===== src/Splay.antt =====
-- splay-tree.c, in its instantiation for the priority queues (priority_queue.c). A tree of nodes is
-- data; a node is of any type, and `priority` reads the key that `prio_splay_compare` compares.
pub mod Inorder
pub mod Terminates
pub mod Neighbour
pub mod Ordered
pub mod Side
pub mod Contents
mod Tests
use Prim.Native.Nat.{Ordering}
use ulmt_open_mp_gcc.Base.{
  ℕ, zero, suc, ◌+◌, ◌*◌, Bool, true, false, ◌||◌, ◌&&◌, Option, none, some, if◌then◌else◌, List,
  [], ◌∷◌, ◌++◌,
}
use ulmt_open_mp_gcc.Base.Int.{ℤ, eqb_ℤ, ltb_ℤ}

-- `prio_splay_compare`
unfoldable pub prio_splay_compare : ℤ → ℤ → Ordering
prio_splay_compare x y =
    if eqb_ℤ x y then Ordering.eq else if ltb_ℤ x y then Ordering.lt else Ordering.gt

-- NULL is `leaf`; `node` has its left child, itself, and its right child.
pub data Tree (N : Type 0) : Type 0 where
  leaf : Tree N
  node : Tree N → N → Tree N → Tree N

module _ {N : Type 0} where
  abbrev pub is_leaf : Tree N → Bool
  is_leaf leaf = true
  is_leaf (node l n r) = false

  abbrev pub inorder : Tree N → List N
  inorder leaf = []
  inorder (node l n r) = inorder l ++ n ∷ inorder r

  abbrev pub size : Tree N → ℕ
  size leaf = 0
  size (node l n r) = suc (size l + size r)

  -- `rotate_left` at a parent: its left child goes up.
  abbrev pub rotate_left : Tree N → Tree N
  rotate_left (node (node a n b) p r) = node a n (node b p r)
  rotate_left (node leaf p r) = node leaf p r
  rotate_left leaf = leaf

  abbrev pub rotate_right : Tree N → Tree N
  rotate_right (node l p (node a n b)) = node (node l p a) n b
  rotate_right (node l p leaf) = node l p leaf
  rotate_right leaf = leaf

abbrev pub is_lt : Ordering → Bool
is_lt Ordering.lt = true
is_lt _ = false

-- Found, or no child on the side where the key would be.
abbrev pub ends_here : {N : Type 0} → Ordering → Tree N → Tree N → Bool
ends_here Ordering.eq l r = true
ends_here Ordering.lt l r = is_leaf l
ends_here Ordering.gt l r = is_leaf r

module _ {N : Type 0} (priority : N → ℤ) (key : ℤ) where
  abbrev pub against : N → Ordering
  against n = prio_splay_compare key (priority n)

  -- One round of the loop of `splay_tree_splay`, when the key is left of the root: whether the
  -- function returns, and the tree.
  pub step_left : Tree N → N → Tree N → Bool × Tree N
  step_left leaf n r = (true, node leaf n r)
  step_left (node cl c cr) n r =
      if ends_here (against c) cl cr
      then (true, rotate_left (node (node cl c cr) n r))
      else if is_lt (against c)
      then (false, rotate_left (node (rotate_left (node cl c cr)) n r))
      else (false, rotate_left (node (rotate_right (node cl c cr)) n r))

  pub step_right : Tree N → N → Tree N → Bool × Tree N
  step_right l n leaf = (true, node l n leaf)
  step_right l n (node cl c cr) =
      if ends_here (against c) cl cr
      then (true, rotate_right (node l n (node cl c cr)))
      else if is_lt (against c)
      then (false, rotate_right (node l n (rotate_left (node cl c cr))))
      else (false, rotate_right (node l n (rotate_right (node cl c cr))))

  pub splay_step : Tree N → Bool × Tree N
  unfolding step_left step_right
  splay_step leaf = (true, leaf)
  splay_step (node l n r) = elim (against n) [
    | Ordering.eq ↦ (true, node l n r)
    | Ordering.lt ↦ step_left l n r
    | Ordering.gt ↦ step_right l n r
  ]

  -- The loop with fuel: whether it has returned, and the tree.
  pub splay_loop : ℕ → Tree N → Bool × Tree N
  splay_loop zero t = (false, t)
  splay_loop (suc fuel) t =
      let (done, t') = splay_step t in
      let rest = splay_loop fuel t' in if done then (true, t') else rest

  -- `splay_tree_splay`; `Terminates.splay-returns` shows that the fuel is enough.
  pub splay : Tree N → Tree N
  unfolding splay_step splay_loop
  splay t = (splay_loop (2 * size t + 2) t).1

  -- Is the key at the root?
  pub root_match : Tree N → Option N
  root_match leaf = none
  root_match (node l n r) = elim (prio_splay_compare (priority n) key) [
    | Ordering.eq ↦ some n
    | _ ↦ none
  ]

  -- `splay_tree_lookup`: the node, and the tree that the search leaves.
  pub lookup : Tree N → Option N × Tree N
  unfolding root_match
  lookup t = (root_match (splay t), splay t)

module _ {N : Type 0} where
  -- `while (left->right) left = left->right; left->right = right;`
  abbrev pub hang : Tree N → Tree N → Tree N
  hang right leaf = leaf
  hang right (node l n leaf) = node l n right
  hang right (node l n (node a m b)) = node l n (hang right (node a m b))

  -- The children of a removed root, as one tree.
  abbrev pub join : Tree N → Tree N → Tree N
  join leaf right = right
  join (node l n r) leaf = node l n r
  join (node l n r) (node a m b) = hang (node a m b) (node l n r)

module _ {N : Type 0} (priority : N → ℤ) where
  -- A new node above a splayed tree; `none` is `gomp_fatal ("Duplicate node")`.
  unfoldable pub insert_at_root : N → Tree N → Option (Tree N)
  insert_at_root new leaf = some (node leaf new leaf)
  insert_at_root new (node l n r) = elim (prio_splay_compare (priority n) (priority new)) [
    | Ordering.eq ↦ none
    | Ordering.lt ↦ some (node (node l n leaf) new r)
    | Ordering.gt ↦ some (node l new (node leaf n r))
  ]

  -- `splay_tree_insert`
  pub insert : N → Tree N → Option (Tree N)
  unfolding insert_at_root
  insert new t = insert_at_root new (splay priority (priority new) t)

  pub remove_root : ℤ → Tree N → Tree N
  remove_root key leaf = leaf
  remove_root key (node l n r) = elim (prio_splay_compare (priority n) key) [
    | Ordering.eq ↦ join l r
    | _ ↦ node l n r
  ]

  -- `splay_tree_remove`
  pub remove : ℤ → Tree N → Tree N
  unfolding remove_root
  remove key t = remove_root key (splay priority key t)
