-- ===== src/Splay/Terminates.antt =====
-- The loop of `splay_tree_splay` returns: a measure of the search path falls in each round.
use Prim.Native.Nat.{Ordering}
use ulmt_open_mp_gcc.Base.{ℕ, zero, suc, ◌+◌, ◌*◌, ◌<◌, ◌≤◌, ◌≡◌, true, false, arith}
use ulmt_open_mp_gcc.Base.Int.{ℤ}
use ulmt_open_mp_gcc.Splay.{
  Tree, leaf, node, size, against, step_left, step_right, splay_step, splay_loop,
}

module _ {N : Type 0} (priority : N → ℤ) (key : ℤ) where
  -- The nodes on the search path.
  abbrev path_length : Tree N → ℕ
  path_length leaf = 0
  path_length (node l n r) = elim (against priority key n) [
    | Ordering.eq ↦ 1
    | Ordering.lt ↦ suc (path_length l)
    | Ordering.gt ↦ suc (path_length r)
  ]

  abbrev goes_left : Tree N → ℕ
  goes_left leaf = 0
  goes_left (node l n r) = elim (against priority key n) [ Ordering.lt ↦ 1 | _ ↦ 0 ]

  abbrev goes_right : Tree N → ℕ
  goes_right leaf = 0
  goes_right (node l n r) = elim (against priority key n) [ Ordering.gt ↦ 1 | _ ↦ 0 ]

  -- Does the path turn the same way at its first two nodes?
  abbrev straight : Tree N → ℕ
  straight leaf = 0
  straight (node l n r) = elim (against priority key n) [
    | Ordering.eq ↦ 0
    | Ordering.lt ↦ goes_left l
    | Ordering.gt ↦ goes_right r
  ]

  -- A double rotation shortens the path by two, or by one, or keeps its length and breaks a
  -- straight start.
  abbrev measure : Tree N → ℕ
  measure t = 2 * path_length t + straight t

  path_length-le : (t : Tree N) → path_length t ≤ size t
  path_length-le leaf = omega arith
  path_length-le (node l n r) = ground (arith, path_length-le l, path_length-le r)

  straight-le : (t : Tree N) → straight t ≤ 1
  straight-le leaf = omega arith
  straight-le (node leaf n leaf) = ground arith
  straight-le (node (node a b c) n leaf) = ground arith
  straight-le (node leaf n (node a b c)) = ground arith
  straight-le (node (node a b c) n (node d e f)) = ground arith

  step_left-measure :
      (l : Tree N) (n : N) (r : Tree N)
      → against priority key n ≡ Ordering.lt
      → (step_left priority key l n r).0 ≡ false
      → measure (step_left priority key l n r).1 < measure (node l n r)
  unfolding step_left
  step_left-measure leaf n r e h = cc
  step_left-measure (node leaf c leaf) n r e h = ground arith
  step_left-measure (node (node a g b) c leaf) n r e h = ground arith
  step_left-measure (node leaf c (node a g b)) n r e h = ground arith
  step_left-measure (node (node a f b) c (node d g h)) n r e k = ground arith

  step_right-measure :
      (l : Tree N) (n : N) (r : Tree N)
      → against priority key n ≡ Ordering.gt
      → (step_right priority key l n r).0 ≡ false
      → measure (step_right priority key l n r).1 < measure (node l n r)
  unfolding step_right
  step_right-measure l n leaf e h = cc
  step_right-measure l n (node leaf c leaf) e h = ground arith
  step_right-measure l n (node (node a g b) c leaf) e h = ground arith
  step_right-measure l n (node leaf c (node a g b)) e h = ground arith
  step_right-measure l n (node (node a f b) c (node d g h)) e k = ground arith

  step-measure :
      (t : Tree N)
      → (splay_step priority key t).0 ≡ false
      → measure (splay_step priority key t).1 < measure t
  unfolding splay_step
  step-measure leaf h = cc
  step-measure (node l n r) h = ground (arith, step_left-measure l n r, step_right-measure l n r)

  loop-returns :
      (fuel : ℕ) (t : Tree N) → measure t < fuel → (splay_loop priority key fuel t).0 ≡ true
  unfolding splay_loop
  loop-returns zero t h = absurd (omega arith)
  loop-returns (suc fuel) t h =
      ground (arith, step-measure t, loop-returns fuel (splay_step priority key t).1)

  -- `splay_tree_splay` returns: its loop ends within the fuel that the model gives it.
  pub splay-returns : (t : Tree N) → (splay_loop priority key (2 * size t + 2) t).0 ≡ true
  splay-returns t = loop-returns (2 * size t + 2) t (omega (arith, path_length-le t, straight-le t))
