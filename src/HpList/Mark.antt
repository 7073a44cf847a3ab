-- ===== src/HpList/Mark.antt =====
-- `splay_tree_hp_list_mark_node` keeps the HP-LIST.
use ulmt_open_mp_gcc.Base.{
  ℕ, ◌-◌, ◌≡◌, sym, subst, Bool, true, false, Option, none, some, arith, if◌then◌else◌, points_to,
  ==_refl, List, [], ◌∷◌, ◌++◌, NotIn, NotIn-left, Distinct-out, inl, inr, Bool-cases,
}
use ulmt_open_mp_gcc.Splay.{inorder, size}
use ulmt_open_mp_gcc.Splay.Inorder.{IsSorted}
use ulmt_open_mp_gcc.HpList.{Nodes, HpTree, State, set_mark, mark, unmark, mark_node, next_highest}
use ulmt_open_mp_gcc.HpList.Chain.{Chain, Prevs}
use ulmt_open_mp_gcc.HpList.Marks.{top-update}
use ulmt_open_mp_gcc.HpList.Tracks.{unmarked-out, gone}
use ulmt_open_mp_gcc.HpList.Valid.{
  HpValid, tracked_here, Prevs-here, enough_here, order, mark-HpValid, plain-HpValid,
}

mark_node_lem :
    (h : Nodes) (t : HpTree) (n : ℕ) (b : Bool)
    → let (h', t') = (mark_node h t n b).1 in
      (h'.marked n ≡ b) × (t'.root ≡ t.root) × (h'.key ≡ h.key)
unfolding mark_node mark unmark
mark_node_lem h t n true = (ground (arith, ==_refl n), ground arith, ground arith)
mark_node_lem h t n false = (ground (arith, ==_refl n), ground arith, ground arith)

-- When `splay_tree_hp_list_mark_node` returns 0, the highest marked node is the one it was.
pub mark_node-unchanged :
    (h : Nodes) (t : HpTree) (n : ℕ) (b : Bool)
    → (mark_node h t n b).0 ≡ false
    → (mark_node h t n b).1.1.highest_marked ≡ t.highest_marked
unfolding mark_node mark unmark
mark_node-unchanged h t n true e = ground arith
mark_node-unchanged h t n false e = ground arith

module _ (h : Nodes) (t : HpTree) (n : ℕ) (xs ys : List ℕ) (v : HpValid h t)
    (here : inorder t.root ≡ xs ++ n ∷ ys) where
  IsSorted-here : IsSorted h.key (xs ++ n ∷ ys)
  IsSorted-here = subst (IsSorted h.key) here v.sorted

  Chain-here : Chain h none (xs ++ n ∷ ys)
  Chain-here = subst (Chain h none) here v.chain

  apart : NotIn n (xs ++ ys)
  apart = (Distinct-out n xs ys (order h t n xs ys v here)).1

  newly_marked : h.marked n ≡ false → let (h', t') = (mark h t n).1 in HpValid h' t'
  newly_marked e =
      mark-HpValid h t n xs ys here IsSorted-here Chain-here
        (unmarked-out h.marked n xs ys e (tracked_here h t n xs ys v here))

  abbrev less : HpTree
  less = record t {
    num_marked = t.num_marked - 1;
    highest_marked =
        if points_to t.highest_marked n
        then next_highest (set_mark h n false) (record t { num_marked = t.num_marked - 1 }) n
        else t.highest_marked;
  }

  unmarked_less : (unmark h t n).1 ≡ (set_mark h n false, less)
  unfolding unmark
  unmarked_less = ground arith

  less-HpValid : h.marked n ≡ true → HpValid (set_mark h n false) less
  less-HpValid e =
      let (from, p) = Prevs-here h t n xs ys v here in
      plain-HpValid h less n xs ys here IsSorted-here Chain-here (
        gone (set_mark h n false) h.marked n (size t.root) xs ys apart
          (enough_here h t n xs ys v here) (same_prevs none xs p) from
          (top-update h.marked n false xs (NotIn-left n xs ys apart)) e
          (tracked_here h t n xs ys v here))
    where
      same_prevs : (p : Option ℕ) (zs : List ℕ) → Prevs h p zs → Prevs (set_mark h n false) p zs
      same_prevs p [] c = tt
      same_prevs p (z ∷ zs) c = (c.0, same_prevs (some z) zs c.1)

  newly_unmarked : h.marked n ≡ true → let (h', t') = (unmark h t n).1 in HpValid h' t'
  newly_unmarked e = subst {A = State} (λ s. HpValid s.0 s.1) (sym unmarked_less) (less-HpValid e)

  node_valid : (b : Bool) → let (h', t') = (mark_node h t n b).1 in HpValid h' t'
  unfolding mark_node
  node_valid true = elim (Bool-cases (h.marked n)) [
    | inl e ↦ rw e v
    | inr e ↦ rw e (newly_marked e)
  ]
  node_valid false = elim (Bool-cases (h.marked n)) [
    | inl e ↦ rw e (newly_unmarked e)
    | inr e ↦ rw e v
  ]

  -- `splay_tree_hp_list_mark_node` of a node of the list, with either mark: the node has the mark, the
  -- tree is as it was, and the invariant still holds, so the count and the highest marked node are
  -- those of the new marks.
  pub mark_node-HpValid :
      (b : Bool)
      → let (h', t') = (mark_node h t n b).1 in
        HpValid h' t' × (h'.marked n ≡ b) × (t'.root ≡ t.root) × (h'.key ≡ h.key)
  mark_node-HpValid b = let (m, r, k) = mark_node_lem h t n b in (node_valid b, m, r, k)
