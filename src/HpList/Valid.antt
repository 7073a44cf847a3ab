-- ===== src/HpList/Valid.antt =====
-- The invariant of the HP-LIST, which every function of it keeps.
use ulmt_open_mp_gcc.Base.{
  ℕ, ◌+◌, ◌≤◌, ◌≡◌, refl, ap, sym, subst, ◌∙◌, true, false, Option, none, some, arith,
  if◌then◌else◌, update, List, [], ◌∷◌, ◌++◌, length, length-append, last?, All-map, NotIn,
  Distinct, Distinct-out,
}
use ulmt_open_mp_gcc.Base.Int.{ℤ, ◌<ℤ◌}
use ulmt_open_mp_gcc.Splay.{Tree, leaf, node, inorder, size}
use ulmt_open_mp_gcc.Splay.Inorder.{IsSorted, IsSorted-below, IsSorted-right}
use ulmt_open_mp_gcc.Splay.Ordered.{Below, Above}
use ulmt_open_mp_gcc.HpList.{Nodes, HpTree, set_mark, mark, is_higher}
use ulmt_open_mp_gcc.HpList.Chain.{Chain, Chain-Prevs, Prevs, Prevs-split, last_or-none}
use ulmt_open_mp_gcc.HpList.Tracks.{Tracks, come_unmarked, come_higher}

-- The tree is sorted, its nodes are linked in that order, and the count and the highest marked node
-- are those of their marks.
pub record HpValid (h : Nodes) (t : HpTree) : Type 0 where
  pub sorted : IsSorted h.key (inorder t.root)
  pub chain : Chain h none (inorder t.root)
  pub tracked : Tracks h.marked t.num_marked t.highest_marked (inorder t.root)

pub Below-NotIn : (key : ℕ → ℤ) (n : ℕ) (xs : List ℕ) → Below key (key n) xs → NotIn n xs
Below-NotIn key n =
    All-map
      (λ x p e. let p' : key x <ℤ key x = subst (λ z. key x <ℤ key z) e p in omega (arith, p'))

pub Above-NotIn : (key : ℕ → ℤ) (n : ℕ) (xs : List ℕ) → Above key (key n) xs → NotIn n xs
Above-NotIn key n =
    All-map
      (λ x p e. let p' : key x <ℤ key x = subst (λ z. key z <ℤ key x) e p in omega (arith, p'))

pub IsSorted-Distinct : (key : ℕ → ℤ) (xs : List ℕ) → IsSorted key xs → Distinct xs
IsSorted-Distinct key [] s = tt
IsSorted-Distinct key (x ∷ xs) s = (Above-NotIn key x xs s.0, IsSorted-Distinct key xs s.1)

pub length-inorder : (t : Tree ℕ) → length (inorder t) ≡ size t
length-inorder leaf = refl
length-inorder (node l n r) =
    omega (arith, length-append (inorder l) (n ∷ inorder r), length-inorder l, length-inorder r)

-- The links are as they were.
pub Chain-links :
    (h h' : Nodes) (p : Option ℕ) (xs : List ℕ)
    → h'.prev ≡ h.prev
    → h'.next ≡ h.next
    → Chain h p xs
    → Chain h' p xs
Chain-links h h' p [] e f c = tt
Chain-links h h' p (x ∷ xs) e f c =
    (ap (λ g. g x) e ∙ c.0, ap (λ g. g x) f ∙ c.1, Chain-links h h' (some x) xs e f c.2)

-- A node that is in the list, between `xs` and `ys`.
module _ (h : Nodes) (t : HpTree) (n : ℕ) (xs ys : List ℕ) (v : HpValid h t)
    (here : inorder t.root ≡ xs ++ n ∷ ys) where
  pub order : Distinct (xs ++ n ∷ ys)
  order = subst Distinct here (IsSorted-Distinct h.key (inorder t.root) v.sorted)

  pub tracked_here : Tracks h.marked t.num_marked t.highest_marked (xs ++ n ∷ ys)
  tracked_here = subst (Tracks h.marked t.num_marked t.highest_marked) here v.tracked

  pub Prevs-here : (h.prev n ≡ last? xs) × Prevs h none xs
  Prevs-here =
      let (a, b) =
        Prevs-split h none xs n ys
          (subst (Prevs h none) here (Chain-Prevs h none (inorder t.root) v.chain)) in
      (a ∙ last_or-none xs, b)

  pub enough_here : length xs ≤ size t.root
  enough_here = omega (arith, length-append xs (n ∷ ys), ap length here, length-inorder t.root)

-- A node that the marks do not count yet, between `xs` and `ys`.
module _ (h : Nodes) (t : HpTree) (n : ℕ) (xs ys : List ℕ) (here : inorder t.root ≡ xs ++ n ∷ ys)
    (s : IsSorted h.key (xs ++ n ∷ ys)) (c : Chain h none (xs ++ n ∷ ys))
    (k : Tracks h.marked t.num_marked t.highest_marked (xs ++ ys)) where
  apart : NotIn n (xs ++ ys)
  apart = (Distinct-out n xs ys (IsSorted-Distinct h.key (xs ++ n ∷ ys) s)).1

  pub mark-HpValid : let (h', t') = (mark h t n).1 in HpValid h' t'
  unfolding mark
  mark-HpValid = record {
    sorted = subst (IsSorted h.key) (sym here) s;
    chain =
        Chain-links h (set_mark h n true) none (inorder t.root) refl refl
          (subst (Chain h none) (sym here) c);
    tracked =
        subst
          (Tracks (update h.marked n true) (t.num_marked + 1)
            (if is_higher h n t.highest_marked then some n else t.highest_marked))
          (sym here)
          (come_higher h n xs ys (IsSorted-below h.key xs n ys s)
            (IsSorted-right h.key xs (n ∷ ys) s).0 apart k);
  }

  pub plain-HpValid : HpValid (set_mark h n false) t
  plain-HpValid = record {
    sorted = subst (IsSorted h.key) (sym here) s;
    chain =
        Chain-links h (set_mark h n false) none (inorder t.root) refl refl
          (subst (Chain h none) (sym here) c);
    tracked =
        subst (Tracks (update h.marked n false) t.num_marked t.highest_marked) (sym here)
          (come_unmarked h.marked n xs ys apart k);
  }
