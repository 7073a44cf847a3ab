-- ===== src/HpList/Remove.antt =====
-- `splay_tree_hp_list_remove` keeps the HP-LIST.
use ulmt_open_mp_gcc.Base.{
  ℕ, ◌≡◌, refl, ap, sym, subst, ◌∙◌, Bool, true, false, Option, none, some, arith, points_to, List,
  [], ◌∷◌, ◌++◌, last?, Distinct, Distinct-out, inl, inr, Bool-cases, Option-cases,
}
use ulmt_open_mp_gcc.Base.Int.{ℤ}
use ulmt_open_mp_gcc.Splay.{Tree, leaf, node, inorder, size, splay, join}
use ulmt_open_mp_gcc.Splay.Inorder.{IsSorted, splay-inorder}
use ulmt_open_mp_gcc.Splay.Neighbour.{IsSplayed, splay-IsSplayed}
use ulmt_open_mp_gcc.Splay.Ordered.{
  lt-compare, gt-compare, eq-compare, erase, erase-Below, erase-Above, IsSorted-out,
}
use ulmt_open_mp_gcc.Splay.Side.{side, here, after, before, splayed, join-inorder}
use ulmt_open_mp_gcc.HpList.{Nodes, HpTree, State, unlink, remove_node, remove_splayed, remove}
use ulmt_open_mp_gcc.HpList.Chain.{Chain, Prevs, Chain-prev, Chain-Prevs, last_or-none}
use ulmt_open_mp_gcc.HpList.Chain.{set_prev?-same, set_next?-same, SameFields}
use ulmt_open_mp_gcc.HpList.Gone.{unlink-Chain, unlink-prev}
use ulmt_open_mp_gcc.HpList.Marks.{top_marked, top-marked}
use ulmt_open_mp_gcc.HpList.Tracks.{Tracks, unmarked-out, gone}
use ulmt_open_mp_gcc.HpList.Valid.{HpValid, IsSorted-Distinct, length-inorder}

Prevs-left : (h : Nodes) (p : Option ℕ) (xs ys : List ℕ) → Prevs h p (xs ++ ys) → Prevs h p xs
Prevs-left h p [] ys c = tt
Prevs-left h p (x ∷ xs) ys c = (c.0, Prevs-left h (some x) xs ys c.1)

unlink-same : (h : Nodes) (n : ℕ) → SameFields h (unlink h n)
unfolding unlink
unlink-same h n =
    let (k, m) = set_next?-same _ _ _ in
    let (k', m') = set_prev?-same h (h.next n) (h.prev n) in (k ∙ k', m ∙ m')

-- What the removal gives.
abbrev pub HpRemoved : Nodes → List ℕ → ℤ → Bool × State → Type 0
HpRemoved h ws key (ret, (h', t')) =
    HpValid h' t'
    × (inorder t'.root ≡ erase h.key key ws)
    × (h'.key ≡ h.key)
    × (h'.marked ≡ h.marked)

module _ (h : Nodes) (t : HpTree) (l : Tree ℕ) (n : ℕ) (r : Tree ℕ)
    (o : IsSorted h.key (inorder l ++ n ∷ inorder r))
    (c : Chain h none (inorder l ++ n ∷ inorder r))
    (k : Tracks h.marked t.num_marked t.highest_marked (inorder l ++ n ∷ inorder r)) where
  distinct : Distinct (inorder l ++ n ∷ inorder r)
  distinct = IsSorted-Distinct h.key (inorder l ++ n ∷ inorder r) o

  linked : Chain (unlink h n) none (inorder l ++ inorder r)
  linked = unlink-Chain h (inorder l) n (inorder r) distinct c

  from : (unlink h n).prev n ≡ last? (inorder l)
  from =
      unlink-prev h (inorder l) n (inorder r) distinct c
      ∙ (Chain-prev h none (inorder l) n (inorder r) c).0
      ∙ last_or-none (inorder l)

  abbrev rest : HpTree
  rest = (remove_node h (record t { root = node l n r }) l n r).1.1

  -- A node without a mark is not the highest marked one.
  not_highest : h.marked n ≡ false → points_to t.highest_marked n ≡ false
  not_highest e = elim (Option-cases t.highest_marked) [
    | inl p ↦ ground (arith, p)
    | inr (a, p) ↦
        let m : h.marked a ≡ true =
          top-marked h.marked (inorder l ++ n ∷ inorder r) a (sym k.highest ∙ p) in
        ground (arith, p)
  ]

  tracked_rest : Tracks h.marked rest.num_marked rest.highest_marked (inorder l ++ inorder r)
  unfolding remove_node
  tracked_rest = elim (Bool-cases (h.marked n)) [
    | inl e ↦ rw e (
        gone (unlink h n) h.marked n (size (node l n r)) (inorder l) (inorder r)
          (Distinct-out n (inorder l) (inorder r) distinct).1 (omega (arith, length-inorder l))
          (Prevs-left (unlink h n) none (inorder l) (inorder r)
            (Chain-Prevs (unlink h n) none _ linked))
          from (ap (λ m. top_marked m (inorder l)) (unlink-same h n).1) e k)
    | inr e ↦ rw (e, not_highest e) (unmarked-out h.marked n (inorder l) (inorder r) e k)
  ]

  node_gone :
      (key : ℤ)
      → erase h.key key (inorder l ++ n ∷ inorder r) ≡ inorder l ++ inorder r
      → HpRemoved h
          (inorder l ++ n ∷ inorder r)
          key
          (remove_node h (record t { root = node l n r }) l n r)
  unfolding remove_node
  node_gone key e =
      let j : inorder (join l r) ≡ inorder l ++ inorder r = join-inorder l r in
      (
        record {
          sorted =
              subst (λ f. IsSorted f (inorder (join l r))) (sym (unlink-same h n).0)
                (subst (IsSorted h.key) (sym j) (IsSorted-out h.key n (inorder l) (inorder r) o));
          chain = subst (Chain (unlink h n) none) (sym j) linked;
          tracked =
              subst (λ m. Tracks m rest.num_marked rest.highest_marked (inorder (join l r)))
                (sym (unlink-same h n).1)
                (subst (Tracks h.marked rest.num_marked rest.highest_marked) (sym j) tracked_rest);
        },
        j ∙ sym e,
        (unlink-same h n).0,
        (unlink-same h n).1,
      )

-- On the splayed tree.
splayed-HpRemoved :
    (h : Nodes) (t : HpTree) (key : ℤ) (s : Tree ℕ)
    → IsSorted h.key (inorder s)
    → IsSplayed h.key key s
    → Chain h none (inorder s)
    → Tracks h.marked t.num_marked t.highest_marked (inorder s)
    → HpRemoved h (inorder s) key (remove_splayed h t key s)
unfolding remove_splayed
splayed-HpRemoved h t key leaf o p c k =
    (record { sorted = tt; chain = tt; tracked = k }, refl, refl, refl)
splayed-HpRemoved h t key (node l n r) o p c k = elim (side h.key key l n r o p) [
  | here e lo hi ↦
      via (remove_node h (record t { root = node l n r }) l n r)
        (ground (arith, eq-compare (h.key n) key e))
        (node_gone h t l n r o c k key (
          ground (
            arith,
            eq-compare (h.key n) key e,
            erase-Below h.key key (inorder l) (n ∷ inorder r) lo,
          )))
  | after e lo hi ↦
      via (false, (h, record t { root = node l n r })) (ground (arith, lt-compare (h.key n) key e))
        (kept (
          ground (
            arith,
            lt-compare (h.key n) key e,
            erase-Above h.key key (inorder r) hi,
            erase-Below h.key key (inorder l) (n ∷ inorder r) lo,
          )))
  | before e lo hi ↦
      via (false, (h, record t { root = node l n r })) (ground (arith, gt-compare (h.key n) key e))
        (kept (
          ground (
            arith,
            gt-compare (h.key n) key e,
            erase-Above h.key key (inorder r) hi,
            erase-Below h.key key (inorder l) (n ∷ inorder r) lo,
          )))
]
  where
    kept :
        erase h.key key (inorder l ++ n ∷ inorder r) ≡ inorder l ++ n ∷ inorder r
        → HpRemoved h (inorder l ++ n ∷ inorder r) key (false, (h, record t { root = node l n r }))
    kept e = (record { sorted = o; chain = c; tracked = k }, sym e, refl, refl)

    via :
        (s : Bool × State)
        → s ≡ remove_splayed h t key (node l n r)
        → HpRemoved h (inorder l ++ n ∷ inorder r) key s
        → HpRemoved h (inorder l ++ n ∷ inorder r) key (remove_splayed h t key (node l n r))
    via s e q = subst (HpRemoved h (inorder l ++ n ∷ inorder r) key) e q

-- `splay_tree_hp_list_remove` takes the node with the key, if there is one, out of the tree and the
-- list, leaves the others in order with their marks, and the invariant still holds: the count and the
-- highest marked node are those of the nodes that are left.
pub remove-HpRemoved :
    (h : Nodes) (t : HpTree) (key : ℤ)
    → HpValid h t
    → HpRemoved h (inorder t.root) key (remove h t key)
unfolding remove
remove-HpRemoved h t key v =
    let e : inorder (splay h.key key t.root) ≡ inorder t.root = splay-inorder h.key key t.root in
    subst (λ ws. HpRemoved h ws key (remove_splayed h t key (splay h.key key t.root))) e
      (splayed-HpRemoved h t key (splay h.key key t.root) (splayed h.key key t.root v.sorted)
        (splay-IsSplayed h.key key t.root v.sorted) (subst (Chain h none) (sym e) v.chain)
        (subst (Tracks h.marked t.num_marked t.highest_marked) (sym e) v.tracked))

splayed-unchanged :
    (h : Nodes) (t : HpTree) (key : ℤ) (s : Tree ℕ)
    → (remove_splayed h t key s).0 ≡ false
    → (remove_splayed h t key s).1.1.highest_marked ≡ t.highest_marked
unfolding remove_splayed remove_node
splayed-unchanged h t key leaf e = refl
splayed-unchanged h t key (node l n r) e = ground arith

-- When `splay_tree_hp_list_remove` returns 0, the highest marked node is the one it was.
pub remove-unchanged :
    (h : Nodes) (t : HpTree) (key : ℤ)
    → (remove h t key).0 ≡ false
    → (remove h t key).1.1.highest_marked ≡ t.highest_marked
unfolding remove
remove-unchanged h t key = splayed-unchanged h t key (splay h.key key t.root)
