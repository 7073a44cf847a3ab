-- ===== src/PriorityQueue/Reads.antt =====
-- What a queue's tree keeps when it is searched, marked, or gets memory for a node.
use ulmt_open_mp_gcc.Base.{
  ℕ, ◌≡◌, ◌≢◌, refl, sym, ap, subst, ◌∙◌, Bool, true, false, Option, none, some, update, arith,
  List, [], ◌∷◌, ◌++◌, inl, inr, All, All-map, NotIn, Bool-cases, Option-cases,
}
use ulmt_open_mp_gcc.Base.Int.{ℤ, pos, ◌<ℤ◌}
use ulmt_open_mp_gcc.Splay.{Tree, leaf, node, is_leaf, inorder, prio_splay_compare}
use ulmt_open_mp_gcc.Splay.Inorder.{IsSorted, compare-eq, Ordering-cases}
use ulmt_open_mp_gcc.Splay.Ordered.{find}
use ulmt_open_mp_gcc.Splay.Contents.{lookup-find}
use ulmt_open_mp_gcc.HpList.{Nodes, HpTree, mark_node}
use ulmt_open_mp_gcc.HpList.Chain.{Chain, Chain-frame}
use ulmt_open_mp_gcc.HpList.Marks.{count-update, top-update, top-All}
use ulmt_open_mp_gcc.HpList.Valid.{HpValid}
use ulmt_open_mp_gcc.HpList.Mark.{mark_node-HpValid, mark_node-unchanged}
use ulmt_open_mp_gcc.PriorityList.{PriorityList}
use ulmt_open_mp_gcc.PriorityQueue.{Queue, lookup_priority, new_node, mark_list, top_priority}

-- The HP-LIST is valid, and `highest_priority` is the priority of its highest marked node, or 0.
pub record HpOk (q : Queue) : Type 0 where
  pub valid : HpValid q.nodes q.t
  pub highest : q.highest_priority ≡ top_priority q

-- The nodes of the tree.
abbrev pub members : Queue → List ℕ
members q = inorder q.t.root

abbrev Split : (ℕ → ℤ) → ℤ → List ℕ → ℕ → Type 0
Split key p xs a = (us : List ℕ) × (cs : List ℕ) × (xs ≡ us ++ a ∷ cs) × (key a ≡ p)

Split-cons :
    (key : ℕ → ℤ) (p : ℤ) (x : ℕ) (xs : List ℕ) (a : ℕ) → Split key p xs a → Split key p (x ∷ xs) a
Split-cons key p x xs a (us, cs, i, j) = (x ∷ us, cs, ap (λ ys. x ∷ ys) i, j)

pub find-Split :
    (key : ℕ → ℤ) (p : ℤ) (xs : List ℕ) (a : ℕ) → find key p xs ≡ some a → Split key p xs a
find-Split key p [] a e = cc
find-Split key p (x ∷ xs) a e = elim (Ordering-cases (prio_splay_compare (key x) p)) [
  | inl k ↦ Split-cons key p x xs a (find-Split key p xs a (sym (ground (arith, k)) ∙ e))
  | inr (inl k) ↦
      let same : x ≡ a = ground (arith, k) in
      ([], xs, ap (λ y. y ∷ xs) same, subst (λ y. key y ≡ p) same (compare-eq (key x) p k))
  | inr (inr k) ↦ Split-cons key p x xs a (find-Split key p xs a (sym (ground (arith, k)) ∙ e))
]

IsSorted-frame :
    (key key' : ℕ → ℤ) (xs : List ℕ)
    → All (λ x. key' x ≡ key x) xs
    → IsSorted key xs
    → IsSorted key' xs
IsSorted-frame key key' [] e s = tt
IsSorted-frame key key' (x ∷ xs) e s = (above xs e.1 s.0, IsSorted-frame key key' xs e.1 s.1)
  where
    above :
        (ys : List ℕ)
        → All (λ y. key' y ≡ key y) ys
        → All (λ y. key x <ℤ key y) ys
        → All (λ y. key' x <ℤ key' y) ys
    above [] i s = tt
    above (y ∷ ys) i s = (rw (e.0, i.0) s.0, above ys i.1 s.1)

pub is_leaf-nil : (t : Tree ℕ) → is_leaf t ≡ true → inorder t ≡ []
is_leaf-nil leaf e = refl
is_leaf-nil (node l n r) e = cc

-- Another tree of the same nodes in the same order.
pub HpValid-same :
    {h : Nodes} {t t' : HpTree}
    → inorder t'.root ≡ inorder t.root
    → t'.num_marked ≡ t.num_marked
    → t'.highest_marked ≡ t.highest_marked
    → HpValid h t
    → HpValid h t'
HpValid-same {h} {t} {t'} e n a v = record {
  sorted = subst (IsSorted h.key) (sym e) v.sorted;
  chain = subst (Chain h none) (sym e) v.chain;
  tracked = rw (e, n, a) v.tracked;
}

-- `priority_queue_lookup_priority` changes the shape of the tree alone, and finds what is there.
pub record Looked (q : Queue) (p : ℤ) (r : Option ℕ × Queue) : Type 0 where
  pub found : r.0 ≡ find q.nodes.key p (members q)
  pub same_members : members r.1 ≡ members q
  pub same_nodes : r.1.nodes ≡ q.nodes
  pub same_lists : r.1.lists ≡ q.lists
  pub same_l : r.1.l ≡ q.l
  pub ok : HpOk r.1

pub lookup_priority-Looked : (q : Queue) (p : ℤ) → HpOk q → Looked q p (lookup_priority q p)
unfolding lookup_priority
lookup_priority-Looked q p v = elim (Bool-cases (is_leaf q.t.root)) [
  | inl e ↦
      let nil : members q ≡ [] = is_leaf-nil q.t.root e in
      rw e (record {
        found = sym (ap (find q.nodes.key p) nil);
        same_members = refl;
        same_nodes = refl;
        same_lists = refl;
        same_l = refl;
        ok = v;
      })
  | inr e ↦
      let (found, same) = lookup-find q.nodes.key p q.t.root v.valid.sorted in
      rw e (record {
        found = found;
        same_members = same;
        same_nodes = refl;
        same_lists = refl;
        same_l = refl;
        ok = record { valid = HpValid-same same refl refl v.valid; highest = v.highest };
      })
]

-- A node that is not in the tree gets its fields.
pub new_node-HpOk :
    (q : Queue) (k : ℕ) (p : ℤ) (lst : PriorityList)
    → NotIn k (members q)
    → HpOk q
    → HpOk (new_node q k p lst)
unfolding new_node
new_node-HpOk q k p lst f v = record {
  valid = record {
    sorted =
        IsSorted-frame q.nodes.key (update q.nodes.key k p) (members q)
          (All-map (λ x ne. ground (arith, ne)) (members q) f) v.valid.sorted;
    chain =
        Chain-frame q.nodes (new_node q k p lst).nodes none (members q)
          (All-map (λ x ne. (ground (arith, ne), ground (arith, ne))) (members q) f) v.valid.chain;
    tracked = record {
      counted = v.valid.tracked.counted ∙ sym (count-update q.nodes.marked k false (members q) f);
      highest = v.valid.tracked.highest ∙ sym (top-update q.nodes.marked k false (members q) f);
    };
  };
  highest = elim (Option-cases q.t.highest_marked) [
    | inl e ↦ ground (arith, e, v.highest)
    | inr (a, e) ↦
        let other : k ≢ a =
          (top-All (λ x. k ≢ x) q.nodes.marked (members q) a (sym v.valid.tracked.highest ∙ e)
            f).0 in
        ground (arith, e, v.highest, other)
  ];
}

pub mark_list-HpOk :
    (q : Queue) (a : ℕ) (b : Bool) (us cs : List ℕ)
    → members q ≡ us ++ a ∷ cs
    → HpOk q
    → HpOk (mark_list q a b)
unfolding mark_list
mark_list-HpOk q a b us cs e v =
    let (valid, is, root, key) = mark_node-HpValid q.nodes q.t a us cs v.valid e b in
    elim (Bool-cases (mark_node q.nodes q.t a b).0) [
      | inl k ↦ rw k (record { valid = valid; highest = refl })
      | inr k ↦
          let high = mark_node-unchanged q.nodes q.t a b k in
          rw k (record {
            valid = valid;
            highest =
                v.highest
                ∙ sym (
                    kept (mark_node q.nodes q.t a b).1.1.highest_marked
                      (mark_node q.nodes q.t a b).1.0.key high key);
          })
    ]
  where
    kept :
        (high : Option ℕ) (keys : ℕ → ℤ)
        → high ≡ q.t.highest_marked
        → keys ≡ q.nodes.key
        → (elim high as (λ x. ℤ) [ none ↦ pos 0 | some a ↦ keys a ]) ≡ top_priority q
    kept high keys i j = ground (arith, i, j)

pub mark_list-l : (q : Queue) (a : ℕ) (b : Bool) → (mark_list q a b).l ≡ q.l
unfolding mark_list
mark_list-l q a b = ground arith
