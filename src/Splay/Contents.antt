-- ===== src/Splay/Contents.antt =====
-- What the operations of the tree do to its nodes, read in order.
use ulmt_open_mp_gcc.Base.{
  ◌≡◌, ap, sym, subst, ◌∙◌, arith, Option, none, some, refl, append_assoc, List, [], ◌∷◌, ◌++◌,
  All-append,
}
use ulmt_open_mp_gcc.Base.Int.{ℤ}
use ulmt_open_mp_gcc.Splay.{
  Tree, leaf, node, inorder, splay, root_match, lookup, insert_at_root, insert, remove_root, remove,
}
use ulmt_open_mp_gcc.Splay.Inorder.{IsSorted, splay-inorder}
use ulmt_open_mp_gcc.Splay.Neighbour.{IsSplayed, splay-IsSplayed}
use ulmt_open_mp_gcc.Splay.Ordered.{
  lt-compare, gt-compare, eq-compare, find, find-Above, find-Below, erase, erase-Above, erase-Below,
  insert_sorted, insert_sorted-split, Below, Above, IsSorted-middle,
}
use ulmt_open_mp_gcc.Splay.Side.{here, after, before, side, splayed, join-inorder}

module _ {N : Type 0} (priority : N → ℤ) where
  module _ (key : ℤ) where
    root_match-find :
        (t : Tree N)
        → IsSorted priority (inorder t)
        → IsSplayed priority key t
        → root_match priority key t ≡ find priority key (inorder t)
    unfolding root_match
    root_match-find leaf s h = refl
    root_match-find (node l n r) s h = elim (side priority key l n r s h) [
      | here e b a ↦ ground (
        arith,
        eq-compare (priority n) key e,
        find-Below priority key (inorder l) (n ∷ inorder r) b,
      )
      | after e b a ↦ ground (
        arith,
        lt-compare (priority n) key e,
        find-Above priority key (inorder r) a,
        find-Below priority key (inorder l) (n ∷ inorder r) b,
      )
      | before e b a ↦ ground (
        arith,
        gt-compare (priority n) key e,
        find-Above priority key (inorder r) a,
        find-Below priority key (inorder l) (n ∷ inorder r) b,
      )
    ]

    remove_root-inorder :
        (t : Tree N)
        → IsSorted priority (inorder t)
        → IsSplayed priority key t
        → inorder (remove_root priority key t) ≡ erase priority key (inorder t)
    unfolding remove_root
    remove_root-inorder leaf s h = refl
    remove_root-inorder (node l n r) s h = elim (side priority key l n r s h) [
      | here e b a ↦ ground (
        arith,
        eq-compare (priority n) key e,
        join-inorder l r,
        erase-Below priority key (inorder l) (n ∷ inorder r) b,
      )
      | after e b a ↦ ground (
        arith,
        lt-compare (priority n) key e,
        erase-Above priority key (inorder r) a,
        erase-Below priority key (inorder l) (n ∷ inorder r) b,
      )
      | before e b a ↦ ground (
        arith,
        gt-compare (priority n) key e,
        erase-Above priority key (inorder r) a,
        erase-Below priority key (inorder l) (n ∷ inorder r) b,
      )
    ]

    -- `splay_tree_lookup` in a sorted tree finds the node with the key exactly when there is one, and
    -- leaves the nodes in order.
    pub lookup-find :
        (t : Tree N)
        → IsSorted priority (inorder t)
        → let (found, t') = lookup priority key t in
          (found ≡ find priority key (inorder t)) × (inorder t' ≡ inorder t)
    unfolding lookup
    lookup-find t s = (
      root_match-find (splay priority key t) (splayed priority key t s)
            (splay-IsSplayed priority key t s)
          ∙ ap (find priority key) (splay-inorder priority key t),
      splay-inorder priority key t,
    )

    -- `splay_tree_remove` takes the node with the key out of a sorted tree, if there is one, and
    -- leaves the others in order.
    pub remove-erase :
        (t : Tree N)
        → IsSorted priority (inorder t)
        → inorder (remove priority key t) ≡ erase priority key (inorder t)
    unfolding remove
    remove-erase t s =
        remove_root-inorder (splay priority key t) (splayed priority key t s)
          (splay-IsSplayed priority key t s)
        ∙ ap (erase priority key) (splay-inorder priority key t)

  -- What `splay_tree_insert` gives: the new tree, sorted, unless the key was there.
  abbrev pub Inserted : N → List N → Option (Tree N) → Type 0
  Inserted new xs none = (x : N) × (find priority (priority new) xs ≡ some x)
  Inserted new xs (some t) =
      (find priority (priority new) xs ≡ none)
      × (inorder t ≡ insert_sorted priority new xs)
      × IsSorted priority (inorder t)

  -- The new node between those below it and those above it.
  between :
      (new : N) (t : Tree N) (xs ys ws : List N)
      → IsSorted priority ws
      → ws ≡ xs ++ ys
      → Below priority (priority new) xs
      → Above priority (priority new) ys
      → inorder t ≡ xs ++ new ∷ ys
      → Inserted new ws (some t)
  between new t xs ys ws s e b a p = (
    ap (find priority (priority new)) e
        ∙ find-Below priority (priority new) xs ys b
        ∙ find-Above priority (priority new) ys a,
    p ∙ sym (ap (insert_sorted priority new) e ∙ insert_sorted-split priority new xs ys b a),
    subst (IsSorted priority) (sym p)
        (IsSorted-middle priority new xs ys (subst (IsSorted priority) e s) b a),
  )

  root-Inserted :
      (new : N) (t : Tree N)
      → IsSorted priority (inorder t)
      → IsSplayed priority (priority new) t
      → Inserted new (inorder t) (insert_at_root priority new t)
  unfolding insert_at_root
  root-Inserted new leaf s h = (refl, refl, (tt, tt))
  root-Inserted new (node l n r) s h = elim (side priority (priority new) l n r s h) [
    | here e b a ↦ via none (ground (arith, eq-compare (priority n) (priority new) e)) (
      n,
      ground (
        arith,
        eq-compare (priority n) (priority new) e,
        find-Below priority (priority new) (inorder l) (n ∷ inorder r) b,
      ),
    )
    | after e b a ↦
        via (some (node (node l n leaf) new r))
          (ground (arith, lt-compare (priority n) (priority new) e))
          (between new (node (node l n leaf) new r) (inorder l ++ n ∷ []) (inorder r)
            (inorder l ++ n ∷ inorder r) s (sym (append_assoc (inorder l) (n ∷ []) (inorder r)))
            (All-append _ (inorder l) (n ∷ []) b (e, tt)) a refl)
    | before e b a ↦
        via (some (node l new (node leaf n r)))
          (ground (arith, gt-compare (priority n) (priority new) e))
          (between new (node l new (node leaf n r)) (inorder l) (n ∷ inorder r)
            (inorder l ++ n ∷ inorder r) s refl b (e, a) refl)
  ]
    where
      via :
          (o : Option (Tree N))
          → o ≡ insert_at_root priority new (node l n r)
          → Inserted new (inorder l ++ n ∷ inorder r) o
          → Inserted new (inorder l ++ n ∷ inorder r) (insert_at_root priority new (node l n r))
      via o e k = subst (Inserted new (inorder l ++ n ∷ inorder r)) e k

  -- `splay_tree_insert` into a sorted tree is fatal exactly when a node has the key; otherwise it
  -- puts the new node at its place, and the tree stays sorted.
  pub insert-Inserted :
      (new : N) (t : Tree N)
      → IsSorted priority (inorder t)
      → Inserted new (inorder t) (insert priority new t)
  unfolding insert
  insert-Inserted new t s =
      subst (λ xs. Inserted new xs (insert_at_root priority new (splay priority (priority new) t)))
        (splay-inorder priority (priority new) t)
        (root-Inserted new (splay priority (priority new) t) (splayed priority (priority new) t s)
          (splay-IsSplayed priority (priority new) t s))
