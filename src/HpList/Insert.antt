-- ===== src/HpList/Insert.antt =====
-- `splay_tree_hp_list_insert` keeps the HP-LIST.
use ulmt_open_mp_gcc.Base.{
  ℕ, ◌≡◌, ◌≢◌, refl, ap, sym, subst, ◌∙◌, Bool, true, false, Option, none, some, arith,
  if◌then◌else◌, List, [], ◌∷◌, ◌++◌, append_assoc, NotIn, NotIn-append, Distinct, All-append,
  ==_refl,
}
use ulmt_open_mp_gcc.Base.Int.{◌<ℤ◌}
use ulmt_open_mp_gcc.Splay.{Tree, leaf, node, inorder, splay, insert_at_root}
use ulmt_open_mp_gcc.Splay.Inorder.{IsSorted, splay-inorder}
use ulmt_open_mp_gcc.Splay.Neighbour.{IsSplayed, splay-IsSplayed}
use ulmt_open_mp_gcc.Splay.Ordered.{
  lt-compare, gt-compare, eq-compare, find, find-Below, insert_sorted, insert_sorted-split, Below,
  Above, IsSorted-middle,
}
use ulmt_open_mp_gcc.Splay.Side.{side, here, after, before, splayed}
use ulmt_open_mp_gcc.HpList.{
  Nodes, HpTree, State, set_mark, mark, link_above, link_below, link_new, insert,
}
use ulmt_open_mp_gcc.HpList.Chain.{Chain}
use ulmt_open_mp_gcc.HpList.Chain.{SameFields, set_prev?-same, set_next?-same}
use ulmt_open_mp_gcc.HpList.Between.{link_above-Chain, link_below-Chain}
use ulmt_open_mp_gcc.HpList.Tracks.{Tracks}
use ulmt_open_mp_gcc.HpList.Valid.{
  HpValid, mark-HpValid, plain-HpValid, Below-NotIn, Above-NotIn, IsSorted-Distinct,
}

link_above-same : (h : Nodes) (at new : ℕ) → SameFields h (link_above h at new)
unfolding link_above
link_above-same h at new = set_prev?-same _ _ (some new)

link_below-same : (h : Nodes) (at new : ℕ) → SameFields h (link_below h at new)
unfolding link_below
link_below-same h at new = set_next?-same _ _ (some new)

-- The nodes and the tree, and then the mark.
abbrev finish : Nodes → HpTree → ℕ → Bool → Bool × State
finish h t new b = if b then mark h t new else (false, (set_mark h new false, t))

-- What the insertion gives.
abbrev pub HpInserted : Nodes → List ℕ → ℕ → Bool → Option (Bool × State) → Type 0
HpInserted h ws new b none = (x : ℕ) × (find h.key (h.key new) ws ≡ some x)
HpInserted h ws new b (some (ret, (h', t'))) =
    HpValid h' t'
    × (inorder t'.root ≡ insert_sorted h.key new ws)
    × (h'.marked new ≡ b)
    × (h'.key ≡ h.key)

-- A new node between the nodes below it and those above it.
finish-HpInserted :
    (h h' : Nodes) (t : HpTree) (new : ℕ) (xs ys ws : List ℕ) (b : Bool)
    → SameFields h h'
    → ws ≡ xs ++ ys
    → inorder t.root ≡ xs ++ new ∷ ys
    → IsSorted h.key ws
    → Below h.key (h.key new) xs
    → Above h.key (h.key new) ys
    → Chain h' none (xs ++ new ∷ ys)
    → Tracks h.marked t.num_marked t.highest_marked ws
    → HpInserted h ws new b (some (finish h' t new b))
unfolding mark
finish-HpInserted h h' t new xs ys ws b (ek, em) ew at s lo hi c k =
    elim b as (λ b. HpInserted h ws new b (some (finish h' t new b))) [
      | true ↦ marked
      | false ↦ (plain-HpValid h' t new xs ys at s' c k', placed, ground (arith, ==_refl new), ek)
    ]
  where
    s' : IsSorted h'.key (xs ++ new ∷ ys)
    s' =
        subst (λ key. IsSorted key (xs ++ new ∷ ys)) (sym ek)
          (IsSorted-middle h.key new xs ys (subst (IsSorted h.key) ew s) lo hi)

    k' : Tracks h'.marked t.num_marked t.highest_marked (xs ++ ys)
    k' =
        subst (λ m. Tracks m t.num_marked t.highest_marked (xs ++ ys)) (sym em)
          (subst (Tracks h.marked t.num_marked t.highest_marked) ew k)

    placed : inorder t.root ≡ insert_sorted h.key new ws
    placed = at ∙ sym (ap (insert_sorted h.key new) ew ∙ insert_sorted-split h.key new xs ys lo hi)

    marked : HpInserted h ws new true (some (mark h' t new))
    marked = (mark-HpValid h' t new xs ys at s' c k', placed, ground (arith, ==_refl new), ek)

-- The body of the function, on the splayed tree.
abbrev body : Nodes → HpTree → ℕ → Bool → Tree ℕ → Option (Bool × State)
body h t new b s = elim (insert_at_root h.key new s) [
  | none ↦ none
  | some root ↦ some (finish (link_new h s new) (record t { root = root }) new b)
]

body-HpInserted :
    (h : Nodes) (t : HpTree) (new : ℕ) (b : Bool) (s : Tree ℕ)
    → IsSorted h.key (inorder s)
    → IsSplayed h.key (h.key new) s
    → Chain h none (inorder s)
    → Tracks h.marked t.num_marked t.highest_marked (inorder s)
    → HpInserted h (inorder s) new b (body h t new b s)
unfolding insert_at_root link_new
body-HpInserted h t new b leaf o p c k =
    finish-HpInserted h _ _ new [] [] [] b (refl, refl) refl refl tt tt tt
      (ground (arith, ==_refl new), ground (arith, ==_refl new), tt) k
body-HpInserted h t new b (node l n r) o p c k = elim (side h.key (h.key new) l n r o p) [
  | here e lo hi ↦ via none (ground (arith, eq-compare (h.key n) (h.key new) e)) (
    n,
    ground (
      arith,
      eq-compare (h.key n) (h.key new) e,
      find-Below h.key (h.key new) (inorder l) (n ∷ inorder r) lo,
    ),
  )
  | after e lo hi ↦
      via
        (some (finish (link_above h n new) (record t { root = node (node l n leaf) new r }) new b))
        (ground (arith, lt-compare (h.key n) (h.key new) e))
        (finish-HpInserted h (link_above h n new) (record t { root = node (node l n leaf) new r })
          new (inorder l ++ n ∷ []) (inorder r) (inorder l ++ n ∷ inorder r) b
          (link_above-same h n new) (sym (append_assoc (inorder l) (n ∷ []) (inorder r))) refl o
          (All-append _ (inorder l) (n ∷ []) lo (e, tt)) hi
          (subst (Chain (link_above h n new) none)
            (sym (append_assoc (inorder l) (n ∷ []) (new ∷ inorder r)))
            (link_above-Chain h (inorder l) n new (inorder r) distinct
              (Fresh lo (λ q. omega (arith, subst (λ z. h.key n <ℤ h.key z) q e)) hi) c))
          k)
  | before e lo hi ↦
      via
        (some (finish (link_below h n new) (record t { root = node l new (node leaf n r) }) new b))
        (ground (arith, gt-compare (h.key n) (h.key new) e))
        (finish-HpInserted h (link_below h n new) (record t { root = node l new (node leaf n r) })
          new (inorder l) (n ∷ inorder r) (inorder l ++ n ∷ inorder r) b (link_below-same h n new)
          refl refl o lo (e, hi)
          (link_below-Chain h (inorder l) n new (inorder r) distinct
            (Fresh lo (λ q. omega (arith, subst (λ z. h.key z <ℤ h.key n) q e)) hi) c)
          k)
]
  where
    distinct : Distinct (inorder l ++ n ∷ inorder r)
    distinct = IsSorted-Distinct h.key (inorder l ++ n ∷ inorder r) o

    Fresh :
        Below h.key (h.key new) (inorder l)
        → new ≢ n
        → Above h.key (h.key new) (inorder r)
        → NotIn new (inorder l ++ n ∷ inorder r)
    Fresh lo q hi =
        NotIn-append new (inorder l) (n ∷ inorder r) (Below-NotIn h.key new (inorder l) lo)
          (q, Above-NotIn h.key new (inorder r) hi)

    via :
        (o : Option (Bool × State))
        → o ≡ body h t new b (node l n r)
        → HpInserted h (inorder l ++ n ∷ inorder r) new b o
        → HpInserted h (inorder l ++ n ∷ inorder r) new b (body h t new b (node l n r))
    via o e q = subst (HpInserted h (inorder l ++ n ∷ inorder r) new b) e q

-- `splay_tree_hp_list_insert` is fatal exactly when a node has the key; otherwise the new node, with
-- its mark, stands at its place in the tree and in the list, and the invariant still holds.
pub insert-HpInserted :
    (h : Nodes) (t : HpTree) (new : ℕ) (b : Bool)
    → HpValid h t
    → HpInserted h (inorder t.root) new b (insert h t new b)
unfolding insert
insert-HpInserted h t new b v =
    let e : inorder (splay h.key (h.key new) t.root) ≡ inorder t.root =
      splay-inorder h.key (h.key new) t.root in
    subst (λ ws. HpInserted h ws new b (body h t new b (splay h.key (h.key new) t.root))) e
      (body-HpInserted h t new b (splay h.key (h.key new) t.root)
        (splayed h.key (h.key new) t.root v.sorted)
        (splay-IsSplayed h.key (h.key new) t.root v.sorted) (subst (Chain h none) (sym e) v.chain)
        (subst (Tracks h.marked t.num_marked t.highest_marked) (sym e) v.tracked))

-- What the result says of the highest marked node.
abbrev pub Answer : HpTree → ℕ → Bool → Bool × State → Type 0
Answer t new b r =
    (r.0 ≡ true → r.1.1.highest_marked ≡ some new)
    × (r.0 ≡ false → r.1.1.highest_marked ≡ t.highest_marked)
    × (b ≡ false → r.0 ≡ false)

abbrev pub OnSome : {A : Type 0} → (A → Type 0) → Option A → Type 0
OnSome P none = Unit
OnSome P (some a) = P a

finish-Answer : (h : Nodes) (t : HpTree) (new : ℕ) (b : Bool) → Answer t new b (finish h t new b)
unfolding mark
finish-Answer h t new true = (λ e. ground (arith, e), λ e. ground (arith, e), λ e. cc)
finish-Answer h t new false = (λ e. cc, λ e. refl, λ e. refl)

pub insert-Answer :
    (h : Nodes) (t : HpTree) (new : ℕ) (b : Bool) → OnSome (Answer t new b) (insert h t new b)
unfolding insert
insert-Answer h t new b = at (insert_at_root h.key new (splay h.key (h.key new) t.root))
  where
    at :
        (o : Option (Tree ℕ))
        → OnSome (Answer t new b) (elim o [
          | none ↦ none
          | some root ↦ some (
              finish
                (link_new h (splay h.key (h.key new) t.root) new)
                (record t { root = root })
                new
                b)
        ])
    at none = tt
    at (some root) =
        finish-Answer (link_new h (splay h.key (h.key new) t.root) new) (record t { root = root })
          new b
