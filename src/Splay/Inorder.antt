-- ===== src/Splay/Inorder.antt =====
-- `splay_tree_splay` keeps the nodes in order, and brings the key, or a neighbour of it, to the root.
use Prim.Native.Nat.{Ordering}
use ulmt_open_mp_gcc.Base.{
  ℕ, zero, suc, ◌+◌, ◌*◌, ◌≡◌, refl, ap, sym, ◌∙◌, arith, Bool-cases, inl, inr, ◌⊎◌, List, [], ◌∷◌,
  ◌++◌, append_assoc, All, All-left, All-right,
}
use ulmt_open_mp_gcc.Base.Int.{ℤ, ◌<ℤ◌, eq_of_parts}
use ulmt_open_mp_gcc.Splay.{
  Tree, leaf, node, inorder, size, against, prio_splay_compare, rotate_left, rotate_right,
  step_left, step_right, splay_step, splay_loop, splay, ends_here, is_lt,
}

pub compare-lt : (x y : ℤ) → prio_splay_compare x y ≡ Ordering.lt → x <ℤ y
unfolding prio_splay_compare
compare-lt x y h = ground arith

pub compare-gt : (x y : ℤ) → prio_splay_compare x y ≡ Ordering.gt → y <ℤ x
unfolding prio_splay_compare
compare-gt x y h = ground arith

pub compare-eq : (x y : ℤ) → prio_splay_compare x y ≡ Ordering.eq → x ≡ y
unfolding prio_splay_compare
compare-eq x y h = ground (arith, eq_of_parts x y)

pub Ordering-cases : (o : Ordering) → (o ≡ Ordering.lt) ⊎ ((o ≡ Ordering.eq) ⊎ (o ≡ Ordering.gt))
Ordering-cases Ordering.lt = inl refl
Ordering-cases Ordering.eq = inr (inl refl)
Ordering-cases Ordering.gt = inr (inr refl)

module _ {N : Type 0} where
  rotate_left-inorder : (t : Tree N) → inorder (rotate_left t) ≡ inorder t
  rotate_left-inorder leaf = refl
  rotate_left-inorder (node leaf p r) = refl
  rotate_left-inorder (node (node a n b) p r) =
      sym (append_assoc (inorder a) (n ∷ inorder b) (p ∷ inorder r))

  rotate_right-inorder : (t : Tree N) → inorder (rotate_right t) ≡ inorder t
  rotate_right-inorder leaf = refl
  rotate_right-inorder (node l p leaf) = refl
  rotate_right-inorder (node l p (node a n b)) =
      append_assoc (inorder l) (p ∷ inorder a) (n ∷ inorder b)

module _ {N : Type 0} (priority : N → ℤ) where
  -- The nodes stand in strictly ascending priority.
  abbrev pub IsSorted : List N → Type 0
  IsSorted [] = Unit
  IsSorted (x ∷ xs) = All (λ y. priority x <ℤ priority y) xs × IsSorted xs

  pub IsSorted-left : (xs ys : List N) → IsSorted (xs ++ ys) → IsSorted xs
  IsSorted-left [] ys h = tt
  IsSorted-left (x ∷ xs) ys h = (All-left _ xs ys h.0, IsSorted-left xs ys h.1)

  pub IsSorted-right : (xs ys : List N) → IsSorted (xs ++ ys) → IsSorted ys
  IsSorted-right [] ys h = h
  IsSorted-right (x ∷ xs) ys h = IsSorted-right xs ys h.1

  -- All of the left part are below the right part's first.
  pub IsSorted-below :
      (xs : List N) (y : N) (ys : List N)
      → IsSorted (xs ++ y ∷ ys)
      → All (λ x. priority x <ℤ priority y) xs
  IsSorted-below [] y ys h = tt
  IsSorted-below (x ∷ xs) y ys h = ((All-right _ xs (y ∷ ys) h.0).0, IsSorted-below xs y ys h.1)

  module _ (key : ℤ) where
    step_left-inorder :
        (l : Tree N) (n : N) (r : Tree N)
        → inorder (step_left priority key l n r).1 ≡ inorder (node l n r)
    unfolding step_left
    step_left-inorder leaf n r = refl
    step_left-inorder (node cl c cr) n r =
        elim (Bool-cases (ends_here (against priority key c) cl cr)) [
          | inl e ↦ rw e (rotate_left-inorder (node (node cl c cr) n r))
          | inr e ↦ elim (Bool-cases (is_lt (against priority key c))) [
            | inl f ↦
                rw (e, f)
                  (rotate_left-inorder (node (rotate_left (node cl c cr)) n r)
                    ∙ ap (λ x. x ++ n ∷ inorder r) (rotate_left-inorder (node cl c cr)))
            | inr f ↦
                rw (e, f)
                  (rotate_left-inorder (node (rotate_right (node cl c cr)) n r)
                    ∙ ap (λ x. x ++ n ∷ inorder r) (rotate_right-inorder (node cl c cr)))
          ]
        ]

    step_right-inorder :
        (l : Tree N) (n : N) (r : Tree N)
        → inorder (step_right priority key l n r).1 ≡ inorder (node l n r)
    unfolding step_right
    step_right-inorder l n leaf = refl
    step_right-inorder l n (node cl c cr) =
        elim (Bool-cases (ends_here (against priority key c) cl cr)) [
          | inl e ↦ rw e (rotate_right-inorder (node l n (node cl c cr)))
          | inr e ↦ elim (Bool-cases (is_lt (against priority key c))) [
            | inl f ↦
                rw (e, f)
                  (rotate_right-inorder (node l n (rotate_left (node cl c cr)))
                    ∙ ap (λ x. inorder l ++ n ∷ x) (rotate_left-inorder (node cl c cr)))
            | inr f ↦
                rw (e, f)
                  (rotate_right-inorder (node l n (rotate_right (node cl c cr)))
                    ∙ ap (λ x. inorder l ++ n ∷ x) (rotate_right-inorder (node cl c cr)))
          ]
        ]

    pub step-inorder : (t : Tree N) → inorder (splay_step priority key t).1 ≡ inorder t
    unfolding splay_step
    step-inorder leaf = refl
    step-inorder (node l n r) = ground (arith, step_left-inorder l n r, step_right-inorder l n r)

    loop-inorder : (fuel : ℕ) (t : Tree N) → inorder (splay_loop priority key fuel t).1 ≡ inorder t
    unfolding splay_loop
    loop-inorder zero t = refl
    loop-inorder (suc fuel) t =
        ground (arith, step-inorder t, loop-inorder fuel (splay_step priority key t).1)

    -- `splay_tree_splay` only rotates: the nodes stay in order, whatever the priorities.
    pub splay-inorder : (t : Tree N) → inorder (splay priority key t) ≡ inorder t
    unfolding splay
    splay-inorder t = loop-inorder (2 * size t + 2) t
