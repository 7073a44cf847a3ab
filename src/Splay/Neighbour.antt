-- ===== src/Splay/Neighbour.antt =====
-- `splay_tree_splay` brings the key to the root, or else a neighbour of it.
use Prim.Native.Nat.{Ordering}
use ulmt_open_mp_gcc.Base.{
  ℕ, zero, suc, ◌+◌, ◌*◌, ◌≡◌, ap, sym, subst, ◌∙◌, true, Bool, arith, Bool-cases, inl, inr, List,
  [], ◌∷◌, ◌++◌, All, All-append, All-map,
}
use ulmt_open_mp_gcc.Base.Int.{ℤ, ◌<ℤ◌}
use ulmt_open_mp_gcc.Splay.{
  Tree, leaf, node, inorder, size, against, step_left, step_right, splay_step, splay_loop, splay,
  ends_here,
}
use ulmt_open_mp_gcc.Splay.Terminates.{splay-returns}
use ulmt_open_mp_gcc.Splay.Inorder.{
  compare-lt, compare-gt, Ordering-cases, IsSorted, IsSorted-right, IsSorted-below, step-inorder,
}

module _ {N : Type 0} (priority : N → ℤ) (key : ℤ) where
  -- The root has the key, or no node lies between it and the key.
  abbrev pub IsSplayed : Tree N → Type 0
  IsSplayed leaf = Unit
  IsSplayed (node l n r) =
      (against priority key n ≡ Ordering.lt → All (λ x. priority x <ℤ key) (inorder l))
      × (against priority key n ≡ Ordering.gt → All (λ x. key <ℤ priority x) (inorder r))

  above :
      (xs : List N) (n : N) (ys : List N)
      → IsSorted priority (xs ++ n ∷ ys)
      → against priority key n ≡ Ordering.lt
      → All (λ x. key <ℤ priority x) (n ∷ ys)
  above xs n ys s e =
      let k : key <ℤ priority n = compare-lt key (priority n) e in
      (k, All-map (λ x h. omega (arith, h, k)) ys (IsSorted-right priority xs (n ∷ ys) s).0)

  below :
      (xs : List N) (n : N) (ys : List N)
      → IsSorted priority (xs ++ n ∷ ys)
      → against priority key n ≡ Ordering.gt
      → All (λ x. priority x <ℤ key) (xs ++ n ∷ [])
  below xs n ys s e =
      let k : priority n <ℤ key = compare-gt key (priority n) e in
      All-append _ xs (n ∷ [])
        (All-map (λ x h. omega (arith, h, k)) xs (IsSorted-below priority xs n ys s)) (k, tt)

  rotated_left :
      (cl : Tree N) (c : N) (cr : Tree N) (n : N) (r : Tree N)
      → IsSorted priority (inorder (node cl c cr) ++ n ∷ inorder r)
      → against priority key n ≡ Ordering.lt
      → ends_here (against priority key c) cl cr ≡ true
      → IsSplayed (node cl c (node cr n r))
  rotated_left cl c cr n r s e h = (left cl h, right cr h s)
    where
      left :
          (cl : Tree N)
          → ends_here (against priority key c) cl cr ≡ true
          → against priority key c ≡ Ordering.lt
          → All (λ x. priority x <ℤ key) (inorder cl)
      left leaf h g = tt
      left (node a b d) h g = cc (rw g at h)

      right :
          (cr : Tree N)
          → ends_here (against priority key c) cl cr ≡ true
          → IsSorted priority ((inorder cl ++ c ∷ inorder cr) ++ n ∷ inorder r)
          → against priority key c ≡ Ordering.gt
          → All (λ x. key <ℤ priority x) (inorder cr ++ n ∷ inorder r)
      right leaf h s g = above (inorder cl ++ c ∷ []) n (inorder r) s e
      right (node a b d) h s g = cc (rw g at h)

  rotated_right :
      (l : Tree N) (n : N) (cl : Tree N) (c : N) (cr : Tree N)
      → IsSorted priority (inorder l ++ n ∷ inorder (node cl c cr))
      → against priority key n ≡ Ordering.gt
      → ends_here (against priority key c) cl cr ≡ true
      → IsSplayed (node (node l n cl) c cr)
  rotated_right l n cl c cr s e h = (left cl h s, right cr h)
    where
      left :
          (cl : Tree N)
          → ends_here (against priority key c) cl cr ≡ true
          → IsSorted priority (inorder l ++ n ∷ (inorder cl ++ c ∷ inorder cr))
          → against priority key c ≡ Ordering.lt
          → All (λ x. priority x <ℤ key) (inorder l ++ n ∷ inorder cl)
      left leaf h s g = below (inorder l) n (c ∷ inorder cr) s e
      left (node a b d) h s g = cc (rw g at h)

      right :
          (cr : Tree N)
          → ends_here (against priority key c) cl cr ≡ true
          → against priority key c ≡ Ordering.gt
          → All (λ x. key <ℤ priority x) (inorder cr)
      right leaf h g = tt
      right (node a b d) h g = cc (rw g at h)

  step_left-true :
      (cl : Tree N) (c : N) (cr : Tree N) (n : N) (r : Tree N)
      → (step_left priority key (node cl c cr) n r).0 ≡ true
      → ends_here (against priority key c) cl cr ≡ true
  unfolding step_left
  step_left-true cl c cr n r h = ground arith

  step_left-IsSplayed :
      (l : Tree N) (n : N) (r : Tree N)
      → IsSorted priority (inorder l ++ n ∷ inorder r)
      → against priority key n ≡ Ordering.lt
      → (step_left priority key l n r).0 ≡ true
      → IsSplayed (step_left priority key l n r).1
  unfolding step_left
  step_left-IsSplayed leaf n r s e h = ((λ g. tt), (λ g. cc))
  step_left-IsSplayed (node cl c cr) n r s e h =
      let k = step_left-true cl c cr n r h in rw k (rotated_left cl c cr n r s e k)

  step_right-true :
      (l : Tree N) (n : N) (cl : Tree N) (c : N) (cr : Tree N)
      → (step_right priority key l n (node cl c cr)).0 ≡ true
      → ends_here (against priority key c) cl cr ≡ true
  unfolding step_right
  step_right-true l n cl c cr h = ground arith

  step_right-IsSplayed :
      (l : Tree N) (n : N) (r : Tree N)
      → IsSorted priority (inorder l ++ n ∷ inorder r)
      → against priority key n ≡ Ordering.gt
      → (step_right priority key l n r).0 ≡ true
      → IsSplayed (step_right priority key l n r).1
  unfolding step_right
  step_right-IsSplayed l n leaf s e h = ((λ g. cc), (λ g. tt))
  step_right-IsSplayed l n (node cl c cr) s e h =
      let k = step_right-true l n cl c cr h in rw k (rotated_right l n cl c cr s e k)

  found-IsSplayed :
      (l : Tree N) (n : N) (r : Tree N)
      → against priority key n ≡ Ordering.eq
      → IsSplayed (node l n r)
  found-IsSplayed l n r e = ((λ g. cc), (λ g. cc))

  step-IsSplayed :
      (t : Tree N)
      → IsSorted priority (inorder t)
      → (splay_step priority key t).0 ≡ true
      → IsSplayed (splay_step priority key t).1
  unfolding splay_step
  step-IsSplayed leaf s h = tt
  step-IsSplayed (node l n r) s h = elim (Ordering-cases (against priority key n)) [
    | inl e ↦ via (step_left priority key l n r) (ground (arith, e)) (step_left-IsSplayed l n r s e)
    | inr (inl e) ↦ via (true, node l n r) (ground (arith, e)) (λ k. found-IsSplayed l n r e)
    | inr (inr e) ↦
        via (step_right priority key l n r) (ground (arith, e)) (step_right-IsSplayed l n r s e)
  ]
    where
      via :
          (p : Bool × Tree N)
          → p ≡ splay_step priority key (node l n r)
          → (p.0 ≡ true → IsSplayed p.1)
          → IsSplayed (splay_step priority key (node l n r)).1
      via p e k =
          subst {A = Bool × Tree N} (λ q. IsSplayed q.1) e
            (k (ap {A = Bool × Tree N} (λ q. q.0) e ∙ h))

  loop-IsSplayed :
      (fuel : ℕ) (t : Tree N)
      → IsSorted priority (inorder t)
      → (splay_loop priority key fuel t).0 ≡ true
      → IsSplayed (splay_loop priority key fuel t).1
  unfolding splay_loop
  loop-IsSplayed zero t s h = cc
  loop-IsSplayed (suc fuel) t s h = elim (Bool-cases (splay_step priority key t).0) [
    | inl e ↦ rw e (step-IsSplayed t s e)
    | inr e ↦ rw e (
        loop-IsSplayed fuel (splay_step priority key t).1
          (subst (IsSorted priority) (sym (step-inorder priority key t)) s) (rw e at h))
  ]

  -- Where the nodes are sorted, the splayed tree has the key at its root, or the root is a
  -- neighbour of the key.
  pub splay-IsSplayed :
      (t : Tree N) → IsSorted priority (inorder t) → IsSplayed (splay priority key t)
  unfolding splay
  splay-IsSplayed t s = loop-IsSplayed (2 * size t + 2) t s (splay-returns priority key t)
