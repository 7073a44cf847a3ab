-- ===== src/Splay/Side.antt =====
-- The root of a splayed tree and the key, and the nodes in order when a root is removed.
use ulmt_open_mp_gcc.Base.{
  ◌≡◌, ap, sym, subst, ◌∙◌, arith, refl, inl, inr, append_assoc, append-nil, [], ◌∷◌, ◌++◌, All-map,
}
use ulmt_open_mp_gcc.Base.Int.{ℤ, ◌<ℤ◌}
use ulmt_open_mp_gcc.Splay.{Tree, leaf, node, inorder, prio_splay_compare, splay, hang, join}
use ulmt_open_mp_gcc.Splay.Inorder.{
  IsSorted, IsSorted-right, IsSorted-below, compare-lt, compare-gt, compare-eq, Ordering-cases,
  splay-inorder,
}
use ulmt_open_mp_gcc.Splay.Neighbour.{IsSplayed}
use ulmt_open_mp_gcc.Splay.Ordered.{Below, Above}

module _ {N : Type 0} where
  hang-inorder :
      (right t : Tree N) (l : Tree N) (n : N)
      → inorder (hang right (node l n t)) ≡ inorder (node l n t) ++ inorder right
  hang-inorder right leaf l n = sym (append_assoc (inorder l) (n ∷ []) (inorder right))
  hang-inorder right (node a m b) l n =
      ap (λ c. inorder l ++ n ∷ c) (hang-inorder right b a m)
      ∙ sym (append_assoc (inorder l) (n ∷ inorder (node a m b)) (inorder right))

  pub join-inorder : (l r : Tree N) → inorder (join l r) ≡ inorder l ++ inorder r
  join-inorder leaf r = refl
  join-inorder (node l n r) leaf = sym (append-nil (inorder (node l n r)))
  join-inorder (node l n r) (node a m b) = hang-inorder (node a m b) r l n

module _ {N : Type 0} (priority : N → ℤ) where
  module _ (key : ℤ) where
    -- Where the key is with respect to a sorted tree's root.
    pub data Side (l : Tree N) (n : N) (r : Tree N) : Type 0 where
      here :
          priority n ≡ key
          → Below priority key (inorder l)
          → Above priority key (inorder r)
          → Side l n r
      after :
          priority n <ℤ key
          → Below priority key (inorder l)
          → Above priority key (inorder r)
          → Side l n r
      before :
          key <ℤ priority n
          → Below priority key (inorder l)
          → Above priority key (inorder r)
          → Side l n r

    pub side :
        (l : Tree N) (n : N) (r : Tree N)
        → IsSorted priority (inorder (node l n r))
        → IsSplayed priority key (node l n r)
        → Side l n r
    side l n r s h = elim (Ordering-cases (prio_splay_compare key (priority n))) [
      | inl e ↦
          let k = compare-lt key (priority n) e in
          before k (h.0 e) (All-map (λ x p. omega (arith, p, k)) (inorder r) up)
      | inr (inl e) ↦
          let k = compare-eq key (priority n) e in
          here (sym k) (subst (λ z. Below priority z (inorder l)) (sym k) down)
            (subst (λ z. Above priority z (inorder r)) (sym k) up)
      | inr (inr e) ↦
          let k = compare-gt key (priority n) e in
          after k (All-map (λ x p. omega (arith, p, k)) (inorder l) down) (h.1 e)
    ]
      where
        up : Above priority (priority n) (inorder r)
        up = (IsSorted-right priority (inorder l) (n ∷ inorder r) s).0

        down : Below priority (priority n) (inorder l)
        down = IsSorted-below priority (inorder l) n (inorder r) s

    pub splayed :
        (t : Tree N)
        → IsSorted priority (inorder t)
        → IsSorted priority (inorder (splay priority key t))
    splayed t s = subst (IsSorted priority) (sym (splay-inorder priority key t)) s
