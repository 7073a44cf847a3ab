-- ===== src/HpList/Between.antt =====
-- A new node in the chain, and one that goes.
use ulmt_open_mp_gcc.Base.{
  ℕ, ◌≡◌, ◌≢◌, refl, ap, sym, subst, ◌∙◌, Option, none, some, arith, List, [], ◌∷◌, ◌++◌, head?,
  NotIn, NotIn-right, NotIn-self, Distinct, Distinct-right, snoc-cases, last?-snoc, inl, inr,
  append_assoc,
}
use ulmt_open_mp_gcc.HpList.{Nodes, link_above, link_below}
use ulmt_open_mp_gcc.HpList.Chain.{
  Chain, Chain-prev, Chain-frame, SameLinks, Above, link_above-Above, last_or-none,
}

pub head?-ne : (c : ℕ) (ys : List ℕ) → NotIn c ys → head? ys ≢ some c
head?-ne c [] n = λ e. cc
head?-ne c (y ∷ ys) n = λ e. n.0 (ground arith)

module _ {h h' : Nodes} {at new : ℕ} {q : Option ℕ} (a : Above h at new q h') where
  above_same :
      (ys : List ℕ)
      → NotIn new ys
      → NotIn at ys
      → ((c : ℕ) → q ≡ some c → NotIn c ys)
      → SameLinks h h' ys
  above_same [] f g k = tt
  above_same (y ∷ ys) f g k = (
    (
      a.same_prev y (λ e. f.0 (sym e)) (λ e. (k y e).0 refl),
      a.same_next y (λ e. f.0 (sym e)) (λ e. g.0 (sym e)),
    ),
    above_same ys f.1 g.1 (λ c e. (k c e).1),
  )

  above_rest :
      (ys : List ℕ)
      → q ≡ head? ys
      → Distinct (at ∷ ys)
      → NotIn new ys
      → Chain h (some at) ys
      → Chain h' (some new) ys
  above_rest [] e d f c = tt
  above_rest (y ∷ ys) e d f c = (
    a.q_prev y e,
    a.same_next y (λ e. f.0 (sym e)) (λ e. d.0.0 (sym e)) ∙ c.1,
    Chain-frame h h' (some y) ys
        (above_same ys f.1 d.0.1 (λ z k. subst (λ b. NotIn b ys) (some_eq y z (sym e ∙ k)) d.1.0))
        c.2,
  )
    where
      some_eq : (y z : ℕ) → some y ≡ some z → y ≡ z
      some_eq y z e = cc

  pub above-Chain :
      (p : Option ℕ) (xs ys : List ℕ)
      → q ≡ head? ys
      → Distinct (xs ++ at ∷ ys)
      → NotIn new (xs ++ at ∷ ys)
      → Chain h p (xs ++ at ∷ ys)
      → Chain h' p (xs ++ at ∷ new ∷ ys)
  above-Chain p [] ys e d f c = (
    a.same_prev at (λ k. f.0 (sym k)) (λ k. head?-ne at ys d.0 (sym e ∙ k)) ∙ c.0,
    a.at_next,
    (a.new_prev, a.new_next ∙ e, above_rest ys e d f.1 c.2),
  )
  above-Chain p (x ∷ xs) ys e d f c = (
    a.same_prev x (λ k. f.0 (sym k))
          (λ k. head?-ne x ys (NotIn-right x xs (at ∷ ys) d.0).1 (sym e ∙ k))
        ∙ c.0,
    a.same_next x (λ k. f.0 (sym k)) (NotIn-self x at xs ys d.0) ∙ c.1 ∙ heads xs,
    above-Chain (some x) xs ys e d.1 f.1 c.2,
  )
    where
      heads : (xs : List ℕ) → head? (xs ++ at ∷ ys) ≡ head? (xs ++ at ∷ new ∷ ys)
      heads [] = refl
      heads (x ∷ xs) = refl

-- `link_above` puts the new node behind `at`.
pub link_above-Chain :
    (h : Nodes) (xs : List ℕ) (at new : ℕ) (ys : List ℕ)
    → Distinct (xs ++ at ∷ ys)
    → NotIn new (xs ++ at ∷ ys)
    → Chain h none (xs ++ at ∷ ys)
    → Chain (link_above h at new) none (xs ++ at ∷ new ∷ ys)
link_above-Chain h xs at new ys d f c =
    let n = (Chain-prev h none xs at ys c).1 in
    let g : NotIn new (at ∷ ys) = NotIn-right new xs (at ∷ ys) f in
    above-Chain
      (link_above-Above h at new (λ e. g.0 (sym e)) (λ e. head?-ne new ys g.1 (sym n ∙ e))) none xs
      ys n d f c

-- `link_below` is `link_above` of the node before, or puts the new node at the front.
link_below-Above :
    (h : Nodes) (z at new : ℕ)
    → h.prev at ≡ some z
    → h.next z ≡ some at
    → z ≢ new
    → at ≢ new
    → z ≢ at
    → Above h z new (some at) (link_below h at new)
unfolding link_below
link_below-Above h z at new p n k l j = record {
  new_prev = ground arith;
  new_next = ground arith;
  at_next = ground arith;
  q_prev = λ b e. ground arith;
  same_next = λ c a b. ground arith;
  same_prev = λ c a b. ground arith;
}

front_same :
    (h : Nodes) (at new : ℕ) (ys : List ℕ)
    → h.prev at ≡ none
    → NotIn at ys
    → NotIn new ys
    → SameLinks h (link_below h at new) ys
unfolding link_below
front_same h at new [] p n f = tt
front_same h at new (y ∷ ys) p n f =
    ((ground (arith, n.0, f.0), ground (arith, n.0, f.0)), front_same h at new ys p n.1 f.1)

link_below-front :
    (h : Nodes) (at new : ℕ) (ys : List ℕ)
    → Distinct (at ∷ ys)
    → NotIn new (at ∷ ys)
    → Chain h none (at ∷ ys)
    → Chain (link_below h at new) none (new ∷ at ∷ ys)
unfolding link_below
link_below-front h at new ys d f c = (
  ground (arith, f.0, c.0),
  ground (arith, f.0, c.0),
  (
    ground (arith, f.0, c.0),
    ground (arith, f.0, c.0, c.1),
    Chain-frame h (link_below h at new) (some at) ys (front_same h at new ys c.0 d.0 f.1) c.2,
  ),
)

link_below-behind :
    (h : Nodes) (zs : List ℕ) (z at new : ℕ) (ys : List ℕ)
    → Distinct (zs ++ z ∷ at ∷ ys)
    → NotIn new (zs ++ z ∷ at ∷ ys)
    → Chain h none (zs ++ z ∷ at ∷ ys)
    → Chain (link_below h at new) none (zs ++ z ∷ new ∷ at ∷ ys)
link_below-behind h zs z at new ys d f c =
    above-Chain
      (link_below-Above h z at new back (Chain-prev h none zs z (at ∷ ys) c).1 (λ e. g.0 (sym e))
        (λ e. g.1.0 (sym e)) (Distinct-right zs (z ∷ at ∷ ys) d).0.0)
      none zs (at ∷ ys) refl d f c
  where
    g : NotIn new (z ∷ at ∷ ys)
    g = NotIn-right new zs (z ∷ at ∷ ys) f

    back : h.prev at ≡ some z
    back =
        (Chain-prev h none (zs ++ z ∷ []) at ys
          (subst (Chain h none) (sym (append_assoc zs (z ∷ []) (at ∷ ys))) c)).0
        ∙ last_or-none (zs ++ z ∷ [])
        ∙ last?-snoc zs z

-- `link_below` puts the new node in front of `at`.
pub link_below-Chain :
    (h : Nodes) (xs : List ℕ) (at new : ℕ) (ys : List ℕ)
    → Distinct (xs ++ at ∷ ys)
    → NotIn new (xs ++ at ∷ ys)
    → Chain h none (xs ++ at ∷ ys)
    → Chain (link_below h at new) none (xs ++ new ∷ at ∷ ys)
link_below-Chain h xs at new ys d f c = elim (snoc-cases xs) [
  | inl e ↦
      subst (λ l. Chain (link_below h at new) none (l ++ new ∷ at ∷ ys)) (sym e)
        (link_below-front h at new ys (rw e at d) (rw e at f) (rw e at c))
  | inr (zs, z, e) ↦
      let e' : xs ++ at ∷ ys ≡ zs ++ z ∷ at ∷ ys =
        ap (λ l. l ++ at ∷ ys) e ∙ append_assoc zs (z ∷ []) (at ∷ ys) in
      subst (Chain (link_below h at new) none)
        (sym (ap (λ l. l ++ new ∷ at ∷ ys) e ∙ append_assoc zs (z ∷ []) (new ∷ at ∷ ys)))
        (link_below-behind h zs z at new ys (subst Distinct e' d) (subst (NotIn new) e' f)
          (subst (Chain h none) e' c))
]
