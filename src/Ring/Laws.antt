-- ===== src/Ring/Laws.antt =====
-- What the pointer writes do to a circular list.
use ulmt_open_mp_gcc.Base.{
  ℕ, ◌≡◌, ◌≢◌, List, [], ◌∷◌, ◌++◌, append-nil, subst, sym, refl, arith, ◌∙◌, ==_refl, NotIn,
  NotIn-swap, Distinct-swap, Distinct, last_of,
}
use ulmt_open_mp_gcc.Ring.{Mem, link_single, link_neighbours, link_before, link_after, unlink}
use ulmt_open_mp_gcc.Ring.Seg.{Seg, Ring, Outside, Ring-rotate, Seg-prev, Seg-next, last_of-ne}

pub link_single-Ring : (m : Mem) (n : ℕ) → Ring (link_single m n) (n ∷ [])
unfolding link_single
link_single-Ring m n = ground arith

pub link_single-Outside : (m : Mem) (n : ℕ) → Outside (n ∷ []) m (link_single m n)
unfolding link_single
link_single-Outside m n k h = (ground (arith, h.0), ground (arith, h.0))

-- The four writes of `link_before`, when the new node is none of its neighbours.
record Linked (m : Mem) (q n : ℕ) (m' : Mem) : Type 0 where
  to_next : m'.next n ≡ q
  to_prev : m'.prev n ≡ m.prev q
  from_next : m'.prev q ≡ n
  from_prev : m'.next (m.prev q) ≡ n
  other_next : (c : ℕ) → c ≢ n → c ≢ m.prev q → m'.next c ≡ m.next c
  other_prev : (c : ℕ) → c ≢ n → c ≢ q → m'.prev c ≡ m.prev c

link_before-Linked : (m : Mem) (q n : ℕ) → q ≢ n → m.prev q ≢ n → Linked m q n (link_before m q n)
unfolding link_before link_neighbours
link_before-Linked m q n h k = record {
  to_next = ground arith;
  to_prev = ground arith;
  from_next = ground arith;
  from_prev = ground arith;
  other_next = λ c a b. ground arith;
  other_prev = λ c a b. ground arith;
}

link_end :
    (m m' : Mem) (q n a : ℕ) (xs : List ℕ)
    → Linked m q n m'
    → Seg m a xs q
    → Distinct (a ∷ xs)
    → NotIn n (a ∷ xs)
    → NotIn q xs
    → Seg m' a (xs ++ n ∷ []) q
link_end m m' q n a [] l s d f g = ground arith
link_end m m' q n a (x ∷ xs) l s d f g =
    let apart : a ≢ m.prev q =
      λ e. last_of-ne a x xs d.0.0 d.0.1 (sym (Seg-prev m x xs q s.2) ∙ sym e) in
    (
      l.other_next a (λ e. f.0 (sym e)) apart ∙ s.0,
      l.other_prev x (λ e. f.1.0 (sym e)) (λ e. g.0 (sym e)) ∙ s.1,
      link_end m m' q n x xs l s.2 d.1 f.1 g.1,
    )

-- The new node goes to the end of the circular list that starts at `q`.
pub link_before-end :
    (m : Mem) (q : ℕ) (xs : List ℕ) (n : ℕ)
    → Ring m (q ∷ xs)
    → Distinct (q ∷ xs)
    → NotIn n (q ∷ xs)
    → Ring (link_before m q n) ((q ∷ xs) ++ n ∷ [])
link_before-end m q xs n r d f =
    link_end m (link_before m q n) q n q xs
      (link_before-Linked m q n (λ e. f.0 (sym e))
        (λ e. last_of-ne n q xs f.0 f.1 (sym (Seg-prev m q xs q r) ∙ e)))
      r d f d.0

-- `link_before` puts a new node in front of `q`, wherever `q` stands in its circular list.
pub link_before-Ring :
    (m : Mem) (xs : List ℕ) (q : ℕ) (ys : List ℕ) (n : ℕ)
    → Ring m (xs ++ q ∷ ys)
    → Distinct (xs ++ q ∷ ys)
    → NotIn n (xs ++ q ∷ ys)
    → Ring (link_before m q n) (xs ++ n ∷ q ∷ ys)
link_before-Ring m xs q ys n r d f =
    let m' = link_before m q n in
    let r₁ : Ring m' ((q ∷ ys ++ xs) ++ n ∷ []) =
      link_before-end m q (ys ++ xs) n (Ring-rotate m xs (q ∷ ys) r) (Distinct-swap xs (q ∷ ys) d)
        (NotIn-swap n xs (q ∷ ys) f) in
    let r₂ : Ring m' ((n ∷ q ∷ ys) ++ xs) = Ring-rotate m' (q ∷ ys ++ xs) (n ∷ []) r₁ in
    Ring-rotate m' (n ∷ q ∷ ys) xs r₂

link_after-before :
    (m : Mem) (p q n : ℕ) → m.next p ≡ q → m.prev q ≡ p → link_before m q n ≡ link_after m p n
unfolding link_after link_before
link_after-before m p q n e g = simp (==_refl, e, g)

-- `link_after` of the last node of a segment is `link_before` of its end.
pub link_after-last :
    (m : Mem) (a : ℕ) (xs : List ℕ) (b n : ℕ)
    → Seg m a xs b
    → link_before m b n ≡ link_after m (last_of a xs) n
link_after-last m a xs b n h =
    link_after-before m (last_of a xs) b n (Seg-next m a xs b h) (Seg-prev m a xs b h)

-- The writes of `unlink`.
record Unlinked (m : Mem) (n : ℕ) (m' : Mem) : Type 0 where
  from_next : m'.prev (m.next n) ≡ m.prev n
  from_prev : m'.next (m.prev n) ≡ m.next n
  other_next : (c : ℕ) → c ≢ m.prev n → m'.next c ≡ m.next c
  other_prev : (c : ℕ) → c ≢ m.next n → m'.prev c ≡ m.prev c

unlink-Unlinked : (m : Mem) (n : ℕ) → m.next n ≢ n → Unlinked m n (unlink m n)
unfolding unlink
unlink-Unlinked m n h = record {
  from_next = ground arith;
  from_prev = ground arith;
  other_next = λ c a. ground arith;
  other_prev = λ c a. ground arith;
}

unlink_end :
    (m m' : Mem) (n a : ℕ) (xs : List ℕ)
    → Unlinked m n m'
    → Seg m a xs n
    → Distinct (a ∷ xs)
    → NotIn (m.next n) xs
    → Seg m' a xs (m.next n)
unlink_end m m' n a [] l s d g = ground arith
unlink_end m m' n a (x ∷ xs) l s d g =
    let apart : a ≢ m.prev n =
      λ e. last_of-ne a x xs d.0.0 d.0.1 (sym (Seg-prev m x xs n s.2) ∙ sym e) in
    (
      l.other_next a apart ∙ s.0,
      l.other_prev x (λ e. g.0 (sym e)) ∙ s.1,
      unlink_end m m' n x xs l s.2 d.1 g.1,
    )

-- `unlink` takes a node out of its circular list, if it is not alone there.
unlink-first :
    (m : Mem) (n x : ℕ) (xs : List ℕ)
    → Ring m (n ∷ x ∷ xs)
    → Distinct (n ∷ x ∷ xs)
    → Ring (unlink m n) (x ∷ xs)
unlink-first m n x xs r d =
    let s : Seg (unlink m n) x xs (m.next n) =
      unlink_end m (unlink m n) n x xs (unlink-Unlinked m n (λ e. d.0.0 (sym e ∙ r.0))) r.2 d.1
        (subst (λ c. NotIn c xs) (sym r.0) d.1.0) in
    subst (λ c. Seg (unlink m n) x xs c) r.0 s

unlink-rest :
    (m : Mem) (n : ℕ) (zs : List ℕ)
    → Ring m (n ∷ zs)
    → Distinct (n ∷ zs)
    → zs ≢ []
    → Ring (unlink m n) zs
unlink-rest m n [] r d ne = absurd (ne refl)
unlink-rest m n (x ∷ zs) r d ne = unlink-first m n x zs r d

Seg-next-ne_self :
    (m : Mem) (n : ℕ) (zs : List ℕ) → Ring m (n ∷ zs) → Distinct (n ∷ zs) → zs ≢ [] → m.next n ≢ n
Seg-next-ne_self m n [] r d ne = absurd (ne refl)
Seg-next-ne_self m n (x ∷ zs) r d ne = λ e. d.0.0 (sym e ∙ r.0)

Seg-next-ne :
    (m : Mem) (n : ℕ) (zs : List ℕ) (k : ℕ) → NotIn k (n ∷ zs) → Ring m (n ∷ zs) → k ≢ m.next n
Seg-next-ne m n [] k h r = λ e. h.0 (e ∙ r.0)
Seg-next-ne m n (x ∷ zs) k h r = λ e. h.1.0 (e ∙ r.0)

append-ne-nil_swap : (xs ys : List ℕ) → xs ++ ys ≢ [] → ys ++ xs ≢ []
append-ne-nil_swap xs [] h = subst (λ l. l ≢ []) (append-nil xs) h
append-ne-nil_swap xs (y ∷ ys) h = λ e. cc

module _ (m : Mem) (xs : List ℕ) (n : ℕ) (ys : List ℕ) (r : Ring m (xs ++ n ∷ ys)) where
  from_node : Ring m (n ∷ ys ++ xs)
  from_node = Ring-rotate m xs (n ∷ ys) r

  -- What lies outside a circular list is none of a node's neighbours.
  prev-outside : (k : ℕ) → NotIn k (xs ++ n ∷ ys) → k ≢ m.prev n
  prev-outside k h =
      let h' : NotIn k (n ∷ ys ++ xs) = NotIn-swap k xs (n ∷ ys) h in
      λ e. last_of-ne k n (ys ++ xs) h'.0 h'.1 (sym (Seg-prev m n (ys ++ xs) n from_node) ∙ sym e)

  next-outside : (k : ℕ) → NotIn k (xs ++ n ∷ ys) → k ≢ m.next n
  next-outside k h = Seg-next-ne m n (ys ++ xs) k (NotIn-swap k xs (n ∷ ys) h) from_node

  -- The nodes that each write touches.
  pub link_before-Outside : (q : ℕ) → Outside (q ∷ (xs ++ n ∷ ys)) m (link_before m n q)
  unfolding link_before link_neighbours
  link_before-Outside q k h =
      let a : k ≢ n = (NotIn-swap k xs (n ∷ ys) h.1).0 in
      let b : k ≢ m.prev n = prev-outside k h.1 in (ground (arith, h.0), ground (arith, h.0))

  pub unlink-Outside : Outside (xs ++ n ∷ ys) m (unlink m n)
  unfolding unlink
  unlink-Outside k h =
      let a : k ≢ m.next n = next-outside k h in
      let b : k ≢ m.prev n = prev-outside k h in (ground arith, ground arith)

  module _ (d : Distinct (xs ++ n ∷ ys)) (ne : xs ++ ys ≢ []) where
    more : ys ++ xs ≢ []
    more = append-ne-nil_swap xs ys ne

    -- Only a node that is alone in its list points at itself.
    pub next-ne_self : m.next n ≢ n
    next-ne_self = Seg-next-ne_self m n (ys ++ xs) from_node (Distinct-swap xs (n ∷ ys) d) more

    pub unlink-Ring : Ring (unlink m n) (xs ++ ys)
    unlink-Ring =
        Ring-rotate (unlink m n) ys xs
          (unlink-rest m n (ys ++ xs) from_node (Distinct-swap xs (n ∷ ys) d) more)
