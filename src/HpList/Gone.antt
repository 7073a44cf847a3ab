-- ===== src/HpList/Gone.antt =====
-- A node that leaves the chain.
use ulmt_open_mp_gcc.Base.{
  ℕ, ◌≡◌, ◌≢◌, refl, sym, subst, ◌∙◌, Option, none, some, arith, List, [], ◌∷◌, ◌++◌, head?, NotIn,
  NotIn-left, NotIn-right, Distinct, Distinct-right,
}
use ulmt_open_mp_gcc.HpList.{Nodes, unlink}
use ulmt_open_mp_gcc.HpList.Chain.{Chain, Chain-prev, Chain-frame, SameLinks, last_or}
use ulmt_open_mp_gcc.HpList.Between.{head?-ne}

record Unlinked (h : Nodes) (n : ℕ) (h' : Nodes) : Type 0 where
  next_prev : (b : ℕ) → h.next n ≡ some b → h'.prev b ≡ h.prev n
  prev_next : (a : ℕ) → h.prev n ≡ some a → h'.next a ≡ h.next n
  same_next : (c : ℕ) → h.prev n ≢ some c → h'.next c ≡ h.next c
  same_prev : (c : ℕ) → h.next n ≢ some c → h'.prev c ≡ h.prev c

unlink-Unlinked : (h : Nodes) (n : ℕ) → h.next n ≢ some n → Unlinked h n (unlink h n)
unfolding unlink
unlink-Unlinked h n k = record {
  next_prev = λ b e. ground arith;
  prev_next = λ a e. ground arith;
  same_next = λ c e. ground arith;
  same_prev = λ c e. ground arith;
}

last_or-ne : (c : ℕ) (x : ℕ) (xs : List ℕ) → c ≢ x → NotIn c xs → last_or (some x) xs ≢ some c
last_or-ne c x [] k n = λ e. k (ground arith)
last_or-ne c x (y ∷ ys) k n = last_or-ne c y ys n.0 n.1

module _ {h h' : Nodes} {n : ℕ} (u : Unlinked h n h') where
  gone_same :
      (ys : List ℕ)
      → ((c : ℕ) → h.next n ≡ some c → NotIn c ys)
      → ((c : ℕ) → h.prev n ≡ some c → NotIn c ys)
      → SameLinks h h' ys
  gone_same [] k l = tt
  gone_same (y ∷ ys) k l = (
    (u.same_prev y (λ e. (k y e).0 refl), u.same_next y (λ e. (l y e).0 refl)),
    gone_same ys (λ c e. (k c e).1) (λ c e. (l c e).1),
  )

  some_eq : (y z : ℕ) → some y ≡ some z → y ≡ z
  some_eq y z e = cc

  gone_front :
      (p : Option ℕ) (ys : List ℕ)
      → Distinct (n ∷ ys)
      → ((a : ℕ) → p ≡ some a → NotIn a ys)
      → Chain h p (n ∷ ys)
      → Chain h' p ys
  gone_front p [] d l c = tt
  gone_front p (y ∷ ys) d l c = (
    u.next_prev y c.1 ∙ c.0,
    u.same_next y (λ e. (l y (sym c.0 ∙ e)).0 refl) ∙ c.2.1,
    Chain-frame h h' (some y) ys
        (gone_same ys (λ z e. subst (λ b. NotIn b ys) (some_eq y z (sym c.1 ∙ e)) d.1.0)
          (λ z e. (l z (sym c.0 ∙ e)).1))
        c.2.2,
  )

  gone-Chain :
      (p : Option ℕ) (xs ys : List ℕ)
      → Distinct (xs ++ n ∷ ys)
      → ((a : ℕ) → p ≡ some a → NotIn a (xs ++ n ∷ ys))
      → Chain h p (xs ++ n ∷ ys)
      → Chain h' p (xs ++ ys)
  gone-Chain p [] ys d l c = gone_front p ys d (λ a e. (l a e).1) c
  gone-Chain p (x ∷ xs) ys d l c = (
    u.same_prev x (λ e.
          head?-ne x ys (NotIn-right x xs (n ∷ ys) d.0).1
            (sym (Chain-prev h p (x ∷ xs) n ys c).1 ∙ e))
        ∙ c.0,
    onward xs d c,
    gone-Chain (some x) xs ys d.1 (λ a e. subst (λ b. NotIn b (xs ++ n ∷ ys)) (some_eq x a e) d.0)
        c.2,
  )
    where
      onward :
          (xs : List ℕ)
          → Distinct (x ∷ xs ++ n ∷ ys)
          → Chain h p (x ∷ xs ++ n ∷ ys)
          → h'.next x ≡ head? (xs ++ ys)
      onward [] d c = u.prev_next x c.2.0 ∙ c.2.1
      onward (z ∷ zs) d c =
          u.same_next x (λ e.
            last_or-ne x z zs d.0.0 (NotIn-left x zs (n ∷ ys) d.0.1)
              (sym (Chain-prev h p (x ∷ z ∷ zs) n ys c).0 ∙ e))
          ∙ c.1

-- `unlink` takes the node out of the chain.
pub unlink-Chain :
    (h : Nodes) (xs : List ℕ) (n : ℕ) (ys : List ℕ)
    → Distinct (xs ++ n ∷ ys)
    → Chain h none (xs ++ n ∷ ys)
    → Chain (unlink h n) none (xs ++ ys)
unlink-Chain h xs n ys d c =
    gone-Chain
      (unlink-Unlinked h n (λ e.
        head?-ne n ys (Distinct-right xs (n ∷ ys) d).0 (sym (Chain-prev h none xs n ys c).1 ∙ e)))
      none xs ys d (λ a e. cc) c

-- Its own `prev` stays: the walk goes on from there.
pub unlink-prev :
    (h : Nodes) (xs : List ℕ) (n : ℕ) (ys : List ℕ)
    → Distinct (xs ++ n ∷ ys)
    → Chain h none (xs ++ n ∷ ys)
    → (unlink h n).prev n ≡ h.prev n
unlink-prev h xs n ys d c =
    let k : h.next n ≢ some n = λ e.
      head?-ne n ys (Distinct-right xs (n ∷ ys) d).0 (sym (Chain-prev h none xs n ys c).1 ∙ e) in
    (unlink-Unlinked h n k).same_prev n k
