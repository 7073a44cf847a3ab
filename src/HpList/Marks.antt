-- ===== src/HpList/Marks.antt =====
-- The marked nodes of a list: how many, and the last of them.
use ulmt_open_mp_gcc.Base.{
  ℕ, zero, suc, ◌+◌, ◌≤◌, ◌≡◌, refl, ap, sym, subst, ◌∙◌, Bool, true, Option, none, some, arith,
  if◌then◌else◌, update, List, [], ◌∷◌, ◌++◌, length, length-append, last?, All, NotIn, inl, inr,
  Bool-cases, Option-cases, snoc-cases, last?-snoc,
}
use ulmt_open_mp_gcc.HpList.{Nodes, walk}
use ulmt_open_mp_gcc.HpList.Chain.{Prevs, Prevs-split, last_or-none}

abbrev pub count_marked : (ℕ → Bool) → List ℕ → ℕ
count_marked m [] = 0
count_marked m (x ∷ xs) = if m x then suc (count_marked m xs) else count_marked m xs

abbrev pub or_else : Option ℕ → Option ℕ → Option ℕ
or_else none q = q
or_else (some a) q = some a

-- The last marked node.
abbrev pub top_marked : (ℕ → Bool) → List ℕ → Option ℕ
top_marked m [] = none
top_marked m (x ∷ xs) = or_else (top_marked m xs) (if m x then some x else none)

pub top-append :
    (m : ℕ → Bool) (xs ys : List ℕ)
    → top_marked m (xs ++ ys) ≡ or_else (top_marked m ys) (top_marked m xs)
top-append m [] ys = ground arith
top-append m (x ∷ xs) ys = ground (arith, top-append m xs ys)

pub count-append :
    (m : ℕ → Bool) (xs ys : List ℕ)
    → count_marked m (xs ++ ys) ≡ count_marked m xs + count_marked m ys
count-append m [] ys = omega arith
count-append m (x ∷ xs) ys = ground (arith, count-append m xs ys)

pub top-update :
    (m : ℕ → Bool) (n : ℕ) (b : Bool) (xs : List ℕ)
    → NotIn n xs
    → top_marked (update m n b) xs ≡ top_marked m xs
top-update m n b [] h = refl
top-update m n b (x ∷ xs) h = ground (arith, h.0, top-update m n b xs h.1)

pub count-update :
    (m : ℕ → Bool) (n : ℕ) (b : Bool) (xs : List ℕ)
    → NotIn n xs
    → count_marked (update m n b) xs ≡ count_marked m xs
count-update m n b [] h = refl
count-update m n b (x ∷ xs) h = ground (arith, h.0, count-update m n b xs h.1)

-- What holds of all nodes holds of the last marked one.
pub top-All :
    (P : ℕ → Type 0) (m : ℕ → Bool) (xs : List ℕ) (a : ℕ)
    → top_marked m xs ≡ some a
    → All P xs
    → P a × (m a ≡ true)
top-All P m [] a e h = cc
top-All P m (x ∷ xs) a e h = elim (Option-cases (top_marked m xs)) [
  | inl p ↦ elim (Bool-cases (m x)) [
    | inl q ↦
        let same : x ≡ a = ground (arith, p, q) in
        (subst P same h.0, subst (λ z. m z ≡ true) same q)
    | inr q ↦ cc (rw (p, q) at e)
  ]
  | inr (b, p) ↦ top-All P m xs a (p ∙ ground (arith, p)) h.1
]

pub top-marked : (m : ℕ → Bool) (xs : List ℕ) (a : ℕ) → top_marked m xs ≡ some a → m a ≡ true
top-marked m xs a e = (top-All (λ x. Unit) m xs a e (every xs)).1
  where
    every : (xs : List ℕ) → All {0, 0} (λ x. Unit) xs
    every [] = tt
    every (x ∷ xs) = (tt, every xs)

-- Without marked nodes there is no last one, and the other way round.
pub top-none : (m : ℕ → Bool) (xs : List ℕ) → count_marked m xs ≡ 0 → top_marked m xs ≡ none
top-none m [] h = refl
top-none m (x ∷ xs) h = ground (arith, top-none m xs)

-- From the last node of a list the walk finds the last marked one, given as many rounds as nodes.
pub walk-top :
    (fuel : ℕ) (h : Nodes) (xs : List ℕ)
    → length xs ≤ fuel
    → Prevs h none xs
    → walk fuel h (last? xs) ≡ top_marked h.marked xs
unfolding walk
walk-top zero h [] f c = refl
walk-top zero h (x ∷ xs) f c = absurd (omega arith)
walk-top (suc fuel) h xs f c = elim (snoc-cases xs) [
  | inl e ↦ subst (λ l. walk (suc fuel) h (last? l) ≡ top_marked h.marked l) (sym e) refl
  | inr (zs, z, e) ↦
      subst (λ l. walk (suc fuel) h (last? l) ≡ top_marked h.marked l) (sym e)
        (rw (last?-snoc zs z, top-append h.marked zs (z ∷ []))
          (ground (
            arith,
            (Prevs-split h none zs z [] (subst (Prevs h none) e c)).0,
            last_or-none zs,
            walk-top fuel h zs (omega (arith, length-append {0} zs (z ∷ []), ap length e))
                (Prevs-split h none zs z [] (subst (Prevs h none) e c)).1,
          )))
]
