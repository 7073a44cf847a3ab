-- ===== src/NextTask/Tree.antt =====
-- The task chosen in a tree is the one of the highest priority among the waiting tasks that are first
-- in their lists.
use ulmt_open_mp_gcc.Base.{
  ℕ, ◌≡◌, refl, sym, ap, ap₂, subst, ◌∙◌, false, Option, none, some, arith, List, [], ◌∷◌, ◌++◌,
  inl, inr, All, All-map, All-append, last?, last_of, last?-snoc, snoc-cases, Option-cases,
}
use ulmt_open_mp_gcc.Base.Int.{ℤ, ◌<ℤ◌, ltb_ℤ}
use ulmt_open_mp_gcc.PriorityList.{PriorityList}
use ulmt_open_mp_gcc.Splay
use ulmt_open_mp_gcc.Splay.{leaf, node, inorder}
use ulmt_open_mp_gcc.Splay.Inorder.{IsSorted, IsSorted-below}
use ulmt_open_mp_gcc.PriorityQueue.{Tasks}
use ulmt_open_mp_gcc.NextTask.{first_waiting, or_else, tree_next, tree_next_suspended}

-- `n` is in the list, and none in it has a higher priority.
abbrev pub IsTop : Tasks → List ℕ → ℕ → Type 0
IsTop tasks xs n =
    (us : List ℕ) × (vs : List ℕ) × (xs ≡ us ++ n ∷ vs)
    × All (λ m. ltb_ℤ (tasks n).priority (tasks m).priority ≡ false) xs

-- The choice of a task of the highest priority, where there is any.
abbrev pub Best : Tasks → List ℕ → Option ℕ → Type 0
Best tasks xs none = xs ≡ []
Best tasks xs (some n) = IsTop tasks xs n

abbrev pub prepend : Option ℕ → List ℕ → List ℕ
prepend none xs = xs
prepend (some n) xs = n ∷ xs

-- The tasks that the lists of these nodes offer.
abbrev pub offered : (ℕ → Option ℕ) → List ℕ → List ℕ
offered first [] = []
offered first (a ∷ xs) = prepend (first a) (offered first xs)

prepend-append : (o : Option ℕ) (xs ys : List ℕ) → prepend o (xs ++ ys) ≡ prepend o xs ++ ys
prepend-append none xs ys = refl
prepend-append (some n) xs ys = refl

offered-append :
    (first : ℕ → Option ℕ) (xs ys : List ℕ)
    → offered first (xs ++ ys) ≡ offered first xs ++ offered first ys
offered-append first [] ys = refl
offered-append first (x ∷ xs) ys =
    ap (prepend (first x)) (offered-append first xs ys)
    ∙ prepend-append (first x) (offered first xs) (offered first ys)

last_of-append :
    (x : ℕ) (xs ys : List ℕ)
    → some (last_of x (xs ++ ys)) ≡ or_else (last? ys) (some (last_of x xs))
last_of-append x [] [] = refl
last_of-append x [] (y ∷ ys) = refl
last_of-append x (z ∷ xs) ys = last_of-append z xs ys

last?-append : (xs ys : List ℕ) → last? (xs ++ ys) ≡ or_else (last? ys) (last? xs)
last?-append [] [] = refl
last?-append [] (y ∷ ys) = refl
last?-append (x ∷ xs) ys = last_of-append x xs ys

last?-prepend : (o : Option ℕ) (xs : List ℕ) → last? (prepend o xs) ≡ or_else (last? xs) o
last?-prepend none [] = refl
last?-prepend none (x ∷ xs) = refl
last?-prepend (some n) [] = refl
last?-prepend (some n) (x ∷ xs) = refl

or_else_assoc : (a b c : Option ℕ) → or_else (or_else a b) c ≡ or_else a (or_else b c)
or_else_assoc none b c = refl
or_else_assoc (some x) b c = refl

-- A walk from the right gives the last offer.
last-offered :
    (first : ℕ → Option ℕ) (xs ys : List ℕ) (a : ℕ)
    → last? (offered first (xs ++ a ∷ ys))
      ≡ or_else (last? (offered first ys)) (or_else (first a) (last? (offered first xs)))
last-offered first xs ys a =
    ap last? (offered-append first xs (a ∷ ys))
    ∙ last?-append (offered first xs) (offered first (a ∷ ys))
    ∙ ap (λ o. or_else o (last? (offered first xs))) (last?-prepend (first a) (offered first ys))
    ∙ or_else_assoc (last? (offered first ys)) (first a) (last? (offered first xs))

pub tree_next-last :
    (tasks : Tasks) (lists : ℕ → PriorityList) (t : Splay.Tree ℕ)
    → tree_next tasks lists t ≡ last? (offered (λ a. first_waiting tasks (lists a)) (inorder t))
unfolding tree_next
tree_next-last tasks lists leaf = refl
tree_next-last tasks lists (node l a r) =
    ap₂ (λ x y. or_else x (or_else (first_waiting tasks (lists a)) y))
      (tree_next-last tasks lists r) (tree_next-last tasks lists l)
    ∙ sym (last-offered (λ a. first_waiting tasks (lists a)) (inorder l) (inorder r) a)

pub tree_next_suspended-last :
    (lists : ℕ → PriorityList) (t : Splay.Tree ℕ)
    → tree_next_suspended lists t ≡ last? (offered (λ a. (lists a).tasks) (inorder t))
unfolding tree_next_suspended
tree_next_suspended-last lists leaf = refl
tree_next_suspended-last lists (node l a r) =
    ap₂ (λ x y. or_else x (or_else (lists a).tasks y)) (tree_next_suspended-last lists r)
      (tree_next_suspended-last lists l)
    ∙ sym (last-offered (λ a. (lists a).tasks) (inorder l) (inorder r) a)

-- A task that a node offers has the priority of the node's list.
abbrev pub Filed : Tasks → (ℕ → ℤ) → (ℕ → Option ℕ) → ℕ → Type 0
Filed tasks key first a = (n : ℕ) → first a ≡ some n → (tasks n).priority ≡ key a

module _ (tasks : Tasks) (key : ℕ → ℤ) (first : ℕ → Option ℕ) where
  offered-above :
      (p : ℤ) (xs : List ℕ)
      → All (λ a. p <ℤ key a) xs
      → All (Filed tasks key first) xs
      → All (λ n. p <ℤ (tasks n).priority) (offered first xs)
  offered-above p [] h f = tt
  offered-above p (x ∷ xs) h f = elim (Option-cases (first x)) [
    | inl e ↦ rw e (offered-above p xs h.1 f.1)
    | inr (n, e) ↦ rw e (subst (λ z. p <ℤ z) (sym (f.0 n e)) h.0, offered-above p xs h.1 f.1)
  ]

  offered-IsSorted :
      (xs : List ℕ)
      → IsSorted key xs
      → All (Filed tasks key first) xs
      → IsSorted (λ n. (tasks n).priority) (offered first xs)
  offered-IsSorted [] s f = tt
  offered-IsSorted (x ∷ xs) s f = elim (Option-cases (first x)) [
    | inl e ↦ rw e (offered-IsSorted xs s.1 f.1)
    | inr (n, e) ↦
        let above = offered-above (key x) xs s.0 f.1 in
        rw e (
          subst (λ z. All (λ m. z <ℤ (tasks m).priority) (offered first xs)) (sym (f.0 n e)) above,
          offered-IsSorted xs s.1 f.1,
        )
  ]

  last-Best : (xs : List ℕ) → IsSorted (λ n. (tasks n).priority) xs → Best tasks xs (last? xs)
  last-Best xs s = elim (snoc-cases xs) [
    | inl e ↦ rw e refl
    | inr (zs, z, e) ↦
        let below =
          IsSorted-below (λ n. (tasks n).priority) zs z []
            (subst (IsSorted (λ n. (tasks n).priority)) e s) in
        subst (Best tasks xs) (sym (ap last? e ∙ last?-snoc zs z)) (
          zs,
          [],
          e,
          subst (All (λ m. ltb_ℤ (tasks z).priority (tasks m).priority ≡ false)) (sym e) (
              All-append _ zs (z ∷ []) (All-map (λ m h. ground arith) zs below) (ground arith, tt)),
        )
  ]

  pub last-offered-Best :
      (xs : List ℕ)
      → IsSorted key xs
      → All (Filed tasks key first) xs
      → Best tasks (offered first xs) (last? (offered first xs))
  last-offered-Best xs s f = last-Best (offered first xs) (offered-IsSorted xs s f)

-- In a sorted tree whose lists offer tasks of their own priority, `priority_tree_next_task_1` gives a
-- task of the highest priority among the waiting tasks that are first in their lists, and NULL only
-- if there is none.
pub tree_next-Best :
    (tasks : Tasks) (lists : ℕ → PriorityList) (key : ℕ → ℤ) (t : Splay.Tree ℕ)
    → IsSorted key (inorder t)
    → All (Filed tasks key (λ a. first_waiting tasks (lists a))) (inorder t)
    → Best tasks
        (offered (λ a. first_waiting tasks (lists a)) (inorder t))
        (tree_next tasks lists t)
tree_next-Best tasks lists key t s f =
    let first : ℕ → Option ℕ = λ a. first_waiting tasks (lists a) in
    subst (Best tasks (offered first (inorder t))) (sym (tree_next-last tasks lists t))
      (last-offered-Best tasks key first (inorder t) s f)
