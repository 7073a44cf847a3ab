-- ===== src/NextTask/Array.antt =====
-- The choice among the candidates of an array.
use ulmt_open_mp_gcc.Base.{
  ℕ, ◌≡◌, refl, ap, subst, subst₂, Bool, true, false, not, ◌&&◌, Option, none, some, arith, List,
  [], ◌∷◌, ◌⊎◌, inl, inr, All, Bool-cases,
}
use ulmt_open_mp_gcc.Base.Int.{ℤ, negsuc}
use ulmt_open_mp_gcc.PriorityQueue.{Task, Tasks}
use ulmt_open_mp_gcc.NextTask.{
  beats, Choice, consider, consider_all, no_choice, get_higher_priority_task,
  get_not_in_taskwait_higher_priority_task,
}

-- An element of the array that is not NULL and is allowed is not above this.
abbrev Covered : Tasks → (ℕ → Bool) → ℤ → Bool → Option ℕ → Type 0
Covered tasks allowed p d none = Unit
Covered tasks allowed p d (some m) = allowed m ≡ true → beats (tasks m) p d ≡ false

-- `x` is an element of the array.
abbrev pub Occurs : ℕ → List (Option ℕ) → Type 0
Occurs n [] = ⊥
Occurs n (x ∷ xs) = (x ≡ some n) ⊎ Occurs n xs

-- What the loop chooses: nothing, where no allowed task has a priority above -1, or an allowed task of
-- the array that no other one beats.
abbrev pub Chosen : Tasks → (ℕ → Bool) → List (Option ℕ) → Option ℕ → Type 0
Chosen tasks allowed xs none = All (Covered tasks allowed (negsuc 0) false) xs
Chosen tasks allowed xs (some n) =
    Occurs n xs
    × (allowed n ≡ true)
    × All (Covered tasks allowed (tasks n).priority (tasks n).parent_depends_on) xs

-- What the new choice beats is all that the old one did.
beats_trans :
    (p : ℤ) (d : Bool) (t u : Task)
    → beats t p d ≡ true
    → beats u p d ≡ false
    → beats u t.priority t.parent_depends_on ≡ false
beats_trans p d t u h e = ground (arith, h, e)

beats_irrefl : (t : Task) → beats t t.priority t.parent_depends_on ≡ false
beats_irrefl t = ground arith

-- The loop's variables say what has been chosen, from `seen`.
record Sound (tasks : Tasks) (allowed : ℕ → Bool) (seen : List (Option ℕ)) (c : Choice)
    : Type 0 where
  pub covers : All (Covered tasks allowed c.priority c.depends) seen
  pub initial : c.task ≡ none → (c.priority ≡ negsuc 0) × (c.depends ≡ false)
  pub chosen :
      (n : ℕ)
      → c.task ≡ some n
      → Occurs n seen
        × (allowed n ≡ true)
        × (c.priority ≡ (tasks n).priority)
        × (c.depends ≡ (tasks n).parent_depends_on)

module _ (tasks : Tasks) (allowed : ℕ → Bool) where
  covers_trans :
      (p : ℤ) (d : Bool) (t : Task) (xs : List (Option ℕ))
      → beats t p d ≡ true
      → All (Covered tasks allowed p d) xs
      → All (Covered tasks allowed t.priority t.parent_depends_on) xs
  covers_trans p d t [] h a = tt
  covers_trans p d t (none ∷ xs) h a = (tt, covers_trans p d t xs h a.1)
  covers_trans p d t (some m ∷ xs) h a =
      ((λ e. beats_trans p d t (tasks m) h (a.0 e)), covers_trans p d t xs h a.1)

  later :
      (seen : List (Option ℕ)) (x o : Option ℕ) (p : ℤ) (d : Bool)
      → ((n : ℕ)
          → o ≡ some n
          → Occurs n seen
            × (allowed n ≡ true)
            × (p ≡ (tasks n).priority)
            × (d ≡ (tasks n).parent_depends_on))
      → (n : ℕ) → o ≡ some n
      → Occurs n (x ∷ seen)
        × (allowed n ≡ true)
        × (p ≡ (tasks n).priority)
        × (d ≡ (tasks n).parent_depends_on)
  later seen x o p d f n e = let (i, a, p', d') = f n e in (inr i, a, p', d')

  consider-Sound :
      (seen : List (Option ℕ)) (x : Option ℕ) (c : Choice)
      → Sound tasks allowed seen c
      → Sound tasks allowed (x ∷ seen) (consider tasks allowed c x)
  unfolding consider
  consider-Sound seen none c v = record {
    covers = (tt, v.covers);
    initial = v.initial;
    chosen = later seen none c.task c.priority c.depends v.chosen;
  }
  consider-Sound seen (some m) c v = elim (Bool-cases (allowed m)) [
    | inr e ↦ rw e (record {
      covers = ((λ h. cc), v.covers);
      initial = v.initial;
      chosen = later seen (some m) c.task c.priority c.depends v.chosen;
    })
    | inl e ↦ elim (Bool-cases (beats (tasks m) c.priority c.depends)) [
      | inl b ↦
          rw (e, b)
            (record {
              covers = (
                (λ h. beats_irrefl (tasks m)),
                covers_trans c.priority c.depends (tasks m) seen b v.covers,
              );
              initial = λ h. cc;
              chosen = λ n h.
                  let same : m ≡ n = ground (arith, h) in
                  (
                    inl (ap some same),
                    subst (λ z. allowed z ≡ true) same e,
                    ap (λ z. (tasks z).priority) same,
                    ap (λ z. (tasks z).parent_depends_on) same,
                  );
            })
      | inr b ↦
          rw (e, b)
            (record {
              covers = ((λ h. b), v.covers);
              initial = v.initial;
              chosen = later seen (some m) c.task c.priority c.depends v.chosen;
            })
    ]
  ]

  -- What has been seen when the loop ends.
  abbrev onto : List (Option ℕ) → List (Option ℕ) → List (Option ℕ)
  onto [] seen = seen
  onto (x ∷ xs) seen = onto xs (x ∷ seen)

  consider_all-Sound :
      (xs seen : List (Option ℕ)) (c : Choice)
      → Sound tasks allowed seen c
      → Sound tasks allowed (onto xs seen) (consider_all tasks allowed c xs)
  unfolding consider_all
  consider_all-Sound [] seen c v = v
  consider_all-Sound (x ∷ xs) seen c v =
      consider_all-Sound xs (x ∷ seen) (consider tasks allowed c x) (consider-Sound seen x c v)

  All-onto :
      (P : Option ℕ → Type 0) (xs seen : List (Option ℕ))
      → All P (onto xs seen)
      → All P xs × All P seen
  All-onto P [] seen a = (tt, a)
  All-onto P (x ∷ xs) seen a = let (b, c) = All-onto P xs (x ∷ seen) a in ((c.0, b), c.1)

  Occurs-onto :
      (n : ℕ) (xs seen : List (Option ℕ)) → Occurs n (onto xs seen) → Occurs n xs ⊎ Occurs n seen
  Occurs-onto n [] seen i = inr i
  Occurs-onto n (x ∷ xs) seen i = elim (Occurs-onto n xs (x ∷ seen) i) [
    | inl j ↦ inl (inr j)
    | inr (inl e) ↦ inl (inl e)
    | inr (inr j) ↦ inr j
  ]

  from_array : (n : ℕ) (xs : List (Option ℕ)) → Occurs n (onto xs []) → Occurs n xs
  from_array n xs i = elim (Occurs-onto n xs [] i) [ inl j ↦ j | inr j ↦ absurd j ]

  Sound-Chosen :
      (xs : List (Option ℕ)) (p : ℤ) (d : Bool) (o : Option ℕ)
      → Sound tasks allowed (onto xs []) (record { task = o; priority = p; depends = d })
      → Chosen tasks allowed xs o
  Sound-Chosen xs p d none v =
      let (p', d') = v.initial refl in
      (All-onto (Covered tasks allowed (negsuc 0) false) xs []
        (subst₂ (λ x y. All (Covered tasks allowed x y) (onto xs [])) p' d' v.covers)).0
  Sound-Chosen xs p d (some n) v =
      let (i, a, p', d') = v.chosen n refl in
      (
        from_array n xs i,
        a,
        (All-onto (Covered tasks allowed (tasks n).priority (tasks n).parent_depends_on) xs []
            (subst₂ (λ x y. All (Covered tasks allowed x y) (onto xs [])) p' d' v.covers)).0,
      )

  consider_all-Chosen :
      (xs : List (Option ℕ))
      → Chosen tasks allowed xs (consider_all tasks allowed no_choice xs).task
  consider_all-Chosen xs =
      let c = consider_all tasks allowed no_choice xs in
      Sound-Chosen xs c.priority c.depends c.task (
        consider_all-Sound xs [] no_choice
          (record { covers = tt; initial = λ h. (refl, refl); chosen = λ n h. cc }))

-- `get_higher_priority_task` gives an element of the array that has a function, such that no other
-- such element beats it, and NULL only where none of them beats the priority -1.
pub get_higher_priority_task-Chosen :
    (tasks : Tasks) (has_fn : ℕ → Bool) (next : List (Option ℕ))
    → Chosen tasks has_fn next (get_higher_priority_task tasks has_fn next)
unfolding get_higher_priority_task
get_higher_priority_task-Chosen tasks has_fn next = consider_all-Chosen tasks has_fn next

-- The same of `get_not_in_taskwait_higher_priority_task`, for the elements that have a function and
-- are not in a taskwait.
pub get_not_in_taskwait_higher_priority_task-Chosen :
    (tasks : Tasks) (has_fn in_taskwait : ℕ → Bool) (next : List (Option ℕ))
    → Chosen tasks
        (λ n. has_fn n && not (in_taskwait n))
        next
        (get_not_in_taskwait_higher_priority_task tasks has_fn in_taskwait next)
unfolding get_not_in_taskwait_higher_priority_task
get_not_in_taskwait_higher_priority_task-Chosen tasks has_fn in_taskwait next =
    consider_all-Chosen tasks (λ n. has_fn n && not (in_taskwait n)) next
