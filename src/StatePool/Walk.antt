-- ===== src/StatePool/Walk.antt =====
-- The walk along a list, and the states that are allocated as one.
use ulmt_open_mp_gcc.Base.{
  ℕ, zero, suc, ◌+◌, ◌<◌, ◌≡◌, refl, sym, ap, subst, ◌∙◌, Option, none, some, if◌then◌else◌, ◌==◌,
  arith, List, [], ◌∷◌, ◌++◌, length, take, drop, NotIn, Distinct, ==_refl,
}
use ulmt_open_mp_gcc.StatePool.{Links, walk, init_state, list_alloc}
use ulmt_open_mp_gcc.StatePool.Linked.{IsLinked}

-- The walk from the first of `xs` over `count` more: `us` are before its end.
pub record Walked (next : ℕ → Option ℕ) (count : ℕ) (xs : List ℕ) (r : ℕ × ℕ) : Type 0 where
  pub before : List ℕ
  pub taken : before ++ r.0 ∷ [] ≡ take (suc count) xs
  pub split : before ++ r.0 ∷ drop (suc count) xs ≡ xs
  pub counted : r.1 + length before ≡ count

pub walk-Walked :
    (next : ℕ → Option ℕ) (count state : ℕ) (xs : List ℕ)
    → IsLinked next (next state) xs
    → Walked next count (state ∷ xs) (walk next count state)
unfolding walk
walk-Walked next zero state xs h = record {
  before = [];
  taken = refl;
  split = refl;
  counted = refl;
}
walk-Walked next (suc count) state [] h =
    rw (h, walk) (record { before = []; taken = refl; split = refl; counted = omega arith })
walk-Walked next (suc count) state (x ∷ xs) (e, h) =
    let w = walk-Walked next count x xs h in
    rw (e, walk)
      (record {
        before = state ∷ w.before;
        taken = ap (λ z. state ∷ z) w.taken;
        split = ap (λ z. state ∷ z) w.split;
        counted = omega (arith, w.counted);
      })

-- The addresses of the states of a block.
abbrev pub block : ℕ → ℕ → ℕ → List ℕ
block ptr full_size zero = []
block ptr full_size (suc num) = ptr ∷ block (ptr + full_size) full_size num

block-above : (ptr full_size num a : ℕ) → a < ptr → NotIn a (block ptr full_size num)
block-above ptr full_size zero a h = tt
block-above ptr full_size (suc num) a h =
    ((λ e. omega (arith, h, e)), block-above (ptr + full_size) full_size num a (omega (arith, h)))

pub block-Distinct : (ptr full_size num : ℕ) → 0 < full_size → Distinct (block ptr full_size num)
block-Distinct ptr full_size zero h = tt
block-Distinct ptr full_size (suc num) h = (
  block-above (ptr + full_size) full_size num ptr (omega (arith, h)),
  block-Distinct (ptr + full_size) full_size num h,
)

pub length-block : (ptr full_size num : ℕ) → length (block ptr full_size num) ≡ num
length-block ptr full_size zero = refl
length-block ptr full_size (suc num) = ap suc (length-block (ptr + full_size) full_size num)

-- The allocation leaves all other states alone.
pub list_alloc-other :
    (num : ℕ) (m : Links) (ptr full_size a : ℕ)
    → NotIn a (block ptr full_size num)
    → (list_alloc m ptr full_size num).next a ≡ m.next a
unfolding list_alloc
list_alloc-other zero m ptr full_size a f = refl
list_alloc-other (suc num) m ptr full_size a f =
    list_alloc-other num (init_state m ptr full_size num) (ptr + full_size) full_size a f.1
    ∙ ground (arith, f.0)

abbrev first_of : ℕ → ℕ → Option ℕ
first_of ptr num = if num == 0 then none else some ptr

pub list_alloc-IsLinked :
    (num : ℕ) (m : Links) (ptr full_size : ℕ)
    → 0 < full_size
    → IsLinked (list_alloc m ptr full_size num).next (first_of ptr num) (block ptr full_size num)
unfolding list_alloc
list_alloc-IsLinked zero m ptr full_size h = refl
list_alloc-IsLinked (suc num) m ptr full_size h =
    let m' = init_state m ptr full_size num in
    let behind =
      list_alloc-other num m' (ptr + full_size) full_size ptr
        (block-above (ptr + full_size) full_size num ptr (omega (arith, h))) in
    let here : (list_alloc m' (ptr + full_size) full_size num).next ptr
        ≡ first_of (ptr + full_size) num =
      behind ∙ ground (arith, ==_refl ptr) in
    (
      ground arith,
      subst
          (λ q.
            IsLinked (list_alloc m' (ptr + full_size) full_size num).next q
              (block (ptr + full_size) full_size num))
          (sym here) (list_alloc-IsLinked num m' (ptr + full_size) full_size h),
    )
