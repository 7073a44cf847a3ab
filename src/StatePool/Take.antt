-- ===== src/StatePool/Take.antt =====
-- `gomp_get_task_state`: where the state comes from, and what is left in the two lists.
use ulmt_open_mp_gcc.Base.{
  ℕ, suc, ◌+◌, ◌-◌, ◌%◌, ◌<◌, ◌≡◌, refl, sym, ap, subst, ◌∙◌, none, some, if◌then◌else◌, update,
  arith, List, [], ◌∷◌, ◌++◌, length, take, drop, length-take, length-drop, length-append,
  take-append-drop, NotIn-left, NotIn-right, Distinct, Distinct-out, Distinct-append, Disjoint,
  Disjoint-symm, ==_refl, All-map, Bool-cases, inl, inr,
}
use ulmt_open_mp_gcc.StatePool.{
  State, Links, Group, StateList, unsigned, add, sub, num_add_state, set_next, walk, list_alloc,
  pop, goes_on, from_global, from_memory, get_task_state,
}
use ulmt_open_mp_gcc.StatePool.Linked.{
  IsLinked, IsLinked-frame, IsLinked-behind, IsLinked-relink, IsLinked-same, Holds,
}
use ulmt_open_mp_gcc.StatePool.Walk.{
  walk-Walked, block, block-Distinct, length-block, list_alloc-other, list_alloc-IsLinked,
}

-- What the thread takes its state from, the rest of which it keeps, and what stays in the global list.
abbrev pub stock : List ℕ → List ℕ → List ℕ → ℕ → ℕ → List ℕ × List ℕ
stock [] [] reads ptr full_size = (block ptr full_size num_add_state, [])
stock [] (g ∷ gs) reads ptr full_size =
    if goes_on reads
    then (take num_add_state (g ∷ gs), drop num_add_state (g ∷ gs))
    else (block ptr full_size num_add_state, g ∷ gs)
stock (x ∷ xs) gs reads ptr full_size = (x ∷ xs, gs)

-- The first state is given away.
pop-Holds :
    (m : Links) (pool : Group) (local : StateList) (state size : ℕ) (xs gs : List ℕ)
    → IsLinked m.next (m.next state) xs
    → IsLinked m.next pool.global_list.list gs
    → size ≡ length xs % unsigned
    → pool.global_list.list_size ≡ length gs % unsigned
    → Distinct (state ∷ (xs ++ gs))
    → let (s, (m', local')) = pop m state local size in
      Holds m' pool local' xs gs × (m'.next s ≡ none)
pop-Holds m pool local state size xs gs h k e f d = (
  record {
    local_list = IsLinked-frame m.next state none (m.next state) xs (NotIn-left state xs gs d.0) h;
    local_size = e;
    global_list =
        IsLinked-frame m.next state none pool.global_list.list gs (NotIn-right state xs gs d.0) k;
    global_size = f;
    distinct = d.1;
  },
  ground (arith, ==_refl state),
)

-- A call gives the first of `ys` away and keeps the others, with `gs` in the global list.
abbrev pub Served : ℕ × State → List ℕ → List ℕ → Type 0
Served (s, (m, pool, local)) ys gs =
    (xs : List ℕ) × (ys ≡ s ∷ xs) × (Holds m pool local xs gs × (m.next s ≡ none))

from_global-Served :
    (m : Links) (pool : Group) (local : StateList) (g : ℕ) (gs : List ℕ)
    → Holds m pool local [] (g ∷ gs)
    → Served
        (from_global m pool local g)
        (take num_add_state (g ∷ gs))
        (drop num_add_state (g ∷ gs))
unfolding from_global
from_global-Served m pool local g gs v =
    let w = walk-Walked m.next 63 g gs v.global_list.1 in
    let (last, count) = walk m.next 63 g in
    let vs = drop 64 (g ∷ gs) in
    let m₁ = set_next m last none in
    let d : Distinct (w.before ++ last ∷ vs) = subst Distinct (sym w.split) v.distinct in
    let out = (Distinct-out last w.before vs d).1 in
    let linked : IsLinked m.next pool.global_list.list (w.before ++ last ∷ vs) =
      subst (IsLinked m.next pool.global_list.list) (sym w.split) v.global_list in
    let cut : IsLinked m₁.next pool.global_list.list (g ∷ take 63 gs) =
      subst (IsLinked m₁.next pool.global_list.list) w.taken (
        IsLinked-relink m.next pool.global_list.list none w.before last vs []
          (NotIn-left last w.before vs out) linked refl) in
    let left : IsLinked m₁.next (m.next last) vs =
      IsLinked-frame m.next last none (m.next last) vs (NotIn-right last w.before vs out)
        (IsLinked-behind m.next pool.global_list.list w.before last vs linked) in
    let size : length w.before + 1 ≡ suc (length (take 63 gs)) =
      sym (length-append w.before (last ∷ [])) ∙ ap length w.taken in
    let whole : suc (length gs) ≡ suc (length (take 63 gs)) + length vs =
      omega (arith, length-take 63 gs, length-drop 63 gs) in
    let pool' = record pool {
      global_list = record (pool.global_list) {
        list = m.next last;
        list_size = sub pool.global_list.list_size (64 - count);
      };
    } in
    (
      take 63 gs,
      refl,
      pop-Holds m₁ pool' local g (add local.list_size (64 - count - 1)) (take 63 gs) vs cut.1 left
          (omega (arith, v.local_size, w.counted, size))
          (omega (arith, v.global_size, w.counted, size, whole))
          (subst Distinct (ap (λ z. g ∷ z) (sym (take-append-drop 63 gs))) v.distinct),
    )

from_memory-Served :
    (m : Links) (pool : Group) (local : StateList) (gs : List ℕ) (ptr full_size : ℕ)
    → 0 < full_size
    → Disjoint (block ptr full_size num_add_state) gs
    → Holds m pool local [] gs
    → Served (from_memory m pool local ptr full_size) (block ptr full_size num_add_state) gs
unfolding from_memory
from_memory-Served m pool local gs ptr full_size h f v =
    let m₁ = list_alloc m ptr full_size 64 in
    let m₂ = record m₁ { next_to_free = update m₁.next_to_free ptr local.list_to_free } in
    let rest = block (ptr + full_size) full_size 63 in
    let fresh = Disjoint-symm (block ptr full_size 64) gs f in
    let pool' = record pool { allocated_tasks = add pool.allocated_tasks num_add_state } in
    (
      rest,
      refl,
      pop-Holds m₂ pool' (record local { list_to_free = some ptr }) ptr 63 rest gs
          (list_alloc-IsLinked 64 m ptr full_size h).1
          (IsLinked-same m.next m₁.next pool.global_list.list gs
            (All-map (λ x n. list_alloc-other 64 m ptr full_size x n) gs fresh) v.global_list)
          (omega (arith, length-block (ptr + full_size) full_size 63)) v.global_size
          (Distinct-append (block ptr full_size 64) gs (block-Distinct ptr full_size 64 h)
            v.distinct f),
    )

-- `gomp_get_task_state` gives the first state of the thread's list. When this list is empty, it gets the
-- first 64 of the global one, if there are any and the attempts to lock go on, or a new block; the
-- others of them become the thread's list. No state is lost or in two places, and the sizes count the
-- lists.
pub get_task_state-Served :
    (m : Links) (pool : Group) (local : StateList) (xs gs reads : List ℕ) (ptr full_size : ℕ)
    → 0 < full_size
    → Disjoint (block ptr full_size num_add_state) gs
    → Holds m pool local xs gs
    → let (ys, gs') = stock xs gs reads ptr full_size in
      Served (get_task_state m pool local reads ptr full_size) ys gs'
unfolding get_task_state
get_task_state-Served m pool local (x ∷ xs) gs reads ptr full_size h f v = rw v.local_list.0 (
  xs,
  refl,
  pop-Holds m pool local x (sub local.list_size 1) xs gs v.local_list.1 v.global_list
      (omega (arith, v.local_size)) v.global_size v.distinct,
)
get_task_state-Served m pool local [] [] reads ptr full_size h f v =
    elim (Bool-cases (goes_on reads)) [
      | inl e ↦
          rw (v.local_list, e, v.global_list)
            (from_memory-Served m pool local [] ptr full_size h f v)
      | inr e ↦ rw (v.local_list, e) (from_memory-Served m pool local [] ptr full_size h f v)
    ]
get_task_state-Served m pool local [] (g ∷ gs) reads ptr full_size h f v =
    elim (Bool-cases (goes_on reads)) [
      | inl e ↦ rw (v.local_list, e, v.global_list.0) (from_global-Served m pool local g gs v)
      | inr e ↦ rw (v.local_list, e) (from_memory-Served m pool local (g ∷ gs) ptr full_size h f v)
    ]
