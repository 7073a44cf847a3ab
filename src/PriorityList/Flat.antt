-- ===== src/PriorityList/Flat.antt =====
-- `priority_list_insert` and `priority_list_remove` on a flat queue, and removal of blocked tasks.
use ulmt_open_mp_gcc.Base.{
  ℕ, ◌≡◌, List, [], ◌∷◌, ◌++◌, append-nil, sym, refl, subst, ◌∙◌, some, arith, Bool, true, false,
  if◌then◌else◌, NotIn, NotIn-left, Distinct-left, Distinct-swap, without,
}
use ulmt_open_mp_gcc.Ring.{Mem, link_single, link_before}
use ulmt_open_mp_gcc.PriorityList.{
  State, PriorityList, QueueType, is_flat, InsertType, insert_begin, insert_end, insert,
  insert_blocked, insert_flat, remove, remove_blocked, remove_flat,
}
use ulmt_open_mp_gcc.PriorityList.View.{FlatRepresents}
use ulmt_open_mp_gcc.PriorityList.Blocked.{blocked_lem}
use ulmt_open_mp_gcc.PriorityList.Place.{Placed, Placed-rest, place_single, place_front, place_end}
use ulmt_open_mp_gcc.PriorityList.Cycle.{cycle_mem, cycle_head, cycle_lem}

-- What an insertion and a removal are to do to the tasks of a flat list.
abbrev pub insert_list : List ℕ → ℕ → InsertType → List ℕ
insert_list xs n insert_begin = n ∷ xs
insert_list xs n insert_end = xs ++ n ∷ []

abbrev FlatHolds : State → List ℕ → List ℕ → Type 0
FlatHolds s xs bs = FlatRepresents s.0 s.1 xs bs

module _ (m : Mem) (l : PriorityList) (n : ℕ) where
  flat_by :
      {s s' : State} {xs bs : List ℕ} → s ≡ s' → FlatRepresents s'.0 s'.1 xs bs → FlatHolds s xs bs
  flat_by {xs = xs} {bs = bs} e h = subst (λ s. FlatRepresents s.0 s.1 xs bs) (sym e) h

  Placed-flat :
      {m' : Mem} {l' : PriorityList} (us cs bs : List ℕ)
      → FlatRepresents m l (us ++ cs) bs
      → NotIn n ((us ++ cs) ++ bs)
      → Placed m m' l'.tasks us n cs
      → l'.blocked_tasks ≡ l.blocked_tasks
      → FlatRepresents m' l' (us ++ n ∷ cs) bs
  Placed-flat us cs bs r f p e =
      let (a, b) = Placed-rest us n cs bs l.blocked_tasks r.distinct f p r.blocked_ring in
      record { tasks_ring = p.ring; blocked_ring = rw e a; distinct = b }

  flat_insert :
      (pos : InsertType) (xs bs : List ℕ)
      → FlatRepresents m l xs bs
      → NotIn n (xs ++ bs)
      → FlatHolds (insert_flat m l n pos) (insert_list xs n pos) bs
  unfolding insert_flat
  flat_insert insert_begin [] bs r f =
      flat_by {s' = (link_single m n, record l { tasks = some n })} (ground (arith, r.tasks_ring))
        (Placed-flat [] [] bs r f (place_single m n) refl)
  flat_insert insert_end [] bs r f =
      flat_by {s' = (link_single m n, record l { tasks = some n })} (ground (arith, r.tasks_ring))
        (Placed-flat [] [] bs r f (place_single m n) refl)
  flat_insert insert_begin (q ∷ ys) bs r f =
      flat_by {s' = (link_before m q n, record l { tasks = some n })}
        (ground (arith, r.tasks_ring.0))
        (Placed-flat [] (q ∷ ys) bs r f
          (place_front m n l.tasks q ys r.tasks_ring (Distinct-left (q ∷ ys) bs r.distinct)
            (NotIn-left n (q ∷ ys) bs f))
          refl)
  flat_insert insert_end (q ∷ ys) bs r f =
      flat_by {s' = (link_before m q n, l)} (ground (arith, r.tasks_ring.0)) (
        Placed-flat (q ∷ ys) [] bs
          (subst (λ c. FlatRepresents m l c bs) (sym (append-nil (q ∷ ys))) r)
          (subst (λ c. NotIn n (c ++ bs)) (sym (append-nil (q ∷ ys))) f)
          (place_end m n l.tasks q ys r.tasks_ring (Distinct-left (q ∷ ys) bs r.distinct)
            (NotIn-left n (q ∷ ys) bs f))
          refl)

-- `priority_list_insert` into a team, suspended or locked queue: the node joins the blocked tasks at
-- their end, or the tasks at the asked end, and nothing else changes.
pub insert-FlatRepresents :
    {m : Mem} {l : PriorityList} {xs bs : List ℕ} (type : QueueType) (n : ℕ) (pos : InsertType)
    (depends blocked : Bool)
    → is_flat type ≡ true
    → FlatRepresents m l xs bs
    → NotIn n (xs ++ bs)
    → let (m', l') = insert type m l n pos depends blocked in
      FlatRepresents m' l'
        (if blocked then xs else insert_list xs n pos)
        (if blocked then bs ++ n ∷ [] else bs)
unfolding insert
insert-FlatRepresents {m} {l} {xs} {bs} type n pos depends true k r f =
    let b = blocked_lem m l n xs bs r.tasks_ring r.blocked_ring r.distinct f in
    flat_by m l n {s' = insert_blocked m l n} (ground (arith, k))
      (record { tasks_ring = b.tasks_ring; blocked_ring = b.blocked_ring; distinct = b.distinct })
insert-FlatRepresents {m} {l} {xs} {bs} type n pos depends false k r f =
    flat_by m l n (ground (arith, k)) (flat_insert m l n pos xs bs r f)

-- `remove_flat` and `remove_blocked` are deletion from a cycle.
remove_flat-cycle :
    (m : Mem) (l : PriorityList) (n : ℕ)
    → (remove_flat m l n).1 ≡ (cycle_mem m l.tasks n, record l { tasks = cycle_head m l.tasks n })
unfolding remove_flat
remove_flat-cycle m l n = ground arith

remove_blocked-cycle :
    (m : Mem) (l : PriorityList) (n : ℕ)
    → (remove_blocked m l n).1
      ≡ (cycle_mem m l.blocked_tasks n, record l { blocked_tasks = cycle_head m l.blocked_tasks n })
unfolding remove_blocked
remove_blocked-cycle m l n = ground arith

blocked_out :
    (m : Mem) (l : PriorityList) (n : ℕ) (xs bs : List ℕ)
    → FlatRepresents m l xs bs
    → ¬ NotIn n bs
    → let (e, (m', l')) = remove_blocked m l n in FlatRepresents m' l' xs (without n bs)
blocked_out m l n xs bs r f = flat_by m l n (remove_blocked-cycle m l n) (
    let (a, b, c) =
      cycle_lem m l.blocked_tasks l.tasks n bs xs r.blocked_ring r.tasks_ring
        (Distinct-swap xs bs r.distinct) f in
    record { tasks_ring = b; blocked_ring = a; distinct = Distinct-swap (without n bs) xs c })

-- `priority_list_remove` from a flat queue: the node goes from the side that `blocked` names, and
-- nothing else changes.
pub remove-FlatRepresents :
    {m : Mem} {l : PriorityList} {xs bs : List ℕ} (type : QueueType) (n : ℕ) (blocked : Bool)
    → is_flat type ≡ true
    → FlatRepresents m l xs bs
    → ¬ NotIn n (if blocked then bs else xs)
    → let (empty, (m', l')) = remove type m l n blocked in
      FlatRepresents m' l'
        (if blocked then xs else without n xs)
        (if blocked then without n bs else bs)
unfolding remove
remove-FlatRepresents {m} {l} {xs} {bs} type n true k r f = blocked_out m l n xs bs r f
remove-FlatRepresents {m} {l} {xs} {bs} type n false k r f =
    flat_by m l n (flat_route ∙ remove_flat-cycle m l n) (
      let (a, b, c) =
        cycle_lem m l.tasks l.blocked_tasks n xs bs r.tasks_ring r.blocked_ring r.distinct f in
      record { tasks_ring = a; blocked_ring = b; distinct = c })
  where
    flat_route : (remove type m l n false).1 ≡ (remove_flat m l n).1
    flat_route = ground (arith, k)
