-- ===== src/PriorityList/Blocked.antt =====
-- `priority_list_insert` of a blocked task: the same in a list of either kind.
use ulmt_open_mp_gcc.Base.{
  ℕ, ◌≡◌, List, [], ◌∷◌, ◌++◌, refl, subst, some, arith, NotIn, NotIn-right, Distinct,
  Distinct-right,
}
use ulmt_open_mp_gcc.Ring.{Mem, link_single, link_before}
use ulmt_open_mp_gcc.Ring.Seg.{Heads}
use ulmt_open_mp_gcc.PriorityList.{State, PriorityList, insert_blocked}
use ulmt_open_mp_gcc.PriorityList.Place.{place_single, Placed-blocked, place_end}

-- The blocked tasks get the node at their end, in a list of either kind.
pub record Blocked (m' : Mem) (l l' : PriorityList) (xs bs : List ℕ) : Type 0 where
  pub tasks_ring : Heads m' l'.tasks xs
  pub blocked_ring : Heads m' l'.blocked_tasks bs
  pub distinct : Distinct (xs ++ bs)
  pub same_last : l'.last_parent_depends_on ≡ l.last_parent_depends_on
  pub same_first : l'.first_running_task ≡ l.first_running_task

pub blocked_lem :
    (m : Mem) (l : PriorityList) (n : ℕ) (xs bs : List ℕ)
    → Heads m l.tasks xs
    → Heads m l.blocked_tasks bs
    → Distinct (xs ++ bs)
    → NotIn n (xs ++ bs)
    → let (m', l') = insert_blocked m l n in Blocked m' l l' xs (bs ++ n ∷ [])
unfolding insert_blocked
blocked_lem m l n xs [] h k d f =
    let (a, b, c) = Placed-blocked xs [] n l.tasks h d f (place_single m n) in
    subst {A = State} (λ s. Blocked s.0 l s.1 xs (n ∷ []))
      {x = (link_single m n, record l { blocked_tasks = some n })} (ground (arith, k))
      (record {
        tasks_ring = a;
        blocked_ring = b;
        distinct = c;
        same_last = refl;
        same_first = refl;
      })
blocked_lem m l n xs (q ∷ ys) h k d f =
    let (a, b, c) = Placed-blocked xs (q ∷ ys) n l.tasks h d f (
      place_end m n l.blocked_tasks q ys k (Distinct-right xs (q ∷ ys) d)
        (NotIn-right n xs (q ∷ ys) f)) in
    subst {A = State} (λ s. Blocked s.0 l s.1 xs (q ∷ ys ++ n ∷ [])) {x = (link_before m q n, l)}
      (ground (arith, k.0))
      (record {
        tasks_ring = a;
        blocked_ring = b;
        distinct = c;
        same_last = refl;
        same_first = refl;
      })
