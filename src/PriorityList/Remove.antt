-- ===== src/PriorityList/Remove.antt =====
-- `priority_list_remove`: the pointers and the order are kept, for tasks and for blocked tasks.
mod Cases
mod Kinds
use Kinds.{others, depended_lem, waiting_lem, running_lem}
use ulmt_open_mp_gcc.Base.{
  ℕ, ◌≡◌, ◌≢◌, List, [], ◌∷◌, ◌++◌, append-nil, append_assoc, refl, sym, subst, ◌∙◌, ap, Option,
  none, some, last_of, arith, Bool, true, false, if◌then◌else◌, ◌&&◌, is_none, points_to, ◌==◌,
  ==_refl, NotIn, NotIn-left, NotIn-right, NotIn-self, NotIn-append, Distinct, Distinct-out,
  Distinct-swap, Distinct-left, Distinct-right, Distinct-Disjoint, Disjoint, find_split, without,
  without-NotIn, without-append, without-split, List-cases, inl, inr,
}
use ulmt_open_mp_gcc.Ring.{Mem, unlink}
use ulmt_open_mp_gcc.PriorityList.{
  State, PriorityList, QueueType, is_flat, remove, remove_ordered, remove_blocked, remove_flat,
}
use ulmt_open_mp_gcc.PriorityList.View.{View, contents, nodes, Represents, view}
use ulmt_open_mp_gcc.PriorityList.Cycle.{cycle_mem, cycle_head, cycle_lem}
use ulmt_open_mp_gcc.PriorityList.Remove.Cases.{Left}

-- What the removal is to do.
abbrev pub remove_view : View → ℕ → Bool → View
remove_view v n true = record v { blocked = without n v.blocked }
remove_view v n false = record v {
  depended = without n v.depended;
  waiting = without n v.waiting;
  running = without n v.running;
}

-- The tasks among which `task_is_blocked` says the node is.
abbrev pub side : View → Bool → List ℕ
side v true = v.blocked
side v false = contents v

module _ (m : Mem) (l : PriorityList) (n : ℕ) where
  -- A split list without the node that splits it.
  gone : (us cs : List ℕ) → NotIn n (us ++ cs) → without n (us ++ n ∷ cs) ≡ us ++ cs
  gone us cs h = without-split n us cs (NotIn-left n us cs h)

  found_depended :
      (us cs ws rs bs : List ℕ)
      → Represents m l (view (us ++ n ∷ cs) ws rs bs)
      → Left (remove_ordered m l n) (remove_view (view (us ++ n ∷ cs) ws rs bs) n false)
  found_depended us cs ws rs bs r =
      rw
        (
          gone us cs
              (NotIn-append n us cs (NotIn-left n us _ out) (NotIn-left n cs (ws ++ rs) rest)),
          without-NotIn n ws (NotIn-left n ws rs (NotIn-right n cs (ws ++ rs) rest)),
          without-NotIn n rs (NotIn-right n ws rs (NotIn-right n cs (ws ++ rs) rest)),
        )
        (depended_lem m l n us cs ws rs bs r)
    where
      out : NotIn n (us ++ (cs ++ (ws ++ rs)))
      out = others m l n r us (cs ++ (ws ++ rs)) (append_assoc us (n ∷ cs) (ws ++ rs))

      rest : NotIn n (cs ++ (ws ++ rs))
      rest = NotIn-right n us (cs ++ (ws ++ rs)) out

  found_waiting :
      (ds us cs rs bs : List ℕ)
      → Represents m l (view ds (us ++ n ∷ cs) rs bs)
      → Left (remove_ordered m l n) (remove_view (view ds (us ++ n ∷ cs) rs bs) n false)
  found_waiting ds us cs rs bs r =
      rw
        (
          without-NotIn n ds (NotIn-left n ds us before),
          gone us cs (NotIn-append n us cs (NotIn-right n ds us before) (NotIn-left n cs rs after)),
          without-NotIn n rs (NotIn-right n cs rs after),
        )
        (waiting_lem m l n ds us cs rs bs r)
    where
      out : NotIn n ((ds ++ us) ++ (cs ++ rs))
      out = others m l n r (ds ++ us) (cs ++ rs) (simp append_assoc)

      before : NotIn n (ds ++ us)
      before = NotIn-left n (ds ++ us) (cs ++ rs) out

      after : NotIn n (cs ++ rs)
      after = NotIn-right n (ds ++ us) (cs ++ rs) out

  found_running :
      (ds ws us cs bs : List ℕ)
      → Represents m l (view ds ws (us ++ n ∷ cs) bs)
      → Left (remove_ordered m l n) (remove_view (view ds ws (us ++ n ∷ cs) bs) n false)
  found_running ds ws us cs bs r =
      rw
        (
          without-NotIn n ds (NotIn-left n ds (ws ++ us) before),
          without-NotIn n ws (NotIn-left n ws us rest),
          gone us cs (
              NotIn-append n us cs (NotIn-right n ws us rest)
                (NotIn-right n (ds ++ (ws ++ us)) cs out)),
        )
        (running_lem m l n ds ws us cs bs r)
    where
      out : NotIn n ((ds ++ (ws ++ us)) ++ cs)
      out = others m l n r (ds ++ (ws ++ us)) cs (simp append_assoc)

      before : NotIn n (ds ++ (ws ++ us))
      before = NotIn-left n (ds ++ (ws ++ us)) cs out

      rest : NotIn n (ws ++ us)
      rest = NotIn-right n ds (ws ++ us) before

  -- One of the three lists has the node.
  ordered_lem :
      (ds ws rs bs : List ℕ)
      → Represents m l (view ds ws rs bs)
      → ¬ NotIn n (ds ++ (ws ++ rs))
      → Left (remove_ordered m l n) (remove_view (view ds ws rs bs) n false)
  ordered_lem ds ws rs bs r k = elim (find_split n ds) [
    | inr (us, cs, e) ↦
        subst (λ c. Left (remove_ordered m l n) (remove_view (view c ws rs bs) n false)) (sym e)
          (found_depended us cs ws rs bs (subst (λ c. Represents m l (view c ws rs bs)) e r))
    | inl hd ↦ elim (find_split n ws) [
      | inr (us, cs, e) ↦
          subst (λ c. Left (remove_ordered m l n) (remove_view (view ds c rs bs) n false)) (sym e)
            (found_waiting ds us cs rs bs (subst (λ c. Represents m l (view ds c rs bs)) e r))
      | inl hw ↦ elim (find_split n rs) [
        | inr (us, cs, e) ↦
            subst (λ c. Left (remove_ordered m l n) (remove_view (view ds ws c bs) n false)) (sym e)
              (found_running ds ws us cs bs (subst (λ c. Represents m l (view ds ws c bs)) e r))
        | inl hr ↦ absurd (k (NotIn-append n ds (ws ++ rs) hd (NotIn-append n ws rs hw hr)))
      ]
    ]
  ]

-- The blocked tasks are deleted from as from a flat list; no pointer into the tasks is read.
blocked_removed :
    (m : Mem) (l : PriorityList) (n : ℕ) (v : View)
    → Represents m l v
    → ¬ NotIn n v.blocked
    → Left (remove_blocked m l n) (remove_view v n true)
unfolding remove_blocked
blocked_removed m l n v r f =
    subst {A = State} (λ s. Represents s.0 s.1 (remove_view v n true))
      {x = (
        cycle_mem m l.blocked_tasks n,
        record l { blocked_tasks = cycle_head m l.blocked_tasks n },
      )}
      (ground arith)
      (let (a, b, c) =
          cycle_lem m l.blocked_tasks l.tasks n v.blocked (contents v) r.blocked_ring r.tasks_ring
            (Distinct-swap (contents v) v.blocked r.distinct) f in
        record {
          tasks_ring = b;
          blocked_ring = a;
          last_depended = r.last_depended;
          first_running = r.first_running;
          distinct = Distinct-swap (without n v.blocked) (contents v) c;
        })

-- `priority_list_remove` from a children or taskgroup queue: pointers that stood for a view with
-- the node stand for the view without it, the order of all others kept.
pub remove-Represents :
    {m : Mem} {l : PriorityList} {v : View} (type : QueueType) (n : ℕ) (blocked : Bool)
    → is_flat type ≡ false
    → Represents m l v
    → ¬ NotIn n (side v blocked)
    → let (empty, (m', l')) = remove type m l n blocked in
      Represents m' l' (remove_view v n blocked)
unfolding remove
remove-Represents {m} {l} {v} type n true k r f = blocked_removed m l n v r f
remove-Represents {m} {l} {v} type n false k r f =
    subst (λ t. Left t (remove_view v n false)) (sym route)
      (ordered_lem m l n v.depended v.waiting v.running v.blocked r f)
  where
    route : remove type m l n false ≡ remove_ordered m l n
    route = ground (arith, k)

-- The result of `priority_list_remove`: whether the list is now empty, on every branch, if the side
-- that it removes from had a task.
pub remove-empty :
    (type : QueueType) (m : Mem) (l : PriorityList) (n : ℕ) (blocked : Bool)
    → is_none (if blocked then l.blocked_tasks else l.tasks) ≡ false
    → let (empty, (m', l')) = remove type m l n blocked in
      empty ≡ (is_none l'.tasks && is_none l'.blocked_tasks)
unfolding remove remove_blocked remove_flat remove_ordered
remove-empty type m l n true h = ground arith
remove-empty type m l n false h = ground arith
