-- ===== src/PriorityQueue/Whole.antt =====
-- priority_queue.h: the functions on a whole queue, in its list or in its tree.
use ulmt_open_mp_gcc.Base.{
  Gives, ℕ, ◌≡◌, ◌≢◌, Bool, true, not, ◌&&◌, Option, some, if◌then◌else◌, arith, NotIn, Bool-cases,
  inl, inr,
}
use ulmt_open_mp_gcc.Base.Int.{ℤ}
use ulmt_open_mp_gcc.Ring.{Mem}
use ulmt_open_mp_gcc.PriorityList
use ulmt_open_mp_gcc.PriorityList.{PriorityList, QueueType, is_flat, InsertType}
use ulmt_open_mp_gcc.Splay.{is_leaf}
use ulmt_open_mp_gcc.Splay.Ordered.{find}
use ulmt_open_mp_gcc.PriorityQueue.{
  Tasks, Queue, State, and_then, inc, dec, multi_p, uses_tree, on_list, tree_insert,
  tree_insert_running, tree_remove,
}
use ulmt_open_mp_gcc.PriorityQueue.Reads.{HpOk, members}
use ulmt_open_mp_gcc.PriorityQueue.Highest.{tree_insert-HpOk}
use ulmt_open_mp_gcc.PriorityQueue.Removal.{tree_remove-HpOk}
use ulmt_open_mp_gcc.PriorityQueue.Either.{with_store, in_either}

-- `priority_queue_insert`
pub insert :
    Tasks → QueueType → Mem → Queue → ℕ → ℕ → ℕ → ℤ → InsertType → Bool → Bool → Option State
unfolding tree_insert
insert tasks type m q k₀ k n p at depends blocked =
    and_then
      (if uses_tree q p
        then tree_insert tasks type m q k₀ k n p at depends blocked
        else some (on_list q (PriorityList.insert type m q.l n at depends blocked)))
      λ s. some (
        s.0,
        record (s.1) {
          num_priority_node = inc s.1.num_priority_node;
          num_waiting_priority_node =
              if blocked then s.1.num_waiting_priority_node else inc s.1.num_waiting_priority_node;
        },
      )

-- `priority_queue_insert_running`
pub insert_running : Tasks → Mem → Queue → ℕ → ℕ → ℕ → ℤ → Option State
unfolding tree_insert_running
insert_running tasks m q k₀ k n p =
    and_then
      (if uses_tree q p
        then tree_insert_running tasks m q k₀ k n p
        else some (on_list q (PriorityList.insert_running m q.l n)))
      λ s. some (s.0, record (s.1) { num_priority_node = inc s.1.num_priority_node })

-- The counters when a node goes.
abbrev pub count_out : QueueType → Bool → Queue → Queue
count_out type blocked q = record q {
  num_priority_node = dec q.num_priority_node;
  num_waiting_priority_node =
      if not blocked && is_flat type
      then dec q.num_waiting_priority_node
      else q.num_waiting_priority_node;
}

-- `priority_queue_remove`: whether the queue has become empty, and the state.
pub remove : Tasks → QueueType → Mem → Queue → ℕ → Bool → Option (Bool × State)
unfolding tree_remove
remove tasks type m q n blocked =
    if multi_p q
    then and_then (tree_remove tasks type m q n blocked)
        (λ s. some (is_leaf s.1.t.root, (s.0, count_out type blocked s.1)))
    else (let (empty, s) = PriorityList.remove type m q.l n blocked in
        let (m', q') = on_list q s in some (empty, (m', count_out type blocked q')))

-- `priority_queue_insert` of a task with `ult_var`, where the memory for nodes is not in the tree, never
-- ends in gomp_fatal, and keeps the HP-LIST valid and `highest_priority` the priority of its highest
-- marked node.
pub insert-HpOk :
    (tasks : Tasks) (m : Mem) (q : Queue) (k₀ k n : ℕ) (p : ℤ)
    → (tasks n).ult_var ≡ true
    → NotIn k₀ (members q)
    → NotIn k (members q)
    → k ≢ k₀
    → HpOk q
    → (type : QueueType) (at : InsertType) (depends blocked : Bool)
    → Gives (insert tasks type m q k₀ k n p at depends blocked) (λ s. HpOk s.1)
unfolding insert
insert-HpOk tasks m q k₀ k n p ult f₀ f ne v type at depends blocked =
    with_store _ _ (λ s w. record { valid = w.valid; highest = w.highest })
      (in_either (uses_tree q p) q (tree_insert tasks type m q k₀ k n p at depends blocked)
        (PriorityList.insert type m q.l n at depends blocked) v
        (λ h.
          let (s, given, (ok, kept)) =
            tree_insert-HpOk tasks m q k₀ k n p ult f₀ f ne v type at depends blocked in
          (s, given, ok)))

-- `priority_queue_remove` of a task with `ult_var`, whose priority has its list in the tree if there is
-- one, does not read through NULL, returns true just when the tree is empty, where there was one, and
-- keeps the HP-LIST valid and `highest_priority` the priority of its highest marked node.
pub remove-HpOk :
    (tasks : Tasks) (type : QueueType) (m : Mem) (q : Queue) (n : ℕ) (blocked : Bool)
    → (tasks n).ult_var ≡ true
    → (multi_p q ≡ true → (a : ℕ) × (find q.nodes.key (tasks n).priority (members q) ≡ some a))
    → HpOk q
    → Gives
        (remove tasks type m q n blocked)
        (λ r. HpOk r.1.1 × (multi_p q ≡ true → r.0 ≡ not (multi_p r.1.1)))
unfolding remove
remove-HpOk tasks type m q n blocked ult found v = elim (Bool-cases (multi_p q)) [
  | inl e ↦
      let (a, here) = found e in
      let (s, given, w) = tree_remove-HpOk tasks type m q n a blocked ult here v in
      (
        (is_leaf s.1.t.root, (s.0, count_out type blocked s.1)),
        ground (arith, e, given),
        (counted s.1 w, λ h. ground arith),
      )
  | inr e ↦
      let r = PriorityList.remove type m q.l n blocked in
      let q' : Queue = (on_list q r.1).1 in
      (
        (r.0, (r.1.0, count_out type blocked q')),
        ground (arith, e),
        (counted q' (record { valid = v.valid; highest = v.highest }), λ h. ground (arith, e, h)),
      )
]
  where
    counted : (q' : Queue) → HpOk q' → HpOk (count_out type blocked q')
    counted q' w = record { valid = w.valid; highest = w.highest }
