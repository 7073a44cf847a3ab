-- ===== src/PriorityQueue.antt =====
-- priority_queue.h and priority_queue.c: `struct priority_queue`, one list or a tree of lists. A result
-- `none` is a call of gomp_fatal, or a read through a NULL pointer.
pub mod Reads
pub mod Attach
pub mod Highest
pub mod Removal
pub mod Lost
pub mod Either
pub mod Whole
pub mod Sample
mod Tests
use Prim.Native.Nat.{Ordering}
use ulmt_open_mp_gcc.Base.{
  ℕ, ◌+◌, ◌-◌, ◌%◌, ◌≡◌, Bool, true, false, not, ◌&&◌, ◌||◌, Option, none, some, if◌then◌else◌,
  is_none, update,
}
use ulmt_open_mp_gcc.Base.Int.{ℤ, pos, ltb_ℤ}
use ulmt_open_mp_gcc.Ring.{Mem}
use ulmt_open_mp_gcc.PriorityList
use ulmt_open_mp_gcc.PriorityList.{PriorityList, QueueType, is_flat, InsertType}
use ulmt_open_mp_gcc.Splay
use ulmt_open_mp_gcc.Splay.{Tree, leaf, node, is_leaf, lookup}
use ulmt_open_mp_gcc.HpList
use ulmt_open_mp_gcc.HpList.{Nodes, HpTree, mark_node, insert_unlisted}

-- `enum gomp_task_kind`
pub data TaskKind : Type 0 where
  implicit undeferred waiting tied tied_suspended async_running : TaskKind

-- The fields of `struct gomp_task` that the queues read.
pub record Task : Type 0 where
  pub priority : ℤ
  pub kind : TaskKind
  pub ult_var : Bool
  pub is_blocked : Bool
  pub parent_depends_on : Bool

-- The tasks, by their node in the queue: `priority_node_to_task` is an offset in a structure.
abbrev pub Tasks : Type 0
Tasks = ℕ → Task

-- `struct priority_queue`; `nodes` and `lists` are the tree's nodes, by address, with the list of each.
pub record Queue : Type 0 where
  pub num_priority_node : ℕ
  pub num_waiting_priority_node : ℕ
  pub highest_priority : ℤ
  pub t : HpTree
  pub l : PriorityList
  pub nodes : Nodes
  pub lists : ℕ → PriorityList

abbrev pub State : Type 0
State = Mem × Queue

abbrev pub and_then : {A B : Type 0} → Option A → (A → Option B) → Option B
and_then none f = none
and_then (some a) f = f a

-- `size_t` up and down
abbrev pub inc : ℕ → ℕ
inc n = (n + 1) % 18446744073709551616

abbrev pub dec : ℕ → ℕ
dec n = (n + 18446744073709551615) % 18446744073709551616

abbrev pub empty_list : ℤ → PriorityList
empty_list p = record {
  priority = p;
  tasks = none;
  last_parent_depends_on = none;
  first_running_task = none;
  blocked_tasks = none;
}

-- `priority_queue_init`; the list's priority and the memory of tree nodes are what they were.
pub init : Queue → Queue
init q = record q {
  num_priority_node = 0;
  num_waiting_priority_node = 0;
  highest_priority = pos 0;
  t = record { root = leaf; num_marked = 0; highest_marked = none };
  l = record q.l {
    tasks = none;
    last_parent_depends_on = none;
    first_running_task = none;
    blocked_tasks = none;
  };
}

-- `priority_queue_multi_p`
abbrev pub multi_p : Queue → Bool
multi_p q = not (is_leaf q.t.root)

-- `priority_queue_empty_p`
abbrev pub empty_p : Queue → Bool
empty_p q = if multi_p q then is_leaf q.t.root else is_none q.l.tasks && is_none q.l.blocked_tasks

-- `priority_queue_lookup_priority`: the tree node whose key is the list, and the queue.
pub lookup_priority : Queue → ℤ → Option ℕ × Queue
lookup_priority q p =
    let (found, root) = lookup q.nodes.key p q.t.root in
    if is_leaf q.t.root then (none, q) else (found, record q { t = record q.t { root = root } })

-- `head->t.highest_marked->key.l.priority`, 0 for NULL
abbrev pub top_priority : Queue → ℤ
top_priority q = elim (q.t.highest_marked) [ none ↦ pos 0 | some a ↦ q.nodes.key a ]

-- The store to `highest_priority` that follows an update of the tree.
abbrev pub store_highest : Bool → Queue → Queue
store_highest ret q = if ret then record q { highest_priority = top_priority q } else q

abbrev pub hp_state : Queue → HpList.State → Queue
hp_state q s = record q { nodes = s.0; t = s.1 }

-- `gomp_malloc` gave the node `k`, which gets this list.
pub new_node : Queue → ℕ → ℤ → PriorityList → Queue
new_node q k p lst = record q {
  nodes = record {
    key = update q.nodes.key k p;
    marked = update q.nodes.marked k false;
    next = update q.nodes.next k none;
    prev = update q.nodes.prev k none;
  };
  lists = update q.lists k lst;
}

-- The tree insertion that `ult_var` chooses, with what it returns.
pub attach : Queue → ℕ → Bool → Bool → Option (Bool × Queue)
attach q k ult marks =
    if ult
    then elim (HpList.insert q.nodes q.t k marks) [
      | none ↦ none
      | some r ↦ some (r.0, hp_state q r.1)
    ]
    else elim (insert_unlisted q.nodes q.t k) [ none ↦ none | some s ↦ some (false, hp_state q s) ]

abbrev pub is_waiting : TaskKind → Bool
is_waiting waiting = true
is_waiting _ = false

abbrev pub is_ready : TaskKind → Bool
is_ready waiting = true
is_ready tied_suspended = true
is_ready _ = false

-- "The first time around, transfer any priority 0 items to the tree": as the node `k`.
pub transfer : Tasks → Queue → ℕ → Bool → Option Queue
unfolding new_node attach
transfer tasks q k ult =
    if is_leaf q.t.root
    then elim (q.l.tasks) [
      | none ↦ some q
      | some first ↦
          let q' = new_node q k (pos 0) (record q.l { priority = pos 0 }) in
          elim (attach q' k ult (is_waiting (tasks first).kind)) [
            | none ↦ none
            | some r ↦
                some (record (r.1) { l = record (r.1.l) { tasks = none; blocked_tasks = none } })
          ]
    ]
    else some q

-- A new priority, as the node `k`, marked if it comes with a waiting task.
pub add_priority : Queue → ℕ → ℤ → Bool → Bool → Option Queue
unfolding new_node attach
add_priority q k p ult marks = elim (attach (new_node q k p (empty_list p)) k ult marks) [
  | none ↦ none
  | some r ↦ some (store_highest (r.0 && marks) r.1)
]

-- A change of the mark of the node `a`.
pub mark_list : Queue → ℕ → Bool → Queue
mark_list q a b = let r = mark_node q.nodes q.t a b in store_highest r.0 (hp_state q r.1)

abbrev pub put_list : Queue → ℕ → PriorityList.State → State
put_list q a s = (s.0, record q { lists = update q.lists a s.1 })

-- The list of a priority, which a task that waits marks: the node, and the queue.
pub list_for : Queue → ℕ → ℤ → Bool → Bool → Option (ℕ × Queue)
unfolding lookup_priority add_priority mark_list
list_for q k p ult marks =
    let r = lookup_priority q p in
    elim (r.0) [
      | none ↦ elim (add_priority r.1 k p ult marks) [ none ↦ none | some q' ↦ some (k, q') ]
      | some a ↦ some (a, if ult && marks then mark_list r.1 a true else r.1)
    ]

-- `priority_tree_insert`; `k₀` and `k` are what the two calls of gomp_malloc give.
pub tree_insert :
    Tasks → QueueType → Mem → Queue → ℕ → ℕ → ℕ → ℤ → InsertType → Bool → Bool → Option State
unfolding transfer list_for
tree_insert tasks type m q k₀ k n p at depends blocked =
    let ult = (tasks n).ult_var in
    and_then (transfer tasks q k₀ ult) λ q₁.
      and_then (list_for q₁ k p ult (not blocked)) λ r.
        some (put_list r.1 r.0 (PriorityList.insert type m (r.1.lists r.0) n at depends blocked))

-- `priority_tree_insert_running`
pub tree_insert_running : Tasks → Mem → Queue → ℕ → ℕ → ℕ → ℤ → Option State
unfolding transfer list_for
tree_insert_running tasks m q k₀ k n p =
    let ult = (tasks n).ult_var in
    and_then (transfer tasks q k₀ ult) λ q₁.
      and_then (list_for q₁ k p ult false)
        λ r. some (put_list r.1 r.0 (PriorityList.insert_running m (r.1.lists r.0) n))

-- The node `a` leaves the tree, when its list is empty.
pub drop_priority : Queue → ℕ → Bool → Queue
drop_priority q a ult =
    let r = HpList.remove q.nodes q.t (q.nodes.key a) in
    if ult
    then store_highest r.0 (hp_state q r.1)
    else record q { t = record q.t { root = Splay.remove q.nodes.key (q.nodes.key a) q.t.root } }

-- No task of the list can be chosen: `list->tasks` is NULL, or its first task is neither WAITING nor
-- TIED_SUSPENDED.
abbrev pub none_ready : Tasks → PriorityList → Bool
none_ready tasks l = elim (l.tasks) [ none ↦ true | some first ↦ not (is_ready (tasks first).kind) ]

-- What `priority_tree_remove` does to the tree when the list `l` of the node `a` is what is left.
pub after_removal : Tasks → Queue → ℕ → Bool → Bool → Bool → PriorityList → Queue
unfolding drop_priority mark_list
after_removal tasks q a ult blocked empty l =
    if empty
    then drop_priority q a ult
    else if (ult && not blocked) && none_ready tasks l
    then mark_list q a false
    else q

-- `priority_tree_remove`
pub tree_remove : Tasks → QueueType → Mem → Queue → ℕ → Bool → Option State
unfolding lookup_priority after_removal
tree_remove tasks type m q n blocked =
    let r = lookup_priority q (tasks n).priority in
    elim (r.0) [
      | none ↦ none
      | some a ↦
          let (empty, s) = PriorityList.remove type m (r.1.lists a) n blocked in
          let (m', q') = put_list r.1 a s in
          some (m', after_removal tasks q' a (tasks n).ult_var blocked empty s.1)
    ]

-- `priority_queue_multi_p (head) || priority > 0`
abbrev pub uses_tree : Queue → ℤ → Bool
uses_tree q p = multi_p q || ltb_ℤ (pos 0) p

abbrev pub on_list : Queue → PriorityList.State → State
on_list q s = (s.0, record q { l = s.1 })
