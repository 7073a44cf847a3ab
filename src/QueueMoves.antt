-- ===== src/QueueMoves.antt =====
-- task.h and task.c: the functions that move a task within its `struct priority_queue`, when it is
-- blocked, suspended, resumed or about to run. A result `none` is a use of the NULL list that the
-- search for a priority gives.
pub mod HpOk
mod Tests
use ulmt_open_mp_gcc.Base.{
  ℕ, Bool, true, false, not, ◌&&◌, ◌||◌, Option, none, some, if◌then◌else◌, ◌==◌,
}
use ulmt_open_mp_gcc.Base.Int.{ℤ}
use ulmt_open_mp_gcc.Ring.{Mem}
use ulmt_open_mp_gcc.PriorityList
use ulmt_open_mp_gcc.PriorityList.{PriorityList, QueueType}
use ulmt_open_mp_gcc.ListMoves.{adjust_list, block_list, unblock_list, upgrade_list, downgrade_list}
use ulmt_open_mp_gcc.PriorityQueue.{
  Task, Tasks, Queue, State, and_then, inc, dec, multi_p, lookup_priority, mark_list, put_list,
  on_list, uses_tree, none_ready, is_ready, is_waiting,
}

-- A change of the list that has this priority: its node in the tree, and the state.
pub change_list : Queue → ℤ → (PriorityList → PriorityList.State) → Option (ℕ × State)
change_list q p f =
    let r = lookup_priority q p in
    elim (r.0) [ none ↦ none | some a ↦ some (a, put_list r.1 a (f (r.1.lists a))) ]

-- The mark goes if the condition holds of the list that is left.
pub unmark_if : (PriorityList → Bool) → ℕ × State → State
unmark_if test (a, (m, q)) = (m, if test (q.lists a) then mark_list q a false else q)

pub remark_if : Bool → ℕ × State → State
remark_if test (a, (m, q)) = (m, if test then mark_list q a true else q)

-- `priority_tree_adjust_task`
pub tree_adjust_task : QueueType → ℕ → Bool → Mem → Queue → ℕ → ℤ → Bool → Option State
unfolding change_list remark_if
tree_adjust_task type bitmap waits m q n p depends =
    and_then (change_list q p (λ l. adjust_list type bitmap waits m l n depends))
      λ r. some (remark_if true r)

-- `priority_queue_adjust_task`
pub adjust_task : Tasks → QueueType → ℕ → Bool → Mem → Queue → ℕ → Bool → Option State
unfolding tree_adjust_task
adjust_task tasks type bitmap waits m q n depends =
    and_then
      (if uses_tree q (tasks n).priority
        then tree_adjust_task type bitmap waits m q n (tasks n).priority depends
        else some (on_list q (adjust_list type bitmap waits m q.l n depends)))
      λ s.
        some (s.0, record (s.1) { num_waiting_priority_node = inc s.1.num_waiting_priority_node })

-- `priority_tree_block_task`
pub tree_block_task : Tasks → QueueType → Mem → Queue → ℕ → ℤ → Option State
unfolding change_list unmark_if
tree_block_task tasks type m q n p =
    and_then (change_list q p (λ l. block_list type m l n))
      λ r. some (unmark_if (none_ready tasks) r)

-- `priority_queue_block_task`
pub block_task : Tasks → QueueType → Mem → Queue → ℕ → Option State
unfolding tree_block_task
block_task tasks type m q n =
    and_then
      (if uses_tree q (tasks n).priority
        then tree_block_task tasks type m q n (tasks n).priority
        else some (on_list q (block_list type m q.l n)))
      λ s. some (
        s.0,
        if is_ready (tasks n).kind
            then record (s.1) { num_waiting_priority_node = dec s.1.num_waiting_priority_node }
            else s.1,
      )

-- `priority_tree_unblock_task`
pub tree_unblock_task : Tasks → QueueType → ℕ → Bool → Mem → Queue → ℕ → ℤ → Bool → Option State
unfolding change_list remark_if
tree_unblock_task tasks type bitmap waits m q n p depends =
    and_then (change_list q p (λ l. unblock_list type bitmap waits m l n depends))
      λ r. some (remark_if (is_ready (tasks n).kind) r)

-- `priority_queue_unblock_task`
pub unblock_task : Tasks → QueueType → ℕ → Bool → Mem → Queue → ℕ → Option State
unfolding tree_unblock_task
unblock_task tasks type bitmap waits m q n =
    let depends = (tasks n).parent_depends_on in
    and_then
      (if uses_tree q (tasks n).priority
        then tree_unblock_task tasks type bitmap waits m q n (tasks n).priority depends
        else some (on_list q (unblock_list type bitmap waits m q.l n depends)))
      λ s.
        some (s.0, record (s.1) { num_waiting_priority_node = inc s.1.num_waiting_priority_node })

-- `priority_queue_upgrade_task`
pub upgrade_task : Tasks → Mem → Queue → ℕ → Option State
unfolding change_list
upgrade_task tasks m q n =
    if multi_p q
    then and_then (change_list q (tasks n).priority (λ l. upgrade_list m l n)) (λ r. some (r.1))
    else some (on_list q (upgrade_list m q.l n))

-- Nothing in the list but the task `n` itself can be chosen.
abbrev pub none_other : Tasks → ℕ → PriorityList → Bool
none_other tasks n l = elim (l.tasks) [
  | none ↦ true
  | some first ↦ first == n || not (is_waiting (tasks first).kind)
]

-- `priority_queue_downgrade_task`
pub downgrade_task : Tasks → Mem → Queue → ℕ → Option State
unfolding change_list unmark_if
downgrade_task tasks m q n =
    and_then
      (if multi_p q
        then and_then (change_list q (tasks n).priority (λ l. downgrade_list m l n))
            (λ r. some (unmark_if (λ l. (tasks n).ult_var && none_other tasks n l) r))
        else some (on_list q (downgrade_list m q.l n)))
      λ s.
        some (s.0, record (s.1) { num_waiting_priority_node = dec s.1.num_waiting_priority_node })
