-- ===== src/ListMoves.antt =====
-- task.h and task.c: the functions that move a task within its `struct priority_list`, when it is
-- blocked, suspended, resumed or about to run.
pub mod Rest
pub mod Block
pub mod Turn
pub mod Upgrade
pub mod Downgrade
mod Tests
use Prim.Native.Nat.{bit_and}
use ulmt_open_mp_gcc.Base.{
  ℕ, ◌/◌, ◌^◌, Bool, true, false, ◌||◌, Option, none, some, if◌then◌else◌, ◌==◌, leb, is_none,
  points_to,
}
use ulmt_open_mp_gcc.Ring.{Mem, link_before, link_after, unlink}
use ulmt_open_mp_gcc.PriorityList.{
  QueueType, code, children_tied, children_untied, taskgroup_tied, taskgroup_untied, suspended_tied,
  InsertType, insert_begin, insert_end, PriorityList, State, insert, remove,
}

-- `((bitmap) >> shift) & POLICY_MASK`, the four bits of `gomp_queue_policy_var` for a kind of
-- insertion
abbrev pub policy : ℕ → ℕ → InsertType
policy bitmap shift = if bit_and (bitmap / 2 ^ shift) 15 == 0 then insert_end else insert_begin

-- A task of a taskwait that has children goes to the end; any other one where the policy says.
abbrev pub suspend_position : QueueType → ℕ → Bool → InsertType
suspend_position type bitmap waits =
    if waits
    then insert_end
    else if code type == code children_untied
    then policy bitmap 8
    else policy bitmap 12

abbrev pub unblock_position : QueueType → ℕ → Bool → InsertType
unblock_position type bitmap waits =
    if waits
    then insert_end
    else if (code type == code children_tied || code type == code children_untied)
        || leb (code suspended_tied) (code type)
    then policy bitmap 16
    else policy bitmap 20

-- `priority_list_adjust_task`; `waits` is `task->taskwait && task->taskwait->in_taskwait &&
-- GET_NUM_CHILDREN (task) > 0`
pub adjust_list : QueueType → ℕ → Bool → Mem → PriorityList → ℕ → Bool → State
adjust_list type bitmap waits m l node depends =
    let (empty, (m', l')) = remove type m l node false in
    insert type m' l' node (suspend_position type bitmap waits) depends false

-- `priority_list_block_task`
pub block_list : QueueType → Mem → PriorityList → ℕ → State
block_list type m l node =
    let (empty, (m', l')) = remove type m l node false in
    insert type m' l' node insert_begin false true

-- `priority_list_unblock_task`
pub unblock_list : QueueType → ℕ → Bool → Mem → PriorityList → ℕ → Bool → State
unblock_list type bitmap waits m l node depends =
    let (empty, (m', l')) = remove type m l node true in
    insert type m' l' node (unblock_position type bitmap waits) depends false

-- The first branches of the two functions below read `list->tasks`, which is not NULL where the list
-- has the node.
abbrev pub first_or : PriorityList → ℕ → ℕ
first_or l node = elim (l.tasks) [ none ↦ node | some t ↦ t ]

-- `priority_list_upgrade_task`, when no task that the parent depends on has been moved yet
pub upgrade_first : Mem → PriorityList → ℕ → State
upgrade_first m l node =
    if points_to l.tasks (m.next node)
    then (m, record l { tasks = some node; last_parent_depends_on = some node })
    else (
      link_before (unlink m node) (first_or l node) node,
      record l { tasks = some node; last_parent_depends_on = some node },
    )

-- and behind `last`
pub upgrade_later : Mem → PriorityList → ℕ → ℕ → State
upgrade_later m l node last =
    if m.prev node == last
    then (m, record l { last_parent_depends_on = some node })
    else if points_to l.tasks (m.next node)
    then (m, record l { tasks = some node })
    else (link_after (unlink m node) last node, record l { last_parent_depends_on = some node })

pub upgrade_list : Mem → PriorityList → ℕ → State
unfolding upgrade_first upgrade_later
upgrade_list m l node =
    if points_to l.tasks node
    then (
      m,
      if is_none l.last_parent_depends_on
          then record l { last_parent_depends_on = some node }
          else l,
    )
    else elim (l.last_parent_depends_on) [
      | none ↦ upgrade_first m l node
      | some last ↦ upgrade_later m l node last
    ]

-- `priority_list_downgrade_task`, when the node is the first task
pub downgrade_first : Mem → PriorityList → ℕ → PriorityList
downgrade_first m l node =
    let l₁ = if m.next node == node then l else record l { tasks = some (m.next node) } in
    let l₂ =
      if points_to l₁.last_parent_depends_on node
      then record l₁ { last_parent_depends_on = none }
      else l₁ in
    if is_none l₂.first_running_task then record l₂ { first_running_task = some node } else l₂

-- and when it is a later one
pub downgrade_later : Mem → PriorityList → ℕ → State
downgrade_later m l node =
    let l₁ =
      if points_to l.last_parent_depends_on node
      then record l { last_parent_depends_on = some (m.prev node) }
      else l in
    if points_to l.tasks (m.next node) || points_to l.first_running_task (m.next node)
    then (m, record l₁ { first_running_task = some node })
    else (
      link_before (unlink m node) (first_or l node) node,
      if is_none l₁.first_running_task then record l₁ { first_running_task = some node } else l₁,
    )

pub downgrade_list : Mem → PriorityList → ℕ → State
unfolding downgrade_first downgrade_later
downgrade_list m l node =
    if points_to l.tasks node then (m, downgrade_first m l node) else downgrade_later m l node
