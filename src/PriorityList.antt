-- ===== src/PriorityList.antt =====
-- priority_queue.h: `struct priority_list` and the functions on it. The nodes' links are the memory
-- `Mem`; a pointer that may be NULL is an option. The memory model that `priority_list_remove` is
-- given changes how the one store of NULL is done, not its value, and is left out.
pub mod View
pub mod Place
pub mod Blocked
pub mod Insert
pub mod Take
pub mod Cycle
pub mod Remove
pub mod Round
pub mod Running
pub mod Flat
mod Tests
use ulmt_open_mp_gcc.Base.{
  ℕ, Bool, true, false, ◌||◌, ◌&&◌, not, Option, none, some, if◌then◌else◌, ◌==◌, leb, is_none,
  points_to,
}
use ulmt_open_mp_gcc.Base.Int.{ℤ}
use ulmt_open_mp_gcc.Ring.{Mem, link_single, link_before, link_after, unlink}

-- `enum priority_queue_type`
pub data QueueType : Type 0 where
  team_tied team_untied children_tied children_untied taskgroup_tied taskgroup_untied : QueueType
  suspended_tied suspended_untied locked ignored : QueueType

abbrev pub code : QueueType → ℕ
code team_tied = 0
code team_untied = 1
code children_tied = 2
code children_untied = 3
code taskgroup_tied = 4
code taskgroup_untied = 5
code suspended_tied = 6
code suspended_untied = 7
code locked = 8
code ignored = 999

-- `type <= PQ_TEAM_UNTIED || type >= PQ_SUSPENDED_TIED`: the queues with no order by status.
abbrev pub is_flat : QueueType → Bool
is_flat t = leb (code t) (code team_untied) || leb (code suspended_tied) (code t)

-- `enum priority_insert_type`
pub data InsertType : Type 0 where
  insert_begin insert_end : InsertType

pub record PriorityList : Type 0 where
  pub priority : ℤ
  pub tasks : Option ℕ
  pub last_parent_depends_on : Option ℕ
  pub first_running_task : Option ℕ
  pub blocked_tasks : Option ℕ

-- The links and the list that a function leaves.
abbrev pub State : Type 0
State = Mem × PriorityList

-- `task_is_blocked`, the same text in both arms of `priority_list_insert`
pub insert_blocked : Mem → PriorityList → ℕ → State
insert_blocked m l node = elim (l.blocked_tasks) [
  | none ↦ (link_single m node, record l { blocked_tasks = some node })
  | some b ↦ (link_before m b node, l)
]

pub insert_flat : Mem → PriorityList → ℕ → InsertType → State
insert_flat m l node pos = elim (l.tasks) [
  | none ↦ (link_single m node, record l { tasks = some node })
  | some t ↦ (
    link_before m t node,
    elim pos [ insert_begin ↦ record l { tasks = some node } | insert_end ↦ l ],
  )
]

-- `task_is_parent_depends_on`, in a list that has tasks
unfoldable pub insert_dependence : Mem → PriorityList → ℕ → InsertType → ℕ → State
insert_dependence m l node pos first = elim (l.last_parent_depends_on) [
  | none ↦
      (link_before m first node, record l { tasks = some node; last_parent_depends_on = some node })
  | some last ↦ elim pos [
    | insert_begin ↦ (link_before m first node, record l { tasks = some node })
    | insert_end ↦ (link_after m last node, record l { last_parent_depends_on = some node })
  ]
]

-- any other task, in a list that has tasks
unfoldable pub insert_plain : Mem → PriorityList → ℕ → InsertType → ℕ → State
insert_plain m l node insert_begin first = elim (l.last_parent_depends_on) [
  | none ↦ (link_before m first node, record l { tasks = some node })
  | some last ↦ (link_after m last node, l)
]
insert_plain m l node insert_end first = elim (l.first_running_task) [
  | none ↦ (link_before m first node, l)
  | some run ↦
      (link_before m run node, if points_to l.tasks run then record l { tasks = some node } else l)
]

unfoldable pub insert_ordered : Mem → PriorityList → ℕ → InsertType → Bool → State
unfolding insert_dependence insert_plain
insert_ordered m l node pos depends = elim (l.tasks) [
  | none ↦ (
    link_single m node,
    if depends
        then record l { tasks = some node; last_parent_depends_on = some node }
        else record l { tasks = some node },
  )
  | some first ↦
      if depends then insert_dependence m l node pos first else insert_plain m l node pos first
]

-- `priority_list_insert`
unfoldable pub insert : QueueType → Mem → PriorityList → ℕ → InsertType → Bool → Bool → State
insert type m l node pos depends blocked =
    if is_flat type
    then (if blocked then insert_blocked m l node else insert_flat m l node pos)
    else (if blocked then insert_blocked m l node else insert_ordered m l node pos depends)

-- `priority_list_insert_running`
unfoldable pub insert_running : Mem → PriorityList → ℕ → State
insert_running m l node = elim (l.tasks) [
  | none ↦ (link_single m node, record l { tasks = some node; first_running_task = some node })
  | some first ↦ (
    link_before m first node,
    if is_none l.first_running_task then record l { first_running_task = some node } else l,
  )
]

-- Each removal returns whether the list has become empty.
pub remove_blocked : Mem → PriorityList → ℕ → Bool × State
remove_blocked m l node =
    if points_to l.blocked_tasks node && m.next node == node
    then (is_none l.tasks, (m, record l { blocked_tasks = none }))
    else (
      false,
      (
        unlink m node,
        if points_to l.blocked_tasks node
            then record l { blocked_tasks = some (m.next node) }
            else l,
      ),
    )

pub remove_flat : Mem → PriorityList → ℕ → Bool × State
remove_flat m l node =
    if points_to l.tasks node && m.next node == node
    then (is_none l.blocked_tasks, (m, record l { tasks = none }))
    else (
      false,
      (
        unlink m node,
        if points_to l.tasks node then record l { tasks = some (m.next node) } else l,
      ),
    )

-- What the last task of an ordered list leaves behind.
pub clear_ordered : PriorityList → PriorityList
clear_ordered l =
    if is_none l.first_running_task
    then record l { tasks = none; last_parent_depends_on = none }
    else record l { tasks = none; first_running_task = none }

-- The pointers of an ordered list when its first task goes, and when another one does.
pub drop_first : Mem → PriorityList → ℕ → PriorityList
drop_first m l node =
    if points_to l.first_running_task node
    then record l { tasks = some (m.next node); first_running_task = some (m.next node) }
    else if points_to l.last_parent_depends_on node
    then record l { tasks = some (m.next node); last_parent_depends_on = none }
    else record l { tasks = some (m.next node) }

pub drop_later : Mem → PriorityList → ℕ → PriorityList
drop_later m l node =
    if points_to l.first_running_task node
    then record l {
      first_running_task = if points_to l.tasks (m.next node) then none else some (m.next node);
    }
    else if points_to l.last_parent_depends_on node
    then record l { last_parent_depends_on = some (m.prev node) }
    else l

pub remove_ordered : Mem → PriorityList → ℕ → Bool × State
unfolding clear_ordered drop_first drop_later
remove_ordered m l node =
    if points_to l.tasks node && m.next node == node
    then (is_none l.blocked_tasks, (m, clear_ordered l))
    else (
      false,
      (unlink m node, if points_to l.tasks node then drop_first m l node else drop_later m l node),
    )

-- `priority_list_remove`
pub remove : QueueType → Mem → PriorityList → ℕ → Bool → Bool × State
remove type m l node blocked =
    if blocked
    then remove_blocked m l node
    else if is_flat type
    then remove_flat m l node
    else remove_ordered m l node
