-- ===== src/NextTask.antt =====
-- task.c and task.h: how the next task is chosen, in a tree of lists, in two queues, and in an array
-- of candidates. A task is its node in the queue that it is found in.
pub mod Tree
pub mod Pair
pub mod Array
mod Tests
use Prim.Native.Nat.{Ordering}
use ulmt_open_mp_gcc.Base.{
  ℕ, Bool, true, false, not, ◌&&◌, ◌||◌, Option, none, some, if◌then◌else◌, List, [], ◌∷◌,
}
use ulmt_open_mp_gcc.Base.Int.{ℤ, pos, negsuc, ltb_ℤ, eqb_ℤ}
use ulmt_open_mp_gcc.PriorityList.{PriorityList}
use ulmt_open_mp_gcc.Splay
use ulmt_open_mp_gcc.Splay.{leaf, node}
use ulmt_open_mp_gcc.PriorityQueue.{Task, Tasks, Queue, multi_p, is_waiting}

-- The first task of a list, if it is WAITING.
abbrev pub first_waiting : Tasks → PriorityList → Option ℕ
first_waiting tasks l = elim (l.tasks) [
  | none ↦ none
  | some n ↦ if is_waiting (tasks n).kind then some n else none
]

abbrev pub or_else : Option ℕ → Option ℕ → Option ℕ
or_else none b = b
or_else (some a) b = some a

-- `priority_tree_next_task_1`
pub tree_next : Tasks → (ℕ → PriorityList) → Splay.Tree ℕ → Option ℕ
tree_next tasks lists leaf = none
tree_next tasks lists (node l a r) =
    or_else (tree_next tasks lists r)
      (or_else (first_waiting tasks (lists a)) (tree_next tasks lists l))

-- `priority_tree_next_suspended_task`: the first task of the last list that has one.
pub tree_next_suspended : (ℕ → PriorityList) → Splay.Tree ℕ → Option ℕ
tree_next_suspended lists leaf = none
tree_next_suspended lists (node l a r) =
    or_else (tree_next_suspended lists r) (or_else (lists a).tasks (tree_next_suspended lists l))

-- `priority_queue_next_suspended_task`
pub next_suspended_task : Queue → Option ℕ
unfolding tree_next_suspended
next_suspended_task q = if multi_p q then tree_next_suspended q.lists q.t.root else q.l.tasks

-- A task of a higher priority, or of the same one where it alone has the parent's dependence.
abbrev pub beats : Task → ℤ → Bool → Bool
beats t priority depends =
    ltb_ℤ priority t.priority || (eqb_ℤ t.priority priority && t.parent_depends_on && not depends)

-- The choice between the tasks of two queues, with `*q1_chosen_p`.
pub choose : Tasks → Option ℕ → Option ℕ → Option ℕ × Bool
choose tasks none none = (none, true)
choose tasks none (some b) = (some b, false)
choose tasks (some a) none = (some a, true)
choose tasks (some a) (some b) =
    if beats (tasks b) (tasks a).priority (tasks a).parent_depends_on
    then (some b, false)
    else (some a, true)

-- `priority_tree_next_task`; the second queue may be NULL.
pub tree_next_task : Tasks → Queue → Option Queue → Option ℕ × Bool
unfolding tree_next choose
tree_next_task tasks q₁ q₂ =
    choose tasks (tree_next tasks q₁.lists q₁.t.root)
      (elim q₂ [ none ↦ none | some q ↦ tree_next tasks q.lists q.t.root ])

-- What `priority_queue_next_task` takes from one queue when not both have trees.
pub one_task : Tasks → Queue → Option ℕ
unfolding tree_next_task
one_task tasks q = if multi_p q then (tree_next_task tasks q none).0 else first_waiting tasks q.l

-- `priority_queue_next_task`
pub next_task : Tasks → Queue → Option Queue → Option ℕ × Bool
unfolding tree_next_task one_task choose
next_task tasks q₁ none = choose tasks (one_task tasks q₁) none
next_task tasks q₁ (some q₂) =
    if multi_p q₁ && multi_p q₂
    then tree_next_task tasks q₁ (some q₂)
    else choose tasks (one_task tasks q₁) (one_task tasks q₂)

-- `next_task`, `priority` and `task_is_parent_depends_on` of the loop below
pub record Choice : Type 0 where
  pub task : Option ℕ
  pub priority : ℤ
  pub depends : Bool

-- One turn of the loop, for an element that may be NULL.
pub consider : Tasks → (ℕ → Bool) → Choice → Option ℕ → Choice
consider tasks allowed c none = c
consider tasks allowed c (some n) =
    if allowed n && beats (tasks n) c.priority c.depends
    then record {
      task = some n;
      priority = (tasks n).priority;
      depends = (tasks n).parent_depends_on;
    }
    else c

pub consider_all : Tasks → (ℕ → Bool) → Choice → List (Option ℕ) → Choice
unfolding consider
consider_all tasks allowed c [] = c
consider_all tasks allowed c (x ∷ xs) = consider_all tasks allowed (consider tasks allowed c x) xs

abbrev pub no_choice : Choice
no_choice = record { task = none; priority = negsuc 0; depends = false }

-- `get_higher_priority_task`, where `has_fn` says which tasks have `fn != NULL`
pub get_higher_priority_task : Tasks → (ℕ → Bool) → List (Option ℕ) → Option ℕ
unfolding consider_all
get_higher_priority_task tasks has_fn next = (consider_all tasks has_fn no_choice next).task

-- `get_not_in_taskwait_higher_priority_task`
pub get_not_in_taskwait_higher_priority_task :
    Tasks → (ℕ → Bool) → (ℕ → Bool) → List (Option ℕ) → Option ℕ
unfolding consider_all
get_not_in_taskwait_higher_priority_task tasks has_fn in_taskwait next =
    (consider_all tasks (λ n. has_fn n && not (in_taskwait n)) no_choice next).task
