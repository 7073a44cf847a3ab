-- ===== src/NextTask/Tests.antt =====
-- The choice on small queues: tasks 1 to 4 wait, 5 does not. Task n has the priority n, but task 4 has
-- 3 and its parent's dependence.
use ulmt_open_mp_gcc.Base.{
  ℕ, ◌≡◌, refl, [], ◌∷◌, none, some, true, false, arith, if◌then◌else◌, ◌==◌, ltb,
}
use ulmt_open_mp_gcc.Base.Int.{pos}
use ulmt_open_mp_gcc.PriorityList.{PriorityList}
use ulmt_open_mp_gcc.Splay.{leaf, node}
use ulmt_open_mp_gcc.PriorityQueue.{Tasks, Queue, waiting, tied, empty_list}
use ulmt_open_mp_gcc.NextTask.{next_task, get_higher_priority_task}
use ulmt_open_mp_gcc.NextTask.Tree.{Best}
use ulmt_open_mp_gcc.NextTask.Pair.{IsFiled, next_task-Best}
use ulmt_open_mp_gcc.NextTask.Array.{Chosen, get_higher_priority_task-Chosen}

abbrev five : Tasks
five n = record {
  priority = if n == 4 then pos 3 else pos n;
  kind = if n == 5 then tied else waiting;
  ult_var = true;
  is_blocked = false;
  parent_depends_on = n == 4;
}

abbrev holding : ℕ → PriorityList
holding a = record (empty_list (pos a)) { tasks = some a }

-- A tree with the lists of the tasks 1, 3 and 5.
abbrev odd : Queue
odd = record {
  num_priority_node = 3;
  num_waiting_priority_node = 2;
  highest_priority = pos 5;
  t = record {
    root = node (node leaf 1 leaf) 3 (node leaf 5 leaf);
    num_marked = 0;
    highest_marked = none;
  };
  l = empty_list (pos 0);
  nodes = record { key = λ a. pos a; marked = λ a. false; next = λ a. none; prev = λ a. none };
  lists = holding;
}

-- A queue with task 4 alone.
abbrev single : Queue
single = record odd {
  t = record { root = leaf; num_marked = 0; highest_marked = none };
  l = holding 4;
}

odd-IsFiled : IsFiled five odd
odd-IsFiled = record {
  sorted = ground arith;
  filed =
      ((λ n e. ground (arith, e)), ((λ n e. ground (arith, e)), ((λ n e. ground (arith, e)), tt)));
}

single-IsFiled : IsFiled five single
single-IsFiled = record { sorted = tt; filed = tt }

next_task-Best_example : Best five (1 ∷ 3 ∷ 4 ∷ []) (next_task five odd (some single)).0
next_task-Best_example = next_task-Best five odd single odd-IsFiled single-IsFiled

-- Task 4 comes before task 3 of the same priority, from the second queue.
dependence_first : next_task five odd (some single) ≡ (some 4, false)
unfolding next_task
dependence_first = refl

-- Of two queues without a tree, with priority 0 alone, the task is taken from the second one when only
-- the parent of its task depends on it, and when the first one is empty.
abbrev level : Tasks
level n = record {
  priority = pos 0;
  kind = waiting;
  ult_var = true;
  is_blocked = false;
  parent_depends_on = n == 4;
}

abbrev plain : ℕ → Queue
plain a = record single { l = record (empty_list (pos 0)) { tasks = some a } }

second_by_dependence : next_task level (plain 1) (some (plain 4)) ≡ (some 4, false)
unfolding next_task
second_by_dependence = refl

second_alone :
    next_task level (record single { l = empty_list (pos 0) }) (some (plain 4)) ≡ (some 4, false)
unfolding next_task
second_alone = refl

get_higher_priority_task-Chosen_example :
    Chosen five
      (λ n. ltb n 5)
      (some 1 ∷ none ∷ some 3 ∷ some 4 ∷ some 5 ∷ [])
      (get_higher_priority_task five (λ n. ltb n 5) (some 1 ∷ none ∷ some 3 ∷ some 4 ∷ some 5 ∷ []))
get_higher_priority_task-Chosen_example =
    get_higher_priority_task-Chosen five (λ n. ltb n 5)
      (some 1 ∷ none ∷ some 3 ∷ some 4 ∷ some 5 ∷ [])
