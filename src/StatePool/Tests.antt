-- ===== src/StatePool/Tests.antt =====
-- The pool with three free states of the thread, 10, 20 and 30, and two global ones, 40 and 50. A state
-- with its stack has the size 5.
use ulmt_open_mp_gcc.Base.{arith, none, some, [], ◌∷◌, update}
use ulmt_open_mp_gcc.StatePool
use ulmt_open_mp_gcc.StatePool.{Links, Group, StateList, get_task_state, free_task_state}
use ulmt_open_mp_gcc.StatePool.Linked.{Holds}
use ulmt_open_mp_gcc.StatePool.Take.{Served, get_task_state-Served}
use ulmt_open_mp_gcc.StatePool.Give.{Moved, free_task_state-Moved}

abbrev links : Links
links = record {
  next = update (update (update (λ a. none) 10 (some 20)) 20 (some 30)) 40 (some 50);
  next_to_free = λ a. none;
  switch_task = λ a. none;
  switch_from_task = λ a. none;
}

-- Twelve states have been allocated for three threads.
abbrev pool : Group
pool = record {
  allocated_tasks = 12;
  thread_list_number = 3;
  global_list = record { list_size = 2; list = some 40; list_to_free = none };
}

abbrev three : StateList
three = record { list_size = 3; list = some 10; list_to_free = none }

abbrev nothing : StateList
nothing = record { list_size = 0; list = none; list_to_free = none }

three-Holds : Holds links pool three (10 ∷ 20 ∷ 30 ∷ []) (40 ∷ 50 ∷ [])
three-Holds = ground arith

nothing-Holds : Holds links pool nothing [] (40 ∷ 50 ∷ [])
nothing-Holds = ground arith

-- Both global states are taken, though the size that was read before the lock was larger.
get_task_state-Served_example :
    Served (get_task_state links pool nothing (70 ∷ 66 ∷ []) 100 5) (40 ∷ 50 ∷ []) []
unfolding StatePool.goes_on
get_task_state-Served_example =
    get_task_state-Served links pool nothing [] (40 ∷ 50 ∷ []) (70 ∷ 66 ∷ []) 100 5 (omega arith)
      (ground arith) nothing-Holds

-- The fourth state does not move while the list is not longer than 5.
free_task_state-Moved_example :
    Moved
      (free_task_state links pool three ((12, 2) ∷ []) 60)
      (60 ∷ 10 ∷ 20 ∷ 30 ∷ [])
      (40 ∷ 50 ∷ [])
free_task_state-Moved_example =
    free_task_state-Moved links pool three ((12, 2) ∷ []) 60 (10 ∷ 20 ∷ 30 ∷ []) (40 ∷ 50 ∷ [])
      (ground arith) three-Holds
