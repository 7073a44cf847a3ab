-- ===== src/Depend/Tests.antt =====
-- Two tasks: task 1 writes to 100, and task 2 reads from 100 and from 200.
use ulmt_open_mp_gcc.Base.{◌≡◌, refl, true, false, some, [], ◌∷◌}
use ulmt_open_mp_gcc.Depend.{Depends, is_own, handle_clause, handle_depend, post_handle_depend}
use ulmt_open_mp_gcc.Depend.Count.{occurs, less}
use ulmt_open_mp_gcc.Depend.Counted.{IsCounted, Awaited}
use ulmt_open_mp_gcc.Depend.Create.{handle_clause-Awaited, handle_depend-IsCounted}
use ulmt_open_mp_gcc.Depend.Runs.{
  no_depends, Runs, start, create, no_depends-IsCounted, oldest-ready,
}
use ulmt_open_mp_gcc.Depend.Finish.{Releases, post_handle_depend-IsCounted}

abbrev one_task : Depends
one_task = handle_depend 1 1 (100 ∷ []) no_depends

abbrev two_tasks : Depends
two_tasks = handle_depend 2 0 (100 ∷ 200 ∷ []) one_task

reader_waits : two_tasks.num_dependees 2 ≡ 1
unfolding handle_depend
reader_waits = refl

writer_ready : two_tasks.num_dependees 1 ≡ 0
unfolding handle_depend
writer_ready = refl

writer_clauses : two_tasks.depend 1 ≡ (100, false) ∷ []
unfolding handle_depend
writer_clauses = refl

reader_released : (post_handle_depend true 1 two_tasks).0 ≡ 2 ∷ []
unfolding handle_depend post_handle_depend
reader_released = refl

-- A second clause of the same address is redundant, and a writer behind the reader waits for it.
repeated :
    (handle_clause 2 100 false two_tasks).depend 2 ≡ (100, false) ∷ (200, false) ∷ (100, true) ∷ []
unfolding handle_depend handle_clause
repeated = refl

writer_behind : (handle_depend 3 1 (200 ∷ []) two_tasks).dependers 2 ≡ some (3 ∷ [])
unfolding handle_depend
writer_behind = refl

one_task-IsCounted : IsCounted (1 ∷ []) one_task
one_task-IsCounted = handle_depend-IsCounted [] no_depends 1 1 (100 ∷ []) no_depends-IsCounted refl

handle_depend-IsCounted_example : IsCounted (2 ∷ 1 ∷ []) two_tasks
handle_depend-IsCounted_example =
    handle_depend-IsCounted (1 ∷ []) one_task 2 0 (100 ∷ 200 ∷ []) one_task-IsCounted refl

two_tasks-IsCounted : IsCounted (2 ∷ 1 ∷ []) two_tasks
two_tasks-IsCounted =
    handle_depend-IsCounted (1 ∷ []) one_task 2 0 (100 ∷ 200 ∷ []) one_task-IsCounted refl

-- Task 3 is to write to 200.
abbrev three_tasks : Depends
three_tasks = handle_depend 3 1 [] two_tasks

three_tasks-IsCounted : IsCounted (3 ∷ 2 ∷ 1 ∷ []) three_tasks
three_tasks-IsCounted =
    handle_depend-IsCounted (2 ∷ 1 ∷ []) two_tasks 3 1 [] two_tasks-IsCounted refl

not_own : is_own (three_tasks.chain 200) 3 ≡ false
unfolding handle_depend
not_own = refl

handle_clause-Awaited_example :
    Awaited 3 false (three_tasks.chain 200) (handle_clause 3 200 false three_tasks).dependers
handle_clause-Awaited_example =
    handle_clause-Awaited (3 ∷ 2 ∷ 1 ∷ []) three_tasks 3 200 false three_tasks-IsCounted refl
      not_own

two_tasks-Runs : Runs (2 ∷ 1 ∷ []) two_tasks
two_tasks-Runs =
    create (1 ∷ []) one_task 2 0 100 (200 ∷ []) (create [] no_depends 1 1 100 [] start refl) refl

oldest-ready_example : (occurs 1 (2 ∷ 1 ∷ []) ≡ 1) × (two_tasks.num_dependees 1 ≡ 0)
oldest-ready_example = oldest-ready 2 (1 ∷ []) two_tasks two_tasks-Runs

post_handle_depend-IsCounted_example :
    let (ready, d') = post_handle_depend true 1 two_tasks in
    IsCounted (less 1 (2 ∷ 1 ∷ [])) d' × Releases ready (2 ∷ 1 ∷ []) 1 two_tasks
post_handle_depend-IsCounted_example =
    post_handle_depend-IsCounted (2 ∷ 1 ∷ []) two_tasks 1 (100, false) [] two_tasks-IsCounted refl
      writer_ready writer_clauses
