-- ===== src/PriorityQueue/Tests.antt =====
-- The functions of a queue on the two small ones.
use ulmt_open_mp_gcc.Base.{Gives, not, ◌≡◌, refl, arith, none, some, true, false}
use ulmt_open_mp_gcc.Base.Int.{pos}
use ulmt_open_mp_gcc.PriorityList.{children_tied, team_tied, insert_end, PriorityList}
use ulmt_open_mp_gcc.PriorityQueue.{multi_p, tree_insert, tree_remove, empty_list}
use ulmt_open_mp_gcc.PriorityQueue.Sample.{
  numbered, rings, oaks, oaks-HpOk, seedling, seedling-HpOk, found_seven,
}
use ulmt_open_mp_gcc.PriorityQueue.Reads.{HpOk}
use ulmt_open_mp_gcc.PriorityQueue.Whole
use ulmt_open_mp_gcc.PriorityQueue.Whole.{insert-HpOk, remove-HpOk}
use ulmt_open_mp_gcc.PriorityQueue.Lost.{listed, blocked_task-lost}

-- Task 0 moves to the tree as node 100, and task 9 gets node 101.
insert-HpOk_example :
    Gives
      (Whole.insert numbered children_tied rings seedling 100 101 9 (pos 9) insert_end false false)
      (λ s. HpOk s.1)
insert-HpOk_example =
    insert-HpOk numbered rings seedling 100 101 9 (pos 9) refl tt tt (λ e. omega arith)
      seedling-HpOk children_tied insert_end false false

remove-HpOk_example :
    Gives
      (Whole.remove numbered team_tied rings oaks 7 false)
      (λ r. HpOk r.1.1 × (multi_p oaks ≡ true → r.0 ≡ not (multi_p r.1.1)))
remove-HpOk_example =
    remove-HpOk numbered team_tied rings oaks 7 false refl (λ e. (7, found_seven)) oaks-HpOk

abbrev waits_blocked : PriorityList
waits_blocked = record (empty_list (pos 0)) { blocked_tasks = some 0 }

blocked_task-lost_example :
    Gives
      (tree_insert numbered children_tied rings
        (listed seedling waits_blocked)
        100
        101
        9
        (pos 9)
        insert_end
        false
        false)
      (λ s. (s.1.l ≡ waits_blocked) × (tree_remove numbered children_tied s.0 s.1 0 true ≡ none))
blocked_task-lost_example =
    blocked_task-lost numbered children_tied rings seedling waits_blocked 100 101 9 0 (pos 9)
      insert_end false refl (omega arith) refl refl
