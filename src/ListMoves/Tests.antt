-- ===== src/ListMoves/Tests.antt =====
-- The moves on a small list: node 1 is depended on, 2 and 3 wait, 4 runs, 5 is blocked.
use ulmt_open_mp_gcc.Base.{refl, [], ◌∷◌, some, false, arith, update}
use ulmt_open_mp_gcc.Base.Int.{pos}
use ulmt_open_mp_gcc.Ring.{Mem}
use ulmt_open_mp_gcc.PriorityList.{PriorityList}
use ulmt_open_mp_gcc.PriorityList.View.{View, Represents, view}
use ulmt_open_mp_gcc.ListMoves.{upgrade_list, downgrade_list}
use ulmt_open_mp_gcc.ListMoves.Upgrade.{upgrade_list-Represents}
use ulmt_open_mp_gcc.ListMoves.Downgrade.{downgrade_list-Represents}

abbrev links : Mem
links = record {
  next = update (update (update (update (update (λ a. 0) 1 2) 2 3) 3 4) 4 1) 5 5;
  prev = update (update (update (update (update (λ a. 0) 1 4) 2 1) 3 2) 4 3) 5 5;
}

abbrev children : PriorityList
children = record {
  priority = pos 0;
  tasks = some 1;
  last_parent_depends_on = some 1;
  first_running_task = some 4;
  blocked_tasks = some 5;
}

abbrev shown : View
shown = view (1 ∷ []) (2 ∷ 3 ∷ []) (4 ∷ []) (5 ∷ [])

children-Represents : Represents links children shown
children-Represents = ground arith

upgrade_list-Represents_example :
    let (m, l) = upgrade_list links children 3 in
    Represents m l (view (1 ∷ 3 ∷ []) (2 ∷ []) (4 ∷ []) (5 ∷ []))
upgrade_list-Represents_example = upgrade_list-Represents 3 (2 ∷ []) [] refl children-Represents

downgrade_list-Represents_example :
    let (m, l) = downgrade_list links children 2 in
    Represents m l (view (1 ∷ []) (3 ∷ []) (4 ∷ 2 ∷ []) (5 ∷ []))
downgrade_list-Represents_example =
    downgrade_list-Represents 2 false [] (3 ∷ []) refl children-Represents
