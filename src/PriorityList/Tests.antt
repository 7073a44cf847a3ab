-- ===== src/PriorityList/Tests.antt =====
-- The list functions on a small list: nodes 1 and 2 are depended on, 3 waits, 4 runs, 5 is blocked.
use ulmt_open_mp_gcc.Base.{refl, [], ◌∷◌, some, true, false, arith, update}
use ulmt_open_mp_gcc.Base.Int.{pos}
use ulmt_open_mp_gcc.Ring.{Mem}
use ulmt_open_mp_gcc.PriorityList.{
  PriorityList, children_tied, insert_end, insert, insert_running, remove,
}
use ulmt_open_mp_gcc.PriorityList.View.{View, Represents, FlatRepresents, view}
use ulmt_open_mp_gcc.PriorityList.Insert.{insert-Represents}
use ulmt_open_mp_gcc.PriorityList.Running.{insert_running-Represents}
use ulmt_open_mp_gcc.PriorityList.Round.{remove-insert}
use ulmt_open_mp_gcc.PriorityList.Remove.{remove-Represents}

abbrev links : Mem
links = record {
  next = update (update (update (update (update (λ a. 0) 1 2) 2 3) 3 4) 4 1) 5 5;
  prev = update (update (update (update (update (λ a. 0) 1 4) 2 1) 3 2) 4 3) 5 5;
}

abbrev children : PriorityList
children = record {
  priority = pos 0;
  tasks = some 1;
  last_parent_depends_on = some 2;
  first_running_task = some 4;
  blocked_tasks = some 5;
}

abbrev shown : View
shown = view (1 ∷ 2 ∷ []) (3 ∷ []) (4 ∷ []) (5 ∷ [])

children-Represents : Represents links children shown
children-Represents = ground arith

children-FlatRepresents : FlatRepresents links children (1 ∷ 2 ∷ 3 ∷ 4 ∷ []) (5 ∷ [])
children-FlatRepresents = ground arith

insert-Represents_example :
    let (m, l) = insert children_tied links children 6 insert_end false false in
    Represents m l (view (1 ∷ 2 ∷ []) (3 ∷ 6 ∷ []) (4 ∷ []) (5 ∷ []))
insert-Represents_example =
    insert-Represents children_tied 6 insert_end false false refl children-Represents (omega arith)

insert_running-Represents_example :
    let (m, l) = insert_running links children 6 in
    Represents m l (view (1 ∷ 2 ∷ []) (3 ∷ []) (4 ∷ 6 ∷ []) (5 ∷ []))
insert_running-Represents_example = insert_running-Represents 6 children-Represents (omega arith)

remove-Represents_example :
    let (empty, (m, l)) = remove children_tied links children 2 false in
    Represents m l (view (1 ∷ []) (3 ∷ []) (4 ∷ []) (5 ∷ []))
remove-Represents_example =
    remove-Represents children_tied 2 false refl children-Represents (λ h. h.1.0 refl)

remove-insert_example :
    let (m, l) = insert children_tied links children 6 insert_end true false in
    let (empty, (m', l')) = remove children_tied m l 6 false in Represents m' l' shown
remove-insert_example =
    remove-insert children_tied 6 insert_end true false refl children-Represents (omega arith)
