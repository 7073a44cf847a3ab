-- ===== src/PriorityQueue/Sample.antt =====
-- A queue to try the functions on: the lists of the priorities 1, 4 and 7, of which 1 and 7 are marked.
-- Task n has the priority n and waits.
use ulmt_open_mp_gcc.Base.{ℕ, ◌≡◌, refl, arith, none, some, true, false, ◌||◌, ◌==◌, update}
use ulmt_open_mp_gcc.Base.Int.{pos}
use ulmt_open_mp_gcc.Ring.{Mem}
use ulmt_open_mp_gcc.PriorityList.{PriorityList}
use ulmt_open_mp_gcc.Splay.{leaf, node, prio_splay_compare}
use ulmt_open_mp_gcc.PriorityQueue.{Tasks, waiting, Queue, empty_list}
use ulmt_open_mp_gcc.PriorityQueue.Reads.{HpOk, members}
use ulmt_open_mp_gcc.Splay.Ordered.{find}

abbrev pub numbered : Tasks
numbered n = record {
  priority = pos n;
  kind = waiting;
  ult_var = true;
  is_blocked = false;
  parent_depends_on = false;
}

-- Every node is linked to itself.
abbrev pub rings : Mem
rings = record { next = λ a. a; prev = λ a. a }

abbrev holding : ℕ → PriorityList
holding a = record (empty_list (pos a)) { tasks = some a }

abbrev pub oaks : Queue
oaks = record {
  num_priority_node = 3;
  num_waiting_priority_node = 2;
  highest_priority = pos 7;
  t = record {
    root = node (node leaf 1 leaf) 4 (node leaf 7 leaf);
    num_marked = 2;
    highest_marked = some 7;
  };
  l = empty_list (pos 0);
  nodes = record {
    key = λ a. pos a;
    marked = λ a. a == 1 || a == 7;
    next = update (update (λ a. none) 1 (some 4)) 4 (some 7);
    prev = update (update (λ a. none) 4 (some 1)) 7 (some 4);
  };
  lists = holding;
}

pub oaks-HpOk : HpOk oaks
oaks-HpOk = record {
  valid = record {
    sorted = ((omega arith, (omega arith, tt)), ((omega arith, tt), (tt, tt)));
    chain = (refl, refl, (refl, refl, (refl, refl, tt)));
    tracked = record { counted = refl; highest = refl };
  };
  highest = refl;
}

-- The same queue before it has a tree: a list with task 0.
abbrev pub seedling : Queue
seedling = record oaks {
  highest_priority = pos 0;
  t = record { root = leaf; num_marked = 0; highest_marked = none };
  l = record (empty_list (pos 0)) { tasks = some 0 };
}

pub seedling-HpOk : HpOk seedling
seedling-HpOk = record {
  valid = record { sorted = tt; chain = tt; tracked = record { counted = refl; highest = refl } };
  highest = refl;
}

pub found_seven : find oaks.nodes.key (pos 7) (members oaks) ≡ some 7
unfolding prio_splay_compare
found_seven = refl
