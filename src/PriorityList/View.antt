-- ===== src/PriorityList/View.antt =====
-- What a `struct priority_list` stands for: its tasks in order, by status, and its blocked tasks.
use ulmt_open_mp_gcc.Base.{
  ℕ, ◌≡◌, sym, subst, Bool, true, false, List, [], ◌∷◌, ◌++◌, head?, last?, Distinct,
}
use ulmt_open_mp_gcc.Ring.{Mem}
use ulmt_open_mp_gcc.Ring.Seg.{Heads}
use ulmt_open_mp_gcc.PriorityList.{PriorityList, State, InsertType, insert_begin, insert_end}

-- The order that priority_queue.h states: the WAITING tasks that the parent depends on, the other
-- WAITING tasks, the TIED (running) ones.
pub record View : Type 0 where
  pub depended : List ℕ
  pub waiting : List ℕ
  pub running : List ℕ
  pub blocked : List ℕ

abbrev pub contents : View → List ℕ
contents v = v.depended ++ (v.waiting ++ v.running)

-- No node is in the list twice, nor among the tasks and the blocked ones.
abbrev pub nodes : View → List ℕ
nodes v = contents v ++ v.blocked

-- The pointers of an ordered (children or taskgroup) list hold this view.
pub record Represents (m : Mem) (l : PriorityList) (v : View) : Type 0 where
  pub tasks_ring : Heads m l.tasks (contents v)
  pub blocked_ring : Heads m l.blocked_tasks v.blocked
  pub last_depended : l.last_parent_depends_on ≡ last? v.depended
  pub first_running : l.first_running_task ≡ head? v.running
  pub distinct : Distinct (nodes v)

-- The pointers of a flat (team, suspended or locked) list hold these tasks and blocked tasks.
pub record FlatRepresents (m : Mem) (l : PriorityList) (xs bs : List ℕ) : Type 0 where
  pub tasks_ring : Heads m l.tasks xs
  pub blocked_ring : Heads m l.blocked_tasks bs
  pub distinct : Distinct (xs ++ bs)

abbrev pub view : List ℕ → List ℕ → List ℕ → List ℕ → View
view ds ws rs bs = record { depended = ds; waiting = ws; running = rs; blocked = bs }

-- What the insertion is to do.
abbrev pub insert_view : View → ℕ → InsertType → Bool → Bool → View
insert_view v n pos depends true = record v { blocked = v.blocked ++ n ∷ [] }
insert_view v n insert_begin true false = record v { depended = n ∷ v.depended }
insert_view v n insert_end true false = record v { depended = v.depended ++ n ∷ [] }
insert_view v n insert_begin false false = record v { waiting = n ∷ v.waiting }
insert_view v n insert_end false false = record v { waiting = v.waiting ++ n ∷ [] }

-- The result of a function holds the view.
abbrev pub Holds : State → View → Type 0
Holds s v = Represents s.0 s.1 v

pub Holds-by : {s s' : State} {v : View} → s ≡ s' → Represents s'.0 s'.1 v → Holds s v
Holds-by {v = v} e h = subst (λ s. Represents s.0 s.1 v) (sym e) h
