-- ===== src/PriorityQueue/Either.antt =====
-- What the functions on a whole queue have in common: they work on the list or on the tree, and store
-- to a counter.
use ulmt_open_mp_gcc.Base.{
  Gives, ℕ, ◌≡◌, refl, Bool, true, false, Option, some, if◌then◌else◌, arith,
}
use ulmt_open_mp_gcc.PriorityList
use ulmt_open_mp_gcc.PriorityQueue.{Queue, State, and_then, on_list}
use ulmt_open_mp_gcc.PriorityQueue.Reads.{HpOk}

-- A store to the counter behind it.
pub with_store :
    (o : Option State) (f : State → State)
    → ((s : State) → HpOk s.1 → HpOk (f s).1)
    → Gives o (λ s. HpOk s.1)
    → Gives (and_then o (λ s. some (f s))) (λ s. HpOk s.1)
with_store o f k (s, e, v) = (f s, ground (arith, e), k s v)

pub counted-HpOk : (q : Queue) (c : ℕ) → HpOk q → HpOk (record q { num_waiting_priority_node = c })
counted-HpOk q c v = record { valid = v.valid; highest = v.highest }

-- In the tree, or in the one list.
pub in_either :
    (b : Bool) (q : Queue) (o : Option State) (s : PriorityList.State)
    → HpOk q
    → (b ≡ true → Gives o (λ s'. HpOk s'.1))
    → Gives (if b then o else some (on_list q s)) (λ s'. HpOk s'.1)
in_either true q o s v f = f refl
in_either false q o s v f = (on_list q s, refl, record { valid = v.valid; highest = v.highest })
