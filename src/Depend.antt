-- ===== src/Depend.antt =====
-- task.c: the dependences between tasks (`depend` clauses). The chain of an address is the list of its
-- entries from the slot of the hash table along `next`.
pub mod Count
pub mod Moved
pub mod Counted
pub mod Create
pub mod Release
pub mod Unchain
pub mod Finish
pub mod Order
pub mod Runs
mod Tests
use ulmt_open_mp_gcc.Base.{
  ℕ, zero, suc, ◌+◌, ◌-◌, ◌≡◌, Bool, true, false, not, ◌&&◌, Option, none, some, if◌then◌else◌, ltb,
  leb, ◌==◌, update, List, [], ◌∷◌, ◌++◌, take, drop,
}

-- `struct gomp_task_depend_entry` in a chain
pub record Entry : Type 0 where
  pub task : ℕ
  pub is_in : Bool
  pub redundant_out : Bool

-- The hash table of the parent, and the fields `dependers`, `num_dependees` and `depend` of its
-- children, the last as the addresses with their flag `redundant`.
pub record Depends : Type 0 where
  pub chain : ℕ → List Entry
  pub dependers : ℕ → Option (List ℕ)
  pub num_dependees : ℕ → ℕ
  pub depend : ℕ → List (ℕ × Bool)

-- `tsk->dependers->elem[tsk->dependers->n_elem - 1] == task`, if there is an element
abbrev pub is_last : List ℕ → ℕ → Bool
is_last [] task = false
is_last (x ∷ []) task = x == task
is_last (x ∷ y ∷ xs) task = is_last (y ∷ xs) task

abbrev pub add_depender : Depends → ℕ → List ℕ → ℕ → Depends
add_depender d tsk elem task = record d {
  dependers = update d.dependers tsk (some (elem ++ task ∷ []));
  num_dependees = update d.num_dependees task (suc (d.num_dependees task));
}

-- The part of the loop over a chain that makes `task` a depender of `tsk`.
pub depend_on : Depends → ℕ → ℕ → Depends
depend_on d tsk task = elim (d.dependers tsk) [
  | none ↦ add_depender d tsk [] task
  | some elem ↦ if is_last elem task then d else add_depender d tsk elem task
]

-- The loop over a chain, from its entry number `i` on: the numbers of `out` and behind `last`, and the
-- state.
pub walk : ℕ → Bool → List Entry → ℕ → Option ℕ → Depends → Option ℕ × ℕ × Depends
unfolding depend_on
walk task is_in [] i out d = (out, i, d)
walk task is_in (ent ∷ es) i out d =
    let skipped = walk task is_in es (suc i) out d in
    let done =
      walk task is_in es (suc i) (if ent.is_in then out else some i) (depend_on d ent.task task) in
    if ent.redundant_out then (out, i, d) else if is_in && ent.is_in then skipped else done

abbrev mark_all : List Entry → List Entry
mark_all [] = []
mark_all (e ∷ es) = record e { redundant_out = true } ∷ es

-- Entry number `out` goes behind the entry before number `last` and is marked.
pub move_out : List Entry → ℕ → ℕ → List Entry
move_out es out last =
    take out es
    ++ (take (last - suc out) (drop (suc out) es)
        ++ (mark_all (take 1 (drop out es)) ++ drop last es))

-- Whether the first entry of a chain is one of the task.
abbrev pub is_own : List Entry → ℕ → Bool
is_own [] task = false
is_own (e ∷ es) task = e.task == task

-- One round of the loop of `gomp_task_handle_depend`.
pub handle_clause : ℕ → ℕ → Bool → Depends → Depends
unfolding walk move_out
handle_clause task addr is_in d =
    let es = d.chain addr in
    let (out, last, d') = walk task is_in es 0 none d in
    let new : Entry = record { task = task; is_in = is_in; redundant_out = false } in
    let es' : List Entry = elim out [
      | none ↦ es
      | some o ↦ if is_in then es else move_out es o last
    ] in
    if is_own es task
    then record d { depend = update d.depend task (d.depend task ++ (addr, true) ∷ []) }
    else record d' {
      chain = update d'.chain addr (new ∷ es');
      depend = update d'.depend task (d'.depend task ++ (addr, false) ∷ []);
    }

-- The loop, from clause number `i` on.
pub handle_clauses : ℕ → ℕ → ℕ → List ℕ → Depends → Depends
unfolding handle_clause
handle_clauses task nout i [] d = d
handle_clauses task nout i (addr ∷ addrs) d =
    handle_clauses task nout (suc i) addrs (handle_clause task addr (leb nout i) d)

-- `gomp_task_handle_depend`, of which the first `nout` addresses are written.
pub handle_depend : ℕ → ℕ → List ℕ → Depends → Depends
unfolding handle_clauses
handle_depend task nout addrs d =
    handle_clauses task nout 0 addrs
      (record d { num_dependees = update d.num_dependees task 0; depend = update d.depend task [] })

-- An entry leaves its chain.
abbrev pub unchain : ℕ → List Entry → List Entry
unchain task [] = []
unchain task (e ∷ es) = if e.task == task then es else e ∷ unchain task es

-- `gomp_task_run_post_handle_depend_hash`
pub handle_depend_hash : ℕ → List (ℕ × Bool) → Depends → Depends
handle_depend_hash child [] d = d
handle_depend_hash child ((addr, redundant) ∷ es) d = handle_depend_hash child es (
    if redundant
    then d
    else record d { chain = update d.chain addr (unchain child (d.chain addr)) })

-- `--num_dependees` on a `size_t`
abbrev pub dec : ℕ → ℕ
dec n = if n == 0 then 18446744073709551615 else n - 1

-- The loop of `gomp_task_run_post_handle_dependers`: the tasks that go to the queues, in order.
pub release : List ℕ → Depends → List ℕ × Depends
release [] d = ([], d)
release (t ∷ ts) d =
    let n = dec (d.num_dependees t) in
    let (rest, d') = release ts (record d { num_dependees = update d.num_dependees t n }) in
    (if n == 0 then t ∷ rest else rest, d')

-- `gomp_task_run_post_handle_dependers`, when there are any.
pub handle_dependers : ℕ → Depends → List ℕ × Depends
unfolding release
handle_dependers child d = elim (d.dependers child) [
  | none ↦ ([], d)
  | some elem ↦
      let (ready, d') = release elem d in
      (ready, record d' { dependers = update d'.dependers child none })
]

-- `gomp_task_run_post_handle_depend`; `parent` is whether the parent is still there.
pub post_handle_depend : Bool → ℕ → Depends → List ℕ × Depends
unfolding handle_depend_hash handle_dependers
post_handle_depend parent child d = elim (d.depend child) [
  | [] ↦ ([], d)
  | _ ∷ _ ↦
      handle_dependers child (if parent then handle_depend_hash child (d.depend child) d else d)
]
