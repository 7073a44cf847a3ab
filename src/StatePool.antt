-- ===== src/StatePool.antt =====
-- state.c and state.h: the free task states (stacks) of the threads, `struct gomp_task_state_list_group`.
-- A state is its address. The spin lock is taken by the caller's last attempt; what the attempts before
-- it read is an argument.
pub mod Linked
pub mod Walk
pub mod Take
pub mod Give
mod Tests
use ulmt_open_mp_gcc.Base.{
  ℕ, zero, suc, ◌+◌, ◌-◌, ◌*◌, ◌/◌, ◌%◌, Bool, true, false, not, ◌&&◌, ◌||◌, Option, none, some,
  if◌then◌else◌, is_none, ltb, leb, ◌==◌, update, List, [], ◌∷◌,
}

-- The pointers of `struct gomp_task_state`, by address.
pub record Links : Type 0 where
  pub next : ℕ → Option ℕ
  pub next_to_free : ℕ → Option ℕ
  pub switch_task : ℕ → Option ℕ
  pub switch_from_task : ℕ → Option ℕ

-- `struct gomp_task_state_list`
pub record StateList : Type 0 where
  pub list_size : ℕ
  pub list : Option ℕ
  pub list_to_free : Option ℕ

-- `struct gomp_task_state_list_group`, less the lists of the threads
pub record Group : Type 0 where
  pub allocated_tasks : ℕ
  pub thread_list_number : ℕ
  pub global_list : StateList

-- `unsigned`
abbrev pub unsigned : ℕ
unsigned = 4294967296

abbrev pub add : ℕ → ℕ → ℕ
add a b = (a + b) % unsigned

abbrev pub sub : ℕ → ℕ → ℕ
sub a b = (a + unsigned - b % unsigned) % unsigned

-- `NUM_ADD_STATE`
abbrev pub num_add_state : ℕ
num_add_state = 64

-- The links, the group, and the list of the thread.
abbrev pub State : Type 0
State = Links × Group × StateList

abbrev pub set_next : Links → ℕ → Option ℕ → Links
set_next m a v = record m { next = update m.next a v }

-- One round of the loop of `gomp_task_state_list_alloc`, with `more` states to come.
pub init_state : Links → ℕ → ℕ → ℕ → Links
init_state m ptr full_size more = record {
  next = update m.next ptr (if more == 0 then none else some (ptr + full_size));
  next_to_free = update m.next_to_free ptr none;
  switch_task = update m.switch_task ptr none;
  switch_from_task = update m.switch_from_task ptr none;
}

-- The loop, for `num` states of which the first is at `ptr`.
pub list_alloc : Links → ℕ → ℕ → ℕ → Links
unfolding init_state
list_alloc m ptr full_size zero = m
list_alloc m ptr full_size (suc num) =
    list_alloc (init_state m ptr full_size num) (ptr + full_size) full_size num

-- `do { state_last = state; state = state->next; count -= 1; } while (state && count);`, where `count`
-- is what is left after the first round: `state_last`, and the count.
pub walk : (ℕ → Option ℕ) → ℕ → ℕ → ℕ × ℕ
walk next zero state = (state, 0)
walk next (suc count) state = elim (next state) [
  | none ↦ (state, suc count)
  | some state' ↦ walk next count state'
]

-- `state = local->list; local->list = state->next; state->next = NULL;`
abbrev pub pop : Links → ℕ → StateList → ℕ → ℕ × (Links × StateList)
pop m state local size =
    (state, (set_next m state none, record local { list = m.next state; list_size = size }))

-- Whether the attempts to lock go on: `reads` has what each of them reads of
-- `pool->global_list.list_size`; the last one gets the lock.
pub goes_on : List ℕ → Bool
goes_on [] = true
goes_on (size ∷ reads) = if ltb size num_add_state then false else goes_on reads

-- The part of `gomp_get_task_state` under the lock, from the first state of the global list.
pub from_global : Links → Group → StateList → ℕ → ℕ × State
unfolding walk
from_global m pool local state =
    let (state_last, count) = walk m.next (num_add_state - 1) state in
    let global = record pool.global_list {
      list = m.next state_last;
      list_size = sub pool.global_list.list_size (num_add_state - count);
    } in
    let (s, (m', local')) =
      pop (set_next m state_last none) state local
        (add local.list_size (num_add_state - count - 1)) in
    (s, (m', record pool { global_list = global }, local'))

-- The part that allocates, at `ptr`.
pub from_memory : Links → Group → StateList → ℕ → ℕ → ℕ × State
unfolding list_alloc
from_memory m pool local ptr full_size =
    let m₁ = list_alloc m ptr full_size num_add_state in
    let m₂ = record m₁ { next_to_free = update m₁.next_to_free ptr local.list_to_free } in
    let (s, (m', local')) =
      pop m₂ ptr (record local { list_to_free = some ptr }) (num_add_state - 1) in
    (s, (m', record pool { allocated_tasks = add pool.allocated_tasks num_add_state }, local'))

-- `gomp_get_task_state`; `ptr` and `full_size` are the address that gomp_malloc gives and the size of a
-- state with its stack.
pub get_task_state : Links → Group → StateList → List ℕ → ℕ → ℕ → ℕ × State
unfolding goes_on from_global from_memory
get_task_state m pool local reads ptr full_size = elim (local.list) [
  | some state ↦
      let (s, (m', local')) = pop m state local (sub local.list_size 1) in (s, (m', pool, local'))
  | none ↦
      if goes_on reads
      then elim (pool.global_list.list) [
        | none ↦ from_memory m pool local ptr full_size
        | some state ↦ from_global m pool local state
      ]
      else from_memory m pool local ptr full_size
]

-- `level` and `surplus`
abbrev pub level : ℕ → ℕ → ℕ
level allocated_tasks thread_list_number = allocated_tasks / thread_list_number

-- `if (picked == 0)`: `state_last` and `picked` from the first attempt on
pub pick : (ℕ → Option ℕ) → ℕ → ℕ → Option (ℕ × ℕ) → ℕ × ℕ
unfolding walk
pick next surplus first (some p) = p
pick next surplus first none = let w = walk next (surplus - 1) first in (w.0, surplus - w.1)

-- What the attempts of `gomp_free_task_state` to lock come to: each has read `allocated_tasks` and the
-- size of the global list, and the last one gets the lock. The result has `state_last`, how many states
-- the first attempt picked, and the last `level`; `none` is a return before the lock.
pub picks : (ℕ → Option ℕ) → ℕ → ℕ → ℕ → Option (ℕ × ℕ) → List (ℕ × ℕ) → Option (ℕ × ℕ × ℕ)
unfolding pick
picks next number size first picked [] = none
picks next number size first picked (r ∷ reads) =
    let surplus = level (level r.0 number) number in
    let threshold = add (level r.0 number) surplus in
    let p = pick next surplus first picked in
    let rest = picks next number size first (some p) reads in
    if surplus == 0
    then none
    else if leb size threshold || leb (level r.0 number) r.1
    then none
    else elim reads [ [] ↦ some (p.0, p.1, level r.0 number) | _ ∷ _ ↦ rest ]

-- The part of `gomp_free_task_state` under the lock.
pub to_global : Links → Group → StateList → ℕ → ℕ × ℕ × ℕ → State
to_global m pool local first (state_last, picked, lev) =
    if leb lev pool.global_list.list_size then (m, pool, local) else (
      set_next m state_last pool.global_list.list,
      record pool {
        global_list = record (pool.global_list) {
          list = some first;
          list_size = add pool.global_list.list_size picked;
        };
      },
      record local { list = m.next state_last; list_size = sub local.list_size picked },
    )

-- `gomp_free_task_state`
pub free_task_state : Links → Group → StateList → List (ℕ × ℕ) → ℕ → State
unfolding picks to_global
free_task_state m pool local reads state =
    let m' = record m {
      next = update m.next state local.list;
      switch_task = update m.switch_task state none;
      switch_from_task = update m.switch_from_task state none;
    } in
    let local' = record local { list = some state; list_size = add local.list_size 1 } in
    elim (picks m'.next pool.thread_list_number local'.list_size state none reads) [
      | none ↦ (m', pool, local')
      | some p ↦ to_global m' pool local' state p
    ]
