-- ===== src/Ordered.antt =====
-- ordered.c: the ring of the threads of a team that have iterations of an ordered loop, and the
-- semaphores that let them into the ordered section one by one.
pub mod Ring
pub mod Fair
pub mod Steps
mod Tests
use ulmt_open_mp_gcc.Base.{
  ℕ, zero, suc, ◌+◌, ◌-◌, ◌%◌, ◌<◌, ◌≡◌, Bool, true, false, Option, none, some, if◌then◌else◌, leb,
  ltb, ◌==◌, update, NotIn, List, [], ◌∷◌,
}

-- The fields of `struct gomp_work_share` for an ordered loop, with the team's `ordered_release`: the
-- value of each thread's semaphore.
pub record OrderedShare : Type 0 where
  pub ordered_team_ids : ℕ → ℕ
  pub ordered_num_used : ℕ
  pub ordered_owner : ℕ
  pub ordered_cur : ℕ
  pub ordered_release : ℕ → ℕ

-- `unsigned`
abbrev pub unsigned : ℕ
unsigned = 4294967296

abbrev pub add : ℕ → ℕ → ℕ
add a b = (a + b) % unsigned

abbrev pub sub : ℕ → ℕ → ℕ
sub a b = (a + unsigned - b) % unsigned

-- -1, when no thread owns the section
abbrev pub no_owner : ℕ
no_owner = 4294967295

-- `gomp_sem_post (team->ordered_release[id])`
abbrev pub post : OrderedShare → ℕ → OrderedShare
post ws id = record ws {
  ordered_release = update ws.ordered_release id (suc (ws.ordered_release id));
}

-- `index = ws->ordered_cur + ws->ordered_num_used; if (index >= team->nthreads) index -= team->nthreads;`
abbrev pub end_index : ℕ → OrderedShare → ℕ
end_index nthreads ws =
    let index = add ws.ordered_cur ws.ordered_num_used in
    if leb nthreads index then sub index nthreads else index

abbrev pub register : ℕ → OrderedShare → ℕ → OrderedShare
register nthreads ws id = record ws {
  ordered_team_ids = update ws.ordered_team_ids (end_index nthreads ws) id;
}

-- `next = ws->ordered_cur + 1; if (next == team->nthreads) next = 0;`
abbrev pub next_index : ℕ → ℕ → ℕ
next_index nthreads cur = if add cur 1 == nthreads then 0 else add cur 1

-- The next thread of the ring is woken.
abbrev pub pass_on : ℕ → OrderedShare → OrderedShare
pass_on nthreads ws =
    let next = next_index nthreads ws.ordered_cur in
    post (record ws { ordered_cur = next }) (ws.ordered_team_ids next)

-- `gomp_ordered_first`, for the thread `id` of a team of `nthreads`; a missing team counts as 1 thread,
-- here and below.
pub ordered_first : ℕ → ℕ → OrderedShare → OrderedShare
ordered_first nthreads id ws =
    let ws' = record (register nthreads ws id) { ordered_num_used = add ws.ordered_num_used 1 } in
    if nthreads == 1 then ws else if ws.ordered_num_used == 0 then post ws' id else ws'

-- `gomp_ordered_last`
pub ordered_last : ℕ → ℕ → OrderedShare → OrderedShare
ordered_last nthreads id ws =
    let ws' = record ws {
      ordered_owner = no_owner;
      ordered_num_used = sub ws.ordered_num_used 1;
    } in
    if nthreads == 1 then ws else if ltb 0 ws'.ordered_num_used then pass_on nthreads ws' else ws'

-- `gomp_ordered_next`
pub ordered_next : ℕ → ℕ → OrderedShare → OrderedShare
ordered_next nthreads id ws =
    let ws' = record ws { ordered_owner = no_owner } in
    if nthreads == 1
    then ws
    else if ws.ordered_num_used == 1
    then post ws' id
    else pass_on nthreads
        (if ltb ws.ordered_num_used nthreads then register nthreads ws' id else ws')

-- `gomp_ordered_static_init` and `gomp_ordered_static_next`
pub ordered_static_init : ℕ → OrderedShare → OrderedShare
ordered_static_init nthreads ws = if nthreads == 1 then ws else post ws 0

pub ordered_static_next : ℕ → ℕ → OrderedShare → OrderedShare
ordered_static_next nthreads id ws =
    let next = next_index nthreads id in
    let ws' = record ws {
      ordered_owner = no_owner;
      ordered_team_ids = update ws.ordered_team_ids 0 next;
    } in
    if nthreads == 1 then ws else post ws' next

-- `gomp_ordered_sync`; `none` while the thread waits.
pub ordered_sync : ℕ → ℕ → OrderedShare → Option OrderedShare
ordered_sync nthreads id ws =
    if nthreads == 1
    then some ws
    else if ws.ordered_owner == id
    then some ws
    else if ws.ordered_release id == 0
    then none
    else some (record ws {
      ordered_owner = id;
      ordered_release = update ws.ordered_release id (ws.ordered_release id - 1);
    })

-- The threads in the ring, from the one whose turn it is.
abbrev pub read : (ℕ → ℕ) → ℕ → ℕ → ℕ → List ℕ
read ids nthreads cur zero = []
read ids nthreads cur (suc k) = ids cur ∷ read ids nthreads (next_index nthreads cur) k

abbrev pub queue : ℕ → OrderedShare → List ℕ
queue nthreads ws = read ws.ordered_team_ids nthreads ws.ordered_cur ws.ordered_num_used

-- The steps of a team: a thread that is not in the ring registers, one gets into the section, or the
-- owner passes it on, with or without further iterations.
pub data Step (nthreads : ℕ) : OrderedShare → OrderedShare → Type 0 where
  first :
      (ws : OrderedShare) (id : ℕ)
      → id < nthreads
      → NotIn id (queue nthreads ws)
      → Step nthreads ws (ordered_first nthreads id ws)
  sync :
      (ws ws' : OrderedShare) (id : ℕ)
      → id < nthreads
      → ordered_sync nthreads id ws ≡ some ws'
      → Step nthreads ws ws'
  next :
      (ws : OrderedShare) (id : ℕ)
      → id < nthreads
      → ws.ordered_owner ≡ id
      → Step nthreads ws (ordered_next nthreads id ws)
  last :
      (ws : OrderedShare) (id : ℕ)
      → id < nthreads
      → ws.ordered_owner ≡ id
      → Step nthreads ws (ordered_last nthreads id ws)

-- The state behind any number of steps.
pub data Reaches (nthreads : ℕ) : OrderedShare → OrderedShare → Type 0 where
  done : (ws : OrderedShare) → Reaches nthreads ws ws
  more : (a b c : OrderedShare) → Reaches nthreads a b → Step nthreads b c → Reaches nthreads a c

-- What gomp_init_work_share sets, with the semaphores as gomp_team_start made them.
abbrev pub fresh : OrderedShare
fresh = record {
  ordered_team_ids = λ i. 0;
  ordered_num_used = 0;
  ordered_owner = no_owner;
  ordered_cur = 0;
  ordered_release = λ id. 0;
}
