-- ===== src/HpList.antt =====
-- splay-tree.c and splay-tree.h: the HP-LIST, which links the nodes of a priority queue's splay tree
-- in order of priority and tracks the highest one that is marked (has a waiting task).
pub mod Chain
pub mod Marks
pub mod Between
pub mod Gone
pub mod Tracks
pub mod Valid
pub mod Mark
pub mod Insert
pub mod Remove
mod Tests
use Prim.Native.Nat.{Ordering}
use ulmt_open_mp_gcc.Base.{
  ℕ, zero, suc, ◌+◌, ◌-◌, ◌<◌, Bool, true, false, ◌||◌, not, Option, none, some, if◌then◌else◌, ltb,
  is_none, points_to, update,
}
use ulmt_open_mp_gcc.Base.Int.{ℤ}
use ulmt_open_mp_gcc.Splay
use ulmt_open_mp_gcc.Splay.{Tree, leaf, node, size, prio_splay_compare, splay, insert_at_root, join}

-- `struct splay_tree_node_s` less its children: the fields of all nodes, by address.
pub record Nodes : Type 0 where
  pub key : ℕ → ℤ
  pub marked : ℕ → Bool
  pub next : ℕ → Option ℕ
  pub prev : ℕ → Option ℕ

-- `struct splay_tree_s`. The count is decremented only for a node that is marked.
pub record HpTree : Type 0 where
  pub root : Tree ℕ
  pub num_marked : ℕ
  pub highest_marked : Option ℕ

abbrev pub set_mark : Nodes → ℕ → Bool → Nodes
set_mark h n b = record h { marked = update h.marked n b }

-- `p->field = v;` where `p` may be NULL and is then not written through
abbrev pub set_next? : Nodes → Option ℕ → Option ℕ → Nodes
set_next? h none v = h
set_next? h (some a) v = record h { next = update h.next a v }

abbrev pub set_prev? : Nodes → Option ℕ → Option ℕ → Nodes
set_prev? h none v = h
set_prev? h (some a) v = record h { prev = update h.prev a v }

-- `highest_marked == NULL || splay_compare (&node->key, &highest_marked->key) > 0`
abbrev pub is_higher : Nodes → ℕ → Option ℕ → Bool
is_higher h n none = true
is_higher h n (some a) = elim (prio_splay_compare (h.key n) (h.key a)) [
  | Ordering.gt ↦ true
  | _ ↦ false
]

-- `while ((node = node->prev) != NULL) if (node->marked) …`, from the node that `p` points at. The
-- fuel is the number of nodes; `Marks.walk-top` shows that it is enough.
pub walk : ℕ → Nodes → Option ℕ → Option ℕ
walk zero h p = none
walk (suc fuel) h none = none
walk (suc fuel) h (some a) =
    let rest = walk fuel h (h.prev a) in if h.marked a then some a else rest

-- The new highest marked node when `n` was it and is so no more.
abbrev pub next_highest : Nodes → HpTree → ℕ → Option ℕ
next_highest h t n = if ltb 0 t.num_marked then walk (size t.root) h (h.prev n) else none

-- Each function returns whether `highest_marked` was updated, with the nodes and the tree.
abbrev pub State : Type 0
State = Nodes × HpTree

pub mark : Nodes → HpTree → ℕ → Bool × State
mark h t n =
    let up = is_higher h n t.highest_marked in
    (
      up,
      (
        set_mark h n true,
        record t {
          num_marked = t.num_marked + 1;
          highest_marked = if up then some n else t.highest_marked;
        },
      ),
    )

pub unmark : Nodes → HpTree → ℕ → Bool × State
unfolding walk
unmark h t n =
    let h' = set_mark h n false in
    let t' = record t { num_marked = t.num_marked - 1 } in
    if points_to t.highest_marked n
    then (true, (h', record t' { highest_marked = next_highest h' t' n }))
    else (false, (h', t'))

-- `splay_tree_hp_list_mark_node`
pub mark_node : Nodes → HpTree → ℕ → Bool → Bool × State
unfolding mark unmark
mark_node h t n true = if h.marked n then (false, (h, t)) else mark h t n
mark_node h t n false = if h.marked n then unmark h t n else (false, (h, t))

-- `node->prev = at; node->next = at->next;`, then the neighbours
pub link_above : Nodes → ℕ → ℕ → Nodes
link_above h at new =
    let h₁ = record h {
      prev = update h.prev new (some at);
      next = update h.next new (h.next at);
    } in
    let h₂ = record h₁ { next = update h₁.next at (some new) } in
    set_prev? h₂ (h₂.next new) (some new)

-- `node->next = at; node->prev = at->prev;`, then the neighbours
pub link_below : Nodes → ℕ → ℕ → Nodes
link_below h at new =
    let h₁ = record h {
      next = update h.next new (some at);
      prev = update h.prev new (h.prev at);
    } in
    let h₂ = record h₁ { prev = update h₁.prev at (some new) } in
    set_next? h₂ (h₂.prev new) (some new)

-- The links of a new node, next to the root of the splayed tree.
pub link_new : Nodes → Tree ℕ → ℕ → Nodes
unfolding link_above link_below
link_new h leaf new = record h { prev = update h.prev new none; next = update h.next new none }
link_new h (node l n r) new = elim (prio_splay_compare (h.key n) (h.key new)) [
  | Ordering.lt ↦ link_above h n new
  | _ ↦ link_below h n new
]

-- `splay_tree_hp_list_insert`; `none` is `gomp_fatal ("Duplicate node")`.
pub insert : Nodes → HpTree → ℕ → Bool → Option (Bool × State)
unfolding link_new
insert h t new is_marked =
    let s = splay h.key (h.key new) t.root in
    elim (insert_at_root h.key new s) [
      | none ↦ none
      | some root ↦
          let h' = link_new h s new in
          let t' = record t { root = root } in
          some (if is_marked then mark h' t' new else (false, (set_mark h' new false, t')))
    ]

-- `splay_tree_insert` with the fields that it resets: the new node stays outside the list.
pub insert_unlisted : Nodes → HpTree → ℕ → Option State
insert_unlisted h t new = elim (Splay.insert h.key new t.root) [
  | none ↦ none
  | some root ↦ some (
    record h {
      marked = update h.marked new false;
      prev = update h.prev new none;
      next = update h.next new none;
    },
    record t { root = root },
  )
]

-- `root->next->prev = root->prev; root->prev->next = root->next;`, where they are not NULL
pub unlink : Nodes → ℕ → Nodes
unlink h n = let h₁ = set_prev? h (h.next n) (h.prev n) in set_next? h₁ (h₁.prev n) (h₁.next n)

-- The removal of the root `n`, between the trees `l` and `r`.
pub remove_node : Nodes → HpTree → Tree ℕ → ℕ → Tree ℕ → Bool × State
unfolding walk unlink
remove_node h t l n r =
    let h' = unlink h n in
    let t' = record t { num_marked = if h.marked n then t.num_marked - 1 else t.num_marked } in
    let highest = points_to t.highest_marked n in
    (
      highest,
      (
        h',
        record t' {
          root = join l r;
          highest_marked = if highest then next_highest h' t' n else t.highest_marked;
        },
      ),
    )

-- `splay_tree_hp_list_remove`, of the splayed tree and with the splay
pub remove_splayed : Nodes → HpTree → ℤ → Tree ℕ → Bool × State
unfolding remove_node
remove_splayed h t key leaf = (false, (h, record t { root = leaf }))
remove_splayed h t key (node l n r) = elim (prio_splay_compare (h.key n) key) [
  | Ordering.eq ↦ remove_node h (record t { root = node l n r }) l n r
  | _ ↦ (false, (h, record t { root = node l n r }))
]

pub remove : Nodes → HpTree → ℤ → Bool × State
unfolding remove_splayed
remove h t key = remove_splayed h t key (splay h.key key t.root)
