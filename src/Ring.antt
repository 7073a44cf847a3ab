-- ===== src/Ring.antt =====
-- priority_queue.h: `struct priority_node`, and the pointer writes that the list functions repeat.
-- A node is the address of a pair of fields; `next` and `prev` of all nodes are one memory.
pub mod Seg
pub mod Laws
use ulmt_open_mp_gcc.Base.{ℕ, update}

pub record Mem : Type 0 where
  pub next : ℕ → ℕ
  pub prev : ℕ → ℕ

abbrev pub set_next : Mem → ℕ → ℕ → Mem
set_next m a v = record { next = update m.next a v; prev = m.prev }

abbrev pub set_prev : Mem → ℕ → ℕ → Mem
set_prev m a v = record { next = m.next; prev = update m.prev a v }

-- `node->next = node; node->prev = node;`
unfoldable pub link_single : Mem → ℕ → Mem
link_single m node = set_prev (set_next m node node) node node

-- `node->next->prev = node; node->prev->next = node;`
unfoldable pub link_neighbours : Mem → ℕ → Mem
link_neighbours m node = let m₁ = set_prev m (m.next node) node in set_next m₁ (m₁.prev node) node

-- `node->next = at; node->prev = at->prev;`, then the neighbours
pub link_before : Mem → ℕ → ℕ → Mem
unfolding link_neighbours
link_before m at node =
    let m₁ = set_next m node at in link_neighbours (set_prev m₁ node (m₁.prev at)) node

-- `node->next = at->next; node->prev = at;`, then the neighbours
unfoldable pub link_after : Mem → ℕ → ℕ → Mem
unfolding link_neighbours
link_after m at node = link_neighbours (set_prev (set_next m node (m.next at)) node at) node

-- `node->next->prev = node->prev; node->prev->next = node->next;`
pub unlink : Mem → ℕ → Mem
unlink m node =
    let m₁ = set_prev m (m.next node) (m.prev node) in set_next m₁ (m₁.prev node) (m₁.next node)
