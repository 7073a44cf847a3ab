-- ===== src/Splay/Tests.antt =====
-- The tree functions on a small tree; a node is its own priority.
use ulmt_open_mp_gcc.Base.{ℕ, ◌≡◌, refl, arith, some, true, ◌*◌, ◌+◌}
use ulmt_open_mp_gcc.Base.Int.{ℤ, pos}
use ulmt_open_mp_gcc.Splay.{
  prio_splay_compare, Tree, leaf, node, inorder, size, splay_loop, splay, lookup, insert, remove,
}
use ulmt_open_mp_gcc.Splay.Inorder.{IsSorted}
use ulmt_open_mp_gcc.Splay.Terminates.{splay-returns}
use ulmt_open_mp_gcc.Splay.Neighbour.{IsSplayed, splay-IsSplayed}
use ulmt_open_mp_gcc.Splay.Ordered.{find, erase}
use ulmt_open_mp_gcc.Splay.Contents.{lookup-find, remove-erase, Inserted, insert-Inserted}

abbrev itself : ℕ → ℤ
itself n = pos n

abbrev oaks : Tree ℕ
oaks = node (node leaf 1 (node leaf 2 leaf)) 4 (node leaf 7 leaf)

oaks-IsSorted : IsSorted itself (inorder oaks)
oaks-IsSorted = (
  (omega arith, (omega arith, (omega arith, tt))),
  ((omega arith, (omega arith, tt)), ((omega arith, tt), (tt, tt))),
)

-- The key 2 is brought to the root.
lifted : splay itself (pos 2) oaks ≡ node (node leaf 1 leaf) 2 (node leaf 4 (node leaf 7 leaf))
unfolding splay prio_splay_compare
lifted = refl

inserted :
    insert itself 5 oaks
    ≡ some (node (node (node leaf 1 (node leaf 2 leaf)) 4 leaf) 5 (node leaf 7 leaf))
unfolding insert splay prio_splay_compare
inserted = refl

splay-returns_example : (splay_loop itself (pos 2) (2 * size oaks + 2) oaks).0 ≡ true
splay-returns_example = splay-returns itself (pos 2) oaks

splay-IsSplayed_example : IsSplayed itself (pos 3) (splay itself (pos 3) oaks)
splay-IsSplayed_example = splay-IsSplayed itself (pos 3) oaks oaks-IsSorted

lookup-find_example :
    let (found, t') = lookup itself (pos 7) oaks in
    (found ≡ find itself (pos 7) (inorder oaks)) × (inorder t' ≡ inorder oaks)
lookup-find_example = lookup-find itself (pos 7) oaks oaks-IsSorted

remove-erase_example : inorder (remove itself (pos 2) oaks) ≡ erase itself (pos 2) (inorder oaks)
remove-erase_example = remove-erase itself (pos 2) oaks oaks-IsSorted

insert-Inserted_example : Inserted itself 5 (inorder oaks) (insert itself 5 oaks)
insert-Inserted_example = insert-Inserted itself 5 oaks oaks-IsSorted
