-- ===== src/HpList/Tests.antt =====
-- The HP-LIST on a small tree: 1, 4 and 7 with their own numbers as keys, of which 1 and 7 are marked.
use ulmt_open_mp_gcc.Base.{◌≡◌, refl, arith, none, some, true, false, [], ◌∷◌, ◌||◌, ◌==◌, update}
use ulmt_open_mp_gcc.Base.Int.{pos}
use ulmt_open_mp_gcc.Splay.{leaf, node, prio_splay_compare}
use ulmt_open_mp_gcc.HpList.{Nodes, HpTree, mark_node, insert, remove}
use ulmt_open_mp_gcc.HpList.Valid.{HpValid}
use ulmt_open_mp_gcc.HpList.Mark.{mark_node-HpValid}
use ulmt_open_mp_gcc.HpList.Insert.{HpInserted, insert-HpInserted}
use ulmt_open_mp_gcc.HpList.Remove.{HpRemoved, remove-HpRemoved}

abbrev fields : Nodes
fields = record {
  key = λ a. pos a;
  marked = λ a. a == 1 || a == 7;
  next = update (update (λ a. none) 1 (some 4)) 4 (some 7);
  prev = update (update (λ a. none) 4 (some 1)) 7 (some 4);
}

abbrev oaks : HpTree
oaks = record {
  root = node (node leaf 1 leaf) 4 (node leaf 7 leaf);
  num_marked = 2;
  highest_marked = some 7;
}

oaks-HpValid : HpValid fields oaks
oaks-HpValid = record {
  sorted = ((omega arith, (omega arith, tt)), ((omega arith, tt), (tt, tt)));
  chain = (refl, refl, (refl, refl, (refl, refl, tt)));
  tracked = record { counted = refl; highest = refl };
}

-- The walk from 7 passes the unmarked 4.
walked : (mark_node fields oaks 7 false).1.1.highest_marked ≡ some 1
unfolding mark_node
walked = refl

mark_node-HpValid_example :
    let (h', t') = (mark_node fields oaks 7 false).1 in
    HpValid h' t' × (h'.marked 7 ≡ false) × (t'.root ≡ oaks.root) × (h'.key ≡ fields.key)
mark_node-HpValid_example = mark_node-HpValid fields oaks 7 (1 ∷ 4 ∷ []) [] oaks-HpValid refl false

lower : (mark_node fields oaks 4 true).0 ≡ false
unfolding mark_node prio_splay_compare
lower = refl

insert-HpInserted_example : HpInserted fields (1 ∷ 4 ∷ 7 ∷ []) 9 true (insert fields oaks 9 true)
insert-HpInserted_example = insert-HpInserted fields oaks 9 true oaks-HpValid

remove-HpRemoved_example : HpRemoved fields (1 ∷ 4 ∷ 7 ∷ []) (pos 7) (remove fields oaks (pos 7))
remove-HpRemoved_example = remove-HpRemoved fields oaks (pos 7) oaks-HpValid
