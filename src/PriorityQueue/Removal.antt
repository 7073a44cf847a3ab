-- ===== src/PriorityQueue/Removal.antt =====
-- `priority_tree_remove` and `highest_priority`.
use ulmt_open_mp_gcc.Base.{
  Gives, ℕ, ◌≡◌, refl, sym, subst, ◌∙◌, Bool, true, false, some, if◌then◌else◌, arith, List, ◌∷◌,
  ◌++◌, inl, inr, Bool-cases,
}
use ulmt_open_mp_gcc.Ring.{Mem}
use ulmt_open_mp_gcc.PriorityList
use ulmt_open_mp_gcc.PriorityList.{PriorityList, QueueType, InsertType}
use ulmt_open_mp_gcc.Splay.Ordered.{find}
use ulmt_open_mp_gcc.HpList
use ulmt_open_mp_gcc.HpList.{Nodes, HpTree}
use ulmt_open_mp_gcc.HpList.Remove.{remove-HpRemoved, remove-unchanged}
use ulmt_open_mp_gcc.PriorityQueue.{
  Tasks, Queue, store_highest, lookup_priority, mark_list, drop_priority, after_removal,
  tree_remove, none_ready, put_list, hp_state,
}
use ulmt_open_mp_gcc.PriorityQueue.Reads.{
  HpOk, members, lookup_priority-Looked, mark_list-HpOk, find-Split,
}
use ulmt_open_mp_gcc.PriorityQueue.Attach.{top_same}

-- The highest marked node after the removal, as the store leaves it.
drop_priority-HpOk : (q : Queue) (a : ℕ) → HpOk q → HpOk (drop_priority q a true)
unfolding drop_priority
drop_priority-HpOk q a v =
    let r = HpList.remove q.nodes q.t (q.nodes.key a) in
    let (valid, erased, key, marked) = remove-HpRemoved q.nodes q.t (q.nodes.key a) v.valid in
    elim (Bool-cases r.0) [
      | inl e ↦
          subst (λ b. HpOk (store_highest b (hp_state q r.1))) {x = true} (sym e)
            (record { valid = valid; highest = refl })
      | inr e ↦
          subst (λ b. HpOk (store_highest b (hp_state q r.1))) {x = false} (sym e)
            (record {
              valid = valid;
              highest =
                  v.highest
                  ∙ sym (
                      top_same q r.1.1.highest_marked r.1.0.key
                        (remove-unchanged q.nodes q.t (q.nodes.key a) e) key);
            })
    ]

after_removal-HpOk :
    (tasks : Tasks) (q : Queue) (a : ℕ) (blocked empty : Bool) (l : PriorityList) (us cs : List ℕ)
    → members q ≡ us ++ a ∷ cs
    → HpOk q
    → HpOk (after_removal tasks q a true blocked empty l)
unfolding after_removal
after_removal-HpOk tasks q a blocked true l us cs e v = drop_priority-HpOk q a v
after_removal-HpOk tasks q a true false l us cs e v = v
after_removal-HpOk tasks q a false false l us cs e v = elim (Bool-cases (none_ready tasks l)) [
  | inl k ↦
      subst (λ b. HpOk (if b then mark_list q a false else q)) {x = true} (sym k)
        (mark_list-HpOk q a false us cs e v)
  | inr k ↦ subst (λ b. HpOk (if b then mark_list q a false else q)) {x = false} (sym k) v
]

-- `priority_tree_remove` of a task with `ult_var`, whose priority is in the tree, keeps the HP-LIST
-- valid and `highest_priority` the priority of its highest marked node, 0 when there is none.
pub tree_remove-HpOk :
    (tasks : Tasks) (type : QueueType) (m : Mem) (q : Queue) (n a : ℕ) (blocked : Bool)
    → (tasks n).ult_var ≡ true
    → find q.nodes.key (tasks n).priority (members q) ≡ some a
    → HpOk q
    → Gives (tree_remove tasks type m q n blocked) (λ s. HpOk s.1)
unfolding tree_remove
tree_remove-HpOk tasks type m q n a blocked ult found v =
    let p = (tasks n).priority in
    let q₁ = (lookup_priority q p).1 in
    let g = lookup_priority-Looked q p v in
    let (us, cs, i, j) = find-Split q.nodes.key p (members q) a found in
    let removed = PriorityList.remove type m (q₁.lists a) n blocked in
    let (m', q') = put_list q₁ a removed.1 in
    (
      (m', after_removal tasks q' a true blocked removed.0 removed.1.1),
      ground (arith, g.found, found, ult),
      after_removal-HpOk tasks q' a blocked removed.0 removed.1.1 us cs (g.same_members ∙ i)
          (record { valid = g.ok.valid; highest = g.ok.highest }),
    )
