-- ===== src/PriorityQueue/Highest.antt =====
-- `highest_priority` follows the highest marked node through the functions on the tree of a queue.
use ulmt_open_mp_gcc.Base.{
  Gives, ℕ, ◌≡◌, ◌≢◌, refl, sym, ap, subst, subst₂, ◌∙◌, Bool, true, false, not, none, some,
  if◌then◌else◌, update, arith, [], inl, inr, NotIn, Bool-cases, Option-cases, ==_refl,
}
use ulmt_open_mp_gcc.Base.Int.{ℤ, pos}
use ulmt_open_mp_gcc.Ring.{Mem}
use ulmt_open_mp_gcc.PriorityList
use ulmt_open_mp_gcc.PriorityList.{PriorityList, QueueType, InsertType}
use ulmt_open_mp_gcc.Splay.{is_leaf}
use ulmt_open_mp_gcc.Splay.Ordered.{find, insert_sorted}
use ulmt_open_mp_gcc.HpList.Marks.{top_marked}
use ulmt_open_mp_gcc.PriorityQueue.{
  Tasks, Queue, lookup_priority, new_node, transfer, mark_list, list_for, tree_insert,
  tree_insert_running, top_priority, put_list, is_waiting,
}
use ulmt_open_mp_gcc.PriorityQueue.Reads.{
  HpOk, members, Looked, lookup_priority-Looked, new_node-HpOk, mark_list-HpOk, mark_list-l,
  find-Split, is_leaf-nil,
}
use ulmt_open_mp_gcc.PriorityQueue.Attach.{Attached, attach-Attached, find-new, add_priority-HpOk}

-- The list of a priority is found or made.
pub list_for-HpOk :
    (q : Queue) (k : ℕ) (p : ℤ) (marks : Bool)
    → NotIn k (members q)
    → HpOk q
    → Gives (list_for q k p true marks) (λ r. HpOk r.1 × (r.1.l ≡ q.l))
unfolding list_for
list_for-HpOk q k p marks f v =
    let g = lookup_priority-Looked q p v in
    elim (Option-cases (lookup_priority q p).0) [
      | inl e ↦
          let (q', given, (ok, kept, key, placed)) =
            add_priority-HpOk (lookup_priority q p).1 k p marks
              (subst (NotIn k) (sym g.same_members) f) (missing g e) g.ok in
          ((k, q'), ground (arith, e, given), (ok, kept ∙ g.same_l))
      | inr (a, e) ↦
          let (us, cs, i, j) = find-Split q.nodes.key p (members q) a (sym g.found ∙ e) in
          elim (Bool-cases marks) [
            | inl b ↦ (
              (a, mark_list (lookup_priority q p).1 a true),
              ground (arith, e, b),
              (
                mark_list-HpOk (lookup_priority q p).1 a true us cs (g.same_members ∙ i) g.ok,
                mark_list-l (lookup_priority q p).1 a true ∙ g.same_l,
              ),
            )
            | inr b ↦ ((a, (lookup_priority q p).1), ground (arith, e, b), (g.ok, g.same_l))
          ]
    ]
  where
    missing :
        Looked q p (lookup_priority q p)
        → (lookup_priority q p).0 ≡ none
        → find (lookup_priority q p).1.nodes.key p (members (lookup_priority q p).1) ≡ none
    missing g e =
        subst₂ (λ h xs. find h.key p xs ≡ none) (sym g.same_nodes) (sym g.same_members)
          (sym g.found ∙ e)

-- The first node of the tree has priority 0, as `highest_priority` says already.
moved_highest :
    (q : Queue) (k : ℕ) (lst : PriorityList) (marks : Bool) (r : Bool × Queue)
    → members q ≡ []
    → HpOk q
    → Attached (new_node q k (pos 0) lst) k marks r
    → q.highest_priority ≡ top_priority r.1
unfolding new_node
moved_highest q k lst marks r nil v a =
    let no : q.t.highest_marked ≡ none =
      v.valid.tracked.highest ∙ ap (top_marked q.nodes.marked) nil in
    elim (Bool-cases r.0) [
      | inl e ↦
          let key : r.1.nodes.key k ≡ pos 0 =
            ap (λ g. g k) a.same_key ∙ ground (arith, ==_refl k) in
          ground (arith, v.highest, no, a.answer.0 e, key)
      | inr e ↦ ground (arith, v.highest, no, a.answer.1 e)
    ]

-- The list that a queue keeps beside its tree: when its tasks move, two pointers stay.
abbrev pub remaining : Queue → PriorityList
remaining q =
    if is_leaf q.t.root
    then elim (q.l.tasks) [
      | none ↦ q.l
      | some first ↦ record (q.l) { tasks = none; blocked_tasks = none }
    ]
    else q.l

new_node-l : (q : Queue) (k : ℕ) (p : ℤ) (lst : PriorityList) → (new_node q k p lst).l ≡ q.l
unfolding new_node
new_node-l q k p lst = refl

-- The tasks of priority 0 move to the tree; a node that is not in it is still not, but for `k`.
pub transfer-HpOk :
    (tasks : Tasks) (q : Queue) (k : ℕ) (other : ℕ)
    → NotIn k (members q)
    → NotIn other (members q)
    → other ≢ k
    → HpOk q
    → Gives
        (transfer tasks q k true)
        (λ q'. HpOk q' × NotIn other (members q') × (q'.l ≡ remaining q))
unfolding transfer
transfer-HpOk tasks q k other f g ne v = elim (Bool-cases (is_leaf q.t.root)) [
  | inr e ↦ (q, ground (arith, e), (v, g, ground (arith, e)))
  | inl e ↦ elim (Option-cases q.l.tasks) [
    | inl i ↦ (q, ground (arith, e, i), (v, g, ground (arith, e, i)))
    | inr (first, i) ↦
        let nil : members q ≡ [] = is_leaf-nil q.t.root e in
        let lst = record q.l { priority = pos 0 } in
        let marks = is_waiting (tasks first).kind in
        let ok : HpOk (new_node q k (pos 0) lst) = new_node-HpOk q k (pos 0) lst f v in
        let (r, given, a) =
          attach-Attached (new_node q k (pos 0) lst) k marks ok.valid
            (find-new q k (pos 0) lst f (ap (find q.nodes.key (pos 0)) nil)) in
        (
          record (r.1) { l = record (r.1.l) { tasks = none; blocked_tasks = none } },
          ground (arith, e, i, given),
          (
            record {
              valid = a.valid;
              highest = a.same_highest ∙ moved_highest q k lst marks r nil v a;
            },
            subst (NotIn other)
                (sym
                  (a.new_members ∙ ap (insert_sorted (new_node q k (pos 0) lst).nodes.key k) nil))
                (ne, tt),
            ground (arith, e, i, a.same_l, new_node-l q k (pos 0) lst),
          ),
        )
  ]
]

-- The invariant does not read the lists.
put-HpOk :
    (q : Queue) (a : ℕ) (l : PriorityList) → HpOk q → HpOk (record q { lists = update q.lists a l })
put-HpOk q a l v = record { valid = v.valid; highest = v.highest }

module _ (tasks : Tasks) (m : Mem) (q : Queue) (k₀ k n : ℕ) (p : ℤ) (ult : (tasks n).ult_var ≡ true)
    (f₀ : NotIn k₀ (members q)) (f : NotIn k (members q)) (ne : k ≢ k₀) (v : HpOk q) where
  -- `priority_tree_insert` of a task with `ult_var`, where the memory for nodes is not in the tree,
  -- never ends in gomp_fatal, and keeps the HP-LIST valid and `highest_priority` the priority of its
  -- highest marked node. The list beside the tree loses its tasks if there was no tree before, and
  -- keeps all else.
  pub tree_insert-HpOk :
      (type : QueueType) (at : InsertType) (depends blocked : Bool)
      → Gives
          (tree_insert tasks type m q k₀ k n p at depends blocked)
          (λ s. HpOk s.1 × (s.1.l ≡ remaining q))
  unfolding tree_insert
  tree_insert-HpOk type at depends blocked =
      let (q₁, given₁, (ok₁, f₁, kept₁)) = transfer-HpOk tasks q k₀ k f₀ f ne v in
      let (r, given, (ok, kept)) = list_for-HpOk q₁ k p (not blocked) f₁ ok₁ in
      let s = PriorityList.insert type m (r.1.lists r.0) n at depends blocked in
      (
        put_list r.1 r.0 s,
        ground (arith, ult, given₁, given),
        (put-HpOk r.1 r.0 s.1 ok, kept ∙ kept₁),
      )

  -- The same for `priority_tree_insert_running`.
  pub tree_insert_running-HpOk :
      Gives (tree_insert_running tasks m q k₀ k n p) (λ s. HpOk s.1 × (s.1.l ≡ remaining q))
  unfolding tree_insert_running
  tree_insert_running-HpOk =
      let (q₁, given₁, (ok₁, f₁, kept₁)) = transfer-HpOk tasks q k₀ k f₀ f ne v in
      let (r, given, (ok, kept)) = list_for-HpOk q₁ k p false f₁ ok₁ in
      let s = PriorityList.insert_running m (r.1.lists r.0) n in
      (
        put_list r.1 r.0 s,
        ground (arith, ult, given₁, given),
        (put-HpOk r.1 r.0 s.1 ok, kept ∙ kept₁),
      )
