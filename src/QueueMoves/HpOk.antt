-- ===== src/QueueMoves/HpOk.antt =====
-- The moves keep the HP-LIST and `highest_priority`.
use ulmt_open_mp_gcc.Base.{
  Gives, ℕ, ◌≡◌, ◌∙◌, Bool, true, false, ◌&&◌, some, arith, List, ◌∷◌, ◌++◌, inl, inr, Bool-cases,
}
use ulmt_open_mp_gcc.Base.Int.{ℤ}
use ulmt_open_mp_gcc.Ring.{Mem}
use ulmt_open_mp_gcc.PriorityList
use ulmt_open_mp_gcc.PriorityList.{PriorityList, QueueType}
use ulmt_open_mp_gcc.Splay.Ordered.{find}
use ulmt_open_mp_gcc.ListMoves.{adjust_list, block_list, unblock_list, downgrade_list}
use ulmt_open_mp_gcc.PriorityQueue.{
  Tasks, Queue, State, and_then, inc, dec, multi_p, lookup_priority, put_list, uses_tree,
  none_ready, is_ready,
}
use ulmt_open_mp_gcc.PriorityQueue.Reads.{
  HpOk, members, lookup_priority-Looked, mark_list-HpOk, find-Split,
}
use ulmt_open_mp_gcc.PriorityQueue.Either.{with_store, counted-HpOk, in_either}
use ulmt_open_mp_gcc.QueueMoves.{
  change_list, unmark_if, remark_if, adjust_task, tree_adjust_task, block_task, tree_block_task,
  unblock_task, tree_unblock_task, downgrade_task, none_other,
}

-- The queue of a result, with its node in the tree.
abbrev Stands : ℕ × State → Type 0
Stands r = HpOk r.1.1 × ((us : List ℕ) × (cs : List ℕ) × (members r.1.1 ≡ us ++ r.0 ∷ cs))

change_list-Stands :
    (q : Queue) (p : ℤ) (a : ℕ) (f : PriorityList → PriorityList.State)
    → find q.nodes.key p (members q) ≡ some a
    → HpOk q
    → Gives (change_list q p f) Stands
unfolding change_list
change_list-Stands q p a f e v =
    let g = lookup_priority-Looked q p v in
    let (us, cs, i, j) = find-Split q.nodes.key p (members q) a e in
    let q₁ = (lookup_priority q p).1 in
    (
      (a, put_list q₁ a (f (q₁.lists a))),
      ground (arith, g.found, e),
      (record { valid = g.ok.valid; highest = g.ok.highest }, (us, cs, g.same_members ∙ i)),
    )

unmark_if-HpOk : (test : PriorityList → Bool) (r : ℕ × State) → Stands r → HpOk (unmark_if test r).1
unfolding unmark_if
unmark_if-HpOk test (a, (m, q)) (v, (us, cs, i)) = elim (Bool-cases (test (q.lists a))) [
  | inl e ↦ rw e (mark_list-HpOk q a false us cs i v)
  | inr e ↦ rw e v
]

remark_if-HpOk : (test : Bool) (r : ℕ × State) → Stands r → HpOk (remark_if test r).1
unfolding remark_if
remark_if-HpOk true (a, (m, q)) (v, (us, cs, i)) = mark_list-HpOk q a true us cs i v
remark_if-HpOk false (a, (m, q)) (v, (us, cs, i)) = v

module _ (tasks : Tasks) (q : Queue) (n : ℕ) (m : Mem) (v : HpOk q) where
  -- The priority of the task has its list in the tree.
  abbrev pub Held : Type 0
  Held = (a : ℕ) × (find q.nodes.key (tasks n).priority (members q) ≡ some a)

  moved :
      (f : PriorityList → PriorityList.State) (g : ℕ × State → State)
      → ((r : ℕ × State) → Stands r → HpOk (g r).1)
      → Held
      → Gives (and_then (change_list q (tasks n).priority f) (λ r. some (g r))) (λ s. HpOk s.1)
  moved f g k (a, e) =
      let (r, given, s) = change_list-Stands q (tasks n).priority a f e v in
      (g r, ground (arith, given), k r s)

  module _ (type : QueueType) (held : uses_tree q (tasks n).priority ≡ true → Held) where
    block_task-HpOk : Gives (block_task tasks type m q n) (λ s. HpOk s.1)
    unfolding block_task tree_block_task
    block_task-HpOk =
        with_store _ _
          (λ s w. elim (Bool-cases (is_ready (tasks n).kind)) [
            | inl e ↦ rw e (counted-HpOk s.1 (dec s.1.num_waiting_priority_node) w)
            | inr e ↦ rw e w
          ])
          (in_either (uses_tree q (tasks n).priority) q _ (block_list type m q.l n) v (λ h.
            moved (λ l. block_list type m l n) (unmark_if (none_ready tasks))
              (unmark_if-HpOk (none_ready tasks)) (held h)))

    unblock_task-HpOk :
        (bitmap : ℕ) (waits : Bool)
        → Gives (unblock_task tasks type bitmap waits m q n) (λ s. HpOk s.1)
    unfolding unblock_task tree_unblock_task
    unblock_task-HpOk bitmap waits =
        with_store _ _ (λ s w. counted-HpOk s.1 (inc s.1.num_waiting_priority_node) w)
          (in_either (uses_tree q (tasks n).priority) q _
            (unblock_list type bitmap waits m q.l n (tasks n).parent_depends_on) v
            (λ h.
              moved (λ l. unblock_list type bitmap waits m l n (tasks n).parent_depends_on)
                (remark_if (is_ready (tasks n).kind)) (remark_if-HpOk (is_ready (tasks n).kind))
                (held h)))

    adjust_task-HpOk :
        (bitmap : ℕ) (waits depends : Bool)
        → Gives (adjust_task tasks type bitmap waits m q n depends) (λ s. HpOk s.1)
    unfolding adjust_task tree_adjust_task
    adjust_task-HpOk bitmap waits depends =
        with_store _ _ (λ s w. counted-HpOk s.1 (inc s.1.num_waiting_priority_node) w)
          (in_either (uses_tree q (tasks n).priority) q _
            (adjust_list type bitmap waits m q.l n depends) v
            (λ h.
              moved (λ l. adjust_list type bitmap waits m l n depends) (remark_if true)
                (remark_if-HpOk true) (held h)))

  downgrade_task-HpOk :
      (multi_p q ≡ true → Held) → Gives (downgrade_task tasks m q n) (λ s. HpOk s.1)
  unfolding downgrade_task
  downgrade_task-HpOk held =
      let test : PriorityList → Bool = λ l. (tasks n).ult_var && none_other tasks n l in
      with_store _ _ (λ s w. counted-HpOk s.1 (dec s.1.num_waiting_priority_node) w)
        (in_either (multi_p q) q _ (downgrade_list m q.l n) v
          (λ h. moved (λ l. downgrade_list m l n) (unmark_if test) (unmark_if-HpOk test) (held h)))

  -- Blocking, unblocking, suspending and starting a task whose priority has its list in the tree, if
  -- the tree is used, never read a NULL list, and keep the HP-LIST valid and `highest_priority` the
  -- priority of its highest marked node.
  pub moves-HpOk :
      (type : QueueType) (bitmap : ℕ) (waits depends : Bool)
      → (uses_tree q (tasks n).priority ≡ true → Held)
      → Gives (block_task tasks type m q n) (λ s. HpOk s.1)
        × Gives (unblock_task tasks type bitmap waits m q n) (λ s. HpOk s.1)
        × Gives (adjust_task tasks type bitmap waits m q n depends) (λ s. HpOk s.1)
        × Gives (downgrade_task tasks m q n) (λ s. HpOk s.1)
  moves-HpOk type bitmap waits depends held = (
    block_task-HpOk type held,
    unblock_task-HpOk type held bitmap waits,
    adjust_task-HpOk type held bitmap waits depends,
    downgrade_task-HpOk (λ e. held (ground (arith, e))),
  )
