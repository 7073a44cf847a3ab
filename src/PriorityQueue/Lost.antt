-- ===== src/PriorityQueue/Lost.antt =====
-- Two cases in which a queue loses tasks, when it changes from one list to a tree and back.
use ulmt_open_mp_gcc.Base.{
  Gives, ℕ, ◌≡◌, ◌≢◌, refl, ap, ◌∙◌, Bool, true, false, Option, none, some, update, arith, ==_refl,
  [], ◌∷◌,
}
use ulmt_open_mp_gcc.Base.Int.{ℤ, pos, ◌<ℤ◌}
use ulmt_open_mp_gcc.Ring.{Mem, link_single, link_after, link_neighbours}
use ulmt_open_mp_gcc.PriorityList
use ulmt_open_mp_gcc.PriorityList.{PriorityList, QueueType, InsertType, children_tied, insert_begin}
use ulmt_open_mp_gcc.Splay.{prio_splay_compare}
use ulmt_open_mp_gcc.Splay.Ordered.{gt-compare}
use ulmt_open_mp_gcc.PriorityQueue.{
  Tasks, Queue, lookup_priority, init, transfer, list_for, tree_insert, tree_remove, put_list,
}
use ulmt_open_mp_gcc.PriorityQueue.Attach.{add_priority-HpOk}
use ulmt_open_mp_gcc.PriorityQueue.Reads.{HpOk, members, lookup_priority-Looked}
use ulmt_open_mp_gcc.Splay.Ordered.{find}

-- A queue with no tree, whose list is `l`.
abbrev pub listed : Queue → PriorityList → Queue
listed q l = record (init q) { l = l }

abbrev Fresh : Queue → ℕ → ℤ → Option Queue → Type 0
Fresh q k p o =
    Gives o (λ q'.
      HpOk q' × (q'.l ≡ q.l) × (q'.nodes.key ≡ update q.nodes.key k p) × (members q' ≡ k ∷ []))

listed-HpOk : (q : Queue) (l : PriorityList) → HpOk (listed q l)
unfolding init
listed-HpOk q l = record {
  valid = record { sorted = tt; chain = tt; tracked = record { counted = refl; highest = refl } };
  highest = refl;
}

-- A blocked task alone does not make the list move.
list_stays :
    (tasks : Tasks) (q : Queue) (l : PriorityList) (k : ℕ) (ult : Bool)
    → l.tasks ≡ none
    → transfer tasks (listed q l) k ult ≡ some (listed q l)
unfolding transfer init
list_stays tasks q l k ult e = ground (arith, e)

first_node :
    (q : Queue) (l : PriorityList) (k : ℕ) (p : ℤ) (marks : Bool)
    → Gives
        (list_for (listed q l) k p true marks)
        (λ r. (r.0 ≡ k) × HpOk r.1 × (r.1.l ≡ l) × (r.1.nodes.key k ≡ p) × (members r.1 ≡ k ∷ []))
unfolding list_for lookup_priority init
first_node q l k p marks =
    let (q', given, (ok, kept, key, placed)) =
      add_priority-HpOk (listed q l) k p marks tt refl (listed-HpOk q l) in
    (
      (k, q'),
      ap (λ o. elim o as (λ x. Option (ℕ × Queue)) [ none ↦ none | some q'' ↦ some (k, q'') ])
          given,
      (refl, ok, kept, ap (λ g. g k) key ∙ ground (arith, ==_refl k), placed),
    )

-- A queue whose list has blocked tasks and no other gets a task of priority `p`, above 0: the blocked
-- tasks stay in the list beside the tree, and `priority_tree_remove` of one that has priority 0 finds
-- no list in the tree, where it reads through NULL, or calls gomp_fatal in a checking build.
pub blocked_task-lost :
    (tasks : Tasks) (type : QueueType) (m : Mem) (q : Queue) (l : PriorityList) (k₀ k n b : ℕ)
    (p : ℤ) (at : InsertType) (depends : Bool)
    → l.tasks ≡ none
    → pos 0 <ℤ p
    → (tasks n).ult_var ≡ true
    → (tasks b).priority ≡ pos 0
    → Gives
        (tree_insert tasks type m (listed q l) k₀ k n p at depends false)
        (λ s. (s.1.l ≡ l) × (tree_remove tasks type s.0 s.1 b true ≡ none))
unfolding tree_insert tree_remove
blocked_task-lost tasks type m q l k₀ k n b p at depends e h u z =
    let (r, given, (at_k, ok, kept, key, placed)) = first_node q l k p true in
    let s = put_list r.1 r.0 (PriorityList.insert type m (r.1.lists r.0) n at depends false) in
    let g =
      lookup_priority-Looked s.1 (pos 0) (record { valid = ok.valid; highest = ok.highest }) in
    let nowhere : find r.1.nodes.key (pos 0) (members r.1) ≡ none =
      ap (find r.1.nodes.key (pos 0)) placed
      ∙ ground (arith, ap (λ z. prio_splay_compare z (pos 0)) key ∙ gt-compare p (pos 0) h) in
    (
      s,
      ground (arith, u, given, list_stays tasks q l k₀ (tasks n).ult_var e),
      (kept, ground (arith, z, g.found, nowhere)),
    )

-- The list beside the tree keeps `last_parent_depends_on` when its tasks move. When it is used again,
-- two tasks that are put at its front go wrong: the second one is linked behind the old node and
-- cannot be reached from the list.
pub second_task-lost :
    (m : Mem) (l : PriorityList) (d n₁ n₂ : ℕ)
    → l.tasks ≡ none
    → l.last_parent_depends_on ≡ some d
    → n₁ ≢ n₂
    → d ≢ n₁
    → let (m₁, l₁) = PriorityList.insert children_tied m l n₁ insert_begin false false in
      let (m₂, l₂) = PriorityList.insert children_tied m₁ l₁ n₂ insert_begin false false in
      (l₂.tasks ≡ some n₁) × (m₂.next n₁ ≡ n₁)
unfolding PriorityList.insert PriorityList.insert_ordered PriorityList.insert_plain link_single
    link_after link_neighbours
second_task-lost m l d n₁ n₂ e k ne o = ground (arith, e, k)
