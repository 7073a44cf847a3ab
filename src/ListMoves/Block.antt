-- ===== src/ListMoves/Block.antt =====
-- Blocking, unblocking and suspending a task: a removal and an insertion.
use ulmt_open_mp_gcc.Base.{ℕ, ◌≡◌, [], ◌∷◌, ◌++◌, Bool, true, false, NotIn}
use ulmt_open_mp_gcc.Ring.{Mem}
use ulmt_open_mp_gcc.PriorityList.{
  QueueType, is_flat, PriorityList, InsertType, insert_begin, insert, remove,
}
use ulmt_open_mp_gcc.PriorityList.View.{View, contents, Represents, insert_view}
use ulmt_open_mp_gcc.PriorityList.Insert.{insert-Represents}
use ulmt_open_mp_gcc.PriorityList.Remove.{remove_view, side, remove-Represents}
use ulmt_open_mp_gcc.ListMoves.{
  adjust_list, block_list, unblock_list, suspend_position, unblock_position,
}
use ulmt_open_mp_gcc.ListMoves.Rest.{remove_view-NotIn}

-- A node that goes and comes back.
moved :
    {m : Mem} {l : PriorityList} {v : View} (type : QueueType) (n : ℕ) (from to : Bool)
    (pos : InsertType) (depends : Bool)
    → is_flat type ≡ false
    → Represents m l v
    → ¬ NotIn n (side v from)
    → let (empty, (m₁, l₁)) = remove type m l n from in
      let (m', l') = insert type m₁ l₁ n pos depends to in
      Represents m' l' (insert_view (remove_view v n from) n pos depends to)
moved {v = v} type n from to pos depends k r f =
    insert-Represents type n pos depends to k (remove-Represents type n from k r f)
      (remove_view-NotIn v n from r.distinct f)

module _ {m : Mem} {l : PriorityList} {v : View} (type : QueueType) (n : ℕ)
    (k : is_flat type ≡ false) (r : Represents m l v) where
  -- `priority_list_block_task` of a task of a children or taskgroup queue takes it out of the tasks and
  -- puts it at the end of the blocked ones; all others stay in order.
  pub block_list-Represents :
      ¬ NotIn n (contents v)
      → let (m', l') = block_list type m l n in
        Represents m' l' (record (remove_view v n false) { blocked = v.blocked ++ n ∷ [] })
  unfolding block_list
  block_list-Represents f = moved type n false true insert_begin false k r f

  -- `priority_list_unblock_task` of a blocked task puts it back among the tasks of its kind, at the
  -- position that the policy gives.
  pub unblock_list-Represents :
      (bitmap : ℕ) (waits depends : Bool)
      → ¬ NotIn n v.blocked
      → let (m', l') = unblock_list type bitmap waits m l n depends in
        Represents m' l'
          (insert_view (remove_view v n true) n (unblock_position type bitmap waits) depends false)
  unfolding unblock_list
  unblock_list-Represents bitmap waits depends f =
      moved type n true false (unblock_position type bitmap waits) depends k r f

  -- `priority_list_adjust_task` of a task takes it from its place, and puts it among the waiting tasks
  -- of its kind, at the position that the policy gives.
  pub adjust_list-Represents :
      (bitmap : ℕ) (waits depends : Bool)
      → ¬ NotIn n (contents v)
      → let (m', l') = adjust_list type bitmap waits m l n depends in
        Represents m' l'
          (insert_view (remove_view v n false) n (suspend_position type bitmap waits) depends false)
  unfolding adjust_list
  adjust_list-Represents bitmap waits depends f =
      moved type n false false (suspend_position type bitmap waits) depends k r f
