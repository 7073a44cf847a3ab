-- ===== src/PriorityList/Round.antt =====
-- An insertion that is taken back.
use ulmt_open_mp_gcc.Base.{
  ℕ, ◌≡◌, ◌∙◌, refl, ap, subst, Bool, true, false, List, [], ◌∷◌, ◌++◌, NotIn, NotIn-left,
  NotIn-right, NotIn-self, without, without-NotIn, without-split, append-nil, ==_refl,
}
use ulmt_open_mp_gcc.Ring.{Mem}
use ulmt_open_mp_gcc.PriorityList.{
  PriorityList, QueueType, InsertType, insert_begin, insert_end, is_flat, insert, remove,
}
use ulmt_open_mp_gcc.PriorityList.View.{View, Represents, nodes, contents, insert_view}
use ulmt_open_mp_gcc.PriorityList.Insert.{insert-Represents}
use ulmt_open_mp_gcc.PriorityList.Remove.{remove_view, side, remove-Represents}

without_last : (n : ℕ) (xs : List ℕ) → NotIn n xs → without n (xs ++ n ∷ []) ≡ xs
without_last n xs f = without-split n xs [] f ∙ append-nil xs

-- A node that is not in the list is in none of its parts.
apart :
    (v : View) (n : ℕ)
    → NotIn n (nodes v)
    → NotIn n v.depended × NotIn n v.waiting × NotIn n v.running
apart v n f =
    let tasks = NotIn-left n (contents v) v.blocked f in
    let behind = NotIn-right n v.depended (v.waiting ++ v.running) tasks in
    (
      NotIn-left n v.depended (v.waiting ++ v.running) tasks,
      NotIn-left n v.waiting v.running behind,
      NotIn-right n v.waiting v.running behind,
    )

untouched :
    (v : View) (n : ℕ)
    → NotIn n (nodes v)
    → (without n v.depended ≡ v.depended)
      × (without n v.waiting ≡ v.waiting)
      × (without n v.running ≡ v.running)
untouched v n f =
    let (d, w, r) = apart v n f in
    (without-NotIn n v.depended d, without-NotIn n v.waiting w, without-NotIn n v.running r)

view_back :
    (v : View) (n : ℕ) (pos : InsertType) (depends blocked : Bool)
    → NotIn n (nodes v)
    → remove_view (insert_view v n pos depends blocked) n blocked ≡ v
view_back v n pos depends true f =
    ap (λ bs. record v { blocked = bs })
      (without_last n v.blocked (NotIn-right n (contents v) v.blocked f))
view_back v n insert_begin true false f =
    let (d, w, r) = untouched v n f in rw (==_refl n, w, r) refl
view_back v n insert_end true false f =
    let (d, w, r) = untouched v n f in rw (without_last n v.depended (apart v n f).0, w, r) refl
view_back v n insert_begin false false f =
    let (d, w, r) = untouched v n f in rw (==_refl n, d, r) refl
view_back v n insert_end false false f =
    let (d, w, r) = untouched v n f in rw (without_last n v.waiting (apart v n f).1, d, r) refl

inserted_side :
    (v : View) (n : ℕ) (pos : InsertType) (depends blocked : Bool)
    → ¬ NotIn n (side (insert_view v n pos depends blocked) blocked)
inserted_side v n pos depends true h = NotIn-self n n v.blocked [] h refl
inserted_side v n insert_begin true false h = h.0 refl
inserted_side v n insert_end true false h =
    NotIn-self n n v.depended [] (NotIn-left n (v.depended ++ n ∷ []) (v.waiting ++ v.running) h)
      refl
inserted_side v n insert_begin false false h =
    NotIn-self n n v.depended (v.waiting ++ v.running) h refl
inserted_side v n insert_end false false h =
    NotIn-self n n v.waiting []
      (NotIn-left n (v.waiting ++ n ∷ []) v.running
        (NotIn-right n v.depended ((v.waiting ++ n ∷ []) ++ v.running) h))
      refl

-- `priority_list_insert` of a node that is not in a children or taskgroup list, at any position and with
-- any status, and then `priority_list_remove` of it: the pointers stand again for the view that they
-- stood for.
pub remove-insert :
    {m : Mem} {l : PriorityList} {v : View} (type : QueueType) (n : ℕ) (pos : InsertType)
    (depends blocked : Bool)
    → is_flat type ≡ false
    → Represents m l v
    → NotIn n (nodes v)
    → let (m', l') = insert type m l n pos depends blocked in
      let (empty, (m'', l'')) = remove type m' l' n blocked in Represents m'' l'' v
remove-insert {m} {l} {v} type n pos depends blocked k r f =
    let (m', l') = insert type m l n pos depends blocked in
    let (empty, (m'', l'')) = remove type m' l' n blocked in
    subst (λ w. Represents m'' l'' w) (view_back v n pos depends blocked f)
      (remove-Represents type n blocked k (insert-Represents type n pos depends blocked k r f)
        (inserted_side v n pos depends blocked))
