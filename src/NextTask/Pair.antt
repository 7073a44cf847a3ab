-- ===== src/NextTask/Pair.antt =====
-- The task chosen in one or two queues.
use ulmt_open_mp_gcc.Base.{
  ℕ, ◌≡◌, refl, sym, ap, ap₂, subst, ◌∙◌, true, false, ◌&&◌, Option, none, some, if◌then◌else◌,
  arith, List, [], ◌∷◌, ◌++◌, inl, inr, All, All-map, All-append, Bool-cases, append-nil,
  append_assoc,
}
use ulmt_open_mp_gcc.Base.Int.{ltb_ℤ}
use ulmt_open_mp_gcc.Splay.{inorder}
use ulmt_open_mp_gcc.Splay.Inorder.{IsSorted}
use ulmt_open_mp_gcc.PriorityQueue.{Tasks, Queue, multi_p}
use ulmt_open_mp_gcc.NextTask.{
  first_waiting, tree_next, choose, beats, tree_next_task, one_task, next_task, next_suspended_task,
}
use ulmt_open_mp_gcc.NextTask.Tree.{
  IsTop, Best, offered, prepend, Filed, tree_next-Best, tree_next_suspended-last, last-offered-Best,
}

-- The waiting tasks that are first in a list of the queue.
abbrev pub offers : Tasks → Queue → List ℕ
offers tasks q =
    if multi_p q
    then offered (λ a. first_waiting tasks (q.lists a)) (inorder q.t.root)
    else prepend (first_waiting tasks q.l) []

-- The tree is sorted, and what its lists offer has the priority of the list.
pub record IsFiled (tasks : Tasks) (q : Queue) : Type 0 where
  pub sorted : IsSorted q.nodes.key (inorder q.t.root)
  pub filed :
      All (Filed tasks q.nodes.key (λ a. first_waiting tasks (q.lists a))) (inorder q.t.root)

alone-Best : (tasks : Tasks) (o : Option ℕ) → Best tasks (prepend o []) o
alone-Best tasks none = refl
alone-Best tasks (some n) = ([], [], refl, (ground arith, tt))

choose-alone : (tasks : Tasks) (o : Option ℕ) → (choose tasks o none).0 ≡ o
unfolding choose
choose-alone tasks none = refl
choose-alone tasks (some n) = refl

tree_task-Best :
    (tasks : Tasks) (q : Queue)
    → IsFiled tasks q
    → Best tasks
        (offered (λ a. first_waiting tasks (q.lists a)) (inorder q.t.root))
        (tree_next tasks q.lists q.t.root)
tree_task-Best tasks q v = tree_next-Best tasks q.lists q.nodes.key q.t.root v.sorted v.filed

tree_offers-Best :
    (tasks : Tasks) (q : Queue)
    → multi_p q ≡ true
    → IsFiled tasks q
    → Best tasks (offers tasks q) (tree_next tasks q.lists q.t.root)
tree_offers-Best tasks q e v = rw e (tree_task-Best tasks q v)

pub one_task-Best :
    (tasks : Tasks) (q : Queue) → IsFiled tasks q → Best tasks (offers tasks q) (one_task tasks q)
unfolding one_task tree_next_task
one_task-Best tasks q v = elim (Bool-cases (multi_p q)) [
  | inr e ↦ rw e (alone-Best tasks (first_waiting tasks q.l))
  | inl e ↦ rw e (
      subst (Best tasks _) (sym (choose-alone tasks (tree_next tasks q.lists q.t.root)))
        (tree_task-Best tasks q v))
]

not_below :
    (tasks : Tasks) (a b m : ℕ)
    → ltb_ℤ (tasks a).priority (tasks b).priority ≡ false
    → ltb_ℤ (tasks b).priority (tasks m).priority ≡ false
    → ltb_ℤ (tasks a).priority (tasks m).priority ≡ false
not_below tasks a b m h k = ground (arith, h, k)

left-IsTop :
    (tasks : Tasks) (xs ys : List ℕ) (a b : ℕ)
    → ltb_ℤ (tasks a).priority (tasks b).priority ≡ false
    → IsTop tasks xs a
    → IsTop tasks ys b
    → IsTop tasks (xs ++ ys) a
left-IsTop tasks xs ys a b h (us, vs, e, top) (us', vs', e', top') = (
  us,
  vs ++ ys,
  ap (λ z. z ++ ys) e ∙ append_assoc us (a ∷ vs) ys,
  All-append _ xs ys top (All-map (λ m k. not_below tasks a b m h k) ys top'),
)

right-IsTop :
    (tasks : Tasks) (xs ys : List ℕ) (a b : ℕ)
    → ltb_ℤ (tasks b).priority (tasks a).priority ≡ false
    → IsTop tasks xs a
    → IsTop tasks ys b
    → IsTop tasks (xs ++ ys) b
right-IsTop tasks xs ys a b h (us, vs, e, top) (us', vs', e', top') = (
  xs ++ us',
  vs',
  ap (λ z. xs ++ z) e' ∙ sym (append_assoc xs us' (b ∷ vs')),
  All-append _ xs ys (All-map (λ m k. not_below tasks b a m h k) xs top) top',
)

pub choose-Best :
    (tasks : Tasks) (xs ys : List ℕ) (o₁ o₂ : Option ℕ)
    → Best tasks xs o₁
    → Best tasks ys o₂
    → Best tasks (xs ++ ys) (choose tasks o₁ o₂).0
unfolding choose
choose-Best tasks xs ys none none h k = ap₂ (λ u v. u ++ v) h k
choose-Best tasks xs ys none (some b) h k = subst (λ z. IsTop tasks (z ++ ys) b) (sym h) k
choose-Best tasks xs ys (some a) none h k =
    subst (λ z. IsTop tasks z a) (sym (ap (λ z. xs ++ z) k ∙ append-nil xs)) h
choose-Best tasks xs ys (some a) (some b) h k =
    elim (Bool-cases (beats (tasks b) (tasks a).priority (tasks a).parent_depends_on)) [
      | inl e ↦ rw e (right-IsTop tasks xs ys a b (ground (arith, e)) h k)
      | inr e ↦ rw e (left-IsTop tasks xs ys a b (ground (arith, e)) h k)
    ]

-- `priority_queue_next_task` of two queues gives a task of the highest priority among the waiting
-- tasks that are first in a list of either queue, and NULL only if there is none, also when neither
-- queue has a tree. The lists of each tree offer tasks of their own priority.
pub next_task-Best :
    (tasks : Tasks) (q₁ q₂ : Queue)
    → IsFiled tasks q₁
    → IsFiled tasks q₂
    → Best tasks (offers tasks q₁ ++ offers tasks q₂) (next_task tasks q₁ (some q₂)).0
unfolding next_task tree_next_task
next_task-Best tasks q₁ q₂ v₁ v₂ = elim (Bool-cases (multi_p q₁ && multi_p q₂)) [
  | inr e ↦
      subst
        (λ b.
          Best tasks (offers tasks q₁ ++ offers tasks q₂)
            (if b
              then tree_next_task tasks q₁ (some q₂)
              else choose tasks (one_task tasks q₁) (one_task tasks q₂)).0)
        (sym e)
        (choose-Best tasks (offers tasks q₁) (offers tasks q₂) (one_task tasks q₁)
          (one_task tasks q₂) (one_task-Best tasks q₁ v₁) (one_task-Best tasks q₂ v₂))
  | inl e ↦
      subst
        (λ b.
          Best tasks (offers tasks q₁ ++ offers tasks q₂)
            (if b
              then tree_next_task tasks q₁ (some q₂)
              else choose tasks (one_task tasks q₁) (one_task tasks q₂)).0)
        (sym e)
        (choose-Best tasks (offers tasks q₁) (offers tasks q₂) (tree_next tasks q₁.lists q₁.t.root)
          (tree_next tasks q₂.lists q₂.t.root) (tree_offers-Best tasks q₁ (ground (arith, e)) v₁)
          (tree_offers-Best tasks q₂ (ground (arith, e)) v₂))
]

-- `priority_queue_next_suspended_task` gives a task of the highest priority among the tasks that are
-- first in the lists of a sorted tree, each of its list's priority, and NULL only if there is none.
pub next_suspended_task-Best :
    (tasks : Tasks) (q : Queue)
    → multi_p q ≡ true
    → IsSorted q.nodes.key (inorder q.t.root)
    → All (Filed tasks q.nodes.key (λ a. (q.lists a).tasks)) (inorder q.t.root)
    → Best tasks (offered (λ a. (q.lists a).tasks) (inorder q.t.root)) (next_suspended_task q)
unfolding next_suspended_task
next_suspended_task-Best tasks q e s f =
    rw (e, tree_next_suspended-last q.lists q.t.root)
      (last-offered-Best tasks q.nodes.key (λ a. (q.lists a).tasks) (inorder q.t.root) s f)
