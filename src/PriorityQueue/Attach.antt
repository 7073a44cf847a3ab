-- ===== src/PriorityQueue/Attach.antt =====
-- A node that comes into the tree of a queue, and what it does to `highest_priority`.
use ulmt_open_mp_gcc.Base.{
  Gives, ℕ, ◌≡◌, refl, sym, ap, subst, ◌∙◌, Bool, true, false, ◌&&◌, Option, none, some, update,
  arith, List, [], ◌∷◌, inl, inr, All, All-map, NotIn, Bool-cases, Option-cases, ==_refl,
}
use ulmt_open_mp_gcc.Base.Int.{ℤ, pos}
use ulmt_open_mp_gcc.PriorityList.{PriorityList}
use ulmt_open_mp_gcc.Splay.{prio_splay_compare}
use ulmt_open_mp_gcc.Splay.Ordered.{find, insert_sorted}
use ulmt_open_mp_gcc.HpList
use ulmt_open_mp_gcc.HpList.{Nodes, HpTree}
use ulmt_open_mp_gcc.HpList.Valid.{HpValid}
use ulmt_open_mp_gcc.HpList.Insert.{HpInserted, insert-HpInserted, Answer, OnSome, insert-Answer}
use ulmt_open_mp_gcc.PriorityQueue.{
  Queue, store_highest, new_node, attach, add_priority, top_priority, empty_list, hp_state,
}
use ulmt_open_mp_gcc.PriorityQueue.Reads.{HpOk, members, new_node-HpOk}

-- A new node has come into the tree.
pub record Attached (q : Queue) (k : ℕ) (marks : Bool) (r : Bool × Queue) : Type 0 where
  pub valid : HpValid r.1.nodes r.1.t
  pub same_key : r.1.nodes.key ≡ q.nodes.key
  pub new_members : members r.1 ≡ insert_sorted q.nodes.key k (members q)
  pub same_highest : r.1.highest_priority ≡ q.highest_priority
  pub same_l : r.1.l ≡ q.l
  pub answer : Answer q.t k marks (r.0, (r.1.nodes, r.1.t))

pub attach-Attached :
    (q : Queue) (k : ℕ) (marks : Bool)
    → HpValid q.nodes q.t
    → find q.nodes.key (q.nodes.key k) (members q) ≡ none
    → Gives (attach q k true marks) (Attached q k marks)
unfolding attach
attach-Attached q k marks v f = elim (Option-cases (HpList.insert q.nodes q.t k marks)) [
  | inl e ↦
      let (x, found) =
        subst (HpInserted q.nodes (members q) k marks) e
          (insert-HpInserted q.nodes q.t k marks v) in
      cc
  | inr (r, e) ↦
      let (valid, placed, marked, key) =
        subst (HpInserted q.nodes (members q) k marks) e
          (insert-HpInserted q.nodes q.t k marks v) in
      let answer = subst (OnSome (Answer q.t k marks)) e (insert-Answer q.nodes q.t k marks) in
      (
        (r.0, hp_state q r.1),
        ground (arith, e),
        record {
          valid = valid;
          same_key = key;
          new_members = placed;
          same_highest = refl;
          same_l = refl;
          answer = answer;
        },
      )
]

-- The priority of the highest marked node reads the keys alone.
pub top_same :
    (q : Queue) (high : Option ℕ) (keys : ℕ → ℤ)
    → high ≡ q.t.highest_marked
    → keys ≡ q.nodes.key
    → (elim high as (λ x. ℤ) [ none ↦ pos 0 | some a ↦ keys a ]) ≡ top_priority q
top_same q high keys i j = ground (arith, i, j)

find-frame :
    (key key' : ℕ → ℤ) (p : ℤ) (xs : List ℕ)
    → All (λ x. key' x ≡ key x) xs
    → find key' p xs ≡ find key p xs
find-frame key key' p [] e = refl
find-frame key key' p (x ∷ xs) e =
    ground (arith, ap (λ z. prio_splay_compare z p) e.0, find-frame key key' p xs e.1)

pub find-new :
    (q : Queue) (k : ℕ) (p : ℤ) (lst : PriorityList)
    → NotIn k (members q)
    → find q.nodes.key p (members q) ≡ none
    → let q' = new_node q k p lst in find q'.nodes.key (q'.nodes.key k) (members q') ≡ none
unfolding new_node
find-new q k p lst f e =
    ap (λ z. find (update q.nodes.key k p) z (members q)) (ground (arith, ==_refl k))
    ∙ find-frame q.nodes.key (update q.nodes.key k p) p (members q)
        (All-map (λ x ne. ground (arith, ne)) (members q) f)
    ∙ e

stored-HpOk :
    (q : Queue) (k : ℕ) (marks : Bool) (r : Bool × Queue)
    → HpOk q
    → Attached q k marks r
    → HpOk (store_highest (r.0 && marks) r.1)
stored-HpOk q k marks r v a = elim (Bool-cases r.0) [
  | inr e ↦
      subst (λ b. HpOk (store_highest b r.1)) {x = false} (ground (arith, e))
        (record {
          valid = a.valid;
          highest =
              a.same_highest
              ∙ v.highest
              ∙ sym (top_same q r.1.t.highest_marked r.1.nodes.key (a.answer.1 e) a.same_key);
        })
  | inl e ↦ elim (Bool-cases marks) [
    | inl m ↦
        subst (λ b. HpOk (store_highest b r.1)) {x = true} (ground (arith, e, m))
          (record { valid = a.valid; highest = refl })
    | inr m ↦ let no : r.0 ≡ false = a.answer.2 m in cc
  ]
]

new_node-l : (q : Queue) (k : ℕ) (p : ℤ) → (new_node q k p (empty_list p)).l ≡ q.l
unfolding new_node
new_node-l q k p = refl

new_node-key :
    (q : Queue) (k : ℕ) (p : ℤ) → (new_node q k p (empty_list p)).nodes.key ≡ update q.nodes.key k p
unfolding new_node
new_node-key q k p = refl

-- The store changes neither the tree nor the nodes.
stored_nodes :
    (b : Bool) (q : Queue)
    → ((store_highest b q).nodes ≡ q.nodes) × (members (store_highest b q) ≡ members q)
stored_nodes true q = (refl, refl)
stored_nodes false q = (refl, refl)

pub add_priority-HpOk :
    (q : Queue) (k : ℕ) (p : ℤ) (marks : Bool)
    → NotIn k (members q)
    → find q.nodes.key p (members q) ≡ none
    → HpOk q
    → Gives (add_priority q k p true marks) (λ q'.
      HpOk q'
      × (q'.l ≡ q.l)
      × (q'.nodes.key ≡ update q.nodes.key k p)
      × (members q' ≡ insert_sorted (update q.nodes.key k p) k (members q)))
unfolding add_priority attach
add_priority-HpOk q k p marks f e v =
    let q' = new_node q k p (empty_list p) in
    let ok : HpOk q' = new_node-HpOk q k p (empty_list p) f v in
    let (r, given, a) = attach-Attached q' k marks ok.valid (find-new q k p (empty_list p) f e) in
    (
      store_highest (r.0 && marks) r.1,
      ap
          (λ o. elim o as (λ x. Option Queue) [
            | none ↦ none
            | some r' ↦ some (store_highest (r'.0 && marks) r'.1)
          ])
          given,
      (
        stored-HpOk q' k marks r ok a,
        ground (arith, a.same_l, new_node-l q k p),
        ap (λ h. h.key) (stored_nodes (r.0 && marks) r.1).0 ∙ a.same_key ∙ new_node-key q k p,
        (stored_nodes (r.0 && marks) r.1).1
            ∙ a.new_members
            ∙ ap (λ g. insert_sorted g k (members q)) (new_node-key q k p),
      ),
    )
