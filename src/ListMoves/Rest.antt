-- ===== src/ListMoves/Rest.antt =====
-- A removal from a represented list leaves a view that lacks the node, which may then be inserted.
use ulmt_open_mp_gcc.Base.{
  ℕ, List, ◌∷◌, ◌++◌, inl, inr, sym, subst, Bool, true, false, NotIn, NotIn-left, NotIn-append,
  Distinct, Distinct-left, Distinct-right, Distinct-Disjoint, Distinct-out, Distinct-swap, Disjoint,
  All-right, without, without-NotIn, without-split, find_split,
}
use ulmt_open_mp_gcc.PriorityList.View.{View, contents, nodes}
use ulmt_open_mp_gcc.PriorityList.Remove.{remove_view, side}

without-out : (n : ℕ) (xs : List ℕ) → Distinct xs → NotIn n (without n xs)
without-out n xs d = elim (find_split n xs) [
  | inl h ↦ subst (NotIn n) (sym (without-NotIn n xs h)) h
  | inr (us, cs, e) ↦
      let (d', out) = Distinct-out n us cs (subst Distinct e d) in
      subst (λ l. NotIn n (without n l)) (sym e)
        (subst (NotIn n) (sym (without-split n us cs (NotIn-left n us cs out))) out)
]

-- A node of one of two lists that are apart is not in the other one.
apart : (n : ℕ) (xs ys : List ℕ) → Distinct (xs ++ ys) → ¬ NotIn n xs → NotIn n ys
apart n xs ys d k = elim (find_split n xs) [
  | inl h ↦ absurd (k h)
  | inr (us, cs, e) ↦
      (All-right (λ x. NotIn x ys) us (n ∷ cs)
        (subst (λ l. Disjoint l ys) e (Distinct-Disjoint xs ys d))).0
]

pub remove_view-NotIn :
    (v : View) (n : ℕ) (blocked : Bool)
    → Distinct (nodes v)
    → ¬ NotIn n (side v blocked)
    → NotIn n (nodes (remove_view v n blocked))
remove_view-NotIn v n true d k =
    NotIn-append n (contents v) (without n v.blocked) (apart n v.blocked (contents v) (swap d) k)
      (without-out n v.blocked (Distinct-right (contents v) v.blocked d))
  where
    swap : Distinct (contents v ++ v.blocked) → Distinct (v.blocked ++ contents v)
    swap = Distinct-swap (contents v) v.blocked
remove_view-NotIn v n false d k =
    let c : Distinct (v.depended ++ (v.waiting ++ v.running)) =
      Distinct-left (contents v) v.blocked d in
    let wr = Distinct-right v.depended (v.waiting ++ v.running) c in
    NotIn-append n (without n v.depended ++ (without n v.waiting ++ without n v.running)) v.blocked
      (NotIn-append n (without n v.depended) (without n v.waiting ++ without n v.running)
        (without-out n v.depended (Distinct-left v.depended (v.waiting ++ v.running) c))
        (NotIn-append n (without n v.waiting) (without n v.running)
          (without-out n v.waiting (Distinct-left v.waiting v.running wr))
          (without-out n v.running (Distinct-right v.waiting v.running wr))))
      (apart n (contents v) v.blocked d k)
