-- ===== src/PriorityList/Running.antt =====
-- `priority_list_insert_running` puts the node behind all tasks, among the running ones.
use ulmt_open_mp_gcc.Base.{
  ℕ, ◌≡◌, List, [], ◌∷◌, ◌++◌, append-nil, append_assoc, refl, sym, ◌∙◌, some, arith, NotIn,
  List-cases, inl, inr,
}
use ulmt_open_mp_gcc.Ring.{Mem, link_single, link_before}
use ulmt_open_mp_gcc.PriorityList.{PriorityList, insert_running}
use ulmt_open_mp_gcc.PriorityList.View.{View, contents, nodes, Represents, view, Holds, Holds-by}
use ulmt_open_mp_gcc.PriorityList.Place.{Placed-Represents, place_single, shown, at_end}

end_eq :
    (n : ℕ) (ds ws rs cs : List ℕ)
    → ds ++ (ws ++ rs) ≡ cs
    → ds ++ (ws ++ (rs ++ n ∷ [])) ≡ cs ++ n ∷ []
end_eq n ds ws rs cs e = simp (append_assoc, ← e)

module _ (m : Mem) (l : PriorityList) (n : ℕ) where
  empty_lem :
      (ds ws rs bs : List ℕ)
      → Represents m l (view ds ws rs bs)
      → NotIn n (nodes (view ds ws rs bs))
      → ds ++ (ws ++ rs) ≡ []
      → Holds (insert_running m l n) (view ds ws (rs ++ n ∷ []) bs)
  unfolding insert_running
  empty_lem (d ∷ ds) ws rs bs r f e = cc
  empty_lem [] (w ∷ ws) rs bs r f e = cc
  empty_lem [] [] (x ∷ rs) bs r f e = cc
  empty_lem [] [] [] bs r f e =
      Holds-by {s' = (link_single m n, record l { tasks = some n; first_running_task = some n })}
        (ground (arith, r.tasks_ring))
        (Placed-Represents [] [] n r f refl refl (place_single m n) refl refl r.last_depended refl)

  more_lem :
      (ds ws rs bs : List ℕ) (q : ℕ) (ys : List ℕ)
      → Represents m l (view ds ws rs bs)
      → NotIn n (nodes (view ds ws rs bs))
      → ds ++ (ws ++ rs) ≡ q ∷ ys
      → Holds (insert_running m l n) (view ds ws (rs ++ n ∷ []) bs)
  unfolding insert_running
  more_lem ds ws [] bs q ys r f e =
      Holds-by {s' = (link_before m q n, record l { first_running_task = some n })}
        (ground (arith, (shown n r f e).0, r.first_running))
        (Placed-Represents (q ∷ ys) [] n r f (e ∙ sym (append-nil (q ∷ ys)))
          (end_eq n ds ws _ (q ∷ ys) e) (at_end n r f q ys e) refl refl r.last_depended refl)
  more_lem ds ws (x ∷ xs) bs q ys r f e =
      Holds-by {s' = (link_before m q n, l)} (ground (arith, (shown n r f e).0, r.first_running)) (
        Placed-Represents (q ∷ ys) [] n r f (e ∙ sym (append-nil (q ∷ ys)))
          (end_eq n ds ws _ (q ∷ ys) e) (at_end n r f q ys e) refl refl r.last_depended
          r.first_running)

-- `priority_list_insert_running`: pointers that stand for a view come to stand for the view with
-- the new node as the last of its running tasks.
pub insert_running-Represents :
    {m : Mem} {l : PriorityList} {v : View} (n : ℕ)
    → Represents m l v
    → NotIn n (nodes v)
    → let (m', l') = insert_running m l n in
      Represents m' l' (record v { running = v.running ++ n ∷ [] })
insert_running-Represents {m} {l} {v} n r f = elim (List-cases (contents v)) [
  | inl e ↦ empty_lem m l n v.depended v.waiting v.running v.blocked r f e
  | inr (q, ys, e) ↦ more_lem m l n v.depended v.waiting v.running v.blocked q ys r f e
]
