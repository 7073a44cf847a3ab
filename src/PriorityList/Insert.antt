-- ===== src/PriorityList/Insert.antt =====
-- `priority_list_insert` keeps the pointers and the order of a children or taskgroup list.
use ulmt_open_mp_gcc.Base.{
  ℕ, ◌≡◌, List, [], ◌∷◌, ◌++◌, append-nil, append_assoc, refl, sym, ◌∙◌, ap, some, last_of, arith,
  Bool, true, false, NotIn, NotIn-self, last_of-snoc, List-cases, inl, inr,
}
use ulmt_open_mp_gcc.Ring.{Mem, link_single, link_before, link_after}
use ulmt_open_mp_gcc.PriorityList.{
  PriorityList, QueueType, is_flat, InsertType, insert_begin, insert_end, insert, insert_blocked,
  insert_dependence, insert_plain, insert_ordered,
}
use ulmt_open_mp_gcc.PriorityList.View.{
  View, contents, nodes, Represents, view, insert_view, Holds, Holds-by,
}
use ulmt_open_mp_gcc.PriorityList.Blocked.{blocked_lem}
use ulmt_open_mp_gcc.PriorityList.Place.{
  Placed-Represents, place_single, shown, shown-Distinct, at_front, at_end, at_before, at_after,
}

-- The waiting tasks get `n` at their end.
place_eq :
    (n : ℕ) (ds ws cs rs : List ℕ) → ds ++ ws ≡ cs → ds ++ ((ws ++ n ∷ []) ++ rs) ≡ cs ++ n ∷ rs
place_eq n ds ws cs rs e =
    simp (append_assoc) (sym (append_assoc ds ws (n ∷ rs)) ∙ ap (λ c. c ++ n ∷ rs) e)

module _ (m : Mem) (l : PriorityList) (n : ℕ) where
  pub dependence_lem :
      (pos : InsertType) (ds ws rs bs : List ℕ) (q : ℕ) (ys : List ℕ)
      → Represents m l (view ds ws rs bs)
      → NotIn n (nodes (view ds ws rs bs))
      → ds ++ (ws ++ rs) ≡ q ∷ ys
      → Holds (insert_dependence m l n pos q) (insert_view (view ds ws rs bs) n pos true false)
  unfolding insert_dependence
  dependence_lem insert_begin [] ws rs bs q ys r f e =
      Holds-by
        {s' = (link_before m q n, record l { tasks = some n; last_parent_depends_on = some n })}
        (ground (arith, r.last_depended))
        (Placed-Represents [] (q ∷ ys) n r f e (ap (λ c. n ∷ c) e) (at_front n r f q ys e) refl refl
          refl r.first_running)
  dependence_lem insert_end [] ws rs bs q ys r f e =
      Holds-by
        {s' = (link_before m q n, record l { tasks = some n; last_parent_depends_on = some n })}
        (ground (arith, r.last_depended))
        (Placed-Represents [] (q ∷ ys) n r f e (ap (λ c. n ∷ c) e) (at_front n r f q ys e) refl refl
          refl r.first_running)
  dependence_lem insert_begin (d ∷ ds) ws rs bs q ys r f e =
      Holds-by {s' = (link_before m q n, record l { tasks = some n })}
        (ground (arith, r.last_depended))
        (Placed-Represents [] (q ∷ ys) n r f e (ap (λ c. n ∷ c) e) (at_front n r f q ys e) refl refl
          r.last_depended r.first_running)
  dependence_lem insert_end (d ∷ ds) ws rs bs q ys r f e =
      Holds-by {s' = (link_after m (last_of d ds) n, record l { last_parent_depends_on = some n })}
        (ground (arith, r.last_depended))
        (Placed-Represents (d ∷ ds) (ws ++ rs) n r f refl
          (append_assoc (d ∷ ds) (n ∷ []) (ws ++ rs)) (at_after n r f d ds (ws ++ rs) refl) refl
          refl (ap some (sym (last_of-snoc d n ds))) r.first_running)

  plain_begin :
      (ds ws rs bs : List ℕ) (q : ℕ) (ys : List ℕ)
      → Represents m l (view ds ws rs bs)
      → NotIn n (nodes (view ds ws rs bs))
      → ds ++ (ws ++ rs) ≡ q ∷ ys
      → Holds (insert_plain m l n insert_begin q) (view ds (n ∷ ws) rs bs)
  unfolding insert_plain
  plain_begin [] ws rs bs q ys r f e =
      Holds-by {s' = (link_before m q n, record l { tasks = some n })}
        (ground (arith, r.last_depended))
        (Placed-Represents [] (q ∷ ys) n r f e (ap (λ c. n ∷ c) e) (at_front n r f q ys e) refl refl
          r.last_depended r.first_running)
  plain_begin (d ∷ ds) ws rs bs q ys r f e =
      Holds-by {s' = (link_after m (last_of d ds) n, l)} (ground (arith, r.last_depended)) (
        Placed-Represents (d ∷ ds) (ws ++ rs) n r f refl refl (at_after n r f d ds (ws ++ rs) refl)
          refl refl r.last_depended r.first_running)

  -- In front of the first running task, which may be the first of all.
  plain_before_running :
      (ds ws cs : List ℕ) (q x : ℕ) (xs bs : List ℕ)
      → ds ++ ws ≡ cs
      → Represents m l (view ds ws (x ∷ xs) bs)
      → NotIn n (nodes (view ds ws (x ∷ xs) bs))
      → Holds (insert_plain m l n insert_end q) (view ds (ws ++ n ∷ []) (x ∷ xs) bs)
  unfolding insert_plain
  plain_before_running ds ws [] q x xs bs e r f =
      let e' : ds ++ (ws ++ x ∷ xs) ≡ x ∷ xs =
        sym (append_assoc ds ws (x ∷ xs)) ∙ ap (λ c. c ++ x ∷ xs) e in
      Holds-by {s' = (link_before m x n, record l { tasks = some n })}
        (ground (arith, r.first_running, (at_front n r f x xs e').ring.0, (shown n r f e').0))
        (Placed-Represents [] (x ∷ xs) n r f e' (place_eq n ds ws [] (x ∷ xs) e)
          (at_front n r f x xs e') refl refl r.last_depended r.first_running)
  plain_before_running ds ws (c ∷ cs) q x xs bs e r f =
      let e' : ds ++ (ws ++ x ∷ xs) ≡ c ∷ cs ++ x ∷ xs =
        sym (append_assoc ds ws (x ∷ xs)) ∙ ap (λ c. c ++ x ∷ xs) e in
      Holds-by {s' = (link_before m x n, l)}
        (ground (
          arith,
          r.first_running,
          (shown n r f e').0,
          NotIn-self c x cs xs (shown-Distinct n r f e').0,
        ))
        (Placed-Represents (c ∷ cs) (x ∷ xs) n r f e' (place_eq n ds ws (c ∷ cs) (x ∷ xs) e)
          (at_before n r f c cs x xs e') refl refl r.last_depended r.first_running)

  plain_end :
      (ds ws rs bs : List ℕ) (q : ℕ) (ys : List ℕ)
      → Represents m l (view ds ws rs bs)
      → NotIn n (nodes (view ds ws rs bs))
      → ds ++ (ws ++ rs) ≡ q ∷ ys
      → Holds (insert_plain m l n insert_end q) (view ds (ws ++ n ∷ []) rs bs)
  unfolding insert_plain
  plain_end ds ws [] bs q ys r f e =
      Holds-by {s' = (link_before m q n, l)} (ground (arith, r.first_running)) (
        Placed-Represents (q ∷ ys) [] n r f (e ∙ sym (append-nil (q ∷ ys)))
          (place_eq n ds ws (q ∷ ys) [] (ap (λ c. ds ++ c) (sym (append-nil ws)) ∙ e))
          (at_end n r f q ys e) refl refl r.last_depended r.first_running)
  plain_end ds ws (x ∷ xs) bs q ys r f e = plain_before_running ds ws (ds ++ ws) q x xs bs refl r f

module _ (m : Mem) (l : PriorityList) (n : ℕ) where
  -- The first task of an empty list.
  alone_depended :
      (pos : InsertType) (bs : List ℕ)
      → Represents m l (view [] [] [] bs)
      → NotIn n bs
      → Holds (insert_ordered m l n pos true) (view (n ∷ []) [] [] bs)
  unfolding insert_ordered
  alone_depended pos bs r f =
      Holds-by
        {s' = (link_single m n, record l { tasks = some n; last_parent_depends_on = some n })}
        (ground (arith, r.tasks_ring))
        (Placed-Represents [] [] n r f refl refl (place_single m n) refl refl refl r.first_running)

  alone_plain :
      (pos : InsertType) (bs : List ℕ)
      → Represents m l (view [] [] [] bs)
      → NotIn n bs
      → Holds (insert_ordered m l n pos false) (view [] (n ∷ []) [] bs)
  unfolding insert_ordered
  alone_plain pos bs r f =
      Holds-by {s' = (link_single m n, record l { tasks = some n })} (ground (arith, r.tasks_ring))
        (Placed-Represents [] [] n r f refl refl (place_single m n) refl refl r.last_depended
          r.first_running)

  empty_lem :
      (pos : InsertType) (dep : Bool) (ds ws rs bs : List ℕ)
      → Represents m l (view ds ws rs bs)
      → NotIn n (nodes (view ds ws rs bs))
      → ds ++ (ws ++ rs) ≡ []
      → Holds (insert_ordered m l n pos dep) (insert_view (view ds ws rs bs) n pos dep false)
  empty_lem pos dep (d ∷ ds) ws rs bs r f e = cc
  empty_lem pos dep [] (w ∷ ws) rs bs r f e = cc
  empty_lem pos dep [] [] (x ∷ rs) bs r f e = cc
  empty_lem insert_begin true [] [] [] bs r f e = alone_depended insert_begin bs r f
  empty_lem insert_end true [] [] [] bs r f e = alone_depended insert_end bs r f
  empty_lem insert_begin false [] [] [] bs r f e = alone_plain insert_begin bs r f
  empty_lem insert_end false [] [] [] bs r f e = alone_plain insert_end bs r f

  more_lem :
      (pos : InsertType) (dep : Bool) (v : View) (q : ℕ) (ys : List ℕ)
      → Represents m l v
      → NotIn n (nodes v)
      → contents v ≡ q ∷ ys
      → Holds (insert_ordered m l n pos dep) (insert_view v n pos dep false)
  unfolding insert_ordered
  more_lem insert_begin true v q ys r f e =
      Holds-by (ground (arith, (shown n r f e).0))
        (dependence_lem m l n insert_begin v.depended v.waiting v.running v.blocked q ys r f e)
  more_lem insert_end true v q ys r f e =
      Holds-by (ground (arith, (shown n r f e).0))
        (dependence_lem m l n insert_end v.depended v.waiting v.running v.blocked q ys r f e)
  more_lem insert_begin false v q ys r f e =
      Holds-by (ground (arith, (shown n r f e).0))
        (plain_begin m l n v.depended v.waiting v.running v.blocked q ys r f e)
  more_lem insert_end false v q ys r f e =
      Holds-by (ground (arith, (shown n r f e).0))
        (plain_end m l n v.depended v.waiting v.running v.blocked q ys r f e)

  ordered_lem :
      (pos : InsertType) (dep : Bool) (v : View)
      → Represents m l v
      → NotIn n (nodes v)
      → Holds (insert_ordered m l n pos dep) (insert_view v n pos dep false)
  ordered_lem pos dep v r f = elim (List-cases (contents v)) [
    | inl e ↦ empty_lem pos dep v.depended v.waiting v.running v.blocked r f e
    | inr (q, ys, e) ↦ more_lem pos dep v q ys r f e
  ]

  blocked_insert :
      (v : View)
      → Represents m l v
      → NotIn n (nodes v)
      → Holds (insert_blocked m l n) (record v { blocked = v.blocked ++ n ∷ [] })
  blocked_insert v r f =
      let b = blocked_lem m l n (contents v) v.blocked r.tasks_ring r.blocked_ring r.distinct f in
      record {
        tasks_ring = b.tasks_ring;
        blocked_ring = b.blocked_ring;
        last_depended = b.same_last ∙ r.last_depended;
        first_running = b.same_first ∙ r.first_running;
        distinct = b.distinct;
      }

-- `priority_list_insert` into a children or taskgroup queue: the pointers, which stood for a view,
-- stand for the view with the new node in its place, whatever the position and the node's status.
pub insert-Represents :
    {m : Mem} {l : PriorityList} {v : View} (type : QueueType) (n : ℕ) (pos : InsertType)
    (depends blocked : Bool)
    → is_flat type ≡ false
    → Represents m l v
    → NotIn n (nodes v)
    → let (m', l') = insert type m l n pos depends blocked in
      Represents m' l' (insert_view v n pos depends blocked)
unfolding insert
insert-Represents {m} {l} {v} type n pos depends true k r f =
    Holds-by (ground (arith, k)) (blocked_insert m l n v r f)
insert-Represents {m} {l} {v} type n pos depends false k r f =
    Holds-by (ground (arith, k)) (ordered_lem m l n pos depends v r f)
