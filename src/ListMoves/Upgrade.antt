-- ===== src/ListMoves/Upgrade.antt =====
-- `priority_list_upgrade_task`: a waiting task joins those that the parent depends on.
use ulmt_open_mp_gcc.Base.{
  ℕ, ◌≡◌, ◌≢◌, refl, sym, ap, subst, ◌∙◌, List, [], ◌∷◌, ◌++◌, append_assoc, append-nil, some,
  last_of, arith, NotIn, Distinct, Distinct-left, Distinct-out, ==_refl,
}
use ulmt_open_mp_gcc.Ring.{Mem, unlink}
use ulmt_open_mp_gcc.Ring.Seg.{Heads}
use ulmt_open_mp_gcc.PriorityList.{PriorityList, insert_end, insert_dependence}
use ulmt_open_mp_gcc.PriorityList.View.{View, Represents, view, Holds, Holds-by}
use ulmt_open_mp_gcc.PriorityList.Take.{Removed-Represents, later_taken, held-Distinct, last-append}
use ulmt_open_mp_gcc.PriorityList.Insert.{dependence_lem}
use ulmt_open_mp_gcc.ListMoves.{upgrade_list}
use ulmt_open_mp_gcc.ListMoves.Turn.{
  turned-Represents, not_first, at_prev, at_last, at_next, last_of-apart,
}

-- The tasks that the parent depends on, with `n` of the waiting tasks between `us` and `rest`: it comes
-- to their end, but to their front when it is the last task of all, with a waiting one before it.
abbrev pub upgraded : List ℕ → ℕ → List ℕ → List ℕ → List ℕ
upgraded [] n us rest = n ∷ []
upgraded (d ∷ ds) n [] rest = d ∷ ds ++ n ∷ []
upgraded (d ∷ ds) n (u ∷ us) [] = n ∷ d ∷ ds
upgraded (d ∷ ds) n (u ∷ us) (y ∷ ys) = d ∷ ds ++ n ∷ []

behind :
    (d : ℕ) (ds : List ℕ) (u : ℕ) (us zs : List ℕ) (n : ℕ)
    → Distinct (d ∷ (ds ++ u ∷ us) ++ n ∷ zs)
    → last_of d (ds ++ u ∷ us) ≢ last_of d ds
behind d ds u us zs n k = last_of-apart d ds u us (Distinct-left (d ∷ ds ++ u ∷ us) (n ∷ zs) k)

module _ (m : Mem) (l : PriorityList) (n : ℕ) where
  -- The waiting task, out of its list.
  taken :
      (ds us cs rs bs : List ℕ) (x : ℕ) (xs ys : List ℕ)
      → ds ++ ((us ++ n ∷ cs) ++ rs) ≡ x ∷ xs ++ n ∷ ys
      → ds ++ ((us ++ cs) ++ rs) ≡ x ∷ xs ++ ys
      → Represents m l (view ds (us ++ n ∷ cs) rs bs)
      → Represents (unlink m n) l (view ds (us ++ cs) rs bs)
        × NotIn n ((ds ++ ((us ++ cs) ++ rs)) ++ bs)
  taken ds us cs rs bs x xs ys e e' r = (
    Removed-Represents (x ∷ xs) n ys r e e' (later_taken n r x xs ys e) refl refl r.last_depended
        r.first_running,
    subst (λ c. NotIn n (c ++ bs)) (sym e')
        (subst (NotIn n) (sym (append_assoc (x ∷ xs) ys bs))
          (Distinct-out n (x ∷ xs) (ys ++ bs) (
            subst Distinct (append_assoc (x ∷ xs) (n ∷ ys) bs)
              (subst (λ c. Distinct (c ++ bs)) e r.distinct))).1),
  )

  alone :
      (cs rs bs : List ℕ)
      → Represents m l (view [] (n ∷ cs) rs bs)
      → Holds (upgrade_list m l n) (view (n ∷ []) cs rs bs)
  unfolding upgrade_list
  alone cs rs bs r =
      Holds-by {s' = (m, record l { last_parent_depends_on = some n })}
        (ground (arith, r.tasks_ring.0, r.last_depended, ==_refl n))
        (record {
          tasks_ring = r.tasks_ring;
          blocked_ring = r.blocked_ring;
          last_depended = refl;
          first_running = r.first_running;
          distinct = r.distinct;
        })

  next_to :
      (d : ℕ) (ds cs rs bs : List ℕ)
      → Represents m l (view (d ∷ ds) (n ∷ cs) rs bs)
      → Holds (upgrade_list m l n) (view (d ∷ ds ++ n ∷ []) cs rs bs)
  unfolding upgrade_list
  next_to d ds cs rs bs r =
      let (a, b) = not_first n r d ds (cs ++ rs) refl in
      let e : d ∷ ds ++ n ∷ (cs ++ rs) ≡ (d ∷ ds ++ n ∷ []) ++ (cs ++ rs) =
        sym (append_assoc (d ∷ ds) (n ∷ []) (cs ++ rs)) in
      Holds-by {s' = (m, record l { last_parent_depends_on = some n })}
        (ground (arith, a, b, r.last_depended, at_prev n r d ds (cs ++ rs) refl))
        (record {
          tasks_ring = subst (Heads m l.tasks) e r.tasks_ring;
          blocked_ring = r.blocked_ring;
          last_depended = sym (last-append (d ∷ ds) n []);
          first_running = r.first_running;
          distinct = subst (λ c. Distinct (c ++ bs)) e r.distinct;
        })

  -- The last task of all, behind a waiting one.
  to_front :
      (ds : List ℕ) (u : ℕ) (us bs : List ℕ)
      → Represents m l (view ds (u ∷ us ++ n ∷ []) [] bs)
      → Holds (upgrade_list m l n) (view (upgraded ds n (u ∷ us) []) (u ∷ us ++ []) [] bs)
  unfolding upgrade_list
  to_front [] u us bs r =
      let e : (u ∷ us ++ n ∷ []) ++ [] ≡ u ∷ us ++ n ∷ [] = append-nil (u ∷ us ++ n ∷ []) in
      let (a, b) = not_first n r u us [] e in
      Holds-by {s' = (m, record l { tasks = some n; last_parent_depends_on = some n })}
        (ground (arith, a, b, r.last_depended, at_last n r u us e))
        (turned-Represents (u ∷ us) (n ∷ []) r e (simp append-nil) refl refl refl refl
          r.first_running)
  to_front (d ∷ ds) u us bs r =
      let e : d ∷ ds ++ ((u ∷ us ++ n ∷ []) ++ []) ≡ d ∷ (ds ++ u ∷ us) ++ n ∷ [] =
        simp (append_assoc, append-nil) in
      let (a, b) = not_first n r d (ds ++ u ∷ us) [] e in
      Holds-by {s' = (m, record l { tasks = some n })}
        (ground (
          arith,
          a,
          b,
          r.last_depended,
          at_last n r d (ds ++ u ∷ us) e,
          at_prev n r d (ds ++ u ∷ us) [] e,
          behind d ds u us [] n (held-Distinct r e),
        ))
        (turned-Represents (d ∷ ds ++ u ∷ us) (n ∷ []) r e (simp append-nil) refl refl refl
          r.last_depended r.first_running)

  moved :
      (ds : List ℕ) (u : ℕ) (us cs rs bs : List ℕ) (y : ℕ) (ys : List ℕ)
      → cs ++ rs ≡ y ∷ ys
      → Represents m l (view ds (u ∷ us ++ n ∷ cs) rs bs)
      → Holds (upgrade_list m l n) (view (ds ++ n ∷ []) (u ∷ us ++ cs) rs bs)
  unfolding upgrade_list insert_dependence
  moved [] u us cs rs bs y ys e r =
      let p : (u ∷ us ++ n ∷ cs) ++ rs ≡ u ∷ us ++ n ∷ y ∷ ys =
        append_assoc (u ∷ us) (n ∷ cs) rs ∙ ap (λ c. u ∷ us ++ n ∷ c) e in
      let p' : (u ∷ us ++ cs) ++ rs ≡ u ∷ us ++ y ∷ ys =
        append_assoc (u ∷ us) cs rs ∙ ap (λ c. u ∷ us ++ c) e in
      let (a, b) = not_first n r u us (y ∷ ys) p in
      let (onward, other) = at_next n r u us y ys p in
      let (t, out) = taken [] (u ∷ us) cs rs bs u us (y ∷ ys) p p' r in
      Holds-by {s' = insert_dependence (unlink m n) l n insert_end u}
        (ground (arith, a, b, r.last_depended, onward, other))
        (dependence_lem (unlink m n) l n insert_end [] (u ∷ us ++ cs) rs bs u (us ++ y ∷ ys) t out
          p')
  moved (d ∷ ds) u us cs rs bs y ys e r =
      let p : d ∷ ds ++ ((u ∷ us ++ n ∷ cs) ++ rs) ≡ d ∷ (ds ++ u ∷ us) ++ n ∷ y ∷ ys =
        simp append_assoc (ap (λ c. d ∷ ds ++ (u ∷ us ++ n ∷ c)) e) in
      let p' : d ∷ ds ++ ((u ∷ us ++ cs) ++ rs) ≡ d ∷ (ds ++ u ∷ us) ++ y ∷ ys =
        simp append_assoc (ap (λ c. d ∷ ds ++ (u ∷ us ++ c)) e) in
      let (a, b) = not_first n r d (ds ++ u ∷ us) (y ∷ ys) p in
      let (onward, other) = at_next n r d (ds ++ u ∷ us) y ys p in
      let (t, out) = taken (d ∷ ds) (u ∷ us) cs rs bs d (ds ++ u ∷ us) (y ∷ ys) p p' r in
      Holds-by {s' = insert_dependence (unlink m n) l n insert_end d}
        (ground (
          arith,
          a,
          b,
          r.last_depended,
          onward,
          other,
          at_prev n r d (ds ++ u ∷ us) (y ∷ ys) p,
          behind d ds u us (y ∷ ys) n (held-Distinct r p),
        ))
        (dependence_lem (unlink m n) l n insert_end (d ∷ ds) (u ∷ us ++ cs) rs bs d
          (ds ++ (u ∷ us) ++ y ∷ ys) t out p')

  by_parts :
      (ds us cs rs bs : List ℕ)
      → Represents m l (view ds (us ++ n ∷ cs) rs bs)
      → Holds (upgrade_list m l n) (view (upgraded ds n us (cs ++ rs)) (us ++ cs) rs bs)
  by_parts [] [] cs rs bs r = alone cs rs bs r
  by_parts (d ∷ ds) [] cs rs bs r = next_to d ds cs rs bs r
  by_parts ds (u ∷ us) [] [] bs r = to_front ds u us bs r
  by_parts [] (u ∷ us) [] (y ∷ ys) bs r = moved [] u us [] (y ∷ ys) bs y ys refl r
  by_parts (d ∷ ds) (u ∷ us) [] (y ∷ ys) bs r = moved (d ∷ ds) u us [] (y ∷ ys) bs y ys refl r
  by_parts [] (u ∷ us) (c ∷ cs) rs bs r = moved [] u us (c ∷ cs) rs bs c (cs ++ rs) refl r
  by_parts (d ∷ ds) (u ∷ us) (c ∷ cs) rs bs r =
      moved (d ∷ ds) u us (c ∷ cs) rs bs c (cs ++ rs) refl r

-- `priority_list_upgrade_task` of a waiting task makes it one of those that the parent depends on: it
-- comes behind these, or in front of them when it is the last task of all with a waiting one before
-- it; all others stay in order.
pub upgrade_list-Represents :
    {m : Mem} {l : PriorityList} {v : View} (n : ℕ) (us cs : List ℕ)
    → v.waiting ≡ us ++ n ∷ cs
    → Represents m l v
    → let (m', l') = upgrade_list m l n in
      Represents m' l'
        (record v { depended = upgraded v.depended n us (cs ++ v.running); waiting = us ++ cs })
upgrade_list-Represents {m} {l} {v} n us cs e r =
    by_parts m l n v.depended us cs v.running v.blocked
      (subst (λ w. Represents m l (record v { waiting = w })) e r)
