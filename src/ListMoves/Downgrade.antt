-- ===== src/ListMoves/Downgrade.antt =====
-- `priority_list_downgrade_task`: a waiting task becomes a running one.
use ulmt_open_mp_gcc.Base.{
  ℕ, ◌≡◌, refl, sym, ap, subst, ◌∙◌, List, [], ◌∷◌, ◌++◌, append_assoc, append-nil, Option, none,
  some, head?, last?, last_of, arith, Bool, true, false, NotIn, NotIn-left, NotIn-right, Distinct,
  Distinct-right, Distinct-out, points_to, ==_refl, if◌then◌else◌,
}
use ulmt_open_mp_gcc.Ring.{Mem, unlink}
use ulmt_open_mp_gcc.Ring.Seg.{Heads}
use ulmt_open_mp_gcc.PriorityList.{PriorityList, insert_running}
use ulmt_open_mp_gcc.PriorityList.View.{View, contents, Represents, view, Holds, Holds-by}
use ulmt_open_mp_gcc.PriorityList.Take.{
  Removed-Represents, later_taken, held, held-Distinct, last-append, last-apart, head-apart,
}
use ulmt_open_mp_gcc.PriorityList.Running.{insert_running-Represents}
use ulmt_open_mp_gcc.ListMoves.{downgrade_list}
use ulmt_open_mp_gcc.ListMoves.Turn.{turned-Represents, not_first, at_prev, at_last, at_next}

-- The running tasks, with `n` that had the waiting tasks `us` before it and `cs` behind it: it comes to
-- their end, but to their front when it stood right before them, behind another task.
abbrev pub downgraded : List ℕ → List ℕ → ℕ → List ℕ → List ℕ
downgraded (x ∷ xs) [] n (r ∷ rs) = n ∷ r ∷ rs
downgraded xs cs n rs = rs ++ n ∷ []

module _ (m : Mem) (l : PriorityList) (n : ℕ) where
  -- The last of the depended tasks when `n` goes, which had `before` in front of it.
  abbrev new_last : Option ℕ → Option ℕ
  new_last back = if points_to l.last_parent_depends_on n then back else l.last_parent_depends_on

  first_state :
      (ys rs : List ℕ)
      → Heads m l.tasks (n ∷ ys)
      → Distinct (n ∷ ys)
      → l.first_running_task ≡ head? rs
      → downgrade_list m l n ≡ (
        m,
        record l {
          tasks = head? (ys ++ n ∷ []);
          last_parent_depends_on = new_last none;
          first_running_task = head? (rs ++ n ∷ []);
        },
      )
  unfolding downgrade_list
  first_state [] [] h d e = ground (arith, h.0, h.1.0, ==_refl n)
  first_state [] (r ∷ rs) h d e = ground (arith, h.0, h.1.0, ==_refl n)
  first_state (y ∷ ys) [] h d e = ground (arith, h.0, h.1.0, ==_refl n, d.0.0)
  first_state (y ∷ ys) (r ∷ rs) h d e = ground (arith, h.0, h.1.0, ==_refl n, d.0.0)

  module _ (ds ws ds' ws' zs rs bs : List ℕ) (r : Represents m l (view ds ws rs bs)) where
    first_lem :
        ds ++ (ws ++ rs) ≡ n ∷ (zs ++ rs)
        → ds' ++ ws' ≡ zs
        → new_last none ≡ last? ds'
        → Holds (downgrade_list m l n) (view ds' ws' (rs ++ n ∷ []) bs)
    first_lem e e' k =
        Holds-by (first_state (zs ++ rs) rs (held r e) (held-Distinct r e) r.first_running) (
          turned-Represents (n ∷ []) (zs ++ rs) r e
            (whole (rs ++ n ∷ []) ∙ sym (append_assoc zs rs (n ∷ []))) refl refl refl k refl)
      where
        whole : (qs : List ℕ) → ds' ++ (ws' ++ qs) ≡ zs ++ qs
        whole qs = sym (append_assoc ds' ws' qs) ∙ ap (λ c. c ++ qs) e'

    module _ (x : ℕ) (xs : List ℕ) (e : ds ++ (ws ++ rs) ≡ x ∷ xs ++ n ∷ (zs ++ rs))
        (e' : ds' ++ ws' ≡ x ∷ xs ++ zs) (k : new_last (some (m.prev n)) ≡ last? ds') where
      whole : (qs : List ℕ) → ds' ++ (ws' ++ qs) ≡ x ∷ xs ++ (zs ++ qs)
      whole qs = sym (append_assoc ds' ws' qs) ∙ ap (λ c. c ++ qs) e' ∙ append_assoc (x ∷ xs) zs qs

      -- In its place already, it becomes the first of the running tasks.
      in_place :
          zs ≡ []
          → Represents m
              (record l {
                last_parent_depends_on = new_last (some (m.prev n));
                first_running_task = some n;
              })
              (view ds' ws' (n ∷ rs) bs)
      in_place z =
          let same : ds ++ (ws ++ rs) ≡ ds' ++ (ws' ++ n ∷ rs) =
            e
            ∙ ap (λ c. x ∷ xs ++ n ∷ (c ++ rs)) z
            ∙ sym (whole (n ∷ rs) ∙ ap (λ c. x ∷ xs ++ (c ++ n ∷ rs)) z) in
          record {
            tasks_ring = subst (Heads m l.tasks) same r.tasks_ring;
            blocked_ring = r.blocked_ring;
            last_depended = k;
            first_running = refl;
            distinct = subst (λ c. Distinct (c ++ bs)) same r.distinct;
          }

      -- Behind all others.
      moved :
          (z : ℕ) (zs' : List ℕ)
          → zs ≡ z ∷ zs'
          → Holds
              (insert_running
                (unlink m n)
                (record l { last_parent_depends_on = new_last (some (m.prev n)) })
                n)
              (view ds' ws' (rs ++ n ∷ []) bs)
      moved z zs' q =
          insert_running-Represents n
            (Removed-Represents (x ∷ xs) n (zs ++ rs) r e (whole rs)
              (later_taken n r x xs (zs ++ rs) e) refl refl k r.first_running)
            (subst (λ c. NotIn n (c ++ bs)) (sym (whole rs))
              (subst (NotIn n) (sym (append_assoc (x ∷ xs) (zs ++ rs) bs))
                (Distinct-out n (x ∷ xs) ((zs ++ rs) ++ bs) (
                  subst Distinct (append_assoc (x ∷ xs) (n ∷ (zs ++ rs)) bs)
                    (subst (λ c. Distinct (c ++ bs)) e r.distinct))).1))

  later_lem :
      (ds ws ds' ws' zs rs bs : List ℕ) (x : ℕ) (xs : List ℕ)
      → Represents m l (view ds ws rs bs)
      → ds ++ (ws ++ rs) ≡ x ∷ xs ++ n ∷ (zs ++ rs)
      → ds' ++ ws' ≡ x ∷ xs ++ zs
      → new_last (some (m.prev n)) ≡ last? ds'
      → Holds (downgrade_list m l n) (view ds' ws' (downgraded (x ∷ xs) zs n rs) bs)
  unfolding downgrade_list insert_running
  later_lem ds ws ds' ws' [] [] bs x xs r e e' k =
      let (a, b) = not_first n r x xs [] e in
      Holds-by
        {s' = (
          m,
          record l {
            last_parent_depends_on = new_last (some (m.prev n));
            first_running_task = some n;
          },
        )}
        (ground (arith, a, b, at_last n r x xs e))
        (in_place ds ws ds' ws' [] [] bs r x xs e e' k refl)
  later_lem ds ws ds' ws' [] (q ∷ qs) bs x xs r e e' k =
      let (a, b) = not_first n r x xs (q ∷ qs) e in
      let (onward, other) = at_next n r x xs q qs e in
      Holds-by
        {s' = (
          m,
          record l {
            last_parent_depends_on = new_last (some (m.prev n));
            first_running_task = some n;
          },
        )}
        (ground (arith, a, b, onward, other, r.first_running))
        (in_place ds ws ds' ws' [] (q ∷ qs) bs r x xs e e' k refl)
  later_lem ds ws ds' ws' (z ∷ zs) rs bs x xs r e e' k =
      let (a, b) = not_first n r x xs (z ∷ zs ++ rs) e in
      let (onward, other) = at_next n r x xs z (zs ++ rs) e in
      let far : points_to (head? rs) z ≡ false = head-apart z rs (
        NotIn-right z zs rs (Distinct-right (x ∷ xs) (n ∷ z ∷ zs ++ rs) (held-Distinct r e)).1.0) in
      Holds-by
        {s' = insert_running (unlink m n)
          (record l { last_parent_depends_on = new_last (some (m.prev n)) }) n}
        (ground (arith, a, b, onward, other, r.first_running, far))
        (moved ds ws ds' ws' (z ∷ zs) rs bs r x xs e e' k z zs refl)

  out_of :
      {v : View} (xs ys : List ℕ)
      → Represents m l v
      → contents v ≡ xs ++ n ∷ ys
      → NotIn n (xs ++ ys)
  out_of xs ys r e = (Distinct-out n xs ys (held-Distinct r e)).1

  waiting_lem :
      (ds us cs rs bs : List ℕ)
      → Represents m l (view ds (us ++ n ∷ cs) rs bs)
      → Holds (downgrade_list m l n) (view ds (us ++ cs) (downgraded (ds ++ us) cs n rs) bs)
  waiting_lem [] [] cs rs bs r =
      first_lem [] (n ∷ cs) [] cs cs rs bs r refl refl (ground (arith, r.last_depended))
  waiting_lem [] (u ∷ us) cs rs bs r =
      later_lem [] (u ∷ us ++ n ∷ cs) [] (u ∷ us ++ cs) cs rs bs u us r
        (append_assoc (u ∷ us) (n ∷ cs) rs) refl (ground (arith, r.last_depended))
  waiting_lem (d ∷ ds) us cs rs bs r =
      let e : d ∷ ds ++ ((us ++ n ∷ cs) ++ rs) ≡ d ∷ (ds ++ us) ++ n ∷ (cs ++ rs) =
        simp append_assoc in
      let h : NotIn n (d ∷ ds) =
        NotIn-left n (d ∷ ds) us
          (NotIn-left n (d ∷ ds ++ us) (cs ++ rs) (out_of (d ∷ ds ++ us) (cs ++ rs) r e)) in
      later_lem (d ∷ ds) (us ++ n ∷ cs) (d ∷ ds) (us ++ cs) cs rs bs d (ds ++ us) r e
        (sym (append_assoc (d ∷ ds) us cs))
        (ground (arith, r.last_depended, last-apart n (d ∷ ds) h))

  last_first :
      (cs : List ℕ)
      → NotIn n cs
      → l.last_parent_depends_on ≡ last? (n ∷ cs)
      → new_last none ≡ last? cs
  last_first [] h e = ground (arith, e, ==_refl n)
  last_first (c ∷ cs) h e = ground (arith, e, last-apart n (c ∷ cs) h)

  last_later :
      (u : ℕ) (us cs : List ℕ)
      → NotIn n cs
      → l.last_parent_depends_on ≡ last? (u ∷ us ++ n ∷ cs)
      → m.prev n ≡ last_of u us
      → new_last (some (m.prev n)) ≡ last? (u ∷ us ++ cs)
  last_later u us [] h e p =
      subst (λ c. new_last (some (m.prev n)) ≡ last? c) (sym (append-nil (u ∷ us)))
        (ground (arith, e, last-append (u ∷ us) n [], ==_refl n, p))
  last_later u us (c ∷ cs) h e p = ground (
    arith,
    e,
    last-append (u ∷ us) n (c ∷ cs),
    last-apart n (c ∷ cs) h,
    last-append (u ∷ us) c cs,
  )

  depended_lem :
      (us cs ws rs bs : List ℕ)
      → Represents m l (view (us ++ n ∷ cs) ws rs bs)
      → Holds (downgrade_list m l n) (view (us ++ cs) ws (downgraded us (cs ++ ws) n rs) bs)
  depended_lem [] cs ws rs bs r =
      let e : n ∷ cs ++ (ws ++ rs) ≡ n ∷ ((cs ++ ws) ++ rs) = simp append_assoc in
      first_lem (n ∷ cs) ws cs ws (cs ++ ws) rs bs r e refl (
        last_first cs (NotIn-left n cs (ws ++ rs) (out_of [] (cs ++ (ws ++ rs)) r refl))
          r.last_depended)
  depended_lem (u ∷ us) cs ws rs bs r =
      let e : (u ∷ us ++ n ∷ cs) ++ (ws ++ rs) ≡ u ∷ us ++ n ∷ ((cs ++ ws) ++ rs) =
        simp append_assoc in
      later_lem (u ∷ us ++ n ∷ cs) ws (u ∷ us ++ cs) ws (cs ++ ws) rs bs u us r e
        (append_assoc (u ∷ us) cs ws)
        (last_later u us cs
          (NotIn-left n cs ws (
            NotIn-left n (cs ++ ws) rs
              (NotIn-right n (u ∷ us) ((cs ++ ws) ++ rs) (out_of (u ∷ us) ((cs ++ ws) ++ rs) r e))))
          r.last_depended (at_prev n r u us ((cs ++ ws) ++ rs) e))

-- The kind of task that goes, its place among these, and what is left.
abbrev pub StoodAt : View → Bool → List ℕ → ℕ → List ℕ → Type 0
StoodAt v true us n cs = v.depended ≡ us ++ n ∷ cs
StoodAt v false us n cs = v.waiting ≡ us ++ n ∷ cs

abbrev pub downgrade_view : View → Bool → List ℕ → ℕ → List ℕ → View
downgrade_view v true us n cs = record v {
  depended = us ++ cs;
  running = downgraded us (cs ++ v.waiting) n v.running;
}
downgrade_view v false us n cs = record v {
  waiting = us ++ cs;
  running = downgraded (v.depended ++ us) cs n v.running;
}

-- `priority_list_downgrade_task` of a waiting task, one that the parent depends on or another, makes it
-- a running one: it comes behind the running tasks, or in front of them when it stood right before
-- them and was not the first task of all; all others stay in order.
pub downgrade_list-Represents :
    {m : Mem} {l : PriorityList} {v : View} (n : ℕ) (depends : Bool) (us cs : List ℕ)
    → StoodAt v depends us n cs
    → Represents m l v
    → let (m', l') = downgrade_list m l n in Represents m' l' (downgrade_view v depends us n cs)
downgrade_list-Represents {m} {l} {v} n true us cs e r =
    depended_lem m l n us cs v.waiting v.running v.blocked
      (subst (λ d. Represents m l (record v { depended = d })) e r)
downgrade_list-Represents {m} {l} {v} n false us cs e r =
    waiting_lem m l n v.depended us cs v.running v.blocked
      (subst (λ w. Represents m l (record v { waiting = w })) e r)
