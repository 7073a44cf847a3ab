-- ===== src/PriorityList/Remove/Cases.antt =====
-- `remove_ordered`, case by case: which pointers the node that goes is at.
use ulmt_open_mp_gcc.Base.{
  ℕ, ◌≡◌, ◌≢◌, List, [], ◌∷◌, ◌++◌, append_assoc, refl, sym, subst, ◌∙◌, ap, none, some, arith,
  Bool, false, NotIn, NotIn-right, NotIn-self, head?, last?, points_to, is_none,
}
use mathlib.Core.List.{tail}
use ulmt_open_mp_gcc.Ring.{Mem, unlink}
use ulmt_open_mp_gcc.Ring.Seg.{Seg-split, Seg-prev}
use ulmt_open_mp_gcc.PriorityList.{State, PriorityList, remove_ordered}
use ulmt_open_mp_gcc.PriorityList.View.{View, Represents, view}
use ulmt_open_mp_gcc.PriorityList.Take.{
  Removed-Represents, take_alone, first_taken, later_taken, not_alone, held, held-Distinct,
  last-apart, last-append,
}

-- The links and the list that a removal leaves hold the view.
abbrev pub Left : Bool × State → View → Type 0
Left t v = Represents t.1.0 t.1.1 v

pub append-cons-ne : (xs ys : List ℕ) (z : ℕ) (zs : List ℕ) → xs ++ (ys ++ z ∷ zs) ≢ []
append-cons-ne [] [] z zs e = cc
append-cons-ne [] (y ∷ ys) z zs e = cc
append-cons-ne (x ∷ xs) ys z zs e = cc

pub ran_eq : (ds ws cs rs : List ℕ) → ds ++ ws ≡ cs → ds ++ (ws ++ rs) ≡ cs ++ rs
ran_eq ds ws cs rs e = sym (append_assoc ds ws rs) ∙ ap (λ c. c ++ rs) e

module _ (m : Mem) (l : PriorityList) (n : ℕ) where
  Left-by :
      {t : Bool × State} {v : View}
      → remove_ordered m l n ≡ t
      → Represents t.1.0 t.1.1 v
      → Left (remove_ordered m l n) v
  Left-by {v = v} e h = subst (λ t. Represents t.1.0 t.1.1 v) (sym e) h

  pub first_depended :
      (cs ws rs bs : List ℕ) (y : ℕ) (ys : List ℕ)
      → cs ++ (ws ++ rs) ≡ y ∷ ys
      → Represents m l (view (n ∷ cs) ws rs bs)
      → points_to l.first_running_task n ≡ false
      → NotIn n cs
      → Left (remove_ordered m l n) (view cs ws rs bs)
  unfolding remove_ordered
  first_depended [] ws rs bs y ys e r a b =
      Left-by
        {t = (
          false,
          (unlink m n, record l { tasks = some (m.next n); last_parent_depends_on = none }),
        )}
        (ground (
          arith,
          r.last_depended,
          r.tasks_ring.0,
          not_alone n r [] (y ∷ ys) (ap (λ c. n ∷ c) e) (λ e. cc),
        ))
        (Removed-Represents [] n (y ∷ ys) r (ap (λ c. n ∷ c) e) e
          (first_taken n r y ys (ap (λ c. n ∷ c) e)) refl refl refl r.first_running)
  first_depended (c ∷ cs) ws rs bs y ys e r a b =
      Left-by {t = (false, (unlink m n, record l { tasks = some (m.next n) }))}
        (ground (
          arith,
          r.last_depended,
          r.tasks_ring.0,
          last-apart n (c ∷ cs) b,
          not_alone n r [] (y ∷ ys) (ap (λ c. n ∷ c) e) (λ e. cc),
        ))
        (Removed-Represents [] n (y ∷ ys) r (ap (λ c. n ∷ c) e) e
          (first_taken n r y ys (ap (λ c. n ∷ c) e)) refl refl r.last_depended r.first_running)

  pub first_waiting :
      (cs rs bs : List ℕ) (y : ℕ) (ys : List ℕ)
      → cs ++ rs ≡ y ∷ ys
      → Represents m l (view [] (n ∷ cs) rs bs)
      → points_to l.first_running_task n ≡ false
      → Left (remove_ordered m l n) (view [] cs rs bs)
  unfolding remove_ordered
  first_waiting cs rs bs y ys e r a =
      Left-by {t = (false, (unlink m n, record l { tasks = some (m.next n) }))}
        (ground (
          arith,
          r.last_depended,
          r.tasks_ring.0,
          not_alone n r [] (y ∷ ys) (ap (λ c. n ∷ c) e) (λ e. cc),
        ))
        (Removed-Represents [] n (y ∷ ys) r (ap (λ c. n ∷ c) e) e
          (first_taken n r y ys (ap (λ c. n ∷ c) e)) refl refl r.last_depended r.first_running)

  pub first_ran :
      (y : ℕ) (ys bs : List ℕ)
      → Represents m l (view [] [] (n ∷ y ∷ ys) bs)
      → Left (remove_ordered m l n) (view [] [] (y ∷ ys) bs)
  unfolding remove_ordered
  first_ran y ys bs r =
      Left-by
        {t = (
          false,
          (unlink m n, record l { tasks = some (m.next n); first_running_task = some (m.next n) }),
        )}
        (ground (arith, r.first_running, r.tasks_ring.0, not_alone n r [] (y ∷ ys) refl (λ e. cc)))
        (Removed-Represents [] n (y ∷ ys) r refl refl (first_taken n r y ys refl) refl refl
          r.last_depended (ap some r.tasks_ring.1.0))

  -- The last task of all.
  pub alone :
      (ds ws rs bs : List ℕ)
      → ds ++ (ws ++ rs) ≡ n ∷ []
      → Represents m l (view ds ws rs bs)
      → Left (remove_ordered m l n) (view [] [] [] bs)
  unfolding remove_ordered
  alone ds ws [] bs e r =
      Left-by
        {t = (
          is_none l.blocked_tasks,
          (m, record l { tasks = none; last_parent_depends_on = none }),
        )}
        (ground (arith, (held r e).0, (held r e).1.0, r.first_running))
        (Removed-Represents [] n [] r e refl (take_alone m n) refl refl refl r.first_running)
  alone [] ws (x ∷ xs) bs e r =
      Left-by
        {t = (is_none l.blocked_tasks, (m, record l { tasks = none; first_running_task = none }))}
        (ground (arith, (held r e).0, (held r e).1.0, r.first_running))
        (Removed-Represents [] n [] r e refl (take_alone m n) refl refl r.last_depended refl)
  alone (d ∷ ds) ws (x ∷ xs) bs e r = absurd (append-cons-ne ds ws x xs (ap tail e))

  -- A later task that no pointer of the list points at.
  pub later :
      (ds ws rs ds' ws' rs' bs : List ℕ) (x : ℕ) (xs ys : List ℕ)
      → ds ++ (ws ++ rs) ≡ x ∷ xs ++ n ∷ ys
      → ds' ++ (ws' ++ rs') ≡ x ∷ xs ++ ys
      → Represents m l (view ds ws rs bs)
      → points_to l.first_running_task n ≡ false
      → points_to l.last_parent_depends_on n ≡ false
      → last? ds ≡ last? ds'
      → head? rs ≡ head? rs'
      → Left (remove_ordered m l n) (view ds' ws' rs' bs)
  unfolding remove_ordered
  later ds ws rs ds' ws' rs' bs x xs ys e e' r a b p q =
      Left-by {t = (false, (unlink m n, l))}
        (ground (
          arith,
          (held r e).0,
          NotIn-self x n xs ys (held-Distinct r e).0,
          not_alone n r (x ∷ xs) ys e (λ e. cc),
        ))
        (Removed-Represents (x ∷ xs) n ys r e e' (later_taken n r x xs ys e) refl refl
          (r.last_depended ∙ p) (r.first_running ∙ q))

  -- A later task that ends the depended ones.
  pub later_last :
      (u : ℕ) (us ws rs bs : List ℕ)
      → Represents m l (view (u ∷ us ++ n ∷ []) ws rs bs)
      → points_to l.first_running_task n ≡ false
      → u ≢ n
      → Left (remove_ordered m l n) (view (u ∷ us) ws rs bs)
  unfolding remove_ordered
  later_last u us ws rs bs r a ne =
      let e : (u ∷ us ++ n ∷ []) ++ (ws ++ rs) ≡ u ∷ us ++ n ∷ (ws ++ rs) =
        append_assoc (u ∷ us) (n ∷ []) (ws ++ rs) in
      let ring = (Seg-split m u us n (ws ++ rs) u (held r e).1).0 in
      Left-by {t = (false, (unlink m n, record l { last_parent_depends_on = some (m.prev n) }))}
        (ground (
          arith,
          (held r e).0,
          last-append (u ∷ us) n [],
          r.last_depended,
          not_alone n r (u ∷ us) (ws ++ rs) e (λ e. cc),
        ))
        (Removed-Represents (u ∷ us) n (ws ++ rs) r e refl (later_taken n r u us (ws ++ rs) e) refl
          refl (ap some (Seg-prev m u us n ring)) r.first_running)

  -- A later task that is the first running one.
  pub later_ran :
      (ds ws cs bs : List ℕ) (x : ℕ) (xs : List ℕ)
      → ds ++ ws ≡ x ∷ xs
      → Represents m l (view ds ws (n ∷ cs) bs)
      → Left (remove_ordered m l n) (view ds ws cs bs)
  unfolding remove_ordered
  later_ran ds ws [] bs x xs e r =
      let e' = ran_eq ds ws (x ∷ xs) (n ∷ []) e in
      let back = (Seg-split m x xs n [] x (held r e').1).1.0 in
      Left-by {t = (false, (unlink m n, record l { first_running_task = none }))}
        (ground (
          arith,
          (held r e').0,
          back,
          r.first_running,
          NotIn-self x n xs [] (held-Distinct r e').0,
          not_alone n r (x ∷ xs) [] e' (λ e. cc),
        ))
        (Removed-Represents (x ∷ xs) n [] r e' (ran_eq ds ws (x ∷ xs) [] e)
          (later_taken n r x xs [] e') refl refl r.last_depended refl)
  later_ran ds ws (c ∷ cs) bs x xs e r =
      let e' = ran_eq ds ws (x ∷ xs) (n ∷ c ∷ cs) e in
      let onward = (Seg-split m x xs n (c ∷ cs) x (held r e').1).1.0 in
      let apart : x ≢ c = (NotIn-right x xs (n ∷ c ∷ cs) (held-Distinct r e').0).1.0 in
      Left-by {t = (false, (unlink m n, record l { first_running_task = some (m.next n) }))}
        (ground (
          arith,
          (held r e').0,
          onward,
          apart,
          r.first_running,
          NotIn-self x n xs (c ∷ cs) (held-Distinct r e').0,
          not_alone n r (x ∷ xs) (c ∷ cs) e' (λ e. cc),
        ))
        (Removed-Represents (x ∷ xs) n (c ∷ cs) r e' (ran_eq ds ws (x ∷ xs) (c ∷ cs) e)
          (later_taken n r x xs (c ∷ cs) e') refl refl r.last_depended (ap some onward))
