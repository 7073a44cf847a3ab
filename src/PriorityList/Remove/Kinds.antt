-- ===== src/PriorityList/Remove/Kinds.antt =====
-- `remove_ordered` by the kind of task that goes.
use ulmt_open_mp_gcc.Base.{
  ℕ, ◌≡◌, ◌≢◌, List, [], ◌∷◌, ◌++◌, append-nil, append_assoc, refl, sym, subst, ◌∙◌, ap, false,
  NotIn, NotIn-left, NotIn-right, Distinct-out, List-cases, inl, inr, points_to,
}
use ulmt_open_mp_gcc.Ring.{Mem}
use ulmt_open_mp_gcc.PriorityList.{PriorityList, remove_ordered}
use ulmt_open_mp_gcc.PriorityList.View.{View, contents, Represents, view}
use ulmt_open_mp_gcc.PriorityList.Take.{held-Distinct, head-apart, last-apart, last-append}
use ulmt_open_mp_gcc.PriorityList.Remove.Cases.{
  Left, ran_eq, append-cons-ne, first_depended, first_waiting, first_ran, alone, later, later_last,
  later_ran,
}

nil_view : (ds ws rs bs : List ℕ) → ds ++ (ws ++ rs) ≡ [] → view [] [] [] bs ≡ view ds ws rs bs
nil_view [] [] [] bs e = refl
nil_view (d ∷ ds) ws rs bs e = cc
nil_view [] (w ∷ ws) rs bs e = cc
nil_view [] [] (x ∷ rs) bs e = cc

module _ (m : Mem) (l : PriorityList) (n : ℕ) where
  -- No pointer of the list but `tasks` points at a node that is not of its kind.
  module _ {v : View} (r : Represents m l v) where
    pub others : (xs ys : List ℕ) → contents v ≡ xs ++ n ∷ ys → NotIn n (xs ++ ys)
    others xs ys e = (Distinct-out n xs ys (held-Distinct r e)).1

    no_running : NotIn n v.running → points_to l.first_running_task n ≡ false
    no_running h = ap (λ p. points_to p n) r.first_running ∙ head-apart n v.running h

    no_depended : NotIn n v.depended → points_to l.last_parent_depends_on n ≡ false
    no_depended h = ap (λ p. points_to p n) r.last_depended ∙ last-apart n v.depended h

  -- The last task of all leaves an empty view.
  alone_view :
      (ds ws rs ds' ws' rs' bs : List ℕ)
      → ds ++ (ws ++ rs) ≡ n ∷ []
      → ds' ++ (ws' ++ rs') ≡ []
      → Represents m l (view ds ws rs bs)
      → Left (remove_ordered m l n) (view ds' ws' rs' bs)
  alone_view ds ws rs ds' ws' rs' bs e e' r =
      subst (Left (remove_ordered m l n)) (nil_view ds' ws' rs' bs e') (alone m l n ds ws rs bs e r)

  pub depended_lem :
      (us cs ws rs bs : List ℕ)
      → Represents m l (view (us ++ n ∷ cs) ws rs bs)
      → Left (remove_ordered m l n) (view (us ++ cs) ws rs bs)
  depended_lem [] cs ws rs bs r =
      let out : NotIn n (cs ++ (ws ++ rs)) = others r [] (cs ++ (ws ++ rs)) refl in
      elim (List-cases (cs ++ (ws ++ rs))) [
        | inl e ↦ alone_view (n ∷ cs) ws rs cs ws rs bs (ap (λ c. n ∷ c) e) e r
        | inr (y, ys, e) ↦
            first_depended m l n cs ws rs bs y ys e r
              (no_running r (NotIn-right n ws rs (NotIn-right n cs (ws ++ rs) out)))
              (NotIn-left n cs (ws ++ rs) out)
      ]
  depended_lem (u ∷ us) cs ws rs bs r =
      let e : (u ∷ us ++ n ∷ cs) ++ (ws ++ rs) ≡ u ∷ us ++ n ∷ (cs ++ (ws ++ rs)) =
        append_assoc (u ∷ us) (n ∷ cs) (ws ++ rs) in
      let out : NotIn n (u ∷ us ++ (cs ++ (ws ++ rs))) = others r (u ∷ us) (cs ++ (ws ++ rs)) e in
      let rest : NotIn n (cs ++ (ws ++ rs)) = NotIn-right n (u ∷ us) (cs ++ (ws ++ rs)) out in
      split cs e out rest r (no_running r (NotIn-right n ws rs (NotIn-right n cs (ws ++ rs) rest)))
    where
      split :
          (cs : List ℕ)
          → (u ∷ us ++ n ∷ cs) ++ (ws ++ rs) ≡ u ∷ us ++ n ∷ (cs ++ (ws ++ rs))
          → NotIn n (u ∷ us ++ (cs ++ (ws ++ rs)))
          → NotIn n (cs ++ (ws ++ rs))
          → Represents m l (view (u ∷ us ++ n ∷ cs) ws rs bs)
          → points_to l.first_running_task n ≡ false
          → Left (remove_ordered m l n) (view (u ∷ us ++ cs) ws rs bs)
      split [] e out rest r a =
          subst (λ c. Left (remove_ordered m l n) (view c ws rs bs)) (sym (append-nil (u ∷ us)))
            (later_last m l n u us ws rs bs r a (λ p. out.0 (sym p)))
      split (c ∷ cs) e out rest r a =
          later m l n (u ∷ us ++ n ∷ c ∷ cs) ws rs (u ∷ us ++ c ∷ cs) ws rs bs u us
            (c ∷ cs ++ (ws ++ rs)) e (append_assoc (u ∷ us) (c ∷ cs) (ws ++ rs)) r a
            (ap (λ p. points_to p n) (r.last_depended ∙ last-append (u ∷ us) n (c ∷ cs))
              ∙ last-apart n (c ∷ cs) (NotIn-left n (c ∷ cs) (ws ++ rs) rest))
            (last-append (u ∷ us) n (c ∷ cs) ∙ sym (last-append (u ∷ us) c cs)) refl

  -- A waiting task behind others.
  waiting_later :
      (ds us cs rs bs : List ℕ) (x : ℕ) (xs : List ℕ)
      → ds ++ us ≡ x ∷ xs
      → Represents m l (view ds (us ++ n ∷ cs) rs bs)
      → Left (remove_ordered m l n) (view ds (us ++ cs) rs bs)
  waiting_later ds us cs rs bs x xs e r =
      later m l n ds (us ++ n ∷ cs) rs ds (us ++ cs) rs bs x xs (cs ++ rs) e'
        (ap (λ c. ds ++ c) (append_assoc us cs rs) ∙ ran_eq ds us (x ∷ xs) (cs ++ rs) e) r
        (no_running r (NotIn-right n cs rs (NotIn-right n (x ∷ xs) (cs ++ rs) out)))
        (no_depended r
          (NotIn-left n ds us (subst (NotIn n) (sym e) (NotIn-left n (x ∷ xs) (cs ++ rs) out))))
        refl refl
    where
      e' : ds ++ ((us ++ n ∷ cs) ++ rs) ≡ x ∷ xs ++ n ∷ (cs ++ rs)
      e' =
          ap (λ c. ds ++ c) (append_assoc us (n ∷ cs) rs) ∙ ran_eq ds us (x ∷ xs) (n ∷ (cs ++ rs)) e

      out : NotIn n (x ∷ xs ++ (cs ++ rs))
      out = others r (x ∷ xs) (cs ++ rs) e'

  pub waiting_lem :
      (ds us cs rs bs : List ℕ)
      → Represents m l (view ds (us ++ n ∷ cs) rs bs)
      → Left (remove_ordered m l n) (view ds (us ++ cs) rs bs)
  waiting_lem [] [] cs rs bs r = elim (List-cases (cs ++ rs)) [
    | inl e ↦ alone_view [] (n ∷ cs) rs [] cs rs bs (ap (λ c. n ∷ c) e) e r
    | inr (y, ys, e) ↦
        first_waiting m l n cs rs bs y ys e r
          (no_running r (NotIn-right n cs rs (others r [] (cs ++ rs) refl)))
  ]
  waiting_lem [] (u ∷ us) cs rs bs r = waiting_later [] (u ∷ us) cs rs bs u us refl r
  waiting_lem (d ∷ ds) us cs rs bs r = waiting_later (d ∷ ds) us cs rs bs d (ds ++ us) refl r

  -- A running task behind another.
  running_later :
      (ds ws : List ℕ) (u : ℕ) (us cs bs : List ℕ) (x : ℕ) (xs : List ℕ)
      → ds ++ (ws ++ u ∷ us) ≡ x ∷ xs
      → Represents m l (view ds ws (u ∷ us ++ n ∷ cs) bs)
      → Left (remove_ordered m l n) (view ds ws (u ∷ us ++ cs) bs)
  running_later ds ws u us cs bs x xs e r =
      later m l n ds ws (u ∷ us ++ n ∷ cs) ds ws (u ∷ us ++ cs) bs x xs cs (eq (n ∷ cs)) (eq cs) r
        (ap (λ p. points_to p n) r.first_running ∙ head-apart n (u ∷ []) (parts.0, tt))
        (no_depended r parts.1) refl refl
    where
      eq : (zs : List ℕ) → ds ++ (ws ++ (u ∷ us ++ zs)) ≡ x ∷ xs ++ zs
      eq zs =
          ap (λ c. ds ++ c) (sym (append_assoc ws (u ∷ us) zs))
          ∙ ran_eq ds (ws ++ u ∷ us) (x ∷ xs) zs e

      before : NotIn n (ds ++ (ws ++ u ∷ us))
      before =
          subst (NotIn n) (sym e) (NotIn-left n (x ∷ xs) cs (others r (x ∷ xs) cs (eq (n ∷ cs))))

      parts : (n ≢ u) × NotIn n ds
      parts = (
        (NotIn-right n ws (u ∷ us) (NotIn-right n ds (ws ++ u ∷ us) before)).0,
        NotIn-left n ds (ws ++ u ∷ us) before,
      )

  pub running_lem :
      (ds ws us cs bs : List ℕ)
      → Represents m l (view ds ws (us ++ n ∷ cs) bs)
      → Left (remove_ordered m l n) (view ds ws (us ++ cs) bs)
  running_lem ds ws (u ∷ us) cs bs r = elim (List-cases (ds ++ (ws ++ u ∷ us))) [
    | inl e ↦ absurd (append-cons-ne ds ws u us e)
    | inr (x, xs, e) ↦ running_later ds ws u us cs bs x xs e r
  ]
  running_lem [] [] [] [] bs r = alone m l n [] [] (n ∷ []) bs refl r
  running_lem [] [] [] (c ∷ cs) bs r = first_ran m l n c cs bs r
  running_lem [] (w ∷ ws) [] cs bs r = later_ran m l n [] (w ∷ ws) cs bs w ws refl r
  running_lem (d ∷ ds) ws [] cs bs r = later_ran m l n (d ∷ ds) ws cs bs d (ds ++ ws) refl r
