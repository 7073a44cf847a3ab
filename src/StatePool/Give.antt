-- ===== src/StatePool/Give.antt =====
-- `gomp_free_task_state`: the state comes back to the thread's list, the first part of which may move to
-- the global one.
use ulmt_open_mp_gcc.Base.{
  ℕ, suc, ◌+◌, ◌-◌, ◌≡◌, refl, sym, ap, subst, ◌∙◌, false, ◌||◌, Option, none, some, leb, ◌==◌,
  update, arith, List, [], ◌∷◌, ◌++◌, append_assoc, length, take, drop, length-append,
  take-append-drop, NotIn, NotIn-left, NotIn-right, Distinct, Distinct-out, Distinct-left,
  Distinct-right, Distinct-append, Distinct-swap, Distinct-Disjoint, ==_refl, All-left, All-right,
  All-append, Bool-cases, Option-cases, inl, inr,
}
use ulmt_open_mp_gcc.StatePool.{
  State, Links, Group, StateList, add, walk, level, pick, picks, to_global, free_task_state,
}
use ulmt_open_mp_gcc.StatePool.Linked.{
  IsLinked, IsLinked-frame, IsLinked-behind, IsLinked-relink, Holds,
}
use ulmt_open_mp_gcc.StatePool.Walk.{walk-Walked}

-- The end and the length of a walk of `c` more states.
abbrev IsPick : (ℕ → Option ℕ) → ℕ → ℕ × ℕ → Type 0
IsPick next first p = (c : ℕ) × (p ≡ ((walk next c first).0, suc c - (walk next c first).1))

pick-IsPick :
    (next : ℕ → Option ℕ) (surplus first : ℕ) (picked : Option (ℕ × ℕ))
    → (surplus == 0) ≡ false
    → ((p : ℕ × ℕ) → picked ≡ some p → IsPick next first p)
    → IsPick next first (pick next surplus first picked)
unfolding pick
pick-IsPick next surplus first (some p) h f = f p refl
pick-IsPick next surplus first none h f =
    let one : suc (surplus - 1) ≡ surplus = ground (arith, h) in
    (
      surplus - 1,
      ap (λ z. ((walk next (surplus - 1) first).0, z - (walk next (surplus - 1) first).1))
          (sym one),
    )

module _ (next : ℕ → Option ℕ) (number size first : ℕ) where
  -- The pick of the first attempt stays.
  picks-IsPick :
      (reads : List (ℕ × ℕ)) (picked : Option (ℕ × ℕ)) (r : ℕ × ℕ × ℕ)
      → ((p : ℕ × ℕ) → picked ≡ some p → IsPick next first p)
      → picks next number size first picked reads ≡ some r
      → IsPick next first (r.0, r.1)
  unfolding picks
  picks-IsPick [] picked r f e = cc
  picks-IsPick (x ∷ reads) picked r f e = elim (Bool-cases (level (level x.0 number) number == 0)) [
    | inl z ↦ absurd (ground (arith, z, e))
    | inr z ↦
        let surplus = level (level x.0 number) number in
        let p = pick next surplus first picked in
        let now : IsPick next first p = pick-IsPick next surplus first picked z f in
        elim (Bool-cases
          (leb size (add (level x.0 number) surplus) || leb (level x.0 number) x.1)) [
            | inl y ↦ absurd (ground (arith, z, y, e))
            | inr y ↦
                later reads p (level x.0 number) r now
                  (λ k.
                    picks-IsPick reads (some p) r
                      (λ p' i. subst (IsPick next first) {x = p} {y = p'} (ground (arith, i)) now)
                      k)
                  (sym (ground (arith, z, y)) ∙ e)
          ]
  ]
    where
      later :
          (reads : List (ℕ × ℕ)) (p : ℕ × ℕ) (lev : ℕ) (r : ℕ × ℕ × ℕ)
          → IsPick next first p
          → (picks next number size first (some p) reads ≡ some r → IsPick next first (r.0, r.1))
          → (elim reads as (λ x. Option (ℕ × ℕ × ℕ)) [
            | [] ↦ some (p.0, p.1, lev)
            | _ ∷ _ ↦ picks next number size first (some p) reads
          ])
            ≡ some r
          → IsPick next first (r.0, r.1)
      later [] p lev r now f e =
          subst {A = ℕ × ℕ × ℕ} (λ q. IsPick next first (q.0, q.1)) {x = (p.0, p.1, lev)} {y = r}
            (ground (arith, e)) now
      later (y ∷ ys) p lev r now f e = f e

Distinct-move : (xs ys zs : List ℕ) → Distinct ((xs ++ ys) ++ zs) → Distinct (ys ++ (xs ++ zs))
Distinct-move xs ys zs d =
    let apart = Distinct-Disjoint (xs ++ ys) zs d in
    subst Distinct (append_assoc ys xs zs) (
      Distinct-append (ys ++ xs) zs (Distinct-swap xs ys (Distinct-left (xs ++ ys) zs d))
        (Distinct-right (xs ++ ys) zs d)
        (All-append _ ys xs (All-right _ xs ys apart) (All-left _ xs ys apart)))

-- What is kept where `k` of the thread's states move to the global list.
abbrev pub Moved : State → List ℕ → List ℕ → Type 0
Moved (m, pool, local) xs gs = (k : ℕ) × Holds m pool local (drop k xs) (take k xs ++ gs)

to_global-Moved :
    (m : Links) (pool : Group) (local : StateList) (first lev : ℕ) (p : ℕ × ℕ) (xs gs : List ℕ)
    → Holds m pool local (first ∷ xs) gs
    → IsPick m.next first p
    → Moved (to_global m pool local first (p.0, p.1, lev)) (first ∷ xs) gs
unfolding to_global
to_global-Moved m pool local first lev p xs gs v (c, e) =
    elim (Bool-cases (leb lev pool.global_list.list_size)) [
      | inl k ↦ rw k (0, v)
      | inr k ↦
          rw (k, e)
            (let w = walk-Walked m.next c first xs v.local_list.1 in
              let (last, count) = walk m.next c first in
              let vs = drop (suc c) (first ∷ xs) in
              let q = pool.global_list.list in
              let d : Distinct ((w.before ++ last ∷ vs) ++ gs) =
                subst (λ z. Distinct (z ++ gs)) (sym w.split) v.distinct in
              let out =
                (Distinct-out last w.before (vs ++ gs)
                  (subst Distinct (append_assoc w.before (last ∷ vs) gs) d)).1 in
              let outside = NotIn-right last w.before (vs ++ gs) out in
              let linked : IsLinked m.next local.list (w.before ++ last ∷ vs) =
                subst (IsLinked m.next local.list) (sym w.split) v.local_list in
              let behind : IsLinked m.next (m.next last) vs =
                IsLinked-behind m.next local.list w.before last vs linked in
              let count_before : length w.before + 1 ≡ length (take (suc c) (first ∷ xs)) =
                sym (length-append w.before (last ∷ [])) ∙ ap length w.taken in
              let whole : suc (length xs) ≡ length w.before + suc (length vs) =
                ap length (sym w.split) ∙ length-append w.before (last ∷ vs) in
              let joined : w.before ++ last ∷ gs ≡ take (suc c) (first ∷ xs) ++ gs =
                sym (append_assoc w.before (last ∷ []) gs) ∙ ap (λ z. z ++ gs) w.taken in
              (
                suc c,
                record {
                  local_list =
                      IsLinked-frame m.next last q (m.next last) vs (NotIn-left last vs gs outside)
                        behind;
                  local_size = omega (arith, v.local_size, w.counted, whole);
                  global_list = subst (IsLinked (update m.next last q) (some first)) joined (
                      IsLinked-relink m.next (some first) q w.before last vs gs
                        (NotIn-left last w.before (vs ++ gs) out)
                        (subst (λ z. IsLinked m.next z (w.before ++ last ∷ vs)) v.local_list.0
                          linked)
                        (IsLinked-frame m.next last q q gs (NotIn-right last vs gs outside)
                          v.global_list));
                  global_size = omega (
                    arith,
                    v.global_size,
                    w.counted,
                    count_before,
                    length-append (take (suc c) (first ∷ xs)) gs,
                  );
                  distinct = Distinct-move (take (suc c) (first ∷ xs)) vs gs (
                      subst (λ z. Distinct (z ++ gs)) (sym (take-append-drop (suc c) (first ∷ xs)))
                        v.distinct);
                },
              ))
    ]

-- `gomp_free_task_state` of a state that is in neither list puts it in front of the thread's list, and
-- moves a first part of this list to the front of the global one, or nothing. No state is lost or in
-- two places, and the sizes count the lists.
pub free_task_state-Moved :
    (m : Links) (pool : Group) (local : StateList) (reads : List (ℕ × ℕ)) (state : ℕ)
    (xs gs : List ℕ)
    → NotIn state (xs ++ gs)
    → Holds m pool local xs gs
    → Moved (free_task_state m pool local reads state) (state ∷ xs) gs
unfolding free_task_state
free_task_state-Moved m pool local reads state xs gs f v = elim (Option-cases picked) [
  | inl e ↦ rw (e, free_task_state) (0, put)
  | inr ((l, n, lev), e) ↦
      rw (e, free_task_state)
        (to_global-Moved m' pool local' state lev (l, n) xs gs put
          (picks-IsPick m'.next pool.thread_list_number local'.list_size state reads none
            (l, n, lev) (λ p i. cc) e))
]
  where
    m' : Links
    m' = record m {
      next = update m.next state local.list;
      switch_task = update m.switch_task state none;
      switch_from_task = update m.switch_from_task state none;
    }

    local' : StateList
    local' = record local { list = some state; list_size = add local.list_size 1 }

    picked : Option (ℕ × ℕ × ℕ)
    picked = picks m'.next pool.thread_list_number local'.list_size state none reads

    put : Holds m' pool local' (state ∷ xs) gs
    put = record {
      local_list = (
        refl,
        subst (λ q. IsLinked m'.next q xs) (sym (ground (arith, ==_refl state)))
            (IsLinked-frame m.next state local.list local.list xs (NotIn-left state xs gs f)
              v.local_list),
      );
      local_size = omega (arith, v.local_size);
      global_list =
          IsLinked-frame m.next state local.list pool.global_list.list gs
            (NotIn-right state xs gs f) v.global_list;
      global_size = v.global_size;
      distinct = (f, v.distinct);
    }
