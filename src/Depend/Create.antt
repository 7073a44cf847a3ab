-- ===== src/Depend/Create.antt =====
-- `gomp_task_handle_depend`: the counters count, and no conflict is missed.
use ulmt_open_mp_gcc.Base.{
  ℕ, zero, suc, ◌-◌, ◌≡◌, refl, sym, ap, subst, ◌∙◌, Bool, true, false, leb, if◌then◌else◌, ◌==◌,
  ==_refl, ==_ne, update, arith, List, [], ◌∷◌, ◌++◌, take, drop, Option, none, some, All,
  All-append, Bool-cases, ℕ-cases, inl, inr,
}
use ulmt_open_mp_gcc.Depend.{
  Entry, Depends, walk, mark_all, move_out, is_own, handle_clause, handle_clauses, handle_depend,
}
use ulmt_open_mp_gcc.Depend.Count.{occurs, elems, waits, entries_of}
use ulmt_open_mp_gcc.Depend.Moved.{entries_of-move_out, filed-update, Below, walk-Below}
use ulmt_open_mp_gcc.Depend.Counted.{IsCounted, Awaited, walk-Grows}

module _ (P : Entry → Type 0) where
  All-take : (n : ℕ) (es : List Entry) → All P es → All P (take n es)
  All-take zero es h = tt
  All-take (suc n) [] h = tt
  All-take (suc n) (e ∷ es) h = (h.0, All-take n es h.1)

  All-drop : (n : ℕ) (es : List Entry) → All P es → All P (drop n es)
  All-drop zero es h = h
  All-drop (suc n) [] h = tt
  All-drop (suc n) (e ∷ es) h = All-drop n es h.1

move_out-All :
    (tasks : List ℕ) (es : List Entry) (out last : ℕ)
    → All (λ e. occurs e.task tasks ≡ 1) es
    → All (λ e. occurs e.task tasks ≡ 1) (move_out es out last)
unfolding move_out
move_out-All tasks es out last h =
    let P : Entry → Type 0 = λ e. occurs e.task tasks ≡ 1 in
    All-append P (take out es)
      (take (last - suc out) (drop (suc out) es)
        ++ (mark_all (take 1 (drop out es)) ++ drop last es))
      (All-take P out es h)
      (All-append P (take (last - suc out) (drop (suc out) es))
        (mark_all (take 1 (drop out es)) ++ drop last es)
        (All-take P (last - suc out) (drop (suc out) es) (All-drop P (suc out) es h))
        (All-append P (mark_all (take 1 (drop out es))) (drop last es)
          (marked (take 1 (drop out es)) (All-take P 1 (drop out es) (All-drop P out es h)))
          (All-drop P last es h)))
  where
    marked :
        (es : List Entry)
        → All (λ e. occurs e.task tasks ≡ 1) es
        → All (λ e. occurs e.task tasks ≡ 1) (mark_all es)
    marked [] h = tt
    marked (e ∷ es) h = h

chosen :
    (tasks : List ℕ) (es : List Entry) (out : Option ℕ) (last : ℕ) (is_in : Bool)
    → Below out last
    → All (λ e. occurs e.task tasks ≡ 1) es
    → let es' = elim out as (λ o. List Entry) [
      | none ↦ es
      | some o ↦ if is_in then es else move_out es o last
    ] in
      All (λ e. occurs e.task tasks ≡ 1) es' × ((t : ℕ) → entries_of t es' ≡ entries_of t es)
chosen tasks es none last is_in b h = (h, λ t. refl)
chosen tasks es (some o) last true b h = (h, λ t. refl)
chosen tasks es (some o) last false b h =
    (move_out-All tasks es o last h, λ t. entries_of-move_out t es o last b)

-- A clause of the task gets its entry.
rechained :
    (tasks : List ℕ) (d : Depends) (task addr : ℕ) (new : Entry) (es : List Entry)
    → IsCounted tasks d
    → occurs task tasks ≡ 1
    → new.task ≡ task
    → All (λ e. occurs e.task tasks ≡ 1) es
    → ((t : ℕ) → entries_of t es ≡ entries_of t (d.chain addr))
    → IsCounted tasks (record d {
      chain = update d.chain addr (new ∷ es);
      depend = update d.depend task (d.depend task ++ (addr, false) ∷ []);
    })
rechained tasks d task addr new es v q n h c = record {
  once = v.once;
  entries = λ a. elim (Bool-cases (addr == a)) [
    | inl e ↦ rw e (subst (λ z. occurs z tasks ≡ 1) (sym n) q, h)
    | inr e ↦ rw e (v.entries a)
  ];
  known = v.known;
  idle = v.idle;
  placed = λ t a p.
      let sum = filed-update d.depend task addr t a false in
      let old = v.placed t a p in
      let kept = c t in
      elim (ℕ-cases addr a) [
        | inl s ↦
            let hit : (addr == a) ≡ true = subst (λ z. (addr == z) ≡ true) s (==_refl addr) in
            let same = ap (λ z. entries_of t (d.chain z)) s in
            let own : (new.task == t) ≡ (task == t) = ap (λ z. z == t) n in
            rw hit (ground (arith, sum, old, kept, hit, same, own))
        | inr s ↦ rw (==_ne addr a s) (ground (arith, sum, old, ==_ne addr a s))
      ];
  counted = v.counted;
}

handle_clause-IsCounted :
    (tasks : List ℕ) (d : Depends) (task addr : ℕ) (is_in : Bool)
    → IsCounted tasks d
    → occurs task tasks ≡ 1
    → IsCounted tasks (handle_clause task addr is_in d)
unfolding handle_clause
handle_clause-IsCounted tasks d task addr is_in v q =
    let es = d.chain addr in
    let (out, last, d') = walk task is_in es 0 none d in
    let new : Entry = record { task = task; is_in = is_in; redundant_out = false } in
    let es' : List Entry = elim out as (λ o. List Entry) [
      | none ↦ es
      | some o ↦ if is_in then es else move_out es o last
    ] in
    let g = (walk-Grows es 0 none d tasks task is_in v (v.entries addr) q).0 in
    let (every, kept) =
      chosen tasks es out last is_in (walk-Below es task is_in 0 none d tt) (v.entries addr) in
    elim (Bool-cases (is_own es task)) [
      | inl e ↦ rw e (record {
        once = v.once;
        entries = v.entries;
        known = v.known;
        idle = v.idle;
        placed = λ t a p.
            let sum = filed-update d.depend task addr t a true in
            let old = v.placed t a p in ground (arith, sum, old);
        counted = v.counted;
      })
      | inr e ↦ rw e (
          rechained tasks d' task addr new es' (g.valid) q refl every
            (λ t. kept t ∙ ap (λ c. entries_of t (c addr)) (sym (g.same))))
    ]

-- The entries of a clause that has no other of the same address in its task.
pub handle_clause-Awaited :
    (tasks : List ℕ) (d : Depends) (task addr : ℕ) (is_in : Bool)
    → IsCounted tasks d
    → occurs task tasks ≡ 1
    → is_own (d.chain addr) task ≡ false
    → Awaited task is_in (d.chain addr) (handle_clause task addr is_in d).dependers
unfolding handle_clause
handle_clause-Awaited tasks d task addr is_in v q e =
    rw e ((walk-Grows (d.chain addr) 0 none d tasks task is_in v (v.entries addr) q).1)

handle_clauses-IsCounted :
    (addrs : List ℕ) (task nout i : ℕ) (tasks : List ℕ) (d : Depends)
    → IsCounted tasks d
    → occurs task tasks ≡ 1
    → IsCounted tasks (handle_clauses task nout i addrs d)
unfolding handle_clauses
handle_clauses-IsCounted [] task nout i tasks d v q = v
handle_clauses-IsCounted (addr ∷ addrs) task nout i tasks d v q =
    handle_clauses-IsCounted addrs task nout (suc i) tasks (handle_clause task addr (leb nout i) d)
      (handle_clause-IsCounted tasks d task addr (leb nout i) v q) q

waits-none :
    (t : ℕ) (us : List ℕ) (dependers : ℕ → Option (List ℕ))
    → ((u : ℕ) → occurs t (elems (dependers u)) ≡ 0)
    → waits t us dependers ≡ 0
waits-none t [] dependers h = refl
waits-none t (u ∷ us) dependers h =
    let rest = waits-none t us dependers h in omega (arith, h u, rest)

All-new :
    (task : ℕ) (tasks : List ℕ) (es : List Entry)
    → occurs task tasks ≡ 0
    → All (λ e. occurs e.task tasks ≡ 1) es
    → All (λ e. occurs e.task (task ∷ tasks) ≡ 1) es
All-new task tasks [] f h = tt
All-new task tasks (e ∷ es) f h = (
  ground (arith, h.0, ==_ne task e.task (λ g. absurd (ground (arith, h.0, f, g)))),
  All-new task tasks es f h.1,
)

pub entries_of-none :
    (t : ℕ) (tasks : List ℕ) (es : List Entry)
    → occurs t tasks ≡ 0
    → All (λ e. occurs e.task tasks ≡ 1) es
    → entries_of t es ≡ 0
entries_of-none t tasks [] f h = refl
entries_of-none t tasks (e ∷ es) f h =
    let rest = entries_of-none t tasks es f h.1 in
    let away = ==_ne e.task t (λ g. absurd (ground (arith, h.0, f, g))) in
    ground (arith, rest, away)

-- `gomp_task_handle_depend` of a new task: each counter of the tasks with dependences, the new one
-- included, says for how many tasks its task waits, counted in the lists of dependers.
pub handle_depend-IsCounted :
    (tasks : List ℕ) (d : Depends) (task nout : ℕ) (addrs : List ℕ)
    → IsCounted tasks d
    → occurs task tasks ≡ 0
    → IsCounted (task ∷ tasks) (handle_depend task nout addrs d)
unfolding handle_depend
handle_depend-IsCounted tasks d task nout addrs v f =
    handle_clauses-IsCounted addrs task nout 0 (task ∷ tasks)
      (record d { num_dependees = update d.num_dependees task 0; depend = update d.depend task [] })
      (record {
        once = λ t. elim (ℕ-cases task t) [
          | inl s ↦ ground (arith, subst (λ z. occurs z tasks ≡ 0) s f)
          | inr s ↦ let old = v.once t in ground (arith, old, ==_ne task t s)
        ];
        entries = λ a. All-new task tasks (d.chain a) f (v.entries a);
        known = λ u t h. v.known u t (omega (arith, h));
        idle = λ u t h. v.idle u t (omega (arith, h));
        placed = λ t a h. elim (ℕ-cases task t) [
          | inl s ↦
              let hit : (task == t) ≡ true = subst (λ z. (task == z) ≡ true) s (==_refl task) in
              rw hit (
                entries_of-none t tasks (d.chain a) (subst (λ z. occurs z tasks ≡ 0) s f)
                  (v.entries a))
          | inr s ↦ rw (==_ne task t s) (v.placed t a (ground (arith, h, ==_ne task t s)))
        ];
        counted = λ t h. elim (ℕ-cases task t) [
          | inl s ↦
              let absent : occurs t tasks ≡ 0 = subst (λ z. occurs z tasks ≡ 0) s f in
              let sum = waits-none t (task ∷ tasks) d.dependers (λ u. v.known u t absent) in
              ground (arith, sum, s)
          | inr s ↦
              let alone : occurs t (elems (d.dependers task)) ≡ 0 = v.idle task t f in
              let miss = ==_ne task t s in
              let count = v.counted t (ground (arith, h, miss)) in
              ground (arith, alone, miss, count)
        ];
      })
      (ground (arith, f, ==_refl task))
