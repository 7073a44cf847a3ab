-- ===== src/Depend/Counted.antt =====
-- One clause reads a chain: the counters stay right, and the entries that it conflicts with get the task
-- as a depender.
use ulmt_open_mp_gcc.Base.{
  ℕ, suc, ◌≤◌, ◌<◌, ◌≡◌, refl, sym, ap, subst, ◌∙◌, Bool, true, false, ◌&&◌, if◌then◌else◌, ◌==◌,
  ==_refl, ==_ne, arith, List, [], ◌∷◌, Option, some, All, Bool-cases, Option-cases, ℕ-cases, inl,
  inr,
}
use ulmt_open_mp_gcc.Depend.{Entry, Depends, add_depender, depend_on, is_last, walk}
use ulmt_open_mp_gcc.Depend.Count.{
  occurs, elems, waits, occurs-update, waits-update, entries_of, filed,
}

-- `tasks` are the children with dependences that have not finished, each of them once. The chains and
-- the lists of dependers have no other task, only these have dependers, the chains have one entry for each clause that is not
-- redundant, and each counter says for how many tasks its task waits.
pub record IsCounted (tasks : List ℕ) (d : Depends) : Type 0 where
  pub once : (t : ℕ) → occurs t tasks ≤ 1
  pub entries : (a : ℕ) → All (λ e. occurs e.task tasks ≡ 1) (d.chain a)
  pub known : (u t : ℕ) → occurs t tasks ≡ 0 → occurs t (elems (d.dependers u)) ≡ 0
  pub idle : (u t : ℕ) → occurs u tasks ≡ 0 → occurs t (elems (d.dependers u)) ≡ 0
  pub placed : (t a : ℕ) → occurs t tasks ≡ 1 → entries_of t (d.chain a) ≡ filed a (d.depend t)
  pub counted : (t : ℕ) → occurs t tasks ≡ 1 → d.num_dependees t ≡ waits t tasks d.dependers

-- What goes on while the chains are read.
pub record Grows (tasks : List ℕ) (d d' : Depends) : Type 0 where
  pub valid : IsCounted tasks d'
  pub same : d'.chain ≡ d.chain
  pub same_depend : d'.depend ≡ d.depend
  pub more : (u t : ℕ) → occurs t (elems (d.dependers u)) ≤ occurs t (elems (d'.dependers u))

pub Grows-trans :
    (tasks : List ℕ) (a b c : Depends) → Grows tasks a b → Grows tasks b c → Grows tasks a c
Grows-trans tasks a b c g h = record {
  valid = h.valid;
  same = h.same ∙ g.same;
  same_depend = h.same_depend ∙ g.same_depend;
  more = λ u t. let p = g.more u t in let q = h.more u t in omega (arith, p, q);
}

pub Grows-refl : (tasks : List ℕ) (d : Depends) → IsCounted tasks d → Grows tasks d d
Grows-refl tasks d v = record {
  valid = v;
  same = refl;
  same_depend = refl;
  more = λ u t. omega arith;
}

pub add_depender-Grows :
    (tasks : List ℕ) (d : Depends) (tsk task : ℕ) (elem : List ℕ)
    → IsCounted tasks d
    → occurs tsk tasks ≡ 1
    → occurs task tasks ≡ 1
    → elems (d.dependers tsk) ≡ elem
    → Grows tasks d (add_depender d tsk elem task)
add_depender-Grows tasks d tsk task elem v p q e = record {
  valid = record {
    once = v.once;
    entries = v.entries;
    known = λ u t h.
        let old = v.known u t h in
        let now = occurs-update t tsk task u d.dependers elem e in
        let not_task : (task == t) ≡ false = ==_ne task t (λ g. absurd (ground (arith, q, h, g))) in
        ground (arith, old, now, not_task);
    idle = λ u t h.
        let old = v.idle u t h in
        let now = occurs-update t tsk task u d.dependers elem e in
        let not_there : (tsk == u) ≡ false = ==_ne tsk u (λ g. absurd (ground (arith, p, h, g))) in
        ground (arith, old, now, not_there);
    placed = v.placed;
    counted = λ t h.
        let old = v.counted t h in
        let now = waits-update t tsk task tasks d.dependers elem e p in
        elim (ℕ-cases task t) [
          | inl s ↦ ground (arith, old, now, s)
          | inr s ↦ ground (arith, old, now, ==_ne task t s)
        ];
  };
  same = refl;
  same_depend = refl;
  more = λ u t. let now = occurs-update t tsk task u d.dependers elem e in omega (arith, now);
}

is_last-occurs : (elem : List ℕ) (task : ℕ) → is_last elem task ≡ true → 0 < occurs task elem
is_last-occurs [] task e = absurd (cc e)
is_last-occurs (x ∷ []) task e = ground (arith, e)
is_last-occurs (x ∷ y ∷ xs) task e =
    let rest = is_last-occurs (y ∷ xs) task e in omega (arith, rest)

-- The state after an entry that makes `task` a depender.
pub depend_on-Grows :
    (tasks : List ℕ) (d : Depends) (tsk task : ℕ)
    → IsCounted tasks d
    → occurs tsk tasks ≡ 1
    → occurs task tasks ≡ 1
    → Grows tasks d (depend_on d tsk task)
      × (0 < occurs task (elems ((depend_on d tsk task).dependers tsk)))
unfolding depend_on
depend_on-Grows tasks d tsk task v p q = elim (Option-cases (d.dependers tsk)) [
  | inl e ↦
      let now = occurs-update task tsk task tsk d.dependers [] (ap elems e) in
      rw (e, depend_on)
        (
          add_depender-Grows tasks d tsk task [] v p q (ap elems e),
          ground (arith, now, ==_refl tsk, ==_refl task),
        )
  | inr (elem, e) ↦
      let now = occurs-update task tsk task tsk d.dependers elem (ap elems e) in
      elim (Bool-cases (is_last elem task)) [
        | inl l ↦
            rw (e, depend_on, l)
              (
                Grows-refl tasks d v,
                subst (λ z. 0 < occurs task (elems z)) (sym e) (is_last-occurs elem task l),
              )
        | inr l ↦
            rw (e, depend_on, l)
              (
                add_depender-Grows tasks d tsk task elem v p q (ap elems e),
                ground (arith, now, ==_refl tsk, ==_refl task),
              )
      ]
]

-- The entries of a chain that a new clause must wait for have its task as a depender.
abbrev pub Awaited : ℕ → Bool → List Entry → (ℕ → Option (List ℕ)) → Type 0
Awaited task is_in [] dependers = Unit
Awaited task is_in (e ∷ es) dependers =
    if e.redundant_out
    then Unit
    else (((is_in && e.is_in) ≡ false → 0 < occurs task (elems (dependers e.task)))
        × Awaited task is_in es dependers)

pub walk-Grows :
    (es : List Entry) (i : ℕ) (out : Option ℕ) (d : Depends) (tasks : List ℕ) (task : ℕ)
    (is_in : Bool)
    → IsCounted tasks d
    → All (λ e. occurs e.task tasks ≡ 1) es
    → occurs task tasks ≡ 1
    → Grows tasks d (walk task is_in es i out d).2
      × Awaited task is_in es ((walk task is_in es i out d).2).dependers
unfolding walk
walk-Grows [] i out d tasks task is_in v h q = (Grows-refl tasks d v, tt)
walk-Grows (ent ∷ es) i out d tasks task is_in v h q = elim (Bool-cases ent.redundant_out) [
  | inl r ↦ rw r (Grows-refl tasks d v, tt)
  | inr r ↦ elim (Bool-cases (is_in && ent.is_in)) [
    | inl s ↦
        let (g, a) = walk-Grows es (suc i) out d tasks task is_in v h.1 q in
        rw (r, s) (g, ((λ f. absurd (cc f)), a))
    | inr s ↦
        let (g₀, w) = depend_on-Grows tasks d ent.task task v h.0 q in
        let out' = if ent.is_in then out else some i in
        let (g, a) =
          walk-Grows es (suc i) out' (depend_on d ent.task task) tasks task is_in (g₀.valid) h.1
            q in
        let kept = g.more ent.task task in
        rw (r, s)
          (
            Grows-trans tasks d (depend_on d ent.task task)
                (walk task is_in es (suc i) out' (depend_on d ent.task task)).2 g₀ g,
            ((λ f. omega (arith, w, kept)), a),
          )
  ]
]
