-- ===== src/Depend/Order.antt =====
-- No circle of waiting tasks: a task is a depender of older tasks only.
use ulmt_open_mp_gcc.Base.{
  ℕ, suc, ◌≤◌, ◌<◌, ◌≡◌, ◌≢◌, refl, sym, ap, subst, ◌∙◌, Bool, true, false, ◌&&◌, leb,
  if◌then◌else◌, ◌==◌, ==_refl, ==_ne, update, arith, List, [], ◌∷◌, Option, none, some, Bool-cases,
  Option-cases, ℕ-cases, inl, inr,
}
use ulmt_open_mp_gcc.Depend.{
  Entry, Depends, add_depender, depend_on, is_last, walk, is_own, move_out, handle_clause,
  handle_clauses, handle_depend,
}
use ulmt_open_mp_gcc.Depend.Count.{occurs, elems, waits, occurs-update, less, entries_of}
use ulmt_open_mp_gcc.Depend.Counted.{IsCounted}
use ulmt_open_mp_gcc.Depend.Create.{entries_of-none}

-- The tasks from the newest to the oldest: none has a depender among itself and the older ones.
abbrev pub IsOrdered : List ℕ → (ℕ → Option (List ℕ)) → Type 0
IsOrdered [] dependers = Unit
IsOrdered (x ∷ xs) dependers =
    ((t : ℕ) → 0 < occurs t (x ∷ xs) → occurs t (elems (dependers x)) ≡ 0) × IsOrdered xs dependers

-- Only `task` becomes a depender, and not of itself.
record Only (task : ℕ) (d d' : Depends) : Type 0 where
  others :
      (u t : ℕ) → task ≢ t → occurs t (elems (d'.dependers u)) ≡ occurs t (elems (d.dependers u))
  itself : occurs task (elems (d'.dependers task)) ≡ occurs task (elems (d.dependers task))
  same : d'.chain ≡ d.chain

Only-trans : (task : ℕ) (a b c : Depends) → Only task a b → Only task b c → Only task a c
Only-trans task a b c f g = record {
  others = λ u t n. g.others u t n ∙ f.others u t n;
  itself = g.itself ∙ f.itself;
  same = g.same ∙ f.same;
}

Only-refl : (task : ℕ) (d : Depends) → Only task d d
Only-refl task d = record { others = λ u t n. refl; itself = refl; same = refl }

add_depender-Only :
    (d : Depends) (tsk task : ℕ) (elem : List ℕ)
    → elems (d.dependers tsk) ≡ elem
    → tsk ≢ task
    → Only task d (add_depender d tsk elem task)
add_depender-Only d tsk task elem e n = record {
  others = λ u t m.
      let now = occurs-update t tsk task u d.dependers elem e in
      ground (arith, now, ==_ne task t m);
  itself =
      let now = occurs-update task tsk task task d.dependers elem e in
      ground (arith, now, ==_ne tsk task n);
  same = refl;
}

depend_on-Only : (d : Depends) (tsk task : ℕ) → tsk ≢ task → Only task d (depend_on d tsk task)
unfolding depend_on
depend_on-Only d tsk task n = elim (Option-cases (d.dependers tsk)) [
  | inl e ↦ rw (e, depend_on) (add_depender-Only d tsk task [] (ap elems e) n)
  | inr (elem, e) ↦ elim (Bool-cases (is_last elem task)) [
    | inl l ↦ rw (e, depend_on, l) (Only-refl task d)
    | inr l ↦ rw (e, depend_on, l) (add_depender-Only d tsk task elem (ap elems e) n)
  ]
]

walk-Only :
    (es : List Entry) (task : ℕ) (is_in : Bool) (i : ℕ) (out : Option ℕ) (d : Depends)
    → entries_of task es ≡ 0
    → Only task d (walk task is_in es i out d).2
unfolding walk
walk-Only [] task is_in i out d h = Only-refl task d
walk-Only (ent ∷ es) task is_in i out d h = elim (Bool-cases ent.redundant_out) [
  | inl r ↦ rw r (Only-refl task d)
  | inr r ↦ elim (Bool-cases (is_in && ent.is_in)) [
    | inl s ↦ rw (r, s) (walk-Only es task is_in (suc i) out d (omega (arith, h)))
    | inr s ↦
        let out' = if ent.is_in then out else some i in
        let d' = depend_on d ent.task task in
        rw (r, s)
          (Only-trans task d d' (walk task is_in es (suc i) out' d').2
            (depend_on-Only d ent.task task (λ g. absurd (ground (arith, h, g, ==_refl task))))
            (walk-Only es task is_in (suc i) out' d' (omega (arith, h))))
  ]
]

-- What the clauses of a task leave, from the state before them.
record Clause (task : ℕ) (d d' : Depends) : Type 0 where
  others :
      (u t : ℕ) → task ≢ t → occurs t (elems (d'.dependers u)) ≡ occurs t (elems (d.dependers u))
  itself : occurs task (elems (d'.dependers task)) ≡ occurs task (elems (d.dependers task))
  front : (a : ℕ) → is_own (d'.chain a) task ≡ false → entries_of task (d'.chain a) ≡ 0

front_if :
    (b : Bool) (task : ℕ) (cs ds : List Entry)
    → is_own cs task ≡ true
    → (is_own ds task ≡ false → entries_of task ds ≡ 0)
    → is_own (if b then cs else ds) task ≡ false
    → entries_of task (if b then cs else ds) ≡ 0
front_if true task cs ds p h n = absurd (cc (p, n))
front_if false task cs ds p h n = h n

handle_clause-Clause :
    (d : Depends) (task addr : ℕ) (is_in : Bool)
    → ((a : ℕ) → is_own (d.chain a) task ≡ false → entries_of task (d.chain a) ≡ 0)
    → Clause task d (handle_clause task addr is_in d)
unfolding handle_clause
handle_clause-Clause d task addr is_in f = elim (Bool-cases (is_own (d.chain addr) task)) [
  | inl e ↦ rw e (record { others = λ u t n. refl; itself = refl; front = f })
  | inr e ↦
      let o = walk-Only (d.chain addr) task is_in 0 none d (f addr e) in
      let es = d.chain addr in
      let (out, last, d') = walk task is_in es 0 none d in
      let new : Entry = record { task = task; is_in = is_in; redundant_out = false } in
      let es' : List Entry = elim out as (λ o. List Entry) [
        | none ↦ es
        | some o ↦ if is_in then es else move_out es o last
      ] in
      rw e (record {
        others = o.others;
        itself = o.itself;
        front = λ a. front_if (addr == a) task (new ∷ es') (d'.chain a) (==_refl task) (
            subst (λ c. is_own (c a) task ≡ false → entries_of task (c a) ≡ 0) (sym (o.same))
              (f a));
      })
]

handle_clauses-Clause :
    (addrs : List ℕ) (task nout i : ℕ) (d : Depends)
    → ((a : ℕ) → is_own (d.chain a) task ≡ false → entries_of task (d.chain a) ≡ 0)
    → Clause task d (handle_clauses task nout i addrs d)
unfolding handle_clauses
handle_clauses-Clause [] task nout i d f = record {
  others = λ u t n. refl;
  itself = refl;
  front = f;
}
handle_clauses-Clause (addr ∷ addrs) task nout i d f =
    let c : Clause task d (handle_clause task addr (leb nout i) d) =
      handle_clause-Clause d task addr (leb nout i) f in
    let d' = handle_clause task addr (leb nout i) d in
    let r : Clause task d' (handle_clauses task nout (suc i) addrs d') =
      handle_clauses-Clause addrs task nout (suc i) d' (c.front) in
    record {
      others = λ u t n. r.others u t n ∙ c.others u t n;
      itself = r.itself ∙ c.itself;
      front = r.front;
    }

-- The order of the tasks holds for fewer dependers and fewer tasks.
pub IsOrdered-smaller :
    (tasks : List ℕ) (f g : ℕ → Option (List ℕ))
    → ((u t : ℕ) → 0 < occurs t tasks → occurs t (elems (f u)) ≡ 0 → occurs t (elems (g u)) ≡ 0)
    → IsOrdered tasks f
    → IsOrdered tasks g
IsOrdered-smaller [] f g h o = tt
IsOrdered-smaller (x ∷ xs) f g h o =
    (λ t p. h x t p (o.0 t p), IsOrdered-smaller xs f g (λ u t p z. h u t (omega (arith, p)) z) o.1)

pub occurs-less-below : (t v : ℕ) (us : List ℕ) → occurs t (less v us) ≤ occurs t us
occurs-less-below t v [] = omega arith
occurs-less-below t v (u ∷ us) =
    let rest = occurs-less-below t v us in
    elim (Bool-cases (u == v)) [ inl s ↦ rw s (omega arith) | inr s ↦ rw s (omega (arith, rest)) ]

pub IsOrdered-less :
    (v : ℕ) (us : List ℕ) (f : ℕ → Option (List ℕ)) → IsOrdered us f → IsOrdered (less v us) f
IsOrdered-less v [] f o = tt
IsOrdered-less v (u ∷ us) f o = elim (Bool-cases (u == v)) [
  | inl s ↦ rw s (o.1)
  | inr s ↦ rw s (
    λ t p. o.0 t (let l = occurs-less-below t v us in omega (arith, p, l)),
    IsOrdered-less v us f o.1,
  )
]

pub handle_depend-IsOrdered :
    (tasks : List ℕ) (d : Depends) (task nout : ℕ) (addrs : List ℕ)
    → IsCounted tasks d
    → occurs task tasks ≡ 0
    → IsOrdered tasks d.dependers
    → IsOrdered (task ∷ tasks) (handle_depend task nout addrs d).dependers
unfolding handle_depend
handle_depend-IsOrdered tasks d task nout addrs v f o =
    let d₀ : Depends = record d {
      num_dependees = update d.num_dependees task 0;
      depend = update d.depend task [];
    } in
    let c : Clause task d₀ (handle_clauses task nout 0 addrs d₀) =
      handle_clauses-Clause addrs task nout 0 d₀
        (λ a n. entries_of-none task tasks (d.chain a) f (v.entries a)) in
    (
      λ t p. elim (ℕ-cases task t) [
        | inl s ↦
            let k = c.itself in
            let z = v.idle task task f in
            subst (λ y. occurs y (elems ((handle_clauses task nout 0 addrs d₀).dependers task)) ≡ 0)
              s (k ∙ z)
        | inr s ↦ c.others task t s ∙ v.idle task t f
      ],
      IsOrdered-smaller tasks d.dependers (handle_clauses task nout 0 addrs d₀).dependers
          (λ u t p z. c.others u t (λ g. absurd (ground (arith, f, p, g))) ∙ z) o,
    )

-- The oldest task waits for none.
abbrev pub oldest : ℕ → List ℕ → ℕ
oldest x [] = x
oldest x (y ∷ ys) = oldest y ys

pub oldest-waits :
    (x : ℕ) (xs : List ℕ) (dependers : ℕ → Option (List ℕ))
    → IsOrdered (x ∷ xs) dependers
    → (0 < occurs (oldest x xs) (x ∷ xs)) × (waits (oldest x xs) (x ∷ xs) dependers ≡ 0)
oldest-waits x [] f o =
    (ground (arith, ==_refl x), let z = o.0 x (ground (arith, ==_refl x)) in omega (arith, z))
oldest-waits x (y ∷ ys) f o =
    let (p, w) = oldest-waits y ys f o.1 in
    let q : 0 < occurs (oldest y ys) (x ∷ y ∷ ys) = omega (arith, p) in
    let z = o.0 (oldest y ys) q in (q, omega (arith, z, w))
