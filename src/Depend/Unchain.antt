-- ===== src/Depend/Unchain.antt =====
-- The loop over the clauses of a finished task.
use ulmt_open_mp_gcc.Base.{
  ℕ, ◌-◌, ◌≡◌, refl, ap, subst, Bool, true, false, if◌then◌else◌, ◌==◌, ==_refl, ==_ne, update,
  arith, List, [], ◌∷◌, All, Bool-cases, ℕ-cases, inl, inr,
}
use ulmt_open_mp_gcc.Depend.{Entry, Depends, unchain, handle_depend_hash}
use ulmt_open_mp_gcc.Depend.Count.{occurs, less, occurs-less, entries_of, filed}
use ulmt_open_mp_gcc.Depend.Moved.{unchain-entries_of}

-- What the loop over the clauses of a finished task leaves.
pub record Unchained (child : ℕ) (cs : List (ℕ × Bool)) (tasks : List ℕ) (d d' : Depends)
    : Type 0 where
  pub number :
      (t a : ℕ)
      → entries_of t (d'.chain a)
        ≡ (if child == t then entries_of t (d.chain a) - filed a cs else entries_of t (d.chain a))
  pub every : (a : ℕ) → All (λ e. occurs e.task tasks ≡ 1) (d'.chain a)
  pub same_dependers : d'.dependers ≡ d.dependers
  pub same_counters : d'.num_dependees ≡ d.num_dependees
  pub same_depend : d'.depend ≡ d.depend

unchain-All :
    (tasks : List ℕ) (child : ℕ) (es : List Entry)
    → All (λ e. occurs e.task tasks ≡ 1) es
    → All (λ e. occurs e.task tasks ≡ 1) (unchain child es)
unchain-All tasks child [] h = tt
unchain-All tasks child (e ∷ es) h = elim (Bool-cases (e.task == child)) [
  | inl s ↦ rw s (h.1)
  | inr s ↦ rw s (h.0, unchain-All tasks child es h.1)
]

unchained_once :
    (child : ℕ) (d : Depends) (addr t a : ℕ)
    → entries_of t (update d.chain addr (unchain child (d.chain addr)) a) ≡ (
        if child == t
        then entries_of t (d.chain a) - (if addr == a then 1 else 0)
        else entries_of t (d.chain a))
unchained_once child d addr t a = elim (ℕ-cases addr a) [
  | inl s ↦
      let hit : (addr == a) ≡ true = subst (λ z. (addr == z) ≡ true) s (==_refl addr) in
      let m = unchain-entries_of child t (d.chain addr) in
      let same = ap (λ z. entries_of t (d.chain z)) s in rw hit (ground (arith, m, same))
  | inr s ↦ rw (==_ne addr a s) (ground arith)
]

pub handle_depend_hash-Unchained :
    (cs : List (ℕ × Bool)) (child : ℕ) (tasks : List ℕ) (d : Depends)
    → ((a : ℕ) → All (λ e. occurs e.task tasks ≡ 1) (d.chain a))
    → Unchained child cs tasks d (handle_depend_hash child cs d)
unfolding handle_depend_hash
handle_depend_hash-Unchained [] child tasks d h = record {
  number = λ t a. ground arith;
  every = h;
  same_dependers = refl;
  same_counters = refl;
  same_depend = refl;
}
handle_depend_hash-Unchained ((addr, true) ∷ cs) child tasks d h =
    let u : Unchained child cs tasks d (handle_depend_hash child cs d) =
      handle_depend_hash-Unchained cs child tasks d h in
    record {
      number = λ t a. let n = u.number t a in ground (arith, n);
      every = u.every;
      same_dependers = u.same_dependers;
      same_counters = u.same_counters;
      same_depend = u.same_depend;
    }
handle_depend_hash-Unchained ((addr, false) ∷ cs) child tasks d h =
    let d₁ : Depends = record d { chain = update d.chain addr (unchain child (d.chain addr)) } in
    let h₁ : (a : ℕ) → All (λ e. occurs e.task tasks ≡ 1) (d₁.chain a) = λ a.
      elim (Bool-cases (addr == a)) [
        | inl s ↦ rw s (unchain-All tasks child (d.chain addr) (h addr))
        | inr s ↦ rw s (h a)
      ] in
    let one = unchained_once child d addr in
    let u : Unchained child cs tasks d₁ (handle_depend_hash child cs d₁) =
      handle_depend_hash-Unchained cs child tasks d₁ h₁ in
    record {
      number = λ t a. let n = u.number t a in let m = one t a in ground (arith, n, m);
      every = u.every;
      same_dependers = u.same_dependers;
      same_counters = u.same_counters;
      same_depend = u.same_depend;
    }

-- The entries of the other tasks only.
pub without_child :
    (tasks : List ℕ) (child : ℕ) (es : List Entry)
    → occurs child tasks ≡ 1
    → entries_of child es ≡ 0
    → All (λ e. occurs e.task tasks ≡ 1) es
    → All (λ e. occurs e.task (less child tasks) ≡ 1) es
without_child tasks child [] p n h = tt
without_child tasks child (e ∷ es) p n h =
    let away : (child == e.task) ≡ false =
      ==_ne child e.task (λ g. absurd (ground (arith, n, g))) in
    let now = occurs-less e.task child tasks p in
    (ground (arith, now, away, h.0), without_child tasks child es p (omega (arith, n)) h.1)
