-- ===== src/Depend/Count.antt =====
-- How often a task is among the dependers of others.
use ulmt_open_mp_gcc.Base.{
  ℕ, ◌+◌, ◌≡◌, refl, sym, ap, subst, ◌∙◌, Bool, true, if◌then◌else◌, ◌==◌, ==_refl, ==_ne, update,
  arith, List, [], ◌∷◌, ◌++◌, Option, none, some, ℕ-cases, inl, inr,
}
use ulmt_open_mp_gcc.Depend.{Entry}

abbrev pub occurs : ℕ → List ℕ → ℕ
occurs t [] = 0
occurs t (x ∷ xs) = (if x == t then 1 else 0) + occurs t xs

-- The dependers of a task.
abbrev pub elems : Option (List ℕ) → List ℕ
elems none = []
elems (some elem) = elem

-- For how many of the tasks `us` `t` waits.
abbrev pub waits : ℕ → List ℕ → (ℕ → Option (List ℕ)) → ℕ
waits t [] dependers = 0
waits t (u ∷ us) dependers = occurs t (elems (dependers u)) + waits t us dependers

pub occurs-append : (t : ℕ) (xs ys : List ℕ) → occurs t (xs ++ ys) ≡ occurs t xs + occurs t ys
occurs-append t [] ys = omega arith
occurs-append t (x ∷ xs) ys = omega (arith, occurs-append t xs ys)

-- What a task that is not among `us` has as dependers does not count.
pub waits-frame :
    (t v : ℕ) (us : List ℕ) (dependers : ℕ → Option (List ℕ)) (o : Option (List ℕ))
    → occurs v us ≡ 0
    → waits t us (update dependers v o) ≡ waits t us dependers
waits-frame t v [] dependers o e = refl
waits-frame t v (u ∷ us) dependers o e = elim (ℕ-cases u v) [
  | inl s ↦ absurd (ground (arith, e, s, ==_refl u))
  | inr s ↦
      let rest = waits-frame t v us dependers o (omega (arith, e)) in
      let here : update dependers v o u ≡ dependers u = rw (==_ne v u (λ f. s (sym f))) refl in
      ap (λ z. occurs t (elems z) + waits t us (update dependers v o)) here
      ∙ ap (λ z. occurs t (elems (dependers u)) + z) rest
]

pub occurs-update :
    (t v x u : ℕ) (dependers : ℕ → Option (List ℕ)) (elem : List ℕ)
    → elems (dependers v) ≡ elem
    → occurs t (elems (update dependers v (some (elem ++ x ∷ [])) u))
      ≡ occurs t (elems (dependers u)) + (if v == u then occurs t (x ∷ []) else 0)
occurs-update t v x u dependers elem e = elim (ℕ-cases v u) [
  | inl s ↦
      let hit : (v == u) ≡ true = subst (λ z. (v == z) ≡ true) s (==_refl v) in
      let more = occurs-append t elem (x ∷ []) in
      let old : occurs t (elems (dependers u)) ≡ occurs t elem =
        ap (λ z. occurs t (elems (dependers z))) (sym s) ∙ ap (occurs t) e in
      rw hit (omega (arith, more, old))
  | inr s ↦ rw (==_ne v u s) (omega arith)
]

-- One more depender of a task that is there once counts once.
pub waits-update :
    (t v x : ℕ) (us : List ℕ) (dependers : ℕ → Option (List ℕ)) (elem : List ℕ)
    → elems (dependers v) ≡ elem
    → occurs v us ≡ 1
    → waits t us (update dependers v (some (elem ++ x ∷ [])))
      ≡ waits t us dependers + occurs t (x ∷ [])
waits-update t v x [] dependers elem e f = absurd (omega (arith, f))
waits-update t v x (u ∷ us) dependers elem e f =
    let more = occurs-append t elem (x ∷ []) in
    let o = some (elem ++ x ∷ []) in
    elim (ℕ-cases u v) [
      | inl s ↦
          let rest = waits-frame t v us dependers o (ground (arith, f, s, ==_refl u)) in
          let here : occurs t (elems (update dependers v o u))
              ≡ occurs t (elems (dependers u)) + occurs t (x ∷ []) =
            ap (λ z. occurs t (elems z))
              (subst (λ z. update dependers v o z ≡ o) (sym s) (rw (==_refl v) refl))
            ∙ more
            ∙ ap (λ z. occurs t z + occurs t (x ∷ []))
                (sym e ∙ ap (λ z. elems (dependers z)) (sym s)) in
          omega (arith, rest, here)
      | inr s ↦
          let rest = waits-update t v x us dependers elem e (ground (arith, f, ==_ne u v s)) in
          let here : occurs t (elems (update dependers v o u)) ≡ occurs t (elems (dependers u)) =
            ap (λ z. occurs t (elems z)) {x = update dependers v o u} {y = dependers u}
              (rw (==_ne v u (λ f. s (sym f))) refl) in
          omega (arith, rest, here)
    ]

-- The tasks less one.
abbrev pub less : ℕ → List ℕ → List ℕ
less v [] = []
less v (u ∷ us) = if u == v then us else u ∷ less v us

pub waits-less :
    (t v : ℕ) (us : List ℕ) (dependers : ℕ → Option (List ℕ))
    → occurs v us ≡ 1
    → waits t us dependers ≡ occurs t (elems (dependers v)) + waits t (less v us) dependers
waits-less t v [] dependers e = absurd (omega (arith, e))
waits-less t v (u ∷ us) dependers e = elim (ℕ-cases u v) [
  | inl s ↦
      rw (subst (λ z. (z == v) ≡ true) (sym s) (==_refl v))
        (ap (λ z. occurs t (elems (dependers z)) + waits t us dependers) s)
  | inr s ↦
      let rest = waits-less t v us dependers (ground (arith, e, ==_ne u v s)) in
      rw (==_ne u v s) (omega (arith, rest))
]

pub occurs-less :
    (t v : ℕ) (us : List ℕ)
    → occurs v us ≡ 1
    → occurs t (less v us) ≡ (if v == t then 0 else occurs t us)
occurs-less t v [] e = absurd (omega (arith, e))
occurs-less t v (u ∷ us) e = elim (ℕ-cases u v) [
  | inl s ↦
      let f : occurs v us ≡ 0 = ground (arith, e, s, ==_refl u) in
      rw (subst (λ z. (z == v) ≡ true) (sym s) (==_refl v)) (elim (ℕ-cases v t) [
        | inl w ↦ rw (subst (λ z. (v == z) ≡ true) w (==_refl v)) (subst (λ z. occurs z us ≡ 0) w f)
        | inr w ↦ rw (==_ne v t w, ==_ne u t (λ g. w (sym s ∙ g))) (omega arith)
      ])
  | inr s ↦
      let rest = occurs-less t v us (ground (arith, e, ==_ne u v s)) in
      rw (==_ne u v s) (elim (ℕ-cases v t) [
        | inl w ↦ ground (
          arith,
          rest,
          subst (λ z. (v == z) ≡ true) w (==_refl v),
          ==_ne u t (λ g. s (g ∙ sym w)),
        )
        | inr w ↦ ground (arith, rest, ==_ne v t w)
      ])
]

-- How many entries of a chain are of a task, and how many clauses of a task are in the chain of an
-- address.
abbrev pub entries_of : ℕ → List Entry → ℕ
entries_of t [] = 0
entries_of t (e ∷ es) = (if e.task == t then 1 else 0) + entries_of t es

abbrev pub filed : ℕ → List (ℕ × Bool) → ℕ
filed a [] = 0
filed a ((addr, redundant) ∷ cs) =
    (if addr == a then if redundant then 0 else 1 else 0) + filed a cs
