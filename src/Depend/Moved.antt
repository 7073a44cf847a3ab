-- ===== src/Depend/Moved.antt =====
-- The moves within a chain keep its tasks.
use ulmt_open_mp_gcc.Base.{
  ℕ, zero, suc, ◌+◌, ◌-◌, ◌<◌, ◌≡◌, refl, sym, ap, subst, ◌∙◌, Bool, true, ◌&&◌, if◌then◌else◌,
  ◌==◌, ==_refl, ==_ne, update, arith, List, [], ◌∷◌, ◌++◌, take, drop, take-append-drop, Option,
  none, some, Bool-cases, ℕ-cases, inl, inr,
}
use ulmt_open_mp_gcc.Depend.{Entry, Depends, depend_on, walk, mark_all, move_out, unchain}
use ulmt_open_mp_gcc.Depend.Count.{entries_of, filed}

pub entries_of-append :
    (t : ℕ) (xs ys : List Entry) → entries_of t (xs ++ ys) ≡ entries_of t xs + entries_of t ys
entries_of-append t [] ys = omega arith
entries_of-append t (x ∷ xs) ys = let rest = entries_of-append t xs ys in omega (arith, rest)

pub filed-append : (a : ℕ) (xs ys : List (ℕ × Bool)) → filed a (xs ++ ys) ≡ filed a xs + filed a ys
filed-append a [] ys = omega arith
filed-append a (x ∷ xs) ys = let rest = filed-append a xs ys in omega (arith, rest)

pub filed-update :
    (depend : ℕ → List (ℕ × Bool)) (task addr t a : ℕ) (redundant : Bool)
    → filed a (update depend task (depend task ++ (addr, redundant) ∷ []) t)
      ≡ filed a (depend t)
        + (if task == t then if addr == a then if redundant then 0 else 1 else 0 else 0)
filed-update depend task addr t a redundant = elim (ℕ-cases task t) [
  | inl s ↦
      let hit : (task == t) ≡ true = subst (λ z. (task == z) ≡ true) s (==_refl task) in
      let old = ap (λ z. filed a (depend z)) s in
      let sum = filed-append a (depend task) ((addr, redundant) ∷ []) in
      rw hit (omega (arith, old, sum))
  | inr s ↦ rw (==_ne task t s) (omega arith)
]

entries_of-mark_all : (t : ℕ) (es : List Entry) → entries_of t (mark_all es) ≡ entries_of t es
entries_of-mark_all t [] = refl
entries_of-mark_all t (e ∷ es) = refl

drop_nil : (n : ℕ) → drop {A = Entry} n [] ≡ []
drop_nil zero = refl
drop_nil (suc n) = refl

drop-drop : (a b : ℕ) (es : List Entry) → drop b (drop a es) ≡ drop (a + b) es
drop-drop zero b es = ap (λ n. drop n es) {x = b} {y = 0 + b} (omega arith)
drop-drop (suc a) b [] = drop_nil b ∙ sym (drop_nil (suc a + b))
drop-drop (suc a) b (e ∷ es) =
    drop-drop a b es ∙ ap (λ n. drop n (e ∷ es)) {x = suc (a + b)} {y = suc a + b} (omega arith)

first_of : (n : ℕ) (es : List Entry) → take 1 (drop n es) ++ drop (suc n) es ≡ drop n es
first_of n es =
    ap (λ l. take 1 (drop n es) ++ l)
      (sym (drop-drop n 1 es ∙ ap (λ k. drop k es) {x = n + 1} {y = suc n} (omega arith)))
    ∙ take-append-drop 1 (drop n es)

pub entries_of-move_out :
    (t : ℕ) (es : List Entry) (out last : ℕ)
    → out < last
    → entries_of t (move_out es out last) ≡ entries_of t es
unfolding move_out
entries_of-move_out t es out last h =
    let m = take (last - suc out) (drop (suc out) es) in
    let k = mark_all (take 1 (drop out es)) in
    let behind : drop last es ≡ drop (last - suc out) (drop (suc out) es) = sym (
      drop-drop (suc out) (last - suc out) es
      ∙ ap (λ k. drop k es) {x = suc out + (last - suc out)} {y = last} (omega (arith, h))) in
    let a = entries_of-append t (take out es) (m ++ (k ++ drop last es)) in
    let b = entries_of-append t m (k ++ drop last es) in
    let c = entries_of-append t k (drop last es) in
    let marked = entries_of-mark_all t (take 1 (drop out es)) in
    let d = entries_of-append t (take out es) (drop out es) in
    let e = entries_of-append t (take 1 (drop out es)) (drop (suc out) es) in
    let f = entries_of-append t m (drop (last - suc out) (drop (suc out) es)) in
    let whole = ap (entries_of t) (take-append-drop out es) in
    let tail = ap (entries_of t) (first_of out es) in
    let rest = ap (entries_of t) (take-append-drop (last - suc out) (drop (suc out) es)) in
    let end = ap (entries_of t) behind in
    omega (arith, a, b, c, d, e, f, marked, whole, tail, rest, end)

-- The number of `out` is below that of `last`.
abbrev pub Below : Option ℕ → ℕ → Type 0
Below none n = Unit
Below (some o) n = o < n

Below-suc : (out : Option ℕ) (n : ℕ) → Below out n → Below out (suc n)
Below-suc none n h = tt
Below-suc (some o) n h = omega (arith, h)

pub walk-Below :
    (es : List Entry) (task : ℕ) (is_in : Bool) (i : ℕ) (out : Option ℕ) (d : Depends)
    → Below out i
    → Below (walk task is_in es i out d).0 (walk task is_in es i out d).1
unfolding walk
walk-Below [] task is_in i out d h = h
walk-Below (ent ∷ es) task is_in i out d h = elim (Bool-cases ent.redundant_out) [
  | inl r ↦ rw r h
  | inr r ↦ elim (Bool-cases (is_in && ent.is_in)) [
    | inl s ↦ rw (r, s) (walk-Below es task is_in (suc i) out d (Below-suc out i h))
    | inr s ↦
        rw (r, s)
          (walk-Below es task is_in (suc i) (if ent.is_in then out else some i)
            (depend_on d ent.task task)
            (elim (Bool-cases ent.is_in) [
              | inl q ↦ rw q (Below-suc out i h)
              | inr q ↦ rw q (omega arith)
            ]))
  ]
]

-- An entry of another task stays.
pub unchain-entries_of :
    (child t : ℕ) (es : List Entry)
    → entries_of t (unchain child es)
      ≡ (if child == t then entries_of t es - 1 else entries_of t es)
unchain-entries_of child t [] = ground arith
unchain-entries_of child t (e ∷ es) = elim (ℕ-cases e.task child) [
  | inl s ↦
      let same : (e.task == child) ≡ true = subst (λ z. (e.task == z) ≡ true) s (==_refl e.task) in
      rw same (elim (ℕ-cases child t) [
        | inl q ↦ ground (
          arith,
          subst (λ z. (child == z) ≡ true) q (==_refl child),
          subst (λ z. (e.task == z) ≡ true) (s ∙ q) (==_refl e.task),
        )
        | inr q ↦ ground (arith, ==_ne child t q, ==_ne e.task t (λ r. q (sym s ∙ r)))
      ])
  | inr s ↦
      let rest = unchain-entries_of child t es in
      rw (==_ne e.task child s) (elim (ℕ-cases child t) [
        | inl q ↦ ground (
          arith,
          rest,
          subst (λ z. (child == z) ≡ true) q (==_refl child),
          ==_ne e.task t (λ r. s (r ∙ sym q)),
        )
        | inr q ↦ ground (arith, rest, ==_ne child t q)
      ])
]
