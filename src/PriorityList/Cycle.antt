-- ===== src/PriorityList/Cycle.antt =====
-- Deletion from a list that one pointer heads: what `remove_flat` does to the tasks, and
-- `remove_blocked` to the blocked ones.
use ulmt_open_mp_gcc.Base.{
  ℕ, ◌≡◌, List, [], ◌∷◌, ◌++◌, subst, subst₂, ap, ◌∙◌, find_split, without, without-split, inl, inr,
  NotIn-left, Option, none, some, arith, Bool, ◌&&◌, if◌then◌else◌, points_to, ◌==◌, NotIn,
  NotIn-self, Distinct, Distinct-left, Distinct-out,
}
use ulmt_open_mp_gcc.Ring.{Mem, unlink}
use ulmt_open_mp_gcc.Ring.Seg.{Heads}
use ulmt_open_mp_gcc.Ring.Laws.{next-ne_self}
use ulmt_open_mp_gcc.PriorityList.Take.{Removed, take_alone, take_first, take_later, Removed-rest}

abbrev pub is_alone : Mem → Option ℕ → ℕ → Bool
is_alone m p n = points_to p n && m.next n == n

abbrev pub cycle_mem : Mem → Option ℕ → ℕ → Mem
cycle_mem m p n = if is_alone m p n then m else unlink m n

abbrev pub cycle_head : Mem → Option ℕ → ℕ → Option ℕ
cycle_head m p n = if is_alone m p n then none else if points_to p n then some (m.next n) else p

pub cycle-Removed :
    (m : Mem) (p : Option ℕ) (n : ℕ) (us cs : List ℕ)
    → Heads m p (us ++ n ∷ cs)
    → Distinct (us ++ n ∷ cs)
    → Removed m (cycle_mem m p n) (cycle_head m p n) us n cs
cycle-Removed m p n [] [] h d =
    subst₂ (λ m' p'. Removed m m' p' [] n []) (ground (arith, h.0, h.1.0))
      (ground (arith, h.0, h.1.0)) (take_alone m n)
cycle-Removed m p n [] (c ∷ cs) h d =
    let onward = next-ne_self m [] n (c ∷ cs) h.1 d (λ e. cc) in
    subst₂ (λ m' p'. Removed m m' p' [] n (c ∷ cs)) (ground (arith, h.0)) (ground (arith, h.0))
      (take_first m n p c cs h d)
cycle-Removed m p n (u ∷ us) cs h d =
    subst₂ (λ m' p'. Removed m m' p' (u ∷ us) n cs) (ground (arith, h.0, NotIn-self u n us cs d.0))
      (ground (arith, h.0, NotIn-self u n us cs d.0)) (take_later m n p u us cs h d)

-- The two lists of a queue, when a node goes from the first of them.
pub cycle_lem :
    (m : Mem) (p q : Option ℕ) (n : ℕ) (xs ys : List ℕ)
    → Heads m p xs
    → Heads m q ys
    → Distinct (xs ++ ys)
    → ¬ NotIn n xs
    → Heads (cycle_mem m p n) (cycle_head m p n) (without n xs)
      × Heads (cycle_mem m p n) q ys
      × Distinct (without n xs ++ ys)
cycle_lem m p q n xs ys h k d f = elim (find_split n xs) [
  | inl h ↦ absurd (f h)
  | inr (us, cs, e) ↦
      let h' : Heads m p (us ++ n ∷ cs) = subst (Heads m p) e h in
      let d' : Distinct ((us ++ n ∷ cs) ++ ys) = subst (λ c. Distinct (c ++ ys)) e d in
      let d'' = Distinct-left (us ++ n ∷ cs) ys d' in
      let e' : without n xs ≡ us ++ cs =
        ap (without n) e
        ∙ without-split n us cs (NotIn-left n us cs (Distinct-out n us cs d'').1) in
      let r = cycle-Removed m p n us cs h' d'' in
      let (a, b) = Removed-rest us n cs ys q d' r k in (rw e' r.ring, a, rw e' b)
]
