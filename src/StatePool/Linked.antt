-- ===== src/StatePool/Linked.antt =====
-- The states that a list leads to, and the two lists of free states.
use ulmt_open_mp_gcc.Base.{
  ℕ, ◌%◌, length, ◌≡◌, sym, subst, Option, none, some, update, arith, List, [], ◌∷◌, ◌++◌, NotIn,
  Distinct, ==_refl, All,
}
use ulmt_open_mp_gcc.StatePool.{Links, Group, StateList, unsigned}

abbrev pub IsLinked : (ℕ → Option ℕ) → Option ℕ → List ℕ → Type 0
IsLinked next p [] = p ≡ none
IsLinked next p (x ∷ xs) = (p ≡ some x) × IsLinked next (next x) xs

pub IsLinked-frame :
    (next : ℕ → Option ℕ) (a : ℕ) (v p : Option ℕ) (xs : List ℕ)
    → NotIn a xs
    → IsLinked next p xs
    → IsLinked (update next a v) p xs
IsLinked-frame next a v p [] f h = h
IsLinked-frame next a v p (x ∷ xs) f (e, h) =
    let same : update next a v x ≡ next x = ground (arith, f.0) in
    (
      e,
      subst (λ q. IsLinked (update next a v) q xs) (sym same)
          (IsLinked-frame next a v (next x) xs f.1 h),
    )

-- What is behind `a` in the list.
pub IsLinked-behind :
    (next : ℕ → Option ℕ) (p : Option ℕ) (us : List ℕ) (a : ℕ) (vs : List ℕ)
    → IsLinked next p (us ++ a ∷ vs)
    → IsLinked next (next a) vs
IsLinked-behind next p [] a vs h = h.1
IsLinked-behind next p (u ∷ us) a vs h = IsLinked-behind next (next u) us a vs h.1

-- After a write to `a`, the list goes on behind `a` as what is written does.
pub IsLinked-relink :
    (next : ℕ → Option ℕ) (p q : Option ℕ) (us : List ℕ) (a : ℕ) (vs ws : List ℕ)
    → NotIn a us
    → IsLinked next p (us ++ a ∷ vs)
    → IsLinked (update next a q) q ws
    → IsLinked (update next a q) p (us ++ a ∷ ws)
IsLinked-relink next p q [] a vs ws f h k =
    let here : update next a q a ≡ q = ground (arith, ==_refl a) in
    (h.0, subst (λ z. IsLinked (update next a q) z ws) (sym here) k)
IsLinked-relink next p q (u ∷ us) a vs ws f h k =
    let same : update next a q u ≡ next u = ground (arith, f.0) in
    (
      h.0,
      subst (λ z. IsLinked (update next a q) z (us ++ a ∷ ws)) (sym same)
          (IsLinked-relink next (next u) q us a vs ws f.1 h.1 k),
    )

pub IsLinked-same :
    (next next' : ℕ → Option ℕ) (p : Option ℕ) (xs : List ℕ)
    → All (λ x. next' x ≡ next x) xs
    → IsLinked next p xs
    → IsLinked next' p xs
IsLinked-same next next' p [] e h = h
IsLinked-same next next' p (x ∷ xs) e h =
    (h.0, subst (λ q. IsLinked next' q xs) (sym e.0) (IsLinked-same next next' (next x) xs e.1 h.1))

-- The thread's list has the states `xs` and the global one `gs`, no state twice, and their sizes are
-- counted.
pub record Holds (m : Links) (pool : Group) (local : StateList) (xs gs : List ℕ) : Type 0 where
  pub local_list : IsLinked m.next local.list xs
  pub local_size : local.list_size ≡ length xs % unsigned
  pub global_list : IsLinked m.next pool.global_list.list gs
  pub global_size : pool.global_list.list_size ≡ length gs % unsigned
  pub distinct : Distinct (xs ++ gs)
