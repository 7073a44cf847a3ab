-- ===== src/Hashtab/Search.antt =====
-- The binary search for a size.
use ulmt_open_mp_gcc.Base.{
  Gives, ℕ, zero, suc, ◌+◌, ◌-◌, ◌/◌, ◌^◌, ◌≤◌, ◌<◌, ◌≡◌, refl, ap, subst, ◌∙◌, false, none, some,
  if◌then◌else◌, ltb, ==_ne, arith, List, [], ◌∷◌, All, length, Bool-cases, ℕ-cases, inl, inr,
}
use ulmt_open_mp_gcc.Hashtab.{
  PrimeEnt, prime_tab, found, read_past, entry, search, check_index, higher_prime_index,
}

-- How many primes come before the first that is not below `n`.
abbrev pub below : List PrimeEnt → ℕ → ℕ
below [] n = 0
below (e ∷ es) n = if ltb e.prime n then suc (below es n) else 0

abbrev IsRising : List PrimeEnt → Type 0
IsRising [] = Unit
IsRising (e ∷ es) = All (λ f. e.prime < f.prime) es × IsRising es

entry-All :
    (P : PrimeEnt → Type 0) (es : List PrimeEnt) (i : ℕ) (e : PrimeEnt)
    → All P es
    → entry es i ≡ some e
    → P e
entry-All P [] i e a h = cc
entry-All P (x ∷ es) zero e a h = subst P (ground (arith, h)) a.0
entry-All P (x ∷ es) (suc i) e a h = entry-All P es i e a.1 h

-- The entry at `i` is there, and its prime is below `n` just when `i` is below the answer.
entry-below :
    (n : ℕ) (es : List PrimeEnt) (i : ℕ)
    → IsRising es
    → i < length es
    → Gives (entry es i) (λ e. ltb e.prime n ≡ ltb i (below es n))
entry-below n [] i s h = absurd (omega (arith, h))
entry-below n (e ∷ es) zero s h = (e, refl, ground arith)
entry-below n (e ∷ es) (suc i) s h =
    let (f, given, b) = entry-below n es i s.1 (omega (arith, h)) in
    let rising : e.prime < f.prime = entry-All (λ f. e.prime < f.prime) es i f s.0 given in
    (f, given, ground (arith, b, rising))

below-length : (n : ℕ) (es : List PrimeEnt) → below es n ≤ length es
below-length n [] = omega arith
below-length n (e ∷ es) = ground (arith, below-length n es)

module _ (n : ℕ) (es : List PrimeEnt) (s : IsRising es) where
  search-below :
      (fuel low high : ℕ)
      → low ≤ below es n
      → below es n ≤ high
      → high ≤ length es
      → high - low < 2 ^ fuel
      → search es fuel n low high ≡ found (below es n)
  unfolding search
  search-below zero low high h k o f = ground (arith, h, k, f)
  search-below (suc fuel) low high h k o f = elim (ℕ-cases low high) [
    | inl e ↦ ground (arith, e, h, k)
    | inr e ↦
        let (x, given, b) =
          entry-below n es (low + (high - low) / 2) s (omega (arith, e, h, k, o)) in
        elim (Bool-cases (ltb x.prime n)) [
          | inl t ↦
              let mid = low + (high - low) / 2 in
              let under : mid < below es n = ground (arith, t, b) in
              let ih =
                search-below fuel (mid + 1) high (omega (arith, under)) k o (omega (arith, f)) in
              ground (arith, given, t, ==_ne low high e, ih)
          | inr t ↦
              let mid = low + (high - low) / 2 in
              let over : below es n ≤ mid = ground (arith, t, b) in
              let ih =
                search-below fuel low mid h over (omega (arith, o, e, h, k))
                  (omega (arith, f, e, h, k)) in
              ground (arith, given, t, ==_ne low high e, ih)
        ]
  ]

  entry-past : (i : ℕ) (xs : List PrimeEnt) → length xs ≤ i → entry xs i ≡ none
  entry-past i [] h = refl
  entry-past zero (x ∷ xs) h = absurd (omega (arith, h))
  entry-past (suc i) (x ∷ xs) h = entry-past i xs (omega (arith, h))

  checked :
      check_index es n (found (below es n))
      ≡ (if ltb (below es n) (length es) then found (below es n) else read_past (length es))
  checked = elim (Bool-cases (ltb (below es n) (length es))) [
    | inl t ↦
        let (x, given, b) = entry-below n es (below es n) s (ground (arith, t)) in
        let no : ltb x.prime n ≡ false = ground (arith, b) in ground (arith, t, given, no)
    | inr t ↦
        let end : below es n ≡ length es =
          let most = below-length n es in ground (arith, t, most) in
        ground (arith, t, entry-past (below es n) es (ground (arith, t)), end)
  ]

prime_tab-IsRising : IsRising prime_tab
prime_tab-IsRising = ground arith

-- `higher_prime_index` gives the index of the first prime of the table that is not below `n`, which is
-- `n` itself where that is a prime of the table. When all 30 primes are below `n`, the test that
-- is to call abort reads the entry 30, which is past the end of the table.
pub higher_prime_index-below :
    (n : ℕ)
    → higher_prime_index n
      ≡ (if ltb (below prime_tab n) 30 then found (below prime_tab n) else read_past 30)
unfolding higher_prime_index
higher_prime_index-below n =
    let ended =
      search-below n prime_tab prime_tab-IsRising 5 0 30 (omega arith) (below-length n prime_tab)
        (omega arith) (omega arith) in
    ap (check_index prime_tab n) ended ∙ checked n prime_tab prime_tab-IsRising
