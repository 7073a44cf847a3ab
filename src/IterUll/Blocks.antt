-- ===== src/IterUll/Blocks.antt =====
-- The blocks of a static schedule without a chunk size.
use ulmt_open_mp_gcc.Base.{
  ℕ, suc, ◌+◌, ◌*◌, ◌/◌, ◌%◌, ◌≤◌, ◌<◌, ◌≡◌, ap, sym, ◌∙◌, none, some, if◌then◌else◌, ltb, ◌==◌,
  min, arith, Bool-cases, inl, inr,
}
use ulmt_open_mp_gcc.Base.Int.{pos}
use ulmt_open_mp_gcc.IterUll.{
  words, minus_one, add, WorkShare, Served, at, iterations, block_start, block_size,
}

pub le_mul : (a b : ℕ) → 0 < b → a ≤ a * b
le_mul a b h = grind arith

-- The first iteration of the block of thread `i`, when `n` iterations are dealt out evenly and the
-- first threads take one more while the remainder lasts.
abbrev pub lower : ℕ → ℕ → ℕ → ℕ
lower n nthreads i = n / nthreads * i + min i (n % nthreads)

module _ (n nthreads : ℕ) (some_thread : 0 < nthreads) where
  pub lower-first : lower n nthreads 0 ≡ 0
  lower-first = grind arith

  pub lower-last : lower n nthreads nthreads ≡ n
  lower-last = grind arith

  pub lower-le : (i : ℕ) → i ≤ nthreads → lower n nthreads i ≤ n
  lower-le i h = grind arith

  pub lower-suc :
      (i : ℕ)
      → lower n nthreads (suc i)
        ≡ lower n nthreads i + (n / nthreads + (if ltb i (n % nthreads) then 1 else 0))
  lower-suc i = grind arith

  -- The code's arithmetic does not wrap.
  module _ (fits : n < words) (i : ℕ) (is_thread : i < nthreads) where
    quotient_le : n / nthreads + (n % nthreads) ≤ n
    quotient_le = grind arith

    larger : i < n % nthreads → add (n / nthreads) 1 ≡ n / nthreads + 1
    larger h = omega (arith, quotient_le)

    pub start_lem : block_start n nthreads i ≡ lower n nthreads i
    unfolding block_start
    start_lem = elim (Bool-cases (ltb i (n % nthreads))) [
      | inl e ↦
          let h : i < n % nthreads = ground arith in
          let p : (n / nthreads + 1) * i ≡ lower n nthreads i = grind arith in
          rw (e, larger h, p) (omega (arith, lower-le i (omega arith)))
      | inr e ↦
          let p : lower n nthreads i ≡ n / nthreads * i + n % nthreads = ground arith in
          rw (e, p) (omega (arith, lower-le i (omega arith), p))
    ]

    size_lem : block_size n nthreads i ≡ n / nthreads + (if ltb i (n % nthreads) then 1 else 0)
    unfolding block_size
    size_lem = elim (Bool-cases (ltb i (n % nthreads))) [
      | inl e ↦ rw e (larger (ground arith))
      | inr e ↦ rw e (omega arith)
    ]

    pub end_lem :
        add (block_start n nthreads i) (block_size n nthreads i) ≡ lower n nthreads (suc i)
    end_lem =
        rw (start_lem, size_lem)
          (sym (ap (λ c. c % words) (lower-suc i)) ∙ omega (arith, lower-le (suc i) (omega arith)))

-- What thread `i` is to get of `n` iterations.
abbrev pub block : WorkShare → ℕ → ℕ → ℕ → Served
block ws n nthreads i =
    if ltb (lower n nthreads i) (lower n nthreads (suc i))
    then record {
      ret = pos 0;
      range = some (at ws (lower n nthreads i), at ws (lower n nthreads (suc i)));
      static_trip = if lower n nthreads (suc i) == n then minus_one else 1;
    }
    else record { ret = pos 1; range = none; static_trip = 1 }

pub iterations-lt : (ws : WorkShare) → iterations ws < words
unfolding iterations
iterations-lt ws = grind arith
