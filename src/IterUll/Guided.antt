-- ===== src/IterUll/Guided.antt =====
-- `gomp_iter_ull_guided_next_locked` in a loop that counts upwards, and its lock-free form.
use ulmt_open_mp_gcc.Base.{
  ℕ, ◌-◌, ◌*◌, ◌/◌, ◌%◌, ◌≤◌, ◌<◌, ◌≡◌, some, if◌then◌else◌, leb, arith, ==_refl, List, [], ◌∷◌,
  ◌++◌, last_of, Bool-cases, inl, inr,
}
use ulmt_open_mp_gcc.IterUll.{
  guided_cas_loop, guided_next, words, add, sub, mul, WorkShare, guided_end, guided_next_locked,
}
use ulmt_open_mp_gcc.IterUll.Cas.{Rising, Rising-le}
use ulmt_open_mp_gcc.IterUll.Blocks.{le_mul}

div_mul_le : (d q s : ℕ) → q ≤ d / s → q * s ≤ d
div_mul_le d q s h = grind arith

module _ (ws : WorkShare) (up : ws.mode ≡ 0) (some_chunk : 0 < ws.chunk_size_ull)
    (step : 0 < ws.incr_ull) (more : ws.next_ull < ws.end_ull) (fits : ws.end_ull < words)
    (nthreads : ℕ) where
  abbrev InLoop : ℕ → Type 0
  InLoop e = (ws.next_ull < e) × (e ≤ ws.end_ull)

  within :
      (q : ℕ)
      → 0 < q
      → InLoop (
          if leb q ((ws.end_ull - ws.next_ull) / ws.incr_ull)
          then add ws.next_ull (mul q ws.incr_ull)
          else ws.end_ull)
  within q p = elim (Bool-cases (leb q ((ws.end_ull - ws.next_ull) / ws.incr_ull))) [
    | inl e ↦
        let h : q * ws.incr_ull ≤ ws.end_ull - ws.next_ull =
          div_mul_le _ q ws.incr_ull (ground arith) in
        let k : q ≤ q * ws.incr_ull = le_mul q ws.incr_ull step in
        let w : (q * ws.incr_ull) % words ≡ q * ws.incr_ull = omega (arith, h, fits) in
        rw (e, w) (omega (arith, h, k, fits, more, p), omega (arith, h, fits, more))
    | inr e ↦ rw e (omega (arith, more), omega arith)
  ]

  end_lem : InLoop (guided_end ws nthreads)
  unfolding guided_end
  end_lem =
      let l : sub ws.end_ull ws.next_ull ≡ ws.end_ull - ws.next_ull = omega (arith, more, fits) in
      rw (up, l) (within _ (ground (arith, some_chunk)))

  -- A request of the guided schedule is served with a range that starts at `next`, is not empty and
  -- does not pass the end, and `next` becomes the end of that range, whatever the number of threads.
  pub guided_next-advances :
      let e = guided_end ws nthreads in
      (guided_next_locked ws nthreads ≡ (some (ws.next_ull, e), record ws { next_ull = e }))
      × (ws.next_ull < e)
      × (e ≤ ws.end_ull)
  unfolding guided_next_locked
  guided_next-advances = (ground (arith, more), end_lem.0, end_lem.1)

module _ (ws : WorkShare) (nthreads : ℕ) where
  cas_lem :
      (start : ℕ) (vs : List ℕ)
      → Rising ws.end_ull start vs
      → guided_cas_loop ws nthreads start (vs ++ last_of start vs ∷ [])
        ≡ some (guided_next_locked (record ws { next_ull = last_of start vs }) nthreads).0
  unfolding guided_cas_loop guided_next_locked
  cas_lem start [] r = ground (arith, ==_refl start)
  cas_lem start (v ∷ vs) r =
      let k : v ≤ ws.end_ull = Rising-le ws.end_ull v vs r.1 in
      let h : start < v = r.0 in let rest = cas_lem v vs r.1 in ground (arith, h, k, rest)

  -- An attempt that other threads' takes have made fail is repeated; when one attempt is left
  -- undisturbed, the function has returned what the locked function does at that value of `next`.
  pub guided_next-locked :
      (vs : List ℕ)
      → Rising ws.end_ull ws.next_ull vs
      → let found = last_of ws.next_ull vs in
        guided_next ws nthreads (vs ++ found ∷ [])
        ≡ some (guided_next_locked (record ws { next_ull = found }) nthreads).0
  unfolding guided_next
  guided_next-locked vs r = cas_lem ws.next_ull vs r
