-- ===== src/IterUll/Cas.antt =====
-- The compare-and-swap loop of `gomp_iter_ull_dynamic_next` in a loop that counts upwards.
use ulmt_open_mp_gcc.Base.{
  ℕ, ◌+◌, ◌-◌, ◌≤◌, ◌<◌, ◌≡◌, refl, ap, some, ◌==◌, ==_refl, min, arith, Bool-cases, inl, inr, List,
  [], ◌∷◌, ◌++◌, last_of,
}
use ulmt_open_mp_gcc.IterUll.{
  add, sub, WorkShare, dynamic_cut, dynamic_next_locked, cas_loop, dynamic_next_cas,
}
use ulmt_open_mp_gcc.IterUll.Dynamic.{Upwards, end_lem, next_lem}

-- Other threads only take iterations: each value is above the one before, and none passes the end.
abbrev pub Rising : ℕ → ℕ → List ℕ → Type 0
Rising end a [] = a ≤ end
Rising end a (x ∷ xs) = (a < x) × Rising end x xs

pub Rising-le : (end a : ℕ) (xs : List ℕ) → Rising end a xs → a ≤ end
Rising-le end a [] r = r
Rising-le end a (x ∷ xs) r = omega (arith, r.0, Rising-le end x xs r.1)

module _ (ws : WorkShare) (u : Upwards ws) where
  -- The cut chunk is as good as the chunk size from `start` on.
  abbrev AsGood : ℕ → ℕ → Type 0
  AsGood chunk start = min chunk (ws.end_ull - start) ≡ min ws.chunk_size_ull (ws.end_ull - start)

  cut_lem :
      (chunk start : ℕ)
      → start ≤ ws.end_ull
      → dynamic_cut ws chunk start ≡ min chunk (ws.end_ull - start)
  unfolding dynamic_cut
  cut_lem chunk start h =
      let l : sub ws.end_ull start ≡ ws.end_ull - start = omega (arith, h, u.word_end) in
      rw (u.up, l) (ground arith)

  abbrev found : ℕ → WorkShare
  found v = record ws { next_ull = v }

  found-Upwards : (v : ℕ) → v ≤ ws.end_ull → Upwards (found v)
  found-Upwards v h = record {
    up = u.up;
    some_chunk = u.some_chunk;
    before_end = h;
    word_end = u.word_end;
  }

  add_cut :
      (start chunk : ℕ)
      → AsGood chunk start
      → start ≤ ws.end_ull
      → add start (dynamic_cut ws chunk start) ≡ min (start + ws.chunk_size_ull) ws.end_ull
  add_cut start chunk g h = rw (cut_lem chunk start h) (omega (arith, g, h, u.word_end))

  cas_lem :
      (start chunk : ℕ) (vs : List ℕ)
      → AsGood chunk start
      → Rising ws.end_ull start vs
      → cas_loop ws start chunk (vs ++ last_of start vs ∷ [])
        ≡ some (dynamic_next_locked (record ws { next_ull = last_of start vs })).0
  unfolding cas_loop
  cas_lem start chunk [] g r = elim (Bool-cases (start == ws.end_ull)) [
    | inl e ↦
        rw (ap (λ p. p.0) (end_lem (found start) (found-Upwards start r) (ground arith)))
          (ground (arith, e))
    | inr e ↦
        rw
          (
            ap (λ p. p.0) (next_lem (found start) (found-Upwards start r) (ground (arith, r))),
            add_cut start chunk g r,
          )
          (ground (arith, e, ==_refl start))
  ]
  cas_lem start chunk (v ∷ vs) g r =
      let k : v ≤ ws.end_ull = Rising-le ws.end_ull v vs r.1 in
      let h : start < v = r.0 in
      let c : dynamic_cut ws chunk start ≡ min chunk (ws.end_ull - start) =
        cut_lem chunk start (omega arith) in
      let rest = cas_lem v (dynamic_cut ws chunk start) vs (rw c (omega (arith, g, h, k))) r.1 in
      ground (arith, h, k, rest)

  -- An attempt that other threads' takes have made fail is repeated; when one attempt is left
  -- undisturbed, the function has returned what the locked function does at that value of `next`.
  pub dynamic_next_cas-locked :
      (vs : List ℕ)
      → Rising ws.end_ull ws.next_ull vs
      → let found = last_of ws.next_ull vs in
        dynamic_next_cas ws (vs ++ found ∷ [])
        ≡ some (dynamic_next_locked (record ws { next_ull = found })).0
  unfolding dynamic_next_cas
  dynamic_next_cas-locked vs r = cas_lem ws.next_ull ws.chunk_size_ull vs refl r
