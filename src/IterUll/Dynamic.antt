-- ===== src/IterUll/Dynamic.antt =====
-- `gomp_iter_ull_dynamic_next_locked` and its lock-free form, in a loop that counts upwards.
use Prim.Native.Nat.{bit_and}
use ulmt_open_mp_gcc.Base.{
  ℕ, zero, suc, ◌+◌, ◌-◌, ◌*◌, ◌≤◌, ◌<◌, ◌≡◌, refl, ap, sym, subst, Option, none, some, ltb, min,
  arith, Bool-cases, inl, inr, List, [], ◌∷◌,
}
use ulmt_open_mp_gcc.IterUll.{
  words, add, sub, WorkShare, dynamic_cut, dynamic_next_locked, dynamic_next_fetched,
}

-- The work share of a loop that counts upwards and has not passed its end.
pub record Upwards (ws : WorkShare) : Type 0 where
  pub up : bit_and ws.mode 2 ≡ 0
  pub some_chunk : 0 < ws.chunk_size_ull
  pub before_end : ws.next_ull ≤ ws.end_ull
  pub word_end : ws.end_ull < words

module _ (ws : WorkShare) (u : Upwards ws) where
  chunk_lem :
      add ws.next_ull (dynamic_cut ws ws.chunk_size_ull ws.next_ull)
      ≡ min (ws.next_ull + ws.chunk_size_ull) ws.end_ull
  unfolding dynamic_cut
  chunk_lem =
      let l : sub ws.end_ull ws.next_ull ≡ ws.end_ull - ws.next_ull =
        omega (arith, u.before_end, u.word_end) in
      rw (u.up, l) (ground (arith, u.before_end, u.word_end))

  pub next_lem :
      ws.next_ull < ws.end_ull
      → let end = min (ws.next_ull + ws.chunk_size_ull) ws.end_ull in
        dynamic_next_locked ws ≡ (some (ws.next_ull, end), record ws { next_ull = end })
  unfolding dynamic_next_locked
  next_lem h = rw chunk_lem (ground (arith, h))

  pub end_lem : ws.next_ull ≡ ws.end_ull → dynamic_next_locked ws ≡ (none, ws)
  unfolding dynamic_next_locked
  end_lem h = ground (arith, h)

-- The requests of all threads, one behind the other, until none is served; at most `fuel`.
abbrev pub requests : ℕ → WorkShare → List (ℕ × ℕ) × WorkShare
requests zero ws = ([], ws)
requests (suc fuel) ws = elim ((dynamic_next_locked ws).0) [
  | none ↦ ([], (dynamic_next_locked ws).1)
  | some p ↦ (
    p ∷ (requests fuel (dynamic_next_locked ws).1).0,
    (requests fuel (dynamic_next_locked ws).1).1,
  )
]

-- The ranges lead from `a` to `b`, one behind the other; none is empty or longer than `size`.
abbrev pub Tiles : ℕ → ℕ → ℕ → List (ℕ × ℕ) → Type 0
Tiles size a b [] = a ≡ b
Tiles size a b (p ∷ ps) = (p.0 ≡ a) × (p.0 < p.1) × (p.1 ≤ p.0 + size) × Tiles size p.1 b ps

abbrev Covered : WorkShare → List (ℕ × ℕ) × WorkShare → Type 0
Covered ws r =
    Tiles ws.chunk_size_ull ws.next_ull ws.end_ull r.0 × ((dynamic_next_locked r.1).0 ≡ none)

module _ (fuel : ℕ) (ws : WorkShare) (u : Upwards ws) where
  abbrev served : WorkShare
  served = record ws { next_ull = min (ws.next_ull + ws.chunk_size_ull) ws.end_ull }

  stop : ws.next_ull ≡ ws.end_ull → requests (suc fuel) ws ≡ ([], ws)
  stop e = ground (arith, end_lem ws u e)

  more :
      ws.next_ull < ws.end_ull
      → requests (suc fuel) ws
        ≡ ((ws.next_ull, served.next_ull) ∷ (requests fuel served).0, (requests fuel served).1)
  more h = ap after (next_lem ws u h)
    where
      after : Option (ℕ × ℕ) × WorkShare → List (ℕ × ℕ) × WorkShare
      after r = elim (r.0) [
        | none ↦ ([], r.1)
        | some p ↦ (p ∷ (requests fuel r.1).0, (requests fuel r.1).1)
      ]

  served-Upwards : Upwards served
  served-Upwards = record {
    up = u.up;
    some_chunk = u.some_chunk;
    before_end = ground arith;
    word_end = u.word_end;
  }

covered_rest :
    (fuel next end chunk : ℕ)
    → end - next ≤ suc fuel * chunk
    → end - min (next + chunk) end ≤ fuel * chunk
covered_rest fuel next end chunk h =
    let one_more : suc fuel * chunk ≡ fuel * chunk + chunk = grind arith in
    ground (arith, h, one_more)

-- Requests under the lock, whichever threads make them, get ranges that lead from `next` to `end`
-- without a gap or an overlap, each of them not empty and at most a chunk long; with at least
-- as many requests as chunks cover the distance from `next` to `end`, the loop is exhausted.
pub requests-Tiles :
    (fuel : ℕ) (ws : WorkShare)
    → Upwards ws
    → ws.end_ull - ws.next_ull ≤ fuel * ws.chunk_size_ull
    → let (ranges, ws') = requests fuel ws in
      Tiles ws.chunk_size_ull ws.next_ull ws.end_ull ranges × ((dynamic_next_locked ws').0 ≡ none)
requests-Tiles zero ws u f =
    let e : ws.next_ull ≡ ws.end_ull = omega (arith, u.before_end, f) in
    (e, ap (λ r. r.0) (end_lem ws u e))
requests-Tiles (suc fuel) ws u f = elim (Bool-cases (ltb ws.next_ull ws.end_ull)) [
  | inl e ↦
      let h : ws.next_ull < ws.end_ull = ground arith in
      let c : 0 < ws.chunk_size_ull = u.some_chunk in
      let (tiles, done) =
        requests-Tiles fuel (served fuel ws u) (served-Upwards fuel ws u)
          (covered_rest fuel ws.next_ull ws.end_ull ws.chunk_size_ull f) in
      subst (Covered ws) (sym (more fuel ws u h)) ((refl, ground arith, ground arith, tiles), done)
  | inr e ↦
      let h : ws.next_ull ≡ ws.end_ull = ground (arith, u.before_end) in
      subst (Covered ws) (sym (stop fuel ws u h)) (h, ap (λ r. r.0) (end_lem ws u h))
]

module _ (ws : WorkShare) (m : bit_and ws.mode 2 ≡ 0) (c : 0 < ws.chunk_size_ull)
    (e : ws.end_ull < words) (f : ws.next_ull + ws.chunk_size_ull < words) where
  abbrev cut : WorkShare
  cut = record ws { next_ull = min ws.next_ull ws.end_ull }

  cut-Upwards : Upwards cut
  cut-Upwards = record { up = m; some_chunk = c; before_end = ground arith; word_end = e }

  abbrev Agree : Option (ℕ × ℕ) × WorkShare → Type 0
  Agree r =
      ((dynamic_next_fetched ws).0 ≡ r.0)
      × (min (dynamic_next_fetched ws).1.next_ull ws.end_ull ≡ r.1.next_ull)

  -- Without the lock, while the addition does not wrap: `next` may pass the end, and a call serves
  -- what the locked function serves for `next` cut at the end.
  pub dynamic_next_fetched-locked :
      let cut = record ws { next_ull = min ws.next_ull ws.end_ull } in
      ((dynamic_next_fetched ws).0 ≡ (dynamic_next_locked cut).0)
      × (min (dynamic_next_fetched ws).1.next_ull ws.end_ull ≡ (dynamic_next_locked cut).1.next_ull)
  unfolding dynamic_next_fetched
  dynamic_next_fetched-locked = elim (Bool-cases (ltb ws.next_ull ws.end_ull)) [
    | inl k ↦
        subst Agree (sym (next_lem cut cut-Upwards (ground arith)))
          (ground (arith, m, c), ground (arith, m, c))
    | inr k ↦
        subst Agree (sym (end_lem cut cut-Upwards (ground arith)))
          (ground (arith, m, c), ground (arith, m, c))
  ]
