-- ===== src/IterLong/Same.antt =====
-- A loop over `long` that counts upwards is served as the loop over `unsigned long` behind the
-- addition of 2 ^ 63.
use ulmt_open_mp_gcc.Base.{
  ℕ, ◌/◌, ◌<◌, ◌≡◌, refl, ap, sym, ◌∙◌, Bool, true, false, Option, none, some, if◌then◌else◌, ltb,
  leb, ◌==◌, arith,
}
use ulmt_open_mp_gcc.Base.Int.{ℤ, pos, negsuc}
use ulmt_open_mp_gcc.IterUll
use ulmt_open_mp_gcc.IterUll.{
  words, add, sub, mul, neg, Served, at, iterations, dynamic_cut, minus_one, static_block,
  static_chunk,
}
use ulmt_open_mp_gcc.IterLong.{
  LoopShare, bias, sign, sdiv, as_ull, trip_count, chunk_cut, iter_static_next,
  iter_dynamic_next_locked, iter_dynamic_next_fetched, iter_guided_end, iter_guided_next_locked,
}
use ulmt_open_mp_gcc.IterLong.Bias.{
  bias-sub, bias-add, bias-eq, slt-ltb, sdiv-nonneg, biased, biased_range, Fits, left_lem,
  incr-positive, trip_count-iterations, at-biased,
}

-- What a call serves, behind the addition.
abbrev pub biased_served : Served → Served
biased_served s = record s { range = biased_range s.range }

abbrev pub biased_result : Option (ℕ × ℕ) × LoopShare → Option (ℕ × ℕ) × IterUll.WorkShare
biased_result r = (biased_range r.0, biased r.1)

-- A value chosen by the same tests.
branches :
    {a b c d e : Served} (a' b' c' d' e' : Served) (x y z w : Bool)
    → a ≡ biased_served a'
    → b ≡ biased_served b'
    → c ≡ biased_served c'
    → d ≡ biased_served d'
    → e ≡ biased_served e'
    → (if x then a else if y then b else if z then (if w then c else d) else e)
      ≡ biased_served (if x then a' else if y then b' else if z then (if w then c' else d') else e')
branches a' b' c' d' e' true y z w i j k l m = i
branches a' b' c' d' e' false true z w i j k l m = j
branches a' b' c' d' e' false false true true i j k l m = k
branches a' b' c' d' e' false false true false i j k l m = l
branches a' b' c' d' e' false false false w i j k l m = m

module _ (ws : LoopShare) (f : Fits ws) where
  cut_lem :
      ws.chunk_size < sign
      → chunk_cut ws ws.chunk_size ws.next ≡ dynamic_cut (biased ws) ws.chunk_size (bias ws.next)
  unfolding chunk_cut dynamic_cut
  cut_lem c =
      let same = bias-sub ws.end ws.next f.word_end f.word_next in
      let l =
        slt-ltb (sub ws.end ws.next) ws.chunk_size (omega (arith, left_lem ws f, f.short, f.up))
          c in
      rw ((incr-positive ws f).1, same, l) refl

  pushed :
      (b : Bool) (start end : ℕ)
      → if◌then◌else◌ {A = Option (ℕ × ℕ) × IterUll.WorkShare} b
          (none, biased ws)
          (some (bias start, bias end), biased (record ws { next = end }))
        ≡ biased_result (if b then (none, ws) else (some (start, end), record ws { next = end }))
  pushed true start end = refl
  pushed false start end = refl

  -- A loop over `long` upwards whose length and step fit into the type is served under the lock as the
  -- loop over `unsigned long` from and to the bounds plus 2 ^ 63, if the chunk is not negative.
  pub iter_dynamic_next_locked-ull :
      ws.chunk_size < sign
      → IterUll.dynamic_next_locked (biased ws) ≡ biased_result (iter_dynamic_next_locked ws)
  unfolding iter_dynamic_next_locked IterUll.dynamic_next_locked
  iter_dynamic_next_locked-ull c =
      rw
        (
          bias-eq ws.next ws.end f.word_next f.word_end,
          sym (cut_lem c),
          bias-add ws.next (chunk_cut ws ws.chunk_size ws.next),
        )
        (pushed (ws.next == ws.end) ws.next (add ws.next (chunk_cut ws ws.chunk_size ws.next)))

  -- The same without the lock, also where the addition wraps.
  pub iter_dynamic_next_fetched-ull :
      IterUll.dynamic_next_fetched (biased ws) ≡ biased_result (iter_dynamic_next_fetched ws)
  unfolding iter_dynamic_next_fetched IterUll.dynamic_next_fetched
  iter_dynamic_next_fetched-ull =
      rw (bias-add ws.next ws.chunk_size) (ground (arith, (incr-positive ws f).0))

  -- The end of a guided range when `n` iterations are left.
  abbrev guided_to : ℕ → ℕ → ℕ → ℕ → ℕ
  guided_to start end nthreads n =
      let q₀ = sub (add n nthreads) 1 / nthreads in
      let q = if ltb q₀ ws.chunk_size then ws.chunk_size else q₀ in
      if leb q n then add start (mul q ws.incr) else end

  guided_to-biased :
      (nthreads n : ℕ)
      → guided_to (bias ws.next) (bias ws.end) nthreads n
        ≡ bias (guided_to ws.next ws.end nthreads n)
  guided_to-biased nthreads n = either _ _
    where
      either :
          (b : Bool) (q : ℕ)
          → (if b then add (bias ws.next) (mul q ws.incr) else bias ws.end)
            ≡ bias (if b then add ws.next (mul q ws.incr) else ws.end)
      either true q = bias-add ws.next (mul q ws.incr)
      either false q = refl

  guided_end-biased :
      (nthreads : ℕ) → IterUll.guided_end (biased ws) nthreads ≡ bias (iter_guided_end ws nthreads)
  unfolding iter_guided_end IterUll.guided_end
  guided_end-biased nthreads =
      let left : sub (bias ws.end) (bias ws.next) / ws.incr ≡ sdiv (sub ws.end ws.next) ws.incr =
        ap (λ z. z / ws.incr) (bias-sub ws.end ws.next f.word_end f.word_next)
        ∙ sym (
            sdiv-nonneg (sub ws.end ws.next) ws.incr (omega (arith, left_lem ws f, f.short, f.up))
              f.step) in
      ap (guided_to (bias ws.next) (bias ws.end) nthreads) left
      ∙ guided_to-biased nthreads (sdiv (sub ws.end ws.next) ws.incr)

  -- The same of `gomp_iter_guided_next_locked`.
  pub iter_guided_next_locked-ull :
      (nthreads : ℕ)
      → IterUll.guided_next_locked (biased ws) nthreads
        ≡ biased_result (iter_guided_next_locked ws nthreads)
  unfolding iter_guided_next_locked IterUll.guided_next_locked
  iter_guided_next_locked-ull nthreads =
      rw (bias-eq ws.next ws.end f.word_next f.word_end, guided_end-biased nthreads)
        (pushed (ws.next == ws.end) ws.next (iter_guided_end ws nthreads))

  -- The two forms of an answer.
  answer-biased :
      (b : Bool) (s0 e0 : ℕ) (r : ℤ) (trip trip' : ℕ)
      → (if◌then◌else◌ {A = Served} b
          (record { ret = pos 1; range = none; static_trip = trip })
          (record {
            ret = r;
            range = some (at (biased ws) s0, at (biased ws) e0);
            static_trip = trip';
          }))
        ≡ biased_served (
            if b then record { ret = pos 1; range = none; static_trip = trip } else record {
              ret = r;
              range = some (at (as_ull ws) s0, at (as_ull ws) e0);
              static_trip = trip';
            })
  answer-biased true s0 e0 r trip trip' = refl
  answer-biased false s0 e0 r trip trip' = rw (at-biased ws f s0, at-biased ws f e0) refl

  static_block-biased :
      (nthreads i n : ℕ)
      → static_block (biased ws) nthreads i n
        ≡ biased_served (static_block (as_ull ws) nthreads i n)
  unfolding static_block
  static_block-biased nthreads i n = answer-biased _ _ _ _ _ _

  static_chunk-biased :
      (nthreads i : ℕ) (trip : ℕ) (n : ℕ)
      → static_chunk (biased ws) nthreads i trip n
        ≡ biased_served (static_chunk (as_ull ws) nthreads i trip n)
  unfolding static_chunk
  static_chunk-biased nthreads i trip n = answer-biased _ _ _ _ _ _

  -- `gomp_iter_static_next` of such a loop serves what `gomp_iter_ull_static_next` serves behind the
  -- addition of 2 ^ 63.
  pub iter_static_next-ull :
      (nthreads i : ℕ) (trip : ℕ)
      → IterUll.static_next (biased ws) nthreads i trip
        ≡ biased_served (iter_static_next ws nthreads i trip)
  unfolding iter_static_next IterUll.static_next
  iter_static_next-ull nthreads i trip =
      let n = trip_count-iterations ws f in
      branches (record { ret = negsuc 0; range = none; static_trip = trip })
        (record {
          ret = if ws.next == ws.end then pos 1 else pos 0;
          range = some (ws.next, ws.end);
          static_trip = minus_one;
        })
        (record { ret = pos 1; range = none; static_trip = trip })
        (static_block (as_ull ws) nthreads i (trip_count ws))
        (static_chunk (as_ull ws) nthreads i trip (trip_count ws)) (trip == minus_one)
        (nthreads == 1) (ws.chunk_size == 0) (ltb 0 trip) refl
        (rw (bias-eq ws.next ws.end f.word_next f.word_end) refl) refl
        (static_block-biased nthreads i _
          ∙ ap (λ z. biased_served (static_block (as_ull ws) nthreads i z)) (sym n))
        (static_chunk-biased nthreads i trip _
          ∙ ap (λ z. biased_served (static_chunk (as_ull ws) nthreads i trip z)) (sym n))
