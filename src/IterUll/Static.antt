-- ===== src/IterUll/Static.antt =====
-- `gomp_iter_ull_static_next`: which iterations each thread gets.
use ulmt_open_mp_gcc.Base.{
  ℕ, suc, ◌+◌, ◌*◌, ◌%◌, ◌≤◌, ◌<◌, ◌≡◌, refl, ap, sym, subst, ◌∙◌, none, some, if◌then◌else◌, leb,
  ◌==◌, min, arith, false,
}
use ulmt_open_mp_gcc.Base.Int.{pos}
use ulmt_open_mp_gcc.IterUll.{
  words, add, mul, minus_one, WorkShare, Served, at, iterations, static_block, static_chunk,
  static_next,
}
use ulmt_open_mp_gcc.IterUll.Blocks.{
  le_mul, lower, block, lower-first, lower-last, start_lem, end_lem, iterations-lt,
}

module _ (ws : WorkShare) (nthreads i : ℕ) (team : 1 < nthreads) where
  static_block_lem :
      (n : ℕ) → n < words → i < nthreads → static_block ws nthreads i n ≡ block ws n nthreads i
  unfolding static_block
  static_block_lem n f h =
      let t : 0 < nthreads = omega arith in
      rw (end_lem n nthreads t f i h, start_lem n nthreads t f i h) (ground arith)

  -- In a team of several threads and without a chunk size, the first call gives thread `i` the
  -- iterations from `lower n nthreads i` up to `lower n nthreads (i + 1)` of the `n` that there are, or
  -- none when these are equal. The first block starts at 0 and the last one ends at `n`, so that the
  -- blocks of the threads are a partition of the iterations.
  pub static_next-blocks :
      ws.chunk_size_ull ≡ 0
      → i < nthreads
      → let n = iterations ws in
        (static_next ws nthreads i 0 ≡ block ws n nthreads i)
        × (lower n nthreads 0 ≡ 0)
        × (lower n nthreads nthreads ≡ n)
  unfolding static_next
  static_next-blocks c h =
      let t : 0 < nthreads = omega arith in
      (
        subst (λ s. static_next ws nthreads i 0 ≡ s)
            (static_block_lem (iterations ws) (iterations-lt ws) h) (ground (arith, c, team)),
        lower-first (iterations ws) nthreads t,
        lower-last (iterations ws) nthreads t,
      )

  -- What thread `i` is to get in its trip `k` when the chunks are dealt out in turn.
  abbrev pub chunk : ℕ → Served
  chunk k =
      let n = iterations ws in
      let s0 = (k * nthreads + i) * ws.chunk_size_ull in
      let e0 = min (s0 + ws.chunk_size_ull) n in
      if leb n s0 then record { ret = pos 1; range = none; static_trip = k } else record {
        ret = pos 0;
        range = some (at ws s0, at ws e0);
        static_trip = if e0 == n then minus_one else suc k;
      }

  given_chunk :
      (k : ℕ)
      → k < minus_one
      → 0 < ws.chunk_size_ull
      → static_next ws nthreads i k ≡ static_chunk ws nthreads i k (iterations ws)
  unfolding static_next
  given_chunk k l c =
      let going_on : (k == minus_one) ≡ false = ground (arith, l) in
      let several : (nthreads == 1) ≡ false = ground (arith, team) in
      let sized : (ws.chunk_size_ull == 0) ≡ false = ground (arith, c) in
      rw (going_on, several, sized) refl

  -- The first iteration of the chunk, where the code's arithmetic does not wrap.
  offset_lem :
      (k : ℕ)
      → 0 < ws.chunk_size_ull
      → (k * nthreads + i) * ws.chunk_size_ull + ws.chunk_size_ull < words
      → mul (add (mul k nthreads) i) ws.chunk_size_ull ≡ (k * nthreads + i) * ws.chunk_size_ull
  offset_lem k c f =
      let m : k * nthreads + i < words =
        omega (arith, f, le_mul (k * nthreads + i) ws.chunk_size_ull c) in
      let b : (k * nthreads) % words ≡ k * nthreads = omega (arith, m) in
      let d : (k * nthreads + i) % words ≡ k * nthreads + i = omega (arith, m) in
      rw (b, d) (omega (arith, f))

  -- In a team of several threads and with a chunk size, the call of trip `k` gives thread `i` the
  -- chunk `k * nthreads + i`, cut at the last iteration, as long as the end of that chunk is a word.
  pub static_next-chunk :
      (k : ℕ)
      → 0 < ws.chunk_size_ull
      → (k * nthreads + i) * ws.chunk_size_ull + ws.chunk_size_ull < words
      → static_next ws nthreads i k ≡ chunk k
  unfolding static_chunk
  static_next-chunk k c f =
      given_chunk k few c ∙ rw (offset_lem k c f, end_word) (ground (arith, few))
    where
      few : k < minus_one
      few =
          let m : k * nthreads + i < words =
            omega (arith, f, le_mul (k * nthreads + i) ws.chunk_size_ull c) in
          let twice : k + k ≤ k * nthreads = grind (arith, team) in omega (arith, m, twice)

      end_word :
          add ((k * nthreads + i) * ws.chunk_size_ull) ws.chunk_size_ull
          ≡ (k * nthreads + i) * ws.chunk_size_ull + ws.chunk_size_ull
      end_word = omega (arith, f)

module _ (ws : WorkShare) (nthreads i : ℕ) (team : 1 < nthreads) where
  first_offset :
      (j : ℕ)
      → j < words
      → mul (add (mul 0 nthreads) j) ws.chunk_size_ull ≡ (j * ws.chunk_size_ull) % words
  first_offset j h =
      let d : ((0 * nthreads) % words + j) % words ≡ j = omega (arith, h) in
      ap (λ z. (z * ws.chunk_size_ull) % words) d

  none_off : (0 * ws.chunk_size_ull) % words ≡ 0
  none_off = omega arith

  -- Where the offset `i * chunk_size` of a thread is a multiple of 2^64 it wraps to 0, so that the
  -- thread gets the first chunk, as thread 0 does.
  pub static_next-repeats :
      0 < ws.chunk_size_ull
      → i < words
      → (i * ws.chunk_size_ull) % words ≡ 0
      → static_next ws nthreads i 0 ≡ static_next ws nthreads 0 0
  unfolding static_chunk
  static_next-repeats c h e =
      given_chunk ws nthreads i team 0 (omega arith) c
      ∙ rw (first_offset i h, first_offset 0 (omega arith), e, none_off) refl
      ∙ sym (given_chunk ws nthreads 0 team 0 (omega arith) c)
