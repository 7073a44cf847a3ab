-- ===== src/IterUll/Tests.antt =====
-- Ten iterations from 100 in steps of 3, and chunks that wrap.
use ulmt_open_mp_gcc.Base.{ℕ, ◌≡◌, min, refl, arith, none, some, [], ◌∷◌}
use ulmt_open_mp_gcc.Base.Int.{pos}
use ulmt_open_mp_gcc.IterUll.{
  WorkShare, iterations, static_next, dynamic_next_locked, dynamic_next_fetched, dynamic_next_cas,
  dynamic_cut,
}
use ulmt_open_mp_gcc.IterUll.Blocks.{lower, block}
use ulmt_open_mp_gcc.IterUll.Static.{
  static_next-blocks, chunk, static_next-chunk, static_next-repeats,
}
use ulmt_open_mp_gcc.IterUll.Cas.{dynamic_next_cas-locked}
use ulmt_open_mp_gcc.IterUll.Dynamic.{
  Upwards, requests, Tiles, requests-Tiles, dynamic_next_fetched-locked,
}

-- `for (x = 100; x < 130; x += 3)`, with the chunk size that is given
abbrev loop : ℕ → WorkShare
loop size = record { mode = 0; chunk_size_ull = size; end_ull = 130; incr_ull = 3; next_ull = 100 }

abbrev huge : ℕ
huge = 9223372036854775808

second_of_four :
    static_next (loop 0) 4 1 0 ≡ record { ret = pos 0; range = some (109, 118); static_trip = 1 }
unfolding static_next
second_of_four = refl

-- A chunk size of 2^63: thread 2 gets all of the loop, as thread 0 did.
third_of_four :
    static_next (loop huge) 4 2 0
    ≡ record { ret = pos 0; range = some (100, 130); static_trip = 18446744073709551615 }
unfolding static_next
third_of_four = refl

static_next-blocks_example :
    let n = iterations (loop 0) in
    (static_next (loop 0) 4 1 0 ≡ block (loop 0) n 4 1) × (lower n 4 0 ≡ 0) × (lower n 4 4 ≡ n)
static_next-blocks_example = static_next-blocks (loop 0) 4 1 (omega arith) refl (omega arith)

static_next-chunk_example : static_next (loop 2) 4 0 1 ≡ chunk (loop 2) 4 0 (omega arith) 1
static_next-chunk_example =
    static_next-chunk (loop 2) 4 0 (omega arith) 1 (omega arith) (omega arith)

static_next-repeats_example : static_next (loop huge) 4 2 0 ≡ static_next (loop huge) 4 0 0
static_next-repeats_example =
    static_next-repeats (loop huge) 4 2 (omega arith) (omega arith) (omega arith) refl

loop-Upwards : Upwards (loop 12)
loop-Upwards = record {
  up = refl;
  some_chunk = omega arith;
  before_end = omega arith;
  word_end = omega arith;
}

in_three :
    requests 3 (loop 12)
    ≡ ((100, 112) ∷ (112, 124) ∷ (124, 130) ∷ [], record (loop 12) { next_ull = 130 })
unfolding dynamic_next_locked
in_three = refl

requests-Tiles_example :
    let (ranges, ws') = requests 3 (loop 12) in
    Tiles 12 100 130 ranges × ((dynamic_next_locked ws').0 ≡ none)
requests-Tiles_example = requests-Tiles 3 (loop 12) loop-Upwards (omega arith)

dynamic_next_fetched-locked_example :
    let cut = record (loop 12) { next_ull = 100 } in
    ((dynamic_next_fetched (loop 12)).0 ≡ (dynamic_next_locked cut).0)
    × (min (dynamic_next_fetched (loop 12)).1.next_ull 130 ≡ (dynamic_next_locked cut).1.next_ull)
dynamic_next_fetched-locked_example =
    dynamic_next_fetched-locked (loop 12) refl (omega arith) (omega arith) (omega arith)

-- Another thread takes from 100 to 112 in between.
retried : dynamic_next_cas (loop 12) (112 ∷ 112 ∷ []) ≡ some (some (112, 124))
unfolding dynamic_next_cas dynamic_cut
retried = refl

dynamic_next_cas-locked_example :
    dynamic_next_cas (loop 12) (112 ∷ 112 ∷ [])
    ≡ some (dynamic_next_locked (record (loop 12) { next_ull = 112 })).0
dynamic_next_cas-locked_example =
    dynamic_next_cas-locked (loop 12) loop-Upwards (112 ∷ []) (omega arith, omega arith)
