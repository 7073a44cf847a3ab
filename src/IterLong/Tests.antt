-- ===== src/IterLong/Tests.antt =====
-- The functions on `for (x = -10; x < 20; x += 3)`.
use ulmt_open_mp_gcc.Base.{ℕ, ◌+◌, ◌*◌, ◌≡◌, refl, some, arith}
use ulmt_open_mp_gcc.Base.Int.{pos}
use ulmt_open_mp_gcc.IterUll
use ulmt_open_mp_gcc.IterUll.{Served}
use ulmt_open_mp_gcc.IterLong.{
  LoopShare, bias, iter_static_next, loop_init, iter_dynamic_next_fetched, trip_count,
}
use ulmt_open_mp_gcc.IterLong.Bias.{biased, Fits}
use ulmt_open_mp_gcc.IterLong.Same.{biased_served, iter_static_next-ull}
use ulmt_open_mp_gcc.IterLong.Init.{prepared, fetch_all, loop_init-no_wrap}

abbrev minus_ten : ℕ
minus_ten = 18446744073709551606

abbrev loop : ℕ → LoopShare
loop size = record { mode = 0; chunk_size = size; end = 20; incr = 3; next = minus_ten }

loop-Fits : Fits (loop 0)
loop-Fits = record {
  word_next = omega arith;
  word_end = omega arith;
  up = omega arith;
  step = omega arith;
  short = omega arith;
  before_end = omega arith;
}

dozen-Fits : Fits (loop 12)
dozen-Fits = record {
  word_next = omega arith;
  word_end = omega arith;
  up = omega arith;
  step = omega arith;
  short = omega arith;
  before_end = omega arith;
}

-- From -1 to 8, for the second thread of four.
second_of_four :
    iter_static_next (loop 0) 4 1 0
    ≡ record { ret = pos 0; range = some (18446744073709551615, 8); static_trip = 1 }
unfolding iter_static_next trip_count IterUll.static_block
second_of_four = refl

iter_static_next-ull_example :
    IterUll.static_next (biased (loop 0)) 4 1 0 ≡ biased_served (iter_static_next (loop 0) 4 1 0)
iter_static_next-ull_example = iter_static_next-ull (loop 0) loop-Fits 4 1 0

-- Four threads, chunks of four iterations: three calls get iterations and two get none.
two_refused : (fetch_all 5 (prepared (loop 0) minus_ten 20 3 4 4)).0 ≡ 2
unfolding loop_init iter_dynamic_next_fetched
two_refused = refl

loop_init-no_wrap_example :
    let ws = prepared (loop 0) minus_ten 20 3 4 4 in
    bias (fetch_all 5 ws).1.next ≡ bias minus_ten + 5 * ws.chunk_size
unfolding loop_init
loop_init-no_wrap_example =
    loop_init-no_wrap (loop 0) minus_ten 20 3 4 4 5 refl (omega arith) refl
      (omega (arith, two_refused))
