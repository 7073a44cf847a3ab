-- ===== src/IterLong.antt =====
-- iter.c: how the threads of a team get the iterations of a loop over `long`. A `long` is its word in
-- two's complement, and its operations wrap; `unsigned long` and the code that is the same as in
-- iter_ull.c use the functions of IterUll.
pub mod Bias
pub mod Same
pub mod Init
mod Tests
use Prim.Native.Nat.{bit_or}
use ulmt_open_mp_gcc.Base.{
  ℕ, zero, suc, ◌+◌, ◌-◌, ◌*◌, ◌/◌, ◌%◌, ◌<◌, Bool, true, false, not, ◌&&◌, ◌||◌, Option, none,
  some, if◌then◌else◌, ltb, leb, ◌==◌, List, [], ◌∷◌,
}
use ulmt_open_mp_gcc.Base.Int.{ℤ, pos, negsuc}
use ulmt_open_mp_gcc.IterUll
use ulmt_open_mp_gcc.IterUll.{
  words, add, sub, mul, neg, Served, static_block, static_chunk, minus_one,
}

-- 2 ^ 63
abbrev pub sign : ℕ
sign = 9223372036854775808

-- The place of a `long` in the order of all: it is added 2 ^ 63.
abbrev pub bias : ℕ → ℕ
bias a = (a + sign) % words

-- `a < b` for two of type `long`
abbrev pub slt : ℕ → ℕ → Bool
slt a b = ltb (bias a) (bias b)

abbrev pub is_negative : ℕ → Bool
is_negative a = leb sign a

-- `a / b`, which rounds towards 0
pub sdiv : ℕ → ℕ → ℕ
sdiv a b =
    if is_negative a
    then (if is_negative b then neg a / neg b else neg (neg a / b))
    else if is_negative b
    then neg (a / neg b)
    else a / b

-- The fields of `struct gomp_work_share` that these functions use.
pub record LoopShare : Type 0 where
  pub mode : ℕ
  pub chunk_size : ℕ
  pub end : ℕ
  pub incr : ℕ
  pub next : ℕ

-- The same words as the fields for `unsigned long long`.
abbrev pub as_ull : LoopShare → IterUll.WorkShare
as_ull ws = record {
  mode = ws.mode;
  chunk_size_ull = ws.chunk_size;
  end_ull = ws.end;
  incr_ull = ws.incr;
  next_ull = ws.next;
}

-- "Compute the total number of iterations."
pub trip_count : LoopShare → ℕ
unfolding sdiv
trip_count ws =
    let s = add ws.incr (if slt 0 ws.incr then words - 1 else 1) in
    sdiv (add (sub ws.end ws.next) s) ws.incr

-- `gomp_iter_static_next`, for the thread `i` of a team of `nthreads`.
pub iter_static_next : LoopShare → ℕ → ℕ → ℕ → Served
iter_static_next ws nthreads i trip =
    if trip == minus_one
    then record { ret = negsuc 0; range = none; static_trip = trip }
    else if nthreads == 1
    then record {
      ret = if ws.next == ws.end then pos 1 else pos 0;
      range = some (ws.next, ws.end);
      static_trip = minus_one;
    }
    else if ws.chunk_size == 0
    then (if ltb 0 trip
        then record { ret = pos 1; range = none; static_trip = trip }
        else static_block (as_ull ws) nthreads i (trip_count ws))
    else static_chunk (as_ull ws) nthreads i trip (trip_count ws)

-- A chunk at `start`, cut at the end of the loop.
pub chunk_cut : LoopShare → ℕ → ℕ → ℕ
chunk_cut ws chunk start =
    let left = sub ws.end start in
    if is_negative ws.incr
    then (if slt chunk left then left else chunk)
    else (if slt left chunk then left else chunk)

-- `gomp_iter_dynamic_next_locked`
pub iter_dynamic_next_locked : LoopShare → Option (ℕ × ℕ) × LoopShare
unfolding chunk_cut
iter_dynamic_next_locked ws =
    let end = add ws.next (chunk_cut ws ws.chunk_size ws.next) in
    if ws.next == ws.end then (none, ws) else (some (ws.next, end), record ws { next = end })

-- `gomp_iter_dynamic_next`, the branch of `mode`: the value fetched by the atomic addition, cut at the
-- end.
pub iter_dynamic_next_fetched : LoopShare → Option (ℕ × ℕ) × LoopShare
iter_dynamic_next_fetched ws =
    let tmp = ws.next in
    let nend = add tmp ws.chunk_size in
    let ws' = record ws { next = nend } in
    if slt 0 ws.incr
    then (if not (slt tmp ws.end)
        then (none, ws')
        else (some (tmp, if slt ws.end nend then ws.end else nend), ws'))
    else (if not (slt ws.end tmp)
        then (none, ws')
        else (some (tmp, if slt nend ws.end then ws.end else nend), ws'))

-- `gomp_iter_dynamic_next`, the loop around a compare-and-swap, from the value `start` that was read.
-- The list has what each attempt finds in memory; the chunk that is cut stays so for the next attempt.
-- The result is `none` while the function has not returned.
pub iter_cas_loop : LoopShare → ℕ → ℕ → List ℕ → Option (Option (ℕ × ℕ))
unfolding chunk_cut
iter_cas_loop ws start chunk [] = if start == ws.end then some none else none
iter_cas_loop ws start chunk (tmp ∷ seen) =
    let c = chunk_cut ws chunk start in
    let rest = iter_cas_loop ws tmp c seen in
    if start == ws.end
    then some none
    else if tmp == start
    then some (some (start, add start c))
    else rest

-- `gomp_iter_guided_next_locked`
pub iter_guided_end : LoopShare → ℕ → ℕ
unfolding sdiv
iter_guided_end ws nthreads =
    let n = sdiv (sub ws.end ws.next) ws.incr in
    let q₀ = sub (add n nthreads) 1 / nthreads in
    let q = if ltb q₀ ws.chunk_size then ws.chunk_size else q₀ in
    if leb q n then add ws.next (mul q ws.incr) else ws.end

pub iter_guided_next_locked : LoopShare → ℕ → Option (ℕ × ℕ) × LoopShare
unfolding iter_guided_end
iter_guided_next_locked ws nthreads = if ws.next == ws.end then (none, ws) else (
  some (ws.next, iter_guided_end ws nthreads),
  record ws { next = iter_guided_end ws nthreads },
)

-- `gomp_iter_guided_next`, from the value `start` that was read, with what each attempt finds.
pub iter_guided_cas_loop : LoopShare → ℕ → ℕ → List ℕ → Option (Option (ℕ × ℕ))
unfolding iter_guided_end
iter_guided_cas_loop ws nthreads start [] = if start == ws.end then some none else none
iter_guided_cas_loop ws nthreads start (tmp ∷ seen) =
    let rest = iter_guided_cas_loop ws nthreads tmp seen in
    if start == ws.end
    then some none
    else if tmp == start
    then some (some (start, iter_guided_end (record ws { next = start }) nthreads))
    else rest

-- `enum gomp_schedule_type`
pub data ScheduleType : Type 0 where
  runtime static dynamic guided auto : ScheduleType

-- `LONG_MAX`, and 2 ^ 31, the bound of the "cheap overflow protection"
abbrev pub long_max : ℕ
long_max = 9223372036854775807

abbrev pub half : ℕ
half = 2147483648

-- `ws->mode` of a dynamic loop whose `end` and `chunk_size` are set.
pub dynamic_mode : LoopShare → ℕ → ℕ
dynamic_mode ws nthreads =
    let down = neg ws.chunk_size in
    let up_fits = slt ws.end (sub long_max (mul (add nthreads 1) ws.chunk_size)) in
    let down_fits = slt (sub (mul (add nthreads 1) down) long_max) ws.end in
    if slt 0 ws.incr
    then (if leb half (bit_or nthreads ws.chunk_size) then 0 else if up_fits then 1 else 0)
    else (if leb half (bit_or nthreads down) then 0 else if down_fits then 1 else 0)

-- The bounds; "canonicalize loops that have zero iterations to ->next == ->end".
pub loop_bounds : LoopShare → ℕ → ℕ → ℕ → ℕ → LoopShare
loop_bounds ws start end incr chunk = record {
  mode = ws.mode;
  chunk_size = chunk;
  end = if (slt 0 incr && slt end start) || (is_negative incr && slt start end) then start else end;
  incr = incr;
  next = start;
}

-- `gomp_loop_init`, for a team of `nthreads`
pub loop_init : LoopShare → ℕ → ℕ → ℕ → ScheduleType → ℕ → ℕ → LoopShare
unfolding dynamic_mode loop_bounds
loop_init ws start end incr dynamic chunk nthreads =
    let ws' = loop_bounds ws start end incr (mul chunk incr) in
    record ws' { mode = dynamic_mode ws' nthreads }
loop_init ws start end incr _ chunk nthreads = loop_bounds ws start end incr chunk
