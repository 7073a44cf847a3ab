-- ===== src/IterUll.antt =====
-- iter_ull.c: how the threads of a team get the iterations of a loop over `unsigned long long`.
pub mod Blocks
pub mod Static
pub mod Dynamic
pub mod Cas
pub mod Guided
mod Tests
use Prim.Native.Nat.{bit_and}
use ulmt_open_mp_gcc.Base.{
  ℕ, zero, suc, ◌+◌, ◌-◌, ◌*◌, ◌/◌, ◌%◌, ◌^◌, Bool, true, false, not, Option, none, some,
  if◌then◌else◌, ltb, leb, ◌==◌, List, [], ◌∷◌,
}
use ulmt_open_mp_gcc.Base.Int.{ℤ, pos, negsuc}

-- `unsigned long long`
abbrev pub words : ℕ
words = 18446744073709551616

abbrev pub add : ℕ → ℕ → ℕ
add a b = (a + b) % words

abbrev pub sub : ℕ → ℕ → ℕ
sub a b = (a + words - b) % words

abbrev pub mul : ℕ → ℕ → ℕ
mul a b = (a * b) % words

abbrev pub neg : ℕ → ℕ
neg a = (words - a) % words

-- `static_trip` is an `unsigned long`: -1, for a thread that has had its last iterations.
abbrev pub minus_one : ℕ
minus_one = 18446744073709551615

-- The fields of `struct gomp_work_share` that these functions use.
pub record WorkShare : Type 0 where
  pub mode : ℕ
  pub chunk_size_ull : ℕ
  pub end_ull : ℕ
  pub incr_ull : ℕ
  pub next_ull : ℕ

-- What a call returns, the range that it writes, and `static_trip` behind it.
pub record Served : Type 0 where
  pub ret : ℤ
  pub range : Option (ℕ × ℕ)
  pub static_trip : ℕ

-- "Compute the total number of iterations."
unfoldable pub iterations : WorkShare → ℕ
iterations ws =
    if ws.mode == 0
    then sub (add (sub ws.end_ull ws.next_ull) ws.incr_ull) 1 / ws.incr_ull
    else sub (sub (sub ws.next_ull ws.end_ull) ws.incr_ull) 1 / neg ws.incr_ull

-- "Transform these to the actual start and end numbers."
abbrev pub at : WorkShare → ℕ → ℕ
at ws k = add (mul k ws.incr_ull) ws.next_ull

-- One trip for each thread: the blocks of `n` iterations.
unfoldable pub block_start : ℕ → ℕ → ℕ → ℕ
block_start n nthreads i =
    let q = n / nthreads in
    let t = n % nthreads in if ltb i t then mul (add q 1) i else add (mul q i) t

unfoldable pub block_size : ℕ → ℕ → ℕ → ℕ
block_size n nthreads i = let q = n / nthreads in if ltb i (n % nthreads) then add q 1 else q

unfoldable pub static_block : WorkShare → ℕ → ℕ → ℕ → Served
unfolding block_start block_size
static_block ws nthreads i n =
    let s0 = block_start n nthreads i in
    let e0 = add s0 (block_size n nthreads i) in
    if leb e0 s0 then record { ret = pos 1; range = none; static_trip = 1 } else record {
      ret = pos 0;
      range = some (at ws s0, at ws e0);
      static_trip = if e0 == n then minus_one else 1;
    }

-- Chunks of the given size, in turn.
unfoldable pub static_chunk : WorkShare → ℕ → ℕ → ℕ → ℕ → Served
static_chunk ws nthreads i trip n =
    let s0 = mul (add (mul trip nthreads) i) ws.chunk_size_ull in
    let e = add s0 ws.chunk_size_ull in
    let e0 = if ltb n e then n else e in
    if leb n s0 then record { ret = pos 1; range = none; static_trip = trip } else record {
      ret = pos 0;
      range = some (at ws s0, at ws e0);
      static_trip = if e0 == n then minus_one else add trip 1;
    }

-- `gomp_iter_ull_static_next`, for the thread `i` of a team of `nthreads`.
unfoldable pub static_next : WorkShare → ℕ → ℕ → ℕ → Served
unfolding static_block static_chunk iterations
static_next ws nthreads i trip =
    if trip == minus_one
    then record { ret = negsuc 0; range = none; static_trip = trip }
    else if nthreads == 1
    then record {
      ret = if ws.next_ull == ws.end_ull then pos 1 else pos 0;
      range = some (ws.next_ull, ws.end_ull);
      static_trip = minus_one;
    }
    else if ws.chunk_size_ull == 0
    then (if ltb 0 trip
        then record { ret = pos 1; range = none; static_trip = trip }
        else static_block ws nthreads i (iterations ws))
    else static_chunk ws nthreads i trip (iterations ws)

-- A chunk at `start`, cut at the end of the loop; `mode & 2` is a loop downwards.
unfoldable pub dynamic_cut : WorkShare → ℕ → ℕ → ℕ
dynamic_cut ws chunk start =
    let left = sub ws.end_ull start in
    if not (bit_and ws.mode 2 == 0)
    then (if ltb chunk left then left else chunk)
    else (if ltb left chunk then left else chunk)

-- `gomp_iter_ull_dynamic_next_locked`: the range, if there is one, and the work share.
unfoldable pub dynamic_next_locked : WorkShare → Option (ℕ × ℕ) × WorkShare
unfolding dynamic_cut
dynamic_next_locked ws =
    let end = add ws.next_ull (dynamic_cut ws ws.chunk_size_ull ws.next_ull) in
    if ws.next_ull == ws.end_ull
    then (none, ws)
    else (some (ws.next_ull, end), record ws { next_ull = end })

-- `gomp_iter_ull_dynamic_next`, the branch of `mode & 1`: the value fetched by the atomic addition,
-- cut at the end.
unfoldable pub dynamic_next_fetched : WorkShare → Option (ℕ × ℕ) × WorkShare
dynamic_next_fetched ws =
    let tmp = ws.next_ull in
    let nend = add tmp ws.chunk_size_ull in
    let ws' = record ws { next_ull = nend } in
    if bit_and ws.mode 2 == 0
    then (if leb ws.end_ull tmp
        then (none, ws')
        else (some (tmp, if ltb ws.end_ull nend then ws.end_ull else nend), ws'))
    else (if leb tmp ws.end_ull
        then (none, ws')
        else (some (tmp, if ltb nend ws.end_ull then ws.end_ull else nend), ws'))

-- `gomp_iter_ull_dynamic_next`, the loop around a compare-and-swap, from the value `start` that was
-- read. The list has what each attempt finds in memory; the chunk that is cut stays so for the next
-- attempt. The result is `none` while the function has not returned.
pub cas_loop : WorkShare → ℕ → ℕ → List ℕ → Option (Option (ℕ × ℕ))
cas_loop ws start chunk [] = if start == ws.end_ull then some none else none
cas_loop ws start chunk (tmp ∷ seen) =
    let c = dynamic_cut ws chunk start in
    let rest = cas_loop ws tmp c seen in
    if start == ws.end_ull
    then some none
    else if tmp == start
    then some (some (start, add start c))
    else rest

pub dynamic_next_cas : WorkShare → List ℕ → Option (Option (ℕ × ℕ))
unfolding cas_loop
dynamic_next_cas ws seen = cas_loop ws ws.next_ull ws.chunk_size_ull seen

-- `gomp_iter_ull_guided_next_locked`
unfoldable pub guided_end : WorkShare → ℕ → ℕ
guided_end ws nthreads =
    let start = ws.next_ull in
    let n =
      if ws.mode == 0
      then sub ws.end_ull start / ws.incr_ull
      else sub start ws.end_ull / neg ws.incr_ull in
    let q₀ = sub (add n nthreads) 1 / nthreads in
    let q = if ltb q₀ ws.chunk_size_ull then ws.chunk_size_ull else q₀ in
    if leb q n then add start (mul q ws.incr_ull) else ws.end_ull

unfoldable pub guided_next_locked : WorkShare → ℕ → Option (ℕ × ℕ) × WorkShare
unfolding guided_end
guided_next_locked ws nthreads = if ws.next_ull == ws.end_ull then (none, ws) else (
  some (ws.next_ull, guided_end ws nthreads),
  record ws { next_ull = guided_end ws nthreads },
)

-- `gomp_iter_ull_guided_next`, from the value `start` that was read, with what each attempt finds.
pub guided_cas_loop : WorkShare → ℕ → ℕ → List ℕ → Option (Option (ℕ × ℕ))
guided_cas_loop ws nthreads start [] = if start == ws.end_ull then some none else none
guided_cas_loop ws nthreads start (tmp ∷ seen) =
    let rest = guided_cas_loop ws nthreads tmp seen in
    if start == ws.end_ull
    then some none
    else if tmp == start
    then some (some (start, guided_end (record ws { next_ull = start }) nthreads))
    else rest

pub guided_next : WorkShare → ℕ → List ℕ → Option (Option (ℕ × ℕ))
unfolding guided_cas_loop
guided_next ws nthreads seen = guided_cas_loop ws nthreads ws.next_ull seen
