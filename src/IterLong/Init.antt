-- ===== src/IterLong/Init.antt =====
-- `gomp_loop_init`: the mode in which the threads add to `next` without a lock or a test.
use Prim.Native.Nat.{bit_or, bit_or-bitwise, digits}
use ulmt_open_mp_gcc.Base.{
  ℕ, zero, suc, ◌+◌, ◌-◌, ◌*◌, ◌/◌, ◌≤◌, ◌<◌, max, ◌≡◌, refl, sym, subst, true, false,
  if◌then◌else◌, is_none, arith, Bool-cases, inl, inr,
}
use ulmt_open_mp_gcc.IterUll.{words, add, sub, mul}
use ulmt_open_mp_gcc.IterLong.{
  LoopShare, bias, slt, long_max, half, dynamic_mode, loop_bounds, loop_init, dynamic,
  iter_dynamic_next_fetched,
}

digits-max : (n a b : ℕ) → a ≤ n → (a ≤ digits (λ x. x) max n a b) × (b ≤ digits (λ x. x) max n a b)
digits-max zero a b h = (omega (arith, h), omega arith)
digits-max (suc n) zero b h = (omega arith, omega arith)
digits-max (suc n) (suc a) b h =
    let (i, j) = digits-max n (suc a / 2) (b / 2) (omega (arith, h)) in
    (omega (arith, i), omega (arith, j))

pub bit_or-above : (a b : ℕ) → (a ≤ bit_or a b) × (b ≤ bit_or a b)
bit_or-above a b =
    let same : bit_or a b ≡ digits (λ x. x) max a a b = bit_or-bitwise a b in
    subst (λ z. (a ≤ z) × (b ≤ z)) (sym same) (digits-max a a b (omega arith))

mul_le_half : (n c : ℕ) → n ≤ half → c ≤ half → n * c ≤ half * half
mul_le_half n c h k = grind arith

-- Calls of `gomp_iter_dynamic_next` in the mode without a test, one behind the other: how many of them
-- get nothing, and the work share.
abbrev pub fetch_all : ℕ → LoopShare → ℕ × LoopShare
fetch_all zero ws = (0, ws)
fetch_all (suc k) ws =
    let r = iter_dynamic_next_fetched ws in
    let rest = fetch_all k r.1 in (if is_none r.0 then suc rest.0 else rest.0, rest.1)

served :
    (ws : LoopShare)
    → slt 0 ws.incr ≡ true
    → slt ws.next ws.end ≡ true
    → (is_none (iter_dynamic_next_fetched ws).0 ≡ false)
      × ((iter_dynamic_next_fetched ws).1 ≡ record ws { next = add ws.next ws.chunk_size })
unfolding iter_dynamic_next_fetched
served ws u e = (ground (arith, u, e), ground (arith, u, e))

refused :
    (ws : LoopShare)
    → slt 0 ws.incr ≡ true
    → slt ws.next ws.end ≡ false
    → (is_none (iter_dynamic_next_fetched ws).0 ≡ true)
      × ((iter_dynamic_next_fetched ws).1 ≡ record ws { next = add ws.next ws.chunk_size })
unfolding iter_dynamic_next_fetched
refused ws u e = (ground (arith, u, e), ground (arith, u, e))

-- While the calls refused are at most `left`, the additions do not wrap.
fetches-exact :
    (k left past : ℕ) (ws : LoopShare)
    → slt 0 ws.incr ≡ true
    → ws.chunk_size ≤ past
    → bias ws.next < bias ws.end + past
    → bias ws.end + past + left * ws.chunk_size < words
    → (fetch_all k ws).0 ≤ left
    → bias (fetch_all k ws).1.next ≡ bias ws.next + k * ws.chunk_size
fetches-exact zero left past ws u c n r f = omega arith
fetches-exact (suc k) left past ws u c n r f = elim (Bool-cases (slt ws.next ws.end)) [
  | inl e ↦
      let (some_range, after) = served ws u e in
      let w : LoopShare = record ws { next = add ws.next ws.chunk_size } in
      let within : bias ws.next < bias ws.end = ground (arith, e) in
      let moved : bias w.next ≡ bias ws.next + ws.chunk_size = omega (arith, within, r, c) in
      let fewer : (fetch_all k w).0 ≤ left =
        subst (λ z. (fetch_all k z).0 ≤ left) after
          (subst
            (λ b.
              (if b
                then suc (fetch_all k (iter_dynamic_next_fetched ws).1).0
                else (fetch_all k (iter_dynamic_next_fetched ws).1).0)
              ≤ left)
            some_range f) in
      let ih = fetches-exact k left past w u c (omega (arith, moved, within, c)) r fewer in
      subst (λ z. bias (fetch_all k z).1.next ≡ bias ws.next + suc k * ws.chunk_size) (sym after)
        (omega (arith, ih, moved))
  | inr e ↦
      let (nothing, after) = refused ws u e in
      let w : LoopShare = record ws { next = add ws.next ws.chunk_size } in
      let fewer : suc (fetch_all k w).0 ≤ left =
        subst (λ z. suc (fetch_all k z).0 ≤ left) after
          (subst
            (λ b.
              (if b
                then suc (fetch_all k (iter_dynamic_next_fetched ws).1).0
                else (fetch_all k (iter_dynamic_next_fetched ws).1).0)
              ≤ left)
            nothing f) in
      let one : left ≡ suc (left - 1) = omega (arith, fewer) in
      let room : bias ws.end + past + suc (left - 1) * ws.chunk_size < words =
        subst (λ z. bias ws.end + past + z * ws.chunk_size < words) one r in
      let moved : bias w.next ≡ bias ws.next + ws.chunk_size = omega (arith, n, room) in
      let ih =
        fetches-exact k (left - 1) (past + ws.chunk_size) w u (omega arith)
          (omega (arith, moved, n)) (omega (arith, room)) (omega (arith, fewer)) in
      subst (λ z. bias (fetch_all k z).1.next ≡ bias ws.next + suc k * ws.chunk_size) (sym after)
        (omega (arith, ih, moved))
]

-- In a loop upwards the mode is chosen only if the end leaves room for a chunk and one more for each
-- thread.
mode-room :
    (ws : LoopShare) (nthreads : ℕ)
    → slt 0 ws.incr ≡ true
    → dynamic_mode ws nthreads ≡ 1
    → bias ws.end + ws.chunk_size + nthreads * ws.chunk_size < words
unfolding dynamic_mode
mode-room ws nthreads u m =
    let (i, j) = bit_or-above nthreads ws.chunk_size in
    let small : bit_or nthreads ws.chunk_size < half = ground (arith, u, m) in
    let fits : slt ws.end (sub long_max (mul (add nthreads 1) ws.chunk_size)) ≡ true =
      ground (arith, u, m) in
    let product =
      mul_le_half (suc nthreads) ws.chunk_size (omega (arith, i, small))
        (omega (arith, j, small)) in
    let one : add nthreads 1 ≡ suc nthreads = omega (arith, i, small) in
    let exact : mul (add nthreads 1) ws.chunk_size ≡ suc nthreads * ws.chunk_size =
      rw one (omega (arith, product)) in
    let fits' : slt ws.end (sub long_max (suc nthreads * ws.chunk_size)) ≡ true =
      subst (λ z. slt ws.end (sub long_max z) ≡ true) exact fits in
    let below : bias ws.end < bias (sub long_max (suc nthreads * ws.chunk_size)) =
      ground (arith, fits') in
    omega (arith, below, product)

module _ (ws : LoopShare) (start end incr chunk nthreads : ℕ) where
  abbrev pub prepared : LoopShare
  prepared = loop_init ws start end incr dynamic chunk nthreads

  bounds_lem :
      slt 0 incr ≡ true
      → (prepared.next ≡ start) × (prepared.incr ≡ incr) × (bias prepared.next ≤ bias prepared.end)
  unfolding loop_init
  bounds_lem u = (refl, refl, ground (arith, u))

  room_lem :
      slt 0 incr ≡ true
      → prepared.mode ≡ 1
      → bias prepared.end + prepared.chunk_size + nthreads * prepared.chunk_size < words
  unfolding loop_init
  room_lem u m = mode-room (loop_bounds ws start end incr (mul chunk incr)) nthreads u m

  -- For a dynamic loop upwards with chunks that are not empty and the mode without a test, the
  -- additions to `next` of `gomp_iter_dynamic_next` do not wrap, however many calls get iterations,
  -- while at most one call for each thread gets none.
  pub loop_init-no_wrap :
      (k : ℕ)
      → slt 0 incr ≡ true
      → 0 < prepared.chunk_size
      → prepared.mode ≡ 1
      → (fetch_all k prepared).0 ≤ nthreads
      → bias (fetch_all k prepared).1.next ≡ bias start + k * prepared.chunk_size
  loop_init-no_wrap k u c m f =
      let (i, j, h) = bounds_lem u in
      subst (λ z. bias (fetch_all k prepared).1.next ≡ bias z + k * prepared.chunk_size) i
        (fetches-exact k nthreads prepared.chunk_size prepared
          (subst (λ z. slt 0 z ≡ true) (sym j) u) (omega arith) (omega (arith, h, c)) (room_lem u m)
          f)
