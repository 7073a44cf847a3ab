-- ===== src/IterLong/Bias.antt =====
-- The order of `long` is that of `unsigned long` behind an addition of 2 ^ 63.
use ulmt_open_mp_gcc.Base.{
  ℕ, ◌+◌, ◌-◌, ◌/◌, ◌≤◌, ◌<◌, ◌≡◌, true, false, Option, none, some, ltb, ◌==◌, arith,
}
use ulmt_open_mp_gcc.IterUll
use ulmt_open_mp_gcc.IterUll.{words, add, sub, mul, neg, Served, at, iterations}
use ulmt_open_mp_gcc.IterLong.{LoopShare, bias, sign, slt, is_negative, sdiv, as_ull, trip_count}

pub bias-sub : (a b : ℕ) → a < words → b < words → sub (bias a) (bias b) ≡ sub a b
bias-sub a b h k = omega (arith, h, k)

pub bias-add : (a c : ℕ) → add (bias a) c ≡ bias (add a c)
bias-add a c = omega arith

pub bias-eq : (a b : ℕ) → a < words → b < words → (bias a == bias b) ≡ (a == b)
bias-eq a b h k = ground (arith, h, k)

-- Below 2 ^ 63 both orders are the same.
pub slt-ltb : (a b : ℕ) → a < sign → b < sign → slt a b ≡ ltb a b
slt-ltb a b h k = ground (arith, h, k)

pub sdiv-nonneg : (a b : ℕ) → a < sign → b < sign → sdiv a b ≡ a / b
unfolding sdiv
sdiv-nonneg a b h k = ground (arith, h, k)

-- The loop over `unsigned long` that a loop over `long` upwards is behind the addition.
abbrev pub biased : LoopShare → IterUll.WorkShare
biased ws = record {
  mode = 0;
  chunk_size_ull = ws.chunk_size;
  end_ull = bias ws.end;
  incr_ull = ws.incr;
  next_ull = bias ws.next;
}

abbrev pub biased_range : Option (ℕ × ℕ) → Option (ℕ × ℕ)
biased_range none = none
biased_range (some p) = some (bias p.0, bias p.1)

-- A loop upwards from words to words, whose length and step are less than 2 ^ 63 together.
pub record Fits (ws : LoopShare) : Type 0 where
  pub word_next : ws.next < words
  pub word_end : ws.end < words
  pub up : 0 < ws.incr
  pub step : ws.incr < sign
  pub short : (bias ws.end - bias ws.next) + ws.incr ≤ sign
  pub before_end : bias ws.next ≤ bias ws.end

module _ (ws : LoopShare) (f : Fits ws) where
  pub left_lem : sub ws.end ws.next ≡ bias ws.end - bias ws.next
  left_lem = omega (arith, f.word_next, f.word_end, f.before_end)

  pub incr-positive : (slt 0 ws.incr ≡ true) × (is_negative ws.incr ≡ false)
  incr-positive = (ground (arith, f.up, f.step), ground (arith, f.up, f.step))

  signed_total :
      add (sub ws.end ws.next) (add ws.incr (words - 1))
      ≡ (bias ws.end - bias ws.next) + ws.incr - 1
  signed_total = omega (arith, left_lem, f.up, f.step, f.short)

  unsigned_total :
      sub (add (sub (bias ws.end) (bias ws.next)) ws.incr) 1
      ≡ (bias ws.end - bias ws.next) + ws.incr - 1
  unsigned_total = omega (arith, f.before_end, f.up, f.step, f.short)

  pub trip_count-iterations : trip_count ws ≡ iterations (biased ws)
  unfolding trip_count iterations
  trip_count-iterations =
      let total = (bias ws.end - bias ws.next) + ws.incr - 1 in
      rw (incr-positive.0, signed_total, unsigned_total)
        (sdiv-nonneg total ws.incr (omega (arith, f.up, f.short)) f.step)

  pub at-biased : (k : ℕ) → at (biased ws) k ≡ bias (at (as_ull ws) k)
  at-biased k = omega arith
