-- ===== src/Ordered/Ring.antt =====
-- The ring as a queue.
use ulmt_open_mp_gcc.Base.{
  ℕ, zero, suc, ◌+◌, ◌-◌, ◌≤◌, ◌<◌, ◌≡◌, ◌≢◌, refl, sym, ap, ◌∙◌, if◌then◌else◌, leb, ==_ne, update,
  arith, [], ◌∷◌, ◌++◌, length,
}
use ulmt_open_mp_gcc.Ordered.{next_index, read}

-- The place `k` behind `cur`.
abbrev pub place : ℕ → ℕ → ℕ → ℕ
place n cur k = if leb n (cur + k) then cur + k - n else cur + k

module _ (n : ℕ) (small : n < 2147483648) where
  pub next_index-lt : (cur : ℕ) → cur < n → next_index n cur < n
  next_index-lt cur h = ground (arith, h, small)

  place-next : (cur k : ℕ) → cur < n → k < n → place n (next_index n cur) k ≡ place n cur (suc k)
  place-next cur k h l = ground (arith, h, l, small)

  pub read-snoc :
      (ids : ℕ → ℕ) (cur k : ℕ)
      → cur < n
      → k < n
      → read ids n cur (suc k) ≡ read ids n cur k ++ ids (place n cur k) ∷ []
  read-snoc ids cur zero h l = ap (λ z. ids z ∷ []) (ground (arith, h))
  read-snoc ids cur (suc k) h l =
      ap (λ z. ids cur ∷ z)
        (read-snoc ids (next_index n cur) k (next_index-lt cur h) (omega (arith, l))
          ∙ ap (λ z. read ids n (next_index n cur) k ++ ids z ∷ [])
              (place-next cur k h (omega (arith, l))))

  -- A write behind the queue does not change it.
  pub read-frame :
      (ids : ℕ → ℕ) (v cur k j : ℕ)
      → cur < n
      → k ≤ j
      → j < n
      → read (update ids (place n cur j) v) n cur k ≡ read ids n cur k
  read-frame ids v cur zero j h l b = refl
  read-frame ids v cur (suc k) zero h l b = absurd (omega (arith, l))
  read-frame ids v cur (suc k) (suc j) h l b =
      let other : place n cur (suc j) ≢ cur = λ e. ground (arith, h, b, e) in
      let here : update ids (place n cur (suc j)) v cur ≡ ids cur =
        ground (arith, ==_ne (place n cur (suc j)) cur other) in
      let rest : read (update ids (place n cur (suc j)) v) n (next_index n cur) k
          ≡ read ids n (next_index n cur) k =
        ap (λ z. read (update ids z v) n (next_index n cur) k)
          (sym (place-next cur j h (omega (arith, b))))
        ∙ read-frame ids v (next_index n cur) k j (next_index-lt cur h) (omega (arith, l))
            (omega (arith, b)) in
      ap (λ z. z ∷ read (update ids (place n cur (suc j)) v) n (next_index n cur) k) here
      ∙ ap (λ z. ids cur ∷ z) rest

  pub length-read : (ids : ℕ → ℕ) (cur k : ℕ) → length (read ids n cur k) ≡ k
  length-read ids cur zero = refl
  length-read ids cur (suc k) = ap suc (length-read ids (next_index n cur) k)
