-- ===== src/HpList/Tracks.antt =====
-- The count of marked nodes and the highest one, when a node comes, goes or changes its mark.
use ulmt_open_mp_gcc.Base.{
  ℕ, ◌+◌, ◌-◌, ◌≤◌, ◌≡◌, ◌≢◌, ap, sym, ◌∙◌, Bool, true, false, Option, none, some, arith,
  if◌then◌else◌, update, ltb, points_to, ==_refl, List, ◌∷◌, ◌++◌, length, last?, NotIn, NotIn-left,
  NotIn-right, inl, inr, Bool-cases, Option-cases,
}
use ulmt_open_mp_gcc.Base.Int.{◌<ℤ◌}
use ulmt_open_mp_gcc.Splay.Ordered.{lt-compare, gt-compare, Below, Above}
use ulmt_open_mp_gcc.HpList.{Nodes, walk, is_higher}
use ulmt_open_mp_gcc.HpList.Chain.{Prevs}
use ulmt_open_mp_gcc.HpList.Marks.{
  count_marked, top_marked, or_else, top-append, count-append, top-update, count-update, top-All,
  top-none, walk-top,
}

-- `num` and `high` describe the marks of a list.
pub record Tracks (m : ℕ → Bool) (num : ℕ) (high : Option ℕ) (xs : List ℕ) : Type 0 where
  pub counted : num ≡ count_marked m xs
  pub highest : high ≡ top_marked m xs

module _ (m : ℕ → Bool) (n : ℕ) (xs ys : List ℕ) where
  -- An unmarked node counts for nothing.
  pub unmarked-out :
      {num : ℕ} {high : Option ℕ}
      → m n ≡ false
      → Tracks m num high (xs ++ n ∷ ys)
      → Tracks m num high (xs ++ ys)
  unmarked-out e t = record {
    counted = t.counted ∙ ground (arith, count-append m xs (n ∷ ys), count-append m xs ys);
    highest = t.highest ∙ ground (arith, top-append m xs (n ∷ ys), top-append m xs ys);
  }

  module _ (f : NotIn n (xs ++ ys)) where
    left : NotIn n xs
    left = NotIn-left n xs ys f

    right : NotIn n ys
    right = NotIn-right n xs ys f

    pub come_unmarked :
        {num : ℕ} {high : Option ℕ}
        → Tracks m num high (xs ++ ys)
        → Tracks (update m n false) num high (xs ++ n ∷ ys)
    come_unmarked t =
        let m' = update m n false in
        record {
          counted =
              t.counted
              ∙ ground (
                arith,
                ==_refl n,
                count-append m' xs (n ∷ ys),
                count-append m xs ys,
                count-update m n false xs left,
                count-update m n false ys right,
              );
          highest =
              t.highest
              ∙ ground (
                arith,
                ==_refl n,
                top-append m' xs (n ∷ ys),
                top-append m xs ys,
                top-update m n false xs left,
                top-update m n false ys right,
              );
        }

    come_marked :
        {num : ℕ} {high high' : Option ℕ}
        → Tracks m num high (xs ++ ys)
        → high' ≡ or_else (top_marked m ys) (some n)
        → Tracks (update m n true) (num + 1) high' (xs ++ n ∷ ys)
    come_marked t e =
        let m' = update m n true in
        record {
          counted = ground (
            arith,
            t.counted,
            ==_refl n,
            count-append m' xs (n ∷ ys),
            count-append m xs ys,
            count-update m n true xs left,
            count-update m n true ys right,
          );
          highest =
              e
              ∙ ground (
                arith,
                ==_refl n,
                top-append m' xs (n ∷ ys),
                top-update m n true xs left,
                top-update m n true ys right,
              );
        }

-- The test of the code for a new highest node, in a sorted list.
module _ (h : Nodes) (n : ℕ) (xs ys : List ℕ) (b : Below h.key (h.key n) xs)
    (a : Above h.key (h.key n) ys) where
  higher_is_top :
      (high : Option ℕ)
      → high ≡ or_else (top_marked h.marked ys) (top_marked h.marked xs)
      → (if is_higher h n high then some n else high) ≡ or_else (top_marked h.marked ys) (some n)
  higher_is_top high e = elim (Option-cases (top_marked h.marked ys)) [
    | inr (y, p) ↦
        let up : h.key n <ℤ h.key y = (top-All (λ x. h.key n <ℤ h.key x) h.marked ys y p a).0 in
        ground (arith, e, p, lt-compare (h.key n) (h.key y) up)
    | inl p ↦ elim (Option-cases (top_marked h.marked xs)) [
      | inl q ↦ ground (arith, e, p, q)
      | inr (x, q) ↦
          let down : h.key x <ℤ h.key n = (top-All (λ x. h.key x <ℤ h.key n) h.marked xs x q b).0 in
          ground (arith, e, p, q, gt-compare (h.key n) (h.key x) down)
    ]
  ]

  pub come_higher :
      {num : ℕ} {high : Option ℕ}
      → NotIn n (xs ++ ys)
      → Tracks h.marked num high (xs ++ ys)
      → Tracks
          (update h.marked n true)
          (num + 1)
          (if is_higher h n high then some n else high)
          (xs ++ n ∷ ys)
  come_higher {num} {high} f t =
      come_marked h.marked n xs ys f t (higher_is_top high (t.highest ∙ top-append h.marked xs ys))

-- A marked node goes: the walk from it finds the new highest one, if it was the highest.
module _ (h' : Nodes) (m : ℕ → Bool) (n fuel : ℕ) (xs ys : List ℕ) (f : NotIn n (xs ++ ys))
    (enough : length xs ≤ fuel) (p : Prevs h' none xs) (from : h'.prev n ≡ last? xs)
    (same : top_marked h'.marked xs ≡ top_marked m xs) (is_marked : m n ≡ true) where
  walked : walk fuel h' (h'.prev n) ≡ top_marked m xs
  walked = ap (walk fuel h') from ∙ walk-top fuel h' xs enough p ∙ same

  was_top : top_marked m ys ≡ none → top_marked m (xs ++ n ∷ ys) ≡ some n
  was_top e = ground (arith, top-append m xs (n ∷ ys))

  count_left : count_marked m (xs ++ n ∷ ys) - 1 ≡ count_marked m (xs ++ ys)
  count_left = ground (arith, count-append m xs (n ∷ ys), count-append m xs ys)

  highest_left :
      (if ltb 0 (count_marked m (xs ++ ys)) then walk fuel h' (h'.prev n) else none)
      ≡ top_marked m xs
  highest_left = elim (Bool-cases (ltb 0 (count_marked m (xs ++ ys)))) [
    | inl e ↦ rw e walked
    | inr e ↦ rw e (sym (top-none m xs (ground (arith, count-append m xs ys))))
  ]

  pub gone :
      {num : ℕ} {high : Option ℕ}
      → Tracks m num high (xs ++ n ∷ ys)
      → Tracks m
          (num - 1)
          (if points_to high n
            then (if ltb 0 (num - 1) then walk fuel h' (h'.prev n) else none)
            else high)
          (xs ++ ys)
  gone {num} {high} t = record {
    counted = ap (λ c. c - 1) t.counted ∙ count_left;
    highest = elim (Option-cases (top_marked m ys)) [
      | inl e ↦ ground (
        arith,
        ==_refl n,
        t.highest,
        was_top e,
        t.counted,
        count_left,
        highest_left,
        top-append m xs ys,
      )
      | inr (y, e) ↦
          let k : n ≢ y = (top-All (λ x. n ≢ x) m ys y e (NotIn-right n xs ys f)).0 in
          ground (arith, k, t.highest, top-append m xs (n ∷ ys), top-append m xs ys)
    ];
  }
