-- ===== src/Depend/Release.antt =====
-- The loop over the dependers of a finished task.
use ulmt_open_mp_gcc.Base.{
  ℕ, ◌+◌, ◌-◌, ◌≤◌, ◌≡◌, refl, ap, subst, ◌∙◌, true, ◌&&◌, ltb, if◌then◌else◌, ◌==◌, ==_refl, ==_ne,
  update, arith, List, [], ◌∷◌, Bool-cases, ℕ-cases, inl, inr,
}
use ulmt_open_mp_gcc.Depend.{Depends, dec, release}
use ulmt_open_mp_gcc.Depend.Count.{occurs}

-- A task with `o` entries among the dependers and the counter `k` is released at most once.
abbrev pub ready_if : ℕ → ℕ → ℕ
ready_if o k = if ltb 0 o && k == o then 1 else 0

-- What the loop over the dependers leaves, and which of them it releases.
pub record Released (d d' : Depends) (ts ready : List ℕ) : Type 0 where
  pub counters : (t : ℕ) → d'.num_dependees t ≡ d.num_dependees t - occurs t ts
  pub which : (t : ℕ) → occurs t ready ≡ ready_if (occurs t ts) (d.num_dependees t)
  pub same_chain : d'.chain ≡ d.chain
  pub same_depend : d'.depend ≡ d.depend
  pub same_dependers : d'.dependers ≡ d.dependers

ready-cons :
    (x t k k' o n : ℕ) (r : List ℕ)
    → (if x == t then 1 else 0) + o ≤ k
    → k' ≡ k - (if x == t then 1 else 0)
    → (x ≡ t → n ≡ k - 1)
    → occurs t r ≡ ready_if o k'
    → occurs t (if n == 0 then x ∷ r else r) ≡ ready_if ((if x == t then 1 else 0) + o) k
ready-cons x t k k' o n r h l e f = elim (ℕ-cases x t) [
  | inl s ↦
      let m = e s in
      let hit : (x == t) ≡ true = subst (λ z. (x == z) ≡ true) s (==_refl x) in
      elim (Bool-cases (n == 0)) [
        | inl z ↦ rw z (ground (arith, hit, h, l, f, m, z))
        | inr z ↦ rw z (ground (arith, hit, h, l, f, m, z))
      ]
  | inr s ↦
      let miss = ==_ne x t s in
      elim (Bool-cases (n == 0)) [
        | inl z ↦ rw z (ground (arith, miss, h, l, f))
        | inr z ↦ rw z (ground (arith, miss, h, l, f))
      ]
]

pub release-Released :
    (ts : List ℕ) (d : Depends)
    → ((t : ℕ) → occurs t ts ≤ d.num_dependees t)
    → Released d (release ts d).1 ts (release ts d).0
unfolding release
release-Released [] d h = record {
  counters = λ t. omega arith;
  which = λ t. ground arith;
  same_chain = refl;
  same_depend = refl;
  same_dependers = refl;
}
release-Released (x ∷ ts) d h =
    let n = dec (d.num_dependees x) in
    let d₁ = record d { num_dependees = update d.num_dependees x n } in
    let here = h x in
    let less_one : n ≡ d.num_dependees x - 1 = ground (arith, here, ==_refl x) in
    let lower : (t : ℕ) → d₁.num_dependees t ≡ d.num_dependees t - (if x == t then 1 else 0) = λ t.
      elim (ℕ-cases x t) [
        | inl s ↦ ground (arith, s, less_one)
        | inr s ↦ ground (arith, ==_ne x t s)
      ] in
    let r : Released d₁ (release ts d₁).1 ts (release ts d₁).0 =
      release-Released ts d₁ (λ t. let old = h t in let now = lower t in omega (arith, old, now)) in
    record {
      counters = λ t. let now = lower t in let rest = r.counters t in omega (arith, now, rest);
      which = λ t.
          let moved : x ≡ t → n ≡ d.num_dependees t - 1 =
            λ s. less_one ∙ ap (λ z. d.num_dependees z - 1) s in
          ready-cons x t (d.num_dependees t) (d₁.num_dependees t) (occurs t ts) n (release ts d₁).0
            (h t) (lower t) moved (r.which t);
      same_chain = r.same_chain;
      same_depend = r.same_depend;
      same_dependers = r.same_dependers;
    }
