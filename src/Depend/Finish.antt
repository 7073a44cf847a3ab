-- ===== src/Depend/Finish.antt =====
-- The end of a task: its entries leave the chains, and the tasks that wait for it are released.
use ulmt_open_mp_gcc.Base.{
  ℕ, ◌-◌, ◌≤◌, ◌<◌, ◌≡◌, refl, sym, ap, subst, ◌∙◌, Bool, true, ◌&&◌, ltb, if◌then◌else◌, ◌==◌,
  ==_refl, ==_ne, update, arith, List, [], ◌∷◌, Option, none, some, All, Bool-cases, Option-cases,
  ℕ-cases, inl, inr,
}
use ulmt_open_mp_gcc.Depend.{
  Depends, handle_depend_hash, release, handle_dependers, post_handle_depend,
}
use ulmt_open_mp_gcc.Depend.Count.{
  occurs, elems, waits, waits-frame, waits-less, less, occurs-less, entries_of, filed,
}
use ulmt_open_mp_gcc.Depend.Counted.{IsCounted}
use ulmt_open_mp_gcc.Depend.Release.{release-Released}
use ulmt_open_mp_gcc.Depend.Unchain.{Unchained, handle_depend_hash-Unchained, without_child}

-- The tasks that a finished one releases: those that wait for it and for no other.
abbrev pub Releases : List ℕ → List ℕ → ℕ → Depends → Type 0
Releases ready tasks child d =
    (t : ℕ)
    → occurs t tasks ≡ 1
    → occurs t ready ≡ (
        if ltb 0 (occurs t (elems (d.dependers child)))
          && waits t (less child tasks) d.dependers == 0
        then 1
        else 0)

enough :
    (tasks : List ℕ) (d : Depends) (child : ℕ)
    → IsCounted tasks d
    → occurs child tasks ≡ 1
    → (t : ℕ) → occurs t (elems (d.dependers child)) ≤ d.num_dependees t
enough tasks d child v p t = elim (ℕ-cases (occurs t tasks) 1) [
  | inl s ↦
      let n = v.counted t s in let w = waits-less t child tasks d.dependers p in omega (arith, n, w)
  | inr s ↦
      let none_there : occurs t tasks ≡ 0 = let o = v.once t in omega (arith, o, s) in
      let k = v.known child t none_there in omega (arith, k)
]

waits_of :
    (t u : ℕ) (us : List ℕ) (dependers : ℕ → Option (List ℕ))
    → waits t us dependers ≡ 0
    → 0 < occurs u us
    → occurs t (elems (dependers u)) ≡ 0
waits_of t u [] dependers e h = absurd (omega (arith, h))
waits_of t u (x ∷ us) dependers e h = elim (ℕ-cases x u) [
  | inl s ↦ let same = ap (λ z. occurs t (elems (dependers z))) s in omega (arith, same, e)
  | inr s ↦ waits_of t u us dependers (omega (arith, e)) (ground (arith, h, ==_ne x u s))
]

-- A task that waits for none is no depender.
no_depender :
    (tasks : List ℕ) (d : Depends) (child : ℕ)
    → IsCounted tasks d
    → occurs child tasks ≡ 1
    → d.num_dependees child ≡ 0
    → (u : ℕ) → occurs child (elems (d.dependers u)) ≡ 0
no_depender tasks d child v p z u = elim (ℕ-cases (occurs u tasks) 0) [
  | inl s ↦ v.idle u child s
  | inr s ↦ waits_of child u tasks d.dependers (sym (v.counted child p) ∙ z) (omega (arith, s))
]

-- What the two ways through the function share.
finished :
    (tasks : List ℕ) (d d₁ d' : Depends) (child : ℕ)
    → IsCounted tasks d
    → occurs child tasks ≡ 1
    → d.num_dependees child ≡ 0
    → Unchained child (d.depend child) tasks d d₁
    → d'.chain ≡ d₁.chain
    → d'.depend ≡ d.depend
    → ((u t : ℕ)
        → occurs t (elems (d'.dependers u))
          ≡ (if child == u then 0 else occurs t (elems (d.dependers u))))
    → ((t : ℕ) → waits t (less child tasks) d'.dependers ≡ waits t (less child tasks) d.dependers)
    → ((t : ℕ) → d'.num_dependees t ≡ d.num_dependees t - occurs t (elems (d.dependers child)))
    → IsCounted (less child tasks) d'
finished tasks d d₁ d' child v p z u c f w same n = record {
  once = λ t. let o = v.once t in let l = occurs-less t child tasks p in ground (arith, o, l);
  entries = λ a.
      let gone : entries_of child (d₁.chain a) ≡ 0 =
        let k = u.number child a in
        let q = v.placed child a p in ground (arith, k, q, ==_refl child) in
      subst (λ k. All (λ e. occurs e.task (less child tasks) ≡ 1) (k a)) (sym c)
        (without_child tasks child (d₁.chain a) p gone (u.every a));
  known = λ x t h.
      let l = occurs-less t child tasks p in
      let o = w x t in
      elim (ℕ-cases child t) [
        | inl s ↦
            let k : occurs t (elems (d.dependers x)) ≡ 0 =
              subst (λ y. occurs y (elems (d.dependers x)) ≡ 0) s
                (no_depender tasks d child v p z x) in
            ground (arith, o, k)
        | inr s ↦
            let k = v.known x t (ground (arith, l, h, ==_ne child t s)) in ground (arith, o, k)
      ];
  idle = λ x t h.
      let l = occurs-less x child tasks p in
      let o = w x t in
      elim (ℕ-cases child x) [
        | inl s ↦ ground (arith, o, subst (λ y. (child == y) ≡ true) s (==_refl child))
        | inr s ↦ let k = v.idle x t (ground (arith, l, h, ==_ne child x s)) in ground (arith, o, k)
      ];
  placed = λ t a h.
      let l = occurs-less t child tasks p in
      let k = u.number t a in
      elim (Bool-cases (child == t)) [
        | inl s ↦ absurd (ground (arith, l, h, s))
        | inr s ↦
            let q = v.placed t a (ground (arith, l, h, s)) in
            let k' : entries_of t (d'.chain a) ≡ entries_of t (d₁.chain a) =
              ap (λ y. entries_of t (y a)) c in
            let f' : filed a (d'.depend t) ≡ filed a (d.depend t) = ap (λ y. filed a (y t)) f in
            ground (arith, k, q, k', f', s)
      ];
  counted = λ t h.
      let l = occurs-less t child tasks p in
      elim (Bool-cases (child == t)) [
        | inl s ↦ absurd (ground (arith, l, h, s))
        | inr s ↦
            let q = v.counted t (ground (arith, l, h, s)) in
            let sum = waits-less t child tasks d.dependers p in
            let here = n t in let rest = same t in omega (arith, q, sum, here, rest)
      ];
}

-- The state after the entries of a task have left their chains.
abbrev unchained : ℕ → Depends → Depends
unchained child d = handle_depend_hash child (d.depend child) d

post_cons :
    (child : ℕ) (d : Depends) (c : ℕ × Bool) (cs : List (ℕ × Bool))
    → d.depend child ≡ c ∷ cs
    → post_handle_depend true child d ≡ handle_dependers child (unchained child d)
unfolding post_handle_depend
post_cons child d c cs e =
    subst
      (λ l.
        (elim l as (λ x. List ℕ × Depends) [
          | [] ↦ ([], d)
          | _ ∷ _ ↦ handle_dependers child (unchained child d)
        ])
        ≡ handle_dependers child (unchained child d))
      (sym e) refl

dependers_none :
    (child : ℕ) (d : Depends) → d.dependers child ≡ none → handle_dependers child d ≡ ([], d)
unfolding handle_dependers
dependers_none child d f = rw (f, handle_dependers) refl

dependers_some :
    (child : ℕ) (d : Depends) (elem : List ℕ)
    → d.dependers child ≡ some elem
    → handle_dependers child d ≡ (
      (release elem d).0,
      record (release elem d).1 { dependers = update (release elem d).1.dependers child none },
    )
unfolding handle_dependers
dependers_some child d elem f = rw (f, handle_dependers) refl

-- `gomp_task_run_post_handle_depend` of a task that waits for none and whose
-- parent is there: the counters, lists and chains
-- are right for the tasks that are left, and released are those tasks that waited for it and for no
-- other.
pub post_handle_depend-IsCounted :
    (tasks : List ℕ) (d : Depends) (child : ℕ) (c : ℕ × Bool) (cs : List (ℕ × Bool))
    → IsCounted tasks d
    → occurs child tasks ≡ 1
    → d.num_dependees child ≡ 0
    → d.depend child ≡ c ∷ cs
    → let (ready, d') = post_handle_depend true child d in
      IsCounted (less child tasks) d' × Releases ready tasks child d
post_handle_depend-IsCounted tasks d child c cs v p z e =
    let d₁ = unchained child d in
    let u = handle_depend_hash-Unchained (d.depend child) child tasks d (v.entries) in
    let kept : d₁.dependers child ≡ d.dependers child = ap (λ y. y child) (u.same_dependers) in
    elim (Option-cases (d.dependers child)) [
      | inl f ↦
          let nobody : (t : ℕ) → occurs t (elems (d.dependers child)) ≡ 0 =
            λ t. ap (λ o. occurs t (elems o)) f in
          subst (λ r. IsCounted (less child tasks) r.1 × Releases r.0 tasks child d)
            (sym (post_cons child d c cs e ∙ dependers_none child d₁ (kept ∙ f)))
            (
              finished tasks d d₁ d₁ child v p z u refl (u.same_depend)
                  (λ x t.
                    let o = ap (λ y. occurs t (elems (y x))) (u.same_dependers) in
                    elim (ℕ-cases child x) [
                      | inl s ↦
                          let m = ap (λ y. occurs t (elems (d.dependers y))) s in
                          let b = nobody t in
                          ground
                            (arith, o, m, b, subst (λ y. (child == y) ≡ true) s (==_refl child))
                      | inr s ↦ ground (arith, o, ==_ne child x s)
                    ])
                  (λ t. ap (λ y. waits t (less child tasks) y) (u.same_dependers))
                  (λ t.
                    let n = ap (λ y. y t) (u.same_counters) in
                    let o = nobody t in omega (arith, n, o)),
              λ t h. let o = nobody t in ground (arith, o),
            )
      | inr (elem, f) ↦
          let list : (t : ℕ) → occurs t (elems (d.dependers child)) ≡ occurs t elem =
            λ t. ap (λ o. occurs t (elems o)) f in
          let counter : (t : ℕ) → d₁.num_dependees t ≡ d.num_dependees t =
            λ t. ap (λ y. y t) (u.same_counters) in
          let r = release-Released elem d₁ (λ t.
            let k = enough tasks d child v p t in
            let l = list t in let n = counter t in omega (arith, k, l, n)) in
          let (ready, d₂) = release elem d₁ in
          let d' : Depends = record d₂ { dependers = update d₂.dependers child none } in
          let same : d₂.dependers ≡ d.dependers = r.same_dependers ∙ u.same_dependers in
          subst (λ r. IsCounted (less child tasks) r.1 × Releases r.0 tasks child d)
            (sym (post_cons child d c cs e ∙ dependers_some child d₁ elem (kept ∙ f)))
            (
              finished tasks d d₁ d' child v p z u (r.same_chain) (r.same_depend ∙ u.same_depend)
                  (λ x t.
                    let o = ap (λ y. occurs t (elems (y x))) same in
                    elim (Bool-cases (child == x)) [ inl s ↦ rw s refl | inr s ↦ rw s o ])
                  (λ t.
                    waits-frame t child (less child tasks) d₂.dependers none
                      (let k = occurs-less child child tasks p in ground (arith, k, ==_refl child))
                    ∙ ap (λ y. waits t (less child tasks) y) same)
                  (λ t.
                    let n = counter t in
                    let m = r.counters t in let l = list t in omega (arith, n, m, l)),
              λ t h.
                  let w = r.which t in
                  let l = list t in
                  let n = counter t in
                  let q = v.counted t h in
                  let sum = waits-less t child tasks d.dependers p in
                  ground (arith, w, l, n, q, sum),
            )
    ]

-- No task gets a depender.
pub post_handle_depend-fewer :
    (tasks : List ℕ) (d : Depends) (child : ℕ) (c : ℕ × Bool) (cs : List (ℕ × Bool))
    → IsCounted tasks d
    → occurs child tasks ≡ 1
    → d.depend child ≡ c ∷ cs
    → (u t : ℕ) → occurs t (elems (d.dependers u)) ≡ 0
    → occurs t (elems ((post_handle_depend true child d).1.dependers u)) ≡ 0
post_handle_depend-fewer tasks d child c cs v p e x t z =
    let d₁ = unchained child d in
    let u = handle_depend_hash-Unchained (d.depend child) child tasks d (v.entries) in
    let kept : d₁.dependers ≡ d.dependers = u.same_dependers in
    elim (Option-cases (d.dependers child)) [
      | inl f ↦
          subst (λ r. occurs t (elems (r.1.dependers x)) ≡ 0)
            (sym (post_cons child d c cs e ∙ dependers_none child d₁ (ap (λ y. y child) kept ∙ f)))
            (ap (λ y. occurs t (elems (y x))) kept ∙ z)
      | inr (elem, f) ↦
          let list : (t : ℕ) → occurs t (elems (d.dependers child)) ≡ occurs t elem =
            λ t. ap (λ o. occurs t (elems o)) f in
          let counter : (t : ℕ) → d₁.num_dependees t ≡ d.num_dependees t =
            λ t. ap (λ y. y t) (u.same_counters) in
          let r = release-Released elem d₁ (λ t.
            let k = enough tasks d child v p t in
            let l = list t in let n = counter t in omega (arith, k, l, n)) in
          let same : (release elem d₁).1.dependers ≡ d.dependers = r.same_dependers ∙ kept in
          subst (λ r. occurs t (elems (r.1.dependers x)) ≡ 0)
            (sym (
              post_cons child d c cs e ∙ dependers_some child d₁ elem (ap (λ y. y child) kept ∙ f)))
            (elim (Bool-cases (child == x)) [
              | inl s ↦ rw s refl
              | inr s ↦ rw s (ap (λ y. occurs t (elems (y x))) same ∙ z)
            ])
    ]
