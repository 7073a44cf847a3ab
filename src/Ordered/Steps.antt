-- ===== src/Ordered/Steps.antt =====
-- The ordered section in every state that a team reaches.
use ulmt_open_mp_gcc.Base.{
  ℕ, zero, suc, ◌-◌, ◌≤◌, ◌<◌, ◌≡◌, ◌≢◌, refl, sym, ap, subst, ◌∙◌, ◌⊎◌, inl, inr, true, false,
  ◌==◌, ==_ne, update, arith, List, [], ◌∷◌, ◌++◌, length, NotIn, Distinct, All, All-append,
  All-left, All-right, Distinct-out, Distinct-swap, find_split, none, some, ℕ-cases, Gives,
}
use ulmt_open_mp_gcc.Ordered.{
  OrderedShare, ordered_first, ordered_last, ordered_next, ordered_sync, queue, Step, first, sync,
  next, last, Reaches, done, more, fresh,
}
use ulmt_open_mp_gcc.Ordered.Ring.{length-read}
use ulmt_open_mp_gcc.Ordered.Fair.{
  Token, IsFair, Becomes, owner_front, rotate, drop_first, first_lem, last_lem, next_lem,
}

-- Different numbers below `n` are at most `n`.
lower : (n : ℕ) (xs : List ℕ) → NotIn n xs → All (λ x. x < suc n) xs → All (λ x. x < n) xs
lower n [] h a = tt
lower n (x ∷ xs) h a = (omega (arith, h.0, a.0), lower n xs h.1 a.1)

length-middle :
    (us : List ℕ) (x : ℕ) (cs : List ℕ) → length (us ++ x ∷ cs) ≡ suc (length (us ++ cs))
length-middle [] x cs = refl
length-middle (u ∷ us) x cs = ap suc (length-middle us x cs)

length-Distinct : (n : ℕ) (xs : List ℕ) → Distinct xs → All (λ x. x < n) xs → length xs ≤ n
length-Distinct zero [] d a = omega arith
length-Distinct zero (x ∷ xs) d a = absurd (omega (arith, a.0))
length-Distinct (suc n) xs d a = elim (find_split n xs) [
  | inl h ↦ let shorter = length-Distinct n xs d (lower n xs h a) in omega (arith, shorter)
  | inr (us, cs, e) ↦
      let (d', h) = Distinct-out n us cs (subst (λ l. Distinct l) e d) in
      let a' = subst (λ l. All (λ x. x < suc n) l) e a in
      let rest =
        All-append (λ x. x < suc n) us cs (All-left (λ x. x < suc n) us (n ∷ cs) a')
          ((All-right (λ x. x < suc n) us (n ∷ cs) a').1) in
      let shorter = length-Distinct n (us ++ cs) d' (lower n (us ++ cs) h rest) in
      let long = ap length e ∙ length-middle us n cs in omega (arith, shorter, long)
]

room :
    (n : ℕ) (small : n < 2147483648) (ws : OrderedShare) (id : ℕ)
    → IsFair n ws
    → id < n
    → NotIn id (queue n ws)
    → ws.ordered_num_used < n
room n small ws id v l h =
    let few = length-Distinct n (id ∷ queue n ws) (h, v.distinct) (l, v.members) in
    let long = length-read n small ws.ordered_team_ids ws.ordered_cur ws.ordered_num_used in
    omega (arith, few, long)

Becomes-IsFair :
    (n : ℕ) (ws : OrderedShare) (q : List ℕ)
    → Becomes n ws q
    → Distinct q
    → All (λ x. x < n) q
    → IsFair n ws
Becomes-IsFair n ws q b d a = record {
  cur = b.new_cur;
  fits = b.new_fits;
  distinct = subst (λ l. Distinct l) (sym (b.new_queue)) d;
  members = subst (λ l. All (λ x. x < n) l) (sym (b.new_queue)) a;
  token =
      subst (λ l. Token ws.ordered_owner ws.ordered_release l) (sym (b.new_queue)) (b.new_token);
}

All-rotate : (n : ℕ) (q : List ℕ) → All (λ x. x < n) q → All (λ x. x < n) (rotate q)
All-rotate n [] a = tt
All-rotate n (x ∷ q) a = All-append (λ x. x < n) q (x ∷ []) a.1 (a.0, tt)

All-drop_first : (n : ℕ) (q : List ℕ) → All (λ x. x < n) q → All (λ x. x < n) (drop_first q)
All-drop_first n [] a = tt
All-drop_first n (x ∷ q) a = a.1

rotate-Distinct : (q : List ℕ) → Distinct q → Distinct (rotate q)
rotate-Distinct [] d = tt
rotate-Distinct (x ∷ q) d = Distinct-swap (x ∷ []) q d

drop_first-Distinct : (q : List ℕ) → Distinct q → Distinct (drop_first q)
drop_first-Distinct [] d = tt
drop_first-Distinct (x ∷ q) d = d.1

-- The thread whose turn it is gets in, any other waits.
abbrev pub Turn : ℕ → OrderedShare → ℕ → Type 0
Turn n ws id =
    ((q : List ℕ) × (queue n ws ≡ id ∷ q)
      × Gives (ordered_sync n id ws)
          (λ ws'. IsFair n ws' × (ws'.ordered_owner ≡ id) × (queue n ws' ≡ queue n ws)))
    ⊎ (((q : List ℕ) → queue n ws ≢ id ∷ q) × (ordered_sync n id ws ≡ none))

-- What each step makes of the threads in the ring, for the thread that takes it.
abbrev pub Move : {n : ℕ} {a b : OrderedShare} → Step n a b → List ℕ → List ℕ → Type 0
Move (first ws id l h) q q' = NotIn id q × (q' ≡ q ++ id ∷ [])
Move (sync ws ws' id l e) q q' = (r : List ℕ) × (q ≡ id ∷ r) × (q' ≡ q)
Move (next ws id l e) q q' = (r : List ℕ) × (q ≡ id ∷ r) × (q' ≡ r ++ id ∷ [])
Move (last ws id l e) q q' = (r : List ℕ) × (q ≡ id ∷ r) × (q' ≡ r)

module _ (n : ℕ) (small : n < 2147483648) (several : 1 < n) where
  -- The state of a thread that got in.
  abbrev entered : OrderedShare → ℕ → OrderedShare
  entered ws id = record ws {
    ordered_owner = id;
    ordered_release = update ws.ordered_release id (ws.ordered_release id - 1);
  }

  sync_own : (ws : OrderedShare) (id : ℕ) → ws.ordered_owner ≡ id → ordered_sync n id ws ≡ some ws
  unfolding ordered_sync
  sync_own ws id e =
      let not_one : (n == 1) ≡ false = ground (arith, several) in
      let own : (ws.ordered_owner == id) ≡ true = ground (arith, e) in rw (not_one, own)

  sync_none :
      (ws : OrderedShare) (id : ℕ)
      → ws.ordered_owner ≢ id
      → ws.ordered_release id ≡ 0
      → ordered_sync n id ws ≡ none
  unfolding ordered_sync
  sync_none ws id e f =
      let not_one : (n == 1) ≡ false = ground (arith, several) in
      let own : (ws.ordered_owner == id) ≡ false = ==_ne ws.ordered_owner id e in
      let closed : (ws.ordered_release id == 0) ≡ true = ground (arith, f) in
      rw (not_one, own, closed)

  sync_some :
      (ws : OrderedShare) (id : ℕ)
      → ws.ordered_owner ≢ id
      → ws.ordered_release id ≡ 1
      → ordered_sync n id ws ≡ some (entered ws id)
  unfolding ordered_sync
  sync_some ws id e f =
      let not_one : (n == 1) ≡ false = ground (arith, several) in
      let own : (ws.ordered_owner == id) ≡ false = ==_ne ws.ordered_owner id e in
      let closed : (ws.ordered_release id == 0) ≡ false = ground (arith, f) in
      rw (not_one, own, closed)

  other : (x id : ℕ) (q q' : List ℕ) → x ≢ id → x ∷ q ≢ id ∷ q'
  other x id q q' h e = h (cc e)

  Token-Turn :
      (ws : OrderedShare) (id : ℕ) (q : List ℕ)
      → IsFair n ws
      → id < n
      → queue n ws ≡ q
      → Token ws.ordered_owner ws.ordered_release q
      → Turn n ws id
  Token-Turn ws id [] v l e t =
      inr ((λ q f. absurd (cc (e, f))), sync_none ws id (ground (arith, t.0, l, small)) (t.1 id))
  Token-Turn ws id (x ∷ q) v l e (inl t) = elim (ℕ-cases x id) [
    | inl s ↦
        let got : OrderedShare = entered ws id in
        inl (
          q,
          e ∙ ap (λ z. z ∷ q) s,
          (
            got,
            sync_some ws id (ground (arith, t.0, l, small)) (t.1 id ∙ ground (arith, s)),
            (
              record {
                cur = v.cur;
                fits = v.fits;
                distinct = v.distinct;
                members = v.members;
                token =
                    subst (λ z. Token id got.ordered_release z) (sym e)
                      (inr (sym s, λ i. ground (arith, s, t.1 i, t.1 id)));
              },
              refl,
              refl,
            ),
          ),
        )
    | inr s ↦ inr (
      (λ q' f. other x id q q' s (sym e ∙ f)),
      sync_none ws id (ground (arith, t.0, l, small)) (t.1 id ∙ ground (arith, s)),
    )
  ]
  Token-Turn ws id (x ∷ q) v l e (inr t) = elim (ℕ-cases x id) [
    | inl s ↦ inl (q, e ∙ ap (λ z. z ∷ q) s, (ws, sync_own ws id (t.0 ∙ s), (v, t.0 ∙ s, refl)))
    | inr s ↦
        inr (
          (λ q' f. other x id q q' s (sym e ∙ f)),
          sync_none ws id (λ o. s (sym (t.0) ∙ o)) (t.1 id),
        )
  ]

  IsFair-Turn : (ws : OrderedShare) (id : ℕ) → IsFair n ws → id < n → Turn n ws id
  IsFair-Turn ws id v l = Token-Turn ws id (queue n ws) v l refl (v.token)

  pub fresh-IsFair : IsFair n fresh
  fresh-IsFair = record {
    cur = omega (arith, several);
    fits = omega arith;
    distinct = tt;
    members = tt;
    token = (refl, λ i. refl);
  }

  joined :
      (ws : OrderedShare) (id : ℕ)
      → IsFair n ws
      → id < n
      → NotIn id (queue n ws)
      → IsFair n (ordered_first n id ws)
  joined ws id v l h =
      Becomes-IsFair n (ordered_first n id ws) (queue n ws ++ id ∷ [])
        (first_lem n small several ws id v (room n small ws id v l h))
        (Distinct-swap (id ∷ []) (queue n ws) (h, v.distinct))
        (All-append (λ x. x < n) (queue n ws) (id ∷ []) (v.members) (l, tt))

  passed :
      (ws : OrderedShare) (id : ℕ)
      → IsFair n ws
      → id < n
      → ws.ordered_owner ≡ id
      → IsFair n (ordered_next n id ws)
  passed ws id v l e =
      Becomes-IsFair n (ordered_next n id ws) (rotate (queue n ws))
        (next_lem n small several ws id v l e) (rotate-Distinct (queue n ws) (v.distinct))
        (All-rotate n (queue n ws) (v.members))

  gone :
      (ws : OrderedShare) (id : ℕ)
      → IsFair n ws
      → id < n
      → ws.ordered_owner ≡ id
      → IsFair n (ordered_last n id ws)
  gone ws id v l e =
      Becomes-IsFair n (ordered_last n id ws) (drop_first (queue n ws))
        (last_lem n small several ws id v l e) (drop_first-Distinct (queue n ws) (v.distinct))
        (All-drop_first n (queue n ws) (v.members))

  entered-IsFair :
      (ws ws' : OrderedShare) (id : ℕ)
      → Turn n ws id
      → ordered_sync n id ws ≡ some ws'
      → IsFair n ws' × (queue n ws' ≡ queue n ws)
  entered-IsFair ws ws' id (inl (q, e, g)) f =
      let same : g.0 ≡ ws' = cc (g.1, f) in
      subst (λ w. IsFair n w × (queue n w ≡ queue n ws)) same (g.2.0, g.2.2)
  entered-IsFair ws ws' id (inr (h, e)) f = absurd (cc (e, f))

  pub Step-IsFair : (a b : OrderedShare) → IsFair n a → Step n a b → IsFair n b
  Step-IsFair a b v (first ws id l h) = joined ws id v l h
  Step-IsFair a b v (sync ws ws' id l e) = (entered-IsFair ws ws' id (IsFair-Turn ws id v l) e).0
  Step-IsFair a b v (next ws id l e) = passed ws id v l e
  Step-IsFair a b v (last ws id l e) = gone ws id v l e

  Reaches-IsFair : (a b : OrderedShare) → IsFair n a → Reaches n a b → IsFair n b
  Reaches-IsFair a b v (done ws) = v
  Reaches-IsFair a b v (more p m q r s) = Step-IsFair m q (Reaches-IsFair p m v r) s

  entered-Move :
      (ws ws' : OrderedShare) (id : ℕ)
      → Turn n ws id
      → ordered_sync n id ws ≡ some ws'
      → (r : List ℕ) × (queue n ws ≡ id ∷ r) × (queue n ws' ≡ queue n ws)
  entered-Move ws ws' id (inl (q, e, g)) f =
      let same : g.0 ≡ ws' = cc (g.1, f) in (q, e, subst (λ w. queue n w ≡ queue n ws) same g.2.2)
  entered-Move ws ws' id (inr (h, e)) f = absurd (cc (e, f))

  moves : (a b : OrderedShare) → IsFair n a → (s : Step n a b) → Move s (queue n a) (queue n b)
  moves a b v (first ws id l h) =
      (h, (first_lem n small several ws id v (room n small ws id v l h)).new_queue)
  moves a b v (sync ws ws' id l e) = entered-Move ws ws' id (IsFair-Turn ws id v l) e
  moves a b v (next ws id l e) =
      let (q, f) = owner_front n small several ws id v l e in
      (q, f, (next_lem n small several ws id v l e).new_queue ∙ ap rotate f)
  moves a b v (last ws id l e) =
      let (q, f) = owner_front n small several ws id v l e in
      (q, f, (last_lem n small several ws id v l e).new_queue ∙ ap drop_first f)

-- In every state that a team of at least 2 threads reaches, each thread that is not the first of the
-- ring is made to wait by ordered_sync, and the one that is first gets in without waiting, owns the
-- section and leaves the ring as it is.
pub ordered_sync-Turn :
    (n : ℕ) (ws : OrderedShare) (id : ℕ)
    → n < 2147483648
    → 1 < n
    → Reaches n fresh ws
    → id < n
    → Turn n ws id
ordered_sync-Turn n ws id small several r l =
    IsFair-Turn n small several ws id
      (Reaches-IsFair n small several fresh ws (fresh-IsFair n small several) r) l

-- In a reachable state of a team of at least 2 threads, ordered_first of a thread that is not in the
-- ring puts it behind the others, and a thread that gets through ordered_sync, or that calls
-- ordered_next or ordered_last as the owner, is the first of the ring: ordered_sync leaves the ring as
-- it is, ordered_next puts the thread behind the others, and ordered_last takes it out. The others stay
-- in order.
pub queue-Move :
    (n : ℕ) (a b : OrderedShare)
    → n < 2147483648
    → 1 < n
    → Reaches n fresh a
    → (s : Step n a b) → Move s (queue n a) (queue n b)
queue-Move n a b small several r s =
    moves n small several a b
      (Reaches-IsFair n small several fresh a (fresh-IsFair n small several) r) s

-- In a reachable state, ordered_next of the owner leaves the same ring as ordered_last and then
-- ordered_first.
pub ordered_first-ordered_last :
    (n : ℕ) (ws : OrderedShare) (id : ℕ)
    → n < 2147483648
    → 1 < n
    → Reaches n fresh ws
    → id < n
    → ws.ordered_owner ≡ id
    → queue n (ordered_first n id (ordered_last n id ws)) ≡ queue n (ordered_next n id ws)
ordered_first-ordered_last n ws id small several r l e =
    let v = Reaches-IsFair n small several fresh ws (fresh-IsFair n small several) r in
    let (q, f) = owner_front n small several ws id v l e in
    let out : queue n (ordered_last n id ws) ≡ q =
      (last_lem n small several ws id v l e).new_queue ∙ ap drop_first f in
    let w = gone n small several ws id v l e in
    let absent : NotIn id q = (subst (λ c. Distinct c) f (v.distinct)).0 in
    let absent' : NotIn id (queue n (ordered_last n id ws)) =
      subst (λ c. NotIn id c) (sym out) absent in
    (first_lem n small several (ordered_last n id ws) id w
      (room n small (ordered_last n id ws) id w l absent')).new_queue
    ∙ ap (λ c. c ++ id ∷ []) out
    ∙ sym ((next_lem n small several ws id v l e).new_queue ∙ ap rotate f)
