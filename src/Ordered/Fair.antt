-- ===== src/Ordered/Fair.antt =====
-- Each function on the ring as a change of its queue and of the token that lets one thread in.
use ulmt_open_mp_gcc.Base.{
  ℕ, zero, suc, ◌≤◌, ◌<◌, ◌≡◌, refl, sym, ap, ap₂, subst, ◌∙◌, ◌⊎◌, inl, inr, true, false,
  if◌then◌else◌, ltb, ◌==◌, ==_refl, update, arith, List, [], ◌∷◌, ◌++◌, Distinct, All, Bool-cases,
}
use ulmt_open_mp_gcc.Ordered.{
  OrderedShare, add, sub, no_owner, post, end_index, register, next_index, pass_on, ordered_first,
  ordered_last, ordered_next, read, queue,
}
use ulmt_open_mp_gcc.Ordered.Ring.{place, next_index-lt, read-snoc, read-frame}

-- One token for a queue that is not empty: its first thread has a post on its semaphore, or owns the
-- section.
abbrev pub Token : ℕ → (ℕ → ℕ) → List ℕ → Type 0
Token owner release [] = (owner ≡ no_owner) × ((i : ℕ) → release i ≡ 0)
Token owner release (x ∷ q) =
    ((owner ≡ no_owner) × ((i : ℕ) → release i ≡ (if x == i then 1 else 0)))
    ⊎ ((owner ≡ x) × ((i : ℕ) → release i ≡ 0))

pub record IsFair (n : ℕ) (ws : OrderedShare) : Type 0 where
  pub cur : ws.ordered_cur < n
  pub fits : ws.ordered_num_used ≤ n
  pub distinct : Distinct (queue n ws)
  pub members : All (λ x. x < n) (queue n ws)
  pub token : Token ws.ordered_owner ws.ordered_release (queue n ws)

-- What a step makes of the queue.
pub record Becomes (n : ℕ) (ws : OrderedShare) (q : List ℕ) : Type 0 where
  pub new_queue : queue n ws ≡ q
  pub new_cur : ws.ordered_cur < n
  pub new_fits : ws.ordered_num_used ≤ n
  pub new_token : Token ws.ordered_owner ws.ordered_release q

pub ℕ-split : (n : ℕ) → (n ≡ 0) ⊎ ((k : ℕ) × (n ≡ suc k))
ℕ-split zero = inl refl
ℕ-split (suc k) = inr (k, refl)

posted :
    (release : ℕ → ℕ) (x : ℕ)
    → ((i : ℕ) → release i ≡ 0)
    → (i : ℕ) → update release x (suc (release x)) i ≡ (if x == i then 1 else 0)
posted release x f i = ground (arith, f x, f i)

abbrev pub rotate : List ℕ → List ℕ
rotate [] = []
rotate (x ∷ q) = q ++ x ∷ []

abbrev pub drop_first : List ℕ → List ℕ
drop_first [] = []
drop_first (x ∷ q) = q

-- Whoever is woken holds the token.
pass_on_lem :
    (n : ℕ) (small : n < 2147483648) (ws : OrderedShare) (k : ℕ) (q : List ℕ)
    → ws.ordered_cur < n
    → ws.ordered_num_used ≡ suc k
    → suc k ≤ n
    → ws.ordered_owner ≡ no_owner
    → ((i : ℕ) → ws.ordered_release i ≡ 0)
    → read ws.ordered_team_ids n (next_index n ws.ordered_cur) (suc k) ≡ q
    → Becomes n (pass_on n ws) q
pass_on_lem n small ws k q c e l o f r =
    let cur' = next_index n ws.ordered_cur in
    record {
      new_queue = ap (λ z. read ws.ordered_team_ids n cur' z) e ∙ r;
      new_cur = next_index-lt n small ws.ordered_cur c;
      new_fits = subst (λ z. z ≤ n) (sym e) l;
      new_token =
          subst (λ z. Token ws.ordered_owner (pass_on n ws).ordered_release z) r
            (inl (o, posted ws.ordered_release (ws.ordered_team_ids cur') f));
    }

module _ (n : ℕ) (small : n < 2147483648) (several : 1 < n) (ws : OrderedShare) (id : ℕ) where
  registered :
      ws.ordered_cur < n
      → ws.ordered_num_used < n
      → read (register n ws id).ordered_team_ids n ws.ordered_cur (suc ws.ordered_num_used)
        ≡ queue n ws ++ id ∷ []
  registered c f =
      let j = place n ws.ordered_cur ws.ordered_num_used in
      let at : end_index n ws ≡ j = ground (arith, c, f, small) in
      ap (λ z. read (update ws.ordered_team_ids z id) n ws.ordered_cur (suc ws.ordered_num_used)) at
      ∙ read-snoc n small (update ws.ordered_team_ids j id) ws.ordered_cur ws.ordered_num_used c f
      ∙ ap₂ (λ u v. u ++ v ∷ [])
          (read-frame n small ws.ordered_team_ids id ws.ordered_cur ws.ordered_num_used
            ws.ordered_num_used c (omega arith) f)
          (ground (arith, ==_refl j))

  -- The thread behind the others.
  abbrev added : OrderedShare
  added = record (register n ws id) { ordered_num_used = suc ws.ordered_num_used }

  first_empty : ws.ordered_num_used ≡ 0 → ordered_first n id ws ≡ post added id
  unfolding ordered_first
  first_empty e =
      let not_one : (n == 1) ≡ false = ground (arith, several) in
      let zero_used : (ws.ordered_num_used == 0) ≡ true = ground (arith, e) in
      let one : add ws.ordered_num_used 1 ≡ suc ws.ordered_num_used = ground (arith, e) in
      rw (not_one, zero_used, one)

  first_more :
      (k : ℕ)
      → ws.ordered_num_used ≡ suc k
      → ws.ordered_num_used < n
      → ordered_first n id ws ≡ added
  unfolding ordered_first
  first_more k e f =
      let not_one : (n == 1) ≡ false = ground (arith, several) in
      let zero_used : (ws.ordered_num_used == 0) ≡ false = ground (arith, e) in
      let one : add ws.ordered_num_used 1 ≡ suc ws.ordered_num_used = ground (arith, f, small) in
      rw (not_one, zero_used, one)

  pub first_lem :
      IsFair n ws
      → ws.ordered_num_used < n
      → Becomes n (ordered_first n id ws) (queue n ws ++ id ∷ [])
  first_lem v f = elim (ℕ-split ws.ordered_num_used) [
    | inl e ↦
        let none_there : queue n ws ≡ [] =
          ap (λ k. read ws.ordered_team_ids n ws.ordered_cur k) e in
        let free : Token ws.ordered_owner ws.ordered_release [] =
          subst (λ q. Token ws.ordered_owner ws.ordered_release q) none_there (v.token) in
        subst (λ z. Becomes n z (queue n ws ++ id ∷ [])) (sym (first_empty e))
          (record {
            new_queue = registered (v.cur) f;
            new_cur = v.cur;
            new_fits = omega (arith, f);
            new_token =
                subst (λ q. Token ws.ordered_owner (post added id).ordered_release (q ++ id ∷ []))
                  (sym none_there) (inl (free.0, posted ws.ordered_release id (free.1)));
          })
    | inr (k, e) ↦
        let some_there : queue n ws ≡ read ws.ordered_team_ids n ws.ordered_cur (suc k) =
          ap (λ k. read ws.ordered_team_ids n ws.ordered_cur k) e in
        subst (λ z. Becomes n z (queue n ws ++ id ∷ [])) (sym (first_more k e f))
          (record {
            new_queue = registered (v.cur) f;
            new_cur = v.cur;
            new_fits = omega (arith, f);
            new_token =
                subst (λ q. Token ws.ordered_owner ws.ordered_release (q ++ id ∷ []))
                  (sym some_there)
                  (subst (λ q. Token ws.ordered_owner ws.ordered_release q) some_there (v.token));
          })
  ]

  -- The owner is the first of the queue, and no semaphore has a post.
  record Owns : Type 0 where
    others : ℕ
    count : ws.ordered_num_used ≡ suc others
    at_front : ws.ordered_team_ids ws.ordered_cur ≡ id
    silent : (i : ℕ) → ws.ordered_release i ≡ 0

  owner-Owns : IsFair n ws → id < n → ws.ordered_owner ≡ id → Owns
  owner-Owns v l e = elim (ℕ-split ws.ordered_num_used) [
    | inl z ↦
        let free =
          subst (λ q. Token ws.ordered_owner ws.ordered_release q)
            (ap (λ k. read ws.ordered_team_ids n ws.ordered_cur k) z) (v.token) in
        absurd (ground (arith, e, free.0, l, small))
    | inr (k, z) ↦
        elim (subst (λ q. Token ws.ordered_owner ws.ordered_release q)
          (ap (λ k. read ws.ordered_team_ids n ws.ordered_cur k) z) (v.token)) [
            | inl t ↦ absurd (ground (arith, e, t.0, l, small))
            | inr t ↦ record { others = k; count = z; at_front = sym (t.0) ∙ e; silent = t.1 }
          ]
  ]

  queue-split :
      (o : Owns)
      → queue n ws ≡ id ∷ read ws.ordered_team_ids n (next_index n ws.ordered_cur) (o.others)
  queue-split o =
      ap (λ k. read ws.ordered_team_ids n ws.ordered_cur k) (o.count)
      ∙ ap (λ z. z ∷ read ws.ordered_team_ids n (next_index n ws.ordered_cur) (o.others))
          (o.at_front)

  pub owner_front :
      IsFair n ws → id < n → ws.ordered_owner ≡ id → (q : List ℕ) × (queue n ws ≡ id ∷ q)
  owner_front v l e =
      let o = owner-Owns v l e in
      (read ws.ordered_team_ids n (next_index n ws.ordered_cur) (o.others), queue-split o)

  -- The state of the owner that gives the section up.
  abbrev left : OrderedShare
  left = record ws { ordered_owner = no_owner; ordered_num_used = sub ws.ordered_num_used 1 }

  abbrev stays : OrderedShare
  stays = record ws { ordered_owner = no_owner }

  last_alone : ws.ordered_num_used ≡ 1 → ordered_last n id ws ≡ left
  unfolding ordered_last
  last_alone e =
      let not_one : (n == 1) ≡ false = ground (arith, several) in
      let none_left : ltb 0 (sub ws.ordered_num_used 1) ≡ false = ground (arith, e) in
      rw (not_one, none_left)

  last_more :
      (k : ℕ)
      → ws.ordered_num_used ≡ suc (suc k)
      → ws.ordered_num_used ≤ n
      → ordered_last n id ws ≡ pass_on n left
  unfolding ordered_last
  last_more k e f =
      let not_one : (n == 1) ≡ false = ground (arith, several) in
      let some_left : ltb 0 (sub ws.ordered_num_used 1) ≡ true = ground (arith, e, f, small) in
      rw (not_one, some_left)

  pub last_lem :
      IsFair n ws
      → id < n
      → ws.ordered_owner ≡ id
      → Becomes n (ordered_last n id ws) (drop_first (queue n ws))
  last_lem v l e =
      let o = owner-Owns v l e in
      let one_less : sub ws.ordered_num_used 1 ≡ o.others =
        ground (arith, o.count, v.fits, small) in
      elim (ℕ-split (o.others)) [
        | inl z ↦
            let alone : ws.ordered_num_used ≡ 1 = o.count ∙ ap suc z in
            subst (λ w. Becomes n w (drop_first (queue n ws))) (sym (last_alone alone))
              (record {
                new_queue =
                    ap (λ k. read ws.ordered_team_ids n ws.ordered_cur k) (one_less ∙ z)
                    ∙ sym (
                        ap drop_first (queue-split o)
                        ∙ ap (λ k. read ws.ordered_team_ids n (next_index n ws.ordered_cur) k) z);
                new_cur = v.cur;
                new_fits = ground (arith, one_less, z);
                new_token =
                    subst (λ q. Token no_owner ws.ordered_release q)
                      (sym (
                        ap drop_first (queue-split o)
                        ∙ ap (λ k. read ws.ordered_team_ids n (next_index n ws.ordered_cur) k) z))
                      (refl, o.silent);
              })
        | inr (k, z) ↦
            subst (λ w. Becomes n w (drop_first (queue n ws)))
              (sym (last_more k (o.count ∙ ap suc z) (v.fits)))
              (pass_on_lem n small left k (drop_first (queue n ws)) (v.cur) (one_less ∙ z)
                (omega (arith, o.count, z, v.fits)) refl (o.silent)
                (sym (
                  ap drop_first (queue-split o)
                  ∙ ap (λ k. read ws.ordered_team_ids n (next_index n ws.ordered_cur) k) z)))
      ]

  next_alone : ws.ordered_num_used ≡ 1 → ordered_next n id ws ≡ post stays id
  unfolding ordered_next
  next_alone e =
      let not_one : (n == 1) ≡ false = ground (arith, several) in
      let alone : (ws.ordered_num_used == 1) ≡ true = ground (arith, e) in rw (not_one, alone)

  next_more :
      (k : ℕ)
      → ws.ordered_num_used ≡ suc (suc k)
      → ordered_next n id ws
        ≡ pass_on n (if ltb ws.ordered_num_used n then register n stays id else stays)
  unfolding ordered_next
  next_more k e =
      let not_one : (n == 1) ≡ false = ground (arith, several) in
      let alone : (ws.ordered_num_used == 1) ≡ false = ground (arith, e) in rw (not_one, alone)

  -- The queue from the next place on, when the owner is written behind a ring that has room, and when
  -- it is full.
  behind_room :
      (o : Owns)
      → ws.ordered_cur < n
      → ws.ordered_num_used < n
      → read (register n stays id).ordered_team_ids n (next_index n ws.ordered_cur) (suc (o.others))
        ≡ rotate (queue n ws)
  behind_room o c f =
      ap drop_first (
        ap (λ k. read (register n ws id).ordered_team_ids n ws.ordered_cur (suc k)) (sym (o.count))
        ∙ registered c f
        ∙ ap (λ q. q ++ id ∷ []) (queue-split o))
      ∙ sym (ap rotate (queue-split o))

  behind_full :
      (o : Owns)
      → ws.ordered_cur < n
      → ws.ordered_num_used ≡ n
      → read ws.ordered_team_ids n (next_index n ws.ordered_cur) (suc (o.others))
        ≡ rotate (queue n ws)
  behind_full o c f =
      let cur' = next_index n ws.ordered_cur in
      let full : suc (o.others) ≡ n = sym (o.count) ∙ f in
      let round : place n cur' (o.others) ≡ ws.ordered_cur = ground (arith, full, c, small) in
      read-snoc n small ws.ordered_team_ids cur' (o.others) (next_index-lt n small ws.ordered_cur c)
        (omega (arith, full))
      ∙ ap (λ z. read ws.ordered_team_ids n cur' (o.others) ++ z ∷ [])
          (ap ws.ordered_team_ids round ∙ o.at_front)
      ∙ sym (ap rotate (queue-split o))

  pub next_lem :
      IsFair n ws
      → id < n
      → ws.ordered_owner ≡ id
      → Becomes n (ordered_next n id ws) (rotate (queue n ws))
  next_lem v l e =
      let o = owner-Owns v l e in
      elim (ℕ-split (o.others)) [
        | inl z ↦
            let alone : ws.ordered_num_used ≡ 1 = o.count ∙ ap suc z in
            let same : queue n ws ≡ id ∷ [] =
              queue-split o
              ∙ ap (λ k. id ∷ read ws.ordered_team_ids n (next_index n ws.ordered_cur) k) z in
            subst (λ w. Becomes n w (rotate (queue n ws))) (sym (next_alone alone))
              (record {
                new_queue = same ∙ sym (ap rotate same);
                new_cur = v.cur;
                new_fits = v.fits;
                new_token =
                    subst (λ q. Token no_owner (post stays id).ordered_release q)
                      (sym (ap rotate same)) (inl (refl, posted ws.ordered_release id (o.silent)));
              })
        | inr (k, z) ↦
            let two : ws.ordered_num_used ≡ suc (suc k) = o.count ∙ ap suc z in
            subst (λ w. Becomes n w (rotate (queue n ws))) (sym (next_more k two))
              (elim (Bool-cases (ltb ws.ordered_num_used n)) [
                | inl t ↦
                    subst
                      (λ b.
                        Becomes n (pass_on n (if b then register n stays id else stays))
                          (rotate (queue n ws)))
                      (sym t)
                      (pass_on_lem n small (register n stays id) (o.others) (rotate (queue n ws))
                        (v.cur) (o.count) (omega (arith, o.count, v.fits)) refl (o.silent)
                        (behind_room o (v.cur) (ground (arith, t))))
                | inr t ↦
                    subst
                      (λ b.
                        Becomes n (pass_on n (if b then register n stays id else stays))
                          (rotate (queue n ws)))
                      (sym t)
                      (pass_on_lem n small stays (o.others) (rotate (queue n ws)) (v.cur) (o.count)
                        (omega (arith, o.count, v.fits)) refl (o.silent)
                        (behind_full o (v.cur) (ground (arith, t, v.fits))))
              ])
      ]
