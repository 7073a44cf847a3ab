-- ===== src/HpList/Chain.antt =====
-- The list that the `prev` and `next` fields make: doubly linked, with NULL at both ends.
use ulmt_open_mp_gcc.Base.{
  ℕ, ◌≡◌, ◌≢◌, refl, ◌∙◌, Option, none, some, arith, List, [], ◌∷◌, ◌++◌, head?, last?, last_of,
  All,
}
use ulmt_open_mp_gcc.HpList.{Nodes, set_prev?, set_next?, link_above}

abbrev pub Chain : Nodes → Option ℕ → List ℕ → Type 0
Chain h p [] = Unit
Chain h p (x ∷ xs) = (h.prev x ≡ p) × (h.next x ≡ head? xs) × Chain h (some x) xs

abbrev pub last_or : Option ℕ → List ℕ → Option ℕ
last_or p [] = p
last_or p (x ∷ xs) = last_or (some x) xs

pub last_or-none : (xs : List ℕ) → last_or none xs ≡ last? xs
last_or-none [] = refl
last_or-none (x ∷ xs) = go x xs
  where
    go : (x : ℕ) (xs : List ℕ) → last_or (some x) xs ≡ some (last_of x xs)
    go x [] = refl
    go x (y ∷ ys) = go y ys

pub Chain-prev :
    (h : Nodes) (p : Option ℕ) (xs : List ℕ) (n : ℕ) (ys : List ℕ)
    → Chain h p (xs ++ n ∷ ys)
    → (h.prev n ≡ last_or p xs) × (h.next n ≡ head? ys)
Chain-prev h p [] n ys c = (c.0, c.1)
Chain-prev h p (x ∷ xs) n ys c = Chain-prev h (some x) xs n ys c.2

-- The `prev` half of the chain.
abbrev pub Prevs : Nodes → Option ℕ → List ℕ → Type 0
Prevs h p [] = Unit
Prevs h p (x ∷ xs) = (h.prev x ≡ p) × Prevs h (some x) xs

pub Chain-Prevs : (h : Nodes) (p : Option ℕ) (xs : List ℕ) → Chain h p xs → Prevs h p xs
Chain-Prevs h p [] c = tt
Chain-Prevs h p (x ∷ xs) c = (c.0, Chain-Prevs h (some x) xs c.2)

pub Prevs-split :
    (h : Nodes) (p : Option ℕ) (xs : List ℕ) (n : ℕ) (ys : List ℕ)
    → Prevs h p (xs ++ n ∷ ys)
    → (h.prev n ≡ last_or p xs) × Prevs h p xs
Prevs-split h p [] n ys c = (c.0, tt)
Prevs-split h p (x ∷ xs) n ys c = let (a, b) = Prevs-split h (some x) xs n ys c.1 in (a, (c.0, b))

-- A chain is kept by writes to other nodes.
abbrev pub SameLinks : Nodes → Nodes → List ℕ → Type 0
SameLinks h h' = All (λ c. (h'.prev c ≡ h.prev c) × (h'.next c ≡ h.next c))

pub Chain-frame :
    (h h' : Nodes) (p : Option ℕ) (xs : List ℕ) → SameLinks h h' xs → Chain h p xs → Chain h' p xs
Chain-frame h h' p [] s c = tt
Chain-frame h h' p (x ∷ xs) s c = (s.0.0 ∙ c.0, s.0.1 ∙ c.1, Chain-frame h h' (some x) xs s.1 c.2)

-- The five writes of an insertion between `at` and `q`.
pub record Above (h : Nodes) (at new : ℕ) (q : Option ℕ) (h' : Nodes) : Type 0 where
  pub new_prev : h'.prev new ≡ some at
  pub new_next : h'.next new ≡ q
  pub at_next : h'.next at ≡ some new
  pub q_prev : (b : ℕ) → q ≡ some b → h'.prev b ≡ some new
  pub same_next : (c : ℕ) → c ≢ new → c ≢ at → h'.next c ≡ h.next c
  pub same_prev : (c : ℕ) → c ≢ new → q ≢ some c → h'.prev c ≡ h.prev c

pub link_above-Above :
    (h : Nodes) (at new : ℕ)
    → at ≢ new
    → h.next at ≢ some new
    → Above h at new (h.next at) (link_above h at new)
unfolding link_above
link_above-Above h at new n k = record {
  new_prev = ground arith;
  new_next = ground arith;
  at_next = ground arith;
  q_prev = λ b e. ground arith;
  same_next = λ c a b. ground arith;
  same_prev = λ c a b. ground arith;
}

-- Links are written, not keys nor marks.
abbrev pub SameFields : Nodes → Nodes → Type 0
SameFields h h' = (h'.key ≡ h.key) × (h'.marked ≡ h.marked)

pub set_prev?-same : (h : Nodes) (p v : Option ℕ) → SameFields h (set_prev? h p v)
set_prev?-same h none v = (refl, refl)
set_prev?-same h (some a) v = (refl, refl)

pub set_next?-same : (h : Nodes) (p v : Option ℕ) → SameFields h (set_next? h p v)
set_next?-same h none v = (refl, refl)
set_next?-same h (some a) v = (refl, refl)
