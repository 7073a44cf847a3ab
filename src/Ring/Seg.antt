-- ===== src/Ring/Seg.antt =====
-- Segments of a doubly linked chain, and circular lists as segments that end where they begin.
use ulmt_open_mp_gcc.Base.{
  ℕ, ◌≡◌, ◌≢◌, List, [], ◌∷◌, ◌++◌, append-nil, subst, sym, ◌∙◌, Option, none, some, NotIn,
  Disjoint, last_of,
}
use ulmt_open_mp_gcc.Ring.{Mem}

-- From `a` through `xs` to `b`, each `next` has its `prev`.
abbrev pub Seg : Mem → ℕ → List ℕ → ℕ → Type 0
Seg m a [] b = (m.next a ≡ b) × (m.prev b ≡ a)
Seg m a (x ∷ xs) b = (m.next a ≡ x) × (m.prev x ≡ a) × Seg m x xs b

-- A circular list, from its first node.
abbrev pub Ring : Mem → List ℕ → Type 0
Ring m [] = Unit
Ring m (x ∷ xs) = Seg m x xs x

-- A circular list that a pointer heads, NULL if it is empty.
abbrev pub Heads : Mem → Option ℕ → List ℕ → Type 0
Heads m p [] = p ≡ none
Heads m p (x ∷ xs) = (p ≡ some x) × Seg m x xs x

pub Seg-append :
    (m : Mem) (a : ℕ) (xs : List ℕ) (c : ℕ) (ys : List ℕ) (b : ℕ)
    → Seg m a xs c
    → Seg m c ys b
    → Seg m a (xs ++ c ∷ ys) b
Seg-append m a [] c ys b h k = (h.0, h.1, k)
Seg-append m a (x ∷ xs) c ys b h k = (h.0, h.1, Seg-append m x xs c ys b h.2 k)

pub Seg-split :
    (m : Mem) (a : ℕ) (xs : List ℕ) (c : ℕ) (ys : List ℕ) (b : ℕ)
    → Seg m a (xs ++ c ∷ ys) b
    → Seg m a xs c × Seg m c ys b
Seg-split m a [] c ys b h = ((h.0, h.1), h.2)
Seg-split m a (x ∷ xs) c ys b h = let (k, l) = Seg-split m x xs c ys b h.2 in ((h.0, h.1, k), l)

-- A circular list may be read from any of its nodes.
pub Ring-rotate : (m : Mem) (xs ys : List ℕ) → Ring m (xs ++ ys) → Ring m (ys ++ xs)
Ring-rotate m [] ys h = subst (Ring m) (sym (append-nil ys)) h
Ring-rotate m (x ∷ xs) [] h = subst (Ring m) (append-nil (x ∷ xs)) h
Ring-rotate m (x ∷ xs) (y ∷ ys) h =
    let (k, l) = Seg-split m x xs y ys x h in Seg-append m y ys x xs y l k

-- The node before the end of a segment is its last one.
pub Seg-prev : (m : Mem) (a : ℕ) (xs : List ℕ) (b : ℕ) → Seg m a xs b → m.prev b ≡ last_of a xs
Seg-prev m a [] b h = h.1
Seg-prev m a (x ∷ xs) b h = Seg-prev m x xs b h.2

pub Seg-next : (m : Mem) (a : ℕ) (xs : List ℕ) (b : ℕ) → Seg m a xs b → m.next (last_of a xs) ≡ b
Seg-next m a [] b h = h.0
Seg-next m a (x ∷ xs) b h = Seg-next m x xs b h.2

pub last_of-ne : (c a : ℕ) (xs : List ℕ) → c ≢ a → NotIn c xs → last_of a xs ≢ c
last_of-ne c a [] n h = λ e. n (sym e)
last_of-ne c a (x ∷ xs) n h = last_of-ne c x xs h.0 h.1

-- `m'` differs from `m` at most in the nodes `fs`.
abbrev pub Outside : List ℕ → Mem → Mem → Type 0
Outside fs m m' = (c : ℕ) → NotIn c fs → (m'.next c ≡ m.next c) × (m'.prev c ≡ m.prev c)

-- A segment is kept by a change of memory elsewhere.
pub Seg-frame :
    (fs : List ℕ) (m m' : Mem) (a : ℕ) (xs : List ℕ) (b : ℕ)
    → Outside fs m m'
    → Disjoint (a ∷ xs) fs
    → NotIn b fs
    → Seg m a xs b
    → Seg m' a xs b
Seg-frame fs m m' a [] b o d n s = ((o a d.0).0 ∙ s.0, (o b n).1 ∙ s.1)
Seg-frame fs m m' a (x ∷ xs) b o d n s =
    ((o a d.0).0 ∙ s.0, (o x d.1.0).1 ∙ s.1, Seg-frame fs m m' x xs b o d.1 n s.2)

pub Heads-frame :
    (fs : List ℕ) (m m' : Mem) (p : Option ℕ) (xs : List ℕ)
    → Outside fs m m'
    → Disjoint xs fs
    → Heads m p xs
    → Heads m' p xs
Heads-frame fs m m' p [] o d h = h
Heads-frame fs m m' p (x ∷ xs) o d h = (h.0, Seg-frame fs m m' x xs x o d d.0 h.1)

pub Heads-Ring : (m : Mem) (p : Option ℕ) (xs : List ℕ) → Heads m p xs → Ring m xs
Heads-Ring m p [] h = tt
Heads-Ring m p (x ∷ xs) h = h.1
