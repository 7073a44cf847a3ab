-- ===== src/Base/Address.antt =====
-- Addresses that differ from all of a list, lists of distinct addresses, and memory as a function.
use Prim.Native.Nat.{ℕ}
use mathlib.Core.Path.{◌≡◌, refl, sym, ap}
use native.Mathlib.Omega.{arith}
use mathlib.Core.Logic.{◌≢◌, ◌⊎◌, inl, inr}
use mathlib.Core.List.{List, [], ◌∷◌, ◌++◌}
use ulmt_open_mp_gcc.Base.Tests.{◌==◌, ==_refl, if◌then◌else◌, ℕ-cases}
use ulmt_open_mp_gcc.Base.Lists.{All, All-append, All-left, All-right}

-- One write to a memory of words.
abbrev pub update {ℓ} : {A : Type ℓ} → (ℕ → A) → ℕ → A → ℕ → A
update f i a j = if i == j then a else f j

abbrev pub NotIn : ℕ → List ℕ → Type 0
NotIn a xs = All (λ x. a ≢ x) xs

abbrev pub Distinct : List ℕ → Type 0
Distinct [] = Unit
Distinct (x ∷ xs) = NotIn x xs × Distinct xs

abbrev pub Disjoint : List ℕ → List ℕ → Type 0
Disjoint xs ys = All (λ x. NotIn x ys) xs

pub NotIn-append : (a : ℕ) (xs ys : List ℕ) → NotIn a xs → NotIn a ys → NotIn a (xs ++ ys)
NotIn-append a = All-append (λ x. a ≢ x)

pub NotIn-left : (a : ℕ) (xs ys : List ℕ) → NotIn a (xs ++ ys) → NotIn a xs
NotIn-left a = All-left (λ x. a ≢ x)

pub NotIn-right : (a : ℕ) (xs ys : List ℕ) → NotIn a (xs ++ ys) → NotIn a ys
NotIn-right a = All-right (λ x. a ≢ x)

pub NotIn-swap : (a : ℕ) (xs ys : List ℕ) → NotIn a (xs ++ ys) → NotIn a (ys ++ xs)
NotIn-swap a xs ys h = NotIn-append a ys xs (NotIn-right a xs ys h) (NotIn-left a xs ys h)

pub NotIn-middle : (a b : ℕ) (xs ys : List ℕ) → a ≢ b → NotIn a (xs ++ ys) → NotIn a (xs ++ b ∷ ys)
NotIn-middle a b [] ys n h = (n, h)
NotIn-middle a b (x ∷ xs) ys n h = (h.0, NotIn-middle a b xs ys n h.1)

pub Distinct-middle :
    (a : ℕ) (xs ys : List ℕ) → Distinct (xs ++ ys) → NotIn a (xs ++ ys) → Distinct (xs ++ a ∷ ys)
Distinct-middle a [] ys d h = (h, d)
Distinct-middle a (x ∷ xs) ys d h =
    (NotIn-middle x a xs ys (λ e. h.0 (sym e)) d.0, Distinct-middle a xs ys d.1 h.1)

-- Taking an element out of the middle.
pub NotIn-out : (a b : ℕ) (xs ys : List ℕ) → NotIn a (xs ++ b ∷ ys) → NotIn a (xs ++ ys)
NotIn-out a b [] ys h = h.1
NotIn-out a b (x ∷ xs) ys h = (h.0, NotIn-out a b xs ys h.1)

pub NotIn-self : (a b : ℕ) (xs ys : List ℕ) → NotIn a (xs ++ b ∷ ys) → a ≢ b
NotIn-self a b [] ys h = h.0
NotIn-self a b (x ∷ xs) ys h = NotIn-self a b xs ys h.1

pub Distinct-out :
    (a : ℕ) (xs ys : List ℕ) → Distinct (xs ++ a ∷ ys) → Distinct (xs ++ ys) × NotIn a (xs ++ ys)
Distinct-out a [] ys d = (d.1, d.0)
Distinct-out a (x ∷ xs) ys d =
    let (e, h) = Distinct-out a xs ys d.1 in
    ((NotIn-out x a xs ys d.0, e), ((λ e. NotIn-self x a xs ys d.0 (sym e)), h))

pub Distinct-left : (xs ys : List ℕ) → Distinct (xs ++ ys) → Distinct xs
Distinct-left [] ys d = tt
Distinct-left (x ∷ xs) ys d = (NotIn-left x xs ys d.0, Distinct-left xs ys d.1)

pub Distinct-right : (xs ys : List ℕ) → Distinct (xs ++ ys) → Distinct ys
Distinct-right [] ys d = d
Distinct-right (x ∷ xs) ys d = Distinct-right xs ys d.1

pub Distinct-Disjoint : (xs ys : List ℕ) → Distinct (xs ++ ys) → Disjoint xs ys
Distinct-Disjoint [] ys d = tt
Distinct-Disjoint (x ∷ xs) ys d = (NotIn-right x xs ys d.0, Distinct-Disjoint xs ys d.1)

Disjoint-cons : (y : ℕ) (xs ys : List ℕ) → Disjoint xs (y ∷ ys) → NotIn y xs × Disjoint xs ys
Disjoint-cons y [] ys h = (tt, tt)
Disjoint-cons y (x ∷ xs) ys h =
    let (n, d) = Disjoint-cons y xs ys h.1 in (((λ e. h.0.0 (sym e)), n), (h.0.1, d))

pub Disjoint-symm : (xs ys : List ℕ) → Disjoint xs ys → Disjoint ys xs
Disjoint-symm xs [] h = tt
Disjoint-symm xs (y ∷ ys) h = let (n, d) = Disjoint-cons y xs ys h in (n, Disjoint-symm xs ys d)

pub Distinct-append :
    (xs ys : List ℕ) → Distinct xs → Distinct ys → Disjoint xs ys → Distinct (xs ++ ys)
Distinct-append [] ys dx dy h = dy
Distinct-append (x ∷ xs) ys dx dy h =
    (NotIn-append x xs ys dx.0 h.0, Distinct-append xs ys dx.1 dy h.1)

pub Distinct-swap : (xs ys : List ℕ) → Distinct (xs ++ ys) → Distinct (ys ++ xs)
Distinct-swap xs ys d =
    Distinct-append ys xs (Distinct-right xs ys d) (Distinct-left xs ys d)
      (Disjoint-symm xs ys (Distinct-Disjoint xs ys d))

-- A list without the first occurrence of an address.
abbrev pub without : ℕ → List ℕ → List ℕ
without n [] = []
without n (x ∷ xs) = if x == n then xs else x ∷ without n xs

pub find_split :
    (n : ℕ) (xs : List ℕ) → NotIn n xs ⊎ ((us : List ℕ) × (cs : List ℕ) × (xs ≡ us ++ n ∷ cs))
find_split n [] = inl tt
find_split n (x ∷ xs) = elim (ℕ-cases n x) [
  | inl e ↦ inr ([], xs, ap (λ y. y ∷ xs) (sym e))
  | inr ne ↦ elim (find_split n xs) [
    | inl h ↦ inl (ne, h)
    | inr (us, cs, e) ↦ inr (x ∷ us, cs, ap (λ l. x ∷ l) e)
  ]
]

pub without-NotIn : (n : ℕ) (xs : List ℕ) → NotIn n xs → without n xs ≡ xs
without-NotIn n [] h = refl
without-NotIn n (x ∷ xs) h = ground (arith, h.0, without-NotIn n xs h.1)

pub without-append :
    (n : ℕ) (xs ys : List ℕ) → NotIn n xs → without n (xs ++ ys) ≡ xs ++ without n ys
without-append n [] ys h = refl
without-append n (x ∷ xs) ys h = ground (arith, h.0, without-append n xs ys h.1)

pub without-split : (n : ℕ) (us cs : List ℕ) → NotIn n us → without n (us ++ n ∷ cs) ≡ us ++ cs
without-split n us cs h = rw (without-append n us (n ∷ cs) h, ==_refl n)
