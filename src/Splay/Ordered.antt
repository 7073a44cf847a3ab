-- ===== src/Splay/Ordered.antt =====
-- Sorted lists of nodes: what the tree operations are to do to them.
use Prim.Native.Nat.{Ordering}
use ulmt_open_mp_gcc.Base.{◌≡◌, arith, Option, none, some, refl, List, [], ◌∷◌, ◌++◌, All}
use ulmt_open_mp_gcc.Base.Int.{ℤ, ◌<ℤ◌}
use ulmt_open_mp_gcc.Splay.{prio_splay_compare}
use ulmt_open_mp_gcc.Splay.Inorder.{IsSorted}

pub lt-compare : (x y : ℤ) → x <ℤ y → prio_splay_compare x y ≡ Ordering.lt
unfolding prio_splay_compare
lt-compare x y h = ground arith

pub gt-compare : (x y : ℤ) → y <ℤ x → prio_splay_compare x y ≡ Ordering.gt
unfolding prio_splay_compare
gt-compare x y h = ground arith

pub eq-compare : (x y : ℤ) → x ≡ y → prio_splay_compare x y ≡ Ordering.eq
unfolding prio_splay_compare
eq-compare x y h = rw h (ground arith)

module _ {N : Type 0} (priority : N → ℤ) where
  -- The first node with the key.
  abbrev pub find : ℤ → List N → Option N
  find key [] = none
  find key (x ∷ xs) = elim (prio_splay_compare (priority x) key) [
    | Ordering.eq ↦ some x
    | _ ↦ find key xs
  ]

  -- The nodes without the first one that has the key.
  abbrev pub erase : ℤ → List N → List N
  erase key [] = []
  erase key (x ∷ xs) = elim (prio_splay_compare (priority x) key) [
    | Ordering.eq ↦ xs
    | _ ↦ x ∷ erase key xs
  ]

  -- The node in front of the first one that is above it.
  abbrev pub insert_sorted : N → List N → List N
  insert_sorted new [] = new ∷ []
  insert_sorted new (x ∷ xs) = elim (prio_splay_compare (priority new) (priority x)) [
    | Ordering.lt ↦ new ∷ x ∷ xs
    | _ ↦ x ∷ insert_sorted new xs
  ]

  abbrev pub Below : ℤ → List N → Type 0
  Below key = All (λ x. priority x <ℤ key)

  abbrev pub Above : ℤ → List N → Type 0
  Above key = All (λ x. key <ℤ priority x)

  pub find-Above : (key : ℤ) (xs : List N) → Above key xs → find key xs ≡ none
  find-Above key [] h = refl
  find-Above key (x ∷ xs) h = ground (arith, gt-compare (priority x) key h.0, find-Above key xs h.1)

  pub find-Below : (key : ℤ) (xs ys : List N) → Below key xs → find key (xs ++ ys) ≡ find key ys
  find-Below key [] ys h = refl
  find-Below key (x ∷ xs) ys h =
      ground (arith, lt-compare (priority x) key h.0, find-Below key xs ys h.1)

  pub erase-Above : (key : ℤ) (xs : List N) → Above key xs → erase key xs ≡ xs
  erase-Above key [] h = refl
  erase-Above key (x ∷ xs) h =
      ground (arith, gt-compare (priority x) key h.0, erase-Above key xs h.1)

  pub erase-Below :
      (key : ℤ) (xs ys : List N) → Below key xs → erase key (xs ++ ys) ≡ xs ++ erase key ys
  erase-Below key [] ys h = refl
  erase-Below key (x ∷ xs) ys h =
      ground (arith, lt-compare (priority x) key h.0, erase-Below key xs ys h.1)

  insert_sorted-Above :
      (new : N) (ys : List N) → Above (priority new) ys → insert_sorted new ys ≡ new ∷ ys
  insert_sorted-Above new [] h = refl
  insert_sorted-Above new (y ∷ ys) h = ground (arith, lt-compare (priority new) (priority y) h.0)

  pub insert_sorted-split :
      (new : N) (xs ys : List N)
      → Below (priority new) xs
      → Above (priority new) ys
      → insert_sorted new (xs ++ ys) ≡ xs ++ new ∷ ys
  insert_sorted-split new [] ys h k = insert_sorted-Above new ys k
  insert_sorted-split new (x ∷ xs) ys h k =
      ground
        (arith, gt-compare (priority new) (priority x) h.0, insert_sorted-split new xs ys h.1 k)

  All-middle :
      (P : N → Type 0) (new : N) (xs ys : List N)
      → P new
      → All P (xs ++ ys)
      → All P (xs ++ new ∷ ys)
  All-middle P new [] ys p h = (p, h)
  All-middle P new (x ∷ xs) ys p h = (h.0, All-middle P new xs ys p h.1)

  pub IsSorted-middle :
      (new : N) (xs ys : List N)
      → IsSorted priority (xs ++ ys)
      → Below (priority new) xs
      → Above (priority new) ys
      → IsSorted priority (xs ++ new ∷ ys)
  IsSorted-middle new [] ys s h k = (k, s)
  IsSorted-middle new (x ∷ xs) ys s h k = (
    All-middle (λ y. priority x <ℤ priority y) new xs ys h.0 s.0,
    IsSorted-middle new xs ys s.1 h.1 k,
  )

  All-out : (P : N → Type 0) (old : N) (xs ys : List N) → All P (xs ++ old ∷ ys) → All P (xs ++ ys)
  All-out P old [] ys h = h.1
  All-out P old (x ∷ xs) ys h = (h.0, All-out P old xs ys h.1)

  pub IsSorted-out :
      (old : N) (xs ys : List N) → IsSorted priority (xs ++ old ∷ ys) → IsSorted priority (xs ++ ys)
  IsSorted-out old [] ys s = s.1
  IsSorted-out old (x ∷ xs) ys s =
      (All-out (λ y. priority x <ℤ priority y) old xs ys s.0, IsSorted-out old xs ys s.1)
