-- ===== src/ListMoves/Turn.antt =====
-- A circular list that a pointer heads at another node, and a node taken from behind others.
use ulmt_open_mp_gcc.Base.{
  ℕ, ◌≡◌, ◌≢◌, refl, sym, subst, ◌∙◌, List, [], ◌∷◌, ◌++◌, some, head?, last?, last_of, NotIn,
  NotIn-right, NotIn-self, Distinct, Distinct-left, Distinct-right, Distinct-Disjoint,
  Distinct-append, Distinct-swap, All, All-left, All-right, All-append,
}
use ulmt_open_mp_gcc.Ring.{Mem}
use ulmt_open_mp_gcc.Ring.Seg.{Seg-split, Seg-prev, Ring, Ring-rotate, Heads, Heads-Ring}
use ulmt_open_mp_gcc.PriorityList.{PriorityList}
use ulmt_open_mp_gcc.PriorityList.View.{View, contents, Represents}
use ulmt_open_mp_gcc.PriorityList.Take.{held, held-Distinct}

Ring-Heads : (m : Mem) (xs : List ℕ) → Ring m xs → Heads m (head? xs) xs
Ring-Heads m [] r = refl
Ring-Heads m (x ∷ xs) r = (refl, r)

Distinct-turn : (xs ys bs : List ℕ) → Distinct ((xs ++ ys) ++ bs) → Distinct ((ys ++ xs) ++ bs)
Distinct-turn xs ys bs d =
    let far = Distinct-Disjoint (xs ++ ys) bs d in
    Distinct-append (ys ++ xs) bs (Distinct-swap xs ys (Distinct-left (xs ++ ys) bs d))
      (Distinct-right (xs ++ ys) bs d)
      (All-append _ ys xs (All-right _ xs ys far) (All-left _ xs ys far))

-- The same ring from another node on, with the blocked tasks as they were.
pub turned-Represents :
    {m : Mem} {l l' : PriorityList} {v v' : View} (xs ys : List ℕ)
    → Represents m l v
    → contents v ≡ xs ++ ys
    → contents v' ≡ ys ++ xs
    → l'.tasks ≡ head? (ys ++ xs)
    → l'.blocked_tasks ≡ l.blocked_tasks
    → v'.blocked ≡ v.blocked
    → l'.last_parent_depends_on ≡ last? v'.depended
    → l'.first_running_task ≡ head? v'.running
    → Represents m l' v'
turned-Represents {m} {l} {l'} {v} {v'} xs ys r e e' p b c last first = record {
  tasks_ring =
      rw (e', p)
        (Ring-Heads m (ys ++ xs)
          (Ring-rotate m xs ys (Heads-Ring m l.tasks (xs ++ ys) (held r e))));
  blocked_ring = rw (b, c) r.blocked_ring;
  last_depended = last;
  first_running = first;
  distinct =
      rw (e', c)
        (Distinct-turn xs ys v.blocked (subst (λ z. Distinct (z ++ v.blocked)) e r.distinct));
}

-- What the pointers of a node tell, behind the first task.
module _ {m : Mem} {l : PriorityList} {v : View} (n : ℕ) (r : Represents m l v) (x : ℕ)
    (xs : List ℕ) where
  pub not_first : (ys : List ℕ) → contents v ≡ x ∷ xs ++ n ∷ ys → (l.tasks ≡ some x) × (x ≢ n)
  not_first ys e = ((held r e).0, NotIn-self x n xs ys (held-Distinct r e).0)

  pub at_prev : (ys : List ℕ) → contents v ≡ x ∷ xs ++ n ∷ ys → m.prev n ≡ last_of x xs
  at_prev ys e = Seg-prev m x xs n (Seg-split m x xs n ys x (held r e).1).0

  pub at_last : contents v ≡ x ∷ xs ++ n ∷ [] → m.next n ≡ x
  at_last e = (Seg-split m x xs n [] x (held r e).1).1.0

  pub at_next : (y : ℕ) (ys : List ℕ) → contents v ≡ x ∷ xs ++ n ∷ y ∷ ys → (m.next n ≡ y) × (x ≢ y)
  at_next y ys e = (
    (Seg-split m x xs n (y ∷ ys) x (held r e).1).1.0,
    (NotIn-right x xs (n ∷ y ∷ ys) (held-Distinct r e).0).1.0,
  )

All-last_of : (P : ℕ → Type 0) (x : ℕ) (xs : List ℕ) → All P (x ∷ xs) → P (last_of x xs)
All-last_of P x [] h = h.0
All-last_of P x (y ∷ ys) h = All-last_of P y ys h.1

last_of-append :
    (x : ℕ) (xs : List ℕ) (y : ℕ) (ys : List ℕ) → last_of x (xs ++ y ∷ ys) ≡ last_of y ys
last_of-append x [] y ys = refl
last_of-append x (z ∷ zs) y ys = last_of-append z zs y ys

-- The last nodes of two parts of a list differ.
pub last_of-apart :
    (x : ℕ) (xs : List ℕ) (y : ℕ) (ys : List ℕ)
    → Distinct (x ∷ xs ++ y ∷ ys)
    → last_of x (xs ++ y ∷ ys) ≢ last_of x xs
last_of-apart x xs y ys d e =
    All-last_of (λ b. last_of x xs ≢ b) y ys
      (All-last_of (λ a. NotIn a (y ∷ ys)) x xs (Distinct-Disjoint (x ∷ xs) (y ∷ ys) d))
      (sym e ∙ last_of-append x xs y ys)
