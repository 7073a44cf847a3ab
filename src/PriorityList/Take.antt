-- ===== src/PriorityList/Take.antt =====
-- A node taken out of the tasks of a list, and what it leaves alone.
use ulmt_open_mp_gcc.Base.{
  ℕ, ◌≡◌, ◌≢◌, List, [], ◌∷◌, ◌++◌, append_assoc, refl, subst, ap, Option, none, some, last_of,
  arith, false, NotIn, Distinct, Distinct-left, Distinct-out, Distinct-Disjoint, Disjoint-symm,
  head?, last?, points_to,
}
use ulmt_open_mp_gcc.Ring.{Mem, unlink}
use ulmt_open_mp_gcc.Ring.Seg.{Heads, Heads-Ring, Outside, Heads-frame}
use ulmt_open_mp_gcc.Ring.Laws.{unlink-Outside, unlink-Ring, next-ne_self}
use ulmt_open_mp_gcc.PriorityList.{PriorityList}
use ulmt_open_mp_gcc.PriorityList.View.{View, contents, Represents}

-- `n` has gone from between `xs` and `ys`, and no other list has changed.
pub record Removed (m m' : Mem) (p : Option ℕ) (xs : List ℕ) (n : ℕ) (ys : List ℕ) : Type 0 where
  pub ring : Heads m' p (xs ++ ys)
  pub outside : Outside (xs ++ n ∷ ys) m m'

module _ (m : Mem) (n : ℕ) where
  pub take_alone : Removed m m none [] n []
  take_alone = record { ring = refl; outside = λ c h. (refl, refl) }

  pub take_first :
      (p : Option ℕ) (y : ℕ) (ys : List ℕ)
      → Heads m p (n ∷ y ∷ ys)
      → Distinct (n ∷ y ∷ ys)
      → Removed m (unlink m n) (some (m.next n)) [] n (y ∷ ys)
  take_first p y ys h d = record {
    ring = (ap some h.1.0, unlink-Ring m [] n (y ∷ ys) h.1 d (λ e. cc));
    outside = unlink-Outside m [] n (y ∷ ys) h.1;
  }

  pub take_later :
      (p : Option ℕ) (x : ℕ) (xs ys : List ℕ)
      → Heads m p (x ∷ xs ++ n ∷ ys)
      → Distinct (x ∷ xs ++ n ∷ ys)
      → Removed m (unlink m n) p (x ∷ xs) n ys
  take_later p x xs ys h d = record {
    ring = (h.0, unlink-Ring m (x ∷ xs) n ys h.1 d (λ e. cc));
    outside = unlink-Outside m (x ∷ xs) n ys h.1;
  }

-- The blocked tasks are still apart, and their list still stands.
pub Removed-rest :
    {m m' : Mem} {p' : Option ℕ} (xs : List ℕ) (n : ℕ) (ys bs : List ℕ) (b : Option ℕ)
    → Distinct ((xs ++ n ∷ ys) ++ bs)
    → Removed m m' p' xs n ys
    → Heads m b bs
    → Heads m' b bs × Distinct ((xs ++ ys) ++ bs)
Removed-rest {m} {m'} xs n ys bs b d p h = (
  Heads-frame (xs ++ n ∷ ys) m m' b bs p.outside
      (Disjoint-symm (xs ++ n ∷ ys) bs (Distinct-Disjoint (xs ++ n ∷ ys) bs d)) h,
  rw append_assoc (Distinct-out n xs (ys ++ bs) (rw append_assoc at d)).0,
)

pub Removed-Represents :
    {m m' : Mem} {l l' : PriorityList} {v v' : View} (xs : List ℕ) (n : ℕ) (ys : List ℕ)
    → Represents m l v
    → contents v ≡ xs ++ n ∷ ys
    → contents v' ≡ xs ++ ys
    → Removed m m' l'.tasks xs n ys
    → l'.blocked_tasks ≡ l.blocked_tasks
    → v'.blocked ≡ v.blocked
    → l'.last_parent_depends_on ≡ last? v'.depended
    → l'.first_running_task ≡ head? v'.running
    → Represents m' l' v'
Removed-Represents {m} {m'} {l} {l'} {v} {v'} xs n ys r e e' p b c last first = record {
  tasks_ring = rw e' p.ring;
  blocked_ring = rw (b, c) rest.0;
  last_depended = last;
  first_running = first;
  distinct = rw (e', c) rest.1;
}
  where
    rest : Heads m' l.blocked_tasks v.blocked × Distinct ((xs ++ ys) ++ v.blocked)
    rest =
        Removed-rest xs n ys v.blocked l.blocked_tasks
          (subst (λ c. Distinct (c ++ v.blocked)) e r.distinct) p r.blocked_ring

-- What a represented list says of one node of its tasks.
module _ {m : Mem} {l : PriorityList} {v : View} (r : Represents m l v) {xs : List ℕ}
    (e : contents v ≡ xs) where
  pub held : Heads m l.tasks xs
  held = subst (Heads m l.tasks) e r.tasks_ring

  pub held-Distinct : Distinct xs
  held-Distinct = Distinct-left xs v.blocked (subst (λ c. Distinct (c ++ v.blocked)) e r.distinct)

module _ {m : Mem} {l : PriorityList} {v : View} (n : ℕ) (r : Represents m l v) where
  pub first_taken :
      (y : ℕ) (ys : List ℕ)
      → contents v ≡ n ∷ y ∷ ys
      → Removed m (unlink m n) (some (m.next n)) [] n (y ∷ ys)
  first_taken y ys e = take_first m n l.tasks y ys (held r e) (held-Distinct r e)

  pub later_taken :
      (x : ℕ) (xs ys : List ℕ)
      → contents v ≡ x ∷ xs ++ n ∷ ys
      → Removed m (unlink m n) l.tasks (x ∷ xs) n ys
  later_taken x xs ys e = take_later m n l.tasks x xs ys (held r e) (held-Distinct r e)

  -- A node that is not alone does not point at itself.
  pub not_alone : (xs ys : List ℕ) → contents v ≡ xs ++ n ∷ ys → xs ++ ys ≢ [] → m.next n ≢ n
  not_alone xs ys e ne =
      next-ne_self m xs n ys (Heads-Ring m l.tasks (xs ++ n ∷ ys) (held r e)) (held-Distinct r e) ne

-- The ends of a list that lacks a node point elsewhere.
pub head-apart : (n : ℕ) (xs : List ℕ) → NotIn n xs → points_to (head? xs) n ≡ false
head-apart n [] h = refl
head-apart n (x ∷ xs) h = ground (arith, h.0)

pub last-apart : (n : ℕ) (xs : List ℕ) → NotIn n xs → points_to (last? xs) n ≡ false
last-apart n [] h = refl
last-apart n (x ∷ []) h = ground (arith, h.0)
last-apart n (x ∷ y ∷ xs) h = last-apart n (y ∷ xs) h.1

pub last-append : (xs : List ℕ) (c : ℕ) (cs : List ℕ) → last? (xs ++ c ∷ cs) ≡ some (last_of c cs)
last-append [] c cs = refl
last-append (x ∷ []) c cs = refl
last-append (x ∷ y ∷ xs) c cs = last-append (y ∷ xs) c cs
