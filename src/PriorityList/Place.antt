-- ===== src/PriorityList/Place.antt =====
-- A new node in the tasks of a list, and what it leaves alone.
use ulmt_open_mp_gcc.Base.{
  ℕ, ◌≡◌, List, [], ◌∷◌, ◌++◌, append-nil, append_assoc, refl, sym, subst, Option, some, last_of,
  head?, last?, NotIn, NotIn-left, NotIn-right, Distinct, Disjoint, Distinct-left, Distinct-middle,
  Distinct-Disjoint, Disjoint-symm,
}
use ulmt_open_mp_gcc.Ring.{Mem, link_single, link_before, link_after}
use ulmt_open_mp_gcc.Ring.Seg.{Heads, Outside, Heads-frame, Seg-split}
use ulmt_open_mp_gcc.Ring.Laws.{
  link_single-Ring, link_single-Outside, link_before-Ring, link_before-end, link_before-Outside,
  link_after-last,
}
use ulmt_open_mp_gcc.PriorityList.{PriorityList}
use ulmt_open_mp_gcc.PriorityList.View.{View, contents, nodes, Represents}

-- `n` has come between `xs` and `ys`, and no other list has changed.
pub record Placed (m m' : Mem) (p : Option ℕ) (xs : List ℕ) (n : ℕ) (ys : List ℕ) : Type 0 where
  pub ring : Heads m' p (xs ++ n ∷ ys)
  pub outside : Outside (n ∷ (xs ++ ys)) m m'

pub place_single : (m : Mem) (n : ℕ) → Placed m (link_single m n) (some n) [] n []
place_single m n = record { ring = (refl, link_single-Ring m n); outside = link_single-Outside m n }

module _ (m : Mem) (n : ℕ) where
  pub place_front :
      (p : Option ℕ) (q : ℕ) (ys : List ℕ)
      → Heads m p (q ∷ ys)
      → Distinct (q ∷ ys)
      → NotIn n (q ∷ ys)
      → Placed m (link_before m q n) (some n) [] n (q ∷ ys)
  place_front p q ys h d f = record {
    ring = (refl, link_before-Ring m [] q ys n h.1 d f);
    outside = link_before-Outside m [] q ys h.1 n;
  }

  pub place_end :
      (p : Option ℕ) (q : ℕ) (ys : List ℕ)
      → Heads m p (q ∷ ys)
      → Distinct (q ∷ ys)
      → NotIn n (q ∷ ys)
      → Placed m (link_before m q n) p (q ∷ ys) n []
  place_end p q ys h d f = record {
    ring = (h.0, link_before-end m q ys n h.1 d f);
    outside =
        subst (λ l. Outside (n ∷ q ∷ l) m (link_before m q n)) (sym (append-nil ys))
          (link_before-Outside m [] q ys h.1 n);
  }

  pub place_before :
      (p : Option ℕ) (x : ℕ) (xs : List ℕ) (q : ℕ) (ys : List ℕ)
      → Heads m p (x ∷ xs ++ q ∷ ys)
      → Distinct (x ∷ xs ++ q ∷ ys)
      → NotIn n (x ∷ xs ++ q ∷ ys)
      → Placed m (link_before m q n) p (x ∷ xs) n (q ∷ ys)
  place_before p x xs q ys h d f = record {
    ring = (h.0, link_before-Ring m (x ∷ xs) q ys n h.1 d f);
    outside = link_before-Outside m (x ∷ xs) q ys h.1 n;
  }

  -- After the last of `x ∷ xs`: in front of what follows, or at the end.
  pub place_after :
      (p : Option ℕ) (x : ℕ) (xs ys : List ℕ)
      → Heads m p (x ∷ xs ++ ys)
      → Distinct (x ∷ xs ++ ys)
      → NotIn n (x ∷ xs ++ ys)
      → Placed m (link_after m (last_of x xs) n) p (x ∷ xs) n ys
  place_after p x xs [] h d f =
      subst (λ m'. Placed m m' p (x ∷ xs) n []) (link_after-last m x xs x n (unnil h).1)
        (place_end p x xs (unnil h) (unnil_distinct d) (unnil_fresh f))
    where
      unnil : Heads m p (x ∷ xs ++ []) → Heads m p (x ∷ xs)
      unnil = subst (Heads m p) (append-nil (x ∷ xs))

      unnil_distinct : Distinct (x ∷ xs ++ []) → Distinct (x ∷ xs)
      unnil_distinct = subst Distinct (append-nil (x ∷ xs))

      unnil_fresh : NotIn n (x ∷ xs ++ []) → NotIn n (x ∷ xs)
      unnil_fresh = subst (NotIn n) (append-nil (x ∷ xs))
  place_after p x xs (y ∷ ys) h d f =
      subst (λ m'. Placed m m' p (x ∷ xs) n (y ∷ ys))
        (link_after-last m x xs y n (Seg-split m x xs y ys x h.1).0)
        (place_before p x xs y ys h d f)

-- A Fresh node in the tasks keeps the tasks and the blocked ones apart.
Distinct-placed :
    (xs ys bs : List ℕ) (n : ℕ)
    → Distinct ((xs ++ ys) ++ bs)
    → NotIn n ((xs ++ ys) ++ bs)
    → Distinct ((xs ++ n ∷ ys) ++ bs)
Distinct-placed xs ys bs n d f =
    rw (append_assoc xs (n ∷ ys) bs)
      (Distinct-middle n xs (ys ++ bs) (rw append_assoc at d) (rw append_assoc at f))

-- What the tasks touch is none of the blocked ones.
placed_apart :
    (xs bs : List ℕ) (n : ℕ) → Distinct (xs ++ bs) → NotIn n (xs ++ bs) → Disjoint bs (n ∷ xs)
placed_apart xs bs n d f =
    Disjoint-symm (n ∷ xs) bs (NotIn-right n xs bs f, Distinct-Disjoint xs bs d)

pub Placed-rest :
    {m m' : Mem} {p' : Option ℕ} (xs : List ℕ) (n : ℕ) (ys bs : List ℕ) (b : Option ℕ)
    → Distinct ((xs ++ ys) ++ bs)
    → NotIn n ((xs ++ ys) ++ bs)
    → Placed m m' p' xs n ys
    → Heads m b bs
    → Heads m' b bs × Distinct ((xs ++ n ∷ ys) ++ bs)
Placed-rest {m} {m'} xs n ys bs b d f p h = (
  Heads-frame (n ∷ (xs ++ ys)) m m' b bs p.outside (placed_apart (xs ++ ys) bs n d f) h,
  Distinct-placed xs ys bs n d f,
)

-- Inserting into a view: the tasks get the node at one place, the blocked ones stay.
pub Placed-Represents :
    {m m' : Mem} {l l' : PriorityList} {v v' : View} (xs ys : List ℕ) (n : ℕ)
    → Represents m l v
    → NotIn n (nodes v)
    → contents v ≡ xs ++ ys
    → contents v' ≡ xs ++ n ∷ ys
    → Placed m m' l'.tasks xs n ys
    → l'.blocked_tasks ≡ l.blocked_tasks
    → v'.blocked ≡ v.blocked
    → l'.last_parent_depends_on ≡ last? v'.depended
    → l'.first_running_task ≡ head? v'.running
    → Represents m' l' v'
Placed-Represents {m} {m'} {l} {l'} {v} {v'} xs ys n r f e e' p b c last first = record {
  tasks_ring = rw e' p.ring;
  blocked_ring = rw (b, c) rest.0;
  last_depended = last;
  first_running = first;
  distinct = rw (e', c) rest.1;
}
  where
    rest : Heads m' l.blocked_tasks v.blocked × Distinct ((xs ++ n ∷ ys) ++ v.blocked)
    rest =
        Placed-rest xs n ys v.blocked l.blocked_tasks
          (subst (λ c. Distinct (c ++ v.blocked)) e r.distinct)
          (subst (λ c. NotIn n (c ++ v.blocked)) e f) p r.blocked_ring

-- A new node at the end of the blocked tasks: the tasks stay.
pub Placed-blocked :
    {m m' : Mem} {p' : Option ℕ} (xs bs : List ℕ) (n : ℕ) (t : Option ℕ)
    → Heads m t xs
    → Distinct (xs ++ bs)
    → NotIn n (xs ++ bs)
    → Placed m m' p' bs n []
    → Heads m' t xs × Heads m' p' (bs ++ n ∷ []) × Distinct (xs ++ (bs ++ n ∷ []))
Placed-blocked {m} {m'} xs bs n t h d f p = (
  Heads-frame (n ∷ (bs ++ [])) m m' t xs p.outside
      (subst (λ c. Disjoint xs (n ∷ c)) (sym (append-nil bs))
        (Disjoint-symm (n ∷ bs) xs
          (NotIn-left n xs bs f, Disjoint-symm xs bs (Distinct-Disjoint xs bs d))))
      h,
  p.ring,
  rw (← append_assoc xs bs (n ∷ [])) (
      Distinct-middle n (xs ++ bs) [] (rw (append-nil (xs ++ bs)) d)
        (rw (append-nil (xs ++ bs)) f)),
)

-- The four places, for a list that represents a view.
module _ {m : Mem} {l : PriorityList} {v : View} (n : ℕ) (r : Represents m l v)
    (f : NotIn n (nodes v)) where
  module _ {xs : List ℕ} (e : contents v ≡ xs) where
    pub shown : Heads m l.tasks xs
    shown = subst (Heads m l.tasks) e r.tasks_ring

    pub shown-Distinct : Distinct xs
    shown-Distinct =
        Distinct-left xs v.blocked (subst (λ c. Distinct (c ++ v.blocked)) e r.distinct)

    pub shown_fresh : NotIn n xs
    shown_fresh = NotIn-left n xs v.blocked (subst (λ c. NotIn n (c ++ v.blocked)) e f)

  pub at_front :
      (q : ℕ) (ys : List ℕ)
      → contents v ≡ q ∷ ys
      → Placed m (link_before m q n) (some n) [] n (q ∷ ys)
  at_front q ys e = place_front m n l.tasks q ys (shown e) (shown-Distinct e) (shown_fresh e)

  pub at_end :
      (q : ℕ) (ys : List ℕ)
      → contents v ≡ q ∷ ys
      → Placed m (link_before m q n) l.tasks (q ∷ ys) n []
  at_end q ys e = place_end m n l.tasks q ys (shown e) (shown-Distinct e) (shown_fresh e)

  pub at_before :
      (x : ℕ) (xs : List ℕ) (q : ℕ) (ys : List ℕ)
      → contents v ≡ x ∷ xs ++ q ∷ ys
      → Placed m (link_before m q n) l.tasks (x ∷ xs) n (q ∷ ys)
  at_before x xs q ys e =
      place_before m n l.tasks x xs q ys (shown e) (shown-Distinct e) (shown_fresh e)

  pub at_after :
      (x : ℕ) (xs ys : List ℕ)
      → contents v ≡ x ∷ xs ++ ys
      → Placed m (link_after m (last_of x xs) n) l.tasks (x ∷ xs) n ys
  at_after x xs ys e = place_after m n l.tasks x xs ys (shown e) (shown-Distinct e) (shown_fresh e)
