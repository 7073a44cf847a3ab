-- ===== src/Depend/Runs.antt =====
-- The creation and the end of the children of one task, in any order that the counters allow.
use ulmt_open_mp_gcc.Base.{ℕ, ◌≡◌, refl, ◌∙◌, Bool, true, arith, List, [], ◌∷◌, none}
use ulmt_open_mp_gcc.Depend.{Depends, handle_depend, post_handle_depend}
use ulmt_open_mp_gcc.Depend.Count.{occurs, less}
use ulmt_open_mp_gcc.Depend.Counted.{IsCounted}
use ulmt_open_mp_gcc.Depend.Create.{handle_depend-IsCounted}
use ulmt_open_mp_gcc.Depend.Finish.{post_handle_depend-IsCounted, post_handle_depend-fewer}
use ulmt_open_mp_gcc.Depend.Order.{
  IsOrdered, IsOrdered-smaller, IsOrdered-less, handle_depend-IsOrdered, oldest, oldest-waits,
}

-- No task has dependences.
abbrev pub no_depends : Depends
no_depends = record {
  chain = λ a. [];
  dependers = λ t. none;
  num_dependees = λ t. 0;
  depend = λ t. [];
}

-- The tasks that are not finished, the newest first, and the state. A task ends only when it waits for
-- none.
pub data Runs : List ℕ → Depends → Type 0 where
  start : Runs [] no_depends
  create :
      (tasks : List ℕ) (d : Depends) (task nout addr : ℕ) (addrs : List ℕ)
      → Runs tasks d
      → occurs task tasks ≡ 0
      → Runs (task ∷ tasks) (handle_depend task nout (addr ∷ addrs) d)
  finish :
      (tasks : List ℕ) (d : Depends) (child : ℕ) (c : ℕ × Bool) (cs : List (ℕ × Bool))
      → Runs tasks d
      → occurs child tasks ≡ 1
      → d.num_dependees child ≡ 0
      → d.depend child ≡ c ∷ cs
      → Runs (less child tasks) (post_handle_depend true child d).1

pub no_depends-IsCounted : IsCounted [] no_depends
no_depends-IsCounted = record {
  once = λ t. omega arith;
  entries = λ a. tt;
  known = λ u t h. refl;
  idle = λ u t h. refl;
  placed = λ t a h. refl;
  counted = λ t h. refl;
}

pub Runs-IsCounted :
    (tasks : List ℕ) (d : Depends) → Runs tasks d → IsCounted tasks d × IsOrdered tasks d.dependers
Runs-IsCounted tasks d start = (no_depends-IsCounted, tt)
Runs-IsCounted tasks d (create older e task nout addr addrs r f) =
    let (v, o) = Runs-IsCounted older e r in
    (
      handle_depend-IsCounted older e task nout (addr ∷ addrs) v f,
      handle_depend-IsOrdered older e task nout (addr ∷ addrs) v f o,
    )
Runs-IsCounted tasks d (finish all e child c cs r p z q) =
    let (v, o) = Runs-IsCounted all e r in
    (
      (post_handle_depend-IsCounted all e child c cs v p z q).0,
      IsOrdered-less child all (post_handle_depend true child e).1.dependers (
          IsOrdered-smaller all e.dependers (post_handle_depend true child e).1.dependers
            (λ u t h k. post_handle_depend-fewer all e child c cs v p q u t k) o),
    )

-- While there are tasks with dependences, the oldest of them waits for none: the tasks never wait for
-- each other in a circle.
pub oldest-ready :
    (x : ℕ) (xs : List ℕ) (d : Depends)
    → Runs (x ∷ xs) d
    → (occurs (oldest x xs) (x ∷ xs) ≡ 1) × (d.num_dependees (oldest x xs) ≡ 0)
oldest-ready x xs d r =
    let (v, o) = Runs-IsCounted (x ∷ xs) d r in
    let (p, w) = oldest-waits x xs d.dependers o in
    let once = v.once (oldest x xs) in
    let one : occurs (oldest x xs) (x ∷ xs) ≡ 1 = omega (arith, p, once) in
    (one, v.counted (oldest x xs) one ∙ w)
