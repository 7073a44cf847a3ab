-- ===== src/Ordered/Tests.antt =====
-- A team of 3 threads: threads 2 and 0 register and thread 2 gets in.
use ulmt_open_mp_gcc.Base.{◌-◌, ◌≡◌, refl, [], ◌∷◌, some, arith, update}
use ulmt_open_mp_gcc.Ordered.{
  OrderedShare, ordered_first, ordered_last, ordered_next, ordered_sync, queue, Step, first, sync,
  next, Reaches, done, more, fresh,
}
use ulmt_open_mp_gcc.Ordered.Steps.{
  Turn, Move, ordered_sync-Turn, queue-Move, ordered_first-ordered_last,
}

abbrev one_waits : OrderedShare
one_waits = ordered_first 3 2 fresh

abbrev two_wait : OrderedShare
two_wait = ordered_first 3 0 one_waits

two_wait-Reaches : Reaches 3 fresh two_wait
unfolding ordered_first
two_wait-Reaches =
    more fresh one_waits two_wait
      (more fresh fresh one_waits (done fresh) (first fresh 2 (omega arith) tt))
      (first one_waits 0 (omega arith) ((ground arith), tt))

-- Thread 2 is the owner.
abbrev inside : OrderedShare
inside = record two_wait {
  ordered_owner = 2;
  ordered_release = update two_wait.ordered_release 2 (two_wait.ordered_release 2 - 1);
}

entering : ordered_sync 3 2 two_wait ≡ some inside
unfolding ordered_first ordered_sync
entering = refl

inside-Reaches : Reaches 3 fresh inside
inside-Reaches =
    more fresh two_wait inside two_wait-Reaches (sync two_wait inside 2 (omega arith) entering)

waiting : queue 3 two_wait ≡ 2 ∷ 0 ∷ []
unfolding ordered_first
waiting = refl

behind : queue 3 (ordered_next 3 2 inside) ≡ 0 ∷ 2 ∷ []
unfolding ordered_first ordered_next
behind = refl

out : queue 3 (ordered_last 3 2 inside) ≡ 0 ∷ []
unfolding ordered_first ordered_last
out = refl

ordered_sync-Turn_example : Turn 3 two_wait 0
ordered_sync-Turn_example =
    ordered_sync-Turn 3 two_wait 0 (omega arith) (omega arith) two_wait-Reaches (omega arith)

passing : Step 3 inside (ordered_next 3 2 inside)
passing = next inside 2 (omega arith) refl

queue-Move_example : Move passing (queue 3 inside) (queue 3 (ordered_next 3 2 inside))
queue-Move_example =
    queue-Move 3 inside (ordered_next 3 2 inside) (omega arith) (omega arith) inside-Reaches passing

ordered_first-ordered_last_example :
    queue 3 (ordered_first 3 2 (ordered_last 3 2 inside)) ≡ queue 3 (ordered_next 3 2 inside)
ordered_first-ordered_last_example =
    ordered_first-ordered_last 3 inside 2 (omega arith) (omega arith) inside-Reaches (omega arith)
      refl
