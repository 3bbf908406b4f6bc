-- ===== src/Xv6/Barrier/Tests.antt =====
-- Runs of the barrier, and its theorem at a state that it reaches.
use operating_systems_labwor.Base.{◌≡◌, refl, arith}
use operating_systems_labwor.Xv6.Barrier.{
  Barrier, barrier_init, wakeup_glbl, finish, barrier_check, Reach, init, checks,
}
use operating_systems_labwor.Xv6.Barrier.Laws.{FirstRound, Reach-FirstRound}

-- Of two threads one waits, the other comes, passes, and calls barrier_check again before the first has
-- the lock: it passes the second round alone.
passes_alone : (barrier_check (barrier_check (barrier_check (barrier_init 2)))).passed ≡ 2
unfolding barrier_init barrier_check wakeup_glbl finish
passes_alone = refl

-- Two of three threads.
two_inside : Barrier
two_inside = barrier_check (barrier_check (barrier_init 3))

two_inside-Reach : Reach 3 2 two_inside
unfolding two_inside
two_inside-Reach = checks (checks init)

Reach-FirstRound_example : FirstRound 3 2 two_inside
Reach-FirstRound_example =
    Reach-FirstRound 3 2 two_inside (omega arith) (omega arith) two_inside-Reach
