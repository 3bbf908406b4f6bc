-- ===== src/Pthreads/Zemaphore/Tests.antt =====
-- Runs of the semaphore.
use operating_systems_labwor.Base.{◌+◌, ◌≡◌, refl, List, [], ◌∷◌, pos}
use operating_systems_labwor.Pthreads.Zemaphore.{
  zem_init, decrement, increment, is_negative, zem_down, let_go, signal, zem_up, Call, down, up,
  wait_ends, run_call, run_calls,
}
use operating_systems_labwor.Pthreads.Zemaphore.Laws.{
  count_downs, count_ups, count_early, LetsThrough, run_calls_lem,
}

-- One wait ends by itself, and two go on at one signal.
abbrev calls : List Call
calls = down ∷ down ∷ wait_ends ∷ down ∷ down ∷ up 1 ∷ down ∷ []

one_waits : (run_calls calls (zem_init (pos 1))).waiting ≡ 1
unfolding run_calls run_call zem_init zem_down zem_up signal let_go decrement increment is_negative
one_waits = refl

-- A wait that ends without a signal, as POSIX allows, lets a thread through without a permit.
early_end : (run_calls (down ∷ wait_ends ∷ []) (zem_init (pos 0))).passed ≡ 1
unfolding run_calls run_call zem_init zem_down let_go decrement is_negative
early_end = refl

run_calls_lem_example :
    LetsThrough
      (1 + count_ups calls)
      (count_downs calls)
      (count_early calls)
      (run_calls calls (zem_init (pos 1)))
run_calls_lem_example = run_calls_lem 1 calls
