-- ===== src/Tests/Batches.antt =====
-- Source/CBLBatcher.m, Source/CBLByteBuffer.m and Source/CBLCache.m at concrete inputs.
use couchbase_lite_ios.Base.{ℕ, ◌-◌, ◌≡◌, refl, true, some, List, [], ◌∷◌, ◌++◌, ltb, arith, All}
use couchbase_lite_ios.Base.Bytes.{codes}
use couchbase_lite_ios.Batcher.{
  Times, init_with_capacity, unschedule, schedule_with_delay, queue_objects, process_now,
}
use couchbase_lite_ios.Batcher.Delivery.{
  Logged, log, IsDelivering, begins, queues, fires, Reached-IsDelivering,
}
use couchbase_lite_ios.ByteBuffer.{init, bytes_of}
use couchbase_lite_ios.ByteBuffer.Contents.{
  IsBuffer, Call, appends, advances, compacts, run, run_list, appended, IsShort, run-run_list,
}
use mathlib.Core.Option

abbrev clock : Times
clock = record { Time = ℕ; nought = 0; elapsed = λ now last. now - last; less = ltb }

-- A batcher with capacity 2 that has been given one object, and then two.
abbrev queued_once : Logged clock ℕ
queued_once =
    queue_objects clock ℕ (List (List ℕ)) (log clock ℕ) 7 8 (10 ∷ [])
      (init_with_capacity clock ℕ (List (List ℕ)) 2 5 [])

abbrev queued_twice : Logged clock ℕ
queued_twice = queue_objects clock ℕ (List (List ℕ)) (log clock ℕ) 9 10 (20 ∷ 30 ∷ []) queued_once

abbrev given : List ℕ
given = ([] ++ (10 ∷ [])) ++ (20 ∷ 30 ∷ [])

abbrev fired : Logged clock ℕ
fired = process_now clock ℕ (List (List ℕ)) (log clock ℕ) 11 queued_twice

queued_twice_run : (queued_twice.world ≡ (10 ∷ 20 ∷ []) ∷ []) × (queued_twice.inbox ≡ 30 ∷ [])
unfolding queue_objects init_with_capacity process_now schedule_with_delay unschedule
queued_twice_run = (refl, refl)

queued_twice-scheduled : queued_twice.scheduled ≡ true
unfolding queue_objects init_with_capacity process_now schedule_with_delay unschedule
queued_twice-scheduled = refl

Reached-IsDelivering_example : IsDelivering clock ℕ given fired
Reached-IsDelivering_example = Reached-IsDelivering clock ℕ (
    fires 11 queued_twice-scheduled
      (queues 9 10 (20 ∷ 30 ∷ []) (queues 7 8 (10 ∷ []) (begins 2 5))))

abbrev calls : List Call
calls = appends (codes "abc") ∷ advances 2 ∷ appends (codes "de") ∷ compacts ∷ advances 1 ∷ []

init-IsBuffer : IsBuffer init (appended calls)
unfolding init
init-IsBuffer = record { offset_le = omega arith; length_lt = omega arith }

calls-IsShort : All IsShort calls
calls-IsShort = (tt, (omega arith, (tt, (tt, (omega arith, tt)))))

calls_run : run_list calls [] ≡ some (codes "de")
unfolding run_list Option.bind
calls_run = refl

run-run_list_example : Option.map bytes_of (run calls init) ≡ run_list calls (bytes_of init)
run-run_list_example = run-run_list calls init init-IsBuffer calls-IsShort
