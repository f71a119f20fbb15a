-- ===== src/Batcher/Delivery.antt =====
-- Source/CBLBatcher.m: what is queued is processed once and in order, when the processor keeps a log.
use couchbase_lite_ios.Base.{
  ℕ, zero, suc, ◌≡◌, ◌≢◌, refl, sym, ap, ◌∙◌, true, false, ◌&&◌, List, [], ◌∷◌, ◌++◌, ltb, leb,
  ◌==◌, if◌then◌else◌, length, take, drop, arith,
}
use couchbase_lite_ios.Batcher.{
  Times, Batcher, init_with_capacity, unschedule, schedule_with_delay, process_now, queue_objects,
  flush, flush_all,
}
use couchbase_lite_ios.Differ.Steps.{pick-lem}
use mathlib.Core.List.{append_assoc, append-nil}

abbrev pub join_batches : {A : Type 0} → List (List A) → List A
join_batches [] = []
join_batches (b ∷ bs) = b ++ join_batches bs

join_batches-append :
    {A : Type 0} (bs : List (List A)) (b : List A)
    → join_batches (bs ++ (b ∷ [])) ≡ join_batches bs ++ b
join_batches-append [] b = append-nil b
join_batches-append (c ∷ bs) b =
    ap (λ xs. c ++ xs) (join_batches-append bs b) ∙ sym (append_assoc c (join_batches bs) b)

take_append_drop : {A : Type 0} (n : ℕ) (xs : List A) → take n xs ++ drop n xs ≡ xs
take_append_drop zero xs = refl
take_append_drop (suc n) [] = refl
take_append_drop (suc n) (x ∷ xs) = ap (◌∷◌ x) (take_append_drop n xs)

length_zero : {A : Type 0} (xs : List A) → (length xs == 0) ≡ true → xs ≡ []
length_zero [] h = refl
length_zero (x ∷ xs) h = absurd (ground (arith, h))

module _ (times : Times) (Item : Type 0) where
  open times use {Time}

  abbrev pub Logged : Type 0
  Logged = Batcher times Item (List (List Item))

  -- A processor that writes its batches down.
  abbrev pub log : List Item → Logged → Logged
  log batch b = record b { world = b.world ++ (batch ∷ []) }

  -- All that was processed and all that waits is what was queued, and while objects wait, a timer is set.
  pub record IsDelivering (given : List Item) (b : Logged) : Type 0 where
    pub in_order : join_batches b.world ++ b.inbox ≡ given
    pub timer : b.inbox ≢ [] → b.scheduled ≡ true

  -- A timer is set, and nothing else has changed.
  record IsScheduled (b b' : Logged) : Type 0 where
    same_world : b'.world ≡ b.world
    same_inbox : b'.inbox ≡ b.inbox
    scheduled : b'.scheduled ≡ true

  schedule_with_delay-IsScheduled :
      (delay : Time) (b : Logged)
      → IsScheduled b (schedule_with_delay times Item (List (List Item)) delay b)
  unfolding schedule_with_delay unschedule
  schedule_with_delay-IsScheduled delay b =
      pick-lem
        (λ (b' : Logged).
          IsScheduled b
            (if b'.scheduled then b' else record b' { scheduled = true; scheduled_delay = delay }))
        (b.scheduled && times.less delay b.scheduled_delay) _ _
        (λ e. record { same_world = refl; same_inbox = refl; scheduled = refl })
        (λ e.
          pick-lem (IsScheduled b) b.scheduled _ _
            (λ on. record { same_world = refl; same_inbox = refl; scheduled = on })
            (λ off. record { same_world = refl; same_inbox = refl; scheduled = refl }))

  IsScheduled-IsDelivering :
      (given : List Item) (b b' : Logged)
      → join_batches b.world ++ b.inbox ≡ given
      → IsScheduled b b'
      → IsDelivering given b'
  IsScheduled-IsDelivering given b b' h k = record {
    in_order = rw (k.same_world, k.same_inbox) h;
    timer = λ n. k.scheduled;
  }

  process_now-IsDelivering :
      (done : Time) (given : List Item) (b : Logged)
      → join_batches b.world ++ b.inbox ≡ given
      → IsDelivering given (process_now times Item (List (List Item)) log done b)
  unfolding process_now unschedule
  process_now-IsDelivering done given b h =
      pick-lem (IsDelivering given) (length b.inbox == 0) _ _
        (λ e. record { in_order = h; timer = λ n. absurd (n (length_zero b.inbox e)) })
        (λ e.
          pick-lem (IsDelivering given) (leb (length b.inbox) b.capacity) _ _
            (λ small. record {
              in_order =
                  append-nil (join_batches (b.world ++ (b.inbox ∷ [])))
                  ∙ join_batches-append b.world b.inbox
                  ∙ h;
              timer = λ n. absurd (n refl);
            })
            (λ large.
              let set =
                schedule_with_delay-IsScheduled times.nought
                  (record b { scheduled = false; inbox = drop b.capacity b.inbox }) in
              record {
                in_order =
                    rw
                      (
                        set.same_world, set.same_inbox, join_batches-append, append_assoc,
                        take_append_drop,
                      )
                      h;
                timer = λ n. set.scheduled;
              }))

  queue_objects-IsDelivering :
      (now done : Time) (objects given : List Item) (b : Logged)
      → IsDelivering given b
      → IsDelivering
          (given ++ objects)
          (queue_objects times Item (List (List Item)) log now done objects b)
  unfolding queue_objects unschedule
  queue_objects-IsDelivering now done objects given b w =
      pick-lem (IsDelivering (given ++ objects)) (length objects == 0) _ _
        (λ e. record {
          in_order =
              w.in_order
              ∙ sym (append-nil given)
              ∙ ap (λ xs. given ++ xs) (sym (length_zero objects e));
          timer = w.timer;
        })
        (λ e.
          let all =
            sym (append_assoc (join_batches b.world) b.inbox objects)
            ∙ ap (λ xs. xs ++ objects) w.in_order in
          pick-lem (IsDelivering (given ++ objects)) (ltb (length (b.inbox ++ objects)) b.capacity)
            _ _
            (λ room.
              IsScheduled-IsDelivering (given ++ objects) (record b { inbox = b.inbox ++ objects })
                _ all (schedule_with_delay-IsScheduled _ _))
            (λ full.
              process_now-IsDelivering done (given ++ objects)
                (record b { inbox = b.inbox ++ objects; scheduled = false }) all))

  flush_all-IsDelivering :
      (fuel : ℕ) (done : Time) (given : List Item) (b : Logged)
      → IsDelivering given b
      → IsDelivering given (flush_all times Item (List (List Item)) log fuel done b)
  unfolding flush_all unschedule
  flush_all-IsDelivering zero done given b w = w
  flush_all-IsDelivering (suc fuel) done given b w =
      pick-lem (IsDelivering given) (length b.inbox == 0) _ _ (λ e. w)
        (λ e.
          flush_all-IsDelivering fuel done given
            (record b {
              scheduled = false;
              inbox = [];
              last_processed_time = done;
              world = b.world ++ (b.inbox ∷ []);
            })
            (record {
              in_order =
                  append-nil (join_batches (b.world ++ (b.inbox ∷ [])))
                  ∙ join_batches-append b.world b.inbox
                  ∙ w.in_order;
              timer = λ n. absurd (n refl);
            }))

  flush_all_empty :
      (fuel : ℕ) (done : Time) (b : Logged)
      → b.inbox ≡ []
      → (flush_all times Item (List (List Item)) log fuel done b).inbox ≡ []
  unfolding flush_all unschedule
  flush_all_empty zero done b h = h
  flush_all_empty (suc fuel) done b h =
      pick-lem (λ (b' : Logged). b'.inbox ≡ []) (length b.inbox == 0) _ _ (λ e. h)
        (λ e. flush_all_empty fuel done _ refl)

  -- `flushAll` ends after one pass of its loop: with any fuel but none, the inbox is empty.
  pub flush_all-inbox :
      (fuel : ℕ) (done : Time) (b : Logged)
      → (flush_all times Item (List (List Item)) log (suc fuel) done b).inbox ≡ []
  unfolding flush_all unschedule
  flush_all-inbox fuel done b =
      pick-lem (λ (b' : Logged). b'.inbox ≡ []) (length b.inbox == 0) _ _
        (λ e. length_zero b.inbox e) (λ e. flush_all_empty fuel done _ refl)

  -- A state that the batcher reaches, with all that it was given.
  pub data Reached : List Item → Logged → Type 0 where
    begins :
        (capacity : ℕ) (delay : Time)
        → Reached [] (init_with_capacity times Item (List (List Item)) capacity delay [])
    queues :
        {given : List Item} {b : Logged} (now done : Time) (objects : List Item)
        → Reached given b
        → Reached
            (given ++ objects)
            (queue_objects times Item (List (List Item)) log now done objects b)
    flushes :
        {given : List Item} {b : Logged} (done : Time)
        → Reached given b
        → Reached given (flush times Item (List (List Item)) log done b)
    flushes_all :
        {given : List Item} {b : Logged} (fuel : ℕ) (done : Time)
        → Reached given b
        → Reached given (flush_all times Item (List (List Item)) log fuel done b)
    fires :
        {given : List Item} {b : Logged} (done : Time)
        → b.scheduled ≡ true
        → Reached given b
        → Reached given (process_now times Item (List (List Item)) log done b)

  -- In every state that is reached by queueing, flushing and timers, the processed batches one after the other,
  -- followed by the inbox, are the objects that were queued, in their order; and while the inbox is
  -- not empty a timer is set.
  pub Reached-IsDelivering :
      {given : List Item} {b : Logged} → Reached given b → IsDelivering given b
  unfolding init_with_capacity flush unschedule
  Reached-IsDelivering (begins capacity delay) = record {
    in_order = refl;
    timer = λ n. absurd (n refl);
  }
  Reached-IsDelivering (queues now done objects r) =
      queue_objects-IsDelivering now done objects _ _ (Reached-IsDelivering r)
  Reached-IsDelivering (flushes {given} {b} done r) =
      process_now-IsDelivering done given (record b { scheduled = false })
        (Reached-IsDelivering r).in_order
  Reached-IsDelivering (flushes_all fuel done r) =
      flush_all-IsDelivering fuel done _ _ (Reached-IsDelivering r)
  Reached-IsDelivering (fires {given} {b} done on r) =
      process_now-IsDelivering done given b (Reached-IsDelivering r).in_order
