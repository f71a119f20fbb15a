-- ===== src/Batcher.antt =====
-- Source/CBLBatcher.h and CBLBatcher.m: a queue of objects that are processed in batches. Times are of
-- a type with the operations that the code uses. The processor is a block of the client, which may call the
-- batcher again and changes the client's `world`. An inbox that is nil is empty.
pub mod Delivery
use couchbase_lite_ios.Base.{
  ℕ, zero, suc, Bool, true, false, not, ◌&&◌, List, [], ◌∷◌, ◌++◌, ltb, leb, ◌==◌, if◌then◌else◌,
  length, take, drop,
}

pub record Times : Type 1 where
  pub Time : Type 0
  pub nought : Time
  pub elapsed : Time → Time → Time
  pub less : Time → Time → Bool

module _ (times : Times) (Item World : Type 0) where
  open times use {Time, nought, elapsed, less}

  pub record Batcher : Type 0 where
    pub capacity : ℕ
    pub delay : Time
    pub inbox : List Item
    pub scheduled : Bool
    pub scheduled_delay : Time
    pub last_processed_time : Time
    pub world : World

  unfoldable pub init_with_capacity : ℕ → Time → World → Batcher
  init_with_capacity capacity delay world = record {
    capacity = capacity;
    delay = delay;
    inbox = [];
    scheduled = false;
    scheduled_delay = nought;
    last_processed_time = nought;
    world = world;
  }

  unfoldable pub unschedule : Batcher → Batcher
  unschedule b = record b { scheduled = false }

  unfoldable pub schedule_with_delay : Time → Batcher → Batcher
  unfolding unschedule
  schedule_with_delay delay b =
      let b' = if b.scheduled && less delay b.scheduled_delay then unschedule b else b in
      if b'.scheduled then b' else record b' { scheduled = true; scheduled_delay = delay }

  module _ (processor : List Item → Batcher → Batcher) where
    -- The call of the processor, after which it is `done`.
    abbrev pub processed : Time → List Item → Batcher → Batcher
    processed done to_process b = record (processor to_process b) { last_processed_time = done }

    unfoldable pub process_now : Time → Batcher → Batcher
    unfolding schedule_with_delay
    process_now done b =
        let b0 = unschedule b in
        if length b.inbox == 0
        then b0
        else if leb (length b.inbox) b.capacity
        then processed done b.inbox (record b0 { inbox = [] })
        else processed done (take b.capacity b.inbox)
            (schedule_with_delay nought (record b0 { inbox = drop b.capacity b.inbox }))

    -- `now` is the time of the call.
    abbrev pub queued : Time → Time → Batcher → Batcher
    queued now done b =
        if ltb (length b.inbox) b.capacity
        then schedule_with_delay
            (if less (elapsed now b.last_processed_time) b.delay then b.delay else nought) b
        else process_now done (unschedule b)

    unfoldable pub queue_objects : Time → Time → List Item → Batcher → Batcher
    unfolding process_now
    queue_objects now done objects b =
        if length objects == 0 then b else queued now done (record b { inbox = b.inbox ++ objects })

    unfoldable pub queue_object : Time → Time → Item → Batcher → Batcher
    unfolding queue_objects
    queue_object now done object b = queue_objects now done (object ∷ []) b

    unfoldable pub flush : Time → Batcher → Batcher
    unfolding process_now
    flush done b = process_now done (unschedule b)

    -- The loop of `flushAll`, as often as the fuel allows.
    unfoldable pub flush_all : ℕ → Time → Batcher → Batcher
    flush_all zero done b = b
    flush_all (suc fuel) done b =
        let rest =
          flush_all fuel done (processed done b.inbox (record (unschedule b) { inbox = [] })) in
        if length b.inbox == 0 then b else rest

  unfoldable pub clear : Batcher → Batcher
  clear b = record (unschedule b) { inbox = [] }

  -- The public methods of the header.
  pub record BatcherClass (B : Type 0) : Type 0 where
    pub init : ℕ → Time → World → B
    pub count : B → ℕ
    pub queue_object : Time → Time → Item → B → B
    pub queue_objects : Time → Time → List Item → B → B
    pub flush : Time → B → B
    pub flush_all : ℕ → Time → B → B
    pub clear : B → B

  unfoldable pub batcher : (processor : List Item → Batcher → Batcher) → BatcherClass Batcher
  batcher processor = record {
    init = init_with_capacity;
    count = λ b. length b.inbox;
    queue_object = queue_object processor;
    queue_objects = queue_objects processor;
    flush = flush processor;
    flush_all = flush_all processor;
    clear = clear;
  }
