-- ===== src/Queue/Tests.antt =====
-- Runs of the queue (src/connection/MessageQueue.ts), and the theorem at concrete inputs.
use network_old.Base.{ℕ, ◌≡◌, refl, true, List, [], ◌∷◌, some, err, length, is_empty, arith}
use network_old.Queue.{
  QueueItem, missing, new_item, increment_tries, HeapOperations, MessageQueue, queue_size, peek,
  pop_message, empty, clear_queue, make_room, add_message,
}
use network_old.Queue.Order.{
  insert_in_order, first_of, rest_of, IsHeap, QueueOperation, added, popped, Run, fifo_steps,
  queue_step, queue_steps, Holds,
}
use network_old.Queue.Steps.{queue_steps-Holds}

program : Unit {0}
unfolding increment_tries queue_size peek pop_message empty clear_queue make_room add_message
    queue_step queue_steps
program = tt

-- A heap that is a list in order.
abbrev list_operations : HeapOperations (List (QueueItem ℕ)) (QueueItem ℕ)
list_operations = record {
  push_item = insert_in_order;
  peek_item = first_of;
  pop_item = λ h. (first_of h, rest_of h);
  item_count = length;
  has_no_item = is_empty;
  clear_items = λ h. [];
}

abbrev list-IsHeap : IsHeap list_operations
list-IsHeap = record {
  contents = λ h. h;
  contents-push = λ x h. refl;
  pop_first = λ h. refl;
  contents-pop = λ h. refl;
  contents-clear = λ h. refl;
  item_count_lem = λ h. refl;
}

abbrev new_queue : Run (MessageQueue (List (QueueItem ℕ))) ℕ
new_queue = record { queue = record { heap = []; max_size = 2 }; given = [] }

abbrev operations : List (QueueOperation ℕ)
operations = added 10 ∷ added 20 ∷ added 30 ∷ popped ∷ []

runs :
    fifo_steps 2 (record { queue = []; given = [] }) operations
    ≡ record { queue = 30 ∷ []; given = some 20 ∷ [] }
runs = refl

-- A queue whose limit is 0 throws.
no_room : add_message list_operations 0 5 (record { heap = []; max_size = 0 }) ≡ err missing
unfolding program
no_room = refl

ten_tries : (increment_tries {M = ℕ} 0 (record (new_item 0 5) { tries = 9 })).failed ≡ true
unfolding program
ten_tries = refl

queue_steps-Holds_example :
    Holds list-IsHeap 4 2
      (fifo_steps 2 (record { queue = []; given = [] }) operations)
      (queue_steps list_operations 0 new_queue operations)
queue_steps-Holds_example =
    queue_steps-Holds list-IsHeap 0 1 new_queue (record { queue = []; given = [] }) operations
      (refl, refl, omega arith, refl, tt)
