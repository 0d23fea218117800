-- ===== src/Engine/Ring.antt =====
-- services/matching-engine/internal/market/ring_buffer.go: the last event ids, in a ring of a fixed
-- capacity (50,000 in the source). The array is a function from its indices; 0 is `uuid.Nil`.
use tradedrift.Base.{ℕ, ◌+◌, ◌%◌, ◌==◌, if◌then◌else◌}

pub record EventRingBuffer : Type 0 where
  pub slots : ℕ → ℕ
  pub head : ℕ
  pub count : ℕ

abbrev pub ring_buffer_capacity : ℕ
ring_buffer_capacity = 50000

abbrev pub new_ring : EventRingBuffer
new_ring = record { slots = λ i. 0; head = 0; count = 0 }

-- `r.slots[i] = id`
abbrev pub put : (ℕ → ℕ) → ℕ → ℕ → ℕ → ℕ
put slots i id j = if j == i then id else slots j

-- The ring after `add`, and the id that fell out, or 0.
unfoldable pub add : ℕ → EventRingBuffer → ℕ → EventRingBuffer × ℕ
add capacity r id =
    if r.count == capacity
    then (
      record { slots = put r.slots r.head id; head = (r.head + 1) % capacity; count = r.count },
      r.slots r.head,
    )
    else (
      record r { slots = put r.slots ((r.head + r.count) % capacity) id; count = r.count + 1 },
      0,
    )
