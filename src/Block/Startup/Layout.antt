-- ===== src/Block/Startup/Layout.antt =====
-- The rings of the queue that block_init sets up in three pages, for every queue size it accepts.
use cone_os.Block.Startup.{available_offset, used_offset}
use cone_os.Prelude.{ℕ, ◌+◌, ◌*◌, ◌≤◌, page_size, arith}

-- The available ring ends before the used ring starts, and the used ring ends within the pages.
pub rings_fit :
    (queue_size : ℕ)
    → 8 ≤ queue_size
    → queue_size ≤ 256
    → (available_offset queue_size + 4 + 2 * queue_size ≤ used_offset queue_size)
      × (used_offset queue_size + 6 + 8 * queue_size ≤ 3 * page_size)
rings_fit queue_size h k = (omega arith, omega arith)
