-- ===== src/Runner.antt =====
-- cmd/runner: the process inside a sandbox. helpers.go: the buffer of terminal output and the check
-- of paths.
pub mod Limits
pub mod Paths
pub mod Output
pub mod Buffer
pub mod Files
use sandkasten.Base.{
  ℕ, ◌+◌, ◌-◌, ◌*◌, Bool, true, false, ◌&&◌, ◌||◌, not, Option, none, some, List, [], ◌∷◌, ◌++◌,
  length, drop, ltb, if◌then◌else◌,
}
use sandkasten.Base.Text.{Bytes, codes, str_eq, has_prefix}
use sandkasten.Base.Path.{is_abs, join, clean}

-- ringBuffer
pub record RingBuffer : Type 0 where
  pub content : Bytes
  pub capacity : ℕ

-- newRingBuffer
unfoldable pub new_ring_buffer : ℕ → RingBuffer
new_ring_buffer capacity = record { content = []; capacity = capacity }

-- The part of an appended text that stays: its end.
unfoldable pub last_bytes : ℕ → Bytes → Bytes
last_bytes n s = if ltb n (length s) then drop (length s - n) s else s

-- (*ringBuffer).Write
pub write_buffer : RingBuffer → Bytes → RingBuffer
write_buffer rb p = record rb { content = last_bytes rb.capacity (rb.content ++ p) }

-- (*ringBuffer).ReadAndReset
pub read_and_reset : RingBuffer → Bytes × RingBuffer
read_and_reset rb = (rb.content, record rb { content = [] })

-- sanitizePath
unfoldable pub sanitize_path : Bytes → Option Bytes
sanitize_path p =
    let target = clean (if is_abs p then p else join (codes "/workspace") p) in
    if not (has_prefix (codes "/workspace/") target) && not (str_eq target (codes "/workspace"))
    then none
    else some target
