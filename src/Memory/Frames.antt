-- ===== src/Memory/Frames.antt =====
-- Physical memory as the frame allocator sees it, and the intrusive stack of frames of mm/pmm.cpp:
-- the first word of a free frame holds the address of the next.
pub mod Stack
use archipelago.Prelude.{
  ℕ, ◌+◌, ◌-◌, ◌*◌, ◌^◌, Bool, true, false, Option, none, some, List, [], ◌∷◌, ◌==◌, if◌then◌else◌,
}

abbrev pub page_size : ℕ
page_size = 0x1000

-- The first word of a frame, and whether all its other bytes are zero.
pub record Frame : Type 0 where
  pub word : ℕ
  pub clean : Bool

abbrev pub zero_frame : Frame
zero_frame = record { word = 0; clean = true }

-- The frames by their physical address.
abbrev pub Memory : Type 0
Memory = ℕ → Frame

unfoldable pub store : Memory → ℕ → Frame → Memory
store m addr frame x = if x == addr then frame else m x

abbrev pub set_word : Memory → ℕ → ℕ → Memory
set_word m addr word = store m addr (record (m addr) { word = word })

abbrev pub zero_page : Memory → ℕ → Memory
zero_page m addr = store m addr zero_frame

-- `frame_stack`.
pub record FrameStack : Type 0 where
  pub head : ℕ
  pub count : ℕ

-- `NIL`, the complement of 0.
abbrev pub nil : ℕ
nil = 0xffff_ffff_ffff_ffff

abbrev pub empty_stack : FrameStack
empty_stack = record { head = nil; count = 0 }

unfoldable pub push : Memory → FrameStack → ℕ → Memory × FrameStack
push m s addr = (set_word m addr s.head, record { head = addr; count = s.count + 1 })

unfoldable pub pop : Memory → FrameStack → Option ℕ × Memory × FrameStack
pop m s =
    if s.head == nil
    then (none, m, s)
    else (some s.head, set_word m s.head 0, record { head = (m s.head).word; count = s.count - 1 })
