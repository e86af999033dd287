-- ===== src/Circular/Refine.antt =====
-- The parent and the child of include/tswrite.h as a queue: what each of their steps comes to.
use mts_utils.Base.{
  ℕ, suc, ◌+◌, ◌%◌, ◌≤◌, ◌<◌, ◌≡◌, ◌⊎◌, List, [], ◌∷◌, ◌++◌, length, take, some, get_elem?, Bool,
  true, false,
}
use mts_utils.Circular.{CircularBuffer, CircularBufferItem, BufferedTsOutput}
use mts_utils.Circular.Steps.{
  Entry, packets, eof, Child, waiting, sending, stopped, Parent, filling, completed, marked, done,
  System, Queue,
}
use mts_utils.Circular.Held.{Held, in_use}

abbrev pub join : List (List ℕ) → List ℕ
join [] = []
join (bytes ∷ more) = bytes ++ join more

abbrev pub join_entries : List Entry → List ℕ
join_entries [] = []
join_entries (packets bytes ∷ more) = bytes ++ join_entries more
join_entries (eof ∷ more) = join_entries more

-- The steps of a queue that holds fewer entries than `size`.
pub data QueueStep (size : ℕ) : Queue → Queue → Type 0 where
  rest : (q : Queue) → QueueStep size q q
  put :
      (q : Queue) (bytes : List ℕ)
      → q.closing ≡ false
      → QueueStep size q (record q { current = q.current ++ bytes })
  commit :
      (q : Queue)
      → q.closing ≡ false
      → suc (length q.entries) < size
      → QueueStep size q (record q { entries = q.entries ++ packets q.current ∷ []; current = [] })
  close :
      (q : Queue)
      → q.closing ≡ false
      → q.current ≡ []
      → suc (length q.entries) < size
      → QueueStep size q (record q { entries = q.entries ++ eof ∷ []; closing = true })
  take_out :
      (q : Queue) (bytes : List ℕ) (more : List Entry)
      → q.entries ≡ packets bytes ∷ more
      → QueueStep size q (record q { entries = more; out = q.out ++ bytes ∷ [] })
  finish :
      (q : Queue) (more : List Entry)
      → q.entries ≡ eof ∷ more
      → QueueStep size q (record q { entries = more; closed = true })

-- The item that the parent fills: its bytes, and room for more.
pub record Fills (items : List CircularBufferItem) (which : ℕ) (current : List ℕ) : Type 0 where
  pub it : CircularBufferItem
  pub there : get_elem? items which ≡ some it
  pub bytes : take it.length it.cells ≡ current
  pub whole : (it.length ≡ 0) ⊎ (188 ≤ it.length)
  pub inside : it.length ≤ length it.cells

abbrev pub HasRoom : BufferedTsOutput → Child → List Entry → Type 0
HasRoom writer child entries = suc (in_use child (length entries)) < writer.buffer.size

-- What the parent has in hand, at each of its stages.
abbrev pub Hand : Bool → BufferedTsOutput → Child → Queue → Type 0
Hand true writer child q =
    HasRoom writer child q.entries × Fills writer.buffer.item writer.which q.current
Hand false writer child q = q.current ≡ []

abbrev pub Stage : Parent → BufferedTsOutput → Child → Queue → Type 0
Stage filling writer child q =
    (writer.buffer.pending ≡ writer.buffer.end)
    × (writer.which ≡ (writer.buffer.end + 1) % writer.buffer.size)
    × Hand writer.started writer child q
Stage completed writer child q = (writer.which ≡ writer.buffer.end) × (q.current ≡ [])
Stage marked writer child q =
    (writer.buffer.pending ≡ writer.buffer.end)
    × HasRoom writer child q.entries
    × ((it : CircularBufferItem) × (get_elem? writer.buffer.item
            ((writer.buffer.end + 1) % writer.buffer.size)
          ≡ some it)
        × (it.length ≡ 1)
        × (get_elem? it.cells 0 ≡ some 1))
    × (q.current ≡ [])
Stage done writer child q = q.current ≡ []

abbrev pub is_done : Parent → Bool
is_done filling = false
is_done completed = false
is_done marked = false
is_done done = true

abbrev pub is_stopped : Child → Bool
is_stopped waiting = false
is_stopped sending = false
is_stopped stopped = true

abbrev pub HeldBy : CircularBuffer → Child → List Entry → Type 0
HeldBy b child entries = Held b.start b.end b.size b.item_size b.item child entries

pub record Represents (s : System) (q : Queue) : Type 0 where
  pub held : HeldBy s.writer.buffer s.child q.entries
  pub stage : Stage s.parent s.writer s.child q
  pub sent : s.sent ≡ q.out
  pub closing : q.closing ≡ is_done s.parent
  pub closed : q.closed ≡ is_stopped s.child
  pub handed : s.handed ≡ join q.out ++ (join_entries q.entries ++ q.current)

-- A step is matched by one of the queue.
pub record Matches (size : ℕ) (t : System) (q : Queue) : Type 0 where
  pub after : Queue
  pub step : QueueStep size q after
  pub represents : Represents t after
