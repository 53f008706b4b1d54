-- ===== src/Pkt.antt =====
-- src/net/pktbuf.h and src/net/pktbuf.cc: packets as lists of blocks.
-- `PktManager` keeps two pools; the blocks lie in a store that is indexed by their pointers, so two
-- lists that hold one pointer share the block. A position in a block's payload is its offset from
-- `m_payload`. This file has the data, the manager and the small accessors; the operations that
-- change the list of blocks are in Pkt/Shape and Pkt/Resize, those that move the cursor in Pkt/Access.
pub mod View
pub mod Shape
pub mod Resize
pub mod Access
use tinytcp.Base.{
  ℕ, ◌+◌, ◌-◌, ◌≤◌, Bool, true, false, ◌&&◌, Option, none, some, List, [], ◌∷◌, ltb, leb, ◌==◌,
  if◌then◌else◌, length, slice, overwrite, add32, sub32, sub64,
}
use tinytcp.Memblock
use tinytcp.Memblock.{MemBlock, Ptr, null}
use tinytcp.NetErr.{NetErr, net_err_ok, Run, ok, fault, ◌>>=◌}

-- `PktBlock`: `payload` holds the bytes at `m_payload`, `offset` is `m_data - m_payload`.
pub record PktBlock : Type 0 where
  pub size : ℕ
  pub offset : ℕ
  pub payload : List ℕ

-- `PktBuffer`. An iterator of the list is the pointer that its node holds, `none` the end iterator;
-- `blk_offset` is the place that `m_blk_offset` has in the current block.
pub record PktBuffer : Type 0 where
  pub capacity : ℕ
  pub blk_list : List Ptr
  pub pos : ℕ
  pub cur_blk : Option Ptr
  pub blk_offset : ℕ
  pub ref : ℕ

-- `PktManager` with the blocks themselves; `blk_size` is the setting `tcp.pktbuf_blk_size`.
pub record PktManager : Type 0 where
  pub blk_size : ℕ
  pub blocks : Ptr → PktBlock
  pub pkt_blk : MemBlock
  pub pkt_buf : MemBlock

abbrev pub update : (Ptr → PktBlock) → Ptr → PktBlock → Ptr → PktBlock
update h p b q = if q == p then b else h q

abbrev pub put_block : Ptr → PktBlock → PktManager → PktManager
put_block p b m = record m { blocks = update m.blocks p b }

-- Following a pointer to a block.
unfoldable pub deref : PktManager → Ptr → Run PktBlock
deref m p = if p == null then fault else ok (m.blocks p)

-- `PktBlock::reset`
pub reset_block : PktBlock → PktBlock
reset_block b = record b { size = 0; offset = 0 }

-- `PktBlock::get_last_size`
unfoldable pub get_last_size : PktManager → PktBlock → ℕ
get_last_size m b = sub64 m.blk_size (b.offset + b.size)

-- `PktManager::get_pktblock`
pub get_pktblock : PktManager → Option Ptr × PktManager
unfolding reset_block
get_pktblock m =
    let (out, pool) = Memblock.alloc m.pkt_blk in
    elim out [
      | none ↦ (none, record m { pkt_blk = pool })
      | some p ↦ (some p, put_block p (reset_block (m.blocks p)) (record m { pkt_blk = pool }))
    ]

-- `PktManager::release_pktblock`; a full queue is not reported.
pub release_pktblock : Ptr → PktManager → PktManager
release_pktblock p m = record m { pkt_blk = (Memblock.free p m.pkt_blk).1 }

-- `PktManager::get_pktbuffer`, without `PktBuffer::reset`.
unfoldable pub get_pktbuffer : PktManager → Option Ptr × PktManager
get_pktbuffer m = let (out, pool) = Memblock.alloc m.pkt_buf in (out, record m { pkt_buf = pool })

pub release_pktbuffer : Ptr → PktManager → PktManager
release_pktbuffer p m = record m { pkt_buf = (Memblock.free p m.pkt_buf).1 }

-- `PktBuffer::init` and `PktBuffer::reset` are the same: list and cursor stay.
unfoldable pub reset : PktBuffer → PktBuffer
reset b = record b { capacity = 0; ref = 1 }

pub reset_access : PktManager → PktBuffer → Run PktBuffer
reset_access m b = elim b.blk_list [
  | [] ↦ ok (record b { pos = 0; cur_blk = none; blk_offset = 0 })
  | p ∷ ps ↦ do
    blk ← deref m p
    ok (record b { pos = 0; cur_blk = some p; blk_offset = blk.offset })
]

-- `PktBuffer::get_data`; `none` is the null pointer.
pub get_data : PktManager → PktBuffer → Run (Option (Ptr × ℕ))
get_data m b = elim b.blk_list [
  | [] ↦ ok none
  | p ∷ ps ↦ do blk ← deref m p; ok (some (p, blk.offset))
]

pub total_blk_remain : PktBuffer → ℕ
total_blk_remain b = sub32 b.capacity b.pos

pub add_ref : PktBuffer → PktBuffer
add_ref b = record b { ref = add32 b.ref 1 }

-- Reading and writing bytes of a payload, inside the payload.
pub load_bytes : PktManager → Ptr → (at n : ℕ) → Run (List ℕ)
unfolding deref
load_bytes m p at n = do
  blk ← deref m p
  if leb (at + n) (length blk.payload) then ok (slice blk.payload at n) else fault

pub store_bytes : PktManager → Ptr → (at : ℕ) → List ℕ → Run PktManager
unfolding deref
store_bytes m p at src = do
  blk ← deref m p
  if leb (at + length src) (length blk.payload)
      then ok (put_block p (record blk { payload = overwrite blk.payload at src }) m)
      else fault
