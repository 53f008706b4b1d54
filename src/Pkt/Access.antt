-- ===== src/Pkt/Access.antt =====
-- The cursor of a `PktBuffer`: seek, read, write, fill and copy. Each loop gets one round for each
-- byte that it has to move, and one more to find out that none is left.
pub mod Cursor
pub mod Move
pub mod Round
pub mod Transfer
pub mod Write
pub mod Read
pub mod Fill
pub mod RoundTrip
mod Tests
use tinytcp.Base.{
  ℕ, zero, suc, ◌+◌, ◌-◌, Bool, ◌||◌, Option, none, some, List, [], ◌∷◌, ◌++◌, ltb, leb, ◌==◌,
  if◌then◌else◌, length, take, drop, replicate, add32, sub32, min,
}
use tinytcp.Memblock.{Ptr}
use tinytcp.NetErr.{
  NetErr, net_err_ok, net_err_size, net_err_param, Run, ok, fault, out_of_fuel, ◌>>=◌,
}
use tinytcp.Pkt.{PktBlock, PktBuffer, PktManager, deref, load_bytes, store_bytes, total_blk_remain}

-- `*it` of an iterator
pub current : PktManager → Option Ptr → Run PktBlock
current m none = fault
current m (some p) = deref m p

-- `++it` from the node of `p`; a node that is not in the list is a dangling iterator.
pub next_blk : Ptr → List Ptr → Run (Option Ptr)
next_blk p [] = fault
next_blk p (q ∷ []) = if q == p then ok none else fault
next_blk p (q ∷ r ∷ ps) = if q == p then ok (some r) else next_blk p (r ∷ ps)

pub cur_blk_remain_size : PktManager → PktBuffer → Run ℕ
cur_blk_remain_size m b = elim b.cur_blk [
  | none ↦ ok 0
  | some p ↦ do blk ← deref m p; ok (sub32 (blk.offset + blk.size) b.blk_offset)
]

-- The offset of the node that the iterator has moved to; 0 stands for the null pointer.
pub start_of : PktManager → Option Ptr → Run ℕ
start_of m none = ok 0
start_of m (some p) = do blk ← deref m p; ok blk.offset

pub move_forward : PktManager → ℕ → PktBuffer → Run PktBuffer
unfolding current next_blk start_of
move_forward m size b = elim b.cur_blk [
  | none ↦ fault
  | some p ↦ do
    blk ← deref m p
    if leb (blk.offset + blk.size) (b.blk_offset + size)
        then (do
          next ← next_blk p b.blk_list
          at ← start_of m next
          ok (record b { pos = add32 b.pos size; cur_blk = next; blk_offset = at }))
        else ok (record b { pos = add32 b.pos size; blk_offset = b.blk_offset + size })
]

seek_loop : ℕ → PktManager → ℕ → PktBuffer → Run PktBuffer
seek_loop zero m move_bytes b = out_of_fuel
seek_loop (suc fuel) m move_bytes b =
    let rest = (do
      remain_size ← cur_blk_remain_size m b
      b' ← move_forward m (min remain_size move_bytes) b
      seek_loop fuel m (move_bytes - min remain_size move_bytes) b') in
    if move_bytes == 0 then ok b else rest

-- Back to the first byte of the list.
pub rewind : PktManager → PktBuffer → Run PktBuffer
rewind m b = elim b.blk_list [
  | [] ↦ fault
  | p ∷ ps ↦ do
    blk ← deref m p
    ok (record b { pos = 0; cur_blk = some p; blk_offset = blk.offset })
]

pub seek : PktManager → ℕ → PktBuffer → Run (NetErr × PktBuffer)
seek m offset b =
    if b.pos == offset
    then ok (net_err_ok, b)
    else if ltb b.capacity offset
    then ok (net_err_size, b)
    else if ltb offset b.pos
    then (do start ← rewind m b; b' ← seek_loop (offset + 1) m offset start; ok (net_err_ok, b'))
    else do b' ← seek_loop (offset - b.pos + 1) m (offset - b.pos) b; ok (net_err_ok, b')

-- `memcpy` from a caller's array; reading past its end is a fault.
pub source_bytes : List ℕ → ℕ → Run (List ℕ)
source_bytes src n = if leb n (length src) then ok (take n src) else fault

-- `memcpy`, `memset`: bytes go to the cursor.
pub store_current : PktManager → PktBuffer → List ℕ → Run PktManager
store_current m b src = elim b.cur_blk [ none ↦ fault | some p ↦ store_bytes m p b.blk_offset src ]

pub load_current : PktManager → PktBuffer → ℕ → Run (List ℕ)
load_current m b n = elim b.cur_blk [ none ↦ fault | some p ↦ load_bytes m p b.blk_offset n ]

write_loop : ℕ → PktManager → List ℕ → ℕ → PktBuffer → Run (PktBuffer × PktManager)
write_loop zero m src size b = out_of_fuel
write_loop (suc fuel) m src size b =
    let rest = (do
      blk_size ← cur_blk_remain_size m b
      bytes ← source_bytes src (min size blk_size)
      m' ← store_current m b bytes
      b' ← move_forward m' (min size blk_size) b
      write_loop fuel m' (drop (min size blk_size) src) (size - min size blk_size) b') in
    if size == 0 then ok (b, m) else rest

-- `src` is `none` for the null pointer.
pub write : PktManager → Option (List ℕ) → ℕ → PktBuffer → Run (NetErr × PktBuffer × PktManager)
write m none size b = ok (net_err_param, b, m)
write m (some src) size b =
    if size == 0
    then ok (net_err_param, b, m)
    else if ltb (sub32 b.capacity b.pos) size
    then ok (net_err_size, b, m)
    else do (b', m') ← write_loop (size + 1) m src size b; ok (net_err_ok, b', m')

read_loop : ℕ → PktManager → List ℕ → ℕ → PktBuffer → Run (List ℕ × PktBuffer)
read_loop zero m dest size b = out_of_fuel
read_loop (suc fuel) m dest size b =
    let rest = (do
      blk_size ← cur_blk_remain_size m b
      bytes ← load_current m b (min size blk_size)
      b' ← move_forward m (min size blk_size) b
      read_loop fuel m (dest ++ bytes) (size - min size blk_size) b') in
    if size == 0 then ok (dest, b) else rest

-- The bytes that reach `dest`; `dest_null` says that the pointer is null.
pub read : PktManager → (dest_null : Bool) → ℕ → PktBuffer → Run (NetErr × List ℕ × PktBuffer)
read m dest_null size b =
    if dest_null || size == 0
    then ok (net_err_param, [], b)
    else if ltb (sub32 b.capacity b.pos) size
    then ok (net_err_size, [], b)
    else do (bytes, b') ← read_loop (size + 1) m [] size b; ok (net_err_ok, bytes, b')

fill_loop : ℕ → PktManager → ℕ → ℕ → PktBuffer → Run (PktBuffer × PktManager)
fill_loop zero m v size b = out_of_fuel
fill_loop (suc fuel) m v size b =
    let rest = (do
      blk_size ← cur_blk_remain_size m b
      m' ← store_current m b (replicate (min size blk_size) v)
      b' ← move_forward m' (min size blk_size) b
      fill_loop fuel m' v (size - min size blk_size) b') in
    if size == 0 then ok (b, m) else rest

pub fill : PktManager → ℕ → ℕ → PktBuffer → Run (NetErr × PktBuffer × PktManager)
fill m v size b =
    if size == 0
    then ok (net_err_param, b, m)
    else if ltb (sub32 b.capacity b.pos) size
    then ok (net_err_size, b, m)
    else do (b', m') ← fill_loop (size + 1) m v size b; ok (net_err_ok, b', m')

copy_loop : ℕ → PktManager → ℕ → (dest src : PktBuffer) → Run (PktBuffer × PktBuffer × PktManager)
copy_loop zero m size dest src = out_of_fuel
copy_loop (suc fuel) m size dest src =
    let rest = (do
      dest_remain ← cur_blk_remain_size m dest
      src_remain ← cur_blk_remain_size m src
      let n = min size (min dest_remain src_remain)
      bytes ← load_current m src n
      m' ← store_current m dest bytes
      dest' ← move_forward m' n dest
      src' ← move_forward m' n src
      copy_loop fuel m' (size - n) dest' src') in
    if size == 0 then ok (dest, src, m) else rest

-- `copy` of two different buffers.
pub copy :
    PktManager → ℕ → (dest src : PktBuffer) → Run (NetErr × PktBuffer × PktBuffer × PktManager)
copy m size dest src =
    if ltb (total_blk_remain dest) size || ltb (total_blk_remain src) size
    then ok (net_err_size, dest, src, m)
    else do
      (dest', src', m') ← copy_loop (size + 1) m size dest src
      ok (net_err_ok, dest', src', m')
