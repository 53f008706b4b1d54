-- ===== src/Pkt/Resize.antt =====
-- `PktBuffer::resize`, `merge_buf` and `set_cont_header`.
pub mod Merge
pub mod Longer
pub mod Grow
mod Tests
use tinytcp.Base.{
  ℕ, zero, suc, ◌+◌, ◌-◌, ◌%◌, ◌^◌, Bool, false, ◌||◌, none, some, List, [], ◌∷◌, ◌++◌, ltb, leb,
  ◌==◌, if◌then◌else◌, add32, sub32, add64, min,
}
use mathlib.Core.List.{get_last?}
use tinytcp.Memblock.{Ptr}
use tinytcp.NetErr.{
  NetErr, net_err_ok, net_err_size, net_err_mem, Run, ok, fault, out_of_fuel, ◌>>=◌,
}
use tinytcp.Pkt.{
  PktBlock, PktBuffer, PktManager, put_block, deref, release_pktblock, release_pktbuffer,
  get_last_size, load_bytes, store_bytes,
}
use tinytcp.Pkt.Shape.{alloc, free}

-- The first block at which the sizes add up to `size`, and the blocks behind it; the end iterator
-- is not followed.
pub find_tail : PktManager → (size total_size : ℕ) → List Ptr → Run (List Ptr × Ptr × List Ptr)
find_tail m size total_size [] = fault
find_tail m size total_size (p ∷ ps) =
    let later = λ (total : ℕ). find_tail m size total ps in
    do
      blk ← deref m p
      if leb size (add32 total_size blk.size) then ok ([], p, ps) else (do
        (before, tail_blk, after) ← later (add32 total_size blk.size)
        ok (p ∷ before, tail_blk, after))

-- The loop that drops the blocks behind the tail: it erases a node and then gives back the block
-- of the node that the iterator has moved on to.
pub drop_after : List Ptr → (capacity : ℕ) → PktManager → Run (ℕ × PktManager)
drop_after [] capacity m = ok (capacity, m)
drop_after (p ∷ []) capacity m = do blk ← deref m p; fault
drop_after (p ∷ q ∷ ps) capacity m =
    let later =
      λ (blk : PktBlock). drop_after (q ∷ ps) (sub32 capacity blk.size) (release_pktblock q m) in
    do blk ← deref m p; later blk

pub shrink : (size : ℕ) → PktBuffer → PktManager → Run (NetErr × PktBuffer × PktManager)
unfolding find_tail drop_after
shrink size b m = do
  (before, tail_blk, after) ← find_tail m size 0 b.blk_list
  (capacity, m') ← drop_after after b.capacity m
  blk ← deref m' tail_blk
  let pre_list_size = sub32 capacity blk.size
  let tail_size = sub32 size pre_list_size
  ok (
    net_err_ok,
    record b { blk_list = before ++ tail_blk ∷ []; capacity = add32 pre_list_size tail_size },
    put_block tail_blk (record blk { size = tail_size }) m',
  )

unfoldable pub alloc_result :
    Run (Bool × PktBuffer × PktManager) → Run (NetErr × PktBuffer × PktManager)
alloc_result r = do (done, b, m) ← r; if done then ok (net_err_ok, b, m) else ok (net_err_mem, b, m)

unfoldable pub expand : (size : ℕ) → PktBuffer → PktManager → Run (NetErr × PktBuffer × PktManager)
unfolding alloc_result
expand size b m = elim (get_last? b.blk_list) [
  | none ↦ fault
  | some p ↦ do
    blk ← deref m p
    if leb size (get_last_size m blk)
        then ok (
          net_err_ok,
          record b { capacity = add32 b.capacity size },
          put_block p (record blk { size = add32 blk.size size }) m,
        )
        else (let last_size = get_last_size m blk in
            let grown = add64 b.capacity last_size % 2 ^ 32 in
            alloc_result (
              alloc (sub32 size grown) false false (record b { capacity = grown })
                (put_block p (record blk { size = add64 blk.size last_size % 2 ^ 32 }) m)))
]

unfoldable pub resize :
    (this : Ptr) (size : ℕ) → PktBuffer → PktManager → Run (NetErr × PktBuffer × PktManager)
unfolding alloc_result shrink expand
resize this size b m =
    if size == b.capacity
    then ok (net_err_ok, b, m)
    else if b.capacity == 0
    then alloc_result (alloc size false false b m)
    else if ltb b.capacity size
    then expand size b m
    else if size == 0
    then (let (b', m') = free this b m in ok (net_err_ok, b', m'))
    else shrink size b m

-- `buf` is the address of the second buffer, whose list is empty afterwards.
pub merge_buf :
    (buf : Ptr) → (b other : PktBuffer) → PktManager → PktBuffer × PktBuffer × PktManager
merge_buf buf b other m = (
  record b { blk_list = b.blk_list ++ other.blk_list; capacity = add32 b.capacity other.capacity },
  record other { blk_list = [] },
  release_pktbuffer buf m,
)

-- The loop of `set_cont_header`: `at` is `ptr` in the first block, the list is what stands from
-- `it` on. An emptied block is erased and given back.
pub gather :
    ℕ → (first : Ptr) (at remain_size : ℕ) → List Ptr → PktManager → Run (List Ptr × PktManager)
gather zero first at remain_size ps m = out_of_fuel
gather (suc fuel) first at remain_size [] m = ok ([], m)
gather (suc fuel) first at remain_size (p ∷ ps) m =
    let rest : Run (List Ptr × PktManager) = (do
      now_blk ← deref m p
      let cur_size = min remain_size now_blk.size
      bytes ← load_bytes m p now_blk.offset cur_size
      m1 ← store_bytes m first at bytes
      first_blk ← deref m1 first
      let m2 = put_block first (record first_blk { size = add32 first_blk.size cur_size }) m1
      now_blk' ← deref m2 p
      let left = now_blk'.size - cur_size
      let m3 = put_block p (record now_blk' { offset = now_blk'.offset + cur_size; size = left }) m2
      if left == 0
          then gather fuel first (at + cur_size) (remain_size - cur_size) ps (release_pktblock p m3)
          else gather fuel first (at + cur_size) (remain_size - cur_size) (p ∷ ps) m3) in
    if remain_size == 0 then ok (p ∷ ps, m) else rest

list_rounds : List Ptr → ℕ
list_rounds [] = 2
list_rounds (p ∷ ps) = suc (list_rounds ps)

pub set_cont_header : (size : ℕ) → PktBuffer → PktManager → Run (NetErr × PktBuffer × PktManager)
unfolding gather list_rounds
set_cont_header size b m =
    if ltb b.capacity size || ltb m.blk_size size
    then ok (net_err_size, b, m)
    else elim b.blk_list [
      | [] ↦ fault
      | first ∷ others ↦ do
        first_blk ← deref m first
        if leb size first_blk.size then ok (net_err_ok, b, m) else (do
          bytes ← load_bytes m first first_blk.offset first_blk.size
          m1 ← store_bytes m first 0 bytes
          moved ← deref m1 first
          let m2 = put_block first (record moved { offset = 0 }) m1
          (others', m') ←
              gather (list_rounds others) first first_blk.size (size - first_blk.size) others m2
          ok (net_err_ok, record b { blk_list = first ∷ others' }, m'))
    ]
