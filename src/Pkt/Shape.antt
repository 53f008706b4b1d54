-- ===== src/Pkt/Shape.antt =====
-- The operations of `PktBuffer` that change its list of blocks: allocation, headers, resizing,
-- merging and release. `this` is the address of the object, where the code passes it on.
pub mod Remove
pub mod Take
pub mod Lists
pub mod Alloc
mod Tests
use tinytcp.Base.{
  ℕ, zero, suc, ◌+◌, ◌-◌, Bool, true, false, none, some, List, [], ◌∷◌, ◌++◌, ltb, leb, ◌==◌,
  if◌then◌else◌, add32, sub32, min,
}
use mathlib.Core.List.{reverse}
use tinytcp.Memblock.{Ptr, null}
use tinytcp.NetErr.{
  NetErr, net_err_ok, net_err_empty, net_err_size, net_err_none, Run, ok, fault, out_of_fuel, ◌>>=◌,
}
use tinytcp.Pkt.{
  PktBlock, PktBuffer, PktManager, put_block, deref, get_pktblock, release_pktblock,
  release_pktbuffer, reset_access,
}

-- `for (auto& blk : blocks) release_pktblock(blk)`, the destructor's loop too.
pub release_all : List Ptr → PktManager → PktManager
release_all [] m = m
release_all (p ∷ ps) m = release_all ps (release_pktblock p m)

-- `PktBuffer::~PktBuffer`
pub destroy : PktBuffer → PktManager → PktManager
unfolding release_all
destroy b m = release_all b.blk_list m

-- A block that was just taken: `alloc_front` puts its bytes at the end of the payload.
pub place_block : (alloc_front : Bool) (cur_size : ℕ) → Ptr → PktManager → PktManager
place_block alloc_front cur_size p m =
    put_block p
      (record (m.blocks p) {
        size = cur_size;
        offset = if alloc_front then m.blk_size - cur_size else 0;
      })
      m

-- The loop of `alloc`: whether it got all blocks, and those in the order of allocation. On failure
-- they have gone back.
pub alloc_loop :
    ℕ → (alloc_front : Bool) (size : ℕ) → List Ptr → PktManager → Run (Bool × List Ptr × PktManager)
alloc_loop zero alloc_front size got m = out_of_fuel
alloc_loop (suc fuel) alloc_front size got m =
    let (blk, m') = get_pktblock m in
    let rest : Run (Bool × List Ptr × PktManager) = elim blk [
      | none ↦ ok (false, got, release_all got m')
      | some p ↦
          alloc_loop fuel alloc_front (size - min size m.blk_size) (got ++ p ∷ [])
            (place_block alloc_front (min size m.blk_size) p m')
    ] in
    if size == 0 then ok (true, got, m) else rest

push_front_each : List Ptr → List Ptr → List Ptr
push_front_each [] l = l
push_front_each (p ∷ ps) l = push_front_each ps (p ∷ l)

push_back_each : List Ptr → List Ptr → List Ptr
push_back_each [] l = l
push_back_each (p ∷ ps) l = push_back_each ps (l ++ p ∷ [])

-- Where the new blocks go.
pub insert_blocks : (alloc_front insert_front : Bool) → (got list : List Ptr) → List Ptr
unfolding push_front_each push_back_each
insert_blocks true true got list = push_front_each got list
insert_blocks false true got list = push_front_each (reverse got) list
insert_blocks true false got list = push_back_each (reverse got) list
insert_blocks false false got list = push_back_each got list

pub alloc :
    (size : ℕ) (alloc_front insert_front : Bool)
    → PktBuffer
    → PktManager
    → Run (Bool × PktBuffer × PktManager)
unfolding alloc_loop insert_blocks
alloc size alloc_front insert_front b m = do
  (done, got, m') ← alloc_loop (size + 1) alloc_front size [] m
  if done
      then (do
        b' ← reset_access m' (record b {
          capacity = add32 b.capacity size;
          ref = 1;
          blk_list = insert_blocks alloc_front insert_front got b.blk_list;
        })
        ok (true, b', m'))
      else ok (false, record b { capacity = sub32 (add32 b.capacity size) size; ref = 1 }, m')

pub free : (this : Ptr) → PktBuffer → PktManager → PktBuffer × PktManager
unfolding release_all
free this b m =
    if sub32 b.ref 1 == 0
    then (
      record b { ref = 0; blk_list = []; capacity = 0 },
      release_pktbuffer this (release_all b.blk_list m),
    )
    else (record b { ref = sub32 b.ref 1 }, m)

pub alloc_header :
    (size : ℕ) (is_cont : Bool) → PktBuffer → PktManager → Run (NetErr × PktBuffer × PktManager)
unfolding alloc
alloc_header size is_cont b m = elim b.blk_list [
  | [] ↦ ok (net_err_empty, b, m)
  | first ∷ others ↦ do
    blk ← deref m first
    if leb size blk.offset
        then ok (
          net_err_ok,
          record b { capacity = add32 b.capacity size },
          put_block first (record blk { offset = blk.offset - size; size = add32 blk.size size }) m,
        )
        else if is_cont
        then (if ltb m.blk_size size
            then ok (net_err_size, b, m)
            else let (got, m') = get_pktblock m in
              elim got [
                | none ↦ ok (net_err_none, record b { blk_list = null ∷ first ∷ others }, m')
                | some p ↦ ok (
                  net_err_ok,
                  record b { blk_list = p ∷ first ∷ others; capacity = add32 b.capacity size },
                  put_block p (record (m'.blocks p) { offset = m.blk_size - size; size = size }) m',
                )
              ])
        else (do
          (done, b', m') ←
              alloc (size - blk.offset) true true
                (record b { capacity = add32 b.capacity blk.offset })
                (put_block first (record blk { offset = 0; size = add32 blk.size blk.offset }) m)
          if done then ok (net_err_ok, b', m') else ok (net_err_none, b', m'))
]

-- The loop of `remove_header` over the list; the front of an empty list is a fault.
pub remove_loop : ℕ → List Ptr → PktBuffer → PktManager → Run (PktBuffer × PktManager)
remove_loop size [] b m = if size == 0 then ok (record b { blk_list = [] }, m) else fault
remove_loop size (p ∷ ps) b m =
    let whole = λ (blk : PktBlock).
      remove_loop (size - blk.size) ps (record b { capacity = sub32 b.capacity blk.size })
        (release_pktblock p m) in
    let step = (do
      blk ← deref m p
      if ltb size blk.size
          then ok (
            record b { blk_list = p ∷ ps; capacity = sub32 b.capacity size },
            put_block p (record blk { offset = blk.offset + size; size = blk.size - size }) m,
          )
          else whole blk) in
    if size == 0 then ok (record b { blk_list = p ∷ ps }, m) else step

pub remove_header : (size : ℕ) → PktBuffer → PktManager → Run (NetErr × PktBuffer × PktManager)
unfolding remove_loop
remove_header size b m = elim b.blk_list [
  | [] ↦ fault
  | p ∷ ps ↦ do (b', m') ← remove_loop size (p ∷ ps) b m; ok (net_err_ok, b', m')
]
