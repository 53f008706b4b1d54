-- ===== src/Pkt/Resize/Grow.antt =====
-- `PktBuffer::resize` to a larger size.
mod Tests
use tinytcp.Base.{
  ℕ, zero, suc, ◌+◌, ◌-◌, ◌*◌, ◌^◌, ◌≤◌, ◌<◌, ◌≡◌, refl, sym, ap, subst, ◌∙◌, Bool, true, false,
  none, some, List, [], ◌∷◌, ◌++◌, length, length-append, add32, sub32, add64, ◌%◌, ltb, leb, slice,
  ◌==◌, arith,
}
use tinytcp.Base.Bytes.Laws.{slice-append-slice}
use mathlib.Core.List.{append_assoc, append-nil, get_last?}
use tinytcp.Memblock.{Ptr}
use tinytcp.NetErr.{net_err_ok, ok}
use tinytcp.Pkt.{PktBlock, PktBuffer, PktManager, put_block, get_last_size, deref}
use tinytcp.Pkt.View.{
  contents, bytes, total, has, Distinct, BlockOk, AllOk, IsPacket, contents-append, total-append,
  AllOk-append, AllOk-append_left, AllOk-append_right, Distinct-split, contents-put_block,
  total-put_block, AllOk-put_block, length-contents,
}
use tinytcp.Pkt.Shape.{alloc}
use tinytcp.Pkt.Shape.Take.{Stock, AllSized-same}
use tinytcp.Pkt.Shape.Lists.{in_order}
use tinytcp.Pkt.Shape.Alloc.{contents-alloc, Allocated}
use tinytcp.Pkt.Resize.{resize, expand, alloc_result}
use tinytcp.Pkt.Resize.Longer.{
  longer, Tail, tail_ok, longer-IsPacket, contents-longer, Stock-longer,
}

get_last?-append : (before : List Ptr) (p : Ptr) → get_last? (before ++ p ∷ []) ≡ some p
get_last?-append [] p = refl
get_last?-append (x ∷ []) p = refl
get_last?-append (x ∷ y ∷ before) p = get_last?-append (y ∷ before) p

-- The packet has `n` bytes more, behind those that it had.
pub record Grown (m : PktManager) (b : PktBuffer) (n : ℕ) (b' : PktBuffer) (m' : PktManager)
    : Type 0 where
  pub packet : IsPacket m' b'
  pub capacity_eq : b'.capacity ≡ b.capacity + n
  pub more : List ℕ
  pub bytes_eq : contents m' b'.blk_list ≡ contents m b.blk_list ++ more

has_block : (m : PktManager) (p : Ptr) → BlockOk m p → deref m p ≡ ok (m.blocks p)
unfolding deref
has_block m p k = ground (arith, k.not_null)

-- How many bytes the block has left.
abbrev pub left : PktManager → Ptr → ℕ
left m p = m.blk_size - ((m.blocks p).offset + (m.blocks p).size)

left_lem :
    (m : PktManager) (p : Ptr)
    → BlockOk m p
    → m.blk_size < 2 ^ 31
    → get_last_size m (m.blocks p) ≡ left m p
unfolding get_last_size
left_lem m p k s = omega (arith, k.inside)

-- The branch of a larger size, for a packet that is not empty.
resize-expand :
    (this : Ptr) (size : ℕ) (b : PktBuffer) (m : PktManager)
    → 0 < b.capacity
    → b.capacity < size
    → resize this size b m ≡ expand size b m
unfolding resize
resize-expand this size b m pos more =
    let h0 : (size == b.capacity) ≡ false = ground arith in
    let h1 : (b.capacity == 0) ≡ false = ground arith in
    let h2 : ltb b.capacity size ≡ true = ground arith in rw (h0, h1, h2) refl

-- Where the last block of a well-formed packet that is not empty has at least `size` bytes left,
-- and the capacity and `size` add up to less than 2^31, resize to a larger size succeeds, but it
-- adds `size` bytes to the packet instead of growing it to `size` bytes; the packet is well formed
-- and begins with the bytes that it had.
pub resize-added :
    (this p : Ptr) (before : List Ptr) (size : ℕ) (b : PktBuffer) (m : PktManager)
    → IsPacket m b
    → b.blk_list ≡ before ++ p ∷ []
    → 0 < b.capacity
    → b.capacity < size
    → size ≤ left m p
    → b.capacity + size < 2 ^ 31
    → (b' : PktBuffer) × (m' : PktManager) × (resize this size b m ≡ ok (net_err_ok, b', m'))
      × Grown m b size b' m'
unfolding expand
resize-added this p before size b m k split pos more room small =
    let t : Tail m b before p size = record {
      split = split;
      packet = k;
      room = omega arith;
      small = small;
    } in
    let ok_p = tail_ok m b before p size t in
    let last = left_lem m p ok_p k.block_small in
    let found : get_last? b.blk_list ≡ some p = ap get_last? split ∙ get_last?-append before p in
    let test : leb size (left m p) ≡ true = ground arith in
    let whole : add32 (m.blocks p).size size ≡ (m.blocks p).size + size =
      omega (arith, k.block_small) in
    let cap : add32 b.capacity size ≡ b.capacity + size = omega arith in
    (
      record b { capacity = b.capacity + size },
      longer p size m,
      resize-expand this size b m pos more
          ∙ rw (expand, found, has_block m p ok_p, last, test, whole, cap) refl,
      record {
        packet = longer-IsPacket m b before p size t;
        capacity_eq = refl;
        more = slice (m.blocks p).payload ((m.blocks p).offset + (m.blocks p).size) size;
        bytes_eq = contents-longer m b before p size t;
      },
    )

-- The branch that fills the last block and takes more.
expand_beyond :
    (p : Ptr) (before : List Ptr) (size : ℕ) (b : PktBuffer) (m : PktManager) (b' : PktBuffer)
    (m' : PktManager)
    → BlockOk m p
    → m.blk_size < 2 ^ 31
    → b.blk_list ≡ before ++ p ∷ []
    → 0 < b.capacity
    → b.capacity + left m p ≤ size
    → size < 2 ^ 31
    → alloc
        (size - (b.capacity + left m p))
        false
        false
        (record b { capacity = b.capacity + left m p })
        (longer p (left m p) m)
      ≡ ok (true, b', m')
    → expand size b m ≡ ok (net_err_ok, b', m')
unfolding expand alloc_result
expand_beyond p before size b m b' m' k s split pos below small e =
    let n = left m p in
    let found : get_last? b.blk_list ≡ some p = ap get_last? split ∙ get_last?-append before p in
    let test : leb size n ≡ false = ground arith in
    let whole : add64 (m.blocks p).size n % 2 ^ 32 ≡ (m.blocks p).size + n =
      omega (arith, k.inside) in
    let cap : add64 b.capacity n % 2 ^ 32 ≡ b.capacity + n = omega arith in
    let rest : sub32 size (b.capacity + n) ≡ size - (b.capacity + n) = omega arith in
    rw (expand, found, has_block m p k, left_lem m p k s, test, whole, cap, rest, e) refl

-- Where the last block of a well-formed packet that is not empty, filled to its end, does not take
-- the packet beyond `size` bytes, fewer than 2^31, and there are enough free blocks that the
-- packet does not have for the rest, resize to a larger size succeeds: the packet is well formed,
-- has `size` bytes, and begins with the bytes that it had.
pub resize_lem :
    (this p : Ptr) (before : List Ptr) (size : ℕ) (b : PktBuffer) (m : PktManager) (ps : List Ptr)
    → IsPacket m b
    → b.blk_list ≡ before ++ p ∷ []
    → Stock m ps
    → Distinct (b.blk_list ++ ps)
    → 0 < b.capacity
    → b.capacity < size
    → b.capacity + left m p ≤ size
    → size ≤ b.capacity + left m p + length ps * m.blk_size
    → size < 2 ^ 31
    → (b' : PktBuffer) × (m' : PktManager) × (resize this size b m ≡ ok (net_err_ok, b', m'))
      × Grown m b (size - b.capacity) b' m'
resize_lem this p before size b m ps k split s d pos more below enough small =
    let n = left m p in
    let ok_p0 = (AllOk-append_right m before (p ∷ []) (subst (AllOk m) split k.good)).0 in
    let t : Tail m b before p n = record {
      split = split;
      packet = k;
      room = omega (arith, ok_p0.inside);
      small = omega arith;
    } in
    let apart : has p ps ≡ false =
      (Distinct-split before p ps
        (subst Distinct (ap (λ l. l ++ ps) split ∙ append_assoc before (p ∷ []) ps) d)).1 in
    let b1 : PktBuffer = record b { capacity = b.capacity + n } in
    let m1 = longer p n m in
    let (b', m', e, a) =
      contents-alloc false (size - (b.capacity + n)) b1 m1 ps (Stock-longer m p n ps s apart)
        (longer-IsPacket m b before p n t) d (omega arith) (omega arith) in
    (
      b',
      m',
      resize-expand this size b m pos more
          ∙ expand_beyond p before size b m b' m' ok_p0 k.block_small split pos below small e,
      record {
        packet = a.packet;
        capacity_eq = omega (arith, a.capacity_eq);
        more =
            slice (m.blocks p).payload ((m.blocks p).offset + (m.blocks p).size) n
            ++ contents m' a.added;
        bytes_eq =
            ap (contents m') a.list_eq
            ∙ contents-append m' b.blk_list a.added
            ∙ ap (λ xs. xs ++ contents m' a.added) (a.kept ∙ contents-longer m b before p n t)
            ∙ append_assoc (contents m b.blk_list)
                (slice (m.blocks p).payload ((m.blocks p).offset + (m.blocks p).size) n)
                (contents m' a.added);
      },
    )
