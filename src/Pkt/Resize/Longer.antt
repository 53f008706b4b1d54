-- ===== src/Pkt/Resize/Longer.antt =====
-- A packet whose last block takes more bytes.
use tinytcp.Base.{
  ℕ, ◌+◌, ◌^◌, ◌≤◌, ◌<◌, ◌≡◌, refl, sym, subst, false, List, [], ◌∷◌, ◌++◌, slice, arith,
}
use tinytcp.Base.Bytes.Laws.{slice-append-slice}
use mathlib.Core.List.{append_assoc, append-nil}
use tinytcp.Memblock.{Ptr}
use tinytcp.Pkt.{PktBuffer, PktManager, put_block}
use tinytcp.Pkt.View.{
  contents, bytes, total, has, Distinct, BlockOk, AllOk, IsPacket, contents-append, total-append,
  AllOk-append, AllOk-append_left, AllOk-append_right, Distinct-split, contents-put_block,
  total-put_block, AllOk-put_block,
}
use tinytcp.Pkt.Shape.Take.{Stock, AllSized-same}

-- Block `p` with `n` bytes more.
abbrev pub longer : (p : Ptr) (n : ℕ) → PktManager → PktManager
longer p n m = put_block p (record (m.blocks p) { size = (m.blocks p).size + n }) m

-- A packet whose last block is `p`, which has room for `n` bytes more.
pub record Tail (m : PktManager) (b : PktBuffer) (before : List Ptr) (p : Ptr) (n : ℕ)
    : Type 0 where
  pub split : b.blk_list ≡ before ++ p ∷ []
  pub packet : IsPacket m b
  pub room : (m.blocks p).offset + (m.blocks p).size + n ≤ m.blk_size
  pub small : b.capacity + n < 2 ^ 31

module _ (m : PktManager) (b : PktBuffer) (before : List Ptr) (p : Ptr) (n : ℕ)
    (t : Tail m b before p n) where
  others : has p before ≡ false
  others = (Distinct-split before p [] (subst Distinct t.split t.packet.distinct)).0

  pub tail_ok : BlockOk m p
  tail_ok = (AllOk-append_right m before (p ∷ []) (subst (AllOk m) t.split t.packet.good)).0

  longer-BlockOk : BlockOk (longer p n m) p
  longer-BlockOk = record {
    not_null = tail_ok.not_null;
    nonempty = ground (arith, tail_ok.nonempty);
    inside = ground (arith, t.room);
    sized = ground (arith, tail_ok.sized);
  }

  total-longer : total (longer p n m) b.blk_list ≡ total m b.blk_list + n
  total-longer = rw t.split (
      omega (
        arith,
        total-append (longer p n m) before (p ∷ []),
        total-append m before (p ∷ []),
        total-put_block m p (record (m.blocks p) { size = (m.blocks p).size + n }) before others,
        own_size,
      ))
    where
      own_size : ((longer p n m).blocks p).size ≡ (m.blocks p).size + n
      own_size = ground arith

  pub longer-IsPacket : IsPacket (longer p n m) (record b { capacity = b.capacity + n })
  longer-IsPacket = record {
    good = rw t.split (
        AllOk-append (longer p n m) before (p ∷ [])
          (AllOk-put_block m p (record (m.blocks p) { size = (m.blocks p).size + n }) before others
            (AllOk-append_left m before (p ∷ []) (subst (AllOk m) t.split t.packet.good)))
          (longer-BlockOk, tt));
    distinct = t.packet.distinct;
    counted = omega (arith, total-longer, t.packet.counted);
    small = t.small;
    block_small = t.packet.block_small;
  }

  bytes-longer :
      bytes (longer p n m) p
      ≡ bytes m p ++ slice (m.blocks p).payload ((m.blocks p).offset + (m.blocks p).size) n
  bytes-longer =
      let own : (longer p n m).blocks p ≡ record (m.blocks p) { size = (m.blocks p).size + n } =
        ground arith in
      rw own (sym (slice-append-slice (m.blocks p).payload (m.blocks p).offset (m.blocks p).size n))

  pub contents-longer :
      contents (longer p n m) b.blk_list
      ≡ contents m b.blk_list
        ++ slice (m.blocks p).payload ((m.blocks p).offset + (m.blocks p).size) n
  contents-longer =
      rw
        (
          t.split,
          contents-append (longer p n m) before (p ∷ []),
          contents-append m before (p ∷ []),
          contents-put_block m p (record (m.blocks p) { size = (m.blocks p).size + n }) before
              others,
          bytes-longer,
          append-nil (bytes m p),
          append-nil
              (bytes m p ++ slice (m.blocks p).payload ((m.blocks p).offset + (m.blocks p).size) n),
        )
        (sym (
          append_assoc (contents m before) (bytes m p)
            (slice (m.blocks p).payload ((m.blocks p).offset + (m.blocks p).size) n)))

pub Stock-longer :
    (m : PktManager) (p : Ptr) (n : ℕ) (ps : List Ptr)
    → Stock m ps
    → has p ps ≡ false
    → Stock (longer p n m) ps
Stock-longer m p n ps s h = record {
  pool = s.pool;
  free = s.free;
  distinct = s.distinct;
  sized = AllSized-same m (longer p n m) p ps (λ q e. ground arith) refl h s.sized;
  size_pos = s.size_pos;
}
