-- ===== src/Pkt/Access/RoundTrip.antt =====
-- What was written is read back.
use tinytcp.Base.{
  ℕ, ◌+◌, ◌≤◌, ◌<◌, ◌≡◌, sym, ap, ap₂, overwrite, ◌∙◌, false, List, arith, some, take, length,
  length-take, slice,
}
use tinytcp.Base.Bytes.Laws.{slice-overwrite_self}
use tinytcp.NetErr.{net_err_ok, ok}
use tinytcp.Pkt.{PktBuffer, PktManager}
use tinytcp.Pkt.View.{contents, IsPacket, IsPacket-same, length-contents}
use tinytcp.Pkt.Access.{write, seek, read}
use tinytcp.Pkt.Access.Cursor.{IsCursor}
use tinytcp.Pkt.Access.Transfer.{Moved-IsPacket}
use tinytcp.Pkt.Access.Write.{write_lem}
use tinytcp.Pkt.Access.Read.{seek_lem, read_lem}

-- `write`, `seek` back to where it began and `read` of as many bytes all succeed, and the bytes
-- that are read are those that were written, however the packet is cut into blocks.
pub read-seek-write :
    (m : PktManager) (src : List ℕ) (size : ℕ) (b : PktBuffer)
    → IsPacket m b
    → IsCursor m b
    → 0 < size
    → size ≤ length src
    → b.pos + size ≤ b.capacity
    → (b1 : PktBuffer) × (m1 : PktManager) × (b2 : PktBuffer) × (b3 : PktBuffer) × (write m
          (some src)
          size
          b
        ≡ ok (net_err_ok, b1, m1))
      × (seek m1 b.pos b1 ≡ ok (net_err_ok, b2))
      × (read m1 false size b2 ≡ ok (net_err_ok, take size src, b3))
read-seek-write m src size b k c p g h =
    let (b1, m1, writes, w) = write_lem m src size b k c p g h in
    let len : length (take size src) ≡ size = omega (arith, length-take size src) in
    let k1 = Moved-IsPacket w.moved (IsPacket-same w.shape b k) in
    let (b2, seeks, s) =
      seek_lem m1 b.pos b1 k1 w.moved.cursor
        (omega (arith, w.moved.pos_eq, w.moved.capacity_eq, len))
        (omega (arith, w.moved.capacity_eq)) in
    let k2 : IsPacket m1 b2 = record {
      good = rw s.list_eq k1.good;
      distinct = rw s.list_eq k1.distinct;
      counted = rw (s.list_eq, s.capacity_eq) k1.counted;
      small = rw s.capacity_eq k1.small;
      block_small = k1.block_small;
    } in
    let (b3, reads, v) =
      read_lem m1 size b2 k2 s.cursor p
        (omega (arith, s.pos_eq, s.capacity_eq, w.moved.capacity_eq)) in
    (
      b1,
      m1,
      b2,
      b3,
      writes,
      seeks,
      reads
          ∙ ap (λ xs. ok (net_err_ok, xs, b3))
              (ap₂ (λ ps (i : ℕ). slice (contents m1 ps) i size) (s.list_eq ∙ w.moved.list_eq)
                  s.pos_eq
                ∙ ap (λ xs. slice xs b.pos size) w.written
                ∙ ap
                    (λ (i : ℕ).
                      slice (overwrite (contents m b.blk_list) b.pos (take size src)) b.pos i)
                    (sym len)
                ∙ slice-overwrite_self (contents m b.blk_list) b.pos (take size src)
                    (omega (arith, len, k.counted, length-contents m b.blk_list k.good))),
    )
