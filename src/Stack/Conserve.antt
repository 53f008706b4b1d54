-- ===== src/Stack/Conserve.antt =====
-- What becomes of the packets and messages that are handed from thread to thread.
use tinytcp.Base.{◌-◌, ◌<◌, ◌≡◌, refl, ap, ◌∙◌, true, false, List, [], ◌∷◌, ◌++◌, arith, length}
use tinytcp.Fifo
use tinytcp.Ring
use tinytcp.Ring.{Ring}
use tinytcp.Ring.Inv.{IsValid}
use tinytcp.Ring.Refine.{contents, push_refines}
use tinytcp.Memblock.{Ptr, null}
use tinytcp.Memblock.Pool.{IsPool, free_list, alloc-some}
use tinytcp.NetErr.{net_err_ok}
use tinytcp.Stack.{
  World, net_exmsg_netif_in, Netif, get_msg_block, push_msg, msg_send, exmsg_netif_in, put_netif,
}
use tinytcp.Stack.Queues.{put_buf_to_in_queue}

-- A queue with room takes an item at its end; a full one stays as it is.
push-room :
    (q : Ring Ptr) (x : Ptr)
    → IsValid q
    → length (contents null q) < q.size - 1
    → ((Ring.push q x).0 ≡ true) × (contents null (Ring.push q x).1 ≡ contents null q ++ x ∷ [])
unfolding Fifo.push
push-room q x v h = ground (arith, push_refines null q x v)

push-full :
    (q : Ring Ptr) (x : Ptr)
    → IsValid q
    → length (contents null q) ≡ q.size - 1
    → ((Ring.push q x).0 ≡ false) × (contents null (Ring.push q x).1 ≡ contents null q)
unfolding Fifo.push
push-full q x v h = ground (arith, push_refines null q x v)

-- The message pool and the message queue are valid, and `p` is the next free block.
pub record Ready (w : World) (p : Ptr) (ps : List Ptr) : Type 0 where
  pub pool : IsPool w.mem_block
  pub free : free_list w.mem_block ≡ p ∷ ps
  pub queue : IsValid w.msg_queue

-- A message leaves the interfaces alone.
netifs-exmsg_netif_in :
    (netif q : Ptr) (w : World) → (exmsg_netif_in netif w).1.netifs q ≡ w.netifs q
unfolding exmsg_netif_in get_msg_block msg_send push_msg
netifs-exmsg_netif_in netif q w = ground arith

pub exmsg_netif_in_lem :
    (netif : Ptr) (w : World) (p : Ptr) (ps : List Ptr)
    → Ready w p ps
    → length (contents null w.msg_queue) < w.msg_queue.size - 1
    → ((exmsg_netif_in netif w).0 ≡ net_err_ok)
      × (contents null (exmsg_netif_in netif w).1.msg_queue ≡ contents null w.msg_queue ++ p ∷ [])
      × ((exmsg_netif_in netif w).1.msgs p ≡ net_exmsg_netif_in netif)
      × (free_list (exmsg_netif_in netif w).1.mem_block ≡ ps)
unfolding exmsg_netif_in get_msg_block msg_send push_msg
exmsg_netif_in_lem netif w p ps r h =
    rw ((alloc-some w.mem_block p ps r.pool r.free).0, exmsg_netif_in)
      (
        refl,
        (push-room w.msg_queue p r.queue h).1,
        ground arith,
        (alloc-some w.mem_block p ps r.pool r.free).1,
      )

pub exmsg_netif_in-full :
    (netif : Ptr) (w : World) (p : Ptr) (ps : List Ptr)
    → Ready w p ps
    → length (contents null w.msg_queue) ≡ w.msg_queue.size - 1
    → ((exmsg_netif_in netif w).0 ≡ net_err_ok)
      × (contents null (exmsg_netif_in netif w).1.msg_queue ≡ contents null w.msg_queue)
      × (free_list (exmsg_netif_in netif w).1.mem_block ≡ ps)
unfolding exmsg_netif_in get_msg_block msg_send push_msg
exmsg_netif_in-full netif w p ps r h =
    rw ((alloc-some w.mem_block p ps r.pool r.free).0, exmsg_netif_in)
      (refl, (push-full w.msg_queue p r.queue h).1, (alloc-some w.mem_block p ps r.pool r.free).1)

-- With room in the input queue and in the message queue, and a free message block, a packet that is
-- put into an interface's input queue becomes its last packet, NET_ERR_OK is returned, and the last
-- message of the stack is one that names the interface, in the block that was next.
pub put_buf_to_in_queue_lem :
    (netif buf : Ptr) (w : World) (p : Ptr) (ps : List Ptr)
    → Ready w p ps
    → IsValid (w.netifs netif).in_q
    → length (contents null (w.netifs netif).in_q) < (w.netifs netif).in_q.size - 1
    → length (contents null w.msg_queue) < w.msg_queue.size - 1
    → (w' : World) × (put_buf_to_in_queue netif buf w ≡ (net_err_ok, w'))
      × (contents null (w'.netifs netif).in_q ≡ contents null (w.netifs netif).in_q ++ buf ∷ [])
      × (contents null w'.msg_queue ≡ contents null w.msg_queue ++ p ∷ [])
      × (w'.msgs p ≡ net_exmsg_netif_in netif)
      × (free_list w'.mem_block ≡ ps)
unfolding put_buf_to_in_queue
put_buf_to_in_queue_lem netif buf w p ps r v room h =
    let w1 : World =
      put_netif netif (record (w.netifs netif) { in_q = (Ring.push (w.netifs netif).in_q buf).1 })
        w in
    let ready : Ready w1 p ps = record { pool = r.pool; free = r.free; queue = r.queue } in
    let sent = exmsg_netif_in_lem netif w1 p ps ready h in
    (
      (exmsg_netif_in netif w1).1,
      rw ((push-room (w.netifs netif).in_q buf v room).0, put_buf_to_in_queue) refl,
      ap (λ (n : Netif). contents null n.in_q) (netifs-exmsg_netif_in netif netif w1)
          ∙ ground (arith, push-room (w.netifs netif).in_q buf v room),
      sent.1,
      sent.2,
      sent.3,
    )

-- With room in the input queue but none in the message queue, NET_ERR_OK is returned although no
-- message is sent, and a free message block is lost.
pub put_buf_to_in_queue-lost :
    (netif buf : Ptr) (w : World) (p : Ptr) (ps : List Ptr)
    → Ready w p ps
    → IsValid (w.netifs netif).in_q
    → length (contents null (w.netifs netif).in_q) < (w.netifs netif).in_q.size - 1
    → length (contents null w.msg_queue) ≡ w.msg_queue.size - 1
    → (w' : World) × (put_buf_to_in_queue netif buf w ≡ (net_err_ok, w'))
      × (contents null w'.msg_queue ≡ contents null w.msg_queue)
      × (free_list w'.mem_block ≡ ps)
unfolding put_buf_to_in_queue
put_buf_to_in_queue-lost netif buf w p ps r v room h =
    let w1 : World =
      put_netif netif (record (w.netifs netif) { in_q = (Ring.push (w.netifs netif).in_q buf).1 })
        w in
    let ready : Ready w1 p ps = record { pool = r.pool; free = r.free; queue = r.queue } in
    let sent = exmsg_netif_in-full netif w1 p ps ready h in
    (
      (exmsg_netif_in netif w1).1,
      rw ((push-room (w.netifs netif).in_q buf v room).0, put_buf_to_in_queue) refl,
      sent.1,
      sent.2,
    )
