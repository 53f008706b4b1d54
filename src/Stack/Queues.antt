-- ===== src/Stack/Queues.antt =====
-- src/net/netif.cc: the queues of an interface.
use tinytcp.Base.{ℕ, zero, suc, Option, none, some, if◌then◌else◌}
use tinytcp.Ring
use tinytcp.Memblock.{Ptr, null}
use tinytcp.NetErr.{NetErr, net_err_ok, net_err_full, Run, ok, fault, out_of_fuel, ◌>>=◌}
use tinytcp.Pkt.{reset_access}
use tinytcp.Stack.{World, put_buf, put_netif, free_buf, exmsg_netif_in}

-- `buf->reset_access()` of a buffer that came out of a queue.
unfoldable pub taken : Option Ptr → World → Run (Option Ptr × World)
taken none w = ok (none, w)
taken (some p) w = do b ← reset_access w.pkt (w.bufs p); ok (some p, put_buf p b w)

pub get_buf_from_in_queue : (netif : Ptr) → World → Run (Option Ptr × World)
unfolding taken
get_buf_from_in_queue netif w =
    let (out, q) = Ring.pop null (w.netifs netif).in_q in
    taken out (put_netif netif (record (w.netifs netif) { in_q = q }) w)

unfoldable pub get_buf_from_out_queue : (netif : Ptr) → World → Run (Option Ptr × World)
unfolding taken
get_buf_from_out_queue netif w =
    let (out, q) = Ring.pop null (w.netifs netif).out_q in
    taken out (put_netif netif (record (w.netifs netif) { out_q = q }) w)

-- What `exmsg_netif_in` returns is not looked at.
unfoldable pub put_buf_to_in_queue : (netif buf : Ptr) → World → NetErr × World
put_buf_to_in_queue netif buf w =
    let (done, q) = Ring.push (w.netifs netif).in_q buf in
    let w1 = put_netif netif (record (w.netifs netif) { in_q = q }) w in
    if done then (net_err_ok, (exmsg_netif_in netif w1).1) else (net_err_full, w1)

pub put_buf_to_out_queue : (netif buf : Ptr) → World → NetErr × World
put_buf_to_out_queue netif buf w =
    let (done, q) = Ring.push (w.netifs netif).out_q buf in
    let w1 = put_netif netif (record (w.netifs netif) { out_q = q }) w in
    if done then (net_err_ok, w1) else (net_err_full, w1)

-- The loops of `clear_in_queue` and `clear_out_queue`; a `pop` that fails leaves a pointer that was
-- never set, and one that comes out is followed untested. The rounds are those of the queue's length.
unfoldable pub clear_in_loop : ℕ → (netif : Ptr) → World → Run World
clear_in_loop zero netif w = out_of_fuel
clear_in_loop (suc fuel) netif w =
    let again = λ (w' : World). clear_in_loop fuel netif w' in
    let (out, q) = Ring.pop null (w.netifs netif).in_q in
    let w1 = put_netif netif (record (w.netifs netif) { in_q = q }) w in
    let rest : Run World = elim out [ none ↦ fault | some p ↦ do w2 ← free_buf p w1; again w2 ] in
    if Ring.is_empty (w.netifs netif).in_q then ok w else rest

unfoldable pub clear_in_queue : (netif : Ptr) → World → Run World
unfolding clear_in_loop
clear_in_queue netif w = clear_in_loop (suc (Ring.count (w.netifs netif).in_q)) netif w

clear_out_loop : ℕ → (netif : Ptr) → World → Run World
clear_out_loop zero netif w = out_of_fuel
clear_out_loop (suc fuel) netif w =
    let again = λ (w' : World). clear_out_loop fuel netif w' in
    let (out, q) = Ring.pop null (w.netifs netif).out_q in
    let w1 = put_netif netif (record (w.netifs netif) { out_q = q }) w in
    let rest : Run World = elim out [ none ↦ fault | some p ↦ do w2 ← free_buf p w1; again w2 ] in
    if Ring.is_empty (w.netifs netif).out_q then ok w else rest

pub clear_out_queue : (netif : Ptr) → World → Run World
unfolding clear_out_loop
clear_out_queue netif w = clear_out_loop (suc (Ring.count (w.netifs netif).out_q)) netif w
