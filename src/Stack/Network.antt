-- ===== src/Stack/Network.antt =====
-- src/net/network.cc: the states of an interface; and the worker thread of src/net/net.cc.
pub mod Find
use tinytcp.Base.{
  ℕ, zero, suc, Bool, true, false, not, Option, none, some, List, [], ◌∷◌, ◌==◌, if◌then◌else◌,
}
use tinytcp.Ring
use tinytcp.Memblock.{Ptr, null}
use tinytcp.NetErr.{
  NetErr, net_err_ok, net_err_state, net_err_mem, is_error, Run, ok, fault, out_of_fuel, ◌>>=◌,
}
use tinytcp.Timer.{Callback}
use tinytcp.Stack.{
  Netif, NetifState, netif_closed, netif_opened, netif_active, World, net_exmsg_netif_in,
  net_exmsg_timer_fun, put_netif, put_msg, free_known, release_msg_block, release_timer_msg_block,
}
use tinytcp.Stack.Queues.{get_buf_from_in_queue, clear_in_queue, clear_out_queue}
use tinytcp.Stack.Ether.{link_in, is_loop}

unfoldable pub set_state : (netif : Ptr) → NetifState → World → World
set_state netif s w = put_netif netif (record (w.netifs netif) { state = s }) w

-- The default interface after `set_active`.
unfoldable pub chosen_default : (netif : Ptr) → World → Option Ptr
chosen_default netif w = elim w.default_netif [
  | none ↦ if is_loop (w.netifs netif).type then none else some netif
  | some p ↦ some p
]

-- `INetWork::set_active`; both classes' `link_open` do nothing.
unfoldable pub set_active : (netif : Ptr) → World → NetErr × World
unfolding set_state chosen_default
set_active netif w = elim (w.netifs netif).state [
  | netif_opened ↦ (
    net_err_ok,
    set_state netif netif_active (record w { default_netif = chosen_default netif w }),
  )
  | _ ↦ (net_err_state, w)
]

-- The default interface after `set_deactive`.
pub cleared_default : (netif : Ptr) → Option Ptr → Option Ptr
cleared_default netif none = none
cleared_default netif (some p) = if p == netif then none else some p

-- `INetWork::set_deactive`; both classes' `link_close` do nothing.
pub set_deactive : (netif : Ptr) → World → Run (NetErr × World)
unfolding set_state cleared_default
set_deactive netif w = elim (w.netifs netif).state [
  | netif_active ↦ do
    w1 ← clear_in_queue netif w
    w2 ← clear_out_queue netif w1
    ok (
      net_err_ok,
      set_state netif netif_opened
          (record w2 { default_netif = cleared_default netif w2.default_netif }),
    )
  | _ ↦ ok (net_err_state, w)
]

-- `std::list::erase` of the node that holds `p`.
pub erase_netif : Ptr → List Ptr → List Ptr
erase_netif p [] = []
erase_netif p (q ∷ qs) = let rest = q ∷ erase_netif p qs in if q == p then qs else rest

-- `INetWork::netif_close` of an iterator of the list; the `close` of either class leaves the interface
-- and the list as they are.
pub netif_close : (netif : Ptr) → World → NetErr × World
unfolding set_state erase_netif
netif_close netif w = elim (w.netifs netif).state [
  | netif_active ↦ (net_err_state, w)
  | _ ↦
      let w1 = set_state netif netif_closed w in
      (net_err_ok, record w1 { netif_list = erase_netif netif w1.netif_list })
]

-- `strcmp(a, b) == 0` of an array of `room` bytes and a string. An array that is full has no
-- terminator: where the bytes agree so far, `strcmp` reads past its end.
unfoldable pub same_name : (room : ℕ) (array string : List ℕ) → Run Bool
same_name zero array string = fault
same_name (suc room) [] [] = ok true
same_name (suc room) [] (y ∷ ys) = ok false
same_name (suc room) (x ∷ xs) [] = ok false
same_name (suc room) (x ∷ xs) (y ∷ ys) =
    let rest = same_name room xs ys in if x == y then rest else ok false

-- `NETIF_NAME_SIZE`
abbrev pub netif_name_size : ℕ
netif_name_size = 10

-- `INetWork::find_netif_by_name`: it takes the first interface for which `strcmp` is not 0.
unfoldable pub find_netif_by_name :
    (netifs : Ptr → Netif) (name : List ℕ) → List Ptr → Run (Option Ptr)
unfolding same_name
find_netif_by_name netifs name [] = ok none
find_netif_by_name netifs name (p ∷ ps) =
    let rest = find_netif_by_name netifs name ps in
    do same ← same_name netif_name_size (netifs p).name name; if not same then ok (some p) else rest

-- `ProtocolStack::do_netif_in`; the rounds are one more than the queue's length.
do_netif_in_loop : ℕ → (netif : Ptr) → World → Run (NetErr × World)
do_netif_in_loop zero netif w = out_of_fuel
do_netif_in_loop (suc fuel) netif w =
    let again = λ (w' : World). do_netif_in_loop fuel netif w' in
    let rest : Run (NetErr × World) = (do
      (out, w1) ← get_buf_from_in_queue netif w
      elim out [
        | none ↦ ok (net_err_mem, w1)
        | some buf ↦ do
          (err, w2) ← link_in netif buf w1
          again (if is_error err then free_known buf w2 else w2)
      ]) in
    if Ring.count (w.netifs netif).in_q == 0 then ok (net_err_ok, w) else rest

pub do_netif_in : (netif : Ptr) → World → Run (NetErr × World)
unfolding do_netif_in_loop
do_netif_in netif w = do_netif_in_loop (suc (Ring.count (w.netifs netif).in_q)) netif w

-- One round of `work_thread_func`; `call` runs a callback.
module _ (call : Callback → World → World) where
  pub handle : (msg : Ptr) → World → Run World
  handle msg w = elim (w.msgs msg) [
    | net_exmsg_netif_in netif ↦ do (err, w1) ← do_netif_in netif w; ok (release_msg_block msg w1)
    | net_exmsg_timer_fun func ↦
        let w1 = put_msg msg (net_exmsg_timer_fun none) w in
        let w2 : World = elim func [ none ↦ w1 | some f ↦ call f w1 ] in
        ok (release_timer_msg_block msg w2)
  ]

  pub work_step : World → Run World
  unfolding handle
  work_step w =
      let (out, q) = Ring.pop null w.msg_queue in
      let w1 = record w { msg_queue = q } in elim out [ none ↦ ok w1 | some msg ↦ handle msg w1 ]
