-- ===== src/Stack/Open/Result.antt =====
-- What `netif_open` leaves, for the two classes.
use tinytcp.Base.{
  ℕ, ◌≤◌, ◌<◌, ◌≡◌, refl, ap, ◌∙◌, true, false, Option, some, List, [], ◌∷◌, ◌++◌, length, leb,
  drop, replicate, ◌==◌, arith,
}
use tinytcp.Base.Bytes.Laws.{drop-nil}
use mathlib.Core.List.{append-nil}
use tinytcp.Ring
use tinytcp.Ring.{Ring}
use tinytcp.Memblock.{Ptr, null}
use tinytcp.NetErr.{NetErr, net_err_ok, is_error, Run, ok}
use tinytcp.Ipaddr.{Ipaddr, ipaddr_from_str, from_chars, parse, store_byte}
use tinytcp.Stack.{
  Class, loop_net, Netif, netif_type_none, netif_type_loop, netif_opened, netif_active, World,
  put_netif,
}
use tinytcp.Stack.Ether.{is_loop}
use tinytcp.Stack.Network.{netif_name_size, set_active, set_state, chosen_default}
use tinytcp.Stack.Open.{
  set_name, new_netif, PcapData, OpsData, loop_open, open_op, factory_of, opened, netif_open,
}

-- The interface as the constructor leaves it.
abbrev pub made : (in_q out_q : Ring Ptr) → Class → List ℕ → Netif
made in_q out_q class name = record {
  class = class;
  name = name;
  hwaddr = replicate 6 0;
  ipaddr = record { a_addr = replicate 4 0 };
  netmask = record { a_addr = replicate 4 0 };
  type = netif_type_none;
  mtu = 0;
  state = netif_opened;
  in_q = in_q;
  out_q = out_q;
}

-- An empty queue of the size that the queue's constructor makes of `size`.
abbrev pub empty_queue : (size : ℕ) → Ring Ptr
empty_queue size = Ring.fresh (Ring.ring_size size) null

append-drop : (name : List ℕ) → name ++ drop (length name) [] ≡ name
append-drop name = ap (λ (xs : List ℕ). name ++ xs) (drop-nil (length name)) ∙ append-nil name

new_netif_lem :
    (in_queue_size out_queue_size : ℕ) (class : Class) (name : List ℕ)
    → 0 < in_queue_size
    → 0 < out_queue_size
    → length name ≤ netif_name_size
    → new_netif in_queue_size out_queue_size class name
      ≡ ok (made (empty_queue in_queue_size) (empty_queue out_queue_size) class name)
unfolding new_netif set_name Ring.new
new_netif_lem i o class name hi ho short =
    let h1 : (i == 0) ≡ false = ground arith in
    let h2 : (o == 0) ≡ false = ground arith in
    let h3 : leb (length name) netif_name_size ≡ true = ground arith in
    rw (new_netif, h1, h2, h3)
      (ap (λ (xs : List ℕ). ok (made (empty_queue i) (empty_queue o) class xs)) (append-drop name))

-- The interface `this` is open: it is active, the last of the list, and the rest is as it was.
pub record Opened (this : Ptr) (n : Netif) (w w' : World) : Type 0 where
  pub own : w'.netifs this ≡ record n { state = netif_active }
  pub others : (q : Ptr) → (q == this) ≡ false → w'.netifs q ≡ w.netifs q
  pub listed : w'.netif_list ≡ w.netif_list ++ this ∷ []
  pub same_pkt : w'.pkt ≡ w.pkt

-- `set_active` of an interface that is open.
activated :
    (this : Ptr) (w : World)
    → (w.netifs this).state ≡ netif_opened
    → set_active this w ≡ (
      net_err_ok,
      set_state this netif_active (record w { default_netif = chosen_default this w }),
    )
unfolding set_active
activated this w s = rw (set_active, s) refl

-- A loop interface does not become the default one.
chosen-loop :
    (this : Ptr) (w : World)
    → (w.netifs this).type ≡ netif_type_loop
    → chosen_default this w ≡ w.default_netif
unfolding chosen_default is_loop
chosen-loop this w e = ground (arith, e)

module _ (pcap_device_open : PcapData → Option Ptr) (pcap_getnonblock : Option Ptr → Run ℕ) where
  opened_lem :
      (this : Ptr) (ops_data ops_data1 : OpsData) (n n1 : Netif) (w : World)
      → open_op pcap_device_open pcap_getnonblock ops_data n ≡ ok (net_err_ok, ops_data1, n1)
      → n1.state ≡ netif_opened
      → (w' : World) × (opened pcap_device_open pcap_getnonblock this ops_data n w
          ≡ ok (some this, w'))
        × Opened this n1 w w'
        × (w'.default_netif ≡ chosen_default this (put_netif this n1 w))
  unfolding opened set_active set_state is_error
  opened_lem this ops_data ops_data1 n n1 w e s =
      let w1 = put_netif this n1 w in
      let active : (w1.netifs this).state ≡ netif_opened = ground (arith, s) in
      let w2 = set_state this netif_active (record w1 { default_netif = chosen_default this w1 }) in
      (
        record w2 { netif_list = w2.netif_list ++ this ∷ [] },
        rw (e, activated this w1 active) refl,
        record { own = ground arith; others = λ q h. ground arith; listed = refl; same_pkt = refl },
        refl,
      )

  module _ (in_queue_size out_queue_size : ℕ) (registry : List (List ℕ × Class)) (this : Ptr)
      (dev_name : List ℕ) (w : World) (in_pos : 0 < in_queue_size) (out_pos : 0 < out_queue_size)
      (short : length dev_name ≤ netif_name_size) where
    -- A registered name, with the object that is made for it.
    netif_open_step :
        (class : Class) (ops_data : OpsData)
        → factory_of registry dev_name ≡ some class
        → netif_open pcap_device_open pcap_getnonblock in_queue_size out_queue_size registry this
            dev_name ops_data w
          ≡ opened pcap_device_open pcap_getnonblock this ops_data
              (made (empty_queue in_queue_size) (empty_queue out_queue_size) class dev_name)
              w
    unfolding netif_open
    netif_open_step class ops_data found =
        rw
          (
            netif_open,
            found,
            new_netif_lem in_queue_size out_queue_size class dev_name in_pos out_pos short,
          )
          refl

    -- netif_open of a name of at most ten bytes that is registered for the loop class, with queue
    -- sizes that are not 0, gives an interface of that name, active, with empty queues, the address
    -- 127.0.0.1 and the mask 255.0.0.0, which is the last of the list; the other interfaces, the
    -- packets and the default interface are as before.
    pub netif_open-loop :
        (ops_data : OpsData)
        → factory_of registry dev_name ≡ some loop_net
        → (w' : World) × (netif_open pcap_device_open pcap_getnonblock in_queue_size out_queue_size
              registry this dev_name ops_data w
            ≡ ok (some this, w'))
          × Opened this
              (record (made
                (empty_queue in_queue_size)
                (empty_queue out_queue_size)
                loop_net
                dev_name) {
                  type = netif_type_loop;
                  ipaddr = record { a_addr = 127 ∷ 0 ∷ 0 ∷ 1 ∷ [] };
                  netmask = record { a_addr = 255 ∷ 0 ∷ 0 ∷ 0 ∷ [] };
                })
              w
              w'
          × (w'.default_netif ≡ w.default_netif)
    unfolding open_op loop_open from_chars ipaddr_from_str parse store_byte
    netif_open-loop ops_data found =
        let n0 = made (empty_queue in_queue_size) (empty_queue out_queue_size) loop_net dev_name in
        let n1 : Netif = record n0 {
          type = netif_type_loop;
          ipaddr = record { a_addr = 127 ∷ 0 ∷ 0 ∷ 1 ∷ [] };
          netmask = record { a_addr = 255 ∷ 0 ∷ 0 ∷ 0 ∷ [] };
        } in
        let (w', run, o, d) = opened_lem this ops_data ops_data n0 n1 w refl refl in
        let kind : ((put_netif this n1 w).netifs this).type ≡ netif_type_loop = ground arith in
        (
          w',
          netif_open_step loop_net ops_data found ∙ run,
          o,
          d ∙ chosen-loop this (put_netif this n1 w) kind,
        )
