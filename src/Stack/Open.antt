-- ===== src/Stack/Open.antt =====
-- Opening an interface: the constructor of `INetIF`, `open` and `close` of the two classes in
-- src/net/netif.cc, and the registry and `netif_open` of src/net/network.cc. The threads that `open`
-- starts are the rounds of `Stack.Pcap`.
pub mod Result
mod Tests
use tinytcp.Base.{
  ℕ, Bool, true, false, Option, none, some, List, [], ◌∷◌, ◌++◌, length, leb, drop, replicate,
  if◌then◌else◌,
}
use tinytcp.Base.Text.{codes, same_text}
use tinytcp.Ring
use tinytcp.Memblock.{Ptr, null}
use tinytcp.NetErr.{NetErr, net_err_ok, net_err_io, is_error, Run, ok, fault, ◌>>=◌}
use tinytcp.Ipaddr.{from_chars, ipaddr_from_str}
use tinytcp.Stack.{
  Class, loop_net, ether_net, Netif, netif_type_none, netif_type_ether, netif_type_loop,
  netif_opened, World, put_netif,
}
use tinytcp.Stack.Ether.{ether_mtu}
use tinytcp.Stack.Network.{netif_name_size, set_active}

-- `set_name` copies no terminator; more bytes than the array has are a fault.
unfoldable pub set_name : (name : List ℕ) → Netif → Run Netif
set_name name n =
    if leb (length name) netif_name_size
    then ok (record n { name = name ++ drop (length name) n.name })
    else fault

-- The constructor of a class, with the queue sizes of the settings; a size that the queue's constructor
-- refuses is an exception that nothing catches.
unfoldable pub new_netif : (in_queue_size out_queue_size : ℕ) → Class → (name : List ℕ) → Run Netif
unfolding set_name
new_netif in_queue_size out_queue_size class name = elim (Ring.new in_queue_size null) [
  | none ↦ fault
  | some in_q ↦ elim (Ring.new out_queue_size null) [
    | none ↦ fault
    | some out_q ↦ set_name name (record {
      class = class;
      name = [];
      hwaddr = replicate 6 0;
      ipaddr = record { a_addr = replicate 4 0 };
      netmask = record { a_addr = replicate 4 0 };
      type = netif_type_none;
      mtu = 0;
      state = netif_opened;
      in_q = in_q;
      out_q = out_q;
    })
  ]
]

-- `pcap_data_t`
pub record PcapData : Type 0 where
  pub ip : Option (List ℕ)
  pub hwaddr : List ℕ

-- What `m_ops_data` points to: what the caller gave, or the device.
pub data OpsData : Type 0 where
  nothing : OpsData
  pcap_data : PcapData → OpsData
  pcap : Ptr → OpsData

-- `LoopNet::open`
unfoldable pub loop_open : Netif → Run (NetErr × Netif)
loop_open n = do
  ipaddr ← from_chars [] (some (codes "127.0.0.1"))
  (err, netmask) ← ipaddr_from_str n.netmask (some (codes "255.0.0.0"))
  ok (net_err_ok, record n { type = netif_type_loop; ipaddr = ipaddr; netmask = netmask })

-- The address of an opened device is stored in the interface, and the device is its data.
unfoldable pub ether_opened : PcapData → (device : Ptr) → Netif → Run (NetErr × OpsData × Netif)
ether_opened dev_data device n = do
  (err, ipaddr) ← ipaddr_from_str n.ipaddr dev_data.ip
  ok (
    net_err_ok,
    pcap device,
    record n {
      type = netif_type_ether;
      mtu = ether_mtu;
      ipaddr = ipaddr;
      hwaddr = dev_data.hwaddr;
    },
  )

-- `s_netif_factory_registry`, whose factories construct an object of a class.
unfoldable pub factory_of : (registry : List (List ℕ × Class)) (type_name : List ℕ) → Option Class
factory_of [] type_name = none
factory_of ((key, class) ∷ registry) type_name =
    let rest = factory_of registry type_name in if same_text key type_name then some class else rest

-- `INetWork::register_netif_factory`
unfoldable pub register_netif_factory :
    (type_name : List ℕ) → Class → List (List ℕ × Class) → Bool × List (List ℕ × Class)
unfolding factory_of
register_netif_factory type_name class registry = elim (factory_of registry type_name) [
  | some old ↦ (false, registry)
  | none ↦ (true, registry ++ (type_name, class) ∷ [])
]

-- `pcap_device_open` gives the device or the null pointer, `pcap_getnonblock` is asked for it before
-- that is tested.
module _ (pcap_device_open : PcapData → Option Ptr) (pcap_getnonblock : Option Ptr → Run ℕ) where
  -- `EtherNet::open`
  unfoldable pub ether_open : OpsData → Netif → Run (NetErr × OpsData × Netif)
  unfolding ether_opened
  ether_open (pcap_data dev_data) n = do
    mode ← pcap_getnonblock (pcap_device_open dev_data)
    elim (pcap_device_open dev_data) [
      | none ↦ ok (net_err_io, pcap_data dev_data, n)
      | some device ↦ ether_opened dev_data device n
    ]
  ether_open nothing n = fault
  ether_open (pcap device) n = fault

  -- `open`, by the class of the interface.
  unfoldable pub open_op : OpsData → Netif → Run (NetErr × OpsData × Netif)
  unfolding loop_open ether_open
  open_op ops_data n = elim n.class [
    | loop_net ↦ do (err, n1) ← loop_open n; ok (err, ops_data, n1)
    | ether_net ↦ ether_open ops_data n
  ]

  -- `close`, by the class; `pcap_close` of what is no device is a fault.
  unfoldable pub close : Class → OpsData → Run NetErr
  close loop_net ops_data = ok net_err_ok
  close ether_net (pcap device) = ok net_err_ok
  close ether_net nothing = fault
  close ether_net (pcap_data dev_data) = fault

  -- The interface `n` at the address `this`, opened or closed again.
  unfoldable pub opened : (this : Ptr) → OpsData → Netif → World → Run (Option Ptr × World)
  unfolding open_op close
  opened this ops_data n w = do
    (err, ops_data1, n1) ← open_op ops_data n
    if is_error err
        then (do closed ← close n.class ops_data1; ok (none, w))
        else (let (state_err, w1) = set_active this (put_netif this n1 w) in
            ok (some this, record w1 { netif_list = w1.netif_list ++ this ∷ [] }))

  -- `INetWork::netif_open`; `this` is where the object comes to lie.
  unfoldable pub netif_open :
      (in_queue_size out_queue_size : ℕ) (registry : List (List ℕ × Class)) (this : Ptr)
      (dev_name : List ℕ)
      → OpsData
      → World
      → Run (Option Ptr × World)
  unfolding factory_of opened
  netif_open in_queue_size out_queue_size registry this dev_name ops_data w =
      elim (factory_of registry dev_name) [
        | none ↦ ok (none, w)
        | some class ↦ do
          n ← new_netif in_queue_size out_queue_size class dev_name
          opened this ops_data n w
      ]
