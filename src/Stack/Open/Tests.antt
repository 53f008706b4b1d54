-- ===== src/Stack/Open/Tests.antt =====
-- Interfaces that are opened under the two names that the source registers.
use tinytcp.Base.{ℕ, ◌≡◌, refl, Option, none, some, List, [], ◌∷◌, arith}
use tinytcp.Base.Text.{codes}
use tinytcp.Memblock.{Ptr}
use tinytcp.NetErr.{Run, ok}
use tinytcp.Stack.{Class, loop_net, ether_net, World, netif_type_loop}
use tinytcp.Stack.Tests.{empty_ring, world}
use tinytcp.Stack.Open.{PcapData, nothing, factory_of, netif_open}
use tinytcp.Stack.Open.Result.{made, empty_queue, Opened, netif_open-loop}

abbrev registry : List (List ℕ × Class)
registry = (codes "loop", loop_net) ∷ (codes "eth0", ether_net) ∷ []

-- A machine with one device, at address 40, and a call that succeeds.
abbrev one_device : PcapData → Option Ptr
one_device d = some 40

abbrev card : PcapData
card = record { ip = some (codes "10.0.0.2"); hwaddr = 2 ∷ 0 ∷ 0 ∷ 0 ∷ 0 ∷ 1 ∷ [] }

abbrev getnonblock : Option Ptr → Run ℕ
getnonblock device = ok 0

netif_open-loop_example :
    (w' : World) × (netif_open one_device getnonblock 8 8 registry 5
        (codes "loop")
        nothing
        (world empty_ring)
      ≡ ok (some 5, w'))
    × Opened 5
        (record (made (empty_queue 8) (empty_queue 8) loop_net (codes "loop")) {
          type = netif_type_loop;
          ipaddr = record { a_addr = 127 ∷ 0 ∷ 0 ∷ 1 ∷ [] };
          netmask = record { a_addr = 255 ∷ 0 ∷ 0 ∷ 0 ∷ [] };
        })
        (world empty_ring)
        w'
    × (w'.default_netif ≡ none)
netif_open-loop_example =
    netif_open-loop one_device getnonblock 8 8 registry 5 (codes "loop") (world empty_ring)
      (omega arith) (omega arith) (omega arith) nothing (unfold factory_of in refl)
