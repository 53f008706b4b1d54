-- ===== src/Ipaddr/Tests.antt =====
-- The theorems on addresses at concrete strings.
use tinytcp.Base.{◌≡◌, refl, [], ◌∷◌, arith, some, length, if◌then◌else◌}
use tinytcp.NetErr.{net_err_ok, net_err_param, ok, fault}
use tinytcp.Ipaddr.{Ipaddr, ipaddr_from_str, from_chars, to_string}
use tinytcp.Ipaddr.Text.{only_digits, read-to_string, ipaddr_from_str_lem, ipaddr_from_str-overflow}

abbrev zero_addr : Ipaddr
zero_addr = record { a_addr = 0 ∷ 0 ∷ 0 ∷ 0 ∷ [] }

-- 192.168.1.20
read-to_string_example :
    (ipaddr_from_str zero_addr (some (to_string (record { a_addr = 192 ∷ 168 ∷ 1 ∷ 20 ∷ [] })))
      ≡ ok (net_err_ok, record { a_addr = 192 ∷ 168 ∷ 1 ∷ 20 ∷ [] }))
    × (from_chars [] (some (to_string (record { a_addr = 192 ∷ 168 ∷ 1 ∷ 20 ∷ [] })))
        ≡ ok (record { a_addr = 192 ∷ 168 ∷ 1 ∷ 20 ∷ [] }))
read-to_string_example =
    read-to_string 192 168 1 20 (omega arith) (omega arith) (omega arith) (omega arith) zero_addr []

-- `1.2x`
ipaddr_from_str_lem_example :
    (ip : Ipaddr) × (ipaddr_from_str zero_addr (some (49 ∷ 46 ∷ 50 ∷ 120 ∷ []))
      ≡ ok (if only_digits (49 ∷ 46 ∷ 50 ∷ 120 ∷ []) then net_err_ok else net_err_param, ip))
    × (length ip.a_addr ≡ 4)
ipaddr_from_str_lem_example = ipaddr_from_str_lem zero_addr (49 ∷ 46 ∷ 50 ∷ 120 ∷ []) (omega arith)

-- `....`
ipaddr_from_str-overflow_example :
    (ipaddr_from_str zero_addr (some (46 ∷ 46 ∷ 46 ∷ 46 ∷ [])) ≡ fault)
    × (from_chars [] (some (46 ∷ 46 ∷ 46 ∷ 46 ∷ [])) ≡ fault)
ipaddr_from_str-overflow_example =
    ipaddr_from_str-overflow zero_addr [] (46 ∷ 46 ∷ 46 ∷ 46 ∷ []) refl (omega arith)
