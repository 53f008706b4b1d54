-- ===== src/Config/Tests.antt =====
-- A document with settings at two depths, and a setting with a listener.
use tinytcp.Base.{◌≡◌, List, [], arith}
use tinytcp.Base.Text.{Text, codes}
use tinytcp.NetErr.{ok}
use tinytcp.Config.Sample.{Doc, nothing, text, field, docs, size, size-IsHeight}
use tinytcp.Config.Tree.{list_all_member}
use tinytcp.Config.Tree.Paths.{Lists, list_all_member_lem}

-- tcp: {in: 8, out: 9}
abbrev tcp_doc : Doc
tcp_doc =
    field (codes "tcp")
      (field (codes "in") (text (codes "8")) (field (codes "out") (text (codes "9")) nothing))
      nothing

list_all_member_lem_example :
    (out : List (Text × Doc)) × (list_all_member docs 5 [] tcp_doc ≡ ok out)
    × Lists docs [] tcp_doc out
list_all_member_lem_example = list_all_member_lem docs size 5 [] tcp_doc size-IsHeight (omega arith)
