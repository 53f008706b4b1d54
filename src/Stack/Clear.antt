-- ===== src/Stack/Clear.antt =====
-- Emptying the input queue of an interface.
use tinytcp.Base.{
  subst, ℕ, zero, suc, ◌≡◌, true, refl, ap, sym, ◌∙◌, false, some, List, [], ◌∷◌, arith, length,
}
use tinytcp.Fifo
use tinytcp.Ring
use tinytcp.Ring.{Ring}
use tinytcp.Ring.Inv.{IsValid, pop-IsValid}
use tinytcp.Ring.Refine.{contents, length-contents, pop_refines}
use tinytcp.Memblock.{Ptr, null}
use tinytcp.NetErr.{ok}
use tinytcp.Pkt.View.{has}
use tinytcp.Stack.{World, put_netif, free_known, free_buf}
use tinytcp.Stack.Queues.{clear_in_loop, clear_in_queue}

-- `pop` of a valid queue that is not empty.
pub pop-some :
    (q : Ring Ptr) (p : Ptr) (ps : List Ptr)
    → IsValid q
    → contents null q ≡ p ∷ ps
    → ((Ring.pop null q).0 ≡ some p) × (contents null (Ring.pop null q).1 ≡ ps)
unfolding Fifo.pop
pop-some q p ps v e = ground (arith, pop_refines null q v)

-- Every pointer of the list is one to a buffer.
abbrev pub AllIn : (buffers ps : List Ptr) → Type 0
AllIn buffers [] = Unit {0}
AllIn buffers (p ∷ ps) = (has p buffers ≡ true) × AllIn buffers ps

-- The queue after a round of the loop.
after_round : (netif p : Ptr) → World → World
after_round netif p w =
    free_known p (
      put_netif netif (record (w.netifs netif) { in_q = (Ring.pop null (w.netifs netif).in_q).1 })
        w)

in_q-after_round :
    (netif p : Ptr) (w : World)
    → ((after_round netif p w).netifs netif).in_q ≡ (Ring.pop null (w.netifs netif).in_q).1
unfolding after_round free_known
in_q-after_round netif p w = ground arith

buffers-after_round : (netif p : Ptr) (w : World) → (after_round netif p w).buffers ≡ w.buffers
unfolding after_round free_known
buffers-after_round netif p w = refl

clear_step :
    (fuel : ℕ) (netif p : Ptr) (w : World)
    → (Ring.pop null (w.netifs netif).in_q).0 ≡ some p
    → Ring.is_empty (w.netifs netif).in_q ≡ false
    → has p w.buffers ≡ true
    → clear_in_loop (suc fuel) netif w ≡ clear_in_loop fuel netif (after_round netif p w)
unfolding clear_in_loop after_round free_buf
clear_step fuel netif p w e h known = rw (h, e, known) refl

clear_in_loop_lem :
    (ps : List Ptr) (fuel : ℕ) (netif : Ptr) (w : World)
    → IsValid (w.netifs netif).in_q
    → contents null (w.netifs netif).in_q ≡ ps
    → AllIn w.buffers ps
    → length ps ≡ fuel
    → (w' : World) × (clear_in_loop (suc fuel) netif w ≡ ok w')
      × IsValid (w'.netifs netif).in_q
      × (contents null (w'.netifs netif).in_q ≡ [])
unfolding clear_in_loop Ring.is_empty
clear_in_loop_lem [] fuel netif w v e k f =
    (w, ground (arith, length-contents null (w.netifs netif).in_q), v, e)
clear_in_loop_lem (p ∷ ps) zero netif w v e k f = absurd (omega arith)
clear_in_loop_lem (p ∷ ps) (suc fuel) netif w v e k f =
    let q = (w.netifs netif).in_q in
    let popped = pop-some q p ps v e in
    let same = in_q-after_round netif p w in
    let (w', runs, v', e') =
      clear_in_loop_lem ps fuel netif (after_round netif p w)
        (subst IsValid (sym same) (pop-IsValid null q v)) (ap (contents null) same ∙ popped.1)
        (subst (λ l. AllIn l ps) (sym (buffers-after_round netif p w)) k.1) (omega arith) in
    (
      w',
      clear_step (suc fuel) netif p w popped.0 (ground (arith, length-contents null q)) k.0 ∙ runs,
      v',
      e',
    )

-- An interface whose input queue is valid and holds pointers to buffers only can be cleared: clear_in_queue
-- ends, with no fault, and the input queue is then valid and empty.
pub clear_in_queue_lem :
    (netif : Ptr) (w : World)
    → IsValid (w.netifs netif).in_q
    → AllIn w.buffers (contents null (w.netifs netif).in_q)
    → (w' : World) × (clear_in_queue netif w ≡ ok w')
      × IsValid (w'.netifs netif).in_q
      × (contents null (w'.netifs netif).in_q ≡ [])
unfolding clear_in_queue Ring.count
clear_in_queue_lem netif w v k =
    clear_in_loop_lem (contents null (w.netifs netif).in_q) (w.netifs netif).in_q.length netif w v
      refl k (length-contents null (w.netifs netif).in_q)
