-- ===== src/Ring/Threads.antt =====
-- `push` and `pop` of src/lock_free_ring_queue.h, one access to a shared atomic or cell at a time,
-- and any number of threads that call them, interleaved in any order. Memory is sequentially
-- consistent; a weak compare-exchange may fail for no reason.
pub mod Spsc
pub mod Order
pub mod Race
pub mod Progress
pub mod Settle
mod Tests
use tinytcp.Base.{
  ℕ, ◌<◌, ◌≡◌, ◌≢◌, Bool, true, false, Option, none, some, List, [], ◌∷◌, ◌++◌, ◌==◌, if◌then◌else◌,
  get_or, set, add32, sub32,
}
use tinytcp.Ring.{Ring, index_of_queue}

-- Where a thread stands in `push`, with the locals that are live there.
pub data Prod (A : Type 0) : Type 0 where
  p_idle : Prod A
  p_start : (x : A) → Prod A  -- head of the `do` loop
  p_loaded : (x : A) (current_read_index : ℕ) → Prod A
  p_claim : (x : A) (current_write_index : ℕ) → Prod A  -- before the compare-exchange
  p_store : (x : A) (current_write_index : ℕ) → Prod A
  p_confirm : (x : A) (current_write_index : ℕ) → Prod A  -- the second `while`
  p_count : Prod A
  p_done : Bool → Prod A

-- The same for `pop`.
pub data Cons (A : Type 0) : Type 0 where
  c_idle : Cons A
  c_start : Cons A
  c_loaded : (current_read_index : ℕ) → Cons A
  c_read : (current_read_index : ℕ) → Cons A  -- before the copy of the cell
  c_claim : (current_read_index : ℕ) (v : A) → Cons A
  c_count : (v : A) → Cons A
  c_done : Option A → Cons A

module _ {A : Type 0} where
  pub data PushStep (r : Ring A) : Prod A → Ring A → Prod A → Type 0 where
    call : (x : A) → PushStep r p_idle r (p_start x)
    load_read : {x : A} → PushStep r (p_start x) r (p_loaded x r.read_index)
    full :
        {x : A} {i : ℕ}
        → index_of_queue r (add32 r.write_index 1) ≡ index_of_queue r i
        → PushStep r (p_loaded x i) r (p_done false)
    room :
        {x : A} {i : ℕ}
        → index_of_queue r (add32 r.write_index 1) ≢ index_of_queue r i
        → PushStep r (p_loaded x i) r (p_claim x r.write_index)
    claim :
        {x : A} {w : ℕ}
        → r.write_index ≡ w
        → PushStep r (p_claim x w) (record r { write_index = add32 w 1 }) (p_store x w)
    retry : {x : A} {w : ℕ} → PushStep r (p_claim x w) r (p_start x)
    store :
        {x : A} {w : ℕ}
        → PushStep r
            (p_store x w)
            (record r { queue = set r.queue (index_of_queue r w) x })
            (p_confirm x w)
    confirm :
        {x : A} {e : ℕ}
        → r.last_write_index ≡ e
        → PushStep r (p_confirm x e) (record r { last_write_index = add32 e 1 }) p_count
    reload : {x : A} {e : ℕ} → PushStep r (p_confirm x e) r (p_confirm x r.last_write_index)
    count : PushStep r p_count (record r { length = add32 r.length 1 }) (p_done true)
    leave : {b : Bool} → PushStep r (p_done b) r p_idle

  -- `junk` is what a read outside the array would give.
  pub data PopStep (junk : A) (r : Ring A) : Cons A → Ring A → Cons A → Type 0 where
    call : PopStep junk r c_idle r c_start
    load_read : PopStep junk r c_start r (c_loaded r.read_index)
    empty :
        {i : ℕ}
        → index_of_queue r r.last_write_index ≡ index_of_queue r i
        → PopStep junk r (c_loaded i) r (c_done none)
    found :
        {i : ℕ}
        → index_of_queue r r.last_write_index ≢ index_of_queue r i
        → PopStep junk r (c_loaded i) r (c_read i)
    copy :
        {i : ℕ} → PopStep junk r (c_read i) r (c_claim i (get_or r.queue (index_of_queue r i) junk))
    claim :
        {i : ℕ} {v : A}
        → r.read_index ≡ i
        → PopStep junk r (c_claim i v) (record r { read_index = add32 i 1 }) (c_count v)
    retry : {i : ℕ} {v : A} → PopStep junk r (c_claim i v) r c_start
    count :
        {v : A}
        → PopStep junk r (c_count v) (record r { length = sub32 r.length 1 }) (c_done (some v))
    leave : {o : Option A} → PopStep junk r (c_done o) r c_idle

-- The shared queue and where each thread stands.
pub record System (A : Type 0) : Type 0 where
  pub ring : Ring A
  pub prods : ℕ → Prod A
  pub conss : ℕ → Cons A

abbrev pub update : {B : Type 0} → (ℕ → B) → ℕ → B → ℕ → B
update f i b j = if j == i then b else f j

-- One access of one of `n` threads in `push` or of one of `k` in `pop`.
pub data Step {A : Type 0} (junk : A) (n k : ℕ) (s : System A) : System A → Type 0 where
  pushes :
      (i : ℕ) {r : Ring A} {p : Prod A}
      → i < n
      → PushStep s.ring (s.prods i) r p
      → Step junk n k s (record s { ring = r; prods = update s.prods i p })
  pops :
      (j : ℕ) {r : Ring A} {c : Cons A}
      → j < k
      → PopStep junk s.ring (s.conss j) r c
      → Step junk n k s (record s { ring = r; conss = update s.conss j c })

pub data Reach {A : Type 0} (junk : A) (n k : ℕ) (s : System A) : System A → Type 0 where
  here : Reach junk n k s s
  later : {t u : System A} → Reach junk n k s t → Step junk n k t u → Reach junk n k s u

-- No thread is in a call.
abbrev pub quiet : {A : Type 0} → Ring A → System A
quiet r = record { ring = r; prods = λ i. p_idle; conss = λ j. c_idle }
