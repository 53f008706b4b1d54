-- ===== src/Timer/Order.antt =====
-- The order of the timers, by time and then by address, and the set that is kept in it.
use tinytcp.Base.{
  ◌≤◌, ◌≡◌, ◌≢◌, refl, Bool, true, false, ◌||◌, List, [], ◌∷◌, inl, inr, arith, ◌==◌, Bool-cases,
}
use tinytcp.Timer.{Timer, TimerPtr, less, set_insert, set_find}

module _ (h : TimerPtr → Timer) where
  pub less_irrefl : (a : TimerPtr) → less h a a ≡ false
  unfolding less
  less_irrefl a = ground arith

  pub less_trans :
      (a b c : TimerPtr)
      → a ≢ 0
      → b ≢ 0
      → c ≢ 0
      → less h a b ≡ true
      → less h b c ≡ true
      → less h a c ≡ true
  unfolding less
  less_trans a b c na nb nc p q = ground arith

  -- Two timers that the order does not tell apart are one.
  pub less-total :
      (a b : TimerPtr) → a ≢ 0 → b ≢ 0 → less h a b ≡ false → less h b a ≡ false → a ≡ b
  unfolding less
  less-total a b na nb p q = ground arith

  pub less-next : (a b : TimerPtr) → a ≢ 0 → b ≢ 0 → less h a b ≡ true → (h a).next ≤ (h b).next
  unfolding less
  less-next a b na nb p = ground arith

  pub less-flip : (a b : TimerPtr) → a ≢ 0 → b ≢ 0 → less h a b ≡ true → less h b a ≡ false
  unfolding less
  less-flip a b na nb p = ground arith

  pub not_less : (a b : TimerPtr) → a ≢ 0 → b ≢ 0 → less h a b ≡ false → (h b).next ≤ (h a).next
  unfolding less
  not_less a b na nb p = ground arith

  abbrev pub NonNull : List TimerPtr → Type 0
  NonNull [] = Unit {0}
  NonNull (p ∷ ps) = (p ≢ 0) × NonNull ps

  abbrev pub Above : TimerPtr → List TimerPtr → Type 0
  Above p [] = Unit {0}
  Above p (q ∷ qs) = (less h p q ≡ true) × Above p qs

  -- The list of a set: every element in front of all later ones.
  abbrev pub IsSorted : List TimerPtr → Type 0
  IsSorted [] = Unit {0}
  IsSorted (p ∷ ps) = Above p ps × IsSorted ps

  pub Above-trans :
      (a b : TimerPtr) (ps : List TimerPtr)
      → a ≢ 0
      → b ≢ 0
      → NonNull ps
      → less h a b ≡ true
      → Above b ps
      → Above a ps
  Above-trans a b [] na nb n p q = tt
  Above-trans a b (c ∷ ps) na nb n p q =
      (less_trans a b c na nb n.0 p q.0, Above-trans a b ps na nb n.1 p q.1)

  pub NonNull-set_insert :
      (p : TimerPtr) (ps : List TimerPtr) → p ≢ 0 → NonNull ps → NonNull (set_insert h p ps)
  unfolding set_insert
  NonNull-set_insert p [] np n = (np, tt)
  NonNull-set_insert p (q ∷ qs) np n = elim (Bool-cases (less h p q)) [
    | inl e ↦ rw e (np, n)
    | inr e ↦ elim (Bool-cases (less h q p)) [
      | inl f ↦ rw (e, f) (n.0, NonNull-set_insert p qs np n.1)
      | inr f ↦ rw (e, f) n
    ]
  ]

  Above-set_insert :
      (r p : TimerPtr) (ps : List TimerPtr)
      → less h r p ≡ true
      → Above r ps
      → Above r (set_insert h p ps)
  unfolding set_insert
  Above-set_insert r p [] e a = (e, tt)
  Above-set_insert r p (q ∷ qs) e a = elim (Bool-cases (less h p q)) [
    | inl f ↦ rw f (e, a)
    | inr f ↦ elim (Bool-cases (less h q p)) [
      | inl g ↦ rw (f, g) (a.0, Above-set_insert r p qs e a.1)
      | inr g ↦ rw (f, g) a
    ]
  ]

  -- Inserting a timer keeps the set in order.
  pub set_insert-IsSorted :
      (p : TimerPtr) (ps : List TimerPtr)
      → p ≢ 0
      → NonNull ps
      → IsSorted ps
      → IsSorted (set_insert h p ps)
  unfolding set_insert
  set_insert-IsSorted p [] np n s = (tt, tt)
  set_insert-IsSorted p (q ∷ qs) np n s = elim (Bool-cases (less h p q)) [
    | inl e ↦ rw e ((e, Above-trans p q qs np n.0 n.1 e s.0), s)
    | inr e ↦ elim (Bool-cases (less h q p)) [
      | inl f ↦ rw (e, f) (Above-set_insert q p qs f s.0, set_insert-IsSorted p qs np n.1 s.1)
      | inr f ↦ rw (e, f) s
    ]
  ]

abbrev pub has : TimerPtr → List TimerPtr → Bool
has x [] = false
has x (q ∷ qs) = (q == x) || has x qs

module _ (h : TimerPtr → Timer) where
  -- The elements after an insertion.
  pub has-set_insert :
      (x p : TimerPtr) (ps : List TimerPtr)
      → p ≢ 0
      → NonNull h ps
      → has x (set_insert h p ps) ≡ ((p == x) || has x ps)
  unfolding set_insert
  has-set_insert x p [] np n = refl
  has-set_insert x p (q ∷ qs) np n =
      ground (arith, less-total h p q np n.0, has-set_insert x p qs np n.1)

  pub not-has-Above :
      (p : TimerPtr) (ps : List TimerPtr) → NonNull h ps → Above h p ps → has p ps ≡ false
  not-has-Above p [] n a = refl
  not-has-Above p (q ∷ qs) n a = ground (arith, same, not-has-Above p qs n.1 a.1)
    where
      same : q ≡ p → less h p q ≡ false
      same e = rw e (less_irrefl h p)

  -- In a set in order, `find` finds an element exactly if it is there.
  pub set_find-has :
      (p : TimerPtr) (ps : List TimerPtr) → p ≢ 0 → NonNull h ps → set_find h p ps ≡ has p ps
  unfolding set_find
  set_find-has p [] np n = refl
  set_find-has p (q ∷ qs) np n =
      ground (arith, less-total h p q np n.0, less_irrefl h p, same, set_find-has p qs np n.1)
    where
      same : q ≡ p → (less h p q ≡ false) × (less h q p ≡ false)
      same e = rw e (less_irrefl h p, less_irrefl h p)
