-- ===== src/Config/Var/Listeners.antt =====
-- The keys of the listeners of a setting.
use tinytcp.Base.{
  ℕ, ◌+◌, ◌%◌, ◌^◌, ◌≤◌, ◌<◌, ◌≡◌, refl, ap, false, none, some, List, [], ◌∷◌, ◌++◌, ltb, ◌==◌,
  if◌then◌else◌, arith,
}
use tinytcp.Config.Var.{
  OnChange, ConfigVar, put_listener, add_listener, erase_key, del_listener, find_key, get_listener,
}

module _ {T W : Type 0} where
  abbrev pub KeysLe : ℕ → List (ℕ × OnChange T W) → Type 0
  KeysLe n [] = Unit
  KeysLe n (p ∷ ps) = (p.0 ≤ n) × KeysLe n ps

  put_listener-last :
      (n : ℕ) (cb : OnChange T W) (ps : List (ℕ × OnChange T W))
      → KeysLe n ps
      → put_listener (n + 1) cb ps ≡ ps ++ (n + 1, cb) ∷ []
  unfolding put_listener
  put_listener-last n cb [] h = refl
  put_listener-last n cb (p ∷ ps) (h, hs) =
      let ne : ((n + 1) == p.0) ≡ false = ground arith in
      let ge : ltb (n + 1) p.0 ≡ false = ground arith in
      rw (ne, ge) (ap (λ qs. p ∷ qs) (put_listener-last n cb ps hs))

  erase_key-last :
      (n : ℕ) (cb : OnChange T W) (ps : List (ℕ × OnChange T W))
      → KeysLe n ps
      → erase_key (n + 1) (ps ++ (n + 1, cb) ∷ []) ≡ ps
  unfolding erase_key
  erase_key-last n cb [] h = ground arith
  erase_key-last n cb (p ∷ ps) (h, hs) =
      let ne : (p.0 == (n + 1)) ≡ false = ground arith in
      rw ne (ap (λ qs. p ∷ qs) (erase_key-last n cb ps hs))

  find_key-none : (n : ℕ) (ps : List (ℕ × OnChange T W)) → KeysLe n ps → find_key (n + 1) ps ≡ none
  unfolding find_key
  find_key-none n [] h = refl
  find_key-none n (p ∷ ps) (h, hs) =
      let ne : (p.0 == (n + 1)) ≡ false = ground arith in rw ne (find_key-none n ps hs)

  find_key-last :
      (n j : ℕ) (cb : OnChange T W) (ps : List (ℕ × OnChange T W))
      → KeysLe n ps
      → find_key j (ps ++ (n + 1, cb) ∷ []) ≡ (if j == (n + 1) then some cb else find_key j ps)
  unfolding find_key
  find_key-last n j cb [] h = ground arith
  find_key-last n j cb (p ∷ ps) (h, hs) = ground (arith, find_key-last n j cb ps hs)

  KeysLe-last :
      (n : ℕ) (cb : OnChange T W) (ps : List (ℕ × OnChange T W))
      → KeysLe n ps
      → KeysLe (n + 1) (ps ++ (n + 1, cb) ∷ [])
  KeysLe-last n cb [] h = (omega arith, tt)
  KeysLe-last n cb (p ∷ ps) (h, hs) = (omega arith, KeysLe-last n cb ps hs)

  -- While the counter stands below 2^64 - 1 and no key of the setting is above it, add_listener
  -- gives a key that the setting did not have, under which its listener is found, and all others
  -- are found as before; no key is then above the counter, and del_listener of the key brings the
  -- setting back as it was.
  pub add_listener_lem :
      (s_func_id : ℕ) (cb : OnChange T W) (c : ConfigVar T W)
      → s_func_id + 1 < 2 ^ 64
      → KeysLe s_func_id c.cbs
      → let (id, c') = add_listener s_func_id cb c in
        (id ≡ s_func_id + 1)
        × (get_listener id c ≡ none)
        × ((j : ℕ) → get_listener j c' ≡ (if j == id then some cb else get_listener j c))
        × KeysLe id c'.cbs
        × (del_listener id c' ≡ c)
  unfolding add_listener get_listener del_listener
  add_listener_lem s cb c small h =
      let id : (s + 1) % 2 ^ 64 ≡ s + 1 = omega arith in
      let put = put_listener-last s cb c.cbs h in
      rw (id, put)
        (
          refl,
          find_key-none s c.cbs h,
          (λ j. find_key-last s j cb c.cbs h),
          KeysLe-last s cb c.cbs h,
          ap (λ ps. record c { cbs = ps }) (erase_key-last s cb c.cbs h),
        )
