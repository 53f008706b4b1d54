-- ===== src/Config/Var.antt =====
-- `ConfigVar` and `Config` of src/config.h: a setting, its listeners, and the table of all settings.
-- The log lines are left out.
pub mod Listeners
use tinytcp.Base.{
  ℕ, zero, suc, ◌+◌, ◌%◌, ◌^◌, Bool, true, false, not, ◌&&◌, ◌||◌, Option, none, some, List, [],
  ◌∷◌, ◌++◌, length, ltb, leb, ◌==◌, if◌then◌else◌,
}
use tinytcp.Base.Text.{Text, codes, same_text, is_alpha}
use tinytcp.NetErr.{Run, ok, fault, ◌>>=◌}
use tinytcp.Config.Yaml as Yaml
use tinytcp.Config.Yaml.{Try}
use tinytcp.Config.Cast.{map_insert}

-- `on_change_cb`: what a listener does to the rest of the program, of type `W`.
abbrev pub OnChange : Type 0 → Type 0 → Type 0
OnChange T W = (old new : T) → W → Run W

-- `ConfigVar`, with `ConfigVarBase`; its listeners are in the order of their keys.
pub record ConfigVar (T : Type 0) (W : Type 0) : Type 0 where
  pub name : Text
  pub description : Text
  pub val : T
  pub cbs : List (ℕ × OnChange T W)

text_or_empty : Try Text → Text
text_or_empty (Yaml.value t) = t
text_or_empty Yaml.thrown = []

module _ {T W : Type 0} where
  -- `ConfigVar::ConfigVar`
  pub new_var : (name : Text) (default_value : T) (description : Text) → ConfigVar T W
  new_var name default_value description = record {
    name = name;
    description = description;
    val = default_value;
    cbs = [];
  }

  -- `m_cbs[key] = cb`
  pub put_listener : ℕ → OnChange T W → List (ℕ × OnChange T W) → List (ℕ × OnChange T W)
  put_listener key cb [] = (key, cb) ∷ []
  put_listener key cb (p ∷ ps) =
      let rest = p ∷ put_listener key cb ps in
      if key == p.0 then (key, cb) ∷ ps else if ltb key p.0 then (key, cb) ∷ p ∷ ps else rest

  -- `add_listener`, with the static `s_func_id` before and after
  pub add_listener : (s_func_id : ℕ) → OnChange T W → ConfigVar T W → ℕ × ConfigVar T W
  unfolding put_listener
  add_listener s_func_id cb c =
      let id = (s_func_id + 1) % 2 ^ 64 in (id, record c { cbs = put_listener id cb c.cbs })

  pub erase_key : ℕ → List (ℕ × OnChange T W) → List (ℕ × OnChange T W)
  erase_key key [] = []
  erase_key key (p ∷ ps) = let rest = p ∷ erase_key key ps in if p.0 == key then ps else rest

  -- `del_listener`
  pub del_listener : ℕ → ConfigVar T W → ConfigVar T W
  unfolding erase_key
  del_listener key c = record c { cbs = erase_key key c.cbs }

  pub find_key : ℕ → List (ℕ × OnChange T W) → Option (OnChange T W)
  find_key key [] = none
  find_key key (p ∷ ps) = let rest = find_key key ps in if p.0 == key then some p.1 else rest

  -- `get_listener`
  pub get_listener : ℕ → ConfigVar T W → Option (OnChange T W)
  unfolding find_key
  get_listener key c = find_key key c.cbs

  -- `clear_listener`
  pub clear_listener : ConfigVar T W → ConfigVar T W
  clear_listener c = record c { cbs = [] }

  -- The loop over the listeners.
  pub notify : List (ℕ × OnChange T W) → (old new : T) → W → Run W
  notify [] old new w = ok w
  notify (p ∷ ps) old new w = p.1 old new w >>= notify ps old new

  -- `set_value`. `same` is the `operator==` of the type.
  pub set_value : (same : T → T → Bool) → T → ConfigVar T W → W → Run (ConfigVar T W × W)
  unfolding notify
  set_value same v c w =
      if same c.val v
      then ok (c, w)
      else notify c.cbs c.val v w >>= λ w'. ok (record c { val = v }, w')

  -- What is done with a text that was read, or was not.
  pub take_value :
      (same : T → T → Bool) → Try T → ConfigVar T W → W → Run (Bool × ConfigVar T W × W)
  unfolding set_value
  take_value same (Yaml.value v) c w = set_value same v c w >>= λ r. ok (true, r.0, r.1)
  take_value same Yaml.thrown c w = ok (false, c, w)

  -- `from_string`, where `from` is `FromStr`
  pub from_string :
      (same : T → T → Bool) (from : Text → Try T)
      → Text
      → ConfigVar T W
      → W
      → Run (Bool × ConfigVar T W × W)
  unfolding take_value
  from_string same from v c w = take_value same (from v) c w

  -- `to_string`, where `to` is `ToStr`
  pub to_string : (to : T → Try Text) → ConfigVar T W → Text
  unfolding text_or_empty
  to_string to c = text_or_empty (to c.val)

-- A character of a name of a setting.
pub name_char : ℕ → Bool
name_char c = is_alpha c || c == b'.' || c == b'_' || leb b'0' c && leb c b'9'

-- That `find_first_not_of` finds none but these.
pub valid_name : Text → Bool
unfolding name_char
valid_name [] = true
valid_name (c ∷ s) = name_char c && valid_name s

-- An entry of `ConfigVarMap`: the type that the setting has, and a pointer to it.
pub record Entry : Type 0 where
  pub type : ℕ
  pub var : ℕ

-- `Config::look_up_base`
unfoldable pub look_up_base : Text → List (Text × Entry) → Option Entry
look_up_base name [] = none
look_up_base name (p ∷ ps) =
    let rest = look_up_base name ps in if same_text p.0 name then some p.1 else rest

-- `dynamic_pointer_cast`: a null pointer for another type.
pub cast : (type : ℕ) → Entry → Option ℕ
cast type e = if e.type == type then some e.var else none

-- A setting that was found, or a new one that is entered under a valid name: `made` is where it lies.
pub look_up_found :
    Option Entry
    → (type : ℕ) (name : Text) (made : ℕ) → List (Text × Entry)
    → Try (Option ℕ × List (Text × Entry))
unfolding cast valid_name map_insert
look_up_found (some e) type name made datas = Yaml.value (cast type e, datas)
look_up_found none type name made datas =
    if valid_name name
    then Yaml.value (some made, map_insert (name, record { type = type; var = made }) datas)
    else Yaml.thrown

-- `Config::look_up` with a default value
pub look_up :
    (type : ℕ) (name : Text) (made : ℕ) → List (Text × Entry) → Try (Option ℕ × List (Text × Entry))
unfolding look_up_base look_up_found
look_up type name made datas = look_up_found (look_up_base name datas) type name made datas

cast_found : (type : ℕ) → Option Entry → Option ℕ
unfolding cast
cast_found type none = none
cast_found type (some e) = cast type e

-- `Config::look_up` of a setting that is there
pub look_up_only : (type : ℕ) (name : Text) → List (Text × Entry) → Option ℕ
unfolding look_up_base cast_found
look_up_only type name datas = cast_found type (look_up_base name datas)

-- `Config::visit`
pub visit : {W : Type 0} → (Entry → W → Run W) → List (Text × Entry) → W → Run W
visit cb [] w = ok w
visit cb (p ∷ ps) w = cb p.1 w >>= visit cb ps
