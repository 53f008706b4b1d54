-- ===== src/Log/Pattern.antt =====
-- `LogFormatter` of src/log.cc: the pattern is cut into pieces, which become format items.
pub mod Print
use tinytcp.Base.{
  ℕ, zero, suc, ◌+◌, ◌-◌, Bool, true, false, not, ◌&&◌, ◌||◌, List, [], ◌∷◌, ◌++◌, length, ◌==◌,
  if◌then◌else◌,
}
use tinytcp.Base.Text.{Text, codes, is_alpha, same_text}

-- An entry of `vec`: its last component tells plain text from a directive.
pub data Piece : Type 0 where
  text : Text → Piece
  item : (str fmt : Text) → Piece

-- The `while` loop once it is behind a `{`: whether it met the `}`, the format, and how many
-- characters it has passed over.
pub scan_format : Text → (fmt : Text) (passed : ℕ) → Bool × Text × ℕ
scan_format [] fmt passed = (false, [], passed)
scan_format (c ∷ rest) fmt passed =
    let later = scan_format rest (fmt ++ c ∷ []) (suc passed) in
    if c == b'}' then (true, fmt, suc passed) else later

-- The `while` loop from the character behind `%`: whether the directive is closed, its name and
-- format, and how many characters it takes.
pub scan : Text → (str : Text) (passed : ℕ) → Bool × Text × Text × ℕ
unfolding scan_format
scan [] str passed = (true, str, [], passed)
scan (c ∷ rest) str passed =
    let later = scan rest (str ++ c ∷ []) (suc passed) in
    let (closed, fmt, n) = scan_format rest [] (suc passed) in
    if not (is_alpha c) && not (c == b'{') && not (c == b'}')
    then (true, str, [], passed)
    else if c == b'{'
    then (closed, str, fmt, n)
    else later

-- Pending text goes before what follows.
pub flush : (nstr : Text) → List Piece → List Piece
flush [] vec = vec
flush (c ∷ nstr) vec = text (c ∷ nstr) ∷ vec

pub starts_percent : Text → Bool
starts_percent [] = false
starts_percent (c ∷ rest) = c == b'%'

-- The `for` loop of `init`: `skip` characters have been taken by a directive. The Boolean is
-- `m_error`.
pub cut : (pattern : Text) (skip : ℕ) (nstr : Text) → List Piece × Bool
unfolding scan flush starts_percent
cut [] skip nstr = (flush nstr [], false)
cut (c ∷ rest) (suc skip) nstr = cut rest skip nstr
cut (c ∷ rest) zero nstr =
    let plain = cut rest 0 (nstr ++ c ∷ []) in
    let (closed, str, fmt, n) = scan rest [] 0 in
    let after = cut rest n [] in
    let again = cut rest 0 nstr in
    if not (c == b'%')
    then plain
    else if starts_percent rest
    then plain
    else if closed
    then (flush nstr (item str fmt ∷ after.0), after.1)
    else (text (codes "<<pattern-error>>") ∷ again.0, true)

-- The subclasses of `FormatItem`.
pub data FormatItem : Type 0 where
  message level elapse name thread_id new_line filename line tab thread_name : FormatItem
  date_time : (format : Text) → FormatItem
  string : Text → FormatItem

-- `DateTimeFormatterItem`
pub new_date_time : Text → FormatItem
new_date_time [] = date_time (codes "%Y-%m-%d %H:%M:%S")
new_date_time (c ∷ fmt) = date_time (c ∷ fmt)

-- `s_format_items`, and what is made of a name that it does not have.
pub make_item : (str fmt : Text) → FormatItem × Bool
unfolding new_date_time
make_item str fmt =
    if same_text str (codes "m")
    then (message, false)
    else if same_text str (codes "p")
    then (level, false)
    else if same_text str (codes "r")
    then (elapse, false)
    else if same_text str (codes "c")
    then (name, false)
    else if same_text str (codes "t")
    then (thread_id, false)
    else if same_text str (codes "n")
    then (new_line, false)
    else if same_text str (codes "d")
    then (new_date_time fmt, false)
    else if same_text str (codes "f")
    then (filename, false)
    else if same_text str (codes "l")
    then (line, false)
    else if same_text str (codes "T")
    then (tab, false)
    else if same_text str (codes "N")
    then (thread_name, false)
    else (string (codes "<<error_format %" ++ (str ++ codes ">>")), true)

-- The last loop of `init`.
pub make_items : List Piece → List FormatItem × Bool
unfolding make_item
make_items [] = ([], false)
make_items (text s ∷ vec) = let (items, err) = make_items vec in (string s ∷ items, err)
make_items (item str fmt ∷ vec) =
    let (made, wrong) = make_item str fmt in
    let (items, err) = make_items vec in (made ∷ items, wrong || err)

-- `LogFormatter`
pub record LogFormatter : Type 0 where
  pub pattern : Text
  pub items : List FormatItem
  pub is_error : Bool

pub new : (pattern : Text) → LogFormatter
unfolding cut make_items
new pattern =
    let (vec, broken) = cut pattern 0 [] in
    let (items, wrong) = make_items vec in
    record { pattern = pattern; items = items; is_error = broken || wrong }
