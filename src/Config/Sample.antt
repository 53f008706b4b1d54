-- ===== src/Config/Sample.antt =====
-- Documents, with a text for each: a value of the parameter `Yaml` that meets its laws.
use tinytcp.Base.{
  ℕ, zero, suc, ◌+◌, ◌≡◌, refl, sym, ap, ◌∙◌, Bool, true, false, Option, none, some, List, [], ◌∷◌,
  ◌++◌, if◌then◌else◌, arith,
}
use mathlib.Core.List.{append_assoc, append-nil}
use tinytcp.Base.Text.{Text, same_text}
use tinytcp.Config.Tree.Paths.{here, there, IsHeight}
use tinytcp.Config.Yaml.{Try, value, thrown, Yaml, IsYaml}

pub data Doc : Type 0 where
  nothing : Doc
  text : Text → Doc
  item : (list last : Doc) → Doc
  field : (key : Text) (held map : Doc) → Doc

-- A text in postfix order: 0 and 1 put `nothing` and an empty text on a stack, 2 joins the two on its
-- top to a list, 3 the three on its top to a field, and c + 4 adds the character c to the text there.
chars : Text → List ℕ
chars [] = []
chars (c ∷ s) = (c + 4) ∷ chars s

abbrev pub written : Doc → List ℕ
unfolding chars
written nothing = 0 ∷ []
written (text s) = 1 ∷ chars s
written (item n v) = written n ++ written v ++ 2 ∷ []
written (field k v n) = 1 ∷ chars k ++ written v ++ written n ++ 3 ∷ []

join_item : List Doc → List Doc
join_item (v ∷ n ∷ st) = item n v ∷ st
join_item st = st

join_field : List Doc → List Doc
join_field (n ∷ v ∷ text k ∷ st) = field k v n ∷ st
join_field st = st

add_char : ℕ → List Doc → List Doc
add_char c (text s ∷ st) = text (s ++ c ∷ []) ∷ st
add_char c st = st

token : ℕ → List Doc → List Doc
unfolding join_item join_field add_char
token zero st = nothing ∷ st
token (suc zero) st = text [] ∷ st
token (suc (suc zero)) st = join_item st
token (suc (suc (suc zero))) st = join_field st
token (suc (suc (suc (suc c)))) st = add_char c st

run : List ℕ → List Doc → List Doc
unfolding token
run [] st = st
run (t ∷ ts) st = run ts (token t st)

top : List Doc → Try Doc
top [] = thrown
top (d ∷ st) = value d

pub read_doc : Text → Try Doc
unfolding run top
read_doc ts = top (run ts [])

run-append : (ts us : List ℕ) (st : List Doc) → run (ts ++ us) st ≡ run us (run ts st)
unfolding run
run-append [] us st = refl
run-append (t ∷ ts) us st = run-append ts us (token t st)

run-chars : (s done : Text) (st : List Doc) → run (chars s) (text done ∷ st) ≡ text (done ++ s) ∷ st
unfolding run chars
run-chars [] done st = ap (λ t. text t ∷ st) (sym (append-nil done))
run-chars (c ∷ s) done st =
    let four : c + 4 ≡ suc (suc (suc (suc c))) = omega arith in
    rw four (run-chars s (done ++ c ∷ []) st ∙ ap (λ t. text t ∷ st) (append_assoc done (c ∷ []) s))

run-written : (d : Doc) (st : List Doc) → run (written d) st ≡ d ∷ st
unfolding run chars
run-written nothing st = refl
run-written (text s) st = run-chars s [] st
run-written (item n v) st = simp (run-append, run-written n, run-written v)
run-written (field k v n) st = simp (run-append, run-chars, run-written n, run-written v)

pub read-written : (d : Doc) → read_doc (written d) ≡ value d
unfolding read_doc
read-written d = rw (run-written d [])

pub as_text : Doc → Try Text
as_text (text s) = value s
as_text d = thrown

pub scalar_text : Doc → Text
scalar_text (text s) = s
scalar_text d = []

pub is_scalar : Doc → Bool
is_scalar (text s) = true
is_scalar d = false

pub is_map : Doc → Bool
is_map (field k v n) = true
is_map d = false

abbrev pub fields : Doc → Bool
fields nothing = true
fields (text s) = false
fields (item n v) = false
fields (field k v n) = fields n

abbrev pub items : Doc → Bool
items nothing = true
items (text s) = false
items (item n v) = items n
items (field k v n) = false

pub get : Text → Doc → Try (Option Doc)
get k nothing = value none
get k (text s) = thrown
get k (item n v) = value none
get k (field j v n) = let rest = get k n in if same_text k j then value (some v) else rest

pub elements : Doc → List Doc
elements nothing = []
elements (text s) = []
elements (item n v) = elements n ++ v ∷ []
elements (field k v n) = []

pub entries : Doc → List (Text × Doc)
entries nothing = []
entries (text s) = []
entries (item n v) = []
entries (field k v n) = (k, v) ∷ entries n

abbrev pub docs : Yaml
docs = record {
  Node = Doc;
  load = read_doc;
  print = written;
  null = nothing;
  scalar = text;
  as_text = as_text;
  is_scalar = is_scalar;
  scalar_text = scalar_text;
  get = get;
  put = λ k v n. field k v n;
  push_back = item;
  elements = elements;
  is_map = is_map;
  entries = entries;
}

same_text_refl : (s : Text) → same_text s s ≡ true
same_text_refl [] = refl
same_text_refl (c ∷ s) = let rest = same_text_refl s in ground arith

pub get-put : (k : Text) (v n : Doc) → get k (field k v n) ≡ value (some v)
unfolding get
get-put k v n = rw (same_text_refl k)

pub get-put_ne : (j k : Text) (v n : Doc) → same_text j k ≡ false → get j (field k v n) ≡ get j n
unfolding get
get-put_ne j k v n e = rw e

pub get-null : (k : Text) → get k nothing ≡ value none
unfolding get
get-null k = refl

pub elements-null : elements nothing ≡ []
unfolding elements
elements-null = refl

pub elements-push_back : (n v : Doc) → elements (item n v) ≡ elements n ++ v ∷ []
unfolding elements
elements-push_back n v = refl

pub as_text-scalar : (t : Text) → as_text (text t) ≡ value t
unfolding as_text
as_text-scalar t = refl

abbrev pub docs-IsYaml : IsYaml docs
docs-IsYaml = record {
  has_fields = fields;
  has_items = items;
  has_fields-null = refl;
  has_fields-put = λ k v n h. h;
  has_items-null = refl;
  has_items-push_back = λ n v h. h;
  get-null = get-null;
  get-put = λ k v n h. get-put k v n;
  get-put_ne = λ j k v n e h. get-put_ne j k v n e;
  elements-null = elements-null;
  elements-push_back = λ n v h. elements-push_back n v;
  as_text-scalar = as_text-scalar;
}

-- The number of fields and items.
abbrev pub size : Doc → ℕ
size nothing = 0
size (text s) = 0
size (item n v) = 0
size (field k v n) = size v + size n + 1

pub size-IsHeight : IsHeight docs size
unfolding entries
size-IsHeight nothing p i = elim i [ ]
size-IsHeight (text s) p i = elim i [ ]
size-IsHeight (item n v) p i = elim i [ ]
size-IsHeight (field k v n) _ here = omega arith
size-IsHeight (field k v n) p (there i) = omega (arith, size-IsHeight n p i)
