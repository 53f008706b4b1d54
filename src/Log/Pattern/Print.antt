-- ===== src/Log/Pattern/Print.antt =====
-- Patterns that are printed from pieces are cut into those pieces again.
use tinytcp.Base.{
  ℕ, suc, ◌+◌, ◌≡◌, ◌≢◌, refl, ap, ap₂, sym, ◌∙◌, Bool, true, false, not, ◌&&◌, List, [], ◌∷◌, ◌++◌,
  length, length-append, ◌==◌, arith,
}
use mathlib.Core.List.{append_assoc, append-nil}
use tinytcp.Base.Text.{Text, is_alpha}
use tinytcp.Log.Pattern.{Piece, text, item, scan, scan_format, flush, starts_percent, cut}

-- A directive has braces only where it has a format.
abbrev pub print_item : (str fmt later : Text) → Text
print_item str [] later = b'%' ∷ (str ++ later)
print_item str (f ∷ fmt) later = b'%' ∷ (str ++ (b'{' ∷ ((f ∷ fmt) ++ (b'}' ∷ later))))

abbrev pub print : List Piece → Text
print [] = []
print (text s ∷ ps) = s ++ print ps
print (item str fmt ∷ ps) = print_item str fmt (print ps)

abbrev pub All : (ℕ → Bool) → Text → Type 0
All p [] = Unit {0}
All p (c ∷ s) = (p c ≡ true) × All p s

abbrev pub no_percent : ℕ → Bool
no_percent c = not (c == b'%')

abbrev pub no_close : ℕ → Bool
no_close c = not (c == b'}')

-- What may follow a name without a format.
abbrev pub stops : Text → Bool
stops [] = true
stops (c ∷ s) = not (is_alpha c) && not (c == b'{') && not (c == b'}')

abbrev pub Stops : (fmt later : Text) → Type 0
Stops [] later = stops later ≡ true
Stops (f ∷ fmt) later = Unit {0}

abbrev pub NoText : List Piece → Type 0
NoText (text s ∷ ps) = ⊥
NoText _ = Unit {0}

-- Text is not empty, has no `%`, and does not stand next to text; names are letters, formats
-- have no `}`, and what follows a name without a format ends it.
abbrev pub Printable : List Piece → Type 0
Printable [] = Unit {0}
Printable (text s ∷ ps) = (s ≢ []) × All no_percent s × NoText ps × Printable ps
Printable (item str fmt ∷ ps) =
    (str ≢ []) × All is_alpha str × All no_close fmt × Stops fmt (print ps) × Printable ps

scan_format-close :
    (fmt rest acc : Text) (k : ℕ)
    → All no_close fmt
    → scan_format (fmt ++ b'}' ∷ rest) acc k ≡ (true, acc ++ fmt, k + length fmt + 1)
unfolding scan_format
scan_format-close [] rest acc k h = ap₂ (λ a n. (true, a, n)) (sym (append-nil acc)) (omega arith)
scan_format-close (c ∷ fmt) rest acc k h =
    let ih : scan_format (fmt ++ b'}' ∷ rest) (acc ++ c ∷ []) (suc k)
        ≡ (true, (acc ++ c ∷ []) ++ fmt, suc k + length fmt + 1) =
      scan_format-close fmt rest (acc ++ c ∷ []) (suc k) h.1 in
    let e : (acc ++ c ∷ []) ++ fmt ≡ acc ++ c ∷ fmt = append_assoc acc (c ∷ []) fmt in
    let n : suc k + length fmt + 1 ≡ k + length (c ∷ fmt) + 1 = omega arith in ground (arith)

scan-name :
    (str fmt rest acc : Text) (k : ℕ)
    → All is_alpha str
    → All no_close fmt
    → scan (str ++ (b'{' ∷ (fmt ++ (b'}' ∷ rest)))) acc k
      ≡ (true, acc ++ str, fmt, k + length str + length fmt + 2)
unfolding scan
scan-name [] fmt rest acc k h g =
    let e : acc ++ [] ≡ acc = append-nil acc in
    let ih : scan_format (fmt ++ b'}' ∷ rest) [] (suc k) ≡ (true, fmt, suc k + length fmt + 1) =
      scan_format-close fmt rest [] (suc k) g in
    let n : suc k + length fmt + 1 ≡ k + 0 + length fmt + 2 = omega arith in ground arith
scan-name (c ∷ str) fmt rest acc k h g =
    let ih : scan (str ++ (b'{' ∷ (fmt ++ (b'}' ∷ rest)))) (acc ++ c ∷ []) (suc k)
        ≡ (true, (acc ++ c ∷ []) ++ str, fmt, suc k + length str + length fmt + 2) =
      scan-name str fmt rest (acc ++ c ∷ []) (suc k) h.1 g in
    let e : (acc ++ c ∷ []) ++ str ≡ acc ++ c ∷ str = append_assoc acc (c ∷ []) str in ground arith

scan-bare :
    (str rest acc : Text) (k : ℕ)
    → All is_alpha str
    → stops rest ≡ true
    → scan (str ++ rest) acc k ≡ (true, acc ++ str, [], k + length str)
unfolding scan
scan-bare [] [] acc k h g = ap₂ (λ a n. (true, a, [], n)) (sym (append-nil acc)) (omega arith)
scan-bare [] (c ∷ rest) acc k h g =
    let e : acc ++ [] ≡ acc = append-nil acc in let n : k + 0 ≡ k = omega arith in ground arith
scan-bare (c ∷ str) rest acc k h g =
    let ih : scan (str ++ rest) (acc ++ c ∷ []) (suc k)
        ≡ (true, (acc ++ c ∷ []) ++ str, [], suc k + length str) =
      scan-bare str rest (acc ++ c ∷ []) (suc k) h.1 g in
    let e : (acc ++ c ∷ []) ++ str ≡ acc ++ c ∷ str = append_assoc acc (c ∷ []) str in ground arith

cut-skip : (s rest nstr : Text) → cut (s ++ rest) (length s) nstr ≡ cut rest 0 nstr
unfolding cut
cut-skip [] rest nstr = refl
cut-skip (c ∷ s) rest nstr = cut-skip s rest nstr

cut-text : (s rest nstr : Text) → All no_percent s → cut (s ++ rest) 0 nstr ≡ cut rest 0 (nstr ++ s)
unfolding cut
cut-text [] rest nstr h = ap (cut rest 0) (sym (append-nil nstr))
cut-text (c ∷ s) rest nstr h =
    let ih : cut (s ++ rest) 0 (nstr ++ c ∷ []) ≡ cut rest 0 ((nstr ++ c ∷ []) ++ s) =
      cut-text s rest (nstr ++ c ∷ []) h.1 in
    let e : (nstr ++ c ∷ []) ++ s ≡ nstr ++ c ∷ s = append_assoc nstr (c ∷ []) s in ground arith

alpha-starts :
    (str rest : Text) → str ≢ [] → All is_alpha str → starts_percent (str ++ rest) ≡ false
unfolding starts_percent
alpha-starts [] rest h g = absurd (h refl)
alpha-starts (c ∷ str) rest h g = ground arith

-- One directive that the scan closes is one piece, and the loop goes on behind it.
cut-item :
    (whole body rest nstr str fmt : Text)
    → whole ≡ body ++ rest
    → scan whole [] 0 ≡ (true, str, fmt, length body)
    → starts_percent whole ≡ false
    → cut (b'%' ∷ whole) 0 nstr ≡ (flush nstr (item str fmt ∷ (cut rest 0 []).0), (cut rest 0 []).1)
unfolding cut
cut-item whole body rest nstr str fmt w e p =
    let skipped : cut whole (length body) [] ≡ cut rest 0 [] =
      ap (λ t. cut t (length body) []) w ∙ cut-skip body rest [] in
    rw (p, e, skipped)

-- The name and the braces of a directive.
abbrev pub braced : (str fmt : Text) → Text
braced str fmt = str ++ (b'{' ∷ (fmt ++ b'}' ∷ []))

braced-append :
    (str fmt rest : Text) → str ++ (b'{' ∷ (fmt ++ (b'}' ∷ rest))) ≡ braced str fmt ++ rest
braced-append str fmt rest =
    let inner : (fmt ++ b'}' ∷ []) ++ rest ≡ fmt ++ b'}' ∷ rest =
      append_assoc fmt (b'}' ∷ []) rest in
    let outer : braced str fmt ++ rest ≡ str ++ (b'{' ∷ ((fmt ++ b'}' ∷ []) ++ rest)) =
      append_assoc str (b'{' ∷ (fmt ++ b'}' ∷ [])) rest in
    rw (outer, inner)

length-braced : (str fmt : Text) → length (braced str fmt) ≡ length str + length fmt + 2
length-braced str fmt = grind (arith, length-append)

abbrev pub After : (nstr : Text) → List Piece → Type 0
After [] ps = Unit {0}
After (c ∷ nstr) ps = NoText ps

cut-print_pending :
    (ps : List Piece) (nstr : Text)
    → Printable ps
    → After nstr ps
    → cut (print ps) 0 nstr ≡ (flush nstr ps, false)
unfolding cut flush
cut-print_pending [] nstr h a = refl
cut-print_pending (text [] ∷ ps) nstr h a = absurd (h.0 refl)
cut-print_pending (text (c ∷ s) ∷ ps) (b ∷ nstr) h a = absurd a
cut-print_pending (text (c ∷ s) ∷ ps) [] h a =
    cut-text (c ∷ s) (print ps) [] h.1 ∙ cut-print_pending ps (c ∷ s) h.3 h.2
cut-print_pending (item str [] ∷ ps) nstr h a =
    let ih : cut (print ps) 0 [] ≡ (ps, false) = cut-print_pending ps [] h.4 tt in
    let scanned : scan (str ++ print ps) [] 0 ≡ (true, str, [], length str) =
      scan-bare str (print ps) [] 0 h.1 h.3 ∙ ap (λ n. (true, str, [], n)) (omega arith) in
    cut-item (str ++ print ps) str (print ps) nstr str [] refl scanned
      (alpha-starts str (print ps) h.0 h.1)
    ∙ rw ih
cut-print_pending (item str (f ∷ fmt) ∷ ps) nstr h a =
    let ih : cut (print ps) 0 [] ≡ (ps, false) = cut-print_pending ps [] h.4 tt in
    let whole : Text = str ++ (b'{' ∷ ((f ∷ fmt) ++ (b'}' ∷ print ps))) in
    let scanned : scan whole [] 0 ≡ (true, str, f ∷ fmt, length (braced str (f ∷ fmt))) =
      scan-name str (f ∷ fmt) (print ps) [] 0 h.1 h.2
      ∙ ap (λ n. (true, str, f ∷ fmt, n)) (omega (arith, length-braced str (f ∷ fmt))) in
    cut-item whole (braced str (f ∷ fmt)) (print ps) nstr str (f ∷ fmt)
      (braced-append str (f ∷ fmt) (print ps)) scanned
      (alpha-starts str (b'{' ∷ ((f ∷ fmt) ++ (b'}' ∷ print ps))) h.0 h.1)
    ∙ rw ih

-- A list of pieces that is fit to be printed is what its text is cut into, without an error: the
-- text has no percent sign, is not empty and does not touch other text, a directive's name is
-- made of letters and is not empty, its format has no closing brace, and what follows a directive
-- without a format is neither a letter nor a brace.
pub cut-print : (ps : List Piece) → Printable ps → cut (print ps) 0 [] ≡ (ps, false)
unfolding flush
cut-print ps h = cut-print_pending ps [] h tt
