-- ===== src/Schema/Array.antt =====
-- internal/schema/schema.go: `pqStringArray.Scan`, and the array literals that PostgreSQL writes. The
-- text is taken byte by byte, which for valid UTF-8 is what the loop over runes writes.
use mathlib.Core.Option
use tenantguard.Base.{
  Bool, Bool-cases, List, Option, [], ap, append-nil, append_assoc, arith, false, if◌then◌else◌,
  inl, inr, leb, map, none, not, refl, some, subst, sym, true, ℕ, ◌&&◌, ◌++◌, ◌==◌, ◌||◌, ◌∙◌, ◌∷◌,
  ◌≡◌, ◌≢◌,
}
use tenantguard.Base.Bytes.{Bytes, codes, equal}
use tenantguard.Base.Text.{trim_space, trim_space_lem}
use tenantguard.Differ.Statement.{upper}

abbrev double_quote : ℕ
double_quote = 34

abbrev backslash : ℕ
backslash = 92

-- The loop: within quotes or not, after a backslash or not, and the element read so far.
unfoldable pub scan_from : Bool → Bool → Bytes → Bytes → List Bytes
scan_from quoted escaped cur [] = cur ∷ []
scan_from quoted true cur (c ∷ cs) = scan_from quoted false (cur ++ c ∷ []) cs
scan_from quoted false cur (c ∷ cs) =
    let escape = c == backslash in
    let quote = c == double_quote in
    let ends = c == b',' && not quoted in
    let rest =
      scan_from (if quote then not quoted else quoted) escape
        (if ends then [] else if escape || quote then cur else cur ++ c ∷ []) cs in
    if ends then cur ∷ rest else rest

-- The text without its last byte, and that byte.
unfoldable pub split_last : Bytes → Option (Bytes × ℕ)
split_last [] = none
split_last (c ∷ []) = some ([], c)
split_last (c ∷ d ∷ cs) = Option.map (λ p. (c ∷ p.0, p.1)) (split_last (d ∷ cs))

unfoldable pub scan_inner : Bytes → List Bytes
unfolding scan_from
scan_inner [] = []
scan_inner (c ∷ cs) = scan_from false false [] (c ∷ cs)

closed : Option (Bytes × ℕ) → Option (List Bytes)
unfolding scan_inner
closed none = none
closed (some (inner, c)) = if c == b'}' then some (scan_inner inner) else none

braced : Bytes → Option (List Bytes)
unfolding closed
braced [] = none
braced (c ∷ cs) = let rest = closed (split_last cs) in if c == b'{' then rest else none

-- `Scan` of a string: `none` for the error of a malformed literal.
unfoldable pub scan_array : Bytes → Option (List Bytes)
unfolding braced
scan_array s = braced (trim_space s)

-- An element in quotes, with a backslash before a quote or a backslash.
unfoldable pub escape_element : Bytes → Bytes
escape_element [] = []
escape_element (c ∷ cs) =
    let rest = escape_element cs in
    if c == double_quote || c == backslash then backslash ∷ c ∷ rest else c ∷ rest

-- A byte for which PostgreSQL's array_out puts an element in quotes.
abbrev is_special : ℕ → Bool
is_special c =
    c == double_quote
    || c == backslash
    || c == b','
    || c == b'{'
    || c == b'}'
    || c == b' '
    || (leb 9 c && leb c 13)

unfoldable pub has_special : Bytes → Bool
has_special [] = false
has_special (c ∷ cs) = is_special c || has_special cs

-- An element is in quotes if it is empty, the word NULL, or has one of these bytes.
unfoldable pub needs_quotes : Bytes → Bool
unfolding has_special
needs_quotes [] = true
needs_quotes (c ∷ cs) = has_special (c ∷ cs) || equal (map upper (c ∷ cs)) (codes "NULL")

unfoldable pub print_element : Bytes → Bytes
unfolding escape_element needs_quotes
print_element e = if needs_quotes e then double_quote ∷ escape_element e ++ double_quote ∷ [] else e

unfoldable pub print_elements : List Bytes → Bytes
unfolding print_element
print_elements [] = []
print_elements (e ∷ []) = print_element e
print_elements (e ∷ f ∷ es) = print_element e ++ (b',' ∷ print_elements (f ∷ es))

-- An array literal as array_out writes it.
unfoldable pub print_array : List Bytes → Bytes
unfolding print_elements
print_array es = b'{' ∷ print_elements es ++ b'}' ∷ []

scan-escape_element :
    (e cur rest : Bytes)
    → scan_from true false cur (escape_element e ++ rest) ≡ scan_from true false (cur ++ e) rest
unfolding scan_from escape_element
scan-escape_element [] cur rest = ground (arith, append-nil cur)
scan-escape_element (c ∷ cs) cur rest =
    ground (arith, scan-escape_element cs (cur ++ c ∷ []) rest, append_assoc cur (c ∷ []) cs)

scan-plain :
    (e cur rest : Bytes)
    → has_special e ≡ false
    → scan_from false false cur (e ++ rest) ≡ scan_from false false (cur ++ e) rest
unfolding scan_from has_special
scan-plain [] cur rest h = ground (arith, append-nil cur)
scan-plain (c ∷ cs) cur rest h =
    ground (arith, h, scan-plain cs (cur ++ c ∷ []) rest, append_assoc cur (c ∷ []) cs)

not_special : (e : Bytes) → needs_quotes e ≡ false → has_special e ≡ false
unfolding needs_quotes
not_special [] h = cc
not_special (c ∷ cs) h = ground (arith, h)

-- An element is read whichever way it is printed, up to the comma or the end behind it.
scan-print_element :
    (e rest : Bytes)
    → scan_from false false [] (print_element e ++ rest) ≡ scan_from false false e rest
unfolding print_element scan_from
scan-print_element e rest = elim (Bool-cases (needs_quotes e)) [
  | inl quoted ↦ rw quoted (
      ap (λ s. scan_from true false [] s) (append_assoc (escape_element e) (double_quote ∷ []) rest)
      ∙ scan-escape_element e [] (double_quote ∷ rest))
  | inr plain ↦ rw plain (scan-plain e [] rest (not_special e plain))
]

scan-print_elements :
    (e : Bytes) (es : List Bytes) → scan_from false false [] (print_elements (e ∷ es)) ≡ e ∷ es
unfolding print_elements scan_from
scan-print_elements e [] =
    ap (λ s. scan_from false false [] s) (sym (append-nil (print_element e)))
    ∙ scan-print_element e []
scan-print_elements e (f ∷ es) =
    scan-print_element e (b',' ∷ print_elements (f ∷ es)) ∙ ap (◌∷◌ e) (scan-print_elements f es)

split_last-append : (xs : Bytes) (c : ℕ) → split_last (xs ++ c ∷ []) ≡ some (xs, c)
unfolding split_last
split_last-append [] c = refl
split_last-append (x ∷ []) c = refl
split_last-append (x ∷ y ∷ ys) c =
    ap (Option.map (λ p. (x ∷ p.0, p.1))) (split_last-append (y ∷ ys) c)

scan_inner-some : (s : Bytes) → s ≢ [] → scan_inner s ≡ scan_from false false [] s
unfolding scan_inner
scan_inner-some [] h = absurd (h refl)
scan_inner-some (c ∷ cs) h = refl

print_element-some : (e rest : Bytes) → print_element e ++ rest ≢ []
unfolding print_element needs_quotes
print_element-some [] rest = λ h. cc
print_element-some (c ∷ cs) rest = elim (Bool-cases (needs_quotes (c ∷ cs))) [
  | inl quoted ↦ rw quoted (λ h. cc)
  | inr plain ↦ rw plain (λ h. cc)
]

scan_inner-print : (es : List Bytes) → scan_inner (print_elements es) ≡ es
unfolding scan_inner print_elements
scan_inner-print [] = refl
scan_inner-print (e ∷ []) =
    scan_inner-some (print_element e)
      (subst (λ s. s ≢ []) (append-nil (print_element e)) (print_element-some e []))
    ∙ scan-print_elements e []
scan_inner-print (e ∷ f ∷ es) =
    scan_inner-some (print_element e ++ (b',' ∷ print_elements (f ∷ es)))
      (print_element-some e (b',' ∷ print_elements (f ∷ es)))
    ∙ scan-print_elements e (f ∷ es)

-- Scanning the array literal that PostgreSQL writes of any list of texts, plain names without quotes
-- and texts with commas, quotes, braces, backslashes or white space in quotes, gives the list back, as
-- far as the scanner goes by bytes.
pub scan_array-print_array : (es : List Bytes) → scan_array (print_array es) ≡ some es
unfolding scan_array braced closed print_array
scan_array-print_array es =
    ap braced (trim_space_lem b'{' b'}' (print_elements es) refl refl)
    ∙ ap closed (split_last-append (print_elements es) b'}')
    ∙ ap some (scan_inner-print es)
