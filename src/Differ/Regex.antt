-- ===== src/Differ/Regex.antt =====
-- Go's regexp, as far as internal/differ and internal/triage use it: leftmost-first matching by
-- backtracking, on ASCII where case is folded.
use mathlib.Core.Option
use tenantguard.Base.{
  Bool, List, Option, [], false, if◌then◌else◌, leb, length, ltb, none, not, some, suc, take, true,
  zero, ℕ, ◌&&◌, ◌-◌, ◌==◌, ◌||◌, ◌∷◌,
}
use tenantguard.Base.Bytes.{Bytes}

pub data Re : Type 0 where
  nothing boundary at_start at_end line_start line_end : Re
  one : (ℕ → Bool) → Re
  seq alt : Re → Re → Re
  star opt : Re → Re
  group : ℕ → Re → Re

-- A place in the text: the byte before it, the bytes after it, and the groups captured on the way.
pub record Cursor : Type 0 where
  pub before : Option ℕ
  pub rest : Bytes
  pub groups : List (ℕ × Bytes)

unfoldable pub or_else {ℓ} : {A : Type ℓ} → Option A → Option A → Option A
or_else none b = b
or_else (some a) b = some a

-- `[0-9A-Za-z_]`
abbrev pub is_word : ℕ → Bool
is_word c = c == b'_' || (leb 97 c && leb c 122) || (leb 65 c && leb c 90) || (leb 48 c && leb c 57)

abbrev word_before : Option ℕ → Bool
word_before none = false
word_before (some c) = is_word c

abbrev word_after : Bytes → Bool
word_after [] = false
word_after (c ∷ cs) = is_word c

abbrev starts_line : Option ℕ → Bool
starts_line none = true
starts_line (some c) = c == 10

abbrev ends_line : Bytes → Bool
ends_line [] = true
ends_line (c ∷ cs) = c == 10

abbrev differ_in_kind : Bool → Bool → Bool
differ_in_kind true b = not b
differ_in_kind false b = b

abbrev Next : Type 0
Next = Cursor → Option Cursor

-- The longest repetition first; each time some byte is passed, so that the text's length is enough.
repeated : (Cursor → Next → Option Cursor) → ℕ → Cursor → Next → Option Cursor
unfolding or_else
repeated m zero c k = k c
repeated m (suc n) c k =
    or_else (m c (λ d. if ltb (length d.rest) (length c.rest) then repeated m n d k else none))
      (k c)

one_byte : (ℕ → Bool) → Cursor → Bytes → Next → Option Cursor
one_byte p c [] k = none
one_byte p c (x ∷ xs) k = if p x then k (record c { before = some x; rest = xs }) else none

unfoldable pub run : Re → Cursor → Next → Option Cursor
unfolding or_else repeated one_byte
run nothing c k = k c
run boundary c k = if differ_in_kind (word_before c.before) (word_after c.rest) then k c else none
run at_start c k = elim c.before [ none ↦ k c | some _ ↦ none ]
run line_start c k = if starts_line c.before then k c else none
run line_end c k = if ends_line c.rest then k c else none
run at_end c k = elim c.rest [ [] ↦ k c | _ ∷ _ ↦ none ]
run (one p) c k = one_byte p c c.rest k
run (seq a b) c k = run a c (λ d. run b d k)
run (alt a b) c k = or_else (run a c k) (run b c k)
run (star a) c k = repeated (λ d next. run a d next) (length c.rest) c k
run (opt a) c k = or_else (run a c k) (k c)
run (group n a) c k =
    run a c
      (λ d. k (record d { groups = (n, take (length c.rest - length d.rest) c.rest) ∷ d.groups }))

unfoldable pub match_here : Re → Option ℕ → Bytes → Option Cursor
unfolding run
match_here re before s = run re (record { before = before; rest = s; groups = [] }) (λ c. some c)

-- FindStringSubmatchIndex: the place behind the leftmost match.
unfoldable pub find : Re → Option ℕ → Bytes → Option Cursor
unfolding match_here
find re before [] = match_here re before []
find re before (x ∷ xs) = or_else (match_here re before (x ∷ xs)) (find re (some x) xs)

-- The text passed over before the leftmost match, the text from its start, and the place behind it.
unfoldable pub find_at : Re → Option ℕ → Bytes → Option (Bytes × Bytes × Cursor)
unfolding match_here
find_at re before [] = Option.map (λ c. ([], [], c)) (match_here re before [])
find_at re before (x ∷ xs) = elim (match_here re before (x ∷ xs)) [
  | some c ↦ some ([], x ∷ xs, c)
  | none ↦ Option.map (λ found. (x ∷ found.0, found.1, found.2)) (find_at re (some x) xs)
]

-- FindAllStringSubmatch of an expression that matches no empty text: the groups of each match.
unfoldable pub find_all : Re → ℕ → Option ℕ → Bytes → List (List (ℕ × Bytes))
unfolding find
find_all re zero before s = []
find_all re (suc n) before s = elim (find re before s) [
  | none ↦ []
  | some c ↦ c.groups ∷ find_all re n c.before c.rest
]

-- FindStringSubmatch of an expression between ^ and $.
unfoldable pub match_whole : Re → Bytes → Option (List (ℕ × Bytes))
unfolding match_here
match_whole re s = elim (match_here (seq re at_end) none s) [ none ↦ none | some c ↦ some c.groups ]

-- A group's text, empty where it took no part.
unfoldable pub group_of : ℕ → List (ℕ × Bytes) → Bytes
group_of n [] = []
group_of n ((k, s) ∷ gs) = if k == n then s else group_of n gs
