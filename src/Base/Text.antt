-- ===== src/Base/Text.antt =====
-- The ASCII parts of strings.TrimSpace and strings.EqualFold.
use tenantguard.Base.{
  Bool, [], ap, arith, false, if◌then◌else◌, leb, ℕ, ◌&&◌, ◌++◌, ◌==◌, ◌||◌, ◌∙◌, ◌∷◌, ◌≡◌,
}
use tenantguard.Base.Bytes.{Bytes}

abbrev pub is_space : ℕ → Bool
is_space c = c == b' ' || (leb 9 c && leb c 13)

unfoldable pub trim_left : Bytes → Bytes
trim_left [] = []
trim_left (c ∷ cs) = let rest = trim_left cs in if is_space c then rest else c ∷ cs

abbrev pub keep_before : ℕ → Bytes → Bytes
keep_before c [] = if is_space c then [] else c ∷ []
keep_before c (d ∷ ds) = c ∷ d ∷ ds

unfoldable pub trim_right : Bytes → Bytes
trim_right [] = []
trim_right (c ∷ cs) = keep_before c (trim_right cs)

-- strings.TrimSpace on ASCII
unfoldable pub trim_space : Bytes → Bytes
unfolding trim_left trim_right
trim_space s = trim_left (trim_right s)

trim_right-append :
    (xs : Bytes) (c : ℕ) → is_space c ≡ false → trim_right (xs ++ c ∷ []) ≡ xs ++ c ∷ []
unfolding trim_right
trim_right-append [] c h = ground arith
trim_right-append (x ∷ []) c h = ap (keep_before x) (trim_right-append [] c h)
trim_right-append (x ∷ y ∷ ys) c h = ap (keep_before x) (trim_right-append (y ∷ ys) c h)

-- A text that neither starts nor ends with white space.
pub trim_space_lem :
    (b c : ℕ) (xs : Bytes)
    → is_space b ≡ false
    → is_space c ≡ false
    → trim_space (b ∷ xs ++ c ∷ []) ≡ b ∷ xs ++ c ∷ []
unfolding trim_space trim_left
trim_space_lem b c xs h k = ap trim_left (trim_right-append (b ∷ xs) c k) ∙ ground arith
