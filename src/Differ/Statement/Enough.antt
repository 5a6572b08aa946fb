-- ===== src/Differ/Statement/Enough.antt =====
-- The fuel of the search for a write verb (`statementContainsWrite` of internal/differ/differ.go).
use tenantguard.Base.{
  Bool, Option, [], ap, arith, false, if◌then◌else◌, inl, inr, length, none, refl, some, suc, sym,
  zero, ℕ, ◌<◌, ◌==◌, ◌||◌, ◌∙◌, ◌∷◌, ◌≡◌, ◌≤◌,
}
use tenantguard.Base.Bytes.{Bytes, codes}
use tenantguard.Base.Text.{trim_space}
use tenantguard.Differ.Statement.{
  Cte, after_with, cte_list, keyword, leading_write, listed, one_cte, skip_identifier, skip_space,
  skip_with_clause, statement_contains_write,
}
use tenantguard.Differ.Statement.Fuel.{
  CteWithin, Within, keyword-Within, length-skip_space, length-trim_space, one_cte-Within,
}

-- The two ask the same of every text below n bytes.
abbrev Agree : ℕ → (Bytes → Bool) → (Bytes → Bool) → Type 0
Agree n p q = (b : Bytes) → length b < n → p b ≡ q b

module _ (p q : Bytes → Bool) where
  listed-Agree :
      (next later : Bool → Bytes → Bytes × Bool) (nested : Bool) (n : ℕ) (c : Cte)
      → CteWithin n c
      → Agree n p q
      → ((m : Bool) (s : Bytes) → length s < n → next m s ≡ later m s)
      → listed p next nested c ≡ listed q later nested c
  unfolding listed
  listed-Agree next later nested n (inl rest) w a h = refl
  listed-Agree next later nested n (inr (body, [])) w a h =
      ap (λ b. ([], nested || b)) (a body (omega (arith, w)))
  listed-Agree next later nested n (inr (body, c ∷ cs)) w a h =
      let same = a body (omega (arith, w)) in
      ap (λ b. if c == b',' then next (nested || b) cs else (c ∷ cs, nested || b)) same
      ∙ ap (λ r. if c == b',' then r else (c ∷ cs, nested || q body))
          (h (nested || q body) cs (omega (arith, w)))

  cte_list-nil : (fuel : ℕ) (nested : Bool) → cte_list p fuel nested [] ≡ ([], nested)
  unfolding cte_list one_cte skip_space skip_identifier listed
  cte_list-nil zero nested = refl
  cte_list-nil (suc fuel) nested = refl

pub length-after_with : (s : Bytes) → length (after_with s) ≤ length s
unfolding after_with
length-after_with s = step (keyword (codes "RECURSIVE") s) (keyword-Within (codes "RECURSIVE") s)
  where
    step :
        (o : Option Bytes)
        → Within (length s) o
        → length (elim o [ none ↦ s | some rest ↦ skip_space rest ]) ≤ length s
    step none w = omega arith
    step (some rest) w = omega (arith, w, length-skip_space rest)

pub no_bytes : (t : Bytes) → length t ≤ 0 → t ≡ []
no_bytes [] h = refl
no_bytes (c ∷ cs) h = elim h [ ]

module _ (p q : Bytes → Bool) where
  cte_list-Agree :
      (f g n : ℕ) (nested : Bool) (t : Bytes)
      → length t ≤ f
      → length t ≤ g
      → length t ≤ n
      → Agree n p q
      → cte_list p f nested t ≡ cte_list q g nested t
  unfolding cte_list
  cte_list-Agree zero g n nested t hf hg hn a =
      let nil = no_bytes t hf in
      ap (λ s. cte_list p zero nested s) nil
      ∙ sym (cte_list-nil q q g nested)
      ∙ ap (λ s. cte_list q g nested s) (sym nil)
  cte_list-Agree (suc f) zero n nested t hf hg hn a =
      let nil = no_bytes t hg in
      ap (λ s. cte_list p (suc f) nested s) nil
      ∙ cte_list-nil p p (suc f) nested
      ∙ ap (λ s. cte_list q zero nested s) (sym nil)
  cte_list-Agree (suc f) (suc g) n nested t hf hg hn a =
      listed-Agree p q _ _ nested (length t) (one_cte t) (one_cte-Within t)
        (λ b h. a b (omega (arith, h, hn)))
        (λ m s h.
          cte_list-Agree f g n m s (omega (arith, h, hf)) (omega (arith, h, hg))
            (omega (arith, h, hn)) a)

  skip_with_clause-Agree :
      (t : Bytes) → Agree (length t) p q → skip_with_clause p t ≡ skip_with_clause q t
  unfolding skip_with_clause
  skip_with_clause-Agree t a = step (keyword (codes "WITH") t) (keyword-Within (codes "WITH") t)
    where
      chosen : (Bytes → Bool) → Option Bytes → Bytes × Bool
      chosen r none = (t, false)
      chosen r (some rest) = let s = after_with (skip_space rest) in cte_list r (length s) false s

      step : (o : Option Bytes) → Within (length t) o → chosen p o ≡ chosen q o
      step none w = refl
      step (some rest) w =
          cte_list-Agree _ _ (length t) false (after_with (skip_space rest)) (omega arith)
            (omega arith)
            (omega (arith, w, length-after_with (skip_space rest), length-skip_space rest)) a

-- The answer for a text does not depend on the fuel, once it is above the text's length: no WITH list
-- and no nesting of bodies runs out of it.
pub statement_contains_write-fuel :
    (f g : ℕ) (t : Bytes)
    → length t < f
    → length t < g
    → statement_contains_write f t ≡ statement_contains_write g t
unfolding statement_contains_write
statement_contains_write-fuel zero g t hf hg = elim hf [ ]
statement_contains_write-fuel (suc f) zero t hf hg = elim hg [ ]
statement_contains_write-fuel (suc f) (suc g) t hf hg =
    ap (λ r. r.1 || leading_write (trim_space r.0))
      (skip_with_clause-Agree _ _ (trim_space t) (λ b h.
        statement_contains_write-fuel f g b (omega (arith, h, hf, length-trim_space t))
          (omega (arith, h, hg, length-trim_space t))))
