-- ===== src/Differ/Single/Enough.antt =====
-- The fuel of the search for the names of CTEs (`collectCTENames` of internal/differ/tier2.go).
use tenantguard.Base.{
  List, Option, [], ap, arith, if◌then◌else◌, inl, inr, length, none, refl, some, suc, sym, zero, ℕ,
  ◌++◌, ◌<◌, ◌==◌, ◌∙◌, ◌∷◌, ◌≡◌, ◌≤◌,
}
use tenantguard.Base.Bytes.{Bytes, codes}
use tenantguard.Base.Text.{trim_space}
use tenantguard.Differ.Single.{collect_cte_names, cte_name, names_after, names_of_list}
use tenantguard.Differ.Statement.{Cte, after_with, keyword, one_cte, skip_identifier, skip_space}
use tenantguard.Differ.Statement.Enough.{length-after_with, no_bytes}
use tenantguard.Differ.Statement.Fuel.{
  CteWithin, Within, keyword-Within, length-skip_space, length-trim_space, one_cte-Within,
}

-- The two name the same in every text below n bytes.
abbrev SameNames : ℕ → (Bytes → List Bytes) → (Bytes → List Bytes) → Type 0
SameNames n p q = (b : Bytes) → length b < n → p b ≡ q b

names_after-same :
    (p q next later : Bytes → List Bytes) (n : ℕ) (c : Cte)
    → CteWithin n c
    → SameNames n p q
    → SameNames n next later
    → names_after p next c ≡ names_after q later c
unfolding names_after
names_after-same p q next later n (inl rest) w a h = refl
names_after-same p q next later n (inr (body, [])) w a h =
    a (trim_space body) (omega (arith, w, length-trim_space body))
names_after-same p q next later n (inr (body, c ∷ cs)) w a h =
    let inside = a (trim_space body) (omega (arith, w, length-trim_space body)) in
    let behind = h cs (omega (arith, w)) in
    ap (λ l. l ++ (if c == b',' then next cs else [])) inside
    ∙ ap (λ l. q (trim_space body) ++ (if c == b',' then l else [])) behind

names_of_list-nil : (p : Bytes → List Bytes) (fuel : ℕ) → names_of_list p fuel [] ≡ []
unfolding names_of_list skip_space skip_identifier
names_of_list-nil p zero = refl
names_of_list-nil p (suc fuel) = refl

module _ (p q : Bytes → List Bytes) where
  names_of_list-same :
      (f g n : ℕ) (t : Bytes)
      → length t ≤ f
      → length t ≤ g
      → length t ≤ n
      → SameNames n p q
      → names_of_list p f t ≡ names_of_list q g t
  unfolding names_of_list
  names_of_list-same zero g n t hf hg hn a =
      let nil = no_bytes t hf in rw nil (sym (names_of_list-nil q g))
  names_of_list-same (suc f) zero n t hf hg hn a =
      let nil = no_bytes t hg in
      ap (λ s. names_of_list p (suc f) s) nil ∙ names_of_list-nil p (suc f)
  names_of_list-same (suc f) (suc g) n t hf hg hn a =
      let s = skip_space t in
      ap (λ later. elim (skip_identifier s) [ none ↦ [] | some rest ↦ cte_name s rest ∷ later ])
        (names_after-same p q _ _ (length t) (one_cte t) (one_cte-Within t)
          (λ b h. a b (omega (arith, h, hn)))
          (λ u h.
            names_of_list-same f g n u (omega (arith, h, hf)) (omega (arith, h, hg))
              (omega (arith, h, hn)) a))

  listed-same :
      (t : Bytes) (o : Option Bytes)
      → Within (length t) o
      → SameNames (length t) p q
      → elim o [
        | none ↦ []
        | some rest ↦ let s = after_with (skip_space rest) in names_of_list p (length s) s
      ]
        ≡ elim o [
          | none ↦ []
          | some rest ↦ let s = after_with (skip_space rest) in names_of_list q (length s) s
        ]
  listed-same t none w a = refl
  listed-same t (some rest) w a =
      let s = after_with (skip_space rest) in
      names_of_list-same (length s) (length s) (length t) s (omega arith) (omega arith)
        (omega (arith, w, length-after_with (skip_space rest), length-skip_space rest)) a

-- The names found in a text do not depend on the fuel, once it is above the text's length: no WITH list
-- and no nesting of bodies runs out of it.
pub collect_cte_names-fuel :
    (f g : ℕ) (t : Bytes)
    → length t < f
    → length t < g
    → collect_cte_names f t ≡ collect_cte_names g t
unfolding collect_cte_names
collect_cte_names-fuel zero g t hf hg = elim hf [ ]
collect_cte_names-fuel (suc f) zero t hf hg = elim hg [ ]
collect_cte_names-fuel (suc f) (suc g) t hf hg =
    listed-same (λ b. collect_cte_names f b) (λ b. collect_cte_names g b) t
      (keyword (codes "WITH") t) (keyword-Within (codes "WITH") t)
      (λ b h. collect_cte_names-fuel f g b (omega (arith, h, hf)) (omega (arith, h, hg)))
