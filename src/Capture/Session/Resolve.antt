-- ===== src/Capture/Session/Resolve.antt =====
-- `resolveParams`: which parameters get a value from the type OIDs of the backend stream.
use tenantguard.Base.{List, [], arith, false, get_elem?, length, some, true, ℕ, ◌+◌, ◌∷◌, ◌≡◌, ◌≢◌}
use tenantguard.Base.Assoc.{lookup}
use tenantguard.Base.Bytes.{Bytes}
use tenantguard.Capture.Message.{Param, format_binary, no_reason}
use tenantguard.Capture.Oid.{Rendering, decode_binary}
use tenantguard.Capture.Session.{
  Session, oids_of, or_zero, resolve_from, resolve_param, resolve_params,
}

-- What may become of parameter i of a statement with these OIDs.
pub record Sound (r : Rendering) (oids : List ℕ) (total i : ℕ) (p q : Param) : Type 0 where
  -- what was captured stays
  pub same_null : q.is_null ≡ p.is_null
  pub same_format : q.format ≡ p.format
  pub same_value : q.value ≡ p.value
  -- a value that was known before is not touched
  pub kept : p.known ≡ true → q ≡ p
  -- a value that becomes known is the decoding of the captured bytes under the OID of the same
  -- position, and there was an OID for each parameter
  pub decoded_right :
      p.known ≡ false
      → q.known ≡ true
      → (length oids ≡ total) × (decode_binary r (or_zero (get_elem? oids i)) p.value ≡ some q.text)
  -- a binary value that stays unknown says why
  pub reasoned :
      p.is_null ≡ false → p.format ≡ format_binary → q.known ≡ false → q.reason ≢ no_reason

abbrev pub AllSound : Rendering → List ℕ → ℕ → ℕ → List Param → List Param → Type 0
AllSound r oids total i [] [] = Unit
AllSound r oids total i (p ∷ ps) (q ∷ qs) =
    Sound r oids total i p q × AllSound r oids total (i + 1) ps qs
AllSound r oids total i _ _ = ⊥

module _ (r : Rendering) where
  resolve_param-Sound :
      (oids : List ℕ) (total i : ℕ) (p : Param)
      → Sound r oids total i p (resolve_param r oids total i p)
  unfolding resolve_param
  resolve_param-Sound oids total i p = record {
    same_null = ground arith;
    same_format = ground arith;
    same_value = ground arith;
    kept = ground arith;
    decoded_right = ground arith;
    reasoned = ground arith;
  }

  resolve_from-AllSound :
      (oids : List ℕ) (total i : ℕ) (ps : List Param)
      → AllSound r oids total i ps (resolve_from r oids total i ps)
  unfolding resolve_from
  resolve_from-AllSound oids total i [] = tt
  resolve_from-AllSound oids total i (p ∷ ps) =
      (resolve_param-Sound oids total i p, resolve_from-AllSound oids total (i + 1) ps)

  -- Every parameter of a Bind, in order, keeps its captured form. A known value stays as it was; a
  -- value becomes known only as the decoding of its own bytes under the OID of its own position,
  -- when the statement has exactly as many OIDs as the Bind has parameters; and a binary value
  -- that stays unknown carries a reason.
  pub resolve_params-AllSound :
      (s : Session) (stmt : Bytes) (ps : List Param)
      → AllSound r
          (oids_of (lookup stmt s.param_oids))
          (length ps)
          0
          ps
          (resolve_params r s stmt ps)
  unfolding resolve_params
  resolve_params-AllSound s stmt ps = resolve_from-AllSound _ (length ps) 0 ps
