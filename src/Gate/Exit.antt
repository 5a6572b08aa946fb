-- ===== src/Gate/Exit.antt =====
-- The exit code of a refused run.
use tenantguard.Base.{List, Option, [], arith, refl, ◌∷◌, ◌≡◌}
use tenantguard.Base.Bytes.{Bytes}
use tenantguard.Gate.State.{
  GateError, TableProof, exit_code_for, name_by, name_underlying_table_error,
}

name_by_is :
    (err : GateError) (cause : TableProof → Option Bytes) (tps : List TableProof)
    → (name_by err cause tps).is ≡ err.is
name_by_is err cause [] = refl
name_by_is err cause (tp ∷ tps) = ground (arith, name_by_is err cause tps)

naming_keeps :
    (err : GateError) (tps : List TableProof) → (name_underlying_table_error err tps).is ≡ err.is
unfolding name_underlying_table_error
naming_keeps err tps =
    ground (arith, name_by_is err (λ tp. tp.a1_err) tps, name_by_is err (λ tp. tp.a4_err) tps)

exit_code_is : (e f : GateError) → e.is ≡ f.is → exit_code_for e ≡ exit_code_for f
unfolding exit_code_for
exit_code_is e f h = ground arith

-- Naming the table and the cause in an error never changes the exit code.
pub naming_keeps_exit_code :
    (err : GateError) (tps : List TableProof)
    → exit_code_for (name_underlying_table_error err tps) ≡ exit_code_for err
naming_keeps_exit_code err tps = exit_code_is _ err (naming_keeps err tps)
