-- ===== src/Failure.antt =====
-- The errors that the router's store returns (reference-client/internal/testrouter/ssot.go), and
-- Go's result of a fallible call.
use masterdata_sync_working.Prelude.{ℕ, String, Option, ◌≡◌, refl}
use masterdata_sync_working.Model.{Reason, Binding}

pub record MappingConflict : Type 0 where
  pub reason : Reason
  pub existing : Option Binding
  -- The pair that a correction's rejection restates.
  pub submitted : Option Binding

-- `invalid` stands for every error made on the spot, by its message, and `panic` for a nil
-- dereference.
pub data Failure : Type 0 where
  panic : Failure
  not_found forbidden unresolved_ref base_required initial_load_conflict : Failure
  revision_conflict : ℕ → Failure
  mapping_conflict : MappingConflict → Failure
  invalid : String → Failure

-- A value beside a nil error, or an error alone.
pub data Result {ℓ} (A : Type ℓ) : Type ℓ where
  err : Failure → Result A
  ok : A → Result A

-- `if err != nil { return err }` after a call.
infixl 5 ◌>>=◌
abbrev pub ◌>>=◌ {κ ℓ} :
    {B : Type κ} {A : Type ℓ} (call : Result A) (next : A → Result B) → Result B
err e >>= next = err e
ok a >>= next = next a

-- The same after a check, which returns nothing else.
infixl 5 ◌>>◌
abbrev pub ◌>>◌ {κ} : {B : Type κ} (check : Result (Unit {0})) (rest : Result B) → Result B
check >> rest = check >>= λ _. rest

-- A chain that succeeds had its first call succeed.
pub >>=-eq-ok {κ ℓ} :
    {B : Type κ} {b : B} {A : Type ℓ} (next : A → Result B) (call : Result A)
    → (call >>= next) ≡ ok b
    → (a : A) × (call ≡ ok a) × (next a ≡ ok b)
>>=-eq-ok next (err e) h = cc
>>=-eq-ok next (ok a) h = (a, refl, h)
