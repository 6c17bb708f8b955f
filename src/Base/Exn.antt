-- ===== src/Base/Exn.antt =====
-- Python exceptions as values, and methods that read and write an object's state and may raise.
-- The state comes back after a raise too: what was written before it stays written.
use Prim.Native.String.{String}
use mathlib.Core.Path.{◌≡◌, refl}
use mathlib.Core.Logic.{◌⊎◌, inl, inr}
use mathlib.Core.Bool.{Bool, true, false}
use kospi200_project.Base.Tests.{if◌then◌else◌}

-- The classes of the exceptions that the modelled code raises.
pub data ExnClass : Type 0 where
  value_error type_error key_error runtime_error name_error : ExnClass
  timeout_error cancelled_error zero_division_error : ExnClass
  order_state_transition_error order_intent_validation_error order_router_error : ExnClass
  order_ack_boundary_error multi_leg_risk_error multi_leg_submission_error : ExnClass
  multi_leg_materialization_error identity_resolution_error : ExnClass
  risk_approved_broker_command_error risk_order_intent_mapping_error : ExnClass
  identity_reconciliation_error kis_master_parse_error : ExnClass

pub record Exn : Type 0 where
  pub class : ExnClass
  pub message : String

pub data Result {ℓ} (A : Type ℓ) : Type ℓ where
  ok : A → Result A
  err : Exn → Result A

abbrev pub is_ok {ℓ} : {A : Type ℓ} → Result A → Bool
is_ok (ok _) = true
is_ok (err _) = false

abbrev pub raise {ℓ} : {A : Type ℓ} → ExnClass → String → Result A
raise c m = err (record { class = c; message = m })

abbrev pub raise_if : Bool → ExnClass → String → Result (Unit {0})
raise_if b c m = if b then raise c m else ok tt

abbrev pub bind {ℓ κ} : {A : Type ℓ} {B : Type κ} → Result A → (A → Result B) → Result B
bind (ok a) f = f a
bind (err e) f = err e

pub bind-eq-ok {ℓ κ} :
    {A : Type ℓ} {B : Type κ} (m : Result A) (f : A → Result B) {b : B}
    → bind m f ≡ ok b
    → (a : A) × (m ≡ ok a) × (f a ≡ ok b)
bind-eq-ok (ok a) f h = (a, refl, h)
bind-eq-ok (err e) f h = cc

pub ok_injective {ℓ} : {A : Type ℓ} {a b : A} → ok a ≡ ok b → a ≡ b
ok_injective h = cc

pub Result-cases {ℓ} :
    {A : Type ℓ} (r : Result A) → ((a : A) × (r ≡ ok a)) ⊎ ((e : Exn) × (r ≡ err e))
Result-cases (ok a) = inl (a, refl)
Result-cases (err e) = inr (e, refl)

-- `except asyncio.CancelledError`; the other classes are what `except Exception` takes.
abbrev pub is_cancelled : Exn → Bool
is_cancelled e = elim e.class [ cancelled_error ↦ true | _ ↦ false ]

-- A method of an object whose state is `S`.
abbrev pub Method : Type 0 → Type 0 → Type 0
Method S A = S → Result A × S

module _ {S A : Type 0} where
  abbrev pub return : A → Method S A
  return a s = (ok a, s)

  abbrev pub throw : ExnClass → String → Method S A
  throw c m s = (raise c m, s)

  abbrev pub lift : Result A → Method S A
  lift r s = (r, s)

module _ {S : Type 0} where
  abbrev pub get : Method S S
  get s = (ok s, s)

  abbrev pub put : S → Method S (Unit {0})
  put s' s = (ok tt, s')

  abbrev pub throw_if : Bool → ExnClass → String → Method S (Unit {0})
  throw_if b c m s = (raise_if b c m, s)

-- The `do` blocks of every module are over methods.
infixl 5 ◌>>=◌ ◌>>◌
abbrev pub ◌>>=◌ : {S A B : Type 0} → Method S A → (A → Method S B) → Method S B
◌>>=◌ m f s = let (r, s') = m s in elim r [ ok a ↦ f a s' | err e ↦ (err e, s') ]

abbrev pub ◌>>◌ : {S A B : Type 0} → Method S A → Method S B → Method S B
m >> k = m >>= λ _. k
