-- ===== src/Options/Master/Steps.antt =====
-- Every method of the registries of core/option/option_master.py keeps the identities, in any order of
-- calls.
use kospi200_project.Base.{◌≡◌, String, refl, sym, subst, none, some, [], ◌∷◌, arith, inl, inr}
use kospi200_project.Base.Dict.{Dict, lookup}
use kospi200_project.Base.Exn.{Result, ok, err, Result-cases}
use kospi200_project.Options.Master.{
  KisOptionContractIdentity, KisOptionMasterParseResult, OptionContractMaster, new_master,
  register_contract, register_contract_identity, register_all, apply_parse_result, updated,
  take_over, load, load_from_kis_source, load_in_memory, load_in_production,
}
use kospi200_project.Options.Master.Kept.{
  SameTerms, Good, Good-trans, same-Good, store-Good, OwnCodes, register_identity_cases,
}

register-Good :
    (i : KisOptionContractIdentity) (m : OptionContractMaster)
    → Good m (register_contract_identity i m).1
register-Good i m = elim (register_identity_cases i m) [
  | inl (raised, kept) ↦ same-Good m (register_contract_identity i m).1 (rw kept refl)
  | inr (returned, given, stored, before) ↦ rw stored (store-Good i m given before)
]

register_all-Good :
    (ids : Dict KisOptionContractIdentity) (m : OptionContractMaster)
    → Good m (register_all ids m).1
unfolding register_all
register_all-Good [] m = same-Good m m refl
register_all-Good ((k, i) ∷ more) m =
    let m' = (register_contract_identity i m).1 in
    let first = register-Good i m in
    let rest = register_all-Good more m' in
    elim (Result-cases (register_contract_identity i m).0) [
      | inl (u, e) ↦
          subst (Good m) (sym (ground (arith, e)))
            (Good-trans m m' (register_all more m').1 first rest)
      | inr (x, e) ↦ subst (Good m) (sym (ground (arith, e))) first
    ]

apply-Good :
    (result : KisOptionMasterParseResult) (m : OptionContractMaster)
    → Good m (apply_parse_result result m).1
unfolding apply_parse_result
apply-Good result m =
    let m' = record m { contracts = updated m.contracts result.legacy_contracts } in
    Good-trans m m' (register_all result.identities m').1 (same-Good m m' refl)
      (register_all-Good result.identities m')

load-Good :
    (loaded : Result KisOptionMasterParseResult) (m : OptionContractMaster)
    → Good m (load loaded m).1
unfolding load take_over
load-Good (err e) m = same-Good m m refl
load-Good (ok result) m =
    let m' = (apply_parse_result result m).1 in
    elim (Result-cases (apply_parse_result result m).0) [
      | inl (u, e) ↦ subst (Good m) (sym (ground (arith, e))) (
          Good-trans m m' (record m' { last_error = none }) (apply-Good result m)
            (same-Good m' (record m' { last_error = none }) refl))
      | inr (x, e) ↦ subst (Good m) (sym (ground (arith, e))) (apply-Good result m)
    ]

noted-Good :
    (m m' : OptionContractMaster) (t : String)
    → Good m m'
    → Good m (record m' { last_error = some t })
noted-Good m m' t h =
    Good-trans m m' (record m' { last_error = some t }) h
      (same-Good m' (record m' { last_error = some t }) refl)

-- One call of a method that changes the registry.
pub data Step : OptionContractMaster → OptionContractMaster → Type 0 where
  registers_contract :
      (symbol expiry : String) (m : OptionContractMaster)
      → Step m (register_contract symbol expiry m)
  registers_identity :
      (i : KisOptionContractIdentity) (m : OptionContractMaster)
      → Step m (register_contract_identity i m).1
  loads_source :
      (loaded : Result KisOptionMasterParseResult) (m : OptionContractMaster)
      → Step m (load_from_kis_source loaded m).1
  loads_in_memory :
      (loaded : Result KisOptionMasterParseResult) (m : OptionContractMaster)
      → Step m (load_in_memory loaded m).1
  loads_in_production :
      (loaded : Result KisOptionMasterParseResult) (m : OptionContractMaster)
      → Step m (load_in_production loaded m).1

pub data Steps : OptionContractMaster → OptionContractMaster → Type 0 where
  done : (m : OptionContractMaster) → Steps m m
  then_one : {m n o : OptionContractMaster} → Steps m n → Step n o → Steps m o

contract-Good : (s e : String) (m : OptionContractMaster) → Good m (register_contract s e m)
unfolding register_contract
contract-Good s e m = same-Good m (register_contract s e m) (ground arith)

source-Good :
    (loaded : Result KisOptionMasterParseResult) (m : OptionContractMaster)
    → Good m (load_from_kis_source loaded m).1
unfolding load_from_kis_source
source-Good loaded m =
    let m' = (load loaded m).1 in
    elim (Result-cases (load loaded m).0) [
      | inl (n, e) ↦ subst (Good m) (sym (ground (arith, e))) (load-Good loaded m)
      | inr (x, e) ↦
          subst (Good m) (sym (ground (arith, e))) (noted-Good m m' x.message (load-Good loaded m))
    ]

production-Good :
    (loaded : Result KisOptionMasterParseResult) (m : OptionContractMaster)
    → Good m (load_in_production loaded m).1
unfolding load_in_production
production-Good loaded m =
    let m' = (load loaded m).1 in
    elim (Result-cases (load loaded m).0) [
      | inl (n, e) ↦ subst (Good m) (sym (ground (arith, e))) (load-Good loaded m)
      | inr (x, e) ↦
          subst (Good m) (sym (ground (arith, e))) (noted-Good m m' x.message (load-Good loaded m))
    ]

Step-Good : {m n : OptionContractMaster} → Step m n → Good m n
unfolding load_in_memory
Step-Good (registers_contract s e m) = contract-Good s e m
Step-Good (registers_identity i m) = register-Good i m
Step-Good (loads_source loaded m) = source-Good loaded m
Step-Good (loads_in_memory loaded m) = load-Good loaded m
Step-Good (loads_in_production loaded m) = production-Good loaded m

Steps-Good : {m n : OptionContractMaster} → Steps m n → Good m n
Steps-Good (done m) = same-Good m m refl
Steps-Good {m = m} {n = o} (then_one {n = n} before step) =
    Good-trans m n o (Steps-Good before) (Step-Good step)

-- Whatever is registered or loaded later, failures included, an identity of the registry stays under
-- its code with the same code, standard code, expiry and option type.
pub Steps-SameTerms :
    {m n : OptionContractMaster} (k : String) (i : KisOptionContractIdentity)
    → Steps m n
    → lookup k m.contract_identities ≡ some i
    → (j : KisOptionContractIdentity) × (lookup k n.contract_identities ≡ some j) × SameTerms i j
Steps-SameTerms k i steps found = (Steps-Good steps).keeps k i found

-- In every registry that calls lead to from a new one, each identity stands under its own stripped
-- code, which is not empty.
pub Steps-OwnCodes :
    {contracts : Dict String} {m : OptionContractMaster}
    → Steps (new_master contracts) m
    → OwnCodes m
unfolding lookup
Steps-OwnCodes {contracts = contracts} steps = (Steps-Good steps).codes (λ k i h. ground arith)
