-- ===== src/Options/Master.antt =====
-- core/option/option_master.py: the registry of contracts and identities of
-- `_IdentityOptionContractMaster`, `InMemoryOptionContractMaster` and
-- `KisProductionOptionContractMaster`, whose methods are the same but for one handler. What the
-- loader gives or raises is an argument. The texts of the errors leave out the codes that the source
-- prints in them.
pub mod Kept
pub mod Steps
pub mod Lookup
use kospi200_project.Base.{
  ℕ, String, ◌≡◌, refl, Bool, true, false, not, ◌&&◌, ◌||◌, Option, none, some, is_none, List, [],
  ◌∷◌, if◌then◌else◌, arith, eqb,
}
use kospi200_project.Base.Text.{◌==◌, eq_iff, strip, truthy}
use kospi200_project.Base.Dict.{Dict, lookup, insert, lookup-insert}
use kospi200_project.Base.Lists.{length, is_empty}
use kospi200_project.Base.Decimal.{Decimal, eqd}
use kospi200_project.Base.Exn.{Exn, Result, ok, err, is_ok, raise, Method, kis_master_parse_error}

pub record KisOptionContractIdentity : Type 0 where
  pub shrn_iscd : String
  pub stnd_iscd : Option String
  pub expiry : String
  pub option_type : Option String
  pub strike : Option Decimal
  pub info_type : Option String

pub record KisOptionMasterParseResult : Type 0 where
  pub legacy_contracts : Dict String
  pub identities : Dict KisOptionContractIdentity

pub record OptionContractMaster : Type 0 where
  pub contracts : Dict String
  pub contract_identities : Dict KisOptionContractIdentity
  pub last_error : Option String

abbrev pub new_master : Dict String → OptionContractMaster
new_master contracts = record { contracts = contracts; contract_identities = []; last_error = none }

abbrev pub same_option : Option String → Option String → Bool
same_option none none = true
same_option (some a) (some b) = a == b
same_option none (some _) = false
same_option (some _) none = false

unfoldable pub same_strike : Option Decimal → Option Decimal → Bool
unfolding eqd
same_strike none none = true
same_strike (some a) (some b) = eqd a b
same_strike none (some _) = false
same_strike (some _) none = false

-- The equality of the frozen dataclass.
unfoldable pub same_identity : KisOptionContractIdentity → KisOptionContractIdentity → Bool
unfolding same_strike
same_identity a b =
    a.shrn_iscd == b.shrn_iscd
    && same_option a.stnd_iscd b.stnd_iscd
    && a.expiry == b.expiry
    && same_option a.option_type b.option_type
    && same_strike a.strike b.strike
    && same_option a.info_type b.info_type

unfoldable pub get_expiry : String → OptionContractMaster → Option String
get_expiry symbol m = if truthy symbol then lookup (strip symbol) m.contracts else none

unfoldable pub get_contract_identity :
    String → OptionContractMaster → Option KisOptionContractIdentity
get_contract_identity code m =
    if truthy code then lookup (strip code) m.contract_identities else none

unfoldable pub register_contract : String → String → OptionContractMaster → OptionContractMaster
register_contract symbol expiry m =
    if truthy symbol && truthy expiry
    then record m { contracts = insert (strip symbol) (strip expiry) m.contracts }
    else m

unfoldable register_optional : Option String → String → OptionContractMaster → OptionContractMaster
unfolding register_contract
register_optional none expiry m = m
register_optional (some code) expiry m = register_contract code expiry m

-- The identity is stored, then its short and its standard code as contracts.
unfoldable pub store_identity :
    String → KisOptionContractIdentity → OptionContractMaster → OptionContractMaster
unfolding register_contract register_optional
store_identity key identity m = register_optional identity.stnd_iscd identity.expiry (
    register_contract key identity.expiry
      (record m { contract_identities = insert key identity m.contract_identities }))

unfoldable pub conflicts : Option KisOptionContractIdentity → KisOptionContractIdentity → Bool
unfolding same_identity
conflicts none identity = false
conflicts (some existing) identity = not (same_identity existing identity)

unfoldable pub register_contract_identity :
    KisOptionContractIdentity → Method OptionContractMaster (Unit {0})
unfolding store_identity conflicts
register_contract_identity identity m =
    let key = strip identity.shrn_iscd in
    if not (truthy key)
    then (raise kis_master_parse_error "KIS identity requires non-empty shrn_iscd.", m)
    else if conflicts (lookup key m.contract_identities) identity
    then (raise kis_master_parse_error "Conflicting registered KIS identity for shrn_iscd.", m)
    else (ok tt, store_identity key identity m)

-- `dict.update`
unfoldable pub updated : Dict String → Dict String → Dict String
updated d [] = d
updated d ((k, v) ∷ more) = updated (insert k v d) more

-- The loop over the identities; a conflict ends it, and what was registered before stays.
unfoldable pub register_all :
    Dict KisOptionContractIdentity → Method OptionContractMaster (Unit {0})
unfolding register_contract_identity
register_all [] m = (ok tt, m)
register_all ((k, identity) ∷ more) m =
    let (r, m') = register_contract_identity identity m in
    let rest = register_all more m' in elim r [ err e ↦ (err e, m') | ok _ ↦ rest ]

unfoldable pub apply_parse_result :
    KisOptionMasterParseResult → Method OptionContractMaster (Unit {0})
unfolding updated register_all
apply_parse_result result m =
    register_all result.identities
      (record m { contracts = updated m.contracts result.legacy_contracts })

-- `parse_raw_content`, after the parse.
unfoldable pub checked_result : KisOptionMasterParseResult → Result KisOptionMasterParseResult
checked_result result =
    if is_empty result.legacy_contracts
    then raise kis_master_parse_error "Master file parsed 0 contracts."
    else ok result

-- The registry takes the result over and forgets the last error.
unfoldable pub take_over : KisOptionMasterParseResult → Method OptionContractMaster ℕ
unfolding apply_parse_result
take_over result m =
    let (r, m') = apply_parse_result result m in
    elim r [
      | err e ↦ (err e, m')
      | ok _ ↦ (ok (length result.legacy_contracts), record m' { last_error = none })
    ]

unfoldable pub load : Result KisOptionMasterParseResult → Method OptionContractMaster ℕ
unfolding take_over
load loaded m = elim loaded [ err e ↦ (err e, m) | ok result ↦ take_over result m ]

-- `load_from_kis_source`: every exception is noted, and no contract counted.
unfoldable pub load_from_kis_source :
    Result KisOptionMasterParseResult → Method OptionContractMaster ℕ
unfolding load
load_from_kis_source loaded m =
    let (r, m') = load loaded m in
    elim r [ err e ↦ (ok 0, record m' { last_error = some e.message }) | ok n ↦ (ok n, m') ]

-- `InMemoryOptionContractMaster.load_from_raw_mst_content`
unfoldable pub load_in_memory : Result KisOptionMasterParseResult → Method OptionContractMaster ℕ
unfolding load
load_in_memory loaded m = load loaded m

-- `KisProductionOptionContractMaster.load_from_raw_mst_content` and `load_from_zip_bytes`: the error
-- is noted and raised again.
unfoldable pub load_in_production :
    Result KisOptionMasterParseResult → Method OptionContractMaster ℕ
unfolding load
load_in_production loaded m =
    let (r, m') = load loaded m in
    elim r [ err e ↦ (err e, record m' { last_error = some e.message }) | ok n ↦ (ok n, m') ]

abbrev pub total_contracts : OptionContractMaster → ℕ
total_contracts m = length m.contracts

abbrev pub is_loaded : OptionContractMaster → Bool
is_loaded m = not (eqb (total_contracts m) 0)
