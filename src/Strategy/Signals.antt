-- ===== src/Strategy/Signals.antt =====
-- The way of a strategy's signal to the decision and to the order command:
-- core/runtime/runtime_execution_context.py, core/strategy/strategy_execution_proposal.py, the second
-- half of core/strategy/orchestrator.py, and `approved_signal_to_command` of
-- core/runtime/reference_execution_pipeline.py. Enumerations stand as the texts of their values.
-- Floating-point numbers are any type with the conversion from decimals and the print of `str`.

use kospi200_project.Base.{
  String, Bool, false, not, ◌&&◌, Option, none, some, List, [], ◌∷◌, if◌then◌else◌,
}
use kospi200_project.Base.Int.{ℤ, pos, leb_ℤ}
use kospi200_project.Base.Text.{◌==◌, append, strip, truthy, truthy?, or_empty}
use kospi200_project.Base.Print.{print_ℤ}
use kospi200_project.Base.Lists.{elem}
use kospi200_project.Base.Decimal.{Decimal, led, eqd, of_ℕ}
use kospi200_project.Base.Exn.{Result, ok, raise, raise_if, bind, value_error}
use kospi200_project.Contracts.{OptionInstrumentIdentity}

pub record RuntimeExecutionContext : Type 0 where
  pub tick_sequence : ℤ
  pub local_sequence : ℤ

-- `RuntimeExecutionContext.__post_init__`
unfoldable pub checked_context : RuntimeExecutionContext → Result RuntimeExecutionContext
checked_context c =
    if leb_ℤ c.tick_sequence (pos 0)
    then raise value_error "tick_sequence must be authoritative and positive"
    else if leb_ℤ c.local_sequence (pos 0)
    then raise value_error "local_sequence must be positive"
    else ok c

abbrev sequence_text : String → RuntimeExecutionContext → String → String
sequence_text prefix c track = append prefix (
    append (print_ℤ c.tick_sequence)
      (append "-" (append track (append "-" (print_ℤ c.local_sequence)))))

unfoldable pub signal_id : RuntimeExecutionContext → String → Result String
signal_id c track_id =
    if not (truthy (strip track_id))
    then raise value_error "track_id is required"
    else ok (sequence_text "SIG-" c (strip track_id))

unfoldable pub client_order_id : RuntimeExecutionContext → String → Result String
client_order_id c track_id =
    if not (truthy (strip track_id))
    then raise value_error "track_id is required"
    else ok (sequence_text "ORD-T" c (strip track_id))

pub record StrategyExecutionProposal : Type 0 where
  pub proposed_quantity : ℤ
  pub asset_type : String
  pub requested_price : Option Decimal
  pub side : Option String
  pub track_id : Option String
  pub tag_id : Option String
  pub option_type : Option String
  pub strike : Option Decimal

abbrev given_not_positive : Option Decimal → Bool
given_not_positive none = false
given_not_positive (some d) = led d (of_ℕ 0)

-- `StrategyExecutionProposal.__post_init__`
unfoldable pub checked_proposal : StrategyExecutionProposal → Result StrategyExecutionProposal
checked_proposal p =
    if leb_ℤ p.proposed_quantity (pos 0)
    then raise value_error "PROPOSED_QUANTITY_REQUIRED"
    else if not (truthy p.asset_type)
    then raise value_error "ASSET_TYPE_REQUIRED"
    else if given_not_positive p.requested_price
    then raise value_error "REQUESTED_PRICE_MUST_BE_POSITIVE"
    else if given_not_positive p.strike
    then raise value_error "STRIKE_MUST_BE_POSITIVE"
    else ok p

-- The `Signal` of core/strategy/contracts.py, without its confidence, which nothing here reads.
pub record StrategySignal : Type 0 where
  pub strategy_id : String
  pub direction : String
  pub reason : String
  pub instrument_identity : Option OptionInstrumentIdentity
  pub option_type_override : Option String
  pub strike_override : Option Decimal
  pub execution_proposal : Option StrategyExecutionProposal

pub record RuntimeStrategyEvaluation : Type 0 where
  pub context_strategy_id : Option String
  pub result : StrategySignal
  pub local_sequence : ℤ
  pub runtime_context : RuntimeExecutionContext

pub record CanonicalStrategySignal (F : Type 0) : Type 0 where
  pub signal_id : String
  pub track_id : String
  pub asset_type : String
  pub side : String
  pub qty : ℤ
  pub price : F
  pub option_type : Option String
  pub strike : F
  pub tag_id : String
  pub reason : String
  pub timestamp : String
  pub symbol : String
  pub expiry : String
  pub instrument_id : String

pub record RuntimeSignalContext (F : Type 0) : Type 0 where
  pub signal_id : String
  pub track_id : String
  pub price : F
  pub timestamp : String

unfoldable pub require_non_empty : String → String → Result String
require_non_empty value field_name =
    if not (truthy (strip value))
    then raise value_error (append field_name "_REQUIRED")
    else ok (strip value)

-- `CanonicalAssetType(...)` and the two other enumerations, by their values.
unfoldable pub one_of : List String → String → Result String
one_of values t =
    if elem t values then ok t else raise value_error "not a valid value of the enumeration"

-- `a is not None and a != b`
abbrev pub given_differs : Option String → String → Bool
given_differs none b = false
given_differs (some a) b = not (a == b)

unfoldable pub strike_differs : Option Decimal → Decimal → Bool
unfolding eqd
strike_differs none b = false
strike_differs (some a) b = not (eqd a b)

-- The option's part of the canonical signal.
pub record OptionPart (F : Type 0) : Type 0 where
  pub option_type : Option String
  pub strike : F
  pub symbol : String
  pub expiry : String

pub record Floats (F : Type 0) : Type 0 where
  pub zero_float : F
  pub to_float : Decimal → F
  pub print_float : F → String

abbrev pub given_or :
    Option OptionInstrumentIdentity
    → Option OptionInstrumentIdentity
    → Option OptionInstrumentIdentity
given_or none own = own
given_or (some given) own = some given

-- The checks of the proposal that `signal_to_canonical` makes itself.
unfoldable pub proposal_checks : StrategyExecutionProposal → Result (Unit {0})
proposal_checks proposal =
    if leb_ℤ proposal.proposed_quantity (pos 0)
    then raise value_error "QTY_REQUIRED"
    else if not (truthy proposal.asset_type)
    then raise value_error "ASSET_TYPE_REQUIRED"
    else raise_if (not (truthy? proposal.side)) value_error "SIDE_REQUIRED"

module _ {F : Type 0} (floats : Floats F) where
  -- The branch for an option, from its identity on.
  unfoldable pub option_part :
      StrategyExecutionProposal → OptionInstrumentIdentity → Result (OptionPart F)
  unfolding one_of strike_differs
  option_part proposal identity =
      if not (truthy identity.instrument_id && truthy identity.symbol && truthy? identity.expiry)
      then raise value_error "OPTION_IDENTITY_INCOMPLETE"
      else elim identity.option_type [
        | none ↦ raise value_error "OPTION_IDENTITY_INCOMPLETE"
        | some option_type ↦ elim identity.strike [
          | none ↦ raise value_error "OPTION_IDENTITY_INCOMPLETE"
          | some strike ↦
              if given_differs proposal.option_type option_type
              then raise value_error "OPTION_TYPE_IDENTITY_MISMATCH"
              else if strike_differs proposal.strike strike
              then raise value_error "STRIKE_IDENTITY_MISMATCH"
              else bind (one_of ("CALL" ∷ "PUT" ∷ []) option_type) (λ checked. ok (record {
                option_type = some checked;
                strike = floats.to_float strike;
                symbol = identity.symbol;
                expiry = or_empty identity.expiry;
              }))
        ]
      ]

  abbrev no_option : OptionPart F
  no_option = record { option_type = none; strike = floats.zero_float; symbol = ""; expiry = "" }

  unfoldable pub part_of :
      String → StrategyExecutionProposal → Option OptionInstrumentIdentity → Result (OptionPart F)
  unfolding option_part
  part_of asset_type proposal identity =
      if not (asset_type == "OPTION") then ok no_option else elim identity [
        | none ↦ raise value_error "OPTION_IDENTITY_REQUIRED"
        | some given ↦ option_part proposal given
      ]

  -- From the checks of the proposal on.
  unfoldable pub canonical_of :
      StrategySignal
      → RuntimeSignalContext F
      → Option OptionInstrumentIdentity
      → StrategyExecutionProposal
      → Result (CanonicalStrategySignal F)
  unfolding one_of part_of proposal_checks
  canonical_of signal runtime identity proposal = bind (proposal_checks proposal) λ _.
      bind (one_of ("FUTURES" ∷ "OPTION" ∷ []) proposal.asset_type) λ asset_type.
        bind (one_of ("BUY" ∷ "SELL" ∷ []) (or_empty proposal.side)) λ side.
          bind (part_of asset_type proposal identity) λ part. ok (record {
            signal_id = runtime.signal_id;
            track_id = runtime.track_id;
            asset_type = asset_type;
            side = side;
            qty = proposal.proposed_quantity;
            price = runtime.price;
            option_type = part.option_type;
            strike = part.strike;
            tag_id = or_empty proposal.tag_id;
            reason = signal.reason;
            timestamp = runtime.timestamp;
            symbol = part.symbol;
            expiry = part.expiry;
            instrument_id = "";
          })

  unfoldable pub signal_to_canonical :
      StrategySignal
      → RuntimeSignalContext F
      → Option OptionInstrumentIdentity
      → Result (CanonicalStrategySignal F)
  unfolding require_non_empty canonical_of
  signal_to_canonical signal runtime instrument_identity =
      bind (require_non_empty runtime.signal_id "SIGNAL_ID") λ signal_id.
        bind (require_non_empty runtime.track_id "TRACK_ID") λ track_id.
          elim signal.execution_proposal [
            | none ↦ raise value_error "EXECUTION_PROPOSAL_REQUIRED"
            | some proposal ↦
                canonical_of signal (record runtime { signal_id = signal_id; track_id = track_id })
                  (given_or instrument_identity signal.instrument_identity) proposal
          ]
