-- ===== src/Orders/Resolver.antt =====
-- core/oms/option_identity_resolver.py: `OptionIdentityResolver.resolve`.
use kospi200_project.Base.{
  String, ◌≡◌, refl, Bool, true, false, not, Option, none, some, ◌⊎◌, inl, inr, arith, Option-cases,
  is_none, if◌then◌else◌,
}
use kospi200_project.Base.Text.{◌==◌, eq_iff, truthy, truthy?}
use kospi200_project.Base.Decimal.{Decimal, eqd, is_positive}
use kospi200_project.Base.Exn.{Result, ok, raise, identity_resolution_error}
use kospi200_project.Contracts.{OptionInstrumentIdentity}

pub record ResolutionInput : Type 0 where
  pub instrument_identity : Option OptionInstrumentIdentity
  pub option_type_override : Option String
  pub strike_override : Option Decimal

abbrev reject {ℓ} : {A : Type ℓ} → String → Result A
reject m = raise identity_resolution_error m

-- `override is not None and override != own`
unfoldable pub type_overridden : Option String → Option String → Bool
type_overridden none own = false
type_overridden (some t) none = true
type_overridden (some t) (some own) = not (t == own)

unfoldable pub strike_overridden : Option Decimal → Option Decimal → Bool
strike_overridden none own = false
strike_overridden (some k) none = true
strike_overridden (some k) (some own) = not (eqd k own)

-- `override if override is not None else own`
abbrev pub or_own {ℓ} : {A : Type ℓ} → Option A → Option A → Option A
or_own none own = own
or_own (some a) own = some a

-- The checks on an identity and the overrides, with the option type and the strike as chosen.
unfoldable pub resolve_identity :
    OptionInstrumentIdentity → Option String → Option Decimal → Result OptionInstrumentIdentity
resolve_identity identity type_override strike_override =
    let option_type = or_own type_override identity.option_type in
    let strike = or_own strike_override identity.strike in
    if type_overridden type_override identity.option_type
    then reject "AUTHORITATIVE_IDENTITY_REQUIRED_FOR_OPTION_TYPE_OVERRIDE"
    else if strike_overridden strike_override identity.strike
    then reject "AUTHORITATIVE_IDENTITY_REQUIRED_FOR_STRIKE_OVERRIDE"
    else if not (truthy identity.instrument_id)
    then reject "INSTRUMENT_ID_REQUIRED"
    else if not (truthy identity.symbol)
    then reject "SYMBOL_REQUIRED"
    else if not (truthy? identity.expiry)
    then reject "EXPIRY_REQUIRED"
    else if is_none option_type
    then reject "OPTION_TYPE_REQUIRED"
    else elim strike [
      | none ↦ reject "STRIKE_REQUIRED"
      | some k ↦
          if is_positive k
          then ok (record identity { option_type = option_type; strike = some k })
          else reject "STRIKE_REQUIRED"
    ]

unfoldable pub resolve : ResolutionInput → Result OptionInstrumentIdentity
resolve request = elim request.instrument_identity [
  | none ↦ reject "OPTION_IDENTITY_REQUIRED"
  | some identity ↦ resolve_identity identity request.option_type_override request.strike_override
]

type_kept :
    (type_override own : Option String)
    → type_overridden type_override own ≡ false
    → or_own type_override own ≡ own
unfolding type_overridden
type_kept none own h = refl
type_kept (some t) none h = ground arith
type_kept (some t) (some own) h = ground (arith, eq_iff t own)

strike_kept :
    (strike_override own : Option Decimal) (k : Decimal)
    → strike_overridden strike_override own ≡ false
    → or_own strike_override own ≡ some k
    → (d : Decimal) × (own ≡ some d) × ((k ≡ d) ⊎ (eqd k d ≡ true))
unfolding strike_overridden
strike_kept none own k h e = (k, e, inl refl)
strike_kept (some j) none k h e = ground arith
strike_kept (some j) (some d) k h e = (d, refl, inr (ground arith))

-- The authoritative identity behind a resolved one: all texts are its own, and so is the strike's
-- value.
abbrev pub Authentic : OptionInstrumentIdentity → OptionInstrumentIdentity → Type 0
Authentic identity r =
    (r.instrument_id ≡ identity.instrument_id)
    × (r.symbol ≡ identity.symbol)
    × (r.expiry ≡ identity.expiry)
    × (r.option_type ≡ identity.option_type)
    × ((k d : Decimal) × (r.strike ≡ some k)
        × (is_positive k ≡ true)
        × (identity.strike ≡ some d)
        × ((k ≡ d) ⊎ (eqd k d ≡ true)))

-- The resolver never invents: an identity that it returns is the given one, with its own option
-- type and a positive strike of the same value, whatever the overrides, and its instrument id,
-- symbol and expiry are not empty.
pub resolve-Authentic :
    (request : ResolutionInput) (r : OptionInstrumentIdentity)
    → resolve request ≡ ok r
    → (identity : OptionInstrumentIdentity) × (request.instrument_identity ≡ some identity)
      × Authentic identity r
      × (truthy r.instrument_id ≡ true)
      × (truthy r.symbol ≡ true)
      × (truthy? r.expiry ≡ true)
unfolding resolve resolve_identity
resolve-Authentic request r h = elim (Option-cases request.instrument_identity) [
  | inl missing ↦ ground arith
  | inr (i, given) ↦ elim (Option-cases (or_own request.strike_override i.strike)) [
    | inl absent ↦ ground arith
    | inr (k, chosen) ↦
        let type = type_kept request.option_type_override i.option_type (ground arith) in
        let (d, own, same) = strike_kept request.strike_override i.strike k (ground arith) chosen in
        (
          i,
          given,
          (
            ground arith,
            ground arith,
            ground arith,
            ground (arith, type),
            (k, d, ground arith, ground arith, own, same),
          ),
          ground arith,
          ground arith,
          ground arith,
        )
  ]
]
