-- ===== src/Options/Master/Lookup.antt =====
-- What the registry of core/option/option_master.py answers after a registration.
use kospi200_project.Base.{String, ◌≡◌, refl, ap, ◌∙◌, true, some, arith, inl, inr, Option-cases}
use kospi200_project.Base.Text.{eq_iff, strip, truthy}
use kospi200_project.Base.Dict.{lookup, insert, lookup-insert, lookup-insert_self}
use kospi200_project.Base.Exn.{is_ok}
use kospi200_project.Options.Master.{
  KisOptionContractIdentity, OptionContractMaster, get_contract_identity, get_expiry,
  register_contract, store_identity, register_contract_identity,
}
use kospi200_project.Options.Master.Kept.{register_identity_cases, stored_identities}

truthy-strip : (t : String) → truthy (strip t) ≡ true → truthy t ≡ true
unfolding strip
truthy-strip String.[] h = h
truthy-strip (String.◌∷◌ c s) h = refl

stored_expiry :
    (key : String) (i : KisOptionContractIdentity) (m : OptionContractMaster)
    → truthy key ≡ true
    → truthy i.expiry ≡ true
    → lookup (strip key) (store_identity key i m).contracts ≡ some (strip i.expiry)
unfolding store_identity register_contract
stored_expiry key i m given dated =
    let first = insert (strip key) (strip i.expiry) m.contracts in
    let at_key = lookup-insert_self (strip key) (strip i.expiry) m.contracts in
    elim (Option-cases i.stnd_iscd) [
      | inl e ↦ ground (arith, at_key)
      | inr (code, e) ↦ ground (
        arith,
        at_key,
        lookup-insert (strip code) (strip key) (strip i.expiry) first,
        eq_iff (strip code) (strip key),
      )
    ]

-- After a registration that returns, the identity and its expiry, where it has one, are found under
-- its code.
pub register_found :
    (i : KisOptionContractIdentity) (m : OptionContractMaster)
    → is_ok (register_contract_identity i m).0 ≡ true
    → truthy i.expiry ≡ true
    → let m' = (register_contract_identity i m).1 in
      (get_contract_identity i.shrn_iscd m' ≡ some i)
      × (get_expiry (strip i.shrn_iscd) m' ≡ some (strip i.expiry))
unfolding get_contract_identity get_expiry
register_found i m returned dated =
    let key = strip i.shrn_iscd in
    elim (register_identity_cases i m) [
      | inl (raised, kept) ↦ ground arith
      | inr (_, given, stored, _) ↦ (
        ground (
          arith,
          truthy-strip i.shrn_iscd given,
          ap (λ n. lookup key n.contract_identities) stored
              ∙ ap (lookup key) (stored_identities key i m)
              ∙ lookup-insert_self key i m.contract_identities,
        ),
        ground (
          arith,
          given,
          ap (λ n. lookup (strip key) n.contracts) stored ∙ stored_expiry key i m given dated,
        ),
      )
    ]
