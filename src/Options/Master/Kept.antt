-- ===== src/Options/Master/Kept.antt =====
-- What the registry of core/option/option_master.py keeps, whatever is registered or loaded: an
-- identity that is registered once stands under its own code with the same terms ever after.
use kospi200_project.Base.{
  String, ◌≡◌, refl, sym, ap, ◌∙◌, subst, true, false, Option, none, some, arith, inl, inr, ◌⊎◌,
  Bool-cases, Option-cases,
}
use kospi200_project.Base.Text.{◌==◌, eq_iff, strip, truthy}
use kospi200_project.Base.Dict.{lookup, insert, lookup-insert}
use kospi200_project.Base.Exn.{is_ok}
use kospi200_project.Options.Master.{
  KisOptionContractIdentity, OptionContractMaster, same_option, same_identity, register_contract,
  store_identity, register_contract_identity,
}

-- All but the strike, which is compared by its value, and the kind of record.
pub record SameTerms (i j : KisOptionContractIdentity) : Type 0 where
  pub same_code : i.shrn_iscd ≡ j.shrn_iscd
  pub same_standard : i.stnd_iscd ≡ j.stnd_iscd
  pub same_expiry : i.expiry ≡ j.expiry
  pub same_type : i.option_type ≡ j.option_type

SameTerms-trans :
    {i j k : KisOptionContractIdentity} → SameTerms i j → SameTerms j k → SameTerms i k
SameTerms-trans a b = record {
  same_code = a.same_code ∙ b.same_code;
  same_standard = a.same_standard ∙ b.same_standard;
  same_expiry = a.same_expiry ∙ b.same_expiry;
  same_type = a.same_type ∙ b.same_type;
}

SameTerms-refl : (i : KisOptionContractIdentity) → SameTerms i i
SameTerms-refl i = record {
  same_code = refl;
  same_standard = refl;
  same_expiry = refl;
  same_type = refl;
}

same_option_eq : (a b : Option String) → same_option a b ≡ true → a ≡ b
same_option_eq none none h = refl
same_option_eq (some a) (some b) h = ground (arith, eq_iff a b)
same_option_eq none (some b) h = ground arith
same_option_eq (some a) none h = ground arith

same_identity-SameTerms :
    (i j : KisOptionContractIdentity) → same_identity i j ≡ true → SameTerms i j
unfolding same_identity
same_identity-SameTerms i j h = record {
  same_code = ground (arith, eq_iff i.shrn_iscd j.shrn_iscd);
  same_standard = same_option_eq i.stnd_iscd j.stnd_iscd (ground arith);
  same_expiry = ground (arith, eq_iff i.expiry j.expiry);
  same_type = same_option_eq i.option_type j.option_type (ground arith);
}

-- Each identity stands under its own stripped code, which is not empty.
abbrev pub OwnCodes : OptionContractMaster → Type 0
OwnCodes m =
    (k : String) (i : KisOptionContractIdentity)
    → lookup k m.contract_identities ≡ some i
    → (strip i.shrn_iscd ≡ k) × (truthy k ≡ true)

-- Every identity of the first registry stands in the second, with the same terms.
abbrev pub Keeps : OptionContractMaster → OptionContractMaster → Type 0
Keeps m m' =
    (k : String) (i : KisOptionContractIdentity)
    → lookup k m.contract_identities ≡ some i
    → (j : KisOptionContractIdentity) × (lookup k m'.contract_identities ≡ some j) × SameTerms i j

Keeps-trans : (m n o : OptionContractMaster) → Keeps m n → Keeps n o → Keeps m o
Keeps-trans m n o a b k i h =
    let (j, found, same) = a k i h in
    let (l, found2, same2) = b k j found in (l, found2, SameTerms-trans same same2)

Keeps-refl : (m : OptionContractMaster) → Keeps m m
Keeps-refl m k i h = (i, h, SameTerms-refl i)

pub stored_identities :
    (key : String) (i : KisOptionContractIdentity) (m : OptionContractMaster)
    → (store_identity key i m).contract_identities ≡ insert key i m.contract_identities
unfolding store_identity register_contract
stored_identities key i m = elim (Option-cases i.stnd_iscd) [
  | inl e ↦ ground arith
  | inr (code, e) ↦ ground arith
]

-- What a registration of an identity comes to.
pub register_identity_cases :
    (i : KisOptionContractIdentity) (m : OptionContractMaster)
    → let key = strip i.shrn_iscd in
      let (r, m') = register_contract_identity i m in
      ((is_ok r ≡ false) × (m' ≡ m))
      ⊎ ((is_ok r ≡ true)
          × (truthy key ≡ true)
          × (m' ≡ store_identity key i m)
          × ((lookup key m.contract_identities ≡ none)
              ⊎ ((old : KisOptionContractIdentity) × (lookup key m.contract_identities ≡ some old)
                  × SameTerms old i)))
unfolding register_contract_identity
register_identity_cases i m =
    let key = strip i.shrn_iscd in
    elim (Bool-cases (truthy key)) [
      | inr empty ↦ inl (ground arith, ground arith)
      | inl given ↦ elim (Option-cases (lookup key m.contract_identities)) [
        | inl absent ↦ inr (ground arith, given, ground arith, inl absent)
        | inr (old, found) ↦ elim (Bool-cases (same_identity old i)) [
          | inr differs ↦ inl (ground arith, ground arith)
          | inl same ↦ inr (
            ground arith,
            given,
            ground arith,
            inr (old, found, same_identity-SameTerms old i same),
          )
        ]
      ]
    ]

-- Both promises of one operation.
pub record Good (m m' : OptionContractMaster) : Type 0 where
  pub keeps : Keeps m m'
  pub codes : OwnCodes m → OwnCodes m'

pub Good-trans : (m n o : OptionContractMaster) → Good m n → Good n o → Good m o
Good-trans m n o a b = record {
  keeps = Keeps-trans m n o a.keeps b.keeps;
  codes = λ h. b.codes (a.codes h);
}

-- Only the identities matter.
pub same-Good :
    (m m' : OptionContractMaster) → m'.contract_identities ≡ m.contract_identities → Good m m'
same-Good m m' e = record {
  keeps = λ k i h. (i, ap (lookup k) e ∙ h, SameTerms-refl i);
  codes = λ own k i h. own k i (ap (lookup k) (sym e) ∙ h);
}

pub store-Good :
    (i : KisOptionContractIdentity) (m : OptionContractMaster)
    → let key = strip i.shrn_iscd in
      truthy key ≡ true
      → (lookup key m.contract_identities ≡ none)
        ⊎ ((old : KisOptionContractIdentity) × (lookup key m.contract_identities ≡ some old)
            × SameTerms old i)
      → Good m (store_identity key i m)
store-Good i m given before =
    let key = strip i.shrn_iscd in
    let ids = stored_identities key i m in
    record {
      keeps = λ k j h. elim (Bool-cases (key == k)) [
        | inr other ↦ (
          j,
          ap (lookup k) ids ∙ ground (arith, lookup-insert key k i m.contract_identities),
          SameTerms-refl j,
        )
        | inl here ↦
            let this : key ≡ k = ground (arith, eq_iff key k) in
            let at_key : lookup key m.contract_identities ≡ some j =
              ap (λ x. lookup x m.contract_identities) this ∙ h in
            elim before [
              | inl absent ↦ ground (arith, absent, at_key)
              | inr (old, found, same) ↦
                  let e : old ≡ j = ground (arith, found, at_key) in
                  (
                    i,
                    ap (lookup k) ids ∙ ground (arith, lookup-insert key k i m.contract_identities),
                    subst (λ x. SameTerms x i) e same,
                  )
            ]
      ];
      codes = λ own k j h.
          let found : lookup k (insert key i m.contract_identities) ≡ some j =
            ap (lookup k) (sym ids) ∙ h in
          elim (Bool-cases (key == k)) [
            | inr other ↦
                own k j (ground (arith, lookup-insert key k i m.contract_identities, found))
            | inl here ↦
                let this : key ≡ k = ground (arith, eq_iff key k) in
                let e : i ≡ j =
                  ground (arith, lookup-insert key k i m.contract_identities, found) in
                (ap (λ x. strip x.shrn_iscd) (sym e) ∙ this, ap truthy (sym this) ∙ given)
          ];
    }
