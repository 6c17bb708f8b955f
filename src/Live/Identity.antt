-- ===== src/Live/Identity.antt =====
-- contracts/krx_kis_identity_reconciliation.py: `reconcile_krx_to_kis`, the match of the exchange's
-- instrument codes with the broker's. The product kind is a text.
use kospi200_project.Base.{
  String, ◌≡◌, refl, Bool, false, not, Option, none, some, List, [], ◌∷◌, arith, inl, inr,
  Bool-cases, Option-cases, if◌then◌else◌,
}
use kospi200_project.Base.Text.{◌==◌, eq_iff, strip, truthy?, or_empty, append}
use kospi200_project.Base.Dict.{Dict, lookup, insert, lookup-insert}
use kospi200_project.Base.Lists.{Among, All, elem}
use kospi200_project.Base.Exn.{Result, ok, raise, bind, Result-cases, identity_reconciliation_error}

pub record KrxInstrumentRecord : Type 0 where
  pub isu_cd : String
  pub isu_nm : String
  pub product_kind : String

pub record KisMasterIdentityRecord : Type 0 where
  pub shrn_iscd : String
  pub stnd_iscd : Option String

pub record ReconciledInstrumentIdentity : Type 0 where
  pub product_kind : String
  pub krx_isu_cd : String
  pub kis_shrn_iscd : String
  pub kis_stnd_iscd : String
  pub matched_by : String

abbrev reject {ℓ} : {A : Type ℓ} → String → Result A
reject m = raise identity_reconciliation_error m

abbrev pub standard_code : KisMasterIdentityRecord → String
standard_code record_ = strip (or_empty record_.stnd_iscd)

-- Whether an earlier record has the key with another short code.
abbrev ambiguous : String → KisMasterIdentityRecord → Dict KisMasterIdentityRecord → Bool
ambiguous key r d = elim (lookup key d) [
  | none ↦ false
  | some previous ↦ not (previous.shrn_iscd == r.shrn_iscd)
]

-- The first loop.
unfoldable pub index_kis :
    List KisMasterIdentityRecord
    → Dict KisMasterIdentityRecord
    → Result (Dict KisMasterIdentityRecord)
index_kis [] d = ok d
index_kis (r ∷ rs) d =
    let skipped = index_kis rs d in
    let added = index_kis rs (insert (standard_code r) r d) in
    if not (truthy? r.stnd_iscd)
    then skipped
    else if ambiguous (standard_code r) r d
    then reject (append "AMBIGUOUS_KIS_STANDARD_CODE:" (standard_code r))
    else added

abbrev reconciled : KrxInstrumentRecord → KisMasterIdentityRecord → ReconciledInstrumentIdentity
reconciled krx kis = record {
  product_kind = krx.product_kind;
  krx_isu_cd = strip krx.isu_cd;
  kis_shrn_iscd = strip kis.shrn_iscd;
  kis_stnd_iscd = strip krx.isu_cd;
  matched_by = "KIS_STND_ISCD_EXACT";
}

-- The second loop, with the codes seen so far.
unfoldable pub match_krx :
    List KrxInstrumentRecord
    → List String
    → Dict KisMasterIdentityRecord
    → Result (List ReconciledInstrumentIdentity)
match_krx [] seen d = ok []
match_krx (r ∷ rs) seen d =
    let rest = match_krx rs (strip r.isu_cd ∷ seen) d in
    if elem (strip r.isu_cd) seen
    then reject (append "DUPLICATE_KRX_ISU_CD:" (strip r.isu_cd))
    else elim (lookup (strip r.isu_cd) d) [
      | none ↦ rest
      | some kis ↦ bind rest (λ more. ok (reconciled r kis ∷ more))
    ]

unfoldable pub reconcile_krx_to_kis :
    List KrxInstrumentRecord
    → List KisMasterIdentityRecord
    → Result (List ReconciledInstrumentIdentity)
reconcile_krx_to_kis krx kis = bind (index_kis kis []) (λ d. match_krx krx [] d)

-- An indexed record has the key as its standard code, and a property that all given ones have.
index_kis-standard_code :
    (P : KisMasterIdentityRecord → Type 0) (l : List KisMasterIdentityRecord)
    (d d' : Dict KisMasterIdentityRecord) (k : String) (r : KisMasterIdentityRecord)
    → All P l
    → ((j : String) (q : KisMasterIdentityRecord)
        → lookup j d ≡ some q
        → (standard_code q ≡ j) × P q)
    → index_kis l d ≡ ok d'
    → lookup k d' ≡ some r
    → (standard_code r ≡ k) × P r
unfolding index_kis
index_kis-standard_code P [] d d' k r all old h found = old k r (ground arith)
index_kis-standard_code P (q ∷ l) d d' k r all old h found =
    elim (Bool-cases (truthy? q.stnd_iscd)) [
      | inr empty ↦ index_kis-standard_code P l d d' k r all.1 old (ground arith) found
      | inl coded ↦
          index_kis-standard_code P l (insert (standard_code q) q d) d' k r all.1
            (λ j s e. elim (Bool-cases (standard_code q == j)) [
              | inl own ↦
                  let same : q ≡ s = ground (arith, lookup-insert (standard_code q) j q d) in
                  rw (← same) ((eq_iff (standard_code q) j).0 own, all.0)
              | inr other ↦ old j s (ground (arith, lookup-insert (standard_code q) j q d))
            ])
            (ground arith) found
    ]

-- What a match rests on: a record of each side, with equal codes.
abbrev pub Exact :
    (KrxInstrumentRecord → Type 0)
    → (KisMasterIdentityRecord → Type 0)
    → ReconciledInstrumentIdentity
    → Type 0
Exact P Q i =
    ((r : KrxInstrumentRecord) × P r
      × (strip r.isu_cd ≡ i.krx_isu_cd)
      × (r.product_kind ≡ i.product_kind))
    × ((q : KisMasterIdentityRecord) × Q q
        × (standard_code q ≡ i.krx_isu_cd)
        × (strip q.shrn_iscd ≡ i.kis_shrn_iscd))
    × (i.kis_stnd_iscd ≡ i.krx_isu_cd)

match_krx-Exact :
    (P : KrxInstrumentRecord → Type 0) (Q : KisMasterIdentityRecord → Type 0)
    (l : List KrxInstrumentRecord) (seen : List String) (d : Dict KisMasterIdentityRecord)
    (out : List ReconciledInstrumentIdentity)
    → All P l
    → ((j : String) (q : KisMasterIdentityRecord)
        → lookup j d ≡ some q
        → (standard_code q ≡ j) × Q q)
    → match_krx l seen d ≡ ok out
    → All (Exact P Q) out
unfolding match_krx
match_krx-Exact P Q [] seen d [] all old h = tt
match_krx-Exact P Q [] seen d (i ∷ out) all old h = cc
match_krx-Exact P Q (r ∷ l) seen d out all old h = elim (Option-cases (lookup (strip r.isu_cd) d)) [
  | inl absent ↦ match_krx-Exact P Q l (strip r.isu_cd ∷ seen) d out all.1 old (ground arith)
  | inr (q, found) ↦ elim (Result-cases (match_krx l (strip r.isu_cd ∷ seen) d)) [
    | inr (x, e) ↦ ground arith
    | inl (more, e) ↦
        let same : reconciled r q ∷ more ≡ out = ground arith in
        let (code, good) = old (strip r.isu_cd) q found in
        rw (← same) (
          ((r, all.0, refl, refl), (q, good, code, refl), refl),
          match_krx-Exact P Q l (strip r.isu_cd ∷ seen) d more all.1 old e,
        )
  ]
]

All-Among :
    {A : Type 0} (l whole : List A)
    → ((x : A) → Among x l → Among x whole)
    → All (λ x. Among x whole) l
All-Among [] whole h = tt
All-Among (x ∷ l) whole h = (h x (inl refl), All-Among l whole (λ y m. h y (inr m)))

-- Every reconciled identity is an exact match: it has the stripped code and the kind of a given
-- exchange record, and the stripped short code of a given broker record whose stripped standard code
-- is that same code.
pub reconcile-Exact :
    (krx : List KrxInstrumentRecord) (kis : List KisMasterIdentityRecord)
    (out : List ReconciledInstrumentIdentity)
    → reconcile_krx_to_kis krx kis ≡ ok out
    → All (Exact (λ r. Among r krx) (λ q. Among q kis)) out
unfolding reconcile_krx_to_kis lookup
reconcile-Exact krx kis out h = elim (Result-cases (index_kis kis [])) [
  | inr (x, e) ↦ ground arith
  | inl (d, e) ↦
      match_krx-Exact (λ r. Among r krx) (λ q. Among q kis) krx [] d out
        (All-Among krx krx (λ x m. m))
        (λ j q found.
          index_kis-standard_code (λ p. Among p kis) kis [] d j q (All-Among kis kis (λ x m. m))
            (λ i p f. cc) e found)
        (ground arith)
]
