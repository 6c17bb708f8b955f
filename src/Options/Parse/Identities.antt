-- ===== src/Options/Parse/Identities.antt =====
-- What the tables that `parse_kis_fo_idx_mst_result` of core/option/option_master.py returns promise.
use kospi200_project.Base.{
  ℕ, String, ◌≡◌, ap, subst, sym, ◌∙◌, Bool, true, false, Option, some, is_none, List, [], ◌∷◌, map,
  arith, inl, inr, Bool-cases, Option-cases,
}
use kospi200_project.Base.Text.{◌==◌, eq_iff, strip, truthy}
use kospi200_project.Base.Dict.{Dict, lookup, insert, lookup-insert}
use kospi200_project.Base.Decimal.{Decimal}
use kospi200_project.Base.Exn.{ok, bind-eq-ok}
use kospi200_project.Options.Master.{KisOptionContractIdentity, KisOptionMasterParseResult}
use kospi200_project.Options.Parse.{
  Library, split_on, is_bar, is_line_break, is_option_record, calculate_expiry, with_identity,
  add_record, add_fields, add_lines, parse_kis_fo_idx_mst_result, info_type_to_option_type, given,
  strike_of,
}

-- Each identity stands under its own code, which is not empty, has an expiry, and its code is among
-- the contracts.
pub record Placed (p : KisOptionMasterParseResult) (k : String) (i : KisOptionContractIdentity)
    : Type 0 where
  pub own_code : i.shrn_iscd ≡ k
  pub some_code : truthy k ≡ true
  pub some_expiry : truthy i.expiry ≡ true
  pub contract_known : is_none (lookup k p.legacy_contracts) ≡ false

abbrev pub AllPlaced : KisOptionMasterParseResult → Type 0
AllPlaced p =
    (k : String) (i : KisOptionContractIdentity) → lookup k p.identities ≡ some i → Placed p k i

known-insert :
    (k j : String) (v : String) (d : Dict String)
    → is_none (lookup j d) ≡ false
    → is_none (lookup j (insert k v d)) ≡ false
known-insert k j v d h = ground (arith, lookup-insert k j v d)

known_after :
    (i : KisOptionContractIdentity) (standard : String) (p : KisOptionMasterParseResult)
    (k : String)
    → is_none (lookup k (insert i.shrn_iscd i.expiry p.legacy_contracts)) ≡ false
    → is_none (lookup k (with_identity i standard p).legacy_contracts) ≡ false
unfolding with_identity
known_after i standard p k h = elim (Bool-cases (truthy standard)) [
  | inl some_code ↦
      rw some_code
        (known-insert standard k i.expiry (insert i.shrn_iscd i.expiry p.legacy_contracts) h)
  | inr no_code ↦ rw no_code h
]

with_identity-AllPlaced :
    (i : KisOptionContractIdentity) (standard : String) (p : KisOptionMasterParseResult)
    → truthy i.shrn_iscd ≡ true
    → truthy i.expiry ≡ true
    → AllPlaced p
    → AllPlaced (with_identity i standard p)
unfolding with_identity
with_identity-AllPlaced i standard p coded dated h k j found =
    let at_id = lookup-insert i.shrn_iscd k i p.identities in
    let at_own = lookup-insert i.shrn_iscd k i.expiry p.legacy_contracts in
    elim (Bool-cases (i.shrn_iscd == k)) [
      | inl here ↦
          let this : i.shrn_iscd ≡ k = ground (arith, eq_iff i.shrn_iscd k) in
          let same : i ≡ j = ground (arith, at_id, found, here) in
          record {
            own_code = ap (λ x. x.shrn_iscd) (sym same) ∙ this;
            some_code = ap truthy (sym this) ∙ coded;
            some_expiry = ap (λ x. truthy x.expiry) (sym same) ∙ dated;
            contract_known = known_after i standard p k (ground (arith, at_own, here));
          }
      | inr other ↦
          let old = h k j (ground (arith, at_id, found, other)) in
          record {
            own_code = old.own_code;
            some_code = old.some_code;
            some_expiry = old.some_expiry;
            contract_known =
                known_after i standard p k
                  (known-insert i.shrn_iscd k i.expiry p.legacy_contracts old.contract_known);
          }
    ]

unchanged : (p q : KisOptionMasterParseResult) → AllPlaced p → p ≡ q → AllPlaced q
unchanged p q h same = subst (λ x. AllPlaced x) {x = p} {y = q} same h

module _ (lib : Library) (is_holiday : ℕ → Bool) where
  add_record-AllPlaced :
      (kind symbol standard expiry : String) (strike : Option Decimal)
      (p : KisOptionMasterParseResult) {q : KisOptionMasterParseResult}
      → truthy symbol ≡ true
      → truthy expiry ≡ true
      → AllPlaced p
      → add_record lib is_holiday kind symbol standard expiry strike p ≡ ok q
      → AllPlaced q
  unfolding add_record
  add_record-AllPlaced kind symbol standard expiry strike p {q = q} coded dated h made =
      let identity : KisOptionContractIdentity = record {
        shrn_iscd = symbol;
        stnd_iscd = given standard;
        expiry = expiry;
        option_type = info_type_to_option_type kind;
        strike = strike;
        info_type = given kind;
      } in
      let same : with_identity identity standard p ≡ q = ground (arith, made) in
      λ k i found.
        subst (λ x. AllPlaced x) same (with_identity-AllPlaced identity standard p coded dated h) k
          i found

  add_fields-AllPlaced :
      (fields : List String) (p : KisOptionMasterParseResult) {q : KisOptionMasterParseResult}
      → AllPlaced p
      → add_fields lib is_holiday fields p ≡ ok q
      → AllPlaced q
  unfolding add_fields
  add_fields-AllPlaced (kind ∷ symbol ∷ standard ∷ name ∷ more) p {q = q} h made =
      elim (Bool-cases (is_option_record kind symbol name)) [
        | inr no_option ↦ unchanged p q h (ground (arith, made, no_option))
        | inl option ↦ elim (Option-cases (calculate_expiry lib is_holiday symbol name)) [
          | inl none_found ↦ unchanged p q h (ground (arith, made, option, none_found))
          | inr (expiry, found) ↦ elim (Bool-cases (truthy symbol)) [
            | inr no_code ↦ unchanged p q h (ground (arith, made, option, found, no_code))
            | inl coded ↦ elim (Bool-cases (truthy expiry)) [
              | inr no_date ↦ unchanged p q h (ground (arith, made, option, found, no_date))
              | inl dated ↦
                  add_record-AllPlaced kind symbol standard expiry (strike_of lib is_holiday more) p
                    coded dated h (ground (arith, made, option, found, coded, dated))
            ]
          ]
        ]
      ]
  add_fields-AllPlaced _ p {q = q} h made = unchanged p q h (ground (arith, made))

  add_lines-AllPlaced :
      (lines : List String) (p : KisOptionMasterParseResult) {q : KisOptionMasterParseResult}
      → AllPlaced p
      → add_lines lib is_holiday lines p ≡ ok q
      → AllPlaced q
  unfolding add_lines
  add_lines-AllPlaced [] p {q = q} h made = unchanged p q h (ground (arith, made))
  add_lines-AllPlaced (line ∷ lines) p h made =
      let fields = map strip (split_on is_bar line) in
      let (middle, first, rest) = bind-eq-ok (add_fields lib is_holiday fields p) _ made in
      add_lines-AllPlaced lines middle (add_fields-AllPlaced fields p h first) rest

  parse-AllPlaced :
      (raw : String) {q : KisOptionMasterParseResult}
      → parse_kis_fo_idx_mst_result lib is_holiday raw ≡ ok q
      → AllPlaced q
  unfolding parse_kis_fo_idx_mst_result lookup
  parse-AllPlaced raw {q = q} made =
      let empty : KisOptionMasterParseResult = record { legacy_contracts = []; identities = [] } in
      let none_yet : AllPlaced empty = λ k i found. ground arith in
      elim (Bool-cases (truthy (strip raw))) [
        | inl some_text ↦
            add_lines-AllPlaced (split_on is_line_break raw) empty none_yet
              (ground (arith, made, some_text))
        | inr blank ↦ unchanged empty q none_yet (ground (arith, made, blank))
      ]

  -- In the tables of a parse that returns, every identity stands under its own code, which is not
  -- empty, has an expiry, and its code is among the contracts.
  pub parse-Placed :
      (raw : String) {q : KisOptionMasterParseResult} (k : String) (i : KisOptionContractIdentity)
      → parse_kis_fo_idx_mst_result lib is_holiday raw ≡ ok q
      → lookup k q.identities ≡ some i
      → Placed q k i
  parse-Placed raw k i made found = parse-AllPlaced raw made k i found
