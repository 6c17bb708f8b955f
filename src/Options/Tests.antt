-- ===== src/Options/Tests.antt =====
-- The theorems on the option master at a month, a week, and a file of one contract.
use Prim.Native.Char.{code}
use kospi200_project.Base.{
  ℕ, ◌-◌, ◌≡◌, refl, String, Bool, false, ◌&&◌, none, some, [], ◌∷◌, arith, if◌then◌else◌, leb,
}
use kospi200_project.Base.Text.{strip}
use kospi200_project.Base.Dict.{Dict, lookup, insert}
use kospi200_project.Base.Decimal.{of_ℕ}
use kospi200_project.Time.Calendar.{is_trading_day}
use kospi200_project.Options.Expiry.Weekly.{IsThursdayOfWeek, within_month, weekly_expiry_lem}
use kospi200_project.Options.Expiry.{
  ordinal, days_in_month, days_before, date, last_open, IsSecondThursday, IsLastOpen,
  calculate_krx_monthly_option_expiry, calculate_krx_weekly_option_expiry, monthly_expiry_lem,
}
use kospi200_project.Options.Master.{
  store_identity, KisOptionContractIdentity, KisOptionMasterParseResult, OptionContractMaster,
  new_master, get_contract_identity, get_expiry, register_contract, register_contract_identity,
  conflicts,
}
use kospi200_project.Options.Master.Kept.{SameTerms}
use kospi200_project.Options.Master.Steps.{
  done, then_one, registers_identity, registers_contract, Steps-SameTerms,
}
use kospi200_project.Options.Master.Lookup.{register_found}
use kospi200_project.Options.Parse.{Library, info_type_to_option_type, parse_kis_fo_idx_mst_result}
use kospi200_project.Options.Parse.Identities.{Placed, parse-Placed}

-- The 8th of January 2026 is a Thursday and a holiday here.
abbrev eighth : ℕ
eighth = 739624

abbrev closed_eighth : ℕ → Bool
closed_eighth n = leb eighth n && leb n eighth

january : ordinal 2026 1 8 ≡ 739624
unfolding ordinal days_before
january = refl

monthly_expiry_lem_example :
    (t : ℕ) × (e : ℕ) × (calculate_krx_monthly_option_expiry closed_eighth 2026 1 ≡ some e)
    × IsSecondThursday 2026 1 t
    × IsLastOpen closed_eighth t e
unfolding ordinal days_before is_trading_day
monthly_expiry_lem_example =
    monthly_expiry_lem closed_eighth 2026 1 739623 refl (ground arith) (ground arith) refl

weekly_expiry_lem_example :
    (t : ℕ) × (e : ℕ) × (calculate_krx_weekly_option_expiry closed_eighth 2026 1 2 ≡ some e)
    × IsThursdayOfWeek 2026 1 2 t
    × IsLastOpen closed_eighth (within_month 2026 1 t) e
unfolding ordinal days_before days_in_month is_trading_day
weekly_expiry_lem_example =
    weekly_expiry_lem closed_eighth 2026 1 2 739617 refl (ground arith) (ground arith)
      (ground arith) refl

abbrev call_350 : KisOptionContractIdentity
call_350 = record {
  shrn_iscd = " 201W01350";
  stnd_iscd = some "KR4201W10001";
  expiry = "2026-01-08";
  option_type = some "CALL";
  strike = some (of_ℕ 350);
  info_type = some "5";
}

abbrev contracts : Dict String
contracts = ("201W01350", "2026-01-09") ∷ []

abbrev master : OptionContractMaster
master = new_master contracts

register_found_example :
    let m' = (register_contract_identity call_350 master).1 in
    (get_contract_identity call_350.shrn_iscd m' ≡ some call_350)
    × (get_expiry (strip call_350.shrn_iscd) m' ≡ some (strip call_350.expiry))
unfolding register_contract_identity strip lookup
register_found_example = register_found call_350 master refl refl

abbrev registered : OptionContractMaster
registered = (register_contract_identity call_350 master).1

Steps-SameTerms_example :
    (j : KisOptionContractIdentity) × (lookup "201W01350"
        (register_contract "201W01350" "2026-02-12"
          (register_contract_identity call_350 registered).1).contract_identities
      ≡ some j)
    × SameTerms call_350 j
unfolding register_contract_identity strip lookup insert store_identity register_contract
Steps-SameTerms_example =
    Steps-SameTerms "201W01350" call_350
      (then_one (then_one (done registered) (registers_identity call_350 registered)) (
        registers_contract "201W01350" "2026-02-12"
          (register_contract_identity call_350 registered).1))
      refl

-- The digits from 0 to 9, one date and no strikes.
abbrev library : Library
library = record {
  digit_value = λ c. if leb 48 (code c) && leb (code c) 57 then some (code c - 48) else none;
  print_date = λ _. "2026-01-08";
  parse_decimal = λ _. none;
}

abbrev parsed : KisOptionMasterParseResult
parsed = record {
  legacy_contracts = ("201W01", "2026-01-08") ∷ ("KR42", "2026-01-08") ∷ [];
  identities =
      (
        "201W01",
        record {
          shrn_iscd = "201W01";
          stnd_iscd = some "KR42";
          expiry = "2026-01-08";
          option_type = some "CALL";
          strike = none;
          info_type = some "5";
        },
      )
      ∷ [];
}

parse-Placed_example : Placed parsed "201W01" (record {
  shrn_iscd = "201W01";
  stnd_iscd = some "KR42";
  expiry = "2026-01-08";
  option_type = some "CALL";
  strike = none;
  info_type = some "5";
})
unfolding parse_kis_fo_idx_mst_result strip calculate_krx_monthly_option_expiry date days_in_month
    ordinal days_before last_open is_trading_day conflicts lookup insert info_type_to_option_type
parse-Placed_example =
    parse-Placed library (λ _. false) "5|201W01|KR42|C 202601 350" {q = parsed} "201W01" _ refl refl
