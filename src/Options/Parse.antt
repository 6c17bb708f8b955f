-- ===== src/Options/Parse.antt =====
-- core/option/option_master.py: `parse_kis_fo_idx_mst_result` and the functions that it calls. Of
-- Python and its library the digits of `\d`, the print of a date and the decimals that a text denotes
-- are parameters; a strike that is no number at all (NaN) is left out.
pub mod Identities
use Prim.Native.Char.{Char, code}
use kospi200_project.Base.{
  ℕ, zero, suc, ◌+◌, ◌*◌, ◌≡◌, String, Bool, true, false, not, ◌&&◌, ◌||◌, Option, none, some,
  is_none, List, [], ◌∷◌, map, if◌then◌else◌, ltb, leb, eqb,
}
use kospi200_project.Base.Text.{◌==◌, strip, truthy}
use kospi200_project.Base.Dict.{Dict, lookup, insert}
use kospi200_project.Base.Lists.{elem}
use kospi200_project.Base.Decimal.{Decimal, is_positive}
use kospi200_project.Base.Exn.{Result, ok, err, raise, bind, kis_master_parse_error}
use kospi200_project.Options.Expiry.{
  calculate_krx_weekly_option_expiry, calculate_krx_monthly_option_expiry,
}
use kospi200_project.Options.Master.{
  KisOptionContractIdentity, KisOptionMasterParseResult, same_identity, conflicts,
}

-- The pieces of a text between the characters of a kind.
abbrev joined_first : Char → List String → List String
joined_first c [] = []
joined_first c (t ∷ ts) = String.◌∷◌ c t ∷ ts

unfoldable pub split_on : (ℕ → Bool) → String → List String
split_on breaks String.[] = String.[] ∷ []
split_on breaks (String.◌∷◌ c s) =
    let rest = split_on breaks s in
    if breaks (code c) then String.[] ∷ rest else joined_first c rest

-- The line breaks of `str.splitlines`. That a pair of carriage return and line feed is one break and
-- the last break ends no line makes empty pieces only, and the parser skips those.
abbrev pub is_line_break : ℕ → Bool
is_line_break c =
    (leb 10 c && leb c 13) || (leb 28 c && leb c 30) || eqb c 0x85 || eqb c 0x2028 || eqb c 0x2029

abbrev pub is_bar : ℕ → Bool
is_bar c = eqb c 124

unfoldable pub starts_with : String → String → Bool
starts_with String.[] s = true
starts_with (String.◌∷◌ c p) String.[] = false
starts_with (String.◌∷◌ c p) (String.◌∷◌ d s) = eqb (code c) (code d) && starts_with p s

-- `needle in text`
unfoldable pub contains_text : String → String → Bool
unfolding starts_with
contains_text needle String.[] = starts_with needle String.[]
contains_text needle (String.◌∷◌ c s) =
    let rest = contains_text needle s in starts_with needle (String.◌∷◌ c s) || rest

abbrev option_info_types : List String
option_info_types = "5" ∷ "6" ∷ "D" ∷ "E" ∷ "L" ∷ "M" ∷ "N" ∷ "O" ∷ "P" ∷ "Q" ∷ "R" ∷ "S" ∷ []

unfoldable pub is_option_record : String → String → String → Bool
unfolding contains_text
is_option_record prod_type symbol name =
    elem prod_type option_info_types
    || starts_with "2" symbol
    || starts_with "3" symbol
    || starts_with "B" symbol
    || starts_with "C" symbol
    || contains_text " C " name
    || contains_text " P " name
    || contains_text "Call" name
    || contains_text "Put" name

-- `KIS_INFO_TYPE_TO_OPTION_TYPE.get`
unfoldable pub info_type_to_option_type : String → Option String
info_type_to_option_type t =
    if elem t ("5" ∷ "D" ∷ "L" ∷ [])
    then some "CALL"
    else if elem t ("6" ∷ "E" ∷ "M" ∷ [])
    then some "PUT"
    else none

-- `x or None` for a text.
abbrev pub given : String → Option String
given t = if truthy t then some t else none

pub record Library : Type 0 where
  pub digit_value : Char → Option ℕ
  pub print_date : ℕ → String
  pub parse_decimal : String → Option Decimal

-- A number of two digits.
abbrev two : Option ℕ → Option ℕ → Option ℕ
two none _ = none
two (some a) none = none
two (some a) (some b) = some (a * 10 + b)

-- The expiry under both codes, and the identity under its own.
unfoldable pub with_identity :
    KisOptionContractIdentity → String → KisOptionMasterParseResult → KisOptionMasterParseResult
with_identity identity standard p =
    let own = insert identity.shrn_iscd identity.expiry p.legacy_contracts in
    record {
      legacy_contracts = if truthy standard then insert standard identity.expiry own else own;
      identities = insert identity.shrn_iscd identity p.identities;
    }

module _ (lib : Library) (is_holiday : ℕ → Bool) where
  abbrev weekly_of : Option ℕ → Option ℕ → Char → Option ℕ → Option (ℕ × ℕ × ℕ)
  weekly_of (some y) (some m) c (some n) = if eqb (code c) 87 then some (y, m, n) else none
  weekly_of _ _ c _ = none

  -- `(\d{2})(\d{2})W(\d)` at the start of a text.
  unfoldable pub weekly_here : String → Option (ℕ × ℕ × ℕ)
  weekly_here
        (String.◌∷◌ a
          (String.◌∷◌ b (String.◌∷◌ c (String.◌∷◌ d (String.◌∷◌ w (String.◌∷◌ n s)))))) =
      let digit = lib.digit_value in
      weekly_of (two (digit a) (digit b)) (two (digit c) (digit d)) w (digit n)
  weekly_here _ = none

  -- `_WEEKLY_PATTERN.search`: the leftmost match.
  unfoldable pub search_weekly : String → Option (ℕ × ℕ × ℕ)
  unfolding weekly_here
  search_weekly String.[] = none
  search_weekly (String.◌∷◌ c s) =
      let rest = search_weekly s in
      elim (weekly_here (String.◌∷◌ c s)) [ some found ↦ some found | none ↦ rest ]

  abbrev month_of : Char → Char → Option ℕ → Option ℕ → Option (ℕ × ℕ)
  month_of a b (some y) (some m) =
      if eqb (code a) 50 && eqb (code b) 48 then some (2000 + y, m) else none
  month_of a b _ _ = none

  -- `20\d{4}` at the start of a text, as a year and a month.
  unfoldable pub month_here : String → Option (ℕ × ℕ)
  month_here
        (String.◌∷◌ a
          (String.◌∷◌ b (String.◌∷◌ c (String.◌∷◌ d (String.◌∷◌ e (String.◌∷◌ f s)))))) =
      let digit = lib.digit_value in
      month_of a b (two (digit c) (digit d)) (two (digit e) (digit f))
  month_here _ = none

  unfoldable pub search_month : String → Option (ℕ × ℕ)
  unfolding month_here
  search_month String.[] = none
  search_month (String.◌∷◌ c s) =
      let rest = search_month s in
      elim (month_here (String.◌∷◌ c s)) [ some found ↦ some found | none ↦ rest ]

  unfoldable pub monthly_expiry : String → Option String
  unfolding search_month
  monthly_expiry name = elim (search_month name) [
    | none ↦ none
    | some (year, month) ↦
        if leb 1 month && leb month 12
        then elim (calculate_krx_monthly_option_expiry is_holiday year month) [
          | none ↦ none
          | some d ↦ some (lib.print_date d)
        ]
        else none
  ]

  -- The weekly code of the name, or else of the symbol.
  unfoldable pub weekly_code : String → String → Option (ℕ × ℕ × ℕ)
  unfolding search_weekly
  weekly_code symbol name = elim (search_weekly name) [
    | some found ↦ some found
    | none ↦ search_weekly symbol
  ]

  -- `_calculate_expiry`: a weekly code whose date does not exist falls back to the month.
  unfoldable pub calculate_expiry : String → String → Option String
  unfolding monthly_expiry weekly_code
  calculate_expiry symbol name = elim (weekly_code symbol name) [
    | none ↦ monthly_expiry name
    | some (yy, month, week) ↦
        elim (calculate_krx_weekly_option_expiry is_holiday (2000 + yy) month week) [
          | none ↦ monthly_expiry name
          | some d ↦ some (lib.print_date d)
        ]
  ]

  unfoldable pub parse_strike : String → Option Decimal
  parse_strike raw =
      if not (truthy (strip raw)) then none else elim (lib.parse_decimal (strip raw)) [
        | none ↦ none
        | some value ↦ if is_positive value then some value else none
      ]

  abbrev pub strike_of : List String → Option Decimal
  strike_of (_ ∷ acpr ∷ _) = parse_strike acpr
  strike_of _ = none

  -- The record of an option with its expiry, in the tables so far.
  unfoldable pub add_record :
      String
      → String
      → String
      → String
      → Option Decimal
      → KisOptionMasterParseResult
      → Result KisOptionMasterParseResult
  unfolding with_identity
  add_record prod_type symbol standard_code expiry strike p =
      let identity : KisOptionContractIdentity = record {
        shrn_iscd = symbol;
        stnd_iscd = given standard_code;
        expiry = expiry;
        option_type = info_type_to_option_type prod_type;
        strike = strike;
        info_type = given prod_type;
      } in
      if conflicts (lookup symbol p.identities) identity
      then raise kis_master_parse_error "Conflicting KIS identity for shrn_iscd."
      else ok (with_identity identity standard_code p)

  -- One line, by its stripped fields.
  unfoldable pub add_fields :
      List String → KisOptionMasterParseResult → Result KisOptionMasterParseResult
  unfolding add_record is_option_record calculate_expiry
  add_fields (prod_type ∷ symbol ∷ standard_code ∷ name ∷ more) p =
      if not (is_option_record prod_type symbol name)
      then ok p
      else elim (calculate_expiry symbol name) [
        | none ↦ ok p
        | some expiry ↦
            if not (truthy symbol) || not (truthy expiry)
            then ok p
            else add_record prod_type symbol standard_code expiry (strike_of more) p
      ]
  add_fields _ p = ok p

  unfoldable pub add_lines :
      List String → KisOptionMasterParseResult → Result KisOptionMasterParseResult
  unfolding add_fields split_on
  add_lines [] p = ok p
  add_lines (line ∷ lines) p =
      bind (add_fields (map strip (split_on is_bar line)) p) (λ q. add_lines lines q)

  unfoldable pub parse_kis_fo_idx_mst_result : String → Result KisOptionMasterParseResult
  unfolding add_lines split_on
  parse_kis_fo_idx_mst_result raw_content =
      if not (truthy (strip raw_content))
      then ok (record { legacy_contracts = []; identities = [] })
      else add_lines (split_on is_line_break raw_content)
          (record { legacy_contracts = []; identities = [] })
