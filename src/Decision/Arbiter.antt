-- ===== src/Decision/Arbiter.antt =====
-- core/decision/decision_arbiter.py: `DecisionArbiter.arbitrate`. Enumerations stand as the texts of
-- their values and the strike as its printed text, which is all that the code reads of them.
pub mod Sorting
pub mod Outcome
pub mod Balance
use Prim.Native.String.{compare}
use text.Mathlib.Text.{is_lt}
use kospi200_project.Base.{
  ℕ, zero, String, Bool, true, false, not, ◌&&◌, ◌||◌, Option, none, some, List, [], ◌∷◌, ◌++◌,
  if◌then◌else◌, ltb, eqb,
}
use kospi200_project.Base.Int.{ℤ, ltb_ℤ, eqb_ℤ}
use kospi200_project.Base.Text.{◌==◌, append}
use kospi200_project.Base.Dict.{Dict, lookup, insert}

-- What the arbiter reads of a `CanonicalStrategySignal`.
pub record Signal : Type 0 where
  pub signal_id : String
  pub track_id : String
  pub asset_type : String
  pub strike : String
  pub option_type : Option String
  pub side : String
  pub qty : ℤ

pub record ArbitrationResult : Type 0 where
  pub approved_signals : List Signal
  pub rejected_signals : List (Signal × String)
  pub netted_clashes : List String

abbrev priority_table : Dict ℕ
priority_table =
    ("HEDGE_DELTA", 1)
    ∷ ("HEDGE_TAIL", 1)
    ∷ ("Track1", 2)
    ∷ ("Track6", 3)
    ∷ ("Track9", 3)
    ∷ ("Track3", 4)
    ∷ ("Track4", 4)
    ∷ ("Track7", 5)
    ∷ ("Track8", 5)
    ∷ ("Track2", 6)
    ∷ ("Track5", 6)
    ∷ []

-- `_get_priority`: a lower number goes first.
unfoldable pub get_priority : String → ℕ
get_priority track_id = elim (lookup track_id priority_table) [ some p ↦ p | none ↦ 99 ]

-- `_instrument_key`
unfoldable pub instrument_key : Signal → String
instrument_key s =
    let option_type : String = elim s.option_type [ some t ↦ t | none ↦ "NONE" ] in
    append s.asset_type (append "_" (append s.strike (append "_" option_type)))

-- The order of the sort keys `(priority, -qty, signal_id)`.
unfoldable pub key_lt : Signal → Signal → Bool
key_lt a b =
    let p = get_priority a.track_id in
    let q = get_priority b.track_id in
    ltb p q
    || (eqb p q
        && (ltb_ℤ b.qty a.qty || (eqb_ℤ a.qty b.qty && is_lt (compare a.signal_id b.signal_id))))

-- Python's `sorted`, which is stable: a signal stands before those that followed it and are not
-- smaller.
unfoldable pub insert_sorted : Signal → List Signal → List Signal
insert_sorted s [] = s ∷ []
insert_sorted s (t ∷ ts) = if key_lt t s then t ∷ insert_sorted s ts else s ∷ t ∷ ts

unfoldable pub sort_signals : List Signal → List Signal
sort_signals [] = []
sort_signals (s ∷ ss) = insert_sorted s (sort_signals ss)

-- The variables of the loop.
pub record Progress : Type 0 where
  pub claims : Dict Signal
  pub approved : List Signal
  pub rejected : List (Signal × String)
  pub clashes : List String

abbrev pub start : Progress
start = record { claims = []; approved = []; rejected = []; clashes = [] }

reject_reason : Signal → String
reject_reason existing =
    append "CLASH_NETTING_REJECTED: Subordinate to "
      (append existing.track_id (append " (" (append existing.side ")")))

clash_text : String → Signal → Signal → String
clash_text key existing s = append "Clash on " (
    append key (
      append ": Kept " (
        append existing.track_id (
          append "(" (
            append existing.side
              (append "), Rejected " (append s.track_id (append "(" (append s.side ")")))))))))

-- The body of the loop.
unfoldable pub arbitrate_one : Progress → Signal → Progress
unfolding reject_reason clash_text
arbitrate_one p s = elim (lookup (instrument_key s) p.claims) [
  | none ↦ record p {
    claims = insert (instrument_key s) s p.claims;
    approved = p.approved ++ s ∷ [];
  }
  | some existing ↦
      if not (existing.side == s.side)
      then record p {
        rejected = p.rejected ++ (s, reject_reason existing) ∷ [];
        clashes = p.clashes ++ clash_text (instrument_key s) existing s ∷ [];
      }
      else record p { approved = p.approved ++ s ∷ [] }
]

unfoldable pub arbitrate_all : Progress → List Signal → Progress
arbitrate_all p [] = p
arbitrate_all p (s ∷ ss) = arbitrate_all (arbitrate_one p s) ss

-- `arbitrate`; no signals give the empty result.
unfoldable pub arbitrate : List Signal → ArbitrationResult
arbitrate signals =
    let p = arbitrate_all start (sort_signals signals) in
    record {
      approved_signals = p.approved;
      rejected_signals = p.rejected;
      netted_clashes = p.clashes;
    }
