-- ===== src/Live/Dedup.antt =====
-- environments/live/execution/execution_event_deduplicator.py: `ExecutionEventDeduplicator`. The set
-- of the ids seen stands as a list.
use kospi200_project.Base.{
  String, ◌≡◌, Bool, true, false, not, ◌||◌, List, ◌∷◌, arith, ◌⊎◌, inl, inr, Bool-cases,
  if◌then◌else◌,
}
use kospi200_project.Base.Text.{◌==◌, eq_iff, strip, truthy, or_empty}
use kospi200_project.Base.Lists.{elem}
use kospi200_project.Base.Exn.{ok, is_ok, raise, Method, value_error}
use kospi200_project.Contracts.{ExecutionReport}

abbrev pub Seen : Type 0
Seen = List String

-- `str(report.execution_id or "").strip()`
abbrev pub execution_key : ExecutionReport → String
execution_key report = strip (or_empty report.execution_id)

unfoldable pub accept : ExecutionReport → Method Seen Bool
accept report seen =
    if not (truthy (execution_key report))
    then (raise value_error "EXECUTION_EVENT_ID_REQUIRED", seen)
    else if elem (execution_key report) seen
    then (ok false, seen)
    else (ok true, execution_key report ∷ seen)

unfoldable pub contains_id : String → Seen → Bool
contains_id execution_id seen = elem (strip execution_id) seen

-- For a report with an id: `accept` says whether the id is new; afterwards the gate knows that id and
-- exactly the ids that it knew before, and the same or any other report with that id is refused and
-- changes nothing. A report without an id raises and changes nothing.
pub accept_once :
    (report again : ExecutionReport) (seen : Seen) (k : String)
    → execution_key again ≡ execution_key report
    → let (r, seen') = accept report seen in
      ((truthy (execution_key report) ≡ true)
        × (r ≡ ok (not (elem (execution_key report) seen)))
        × (elem k seen' ≡ elem k seen || execution_key report == k)
        × (accept again seen' ≡ (ok false, seen')))
      ⊎ ((truthy (execution_key report) ≡ false) × (is_ok r ≡ false) × (seen' ≡ seen))
unfolding accept
accept_once report again seen k same = elim (Bool-cases (truthy (execution_key report))) [
  | inr empty ↦ inr (empty, ground arith, ground arith)
  | inl given ↦ inl (
    given,
    ground arith,
    ground (arith, eq_iff (execution_key report) k),
    ground (arith, same, eq_iff (execution_key report) (execution_key report)),
  )
]
