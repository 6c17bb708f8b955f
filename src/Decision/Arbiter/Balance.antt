-- ===== src/Decision/Arbiter/Balance.antt =====
-- The arbiter of core/decision/decision_arbiter.py loses no signal and invents none.
use kospi200_project.Base.{
  String, ◌≡◌, refl, List, [], ◌∷◌, ◌++◌, map, inl, inr, arith, Bool-cases, Option-cases,
}
use kospi200_project.Base.Text.{◌==◌}
use kospi200_project.Base.Lists.{length, length-append}
use kospi200_project.Base.Dict.{lookup}
use mathlib.Core.List.Perm
use mathlib.Core.List.{
  Perm, append_assoc, append-nil, perm_middle, perm_append_singleton, map-append,
}
use kospi200_project.Decision.Arbiter.{
  Signal, instrument_key, sort_signals, Progress, start, arbitrate_one, arbitrate_all, arbitrate,
  reject_reason, clash_text,
}
use kospi200_project.Decision.Arbiter.Sorting.{sort_signals-perm}

-- The rejected signals without their reasons.
abbrev pub signals_of : List (Signal × String) → List Signal
signals_of l = map (λ e. e.0) l

-- All signals that the loop has decided on.
abbrev decided : Progress → List Signal
decided p = p.approved ++ signals_of p.rejected

approve-perm : (a r : List Signal) (s : Signal) → Perm ((a ++ s ∷ []) ++ r) (s ∷ (a ++ r))
approve-perm a r s = rw append_assoc (perm_middle a r)

reject-perm :
    (a : List Signal) (r : List (Signal × String)) (s : Signal) (reason : String)
    → Perm (a ++ signals_of (r ++ (s, reason) ∷ [])) (s ∷ (a ++ signals_of r))
reject-perm a r s reason =
    rw (map-append, ← append_assoc) (perm_append_singleton s (a ++ signals_of r))

one-perm : (p : Progress) (s : Signal) → Perm (decided (arbitrate_one p s)) (s ∷ decided p)
unfolding arbitrate_one
one-perm p s = elim (Option-cases (lookup (instrument_key s) p.claims)) [
  | inl free ↦ rw (free, arbitrate_one) (approve-perm p.approved (signals_of p.rejected) s)
  | inr (c, claimed) ↦ elim (Bool-cases (c.side == s.side)) [
    | inl same ↦
        rw (claimed, arbitrate_one, same) (approve-perm p.approved (signals_of p.rejected) s)
    | inr differ ↦
        rw (claimed, arbitrate_one, differ) (reject-perm p.approved p.rejected s (reject_reason c))
  ]
]

all-perm : (p : Progress) (l : List Signal) → Perm (decided (arbitrate_all p l)) (decided p ++ l)
unfolding arbitrate_all
all-perm p [] = rw append-nil (Perm.refl (decided p))
all-perm p (s ∷ l) =
    Perm.trans (all-perm (arbitrate_one p s) l)
      (Perm.trans (Perm.append_right l (one-perm p s)) (Perm.symm (perm_middle (decided p) l)))

one_counted :
    (p : Progress) (s : Signal)
    → length p.clashes ≡ length p.rejected
    → length (arbitrate_one p s).clashes ≡ length (arbitrate_one p s).rejected
unfolding arbitrate_one
one_counted p s h = elim (Option-cases (lookup (instrument_key s) p.claims)) [
  | inl free ↦ ground arith
  | inr (c, claimed) ↦ elim (Bool-cases (c.side == s.side)) [
    | inl same ↦ ground arith
    | inr differ ↦
        rw (claimed, arbitrate_one, differ)
          (omega (
            arith,
            h,
            length-append p.rejected ((s, reject_reason c) ∷ []),
            length-append p.clashes (clash_text (instrument_key s) c s ∷ []),
          ))
  ]
]

clashes_counted :
    (p : Progress) (l : List Signal)
    → length p.clashes ≡ length p.rejected
    → length (arbitrate_all p l).clashes ≡ length (arbitrate_all p l).rejected
unfolding arbitrate_all
clashes_counted p [] h = h
clashes_counted p (s ∷ l) h = clashes_counted (arbitrate_one p s) l (one_counted p s h)

-- No signal is lost or invented: the approved and the rejected ones together are the given ones,
-- each as often as it was given, and there is one clash text for each rejected signal.
pub arbitrate-perm :
    (signals : List Signal)
    → let r = arbitrate signals in
      Perm (r.approved_signals ++ signals_of r.rejected_signals) signals
      × (length r.netted_clashes ≡ length r.rejected_signals)
unfolding arbitrate
arbitrate-perm signals = (
  Perm.trans (all-perm start (sort_signals signals)) (sort_signals-perm signals),
  clashes_counted start (sort_signals signals) refl,
)
