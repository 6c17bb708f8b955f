-- ===== src/Decision/Arbiter/Sorting.antt =====
-- The sort of core/decision/decision_arbiter.py: a permutation, by rising priority number.
use kospi200_project.Base.{ℕ, ◌≤◌, ◌≡◌, true, false, List, [], ◌∷◌, arith, Bool-cases, inl, inr}
use kospi200_project.Base.Lists.{All, All-map}
use mathlib.Core.List.Perm
use mathlib.Core.List.{Perm}
use kospi200_project.Decision.Arbiter.{Signal, get_priority, key_lt, insert_sorted, sort_signals}

abbrev pub priority : Signal → ℕ
priority s = get_priority s.track_id

pub insert_sorted-perm : (s : Signal) (l : List Signal) → Perm (insert_sorted s l) (s ∷ l)
unfolding insert_sorted
insert_sorted-perm s [] = Perm.refl (s ∷ [])
insert_sorted-perm s (t ∷ l) = elim (Bool-cases (key_lt t s)) [
  | inl later ↦ rw later (Perm.trans (Perm.cons t (insert_sorted-perm s l)) (Perm.swap s t l))
  | inr here ↦ rw here (Perm.refl (s ∷ t ∷ l))
]

pub sort_signals-perm : (l : List Signal) → Perm (sort_signals l) l
unfolding sort_signals
sort_signals-perm [] = Perm.refl []
sort_signals-perm (s ∷ l) =
    Perm.trans (insert_sorted-perm s (sort_signals l)) (Perm.cons s (sort_signals-perm l))

-- Each signal's priority number is at most those of the signals behind it.
abbrev pub IsSorted : List Signal → Type 0
IsSorted [] = Unit
IsSorted (s ∷ l) = All (λ t. priority s ≤ priority t) l × IsSorted l

key_lt-le : (s t : Signal) → key_lt t s ≡ true → priority t ≤ priority s
unfolding key_lt
key_lt-le s t h = ground arith

not_key_lt-le : (s t : Signal) → key_lt t s ≡ false → priority s ≤ priority t
unfolding key_lt
not_key_lt-le s t h = ground arith

insert_sorted-All :
    (n : ℕ) (s : Signal) (l : List Signal)
    → n ≤ priority s
    → All (λ t. n ≤ priority t) l
    → All (λ t. n ≤ priority t) (insert_sorted s l)
unfolding insert_sorted
insert_sorted-All n s [] h a = (h, tt)
insert_sorted-All n s (t ∷ l) h a = elim (Bool-cases (key_lt t s)) [
  | inl later ↦ rw later (a.0, insert_sorted-All n s l h a.1)
  | inr here ↦ rw here (h, a)
]

insert_sorted-IsSorted : (s : Signal) (l : List Signal) → IsSorted l → IsSorted (insert_sorted s l)
unfolding insert_sorted
insert_sorted-IsSorted s [] h = (tt, tt)
insert_sorted-IsSorted s (t ∷ l) h = elim (Bool-cases (key_lt t s)) [
  | inl later ↦
      rw later (
        insert_sorted-All (priority t) s l (key_lt-le s t later) h.0,
        insert_sorted-IsSorted s l h.1,
      )
  | inr here ↦
      let le = not_key_lt-le s t here in
      rw here ((le, All-map (λ u (b : priority t ≤ priority u). omega arith) l h.0), h)
]

pub sort_signals-IsSorted : (l : List Signal) → IsSorted (sort_signals l)
unfolding sort_signals
sort_signals-IsSorted [] = tt
sort_signals-IsSorted (s ∷ l) = insert_sorted-IsSorted s (sort_signals l) (sort_signals-IsSorted l)
