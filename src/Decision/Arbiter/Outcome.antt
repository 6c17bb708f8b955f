-- ===== src/Decision/Arbiter/Outcome.antt =====
-- What the arbiter of core/decision/decision_arbiter.py decides.
use kospi200_project.Base.{
  ◌≤◌, String, ◌≡◌, refl, subst, none, some, List, [], ◌∷◌, ◌++◌, ◌⊎◌, inl, inr, ◌≢◌, arith,
  Bool-cases, Option-cases,
}
use kospi200_project.Base.Text.{◌==◌, eq_iff}
use kospi200_project.Base.Lists.{All, All-map, All-append}
use kospi200_project.Base.Dict.{lookup, insert, lookup-insert}
use kospi200_project.Decision.Arbiter.{
  Signal, instrument_key, sort_signals, Progress, start, arbitrate_one, arbitrate_all, arbitrate,
}
use kospi200_project.Decision.Arbiter.Sorting.{priority, IsSorted, sort_signals-IsSorted}

-- The signal stands in the list.
abbrev pub In : Signal → List Signal → Type 0
In s [] = ⊥
In s (t ∷ l) = (s ≡ t) ⊎ In s l

In-append_left : (s : Signal) (l r : List Signal) → In s l → In s (l ++ r)
In-append_left s [] r h = elim h [ ]
In-append_left s (t ∷ l) r (inl e) = inl e
In-append_left s (t ∷ l) r (inr h) = inr (In-append_left s l r h)

In-append_last : (s : Signal) (l : List Signal) → In s (l ++ s ∷ [])
In-append_last s [] = inl refl
In-append_last s (t ∷ l) = inr (In-append_last s l)

-- The claim on a signal's instrument.
abbrev Claimed : Progress → Signal → Signal → Type 0
Claimed p s c = lookup (instrument_key s) p.claims ≡ some c

-- What holds of the loop's variables, with the signals still to come.
record Inv (p : Progress) (rest : List Signal) : Type 0 where
  claim_key : (k : String) (c : Signal) → lookup k p.claims ≡ some c → instrument_key c ≡ k
  claim_in : (k : String) (c : Signal) → lookup k p.claims ≡ some c → In c p.approved
  claim_first :
      (k : String) (c : Signal)
      → lookup k p.claims ≡ some c
      → All (λ t. priority c ≤ priority t) rest
  same_side : All (λ s. (c : Signal) × Claimed p s c × (c.side ≡ s.side)) p.approved
  other_side :
      All
        (λ (s, _). (c : Signal) × Claimed p s c × (c.side ≢ s.side) × (priority c ≤ priority s))
        p.rejected

-- A new claim leaves the old ones.
claim_kept :
    (p : Progress) (s t c : Signal)
    → lookup (instrument_key s) p.claims ≡ none
    → Claimed p t c
    → lookup (instrument_key t) (insert (instrument_key s) s p.claims) ≡ some c
claim_kept p s t c free h = ground (
  arith,
  lookup-insert (instrument_key s) (instrument_key t) s p.claims,
  eq_iff (instrument_key s) (instrument_key t),
)

Inv-claim :
    (p : Progress) (s : Signal) (rest : List Signal)
    → IsSorted (s ∷ rest)
    → lookup (instrument_key s) p.claims ≡ none
    → Inv p (s ∷ rest)
    → Inv
        (record p {
          claims = insert (instrument_key s) s p.claims;
          approved = p.approved ++ s ∷ [];
        })
        rest
Inv-claim p s rest sorted free inv = record {
  claim_key = λ k c h. ground (
    arith,
    lookup-insert (instrument_key s) k s p.claims,
    eq_iff (instrument_key s) k,
    inv.claim_key k c,
  );
  claim_in = λ k c h. elim (Bool-cases (instrument_key s == k)) [
    | inl own ↦
        let same : s ≡ c = ground (arith, lookup-insert (instrument_key s) k s p.claims) in
        subst (λ x. In x (p.approved ++ s ∷ [])) same (In-append_last s p.approved)
    | inr other ↦
        In-append_left c p.approved (s ∷ [])
          (inv.claim_in k c (ground (arith, lookup-insert (instrument_key s) k s p.claims)))
  ];
  claim_first = λ k c h. elim (Bool-cases (instrument_key s == k)) [
    | inl own ↦
        let same : s ≡ c = ground (arith, lookup-insert (instrument_key s) k s p.claims) in
        subst (λ x. All (λ t. priority x ≤ priority t) rest) same sorted.0
    | inr other ↦
        (inv.claim_first k c (ground (arith, lookup-insert (instrument_key s) k s p.claims))).1
  ];
  same_side =
      All-append
        (λ t.
          (c : Signal) × (lookup (instrument_key t) (insert (instrument_key s) s p.claims) ≡ some c)
          × (c.side ≡ t.side))
        p.approved (s ∷ [])
        (All-map (λ t (c, h, e). (c, claim_kept p s t c free h, e)) p.approved inv.same_side)
        (
          (
            s,
            ground (
              arith,
              lookup-insert (instrument_key s) (instrument_key s) s p.claims,
              eq_iff (instrument_key s) (instrument_key s),
            ),
            refl,
          ),
          tt,
        );
  other_side =
      All-map (λ t (c, h, e, le). (c, claim_kept p s t.0 c free h, e, le)) p.rejected
        inv.other_side;
}

Inv-agree :
    (p : Progress) (s c : Signal) (rest : List Signal)
    → Claimed p s c
    → c.side ≡ s.side
    → Inv p (s ∷ rest)
    → Inv (record p { approved = p.approved ++ s ∷ [] }) rest
Inv-agree p s c rest claimed same inv = record {
  claim_key = inv.claim_key;
  claim_in = λ k d h. In-append_left d p.approved (s ∷ []) (inv.claim_in k d h);
  claim_first = λ k d h. (inv.claim_first k d h).1;
  same_side =
      All-append (λ t. (d : Signal) × Claimed p t d × (d.side ≡ t.side)) p.approved (s ∷ [])
        inv.same_side ((c, claimed, same), tt);
  other_side = inv.other_side;
}

Inv-clash :
    (p : Progress) (s c : Signal) (reason : String) (clashes : List String) (rest : List Signal)
    → Claimed p s c
    → c.side ≢ s.side
    → Inv p (s ∷ rest)
    → Inv (record p { rejected = p.rejected ++ (s, reason) ∷ []; clashes = clashes }) rest
Inv-clash p s c reason clashes rest claimed differ inv = record {
  claim_key = inv.claim_key;
  claim_in = inv.claim_in;
  claim_first = λ k d h. (inv.claim_first k d h).1;
  same_side = inv.same_side;
  other_side =
      All-append
        (λ (t, _). (d : Signal) × Claimed p t d × (d.side ≢ t.side) × (priority d ≤ priority t))
        p.rejected ((s, reason) ∷ []) inv.other_side
        ((c, claimed, differ, (inv.claim_first (instrument_key s) c claimed).0), tt);
}

Inv-one :
    (p : Progress) (s : Signal) (rest : List Signal)
    → IsSorted (s ∷ rest)
    → Inv p (s ∷ rest)
    → Inv (arbitrate_one p s) rest
unfolding arbitrate_one
Inv-one p s rest sorted inv = elim (Option-cases (lookup (instrument_key s) p.claims)) [
  | inl free ↦ rw (free, arbitrate_one) (Inv-claim p s rest sorted free inv)
  | inr (c, claimed) ↦ elim (Bool-cases (c.side == s.side)) [
    | inl same ↦
        rw (claimed, arbitrate_one, same)
          (Inv-agree p s c rest claimed ((eq_iff c.side s.side).0 same) inv)
    | inr differ ↦
        rw (claimed, arbitrate_one, differ)
          (Inv-clash p s c _ _ rest claimed (λ e. ground (arith, eq_iff c.side s.side)) inv)
  ]
]

Inv-all : (p : Progress) (l : List Signal) → IsSorted l → Inv p l → Inv (arbitrate_all p l) []
unfolding arbitrate_all
Inv-all p [] sorted inv = inv
Inv-all p (s ∷ l) sorted inv = Inv-all (arbitrate_one p s) l sorted.1 (Inv-one p s l sorted inv)

Inv-start : (l : List Signal) → Inv start l
unfolding lookup
Inv-start l = record {
  claim_key = λ k c h. cc;
  claim_in = λ k c h. cc;
  claim_first = λ k c h. cc;
  same_side = tt;
  other_side = tt;
}

final : (signals : List Signal) → Inv (arbitrate_all start (sort_signals signals)) []
final signals =
    Inv-all start (sort_signals signals) (sort_signals-IsSorted signals)
      (Inv-start (sort_signals signals))

-- Two signals do not clash: on one instrument they take one side.
abbrev pub Agree : Signal → Signal → Type 0
Agree a b = (instrument_key a ≢ instrument_key b) ⊎ (a.side ≡ b.side)

Claimed-Agree :
    (p : Progress) (a b : Signal)
    → ((c : Signal) × Claimed p a c × (c.side ≡ a.side))
    → ((c : Signal) × Claimed p b c × (c.side ≡ b.side))
    → Agree a b
Claimed-Agree p a b (c, h, e) (d, h', e') =
    elim (Bool-cases (instrument_key a == instrument_key b)) [
      | inl same ↦ inr (ground (arith, eq_iff (instrument_key a) (instrument_key b)))
      | inr other ↦ inl (λ same. ground (arith, eq_iff (instrument_key a) (instrument_key b)))
    ]

-- No two approved signals ask for different sides of one instrument.
pub arbitrate_no_clash :
    (signals : List Signal)
    → let approved = (arbitrate signals).approved_signals in
      All (λ a. All (Agree a) approved) approved
unfolding arbitrate
arbitrate_no_clash signals =
    let p = arbitrate_all start (sort_signals signals) in
    let sides = (final signals).same_side in
    All-map (λ a ha. All-map (λ b hb. Claimed-Agree p a b ha hb) p.approved sides) p.approved sides

-- Every rejected signal lost to an approved one on the same instrument, which takes the other side
-- and whose priority number is at most its own.
pub arbitrate_rejected :
    (signals : List Signal)
    → let r = arbitrate signals in
      All
        (λ (s, _).
          (c : Signal) × In c r.approved_signals
          × (instrument_key c ≡ instrument_key s)
          × (c.side ≢ s.side)
          × (priority c ≤ priority s))
        r.rejected_signals
unfolding arbitrate
arbitrate_rejected signals =
    let p = arbitrate_all start (sort_signals signals) in
    let inv = final signals in
    All-map
      (λ (s, _) (c, h, differ, le).
        (c, inv.claim_in (instrument_key s) c h, inv.claim_key (instrument_key s) c h, differ, le))
      p.rejected inv.other_side
