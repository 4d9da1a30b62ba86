-- ===== src/Timeout/Scan.antt =====
-- What `lookuptime` of src/timeoutqueue.C does with the nodes of the list.
use ptf.Prelude.{
  ℕ, zero, suc, ◌≤◌, ◌<◌, ◌≡◌, refl, sym, subst, ap, ◌∙◌, ◌⊎◌, inl, inr, false, Bool-cases, some,
  Option-cases, List, [], ◌∷◌, length, arith, leb,
}
use ptf.Timeout.{TimeoutNode, Memory, TimeoutQueue, de_tqueue, dangling, through, scan}
use ptf.Timeout.Chain.{Linked}
use ptf.Timeout.Gone.{Gone, de_tqueue-Gone}

-- The nodes of the list are all of a time before `now`.
abbrev pub AllOver : Memory → ℕ → List ℕ → Type 0
AllOver mem now [] = Unit
AllOver mem now (x ∷ xs) = ((n : TimeoutNode) → mem x ≡ some n → n.time < now) × AllOver mem now xs

-- Some node of the list is of the time `now` or later.
abbrev pub SomePending : Memory → ℕ → List ℕ → Type 0
SomePending mem now [] = ⊥
SomePending mem now (x ∷ xs) =
    ((n : TimeoutNode) × (mem x ≡ some n) × (now ≤ n.time)) ⊎ SomePending mem now xs

-- On a list of nodes whose times are all before now, with one more round of fuel than nodes, a pass
-- goes through the list, pushes nothing and changes nothing.
pub scan-AllOver :
    (fuel now before a : ℕ) (xs : List ℕ) (q : TimeoutQueue)
    → Linked q.memory before a xs
    → AllOver q.memory now xs
    → length xs < fuel
    → scan fuel now a q ≡ through [] q
unfolding scan
scan-AllOver zero now before a xs q l over h = absurd (omega arith)
scan-AllOver (suc fuel) now before zero [] q l over h = refl
scan-AllOver (suc fuel) now before (suc a) [] q l over h = absurd (omega arith)
scan-AllOver (suc fuel) now before zero (x ∷ xs) q (at, live, _) over h = absurd (live (sym at))
scan-AllOver (suc fuel) now before (suc a) (x ∷ xs) q (at, live, (n, found, par, rest)) over h =
    rw (ap q.memory at ∙ found, scan)
      (rw earlier (scan-AllOver fuel now x n.next xs q rest over.1 (omega arith)))
  where
    earlier : leb now n.time ≡ false
    earlier = ground (arith, over.0 n found)

-- On a list with a node of the time now or later, with one more round of fuel than nodes, a pass uses
-- a node that is not live.
pub scan-SomePending :
    (fuel now before a : ℕ) (xs : List ℕ) (q : TimeoutQueue)
    → Linked q.memory before a xs
    → SomePending q.memory now xs
    → length xs < fuel
    → scan fuel now a q ≡ dangling
unfolding scan
scan-SomePending zero now before a xs q l p h = absurd (omega arith)
scan-SomePending (suc fuel) now before zero [] q l p h = absurd p
scan-SomePending (suc fuel) now before zero (x ∷ xs) q (at, live, _) p h = absurd (live (sym at))
scan-SomePending (suc fuel) now before (suc a) [] q l p h = absurd p
scan-SomePending (suc fuel) now before (suc a) (x ∷ xs) q (at, live, (n, found, par, rest)) p h =
    elim (Bool-cases (leb now n.time)) [
      | inl pending ↦ elim (Option-cases (de_tqueue (suc a) q)) [
        | inl fails ↦ rw (ap q.memory at ∙ found, scan) (rw (pending, fails))
        | inr (q', gives) ↦
            rw (ap q.memory at ∙ found, scan)
              (rw (pending, gives) (rw (subst (Gone (suc a)) gives (de_tqueue-Gone a q))))
      ]
      | inr over ↦
          rw (ap q.memory at ∙ found, scan)
            (rw over (scan-SomePending fuel now x n.next xs q rest (behind over p) (omega arith)))
    ]
  where
    behind :
        leb now n.time ≡ false
        → ((m : TimeoutNode) × (q.memory x ≡ some m) × (now ≤ m.time)) ⊎ SomePending q.memory now xs
        → SomePending q.memory now xs
    behind over (inl (m, e, late)) = absurd (ground arith)
    behind over (inr later) = later
