-- ===== src/Timeout/Chain.antt =====
-- The list that the nodes of src/timeoutqueue.C make.
use ptf.Prelude.{
  ℕ, ◌+◌, ◌≡◌, refl, sym, subst, ◌∙◌, ◌≢◌, true, some, List, [], ◌∷◌, arith, ◌==◌, ne→==,
}
use ptf.Prelude.Int.{ℤ, pos, ◌+ℤ◌}
use ptf.Timeout.{TimeoutNode, Memory, write, TimeoutQueue, en_tqueue}

-- From `a` on, the nodes at these addresses, linked both ways; `before` is the parent of the first.
abbrev pub Linked : Memory → (before a : ℕ) → List ℕ → Type 0
Linked mem before a [] = a ≡ 0
Linked mem before a (x ∷ xs) =
    (a ≡ x)
    × (x ≢ 0)
    × ((n : TimeoutNode) × (mem x ≡ some n) × (n.parent ≡ before) × Linked mem x n.next xs)

abbrev pub Absent : ℕ → List ℕ → Type 0
Absent a [] = Unit
Absent a (x ∷ xs) = (x ≢ a) × Absent a xs

pub write-ne : (a b : ℕ) (n : TimeoutNode) (mem : Memory) → b ≢ a → write a n mem b ≡ mem b
write-ne a b n mem ne = rw (ne→== b a ne)

-- Writing a node that is not on the list leaves the list.
pub write-Linked :
    (a : ℕ) (n : TimeoutNode) (mem : Memory) (before b : ℕ) (xs : List ℕ)
    → Absent a xs
    → Linked mem before b xs
    → Linked (write a n mem) before b xs
write-Linked a n mem before b [] away l = l
write-Linked a n mem before b (x ∷ xs) away (at, live, (m, found, par, rest)) = (
  at,
  live,
  (m, write-ne a x n mem away.0 ∙ found, par, write-Linked a n mem x m.next xs away.1 rest),
)

pub write_self : (a : ℕ) (n : TimeoutNode) (mem : Memory) → write a n mem a ≡ some n
write_self a n mem = rw (same a)
  where
    same : (k : ℕ) → (k == k) ≡ true
    same k = ground arith

-- Distinct addresses.
abbrev pub Apart : List ℕ → Type 0
Apart [] = Unit
Apart (x ∷ xs) = Absent x xs × Apart xs

-- What `enTqueue` does to a list that starts at `x`.
en_tqueue-in_front :
    (rand a x : ℕ) (xs : List ℕ) (size : ℤ) (mem : Memory) {n : TimeoutNode}
    → a ≢ 0
    → mem a ≡ some n
    → Linked mem 0 x (x ∷ xs)
    → Apart (a ∷ x ∷ xs)
    → (q' : TimeoutQueue) × (en_tqueue rand a (record { size = size; node = x; memory = mem })
        ≡ some q')
      × Linked q'.memory 0 q'.node (a ∷ x ∷ xs)
unfolding en_tqueue
en_tqueue-in_front rand a x xs size mem {n} live found (at, x_live, (h, x_found, par, rest))
      (away, apart) =
    let h' : TimeoutNode = record h { parent = a; name = h.time + rand } in
    let mem' : Memory = write x h' mem in
    let n' : TimeoutNode = record n { next = x; parent = 0 } in
    (
      record { size = size +ℤ pos 1; node = a; memory = write a n' mem' },
      rw (ne→== x 0 x_live, x_found, ne→== a x (λ e. away.0 (sym e)), found),
      (
        refl,
        live,
        (
          n',
          write_self a n' mem',
          refl,
          (
            refl,
            x_live,
            (
              h',
              write-ne a x n' mem' away.0 ∙ write_self x h' mem,
              refl,
              write-Linked a n' mem' x h.next xs away.1
                  (write-Linked x h' mem x h.next xs apart.0 rest),
            ),
          ),
        ),
      ),
    )

-- On a list that is linked both ways, `enTqueue` of a live node that is not on it, all addresses being
-- distinct, puts the node in front, with the links set both ways.
pub en_tqueue-Linked :
    (rand a : ℕ) (xs : List ℕ) (q : TimeoutQueue) {n : TimeoutNode}
    → a ≢ 0
    → q.memory a ≡ some n
    → Linked q.memory 0 q.node xs
    → Apart (a ∷ xs)
    → (q' : TimeoutQueue) × (en_tqueue rand a q ≡ some q') × Linked q'.memory 0 q'.node (a ∷ xs)
unfolding en_tqueue
en_tqueue-Linked rand a [] q {n} live found at apart = (
  record {
    size = q.size +ℤ pos 1;
    node = a;
    memory = write a (record n { parent = 0; next = 0 }) q.memory;
  },
  rw (at, found),
  (refl, live, (record n { parent = 0; next = 0 }, write_self a _ q.memory, refl, refl)),
)
en_tqueue-Linked rand a (x ∷ xs) q live found (at, x_live, cell) apart =
    subst
      (λ k.
        (q' : TimeoutQueue) × (en_tqueue rand a (record q { node = k }) ≡ some q')
        × Linked q'.memory 0 q'.node (a ∷ x ∷ xs))
      (sym at)
      (en_tqueue-in_front rand a x xs q.size q.memory live found (refl, x_live, cell) apart)
