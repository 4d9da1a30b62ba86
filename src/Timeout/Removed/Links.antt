-- ===== src/Timeout/Removed/Links.antt =====
-- The writes to the neighbours of a node that `deTqueue` of src/timeoutqueue.C takes out.
use mathlib.Core.Option.{some-injective}
use ptf.Prelude.{ℕ, zero, suc, ◌≡◌, refl, sym, ap, ◌∙◌, ◌≢◌, some, List, [], ◌∷◌}
use ptf.Prelude.Int.{pos, ◌-ℤ◌}
use ptf.Timeout.{TimeoutNode, Memory, write, free, link_next, link_parent, TimeoutQueue, de_tqueue}
use ptf.Timeout.Chain.{Linked, Absent, write_self, write-ne}
use ptf.Timeout.Removed.Splice.{free-ne}

pub link_next_live :
    (p child : ℕ) (mem : Memory) (m : TimeoutNode)
    → p ≢ 0
    → mem p ≡ some m
    → link_next p child mem ≡ some (write p (record m { next = child }) mem)
link_next_live zero child mem m live found = absurd (live refl)
link_next_live (suc p) child mem m live found = rw (link_next, found) refl

pub link_parent_live :
    (y par : ℕ) (mem : Memory) (k : TimeoutNode)
    → y ≢ 0
    → mem y ≡ some k
    → link_parent y par mem ≡ some (write y (record k { parent = par }) mem)
link_parent_live zero par mem k live found = absurd (live refl)
link_parent_live (suc y) par mem k live found = rw (link_parent, found) refl

-- What `deTqueue` gives, once its links are set.
pub de_tqueue_gives :
    (a : ℕ) (q : TimeoutQueue) (n : TimeoutNode) (linked both : Memory)
    → a ≢ 0
    → q.memory a ≡ some n
    → link_next n.parent n.next q.memory ≡ some linked
    → link_parent n.next n.parent linked ≡ some both
    → de_tqueue a q ≡ some (record q { size = q.size -ℤ pos 1; memory = free a both })
unfolding de_tqueue
de_tqueue_gives zero q n linked both live found e e' = absurd (live refl)
de_tqueue_gives (suc a) q n linked both live found e e' = rw (de_tqueue, found, e, e') refl

-- Where `a` is the last node, and where `y` stands behind it.
module _ (p a : ℕ) (mem : Memory) (m n : TimeoutNode) (pa : p ≢ a) where
  abbrev hung : Memory
  hung = write p (record m { next = n.next }) mem

  last_same : (z : ℕ) → z ≢ p → z ≢ a → z ≢ n.next → free a hung z ≡ mem z
  last_same z np na ny = free-ne a z hung na ∙ write-ne p z (record m { next = n.next }) mem np

  last_after : free a hung p ≡ some (record m { next = n.next })
  last_after = free-ne a p hung pa ∙ write_self p (record m { next = n.next }) mem

  module _ (k : TimeoutNode) (yp : n.next ≢ p) (ya : n.next ≢ a) where
    abbrev tied : Memory
    tied = write n.next (record k { parent = p }) hung

    inner_same : (z : ℕ) → z ≢ p → z ≢ a → z ≢ n.next → free a tied z ≡ mem z
    inner_same z np na ny =
        free-ne a z tied na
        ∙ write-ne n.next z (record k { parent = p }) hung ny
        ∙ write-ne p z (record m { next = n.next }) mem np

    inner_after : free a tied p ≡ some (record m { next = n.next })
    inner_after =
        free-ne a p tied pa
        ∙ write-ne n.next p (record k { parent = p }) hung (λ e. yp (sym e))
        ∙ write_self p (record m { next = n.next }) mem

    inner_behind : free a tied n.next ≡ some (record k { parent = p })
    inner_behind = free-ne a n.next tied ya ∙ write_self n.next (record k { parent = p }) hung

-- Memory after `deTqueue` of `a`, as `spliced` wants it.
abbrev pub Unhooked : TimeoutQueue → (p a : ℕ) → TimeoutNode → TimeoutNode → Type 0
Unhooked q p a m n =
    (both : Memory) × (de_tqueue a q
      ≡ some (record q { size = q.size -ℤ pos 1; memory = free a both }))
    × (free a both p ≡ some (record m { next = n.next }))
    × ((k : TimeoutNode)
        → q.memory n.next ≡ some k
        → n.next ≢ 0
        → free a both n.next ≡ some (record k { parent = p }))
    × ((z : ℕ) → z ≢ p → z ≢ a → z ≢ n.next → free a both z ≡ q.memory z)

pub unhook :
    (q : TimeoutQueue) (p a : ℕ) (m n : TimeoutNode) (ys : List ℕ)
    → Absent p (a ∷ ys)
    → Absent a ys
    → (p ≢ 0) × (a ≢ 0)
    → q.memory p ≡ some m
    → q.memory a ≡ some n
    → n.parent ≡ p
    → Linked q.memory a n.next ys
    → Unhooked q p a m n
unhook q p a m n [] (ap_ne, _) na (p_live, live) p_found found par last =
    let pa : p ≢ a = λ e. ap_ne (sym e) in
    let up : link_next n.parent n.next q.memory ≡ some (hung p a q.memory m n pa) =
      rw par (link_next_live p n.next q.memory m p_live p_found) in
    (
      hung p a q.memory m n pa,
      de_tqueue_gives a q n (hung p a q.memory m n pa) (hung p a q.memory m n pa) live found up
          (ap (λ w. link_parent w n.parent (hung p a q.memory m n pa)) last),
      last_after p a q.memory m n pa,
      λ k at some_next. absurd (some_next last),
      last_same p a q.memory m n pa,
    )
unhook q p a m n (y ∷ ys) (ap_ne, (yp, _)) (ya, _) (p_live, live) p_found found par
      (at, y_live, (k, y_found, _, _)) =
    let pa : p ≢ a = λ e. ap_ne (sym e) in
    let np : n.next ≢ p = λ e. yp (sym at ∙ e) in
    let na : n.next ≢ a = λ e. ya (sym at ∙ e) in
    let here : q.memory n.next ≡ some k = ap q.memory at ∙ y_found in
    let linked = hung p a q.memory m n pa in
    let both = tied p a q.memory m n pa k np na in
    let up : link_next n.parent n.next q.memory ≡ some linked =
      rw par (link_next_live p n.next q.memory m p_live p_found) in
    let kept = write-ne p n.next (record m { next = n.next }) q.memory np ∙ here in
    let down : link_parent n.next n.parent linked ≡ some both =
      rw par (link_parent_live n.next p linked k (λ e. y_live (sym at ∙ e)) kept) in
    (
      both,
      de_tqueue_gives a q n linked both live found up down,
      inner_after p a q.memory m n pa k np na,
      (λ k' e some_next.
          inner_behind p a q.memory m n pa k np na
          ∙ ap {A = TimeoutNode} (λ c. some (record c { parent = p }))
              (some-injective k k' (sym here ∙ e))),
      inner_same p a q.memory m n pa k np na,
    )
