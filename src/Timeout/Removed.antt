-- ===== src/Timeout/Removed.antt =====
-- `deTqueue` of src/timeoutqueue.C on the list that the nodes make.
mod Splice
mod Links
use ptf.Prelude.{ℕ, ◌+◌, ◌≡◌, refl, sym, ap, ◌∙◌, ◌≢◌, none, some, List, [], ◌∷◌, ◌++◌}
use ptf.Prelude.Int.{ℤ, pos, ◌-ℤ◌}
use ptf.Timeout.{Memory, write, free, link_next, link_parent, TimeoutQueue, de_tqueue}
use ptf.Timeout.Chain.{Linked, Apart}
use ptf.Timeout.Gone.{freed}
use ptf.Timeout.Removed.Splice.{cell_at, Apart-suffix, spliced}
use ptf.Timeout.Removed.Links.{link_parent_live, de_tqueue_gives, unhook}

-- On a list that is linked both ways, at distinct addresses, `deTqueue` of a node that is not the
-- first takes exactly that node out: the others stay linked both ways, in their order, behind the
-- same first node; the node is deleted and the size is one less.
pub de_tqueue-Linked :
    (xs : List ℕ) (p a : ℕ) (ys : List ℕ) (q : TimeoutQueue)
    → Apart (xs ++ (p ∷ a ∷ ys))
    → Linked q.memory 0 q.node (xs ++ (p ∷ a ∷ ys))
    → (q' : TimeoutQueue) × (de_tqueue a q ≡ some q')
      × (q'.node ≡ q.node)
      × (q'.size ≡ q.size -ℤ pos 1)
      × (q'.memory a ≡ none)
      × Linked q'.memory 0 q'.node (xs ++ (p ∷ ys))
de_tqueue-Linked xs p a ys q apart l =
    let (c, (_, p_live, (m, p_found, _, (_, live, (n, found, par, follow))))) =
      cell_at q.memory 0 q.node xs p (a ∷ ys) l in
    let (np, (na, _)) = Apart-suffix xs (p ∷ a ∷ ys) apart in
    let pa : p ≢ a = λ e. np.0 (sym e) in
    let (both, gives, p_after, y_after, same) =
      unhook q p a m n ys np na (p_live, live) p_found found par follow in
    (
      record q { size = q.size -ℤ pos 1; memory = free a both },
      gives,
      refl,
      refl,
      freed a both,
      spliced q.memory (free a both) p a m n ys p_found p_after follow y_after same 0 q.node xs
          apart l,
    )

-- On such a list `deTqueue` of the first node deletes it, and `m_node` still holds its address.
pub de_tqueue-first :
    (a : ℕ) (ys : List ℕ) (q : TimeoutQueue)
    → Apart (a ∷ ys)
    → Linked q.memory 0 q.node (a ∷ ys)
    → (q' : TimeoutQueue) × (de_tqueue a q ≡ some q') × (q'.node ≡ a) × (q'.memory a ≡ none)
de_tqueue-first a [] q apart (at, live, (n, found, par, last)) = (
  _,
  de_tqueue_gives a q n q.memory q.memory live found (ap (λ w. link_next w n.next q.memory) par)
      (ap (λ w. link_parent w n.parent q.memory) last),
  at,
  freed a q.memory,
)
de_tqueue-first a (y ∷ ys) q apart (at, live, (n, found, par, (at_y, y_live, (k, y_found, _, _)))) =
    let both : Memory = write n.next (record k { parent = n.parent }) q.memory in
    (
      _,
      de_tqueue_gives a q n q.memory both live found (ap (λ w. link_next w n.next q.memory) par) (
          link_parent_live n.next n.parent q.memory k (λ e. y_live (sym at_y ∙ e))
            (ap q.memory at_y ∙ y_found)),
      at,
      freed a both,
    )
