-- ===== src/DbPool/Closing.antt =====
-- `~TDBConnPool` of src/connpool.C closes each connection once.
use ptf.Prelude.{
  ℕ, zero, suc, ◌+◌, ◌≡◌, sym, ◌∙◌, List, [], ◌∷◌, ◌++◌, append-nil, append_assoc, upto,
}
use ptf.DbPool.{SociPool, close_all}

-- A pool that keeps a list of the connections closed.
abbrev recording : SociPool (List ℕ)
recording = record { lease = λ p. (0, p); give_back = λ i p. p; close = λ i p. p ++ (i ∷ []) }

-- The destructor of a pool closes its connections in order, each exactly once.
pub close_all-upto : (i n : ℕ) (p : List ℕ) → close_all recording i n p ≡ p ++ upto i n
unfolding close_all
close_all-upto i zero p = sym (append-nil p)
close_all-upto i (suc n) p =
    close_all-upto (i + 1) n (p ++ (i ∷ [])) ∙ append_assoc p (i ∷ []) (upto (i + 1) n)
