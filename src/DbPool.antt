-- ===== src/DbPool.antt =====
-- src/connpool.h, src/connpool.C: a pool of database connections. soci is a parameter: whether `open` goes
-- through without an exception, for a connection and the number of calls before.
pub mod Opening
pub mod Closing
use ptf.Prelude.{ℕ, zero, suc, ◌+◌, Bool, true, false, Option, none, some, if◌then◌else◌}

-- The loop of `TDBConnPool::TDBConnPool`, at connection `i` with `left` to go, this one included, after
-- `calls` calls of `open`: a connection that cannot be opened is tried again. The result is the number of
-- calls, or `none` where the fuel ran out.
pub open_all : (opens : ℕ → ℕ → Bool) → (fuel i left calls : ℕ) → Option ℕ
open_all opens zero i left calls = none
open_all opens (suc fuel) i zero calls = some calls
open_all opens (suc fuel) i (suc left) calls =
    let next = open_all opens fuel (i + 1) left (calls + 1) in
    let again = open_all opens fuel i (suc left) (calls + 1) in
    if opens i calls then next else again

-- The constructor, for a pool of that size
pub open_pool : (opens : ℕ → ℕ → Bool) → (fuel size : ℕ) → Option ℕ
unfolding open_all
open_pool opens fuel size = open_all opens fuel 0 size 0

-- What soci's `connection_pool` does with its connections: `lease`, `give_back`, and the closing of one.
pub record SociPool (P : Type 0) : Type 0 where
  pub lease : P → ℕ × P
  pub give_back : ℕ → P → P
  pub close : ℕ → P → P

module _ {P : Type 0} (soci : SociPool P) where
  -- The loop of `~TDBConnPool`, from connection `i` on
  pub close_all : (i left : ℕ) → P → P
  close_all i zero p = p
  close_all i (suc left) p = close_all (i + 1) left (soci.close i p)

  -- `lease` and `give_back`
  abbrev pub lease : P → ℕ × P
  lease p = soci.lease p

  abbrev pub give_back : ℕ → P → P
  give_back index p = soci.give_back index p
