-- ===== src/Config.antt =====
-- src/ptfconfig.h, src/ptfconfig.C: the configuration. libconfig is a parameter: what `config_read_file`
-- makes of a path, or `none` where it fails.
pub mod Reload
mod Tests
use ptf.Prelude.{
  ℕ, ◌+◌, ◌-◌, ◌%◌, ◌^◌, Bool, true, false, ◌||◌, Option, none, some, List, [], ◌∷◌, ◌++◌, length,
  ltb, ◌==◌, if◌then◌else◌,
}
use ptf.Prelude.Int.{ℤ, pos, negsuc, ltb_ℤ}
use ptf.Http.Text.{Text}

-- What a file has under the names that `init` looks up.
pub record Entries : Type 0 where
  pub manager_port : Option ℤ
  pub listen : Option Text
  pub workers : Option ℤ

-- `TPTFConfig`
pub record Config : Type 0 where
  pub conf : Option Entries
  pub manage_port : ℤ
  pub listen_addr : Text
  pub n_worker : ℤ

-- `TPTFConfig::TPTFConfig`; `junk` is what the unassigned `m_nWorker` holds. The address is "0.0.0.0".
unfoldable pub new_config : ℤ → Config
new_config junk = record {
  conf = none;
  manage_port = pos 13388;
  listen_addr = b'0' ∷ b'.' ∷ b'0' ∷ b'.' ∷ b'0' ∷ b'.' ∷ b'0' ∷ [];
  n_worker = junk;
}

-- `config_lookup_int` and `config_lookup_string`: the variable keeps its value where the name is missing.
abbrev pub looked_up : {A : Type 0} → Option A → A → A
looked_up none old = old
looked_up (some new) old = new

abbrev pub workers_in_range : ℤ → ℤ
workers_in_range n = if ltb_ℤ (pos 65535) n || ltb_ℤ n (pos 1) then pos 4 else n

-- The path of a file: `none` is one that `filePath` has no room for. `home` is PTF_HOME.
unfoldable pub file_path : Text → Text → Option Text
file_path home [] = some []
file_path home (c ∷ cs) =
    let path = home ++ b'/' ∷ b'e' ∷ b't' ∷ b'c' ∷ b'/' ∷ c ∷ cs in
    if c == b'/' then some (c ∷ cs) else if ltb (length path) 512 then some path else none

-- The part of `init` behind `config_read_file`
unfoldable pub load : Option Entries → Config → Bool × Config
load none c = (false, c)
load (some e) c = (
  true,
  record {
    conf = some e;
    manage_port = looked_up e.manager_port c.manage_port;
    listen_addr = looked_up e.listen c.listen_addr;
    n_worker = workers_in_range (looked_up e.workers c.n_worker);
  },
)

-- `init`; a file of `none` is NULL, and a result of `none` is a write behind `filePath`.
unfoldable pub init : (Text → Option Entries) → Text → Option Text → Config → Option (Bool × Config)
init read home none c = some (false, c)
init read home (some []) c = some (false, c)
init read home (some (ch ∷ cs)) c = elim (file_path home (ch ∷ cs)) [
  | none ↦ none
  | some path ↦ some (load (read path) c)
]

-- `getManagerPort`: `m_managePort & 0xffff`, in two's complement
pub get_manager_port : Config → ℕ
get_manager_port c = elim c.manage_port [ pos n ↦ n % 65536 | negsuc n ↦ 65535 - n % 65536 ]
