-- ===== src/Config/Tests.antt =====
-- A file that asks for 100000 workers.
use ptf.Prelude.{◌≡◌, refl, none, some, [], ◌∷◌}
use ptf.Prelude.Int.{pos, negsuc}
use ptf.Config.{Entries, new_config, init, load, get_manager_port}
use ptf.Config.Reload.{Loaded, init-Loaded}

abbrev greedy : Entries
greedy = record { manager_port = some (pos 70000); listen = none; workers = some (pos 100000) }

init-Loaded_example :
    Loaded
      (new_config (negsuc 5))
      (init (λ path. some greedy) (b'/' ∷ b'p' ∷ []) (some (b'c' ∷ [])) (new_config (negsuc 5)))
init-Loaded_example =
    init-Loaded (λ path. some greedy) (b'/' ∷ b'p' ∷ []) (some (b'c' ∷ [])) (new_config (negsuc 5))

-- It gets 4, and the port is cut down to 16 bits.
load-greedy : (load (some greedy) (new_config (negsuc 5))).1.n_worker ≡ pos 4
unfolding load
load-greedy = refl

port_greedy : get_manager_port (load (some greedy) (new_config (negsuc 5))).1 ≡ 4464
unfolding load get_manager_port
port_greedy = refl
