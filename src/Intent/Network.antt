-- ===== src/Intent/Network.antt =====
-- internal/networkintent/network.go: the selection of loopback ports.
pub mod Canonical
use ai_config_selector.Prelude.{
  ℕ, Bool, true, false, ◌&&◌, ◌||◌, not, List, [], ◌∷◌, Option, none, some, Result, ok, err, ◌>>=◌,
  ◌>>◌, refuse_if, ltb, length,
}
use ai_config_selector.Prelude.Int.{ℤ, pos, ltb_ℤ, int_order}
use ai_config_selector.Prelude.Sort.{sort_by}

abbrev pub max_loopback_ports : ℕ
max_loopback_ports = 64

pub data NetworkError : Type 0 where
  too_many_ports port_out_of_range duplicate_port : NetworkError

abbrev pub int_eq : ℤ → ℤ → Bool
int_eq a b = not (ltb_ℤ a b) && not (ltb_ℤ b a)

-- i > 0 && ports[i-1] == port
abbrev pub repeats : Option ℤ → ℤ → Bool
repeats none port = false
repeats (some previous) port = int_eq previous port

-- The loop over the sorted ports; `previous` is ports[i-1].
unfoldable pub check_ports : Option ℤ → List ℤ → Result NetworkError (Unit {0})
check_ports previous [] = ok tt
check_ports previous (port ∷ ports) =
    let rest = check_ports (some port) ports in
    refuse_if (ltb_ℤ port (pos 1) || ltb_ℤ (pos 65535) port) port_out_of_range
    >> (refuse_if (repeats previous port) duplicate_port >> rest)

unfoldable pub canonical : List ℤ → Result NetworkError (List ℤ)
canonical loopback_ports = do
  refuse_if (ltb max_loopback_ports (length loopback_ports)) too_many_ports
  let ports = sort_by (λ p. p) loopback_ports
  check_ports none ports
  ok ports
