-- ===== src/Tests/Intent/Network.antt =====
-- internal/networkintent/network.go on two ports.
use ai_config_selector.Prelude.{ok, err, refl, ◌≡◌, ◌↔◌, [], ◌∷◌}
use ai_config_selector.Prelude.Int.{pos, negsuc, int_order}
use ai_config_selector.Prelude.Sort.{sort_by, insert_by}
use ai_config_selector.Intent.Network
use ai_config_selector.Intent.Network.{check_ports, port_out_of_range}
use ai_config_selector.Intent.Network.Canonical.{canonical_ports_iff, IsPortSet}

two_ports : Network.canonical (pos 8080 ∷ pos 3000 ∷ []) ≡ ok (pos 3000 ∷ pos 8080 ∷ [])
unfolding Network.canonical check_ports sort_by insert_by
two_ports = refl

negative_port : Network.canonical (negsuc 0 ∷ []) ≡ err port_out_of_range
unfolding Network.canonical check_ports sort_by insert_by
negative_port = refl

canonical_ports_iff_example :
    (Network.canonical (pos 8080 ∷ pos 3000 ∷ []) ≡ ok (pos 3000 ∷ pos 8080 ∷ []))
    ↔ IsPortSet (pos 8080 ∷ pos 3000 ∷ []) (pos 3000 ∷ pos 8080 ∷ [])
canonical_ports_iff_example =
    canonical_ports_iff (pos 8080 ∷ pos 3000 ∷ []) (pos 3000 ∷ pos 8080 ∷ [])
