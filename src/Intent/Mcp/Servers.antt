-- ===== src/Intent/Mcp/Servers.antt =====
-- Canonical of internal/mcpintent/schema.go on the list of servers.
use ai_config_selector.Prelude.{
  ℕ, ◌≤◌, ◌+◌, true, false, not, ◌≡◌, ◌||◌, ◌≢◌, sym, List, [], ◌∷◌, All, ok, >>=-parts,
  refuse_if-parts, ok-injective, arith, ||_elim_false, subst, length, ltb,
}
use mathlib.Core.List.{Permᴰ}
use mathlib.Core.List.Permᴰ
use ai_config_selector.Prelude.Bytes.{Bytes, seen}
use ai_config_selector.Prelude.Order.{bytes_order}
use ai_config_selector.Prelude.Distinct.{All-perm, Distinct, Fresh, Fresh-uncons}
use ai_config_selector.Prelude.Sort.{sort_by, sort_by-perm, sort_by-IsSorted, IsSorted}
use ai_config_selector.Text.{entry_id_matches}
use ai_config_selector.Intent.Mcp.{
  Server, bad_server_id, too_many_servers, item_count, canonical_server, canonical_servers,
  canonical, maximum_servers, maximum_aggregate_items,
}
use ai_config_selector.Intent.Mcp.Canonical.{IsCanonicalServer, canonical_server-IsCanonicalServer}

abbrev pub total : List Server → ℕ
total [] = 0
total (s ∷ ss) = item_count s + total ss

abbrev pub CanonicalServers : List Server → List Server → Type 0
CanonicalServers [] [] = Unit
CanonicalServers (s ∷ ss) (t ∷ ts) = IsCanonicalServer s t × CanonicalServers ss ts
CanonicalServers _ _ = ⊥

abbrev pub id_of : Server → Bytes
id_of s = s.id

record IsChecked (ids : List Bytes) (aggregate : ℕ) (ss ts : List Server) : Type 0 where
  few : aggregate + total ss ≤ maximum_aggregate_items
  servers : CanonicalServers ss ts
  valid : All (λ (t : Server). entry_id_matches t.id ≡ true) ts
  distinct : Distinct id_of ts
  fresh : Fresh id_of ids ts

canonical_servers-IsChecked :
    (ids : List Bytes) (aggregate : ℕ) (ss ts : List Server)
    → aggregate ≤ maximum_aggregate_items
    → canonical_servers ids aggregate ss ≡ ok ts
    → IsChecked ids aggregate ss ts
unfolding canonical_servers
canonical_servers-IsChecked ids aggregate [] ts l h =
    subst (IsChecked ids aggregate []) (ok-injective h)
      (record { few = ground arith; servers = tt; valid = tt; distinct = tt; fresh = tt })
canonical_servers-IsChecked ids aggregate (s ∷ ss) ts l h =
    let (a, h₁) =
      refuse_if-parts (not (entry_id_matches s.id) || seen ids s.id) bad_server_id _ h in
    let (t, b, h₂) = >>=-parts (canonical_server (aggregate + item_count s) s) _ h₁ in
    let (rest, c, h₃) =
      >>=-parts (canonical_servers (s.id ∷ ids) (aggregate + item_count s) ss) (λ xs. ok (t ∷ xs))
        h₂ in
    let (few, one) = canonical_server-IsCanonicalServer (aggregate + item_count s) s t b in
    let more = canonical_servers-IsChecked (s.id ∷ ids) (aggregate + item_count s) ss rest few c in
    let (m, n) = ||_elim_false (not (entry_id_matches s.id)) (seen ids s.id) a in
    let (u, v) = Fresh-uncons id_of s.id ids rest more.fresh in
    subst (IsChecked ids aggregate (s ∷ ss)) (ok-injective h₃) (record {
      few = ground (arith, more.few);
      servers = (one, more.servers);
      valid = (subst (λ i. entry_id_matches i ≡ true) (sym one.id) (ground arith), more.valid);
      distinct = (subst (λ i. All (λ (y : Server). i ≢ y.id) rest) (sym one.id) v, more.distinct);
      fresh = (subst (λ i. seen ids i ≡ false) (sym one.id) n, u);
    })

-- How a selection of MCP servers is returned.
pub record IsCanonicalSelection (ss ts : List Server) : Type 0 where
  pub few : length ss ≤ maximum_servers
  pub items : total ss ≤ maximum_aggregate_items
  pub checked : List Server
  pub servers : CanonicalServers ss checked
  pub same : Permᴰ checked ts
  pub valid : All (λ (t : Server). entry_id_matches t.id ≡ true) ts
  pub sorted : IsSorted id_of ts

-- If Canonical accepts MCP servers, there are at most 64 of them with at most 4096 references in
-- all, and it returns them in strictly ascending order of their valid identifiers. Each returned
-- server keeps its identifier and the order of its arguments, has the transport stdio and refers by
-- valid identifiers, and its inputs, environment references and disabled tools are those given,
-- valid and in strictly ascending order.
pub canonical_mcp-IsCanonicalSelection :
    (ss ts : List Server) → canonical ss ≡ ok ts → IsCanonicalSelection ss ts
unfolding canonical
canonical_mcp-IsCanonicalSelection ss ts h =
    let (a, h₁) = refuse_if-parts (ltb maximum_servers (length ss)) too_many_servers _ h in
    let (checked, c, h₂) =
      >>=-parts (canonical_servers [] 0 ss) (λ xs. ok (sort_by (λ (s : Server). s.id) xs)) h₁ in
    let k = canonical_servers-IsChecked [] 0 ss checked (omega arith) c in
    let same = Permᴰ.symm (sort_by-perm id_of checked) in
    subst (IsCanonicalSelection ss) (ok-injective h₂) (record {
      few = ground arith;
      items = ground (arith, k.few);
      checked = checked;
      servers = k.servers;
      same = same;
      valid = All-perm (λ (t : Server). entry_id_matches t.id ≡ true) same k.valid;
      sorted = sort_by-IsSorted id_of checked k.distinct;
    })
