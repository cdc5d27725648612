-- ===== src/Launch/Runtime/Normal.antt =====
-- internal/launch/sandbox.go: what normalizeRuntimeAuthority admits.
use ai_config_selector.Launch.Runtime.{
  RuntimeAuthority, RuntimeError, no_authority, default_runtime_authority, deep_equal,
  deep_equal_iff, is_callback_port, allowed_authority, is_zero, narrow, normalize_runtime_authority,
  unsupported_authority, bad_ports, bad_callback,
}
use ai_config_selector.Prelude.{
  ◌≡◌, ◌↔◌, ◌⊎◌, inl, inr, refl, sym, ap, ◌∙◌, Bool, true, false, not, ◌&&◌, List, [], ◌∷◌, ok,
  ◌>>◌, refuse_if, refuse_if-parts, >>=-parts, map_err, map_err-eq-ok, Bool-cases, ok-injective,
  arith,
}
use ai_config_selector.Prelude.Int.{ℤ, pos, negsuc}
use ai_config_selector.Intent.Network.{canonical}

-- An authority that names a version: it is the default one but for the ports, which are canonical in
-- the result, and the callback, which has its one port.
abbrev pub Narrowed : RuntimeAuthority → RuntimeAuthority → Type 0
Narrowed v a =
    (ports : List ℤ) × (canonical v.loopback_ports ≡ ok ports)
    × (v ≡ allowed_authority v.loopback_ports v.codex_login_callback)
    × (v.codex_login_callback ≡ true → ports ≡ pos 1455 ∷ [])
    × (a ≡ allowed_authority ports v.codex_login_callback)

callback_port : (ports : List ℤ) → is_callback_port ports ≡ true → ports ≡ pos 1455 ∷ []
callback_port [] h = cc
callback_port (pos p ∷ []) h = ground arith
callback_port (negsuc p ∷ []) h = cc
callback_port (pos p ∷ q ∷ ps) h = cc
callback_port (negsuc p ∷ q ∷ ps) h = cc

callback_admitted :
    (on : Bool) (ports : List ℤ)
    → (on ≡ true → ports ≡ pos 1455 ∷ [])
    → (on && not (is_callback_port ports)) ≡ false
callback_admitted true ports h = rw (h refl) refl
callback_admitted false ports h = refl

last_refusal :
    (t : Bool) (e : RuntimeError) (a b : RuntimeAuthority)
    → (refuse_if t e >> ok a) ≡ ok b
    → (t ≡ false) × (a ≡ b)
last_refusal true e a b h = cc
last_refusal false e a b h = (refl, ok-injective h)

narrow-eq-ok :
    (v a : RuntimeAuthority) (ports : List ℤ)
    → narrow v ports ≡ ok a
    → (v ≡ allowed_authority v.loopback_ports v.codex_login_callback)
      × (v.codex_login_callback ≡ true → ports ≡ pos 1455 ∷ [])
      × (a ≡ allowed_authority ports v.codex_login_callback)
unfolding narrow
narrow-eq-ok v a ports h =
    let (c, h₂) =
      refuse_if-parts (v.codex_login_callback && not (is_callback_port ports)) bad_callback _ h in
    let (n, e) = last_refusal _ unsupported_authority _ a h₂ in
    let allowed = allowed_authority ports v.codex_login_callback in
    let narrowed : RuntimeAuthority = record v { loopback_ports = ports } in
    let same = (deep_equal_iff narrowed allowed).0 (ground arith) in
    let widened : v ≡ allowed_authority v.loopback_ports v.codex_login_callback =
      ap {A = RuntimeAuthority} (λ x. record x { loopback_ports = v.loopback_ports }) same in
    (widened, λ on. callback_port ports (ground arith), sym e ∙ same)

narrow-of :
    (v : RuntimeAuthority) (ports : List ℤ)
    → v ≡ allowed_authority v.loopback_ports v.codex_login_callback
    → (v.codex_login_callback ≡ true → ports ≡ pos 1455 ∷ [])
    → narrow v ports ≡ ok (allowed_authority ports v.codex_login_callback)
unfolding narrow
narrow-of v ports same callback =
    let allowed = allowed_authority ports v.codex_login_callback in
    let narrowed : RuntimeAuthority = record v { loopback_ports = ports } in
    let equal : narrowed ≡ allowed =
      ap {A = RuntimeAuthority} (λ x. record x { loopback_ports = ports }) same in
    let tested = (deep_equal_iff narrowed allowed).1 equal in
    let admitted = callback_admitted v.codex_login_callback ports callback in
    rw (admitted, tested) (ap ok equal)

zero_version : is_zero default_runtime_authority.version ≡ false
unfolding default_runtime_authority
zero_version = refl

-- An authority is admitted in two ways: it is empty, and the default one is used; or it is the default
-- authority except for its loopback ports and the flag of the login callback, the ports make a valid
-- selection, of which the canonical form is used, and with the flag they are the port 1455 alone.
-- Whatever else the authority names, the launch is refused.
pub normalize_runtime_authority_iff :
    (v a : RuntimeAuthority)
    → (normalize_runtime_authority v ≡ ok a)
      ↔ (((v ≡ no_authority) × (a ≡ default_runtime_authority)) ⊎ Narrowed v a)
unfolding normalize_runtime_authority
normalize_runtime_authority_iff v a = (forward, backward)
  where
    forward :
        normalize_runtime_authority v ≡ ok a
        → ((v ≡ no_authority) × (a ≡ default_runtime_authority)) ⊎ Narrowed v a
    forward h = elim (Bool-cases (is_zero v.version)) [
      | inl z ↦
          let (t, e) =
            last_refusal (not (deep_equal v no_authority)) unsupported_authority
              default_runtime_authority a (rw z at h) in
          inl ((deep_equal_iff v no_authority).0 (ground arith), sym e)
      | inr z ↦
          let (ports, listed, rest) =
            >>=-parts (map_err bad_ports (canonical v.loopback_ports)) (narrow v) (rw z at h) in
          let (same, callback, result) = narrow-eq-ok v a ports rest in
          inr (
            ports,
            map_err-eq-ok bad_ports (canonical v.loopback_ports) listed,
            same,
            callback,
            result,
          )
    ]

    backward :
        ((v ≡ no_authority) × (a ≡ default_runtime_authority)) ⊎ Narrowed v a
        → normalize_runtime_authority v ≡ ok a
    backward (inl (e, r)) =
        rw ((deep_equal_iff v no_authority).1 e, ap (λ x. is_zero x.version) e) (ap ok (sym r))
    backward (inr (ports, listed, same, callback, result)) =
        rw (ap (λ x. is_zero x.version) same ∙ zero_version, listed)
          (narrow-of v ports same callback ∙ ap ok (sym result))
