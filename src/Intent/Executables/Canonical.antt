-- ===== src/Intent/Executables/Canonical.antt =====
-- Canonical of internal/executableintent/schema.go: what it accepts and what it returns.
use ai_config_selector.Prelude.{
  ok, ◌≡◌, ◌≢◌, ◌⊎◌, inl, inr, ℕ, refl, ◌∙◌, [], ◌∷◌, ◌++◌, arith, false, ap, sym, subst, List, All,
  true,
}
use ai_config_selector.Prelude.Order.{bytes_order}
use ai_config_selector.Intent.Schema.Canonical
use ai_config_selector.Prelude.Bytes.{Bytes, bytes_eq, bytes_eq→eq, contains_byte}
use ai_config_selector.GoPath.{slash, dot, dotdot, is_abs, clean}
use ai_config_selector.GoPath.Split.{append_sep-injective}
use ai_config_selector.GoPath.Stack.{IsName}
use ai_config_selector.Text.Classes.{matches-head, matches-contains_byte}
use ai_config_selector.Intent.Reference.{workspace_relative, local_absolute}
use ai_config_selector.Intent.Reference.Inside.{
  NamesPath, clean_relative-NamesPath, clean_absolute-NamesPath,
}
use ai_config_selector.Intent.Executables.{
  Entry, Reference, fixed_search_name, first_of_name, rest_of_name, refuses_search_name,
  refuses_relative, refuses_absolute, search_name_matches, validate, validate_reference,
  destination, schema, canonical, escaping, bad_root,
}
use ai_config_selector.Intent.Executables.Laws.{
  schema-Laws, validate-IsValid, Accepts-validate, Cases, validate_reference-Cases,
  search_case-parts, relative_case-IsCleaned, absolute_case-IsCleaned,
}

-- What an accepted reference names: a name on the fixed search path, one path element that is
-- neither `.` nor `..`, or an ordinary path below the workspace or below the root.
abbrev pub Resolvable : Reference → Type 0
Resolvable r =
    ((r.kind ≡ fixed_search_name) × (r.path ≡ []) × IsName r.name)
    ⊎ ((r.kind ≡ workspace_relative) × (r.name ≡ []) × NamesPath [] r.path)
    ⊎ ((r.kind ≡ local_absolute) × (r.name ≡ []) × NamesPath (slash ∷ []) r.path)

dotdot_head : (c : ℕ) (r : Bytes) → first_of_name c ≡ true → (c ∷ r ≢ dot) × (c ∷ r ≢ dotdot)
dotdot_head c r h = (λ e. ground arith, λ e. ground arith)

search_name_matches-IsName : (name : Bytes) → search_name_matches name ≡ true → IsName name
unfolding search_name_matches
search_name_matches-IsName name h =
    let (c, r, e, f) = matches-head first_of_name rest_of_name 254 name h in
    let (d, dd) = dotdot_head c r f in
    record {
      free = matches-contains_byte first_of_name rest_of_name 254 slash name refl refl h;
      not_empty = λ q. cc;
      not_dot = λ q. d (sym e ∙ q);
      not_dotdot = λ q. dd (sym e ∙ q);
    }

search_parts :
    (r : Reference)
    → refuses_search_name r ≡ false
    → (bytes_eq r.path [] ≡ true) × (search_name_matches r.name ≡ true)
unfolding refuses_search_name
search_parts r h = ground arith

relative_parts :
    (r : Reference)
    → refuses_relative r ≡ false
    → (bytes_eq r.name [] ≡ true) × (is_abs r.path ≡ false)
unfolding refuses_relative
relative_parts r h = ground arith

absolute_parts :
    (r : Reference)
    → refuses_absolute r ≡ false
    → (bytes_eq r.name [] ≡ true) × (is_abs r.path ≡ true)
unfolding refuses_absolute
absolute_parts r h = ground arith

Cases-Resolvable : (r : Reference) → Cases r r → Resolvable r
Cases-Resolvable r (inl (e, k)) =
    let (p, m) = search_parts r (search_case-parts r r k).0 in
    inl (
      bytes_eq→eq r.kind fixed_search_name e,
      bytes_eq→eq r.path [] p,
      search_name_matches-IsName r.name m,
    )
Cases-Resolvable r (inr (inl (e, f, k))) =
    let c = relative_case-IsCleaned r r k in
    let (n, a) = relative_parts r c.passes in
    inr (
      inl (
        bytes_eq→eq r.kind workspace_relative f,
        bytes_eq→eq r.name [] n,
        subst (NamesPath []) (sym (ap (λ (x : Reference). x.path) c.result))
            (clean_relative-NamesPath escaping r.path (clean r.path) a c.cleaned),
      ))
Cases-Resolvable r (inr (inr (e, f, g, k))) =
    let c = absolute_case-IsCleaned r r k in
    let (n, a) = absolute_parts r c.passes in
    inr (
      inr (
        bytes_eq→eq r.kind local_absolute g,
        bytes_eq→eq r.name [] n,
        subst (NamesPath (slash ∷ [])) (sym (ap (λ (x : Reference). x.path) c.result))
            (clean_absolute-NamesPath bad_root r.path (clean r.path) a c.cleaned),
      ))

-- An entry that the schema returns has a valid reference.
settled_reference :
    (c : Entry) → validate c ≡ ok c → validate_reference c.reference ≡ ok c.reference
settled_reference c h =
    let v = validate-IsValid c c h in
    v.validated ∙ ap ok (sym (ap (λ (x : Entry). x.reference) v.result))

-- If Canonical accepts an executable selection, then the reference of each entry of its result is
-- of one of three kinds: a fixed search name, with no path, that is one element other than `.` and
-- `..`; a workspace-relative path, with no name, of one to 128 ordinary names joined by slashes; or
-- a local-absolute path, with no name, of one to 128 ordinary names joined by slashes behind a
-- leading slash.
pub canonical_executables-Resolvable :
    (es cs : List Entry) → canonical es ≡ ok cs → All (λ e. Resolvable e.reference) cs
unfolding canonical
canonical_executables-Resolvable es cs h =
    Canonical.canonical-All schema schema-Laws (λ e. Resolvable e.reference)
      (λ c a. Cases-Resolvable c.reference (
        validate_reference-Cases c.reference c.reference
          (settled_reference c (Accepts-validate c c a))))
      es cs h

no_nul_kind : (r : Reference) → Resolvable r → contains_byte 0 r.kind ≡ false
no_nul_kind r (inl h) = rw h.0 (unfold contains_byte in refl)
no_nul_kind r (inr (inl h)) = rw h.0 (unfold contains_byte in refl)
no_nul_kind r (inr (inr h)) = rw h.0 (unfold contains_byte in refl)

no_nul_name : (r : Reference) → Cases r r → contains_byte 0 r.name ≡ false
unfolding search_name_matches
no_nul_name r (inl (e, k)) =
    matches-contains_byte first_of_name rest_of_name 254 0 r.name refl refl
      (search_parts r (search_case-parts r r k).0).1
no_nul_name r (inr (inl (e, f, k))) =
    rw (bytes_eq→eq r.name [] (relative_parts r (relative_case-IsCleaned r r k).passes).0)
      (unfold contains_byte in refl)
no_nul_name r (inr (inr (e, f, g, k))) =
    rw (bytes_eq→eq r.name [] (absolute_parts r (absolute_case-IsCleaned r r k).passes).0)
      (unfold contains_byte in refl)

-- Two entries that the tests on an entry return unchanged and that have one destination key have
-- one reference: the concatenation with NUL bytes by which duplicates are found confuses no two
-- references.
pub executable_destination_injective :
    (a b : Entry)
    → validate a ≡ ok a
    → validate b ≡ ok b
    → destination a ≡ destination b
    → a.reference ≡ b.reference
unfolding destination
executable_destination_injective a b h k e =
    let ra = a.reference in
    let rb = b.reference in
    let ca = validate_reference-Cases ra ra (settled_reference a h) in
    let cb = validate_reference-Cases rb rb (settled_reference b k) in
    let (kinds, r) =
      append_sep-injective 0 ra.kind rb.kind (ra.name ++ (0 ∷ ra.path)) (rb.name ++ (0 ∷ rb.path))
        (no_nul_kind ra (Cases-Resolvable ra ca)) (no_nul_kind rb (Cases-Resolvable rb cb)) e in
    let (names, paths) =
      append_sep-injective 0 ra.name rb.name ra.path rb.path (no_nul_name ra ca) (no_nul_name rb cb)
        r in
    λ i. record { kind = kinds i; name = names i; path = paths i }
