-- ===== src/Launch/Resolve/Safe.antt =====
-- internal/launch/path_grants.go: what holds of each grant that ResolveFilesystemGrants returns.
use ai_config_selector.Prelude.{
  Bool, true, false, not, ◌≡◌, ◌&&◌, ◌||◌, ◌==◌, refl, List, [], ◌∷◌, All, All-map, ok, refuse_if,
  >>=-parts, refuse_if-parts, ok-injective, subst, arith, ||_elim_false, Bool-cases, inl, inr,
  ==_iff,
}
use ai_config_selector.Prelude.Bytes.{Bytes, bytes_eq, bytes_eq→eq, bytes_eq_iff}
use ai_config_selector.Intent.Paths.{read_write, file, directory}
use ai_config_selector.Intent.Reference.{workspace_relative, local_absolute}
use ai_config_selector.GoPath.{clean}
use ai_config_selector.Launch.Paths.{within_or_equal, paths_overlap, protected_writable_root}
use ai_config_selector.Launch.Grants.{FilesystemGrant}
use ai_config_selector.Launch.Host.{
  Host, GrantError, Inspection, unsafe_path, wrong_type, several_links, unresolved, escapes_anchor,
  unsupported_root, overlaps_protected, system_root, overlaps_runtime_input, or_refuse, resolution,
  identity_from_file_info, inspect_grant_path, supported_local_grant_root,
}
use ai_config_selector.Launch.Resolve.{
  PathGrantIntent, ProtectedPath, Workspace, same_file, denies, any_denies, candidate_path,
  check_canonical, make_grant, resolve_intent, resolve_intents,
}

-- The grant neither overlaps the protected path nor is the same file under another name.
pub record IsApart (g : FilesystemGrant) (d : ProtectedPath) : Type 0 where
  pub no_overlap : paths_overlap g.path d.path ≡ false
  pub other_file : g.type ≡ file → d.exists ≡ true → same_file g.identity d.identity ≡ false

-- What a grant of the host satisfies, for the canonical workspace and home and the protected paths.
pub record IsGranted (host : Host) (workspace home : Bytes)
    (protected protected_writable : List ProtectedPath) (g : FilesystemGrant) : Type 0 where
  pub inside : g.workspace_relative ≡ true → within_or_equal workspace g.path ≡ true
  pub supported : g.workspace_relative ≡ false → supported_local_grant_root host home g.path ≡ true
  pub apart : All (IsApart g) protected
  pub no_system_root : g.access ≡ read_write → protected_writable_root g.path ≡ false
  pub apart_writable : g.access ≡ read_write → All (IsApart g) protected_writable
  pub one_link : g.access ≡ read_write → g.type ≡ file → g.identity.links ≡ 1

and_false : (a b : Bool) → (a && b) ≡ false → a ≡ true → b ≡ false
and_false true b h e = h
and_false false b h e = absurd (cc e)

-- A test that does not refuse, where the texts that it first compares are equal.
test_false : (a b : Bytes) (c : Bool) → (bytes_eq a b && c) ≡ false → a ≡ b → c ≡ false
test_false a b c h e = and_false (bytes_eq a b) c h ((bytes_eq_iff a b).1 e)

not-false : (b : Bool) → not b ≡ false → b ≡ true
not-false true h = refl
not-false false h = absurd (cc h)

last_refusal : (t : Bool) (e : GrantError) (u : Unit {0}) → refuse_if t e ≡ ok u → t ≡ false
last_refusal true e u h = absurd (cc h)
last_refusal false e u h = refl

any_denies-IsApart :
    (ds : List ProtectedPath) (g : FilesystemGrant)
    → any_denies ds g.path g.type g.identity ≡ false
    → All (IsApart g) ds
unfolding any_denies denies
any_denies-IsApart [] g h = tt
any_denies-IsApart (d ∷ ds) g h =
    let (this, rest) = ||_elim_false (denies g.path g.type g.identity d) _ h in
    let (o, f) = ||_elim_false (paths_overlap g.path d.path) _ this in
    (
      record {
        no_overlap = o;
        other_file = λ t e.
            and_false d.exists (same_file g.identity d.identity) (test_false g.type file _ f t) e;
      },
      any_denies-IsApart ds g rest,
    )

inspect_grant_path-links :
    (host : Host) (path want access : Bytes) (i : Inspection)
    → inspect_grant_path host path want access ≡ ok i
    → access ≡ read_write
    → want ≡ file
    → i.identity.links ≡ 1
unfolding inspect_grant_path identity_from_file_info
inspect_grant_path-links host path want access i h a t =
    let (witness, c, h₁) =
      >>=-parts (or_refuse (host.logical_components (clean path)) unsafe_path) _ h in
    let (canonical, d, h₂) =
      >>=-parts (resolution (host.eval_symlinks (clean path)) unresolved) _ h₁ in
    let (info, e, h₃) =
      >>=-parts (or_refuse (host.open_canonical canonical want) unsafe_path) _ h₂ in
    let (f, h₄) =
      refuse_if-parts
        ((bytes_eq want directory && not info.is_dir)
          || (bytes_eq want file && not info.is_regular))
        wrong_type _ h₃ in
    let (g, h₅) =
      refuse_if-parts (bytes_eq access read_write && (bytes_eq want file && not (info.links == 1)))
        several_links _ h₄ in
    let regular = not-false info.is_regular (
      test_false want file (not info.is_regular)
        (||_elim_false (bytes_eq want directory && not info.is_dir) _ f).1 t) in
    let single = not-false (info.links == 1) (
      test_false want file (not (info.links == 1))
        (test_false access read_write (bytes_eq want file && not (info.links == 1)) g a) t) in
    subst (λ (i : Inspection). i.identity.links ≡ 1) (ok-injective h₅)
      (rw regular ((==_iff info.links 1).0 single))

module _ (host : Host) (w : Workspace) (home : Bytes)
    (protected protected_writable : List ProtectedPath) where
  abbrev Granted : FilesystemGrant → Type 0
  Granted = IsGranted host w.canonical home protected protected_writable

  candidate_path-kind :
      (intent : PathGrantIntent) (c : Bytes)
      → candidate_path host w.canonical intent ≡ ok c
      → bytes_eq intent.reference_kind workspace_relative ≡ false
      → intent.reference_kind ≡ local_absolute
  unfolding candidate_path
  candidate_path-kind intent c h e =
      elim (Bool-cases (bytes_eq intent.reference_kind local_absolute)) [
        | inl f ↦ bytes_eq→eq intent.reference_kind local_absolute f
        | inr f ↦ ground arith
      ]

  check_canonical-IsGranted :
      (intent : PathGrantIntent) (candidate : Bytes) (i : Inspection) (u : Unit {0})
      → candidate_path host w.canonical intent ≡ ok candidate
      → (intent.access ≡ read_write → intent.type ≡ file → i.identity.links ≡ 1)
      → check_canonical host w home protected protected_writable intent i ≡ ok u
      → Granted (make_grant host w intent candidate i)
  unfolding check_canonical make_grant
  check_canonical-IsGranted intent candidate i u c links h =
      let g = make_grant host w intent candidate i in
      let (a, h₁) =
        refuse_if-parts
          (bytes_eq intent.reference_kind workspace_relative
            && not (within_or_equal w.canonical i.canonical))
          escapes_anchor _ h in
      let (b, h₂) =
        refuse_if-parts
          (bytes_eq intent.reference_kind local_absolute
            && not (supported_local_grant_root host home i.canonical))
          unsupported_root _ h₁ in
      let (d, h₃) =
        refuse_if-parts (any_denies protected i.canonical intent.type i.identity) overlaps_protected
          _ h₂ in
      let (s, h₄) =
        refuse_if-parts (bytes_eq intent.access read_write && protected_writable_root i.canonical)
          system_root _ h₃ in
      let p =
        last_refusal
          (bytes_eq intent.access read_write
            && any_denies protected_writable i.canonical intent.type i.identity)
          overlaps_runtime_input u h₄ in
      record {
        inside = λ r.
            not-false (within_or_equal w.canonical i.canonical)
              (and_false (bytes_eq intent.reference_kind workspace_relative) _ a r);
        supported = λ r. not-false (supported_local_grant_root host home i.canonical) (
            test_false intent.reference_kind local_absolute _ b
              (candidate_path-kind intent candidate c r));
        apart = any_denies-IsApart protected g d;
        no_system_root = λ e. test_false intent.access read_write _ s e;
        apart_writable = λ e.
            any_denies-IsApart protected_writable g (test_false intent.access read_write _ p e);
        one_link = links;
      }

  resolve_intent-IsGranted :
      (intent : PathGrantIntent) (g : FilesystemGrant)
      → resolve_intent host w home protected protected_writable intent ≡ ok g
      → Granted g
  unfolding resolve_intent
  resolve_intent-IsGranted intent g h =
      let (candidate, c, h₁) = >>=-parts (candidate_path host w.canonical intent) _ h in
      let (i, d, h₂) =
        >>=-parts (inspect_grant_path host candidate intent.type intent.access) _ h₁ in
      let (u, e, h₃) =
        >>=-parts (check_canonical host w home protected protected_writable intent i) _ h₂ in
      subst Granted (ok-injective h₃) (
        check_canonical-IsGranted intent candidate i u c
          (inspect_grant_path-links host candidate intent.type intent.access i d) e)

  pub resolve_intents-IsGranted :
      (intents : List PathGrantIntent) (gs : List FilesystemGrant)
      → resolve_intents host w home protected protected_writable intents ≡ ok gs
      → All Granted gs
  unfolding resolve_intents
  resolve_intents-IsGranted [] gs h = subst (All Granted) (ok-injective h) tt
  resolve_intents-IsGranted (intent ∷ intents) gs h =
      let (g, a, h₁) =
        >>=-parts (resolve_intent host w home protected protected_writable intent) _ h in
      let (rest, b, h₂) =
        >>=-parts (resolve_intents host w home protected protected_writable intents)
          (λ gs. ok (g ∷ gs)) h₁ in
      subst (All Granted) (ok-injective h₂)
        (resolve_intent-IsGranted intent g a, resolve_intents-IsGranted intents rest b)

  -- Being granted does not depend on being effective.
  pub IsGranted-effective :
      (g : FilesystemGrant) (e : Bool) → Granted g → Granted (record g { effective = e })
  IsGranted-effective g e h = record {
    inside = h.inside;
    supported = h.supported;
    apart =
        All-map protected (λ d a. record { no_overlap = a.no_overlap; other_file = a.other_file })
          h.apart;
    no_system_root = h.no_system_root;
    apart_writable = λ r.
        All-map protected_writable
          (λ d a. record { no_overlap = a.no_overlap; other_file = a.other_file })
          (h.apart_writable r);
    one_link = h.one_link;
  }
