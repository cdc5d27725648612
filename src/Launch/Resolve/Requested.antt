-- ===== src/Launch/Resolve/Requested.antt =====
-- internal/launch/path_grants.go: the intents behind the grants.
use ai_config_selector.Prelude.{
  Bool, true, ◌≡◌, inl, inr, refl, sym, ◌∙◌, if◌then◌else◌, List, [], ◌∷◌, All, All-map, All-Any,
  Any, Any-map, ok, >>=-parts, ok-injective, subst, arith,
}
use ai_config_selector.Prelude.Bytes.{Bytes, bytes_eq, bytes_eq_iff}
use ai_config_selector.Intent.Paths.{read_write}
use ai_config_selector.Intent.Reference.{workspace_relative}
use ai_config_selector.Launch.Grants.{FilesystemGrant, reduce_filesystem_grants}
use ai_config_selector.Launch.Grants.Authority.{reduce_filesystem_grants-All}
use ai_config_selector.Launch.Host.{Host, inspect_grant_path}
use ai_config_selector.Launch.Resolve.{
  PathGrantIntent, ProtectedPath, Workspace, any_writable, resolve_protected_paths, candidate_path,
  check_canonical, make_grant, resolve_intent, resolve_intents,
}

-- The grant is of what the intent asks for.
pub record IsRequested (intent : PathGrantIntent) (g : FilesystemGrant) : Type 0 where
  pub id : g.id ≡ intent.id
  pub access : g.access ≡ intent.access
  pub type : g.type ≡ intent.type
  pub relative : g.workspace_relative ≡ bytes_eq intent.reference_kind workspace_relative

-- What is requested does not depend on being effective.
IsRequested-effective :
    (intent : PathGrantIntent) (g : FilesystemGrant) (e : Bool)
    → IsRequested intent g
    → IsRequested intent (record g { effective = e })
IsRequested-effective intent g e r = record {
  id = r.id;
  access = r.access;
  type = r.type;
  relative = r.relative;
}

abbrev pub IsWritable : FilesystemGrant → Type 0
IsWritable g = g.access ≡ read_write

any_writable-Any :
    (intents : List PathGrantIntent)
    → Any (λ (i : PathGrantIntent). i.access ≡ read_write) intents
    → any_writable intents ≡ true
unfolding any_writable
any_writable-Any [] h = absurd h
any_writable-Any (i ∷ is) (inl h) =
    let e : bytes_eq i.access read_write ≡ true = (bytes_eq_iff i.access read_write).1 h in
    rw e refl
any_writable-Any (i ∷ is) (inr h) = let e = any_writable-Any is h in ground arith

-- Where a grant is writable, so is the intent that asks for it.
any_writable-IsRequested :
    (intents : List PathGrantIntent) (gs : List FilesystemGrant)
    → All (λ g. Any (λ i. IsRequested i g) intents) gs
    → Any IsWritable gs
    → any_writable intents ≡ true
any_writable-IsRequested intents gs h =
    All-Any IsWritable gs (
      All-map gs (λ g k w. any_writable-Any intents (Any-map intents (λ i r. sym r.access ∙ w) k))
        h)

module _ (host : Host) (w : Workspace) (home : Bytes)
    (protected protected_writable : List ProtectedPath) where
  resolve_intent-IsRequested :
      (intent : PathGrantIntent) (g : FilesystemGrant)
      → resolve_intent host w home protected protected_writable intent ≡ ok g
      → IsRequested intent g
  unfolding resolve_intent make_grant
  resolve_intent-IsRequested intent g h =
      let (candidate, c, h₁) = >>=-parts (candidate_path host w.canonical intent) _ h in
      let (i, d, h₂) =
        >>=-parts (inspect_grant_path host candidate intent.type intent.access) _ h₁ in
      let (u, e, h₃) =
        >>=-parts (check_canonical host w home protected protected_writable intent i) _ h₂ in
      subst (IsRequested intent) (ok-injective h₃)
        (record { id = refl; access = refl; type = refl; relative = refl })

  resolve_intents-IsRequested :
      (intents : List PathGrantIntent) (gs : List FilesystemGrant)
      → resolve_intents host w home protected protected_writable intents ≡ ok gs
      → All (λ g. Any (λ i. IsRequested i g) intents) gs
  unfolding resolve_intents
  resolve_intents-IsRequested [] gs h =
      subst (All (λ g. Any (λ i. IsRequested i g) [])) (ok-injective h) tt
  resolve_intents-IsRequested (intent ∷ intents) gs h =
      let (g, a, h₁) =
        >>=-parts (resolve_intent host w home protected protected_writable intent) _ h in
      let (rest, b, h₂) =
        >>=-parts (resolve_intents host w home protected protected_writable intents)
          (λ gs. ok (g ∷ gs)) h₁ in
      subst (All (λ g. Any (λ i. IsRequested i g) (intent ∷ intents))) (ok-injective h₂) (
        inl (resolve_intent-IsRequested intent g a),
        All-map rest (λ g k. inr k) (resolve_intents-IsRequested intents rest b),
      )

  pub reduced-IsRequested :
      (intents : List PathGrantIntent) (gs : List FilesystemGrant) (canonical access : Bytes)
      → resolve_intents host w home protected protected_writable intents ≡ ok gs
      → All (λ g. Any (λ i. IsRequested i g) intents) (reduce_filesystem_grants gs canonical access)
  reduced-IsRequested intents gs canonical access h =
      reduce_filesystem_grants-All (λ g. Any (λ i. IsRequested i g) intents)
        (λ g e. Any-map intents (λ i r. IsRequested-effective i g e r)) gs canonical access
        (resolve_intents-IsRequested intents gs h)

-- Where a grant is writable, all runtime inputs are protected.
pub inputs_of_writable :
    (host : Host) (intents : List PathGrantIntent) (gs : List FilesystemGrant)
    (writable : List Bytes) (ds : List ProtectedPath)
    → All (λ g. Any (λ i. IsRequested i g) intents) gs
    → resolve_protected_paths host [] (if any_writable intents then writable else []) ≡ ok ds
    → Any IsWritable gs
    → resolve_protected_paths host [] writable ≡ ok ds
inputs_of_writable host intents gs writable ds r h k =
    subst (λ t. resolve_protected_paths host [] (if t then writable else []) ≡ ok ds)
      (any_writable-IsRequested intents gs r k) h
