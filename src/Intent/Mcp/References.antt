-- ===== src/Intent/Mcp/References.antt =====
-- internal/mcpintent/schema.go: what ValidateReferences lets a server refer to.
use ai_config_selector.Prelude.{
  Bool, true, false, not, ◌≡◌, ◌||◌, inl, inr, refl, sym, ap, ◌∙◌, Option, none, some, List, [],
  ◌∷◌, All, Any, Any-map, ok, refuse_if, >>=-parts, refuse_if-parts, arith, Bool-cases,
  ||_elim_false, if◌then◌else◌,
}
use ai_config_selector.Prelude.Bytes.{Bytes, bytes_eq, bytes_eq→eq, bytes_eq_iff, seen, ne→bytes_eq}
use ai_config_selector.Prelude.Order.{bytes_order}
use ai_config_selector.Intent.Environment
use ai_config_selector.Intent.Environment.{non_secret, EnvironmentError}
use ai_config_selector.Intent.Executables
use ai_config_selector.Intent.Paths
use ai_config_selector.Intent.Mcp.{
  Server, Argument, McpError, argument_path, argument_env, items, executable_selected,
  path_selected, environment_by_id, or_else, check_inputs, check_environment, check_argument,
  check_arguments, secret_or_absent, validate_references, unselected_executable, unselected_input,
  unselected_environment, undeclared_path, undeclared_environment, is_none,
}

seen-Any : (ks : List Bytes) (k : Bytes) → seen ks k ≡ true → Any (λ x. x ≡ k) ks
unfolding seen
seen-Any [] k h = absurd (cc h)
seen-Any (x ∷ ks) k h = elim (Bool-cases (bytes_eq x k)) [
  | inl e ↦ inl (bytes_eq→eq x k e)
  | inr e ↦ inr (seen-Any ks k (ground arith))
]

path_selected-Any :
    (ps : List Paths.Entry) (k : Bytes)
    → path_selected ps k ≡ true
    → Any (λ (p : Paths.Entry). p.id ≡ k) ps
unfolding path_selected
path_selected-Any [] k h = absurd (cc h)
path_selected-Any (p ∷ ps) k h = elim (Bool-cases (bytes_eq p.id k)) [
  | inl e ↦ inl (bytes_eq→eq p.id k e)
  | inr e ↦ inr (path_selected-Any ps k (ground arith))
]

executable_selected-Any :
    (xs : List Executables.Entry) (k : Bytes)
    → executable_selected xs k ≡ true
    → Any (λ (x : Executables.Entry). x.id ≡ k) xs
unfolding executable_selected
executable_selected-Any [] k h = absurd (cc h)
executable_selected-Any (x ∷ xs) k h = elim (Bool-cases (bytes_eq x.id k)) [
  | inl e ↦ inl (bytes_eq→eq x.id k e)
  | inr e ↦ inr (executable_selected-Any xs k (ground arith))
]

-- The entry that the map holds for an identifier is an entry of the list with it.
environment_by_id-Any :
    (es : List Environment.Entry) (k : Bytes) (e : Environment.Entry)
    → environment_by_id es k ≡ some e
    → Any (λ x. x ≡ e) es × (e.id ≡ k)
unfolding environment_by_id
environment_by_id-Any [] k e h = absurd (cc h)
environment_by_id-Any (x ∷ es) k e h =
    go (environment_by_id-Any es k) (environment_by_id es k) refl h
  where
    go :
        ((y : Environment.Entry)
          → environment_by_id es k ≡ some y
          → Any (λ z. z ≡ y) es × (y.id ≡ k))
        → (o : Option Environment.Entry) → environment_by_id es k ≡ o
        → or_else o (if bytes_eq x.id k then some x else none) ≡ some e
        → Any (λ y. y ≡ e) (x ∷ es) × (e.id ≡ k)
    go rest (some y) q r = let (a, b) = rest e (q ∙ r) in (inr a, b)
    go rest none q r = elim (Bool-cases (bytes_eq x.id k)) [
      | inr f ↦ ground arith
      | inl f ↦
          let w : x ≡ e = ground arith in
          (inl w, ap (λ (z : Environment.Entry). z.id) (sym w) ∙ bytes_eq→eq x.id k f)
    ]

-- What an argument may be.
abbrev pub PathBound : List Paths.Entry → Server → Argument → Type 0
PathBound paths s a =
    Any (λ (p : Paths.Entry). p.id ≡ a.ref) paths × Any (λ r. r ≡ a.ref) (items s.input_refs)

abbrev pub EnvironmentBound : List Environment.Entry → Server → Argument → Type 0
EnvironmentBound environment s a =
    ((e : Environment.Entry) × Any (λ x. x ≡ e) environment
      × (e.id ≡ a.ref)
      × (e.classification ≡ non_secret))
    × Any (λ r. r ≡ a.ref) (items s.environment_refs)

pub record IsBoundArgument (paths : List Paths.Entry) (environment : List Environment.Entry)
    (s : Server) (a : Argument) : Type 0 where
  pub path_bound : a.kind ≡ argument_path → PathBound paths s a
  pub environment_bound : a.kind ≡ argument_env → EnvironmentBound environment s a

pub record IsBound (executables : List Executables.Entry) (paths : List Paths.Entry)
    (environment : List Environment.Entry) (s : Server) : Type 0 where
  pub executable : Any (λ (x : Executables.Entry). x.id ≡ s.executable_ref) executables
  pub inputs : All (λ r. Any (λ (p : Paths.Entry). p.id ≡ r) paths) (items s.input_refs)
  pub variables :
      All (λ r. Any (λ (e : Environment.Entry). e.id ≡ r) environment) (items s.environment_refs)
  pub arguments : All (IsBoundArgument paths environment s) (items s.arguments)

check_inputs-All :
    (paths : List Paths.Entry) (ids : List Bytes) (u : Unit {0})
    → check_inputs paths ids ≡ ok u
    → All (λ r. Any (λ (p : Paths.Entry). p.id ≡ r) paths) ids
unfolding check_inputs
check_inputs-All paths [] u h = tt
check_inputs-All paths (id ∷ ids) u h =
    let (a, k) = refuse_if-parts (not (path_selected paths id)) unselected_input _ h in
    (path_selected-Any paths id (ground arith), check_inputs-All paths ids u k)

check_environment-All :
    (environment : List Environment.Entry) (ids : List Bytes) (u : Unit {0})
    → check_environment environment ids ≡ ok u
    → All (λ r. Any (λ (e : Environment.Entry). e.id ≡ r) environment) ids
unfolding check_environment
check_environment-All environment [] u h = tt
check_environment-All environment (id ∷ ids) u h =
    let (a, k) =
      refuse_if-parts (is_none (environment_by_id environment id)) unselected_environment _ h in
    (go (environment_by_id environment id) refl a, check_environment-All environment ids u k)
  where
    go :
        (o : Option Environment.Entry)
        → environment_by_id environment id ≡ o
        → is_none o ≡ false
        → Any (λ (e : Environment.Entry). e.id ≡ id) environment
    go none q a = absurd (cc a)
    go (some e) q a =
        let (m, r) = environment_by_id-Any environment id e q in
        Any-map environment (λ x w. ap (λ (z : Environment.Entry). z.id) w ∙ r) m

refused : (t : Bool) (e : McpError) (u : Unit {0}) → refuse_if t e ≡ ok u → t ≡ false
refused true e u h = absurd (cc h)
refused false e u h = refl

check_argument-IsBoundArgument :
    (paths : List Paths.Entry) (environment : List Environment.Entry) (s : Server) (a : Argument)
    (u : Unit {0})
    → check_argument paths environment s a ≡ ok u
    → IsBoundArgument paths environment s a
unfolding check_argument
check_argument-IsBoundArgument paths environment s a u h = record {
  path_bound = λ e. path (ground (arith, bytes_eq_iff a.kind argument_path));
  environment_bound = λ e.
      variable (ne→bytes_eq a.kind argument_path (λ q. cc (sym q ∙ e)))
        (ground (arith, bytes_eq_iff a.kind argument_env));
}
  where
    path : bytes_eq a.kind argument_path ≡ true → PathBound paths s a
    path e =
        let t =
          refused (not (path_selected paths a.ref) || not (seen (items s.input_refs) a.ref))
            undeclared_path u (ground arith) in
        let (p, i) = ||_elim_false (not (path_selected paths a.ref)) _ t in
        (
          path_selected-Any paths a.ref (ground arith),
          seen-Any (items s.input_refs) a.ref (ground arith),
        )

    entry :
        (o : Option Environment.Entry)
        → environment_by_id environment a.ref ≡ o
        → secret_or_absent o ≡ false
        → (e : Environment.Entry) × Any (λ x. x ≡ e) environment
          × (e.id ≡ a.ref)
          × (e.classification ≡ non_secret)
    entry none q t = absurd (cc t)
    entry (some e) q t =
        let (m, r) = environment_by_id-Any environment a.ref e q in
        (e, m, r, bytes_eq→eq e.classification non_secret (ground arith))

    variable :
        bytes_eq a.kind argument_path ≡ false
        → bytes_eq a.kind argument_env ≡ true
        → EnvironmentBound environment s a
    variable f e =
        let t =
          refused
            (secret_or_absent (environment_by_id environment a.ref)
              || not (seen (items s.environment_refs) a.ref))
            undeclared_environment u (ground arith) in
        let (c, i) = ||_elim_false (secret_or_absent (environment_by_id environment a.ref)) _ t in
        (
          entry (environment_by_id environment a.ref) refl c,
          seen-Any (items s.environment_refs) a.ref (ground arith),
        )

check_arguments-All :
    (paths : List Paths.Entry) (environment : List Environment.Entry) (s : Server)
    (rest : List Argument) (u : Unit {0})
    → check_arguments paths environment s rest ≡ ok u
    → All (IsBoundArgument paths environment s) rest
unfolding check_arguments
check_arguments-All paths environment s [] u h = tt
check_arguments-All paths environment s (a ∷ rest) u h =
    let (v, c, k) = >>=-parts (check_argument paths environment s a) _ h in
    (
      check_argument-IsBoundArgument paths environment s a v c,
      check_arguments-All paths environment s rest u k,
    )

-- If ValidateReferences accepts a selection of MCP servers, then each server's executable is a
-- selected one, its inputs are selected paths and its variables selected entries of the environment;
-- a path argument names a selected path that the server declares as input, and an environment
-- argument a declared variable whose entry is not a secret.
pub validate_references-IsBound :
    (servers : List Server) (executables : List Executables.Entry) (paths : List Paths.Entry)
    (environment : List Environment.Entry) (u : Unit {0})
    → validate_references servers executables paths environment ≡ ok u
    → All (IsBound executables paths environment) servers
unfolding validate_references
validate_references-IsBound [] executables paths environment u h = tt
validate_references-IsBound (s ∷ ss) executables paths environment u h =
    let (a, h₁) =
      refuse_if-parts (not (executable_selected executables s.executable_ref)) unselected_executable
        _ h in
    let (v, b, h₂) = >>=-parts (check_inputs paths (items s.input_refs)) _ h₁ in
    let (w, c, h₃) = >>=-parts (check_environment environment (items s.environment_refs)) _ h₂ in
    let (x, d, h₄) = >>=-parts (check_arguments paths environment s (items s.arguments)) _ h₃ in
    (
      record {
        executable = executable_selected-Any executables s.executable_ref (ground arith);
        inputs = check_inputs-All paths (items s.input_refs) v b;
        variables = check_environment-All environment (items s.environment_refs) w c;
        arguments = check_arguments-All paths environment s (items s.arguments) x d;
      },
      validate_references-IsBound ss executables paths environment u h₄,
    )
