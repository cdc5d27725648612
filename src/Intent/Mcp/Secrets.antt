-- ===== src/Intent/Mcp/Secrets.antt =====
-- internal/mcpintent/schema.go: a secret of the environment is never an argument of a server.
use ai_config_selector.Prelude.{
  ◌≡◌, sym, ap, ◌∙◌, inl, inr, List, [], ◌∷◌, All, All-map, All-Any, Any, ok,
}
use ai_config_selector.Prelude.Bytes.{Bytes}
use ai_config_selector.Prelude.Order.{bytes_order}
use ai_config_selector.Prelude.Distinct.{Distinct}
use ai_config_selector.Prelude.Sort.{IsSorted-Distinct}
use ai_config_selector.Intent.Environment
use ai_config_selector.Intent.Environment.{non_secret, EnvironmentError}
use ai_config_selector.Intent.Environment.Canonical.{canonical_environment-IsSafe}
use ai_config_selector.Intent.Executables
use ai_config_selector.Intent.Paths
use ai_config_selector.Intent.Mcp.{Server, Argument, argument_env, items, validate_references}
use ai_config_selector.Intent.Mcp.References.{validate_references-IsBound}

-- Two members of a list with distinct keys are equal if their keys are.
same_member {ℓ} :
    {A : Type 0} {K : Type ℓ} (key : A → K) (xs : List A) (a b : A)
    → Distinct key xs
    → Any (λ x. x ≡ a) xs
    → Any (λ x. x ≡ b) xs
    → key a ≡ key b
    → a ≡ b
same_member key [] a b d h k e = absurd h
same_member key (x ∷ xs) a b d (inl h) (inl k) e = sym h ∙ k
same_member key (x ∷ xs) a b d (inl h) (inr k) e =
    absurd (All-Any (λ y. y ≡ b) xs (All-map xs (λ y n q. n (ap key h ∙ e ∙ ap key (sym q))) d.0) k)
same_member key (x ∷ xs) a b d (inr h) (inl k) e =
    absurd
      (All-Any (λ y. y ≡ a) xs (All-map xs (λ y n q. n (ap key k ∙ sym e ∙ ap key (sym q))) d.0) h)
same_member key (x ∷ xs) a b d (inr h) (inr k) e = same_member key xs a b d.1 h k e

-- No server whose references were validated against the canonical form of a selection of the
-- environment is passed a secret as an argument: an entry with the identifier that an environment
-- argument names is not classified as a secret.
pub environment_argument-non_secret :
    (selected environment : List Environment.Entry) (servers : List Server)
    (executables : List Executables.Entry) (paths : List Paths.Entry) (u : Unit {0})
    → Environment.canonical selected ≡ ok environment
    → validate_references servers executables paths environment ≡ ok u
    → All
        (λ (s : Server).
          All
            (λ (a : Argument).
              a.kind ≡ argument_env
              → (e : Environment.Entry) → Any (λ x. x ≡ e) environment
              → e.id ≡ a.ref
              → e.classification ≡ non_secret)
            (items s.arguments))
        servers
environment_argument-non_secret selected environment servers executables paths u c h =
    let (sorted, destinations, safe) = canonical_environment-IsSafe selected environment c in
    let id : Environment.Entry → Bytes = λ e. e.id in
    let distinct = IsSorted-Distinct id environment sorted in
    All-map servers
      (λ s b.
        All-map (items s.arguments)
          (λ a bound kind e m q.
            let ((f, n, r, k), d) = bound.environment_bound kind in
            ap (λ (x : Environment.Entry). x.classification)
              (same_member id environment e f distinct m n (q ∙ sym r))
            ∙ k)
          b.arguments)
      (validate_references-IsBound servers executables paths environment u h)
