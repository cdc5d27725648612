-- ===== src/Authority/Semantics/Supported.antt =====
-- internal/authority/plan.go: which semantics Supports accepts.
use ai_config_selector.Authority.Semantics.{
  TargetSemantics, ConfigurationDecision, codex_semantics, grok_semantics, devin_semantics,
  no_semantics, codex_mcp, grok_mcp, selected_stdio, disabled, deselect, found_selected, select_mcp,
  deep_equal, deep_equal_iff, supports_selected_mcp, supports, devin, codex, grok,
}
use ai_config_selector.Prelude.{
  true, false, ◌≡◌, ◌≢◌, ◌↔◌, ◌⊎◌, inl, inr, refl, ap, List, [], ◌∷◌, All, arith, ||_elim, ||_right,
  &&_elim, &&_intro, Bool-cases, ◌∙◌, if◌then◌else◌,
}
use ai_config_selector.Prelude.Bytes.{Bytes, bytes_eq, bytes_eq_iff}

-- The decision `id` is taken once, as disabled, and no decision has the mode of a selected server.
abbrev Selectable : Bytes → List ConfigurationDecision → Type 0
Selectable id [] = ⊥
Selectable id (d ∷ ds) =
    (d.mode ≢ selected_stdio)
    × (((d.id ≡ id) × (d.mode ≡ disabled) × All (λ e. e.id ≢ id) ds)
        ⊎ ((d.id ≢ id) × Selectable id ds))

-- What the loop leaves alone had nothing to change.
deselect_others :
    (id : Bytes) (ds es : List ConfigurationDecision)
    → All (λ e. e.id ≢ id) es
    → deselect id ds ≡ es
    → ds ≡ es
unfolding deselect
deselect_others id [] [] h e = refl
deselect_others id [] (x ∷ es) h e = cc
deselect_others id (d ∷ ds) [] h e = cc
deselect_others id (d ∷ ds) (x ∷ es) h e =
    let rest : deselect id ds ≡ es = cc in
    let same = deselect_others id ds es h.1 rest in
    ground (arith, bytes_eq_iff d.id id, bytes_eq_iff d.mode selected_stdio)

select_others :
    (id : Bytes) (es : List ConfigurationDecision) → All (λ e. e.id ≢ id) es → select_mcp id es ≡ es
unfolding select_mcp
select_others id [] h = refl
select_others id (x ∷ es) h = ground (arith, bytes_eq_iff x.id id, select_others id es h.1)

found_others :
    (id : Bytes) (es : List ConfigurationDecision)
    → All (λ e. e.id ≢ id) es
    → found_selected id es ≡ false
unfolding found_selected
found_others id [] h = refl
found_others id (x ∷ es) h = ground (arith, bytes_eq_iff x.id id, found_others id es h.1)

-- Only the semantics with the selected server become the baseline when it is taken back.
deselect-select :
    (id : Bytes) (ds es : List ConfigurationDecision)
    → Selectable id es
    → found_selected id ds ≡ true
    → deselect id ds ≡ es
    → ds ≡ select_mcp id es
unfolding deselect found_selected select_mcp
deselect-select id [] [] h f e = absurd h
deselect-select id [] (x ∷ es) h f e = cc
deselect-select id (d ∷ ds) [] h f e = cc
deselect-select id (d ∷ ds) (x ∷ es) (m, inl (at_x, off, others)) f e =
    let rest : deselect id ds ≡ es = cc in
    let same = deselect_others id ds es others rest in
    let unfound = found_others id es others in
    ground (
      arith,
      bytes_eq_iff d.id id,
      bytes_eq_iff x.id id,
      bytes_eq_iff d.mode selected_stdio,
      select_others id es others,
    )
deselect-select id (d ∷ ds) (x ∷ es) (m, inr (ne, h)) f e =
    let rest : deselect id ds ≡ es = cc in
    ground (arith, bytes_eq_iff d.id id, bytes_eq_iff x.id id, deselect-select id ds es h)

found-select :
    (id : Bytes) (es : List ConfigurationDecision)
    → Selectable id es
    → found_selected id (select_mcp id es) ≡ true
unfolding found_selected select_mcp
found-select id [] h = absurd h
found-select id (x ∷ es) (m, inl (at_x, off, others)) =
    ground (arith, bytes_eq_iff x.id id, bytes_eq_iff selected_stdio selected_stdio)
found-select id (x ∷ es) (m, inr (ne, h)) =
    ground (arith, bytes_eq_iff x.id id, found-select id es h)

deselect_select_others :
    (id : Bytes) (es : List ConfigurationDecision) → All (λ e. e.id ≢ id) es → deselect id es ≡ es
unfolding deselect
deselect_select_others id [] h = refl
deselect_select_others id (x ∷ es) h =
    ground (arith, bytes_eq_iff x.id id, deselect_select_others id es h.1)

deselect-of_select :
    (id : Bytes) (es : List ConfigurationDecision)
    → Selectable id es
    → deselect id (select_mcp id es) ≡ es
unfolding deselect select_mcp
deselect-of_select id [] h = absurd h
deselect-of_select id (x ∷ es) (m, inl (at_x, off, others)) = ground (
  arith,
  bytes_eq_iff x.id id,
  bytes_eq_iff selected_stdio selected_stdio,
  select_others id es others,
  deselect_select_others id es others,
)
deselect-of_select id (x ∷ es) (m, inr (ne, h)) =
    ground (arith, bytes_eq_iff x.id id, deselect-of_select id es h)

-- The semantics of a target with its MCP servers selected.
abbrev pub with_servers : Bytes → TargetSemantics → TargetSemantics
with_servers id v = record v { configuration = select_mcp id v.configuration }

supports_selected_mcp_iff :
    (v w : TargetSemantics) (id : Bytes)
    → Selectable id w.configuration
    → (supports_selected_mcp v w id ≡ true) ↔ ((v ≡ w) ⊎ (v ≡ with_servers id w))
unfolding supports_selected_mcp
supports_selected_mcp_iff v w id h = (forward, backward)
  where
    back : TargetSemantics
    back = record v { configuration = deselect id v.configuration }

    forward : supports_selected_mcp v w id ≡ true → (v ≡ w) ⊎ (v ≡ with_servers id w)
    forward s = elim (||_elim (deep_equal v w) _ s) [
      | inl e ↦ inl ((deep_equal_iff v w).0 e)
      | inr e ↦
          let (f, g) = &&_elim (found_selected id v.configuration) (deep_equal back w) e in
          let same = (deep_equal_iff back w).0 g in
          inr (
            cc (
              same,
              deselect-select id v.configuration w.configuration h f
                  (ap (λ x. x.configuration) same),
            ))
    ]

    backward : (v ≡ w) ⊎ (v ≡ with_servers id w) → supports_selected_mcp v w id ≡ true
    backward (inl e) = ground (arith, deep_equal_iff v w)
    backward (inr e) =
        let selected = ap (λ x. x.configuration) e in
        let found = ap (found_selected id) selected ∙ found-select id w.configuration h in
        let undone = deselect-of_select id w.configuration h in
        let same : back ≡ w =
          ap {A = TargetSemantics} (λ x. record x { configuration = deselect id x.configuration }) e
          ∙ ap (λ c. record w { configuration = c }) undone in
        ||_right _ _ (&&_intro _ _ found ((deep_equal_iff back w).1 same))

-- The semantics that each recipe admits.
abbrev pub Admits : Bytes → TargetSemantics → Type 0
Admits recipe v =
    if bytes_eq recipe devin
    then v ≡ devin_semantics
    else if bytes_eq recipe codex
    then (v ≡ codex_semantics) ⊎ (v ≡ with_servers codex_mcp codex_semantics)
    else if bytes_eq recipe grok
    then (v ≡ grok_semantics) ⊎ (v ≡ with_servers grok_mcp grok_semantics)
    else v ≡ no_semantics

codex_Selectable : Selectable codex_mcp codex_semantics.configuration
unfolding codex_semantics
codex_Selectable = ground arith

grok_Selectable : Selectable grok_mcp grok_semantics.configuration
unfolding grok_semantics
grok_Selectable = ground arith

-- Supports accepts exactly the semantics registered with the recipe: for the Devin recipe the one of
-- DevinSemantics; for Codex and Grok the registered one, or that with the mode of its MCP decision, and
-- nothing else, changed to the selected servers; and for any other recipe only the empty one.
pub supports_iff :
    (v : TargetSemantics) (recipe : Bytes) → (supports v recipe ≡ true) ↔ Admits recipe v
unfolding supports
supports_iff v recipe = elim (Bool-cases (bytes_eq recipe devin)) [
  | inl d ↦ rw d (deep_equal_iff v devin_semantics)
  | inr d ↦ elim (Bool-cases (bytes_eq recipe codex)) [
    | inl c ↦ rw (d, c) (supports_selected_mcp_iff v codex_semantics codex_mcp codex_Selectable)
    | inr c ↦ elim (Bool-cases (bytes_eq recipe grok)) [
      | inl g ↦ rw (d, c, g) (supports_selected_mcp_iff v grok_semantics grok_mcp grok_Selectable)
      | inr g ↦ rw (d, c, g) (deep_equal_iff v no_semantics)
    ]
  ]
]
