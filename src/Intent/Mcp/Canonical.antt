-- ===== src/Intent/Mcp/Canonical.antt =====
-- Canonical of internal/mcpintent/schema.go: what holds of each server that it returns.
use ai_config_selector.Prelude.{
  ℕ, ◌≤◌, Bool, true, false, not, ◌≡◌, ◌⊎◌, ◌||◌, inl, inr, refl, sym, none, some, List, [], ◌∷◌,
  All, ok, >>=-parts, refuse_if-parts, ok-injective, arith, Bool-cases, ||_elim_false, &&_elim,
  subst, length, ltb,
}
use mathlib.Core.List.{Permᴰ}
use mathlib.Core.List.Permᴰ
use ai_config_selector.Prelude.Bytes.{Bytes, bytes_eq, bytes_eq→eq, bytes_eq→ne}
use ai_config_selector.Prelude.Order.{bytes_order}
use ai_config_selector.Prelude.Distinct.{All-perm}
use ai_config_selector.Prelude.Sort.{
  sort_by-perm, sort_by-IsAscending, IsSorted, Unrepeated, IsSorted-of_Unrepeated,
}
use ai_config_selector.Text.{entry_id_matches}
use ai_config_selector.Intent.Mcp.{
  Server, Argument, argument_path, argument_env, transport_stdio, items, long_list, bad_ref,
  duplicate_ref, bad_tool, duplicate_tool, bad_transport, bad_executable_ref, bad_lists,
  too_many_tools, too_many_items, bad_argument, repeats_after, all_match, sort_strings,
  canonical_ids, valid_tool, canonical_tools, valid_arguments, canonical_server,
  maximum_disabled_tools, maximum_inputs_per_server, maximum_environment_refs, absent_or_longer,
  maximum_aggregate_items, maximum_arguments_per_server,
}

abbrev pub key : Bytes → Bytes
key x = x

repeats_after-some :
    (p : Bytes) (xs : List Bytes) → repeats_after (some p) xs ≡ false → Unrepeated key (p ∷ xs)
unfolding repeats_after
repeats_after-some p [] h = tt
repeats_after-some p (x ∷ xs) h =
    let (a, b) = ||_elim_false (bytes_eq x p) (repeats_after (some x) xs) h in
    ((λ e. bytes_eq→ne x p a (sym e)), repeats_after-some x xs b)

repeats_after-none : (xs : List Bytes) → repeats_after none xs ≡ false → Unrepeated key xs
unfolding repeats_after
repeats_after-none [] h = tt
repeats_after-none (x ∷ xs) h = repeats_after-some x xs h

all_match-All :
    (p : Bytes → Bool) (xs : List Bytes) → all_match p xs ≡ true → All (λ x. p x ≡ true) xs
unfolding all_match
all_match-All p [] h = tt
all_match-All p (x ∷ xs) h =
    let (a, b) = &&_elim (p x) (all_match p xs) h in (a, all_match-All p xs b)

-- A list of names as Canonical returns it: a reordering of the list given, of valid names, in
-- strictly ascending order.
pub record IsNameList (p : Bytes → Bool) (xs ys : List Bytes) : Type 0 where
  pub same : Permᴰ xs ys
  pub valid : All (λ y. p y ≡ true) ys
  pub sorted : IsSorted key ys

IsNameList-sorted :
    (p : Bytes → Bool) (xs : List Bytes)
    → all_match p xs ≡ true
    → repeats_after none (sort_strings xs) ≡ false
    → IsNameList p xs (sort_strings xs)
IsNameList-sorted p xs m r =
    let perm = Permᴰ.symm (sort_by-perm key xs) in
    record {
      same = perm;
      valid = All-perm (λ y. p y ≡ true) perm (all_match-All p xs m);
      sorted =
          IsSorted-of_Unrepeated key (sort_strings xs) (sort_by-IsAscending key xs)
            (repeats_after-none (sort_strings xs) r);
    }

canonical_ids-IsNameList :
    (xs : List Bytes) (limit : ℕ) (ys : List Bytes)
    → canonical_ids xs limit ≡ ok ys
    → IsNameList entry_id_matches xs ys
unfolding canonical_ids
canonical_ids-IsNameList xs limit ys h =
    let (a, h₁) = refuse_if-parts (ltb limit (length xs)) long_list _ h in
    let (b, h₂) = refuse_if-parts (not (all_match entry_id_matches xs)) bad_ref _ h₁ in
    let (c, h₃) = refuse_if-parts (repeats_after none (sort_strings xs)) duplicate_ref _ h₂ in
    subst (IsNameList entry_id_matches xs) (ok-injective h₃)
      (IsNameList-sorted entry_id_matches xs (ground arith) c)

canonical_tools-IsNameList :
    (xs ys : List Bytes) → canonical_tools xs ≡ ok ys → IsNameList valid_tool xs ys
unfolding canonical_tools
canonical_tools-IsNameList xs ys h =
    let (b, h₂) = refuse_if-parts (not (all_match valid_tool xs)) bad_tool _ h in
    let (c, h₃) = refuse_if-parts (repeats_after none (sort_strings xs)) duplicate_tool _ h₂ in
    subst (IsNameList valid_tool xs) (ok-injective h₃)
      (IsNameList-sorted valid_tool xs (ground arith) c)

abbrev pub IsReference : Argument → Type 0
IsReference a =
    ((a.kind ≡ argument_path) ⊎ (a.kind ≡ argument_env)) × (entry_id_matches a.ref ≡ true)

valid_arguments-All : (xs : List Argument) → valid_arguments xs ≡ true → All IsReference xs
unfolding valid_arguments
valid_arguments-All [] h = tt
valid_arguments-All (a ∷ xs) h =
    let (b, c) = &&_elim _ (valid_arguments xs) h in
    let (d, e) = &&_elim (bytes_eq a.kind argument_path || bytes_eq a.kind argument_env) _ b in
    (
      (
        elim (Bool-cases (bytes_eq a.kind argument_path)) [
          | inl f ↦ inl (bytes_eq→eq a.kind argument_path f)
          | inr f ↦ inr (bytes_eq→eq a.kind argument_env (ground arith))
        ],
        e,
      ),
      valid_arguments-All xs c,
    )

-- How a server is returned.
pub record IsCanonicalServer (s t : Server) : Type 0 where
  pub id : t.id ≡ s.id
  pub transport : t.transport ≡ transport_stdio
  pub executable : entry_id_matches t.executable_ref ≡ true
  pub arguments : t.arguments ≡ s.arguments
  pub references : All IsReference (items t.arguments)
  pub inputs : IsNameList entry_id_matches (items s.input_refs) (items t.input_refs)
  pub environment :
      IsNameList entry_id_matches (items s.environment_refs) (items t.environment_refs)
  pub tools : IsNameList valid_tool s.disabled_tools t.disabled_tools

pub canonical_server-IsCanonicalServer :
    (aggregate : ℕ) (s t : Server)
    → canonical_server aggregate s ≡ ok t
    → (aggregate ≤ maximum_aggregate_items) × IsCanonicalServer s t
unfolding canonical_server
canonical_server-IsCanonicalServer aggregate s t h =
    let (a, h₁) = refuse_if-parts (not (bytes_eq s.transport transport_stdio)) bad_transport _ h in
    let (b, h₂) =
      refuse_if-parts (not (entry_id_matches s.executable_ref)) bad_executable_ref _ h₁ in
    let (c, h₃) =
      refuse_if-parts
        (absent_or_longer s.arguments maximum_arguments_per_server
          || (absent_or_longer s.input_refs maximum_inputs_per_server
              || absent_or_longer s.environment_refs maximum_environment_refs))
        bad_lists _ h₂ in
    let (d, h₄) =
      refuse_if-parts (ltb maximum_disabled_tools (length s.disabled_tools)) too_many_tools _ h₃ in
    let (e, h₅) = refuse_if-parts (ltb maximum_aggregate_items aggregate) too_many_items _ h₄ in
    let (f, h₆) = refuse_if-parts (not (valid_arguments (items s.arguments))) bad_argument _ h₅ in
    let (inputs, i, h₇) =
      >>=-parts (canonical_ids (items s.input_refs) maximum_inputs_per_server) _ h₆ in
    let (variables, v, h₈) =
      >>=-parts (canonical_ids (items s.environment_refs) maximum_environment_refs) _ h₇ in
    let (tools, w, h₉) = >>=-parts (canonical_tools s.disabled_tools) _ h₈ in
    (
      ground arith,
      subst (IsCanonicalServer s) (ok-injective h₉) (record {
        id = refl;
        transport = bytes_eq→eq s.transport transport_stdio (ground arith);
        executable = ground arith;
        arguments = refl;
        references = valid_arguments-All (items s.arguments) (ground arith);
        inputs = canonical_ids-IsNameList (items s.input_refs) maximum_inputs_per_server inputs i;
        environment =
            canonical_ids-IsNameList (items s.environment_refs) maximum_environment_refs variables
              v;
        tools = canonical_tools-IsNameList s.disabled_tools tools w;
      }),
    )
