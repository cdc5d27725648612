-- ===== src/Instructions/Selection.antt =====
-- internal/instructions/model.go: what ValidateSelection accepts.
use ai_config_selector.Prelude.{
  ◌≤◌, Bool, true, false, not, ◌≡◌, ◌≢◌, ◌++◌, refl, sym, ap, ◌∙◌, List, [], ◌∷◌, map, All, ok,
  refuse_if, >>=-parts, refuse_if-parts, ok-injective, arith, length, ltb, ||_elim_false, subst,
}
use ai_config_selector.Prelude.Bytes.{Bytes, bytes_eq, bytes_eq→eq, has_prefix, seen}
use ai_config_selector.Prelude.Distinct.{Distinct, Fresh, Fresh-uncons}
use ai_config_selector.GoPath.{slash, split, clean}
use ai_config_selector.Instructions.{
  Reference, InstructionError, source_id, max_entries, max_depth, too_many_entries,
  unsupported_source, invalid_path, too_deep, bad_component, control_text, bad_extension,
  not_canonical, duplicate, collision, directory_collision, has_control, unusable, check_parts,
  is_markdown, invalid, clean_instruction, seen_reference, below_any, any_below, destination_keys,
  validate_selection,
}

abbrev pub IsPart : Bytes → Type 0
IsPart p = (unusable p ≡ false) × (has_control p ≡ false)

-- A reference to an instruction file by its canonical path.
pub record IsInstruction (r : Reference) : Type 0 where
  pub source : r.source ≡ source_id
  pub canonical : clean r.relative_path ≡ r.relative_path
  pub valid : invalid r.relative_path ≡ false
  pub depth : length (split slash r.relative_path) ≤ max_depth
  pub parts : All IsPart (split slash r.relative_path)
  pub markdown : is_markdown r.relative_path ≡ true

check_parts-All : (ps : List Bytes) (u : Unit {0}) → check_parts ps ≡ ok u → All IsPart ps
unfolding check_parts
check_parts-All [] u h = tt
check_parts-All (p ∷ ps) u h =
    let (a, h₁) = refuse_if-parts (unusable p) bad_component _ h in
    let (b, h₂) = refuse_if-parts (has_control p) control_text _ h₁ in
    ((a, b), check_parts-All ps u h₂)

clean_instruction-IsInstruction :
    (r : Reference) (p : Bytes)
    → r.source ≡ source_id
    → clean_instruction r.relative_path ≡ ok p
    → p ≡ r.relative_path
    → IsInstruction r
unfolding clean_instruction
clean_instruction-IsInstruction r p s h e =
    let value = r.relative_path in
    let (a, h₁) = refuse_if-parts (invalid value) invalid_path _ h in
    let (b, h₂) = refuse_if-parts (ltb max_depth (length (split slash value))) too_deep _ h₁ in
    let (u, c, h₃) = >>=-parts (check_parts (split slash value)) _ h₂ in
    let (d, h₄) = refuse_if-parts (not (is_markdown value)) bad_extension _ h₃ in
    record {
      source = s;
      canonical = ok-injective h₄ ∙ e;
      valid = a;
      depth = ground arith;
      parts = check_parts-All (split slash value) u c;
      markdown = ground arith;
    }

module _ (fold : Bytes → Bytes) where
  abbrev pub key : Reference → Bytes
  key r = fold r.relative_path

  record IsKeyed (keys : List Bytes) (rs : List Reference) (paths : List Bytes) : Type 0 where
    instructions : All IsInstruction rs
    paths_eq : paths ≡ map key rs
    distinct : Distinct key rs
    fresh : Fresh key keys rs

  destination_keys-IsKeyed :
      (refs : List Reference) (keys : List Bytes) (rs : List Reference) (paths : List Bytes)
      → destination_keys fold refs keys rs ≡ ok paths
      → IsKeyed keys rs paths
  unfolding destination_keys
  destination_keys-IsKeyed refs keys [] paths h = record {
    instructions = tt;
    paths_eq = sym (ok-injective h);
    distinct = tt;
    fresh = tt;
  }
  destination_keys-IsKeyed refs keys (r ∷ rs) paths h =
      let (a, h₁) = refuse_if-parts (not (bytes_eq r.source source_id)) unsupported_source _ h in
      let (p, b, h₂) = >>=-parts (clean_instruction r.relative_path) _ h₁ in
      let (c, h₃) = refuse_if-parts (not (bytes_eq p r.relative_path)) not_canonical _ h₂ in
      let (d, h₄) = refuse_if-parts (seen_reference refs r) duplicate _ h₃ in
      let (e, h₅) = refuse_if-parts (seen keys (fold p)) collision _ h₄ in
      let (rest, f, h₆) =
        >>=-parts (destination_keys fold (r ∷ refs) (fold p ∷ keys) rs) (λ ps. ok (fold p ∷ ps))
          h₅ in
      let same : p ≡ r.relative_path = bytes_eq→eq p r.relative_path (ground arith) in
      let more = destination_keys-IsKeyed (r ∷ refs) (fold p ∷ keys) rs rest f in
      let (u, v) = Fresh-uncons key (fold p) keys rs more.fresh in
      record {
        instructions = (
          clean_instruction-IsInstruction r p (bytes_eq→eq r.source source_id (ground arith)) b
              same,
          more.instructions,
        );
        paths_eq = sym (ok-injective h₆) ∙ cc (ap fold same, more.paths_eq);
        distinct = (subst (λ q. All (λ (y : Reference). fold q ≢ key y) rs) same v, more.distinct);
        fresh = (subst (λ q. seen keys (fold q) ≡ false) same e, u);
      }

  -- Neither key is the directory of the other one.
  abbrev pub NoDirectory : Reference → Reference → Type 0
  NoDirectory left right = has_prefix (key right) (key left ++ (slash ∷ [])) ≡ false

  below_any-All :
      (ls : List Reference) (r : Reference)
      → below_any (map key ls) (key r) ≡ false
      → All (λ l. NoDirectory l r) ls
  unfolding below_any
  below_any-All [] r h = tt
  below_any-All (l ∷ ls) r h =
      let (a, b) =
        ||_elim_false (has_prefix (key r) (key l ++ (slash ∷ []))) (below_any (map key ls) (key r))
          h in
      (a, below_any-All ls r b)

  any_below-All :
      (ls rs : List Reference)
      → any_below (map key ls) (map key rs) ≡ false
      → All (λ r. All (λ l. NoDirectory l r) ls) rs
  unfolding any_below
  any_below-All ls [] h = tt
  any_below-All ls (r ∷ rs) h =
      let (a, b) =
        ||_elim_false (below_any (map key ls) (key r)) (any_below (map key ls) (map key rs)) h in
      (below_any-All ls r a, any_below-All ls rs b)

  pub record IsSelection (refs : List Reference) : Type 0 where
    pub few : length refs ≤ max_entries
    pub instructions : All IsInstruction refs
    pub distinct : Distinct key refs
    pub no_directory : All (λ r. All (λ l. NoDirectory l r) refs) refs

  last_refusal : (t : Bool) (e : InstructionError) (u : Unit {0}) → refuse_if t e ≡ ok u → t ≡ false
  last_refusal true e u h = absurd (cc h)
  last_refusal false e u h = refl

  -- For any folding of texts: if ValidateSelection accepts references, there are at most 64 of them,
  -- each has the instruction source and a canonical relative path of at most 16 usable parts that
  -- ends in .md, no two have the same folded path, and no folded path is a directory of another one.
  pub validate_selection-IsSelection :
      (refs : List Reference) (u : Unit {0})
      → validate_selection fold refs ≡ ok u
      → IsSelection refs
  unfolding validate_selection
  validate_selection-IsSelection refs u h =
      let (a, h₁) = refuse_if-parts (ltb max_entries (length refs)) too_many_entries _ h in
      let (paths, b, h₂) = >>=-parts (destination_keys fold [] [] refs) _ h₁ in
      let k = destination_keys-IsKeyed [] [] refs paths b in
      let c = last_refusal (any_below paths paths) directory_collision u h₂ in
      record {
        few = ground arith;
        instructions = k.instructions;
        distinct = k.distinct;
        no_directory = any_below-All refs refs (subst (λ ps. any_below ps ps ≡ false) k.paths_eq c);
      }
