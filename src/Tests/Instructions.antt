-- ===== src/Tests/Instructions.antt =====
-- internal/instructions/model.go on selections of two files, with a folding of ASCII letters.
use ai_config_selector.Prelude.{◌+◌, refl, ◌≡◌, List, [], ◌∷◌, Result, ok, err, if◌then◌else◌}
use ai_config_selector.Prelude.Bytes.{Bytes, codes, bytes_eq, has_prefix, contains_byte, seen}
use ai_config_selector.GoPath.{
  clean, render, components, clean_stack, clean_step, backtrack, split, join, join_tail, is_abs,
}
use ai_config_selector.Text.{valid_string, valid_from, next, lead, is_upper}
use ai_config_selector.Instructions.{
  Reference, InstructionError, source_id, has_control, check_parts, is_markdown, invalid,
  clean_instruction, seen_reference, below_any, any_below, destination_keys, validate_selection,
  collision, directory_collision, bad_component,
}
use ai_config_selector.Instructions.Selection.{validate_selection-IsSelection, IsSelection}

lower : Bytes → Bytes
lower [] = []
lower (c ∷ cs) = let rest = lower cs in (if is_upper c then c + 32 else c) ∷ rest

abbrev reference : Bytes → Reference
reference path = record { source = source_id; relative_path = path }

abbrev two : List Reference
two = reference (codes "go/style.md") ∷ reference (codes "review.md") ∷ []

run_selection : List Reference → Result InstructionError (Unit {0})
unfolding lower has_control check_parts is_markdown invalid clean_instruction seen_reference
    below_any any_below destination_keys validate_selection clean render components clean_stack
    clean_step backtrack split join join_tail is_abs valid_string valid_from next lead bytes_eq
    has_prefix contains_byte seen
run_selection refs = validate_selection lower refs

two_selected : validate_selection lower two ≡ ok tt
unfolding run_selection
two_selected = refl

folded_refused :
    validate_selection lower (reference (codes "A.md") ∷ reference (codes "a.md") ∷ [])
    ≡ err collision
unfolding run_selection
folded_refused = refl

directory_refused :
    validate_selection lower (reference (codes "a.md") ∷ reference (codes "A.md/b.md") ∷ [])
    ≡ err directory_collision
unfolding run_selection
directory_refused = refl

parent_refused : validate_selection lower (reference (codes "../a.md") ∷ []) ≡ err bad_component
unfolding run_selection
parent_refused = refl

validate_selection-IsSelection_example : IsSelection lower two
validate_selection-IsSelection_example = validate_selection-IsSelection lower two tt two_selected
