-- ===== src/Intent/Executables/Laws.antt =====
-- The executable schema keeps identifiers and accepts what it returned.
use ai_config_selector.Prelude.{
  Bool, true, ◌≡◌, refl, sym, ap, ◌∙◌, ◌⊎◌, inl, inr, false, Result, ok, refuse_if-parts, >>=-parts,
  ok-injective, arith,
}
use ai_config_selector.Prelude.Bytes.{Bytes, bytes_eq}
use ai_config_selector.GoPath.{clean}
use ai_config_selector.GoPath.Clean.{is_abs-clean}
use ai_config_selector.Intent.Schema.Laws.{Laws, Accepts}
use ai_config_selector.Intent.Schema.Checked.{checked-Laws, Accepts-validated}
use ai_config_selector.Intent.Reference.{
  clean_relative, clean_absolute, maximum_entries, backslash, workspace_relative, local_absolute,
}
use ai_config_selector.Intent.Reference.Settled.{
  clean-Without, valid_path-clean, clean_relative-eq, clean_absolute-eq, clean_relative_idem,
  clean_absolute_idem,
}
use ai_config_selector.Intent.Executables.{
  Reference, Entry, ExecutableError, bad_id, bad_search_name, bad_relative, not_absolute, escaping,
  bad_root, duplicate_destination, too_many_entries, refuses_search_name, refuses_relative,
  refuses_absolute, search_case, relative_case, absolute_case, validate_reference,
  fixed_search_name, validate, destination, schema,
}

abbrev pub with_path : Reference → Bytes → Reference
with_path r p = record r { path = p }

-- A reference below an anchor: the tests passed, and its text is cleaned.
pub record IsCleaned (refuses : Reference → Bool)
    (clean_text : Bytes → Result ExecutableError Bytes) (r a : Reference) : Type 0 where
  pub passes : refuses r ≡ false
  pub cleaned : clean_text r.path ≡ ok (clean r.path)
  pub result : a ≡ with_path r (clean r.path)

pub relative_case-IsCleaned :
    (r a : Reference)
    → relative_case r ≡ ok a
    → IsCleaned refuses_relative (clean_relative escaping) r a
unfolding relative_case
relative_case-IsCleaned r a h =
    let (t, k) = refuse_if-parts (refuses_relative r) bad_relative _ h in
    let (p, c, l) = >>=-parts (clean_relative escaping r.path) _ k in
    let e = clean_relative-eq escaping r.path p c in
    record { passes = t; cleaned = c ∙ ap ok e; result = sym (ok-injective l) ∙ ap (with_path r) e }

pub absolute_case-IsCleaned :
    (r a : Reference)
    → absolute_case r ≡ ok a
    → IsCleaned refuses_absolute (clean_absolute bad_root) r a
unfolding absolute_case
absolute_case-IsCleaned r a h =
    let (t, k) = refuse_if-parts (refuses_absolute r) not_absolute _ h in
    let (p, c, l) = >>=-parts (clean_absolute bad_root r.path) _ k in
    let e = clean_absolute-eq bad_root r.path p c in
    record { passes = t; cleaned = c ∙ ap ok e; result = sym (ok-injective l) ∙ ap (with_path r) e }

refuses_relative-clean :
    (r : Reference)
    → refuses_relative r ≡ false
    → refuses_relative (with_path r (clean r.path)) ≡ false
unfolding refuses_relative
refuses_relative-clean r h =
    ground (
      arith,
      valid_path-clean r.path,
      is_abs-clean r.path,
      clean-Without backslash r.path refl refl,
    )

refuses_absolute-clean :
    (r : Reference)
    → refuses_absolute r ≡ false
    → refuses_absolute (with_path r (clean r.path)) ≡ false
unfolding refuses_absolute
refuses_absolute-clean r h = ground (arith, valid_path-clean r.path, is_abs-clean r.path)

relative_case_again : (r a : Reference) → relative_case r ≡ ok a → relative_case a ≡ ok a
relative_case_again r a h = again (relative_case-IsCleaned r a h)
  where
    again : IsCleaned refuses_relative (clean_relative escaping) r a → relative_case a ≡ ok a
    again c = rw c.result (
        unfold relative_case in
        rw (refuses_relative-clean r c.passes, clean_relative_idem escaping r.path, c.cleaned))

absolute_case_again : (r a : Reference) → absolute_case r ≡ ok a → absolute_case a ≡ ok a
absolute_case_again r a h = again (absolute_case-IsCleaned r a h)
  where
    again : IsCleaned refuses_absolute (clean_absolute bad_root) r a → absolute_case a ≡ ok a
    again c = rw c.result (
        unfold absolute_case in
        rw (refuses_absolute-clean r c.passes, clean_absolute_idem bad_root r.path, c.cleaned))

pub search_case-parts :
    (r a : Reference) → search_case r ≡ ok a → (refuses_search_name r ≡ false) × (a ≡ r)
unfolding search_case
search_case-parts r a h =
    let (t, k) = refuse_if-parts (refuses_search_name r) bad_search_name (ok r) h in
    (t, sym (ok-injective k))

-- The three kinds of reference that are accepted.
abbrev pub Cases : Reference → Reference → Type 0
Cases r a =
    ((bytes_eq r.kind fixed_search_name ≡ true) × (search_case r ≡ ok a))
    ⊎ ((bytes_eq r.kind fixed_search_name ≡ false)
        × (bytes_eq r.kind workspace_relative ≡ true)
        × (relative_case r ≡ ok a))
    ⊎ ((bytes_eq r.kind fixed_search_name ≡ false)
        × (bytes_eq r.kind workspace_relative ≡ false)
        × (bytes_eq r.kind local_absolute ≡ true)
        × (absolute_case r ≡ ok a))

pub validate_reference-Cases : (r a : Reference) → validate_reference r ≡ ok a → Cases r a
unfolding validate_reference
validate_reference-Cases r a h = ground arith

pub kind-validate_reference : (r a : Reference) → validate_reference r ≡ ok a → a.kind ≡ r.kind
kind-validate_reference r a h = elim (validate_reference-Cases r a h) [
  | inl (e, k) ↦ ap (λ (x : Reference). x.kind) (search_case-parts r a k).1
  | inr (inl (e, f, k)) ↦ ap (λ (x : Reference). x.kind) (relative_case-IsCleaned r a k).result
  | inr (inr (e, f, g, k)) ↦ ap (λ (x : Reference). x.kind) (absolute_case-IsCleaned r a k).result
]

validate_reference_again :
    (r a : Reference) → validate_reference r ≡ ok a → validate_reference a ≡ ok a
validate_reference_again r a h =
    again (kind-validate_reference r a h) (validate_reference-Cases r a h)
  where
    kind_test :
        a.kind ≡ r.kind → (t : Bytes) {b : Bool} → bytes_eq r.kind t ≡ b → bytes_eq a.kind t ≡ b
    kind_test q t h = ap (λ (k : Bytes). bytes_eq k t) q ∙ h

    again : a.kind ≡ r.kind → Cases r a → validate_reference a ≡ ok a
    again q (inl (e, k)) = let (t, s) = search_case-parts r a k in ap validate_reference s ∙ h
    again q (inr (inl (e, f, k))) =
        unfold validate_reference in
        rw (kind_test q fixed_search_name e, kind_test q workspace_relative f)
          (relative_case_again r a k)
    again q (inr (inr (e, f, g, k))) =
        unfold validate_reference in
        rw
          (
            kind_test q fixed_search_name e,
            kind_test q workspace_relative f,
            kind_test q local_absolute g,
          )
          (absolute_case_again r a k)

pub record IsValid (e a : Entry) : Type 0 where
  pub reference : Reference
  pub validated : validate_reference e.reference ≡ ok reference
  pub result : a ≡ record e { reference = reference }

pub validate-IsValid : (e a : Entry) → validate e ≡ ok a → IsValid e a
unfolding validate
validate-IsValid e a h =
    let (r, v, m) = >>=-parts (validate_reference e.reference) _ h in
    record { reference = r; validated = v; result = sym (ok-injective m) }

pub id-validate : (e a : Entry) → validate e ≡ ok a → a.id ≡ e.id
id-validate e a h = ap (λ (x : Entry). x.id) (validate-IsValid e a h).result

pub validate_again : (e a : Entry) → validate e ≡ ok a → validate a ≡ ok a
validate_again e a h = again (validate-IsValid e a h)
  where
    again : IsValid e a → validate a ≡ ok a
    again v =
        let r = validate_reference_again e.reference v.reference v.validated in
        rw v.result (unfold validate in rw r)

pub schema-Laws : Laws schema
schema-Laws =
    checked-Laws (λ e. e.id) destination validate bad_id duplicate_destination id-validate
      validate_again maximum_entries too_many_entries

pub Accepts-validate : (e a : Entry) → Accepts schema e a → validate e ≡ ok a
Accepts-validate =
    Accepts-validated (λ e. e.id) destination validate bad_id duplicate_destination id-validate
      validate_again maximum_entries too_many_entries
