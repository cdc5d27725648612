-- ===== src/Intent/Reference/Laws.antt =====
-- A reference that was accepted is accepted again, unchanged, and names an ordinary path.
use ai_config_selector.Prelude.{
  Bool, true, false, ◌||◌, not, ◌≡◌, refl, sym, ap, ◌∙◌, ◌⊎◌, inl, inr, [], ◌∷◌, ok, arith,
  ||_elim_false, refuse_if-parts, >>=-parts, ok-injective,
}
use ai_config_selector.Prelude.Bytes.{Bytes, bytes_eq, contains_byte, bytes_eq→eq}
use ai_config_selector.GoPath.{slash, is_abs, clean}
use ai_config_selector.GoPath.Clean.{is_abs-clean}
use ai_config_selector.Intent.Reference.{
  Reference, bad_path, bad_form, escaping, not_absolute, bad_root, anchor, relative_case,
  absolute_case, validate_reference, valid_path, clean_relative, clean_absolute, backslash,
  workspace_relative, local_absolute,
}
use ai_config_selector.Intent.Reference.Settled.{
  clean-Without, valid_path-clean, clean_relative-eq, clean_absolute-eq, clean_relative_idem,
  clean_absolute_idem,
}
use ai_config_selector.Intent.Reference.Inside.{
  NamesPath, clean_relative-NamesPath, clean_absolute-NamesPath,
}

-- A reference below the workspace, or one below the root.
abbrev pub Anchored : Bytes → Bytes → Type 0
Anchored kind q =
    ((kind ≡ workspace_relative) × NamesPath [] q)
    ⊎ ((kind ≡ local_absolute) × NamesPath (slash ∷ []) q)

relative_case-parts :
    (p q : Bytes)
    → relative_case p ≡ ok q
    → (is_abs p ≡ false) × (contains_byte backslash p ≡ false) × (clean_relative escaping p ≡ ok q)
unfolding relative_case
relative_case-parts p q h =
    let (t, k) =
      refuse_if-parts (is_abs p || contains_byte backslash p) bad_form (clean_relative escaping p)
        h in
    let (a, b) = ||_elim_false (is_abs p) (contains_byte backslash p) t in (a, b, k)

absolute_case-parts :
    (p q : Bytes) → absolute_case p ≡ ok q → (is_abs p ≡ true) × (clean_absolute bad_root p ≡ ok q)
unfolding absolute_case
absolute_case-parts p q h =
    let (t, k) = refuse_if-parts (not (is_abs p)) not_absolute (clean_absolute bad_root p) h in
    (not-false (is_abs p) t, k)
  where
    not-false : (b : Bool) → not b ≡ false → b ≡ true
    not-false b h = ground arith

relative_case_again : (p q : Bytes) → relative_case p ≡ ok q → relative_case q ≡ ok q
relative_case_again p q h =
    let (a, b, k) = relative_case-parts p q h in
    let e : q ≡ clean p = clean_relative-eq escaping p q k in again a b (rw e at k) e
  where
    again :
        is_abs p ≡ false
        → contains_byte backslash p ≡ false
        → clean_relative escaping p ≡ ok (clean p)
        → q ≡ clean p
        → relative_case q ≡ ok q
    again a b k e = rw e (
        unfold relative_case in
        rw
          (is_abs-clean p, a, clean-Without backslash p refl refl b, clean_relative_idem escaping p)
          k)

absolute_case_again : (p q : Bytes) → absolute_case p ≡ ok q → absolute_case q ≡ ok q
absolute_case_again p q h =
    let (a, k) = absolute_case-parts p q h in
    let e : q ≡ clean p = clean_absolute-eq bad_root p q k in again a (rw e at k) e
  where
    again :
        is_abs p ≡ true
        → clean_absolute bad_root p ≡ ok (clean p)
        → q ≡ clean p
        → absolute_case q ≡ ok q
    again a k e =
        rw e (unfold absolute_case in rw (is_abs-clean p, a, clean_absolute_idem bad_root p) k)

anchor-cases :
    (kind p q : Bytes)
    → anchor kind p ≡ ok q
    → ((bytes_eq kind workspace_relative ≡ true) × (relative_case p ≡ ok q))
      ⊎ ((bytes_eq kind workspace_relative ≡ false)
          × (bytes_eq kind local_absolute ≡ true)
          × (absolute_case p ≡ ok q))
unfolding anchor
anchor-cases kind p q h = ground arith

-- The text of an accepted reference is its cleaned text.
pub anchor-clean : (kind p q : Bytes) → anchor kind p ≡ ok q → q ≡ clean p
anchor-clean kind p q h = elim (anchor-cases kind p q h) [
  | inl (e, k) ↦ clean_relative-eq escaping p q (relative_case-parts p q k).2
  | inr (e, f, k) ↦ clean_absolute-eq bad_root p q (absolute_case-parts p q k).1
]

pub anchor_again : (kind p q : Bytes) → anchor kind p ≡ ok q → anchor kind q ≡ ok q
unfolding anchor
anchor_again kind p q h = elim (anchor-cases kind p q h) [
  | inl (e, k) ↦ rw e (relative_case_again p q k)
  | inr (e, f, k) ↦ rw (e, f) (absolute_case_again p q k)
]

pub anchor-Anchored : (kind p q : Bytes) → anchor kind p ≡ ok q → Anchored kind q
anchor-Anchored kind p q h = elim (anchor-cases kind p q h) [
  | inl (e, k) ↦
      let (a, b, c) = relative_case-parts p q k in
      inl (bytes_eq→eq kind workspace_relative e, clean_relative-NamesPath escaping p q a c)
  | inr (e, f, k) ↦
      let (a, c) = absolute_case-parts p q k in
      inr (bytes_eq→eq kind local_absolute f, clean_absolute-NamesPath bad_root p q a c)
]

-- What a validated reference is made of.
pub record IsReference (r r' : Reference) : Type 0 where
  pub text : valid_path r.path ≡ true
  pub anchored : anchor r.kind r.path ≡ ok r'.path
  pub kept : r'.kind ≡ r.kind

pub validate_reference-IsReference :
    (r r' : Reference) → validate_reference r ≡ ok r' → IsReference r r'
unfolding validate_reference
validate_reference-IsReference r r' h =
    let (t, k) = refuse_if-parts (not (valid_path r.path)) bad_path _ h in
    let (p, a, l) = >>=-parts (anchor r.kind r.path) _ k in
    let e : r' ≡ record r { path = p } = sym (ok-injective l) in
    record {
      text = not-false (valid_path r.path) t;
      anchored = a ∙ ap (λ (x : Reference). ok x.path) (sym e);
      kept = ap (λ (x : Reference). x.kind) e;
    }
  where
    not-false : (b : Bool) → not b ≡ false → b ≡ true
    not-false b h = ground arith

pub validate_reference_again :
    (r r' : Reference) → validate_reference r ≡ ok r' → validate_reference r' ≡ ok r'
validate_reference_again r r' h = again (validate_reference-IsReference r r' h)
  where
    again : IsReference r r' → validate_reference r' ≡ ok r'
    again i =
        let v : valid_path r'.path ≡ true =
          rw (anchor-clean r.kind r.path r'.path i.anchored) (valid_path-clean r.path i.text) in
        let a : anchor r'.kind r'.path ≡ ok r'.path =
          rw i.kept (anchor_again r.kind r.path r'.path i.anchored) in
        unfold validate_reference in rw (v, a)

-- An accepted reference names an ordinary path below its anchor.
pub validate_reference-Anchored :
    (r r' : Reference) → validate_reference r ≡ ok r' → Anchored r'.kind r'.path
validate_reference-Anchored r r' h =
    let i = validate_reference-IsReference r r' h in
    rw i.kept (anchor-Anchored r.kind r.path r'.path i.anchored)
