-- ===== src/Intent/Reference/Inside.antt =====
-- What an accepted reference names: a path of at most 128 ordinary names, below the workspace or
-- below the root.
use ai_config_selector.Prelude.{
  ℕ, true, false, ◌≤◌, ◌≡◌, ◌≢◌, sym, ap, ◌∙◌, List, [], ◌∷◌, ◌++◌, ltb, length, ok, arith, All,
  ||_elim_false, refuse_if-parts, ok-injective,
}
use ai_config_selector.Prelude.Bytes.{Bytes, bytes_eq, bytes_eq→ne}
use ai_config_selector.GoPath.{slash, dot, split, join, is_abs, clean, components}
use ai_config_selector.GoPath.Split.{join-split}
use ai_config_selector.GoPath.Stack.{IsName}
use ai_config_selector.GoPath.Names.{
  escapes, components-IsName_rel, components-IsName_abs, components-ne-nil_rel,
  components-ne-nil_abs, split-clean_rel, split-clean_abs,
}
use ai_config_selector.Intent.Reference.{
  clean_relative, clean_absolute, maximum_components, trim_root,
}

pub record NamesPath (root q : Bytes) : Type 0 where
  pub names : List Bytes
  pub some_name : names ≢ []
  pub ordinary : All IsName names
  pub few : length names ≤ maximum_components
  pub text : q ≡ root ++ join slash names

few_of_test : (n : ℕ) → ltb maximum_components n ≡ false → n ≤ maximum_components
few_of_test n h = ground arith

module _ {ℓ} {Err : Type ℓ} (e : Err) where
  pub clean_relative-NamesPath :
      (p q : Bytes) → is_abs p ≡ false → clean_relative e p ≡ ok q → NamesPath [] q
  unfolding clean_relative
  clean_relative-NamesPath p q a h =
      let (t, k) = refuse_if-parts _ e (ok (clean p)) h in
      let (not_dot, t') = ||_elim_false (bytes_eq (clean p) dot) _ t in
      let (inside, few) = ||_elim_false (escapes (clean p)) _ t' in
      let n : components p ≢ [] = components-ne-nil_rel p a (bytes_eq→ne (clean p) dot not_dot) in
      let s : split slash (clean p) ≡ components p = split-clean_rel p a n in
      record {
        names = components p;
        some_name = n;
        ordinary = components-IsName_rel p a inside;
        few = few_of_test (length (components p)) (rw s at few);
        text = sym (ok-injective k) ∙ sym (join-split slash (clean p)) ∙ ap (join slash) s;
      }

  pub clean_absolute-NamesPath :
      (p q : Bytes) → is_abs p ≡ true → clean_absolute e p ≡ ok q → NamesPath (slash ∷ []) q
  unfolding clean_absolute
  clean_absolute-NamesPath p q a h =
      let (t, k) = refuse_if-parts _ e (ok (clean p)) h in
      let (not_root, few) = ||_elim_false (bytes_eq (clean p) (slash ∷ [])) _ t in
      let n : components p ≢ [] =
        components-ne-nil_abs p a (bytes_eq→ne (clean p) (slash ∷ []) not_root) in
      let (r, c, s) = split-clean_abs p a n in
      let few' : ltb maximum_components (length (split slash (trim_root (slash ∷ r)))) ≡ false =
        rw c at few in
      record {
        names = components p;
        some_name = n;
        ordinary = components-IsName_abs p a;
        few = few_of_test (length (components p)) (rw s at (trimmed r few'));
        text =
            sym (ok-injective k)
            ∙ c
            ∙ ap (λ x. slash ∷ x) (sym (join-split slash r) ∙ ap (join slash) s);
      }
    where
      trimmed :
          (r : Bytes)
          → ltb maximum_components (length (split slash (trim_root (slash ∷ r)))) ≡ false
          → ltb maximum_components (length (split slash r)) ≡ false
      trimmed r h = unfold trim_root in h
