-- ===== src/Intent/Environment/Laws.antt =====
-- The environment schema's loop body returns its entry, and refuses it for what it is or for its
-- keys.
use ai_config_selector.Prelude.{
  false, not, ◌≡◌, sym, ap, ◌∙◌, List, Result, ok, refuse_if-parts, >>=-parts, ok-injective,
  ||_elim_false, subst,
}
use ai_config_selector.Prelude.Bytes.{Bytes, bytes_eq, seen}
use ai_config_selector.Text.{entry_id_matches}
use ai_config_selector.Intent.Schema.Laws.{Laws}
use ai_config_selector.Intent.Environment.{
  Entry, EnvironmentError, bad_id, bad_destination, bad_scope, admit, check_source, valid_name,
  reserved_destination, attached_process_tree, schema,
}

-- What is asked of an entry by itself.
pub record IsValid (e : Entry) : Type 0 where
  pub named : not (entry_id_matches e.id) ≡ false
  pub name : not (valid_name e.destination) ≡ false
  pub unreserved : reserved_destination e.destination ≡ false
  pub scope : not (bytes_eq e.scope attached_process_tree) ≡ false
  pub source : check_source e ≡ ok tt

unit_result : (m : Result EnvironmentError (Unit {0})) (u : Unit {0}) → m ≡ ok u → m ≡ ok tt
unit_result m tt h = h

pub record IsAdmitted (ids destinations : List Bytes) (e a : Entry) : Type 0 where
  pub valid : IsValid e
  pub new_id : seen ids e.id ≡ false
  pub new_destination : seen destinations e.destination ≡ false
  pub same : a ≡ e

pub admit-IsAdmitted :
    (ids destinations : List Bytes) (e a : Entry)
    → admit ids destinations e ≡ ok a
    → IsAdmitted ids destinations e a
unfolding admit
admit-IsAdmitted ids destinations e a h =
    let (t, k) = refuse_if-parts _ bad_id _ h in
    let (m, s) = ||_elim_false (not (entry_id_matches e.id)) (seen ids e.id) t in
    let (u, l) = refuse_if-parts _ bad_destination _ k in
    let (n, u') = ||_elim_false (not (valid_name e.destination)) _ u in
    let (r, d) =
      ||_elim_false (reserved_destination e.destination) (seen destinations e.destination) u' in
    let (c, o) = refuse_if-parts _ bad_scope _ l in
    let (x, y, z) = >>=-parts (check_source e) (λ _. ok e) o in
    record {
      valid = record {
        named = m;
        name = n;
        unreserved = r;
        scope = c;
        source = unit_result (check_source e) x y;
      };
      new_id = s;
      new_destination = d;
      same = sym (ok-injective z);
    }

admit_of_IsValid :
    (ids destinations : List Bytes) (e : Entry)
    → IsValid e
    → seen ids e.id ≡ false
    → seen destinations e.destination ≡ false
    → admit ids destinations e ≡ ok e
unfolding admit
admit_of_IsValid ids destinations e v i d =
    rw (v.named, i, v.name, v.unreserved, d, v.scope, v.source)

pub schema-Laws : Laws schema
schema-Laws = record {
  fresh = λ ids destinations e a h.
      fresh ids destinations e a (admit-IsAdmitted ids destinations e a h);
  accepts = λ ids destinations e a h ids' destinations' i d.
      accepts ids' destinations' e a (admit-IsAdmitted ids destinations e a h).valid
        (admit-IsAdmitted ids destinations e a h).same i d;
  settled = λ ids destinations e a h ids' destinations' i d.
      let c = admit-IsAdmitted ids destinations e a h in
      admit_of_IsValid ids' destinations' a (subst IsValid (sym c.same) c.valid) i d;
}
  where
    fresh :
        (ids destinations : List Bytes) (e a : Entry)
        → IsAdmitted ids destinations e a
        → (seen ids a.id ≡ false) × (seen destinations a.destination ≡ false)
    fresh ids destinations e a c = (
      ap (λ (x : Entry). seen ids x.id) c.same ∙ c.new_id,
      ap (λ (x : Entry). seen destinations x.destination) c.same ∙ c.new_destination,
    )

    accepts :
        (ids destinations : List Bytes) (e a : Entry)
        → IsValid e
        → a ≡ e
        → seen ids a.id ≡ false
        → seen destinations a.destination ≡ false
        → admit ids destinations e ≡ ok a
    accepts ids destinations e a v s i d =
        admit_of_IsValid ids destinations e v (ap (λ (x : Entry). seen ids x.id) (sym s) ∙ i)
          (ap (λ (x : Entry). seen destinations x.destination) (sym s) ∙ d)
        ∙ ap ok (sym s)
