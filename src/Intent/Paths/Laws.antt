-- ===== src/Intent/Paths/Laws.antt =====
-- The path schema keeps identifiers and accepts what it returned.
use ai_config_selector.Prelude.{
  ◌≡◌, sym, ap, not, false, ◌||◌, ok, map_err, map_err-eq-ok, refuse_if-parts, >>=-parts,
  ok-injective,
}
use ai_config_selector.Prelude.Bytes.{bytes_eq}
use ai_config_selector.Intent.Schema.Laws.{Laws, Accepts}
use ai_config_selector.Intent.Schema.Checked.{checked-Laws, Accepts-validated}
use ai_config_selector.Intent.Reference.{Reference, validate_reference, maximum_entries}
use ai_config_selector.Intent.Reference.Laws.{validate_reference_again}
use ai_config_selector.Intent.Paths.{
  Entry, bad_id, bad_access, bad_type, bad_reference, duplicate_destination, too_many_entries,
  read_only, read_write, file, directory, validate, destination, schema,
}

pub record IsValid (e a : Entry) : Type 0 where
  pub access : not (bytes_eq e.access read_only || bytes_eq e.access read_write) ≡ false
  pub type : not (bytes_eq e.type file || bytes_eq e.type directory) ≡ false
  pub reference : Reference
  pub validated : validate_reference e.reference ≡ ok reference
  pub result : a ≡ record e { reference = reference }

pub validate-IsValid : (e a : Entry) → validate e ≡ ok a → IsValid e a
unfolding validate
validate-IsValid e a h =
    let (t, k) = refuse_if-parts _ bad_access _ h in
    let (u, l) = refuse_if-parts _ bad_type _ k in
    let (r, v, m) = >>=-parts (map_err bad_reference (validate_reference e.reference)) _ l in
    record {
      access = t;
      type = u;
      reference = r;
      validated = map_err-eq-ok bad_reference (validate_reference e.reference) v;
      result = sym (ok-injective m);
    }

pub id-validate : (e a : Entry) → validate e ≡ ok a → a.id ≡ e.id
id-validate e a h = ap (λ (x : Entry). x.id) (validate-IsValid e a h).result

pub validate_again : (e a : Entry) → validate e ≡ ok a → validate a ≡ ok a
validate_again e a h = again (validate-IsValid e a h)
  where
    again : IsValid e a → validate a ≡ ok a
    again v =
        let r : validate_reference v.reference ≡ ok v.reference =
          validate_reference_again e.reference v.reference v.validated in
        rw v.result (unfold validate in rw (v.access, v.type, r))

pub schema-Laws : Laws schema
schema-Laws =
    checked-Laws (λ e. e.id) destination validate bad_id duplicate_destination id-validate
      validate_again maximum_entries too_many_entries

pub Accepts-validate : (e a : Entry) → Accepts schema e a → validate e ≡ ok a
Accepts-validate =
    Accepts-validated (λ e. e.id) destination validate bad_id duplicate_destination id-validate
      validate_again maximum_entries too_many_entries
