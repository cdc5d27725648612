-- ===== src/Intent/Schema.antt =====
-- What the Canonical functions of pathintent, exclusionintent, executableintent and
-- environmentintent have in common: a bound on the number of entries, a loop that admits each entry
-- under the identifiers and destinations met before it, and a sort by identifier.
pub mod Laws
pub mod Canonical
pub mod Checked
use ai_config_selector.Prelude.{
  ℕ, List, [], ◌∷◌, Result, ok, err, ◌>>=◌, ◌>>◌, refuse_if, ltb, length,
}
use ai_config_selector.Prelude.Bytes.{Bytes}
use ai_config_selector.Prelude.Order.{bytes_order}
use ai_config_selector.Prelude.Sort.{sort_by}

-- A schema's part in the loop. `admit seen_ids seen_destinations entry` is the body of the loop up
-- to where the maps of identifiers and destinations are written; it returns the entry as the loop
-- leaves it in the result.
pub record Schema (E Err : Type 0) : Type 0 where
  pub id : E → Bytes
  pub destination : E → Bytes
  pub admit : List Bytes → List Bytes → E → Result Err E
  pub maximum : ℕ
  pub too_many : Err

module _ {E Err : Type 0} (s : Schema E Err) where
  open s use {id, destination, admit, maximum, too_many}

  unfoldable pub admit_all : List Bytes → List Bytes → List E → Result Err (List E)
  admit_all ids destinations [] = ok []
  admit_all ids destinations (e ∷ es) = do
    a ← admit ids destinations e
    rest ← admit_all (id a ∷ ids) (destination a ∷ destinations) es
    ok (a ∷ rest)

  unfoldable pub canonical : List E → Result Err (List E)
  canonical es = do
    refuse_if (ltb maximum (length es)) too_many
    admitted ← admit_all [] [] es
    ok (sort_by id admitted)
