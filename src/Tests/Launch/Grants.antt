-- ===== src/Tests/Launch/Grants.antt =====
-- internal/launch on three grants, two of which the third or the workspace makes superfluous.
use ai_config_selector.Prelude.{Bool, true, false, refl, ◌≡◌, ◌↔◌, ◌⊎◌, List, [], ◌∷◌, Any}
use ai_config_selector.Prelude.Bytes.{Bytes, codes, bytes_eq, bytes_lt, has_prefix}
use ai_config_selector.Prelude.Int.{pos}
use ai_config_selector.GoPath.{
  clean, render, components, clean_stack, clean_step, backtrack, split, join, join_tail, is_abs,
  rel, rel_walk, climb,
}
use ai_config_selector.GoPath.Rel.{Begins}
use ai_config_selector.Intent.Paths.{read_only, read_write}
use ai_config_selector.Launch.Paths.{
  within_or_equal, path_within, paths_overlap, under_any, protected_writable_root,
}
use ai_config_selector.Launch.Paths.Laws.{paths_overlap_iff, IsCleaned}
use ai_config_selector.Launch.Grants.{
  PathIdentity, FilesystemGrant, workspace_writable, less, insert_grant, sort_grants, in_workspace,
  dominates, any_dominates, is_effective, mark, reduce_filesystem_grants,
}
use ai_config_selector.Launch.Grants.Authority.{
  reduce_authority, Allows, AllowsEffectively, WorkspaceAllows,
}

abbrev identity : PathIdentity
identity = record {
  device = 1;
  inode = 2;
  mode = 0;
  links = 1;
  size = pos 0;
  modified_nanos = pos 0;
}

abbrev grant : Bytes → Bytes → Bytes → FilesystemGrant
grant id path access = record {
  id = id;
  access = access;
  type = codes "directory";
  logical_path = path;
  logical_witness = [];
  path = path;
  identity = identity;
  workspace_relative = false;
  workspace_logical_path = [];
  workspace_logical_witness = [];
  workspace_path = [];
  workspace_identity = identity;
  effective = true;
}

abbrev given : List FilesystemGrant
given =
    grant (codes "inner") (codes "/home/u/data/in") read_only
    ∷ grant (codes "docs") (codes "/w/docs") read_only
    ∷ grant (codes "data") (codes "/home/u/data") read_write
    ∷ []

abbrev reduced : List FilesystemGrant
reduced =
    grant (codes "data") (codes "/home/u/data") read_write
    ∷ record (grant (codes "inner") (codes "/home/u/data/in") read_only) { effective = false }
    ∷ record (grant (codes "docs") (codes "/w/docs") read_only) { effective = false }
    ∷ []

run_rel : Bytes → Bytes → Bool
unfolding within_or_equal path_within paths_overlap under_any protected_writable_root rel rel_walk
    climb clean render components clean_stack clean_step backtrack split join join_tail is_abs
    bytes_eq has_prefix
run_rel root candidate = within_or_equal root candidate

run_reduce : List FilesystemGrant → Bytes → Bytes → List FilesystemGrant
unfolding run_rel workspace_writable less insert_grant sort_grants in_workspace dominates
    any_dominates is_effective mark reduce_filesystem_grants bytes_lt bytes_eq
run_reduce gs workspace access = reduce_filesystem_grants gs workspace access

three_reduced : reduce_filesystem_grants given (codes "/w") (codes "read-only") ≡ reduced
unfolding run_reduce
three_reduced = refl

library_protected : protected_writable_root (codes "/Library/Fonts") ≡ true
unfolding run_rel
library_protected = refl

root-IsCleaned : IsCleaned (codes "/w")
unfolding run_rel
root-IsCleaned = record { absolute = refl; cleaned = refl }

docs-IsCleaned : IsCleaned (codes "/w/docs")
unfolding run_rel
docs-IsCleaned = record { absolute = refl; cleaned = refl }

paths_overlap_iff_example : (paths_overlap (codes "/w") (codes "/w/docs") ≡ true) ↔ (
    Begins (components (codes "/w")) (components (codes "/w/docs"))
    ⊎ Begins (components (codes "/w/docs")) (components (codes "/w")))
paths_overlap_iff_example =
    paths_overlap_iff (codes "/w") (codes "/w/docs") root-IsCleaned docs-IsCleaned

reduce_authority_example :
    (WorkspaceAllows (codes "/w") read_only (codes "/home/u/data/in/x") read_write
      ⊎ Any
          (AllowsEffectively (codes "/home/u/data/in/x") read_write)
          (reduce_filesystem_grants given (codes "/w") read_only))
    ↔ (WorkspaceAllows (codes "/w") read_only (codes "/home/u/data/in/x") read_write
        ⊎ Any (Allows (codes "/home/u/data/in/x") read_write) given)
reduce_authority_example =
    reduce_authority given (codes "/w") read_only (codes "/home/u/data/in/x") read_write
      root-IsCleaned.absolute (unfold is_abs in (refl, (refl, (refl, tt))))
