-- ===== src/Launch/Grants/Authority.antt =====
-- internal/launch/path_grants.go: reducing the grants keeps the authority that they give.
use ai_config_selector.Prelude.{
  Bool, true, ◌≡◌, ◌≢◌, ◌↔◌, ◌⊎◌, inl, inr, refl, sym, ap, ◌∙◌, ◌||◌, List, [], ◌∷◌, ◌++◌, All,
  All-append, Any, arith, Bool-cases, &&_elim,
}
use ai_config_selector.Prelude.Bytes.{Bytes, bytes_eq, bytes_eq→eq}
use ai_config_selector.Intent.Paths.{read_only, read_write}
use ai_config_selector.GoPath.{is_abs, components}
use ai_config_selector.GoPath.Rel.{Begins}
use ai_config_selector.Launch.Paths.{within_or_equal}
use ai_config_selector.Launch.Paths.Laws.{within_or_equal_iff}
use ai_config_selector.Launch.Grants.{
  FilesystemGrant, workspace_writable, less, insert_grant, sort_grants, in_workspace, dominates,
  any_dominates, is_effective, mark, reduce_filesystem_grants,
}

-- The path is the root or lies below it.
abbrev pub Below : Bytes → Bytes → Type 0
Below root path = Begins (components root) (components path)

-- The grant allows the access to the path.
abbrev pub Allows : Bytes → Bytes → FilesystemGrant → Type 0
Allows path access g = Below g.path path × ((g.access ≡ read_write) ⊎ (access ≡ read_only))

abbrev pub AllowsEffectively : Bytes → Bytes → FilesystemGrant → Type 0
AllowsEffectively path access g = (g.effective ≡ true) × Allows path access g

-- So does the access to the workspace.
abbrev pub WorkspaceAllows : Bytes → Bytes → Bytes → Bytes → Type 0
WorkspaceAllows workspace workspace_access path access =
    Below workspace path × ((access ≡ read_only) ⊎ (workspace_writable workspace_access ≡ true))

abbrev pub IsAbsolute : FilesystemGrant → Type 0
IsAbsolute g = is_abs g.path ≡ true

append_assoc : (xs ys zs : List Bytes) → (xs ++ ys) ++ zs ≡ xs ++ (ys ++ zs)
append_assoc [] ys zs = refl
append_assoc (x ∷ xs) ys zs = ap (λ l. x ∷ l) (append_assoc xs ys zs)

Begins-trans : (a b c : List Bytes) → Begins a b → Begins b c → Begins a c
Begins-trans a b c (r, e) (s, f) = (r ++ s, f ∙ ap (λ l. l ++ s) e ∙ append_assoc a r s)

Any-insert_grant :
    (P : FilesystemGrant → Type 0) (g : FilesystemGrant) (gs : List FilesystemGrant)
    → Any P (insert_grant g gs) ↔ (P g ⊎ Any P gs)
unfolding insert_grant
Any-insert_grant P g [] = (λ h. h, λ h. h)
Any-insert_grant P g (h ∷ hs) = elim (Bool-cases (less h g)) [
  | inl e ↦ rw e (let (f, b) = Any-insert_grant P g hs in (ground arith, ground arith))
  | inr e ↦ rw e ((λ k. k), (λ k. k))
]

Any-sort_grants :
    (P : FilesystemGrant → Type 0) (gs : List FilesystemGrant) → Any P (sort_grants gs) ↔ Any P gs
unfolding sort_grants
Any-sort_grants P [] = (λ h. h, λ h. h)
Any-sort_grants P (g ∷ gs) =
    let (f, b) = Any-insert_grant P g (sort_grants gs) in
    let (i, j) = Any-sort_grants P gs in (ground arith, ground arith)

All-insert_grant :
    (P : FilesystemGrant → Type 0) (g : FilesystemGrant) (gs : List FilesystemGrant)
    → P g
    → All P gs
    → All P (insert_grant g gs)
unfolding insert_grant
All-insert_grant P g [] p h = (p, tt)
All-insert_grant P g (k ∷ ks) p h = elim (Bool-cases (less k g)) [
  | inl e ↦ rw e (h.0, All-insert_grant P g ks p h.1)
  | inr e ↦ rw e (p, h)
]

pub All-sort_grants :
    (P : FilesystemGrant → Type 0) (gs : List FilesystemGrant) → All P gs → All P (sort_grants gs)
unfolding sort_grants
All-sort_grants P [] h = tt
All-sort_grants P (g ∷ gs) h = All-insert_grant P g (sort_grants gs) h.0 (All-sort_grants P gs h.1)

Any-append-left :
    (P : FilesystemGrant → Type 0) (xs ys : List FilesystemGrant) → Any P xs → Any P (xs ++ ys)
Any-append-left P [] ys h = absurd h
Any-append-left P (x ∷ xs) ys (inl h) = inl h
Any-append-left P (x ∷ xs) ys (inr h) = inr (Any-append-left P xs ys h)

Any-append-last :
    (P : FilesystemGrant → Type 0) (xs : List FilesystemGrant) (y : FilesystemGrant)
    → P y
    → Any P (xs ++ (y ∷ []))
Any-append-last P [] y h = inl h
Any-append-last P (x ∷ xs) y h = inr (Any-append-last P xs y h)

Any-append-parts :
    (P : FilesystemGrant → Type 0) (xs : List FilesystemGrant) (y : FilesystemGrant)
    → Any P (xs ++ (y ∷ []))
    → Any P xs ⊎ P y
Any-append-parts P [] y (inl h) = inr h
Any-append-parts P [] y (inr h) = absurd h
Any-append-parts P (x ∷ xs) y (inl h) = inl (inl h)
Any-append-parts P (x ∷ xs) y (inr h) = elim (Any-append-parts P xs y h) [
  | inl k ↦ inl (inr k)
  | inr k ↦ inr k
]

||_elim_true : (a b : Bool) → (a || b) ≡ true → (a ≡ true) ⊎ (b ≡ true)
||_elim_true a b h = ground arith

read_only-ne-read_write : read_only ≢ read_write
read_only-ne-read_write e = cc e

-- What a grant that allows more than reading, or only that, passes on to what covers it.
passed_on :
    (g : FilesystemGrant) (access : Bytes)
    → ((g.access ≡ read_write) ⊎ (access ≡ read_only))
    → g.access ≡ read_only
    → access ≡ read_only
passed_on g access (inl e) r = absurd (read_only-ne-read_write (sym r ∙ e))
passed_on g access (inr e) r = e

module _ (workspace workspace_access path access : Bytes) (w : is_abs workspace ≡ true) where
  in_workspace-WorkspaceAllows :
      (g : FilesystemGrant)
      → IsAbsolute g
      → in_workspace workspace workspace_access g ≡ true
      → Allows path access g
      → WorkspaceAllows workspace workspace_access path access
  unfolding in_workspace
  in_workspace-WorkspaceAllows g a h (below, allowed) =
      let (i, k) = &&_elim (within_or_equal workspace g.path) _ h in
      let b = (within_or_equal_iff workspace g.path w a).0 i in
      (
        Begins-trans (components workspace) (components g.path) (components path) b below,
        elim (||_elim_true (bytes_eq g.access read_only) (workspace_writable workspace_access) k) [
          | inl r ↦ inl (passed_on g access allowed (bytes_eq→eq g.access read_only r))
          | inr r ↦ inr r
        ],
      )

  dominates-AllowsEffectively :
      (c g : FilesystemGrant)
      → IsAbsolute c
      → IsAbsolute g
      → dominates c g ≡ true
      → Allows path access g
      → AllowsEffectively path access c
  unfolding dominates
  dominates-AllowsEffectively c g ac ag h (below, allowed) =
      let (e, k) = &&_elim c.effective _ h in
      let (i, l) = &&_elim (within_or_equal c.path g.path) _ k in
      let b = (within_or_equal_iff c.path g.path ac ag).0 i in
      (
        e,
        (
          Begins-trans (components c.path) (components g.path) (components path) b below,
          elim (||_elim_true (bytes_eq c.access read_write) (bytes_eq g.access read_only) l) [
            | inl r ↦ inl (bytes_eq→eq c.access read_write r)
            | inr r ↦ inr (passed_on g access allowed (bytes_eq→eq g.access read_only r))
          ],
        ),
      )

  any_dominates-Any :
      (result : List FilesystemGrant) (g : FilesystemGrant)
      → All IsAbsolute result
      → IsAbsolute g
      → any_dominates result g ≡ true
      → Allows path access g
      → Any (AllowsEffectively path access) result
  unfolding any_dominates
  any_dominates-Any [] g ar a h k = absurd (cc h)
  any_dominates-Any (c ∷ result) g ar a h k =
      elim (||_elim_true (dominates c g) (any_dominates result g) h) [
        | inl d ↦ inl (dominates-AllowsEffectively c g ar.0 a d k)
        | inr d ↦ inr (any_dominates-Any result g ar.1 a d k)
      ]

  -- Each way in which the loop treats a grant leaves what it allows allowed.
  step_keeps :
      (result : List FilesystemGrant) (g : FilesystemGrant)
      → All IsAbsolute result
      → IsAbsolute g
      → Allows path access g
      → (is_effective workspace workspace_access result g ≡ true)
        ⊎ (Any (AllowsEffectively path access) result
            ⊎ WorkspaceAllows workspace workspace_access path access)
  unfolding is_effective
  step_keeps result g ar a k = elim (Bool-cases (in_workspace workspace workspace_access g)) [
    | inl i ↦ inr (inr (in_workspace-WorkspaceAllows g a i k))
    | inr i ↦ elim (Bool-cases (any_dominates result g)) [
      | inl d ↦ inr (inl (any_dominates-Any result g ar a d k))
      | inr d ↦ inl (ground arith)
    ]
  ]

  mark_keeps :
      (result gs : List FilesystemGrant)
      → All IsAbsolute result
      → All IsAbsolute gs
      → Any (AllowsEffectively path access) result ⊎ Any (Allows path access) gs
      → Any (AllowsEffectively path access) (mark workspace workspace_access result gs)
        ⊎ WorkspaceAllows workspace workspace_access path access
  unfolding mark
  mark_keeps result [] ar ag h = elim h [ inl k ↦ inl k | inr k ↦ absurd k ]
  mark_keeps result (g ∷ gs) ar ag h =
      let P = AllowsEffectively path access in
      let marked : FilesystemGrant = record g {
        effective = is_effective workspace workspace_access result g;
      } in
      let next = result ++ (marked ∷ []) in
      let an = All-append IsAbsolute result (marked ∷ []) ar (ag.0, tt) in
      let rest = mark_keeps next gs an ag.1 in
      elim h [
        | inl k ↦ rest (inl (Any-append-left P result (marked ∷ []) k))
        | inr (inr k) ↦ rest (inr k)
        | inr (inl k) ↦ elim (step_keeps result g ar ag.0 k) [
          | inl e ↦ rest (inl (Any-append-last P result marked (e, k)))
          | inr (inl e) ↦ rest (inl (Any-append-left P result (marked ∷ []) e))
          | inr (inr e) ↦ inr e
        ]
      ]

  mark_adds_nothing :
      (result gs : List FilesystemGrant)
      → Any (AllowsEffectively path access) (mark workspace workspace_access result gs)
      → Any (AllowsEffectively path access) result ⊎ Any (Allows path access) gs
  unfolding mark
  mark_adds_nothing result [] h = inl h
  mark_adds_nothing result (g ∷ gs) h =
      let P = AllowsEffectively path access in
      let marked : FilesystemGrant = record g {
        effective = is_effective workspace workspace_access result g;
      } in
      elim (mark_adds_nothing (result ++ (marked ∷ [])) gs h) [
        | inr k ↦ inr (inr k)
        | inl k ↦ elim (Any-append-parts P result marked k) [
          | inl e ↦ inl e
          | inr e ↦ inr (inl e.1)
        ]
      ]

-- Reducing grants of absolute paths keeps the authority on every path: an access to it is allowed
-- by the workspace or an effective grant of the result exactly if it is allowed by the workspace or
-- one of the grants given.
pub reduce_authority :
    (grants : List FilesystemGrant) (workspace workspace_access path access : Bytes)
    → is_abs workspace ≡ true
    → All IsAbsolute grants
    → (WorkspaceAllows workspace workspace_access path access
        ⊎ Any
            (AllowsEffectively path access)
            (reduce_filesystem_grants grants workspace workspace_access))
      ↔ (WorkspaceAllows workspace workspace_access path access ⊎ Any (Allows path access) grants)
unfolding reduce_filesystem_grants
reduce_authority grants workspace workspace_access path access w a =
    let sorted = sort_grants grants in
    let (f, b) = Any-sort_grants (Allows path access) grants in
    (
      λ h. elim h [
        | inl k ↦ inl k
        | inr k ↦ elim (mark_adds_nothing workspace workspace_access path access w [] sorted k) [
          | inl e ↦ absurd e
          | inr e ↦ inr (f e)
        ]
      ],
      λ h. elim h [
        | inl k ↦ inl k
        | inr k ↦
            elim (mark_keeps workspace workspace_access path access w [] sorted tt
              (All-sort_grants IsAbsolute grants a) (inr (b k))) [ inl e ↦ inr e | inr e ↦ inl e ]
      ],
    )

mark-All :
    (P : FilesystemGrant → Type 0) (workspace access : Bytes)
    → ((g : FilesystemGrant) (e : Bool) → P g → P (record g { effective = e }))
    → (result gs : List FilesystemGrant) → All P result
    → All P gs
    → All P (mark workspace access result gs)
unfolding mark
mark-All P workspace access same result [] r h = r
mark-All P workspace access same result (g ∷ gs) r h =
    let e = is_effective workspace access result g in
    mark-All P workspace access same (result ++ (record g { effective = e } ∷ [])) gs
      (All-append P result (record g { effective = e } ∷ []) r (same g e h.0, tt)) h.1

-- A property of grants that does not depend on being effective holds after the reduction.
pub reduce_filesystem_grants-All :
    (P : FilesystemGrant → Type 0)
    → ((g : FilesystemGrant) (e : Bool) → P g → P (record g { effective = e }))
    → (grants : List FilesystemGrant) (workspace access : Bytes) → All P grants
    → All P (reduce_filesystem_grants grants workspace access)
unfolding reduce_filesystem_grants
reduce_filesystem_grants-All P same grants workspace access h =
    mark-All P workspace access same [] (sort_grants grants) tt (All-sort_grants P grants h)
