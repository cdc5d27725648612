-- ===== src/Release/Publication/Plans.antt =====
-- internal/release/publication/plan.go: what the plans of Plan for an existing release allow.
use ai_config_selector.Prelude.{
  true, false, ◌≡◌, ◌≢◌, ◌++◌, not, inl, inr, refl, sym, List, [], ◌∷◌, All, Any, ok, arith,
  >>=-parts, refuse_if-parts, ok-injective, Bool-cases, ||_elim_false, subst,
}
use ai_config_selector.Prelude.Bytes.{Bytes, codes, bytes_eq, bytes_eq→eq}
use ai_config_selector.Prelude.Distinct.{Distinct}
use ai_config_selector.Prelude.Int.{pos, ltb_ℤ}
use ai_config_selector.Release.Publication.{
  LocalAsset, ReleaseAsset, Release, PublicationPlan, State, create_draft, resume_draft,
  publish_draft, complete, PlanError, release_identity, unexpected_prerelease, collect,
  missing_assets, decide, identity_differs, plan_existing,
}
use ai_config_selector.Release.Publication.Assets.{
  Absent, IsUploaded, IsMissing, collect-IsCollected, missing_assets-IsMissing, reverse_onto,
  reverse_onto-All, reverse_onto-Any,
}

-- What each state of a plan says of the release, and what the plan then does.
abbrev pub Decides : Release → List Bytes → PublicationPlan → State → Type 0
Decides r missing p create_draft = ⊥
Decides r missing p resume_draft =
    (r.draft ≡ true) × (r.immutable ≡ false) × (missing ≢ []) × (p.publish ≡ false)
Decides r missing p publish_draft =
    (r.draft ≡ true) × (r.immutable ≡ false) × (missing ≡ []) × (p.publish ≡ true)
Decides r missing p complete =
    (r.draft ≡ false) × (r.immutable ≡ true) × (missing ≡ []) × (p.publish ≡ false)

abbrev Outcome : Release → List Bytes → PublicationPlan → Type 0
Outcome r missing p = (p.upload ≡ missing) × (p.release_id ≡ r.id) × Decides r missing p p.state

abbrev pub completed : Release → PublicationPlan
completed r = record { state = complete; release_id = r.id; upload = []; publish = false }

abbrev publishing : Release → PublicationPlan
publishing r = record { state = publish_draft; release_id = r.id; upload = []; publish = true }

abbrev resuming : Release → List Bytes → PublicationPlan
resuming r ms = record { state = resume_draft; release_id = r.id; upload = ms; publish = false }

decide-Outcome :
    (r : Release) (missing : List Bytes) (p : PublicationPlan)
    → decide r missing ≡ ok p
    → Outcome r missing p
unfolding decide
decide-Outcome r [] p h = elim (Bool-cases r.draft) [
  | inl d ↦ elim (Bool-cases r.immutable) [
    | inl i ↦ ground arith
    | inr i ↦
        subst (Outcome r []) (ok-injective {E = PlanError} {a = publishing r} (ground arith))
          (refl, refl, (d, i, refl, refl))
  ]
  | inr d ↦ elim (Bool-cases r.immutable) [
    | inl i ↦
        subst (Outcome r []) (ok-injective {E = PlanError} {a = completed r} (ground arith))
          (refl, refl, (d, i, refl, refl))
    | inr i ↦ ground arith
  ]
]
decide-Outcome r (m ∷ ms) p h = elim (Bool-cases r.draft) [
  | inl d ↦ elim (Bool-cases r.immutable) [
    | inl i ↦ ground arith
    | inr i ↦
        subst (Outcome r (m ∷ ms))
          (ok-injective {E = PlanError} {a = resuming r (m ∷ ms)} (ground arith))
          (refl, refl, (d, i, (λ e. cc e), refl))
  ]
  | inr d ↦ elim (Bool-cases r.immutable) [ inl i ↦ ground arith | inr i ↦ ground arith ]
]

-- The release is the one of this version and commit.
pub record IsIdentified (version commit notes : Bytes) (r : Release) : Type 0 where
  pub id : ltb_ℤ (pos 0) r.id ≡ true
  pub tag_name : r.tag_name ≡ version
  pub target_commitish : r.target_commitish ≡ commit
  pub name : r.name ≡ codes "ACS " ++ version
  pub body : r.body ≡ notes
  pub prerelease : r.prerelease ≡ false

identity_differs-IsIdentified :
    (version commit notes : Bytes) (r : Release)
    → identity_differs version commit notes r ≡ false
    → r.prerelease ≡ false
    → IsIdentified version commit notes r
unfolding identity_differs
identity_differs-IsIdentified version commit notes r h k =
    let (i, h₁) = ||_elim_false (not (ltb_ℤ (pos 0) r.id)) _ h in
    let (t, h₂) = ||_elim_false (not (bytes_eq r.tag_name version)) _ h₁ in
    let (c, h₃) = ||_elim_false (not (bytes_eq r.target_commitish commit)) _ h₂ in
    let (n, b) =
      ||_elim_false (not (bytes_eq r.name (codes "ACS " ++ version))) (not (bytes_eq r.body notes))
        h₃ in
    record {
      id = ground arith;
      tag_name = bytes_eq→eq r.tag_name version (ground arith);
      target_commitish = bytes_eq→eq r.target_commitish commit (ground arith);
      name = bytes_eq→eq r.name (codes "ACS " ++ version) (ground arith);
      body = bytes_eq→eq r.body notes (ground arith);
      prerelease = k;
    }

-- A plan that only goes forward from the release.
pub record IsForward (local : List LocalAsset) (r : Release) (p : PublicationPlan) : Type 0 where
  pub release_id : p.release_id ≡ r.id
  pub known : All (λ (a : ReleaseAsset). Any (λ (l : LocalAsset). l.name ≡ a.name) local) r.assets
  pub distinct : Distinct (λ (a : ReleaseAsset). a.name) r.assets
  pub missing : IsMissing r.assets local p.upload
  pub decides : Decides r p.upload p p.state

Absent-of_reverse :
    (xs : List ReleaseAsset) (n : Bytes) → Absent (reverse_onto xs []) n → Absent xs n
Absent-of_reverse xs n h = (reverse_onto-All (λ (a : ReleaseAsset). a.name ≢ n) xs [] h).0

Any-of_reverse :
    (P : ReleaseAsset → Type 0) (xs : List ReleaseAsset) → Any P (reverse_onto xs []) → Any P xs
Any-of_reverse P xs h = elim (reverse_onto-Any P xs [] h) [ inl k ↦ k | inr k ↦ absurd k ]

IsMissing-of_reverse :
    (xs : List ReleaseAsset) (ls : List LocalAsset) (ms : List Bytes)
    → IsMissing (reverse_onto xs []) ls ms
    → IsMissing xs ls ms
IsMissing-of_reverse xs [] [] h = tt
IsMissing-of_reverse xs [] (m ∷ ms) h = absurd h
IsMissing-of_reverse xs (l ∷ ls) ms (inl h) =
    inl (Any-of_reverse (IsUploaded l) xs h.0, IsMissing-of_reverse xs ls ms h.1)
IsMissing-of_reverse xs (l ∷ ls) ms (inr (a, ns, e, h)) =
    inr (Absent-of_reverse xs l.name a, ns, e, IsMissing-of_reverse xs ls ns h)

-- If Plan succeeds for an existing release, then the release has the version, the commit, the name
-- and the notes asked for and is no prerelease; its assets have distinct names, each the name of a
-- local asset; the names to upload are those of the local assets that the release lacks, in order,
-- and each other local asset is on the release with its size and digest; and the plan is to resume a
-- mutable draft if something is to be uploaded, to publish a mutable draft if nothing is, and
-- complete only for a published, immutable release that lacks nothing.
pub plan_existing-IsForward :
    (local : List LocalAsset) (version commit notes : Bytes) (r : Release) (p : PublicationPlan)
    → plan_existing local version commit notes r ≡ ok p
    → IsIdentified version commit notes r × IsForward local r p
unfolding plan_existing
plan_existing-IsForward local version commit notes r p h =
    let (i, h₁) = refuse_if-parts (identity_differs version commit notes r) release_identity _ h in
    let (k, h₂) = refuse_if-parts r.prerelease unexpected_prerelease _ h₁ in
    let (existing, c, h₃) = >>=-parts (collect local [] r.assets) _ h₂ in
    let (missing, m, d) = >>=-parts (missing_assets existing local) (λ ms. decide r ms) h₃ in
    let collected = collect-IsCollected local [] r.assets existing c in
    let (u, id, decides) = decide-Outcome r missing p d in
    let absent = missing_assets-IsMissing existing local missing m in
    (
      identity_differs-IsIdentified version commit notes r i k,
      record {
        release_id = id;
        known = collected.known;
        distinct = collected.distinct;
        missing = subst (IsMissing r.assets local) (sym u) (
            IsMissing-of_reverse r.assets local missing
              (subst (λ xs. IsMissing xs local missing) collected.after_eq absent));
        decides = subst (λ ms. Decides r ms p p.state) (sym u) decides;
      },
    )

identity-published :
    (version commit notes : Bytes) (r : Release)
    → identity_differs version commit notes (record r { draft = false; immutable = true })
      ≡ identity_differs version commit notes r
unfolding identity_differs
identity-published version commit notes r = refl

decide-published :
    (r : Release) (missing : List Bytes) (p : PublicationPlan)
    → decide r missing ≡ ok p
    → p.publish ≡ true
    → decide (record r { draft = false; immutable = true }) missing ≡ ok (completed r)
unfolding decide
decide-published r [] p h k = refl
decide-published r (m ∷ ms) p h k =
    let (u, id, d) = decide-Outcome r (m ∷ ms) p h in absurd (impossible p.state d)
  where
    impossible : (s : State) → Decides r (m ∷ ms) p s → ⊥
    impossible create_draft d = d
    impossible resume_draft (a, b, c, e) = cc (k, e)
    impossible publish_draft (a, b, c, e) = cc c
    impossible complete (a, b, c, e) = cc c

-- Once a release for which Plan says to publish is published and immutable, with nothing else
-- changed, Plan says that it is complete and leaves nothing to do.
pub plan_existing-published :
    (local : List LocalAsset) (version commit notes : Bytes) (r : Release) (p : PublicationPlan)
    → plan_existing local version commit notes r ≡ ok p
    → p.publish ≡ true
    → plan_existing local version commit notes (record r { draft = false; immutable = true })
      ≡ ok (completed r)
unfolding plan_existing decide
plan_existing-published local version commit notes r p h k =
    let (i, h₁) = refuse_if-parts (identity_differs version commit notes r) release_identity _ h in
    let (q, h₂) = refuse_if-parts r.prerelease unexpected_prerelease _ h₁ in
    let (existing, c, h₃) = >>=-parts (collect local [] r.assets) _ h₂ in
    let (missing, m, d) = >>=-parts (missing_assets existing local) (λ ms. decide r ms) h₃ in
    rw (identity-published version commit notes r, i, q, c, m) (decide-published r missing p d k)
