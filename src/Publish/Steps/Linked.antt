-- ===== src/Publish/Steps/Linked.antt =====
-- PublishPage.jsx: what the objects of the wizard say of one another. The inclusions that an offer
-- may choose from, and the tree of the review step.
use ion_insurance_testapp.Prelude.{
  String, Bool, false, not, ◌&&◌, ◌||◌, ◌≡◌, ◌≢◌, refl, List, [], ◌∷◌, ◌++◌, map, str_eq,
  if◌then◌else◌, keep, every, nonempty, arith, eq_iff, All, inl, inr, Bool-cases, sym, ◌∙◌,
}
use ion_insurance_testapp.Js.{is_empty}
use ion_insurance_testapp.Publish.Items.{
  Provider, Catalog, Resource, Offer, coverage_inclusion_codes,
}
use ion_insurance_testapp.Publish.Forms.Lists.{includes}

-- `[...new Set(xs)]`: each text once, where it stands first.
unfoldable pub dedup : List String → List String
dedup [] = []
dedup (x ∷ xs) = let rest = dedup xs in x ∷ keep (λ y. not (str_eq y x)) rest

-- The inclusions of the resources that the offer links.
unfoldable pub linked_inclusions : List Resource → List String → List String
linked_inclusions [] ids = []
linked_inclusions (r ∷ rs) ids =
    let rest = linked_inclusions rs ids in
    if includes r.id ids then r.resource_attributes.coverage_inclusions ++ rest else rest

unfoldable pub available_inclusions : List Resource → Offer → List String
unfolding dedup linked_inclusions
available_inclusions resources o =
    let linked = linked_inclusions resources o.resource_ids in
    if nonempty linked then dedup linked else coverage_inclusion_codes

-- The branch of the review tree under one provider.
pub record Branch : Type 0 where
  pub provider : Provider
  pub catalogs : List Catalog
  pub resources : List (Resource × List Offer)

unfoldable pub branch : List Catalog → List Resource → List Offer → Provider → Branch
branch catalogs resources offers p =
    let unowned = every (λ (r : Resource). is_empty r.provider_id) resources in
    record {
      provider = p;
      catalogs = keep (λ (c : Catalog). str_eq c.provider_id p.id) catalogs;
      resources =
          map (λ (r : Resource). (r, keep (λ (o : Offer). includes r.id o.resource_ids) offers))
            (keep (λ (r : Resource). str_eq r.provider_id p.id || unowned) resources);
    }

-- `ReviewStep`
unfoldable pub review : List Provider → List Catalog → List Resource → List Offer → List Branch
unfolding branch
review providers catalogs resources offers = map (branch catalogs resources offers) providers

includes-keep_ne :
    (x q : String) (xs : List String)
    → includes q (keep (λ y. not (str_eq y x)) xs) ≡ (includes q xs && not (str_eq q x))
includes-keep_ne x q [] = refl
includes-keep_ne x q (y ∷ xs) =
    ground (arith, includes-keep_ne x q xs, eq_iff y x, eq_iff y q, eq_iff q x)

includes-dedup : (q : String) (xs : List String) → includes q (dedup xs) ≡ includes q xs
unfolding dedup
includes-dedup q [] = refl
includes-dedup q (x ∷ xs) =
    ground (arith, includes-keep_ne x q (dedup xs), includes-dedup q xs, eq_iff x q, eq_iff q x)

abbrev pub IsNodup : List String → Type 0
IsNodup [] = Unit
IsNodup (x ∷ xs) = (includes x xs ≡ false) × IsNodup xs

includes-keep-false :
    (p : String → Bool) (q : String) (xs : List String)
    → includes q xs ≡ false
    → includes q (keep p xs) ≡ false
includes-keep-false p q [] h = refl
includes-keep-false p q (x ∷ xs) h = ground (arith, includes-keep-false p q xs)

IsNodup-keep : (p : String → Bool) (xs : List String) → IsNodup xs → IsNodup (keep p xs)
IsNodup-keep p [] h = tt
IsNodup-keep p (x ∷ xs) h = elim (Bool-cases (p x)) [
  | inl kept ↦ rw kept (includes-keep-false p x xs h.0, IsNodup-keep p xs h.1)
  | inr cut ↦ rw cut (IsNodup-keep p xs h.1)
]

dedup-IsNodup : (xs : List String) → IsNodup (dedup xs)
unfolding dedup
dedup-IsNodup [] = tt
dedup-IsNodup (x ∷ xs) = (
  ground (arith, includes-keep_ne x x (dedup xs), eq_iff x x),
  IsNodup-keep (λ y. not (str_eq y x)) (dedup xs) (dedup-IsNodup xs),
)

codes-IsNodup : IsNodup coverage_inclusion_codes
codes-IsNodup = (refl, (refl, (refl, (refl, (refl, (refl, (refl, (refl, (refl, tt)))))))))

-- The panel of an offer lists no inclusion twice. It lists those of the linked resources, or all
-- nine codes where these have none.
pub available_inclusions_lem :
    (resources : List Resource) (o : Offer) (q : String)
    → IsNodup (available_inclusions resources o)
      × (includes q (available_inclusions resources o) ≡ (
          let linked = linked_inclusions resources o.resource_ids in
          if nonempty linked then includes q linked else includes q coverage_inclusion_codes))
unfolding available_inclusions
available_inclusions_lem resources o q =
    elim (Bool-cases (nonempty (linked_inclusions resources o.resource_ids))) [
      | inl some_linked ↦ rw some_linked (dedup-IsNodup _, includes-dedup q _)
      | inr bare ↦ rw bare (codes-IsNodup, refl)
    ]

-- A resource is shown with the provider that it names.
module _ (catalogs : List Catalog) (resources : List Resource) (offers : List Offer) where
  Owned-branch :
      (p : Provider) (rs : List Resource)
      → p.id ≢ ""
      → All
          (λ (x : Resource × List Offer). x.0.provider_id ≢ "")
          (map
            (λ (r : Resource). (r, keep (λ (o : Offer). includes r.id o.resource_ids) offers))
            (keep (λ (r : Resource). str_eq r.provider_id p.id || false) rs))
  Owned-branch p [] h = tt
  Owned-branch p (r ∷ rs) h = elim (Bool-cases (str_eq r.provider_id p.id)) [
    | inl own ↦ rw own ((λ e. h (sym ((eq_iff r.provider_id p.id).0 own) ∙ e)), Owned-branch p rs h)
    | inr other ↦ rw other (Owned-branch p rs h)
  ]

  -- As soon as one resource names a provider, a resource that names none is shown nowhere in the
  -- review, although publishing creates it.
  pub review-unowned :
      (providers : List Provider)
      → All (λ (p : Provider). p.id ≢ "") providers
      → every (λ (r : Resource). is_empty r.provider_id) resources ≡ false
      → All
          (λ (b : Branch). All (λ (x : Resource × List Offer). x.0.provider_id ≢ "") b.resources)
          (review providers catalogs resources offers)
  unfolding review
  review-unowned [] h e = tt
  review-unowned (p ∷ ps) h e = (rw e (Owned-branch p resources h.0), review-unowned ps h.1 e)
