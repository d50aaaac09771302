-- ===== src/Publish/Submit/Created.antt =====
-- The requests of a successful run of publishing that save resources: `handlePublish` of
-- PublishPage.jsx.
use ion_insurance_testapp.Prelude.{
  ℕ, ◌≡◌, refl, sym, ap, ◌∙◌, Bool, true, false, List, [], ◌∷◌, ◌++◌, map, Option, none, some, keep,
  arith,
}
use mathlib.Core.List.{append_assoc, append-nil}
use ion_insurance_testapp.Publish.Items.{Provider, Catalog, Resource, Offer}
use ion_insurance_testapp.Publish.Submit.{
  Request, create_resource, Reply, ok, Run, ◌>>=◌, pure, IdMap, post, Owner, owner_or_first,
  owner_of, offer_request, save_providers, save_resources, save_offer, save_offers,
  publish_catalogs, save_ids, publish_all,
}
use ion_insurance_testapp.Publish.Submit.Order.{and_then_ok}

abbrev pub is_create : Request → Bool
is_create (create_resource _ _ _ _ _ _ _) = true
is_create _ = false

abbrev pub creates : List Request → List Request
creates rs = keep is_create rs

-- The provider sent with a resource.
abbrev pub sent_owner : List Provider → Resource → Option Owner
sent_owner providers r = elim (owner_or_first r.provider_id providers) [
  | none ↦ none
  | some p ↦ some (owner_of p)
]

-- The request for a resource.
abbrev pub resource_request : List Provider → Resource → Request
resource_request providers r =
    let a = r.resource_attributes in
    create_resource a.product_type a.vehicle_type a.ojk_product_code a r.descriptor r.category
      (sent_owner providers r)

creates-append : (xs ys : List Request) → creates (xs ++ ys) ≡ creates xs ++ creates ys
creates-append [] ys = refl
creates-append (x ∷ xs) ys = ground (arith, creates-append xs ys)

creates-offer_request :
    (resources : List Resource) (id : ℕ) (o : Offer)
    → creates (offer_request resources id o ∷ []) ≡ []
unfolding offer_request
creates-offer_request resources id o = ground arith

-- A run that succeeds has sent these requests for resources, after those before it.
record Adds {A : Type 0} (rs : List Request) (m : Run A) : Type 0 where
  holds :
      (sent : List Request) (a : A) → (m sent).0 ≡ ok a → creates (m sent).1 ≡ creates sent ++ rs

bind-Adds :
    {A B : Type 0} (m : Run A) (k : A → Run B) (rs ss all : List Request)
    → rs ++ ss ≡ all
    → Adds rs m
    → ((a : A) → Adds ss (k a))
    → Adds all (m >>= k)
bind-Adds m k rs ss all whole s t = record {
  holds = λ sent b e.
      let (a, first, rest) = and_then_ok k (m sent).0 (m sent).1 b e in
      ap (λ o. creates o.1) rest
      ∙ (t a).holds (m sent).1 b (ap (λ o. o.0) (sym rest) ∙ e)
      ∙ ap (λ (l : List Request). l ++ ss) (s.holds sent a first)
      ∙ append_assoc (creates sent) rs ss
      ∙ ap (λ (l : List Request). creates sent ++ l) whole;
}

pure-Adds : {A : Type 0} (a : A) → Adds [] (pure a)
pure-Adds a = record { holds = λ sent b e. sym (append-nil (creates sent)) }

module _ (server : List Request → Request → Reply) where
  post-Adds : (r : Request) → Adds (creates (r ∷ [])) (post server r)
  unfolding post
  post-Adds r = record { holds = λ sent b e. creates-append sent (r ∷ []) }

  save_providers-Adds : (ps : List Provider) (ids : IdMap) → Adds [] (save_providers server ps ids)
  unfolding save_providers
  save_providers-Adds [] ids = pure-Adds ids
  save_providers-Adds (p ∷ ps) ids =
      bind-Adds _ _ [] [] [] refl (post-Adds _) (λ reply. save_providers-Adds ps _)

  save_resources-Adds :
      (providers : List Provider) (rs : List Resource) (ids : IdMap)
      → Adds (map (resource_request providers) rs) (save_resources server providers rs ids)
  unfolding save_resources
  save_resources-Adds providers [] ids = pure-Adds ids
  save_resources-Adds providers (r ∷ rs) ids =
      bind-Adds _ _ (resource_request providers r ∷ []) (map (resource_request providers) rs) _ refl
        (post-Adds _) (λ reply. save_resources-Adds providers rs _)

  save_offer-Adds :
      (resources : List Resource) (id : Option ℕ) (o : Offer)
      → Adds [] (save_offer server resources id o)
  unfolding save_offer
  save_offer-Adds resources none o = pure-Adds tt
  save_offer-Adds resources (some id) o =
      bind-Adds _ _ (creates (offer_request resources id o ∷ [])) [] []
        (ap (λ (l : List Request). l ++ []) (creates-offer_request resources id o)) (post-Adds _)
        (λ reply. pure-Adds tt)

  save_offers-Adds :
      (resources : List Resource) (ids : IdMap) (os : List Offer)
      → Adds [] (save_offers server resources ids os)
  unfolding save_offers
  save_offers-Adds resources ids [] = pure-Adds tt
  save_offers-Adds resources ids (o ∷ os) =
      bind-Adds _ _ [] [] [] refl (save_offer-Adds resources _ o)
        (λ _. save_offers-Adds resources ids os)

  publish_catalogs-Adds :
      (providers : List Provider) (ids : IdMap) (cs : List Catalog)
      → Adds [] (publish_catalogs server providers ids cs)
  unfolding publish_catalogs
  publish_catalogs-Adds providers ids [] = pure-Adds tt
  publish_catalogs-Adds providers ids (c ∷ cs) = bind-Adds _ _ [] [] [] refl (post-Adds _) (λ reply.
      bind-Adds _ _ [] [] [] refl (post-Adds _) (λ _. publish_catalogs-Adds providers ids cs))

  save_ids-Adds :
      (providers : List Provider) (resources : List Resource)
      → Adds (map (resource_request providers) resources) (save_ids server providers resources)
  unfolding save_ids
  save_ids-Adds providers resources =
      let rs = map (resource_request providers) resources in
      bind-Adds _ _ [] rs rs refl (save_providers-Adds providers []) (λ pids.
        bind-Adds _ _ rs [] rs (append-nil rs) (save_resources-Adds providers resources [])
          (λ rids. pure-Adds (pids, rids)))

  -- A successful run of publishing has sent, among its requests, exactly one for each resource, in
  -- their order and with the fields that were entered and the provider linked to it.
  pub publish_all-creates :
      (providers : List Provider) (catalogs : List Catalog) (resources : List Resource)
      (offers : List Offer)
      → let run = publish_all server providers catalogs resources offers [] in
        run.0 ≡ ok tt → creates run.1 ≡ map (resource_request providers) resources
  unfolding publish_all
  publish_all-creates providers catalogs resources offers e =
      let rs = map (resource_request providers) resources in
      (bind-Adds _ _ rs [] rs (append-nil rs) (save_ids-Adds providers resources) (λ ids.
          bind-Adds _ _ [] [] [] refl (save_offers-Adds resources ids.1 offers)
            (λ _. publish_catalogs-Adds providers ids.0 catalogs))).holds
        [] tt e
