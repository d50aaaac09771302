-- ===== src/Publish/Submit/Required.antt =====
-- The fields that the insurer's back end requires of a request, `binding:"required"` in
-- internal/api/types.go, and what follows of a run of publishing.
use ion_insurance_testapp.Prelude.{
  ℕ, zero, suc, String, Bool, true, false, not, ◌&&◌, ◌≡◌, ◌≢◌, sym, ap, ◌∙◌, List, [], ◌∷◌, Option,
  none, some, All, arith, Bool-cases, inl, inr,
}
use ion_insurance_testapp.Js.{is_empty}
use ion_insurance_testapp.Publish.Items.{Provider, Catalog, Resource, Offer}
use ion_insurance_testapp.Publish.Submit.{
  Rate, Request, create_provider, create_resource, create_offer, create_catalog, publish_catalog,
  Reply, failed, Failure, Outcome, ok, err, Run, ◌>>=◌, IdMap, answered, post, save_providers,
  save_resources, save_offers, publish_catalogs, save_ids, publish_all,
}
use ion_insurance_testapp.Publish.Submit.Order.{and_then_ok}

abbrev given_id : Option ℕ → Bool
given_id none = false
given_id (some zero) = false
given_id (some (suc n)) = true

-- A run that succeeds shows that `Q` holds.
record Gives {A : Type 0} (Q : Type 0) (m : Run A) : Type 0 where
  holds : (sent : List Request) (a : A) → (m sent).0 ≡ ok a → Q

weaken : {A P Q : Type 0} {m : Run A} → (P → Q) → Gives P m → Gives Q m
weaken f h = record { holds = λ sent a e. f (h.holds sent a e) }

bind-Gives :
    {A B : Type 0} (m : Run A) (k : A → Run B) (P Q : Type 0)
    → Gives P m
    → ((a : A) → Gives Q (k a))
    → Gives (P × Q) (m >>= k)
bind-Gives m k P Q s t = record {
  holds = λ sent b e.
      let (a, first, rest) = and_then_ok k (m sent).0 (m sent).1 b e in
      (s.holds sent a first, (t a).holds (m sent).1 b (ap (λ o. o.0) (sym rest) ∙ e));
}

not_empty_ne : (s : String) → not (is_empty s) ≡ true → s ≢ ""
not_empty_ne String.[] h = cc
not_empty_ne (String.◌∷◌ c s) h = λ e. cc

-- The three columns that a resource must have.
abbrev pub HasCodes : Resource → Type 0
HasCodes r =
    let a = r.resource_attributes in
    (a.product_type ≢ "") × (a.vehicle_type ≢ "") × (a.ojk_product_code ≢ "")

three_given :
    (s t u : String)
    → (not (is_empty s) && not (is_empty t) && not (is_empty u)) ≡ true
    → (s ≢ "") × (t ≢ "") × (u ≢ "")
three_given s t u h =
    (not_empty_ne s (ground arith), not_empty_ne t (ground arith), not_empty_ne u (ground arith))

-- `is_zero r`: the rate arrives as the number 0.
module _ (is_zero : Rate → Bool) where
  -- Every required field is there, and is not the zero of its type.
  unfoldable pub is_bound : Request → Bool
  is_bound (create_provider name _ _ _) = not (is_empty name)
  is_bound (create_resource product_type vehicle_type code _ _ _ _) =
      not (is_empty product_type) && not (is_empty vehicle_type) && not (is_empty code)
  is_bound (create_offer resource_id zone lo hi _ _ _) =
      given_id (some resource_id) && not (is_empty zone) && not (is_zero lo) && not (is_zero hi)
  is_bound (create_catalog name _ _ _) = not (is_empty name)
  is_bound (publish_catalog id) = given_id id

  -- A request that lacks a required field is refused.
  abbrev pub Requires : (List Request → Request → Reply) → Type 0
  Requires server =
      (sent : List Request) (r : Request)
      → is_bound r ≡ false
      → (f : Failure) × (server sent r ≡ failed f)

  module _ (server : List Request → Request → Reply) (requires : Requires server) where
    answered_ok :
        (reply : Reply) (f : Failure) (x : Option ℕ × Option ℕ)
        → reply ≡ failed f
        → answered reply ≢ ok x
    answered_ok reply f x e g =
        let h : ◌≡◌ {A = Outcome (Option ℕ × Option ℕ)} (err f) (ok x) = ap answered (sym e) ∙ g in
        cc

    post_ok :
        (r : Request) (sent : List Request) (x : Option ℕ × Option ℕ)
        → (post server r sent).0 ≡ ok x
        → is_bound r ≡ true
    unfolding post
    post_ok r sent x e = elim (Bool-cases (is_bound r)) [
      | inl there ↦ there
      | inr lacking ↦
          let (f, refused) = requires sent r lacking in absurd (answered_ok _ f x refused e)
    ]

    post-Gives : (r : Request) → Gives (is_bound r ≡ true) (post server r)
    post-Gives r = record { holds = λ sent x e. post_ok r sent x e }

    save_providers-Gives :
        (ps : List Provider) (ids : IdMap)
        → Gives (All (λ (p : Provider). p.descriptor.name ≢ "") ps) (save_providers server ps ids)
    unfolding save_providers is_bound
    save_providers-Gives [] ids = record { holds = λ sent a e. tt }
    save_providers-Gives (p ∷ ps) ids =
        weaken (λ h. (not_empty_ne p.descriptor.name h.0, h.1))
          (bind-Gives _ _ _ _ (post-Gives _) (λ reply. save_providers-Gives ps _))

    save_resources-Gives :
        (providers : List Provider) (rs : List Resource) (ids : IdMap)
        → Gives (All HasCodes rs) (save_resources server providers rs ids)
    unfolding save_resources is_bound
    save_resources-Gives providers [] ids = record { holds = λ sent a e. tt }
    save_resources-Gives providers (r ∷ rs) ids =
        weaken (λ h. (three_given _ _ _ h.0, h.1))
          (bind-Gives _ _ _ _ (post-Gives _) (λ reply. save_resources-Gives providers rs _))

    publish_catalogs-Gives :
        (providers : List Provider) (ids : IdMap) (cs : List Catalog)
        → Gives (All (λ (c : Catalog). c.name ≢ "") cs) (publish_catalogs server providers ids cs)
    unfolding publish_catalogs is_bound
    publish_catalogs-Gives providers ids [] = record { holds = λ sent a e. tt }
    publish_catalogs-Gives providers ids (c ∷ cs) =
        weaken (λ h. (not_empty_ne c.name h.0, h.1))
          (bind-Gives _ _ _ (All (λ (c : Catalog). c.name ≢ "") cs) (post-Gives _) (λ reply.
            weaken (λ h. h.1)
              (bind-Gives _ _ _ _ (post-Gives _) (λ _. publish_catalogs-Gives providers ids cs))))

    save_ids-Gives :
        (providers : List Provider) (resources : List Resource)
        → Gives
            (All (λ (p : Provider). p.descriptor.name ≢ "") providers × All HasCodes resources)
            (save_ids server providers resources)
    unfolding save_ids
    save_ids-Gives providers resources =
        weaken (λ h. (h.0, h.1.0))
          (bind-Gives _ _ _ (All HasCodes resources × Unit {0}) (save_providers-Gives providers [])
            (λ pids.
              bind-Gives _ _ _ _ (save_resources-Gives providers resources [])
                (λ rids. record { holds = λ sent a e. tt })))

    -- Publishing to a back end that refuses a request without its required fields succeeds only
    -- when every provider and every catalog has a name, and every resource a product type, a
    -- vehicle type and a product code.
    pub publish_all_required :
        (providers : List Provider) (catalogs : List Catalog) (resources : List Resource)
        (offers : List Offer)
        → (publish_all server providers catalogs resources offers []).0 ≡ ok tt
        → All (λ (p : Provider). p.descriptor.name ≢ "") providers
          × All HasCodes resources
          × All (λ (c : Catalog). c.name ≢ "") catalogs
    unfolding publish_all
    publish_all_required providers catalogs resources offers e =
        let h =
          (bind-Gives _ _ _ (Unit {0} × All (λ (c : Catalog). c.name ≢ "") catalogs)
              (save_ids-Gives providers resources)
              (λ ids.
                bind-Gives (save_offers server resources ids.1 offers) _ (Unit {0}) _
                  (record { holds = λ sent a e. tt })
                  (λ _. publish_catalogs-Gives providers ids.0 catalogs))).holds
            [] tt e in
        (h.0.0, h.0.1, h.1.1)
