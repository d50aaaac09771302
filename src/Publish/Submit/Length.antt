-- ===== src/Publish/Submit/Length.antt =====
-- How many requests a run of publishing may send.
use ion_insurance_testapp.Prelude.{
  ℕ, ◌+◌, ◌*◌, ◌≤◌, ◌≡◌, refl, sym, ap, ◌∙◌, List, [], ◌∷◌, ◌++◌, Option, none, some, length,
  length-append, arith,
}
use mathlib.Core.List.{append_assoc, append-nil}
use ion_insurance_testapp.Publish.Items.{Provider, Catalog, Resource, Offer}
use ion_insurance_testapp.Publish.Submit.{
  Request, Reply, Outcome, ok, err, Run, ◌>>=◌, pure, IdMap, and_then, post, save_providers,
  save_resources, save_offer, save_offers, publish_catalogs, save_ids, publish_all,
}

-- However it ends, the run sends at most `n` requests, and keeps those that were sent before.
record Within {A : Type 0} (n : ℕ) (m : Run A) : Type 0 where
  holds :
      (sent : List Request)
      → (more : List Request) × ((m sent).1 ≡ sent ++ more) × (length more ≤ n)

and_then-Within :
    {A B : Type 0} (k : A → Run B) (n : ℕ) (o : Outcome A) (later : List Request)
    → ((a : A) → Within n (k a))
    → (more : List Request) × ((and_then o k later).1 ≡ later ++ more) × (length more ≤ n)
and_then-Within k n (ok a) later h = (h a).holds later
and_then-Within k n (err f) later h = ([], sym (append-nil later), omega arith)

bind-Within :
    {A B : Type 0} (m : Run A) (k : A → Run B) (n l total : ℕ)
    → n + l ≤ total
    → Within n m
    → ((a : A) → Within l (k a))
    → Within total (m >>= k)
bind-Within m k n l total bound s t = record {
  holds = λ sent.
      let (first, e, p) = s.holds sent in
      let (rest, g, q) = and_then-Within k l (m sent).0 (m sent).1 t in
      (
        first ++ rest,
        g ∙ ap (λ (xs : List Request). xs ++ rest) e ∙ append_assoc sent first rest,
        omega (arith, p, q, bound, length-append first rest),
      );
}

pure-Within : {A : Type 0} (a : A) → Within 0 (pure a)
pure-Within a = record { holds = λ sent. ([], sym (append-nil sent), omega arith) }

module _ (server : List Request → Request → Reply) where
  post-Within : (r : Request) → Within 1 (post server r)
  unfolding post
  post-Within r = record { holds = λ sent. (r ∷ [], refl, omega arith) }

  save_providers-Within :
      (ps : List Provider) (ids : IdMap) → Within (length ps) (save_providers server ps ids)
  unfolding save_providers
  save_providers-Within [] ids = pure-Within ids
  save_providers-Within (p ∷ ps) ids =
      bind-Within _ _ 1 (length ps) _ (omega arith) (post-Within _)
        (λ reply. save_providers-Within ps _)

  save_resources-Within :
      (providers : List Provider) (rs : List Resource) (ids : IdMap)
      → Within (length rs) (save_resources server providers rs ids)
  unfolding save_resources
  save_resources-Within providers [] ids = pure-Within ids
  save_resources-Within providers (r ∷ rs) ids =
      bind-Within _ _ 1 (length rs) _ (omega arith) (post-Within _)
        (λ reply. save_resources-Within providers rs _)

  save_offer-Within :
      (resources : List Resource) (id : Option ℕ) (o : Offer)
      → Within 1 (save_offer server resources id o)
  unfolding save_offer
  save_offer-Within resources none o = record {
    holds = λ sent. ([], sym (append-nil sent), omega arith);
  }
  save_offer-Within resources (some id) o =
      bind-Within _ _ 1 0 _ (omega arith) (post-Within _) (λ reply. pure-Within tt)

  save_offers-Within :
      (resources : List Resource) (ids : IdMap) (os : List Offer)
      → Within (length os) (save_offers server resources ids os)
  unfolding save_offers
  save_offers-Within resources ids [] = pure-Within tt
  save_offers-Within resources ids (o ∷ os) =
      bind-Within _ _ 1 (length os) _ (omega arith) (save_offer-Within resources _ o)
        (λ _. save_offers-Within resources ids os)

  publish_catalogs-Within :
      (providers : List Provider) (ids : IdMap) (cs : List Catalog)
      → Within (2 * length cs) (publish_catalogs server providers ids cs)
  unfolding publish_catalogs
  publish_catalogs-Within providers ids [] = pure-Within tt
  publish_catalogs-Within providers ids (c ∷ cs) =
      bind-Within _ _ 1 (1 + 2 * length cs) (2 * length (c ∷ cs)) (omega arith) (post-Within _)
        (λ reply.
          bind-Within _ _ 1 (2 * length cs) (1 + 2 * length cs) (omega arith) (post-Within _)
            (λ _. publish_catalogs-Within providers ids cs))

  save_ids-Within :
      (providers : List Provider) (resources : List Resource)
      → Within (length providers + length resources) (save_ids server providers resources)
  unfolding save_ids
  save_ids-Within providers resources =
      bind-Within _ _ (length providers) (length resources) _ (omega arith)
        (save_providers-Within providers [])
        (λ pids.
          bind-Within _ _ (length resources) 0 _ (omega arith)
            (save_resources-Within providers resources []) (λ rids. pure-Within (pids, rids)))

  -- Whatever the server answers, publishing ends after at most one request for each provider,
  -- resource and offer, and two for each catalog; the requests sent before it stay as they are.
  pub publish_all-Within :
      (providers : List Provider) (catalogs : List Catalog) (resources : List Resource)
      (offers : List Offer) (sent : List Request)
      → let bound = length providers + length resources + (length offers + 2 * length catalogs) in
        (more : List Request) × ((publish_all server providers catalogs resources offers sent).1
          ≡ sent ++ more)
        × (length more ≤ bound)
  unfolding publish_all
  publish_all-Within providers catalogs resources offers sent =
      (bind-Within _ _ (length providers + length resources) (length offers + 2 * length catalogs) _
          (omega arith) (save_ids-Within providers resources)
          (λ ids.
            bind-Within _ _ (length offers) (2 * length catalogs) _ (omega arith)
              (save_offers-Within resources ids.1 offers)
              (λ _. publish_catalogs-Within providers ids.0 catalogs))).holds
        sent
