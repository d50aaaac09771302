-- ===== src/Publish/Submit/Stops.antt =====
-- How a run of publishing ends.
use ion_insurance_testapp.Prelude.{
  ℕ, String, ◌≡◌, ◌≢◌, refl, List, [], ◌∷◌, ◌++◌, Option, none, some,
}
use ion_insurance_testapp.Js.{or_text}
use ion_insurance_testapp.Publish.Items.{Provider, Catalog, Resource, Offer}
use ion_insurance_testapp.Publish.Submit.{
  Request, Reply, done, failed, Failure, Outcome, ok, err, Run, ◌>>=◌, IdMap, answered, and_then,
  post, save_providers, save_resources, save_offer, save_ids, save_offers, publish_catalogs,
  publish_all, error_text,
}

module _ (server : List Request → Request → Reply) where
  -- Every one of these requests was accepted when it was sent.
  pub data Accepted : List Request → Type 0 where
    start : Accepted []
    next :
        {sent later : List Request} (r : Request) (id other : Option ℕ)
        → Accepted sent
        → server sent r ≡ done id other
        → later ≡ sent ++ r ∷ []
        → Accepted later

  -- All requests but the last were accepted, and the last was refused with `f`.
  pub record StoppedBy (f : Failure) (later : List Request) : Type 0 where
    pub sent : List Request
    pub request : Request
    pub accepted : Accepted sent
    pub refused : server sent request ≡ failed f
    pub last : later ≡ sent ++ request ∷ []

  abbrev pub Ends : {A : Type 0} → Outcome A → List Request → Type 0
  Ends (ok _) later = Accepted later
  Ends (err f) later = StoppedBy f later

  abbrev Sound : {A : Type 0} → Run A → Type 0
  Sound m = (sent : List Request) → Accepted sent → Ends (m sent).0 (m sent).1

  post-Ends :
      (sent : List Request) (r : Request) (reply : Reply)
      → Accepted sent
      → server sent r ≡ reply
      → Ends (answered reply) (sent ++ r ∷ [])
  post-Ends sent r (done id other) a e = next r id other a e refl
  post-Ends sent r (failed f) a e = record {
    sent = sent;
    request = r;
    accepted = a;
    refused = e;
    last = refl;
  }

  post-Sound : (r : Request) → Sound (post server r)
  unfolding post
  post-Sound r sent a = post-Ends sent r (server sent r) a refl

  and_then-Sound :
      {A B : Type 0} (k : A → Run B) (o : Outcome A) (later : List Request)
      → Ends o later
      → ((x : A) → Sound (k x))
      → Ends (and_then o k later).0 (and_then o k later).1
  and_then-Sound k (ok x) later h t = t x later h
  and_then-Sound k (err f) later h t = h

  bind-Sound :
      {A B : Type 0} (m : Run A) (k : A → Run B)
      → Sound m
      → ((x : A) → Sound (k x))
      → Sound (m >>= k)
  bind-Sound m k s t sent a = and_then-Sound k (m sent).0 (m sent).1 (s sent a) t

  save_providers-Sound : (ps : List Provider) (ids : IdMap) → Sound (save_providers server ps ids)
  unfolding save_providers
  save_providers-Sound [] ids = λ sent a. a
  save_providers-Sound (p ∷ ps) ids =
      bind-Sound _ _ (post-Sound _) (λ reply. save_providers-Sound ps _)

  save_resources-Sound :
      (providers : List Provider) (rs : List Resource) (ids : IdMap)
      → Sound (save_resources server providers rs ids)
  unfolding save_resources
  save_resources-Sound providers [] ids = λ sent a. a
  save_resources-Sound providers (r ∷ rs) ids =
      bind-Sound _ _ (post-Sound _) (λ reply. save_resources-Sound providers rs _)

  save_offer-Sound :
      (resources : List Resource) (id : Option ℕ) (o : Offer)
      → Sound (save_offer server resources id o)
  unfolding save_offer
  save_offer-Sound resources none o = λ sent a. a
  save_offer-Sound resources (some id) o = bind-Sound _ _ (post-Sound _) (λ reply sent a. a)

  save_offers-Sound :
      (resources : List Resource) (ids : IdMap) (os : List Offer)
      → Sound (save_offers server resources ids os)
  unfolding save_offers
  save_offers-Sound resources ids [] = λ sent a. a
  save_offers-Sound resources ids (o ∷ os) =
      bind-Sound _ _ (save_offer-Sound resources _ o) (λ _. save_offers-Sound resources ids os)

  publish_catalogs-Sound :
      (providers : List Provider) (ids : IdMap) (cs : List Catalog)
      → Sound (publish_catalogs server providers ids cs)
  unfolding publish_catalogs
  publish_catalogs-Sound providers ids [] = λ sent a. a
  publish_catalogs-Sound providers ids (c ∷ cs) =
      bind-Sound _ _ (post-Sound _)
        (λ reply. bind-Sound _ _ (post-Sound _) (λ _. publish_catalogs-Sound providers ids cs))

  save_ids-Sound :
      (providers : List Provider) (resources : List Resource)
      → Sound (save_ids server providers resources)
  unfolding save_ids
  save_ids-Sound providers resources =
      bind-Sound _ _ (save_providers-Sound providers [])
        (λ pids. bind-Sound _ _ (save_resources-Sound providers resources []) (λ rids sent a. a))

  -- Whatever the server does, publishing ends in one of two ways: every request was accepted and
  -- the outcome is a success, or the last request alone was refused, none was sent after it, and
  -- the outcome is the server's failure.
  pub publish_all-Ends :
      (providers : List Provider) (catalogs : List Catalog) (resources : List Resource)
      (offers : List Offer)
      → let run = publish_all server providers catalogs resources offers [] in Ends run.0 run.1
  unfolding publish_all
  publish_all-Ends providers catalogs resources offers =
      bind-Sound _ _ (save_ids-Sound providers resources)
        (λ ids.
          bind-Sound _ _ (save_offers-Sound resources ids.1 offers)
            (λ _. publish_catalogs-Sound providers ids.0 catalogs))
        [] start

or_text-ne-empty : (a b : String) → b ≢ "" → or_text a b ≢ ""
or_text-ne-empty String.[] b h = h
or_text-ne-empty (String.◌∷◌ c s) b h = λ e. cc

-- The message that the page shows for an error is never empty.
pub error_text-ne-empty : (f : Failure) → error_text f ≢ ""
unfolding error_text
error_text-ne-empty f =
    or_text-ne-empty f.detail _
      (or_text-ne-empty f.body_message _ (or_text-ne-empty f.message _ (λ e. cc)))
