-- ===== src/Publish/Submit/Order.antt =====
-- What a successful run of publishing has sent, and in which order.
use ion_insurance_testapp.Prelude.{◌≡◌, refl, List, [], ◌∷◌, ◌++◌, map, is_some, if◌then◌else◌}
use ion_insurance_testapp.Publish.Items.{Catalog, Offer}
use ion_insurance_testapp.Publish.Submit.{
  Request, create_provider, create_resource, create_offer, create_catalog, publish_catalog, Outcome,
  ok, err, Run, IdMap, and_then, db_resource,
}

pub data Kind : Type 0 where
  provider resource offer catalog publish : Kind

abbrev pub kind : Request → Kind
kind (create_provider _ _ _ _) = provider
kind (create_resource _ _ _ _ _ _ _) = resource
kind (create_offer _ _ _ _ _ _ _) = offer
kind (create_catalog _ _ _ _) = catalog
kind (publish_catalog _) = publish

abbrev pub one_each {ℓ} : {A : Type ℓ} → Kind → List A → List Kind
one_each t [] = []
one_each t (_ ∷ xs) = t ∷ one_each t xs

abbrev pub two_each : List Catalog → List Kind
two_each [] = []
two_each (_ ∷ cs) = catalog ∷ publish ∷ two_each cs

-- The kinds of the requests for the offers whose resource has a database id.
unfoldable pub offer_kinds : IdMap → List Offer → List Kind
offer_kinds ids [] = []
offer_kinds ids (o ∷ os) =
    (if is_some (db_resource ids o) then offer ∷ [] else []) ++ offer_kinds ids os

-- A run that succeeds has sent requests of these kinds, after those before it.
abbrev Sends : {A : Type 0} → List Kind → Run A → Type 0
Sends {A} kinds m =
    (sent : List Request) (a : A) → (m sent).0 ≡ ok a → map kind (m sent).1 ≡ map kind sent ++ kinds

pub and_then_ok :
    {A B : Type 0} (k : A → Run B) (o : Outcome A) (later : List Request) (b : B)
    → (and_then o k later).0 ≡ ok b
    → (a : A) × (o ≡ ok a) × (and_then o k later ≡ k a later)
and_then_ok k (ok a) later b e = (a, refl, refl)
and_then_ok k (err f) later b e = cc
