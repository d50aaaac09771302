-- ===== src/Market/Reads.antt =====
-- The fields of the product that the buyer's application makes of one of the back end's items.
use ion_insurance_testapp.Prelude.{
  String, Bool, true, false, List, [], ◌∷◌, if◌then◌else◌, ◌≡◌, refl, sym, ap, ◌∙◌, arith,
  Bool-cases, inl, inr, str_eq, eq_iff, ◌&&◌,
}
use ion_insurance_testapp.Js.{Value, undefined, obj, Fields, get}
use ion_insurance_testapp.Search.Discover.{product_of}
use ion_insurance_testapp.Search.Quote.{has_field, get-spread_with, get_without, get-spread, names}
use ion_insurance_testapp.Publish.Nested.{put, get-put_own, get-put_other}
use ion_insurance_testapp.Market.Backend.{ResourceRow, Write, write_all, stamps, stamped, item_of}

-- What a field holds after some assignments, when it held `v` before them.
abbrev pub written : String → List Write → Value → Value
written key [] v = v
written key (w ∷ ws) v = written key ws (if str_eq w.key key && w.guard then w.value else v)

get-put_if :
    (b : Bool) (k key : String) (v : Value) (fs : Fields)
    → get (obj (if b then put k v fs else fs)) key
      ≡ (if str_eq k key && b then v else get (obj fs) key)
get-put_if true k key v fs = elim (Bool-cases (str_eq k key)) [
  | inl own ↦ rw (own, sym ((eq_iff k key).0 own)) (get-put_own k v fs)
  | inr other ↦ rw other (get-put_other k key v fs other)
]
get-put_if false k key v fs = ground arith

get-write_all :
    (key : String) (ws : List Write) (fs : Fields)
    → get (obj (write_all ws fs)) key ≡ written key ws (get (obj fs) key)
get-write_all key [] fs = refl
get-write_all key (w ∷ ws) fs =
    get-write_all key ws _ ∙ ap (written key ws) (get-put_if w.guard w.key key w.value fs)

pub get-stamped :
    (key : String) (r : ResourceRow)
    → get (obj (stamped r)) key ≡ written key (stamps r) (get (obj r.resource_attributes) key)
unfolding stamped
get-stamped key r = get-write_all key (stamps r) r.resource_attributes

module _ (insurer_name bpp_id : Value) (r : ResourceRow) where
  abbrev product : Value
  product = product_of insurer_name bpp_id (item_of r)

  -- The names come before the attributes and hide nothing of them.
  pub get-product :
      (key : String)
      → str_eq "bpp_id" key ≡ false
      → str_eq "insurer_name" key ≡ false
      → get (obj (names (item_of r))) key ≡ undefined
      → get product key ≡ written key (stamps r) (get (obj r.resource_attributes) key)
  unfolding product_of item_of
  get-product key h k n =
      rw (h, k) (get-spread key (names (item_of r)) (stamped r) n ∙ get-stamped key r)

  -- The stored descriptor hides that of the item.
  pub get-product_descriptor :
      (fs : Fields)
      → get (obj r.resource_attributes) "descriptor" ≡ obj fs
      → get product "descriptor" ≡ obj fs
  unfolding product_of item_of stamps
  get-product_descriptor fs h =
      let there : get (obj (stamped r)) "descriptor" ≡ obj fs = get-stamped "descriptor" r ∙ h in
      elim (Bool-cases (has_field "descriptor" (stamped r))) [
        | inl own ↦ get-spread_with "descriptor" (names (item_of r)) (stamped r) own ∙ there
        | inr other ↦
            let absent : undefined ≡ obj fs =
              sym (get_without "descriptor" (stamped r) other) ∙ there in
            cc
      ]
