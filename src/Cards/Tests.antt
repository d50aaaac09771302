-- ===== src/Cards/Tests.antt =====
-- The label of a code of the vocabulary, read back.
use ion_insurance_testapp.Prelude.{◌≡◌, refl}
use ion_insurance_testapp.Js.{codes}
use ion_insurance_testapp.Cards.Labels.{chip_label}

chip_label_test : chip_label (codes "TOTAL_LOSS") ≡ codes "Total Loss"
unfolding chip_label
chip_label_test = refl
