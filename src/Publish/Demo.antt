-- ===== src/Publish/Demo.antt =====
-- PublishPage.jsx: the data of the Auto Fill buttons, in two languages. The demo catalogue and
-- resource have no `providerId`; the handlers that use them set it.
use ion_insurance_testapp.Prelude.{String, [], ◌∷◌, str_eq, if◌then◌else◌}
use ion_insurance_testapp.Publish.Items.{decimal, Provider, Catalog, Resource, Offer}

pub record DemoData : Type 0 where
  pub provider : Provider
  pub catalog : Catalog
  pub resource : Resource
  pub offer : Offer

abbrev demo_data_en : DemoData
demo_data_en = record {
  provider = record {
    id = "PROV-ASURANSI-MAJU-001";
    descriptor = record {
      name = "PT Asuransi Maju Tbk";
      short_desc =
          "OJK-licensed general insurance company. Provides motor vehicle, property, and fire insurance products.";
      long_desc =
          "PT Asuransi Maju Tbk is a general insurance company operating since 1985 with an OJK (Financial Services Authority) business license. Core products include comprehensive and TLO/TPL motor vehicle insurance compliant with OJK SE-06/D.05/2013.";
    };
    provider_attributes = record {
      ojk_license_number = "KEP-112/KM.10/1985";
      ojk_license_type = "ASURANSI_UMUM";
      company_registration_number = "AHU-0032451.AH.01.01.2005";
      nib_number = "1234567890123";
      ojk_iknb_license = "S-1045/NB.11/2020";
      claims_ratio_percent = decimal 624 1;
      solvency_margin_percent = decimal 1258 1;
    };
    available_at =
        record {
          id = "LOC-JAKARTA-HO";
          name = "Jakarta Head Office";
          address = record {
            door = "Floor 12";
            building = "Menara Sudirman Tower";
            street = "Jl. Jend. Sudirman Kav. 60";
            city = "South Jakarta";
            state = "DKI Jakarta";
            country = "IDN";
            area_code = "12190";
          };
          gps = "-6.2241,106.8074";
        }
        ∷ [];
  };
  catalog = record {
    id = "CAT-ASURANSI-MAJU-2026";
    name = "Motor Vehicle Insurance Catalog 2026";
    version = "1.0.0";
    provider_id = "";
  };
  resource = record {
    id = "RES-MOTOR-COMP-Z3-4W";
    descriptor = record {
      name = "Comprehensive Car Insurance — Zone 3";
      short_desc =
          "Full protection for four-wheeled vehicles. Covers accidents, theft, fire, and third-party liability.";
      long_desc =
          "Comprehensive (All Risk) motor vehicle insurance for private four-wheeled vehicles with premiums based on OJK Zone 3 tariffs (DKI Jakarta, Banten, West Java). Insured Declared Value (IDV) is set based on market value minus depreciation per OJK SE-06/D.05/2013.";
    };
    category = record { id = "motor-four-wheeler"; name = "Four-Wheeled Vehicle" };
    provider_id = "";
    resource_attributes = record {
      product_type = "MOTOR_COMPREHENSIVE";
      vehicle_type = "FOUR_WHEELER";
      tariff_zone = "ZONE_3";
      premium_rate_range = record { min = decimal 105 2; max = decimal 120 2 };
      ojk_product_code = "AMJ-COMP-4W-Z3-2026";
      ojk_license_number = "KEP-112/KM.10/1985";
      coverage_inclusions =
          "PARTIAL_LOSS" ∷ "TOTAL_LOSS" ∷ "THEFT" ∷ "FIRE" ∷ "THIRD_PARTY_LIABILITY"
          ∷ "NATURAL_DISASTER" ∷ "ROADSIDE_ASSISTANCE" ∷ [];
      standard_exclusions =
          "OVERLOADING" ∷ "MECHANICAL_BREAKDOWN" ∷ "DUI" ∷ "INTENTIONAL_DAMAGE" ∷ "TIRE_ONLY"
          ∷ "RACING" ∷ [];
      deductible_amount = decimal 300000 0;
      add_on_options =
          record {
            code = "ADD-ZERO-DEP";
            name = "Zero Depreciation Cover";
            additional_premium_rate = decimal 15 2;
          }
          ∷ record {
            code = "ADD-RSA";
            name = "24-Hour Roadside Assistance";
            additional_premium_rate = decimal 5 2;
          }
          ∷ record {
            code = "ADD-PA-DRIVER";
            name = "Personal Accident — Driver";
            additional_premium_rate = decimal 8 2;
          }
          ∷ [];
      discounts =
          record { type = "NCD_1_YEAR"; discount_percent = decimal 50 1 }
          ∷ record { type = "NCD_2_YEAR"; discount_percent = decimal 100 1 }
          ∷ record { type = "NCD_3_YEAR"; discount_percent = decimal 150 1 }
          ∷ [];
    };
  };
  offer = record {
    id = "OFFER-MOTOR-COMP-Z3-4W-001";
    resource_ids = [];
    offer_attributes = record {
      inclusions =
          "PARTIAL_LOSS" ∷ "TOTAL_LOSS" ∷ "THEFT" ∷ "FIRE" ∷ "THIRD_PARTY_LIABILITY"
          ∷ "NATURAL_DISASTER" ∷ "ROADSIDE_ASSISTANCE" ∷ [];
      special_exclusions = "Vehicles with structural modifications not registered on STNK" ∷ [];
      required_documents =
          "National ID (KTP / e-KTP) of primary driver" ∷ "Valid STNK (vehicle registration)"
          ∷ "Valid Class A driving licence (SIM A)"
          ∷ "Vehicle photos from 4 sides (front, rear, left, right)" ∷ [];
      claim_policy = "ion://policy/insurance/claim.motor.fnol-24h";
      cancellation_policy = "ion://policy/insurance/cancellation.motor.prorata";
      renewal_policy = "ion://policy/insurance/renewal.motor.30d-notice";
      endorsement_policy = "ion://policy/insurance/endorsement.motor.standard";
      grievance_sla_policy = "ion://policy/insurance/grievance-sla.ojk.pojk23-2023";
    };
  };
}

abbrev demo_data_id : DemoData
demo_data_id = record {
  provider = record {
    id = "PROV-ASURANSI-MAJU-001";
    descriptor = record {
      name = "PT Asuransi Maju Tbk";
      short_desc =
          "Perusahaan asuransi umum berizin OJK. Menyediakan asuransi kendaraan bermotor, properti, dan kebakaran.";
      long_desc =
          "PT Asuransi Maju Tbk adalah perusahaan asuransi umum yang telah beroperasi sejak 1985 dan memiliki izin usaha dari OJK (Otoritas Jasa Keuangan). Produk unggulan mencakup asuransi kendaraan bermotor komprehensif dan TLO/TPL yang sesuai dengan regulasi OJK SE-06/D.05/2013.";
    };
    provider_attributes = record {
      ojk_license_number = "KEP-112/KM.10/1985";
      ojk_license_type = "ASURANSI_UMUM";
      company_registration_number = "AHU-0032451.AH.01.01.2005";
      nib_number = "1234567890123";
      ojk_iknb_license = "S-1045/NB.11/2020";
      claims_ratio_percent = decimal 624 1;
      solvency_margin_percent = decimal 1258 1;
    };
    available_at =
        record {
          id = "LOC-JAKARTA-HO";
          name = "Kantor Pusat Jakarta";
          address = record {
            door = "Lantai 12";
            building = "Gedung Menara Sudirman";
            street = "Jl. Jend. Sudirman Kav. 60";
            city = "Jakarta Selatan";
            state = "DKI Jakarta";
            country = "IDN";
            area_code = "12190";
          };
          gps = "-6.2241,106.8074";
        }
        ∷ [];
  };
  catalog = record {
    id = "CAT-ASURANSI-MAJU-2026";
    name = "Katalog Asuransi Kendaraan Bermotor 2026";
    version = "1.0.0";
    provider_id = "";
  };
  resource = record {
    id = "RES-MOTOR-COMP-Z3-4W";
    descriptor = record {
      name = "Asuransi Mobil Komprehensif — Zone 3";
      short_desc =
          "Perlindungan menyeluruh untuk kendaraan roda empat. Mencakup kecelakaan, pencurian, kebakaran, dan tanggung gugat pihak ketiga.";
      long_desc =
          "Asuransi kendaraan bermotor komprehensif (All Risk) untuk kendaraan roda empat non-niaga dengan premi sesuai tarif OJK Zone 3 (DKI Jakarta, Banten, Jawa Barat). Nilai pertanggungan (IDV) ditetapkan berdasarkan nilai pasar kendaraan dikurangi penyusutan sesuai OJK SE-06/D.05/2013.";
    };
    category = record { id = "motor-four-wheeler"; name = "Kendaraan Roda Empat" };
    provider_id = "";
    resource_attributes = record {
      product_type = "MOTOR_COMPREHENSIVE";
      vehicle_type = "FOUR_WHEELER";
      tariff_zone = "ZONE_3";
      premium_rate_range = record { min = decimal 105 2; max = decimal 120 2 };
      ojk_product_code = "AMJ-COMP-4W-Z3-2026";
      ojk_license_number = "KEP-112/KM.10/1985";
      coverage_inclusions =
          "PARTIAL_LOSS" ∷ "TOTAL_LOSS" ∷ "THEFT" ∷ "FIRE" ∷ "THIRD_PARTY_LIABILITY"
          ∷ "NATURAL_DISASTER" ∷ "ROADSIDE_ASSISTANCE" ∷ [];
      standard_exclusions =
          "OVERLOADING" ∷ "MECHANICAL_BREAKDOWN" ∷ "DUI" ∷ "INTENTIONAL_DAMAGE" ∷ "TIRE_ONLY"
          ∷ "RACING" ∷ [];
      deductible_amount = decimal 300000 0;
      add_on_options =
          record {
            code = "ADD-ZERO-DEP";
            name = "Perlindungan Tanpa Penyusutan (Zero Depreciation)";
            additional_premium_rate = decimal 15 2;
          }
          ∷ record {
            code = "ADD-RSA";
            name = "Bantuan Darurat 24 Jam (Roadside Assistance)";
            additional_premium_rate = decimal 5 2;
          }
          ∷ record {
            code = "ADD-PA-DRIVER";
            name = "Kecelakaan Diri Pengemudi";
            additional_premium_rate = decimal 8 2;
          }
          ∷ [];
      discounts =
          record { type = "NCD_1_YEAR"; discount_percent = decimal 50 1 }
          ∷ record { type = "NCD_2_YEAR"; discount_percent = decimal 100 1 }
          ∷ record { type = "NCD_3_YEAR"; discount_percent = decimal 150 1 }
          ∷ [];
    };
  };
  offer = record {
    id = "OFFER-MOTOR-COMP-Z3-4W-001";
    resource_ids = [];
    offer_attributes = record {
      inclusions =
          "PARTIAL_LOSS" ∷ "TOTAL_LOSS" ∷ "THEFT" ∷ "FIRE" ∷ "THIRD_PARTY_LIABILITY"
          ∷ "NATURAL_DISASTER" ∷ "ROADSIDE_ASSISTANCE" ∷ [];
      special_exclusions = "Kendaraan dengan modifikasi struktural tidak terdaftar di STNK" ∷ [];
      required_documents =
          "KTP / e-KTP pengemudi utama" ∷ "STNK yang masih berlaku" ∷ "SIM A yang masih berlaku"
          ∷ "Foto kendaraan 4 sisi (depan, belakang, kiri, kanan)" ∷ [];
      claim_policy = "ion://policy/insurance/claim.motor.fnol-24h";
      cancellation_policy = "ion://policy/insurance/cancellation.motor.prorata";
      renewal_policy = "ion://policy/insurance/renewal.motor.30d-notice";
      endorsement_policy = "ion://policy/insurance/endorsement.motor.standard";
      grievance_sla_policy = "ion://policy/insurance/grievance-sla.ojk.pojk23-2023";
    };
  };
}

-- `DEMO_DATA[lang] || DEMO_DATA.en`
unfoldable pub get_demo_data : String → DemoData
get_demo_data lang = if str_eq lang "id" then demo_data_id else demo_data_en
