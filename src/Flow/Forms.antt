-- ===== src/Flow/Forms.antt =====
-- PolicyFlowPage.jsx: what VehicleDetailsStep and KYCStep hold while they are on the page, and the
-- bodies of the requests that they send.
use ion_insurance_testapp.Prelude.{
  String, Bool, true, false, Option, none, some, ◌==◌, if◌then◌else◌,
}
use ion_insurance_testapp.Js.{
  is_empty, or_text, utf16_length, parse_int, Value, num, str, ◌or◌, get, to_text,
}

-- `loading`, `error` and the ref `submitting` of a step that sends one request.
pub record Submission : Type 0 where
  pub loading : Bool
  pub error : String
  pub submitting : Bool

abbrev pub no_submission : Submission
no_submission = record { loading = false; error = ""; submitting = false }

-- `submitting.current = true; setLoading(true); setError('')`
abbrev pub begun : Submission
begun = record { loading = true; error = ""; submitting = true }

-- The `catch` of the handlers: `err?.message || fallback`.
unfoldable pub caught : (fallback message : String) → Submission
caught fallback message = record {
  loading = false;
  error = or_text message fallback;
  submitting = false;
}

pub record VehicleForm : Type 0 where
  pub make : String
  pub model : String
  pub year : String
  pub idv : String
  pub plate : String
  pub stnk : String

pub data VehicleField : Type 0 where
  make : VehicleField
  model : VehicleField
  year : VehicleField
  idv : VehicleField
  plate : VehicleField
  stnk : VehicleField

abbrev pub demo_vehicle : VehicleForm
demo_vehicle = record {
  make = "Toyota";
  model = "Avanza";
  year = "2022";
  idv = "210000000";
  plate = "B 1234 ABC";
  stnk = "K-3456789-2022";
}

pub record VehicleStep : Type 0 where
  pub form : VehicleForm
  pub submission : Submission

-- The step as React mounts it in the year given.
abbrev pub mount_vehicle : String → VehicleStep
mount_vehicle this_year = record {
  form = record { make = ""; model = ""; year = this_year; idv = ""; plate = ""; stnk = "" };
  submission = no_submission;
}

unfoldable pub change_vehicle : VehicleField → String → VehicleForm → VehicleForm
change_vehicle make v f = record f { make = v }
change_vehicle model v f = record f { model = v }
change_vehicle year v f = record f { year = v }
change_vehicle idv v f = record f { idv = v }
change_vehicle plate v f = record f { plate = v }
change_vehicle stnk v f = record f { stnk = v }

pub record SelectBody : Type 0 where
  pub idv : Value
  pub year : Value
  pub make : String
  pub model : String
  pub plate : String
  pub stnk : String
  pub product_id : String
  pub product_type : Value
  pub tariff_zone : Value

unfoldable pub select_body : Value → VehicleForm → SelectBody
select_body product f = record {
  idv = parse_int f.idv;
  year = parse_int f.year;
  make = f.make;
  model = f.model;
  plate = f.plate;
  stnk = f.stnk;
  product_id = to_text (get product "id" or str "1");
  product_type =
      get product "productType" or get product "product_type" or str "MOTOR_COMPREHENSIVE";
  tariff_zone = get product "tariffZone" or get product "tariff_zone" or str "ZONE_3";
}

pub record KycForm : Type 0 where
  pub name : String
  pub nik : String
  pub dob : String
  pub phone : String
  pub email : String
  pub license_type : String
  pub address : String
  pub inspection_method : String

pub data KycField : Type 0 where
  name : KycField
  nik : KycField
  dob : KycField
  phone : KycField
  email : KycField
  license_type : KycField
  address : KycField
  inspection_method : KycField

abbrev pub demo_kyc : KycForm
demo_kyc = record {
  name = "Budi Santoso";
  nik = "3171012345678901";
  dob = "1990-01-15";
  phone = "+628123456789";
  email = "budi.santoso@gmail.com";
  license_type = "SIM_A";
  address = "Jl. Kemang Raya No. 15, Jakarta Selatan, DKI Jakarta 12730";
  inspection_method = "SELF_INSPECTION";
}

pub record KycStep : Type 0 where
  pub form : KycForm
  pub nik_error : String
  pub submission : Submission

abbrev pub mount_kyc : KycStep
mount_kyc = record {
  form = record {
    name = "";
    nik = "";
    dob = "";
    phone = "";
    email = "";
    license_type = "SIM_A";
    address = "";
    inspection_method = "SELF_INSPECTION";
  };
  nik_error = "";
  submission = no_submission;
}

abbrev pub nik_message : String
nik_message = "NIK must be exactly 16 digits"

abbrev pub has_nik_length : String → Bool
has_nik_length s = utf16_length s == 16

unfoldable pub set_kyc : KycField → String → KycForm → KycForm
set_kyc name v s = record s { name = v }
set_kyc nik v s = record s { nik = v }
set_kyc dob v s = record s { dob = v }
set_kyc phone v s = record s { phone = v }
set_kyc email v s = record s { email = v }
set_kyc license_type v s = record s { license_type = v }
set_kyc address v s = record s { address = v }
set_kyc inspection_method v s = record s { inspection_method = v }

abbrev nik_error_after : KycField → String → String → String
nik_error_after nik v shown = if has_nik_length v then "" else nik_message
nik_error_after _ v shown = shown

-- `handleChange`
unfoldable pub change_kyc : KycField → String → KycStep → KycStep
unfolding set_kyc
change_kyc field v s = record s {
  form = set_kyc field v s.form;
  nik_error = nik_error_after field v s.nik_error;
}

pub record InitBody : Type 0 where
  pub form : KycForm
  pub transaction_id : Value
  pub plate : String
  pub idv : Value

-- `vehicleForm` is null until the first step has been answered.
unfoldable pub init_body : KycForm → Value → Option VehicleForm → InitBody
init_body f txn none = record { form = f; transaction_id = txn; plate = ""; idv = num 0 }
init_body f txn (some v) = record {
  form = f;
  transaction_id = txn;
  plate = v.plate;
  idv = if is_empty v.idv then num 0 else parse_int v.idv;
}
