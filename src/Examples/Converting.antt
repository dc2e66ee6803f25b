-- ===== src/Examples/Converting.antt =====
-- A conversion at concrete inputs.
use core_provider.Base.Exec.{pure}
use core_provider.Base.{String, List, some, [], ◌∷◌, ◌≡◌, refl}
use core_provider.Base.Result.{Result, ok}
use core_provider.Defaults.{object, string, Members, no_members, member, set_value}
use core_provider.Convertible.{Unstructured}
use core_provider.Conversion.{
  Exchange, ConversionReview, ConversionRequest, ConversionResponse, converted, convert_objects,
  handle_convert_request,
}

abbrev stored_object : Members
stored_object =
    member "apiVersion" (string "composition.krateo.io/vacuum")
      (member "spec" (object (member "name" (string "app") no_members)) no_members)

abbrev always_decodes : String → Result (Members × String)
always_decodes raw = ok (stored_object, "Fireworks")

abbrev setters : Unstructured
setters = record {
  set_api_version = λ version. set_value "apiVersion" (string version);
  set_kind = λ kind. set_value "kind" (string kind);
}

abbrev a_request : ConversionRequest
a_request = record { uid = "1"; desired_api_version = "v2"; objects = "{}" ∷ [] }

a_response : ConversionResponse
a_response = record {
  uid = "1";
  converted_objects = converted always_decodes setters "v2" "Fireworks" stored_object ∷ [];
  status = "Success";
  message = "";
}

answered : handle_convert_request always_decodes setters a_request ≡ ok a_response
unfolding handle_convert_request convert_objects a_response
answered = refl

-- reviews are written down, and every outcome is counted
abbrev an_exchange : Exchange (List ConversionReview)
an_exchange = record {
  write_header = λ code. pure tt;
  encode = λ review w. (ok tt, review ∷ w);
  record_request = some (λ success. pure tt);
  error_text = λ e. "failed";
}
