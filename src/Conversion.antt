-- ===== src/Conversion.antt =====
-- internal/controllers/compositiondefinitions/webhooks/conversion/conversion.go: handleConvertRequest,
-- which converts compositions between the versions of the CRD, and ServeHTTP, which answers with it.
pub mod Fields
pub mod Serving
use core_provider.Base.{ℕ, String, List, [], ◌∷◌, Option, none, some, Bool, true, false, str_eq}
use core_provider.Base.Result.{Error, wrap, Result, ok, err}
use core_provider.Base.Exec.{Exec, pure, attempt, ◌>>=◌, ◌>>◌}
use core_provider.Defaults.{Members}
use core_provider.Convertible.{Unstructured, copy_field, create_empty_convertible}

pub record ConversionRequest : Type 0 where
  pub uid : String
  pub desired_api_version : String
  pub objects : List String

pub record ConversionResponse : Type 0 where
  pub uid : String
  pub converted_objects : List Members
  pub status : String
  pub message : String

-- `decode` is the decoder of unstructured objects, which gives the object and its kind.
module _ (decode : String → Result (Members × String)) (u : Unstructured) where
  unfoldable pub converted : String → String → Members → Members
  converted desired kind src =
      copy_field "status" src (
        copy_field "spec" src (copy_field "metadata" src (create_empty_convertible u desired kind)))

  unfoldable pub convert_objects : String → List String → Result (List Members)
  convert_objects desired [] = ok []
  convert_objects desired (raw ∷ rest) = elim (decode raw) [
    | err e ↦ err (wrap "error decoding object: %w" e)
    | ok (src, kind) ↦ elim (convert_objects desired rest) [
      | err e ↦ err e
      | ok objects ↦ ok (converted desired kind src ∷ objects)
    ]
  ]

  -- handleConvertRequest(req), where the request is not nil
  unfoldable pub handle_convert_request : ConversionRequest → Result ConversionResponse
  handle_convert_request req = elim (convert_objects req.desired_api_version req.objects) [
    | err e ↦ err e
    | ok objects ↦
        ok (record { uid = req.uid; converted_objects = objects; status = "Success"; message = "" })
  ]

-- ConversionReview
pub record ConversionReview : Type 0 where
  pub request : Option ConversionRequest
  pub response : Option ConversionResponse

-- The response writer, the encoder on it, and the metrics, which may be missing. `error_text` is err.Error().
pub record Exchange (W : Type 0) : Type 0 where
  pub write_header : ℕ → Exec W (Unit {0})
  pub encode : ConversionReview → Exec W (Unit {0})
  pub record_request : Option (Bool → Exec W (Unit {0}))
  pub error_text : Error → String

-- errored(err), with the text of the error
unfoldable pub errored : String → ConversionResponse
errored message = record { uid = ""; converted_objects = []; status = "Failure"; message = message }

module _ {W : Type 0} (x : Exchange W) (decode : String → Result (Members × String))
    (u : Unstructured) where
  unfoldable pub response_to : ConversionRequest → ConversionResponse
  unfolding errored
  response_to req = elim (handle_convert_request decode u req) [
    | err e ↦ errored (x.error_text e)
    | ok response ↦ response
  ]

  -- the response under the identifier of the request, and whether the exchange counts as a success
  unfoldable pub send : ConversionRequest → Exec W Bool
  send req = do
    let response = record (response_to req) { uid = req.uid }
    written ← attempt (x.encode (record { request = none; response = some response }))
    elim written [ err e ↦ pure false | ok done ↦ pure (str_eq response.status "Success") ]

  unfoldable pub refuse : Exec W Bool
  refuse = do x.write_header 400; pure false

  -- what is read from the body: a review, or the error of its decoding
  unfoldable pub answer : Result ConversionReview → Exec W Bool
  answer (err e) = refuse
  answer (ok review) = elim review.request [ none ↦ refuse | some req ↦ send req ]

  -- ServeHTTP(w, r)
  unfoldable pub serve_http : Result ConversionReview → Exec W (Unit {0})
  serve_http body = do
    success ← answer body
    elim x.record_request [ none ↦ pure tt | some record_it ↦ record_it success ]
