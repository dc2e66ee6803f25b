-- ===== src/Conversion/Serving.antt =====
-- internal/controllers/compositiondefinitions/webhooks/conversion/conversion.go, ServeHTTP: what is
-- answered to a conversion review.
use core_provider.Base.{String, [], none, some, false, ◌≡◌, str_eq}
use core_provider.Base.Result.{Error, Result, ok, err}
use core_provider.Base.Exec.{Exec, pure, attempt, ◌>>=◌}
use core_provider.Defaults.{Members}
use core_provider.Convertible.{Unstructured}
use core_provider.Conversion.{
  ConversionRequest, ConversionResponse, Exchange, response_to, handle_convert_request,
}
use core_provider.Conversion.Fields.{AllConverted}

module _ {W : Type 0} (x : Exchange W) (decode : String → Result (Members × String))
    (u : Unstructured) where
  -- The response to a request: all of its objects converted, or the error of the conversion.
  pub data Answers (req : ConversionRequest) (response : ConversionResponse) : Type 0 where
    all_converted :
        response.status ≡ "Success"
        → AllConverted decode u req.desired_api_version req.objects response.converted_objects
        → Answers req response
    failed :
        (e : Error)
        → handle_convert_request decode u req ≡ err e
        → response.status ≡ "Failure"
        → response.message ≡ x.error_text e
        → response.converted_objects ≡ []
        → Answers req response

  -- the end of ServeHTTP, after the attempt to write a review with the response
  abbrev pub reported : ConversionResponse → Exec W (Unit {0})
  reported response = do
    success ← (do
      written ← attempt (x.encode (record { request = none; response = some response }))
      elim written [ err e ↦ pure false | ok done ↦ pure (str_eq response.status "Success") ])
    elim x.record_request [ none ↦ pure tt | some record_it ↦ record_it success ]

  abbrev sent : ConversionRequest → ConversionResponse
  sent req = record (response_to x decode u req) { uid = req.uid }
