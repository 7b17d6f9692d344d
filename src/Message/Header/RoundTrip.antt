-- ===== src/Message/Header/RoundTrip.antt =====
-- Headers of requests and results: what is packed is read back, and a message read is packed again.
use oep_client_python.Prelude.{◌≡◌, arith, All, ◌∷◌}
use oep_client_python.Try.{ok, ◌>>=◌}
use oep_client_python.Bytes.{Bytes, IsByte}
use oep_client_python.Message.Header.{
  Request, Result, IsRequest, IsResult, pack_request, unpack_request, pack_result, unpack_result,
}

-- A request whose fields fit the header packs, and unpacking gives the request back.
pub unpack_request-pack_request :
    (r : Request) → IsRequest r → (pack_request r >>= unpack_request) ≡ ok r
unfolding pack_request unpack_request
unpack_request-pack_request r h = ground arith

-- A message of bytes that unpacks as a request is what the request packs to, and the request's
-- fields fit the header.
pub pack_request-unpack_request :
    (raw : Bytes) (r : Request)
    → All IsByte raw
    → unpack_request raw ≡ ok r
    → (pack_request r ≡ ok raw) × IsRequest r
unfolding pack_request unpack_request
pack_request-unpack_request (a ∷ b ∷ c ∷ d ∷ e ∷ f ∷ g ∷ h ∷ i ∷ j ∷ rest) r bytes e' = ground arith
pack_request-unpack_request raw r bytes e = ground arith

-- A result whose fields fit the header packs, and unpacking gives the result back.
pub unpack_result-pack_result : (r : Result) → IsResult r → (pack_result r >>= unpack_result) ≡ ok r
unfolding pack_result unpack_result
unpack_result-pack_result r h = ground arith
