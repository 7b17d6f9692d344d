-- ===== src/Message/Header.antt =====
-- src/oep_client/message.py: `Request` and `Result`, packed and unpacked.
pub mod RoundTrip
use oep_client_python.Prelude.{
  ℕ, ◌+◌, ◌^◌, ◌<◌, Bool, ◌&&◌, ◌||◌, Option, none, some, ◌++◌, ltb, ◌==◌, length, drop, All,
  if◌then◌else◌,
}
use oep_client_python.Try.{Try, ok, raise, value_error, short_payload, ◌>>=◌}
use oep_client_python.Bytes.{Bytes, IsByte, field, pack_field}
use oep_client_python.Registry.{
  role_request, role_result, request_header, result_header, no_session_id, completed, success,
  failed, partial,
}

pub record Request : Type 0 where
  pub corr : ℕ
  pub fn : ℕ
  pub op : ℕ
  pub payload : Bytes
  pub session : ℕ

-- __post_init__: a session of None is 0.
unfoldable pub new_request : ℕ → ℕ → ℕ → Bytes → Option ℕ → Request
new_request corr fn op payload none = record {
  corr = corr;
  fn = fn;
  op = op;
  payload = payload;
  session = no_session_id;
}
new_request corr fn op payload (some session) = record {
  corr = corr;
  fn = fn;
  op = op;
  payload = payload;
  session = session;
}

-- struct.pack("<BHHBI", …) + payload
unfoldable pub pack_request : Request → Try Bytes
pack_request r = do
  role ← pack_field 1 role_request
  corr ← pack_field 2 r.corr
  fn ← pack_field 2 r.fn
  op ← pack_field 1 r.op
  session ← pack_field 4 r.session
  ok (role ++ (corr ++ (fn ++ (op ++ (session ++ r.payload)))))

unfoldable pub unpack_request : Bytes → Try Request
unpack_request bytes =
    if ltb (length bytes) request_header
    then raise value_error
    else if field bytes 0 1 == role_request
    then ok (record {
      corr = field bytes 1 2;
      fn = field bytes 3 2;
      op = field bytes 5 1;
      payload = drop request_header bytes;
      session = field bytes 6 4;
    })
    else raise value_error

pub record Result : Type 0 where
  pub corr : ℕ
  pub resolution : ℕ
  pub detail : ℕ
  pub payload : Bytes

unfoldable pub pack_result : Result → Try Bytes
pack_result r = do
  role ← pack_field 1 role_result
  corr ← pack_field 2 r.corr
  resolution ← pack_field 1 r.resolution
  detail ← pack_field 1 r.detail
  ok (role ++ (corr ++ (resolution ++ (detail ++ r.payload))))

unfoldable pub unpack_result : Bytes → Try Result
unpack_result bytes =
    if ltb (length bytes) result_header
    then raise short_payload
    else if field bytes 0 1 == role_result
    then ok (record {
      corr = field bytes 1 2;
      resolution = field bytes 3 1;
      detail = field bytes 4 1;
      payload = drop result_header bytes;
    })
    else raise value_error

unfoldable pub succeeded : Result → Bool
succeeded r = r.resolution == completed && r.detail == success

unfoldable pub ran : Result → Bool
ran r =
    r.resolution == completed && (r.detail == success || r.detail == failed || r.detail == partial)

-- The fields fit the header, and the payload is made of bytes.
pub record IsRequest (r : Request) : Type 0 where
  pub corr : r.corr < 2 ^ 16
  pub fn : r.fn < 2 ^ 16
  pub op : r.op < 2 ^ 8
  pub session : r.session < 2 ^ 32
  pub payload : All IsByte r.payload

pub record IsResult (r : Result) : Type 0 where
  pub corr : r.corr < 2 ^ 16
  pub resolution : r.resolution < 2 ^ 8
  pub detail : r.detail < 2 ^ 8
  pub payload : All IsByte r.payload
