-- ===== src/VirtualCore/Record.antt =====
-- src/oep_client/virtual_core.py: the parts of a request, the forms of an answer, and the record of a
-- session's requests and their answers.
use oep_client_python.Prelude.{
  ℕ, ◌+◌, ◌-◌, ◌%◌, not, ◌&&◌, Option, none, some, List, [], ◌∷◌, ◌++◌, ltb, leb, ◌==◌, length,
  drop, max, if◌then◌else◌,
}
use oep_client_python.Bytes.{Bytes, field, le_bytes}
use oep_client_python.Registry.{malformed, result_lost}
use oep_client_python.Message.Tlv.{bytes_eq}
use oep_client_python.VirtualCore.State.{Endpoint, Entry, Core, same_id}

-- The parts of a request's bytes.
abbrev pub corr_of : Bytes → ℕ
corr_of request = field request 1 2

abbrev pub fn_of : Bytes → ℕ
fn_of request = field request 3 2

abbrev pub op_of : Bytes → ℕ
op_of request = field request 5 1

abbrev pub sid_of : Bytes → ℕ
sid_of request = field request 6 4

abbrev pub payload_of : Bytes → Bytes
payload_of request = drop 10 request

-- answer(reason) and answer(value=value)
unfoldable pub refusal : ℕ → ℕ → Bytes → Bytes
refusal corr reason payload = 2 ∷ (le_bytes 2 corr ++ (0 ∷ reason ∷ payload))

unfoldable pub success : ℕ → Bytes → Bytes
success corr value = 2 ∷ (le_bytes 2 corr ++ (1 ∷ 0 ∷ value))

-- (a - b) % 0x10000 of two corrs
unfoldable pub corr_distance : ℕ → ℕ → ℕ
corr_distance a b = (a + 0x10000 - b) % 0x10000

unfoldable pub lookup : ℕ → List (ℕ × Entry) → Option Entry
lookup corr [] = none
lookup corr ((c, e) ∷ cache) = if c == corr then some e else lookup corr cache

-- The answer from the record of the session's requests, if there is one.
unfoldable pub remembered : Bytes → Entry → Bytes
remembered request e = elim e.request [
  | none ↦ refusal (corr_of request) result_lost []
  | some kept ↦
      if not (bytes_eq kept request)
      then refusal (corr_of request) malformed []
      else (elim e.result [
        | none ↦ refusal (corr_of request) result_lost []
        | some result ↦ result
      ])
]

unfoldable pub replay : Bytes → Core → Option Bytes
replay request c = elim (lookup (corr_of request) c.cache) [
  | some e ↦ some (remembered request e)
  | none ↦
      let ahead = corr_distance (corr_of request) c.high in
      if not (c.high == 0) && not (ltb 0 ahead && ltb ahead 0x8000)
      then some (refusal (corr_of request) result_lost [])
      else none
]

-- self.cache[corr] = …: a key that is there keeps its place.
unfoldable pub put : ℕ → Entry → List (ℕ × Entry) → List (ℕ × Entry)
put corr e [] = (corr, e) ∷ []
put corr e ((c, old) ∷ cache) = if c == corr then (c, e) ∷ cache else (c, old) ∷ put corr e cache

-- The entries half the space or more behind are dropped.
unfoldable pub drop_old : ℕ → List (ℕ × Entry) → List (ℕ × Entry)
drop_old corr [] = []
drop_old corr ((c, e) ∷ cache) =
    let rest = drop_old corr cache in
    if ltb (corr_distance corr c) 0x8000 then (c, e) ∷ rest else rest

abbrev pub cache_max : Endpoint → ℕ
cache_max ep = max 8 ep.max_inflight

-- popitem(last=False) while the cache is too long
unfoldable pub drop_first : ℕ → List (ℕ × Entry) → List (ℕ × Entry)
drop_first n cache = drop (length cache - n) cache

abbrev pub kept_if_short : Endpoint → Bytes → Option Bytes
kept_if_short ep raw = if leb (length raw) ep.remember_max then some raw else none

unfoldable pub remember : Endpoint → Bytes → Bytes → Core → Core
remember ep request result c =
    let corr = corr_of request in
    let e : Entry = record {
      request = kept_if_short ep request;
      result = kept_if_short ep result;
    } in
    if not (sid_of request == 0) && same_id (sid_of request) c.last
    then record c {
      cache = drop_first (cache_max ep) (drop_old corr (put corr e c.cache));
      high = corr;
    }
    else c
