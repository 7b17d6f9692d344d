-- ===== src/HostSession/Outside.antt =====
-- What a host of src/oep_client/host.py takes from outside, and its state: what it keeps, and the link's.
use oep_client_python.Prelude.{ℕ, ◌<◌, Bool, Option, none, some, List, if◌then◌else◌}
use oep_client_python.Bytes.{Bytes}
use oep_client_python.Message.Header.{Result}
use oep_client_python.HostSession.Exec.{no_answer, Outcome, returned, raised, Exec, pure}
use oep_client_python.HostSession.State.{Client}

-- The transport, which gives the bytes of an answer or raises; a random session id,
-- randrange(1, 1 << 32); a clock that does not go back; and Python's UTF-8.
pub record Outside (L : Type 0) : Type 0 where
  pub transport : Bytes → L → Option Bytes × L
  pub randrange : L → ℕ × L
  pub clock : L → ℕ × L
  pub encode_utf8 : List ℕ → Bytes
  pub decode_utf8 : Bytes → List ℕ
  pub randrange_above : (l : L) → 0 < (randrange l).0

abbrev pub Method : Type 0 → Type 0 → Type 0
Method L A = Exec (Client × L) A

-- A request's fn, op and payload, `locked`, and `session`.
abbrev pub Requests : Type 0 → Type 0
Requests L = ℕ → ℕ → Bytes → Bool → Option ℕ → Method L Result

module _ {L : Type 0} where
  unfoldable pub modify : (Client → Client) → Method L (Unit {0})
  modify f (c, l) = (returned tt, (f c, l))

  unfoldable pub of_client : {A : Type 0} → (Client → A) → Method L A
  of_client f (c, l) = (returned (f c), (c, l))

  abbrev pub when : Bool → Method L (Unit {0}) → Method L (Unit {0})
  when b m = if b then m else pure tt

  abbrev pub answer_or : Option Bytes × L → Client → Outcome Bytes × (Client × L)
  answer_or (none, l) c = (raised no_answer, (c, l))
  answer_or (some raw, l) c = (returned raw, (c, l))

  module _ (o : Outside L) where
    -- self.send(raw)
    unfoldable pub transfer : Bytes → Method L Bytes
    transfer raw (c, l) = answer_or (o.transport raw l) c

    unfoldable pub random_id : Method L ℕ
    random_id (c, l) = let (sid, l') = o.randrange l in (returned sid, (c, l'))

    unfoldable pub read_now : Method L ℕ
    read_now (c, l) = let (ns, l') = o.clock l in (returned ns, (c, l'))
