-- ===== src/HostSession/Exchanged.antt =====
-- A host opens a session at a virtual core whose lock is free: what both have after it.
use oep_client_python.Prelude.{
  ℕ, ◌^◌, ◌<◌, ◌≤◌, ◌==◌, ◌≡◌, refl, ap, subst, Bool, true, false, none, some, arith, length,
}
use oep_client_python.Try.{ok}
use oep_client_python.Bytes.{Bytes, le_value-le_bytes}
use oep_client_python.Registry.{core_fn, op_open}
use oep_client_python.Message.Header.{Result, new_request, pack_request, unpack_result, succeeded}
use oep_client_python.VirtualCore.State.{Endpoint, Times, Core, same_id}
use oep_client_python.VirtualCore.Record.{corr_of, success}
use oep_client_python.VirtualCore.Operations.{open_op}
use oep_client_python.VirtualCore.Handle.{handle}
use oep_client_python.Host.{step, next_corr}
use oep_client_python.HostSession.Exec.{Outcome, returned, pure, ◌>>=◌}
use oep_client_python.HostSession.State.{Client}
use oep_client_python.HostSession.Answers.{read_opened}
use oep_client_python.HostSession.Outside.{Outside, modify, of_client, transfer}
use oep_client_python.HostSession.Request.{take_corr, answered, exchange}
use oep_client_python.HostSession.Agreement.{read_opened-open_op}
use oep_client_python.HostSession.Opens.{
  over, core_bytes, pack_request-core_bytes, unpack_result-success, handle_opens,
}

completed_with : ℕ → Bytes → Result
completed_with corr value = record { corr = corr; resolution = 1; detail = 0; payload = value }

same_corr :
    {L : Type 0} (corr : ℕ) (value : Bytes) (s : Client × L)
    → answered corr (completed_with corr value) s ≡ (returned (completed_with corr value), s)
unfolding answered pure completed_with
same_corr corr value s = let same : (corr == corr) ≡ true = ground arith in rw same refl

exchange_answered :
    {L : Type 0} (o : Outside L) (sid fn op : ℕ) (payload raw reply value : Bytes) (c : Client)
    (l l' : L)
    → pack_request (new_request (step c.host.corr) fn op payload (some sid)) ≡ ok raw
    → o.transport raw l ≡ (some reply, l')
    → unpack_result reply ≡ ok (completed_with (step c.host.corr) value)
    → exchange o sid fn op payload (c, l) ≡ (
      returned (completed_with (step c.host.corr) value),
      (record c { host = next_corr sid c.host }, l'),
    )
unfolding exchange take_corr ◌>>=◌ modify of_client transfer next_corr completed_with
exchange_answered o sid fn op payload raw reply value c l l' packed sent unpacked =
    rw (packed, sent, unpacked) (same_corr (step c.host.corr) value _)

step-lt : (corr : ℕ) → (step corr < 2 ^ 16) × (0 < step corr)
unfolding step
step-lt corr = (omega arith, omega arith)

-- What the request of an open leads to, with a virtual core at the other end of the link
abbrev pub asked_open :
    (Bytes → Bool)
    → Endpoint
    → Times
    → ℕ
    → Outside Core
    → ℕ
    → Bytes
    → Client
    → Core
    → Outcome Result × (Client × Core)
asked_open utf8 ep t transport o sid payload c k =
    exchange (over utf8 ep t transport o) sid core_fn op_open payload (c, k)

-- A host sends an open with a session id from 1 to 2 ^ 32 - 1, with a lease and no owner (a payload of five bytes),
-- to a virtual core whose lock is free, whose last session had another id, and whose boot_id fits a u32. The
-- core answers success, the host reads of the answer a lease from 1000 to 60000 ms and the core's boot_id,
-- and the core's lock is held under the id that the host sent; of the host only the corrs have gone on.
pub exchange-over :
    (utf8 : Bytes → Bool) (ep : Endpoint) (t : Times) (transport : ℕ) (o : Outside Core) (sid : ℕ)
    (payload : Bytes) (c : Client) (k : Core)
    → 0 < sid
    → sid < 2 ^ 32
    → length payload ≡ 5
    → ep.boot_id < 2 ^ 32
    → k.holder ≡ none
    → same_id sid k.last ≡ false
    → (r : Result) × ((asked_open utf8 ep t transport o sid payload c k).0 ≡ returned r)
      × (succeeded r ≡ true)
      × ((lease : ℕ) × (read_opened r.payload ≡ ok (lease, ep.boot_id))
          × (1000 ≤ lease)
          × (lease ≤ 60000))
      × ((asked_open utf8 ep t transport o sid payload c k).1.1.holder ≡ some sid)
      × ((asked_open utf8 ep t transport o sid payload c k).1.0
          ≡ record c { host = next_corr sid c.host })
unfolding succeeded completed_with
exchange-over utf8 ep t transport o sid payload c k above small len boot free fresh =
    let corr = step c.host.corr in
    let (fits, above_corr) = step-lt c.host.corr in
    let raw = core_bytes corr 16 sid payload in
    let opened = open_op ep t sid payload none (record k { renewal = none }) in
    let handled = handle utf8 ep t transport none raw k in
    let read : corr_of raw ≡ corr = le_value-le_bytes 2 corr fits in
    let (answer, holder) =
      handle_opens utf8 ep t transport raw payload sid k (ground (arith, len))
        (ground (arith, read, above_corr)) refl refl (le_value-le_bytes 4 sid small) refl len above
        free fresh in
    let answer' : handled.0 ≡ some (success corr opened.0) =
      subst (λ n. handled.0 ≡ some (success n opened.0)) read answer in
    let sent : handled ≡ (some (success corr opened.0), handled.1) =
      ap (λ a. (a, handled.1)) answer' in
    let e =
      exchange_answered (over utf8 ep t transport o) sid 0 16 payload raw (success corr opened.0)
        opened.0 c k handled.1 (pack_request-core_bytes corr sid payload fits small) sent
        (unpack_result-success corr opened.0 fits) in
    let (lease, low, high) =
      read_opened-open_op ep t sid payload none (record k { renewal = none }) boot in
    rw e
      (completed_with corr opened.0, refl, refl, (opened.1.lease, lease, low, high), holder, refl)
