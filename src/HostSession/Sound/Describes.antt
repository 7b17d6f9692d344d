-- ===== src/HostSession/Sound/Describes.antt =====
-- `describe`, `confirm` and `subscribe` are sound where the requests they send are; a describe's pages end.
use oep_client_python.Prelude.{
  ℕ, zero, suc, ◌+◌, ◌≤◌, ◌<◌, ◌==◌, ◌≡◌, refl, inl, inr, Bool, true, false, not, ◌&&◌, ◌||◌,
  Option, none, some, List, [], ◌∷◌, ◌++◌, arith, length, drop, if◌then◌else◌,
}
use oep_client_python.Try.{ok, value_error, >>=-eq_ok}
use oep_client_python.Bytes.{Bytes}
use oep_client_python.Registry.{core_fn, op_describe, op_confirm, op_subscribe}
use oep_client_python.Message.Header.{succeeded}
use oep_client_python.Message.Reader.{reader, u8}
use oep_client_python.Message.Tlv.{Tlv, split_tlvs, split_loop, split_one}
use oep_client_python.Catalog.Entries.{pack_describe_request}
use oep_client_python.HostSession.Exec.Readers.{
  pack_describe_request-Terminates, read_page-Terminates, split_tlvs-Terminates,
  confirm_body-Terminates, read_confirm-Terminates, subscribe_body-Terminates,
}
use oep_client_python.HostSession.Exec.{failed, python, pure, lift, ◌>>=◌, ◌>>◌}
use oep_client_python.HostSession.State.{Client, is_quick, assign}
use oep_client_python.HostSession.Answers.{read_page, is_usable}
use oep_client_python.HostSession.Outside.{Requests, modify}
use oep_client_python.HostSession.Asking.{
  not_usable_now, not_confirmed, confirm_answer, subscribed, call, subscribe, subscribe_as,
  subscribe_each, describe_pages, describe_rounds, describe, know_max_op_ms, confirm_for,
  is_malformed,
}
use oep_client_python.HostSession.Sound.{
  IsClient, Changed, Sound, Calm, Calm-Stays, Sound-pure, Sound-throw, Sound-of_client, Sound-if,
  Sound-lift, Sound-modify, Sound-when, Sound-bind, Sound-try, Sound-bind-lift, Sound-elim, Stays,
}
use oep_client_python.HostSession.Sound.Changes.{
  Since-same, with_revision-Changed, confirmed_with-Changed,
}
use oep_client_python.HostSession.Sound.Requests.{Quicks, Within}

pack_describe_request-lt :
    (fn first : ℕ) (body : Bytes) → pack_describe_request fn first ≡ ok body → first < 0x10000
unfolding pack_describe_request
pack_describe_request-lt fn first body e = ground arith

split_tlvs_some :
    (bytes : Bytes) (rows : List Tlv)
    → split_tlvs bytes ≡ ok rows
    → (length bytes == 0) ≡ false
    → 0 < length rows
unfolding split_tlvs split_loop
split_tlvs_some [] rows e h = absurd (ground (arith, h))
split_tlvs_some (b ∷ bs) rows e h =
    let (one, e1, rest) = >>=-eq_ok (split_one (b ∷ bs)) _ e in
    let (out, e2, last) = >>=-eq_ok (split_loop (length bs) one.1) _ rest in ground (arith, last)

read_page_rows :
    (payload chunk : Bytes) (more rows : ℕ)
    → read_page payload ≡ ok (more, rows, chunk)
    → (length chunk == 0) ≡ false
    → 0 < rows
unfolding read_page
read_page_rows payload chunk more rows e h =
    let (first, e1, rest) = >>=-eq_ok (u8 (reader payload)) _ e in
    let (tlvs, e2, last) = >>=-eq_ok (split_tlvs (drop 1 payload)) _ rest in
    let same : drop 1 payload ≡ chunk = ground (arith, last) in
    let count : length tlvs ≡ rows = ground (arith, last) in
    let some_tlvs = split_tlvs_some (drop 1 payload) tlvs e2 (rw same h) in
    omega (arith, count, some_tlvs)

-- A host with a session has a revision still, which is 0 then.
revision_zero-Changed : (c : Client) → IsClient c → Changed c (record c { revision = some 0 })
revision_zero-Changed c i = with_revision-Changed 0 c.limits c i

subscribed-Changed :
    (fn min_bytes max_delay_ms : ℕ) (c : Client)
    → IsClient c
    → Changed c (subscribed fn min_bytes max_delay_ms c)
subscribed-Changed fn min_bytes max_delay_ms c i =
    (i, Since-same c _ refl refl refl refl refl (λ h. rw h refl))

described-Changed :
    (fn : ℕ) (rows : List Tlv) (c : Client)
    → IsClient c
    → Changed c (record c { describes = assign fn rows c.describes })
described-Changed fn rows c i = (i, Since-same c _ refl refl refl refl refl (λ h. h))

module _ {L : Type 0} where
  pub not_usable_now-Sound :
      {A : Type 0} {K : Client → Type 0} → Sound {L = L} {A = A} K not_usable_now
  not_usable_now-Sound = record {
    at = λ c l i k. (
      (
        i,
        record {
          epoch = omega arith;
          session = inr (inl refl);
          boot_id = inr (inl refl);
          unusable = λ h. refl;
          revision = λ h. h;
          moved = λ h. h;
        },
      ),
      tt,
    );
  }

  describe_pages-Sound :
      (K : Client → Type 0) (stays : Stays K) (r : Requests L)
      → Quicks K r
      → (n fn first : ℕ) (got : Bytes) → 0 < n
      → 0x10001 ≤ n + first
      → Sound K (describe_pages r n fn first got)
  unfolding describe_pages is_quick
  describe_pages-Sound K stays r q zero fn first got h k = absurd (omega arith)
  describe_pages-Sound K stays r q (suc n) fn first got h k =
      Sound-bind-lift _ _ (pack_describe_request-Terminates fn first) λ body packed.
        Sound-bind stays _ _ (q op_describe body refl) λ result.
          Sound-bind-lift _ _ (read_page-Terminates result.payload) λ page read.
            Sound-elim (page.0 == 0 || length page.2 == 0) _ _ (Sound-pure (got ++ page.2)) λ more.
              let low = pack_describe_request-lt fn first body packed in
              let some_rows =
                read_page_rows result.payload page.2 page.0 page.1 read (ground (arith, more)) in
              describe_pages-Sound K stays r q n fn (first + page.1) (got ++ page.2)
                (omega (arith, k, low)) (omega (arith, k, some_rows))

  asked-Sound :
      (K : Client → Type 0) (stays : Stays K) (r : Requests L) (fn : ℕ) (cached : Option (List Tlv))
      → Quicks K r
      → Sound K (elim cached [
        | some rows ↦ pure rows
        | none ↦ do
          got ← describe_pages r describe_rounds fn 0 []
          rows ← lift (split_tlvs got)
          if fn == core_fn && not (is_usable rows)
              then not_usable_now
              else do modify (λ c. record c { describes = assign fn rows c.describes }); pure rows
      ])
  asked-Sound K stays r fn (some rows) q = Sound-pure rows
  asked-Sound K stays r fn none q =
      Sound-bind stays _ _
        (describe_pages-Sound K stays r q describe_rounds fn 0 [] (omega arith) (omega arith))
        λ got. Sound-bind stays _ _ (Sound-lift _ (split_tlvs-Terminates got)) λ rows.
          Sound-if (fn == core_fn && not (is_usable rows)) _ _ not_usable_now-Sound
            (Sound-bind stays _ _ (Sound-modify _ (described-Changed fn rows)) λ u. Sound-pure rows)

  pub describe-Sound :
      (K : Client → Type 0) (stays : Stays K) (r : Requests L) (fn : ℕ)
      → Quicks K r
      → Sound K (describe r fn)
  unfolding describe
  describe-Sound K stays r fn q =
      Sound-bind stays _ _ (Sound-of_client _) λ cached. asked-Sound K stays r fn cached q

  pub know_max_op_ms-Sound :
      (K : Client → Type 0) (stays : Stays K) (r : Requests L) (all_quick : Bool)
      → Quicks K r
      → Sound K (know_max_op_ms r all_quick)
  unfolding know_max_op_ms
  know_max_op_ms-Sound K stays r all_quick q = record {
    at = λ c l i k.
        (Sound-when _ _
            (Sound-bind stays _ _ (describe-Sound K stays r core_fn q) λ rows. Sound-pure tt)).at
          c l i k;
  }

  pub confirm_for-Sound :
      (K : Client → Type 0) (stays : Stays K) (r : Requests L) (range : ℕ × ℕ)
      → ((payload : Bytes) → Sound K (r core_fn op_confirm payload false none))
      → Sound K (confirm_for r range)
  unfolding confirm_for not_confirmed confirm_answer
  confirm_for-Sound K stays r range q =
      Sound-bind stays _ _ (Sound-lift _ (confirm_body-Terminates range)) λ body.
        Sound-try stays _ _ _ (q body)
          (λ e a.
            Sound-bind stays _ _
              (Sound-if (is_malformed e) _ _ (Sound-modify _ revision_zero-Changed) (Sound-pure tt))
              λ u. Sound-throw e a)
          λ result. Sound-if (not (succeeded result)) _ _ (Sound-throw _ tt) (
            Sound-bind stays _ _
              (Sound-lift _ (read_confirm-Terminates range.0 range.1 result.payload))
              λ limits. Sound-if _ _ _ not_usable_now-Sound (
                Sound-bind stays _ _ (Sound-modify _ (confirmed_with-Changed limits))
                  λ u. Sound-pure limits))

  pub call-Sound :
      (K : Client → Type 0) (stays : Stays K) (r : Requests L) (fn op : ℕ) (payload : Bytes)
      → Sound K (r fn op payload true none)
      → Sound K (call r fn op payload)
  unfolding call
  call-Sound K stays r fn op payload h =
      Sound-bind stays _ _ h λ result.
        Sound-if (succeeded result) _ _ (Sound-pure result) (Sound-throw (failed result) tt)

  pub subscribe-Sound :
      (K : Client → Type 0) (stays : Stays K) (r : Requests L) (fn min_bytes max_delay_ms : ℕ)
      → Within K r
      → Sound K (subscribe r fn min_bytes max_delay_ms)
  unfolding subscribe
  subscribe-Sound K stays r fn min_bytes max_delay_ms h =
      Sound-if (fn == 0) _ _ (Sound-throw (python value_error) tt) (
        Sound-bind stays _ _ (Sound-lift _ (subscribe_body-Terminates min_bytes max_delay_ms))
          λ body.
            Sound-bind stays _ _ (call-Sound K stays r fn op_subscribe body (h _ _ _ _ _))
              λ result. Sound-modify _ (subscribed-Changed fn min_bytes max_delay_ms))

  subscribe_as-Sound :
      (r : Requests L) (fn : ℕ) (wanted : Option (ℕ × ℕ))
      → Within Calm r
      → Sound Calm (subscribe_as r fn wanted)
  subscribe_as-Sound r fn none h = subscribe-Sound Calm Calm-Stays r fn 0 0 h
  subscribe_as-Sound r fn (some (min_bytes, max_delay_ms)) h =
      subscribe-Sound Calm Calm-Stays r fn min_bytes max_delay_ms h

  pub subscribe_each-Sound :
      (r : Requests L) (fns : List ℕ) → Within Calm r → Sound Calm (subscribe_each r fns)
  unfolding subscribe_each
  subscribe_each-Sound r [] h = Sound-pure tt
  subscribe_each-Sound r (fn ∷ fns) h = Sound-bind Calm-Stays _ _ (Sound-of_client _) λ wanted.
      Sound-bind Calm-Stays _ _ (subscribe_as-Sound r fn wanted h) λ u. subscribe_each-Sound r fns h
