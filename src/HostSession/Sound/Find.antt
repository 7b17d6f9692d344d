-- ===== src/HostSession/Sound/Find.antt =====
-- The list of interfaces, its pages and what is read by it are sound.
use oep_client_python.Prelude.{
  ℕ, zero, suc, ◌+◌, ◌≤◌, ◌<◌, ◌==◌, ◌≡◌, refl, Bool, true, ◌||◌, Option, none, some, List, [], ◌∷◌,
  ◌++◌, arith, leb, length, length-append, if◌then◌else◌,
}
use oep_client_python.Try.{ok}
use oep_client_python.Bytes.{Bytes}
use oep_client_python.Registry.{op_restart, tag_ops}
use oep_client_python.Catalog.Bitmap.{check_ops}
use oep_client_python.Catalog.Describe.{first_value}
use oep_client_python.Catalog.Entries.{ListEntry, pack_list_request}
use oep_client_python.HostSession.Exec.Readers.{
  pack_list_request-Terminates, unpack_list_result-Terminates, unpack_ops-Terminates,
}
use oep_client_python.HostSession.Exec.{
  Raised, rejected, failed, not_v1, not_usable, unsupported_revision, unusable_function,
  lookup_error, no_answer, python, out_of_fuel, pure, throw, ◌>>=◌, ◌>>◌,
}
use oep_client_python.HostSession.Exec.Runs.{IsAnswer}
use oep_client_python.HostSession.State.{Client}
use oep_client_python.HostSession.Outside.{Outside, modify}
use oep_client_python.HostSession.Request.{ask}
use oep_client_python.HostSession.Find.{
  list_pages, list_rounds, list_entries, without_core, note_revisions, first_of, pick, find,
  as_lookup_error, find_spoken, ops_of, ops, offers, require_op, restart_fn, restart_name,
  is_lookup_error, restart_max_ms, request_restart,
}
use oep_client_python.HostSession.Sound.{
  IsClient, Changed, Sound, Any, Any-Stays, Sound-pure, Sound-throw, Sound-of_client, Sound-if,
  Sound-lift, Sound-modify, Sound-bind, Sound-try, Sound-bind-lift, Sound-elim,
}
use oep_client_python.HostSession.Sound.Changes.{Since-same, lost-Changed}
use oep_client_python.HostSession.Sound.Describes.{describe-Sound, call-Sound}
use oep_client_python.HostSession.Sound.Depth.{ask-Any, ask-Quicks}

pack_list_request-lt :
    (first : ℕ) (body : Bytes) → pack_list_request first ≡ ok body → first < 0x10000
unfolding pack_list_request
pack_list_request-lt first body e = ground arith

noted-Changed :
    (entries : List ListEntry) (c : Client)
    → IsClient c
    → Changed c (record c { revisions = note_revisions entries c.revisions })
noted-Changed entries c i = (i, Since-same c _ refl refl refl refl refl (λ h. h))

picked-Changed :
    (name : List ℕ) (revision : Option ℕ) (fn : ℕ) (c : Client)
    → IsClient c
    → Changed c (record c { fns = ((name, revision), fn) ∷ c.fns })
picked-Changed name revision fn c i = (i, Since-same c _ refl refl refl refl refl (λ h. h))

as_lookup_error-IsAnswer : (e : Raised) → IsAnswer e → IsAnswer (as_lookup_error e)
as_lookup_error-IsAnswer (rejected r) h = tt
as_lookup_error-IsAnswer (failed r) h = tt
as_lookup_error-IsAnswer not_v1 h = tt
as_lookup_error-IsAnswer not_usable h = tt
as_lookup_error-IsAnswer unsupported_revision h = tt
as_lookup_error-IsAnswer unusable_function h = tt
as_lookup_error-IsAnswer lookup_error h = tt
as_lookup_error-IsAnswer no_answer h = tt
as_lookup_error-IsAnswer (python e) h = h
as_lookup_error-IsAnswer out_of_fuel h = h

module _ {L : Type 0} (o : Outside L) where
  list_pages-Sound :
      (n : ℕ) (got : List ListEntry)
      → 0 < n
      → 0x10001 ≤ n + length got
      → Sound Any (list_pages o n got)
  unfolding list_pages
  list_pages-Sound zero got h k = absurd (omega arith)
  list_pages-Sound (suc n) got h k =
      Sound-bind-lift _ _ (pack_list_request-Terminates (length got)) λ body packed.
        Sound-bind Any-Stays _ _ (ask-Any o _ _ _ _ _) λ r.
          Sound-bind-lift _ _ (unpack_list_result-Terminates o.decode_utf8 r.payload) λ answer read.
            let (total, page) = answer in
            Sound-elim (length page == 0 || leb total (length (got ++ page))) _ _
              (Sound-pure (got ++ page))
              λ more.
                let low = pack_list_request-lt (length got) body packed in
                let longer = length-append got page in
                let filled : 0 < length page = ground (arith, more) in
                list_pages-Sound n (got ++ page) (omega (arith, k, low))
                  (omega (arith, k, longer, filled))

  pub list_entries-Sound : (name : List ℕ) (exact : Bool) → Sound Any (list_entries o name exact)
  unfolding list_entries
  list_entries-Sound name exact =
      Sound-bind Any-Stays _ _ (list_pages-Sound list_rounds [] (omega arith) (omega arith)) λ got.
        Sound-bind Any-Stays _ _ (Sound-modify _ (noted-Changed (without_core got)))
          λ u. Sound-pure _

  picked-Sound :
      (name : List ℕ) (revision : Option ℕ) (entries : List ListEntry) (first : Option ℕ)
      → Sound {L = L} {A = ℕ} Any (elim first [
        | some fn ↦ do modify (λ c. record c { fns = ((name, revision), fn) ∷ c.fns }); pure fn
        | none ↦ if length entries == 0 then throw lookup_error else throw unsupported_revision
      ])
  picked-Sound name revision entries (some fn) =
      Sound-bind Any-Stays _ _ (Sound-modify _ (picked-Changed name revision fn)) λ u. Sound-pure fn
  picked-Sound name revision entries none =
      Sound-if (length entries == 0) _ _ (Sound-throw _ tt) (Sound-throw _ tt)

  pick-Sound :
      (name : List ℕ) (revision : Option ℕ) (entries : List ListEntry)
      → Sound Any (pick o name revision entries)
  unfolding pick
  pick-Sound name revision entries = picked-Sound name revision entries (first_of revision entries)

  found-Sound :
      (name : List ℕ) (revision known : Option ℕ)
      → Sound {A = ℕ} Any (elim known [
        | some fn ↦ pure fn
        | none ↦ do entries ← list_entries o name true; pick o name revision entries
      ])
  found-Sound name revision (some fn) = Sound-pure fn
  found-Sound name revision none =
      Sound-bind Any-Stays _ _ (list_entries-Sound name true)
        λ entries. pick-Sound name revision entries

  pub find-Sound : (name : List ℕ) (revision : Option ℕ) → Sound Any (find o name revision)
  unfolding find
  find-Sound name revision =
      Sound-bind Any-Stays _ _ (Sound-of_client _) λ known. found-Sound name revision known

  restart_fn-Sound : Sound Any (restart_fn o)
  unfolding restart_fn find_spoken
  restart_fn-Sound =
      Sound-try Any-Stays _ _ _ (find-Sound restart_name (some 1))
        (λ e a. Sound-throw _ (as_lookup_error-IsAnswer e a)) λ fn. Sound-pure fn

  ops_of-Sound : (value : Option Bytes) → Sound Any (ops_of o value)
  ops_of-Sound none = Sound-pure none
  ops_of-Sound (some value) = Sound-if (check_ops value) _ _ (Sound-throw _ tt) (
      Sound-bind Any-Stays _ _ (Sound-lift _ (unpack_ops-Terminates value))
        λ found. Sound-pure (some found))

  ops-Sound : (fn : ℕ) → Sound Any (ops o fn)
  unfolding ops
  ops-Sound fn =
      Sound-bind Any-Stays _ _ (describe-Sound Any Any-Stays (ask o) fn (ask-Quicks o))
        λ rows. ops_of-Sound (first_value rows tag_ops)

  pub require_op-Sound : (fn op : ℕ) → Sound Any (require_op o fn op)
  unfolding require_op offers
  require_op-Sound fn op =
      Sound-bind Any-Stays _ _ (Sound-bind Any-Stays _ _ (ops-Sound fn) λ declared. Sound-pure _)
        λ offered. Sound-if offered _ _ (Sound-pure tt) (Sound-throw _ tt)

  pub restart_max_ms-Sound : Sound Any (restart_max_ms o)
  unfolding restart_max_ms
  restart_max_ms-Sound =
      Sound-try Any-Stays _ _ _ restart_fn-Sound
        (λ e a. Sound-if (is_lookup_error e) _ _ (Sound-pure none) (Sound-throw e a))
        λ fn.
          Sound-bind Any-Stays _ _ (describe-Sound Any Any-Stays (ask o) fn (ask-Quicks o))
            λ rows. Sound-pure _

  pub request_restart-Sound : Sound Any (request_restart o)
  unfolding request_restart
  request_restart-Sound = Sound-bind Any-Stays _ _ restart_fn-Sound λ fn.
      Sound-bind Any-Stays _ _
        (call-Sound Any Any-Stays (ask o) fn op_restart [] (ask-Any o _ _ _ _ _))
        λ r. Sound-modify _ (λ c i. lost-Changed c)
