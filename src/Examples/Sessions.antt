-- ===== src/Examples/Sessions.antt =====
-- The broker with a simple callback.
use rustls_ffi.Prelude.{ℕ, ◌≤◌, ◌<◌, ◌≡◌, refl, ◌≢◌, ◌⊎◌, true, none, some, [], ◌∷◌, ok, err}
use rustls_ffi.Panic.{done, fault, pure}
use rustls_ffi.Memory.{Ptr, write, from_raw_parts}
use rustls_ffi.Error.Codes.{RustlsResult, code}
use rustls_ffi.Slice.{Slice}
use rustls_ffi.Userdata.{UserdataError, userdata_get}
use rustls_ffi.Userdata.Guards.{pushed}
use rustls_ffi.World.{World}
use rustls_ffi.Session.{SessionCallbacks, SessionStoreBroker, buffer_len, retrieve}
use rustls_ffi.Session.Store.{with_buffer, answer, Answers, copied, retrieve_lem, retrieve-Answers}
use rustls_ffi.Examples.{zeros, idle_thread}

-- The callback knows one session, of one byte, for every key.
abbrev pub one_session : SessionCallbacks (World ℕ)
one_session = record {
  get_callback = λ cb u key remove buf n o w.
      done (code RustlsResult.ok, 1) (record w { mem = write buf 42 w.mem });
  put_callback = λ cb u key value. pure (code RustlsResult.ok);
}

abbrev pub at_9000 : World ℕ → ℕ → Ptr
at_9000 w n = 9000

abbrev pub broker : SessionStoreBroker
broker = record { get_cb = 1; put_cb = 2 }

abbrev pub session_key : Slice
session_key = record { ptr = 700; elems = 1 ∷ [] }

abbrev pub quiet : World ℕ
quiet = record { mem = zeros; heap = λ q. none; local = idle_thread }

abbrev inside : World ℕ
inside = record quiet { local = pushed 70 none idle_thread }

abbrev answered : World ℕ
answered = record inside {
  mem = write 9000 42 (with_buffer one_session at_9000 broker 9000 inside).mem;
}

inside_userdata : userdata_get inside.local ≡ (ok 70, inside.local)
unfolding userdata_get
inside_userdata = refl

retrieve_example :
    let got = retrieve one_session at_9000 broker session_key true inside in
    ((code RustlsResult.ok ≡ code RustlsResult.ok)
      × (1 ≤ buffer_len)
      × (got ≡ done (some (from_raw_parts 9000 1 answered.mem)) answered))
    ⊎ ((code RustlsResult.ok ≡ code RustlsResult.ok) × (buffer_len < 1) × (got ≡ fault))
    ⊎ ((code RustlsResult.ok ≢ code RustlsResult.ok) × (got ≡ done none answered))
retrieve_example =
    retrieve_lem one_session at_9000 broker session_key true 70 inside answered
      (code RustlsResult.ok) 1 inside_userdata refl

one_session-Answers :
    Answers one_session at_9000 broker
      (some (42 ∷ []))
      9000
      (answer one_session at_9000 broker session_key true 70 inside)
unfolding from_raw_parts
one_session-Answers = copied (42 ∷ []) answered refl refl refl

retrieve-Answers_example :
    (w' : World ℕ) × (retrieve one_session at_9000 broker session_key true inside
      ≡ done (some (42 ∷ [])) w')
retrieve-Answers_example =
    retrieve-Answers one_session at_9000 broker session_key true 70 inside (some (42 ∷ []))
      inside_userdata one_session-Answers

quiet_userdata : userdata_get quiet.local ≡ (err UserdataError.empty_stack, quiet.local)
unfolding userdata_get
quiet_userdata = refl
