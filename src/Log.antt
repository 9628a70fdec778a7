-- ===== src/Log.antt =====
-- log.rs: the logger that hands each record to the callback on top of the thread's stack. The crate
-- `log`, the C callbacks, and the place of a formatted message are parameters.
pub mod Messages
use rustls_ffi.Prelude.{
  ℕ, Bool, true, Option, none, some, Result, List, ◌∷◌, ◌++◌, ok, err, ◌==◌, if◌then◌else◌,
}
use rustls_ffi.Panic.{Cmd, pure, modify, ◌>>=◌, ◌>>◌}
use rustls_ffi.Memory.{Ptr, copy}
use rustls_ffi.Slice.{Slice, RustlsStr, str_try_from, from_str_unchecked}
use rustls_ffi.Userdata.{FnPtr, UserdataError, log_callback_get}
use rustls_ffi.World.{World, on_local, on_memory}

-- `log::Level`
pub data Level : Type 0 where
  error warn info debug trace : Level

-- `level as usize`
unfoldable pub level_number : Level → ℕ
level_number Level.error = 1
level_number Level.warn = 2
level_number Level.info = 3
level_number Level.debug = 4
level_number Level.trace = 5

-- `log::Record`: the level, and the texts of the target and of the arguments.
pub record LogRecord : Type 0 where
  pub level : Level
  pub target : List ℕ
  pub args : List ℕ

pub record RustlsLogParams : Type 0 where
  pub level : ℕ
  pub message : RustlsStr

pub record LogHost (W : Type 0) : Type 0 where
  pub log_callback : FnPtr → (userdata : Ptr) → RustlsLogParams → Cmd W (Unit {0})
  -- `log::set_logger(&Logger {})`, whose failure is ignored, and `log::set_max_level(Debug)`
  pub set_logger : Cmd W (Unit {0})
  pub set_max_level_debug : Cmd W (Unit {0})
  -- where the formatted message lies
  pub string_at : W → List ℕ → Ptr

module _ {O : Type 0} (host : LogHost (World O)) where
  open host use {log_callback, set_logger, set_max_level_debug, string_at}

  unfoldable pub enabled : LogRecord → Bool
  enabled metadata = true

  -- `format!("{} {}", record.target(), record.args())`
  abbrev pub message_text : LogRecord → List ℕ
  message_text record_ = record_.target ++ b' ' ∷ record_.args

  -- The formatted message lies in a String, and is handed out if it has no NUL byte.
  abbrev pub log_to : LogRecord → FnPtr → Ptr → Cmd (World O) (Unit {0})
  log_to record_ cb userdata w =
      let text : Slice = record {
        ptr = string_at w (message_text record_);
        elems = message_text record_;
      } in
      elim (str_try_from text) [
        | ok message ↦
            (on_memory (modify (copy text.elems text.ptr))
                >> log_callback cb userdata
                    (record { level = level_number record_.level; message = message }))
              w
        | err e ↦ pure tt w
      ]

  -- `if let Ok((Some(cb), userdata)) = …`
  abbrev pub log_got :
      LogRecord → Result UserdataError (Option FnPtr × Ptr) → Cmd (World O) (Unit {0})
  log_got record_ (ok (some cb, userdata)) = log_to record_ cb userdata
  log_got record_ (ok (none, userdata)) = pure tt
  log_got record_ (err e) = pure tt

  -- `Log::log`
  unfoldable pub log : LogRecord → Cmd (World O) (Unit {0})
  log record_ = on_local log_callback_get >>= log_got record_

  -- with the feature `no_log_capture` the logger is left alone
  unfoldable pub ensure_log_registered : (no_log_capture : Bool) → Cmd (World O) (Unit {0})
  ensure_log_registered no_log_capture =
      if no_log_capture then pure tt else (set_logger >> set_max_level_debug)

-- The static texts of the levels are `as_str`, that of an unknown one is `invalid`.
unfoldable pub rustls_log_level_str : (as_str : Level → Slice) (invalid : Slice) → ℕ → RustlsStr
unfolding from_str_unchecked
rustls_log_level_str as_str invalid level = from_str_unchecked (
    if level == 1
    then as_str Level.error
    else if level == 2
    then as_str Level.warn
    else if level == 3
    then as_str Level.info
    else if level == 4
    then as_str Level.debug
    else if level == 5
    then as_str Level.trace
    else invalid)
