-- ===== src/Log/Messages.antt =====
-- What the logger makes of a record.
use rustls_ffi.Prelude.{
  ℕ, ◌≡◌, refl, ap, ◌⊎◌, inl, inr, true, false, Option, none, some, List, [], ◌∷◌, ◌++◌, Result, ok,
  err, length, arith, Bool-cases, Option-cases,
}
use rustls_ffi.Panic.{done}
use rustls_ffi.Memory.{Ptr, copy, from_raw_parts, from_raw_parts-copy}
use rustls_ffi.Slice.{contains, str_try_from}
use rustls_ffi.Userdata.{FnPtr, Userdata, UserdataError, Local, log_callback_get}
use rustls_ffi.Userdata.Guards.{IsAvailable}
use rustls_ffi.World.{World}
use rustls_ffi.Log.{Level, LogRecord, RustlsLogParams, LogHost, level_number, log_to, log_got, log}

-- The numbers of the levels, from the most to the least urgent one.
pub data LevelIs : Level → ℕ → Type 0 where
  error_is : LevelIs Level.error 1
  warn_is : LevelIs Level.warn 2
  info_is : LevelIs Level.info 3
  debug_is : LevelIs Level.debug 4
  trace_is : LevelIs Level.trace 5

-- The target, a space, and the arguments.
abbrev pub text_of : LogRecord → List ℕ
text_of r = r.target ++ 32 ∷ r.args

-- Why a text of a record goes to no callback.
pub data Unheard (text : List ℕ) (l : Local) : Type 0 where
  thread_ended : l.destroyed ≡ true → Unheard text l
  stack_in_use : l.borrowed ≡ true → Unheard text l
  no_entry : l.stack ≡ [] → Unheard text l
  no_callback :
      (u : Userdata) (rest : List Userdata)
      → l.stack ≡ u ∷ rest
      → u.log_callback ≡ none
      → Unheard text l
  has_nul : contains text 0 ≡ true → Unheard text l

-- The entry on top of a stack that can be read, and its callback.
pub record Top (l : Local) (u : Userdata) (cb : FnPtr) : Type 0 where
  pub available : IsAvailable l
  pub below : List Userdata
  pub on_top : l.stack ≡ u ∷ below
  pub callback : u.log_callback ≡ some cb

-- The getter's answers that name no callback.
pub data Silent : Result UserdataError (Option FnPtr × Ptr) → Type 0 where
  without : (u : Ptr) → Silent (ok (none, u))
  failed : (e : UserdataError) → Silent (err e)

level_number-LevelIs : {l : Level} {n : ℕ} → LevelIs l n → level_number l ≡ n
unfolding level_number
level_number-LevelIs error_is = refl
level_number-LevelIs warn_is = refl
level_number-LevelIs info_is = refl
level_number-LevelIs debug_is = refl
level_number-LevelIs trace_is = refl

-- What the getter of the callback answers, by the state of the stack.
got_cases :
    (text : List ℕ) (l : Local)
    → ((u : Userdata) × (cb : FnPtr) × Top l u cb
        × (log_callback_get l ≡ (ok (some cb, u.userdata), l)))
      ⊎ (Unheard text l
          × (g : Result UserdataError (Option FnPtr × Ptr)) × Silent g
          × (log_callback_get l ≡ (g, l)))
unfolding log_callback_get
got_cases text l = elim (Bool-cases l.destroyed) [
  | inl ended ↦ inr (thread_ended ended, _, failed UserdataError.access_error, ground arith)
  | inr alive ↦ elim (Bool-cases l.borrowed) [
    | inl used ↦ inr (stack_in_use used, _, failed UserdataError.already_borrowed, ground arith)
    | inr free ↦ at_stack l.stack refl alive free
  ]
]
  where
    at_stack :
        (s : List Userdata)
        → l.stack ≡ s
        → l.destroyed ≡ false
        → l.borrowed ≡ false
        → ((u : Userdata) × (cb : FnPtr) × Top l u cb
            × (log_callback_get l ≡ (ok (some cb, u.userdata), l)))
          ⊎ (Unheard text l
              × (g : Result UserdataError (Option FnPtr × Ptr)) × Silent g
              × (log_callback_get l ≡ (g, l)))
    at_stack [] e alive free =
        inr (no_entry e, _, failed UserdataError.empty_stack, rw (alive, free, e) (ground arith))
    at_stack (u ∷ rest) e alive free = elim (Option-cases u.log_callback) [
      | inl z ↦ inr (no_callback u rest e z, _, without u.userdata, ground arith)
      | inr (cb, is) ↦ inl (
        u,
        cb,
        record {
          available = record { alive = alive; free = free };
          below = rest;
          on_top = e;
          callback = is;
        },
        ground arith,
      )
    ]

module _ {O : Type 0} (host : LogHost (World O)) where
  -- What the callback gets for a record whose level has the number `n`.
  abbrev pub params : LogRecord → ℕ → World O → RustlsLogParams
  params r n w = record {
    level = n;
    message = record { chars = host.string_at w (text_of r); len = length (text_of r) };
  }

  -- The state in which the callback is called: the text stands in the memory.
  abbrev pub with_text : LogRecord → World O → World O
  with_text r w = record w { mem = copy (text_of r) (host.string_at w (text_of r)) w.mem }

  -- With a callback on top of the stack and a text without a NUL byte.
  pub log-called :
      (r : LogRecord) (n : ℕ) (cb : FnPtr) (u : Ptr) (w : World O)
      → LevelIs r.level n
      → log_callback_get w.local ≡ (ok (some cb, u), w.local)
      → contains (text_of r) 0 ≡ false
      → log host r w ≡ host.log_callback cb u (params r n w) (with_text r w)
  unfolding log str_try_from
  log-called r n cb u w is got clean =
      rw (got, log_got, log_to, clean)
        (ap (λ k. host.log_callback cb u (params r k w) (with_text r w)) (level_number-LevelIs is))

  log-nul :
      (r : LogRecord) (cb : FnPtr) (u : Ptr) (w : World O)
      → log_callback_get w.local ≡ (ok (some cb, u), w.local)
      → contains (text_of r) 0 ≡ true
      → log host r w ≡ done tt w
  unfolding log str_try_from
  log-nul r cb u w got nul = rw (got, log_got, log_to, nul) refl

  log-Silent :
      (r : LogRecord) {g : Result UserdataError (Option FnPtr × Ptr)} (w : World O)
      → Silent g
      → log_callback_get w.local ≡ (g, w.local)
      → log host r w ≡ done tt w
  unfolding log
  log-Silent r w (without u) got = rw (got, log_got) refl
  log-Silent r w (failed e) got = rw (got, log_got) refl

  -- A record whose level has the number `n` is logged. Either the thread's stack can be read, the
  -- entry on top of it has a callback, and the target, a space and the arguments make a text without
  -- a NUL byte: then the callback is called, with that entry's userdata, the number `n`, and a
  -- message through which it reads this text. Or the thread has ended, its stack is in use or empty,
  -- the entry on top has no callback, or the text has a NUL byte: then nothing happens.
  pub log_lem :
      (r : LogRecord) (n : ℕ) (w : World O)
      → LevelIs r.level n
      → let message = (params r n w).message in
        ((u : Userdata) × (cb : FnPtr) × Top w.local u cb
          × (contains (text_of r) 0 ≡ false)
          × (from_raw_parts message.chars message.len (with_text r w).mem ≡ text_of r)
          × (log host r w ≡ host.log_callback cb u.userdata (params r n w) (with_text r w)))
        ⊎ (Unheard (text_of r) w.local × (log host r w ≡ done tt w))
  log_lem r n w is = elim (got_cases (text_of r) w.local) [
    | inr (unheard, g, silent, got) ↦ inr (unheard, log-Silent r w silent got)
    | inl (u, cb, top, got) ↦ elim (Bool-cases (contains (text_of r) 0)) [
      | inl nul ↦ inr (has_nul nul, log-nul r cb u.userdata w got nul)
      | inr clean ↦ inl (
        u,
        cb,
        top,
        clean,
        from_raw_parts-copy (text_of r) (host.string_at w (text_of r)) w.mem,
        log-called r n cb u.userdata w is got clean,
      )
    ]
  ]
