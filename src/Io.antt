-- ===== src/Io.antt =====
-- io.rs: the adapters that make Rust readers and writers of C callbacks. What a callback does is
-- the parameter `IoCallbacks`: it gets the pointers and the number of bytes, may change the state,
-- and gives its result with the value it leaves in `*out_n`, a local variable of the adapter.
use rustls_ffi.Prelude.{
  ℕ, Option, none, some, List, [], ◌∷◌, Result, ok, err, ◌==◌, if◌then◌else◌, length,
}
use rustls_ffi.Panic.{Cmd, pure, ◌>>=◌, IoResult}
use rustls_ffi.Memory.{Ptr}
use rustls_ffi.Slice.{Slice}
use rustls_ffi.Userdata.{FnPtr}

-- The kinds of `std::io::Error` that the library tells apart.
pub data ErrorKind : Type 0 where
  unexpected_eof would_block other : ErrorKind

-- `std::io::Error`: made from an OS error number, which has a kind, or of a kind only.
pub data IoError : Type 0 where
  os : ℕ → ErrorKind → IoError
  simple : ErrorKind → IoError

abbrev pub raw_os_error : IoError → Option ℕ
raw_os_error (os e k) = some e
raw_os_error (simple k) = none

abbrev pub kind : IoError → ErrorKind
kind (os e k) = k
kind (simple k) = k

-- `std::io::Result<T>`
abbrev pub Io : Type 0 → Type 0
Io A = Result IoError A

-- `std::io::Read`: the buffer's address and size.
abbrev pub Reader : Type 0 → Type 0
Reader W = (buf : Ptr) (n : ℕ) → Cmd W (Io ℕ)

-- `std::io::Write`. Without a `write_vectored` of its own a writer has the trait's default.
pub record Writer (W : Type 0) : Type 0 where
  pub write : Slice → Cmd W (Io ℕ)
  pub flush : Cmd W (Io (Unit {0}))
  pub write_vectored : Option (List Slice → Cmd W (Io ℕ))

pub record IoCallbacks (W : Type 0) : Type 0 where
  pub read_callback :
      FnPtr → (userdata : Ptr) (buf : Ptr) (n : ℕ) (out_n : ℕ) → Cmd W (IoResult × ℕ)
  pub write_callback :
      FnPtr → (userdata : Ptr) (buf : Ptr) (n : ℕ) (out_n : ℕ) → Cmd W (IoResult × ℕ)
  pub write_vectored_callback :
      FnPtr → (userdata : Ptr) (iov : List Slice) (count : ℕ) (out_n : ℕ) → Cmd W (IoResult × ℕ)
  -- the kind that `std` gives an OS error
  pub os_kind : ℕ → ErrorKind

pub record Callback : Type 0 where
  pub callback : FnPtr
  pub userdata : Ptr

module _ {W : Type 0} (host : IoCallbacks W) where
  open host use {read_callback, write_callback, write_vectored_callback, os_kind}

  -- `match result.0 { 0 => Ok(out_n), e => Err(Error::from_raw_os_error(e)) }`
  abbrev pub outcome : IoResult × ℕ → Cmd W (Io ℕ)
  outcome (result, out_n) =
      if result.errno == 0
      then pure (ok out_n)
      else pure (err (os result.errno (os_kind result.errno)))

  -- `Read for CallbackReader`
  unfoldable pub callback_read : Callback → Reader W
  callback_read self buf n = read_callback self.callback self.userdata buf n 0 >>= outcome

  -- `Write for CallbackWriter`
  unfoldable pub callback_write : Callback → Slice → Cmd W (Io ℕ)
  callback_write self buf =
      write_callback self.callback self.userdata buf.ptr (length buf.elems) 0 >>= outcome

  unfoldable pub callback_writer : Callback → Writer W
  unfolding callback_write
  callback_writer self = record {
    write = callback_write self;
    flush = pure (ok tt);
    write_vectored = none;
  }

  -- `Write for VectoredCallbackWriter`
  unfoldable pub callback_write_vectored : Callback → List Slice → Cmd W (Io ℕ)
  callback_write_vectored self bufs =
      write_vectored_callback self.callback self.userdata bufs (length bufs) 0 >>= outcome

  unfoldable pub vectored_callback_writer : Callback → Writer W
  unfolding callback_write_vectored
  vectored_callback_writer self = record {
    write = λ buf. callback_write_vectored self (buf ∷ []);
    flush = pure (ok tt);
    write_vectored = some (callback_write_vectored self);
  }
