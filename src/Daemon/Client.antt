-- ===== src/Daemon/Client.antt =====
-- The client of the daemon: the C text that `emit_os_shim_execve` of
-- crates/daemon/os-daemon-shim/src/execve.rs emits. A C string is its bytes without the zero at its end.
use os_emulation.Base.{
  ℕ, ◌+◌, ◌%◌, Bool, true, false, ◌&&◌, Option, none, some, [], ◌∷◌, ◌++◌, Text, Bytes, ascii,
  length, take, drop, get_or, ltb, leb, ◌==◌, if◌then◌else◌,
}
use os_emulation.Base.Words.{u32_mod, u32_to_le, u32_from_le}

abbrev pub default_backend_id : Text
default_backend_id = ascii "integrated"

abbrev pub default_socket_env : Text
default_socket_env = ascii "SPEET_RTD_SOCK"

pub record DaemonExecveHandler : Type 0 where
  pub backend_id : Text
  pub socket_env_var : Text

abbrev pub default_handler : DaemonExecveHandler
default_handler = record { backend_id = default_backend_id; socket_env_var = default_socket_env }

-- `env && env[0]`
abbrev pub non_empty : Option Bytes → Option Bytes
non_empty none = none
non_empty (some []) = none
non_empty (some (b ∷ bs)) = some (b ∷ bs)

-- `snprintf` into 512 bytes
abbrev pub printed : Bytes → Bytes
printed text = take 511 text

-- `if (set) return path(value);`, and what follows
abbrev pub if_set : Option Bytes → (path : Bytes → Bytes) → (otherwise : Bytes) → Bytes
if_set none path otherwise = otherwise
if_set (some value) path otherwise = path value

unfoldable pub rtd_socket_path : (getenv : Text → Option Bytes) → (socket_env_var : Text) → Bytes
rtd_socket_path getenv socket_env_var =
    if_set (non_empty (getenv socket_env_var)) (λ env. env)
      (if_set (non_empty (getenv (ascii "XDG_RUNTIME_DIR")))
        (λ xdg. printed (xdg ++ ascii "/soel-daemon.sock"))
        (if_set (non_empty (getenv (ascii "HOME")))
          (λ home. printed (home ++ ascii "/.cache/soel/daemon.sock"))
          (ascii "/tmp/soel-daemon.sock")))

infixl 5 ◌>>=◌
abbrev pub ◌>>=◌ : {A B : Type 0} → Option A → (A → Option B) → Option B
none >>= next = none
some a >>= next = next a

infixl 5 ◌>>◌
abbrev pub ◌>>◌ : {B : Type 0} → Option (Unit {0}) → Option B → Option B
first >> second = first >>= λ done. second

-- `if (!holds) return -1;`
abbrev pub demand : Bool → Option (Unit {0})
demand true = some tt
demand false = none

-- A buffer of `cap` bytes is what is written of it so far; `pos` is its length.
unfoldable pub wire_write_u32 : (cap : ℕ) → (out : Bytes) → (v : ℕ) → Option Bytes
wire_write_u32 cap out v = do demand (leb (length out + 4) cap); some (out ++ u32_to_le v)

unfoldable pub wire_write_str : (cap : ℕ) → (out : Bytes) → (s : Text) → Option Bytes
unfolding wire_write_u32
wire_write_str cap out s = do
  out' ← wire_write_u32 cap out (length s % u32_mod)
  demand (leb (length out' + length s) cap)
  some (out' ++ s)

-- What is read at `pos` of the first `len` bytes of a buffer, and the position behind it.
unfoldable pub wire_read_u32 : (input : Bytes) → (len pos : ℕ) → Option (ℕ × ℕ)
wire_read_u32 input len pos = do
  demand (leb (pos + 4) len)
  some (
    u32_from_le (get_or input pos 0) (get_or input (pos + 1) 0) (get_or input (pos + 2) 0)
        (get_or input (pos + 3) 0),
    pos + 4,
  )

unfoldable pub wire_read_str : (input : Bytes) → (len pos out_cap : ℕ) → Option Bytes
unfolding wire_read_u32
wire_read_str input len pos out_cap = do
  (slen, pos') ← wire_read_u32 input len pos
  demand (leb (pos' + slen) len && leb ((slen + 1) % u32_mod) out_cap)
  some (take slen (drop pos' input))

-- The sockets, which the client reads and writes once: whether `socket` and `connect` succeed on a
-- path, what `write` and `read` return (`none` is an error), and what the peer answers.
pub record Net : Type 0 where
  pub connects : (path : Bytes) → Bool
  pub writes : Bytes → Option ℕ
  pub answer : Bytes → Bytes
  pub reads : (wanted : ℕ) → (pending : Bytes) → Option ℕ

-- `sizeof(addr.sun_path)`, as Linux has it
abbrev pub sun_path_size : ℕ
sun_path_size = 108

-- `write(fd, req, pos) != (ssize_t)pos`
abbrev pub is_count : Option ℕ → ℕ → Bool
is_count none n = false
is_count (some k) n = k == n

-- The request: two bytes, the length and the payload.
unfoldable pub framed : (payload : Bytes) → Option Bytes
unfolding wire_write_u32
framed payload = do
  header ← wire_write_u32 1024 (2 ∷ 2 ∷ []) (length payload % u32_mod)
  demand (leb (length header + length payload) 1024)
  some (header ++ payload)

unfoldable pub client_request : (guest_path backend_id : Text) → Option Bytes
unfolding wire_write_str framed
client_request guest_path backend_id = do
  path ← wire_write_str 512 [] guest_path
  payload ← wire_write_str 512 path backend_id
  framed payload

-- A C string ends at its first zero.
unfoldable pub c_string : Bytes → Bytes
c_string [] = []
c_string (b ∷ bs) = if b == 0 then [] else b ∷ c_string bs

abbrev pub consulted : Text → Option Bytes → Bytes
consulted path none = path
consulted path (some cached) = c_string cached

module _ (net : Net) where
  -- `read(fd, buf, n) != (ssize_t)n`; what is read, and what is still to come
  unfoldable pub read_all : (n : ℕ) → (pending : Bytes) → Option (Bytes × Bytes)
  read_all n pending = do
    demand (is_count (net.reads n pending) n)
    some (take n pending, drop n pending)

  -- The answer: the header, then the body.
  unfoldable pub take_body : (plen : ℕ) → (pending : Bytes) → (out_len : ℕ) → Option Bytes
  unfolding read_all wire_read_str
  take_body plen pending out_len = do
    demand (leb plen 2048)
    (body, left) ← read_all plen pending
    wire_read_str body plen 0 out_len

  unfoldable pub take_framed : (hdr pending : Bytes) → (out_len : ℕ) → Option Bytes
  unfolding wire_read_u32 take_body
  take_framed hdr pending out_len = do
    (plen, p) ← wire_read_u32 hdr 6 2
    demand (get_or hdr 0 0 == 2 && get_or hdr 1 0 == 3)
    take_body plen pending out_len

  unfoldable pub receive : (pending : Bytes) → (out_len : ℕ) → Option Bytes
  unfolding read_all take_framed
  receive pending out_len = do (hdr, rest) ← read_all 6 pending; take_framed hdr rest out_len

  unfoldable pub rtd_obtain_path :
      (handler : DaemonExecveHandler)
      → (getenv : Text → Option Bytes) → (guest_path : Text) → (out_len : ℕ) → Option Bytes
  unfolding rtd_socket_path client_request receive
  rtd_obtain_path handler getenv guest_path out_len = do
    let sock = rtd_socket_path getenv handler.socket_env_var
    demand (ltb (length sock) sun_path_size)
    demand (net.connects sock)
    req ← client_request guest_path handler.backend_id
    demand (is_count (net.writes req) (length req))
    receive (net.answer req) out_len

  -- The path that `os_shim_execve` calls `execve` with.
  unfoldable pub os_shim_execve :
      DaemonExecveHandler → (getenv : Text → Option Bytes) → (path : Text) → Bytes
  unfolding rtd_obtain_path c_string
  os_shim_execve handler getenv path = consulted path (rtd_obtain_path handler getenv path 1024)
