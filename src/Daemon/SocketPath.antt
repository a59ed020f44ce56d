-- ===== src/Daemon/SocketPath.antt =====
-- Where the daemon listens, `default_listen_path` of crates/daemon/os-daemon/src/lib.rs, and where the
-- client of crates/daemon/os-daemon-shim/src/execve.rs looks for it.
use os_emulation.Base.{
  ℕ, zero, suc, ◌≤◌, ◌≡◌, ◌≢◌, refl, sym, ap, ◌∙◌, Bool, true, false, ◌==◌, Option, none, some, [],
  ◌∷◌, ◌++◌, length, take, length-append, Text, Bytes, ascii, is_utf8, join, if◌then◌else◌, arith,
}
use os_emulation.Daemon.Client.{non_empty, if_set, rtd_socket_path}

abbrev pub socket_env_var : Text
socket_env_var = ascii "SOEL_DAEMON_SOCK"

-- `std::env::var(name).ok()`
abbrev pub var : (value : Option Bytes) → Option Text
var none = none
var (some v) = if is_utf8 v then some v else none

unfoldable pub default_listen_path : (getenv : Text → Option Bytes) → Bytes
unfolding join
default_listen_path getenv =
    if_set (var (getenv socket_env_var)) (λ p. p)
      (if_set (var (getenv (ascii "XDG_RUNTIME_DIR"))) (λ dir. join dir (ascii "soel-daemon.sock"))
        (if_set (var (getenv (ascii "HOME"))) (λ home. join home (ascii ".cache/soel/daemon.sock"))
          (ascii "/tmp/soel-daemon.sock")))

abbrev ends_in_slash : Bytes → Bool
ends_in_slash [] = false
ends_in_slash (b ∷ []) = b == 47
ends_in_slash (b ∷ c ∷ bs) = ends_in_slash (c ∷ bs)

-- A value of the environment that both sides take as it is, and one that names a directory.
pub record Plain (v : Bytes) : Type 0 where
  pub filled : v ≢ []
  pub valid : is_utf8 v ≡ true

pub record Directory (v : Bytes) : Type 0 where
  pub plain : Plain v
  pub open_ended : ends_in_slash v ≡ false
  pub short : length v ≤ 487

join-append : (v name : Bytes) → v ≢ [] → ends_in_slash v ≡ false → join v name ≡ v ++ (47 ∷ name)
unfolding join
join-append [] name h k = absurd (h refl)
join-append (b ∷ []) name h k = rw k refl
join-append (b ∷ c ∷ bs) name h k =
    ap (λ (t : Bytes). b ∷ t) (join-append (c ∷ bs) name (λ e. cc) k)

take-short : (n : ℕ) (xs : Bytes) → length xs ≤ n → take n xs ≡ xs
take-short zero [] h = refl
take-short zero (x ∷ xs) h = absurd (omega arith)
take-short (suc n) [] h = refl
take-short (suc n) (x ∷ xs) h = ap (λ (t : Bytes). x ∷ t) (take-short n xs (omega arith))

-- The texts that the two sides make of a directory.
same_text :
    (dir name : Bytes)
    → Directory dir
    → length name ≤ 23
    → take 511 (dir ++ (47 ∷ name)) ≡ join dir name
same_text dir name h k =
    take-short 511 (dir ++ (47 ∷ name)) (omega (arith, length-append dir (47 ∷ name), h.short))
    ∙ sym (join-append dir name h.plain.filled h.open_ended)

-- Both sides read a variable that is plain alike, and pass on to the next alike.
both_read :
    (value : Option Bytes) (f g : Bytes → Bytes) {rest rest' : Bytes}
    → ((v : Bytes) → value ≡ some v → Plain v)
    → ((v : Bytes) → value ≡ some v → f v ≡ g v)
    → rest ≡ rest'
    → if_set (non_empty value) f rest ≡ if_set (var value) g rest'
both_read none f g h k e = e
both_read (some []) f g h k e = absurd ((h [] refl).filled refl)
both_read (some (b ∷ bs)) f g h k e = rw (h (b ∷ bs) refl).valid (k (b ∷ bs) refl)

-- The client connects to the path on which the daemon listens, where both look at variables of the same
-- value, none of the three values is empty or breaks UTF-8, and the directories have at most 487 bytes
-- and do not end in a slash.
pub rtd_socket_path-default_listen_path :
    (getenv : Text → Option Bytes) (client_var : Text)
    → getenv client_var ≡ getenv socket_env_var
    → ((v : Bytes) → getenv socket_env_var ≡ some v → Plain v)
    → ((v : Bytes) → getenv (ascii "XDG_RUNTIME_DIR") ≡ some v → Directory v)
    → ((v : Bytes) → getenv (ascii "HOME") ≡ some v → Directory v)
    → rtd_socket_path getenv client_var ≡ default_listen_path getenv
unfolding rtd_socket_path default_listen_path
rtd_socket_path-default_listen_path getenv client_var same own xdg home = rw same (
    both_read (getenv socket_env_var) _ _ own (λ v e. refl)
      (both_read (getenv (ascii "XDG_RUNTIME_DIR")) _ _ (λ v e. (xdg v e).plain)
        (λ v e. same_text v (ascii "soel-daemon.sock") (xdg v e) (omega arith))
        (both_read (getenv (ascii "HOME")) _ _ (λ v e. (home v e).plain)
          (λ v e. same_text v (ascii ".cache/soel/daemon.sock") (home v e) (omega arith)) refl)))
