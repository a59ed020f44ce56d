-- ===== src/Daemon/ClientExamples.antt =====
-- Runs of the client of crates/daemon/os-daemon-shim/src/execve.rs at a daemon with one backend.
use os_emulation.Base.{
  ◌≡◌, ◌≢◌, refl, ap, ok, [], Option, some, none, true, false, Bytes, Text, ascii, length,
  replicate, subst, text_eq, arith, is_utf8, join, if◌then◌else◌,
}
use os_emulation.Base.Words.{u32_to_le}
use os_emulation.Protocol.Fields.{encode_string}
use os_emulation.Transform.{TransformBackend, exec}
use os_emulation.Protocol.Message.{ready, obtain, request_body, response_body}
use os_emulation.Protocol.RoundTrip.{IsWireRequest}
use os_emulation.Protocol.ResponseRoundTrip.{IsWireResponse}
use os_emulation.Daemon.{Daemon, new, register, handle_obtain, obtained, dispatch, handle_client}
use os_emulation.Daemon.Registry.{get, insert}
use os_emulation.Daemon.Client.{
  default_handler, default_socket_env, rtd_socket_path, Net, c_string, os_shim_execve,
  client_request, wire_write_str, wire_write_u32,
}
use os_emulation.Daemon.ClientLaws.{Reaches, executed, os_shim_execve-executed}
use os_emulation.Daemon.SocketPath.{
  socket_env_var, default_listen_path, Directory, rtd_socket_path-default_listen_path,
}

-- The backend puts its results elsewhere.
abbrev integrated : TransformBackend Text
integrated = record {
  id = λ b. b;
  analyze = λ b path. ok (record { suitable = true; reasons = [] });
  obtain = λ b path. (ok (exec (ascii "/cache/ls")), b);
}

abbrev a_daemon : Daemon Text
a_daemon = register integrated new (ascii "integrated")

abbrev reply_of : Option (Bytes × Daemon Text) → Bytes
reply_of none = []
reply_of (some (reply, d)) = reply

abbrev local_net : Net
local_net = record {
  connects = λ path. true;
  writes = λ w. some (length w);
  answer = λ w. reply_of (handle_client integrated a_daemon w);
  reads = λ n pending. some n;
}

abbrev no_env : Text → Option Bytes
no_env name = none

local_net-Reaches :
    Reaches integrated a_daemon local_net (rtd_socket_path no_env default_socket_env)
local_net-Reaches = record {
  short = unfold rtd_socket_path in omega arith;
  connected = refl;
  written = λ w. refl;
  delivered = λ n pending h. refl;
  answered = λ w reply d' e. ap reply_of e;
}

a_request-IsWireRequest : IsWireRequest (obtain (ascii "/bin/ls") (ascii "integrated"))
unfolding encode_string u32_to_le
a_request-IsWireRequest = (unfold is_utf8 in (refl, refl), unfold request_body in omega arith)

a_response-IsWireResponse : IsWireResponse (ready (ascii "/cache/ls") false (ascii "integrated"))
unfolding encode_string u32_to_le
a_response-IsWireResponse = (unfold is_utf8 in (refl, refl), unfold response_body in omega arith)

os_shim_execve-executed_example :
    os_shim_execve local_net default_handler no_env (ascii "/bin/ls")
    ≡ executed (ready (ascii "/cache/ls") false (ascii "integrated")) (ascii "/bin/ls")
os_shim_execve-executed_example =
    os_shim_execve-executed integrated a_daemon a_daemon local_net default_handler no_env
      (ascii "/bin/ls") (ready (ascii "/cache/ls") false (ascii "integrated")) local_net-Reaches
      (omega arith) a_request-IsWireRequest a_response-IsWireResponse
      (unfold dispatch handle_obtain register get insert obtained text_eq new in refl)

cached_path :
    executed (ready (ascii "/cache/ls") false (ascii "integrated")) (ascii "/bin/ls")
    ≡ ascii "/cache/ls"
unfolding c_string
cached_path = refl

-- A path too long for the payload's buffer is not sent.
too_long : client_request (replicate 495 47) (ascii "integrated") ≡ none
unfolding client_request wire_write_str wire_write_u32 u32_to_le
too_long = refl

abbrev home_only : Text → Option Bytes
home_only name = if text_eq name (ascii "HOME") then some (ascii "/root") else none

root-Directory : Directory (ascii "/root")
root-Directory = record {
  plain = record { filled = λ e. cc; valid = unfold is_utf8 in refl };
  open_ended = refl;
  short = omega arith;
}

none-some : {v : Bytes} → ◌≢◌ {A = Option Bytes} none (some v)
none-some h = cc

same_value : {v w : Bytes} → ◌≡◌ {A = Option Bytes} (some v) (some w) → v ≡ w
same_value h = cc

rtd_socket_path-default_listen_path_example :
    rtd_socket_path home_only default_socket_env ≡ default_listen_path home_only
unfolding text_eq
rtd_socket_path-default_listen_path_example =
    rtd_socket_path-default_listen_path home_only default_socket_env refl
      (λ v e. absurd (none-some e)) (λ v e. absurd (none-some e))
      (λ v e. subst Directory (same_value e) root-Directory)

-- Where the runtime directory is set to an empty text, the two sides differ.
abbrev empty_runtime : Text → Option Bytes
empty_runtime name = if text_eq name (ascii "XDG_RUNTIME_DIR") then some [] else none

client_side : rtd_socket_path empty_runtime default_socket_env ≡ ascii "/tmp/soel-daemon.sock"
unfolding rtd_socket_path text_eq
client_side = refl

daemon_side : default_listen_path empty_runtime ≡ ascii "soel-daemon.sock"
unfolding default_listen_path text_eq is_utf8 join
daemon_side = refl

-- The daemon is told by a variable that the client does not read.
abbrev told : Text → Option Bytes
told name = if text_eq name socket_env_var then some (ascii "/run/d.sock") else none

told_client : rtd_socket_path told default_socket_env ≡ ascii "/tmp/soel-daemon.sock"
unfolding rtd_socket_path text_eq
told_client = refl

told_daemon : default_listen_path told ≡ ascii "/run/d.sock"
unfolding default_listen_path text_eq is_utf8
told_daemon = refl
