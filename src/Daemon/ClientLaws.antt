-- ===== src/Daemon/ClientLaws.antt =====
-- The C client of crates/daemon/os-daemon-shim/src/execve.rs at the daemon of
-- crates/daemon/os-daemon/src/lib.rs: which path is executed.
use os_emulation.Base.{
  ℕ, ◌+◌, ◌%◌, ◌≤◌, ◌<◌, ◌≡◌, refl, sym, ap, subst, ◌∙◌, Bool, true, false, ◌&&◌, Option, none,
  some, [], ◌∷◌, ◌++◌, Text, Bytes, length, take, drop, leb, ◌==◌, if◌then◌else◌, take-append,
  drop-append, append-nil, append_assoc, length-append, eq_refl, le→leb, lt→ltb, arith, Bool-cases,
  inl, inr,
}
use os_emulation.Base.Words.{u32_mod, u32_to_le, u32_from_le-to_le}
use os_emulation.Transform.{TransformBackend}
use os_emulation.Protocol.Frame.{encode_frame, write_frame}
use os_emulation.Protocol.Fields.{encode_string}
use os_emulation.Protocol.Message.{
  obtain, Response, pong, suitable, unsuitable, ready, error, backends, request_body, response_body,
  encode_request, encode_response, bool_byte,
}
use os_emulation.Protocol.RoundTrip.{IsWireRequest}
use os_emulation.Protocol.ResponseRoundTrip.{IsWireResponse}
use os_emulation.Daemon.{Daemon, dispatch, handle_client}
use os_emulation.Daemon.Serve.{client_answered}
use os_emulation.Daemon.Client.{
  DaemonExecveHandler, rtd_socket_path, wire_write_u32, wire_write_str, wire_read_u32,
  wire_read_str, Net, sun_path_size, read_all, take_body, take_framed, receive, is_count, consulted,
  framed, client_request, rtd_obtain_path, c_string, os_shim_execve, demand, ◌>>=◌, ◌>>◌,
}

goes_on :
    {A B : Type 0} (m : Option A) (next : A → Option B) {a : A} {r : Option B}
    → m ≡ some a
    → next a ≡ r
    → (m >>= next) ≡ r
goes_on m next h k = ap (λ (o : Option _). o >>= next) h ∙ k

goes_past :
    {B : Type 0} {m : Option Unit} {next r : Option B} → m ≡ some tt → next ≡ r → (m >> next) ≡ r
goes_past {next} h k = ap (λ (o : Option Unit). o >> next) h ∙ k

wire_write_u32_fits :
    (cap : ℕ) (out : Bytes) (v : ℕ)
    → length out + 4 ≤ cap
    → wire_write_u32 cap out v ≡ some (out ++ u32_to_le v)
unfolding wire_write_u32
wire_write_u32_fits cap out v h = rw (le→leb (length out + 4) cap h) refl

length_le : (out : Bytes) (v : ℕ) → length (out ++ u32_to_le v) ≡ length out + 4
unfolding u32_to_le
length_le out v = length-append out (u32_to_le v)

length-encode_string :
    (s : Text) (out : Bytes) → length (encode_string s out) ≡ length out + 4 + length s
unfolding encode_string
length-encode_string s out = omega (
  arith,
  length-append (out ++ u32_to_le (length s % u32_mod)) s,
  length_le out (length s % u32_mod),
)

wire_write_str-encode_string :
    (cap : ℕ) (out : Bytes) (s : Text)
    → length out + 4 + length s ≤ cap
    → wire_write_str cap out s ≡ some (encode_string s out)
unfolding wire_write_str encode_string
wire_write_str-encode_string cap out s h =
    let size = length_le out (length s % u32_mod) in
    rw (wire_write_u32_fits cap out (length s % u32_mod) (omega arith)) (
      rw
        (le→leb (length (out ++ u32_to_le (length s % u32_mod)) + length s) cap
          (omega (arith, size)))
        refl)

framed-encode_frame :
    (payload : Bytes) → length payload ≤ 512 → framed payload ≡ some (encode_frame 2 payload)
unfolding framed encode_frame wire_write_u32 u32_to_le
framed-encode_frame payload h = rw (le→leb (6 + length payload) 1024 (omega arith)) refl

-- Strings short enough for the client's buffer are sent as the daemon reads them.
pub client_request-encode_request :
    (path backend_id : Text)
    → 8 + length path + length backend_id ≤ 512
    → client_request path backend_id ≡ some (encode_request (obtain path backend_id))
unfolding client_request encode_request request_body
client_request-encode_request path backend_id h =
    let first = length-encode_string path [] in
    let second = length-encode_string backend_id (encode_string path []) in
    goes_on _ _ (wire_write_str-encode_string 512 [] path (omega arith)) (
      goes_on _ _
        (wire_write_str-encode_string 512 (encode_string path []) backend_id (omega arith))
        (framed-encode_frame (encode_string backend_id (encode_string path [])) (omega arith)))

counted : {o : Option ℕ} {n : ℕ} → o ≡ some n → is_count o n ≡ true
counted {n} e = ap (λ (o : Option ℕ). is_count o n) e ∙ eq_refl n

pair_of : {a b c d : Bytes} → a ≡ c → b ≡ d → ◌≡◌ {A = Bytes × Bytes} (a, b) (c, d)
pair_of p q = cc

-- A peer that delivers what is asked of it, once it is there.
abbrev pub Delivers : Net → Type 0
Delivers net = (n : ℕ) (pending : Bytes) → n ≤ length pending → net.reads n pending ≡ some n

-- What the client makes of a frame.
abbrev taken : (tag : ℕ) → (payload : Bytes) → (out_len : ℕ) → Option Bytes
taken tag payload out_len =
    if tag == 3
    then (demand (leb (length payload) 2048) >> wire_read_str payload (length payload) 0 out_len)
    else none

module _ (net : Net) (delivers : Delivers net) where
  read_all-append :
      (front rest : Bytes) → read_all net (length front) (front ++ rest) ≡ some (front, rest)
  unfolding read_all
  read_all-append front rest =
      goes_on _ _
        (ap demand (
          counted
            (delivers (length front) (front ++ rest) (omega (arith, length-append front rest)))))
        (ap some (pair_of (take-append front rest) (drop-append front rest)))

  body_taken :
      (payload : Bytes) (out_len : ℕ)
      → take_body net (length payload) payload out_len
        ≡ (demand (leb (length payload) 2048) >> wire_read_str payload (length payload) 0 out_len)
  unfolding take_body
  body_taken payload out_len = elim (Bool-cases (leb (length payload) 2048)) [
    | inr long ↦ rw long refl
    | inl short ↦ rw short (
        goes_on _ _
          (ap (read_all net (length payload)) (sym (append-nil payload))
            ∙ read_all-append payload [])
          refl)
  ]

  tag_taken :
      (tag : ℕ) (payload : Bytes) (out_len : ℕ)
      → (demand (tag == 3) >> take_body net (length payload) payload out_len)
        ≡ taken tag payload out_len
  tag_taken tag payload out_len = elim (Bool-cases (tag == 3)) [
    | inr other ↦ rw other refl
    | inl ready' ↦ rw ready' (body_taken payload out_len)
  ]

  framed_taken :
      (tag : ℕ) (payload : Bytes) (out_len : ℕ)
      → length payload < u32_mod
      → take_framed net (2 ∷ tag ∷ u32_to_le (length payload % u32_mod)) payload out_len
        ≡ taken tag payload out_len
  unfolding take_framed wire_read_u32 u32_to_le
  framed_taken tag payload out_len h =
      ap (λ (n : ℕ). demand (tag == 3) >> take_body net n payload out_len)
        (u32_from_le-to_le (length payload % u32_mod) (omega arith) ∙ omega arith)
      ∙ tag_taken tag payload out_len

  -- A frame is taken up to its body.
  receive-encode_frame :
      (tag : ℕ) (payload : Bytes) (out_len : ℕ)
      → length payload < u32_mod
      → receive net (encode_frame tag payload) out_len ≡ taken tag payload out_len
  unfolding receive encode_frame u32_to_le
  receive-encode_frame tag payload out_len h =
      goes_on _ _ (read_all-append (2 ∷ tag ∷ u32_to_le (length payload % u32_mod)) payload)
        (framed_taken tag payload out_len h)

-- The path in front of a body.
abbrev path_body : (s tail : Bytes) → Bytes
path_body s tail = u32_to_le (length s % u32_mod) ++ (s ++ tail)

length-path_body : (s tail : Bytes) → length (path_body s tail) ≡ 4 + length s + length tail
unfolding u32_to_le
length-path_body s tail = omega (arith, length-append s tail)

path_header :
    (s tail : Bytes)
    → length s + 1 < u32_mod
    → wire_read_u32 (path_body s tail) (length (path_body s tail)) 0 ≡ some (length s, 4)
unfolding wire_read_u32 u32_to_le
path_header s tail h =
    goes_on _ _
      (ap demand (le→leb 4 (length (path_body s tail)) (omega (arith, length-path_body s tail))))
      (ap (λ (n : ℕ). some (n, 4))
        (u32_from_le-to_le (length s % u32_mod) (omega arith) ∙ omega arith))

path_fits :
    (s tail : Bytes) (out_len : ℕ)
    → length s + 1 < u32_mod
    → (demand
          (leb (4 + length s) (length (path_body s tail)) && leb ((length s + 1) % u32_mod) out_len)
        >> some (take (length s) (drop 4 (path_body s tail))))
      ≡ (if leb (length s + 1) out_len then some s else none)
unfolding u32_to_le
path_fits s tail out_len h =
    let small : (length s + 1) % u32_mod ≡ length s + 1 = omega arith in
    rw small (
      rw
        (le→leb (4 + length s) (length (path_body s tail)) (omega (arith, length-path_body s tail)))
        (elim (Bool-cases (leb (length s + 1) out_len)) [
          | inl fits ↦ rw fits (ap some (take-append s tail))
          | inr long ↦ rw long refl
        ]))

string_taken :
    (s tail : Bytes) (out_len : ℕ)
    → length s + 1 < u32_mod
    → wire_read_str (path_body s tail) (length (path_body s tail)) 0 out_len
      ≡ (if leb (length s + 1) out_len then some s else none)
unfolding wire_read_str
string_taken s tail out_len h = goes_on _ _ (path_header s tail h) (path_fits s tail out_len h)

regroup : (a : Bytes) (x : ℕ) (b c : Bytes) → ((a ++ (x ∷ [])) ++ b) ++ c ≡ a ++ (x ∷ (b ++ c))
regroup a x b c = append_assoc (a ++ (x ∷ [])) b c ∙ append_assoc a (x ∷ []) (b ++ c)

ready_body :
    (exe_path backend : Text) (hit : Bool)
    → (response_body (ready exe_path hit backend)).1
      ≡ path_body exe_path (bool_byte hit ∷ (u32_to_le (length backend % u32_mod) ++ backend))
unfolding response_body encode_string u32_to_le
ready_body exe_path backend hit =
    ap (λ (t : Bytes). u32_to_le (length exe_path % u32_mod) ++ t)
      (regroup exe_path (bool_byte hit) (u32_to_le (length backend % u32_mod)) backend)

-- What the client executes after an answer.
abbrev pub executed : Response → (path : Text) → Text
executed (ready exe_path hit backend) path =
    if leb (9 + length exe_path + length backend) 2048 && leb (length exe_path + 1) 1024
    then c_string exe_path
    else path
executed other path = path

-- The choice between the path of the answer and the one asked for.
chosen :
    (n : ℕ) (body exe_path path : Bytes)
    → length body ≡ n
    → wire_read_str body (length body) 0 1024
      ≡ (if leb (length exe_path + 1) 1024 then some exe_path else none)
    → consulted path (taken 3 body 1024)
      ≡ (if leb n 2048 && leb (length exe_path + 1) 1024 then c_string exe_path else path)
chosen n body exe_path path size reads = rw reads (
    rw size (elim (Bool-cases (leb n 2048)) [
      | inr long ↦ rw long refl
      | inl short ↦ rw short (elim (Bool-cases (leb (length exe_path + 1) 1024)) [
        | inl fits ↦ rw fits refl
        | inr long ↦ rw long refl
      ])
    ]))

length_tail :
    (hit : Bool) (backend : Text)
    → length (bool_byte hit ∷ (u32_to_le (length backend % u32_mod) ++ backend))
      ≡ 5 + length backend
unfolding u32_to_le
length_tail hit backend = omega arith

ready_received :
    (net : Net) (exe_path backend path : Text) (hit : Bool)
    → Delivers net
    → IsWireResponse (ready exe_path hit backend)
    → consulted path (receive net (encode_response (ready exe_path hit backend)) 1024)
      ≡ executed (ready exe_path hit backend) path
unfolding encode_response response_body
ready_received net exe_path backend path hit delivers (texts, fits) =
    let tail = bool_byte hit ∷ (u32_to_le (length backend % u32_mod) ++ backend) in
    let body = path_body exe_path tail in
    let same = ready_body exe_path backend hit in
    let rest : length tail ≡ 5 + length backend = length_tail hit backend in
    let size : length body ≡ 9 + length exe_path + length backend =
      omega (arith, length-path_body exe_path tail, rest) in
    let word : length body < u32_mod = subst (λ (b : Bytes). length b < u32_mod) same fits in
    ap (λ (b : Bytes). consulted path (receive net (encode_frame 3 b) 1024)) same
    ∙ ap (consulted path) (receive-encode_frame net delivers 3 body 1024 word)
    ∙ chosen (9 + length exe_path + length backend) body exe_path path size
        (string_taken exe_path tail 1024 (omega arith))

-- Every answer but `ready` has another status.
other_received :
    (net : Net) (tag : ℕ) (payload : Bytes) (path : Text)
    → Delivers net
    → length payload < u32_mod
    → (tag == 3) ≡ false
    → consulted path (receive net (encode_frame tag payload) 1024) ≡ path
other_received net tag payload path delivers h other =
    rw (receive-encode_frame net delivers tag payload 1024 h) (rw other refl)

received :
    (net : Net) (r : Response) (path : Text)
    → Delivers net
    → IsWireResponse r
    → consulted path (receive net (encode_response r) 1024) ≡ executed r path
unfolding encode_response response_body
received net pong path delivers (t, h) = other_received net 0 _ path delivers h refl
received net (suitable b) path delivers (t, h) = other_received net 1 _ path delivers h refl
received net (unsuitable b rs) path delivers (t, h) = other_received net 2 _ path delivers h refl
received net (ready exe hit b) path delivers fits = ready_received net exe b path hit delivers fits
received net (error m) path delivers (t, h) = other_received net 4 _ path delivers h refl
received net (backends ids) path delivers (t, h) = other_received net 5 _ path delivers h refl

-- A client whose calls of the sockets succeed, at a daemon that answers it.
pub record Reaches {B : Type 0} (ops : TransformBackend B) (d : Daemon B) (net : Net) (sock : Bytes)
    : Type 0 where
  pub short : length sock < sun_path_size
  pub connected : net.connects sock ≡ true
  pub written : (w : Bytes) → net.writes w ≡ some (length w)
  pub delivered : Delivers net
  pub answered :
      (w reply : Bytes) (d' : Daemon B)
      → handle_client ops d w ≡ some (reply, d')
      → net.answer w ≡ reply

obtained_path :
    {B : Type 0} (ops : TransformBackend B) (d d' : Daemon B) (net : Net)
    (handler : DaemonExecveHandler) (getenv : Text → Option Bytes) (path : Text) (r : Response)
    → Reaches ops d net (rtd_socket_path getenv handler.socket_env_var)
    → 8 + length path + length handler.backend_id ≤ 512
    → IsWireRequest (obtain path handler.backend_id)
    → IsWireResponse r
    → dispatch ops d (obtain path handler.backend_id) ≡ some (r, d')
    → rtd_obtain_path net handler getenv path 1024 ≡ receive net (encode_response r) 1024
unfolding rtd_obtain_path write_frame
obtained_path ops d d' net handler getenv path r reaches small request response runs =
    let req = obtain path handler.backend_id in
    let sent = encode_request req in
    let serves : handle_client ops d sent ≡ some (encode_response r, d') =
      ap (handle_client ops d) (sym (append-nil sent))
      ∙ client_answered ops d d' req r [] request runs in
    goes_past (ap demand (lt→ltb _ sun_path_size reaches.short)) (
      goes_past (ap demand reaches.connected) (
        goes_on _ _ (client_request-encode_request path handler.backend_id small) (
          goes_past (ap demand (counted (reaches.written sent))) (
            ap (λ (a : Bytes). receive net a 1024)
              (reaches.answered sent (encode_response r) d' serves)))))

-- Where a client reaches the daemon, with a path and an id of a backend that fit its buffers, it
-- executes the path of a `ready` answer, up to a zero in it, if the answer fits its buffers, and after
-- every other answer the path that it was asked for.
pub os_shim_execve-executed :
    {B : Type 0} (ops : TransformBackend B) (d d' : Daemon B) (net : Net)
    (handler : DaemonExecveHandler) (getenv : Text → Option Bytes) (path : Text) (r : Response)
    → Reaches ops d net (rtd_socket_path getenv handler.socket_env_var)
    → 8 + length path + length handler.backend_id ≤ 512
    → IsWireRequest (obtain path handler.backend_id)
    → IsWireResponse r
    → dispatch ops d (obtain path handler.backend_id) ≡ some (r, d')
    → os_shim_execve net handler getenv path ≡ executed r path
unfolding os_shim_execve
os_shim_execve-executed ops d d' net handler getenv path r reaches small request response runs =
    ap (consulted path)
      (obtained_path ops d d' net handler getenv path r reaches small request response runs)
    ∙ received net r path reaches.delivered response
