-- ===== src/ServerProcess/Port.antt =====
-- The port of a server process: CheckIfServerIsUp, GetRandomPort and SetupListenPort of
-- AspNetCoreModuleV2/RequestHandler/outofprocess/serverprocess.cxx.
use iisintegration.Prelude.{
  ℕ, zero, suc, ◌+◌, ◌-◌, ◌*◌, ◌/◌, ◌%◌, ◌^◌, Bool, true, false, not, ◌&&◌, ◌||◌, List, [], ◌∷◌,
  Option, none, some, ltb, leb, ◌==◌, if◌then◌else◌, codes,
}
use iisintegration.FxVer.Parse.{is_digit, print_int}
use iisintegration.ServerProcess.{Text, Server}
use iisintegration.ServerProcess.Codes.{
  Code, success, failure, invalid_argument, out_of_memory, port_not_set, last_error, failed_code,
}
use iisintegration.ServerProcess.Environment.{
  Table, EntryAnswers, find_entry, delete_entry, put_entry_for,
}

abbrev pub min_port : ℕ
min_port = 1025

abbrev pub max_port : ℕ
max_port = 48000

abbrev pub max_retry : ℕ
max_retry = 10

-- A listener in the table of GetExtendedTcpTable; the port is in network byte order.
pub record Row : Type 0 where
  pub local_port : ℕ
  pub owning_pid : ℕ

-- What the loop over GetExtendedTcpTable meets, in order. It ends, so that Windows says a finite
-- number of times that the buffer is too small.
pub data TcpAnswer : Type 0 where
  buffer_too_small : TcpAnswer → TcpAnswer
  no_buffer : TcpAnswer
  tcp_error : ℕ → TcpAnswer
  tcp_rows : List Row → TcpAnswer

pub data ConnectAnswer : Type 0 where
  connected refused : ConnectAnswer
  connect_error : ℕ → ConnectAnswer

-- What the socket calls return: `none` for success, or the error.
pub record SocketAnswer : Type 0 where
  pub open_socket : Option ℕ
  pub address : Option ℕ
  pub connection : ConnectAnswer
  pub close_socket : Option ℕ

-- `g_fNsiApiNotSupported` tells which calls are made.
pub data Probe : Type 0 where
  by_table : TcpAnswer → Probe
  by_socket : SocketAnswer → Probe

pub record Check : Type 0 where
  pub code : Code
  pub pid : ℕ
  pub up : Bool

-- `ntohs((USHORT)p)`
abbrev pub ntohs : ℕ → ℕ
ntohs p = p % 256 * 256 + p / 256 % 256

abbrev pub find_owner : ℕ → List Row → Option ℕ
find_owner port [] = none
find_owner port (r ∷ rs) =
    if ntohs r.local_port == port then some r.owning_pid else find_owner port rs

abbrev pub read_table : ℕ → TcpAnswer → Check
read_table port (buffer_too_small rest) = read_table port rest
read_table port no_buffer = record { code = failure out_of_memory; pid = 0; up = false }
read_table port (tcp_error e) = record { code = failure (last_error e); pid = 0; up = false }
read_table port (tcp_rows rs) = elim (find_owner port rs) [
  | none ↦ record { code = success; pid = 0; up = false }
  | some p ↦ record { code = success; pid = p; up = true }
]

abbrev pub close_check : Option ℕ → Check → Check
close_check none c = c
close_check (some e) c = record c { code = failure (last_error e) }

abbrev pub connect_check : ConnectAnswer → Check
connect_check connected = record { code = success; pid = 0; up = true }
connect_check refused = record { code = success; pid = 0; up = false }
connect_check (connect_error e) = record { code = failure (last_error e); pid = 0; up = false }

abbrev pub ping : SocketAnswer → Check
ping a = elim a.open_socket [
  | some e ↦ record { code = failure (last_error e); pid = 0; up = false }
  | none ↦ close_check a.close_socket (elim a.address [
    | some e ↦ record { code = failure (last_error e); pid = 0; up = false }
    | none ↦ connect_check a.connection
  ])
]

unfoldable pub check_if_server_is_up : Probe → ℕ → Check
check_if_server_is_up (by_table t) port = read_table port t
check_if_server_is_up (by_socket a) port = ping a

-- The inner loop: the first random port from the draw `k` on that is not excluded, and the number of
-- the next draw. `none` means that the fuel ran out.
unfoldable pub draw_port : ℕ → (ℕ → ℕ) → ℕ → ℕ → Option (ℕ × ℕ)
draw_port zero rand excluded k = none
draw_port (suc f) rand excluded k =
    let port = rand k % (max_port - min_port) + min_port + 1 in
    let rest = draw_port f rand excluded (k + 1) in
    if port == excluded then rest else some (port, k + 1)

-- The outer loop with `left` retries left; the check number `j` of a port answers `probe j`.
unfoldable pub search_port : ℕ → ℕ → (ℕ → ℕ) → (ℕ → Probe) → ℕ → ℕ → ℕ → Option (Code × ℕ)
unfolding draw_port check_if_server_is_up
search_port zero fuel rand probe excluded k j = none
search_port (suc left) fuel rand probe excluded k j = elim (draw_port fuel rand excluded k) [
  | none ↦ none
  | some (port, k') ↦
      let check = check_if_server_is_up (probe j) port in
      let next = search_port left fuel rand probe excluded k' (j + 1) in
      if not check.up
      then some (check.code, port)
      else if left == 0
      then some (failure port_not_set, port)
      else next
]

-- `GetRandomPort`, with the port that it picks. `nsi` says that the table can be read.
unfoldable pub get_random_port : ℕ → Bool → (ℕ → ℕ) → (ℕ → Probe) → ℕ → Option (Code × ℕ)
unfolding draw_port search_port
get_random_port fuel nsi rand probe excluded =
    if nsi
    then search_port max_retry fuel rand probe excluded 0 0
    else elim (draw_port fuel rand excluded 0) [
      | none ↦ none
      | some (port, k) ↦ some (success, port)
    ]

-- `_wtoi` of the C library: blanks, a sign and digits; it stops at INT_MAX and INT_MIN.
abbrev pub is_blank : ℕ → Bool
is_blank c = c == 32 || (leb 9 c && ltb c 14)

abbrev pub skip_blanks : Text → Text
skip_blanks [] = []
skip_blanks (c ∷ t) = let rest = skip_blanks t in if is_blank c then rest else c ∷ t

abbrev pub leading_value : ℕ → Text → ℕ
leading_value n [] = n
leading_value n (c ∷ t) = if is_digit c then leading_value (n * 10 + (c - 48)) t else n

abbrev pub at_most : ℕ → ℕ → ℕ
at_most m n = if ltb m n then m else n

-- The int by its 32 bits.
abbrev pub signed_value : Text → ℕ
signed_value [] = 0
signed_value (c ∷ t) =
    if c == 45
    then (2 ^ 32 - at_most (2 ^ 31) (leading_value 0 t)) % 2 ^ 32
    else at_most (2 ^ 31 - 1) (leading_value 0 (if c == 43 then t else c ∷ t))

abbrev pub wtoi : Text → ℕ
wtoi t = signed_value (skip_blanks t)

abbrev pub port_env : Text
port_env = codes "ASPNETCORE_PORT="

-- What the calls of SetupListenPort return: the copy of the value, the entry, and the copy of the
-- buffer.
pub record PortAnswers : Type 0 where
  pub fuel : ℕ
  pub nsi : Bool
  pub rand : ℕ → ℕ
  pub probe : ℕ → Probe
  pub copy_value : Code
  pub entry : EntryAnswers
  pub copy_buffer : Code

abbrev pub PortResult : Type 0
PortResult = (Code × Bool) × (Table × Server)

-- The copy into `m_struPort`, the last step.
abbrev pub keep_text : Code → Text → Table → Server → PortResult
keep_text copied v t s =
    ((copied, false), (t, (if failed_code copied then s else record s { port_text = v })))

-- A value that the user gives. Outside the range the error is critical.
abbrev pub use_configured_port : PortAnswers → Text → Table → Server → PortResult
use_configured_port a v t s =
    let s1 = record s { port = wtoi v } in
    if ltb max_port (wtoi v) || ltb (wtoi v) min_port
    then ((failure invalid_argument, true), (t, s1))
    else keep_text a.copy_value v t s1

-- The new entry for the port drawn.
abbrev pub put_port : PortAnswers → (ℕ → ℕ) → Code × ℕ → Table → Server → PortResult
put_port a lower (hr, port) t s =
    let s1 = record s { port = port } in
    let text = print_int port in
    let (put, t1) = put_entry_for lower a.entry (record { name = port_env; value = text }) t in
    if failed_code hr
    then ((hr, false), (t, s1))
    else if failed_code put
    then ((put, false), (t1, s1))
    else keep_text a.copy_buffer text t1 s1

-- The test of the value before its use: `QueryValue` is the text of a STRU, which is never NULL.
abbrev pub value_not_null : Text → Bool
value_not_null v = true

abbrev pub is_empty_text : Text → Bool
is_empty_text [] = true
is_empty_text (c ∷ t) = false

abbrev pub choose_port : PortAnswers → (ℕ → ℕ) → Table → Server → Option PortResult
choose_port a lower t s = elim (get_random_port a.fuel a.nsi a.rand a.probe 0) [
  | none ↦ none
  | some picked ↦ some (put_port a lower picked t s)
]

-- `SetupListenPort` with the critical-error flag; `none` where GetRandomPort runs out of fuel.
unfoldable pub setup_listen_port : PortAnswers → (ℕ → ℕ) → Table → Server → Option PortResult
unfolding get_random_port
setup_listen_port a lower t s = elim (find_entry lower port_env t) [
  | none ↦ choose_port a lower t s
  | some e ↦
      if value_not_null e.value || not (is_empty_text e.value)
      then some (use_configured_port a e.value t s)
      else choose_port a lower (delete_entry lower port_env t) s
]
