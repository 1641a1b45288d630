-- ===== src/Net.antt =====
-- pal/net_win32.c: the sockets. What each Winsock call returns is a parameter; the answers of the
-- calls of a loop are the list of what they return in turn.
pub mod Sending
use instagram_on_nt.Prelude.{
  ℕ, zero, suc, ◌+◌, ◌-◌, ◌*◌, ◌^◌, ◌==◌, ◌&&◌, ◌||◌, not, Bool, true, false, List, [], ◌∷◌, ◌++◌,
  Option, none, some, if◌then◌else◌, take, drop, length, get_or,
}
use instagram_on_nt.Prelude.Int.{ℤ, pos, neg, pos_part, ltb_ℤ, leb_ℤ, eqb_ℤ, ◌+ℤ◌, sub_int}
use instagram_on_nt.Prelude.Result.{Result, ok, failed, out_of_fuel}

-- INADDR_NONE
abbrev pub inaddr_none : ℕ
inaddr_none = 2 ^ 32 - 1

-- What gethostbyname finds: whether it is an IPv4 host, and the bytes of its first address.
pub record HostEntry : Type 0 where
  pub af_inet : Bool
  pub first : Option (List ℕ)

pub data ConnectAnswer : Type 0 where
  connected would_block refused : ConnectAnswer

-- The answers of the calls that open a connection; `created` is none for INVALID_SOCKET, `selected`
-- is what select returns and whether the socket is then writable.
pub record Winsock : Type 0 where
  pub inet_addr : ℕ
  pub gethostbyname : Option HostEntry
  pub created : Option ℕ
  pub connect : ConnectAnswer
  pub selected : ℤ × Bool

abbrev pub address_word : List ℕ → ℕ
address_word b = get_or b 0 0 + get_or b 1 0 * 2 ^ 8 + get_or b 2 0 * 2 ^ 16 + get_or b 3 0 * 2 ^ 24

abbrev pub first_address : Bool → Option (List ℕ) → ℕ
first_address af_inet none = inaddr_none
first_address af_inet (some b) = if af_inet then address_word b else inaddr_none

abbrev pub entry_address : Option HostEntry → ℕ
entry_address none = inaddr_none
entry_address (some he) = first_address he.af_inet he.first

unfoldable pub resolve_host : Winsock → ℕ
resolve_host w = if w.inet_addr == inaddr_none then entry_address w.gethostbyname else w.inet_addr

-- Whether connect_with_timeout returns 0.
unfoldable pub connect_with_timeout : ConnectAnswer → ℤ × Bool → Bool
connect_with_timeout connected selected = true
connect_with_timeout refused selected = false
connect_with_timeout would_block (n, writable) =
    if leb_ℤ n (pos 0) || not writable then false else true

-- The socket that is returned, or none for -1, and the sockets that have been opened and closed.
pub record Connection : Type 0 where
  pub socket : Option ℕ
  pub opened : List ℕ
  pub closed : List ℕ

unfoldable pub connect_socket : Winsock → Option ℕ → Connection
unfolding connect_with_timeout
connect_socket w none = record { socket = none; opened = []; closed = [] }
connect_socket w (some s) =
    if connect_with_timeout w.connect w.selected
    then record { socket = some s; opened = s ∷ []; closed = [] }
    else record { socket = none; opened = s ∷ []; closed = s ∷ [] }

unfoldable pub pal_tcp_connect : Winsock → Connection
unfolding resolve_host connect_socket
pal_tcp_connect w =
    if resolve_host w == inaddr_none
    then record { socket = none; opened = []; closed = [] }
    else connect_socket w w.created

-- The bytes that have been handed over, and how the loop ended; `out_of_fuel` is that it waits for
-- another answer.
pub record Sent : Type 0 where
  pub wire : List ℕ
  pub outcome : Result (Unit {0})

abbrev pub after_bytes : List ℕ → Sent → Sent
after_bytes s r = record { wire = s ++ r.wire; outcome = r.outcome }

-- SOCKET_ERROR
abbrev pub socket_error : ℤ
socket_error = neg 1

-- The loop: `at` is how far `p` stands behind the start of `buf`, and the answers of send are `ns`;
-- `ok` is 0 and `failed` is -1. The bytes in front of the buffer are undefined, and no byte of them is
-- sent.
unfoldable pub send_loop : List ℤ → List ℕ → ℤ → ℤ → Sent
unfolding ◌+ℤ◌ sub_int
send_loop [] buf at left =
    if ltb_ℤ (pos 0) left
    then record { wire = []; outcome = out_of_fuel }
    else record { wire = []; outcome = ok tt }
send_loop (n ∷ ns) buf at left =
    let rest = send_loop ns buf (at +ℤ n) (sub_int left n) in
    let sent = after_bytes (take (pos_part n) (drop (pos_part at) buf)) rest in
    if not (ltb_ℤ (pos 0) left)
    then record { wire = []; outcome = ok tt }
    else if eqb_ℤ n socket_error || eqb_ℤ n (pos 0)
    then record { wire = []; outcome = failed }
    else sent

unfoldable pub pal_tcp_send_all : List ℤ → List ℕ → Sent
unfolding send_loop
pal_tcp_send_all ns buf = send_loop ns buf (pos 0) (pos (length buf))

-- What is returned, for what recv returns.
unfoldable pub pal_tcp_recv : ℤ → ℤ
pal_tcp_recv n = if eqb_ℤ n socket_error then neg 1 else n

-- pal_net_init, for what WSAStartup returns.
unfoldable pub pal_net_init : ℤ → ℤ
pal_net_init rc = if eqb_ℤ rc (pos 0) then pos 0 else neg 1
