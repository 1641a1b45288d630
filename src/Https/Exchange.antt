-- ===== src/Https/Exchange.antt =====
-- https_request of net/https_get.c over one connection. What each mbedTLS call returns is a parameter;
-- the answers of the calls of a loop are the list of what they return in turn. Allocations succeed.
use instagram_on_nt.Prelude.{
  ℕ, zero, suc, ◌+◌, ◌-◌, ◌*◌, ◌==◌, ◌||◌, ltb, List, [], ◌∷◌, ◌++◌, Option, none, some, leb,
  if◌then◌else◌, take, drop, length,
}
use instagram_on_nt.Prelude.Int.{ℤ, pos, neg, pos_part, ltb_ℤ, eqb_ℤ}
use instagram_on_nt.Prelude.Result.{Result, ok, failed, out_of_fuel, ◌>>=◌}
use instagram_on_nt.Http.{HttpHeader, HttpResponse, http_build_request}
use instagram_on_nt.Http.Response.{http_parse_response}
use instagram_on_nt.Net.{
  Winsock, Connection, Sent, after_bytes, pal_tcp_connect, pal_tcp_send_all, pal_tcp_recv,
}

-- What nt4_ssl_send returns for `len` bytes, when the sockets have sent them or failed to.
abbrev pub sent_code : ℕ → Result (Unit {0}) → Result ℤ
sent_code len (ok u) = ok (pos len)
sent_code len failed = ok (neg 0x4E)
sent_code len out_of_fuel = out_of_fuel

unfoldable pub nt4_ssl_send : List ℤ → List ℕ → Result ℤ
unfolding pal_tcp_send_all
nt4_ssl_send ns buf = sent_code (length buf) (pal_tcp_send_all ns buf).outcome

unfoldable pub nt4_ssl_recv : ℤ → ℤ
unfolding pal_tcp_recv
nt4_ssl_recv n = let n = pal_tcp_recv n in if ltb_ℤ n (pos 0) then neg 0x4C else n

-- MBEDTLS_ERR_SSL_WANT_READ and MBEDTLS_ERR_SSL_WANT_WRITE
abbrev pub want_read : ℤ
want_read = neg 0x6900

abbrev pub want_write : ℤ
want_write = neg 0x6880

-- What mbedtls_ssl_read returns: the bytes that it has stored, of which there are none where it
-- returns 0, or a negative code, such as MBEDTLS_ERR_SSL_PEER_CLOSE_NOTIFY.
pub data Read : Type 0 where
  got : List ℕ → Read
  stopped : ℤ → Read

-- The answers of mbedtls_ctr_drbg_seed, mbedtls_x509_crt_parse, mbedtls_ssl_config_defaults,
-- mbedtls_ssl_setup and mbedtls_ssl_set_hostname, and of the three loops.
pub record Tls : Type 0 where
  pub seed : ℤ
  pub crt_parse : ℤ
  pub config_defaults : ℤ
  pub setup : ℤ
  pub set_hostname : ℤ
  pub handshake : List ℤ
  pub writes : List ℤ
  pub reads : List Read

-- `if (rc != 0) goto cleanup`
abbrev pub check : ℤ → Result (Unit {0})
check rc = if eqb_ℤ rc (pos 0) then ok tt else failed

unfoldable pub handshake_loop : List ℤ → Result (Unit {0})
handshake_loop [] = out_of_fuel
handshake_loop (rc ∷ rcs) =
    let rest = handshake_loop rcs in
    if eqb_ℤ rc (pos 0)
    then ok tt
    else if eqb_ℤ rc want_read || eqb_ℤ rc want_write
    then rest
    else failed

-- `while (written < req_len)`, over the bytes that are left.
unfoldable pub write_loop : List ℤ → List ℕ → Sent
write_loop ns [] = record { wire = []; outcome = ok tt }
write_loop [] (c ∷ p) = record { wire = []; outcome = out_of_fuel }
write_loop (n ∷ ns) (c ∷ p) =
    let k = pos_part n in
    let rest = after_bytes (take k (c ∷ p)) (write_loop ns (drop k (c ∷ p))) in
    if ltb_ℤ n (pos 0) then record { wire = []; outcome = failed } else rest

abbrev pub recv_initial_cap : ℕ
recv_initial_cap = 64 * 1024

-- The capacity of the buffer for the next read, when `total` bytes are in it.
unfoldable pub grown : ℕ → ℕ → ℕ
grown room total = if leb room total then room * 2 else room

-- mbedtls_ssl_read keeps for the next call what it has no room for.
abbrev pub kept : ℕ → List ℕ → List Read → List Read
kept room s rs = if ltb room (length s) then got (drop room s) ∷ rs else rs

-- `buf` at the end of the loop, of which each round uses a unit of the fuel; the buffer has `cap`
-- bytes. The bytes of an answer are stored as far as there is room for them, and a call that stores
-- none returns 0.
unfoldable pub read_loop : ℕ → List Read → ℕ → List ℕ → Result (List ℕ)
unfolding grown
read_loop zero rs cap buf = out_of_fuel
read_loop (suc fuel) [] cap buf = out_of_fuel
read_loop (suc fuel) (stopped code ∷ rs) cap buf = ok buf
read_loop (suc fuel) (got s ∷ rs) cap buf =
    let cap' = grown cap (length buf) in
    let room = cap' - length buf in
    let rest = read_loop fuel (kept room s rs) cap' (buf ++ take room s) in
    if length (take room s) == 0 then ok buf else rest

-- A round for each byte and for each answer.
unfoldable pub read_rounds : List Read → ℕ
read_rounds [] = 1
read_rounds (stopped code ∷ rs) = 1 + read_rounds rs
read_rounds (got s ∷ rs) = length s + 1 + read_rounds rs

-- `if (buf && total > 0)`, with the status and the body of the response.
unfoldable pub response_of : List ℕ → Result (ℤ × List ℕ)
unfolding http_parse_response
response_of [] = failed
response_of (c ∷ buf) =
    http_parse_response (c ∷ buf) >>= λ (r : HttpResponse). ok (r.status, r.body)

-- What stands between the connection and `cleanup`: what has been written, and the result.
pub record Exchange : Type 0 where
  pub written : List ℕ
  pub outcome : Result (ℤ × List ℕ)

abbrev pub silent : Result (ℤ × List ℕ) → Exchange
silent r = record { written = []; outcome = r }

abbrev pub after_setup : Result (Unit {0}) → Exchange → Exchange
after_setup (ok u) e = e
after_setup failed e = silent failed
after_setup out_of_fuel e = silent out_of_fuel

unfoldable pub converse : Tls → List ℕ → Exchange
unfolding write_loop read_loop read_rounds response_of
converse t req =
    let sent = write_loop t.writes req in
    record {
      written = sent.wire;
      outcome = sent.outcome >>= λ _.
          read_loop (read_rounds t.reads) t.reads recv_initial_cap [] >>= response_of;
    }

unfoldable pub exchange : Tls → List ℕ → Exchange
unfolding handshake_loop converse
exchange t req =
    after_setup
      (check t.seed >>= λ _. check t.crt_parse >>= λ _. check t.config_defaults >>= λ _.
        check t.setup >>= λ _. check t.set_hostname >>= λ _. handshake_loop t.handshake)
      (converse t req)

-- A run of https_request: what it has written, what it returns, and the sockets that it has opened
-- and closed. A run that waits for an answer has not come to `cleanup`.
pub record Run : Type 0 where
  pub written : List ℕ
  pub outcome : Result (ℤ × List ℕ)
  pub opened : List ℕ
  pub closed : List ℕ

abbrev pub cleanup : Connection → ℕ → Result (ℤ × List ℕ) → List ℕ
cleanup c s out_of_fuel = c.closed
cleanup c s _ = c.closed ++ (s ∷ [])

unfoldable pub request_on : Connection → Option ℕ → Tls → List ℕ → Run
unfolding exchange
request_on c none t req = record {
  written = [];
  outcome = failed;
  opened = c.opened;
  closed = c.closed;
}
request_on c (some s) t req =
    let e = exchange t req in
    record {
      written = e.written;
      outcome = e.outcome;
      opened = c.opened;
      closed = cleanup c s e.outcome;
    }

unfoldable pub https_request :
    Winsock → Tls → List ℕ → List ℕ → List ℕ → List HttpHeader → List ℕ → Run
unfolding pal_tcp_connect request_on http_build_request
https_request w t host method path headers body =
    let c = pal_tcp_connect w in
    request_on c c.socket t (http_build_request method host path headers body)
