-- ===== src/Https/Answers.antt =====
-- What https_request of net/https_get.c returns, and the sockets that it closes.
use instagram_on_nt.Prelude.{
  ℕ, zero, suc, ◌-◌, ◌<◌, ◌≡◌, ◌≢◌, ◌⊎◌, inl, inr, refl, sym, ap, ◌∙◌, arith, ◌==◌, false, List, [],
  ◌∷◌, ◌++◌, append_assoc, append-nil, take-append-drop, Option, none, some, length, take, drop,
  length-drop, if_elim,
}
use instagram_on_nt.Prelude.Int.{ℤ, pos, pos_part, ltb_ℤ}
use instagram_on_nt.Prelude.Result.{Result, ok, failed, out_of_fuel}
use instagram_on_nt.Http.{HttpHeader, http_build_request}
use instagram_on_nt.Net.{
  Winsock, Connection, after_bytes, resolve_host, connect_with_timeout, connect_socket,
  pal_tcp_connect, inaddr_none,
}
use instagram_on_nt.Https.Reading.{drain, read_loop-drain}
use instagram_on_nt.Https.Exchange.{
  Read, got, stopped, Tls, want_read, want_write, handshake_loop, write_loop, read_loop,
  recv_initial_cap, read_rounds, response_of, converse, exchange, request_on, https_request,
  cleanup,
}

-- The handshake is done after any number of waits.
abbrev pub Shakes : List ℤ → Type 0
Shakes [] = ⊥
Shakes (rc ∷ rcs) = (rc ≡ pos 0) ⊎ (((rc ≡ want_read) ⊎ (rc ≡ want_write)) × Shakes rcs)

-- Each write takes some of the bytes that are left, until none are.
abbrev pub Takes : List ℤ → ℕ → Type 0
Takes ns zero = Unit {0}
Takes [] (suc left) = ⊥
Takes (n ∷ ns) (suc left) =
    (n ≡ pos (pos_part n)) × (0 < pos_part n) × Takes ns (suc left - pos_part n)

-- The reads give the pieces, none of them empty, and then stop, by a 0 or by a code.
abbrev pub Gives : List Read → List (List ℕ) → Type 0
Gives [] pieces = ⊥
Gives (stopped code ∷ rs) [] = Unit {0}
Gives (stopped code ∷ rs) (s ∷ ss) = ⊥
Gives (got [] ∷ rs) [] = Unit {0}
Gives (got [] ∷ rs) (s ∷ ss) = ⊥
Gives (got (c ∷ chunk) ∷ rs) [] = ⊥
Gives (got (c ∷ chunk) ∷ rs) (s ∷ ss) = (c ∷ chunk ≡ s) × Gives rs ss

-- The pieces, one behind the other.
abbrev pub pieced : List (List ℕ) → List ℕ
pieced [] = []
pieced (s ∷ ss) = s ++ pieced ss

-- A peer that sets up the session, takes a request and gives an answer in pieces.
pub record Serves (t : Tls) (req : List ℕ) (pieces : List (List ℕ)) : Type 0 where
  pub seed : t.seed ≡ pos 0
  pub crt_parse : t.crt_parse ≡ pos 0
  pub config_defaults : t.config_defaults ≡ pos 0
  pub setup : t.setup ≡ pos 0
  pub set_hostname : t.set_hostname ≡ pos 0
  pub shakes : Shakes t.handshake
  pub takes : Takes t.writes (length req)
  pub gives : Gives t.reads pieces

pub handshake_loop-Shakes : (rcs : List ℤ) → Shakes rcs → handshake_loop rcs ≡ ok tt
unfolding handshake_loop
handshake_loop-Shakes [] h = absurd h
handshake_loop-Shakes (rc ∷ rcs) (inl e) = rw e
handshake_loop-Shakes (rc ∷ rcs) (inr (inl e, h)) = rw e (handshake_loop-Shakes rcs h)
handshake_loop-Shakes (rc ∷ rcs) (inr (inr e, h)) = rw e (handshake_loop-Shakes rcs h)

not_negative : (n : ℤ) → n ≡ pos (pos_part n) → ltb_ℤ n (pos 0) ≡ false
not_negative n e = ground arith

pub write_loop-Takes :
    (ns : List ℤ) (p : List ℕ) (left : ℕ)
    → length p ≡ left
    → Takes ns left
    → write_loop ns p ≡ record { wire = p; outcome = ok tt }
unfolding write_loop
write_loop-Takes ns [] left e h = refl
write_loop-Takes [] (c ∷ p) zero e h = absurd (omega arith)
write_loop-Takes [] (c ∷ p) (suc left) e h = absurd h
write_loop-Takes (n ∷ ns) (c ∷ p) zero e h = absurd (omega arith)
write_loop-Takes (n ∷ ns) (c ∷ p) (suc left) e (positive, some_taken, h) =
    let k = pos_part n in
    let ih =
      write_loop-Takes ns (drop k (c ∷ p)) (suc left - k) (omega (arith, length-drop k (c ∷ p)))
        h in
    rw (not_negative n positive) (
      ap (after_bytes (take k (c ∷ p))) ih
      ∙ ap (λ (w : List ℕ). record { wire = w; outcome = ok tt }) (take-append-drop k (c ∷ p)))

drain-Gives :
    (rs : List Read) (pieces : List (List ℕ)) (buf : List ℕ)
    → Gives rs pieces
    → drain rs buf ≡ ok (buf ++ pieced pieces)
drain-Gives [] pieces buf h = absurd h
drain-Gives (stopped code ∷ rs) [] buf h = ap ok (sym (append-nil buf))
drain-Gives (stopped code ∷ rs) (s ∷ ss) buf h = absurd h
drain-Gives (got [] ∷ rs) [] buf h = ap ok (sym (append-nil buf))
drain-Gives (got [] ∷ rs) (s ∷ ss) buf h = absurd h
drain-Gives (got (c ∷ chunk) ∷ rs) [] buf h = absurd h
drain-Gives (got (c ∷ chunk) ∷ rs) (s ∷ ss) buf (e, h) =
    drain-Gives rs ss (buf ++ (c ∷ chunk)) h
    ∙ ap ok (append_assoc buf (c ∷ chunk) (pieced ss) ∙ ap (λ t. buf ++ (t ++ pieced ss)) e)

read_loop-Gives :
    (rs : List Read) (pieces : List (List ℕ))
    → Gives rs pieces
    → read_loop (read_rounds rs) rs recv_initial_cap [] ≡ ok (pieced pieces)
read_loop-Gives rs pieces h =
    read_loop-drain (read_rounds rs) rs recv_initial_cap [] (omega arith) (omega arith)
      (omega arith)
    ∙ drain-Gives rs pieces [] h

exchange-Serves :
    (t : Tls) (req : List ℕ) (pieces : List (List ℕ))
    → Serves t req pieces
    → exchange t req ≡ record { written = req; outcome = response_of (pieced pieces) }
unfolding exchange converse
exchange-Serves t req pieces s = rw (
  s.seed,
  s.crt_parse,
  s.config_defaults,
  s.setup,
  s.set_hostname,
  handshake_loop-Shakes t.handshake s.shakes,
  write_loop-Takes t.writes req (length req) refl s.takes,
  read_loop-Gives t.reads pieces s.gives,
)

-- With a connection to a peer that sets up the session, takes what is written in whatever portions,
-- and gives an answer that is not empty in whatever pieces before it stops, https_request returns: it
-- has written the bytes of http_build_request, in order and no others, and it gives the status and
-- the body that http_parse_response reads in the pieces put together.
pub https_request-Serves :
    (w : Winsock) (t : Tls) (host method path : List ℕ) (headers : List HttpHeader) (body : List ℕ)
    (s : ℕ) (pieces : List (List ℕ))
    → (pal_tcp_connect w).socket ≡ some s
    → Serves t (http_build_request method host path headers body) pieces
    → let run = https_request w t host method path headers body in
      (run.written ≡ http_build_request method host path headers body)
      × (run.outcome ≡ response_of (pieced pieces))
unfolding https_request request_on
https_request-Serves w t host method path headers body s pieces e h =
    let req = http_build_request method host path headers body in
    let k = exchange-Serves t req pieces h in rw e (ap (λ r. r.written) k, ap (λ r. r.outcome) k)

-- Nothing is open at the end.
abbrev pub Tidy : Connection → Type 0
Tidy c =
    (c.socket ≡ none → c.closed ≡ c.opened)
    × ((s : ℕ) → c.socket ≡ some s → c.opened ≡ c.closed ++ (s ∷ []))

connect_socket-Tidy : (w : Winsock) (o : Option ℕ) → Tidy (connect_socket w o)
unfolding connect_socket
connect_socket-Tidy w none = (λ _. refl, λ s e. cc)
connect_socket-Tidy w (some s) =
    if_elim Tidy (connect_with_timeout w.connect w.selected) (λ _. (λ e. cc, λ s' e. cc))
      (λ _. (λ _. refl, λ s' e. cc))

pal_tcp_connect-Tidy : (w : Winsock) → Tidy (pal_tcp_connect w)
unfolding pal_tcp_connect
pal_tcp_connect-Tidy w =
    if_elim Tidy (resolve_host w == inaddr_none) (λ _. (λ _. refl, λ s e. cc))
      (λ _. connect_socket-Tidy w w.created)

cleaned :
    (c : Connection) (s : ℕ) (r : Result (ℤ × List ℕ))
    → r ≢ out_of_fuel
    → cleanup c s r ≡ c.closed ++ (s ∷ [])
cleaned c s (ok a) h = refl
cleaned c s failed h = refl
cleaned c s out_of_fuel h = absurd (h refl)

request_on-closes :
    (c : Connection) (t : Tls) (req : List ℕ) (o : Option ℕ)
    → c.socket ≡ o
    → Tidy c
    → let run = request_on c o t req in run.outcome ≢ out_of_fuel → run.closed ≡ run.opened
unfolding request_on
request_on-closes c t req none e h n = h.0 e
request_on-closes c t req (some s) e h n = cleaned c s (exchange t req).outcome n ∙ sym (h.1 s e)

-- On every path on which https_request returns, whatever has failed, the sockets that have been closed
-- are those that have been opened.
pub https_request-closes :
    (w : Winsock) (t : Tls) (host method path : List ℕ) (headers : List HttpHeader) (body : List ℕ)
    → let run = https_request w t host method path headers body in
      run.outcome ≢ out_of_fuel → run.closed ≡ run.opened
unfolding https_request
https_request-closes w t host method path headers body n =
    let c = pal_tcp_connect w in
    request_on-closes c t (http_build_request method host path headers body) c.socket refl
      (pal_tcp_connect-Tidy w) n
