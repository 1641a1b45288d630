-- ===== src/Net/Sending.antt =====
-- pal_tcp_send_all of pal/net_win32.c sends all of its bytes in order, or reports a failure.
use instagram_on_nt.Prelude.{
  ℕ, zero, suc, ◌+◌, ◌-◌, ◌^◌, ◌<◌, ◌≤◌, ◌≡◌, ◌≢◌, ◌⊎◌, inl, inr, refl, sym, ap, ◌∙◌, arith, true,
  false, ◌||◌, List, [], ◌∷◌, ◌++◌, append_assoc, take-append-drop, length, take, drop, length-drop,
  drop-drop,
}
use mathlib.Core.Path.{subst}
use instagram_on_nt.Prelude.Int.{
  ℤ, pos, negsuc, pos_part, ◌+ℤ◌, ◌-ℤ◌, sub_int, int32, uint32, ltb_ℤ, eqb_ℤ,
}
use instagram_on_nt.Prelude.Result.{ok, failed, out_of_fuel}
use instagram_on_nt.Net.{Sent, after_bytes, socket_error, send_loop, pal_tcp_send_all}

-- `p` is what has been handed over, in front of what is left; nothing is left exactly if 0 is
-- returned.
abbrev pub Sends : List ℕ → Sent → Type 0
Sends p r =
    (rest : List ℕ) × (r.wire ++ rest ≡ p)
    × (r.outcome ≡ ok tt → rest ≡ [])
    × (r.outcome ≡ failed → 0 < length rest)

Sends-after :
    (k : ℕ) (p : List ℕ) (r : Sent) → Sends (drop k p) r → Sends p (after_bytes (take k p) r)
Sends-after k p r (rest, e, all, some_left) = (
  rest,
  append_assoc (take k p) r.wire rest ∙ ap (λ t. take k p ++ t) e ∙ take-append-drop k p,
  all,
  some_left,
)

-- What Winsock says of send: it fails, or it has sent some of the bytes that are left.
abbrev pub SendAnswers : List ℤ → ℕ → Type 0
SendAnswers ns zero = Unit {0}
SendAnswers [] (suc left) = Unit {0}
SendAnswers (n ∷ ns) (suc left) =
    (n ≡ socket_error)
    ⊎ ((n ≡ pos (pos_part n)) × (pos_part n ≤ suc left) × SendAnswers ns (suc left - pos_part n))

offset : (a k : ℕ) → pos a +ℤ pos k ≡ pos (a + k)
unfolding ◌+ℤ◌
offset a k = ground arith

remaining : (l k : ℕ) → l < 2 ^ 31 → k ≤ l → sub_int (pos l) (pos k) ≡ pos (l - k)
unfolding sub_int int32 uint32 ◌-ℤ◌
remaining l k h f = ground arith

-- One round with `k` bytes sent.
send_loop-sent :
    (k : ℕ) (ns : List ℤ) (buf : List ℕ) (a l : ℕ)
    → l < 2 ^ 31
    → 0 < l
    → 0 < k
    → k ≤ l
    → send_loop (pos k ∷ ns) buf (pos a) (pos l)
      ≡ after_bytes (take k (drop a buf)) (send_loop ns buf (pos (a + k)) (pos (l - k)))
unfolding send_loop
send_loop-sent k ns buf a l h more some_sent fits =
    let u : ltb_ℤ (pos 0) (pos l) ≡ true = ground arith in
    let v : (eqb_ℤ (pos k) socket_error || eqb_ℤ (pos k) (pos 0)) ≡ false = ground arith in
    rw (u, v, offset a k, remaining l k h fits) refl

send_loop-stops :
    (n : ℤ) (ns : List ℤ) (buf : List ℕ) (at : ℤ) (l : ℕ)
    → 0 < l
    → (eqb_ℤ n socket_error || eqb_ℤ n (pos 0)) ≡ true
    → send_loop (n ∷ ns) buf at (pos l) ≡ record { wire = []; outcome = failed }
unfolding send_loop
send_loop-stops n ns buf at l more e =
    let u : ltb_ℤ (pos 0) (pos l) ≡ true = ground arith in rw (u, e) refl

send_loop-done :
    (ns : List ℤ) (buf : List ℕ) (at : ℤ)
    → send_loop ns buf at (pos 0) ≡ record { wire = []; outcome = ok tt }
unfolding send_loop
send_loop-done [] buf at = refl
send_loop-done (n ∷ ns) buf at = refl

send_loop-waits :
    (buf : List ℕ) (at : ℤ) (l : ℕ)
    → 0 < l
    → send_loop [] buf at (pos l) ≡ record { wire = []; outcome = out_of_fuel }
unfolding send_loop
send_loop-waits buf at l more = let u : ltb_ℤ (pos 0) (pos l) ≡ true = ground arith in rw u refl

failed_answer : (n : ℤ) → n ≡ socket_error → (eqb_ℤ n socket_error || eqb_ℤ n (pos 0)) ≡ true
failed_answer n e = rw e refl

-- What a run over the bytes `p` gives: `Sends`, and an end if there are answers enough.
abbrev Ends : List ℕ → ℕ → Sent → Type 0
Ends p answers r = Sends p r × (length p ≤ answers → r.outcome ≢ out_of_fuel)

Ends-failed : (c : ℕ) (p : List ℕ) (n : ℕ) → Ends (c ∷ p) n (record { wire = []; outcome = failed })
Ends-failed c p n =
    ((c ∷ p, refl, λ e. absurd (ground arith), λ e. omega arith), λ h e. ground arith)

send_loop-Ends :
    (ns : List ℤ) (buf : List ℕ) (a : ℕ) (p : List ℕ)
    → drop a buf ≡ p
    → length p < 2 ^ 31
    → SendAnswers ns (length p)
    → Ends p (length ns) (send_loop ns buf (pos a) (pos (length p)))
send_loop-Ends ns buf a [] e h answers =
    rw (send_loop-done ns buf (pos a))
      (([], refl, λ _. refl, λ u. absurd (ground arith)), λ _ u. ground arith)
send_loop-Ends [] buf a (c ∷ p) e h answers =
    rw (send_loop-waits buf (pos a) (length (c ∷ p)) (omega arith)) (
      (c ∷ p, refl, λ u. absurd (ground arith), λ u. absurd (ground arith)),
      λ q. absurd (omega arith),
    )
send_loop-Ends (n ∷ ns) buf a (c ∷ p) e h (inl err) =
    rw (send_loop-stops n ns buf (pos a) (length (c ∷ p)) (omega arith) (failed_answer n err))
      (Ends-failed c p (length (n ∷ ns)))
send_loop-Ends (negsuc k ∷ ns) buf a (c ∷ p) e h (inr (positive, fits, answers)) =
    absurd (ground arith)
send_loop-Ends (pos zero ∷ ns) buf a (c ∷ p) e h (inr (positive, fits, answers)) =
    rw (send_loop-stops (pos 0) ns buf (pos a) (length (c ∷ p)) (omega arith) refl)
      (Ends-failed c p (length (pos 0 ∷ ns)))
send_loop-Ends (pos (suc k) ∷ ns) buf a (c ∷ p) e h (inr (positive, fits, answers)) =
    let rest = drop (suc k) (c ∷ p) in
    let l = length-drop (suc k) (c ∷ p) in
    let next : drop (a + suc k) buf ≡ rest = sym (drop-drop (suc k) a buf) ∙ ap (drop (suc k)) e in
    let ih =
      send_loop-Ends ns buf (a + suc k) rest next (omega arith)
        (subst (SendAnswers ns) (sym l) answers) in
    let r = send_loop ns buf (pos (a + suc k)) (pos (length rest)) in
    let round : send_loop (pos (suc k) ∷ ns) buf (pos a) (pos (length (c ∷ p)))
        ≡ after_bytes (take (suc k) (c ∷ p)) r =
      send_loop-sent (suc k) ns buf a (length (c ∷ p)) h (omega arith) (omega arith) fits ∙ (λ i.
        after_bytes (take (suc k) (e i)) (send_loop ns buf (pos (a + suc k)) (pos (sym l i)))) in
    subst (Ends (c ∷ p) (suc (length ns))) (sym round)
      (Sends-after (suc k) (c ∷ p) r ih.0, λ q u. ih.1 (omega arith) u)

-- If send answers each call as Winsock says, that is, with SOCKET_ERROR or with how many of the bytes
-- that are left it has sent, then what pal_tcp_send_all has handed over of fewer than 2^31 bytes is a
-- prefix of them; it returns 0 only when that is all of them, and -1 only when some are left; and it
-- returns after at most as many calls as there are bytes.
pub pal_tcp_send_all-Sends :
    (ns : List ℤ) (p : List ℕ)
    → length p < 2 ^ 31
    → SendAnswers ns (length p)
    → Sends p (pal_tcp_send_all ns p)
      × (length p ≤ length ns → (pal_tcp_send_all ns p).outcome ≢ out_of_fuel)
unfolding pal_tcp_send_all
pal_tcp_send_all-Sends ns p h answers = send_loop-Ends ns p 0 p refl h answers
