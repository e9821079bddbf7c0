-- ===== src/Socket/Transfer.antt =====
-- SipPlatform/SipTcp.cpp: what is sent and received, and that the loops end.
use dbmysqlpool.Base.{
  ℕ, zero, suc, ◌+◌, ◌-◌, ◌*◌, ◌≤◌, ◌<◌, Bool, true, false, length, length-append, length-drop,
  take, drop, is_empty, [], ◌∷◌, ◌++◌, Option, none, some, Bytes, pos, negsuc, leb_ℤ, ◌==◌,
  if◌then◌else◌, ◌≡◌, refl, arith, ap, ◌∙◌, sym, append_assoc, append-nil, Bool-cases, Option-cases,
  inl, inr,
}
use dbmysqlpool.Socket.{Wire, IsWire, send_loop, sent_result, tcp_send, recv_loop, tcp_recv_size}

take_none : (k : ℕ) → [] ≡ take {A = ℕ} k []
take_none zero = refl
take_none (suc k) = refl

take-append-take : (n m : ℕ) (s : Bytes) → take n s ++ take m (drop n s) ≡ take (n + m) s
take-append-take zero m s = ap (λ k. take k s) {x = m} {y = 0 + m} (omega arith)
take-append-take (suc n) zero [] = take_none (suc n + 0)
take-append-take (suc n) (suc m) [] = take_none (suc n + suc m)
take-append-take (suc n) m (c ∷ s) =
    ap (◌∷◌ c) (take-append-take n m s)
    ∙ ap (λ k. take k (c ∷ s)) {x = suc (n + m)} {y = suc n + m} (omega arith)

longer_not_empty : (n : ℕ) (s : Bytes) → n < length s → is_empty s ≡ false
longer_not_empty n [] lt = absurd (omega arith)
longer_not_empty n (c ∷ s) lt = refl

module _ (W : Wire) where
  -- The first bytes of a text were sent, and all of them if the result is true.
  abbrev pub Sends : Bytes → W.State → Option (Bool × W.State) → Type 0
  Sends s w end =
      (ok : Bool) × ((w' : W.State) × ((n : ℕ) × ((end ≡ some (ok, w'))
            × (W.sent w' ≡ W.sent w ++ take n s)
            × (n ≤ length s)
            × (ok ≡ true → n ≡ length s))))

  send_loop-Sends :
      (fuel : ℕ) (s : Bytes) (w : W.State)
      → IsWire W
      → length s < fuel
      → Sends s w (send_loop W fuel s w)
  unfolding send_loop
  send_loop-Sends zero s w l lt = absurd (omega arith)
  send_loop-Sends (suc fuel) s w l lt = elim (Option-cases (W.send w s).0) [
    | inl e ↦ (
      false,
      (
        (W.send w s).1,
        (
          0,
          (
            rw (e, send_loop) refl,
            l.send_fails w s e ∙ sym (append-nil (W.sent w)),
            omega arith,
            λ k. cc k,
          ),
        ),
      ),
    )
    | inr (n, e) ↦
        let (within, some_byte, taken) = l.send_takes w s n e in
        elim (Bool-cases (n == length s)) [
          | inl all ↦ (
            true,
            (
              (W.send w s).1,
              (n, (rw (e, all, send_loop) refl, taken, within, λ k. ground (arith, all))),
            ),
          )
          | inr part ↦
              let some_left : is_empty s ≡ false = longer_not_empty n s (ground (arith, part)) in
              let shorter = length-drop n s in
              let (ok, (w', (m, (e', more, within', whole)))) =
                send_loop-Sends fuel (drop n s) (W.send w s).1 l
                  (omega (arith, some_byte some_left)) in
              (
                ok,
                (
                  w',
                  (
                    n + m,
                    (
                      rw (e, part, send_loop) e',
                      more
                          ∙ (ap (λ t. t ++ take m (drop n s)) taken
                              ∙ (append_assoc (W.sent w) (take n s) (take m (drop n s))
                                  ∙ ap (λ t. W.sent w ++ t) (take-append-take n m s))),
                      omega arith,
                      λ k. omega (arith, whole k),
                    ),
                  ),
                ),
              )
        ]
  ]

  -- `TcpSend` ends with more rounds than there are bytes: either it gives the length, and all bytes were sent
  -- once and in order, or it gives an error, and the first few of them were.
  pub tcp_send-Sends :
      (fuel : ℕ) (s : Bytes) (w : W.State)
      → IsWire W
      → length s < fuel
      → (ok : Bool) × ((w' : W.State) × ((n : ℕ) × ((tcp_send W fuel s w
                ≡ some (if ok then pos (length s) else negsuc 0, w'))
              × (W.sent w' ≡ W.sent w ++ take n s)
              × (n ≤ length s)
              × (ok ≡ true → n ≡ length s))))
  unfolding tcp_send
  tcp_send-Sends fuel s w l lt =
      let (ok, (w', (n, (e, taken, within, whole)))) = send_loop-Sends fuel s w l lt in
      (
        ok,
        (
          w',
          (
            n,
            (
              ap (sent_result W (length s)) e ∙ sent_result_if (length s) ok w',
              taken,
              within,
              whole,
            ),
          ),
        ),
      )
    where
      sent_result_if :
          (k : ℕ) (ok : Bool) (w' : W.State)
          → sent_result W k (some (ok, w')) ≡ some (if ok then pos k else negsuc 0, w')
      sent_result_if k true w' = refl
      sent_result_if k false w' = refl

  -- Bytes came, in front of which those of `got` did, and all that were missing if the result is true.
  abbrev Receives : ℕ → Bytes → W.State → Option (Option Bytes × W.State) → Type 0
  Receives left got w end =
      (ok : Bool) × ((w' : W.State) × ((came : Bytes) × ((end
              ≡ some (if ok then some (got ++ came) else none, w'))
            × (W.received w' ≡ W.received w ++ came)
            × (length came ≤ left)
            × (ok ≡ true → length came ≡ left))))

  recv_loop-Receives :
      (fuel left seconds : ℕ) (got : Bytes) (w : W.State)
      → IsWire W
      → left < fuel
      → Receives left got w (recv_loop W fuel left seconds got w)
  unfolding recv_loop
  recv_loop-Receives zero left seconds got w l lt = absurd (omega arith)
  recv_loop-Receives (suc fuel) left seconds got w l lt =
      let ready = W.poll w (1000 * seconds) in
      let waited = l.poll_waits w (1000 * seconds) in
      let came = W.recv ready.1 left in
      elim (Bool-cases (left == 0)) [
        | inl e ↦ (
          true,
          (
            w,
            (
              [],
              (
                rw (e, recv_loop) (ap (λ b. some (some b, w)) (sym (append-nil got))),
                sym (append-nil (W.received w)),
                omega arith,
                λ k. ground (arith, e),
              ),
            ),
          ),
        )
        | inr e ↦ elim (Bool-cases (leb_ℤ ready.0 (pos 0))) [
          | inl late ↦ (
            false,
            (
              ready.1,
              (
                [],
                (
                  rw (e, late, recv_loop) refl,
                  waited ∙ sym (append-nil (W.received w)),
                  omega arith,
                  λ k. cc k,
                ),
              ),
            ),
          )
          | inr now ↦ elim (Option-cases came.0) [
            | inl broken ↦ (
              false,
              (
                came.1,
                (
                  [],
                  (
                    rw (e, now, broken, recv_loop) refl,
                    l.recv_fails ready.1 left broken ∙ (waited ∙ sym (append-nil (W.received w))),
                    omega arith,
                    λ k. cc k,
                  ),
                ),
              ),
            )
            | inr ([], closed) ↦ (
              false,
              (
                came.1,
                (
                  [],
                  (
                    rw (e, now, closed, recv_loop) refl,
                    (l.recv_gives ready.1 left [] closed).1 ∙ ap (λ s. s ++ []) waited,
                    omega arith,
                    λ k. cc k,
                  ),
                ),
              ),
            )
            | inr (c ∷ s, some_came) ↦
                let (within, given) = l.recv_gives ready.1 left (c ∷ s) some_came in
                let (ok, (w', (later, (e', more, within', whole)))) =
                  recv_loop-Receives fuel (left - length (c ∷ s)) seconds (got ++ c ∷ s) came.1 l
                    (omega (arith, within)) in
                (
                  ok,
                  (
                    w',
                    (
                      (c ∷ s) ++ later,
                      (
                        rw (e, now, some_came, recv_loop)
                            (e'
                              ∙ ap (λ b. some (if ok then some b else none, w'))
                                  (append_assoc got (c ∷ s) later)),
                        more
                            ∙ (ap (λ b. b ++ later) (given ∙ ap (λ b. b ++ c ∷ s) waited)
                                ∙ append_assoc (W.received w) (c ∷ s) later),
                        omega (arith, within, within', length-append (c ∷ s) later),
                        λ k. omega (arith, within, whole k, length-append (c ∷ s) later),
                      ),
                    ),
                  ),
                )
          ]
        ]
      ]

  -- `TcpRecvSize` ends with more rounds than bytes are asked for: either it gives exactly so many bytes, the next
  -- ones that came, or it fails, and what had come until then is given to no one.
  pub tcp_recv_size-Receives :
      (fuel size seconds : ℕ) (w : W.State)
      → IsWire W
      → size < fuel
      → (ok : Bool) × ((w' : W.State) × ((came : Bytes) × ((tcp_recv_size W fuel size seconds w
                ≡ some (if ok then some came else none, w'))
              × (W.received w' ≡ W.received w ++ came)
              × (length came ≤ size)
              × (ok ≡ true → length came ≡ size))))
  unfolding tcp_recv_size
  tcp_recv_size-Receives fuel size seconds w l lt = recv_loop-Receives fuel size seconds [] w l lt
