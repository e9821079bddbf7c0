-- ===== src/Socket.antt =====
-- SipPlatform/SipTcp.cpp: sending and receiving on a connected TCP socket.
pub mod Transfer
use dbmysqlpool.Base.{
  ℕ, zero, suc, ◌+◌, ◌-◌, ◌*◌, ◌≤◌, ◌<◌, Bool, true, false, not, ◌&&◌, List, length, length-append,
  length-take, length-drop, take, drop, is_empty, take-append-drop, [], ◌∷◌, ◌++◌, Option, none,
  some, Bytes, ℤ, pos, negsuc, leb_ℤ, leb, ◌==◌, if◌then◌else◌, ◌≡◌, refl, arith, ap, ◌∙◌, sym,
  append_assoc, append-nil, Bool-cases, Option-cases, inl, inr, subst,
}

-- A socket as the C library gives it. `send` gives the number of bytes that it took, `recv` the bytes that came,
-- none at the end of the stream, and `none` is an error of either; `poll` waits so many milliseconds.
pub record Wire : Type 1 where
  pub State : Type 0
  pub send : State → Bytes → Option ℕ × State
  pub recv : State → ℕ → Option Bytes × State
  pub poll : State → ℕ → ℤ × State
  -- All bytes that were taken from the program so far, and all that it was given.
  pub sent : State → Bytes
  pub received : State → Bytes

-- `send` takes the first bytes of what it is given, and one at least where there is one; `recv` gives at most so
-- many bytes as it is asked for; `poll` moves none.
pub record IsWire (W : Wire) : Type 0 where
  pub send_takes :
      (w : W.State) (s : Bytes) (n : ℕ)
      → (W.send w s).0 ≡ some n
      → (n ≤ length s)
        × (is_empty s ≡ false → 0 < n)
        × (W.sent (W.send w s).1 ≡ W.sent w ++ take n s)
  pub send_fails :
      (w : W.State) (s : Bytes) → (W.send w s).0 ≡ none → W.sent (W.send w s).1 ≡ W.sent w
  pub recv_gives :
      (w : W.State) (n : ℕ) (s : Bytes)
      → (W.recv w n).0 ≡ some s
      → (length s ≤ n) × (W.received (W.recv w n).1 ≡ W.received w ++ s)
  pub recv_fails :
      (w : W.State) (n : ℕ) → (W.recv w n).0 ≡ none → W.received (W.recv w n).1 ≡ W.received w
  pub poll_waits : (w : W.State) (n : ℕ) → W.received (W.poll w n).1 ≡ W.received w

module _ (W : Wire) where
  -- The loop of `TcpSend` over the bytes that are left: whether all were sent. `none`: the fuel ran out.
  unfoldable pub send_loop : ℕ → Bytes → W.State → Option (Bool × W.State)
  send_loop zero s w = none
  send_loop (suc fuel) s w = elim (W.send w s).0 [
    | none ↦ some (false, (W.send w s).1)
    | some n ↦
        let rest = send_loop fuel (drop n s) (W.send w s).1 in
        if n == length s then some (true, (W.send w s).1) else rest
  ]

  abbrev pub sent_result : ℕ → Option (Bool × W.State) → Option (ℤ × W.State)
  sent_result n none = none
  sent_result n (some (true, w)) = some (pos n, w)
  sent_result n (some (false, w)) = some (negsuc 0, w)

  -- `TcpSend`, with `SOCKET_ERROR` as -1.
  unfoldable pub tcp_send : ℕ → Bytes → W.State → Option (ℤ × W.State)
  unfolding send_loop
  tcp_send fuel s w = sent_result (length s) (send_loop fuel s w)

  -- `TcpRecv`
  unfoldable pub tcp_recv : ℕ → ℕ → W.State → Option Bytes × W.State
  tcp_recv size seconds w =
      let ready = W.poll w (1000 * seconds) in
      if leb_ℤ ready.0 (pos 0) then (none, ready.1) else W.recv ready.1 size

  -- The loop of `TcpRecvSize`: the bytes that are missing and those that came. The outer `none`: the fuel ran
  -- out; the inner one is `SOCKET_ERROR`.
  unfoldable pub recv_loop : ℕ → ℕ → ℕ → Bytes → W.State → Option (Option Bytes × W.State)
  recv_loop zero left seconds got w = none
  recv_loop (suc fuel) left seconds got w =
      let ready = W.poll w (1000 * seconds) in
      let came = W.recv ready.1 left in
      if left == 0
      then some (some got, w)
      else if leb_ℤ ready.0 (pos 0)
      then some (none, ready.1)
      else elim came.0 [
        | none ↦ some (none, came.1)
        | some [] ↦ some (none, came.1)
        | some (c ∷ s) ↦ recv_loop fuel (left - length (c ∷ s)) seconds (got ++ c ∷ s) came.1
      ]

  unfoldable pub tcp_recv_size : ℕ → ℕ → ℕ → W.State → Option (Option Bytes × W.State)
  unfolding recv_loop
  tcp_recv_size fuel size seconds w = recv_loop fuel size seconds [] w
