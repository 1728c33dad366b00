-- ===== src/Session/Loop/Cases.antt =====
-- The branches of `process_event` (src/rmux/session.rs) on an event of the peer.
use Prim.Native.String.{String}
use rsnova.Base.{ℕ, ◌≡◌, inl, inr, false, not, Option, List, ◌==◌, ==_iff, Bool-cases, arith}
use rsnova.Base.Outcome.{Outcome, ok}
use rsnova.Message.{ConnectRequest}
use rsnova.Event.{
  flags, len, flag_syn, flag_fin, flag_data, flag_win_update, flag_ping, flag_pong, new_pong_event,
}
use rsnova.Crypto.Primitives.{Cipher}
use rsnova.Session.Loop.{
  Loop, Input, Verdict, go_on, go_on_if, get_stream, handle_fin_event, handle_data, handle_window,
  add_stream, handle_syn, send_local_event, handle_remote_event,
}

module _ (p : Cipher) (deserialize : List ℕ → Option ConnectRequest) (channel : String)
    (tunnel_id : ℕ) where
  -- A property of every branch is one of the handler.
  pub remote_cases {ℓ} :
      (P : Outcome (Loop × Verdict) → Type ℓ) (i : Input) (l : Loop)
      → let flag = flags i.ev.header in
        let sid = i.ev.header.stream_id in
        let other : Type 0 = (flag == flag_data) ≡ false in
        let fin = handle_fin_event sid l in
        let pong =
          send_local_event p deserialize channel tunnel_id (new_pong_event sid false) i.tx_open l in
        (other
          → P (
              ok (
                add_stream p deserialize channel tunnel_id l
                    (handle_syn p deserialize channel tunnel_id i.ev),
                go_on,
              )))
        → (other → P (ok (fin.0, go_on_if (not fin.1))))
        → (flag ≡ flag_data → P (handle_data sid i.ev.body l (get_stream sid l.streams)))
        → (other → P (ok (pong.0, go_on_if pong.1)))
        → (other
            → P (ok (record l { state = record (l.state) { last_pong_recv_time = i.now } }, go_on)))
        → (other → P (ok (handle_window sid (len i.ev.header) l (get_stream sid l.streams), go_on)))
        → (other → P (ok (l, go_on)))
        → P (handle_remote_event p deserialize channel tunnel_id i l)
  unfolding handle_remote_event
  remote_cases P i l syn fin dat ping pong window none_of_them =
      let flag = flags i.ev.header in
      elim (Bool-cases (flag == flag_syn)) [
        | inl e ↦ rw e (syn (ground (arith, e)))
        | inr e1 ↦ elim (Bool-cases (flag == flag_fin)) [
          | inl e ↦ rw (e1, e) (fin (ground (arith, e)))
          | inr e2 ↦ elim (Bool-cases (flag == flag_data)) [
            | inl e ↦ rw (e1, e2, e) (dat ((==_iff _ _).0 e))
            | inr o ↦ elim (Bool-cases (flag == flag_ping)) [
              | inl e ↦ rw (e1, e2, o, e) (ping o)
              | inr e4 ↦ elim (Bool-cases (flag == flag_pong)) [
                | inl e ↦ rw (e1, e2, o, e4, e) (pong o)
                | inr e5 ↦ elim (Bool-cases (flag == flag_win_update)) [
                  | inl e ↦ rw (e1, e2, o, e4, e5, e) (window o)
                  | inr e6 ↦ rw (e1, e2, o, e4, e5, e6) (none_of_them o)
                ]
              ]
            ]
          ]
        ]
      ]
