-- ===== src/Session/Loop/Isolation.antt =====
-- What the event loop (src/rmux/session.rs) does to its streams when the peer's events come in.
use Prim.Native.String.{String}
use rsnova.Base.{
  ℕ, ◌≡◌, ◌≢◌, refl, sym, ◌∙◌, ap, subst, Bool, true, ◌&&◌, Option, none, some, List, ◌==◌, if_elim,
  if◌then◌else◌,
}
use rsnova.Base.Outcome.{Outcome, ok, err, panic, stuck}
use rsnova.Message.{ConnectRequest}
use rsnova.Event.{flags, len, flag_ping}
use rsnova.Crypto.Primitives.{Cipher}
use rsnova.Stream.{MuxStream, Poll, ready, pending, update_send_window, offer_data}
use rsnova.Stream
use rsnova.Session.Loop.{
  Loop, Input, Verdict, get_stream, drop_stream, close_if_drained, handle_fin_event, after_offer,
  handle_data, handle_window, add_stream, is_empty, requested, handle_syn, handle_remote_event,
  handle_event, send_local_event, note_ping, after_local, handle_local_event,
}
use rsnova.Session.Loop.Cases.{remote_cases}
use rsnova.Session.Loop.Table.{get-insert_other, get-remove_other, get-fill_entry_other}

-- The stream `j` is as it was.
abbrev pub Keeps : ℕ → Loop → Outcome (Loop × Verdict) → Type 0
Keeps j l (ok (l', v)) = get_stream j l'.streams ≡ get_stream j l.streams
Keeps j l (err e) = Unit
Keeps j l panic = Unit
Keeps j l stuck = Unit

Keeps-eq :
    (j : ℕ) (l l' : Loop) (r : Outcome (Loop × Verdict))
    → l.streams ≡ l'.streams
    → Keeps j l r
    → Keeps j l' r
Keeps-eq j l l' (ok r) e k = k ∙ ap (get_stream j) e
Keeps-eq j l l' (err e) _ k = tt
Keeps-eq j l l' panic e k = tt
Keeps-eq j l l' stuck e k = tt

module _ (p : Cipher) (deserialize : List ℕ → Option ConnectRequest) (channel : String)
    (tunnel_id : ℕ) where
  add_stream_other :
      (j sid : ℕ) (l : Loop) (o : Option ConnectRequest)
      → j ≢ sid
      → get_stream j
          (add_stream p deserialize channel tunnel_id l
            (requested p deserialize channel tunnel_id sid o)).streams
        ≡ get_stream j l.streams
  unfolding Stream.new
  add_stream_other j sid l none ne = refl
  add_stream_other j sid l (some req) ne = get-fill_entry_other j sid _ l.streams _ ne

  drop_stream_other :
      (j sid : ℕ) (l : Loop) (o : Option MuxStream)
      → j ≢ sid
      → get_stream j (drop_stream sid l o).streams ≡ get_stream j l.streams
  drop_stream_other j sid l none ne = get-remove_other j sid l.streams ne
  drop_stream_other j sid l (some s) ne = get-remove_other j sid l.streams ne

  close_if_drained-streams : (l : Loop) → (close_if_drained l).0.streams ≡ l.streams
  close_if_drained-streams l =
      if_elim (λ (r : Loop × Bool). r.0.streams ≡ l.streams) refl refl
        (l.state.retired && is_empty l.streams)

  handle_fin_event_other :
      (j sid : ℕ) (l : Loop)
      → j ≢ sid
      → get_stream j (handle_fin_event sid l).0.streams ≡ get_stream j l.streams
  unfolding handle_fin_event
  handle_fin_event_other j sid l ne =
      ap (get_stream j) (close_if_drained-streams _)
      ∙ drop_stream_other j sid l (get_stream sid l.streams) ne

  handle_data-Keeps :
      (j sid : ℕ) (body : List ℕ) (l : Loop) (o : Option MuxStream)
      → j ≢ sid
      → Keeps j l (handle_data sid body l o)
  handle_data-Keeps j sid body l none ne = refl
  handle_data-Keeps j sid body l (some s) ne = go (offer_data s body)
    where
      go : (r : Outcome (Poll MuxStream)) → Keeps j l (after_offer sid l r)
      go (ok (ready t)) = get-insert_other j sid t l.streams ne
      go (ok pending) = refl
      go (err e) = tt
      go panic = tt
      go stuck = tt

  handle_window_other :
      (j sid inc : ℕ) (l : Loop) (o : Option MuxStream)
      → j ≢ sid
      → get_stream j (handle_window sid inc l o).streams ≡ get_stream j l.streams
  handle_window_other j sid inc l none ne = refl
  handle_window_other j sid inc l (some s) ne = get-insert_other j sid _ l.streams ne

  handle_remote_event-Keeps :
      (j : ℕ) (i : Input) (l : Loop)
      → j ≢ i.ev.header.stream_id
      → Keeps j l (handle_remote_event p deserialize channel tunnel_id i l)
  unfolding send_local_event handle_syn
  handle_remote_event-Keeps j i l ne =
      let sid = i.ev.header.stream_id in
      let o = get_stream sid l.streams in
      remote_cases p deserialize channel tunnel_id (Keeps j l) i l
        (λ _. add_stream_other j sid l (deserialize i.ev.body) ne)
        (λ _. handle_fin_event_other j sid l ne) (λ _. handle_data-Keeps j sid i.ev.body l o ne)
        (λ _. refl) (λ _. refl) (λ _. handle_window_other j sid (len i.ev.header) l o ne)
        (λ _. refl)

  pub note_ping-streams :
      (i : Input) (l : Loop) → (note_ping p deserialize channel tunnel_id i l).streams ≡ l.streams
  note_ping-streams i l =
      if_elim (λ (l' : Loop). l'.streams ≡ l.streams) refl refl (flag_ping == flags i.ev.header)

  -- An event of the peer leaves every stream but the one it names as it is, whatever its flag.
  pub handle_event-Keeps :
      (j : ℕ) (i : Input) (l : Loop)
      → i.ev.remote ≡ true
      → j ≢ i.ev.header.stream_id
      → Keeps j l (handle_event p deserialize channel tunnel_id i l)
  unfolding handle_event
  handle_event-Keeps j i l remote ne =
      let l1 = note_ping p deserialize channel tunnel_id i l in
      subst
        (λ b. Keeps j l (
          if b
          then handle_remote_event p deserialize channel tunnel_id i l1
          else after_local (handle_local_event p deserialize channel tunnel_id i l1)))
        (sym remote)
        (Keeps-eq j l1 l _ (note_ping-streams i l) (handle_remote_event-Keeps j i l1 ne))
