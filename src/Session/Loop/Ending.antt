-- ===== src/Session/Loop/Ending.antt =====
-- How streams end in the event loop, and when a round of it panics (src/rmux/session.rs).
use Prim.Native.String.{String}
use rsnova.Base.{
  ℕ, ◌≡◌, ◌≢◌, refl, sym, ◌∙◌, ap, subst, inl, inr, Bool, true, false, ◌&&◌, Option, none, some,
  List, [], ◌∷◌, length, ◌==◌, Bool-cases, leb, arith, if◌then◌else◌,
}
use rsnova.Base.Outcome.{Outcome, ok, err, panic, stuck}
use rsnova.Message.{ConnectRequest}
use rsnova.Event.{flags, flag_data}
use rsnova.Crypto.Primitives.{Cipher}
use rsnova.Stream.{check_data_tx, capacity, MuxStream, Poll, ready, pending, offer_data}
use rsnova.Session.Loop.{
  Loop, Input, Verdict, get_stream, drop_stream, after_offer, is_empty, set_closed,
  close_if_drained, handle_fin_event, handle_data, handle_remote_event, handle_event, note_ping,
  after_local, handle_local_event,
}
use rsnova.Session.Loop.Cases.{remote_cases}
use rsnova.Session.Loop.Isolation.{note_ping-streams}
use rsnova.Session.Loop.Table.{get-remove_other, get-remove_same}

-- What `handle_fin_event` comes to: the stream is gone, the others are there, and the state of the
-- session is as it was but for the mark of its end, which it gets if it is retired and has no stream left.
abbrev pub Ended : ℕ → Loop → Loop × Bool → Type 0
Ended sid l (l', over) =
    (get_stream sid l'.streams ≡ none)
    × ((j : ℕ) → j ≢ sid → get_stream j l'.streams ≡ get_stream j l.streams)
    × (over ≡ (l.state.retired && is_empty l'.streams))
    × (l'.state ≡ (if over then set_closed l.state else l.state))

close_if_drained-Ended :
    (sid : ℕ) (l l1 : Loop)
    → l1.state ≡ l.state
    → get_stream sid l1.streams ≡ none
    → ((j : ℕ) → j ≢ sid → get_stream j l1.streams ≡ get_stream j l.streams)
    → Ended sid l (close_if_drained l1)
close_if_drained-Ended sid l l1 st gone others =
    let r : l1.state.retired ≡ l.state.retired = ap (λ s. s.retired) st in
    elim (Bool-cases (l1.state.retired && is_empty l1.streams)) [
      | inl e ↦ rw e (gone, others, sym e ∙ ap (λ b. b && is_empty l1.streams) r, ap set_closed st)
      | inr e ↦ rw e (gone, others, sym e ∙ ap (λ b. b && is_empty l1.streams) r, st)
    ]

-- After the end of a stream, from the peer or from this side: the stream is out of the table, every
-- other stream is as it was, and if the session is retired and no stream is left the loop is over and
-- the session marked as closed. Otherwise the loop goes on, with the state of the session as it was.
pub handle_fin_event-Ended : (sid : ℕ) (l : Loop) → Ended sid l (handle_fin_event sid l)
unfolding handle_fin_event
handle_fin_event-Ended sid l = go (get_stream sid l.streams)
  where
    go : (o : Option MuxStream) → Ended sid l (close_if_drained (drop_stream sid l o))
    go none =
        close_if_drained-Ended sid l _ refl (get-remove_same sid l.streams)
          (λ j. get-remove_other j sid l.streams)
    go (some s) =
        close_if_drained-Ended sid l _ refl (get-remove_same sid l.streams)
          (λ j. get-remove_other j sid l.streams)

-- The event that makes the loop panic: the peer's data without a byte, for a stream that is open.
abbrev pub IsFatal : Input → Loop → Type 0
IsFatal i l =
    (i.ev.remote ≡ true)
    × (flags i.ev.header ≡ flag_data)
    × (i.ev.body ≡ [])
    × ((s : MuxStream) × (get_stream i.ev.header.stream_id l.streams ≡ some s))

-- A round goes through, or its event was fatal.
abbrev pub Handled : Input → Loop → Outcome (Loop × Verdict) → Type 0
Handled i l (ok r) = ¬ IsFatal i l
Handled i l panic = IsFatal i l
Handled i l (err e) = ⊥
Handled i l stuck = ⊥

module _ (p : Cipher) (deserialize : List ℕ → Option ConnectRequest) (channel : String)
    (tunnel_id : ℕ) where
  fine : (i : Input) (l : Loop) → ((flags i.ev.header == flag_data) ≡ false) → ¬ IsFatal i l
  fine i l e (_, f, _, _) = ground (arith, e, f)

  offer_data-ok :
      (s : MuxStream) (b : ℕ) (bs : List ℕ) → (q : Poll MuxStream) × (offer_data s (b ∷ bs) ≡ ok q)
  unfolding offer_data
  offer_data-ok s b bs =
      let m = check_data_tx s in
      elim (Bool-cases m.data_tx) [
        | inr e ↦ rw e (_, refl)
        | inl e ↦ elim (Bool-cases m.dat.rx_closed) [
          | inl c ↦ rw (e, c) (_, refl)
          | inr c ↦ elim (Bool-cases (leb capacity (length m.dat.queue))) [
            | inl f ↦ rw (e, c, f) (_, refl)
            | inr f ↦ rw (e, c, f) (_, refl)
          ]
        ]
      ]

  handle_data-Handled :
      (i : Input) (l l1 : Loop) (body : List ℕ) (o : Option MuxStream)
      → i.ev.remote ≡ true
      → flags i.ev.header ≡ flag_data
      → i.ev.body ≡ body
      → get_stream i.ev.header.stream_id l.streams ≡ o
      → Handled i l (handle_data i.ev.header.stream_id body l1 o)
  unfolding offer_data
  handle_data-Handled i l l1 body none r f b e = λ (_, _, _, (s, g)). cc (sym e ∙ g)
  handle_data-Handled i l l1 [] (some s) r f b e = (r, f, b, (s, e))
  handle_data-Handled i l l1 (c ∷ cs) (some s) r f b e =
      let (q, h) = offer_data-ok s c cs in
      subst (λ x. Handled i l (after_offer i.ev.header.stream_id l1 x)) (sym h) (go q)
    where
      go : (q : Poll MuxStream) → Handled i l (after_offer i.ev.header.stream_id l1 (ok q))
      go (ready t) = λ (_, _, z, _). cc (sym b ∙ z)
      go pending = λ (_, _, z, _). cc (sym b ∙ z)

  handle_remote_event-Handled :
      (i : Input) (l l1 : Loop)
      → i.ev.remote ≡ true
      → l1.streams ≡ l.streams
      → Handled i l (handle_remote_event p deserialize channel tunnel_id i l1)
  handle_remote_event-Handled i l l1 r e =
      let sid = i.ev.header.stream_id in
      remote_cases p deserialize channel tunnel_id (Handled i l) i l1 (fine i l) (fine i l)
        (λ f.
          handle_data-Handled i l l1 i.ev.body (get_stream sid l1.streams) r f refl
            (ap (get_stream sid) (sym e)))
        (fine i l) (fine i l) (fine i l) (fine i l)

  -- A round of the loop never fails but by a panic, and it panics exactly if its event is data of the
  -- peer without a byte for a stream that is open.
  pub handle_event-Handled :
      (i : Input) (l : Loop) → Handled i l (handle_event p deserialize channel tunnel_id i l)
  unfolding handle_event
  handle_event-Handled i l =
      let l1 = note_ping p deserialize channel tunnel_id i l in
      let remote = handle_remote_event p deserialize channel tunnel_id i l1 in
      let local = after_local (handle_local_event p deserialize channel tunnel_id i l1) in
      elim (Bool-cases i.ev.remote) [
        | inl r ↦
            subst (λ b. Handled i l (if b then remote else local)) (sym r)
              (handle_remote_event-Handled i l l1 r
                (note_ping-streams p deserialize channel tunnel_id i l))
        | inr r ↦
            subst (λ b. Handled i l (if b then remote else local)) (sym r)
              (λ (q, _, _, _). cc (sym r ∙ q))
      ]
