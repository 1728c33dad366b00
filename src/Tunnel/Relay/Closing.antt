-- ===== src/Tunnel/Relay/Closing.antt =====
-- What the end of a stream does to both directions of `relay` (src/tunnel/relay.rs).
use rsnova.Base.{
  ℕ, suc, ◌-◌, min, length, ◌≡◌, refl, ◌∙◌, ◌⊎◌, true, ◌&&◌, not, inl, inr, List, [], ◌∷◌, ltb,
  ◌==◌, Bool-cases, if_elim,
}
use rsnova.Io.{
  BufCopy, Answer, not_ready, broken, goes, Progress, copying, done, failed, read_some, write_some,
  flush, ask,
}
use rsnova.Tunnel.Relay.{
  End, connection, shared, is_shut, shut, Direction, moving, closing, ended, after_copy, relay_size,
  asked, flushed, read_from, copy_step, close_writer, advance, Relay, Turn, up, down, client_gone,
  server_gone, take_turn, run,
}

-- What the direction has not taken yet, and what it has written.
abbrev left : Progress → List ℕ
left (copying c) = c.source
left (done n c) = c.source
left (failed c) = c.source

abbrev put : Progress → List ℕ
put (copying c) = c.sink
put (done n c) = c.sink
put (failed c) = c.sink

abbrev pub untaken : Direction → List ℕ
untaken (moving c) = c.source
untaken (closing p) = left p
untaken (ended p) = left p

abbrev pub written : Direction → List ℕ
written (moving c) = c.sink
written (closing p) = put p
written (ended p) = put p

after_copy-untaken : (p : Progress) → untaken (after_copy p) ≡ left p
after_copy-untaken (copying c) = refl
after_copy-untaken (done n c) = refl
after_copy-untaken (failed c) = refl

after_copy-written : (p : Progress) → written (after_copy p) ≡ put p
after_copy-written (copying c) = refl
after_copy-written (done n c) = refl
after_copy-written (failed c) = refl

write_some-left : (c : BufCopy) (a : Answer) → left (write_some c a) ≡ c.source
write_some-left c not_ready = refl
write_some-left c broken = refl
write_some-left c (goes k) = elim (Bool-cases (min k (c.cap - c.pos) == 0)) [
  | inl e ↦ rw e refl
  | inr e ↦ rw e refl
]

flush-left : (c : BufCopy) (a : Answer) → left (flush c a) ≡ c.source
flush-left c not_ready = refl
flush-left c broken = refl
flush-left c (goes k) = refl

read_some-put : (n : ℕ) (c : BufCopy) (a : Answer) → put (read_some n c a) ≡ c.sink
read_some-put n c not_ready = refl
read_some-put n c broken = refl
read_some-put n c (goes k) = elim (Bool-cases (min (suc k) (min n (length c.source)) == 0)) [
  | inl e ↦ rw e refl
  | inr e ↦ rw e refl
]

flush-put : (c : BufCopy) (a : Answer) → put (flush c a) ≡ c.sink
flush-put c not_ready = refl
flush-put c broken = refl
flush-put c (goes k) = refl

-- Nothing is read of an end that is closed, and nothing written to it.
copy_step-left :
    (from to : End) (c : BufCopy) (a : Answer)
    → is_shut from ≡ true
    → left (copy_step from to c a).1 ≡ c.source
unfolding copy_step ask
copy_step-left from to c a h = elim (Bool-cases (c.pos == c.cap && not c.read_done)) [
  | inl e ↦ rw (e, h) refl
  | inr e ↦ elim (Bool-cases (ltb c.pos c.cap)) [
    | inl f ↦ rw (e, f) (write_some-left c (asked to a))
    | inr f ↦ rw (e, f) (flush-left c (flushed to a))
  ]
]

copy_step-put :
    (from to : End) (c : BufCopy) (a : Answer)
    → is_shut to ≡ true
    → put (copy_step from to c a).1 ≡ c.sink
unfolding copy_step ask
copy_step-put from to c a h = elim (Bool-cases (c.pos == c.cap && not c.read_done)) [
  | inl e ↦ rw e (read_some-put relay_size c (asked from a))
  | inr e ↦ elim (Bool-cases (ltb c.pos c.cap)) [
    | inl f ↦ rw (e, f, h) refl
    | inr f ↦ rw (e, f) (flush-put c (flushed to a))
  ]
]

close_writer-untaken :
    (to : End) (p : Progress) (a : Answer) → untaken (close_writer to p a).1 ≡ left p
close_writer-untaken (shared b) p a = refl
close_writer-untaken connection p not_ready = refl
close_writer-untaken connection p broken = refl
close_writer-untaken connection p (goes k) = refl

close_writer-written :
    (to : End) (p : Progress) (a : Answer) → written (close_writer to p a).1 ≡ put p
close_writer-written (shared b) p a = refl
close_writer-written connection p not_ready = refl
close_writer-written connection p broken = refl
close_writer-written connection p (goes k) = refl

advance-untaken :
    (from to : End) (d : Direction) (a : Answer)
    → is_shut from ≡ true
    → untaken (advance from to d a).2 ≡ untaken d
unfolding advance
advance-untaken from to (moving c) a h =
    after_copy-untaken (copy_step from to c a).1 ∙ copy_step-left from to c a h
advance-untaken from to (closing p) a h = close_writer-untaken to p a
advance-untaken from to (ended p) a h = refl

advance-written :
    (from to : End) (d : Direction) (a : Answer)
    → is_shut to ≡ true
    → written (advance from to d a).2 ≡ written d
unfolding advance
advance-written from to (moving c) a h =
    after_copy-written (copy_step from to c a).1 ∙ copy_step-put from to c a h
advance-written from to (closing p) a h = close_writer-written to p a
advance-written from to (ended p) a h = refl

-- An end that is closed stays so, and is the end of the same kind.
abbrev pub Stays : End → End → Type 0
Stays e e' = (is_shut e ≡ true → is_shut e' ≡ true) × ((e' ≡ e) ⊎ (e' ≡ shut e))

pub shut-Stays : (e : End) → Stays e (shut e)
shut-Stays connection = (λ h. h, inl refl)
shut-Stays (shared b) = (λ h. refl, inr refl)

read_from-Stays : (e : End) (p : Progress) → Stays e (read_from e p)
read_from-Stays e (copying c) = if_elim (Stays e) (shut-Stays e) (λ h. h, inl refl) c.read_done
read_from-Stays e (done n c) = (λ h. h, inl refl)
read_from-Stays e (failed c) = (λ h. h, inl refl)

copy_step-Stays : (from to : End) (c : BufCopy) (a : Answer) → Stays from (copy_step from to c a).0
unfolding copy_step
copy_step-Stays from to c a =
    let P : End × Progress → Type 0 = (λ x. Stays from x.0) in
    if_elim P (read_from-Stays from (ask relay_size c (asked from a)))
      (if_elim P (λ h. h, inl refl) (λ h. h, inl refl) (ltb c.pos c.cap))
      (c.pos == c.cap && not c.read_done)

close_writer-Stays : (to : End) (p : Progress) (a : Answer) → Stays to (close_writer to p a).0
close_writer-Stays (shared b) p a = (λ h. refl, inr refl)
close_writer-Stays connection p not_ready = (λ h. h, inl refl)
close_writer-Stays connection p broken = (λ h. h, inl refl)
close_writer-Stays connection p (goes k) = (λ h. h, inl refl)

pub advance-Stays :
    (from to : End) (d : Direction) (a : Answer)
    → Stays from (advance from to d a).0 × Stays to (advance from to d a).1
unfolding advance
advance-Stays from to (moving c) a = (copy_step-Stays from to c a, (λ h. h, inl refl))
advance-Stays from to (closing p) a = ((λ h. h, inl refl), close_writer-Stays to p a)
advance-Stays from to (ended p) a = ((λ h. h, inl refl), (λ h. h, inl refl))

-- The two ends of a relay, with the direction that reads from an end and the one that writes to it.
pub data Side : Type 0 where
  of_client of_server : Side

abbrev pub end_of : Side → Relay → End
end_of of_client r = r.client
end_of of_server r = r.server

abbrev pub reads_from : Side → Relay → Direction
reads_from of_client r = r.client_to_server
reads_from of_server r = r.server_to_client

abbrev pub writes_to : Side → Relay → Direction
writes_to of_client r = r.server_to_client
writes_to of_server r = r.client_to_server

-- The end is closed, and of it and to it has gone what `before` says.
abbrev pub IsFinal : Side → Relay → Relay → Type 0
IsFinal side before r =
    (is_shut (end_of side r) ≡ true)
    × (untaken (reads_from side r) ≡ untaken (reads_from side before))
    × (written (writes_to side r) ≡ written (writes_to side before))

take_turn-IsFinal :
    (side : Side) (r : Relay) (t : Turn)
    → is_shut (end_of side r) ≡ true
    → IsFinal side r (take_turn r t)
unfolding take_turn
take_turn-IsFinal of_client r (up a) h =
    let stays = (advance-Stays r.client r.server r.client_to_server a).0 in
    (stays.0 h, advance-untaken r.client r.server r.client_to_server a h, refl)
take_turn-IsFinal of_client r (down a) h =
    let stays = (advance-Stays r.server r.client r.server_to_client a).1 in
    (stays.0 h, refl, advance-written r.server r.client r.server_to_client a h)
take_turn-IsFinal of_client r client_gone h = ((shut-Stays r.client).0 h, refl, refl)
take_turn-IsFinal of_client r server_gone h = (h, refl, refl)
take_turn-IsFinal of_server r (up a) h =
    let stays = (advance-Stays r.client r.server r.client_to_server a).1 in
    (stays.0 h, refl, advance-written r.client r.server r.client_to_server a h)
take_turn-IsFinal of_server r (down a) h =
    let stays = (advance-Stays r.server r.client r.server_to_client a).0 in
    (stays.0 h, advance-untaken r.server r.client r.server_to_client a h, refl)
take_turn-IsFinal of_server r client_gone h = (h, refl, refl)
take_turn-IsFinal of_server r server_gone h = ((shut-Stays r.server).0 h, refl, refl)

-- A relay one of whose ends is a stream that is closed: by its session, at the end of its own bytes, or
-- because the direction that writes to it has shut its writer down. However the relay goes on, the
-- end stays closed, nothing more is taken from it and nothing more is written to it: the end of one
-- direction is the end of the other.
pub run-IsFinal :
    (side : Side) (turns : List Turn) (r : Relay)
    → is_shut (end_of side r) ≡ true
    → IsFinal side r (run turns r)
unfolding run
run-IsFinal side [] r h = (h, refl, refl)
run-IsFinal side (t ∷ ts) r h =
    let (c, x, y) = take_turn-IsFinal side r t h in
    let (c', x', y') = run-IsFinal side ts (take_turn r t) c in (c', x' ∙ x, y' ∙ y)
