-- ===== src/Event/Fields.antt =====
-- What the accessors of src/rmux/event.rs read back, and the frames of the event constructors.
use rsnova.Base.{
  ℕ, ◌+◌, ◌*◌, ◌/◌, ◌%◌, ◌^◌, ◌<◌, ◌≡◌, ◌≢◌, refl, ◌∙◌, inl, inr, bit_or, Bool, false, List, length,
  arith,
}
use rsnova.Base.Bits.{bit_and_byte, bit_or-shl_byte}
use rsnova.Base.Word.{IsU32, IsByte}
use rsnova.Event.{
  Header, Event, IsFramed, flags, len, get_flag_len, set_flag_len, set_flag, set_len, new_fin_event,
  new_ping_event, new_pong_event, new_data_event, new_window_update_event, new_auth_event,
  new_syn_event, flag_win_update, flag_data, flag_auth, flag_syn, flag_fin, flag_ping, flag_pong,
}

-- The header word in plain arithmetic.
pub flag_word : (l f : ℕ) → IsByte f → bit_or (l * 256 % 2 ^ 32) f ≡ l % 2 ^ 24 * 256 + f
flag_word l f h =
    let e : l * 256 % 2 ^ 32 ≡ l % 2 ^ 24 * 256 = omega arith in
    rw e (bit_or-shl_byte (l % 2 ^ 24) f h)

pub get_flag_len_lem : (l f : ℕ) → IsByte f → get_flag_len l f ≡ l % 2 ^ 24 * 256 + f
unfolding get_flag_len
get_flag_len_lem l f h = flag_word l f h

pub flags_lem : (h : Header) → flags h ≡ h.flag_len % 256
unfolding flags
flags_lem h = bit_and_byte h.flag_len

pub len_lem : (h : Header) → len h ≡ h.flag_len / 256
unfolding len
len_lem h = refl

pub len-lt : (h : Header) → IsU32 h.flag_len → len h < 2 ^ 24
len-lt h w = omega (arith, len_lem h)

-- Setting the length and the flag of a header reads back the flag, and the length modulo 2 ^ 24;
-- the stream id stays.
pub set_flag_len_fields :
    (h : Header) (l f : ℕ)
    → IsByte f
    → (flags (set_flag_len h l f) ≡ f)
      × (len (set_flag_len h l f) ≡ l % 2 ^ 24)
      × ((set_flag_len h l f).stream_id ≡ h.stream_id)
unfolding set_flag_len len
set_flag_len_fields h l f hf = (
  flags_lem (set_flag_len h l f) ∙ omega (arith, flag_word l f hf),
  omega (arith, flag_word l f hf),
  refl,
)

-- `set_flag` changes the flag alone and `set_len` the length alone.
pub set_fields :
    (h : Header) (v f : ℕ)
    → IsU32 h.flag_len
    → IsByte f
    → v < 2 ^ 24
    → (flags (set_flag h f) ≡ f)
      × (len (set_flag h f) ≡ len h)
      × (len (set_len h v) ≡ v)
      × (flags (set_len h v) ≡ flags h)
unfolding set_flag set_len
set_fields h v f hw hf hv =
    let (a, b, _) = set_flag_len_fields h (h.flag_len / 256) f hf in
    let (c, d, _) = set_flag_len_fields h v (flags h) (omega (arith, flags_lem h)) in
    (a, b ∙ omega (arith, len_lem h), d ∙ omega arith, c)

-- An event made of a flag other than a window update, with the length of its body.
IsFramed-word :
    (ev : Event) (f : ℕ)
    → IsByte f
    → f ≢ flag_win_update
    → ev.header.flag_len ≡ length ev.body * 256 + f
    → length ev.body < 2 ^ 24
    → IsU32 ev.header.stream_id
    → IsFramed ev
IsFramed-word ev f hf ne e hl hs = record {
  word = omega arith;
  id = hs;
  sized = inr ((λ w. ne (omega (arith, flags_lem ev.header))), omega (arith, len_lem ev.header));
}

pub new_data_event_word :
    (sid : ℕ) (buf : List ℕ) (remote : Bool)
    → length buf < 2 ^ 24
    → (new_data_event sid buf remote).header.flag_len ≡ length buf * 256 + flag_data
unfolding new_data_event
new_data_event_word sid buf remote h =
    omega (arith, flag_word (length buf % 2 ^ 32) flag_data (omega arith))

pub new_data_event-IsFramed :
    (sid : ℕ) (buf : List ℕ) (remote : Bool)
    → IsU32 sid
    → length buf < 2 ^ 24
    → IsFramed (new_data_event sid buf remote)
new_data_event-IsFramed sid buf remote hs hl =
    unfold new_data_event in
    IsFramed-word (new_data_event sid buf remote) flag_data (omega arith) (omega arith)
      (new_data_event_word sid buf remote hl) hl hs

pub set_flag_word :
    (h : Header) (f : ℕ)
    → IsU32 h.flag_len
    → IsByte f
    → (set_flag h f).flag_len ≡ h.flag_len / 256 * 256 + f
unfolding set_flag
set_flag_word h f hw hf = omega (arith, flag_word (h.flag_len / 256) f hf)

-- A data event under another flag, which is how `new_auth_event` and `new_syn_event` make theirs.
reflagged :
    (sid : ℕ) (buf : List ℕ) (f : ℕ)
    → IsU32 sid
    → length buf < 2 ^ 24
    → IsByte f
    → f ≢ flag_win_update
    → let ev = new_data_event sid buf false in
      IsFramed (record ev { header = set_flag ev.header f })
reflagged sid buf f hs hl hf ne =
    let ev = new_data_event sid buf false in
    let w = new_data_event_word sid buf false hl in
    let u : IsU32 ev.header.flag_len = omega arith in
    let e = set_flag_word ev.header f u hf in
    IsFramed-word (record ev { header = set_flag ev.header f }) f hf ne
      (unfold new_data_event in omega (arith, e, w)) (unfold new_data_event in hl)
      (unfold new_data_event set_flag in hs)

window_update-IsFramed :
    (sid window : ℕ) (remote : Bool)
    → IsU32 sid
    → IsFramed (new_window_update_event sid window remote)
unfolding new_window_update_event
window_update-IsFramed sid window remote hs =
    let e = flag_word window flag_win_update (omega arith) in
    record {
      word = omega arith;
      id = hs;
      sized = inl (
        flags_lem (record {
          flag_len = bit_or (window * 256 % 2 ^ 32) flag_win_update;
          stream_id = sid;
        })
            ∙ omega arith,
        refl,
      );
    }

-- The events of the sessions are framed: those with no body, a window update of any size, data
-- events and connect requests of less than 2 ^ 24 bytes, for a 32-bit stream id.
pub new_events-IsFramed {ℓ} :
    {T : Type ℓ} (serialize : T → List ℕ) (msg : T) (sid window : ℕ) (buf : List ℕ) (remote : Bool)
    → IsU32 sid
    → length buf < 2 ^ 24
    → length (serialize msg) < 2 ^ 24
    → IsFramed (new_fin_event sid remote)
      × IsFramed (new_ping_event sid remote)
      × IsFramed (new_pong_event sid remote)
      × IsFramed (new_data_event sid buf remote)
      × IsFramed (new_window_update_event sid window remote)
      × IsFramed (new_syn_event serialize sid msg)
      × IsFramed (new_auth_event serialize sid msg)
unfolding new_fin_event new_ping_event new_pong_event new_window_update_event
new_events-IsFramed serialize msg sid window buf remote hs hb hm = (
  IsFramed-word (new_fin_event sid remote) flag_fin (omega arith) (omega arith) refl (omega arith)
      hs,
  IsFramed-word (new_ping_event sid remote) flag_ping (omega arith) (omega arith) refl (omega arith)
      hs,
  IsFramed-word (new_pong_event sid remote) flag_pong (omega arith) (omega arith) refl (omega arith)
      hs,
  new_data_event-IsFramed sid buf remote hs hb,
  window_update-IsFramed sid window remote hs,
  unfold new_syn_event in reflagged sid (serialize msg) flag_syn hs hm (omega arith) (omega arith),
  unfold new_auth_event in
      reflagged sid (serialize msg) flag_auth hs hm (omega arith) (omega arith),
)
