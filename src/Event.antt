-- ===== src/Event.antt =====
-- src/rmux/event.rs: the header word of a multiplexed event, and the constructors of events.
-- A `u8`, `u32` or byte is a number; `len << 8` drops the bits above 32 as in the source.
pub mod Fields
use Prim.Native.String.{String}
use rsnova.Base.{
  ℕ, ◌*◌, ◌/◌, ◌%◌, ◌^◌, ◌≡◌, ◌≢◌, ◌⊎◌, bit_and, bit_or, Bool, true, false, List, [], length, ◌==◌,
  if◌then◌else◌,
}
use rsnova.Base.Word.{IsU32}

abbrev pub flag_syn : ℕ
flag_syn = 1

abbrev pub flag_fin : ℕ
flag_fin = 2

abbrev pub flag_data : ℕ
flag_data = 3

abbrev pub flag_win_update : ℕ
flag_win_update = 4

abbrev pub flag_ping : ℕ
flag_ping = 5

abbrev pub flag_auth : ℕ
flag_auth = 6

abbrev pub flag_shutdown : ℕ
flag_shutdown = 7

abbrev pub flag_pong : ℕ
flag_pong = 8

abbrev pub flag_routine : ℕ
flag_routine = 9

abbrev pub event_header_len : ℕ
event_header_len = 8

pub get_event_type_str : ℕ → String
get_event_type_str flags =
    if flags == flag_syn
    then "FLAG_SYN"
    else if flags == flag_fin
    then "FLAG_FIN"
    else if flags == flag_data
    then "FLAG_DATA"
    else if flags == flag_win_update
    then "FLAG_WIN_UPDATE"
    else if flags == flag_ping
    then "FLAG_PING"
    else if flags == flag_auth
    then "FLAG_AUTH"
    else if flags == flag_shutdown
    then "FLAG_SHUTDOWN"
    else if flags == flag_pong
    then "FLAG_PONG"
    else "INVALID"

pub record Header : Type 0 where
  pub flag_len : ℕ
  pub stream_id : ℕ

-- `(len << 8) | u32::from(flag)`
unfoldable pub get_flag_len : ℕ → ℕ → ℕ
get_flag_len len flag = bit_or (len * 256 % 2 ^ 32) flag

unfoldable pub set_flag_len : Header → ℕ → ℕ → Header
set_flag_len h len flag = record h { flag_len = bit_or (len * 256 % 2 ^ 32) flag }

unfoldable pub flags : Header → ℕ
flags h = bit_and h.flag_len 255

unfoldable pub len : Header → ℕ
len h = h.flag_len / 256

unfoldable pub set_len : Header → ℕ → Header
unfolding set_flag_len flags
set_len h v = let f = flags h in set_flag_len h v f

unfoldable pub set_flag : Header → ℕ → Header
unfolding set_flag_len len
set_flag h v = let l = len h in set_flag_len h l v

pub record Event : Type 0 where
  pub header : Header
  pub body : List ℕ
  pub remote : Bool

unfoldable pub is_empty : Event → Bool
unfolding flags
is_empty ev = flags ev.header == 0

-- The constructors with an empty body differ in the flag and the length only.
abbrev bare : ℕ → ℕ → ℕ → Bool → Event
bare sid len flag remote = record {
  header = record { flag_len = get_flag_len len flag; stream_id = sid };
  body = [];
  remote = remote;
}

unfoldable pub new_empty_event : Bool → Event
unfolding get_flag_len
new_empty_event remote = bare 0 0 0 remote

unfoldable pub new_fin_event : ℕ → Bool → Event
unfolding get_flag_len
new_fin_event sid remote = bare sid 0 flag_fin remote

unfoldable pub new_shutdown_event : ℕ → Bool → Event
unfolding get_flag_len
new_shutdown_event sid remote = bare sid 0 flag_shutdown remote

unfoldable pub new_routine_event : ℕ → Event
unfolding get_flag_len
new_routine_event sid = bare sid 0 flag_routine false

unfoldable pub new_ping_event : ℕ → Bool → Event
unfolding get_flag_len
new_ping_event sid remote = bare sid 0 flag_ping remote

unfoldable pub new_pong_event : ℕ → Bool → Event
unfolding get_flag_len
new_pong_event sid remote = bare sid 0 flag_pong remote

-- `buf.len() as u32`
unfoldable pub new_data_event : ℕ → List ℕ → Bool → Event
unfolding get_flag_len
new_data_event sid buf remote = record {
  header = record { flag_len = get_flag_len (length buf % 2 ^ 32) flag_data; stream_id = sid };
  body = buf;
  remote = remote;
}

unfoldable pub new_window_update_event : ℕ → ℕ → Bool → Event
unfolding get_flag_len
new_window_update_event sid len remote = bare sid len flag_win_update remote

-- `bincode` is not part of the program: the serialiser of the message type is an argument.
module _ {ℓ} {T : Type ℓ} (serialize : T → List ℕ) where
  unfoldable pub new_auth_event : ℕ → T → Event
  unfolding new_data_event set_flag
  new_auth_event sid msg =
      let ev = new_data_event sid (serialize msg) false in
      record ev { header = set_flag ev.header flag_auth }

  unfoldable pub new_syn_event : ℕ → T → Event
  unfolding new_data_event set_flag
  new_syn_event sid msg =
      let ev = new_data_event sid (serialize msg) false in
      record ev { header = set_flag ev.header flag_syn }

-- The header says how many body bytes follow it; a window update carries a number there and no
-- body.
pub record IsFramed (ev : Event) : Type 0 where
  pub word : IsU32 ev.header.flag_len
  pub id : IsU32 ev.header.stream_id
  pub sized :
      ((flags ev.header ≡ flag_win_update) × (ev.body ≡ []))
      ⊎ ((flags ev.header ≢ flag_win_update) × (length ev.body ≡ len ev.header))
